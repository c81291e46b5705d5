-- ===== src/Codegen/Sample/Queues.antt =====
-- runtime/src/ir_spec.rs: the main functions of the fibers that work on a queue.
use maroon.Prelude.{[], ◌∷◌, some, true}
use maroon.Dsl.{IrType, Expr, AwaitSpec, SetPrimitive, RuntimePrimitive, Step, Func}

abbrev pub test_select_queue_main : Func
test_select_queue_main = record {
  in_vars = [];
  out = IrType.void;
  locals =
      (("counter", IrType.uint64)
        ∷ ("responseFromFut", IrType.uint64)
        ∷ ("counterStartQueueName", IrType.string)
        ∷ ("futureId", IrType.string)
        ∷ ("isThree", IrType.bool)
        ∷ []);
  steps =
      ((
        "entry",
        Step.assign "counterStartQueueName" (Expr.str "counterStartQueue") "init_future_id",
      )
        ∷ (
          "init_future_id",
          Step.assign "futureId" (Expr.str "testSelectQueue_future_1") "select_counter",
        )
        ∷ (
          "select_counter",
          Step.select (
              (AwaitSpec.queue "counterStartQueueName" "counter" "start_work")
              ∷ (AwaitSpec.future (some "responseFromFut") "inc_from_fut" "futureId")
              ∷ []),
        )
        ∷ ("inc_from_fut", Step.rust_block ("counter" ∷ []) "responseFromFut - 1" "prepare_cond")
        ∷ ("start_work", Step.rust_block ("counter" ∷ []) "counter + 1" "prepare_cond")
        ∷ (
          "prepare_cond",
          Step.assign "isThree" (Expr.equal (Expr.var "counter") (Expr.uint64 3)) "compare",
        )
        ∷ ("compare", Step.branch (Expr.var "isThree") "return" "start_work")
        ∷ ("return", Step.return_void)
        ∷ []);
}

abbrev pub test_task_executor_incrementer_main : Func
test_task_executor_incrementer_main = record {
  in_vars = [];
  out = IrType.void;
  locals =
      (("f_task", (IrType.custom "TestIncrementTask"))
        ∷ ("f_respFutureId", (IrType.future (IrType.custom "TestIncrementTask")))
        ∷ ("f_respQueueName", IrType.string)
        ∷ ("f_tasksQueueName", IrType.string)
        ∷ []);
  steps =
      (("entry", Step.debug "start function" "init_queue_name")
        ∷ (
          "init_queue_name",
          Step.rust_block ("f_tasksQueueName" ∷ [])
              "heap.testTaskExecutorIncrementer.in_vars.inTaskqueuename.clone()" "debug_vars",
        )
        ∷ ("debug_vars", Step.debug_print_vars "await")
        ∷ ("await", Step.select ((AwaitSpec.queue "f_tasksQueueName" "f_task" "increment") ∷ []))
        ∷ (
          "increment",
          Step.rust_block ("f_task" ∷ "f_respQueueName" ∷ "f_respFutureId" ∷ [])
              "\n                    let mut t_m = fTask;\n                    t_m.inStrValue += 1;\n                    (t_m.clone(), t_m.inStrRespQueueName, FutureTestIncrementTask(t_m.inStrRespFutureId))\n                  "
              "debug2",
        )
        ∷ ("debug2", Step.debug "after increment" "debug_vars2")
        ∷ ("debug_vars2", Step.debug_print_vars "return_result")
        ∷ (
          "return_result",
          Step.set_values
              ((SetPrimitive.future "f_respFutureId" "f_task")
                ∷ (SetPrimitive.queue_message "f_respQueueName" "f_task")
                ∷ [])
              "return",
        )
        ∷ ("return", Step.return_void)
        ∷ []);
}

abbrev pub test_create_queue_main : Func
test_create_queue_main = record {
  in_vars = [];
  out = IrType.void;
  locals =
      (("value", (IrType.custom "TestCreateQueueMessage"))
        ∷ ("f_queueName", IrType.string)
        ∷ ("created_queue_name", IrType.string)
        ∷ ("f_queueCreationError", (IrType.option IrType.string))
        ∷ ("f_future_id_response", (IrType.future IrType.uint64))
        ∷ ("f_res_inc", IrType.uint64)
        ∷ []);
  steps =
      (("entry", Step.assign "f_queueName" (Expr.str "randomQueueName") "wrong_queue_creation")
        ∷ (
          "wrong_queue_creation",
          Step.create
              ((RuntimePrimitive.queue "f_queueName" true)
                ∷ (RuntimePrimitive.queue "f_queueName" true)
                ∷ [])
              (record {
                next = "return";
                id_binds = ("created_queue_name" ∷ "created_queue_name" ∷ []);
              })
              (record {
                next = "debug_vars";
                error_binds = ("f_queueCreationError" ∷ "f_queueCreationError" ∷ []);
              }),
        )
        ∷ ("debug_vars", Step.debug_print_vars "clean_up")
        ∷ (
          "clean_up",
          Step.rust_block ("created_queue_name" ∷ "f_queueCreationError" ∷ [])
              "(String::new(), None)" "correct_creation",
        )
        ∷ (
          "correct_creation",
          Step.create ((RuntimePrimitive.queue "f_queueName" true) ∷ [])
              (record { next = "debug_vars_2"; id_binds = ("created_queue_name" ∷ []) })
              (record { next = "return"; error_binds = ("f_queueCreationError" ∷ []) }),
        )
        ∷ ("debug_vars_2", Step.debug_print_vars "await_on_queue")
        ∷ (
          "await_on_queue",
          Step.select ((AwaitSpec.queue "created_queue_name" "value" "extract_fut_and_inc") ∷ []),
        )
        ∷ (
          "extract_fut_and_inc",
          Step.rust_block ("f_future_id_response" ∷ "f_res_inc" ∷ [])
              "(value.publicFutureId, value.value + 2)" "debug_vars_3",
        )
        ∷ ("debug_vars_3", Step.debug_print_vars "answer")
        ∷ (
          "answer",
          Step.set_values ((SetPrimitive.future "f_future_id_response" "f_res_inc") ∷ []) "return",
        )
        ∷ ("return", Step.return_void)
        ∷ []);
}
