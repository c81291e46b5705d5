-- ===== src/Codegen/Sample/Mains.antt =====
-- runtime/src/ir_spec.rs: the main functions of the other fibers.
use maroon.Prelude.{[], ◌∷◌, none, some, true}
use maroon.Dsl.{IrType, Expr, AwaitSpec, SetPrimitive, RuntimePrimitive, Step, Func}

abbrev pub root_main : Func
root_main = record {
  in_vars = [];
  out = IrType.void;
  locals = [];
  steps =
      ((
        "entry",
        Step.create_fibers ((record { f_name = "testInfiniteSummator"; init_vars = [] }) ∷ [])
            "return",
      )
        ∷ ("return", Step.return_void)
        ∷ []);
}

abbrev pub test_root_fiber_main : Func
test_root_fiber_main = record {
  in_vars = [];
  out = IrType.void;
  locals =
      (("rootQueueName", IrType.string)
        ∷ ("calculatorTask", (IrType.custom "TestCalculatorTask"))
        ∷ ("calculatorTask2", (IrType.custom "TestCalculatorTask"))
        ∷ ("responseFutureId", (IrType.future IrType.uint64))
        ∷ ("responseFutureId2", (IrType.future IrType.uint64))
        ∷ ("responseFromCalculator", IrType.string)
        ∷ ("responseFromCalculator2", IrType.string)
        ∷ ("createQueueError", (IrType.option IrType.string))
        ∷ ("createFutureError", (IrType.option IrType.string))
        ∷ ("createFutureError2", (IrType.option IrType.string))
        ∷ []);
  steps =
      (("entry", Step.assign "rootQueueName" (Expr.str "rootQueue") "create_queueues")
        ∷ (
          "create_queueues",
          Step.create ((RuntimePrimitive.queue "rootQueueName" true) ∷ [])
              (record { next = "create_fiber"; id_binds = ("rootQueueName" ∷ []) })
              (record { next = "return_dbg"; error_binds = ("createQueueError" ∷ []) }),
        )
        ∷ (
          "create_fiber",
          Step.create_fibers
              ((record { f_name = "testCalculator"; init_vars = ("rootQueueName" ∷ []) })
                ∷ (record { f_name = "testCalculator"; init_vars = ("rootQueueName" ∷ []) })
                ∷ [])
              "create_future",
        )
        ∷ (
          "create_future",
          Step.create (RuntimePrimitive.future ∷ RuntimePrimitive.future ∷ [])
              (record {
                next = "prepareCalculationRequests";
                id_binds = ("responseFutureId" ∷ "responseFutureId2" ∷ []);
              })
              (record {
                next = "return_dbg";
                error_binds = ("createFutureError" ∷ "createFutureError2" ∷ []);
              }),
        )
        ∷ (
          "prepareCalculationRequests",
          Step.rust_block ("calculatorTask" ∷ "calculatorTask2" ∷ [])
              "(TestCalculatorTask{a:10,b:15,responseFutureId: responseFutureId}, TestCalculatorTask{a:2,b:4,responseFutureId: responseFutureId2})"
              "send_calculation_request",
        )
        ∷ (
          "send_calculation_request",
          Step.set_values
              ((SetPrimitive.queue_message "rootQueueName" "calculatorTask")
                ∷ (SetPrimitive.queue_message "rootQueueName" "calculatorTask2")
                ∷ [])
              "await_response",
        )
        ∷ (
          "await_response",
          Step.select (
              (AwaitSpec.future (some "responseFromCalculator") "await_response_2"
                "responseFutureId2")
              ∷ []),
        )
        ∷ (
          "await_response_2",
          Step.select (
              (AwaitSpec.future (some "responseFromCalculator2") "return_dbg" "responseFutureId")
              ∷ []),
        )
        ∷ ("return_dbg", Step.debug_print_vars "return")
        ∷ ("return", Step.return_void)
        ∷ []);
}

abbrev pub test_calculator_main : Func
test_calculator_main = record {
  in_vars = [];
  out = IrType.void;
  locals =
      (("request", (IrType.custom "TestCalculatorTask"))
        ∷ ("result", IrType.uint64)
        ∷ ("respFutureId", (IrType.future IrType.uint64))
        ∷ []);
  steps =
      (("entry", Step.debug_print_vars "select_queue")
        ∷ (
          "select_queue",
          Step.select
              ((AwaitSpec.queue "calculationRequestsQueueName" "request" "debug_gotten_task") ∷ []),
        )
        ∷ ("debug_gotten_task", Step.debug "got task from the queue" "debug_vars")
        ∷ ("debug_vars", Step.debug_print_vars "calculate")
        ∷ (
          "calculate",
          Step.rust_block ("result" ∷ "respFutureId" ∷ [])
              "(request.a * request.b, request.responseFutureId)" "response",
        )
        ∷ (
          "response",
          Step.set_values ((SetPrimitive.future "respFutureId" "result") ∷ []) "return",
        )
        ∷ ("return", Step.return_void)
        ∷ []);
}

abbrev pub test_root_fiber_sleep_test_main : Func
test_root_fiber_sleep_test_main = record {
  in_vars = [];
  out = IrType.void;
  locals =
      (("scheduledFutId", (IrType.future IrType.void))
        ∷ ("createScheduleError", (IrType.option IrType.string))
        ∷ ("await_milliseconds", IrType.uint64)
        ∷ []);
  steps =
      (("entry", Step.assign "await_milliseconds" (Expr.uint64 150) "create_primitives")
        ∷ (
          "create_primitives",
          Step.create ((RuntimePrimitive.schedule "await_milliseconds") ∷ [])
              (record { next = "seelect"; id_binds = ("scheduledFutId" ∷ []) })
              (record { next = "return_dbg"; error_binds = ("createScheduleError" ∷ []) }),
        )
        ∷ ("seelect", Step.select ((AwaitSpec.future none "return_dbg" "scheduledFutId") ∷ []))
        ∷ ("return_dbg", Step.debug_print_vars "return")
        ∷ ("return", Step.return_void)
        ∷ []);
}

abbrev pub test_infinite_summator_main : Func
test_infinite_summator_main = record {
  in_vars = [];
  out = IrType.void;
  locals =
      (("infiniteCalculatorQueue", IrType.string)
        ∷ ("request", (IrType.custom "TestInfiniteSummatorQueueMessage"))
        ∷ ("result", IrType.uint64)
        ∷ ("createQueueError", (IrType.option IrType.string))
        ∷ ("respFutureId", (IrType.future IrType.uint64))
        ∷ []);
  steps =
      ((
        "entry",
        Step.assign "infiniteCalculatorQueue" (Expr.str "testInfiniteCalculatorQueue")
            "create_queue",
      )
        ∷ (
          "create_queue",
          Step.create ((RuntimePrimitive.queue "infiniteCalculatorQueue" true) ∷ [])
              (record { next = "select_queue"; id_binds = ("infiniteCalculatorQueue" ∷ []) })
              (record { next = "return"; error_binds = ("createQueueError" ∷ []) }),
        )
        ∷ (
          "select_queue",
          Step.select ((AwaitSpec.queue "infiniteCalculatorQueue" "request" "calculate") ∷ []),
        )
        ∷ (
          "calculate",
          Step.rust_block ("result" ∷ "respFutureId" ∷ [])
              "(request.a * request.b, request.publicFutureId)" "response",
        )
        ∷ (
          "response",
          Step.set_values ((SetPrimitive.future "respFutureId" "result") ∷ []) "select_queue",
        )
        ∷ ("return", Step.return_void)
        ∷ []);
}
