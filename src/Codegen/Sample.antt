-- ===== src/Codegen/Sample.antt =====
-- runtime/src/ir_spec.rs: the program that generated/src/maroon_assembler.rs is generated from.
pub mod Functions
pub mod Queues
pub mod Mains
use maroon.Prelude.{List, [], ◌∷◌}
use maroon.Dsl.{IrType, nil, field, IrFiber, Ir}
use maroon.Codegen.Sample.Functions.{
  test_functions_call_main, test_functions_call_mult, test_functions_call_sub,
  test_functions_call_factorial, test_functions_call_binary_search,
}
use maroon.Codegen.Sample.Queues.{
  test_select_queue_main, test_task_executor_incrementer_main, test_create_queue_main,
}
use maroon.Codegen.Sample.Mains.{
  root_main, test_root_fiber_main, test_calculator_main, test_root_fiber_sleep_test_main,
  test_infinite_summator_main,
}

abbrev sample_types : List IrType
sample_types =
    ((IrType.struct "TestIncrementTask"
        (field "in_str_value" IrType.uint64 (
          field "in_str_resp_future_id" IrType.string
            (field "in_str_resp_queue_name" IrType.string nil)))
        "")
      ∷ (IrType.pub_queue_message "TestCreateQueueMessage"
          (field "value" IrType.uint64 (field "public_future_id" (IrType.future IrType.uint64) nil))
          "")
      ∷ (IrType.struct "TestCalculatorTask"
          (field "a" IrType.uint64 (
            field "b" IrType.uint64 (field "response_future_id" (IrType.future IrType.uint64) nil)))
          "")
      ∷ (IrType.pub_queue_message "TestInfiniteSummatorQueueMessage"
          (field "a" IrType.uint64
            (field "b" IrType.uint64 (field "public_future_id" (IrType.future IrType.uint64) nil)))
          "")
      ∷ [])

abbrev pub root : IrFiber
root = record { heap = []; init_vars = []; funcs = (("main", root_main) ∷ []) }

abbrev pub test_select_queue : IrFiber
test_select_queue = record {
  heap = [];
  init_vars = [];
  funcs = (("main", test_select_queue_main) ∷ []);
}

abbrev pub test_task_executor_incrementer : IrFiber
test_task_executor_incrementer = record {
  heap = [];
  init_vars = (("in_taskQueueName", IrType.string) ∷ []);
  funcs = (("main", test_task_executor_incrementer_main) ∷ []);
}

abbrev pub test_create_queue : IrFiber
test_create_queue = record {
  heap = [];
  init_vars = [];
  funcs = (("main", test_create_queue_main) ∷ []);
}

abbrev pub test_root_fiber : IrFiber
test_root_fiber = record {
  heap = [];
  init_vars = [];
  funcs = (("main", test_root_fiber_main) ∷ []);
}

abbrev pub test_calculator : IrFiber
test_calculator = record {
  heap = [];
  init_vars = (("calculationRequestsQueueName", IrType.string) ∷ []);
  funcs = (("main", test_calculator_main) ∷ []);
}

abbrev pub test_root_fiber_sleep_test : IrFiber
test_root_fiber_sleep_test = record {
  heap = [];
  init_vars = [];
  funcs = (("main", test_root_fiber_sleep_test_main) ∷ []);
}

abbrev pub test_infinite_summator : IrFiber
test_infinite_summator = record {
  heap = [];
  init_vars = [];
  funcs = (("main", test_infinite_summator_main) ∷ []);
}

abbrev pub test_functions_call : IrFiber
test_functions_call = record {
  heap = (("binary_search_values", (IrType.array IrType.uint64)) ∷ []);
  init_vars =
      (("multa", IrType.uint64)
        ∷ ("multb", IrType.uint64)
        ∷ ("factorialStart", IrType.uint64)
        ∷ ("binarySearchArray", (IrType.array IrType.uint64))
        ∷ ("binarySearchTarget", IrType.uint64)
        ∷ []);
  funcs =
      (("main", test_functions_call_main)
        ∷ ("mult", test_functions_call_mult)
        ∷ ("sub", test_functions_call_sub)
        ∷ ("factorial", test_functions_call_factorial)
        ∷ ("binary_search", test_functions_call_binary_search)
        ∷ []);
}

abbrev pub sample_ir : Ir
sample_ir = record {
  types = sample_types;
  fibers =
      (("root", root)
        ∷ ("testSelectQueue", test_select_queue)
        ∷ ("testTaskExecutorIncrementer", test_task_executor_incrementer)
        ∷ ("testCreateQueue", test_create_queue)
        ∷ ("testRootFiber", test_root_fiber)
        ∷ ("testCalculator", test_calculator)
        ∷ ("testRootFiberSleepTest", test_root_fiber_sleep_test)
        ∷ ("testInfiniteSummator", test_infinite_summator)
        ∷ ("testFunctionsCall", test_functions_call)
        ∷ []);
}
