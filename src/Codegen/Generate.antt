-- ===== src/Codegen/Generate.antt =====
-- dsl/src/codegen.rs, `generate_rust_types`: the whole text of the generated module.
use maroon.Prelude.{ℕ, String, [], ◌∷◌, map, Outcome, ok, ◌>>=◌}
use maroon.Dsl.{FiberType, Func, IrFiber, Ir}
use maroon.Codegen.Names.{format}
use maroon.Codegen.States.{sorted, func_states}
use maroon.Codegen.Decls.{type_decls}
use maroon.Codegen.Wrappers.{future_wrappers, wrapper_structs, future_kinds}
use maroon.Codegen.Values.{value_enum}
use maroon.Codegen.Messages.{converters}
use maroon.Codegen.Heaps.{heap_structs, generate_heap_init_helpers}
use maroon.Codegen.Prepare.{generate_prepare_and_result_helpers}
use maroon.Codegen.Arms.{generate_func_args_count, generate_global_step}

abbrev stack_entry : String
stack_entry = format (
    "#[derive(Clone, Debug, PartialEq, Eq)]\n" ∷ "pub enum StackEntry {\n" ∷ "  State(State),\n"
    ∷ "  // Option<usize> - local index offset back on stack\n"
    ∷ "  // if it's None - no value will be binded into the local variable of the function that initiated call\n"
    ∷ "  Retrn(Option<usize>),\n" ∷ "  Value(String, Value),\n"
    ∷ "  // In-place updates to the current frame (offset -> new Value)\n"
    ∷ "  FrameAssign(Vec<(usize, Value)>),\n" ∷ "}\n" ∷ [])

abbrev step_result : String
step_result = format (
    "#[derive(Clone, Debug, PartialEq, Eq)]\n"
    ∷ "pub enum SuccessBindKind { String, Future(FutureKind) }\n" ∷ "\n"
    ∷ "#[derive(Clone, Debug, PartialEq, Eq)]\n" ∷ "pub enum SelectArm {\n"
    ∷ "  FutureVar { future_id: String, bind: Option<String>, next: State },\n"
    ∷ "  Queue { queue_name: String, bind: String, next: State },\n" ∷ "}\n" ∷ "\n"
    ∷ "#[derive(Clone, Debug, PartialEq, Eq, Serialize, Deserialize)]\n"
    ∷ "pub enum CreatePrimitiveValue {\n" ∷ "  Future,\n"
    ∷ "  Queue { name: String, public: bool },\n"
    ∷ "  // Create a scheduled timer future that resolves after `ms` milliseconds.\n"
    ∷ "  // The created future is a Void future (Unit), i.e., it signals completion with no value.\n"
    ∷ "  Schedule { ms: u64 },\n" ∷ "}\n" ∷ "\n"
    ∷ "#[derive(Clone, Debug, PartialEq, Eq, Serialize, Deserialize)]\n"
    ∷ "pub enum SetPrimitiveValue {\n" ∷ "  QueueMessage { queue_name: String, value: Value },\n"
    ∷ "  Future { id: String, value: Value },\n" ∷ "}\n" ∷ "\n"
    ∷ "#[derive(Clone, Debug, PartialEq, Eq)]\n" ∷ "pub enum StepResult {\n" ∷ "  Done,\n"
    ∷ "  Next(Vec<StackEntry>),\n" ∷ "  GoTo(State),\n" ∷ "  Select(Vec<SelectArm>),\n"
    ∷ "  // Atomically create runtime primitives and branch based on outcome.\n" ∷ "  Create {\n"
    ∷ "    primitives: Vec<CreatePrimitiveValue>,\n" ∷ "    success_next: State,\n"
    ∷ "    success_binds: Vec<String>,\n" ∷ "    success_kinds: Vec<SuccessBindKind>,\n"
    ∷ "    fail_next: State,\n" ∷ "    fail_binds: Vec<String>,\n" ∷ "  },\n"
    ∷ "  // Return can carry an optional value to be consumed by the runtime.\n"
    ∷ "  Return(Value),\n" ∷ "  ReturnVoid,\n" ∷ "  Todo(String),\n"
    ∷ "  // Broadcast updates to async primitives (queues/futures) and continue to `next`.\n"
    ∷ "  SetValues { values: Vec<SetPrimitiveValue>, next: State },\n" ∷ "  // Debug\n"
    ∷ "  // Print a string message and continue to the provided next state.\n"
    ∷ "  Debug(&'static str, State),\n"
    ∷ "  // Print all current-frame vars in order and continue to next state.\n"
    ∷ "  DebugPrintVars(State),\n"
    ∷ "  // Spawn new fibers (fire-and-forget) and continue to `next`.\n"
    ∷ "  // Runtime may ignore this for now; present for forward-compat.\n"
    ∷ "  CreateFibers { details: Vec<(FiberType, Vec<Value>)>, next: State },\n" ∷ "}\n" ∷ [])

abbrev prelude : String
prelude = format (
    "// Generated by dsl::codegen from IR\n" ∷ "#![allow(dead_code)]\n"
    ∷ "#![allow(unused_variables)]\n" ∷ "#![allow(non_snake_case)]\n\n"
    ∷ "use serde::{Serialize, Deserialize};\n" ∷ "use crate::ir::FiberType;\n\n" ∷ [])

abbrev func_variants : FiberType → String × Func → String
unfolding func_states
func_variants fiber (name, func) =
    format (map (λ v. format ("  " ∷ v ∷ ",\n" ∷ [])) (func_states fiber name func))

abbrev fiber_variants : FiberType × IrFiber → String
unfolding func_variants sorted
fiber_variants (name, fiber) = format (map (func_variants name) (sorted fiber.funcs))

unfoldable pub state_enum : Ir → String
unfolding fiber_variants sorted
state_enum ir = format (
    "#[derive(Clone, Debug, PartialEq, Eq)]\npub enum State {\n"
    ∷ "  Completed,\n  Idle,\n"
    ∷ format (map fiber_variants (sorted ir.fibers))
    ∷ "}\n\n"
    ∷ [])

-- With fuel for the declared types that refer to each other.
unfoldable pub generate_rust_types : ℕ → Ir → Outcome String
unfolding type_decls future_wrappers heap_structs state_enum value_enum converters
    generate_func_args_count generate_global_step generate_prepare_and_result_helpers
    generate_heap_init_helpers
generate_rust_types fuel ir = do
  wrappers ← future_wrappers fuel ir
  step ← generate_global_step ir
  ok (
      format (
        prelude
        ∷ type_decls ir
        ∷ wrapper_structs wrappers
        ∷ heap_structs ir
        ∷ state_enum ir
        ∷ value_enum ir
        ∷ converters ir
        ∷ stack_entry
        ∷ future_kinds wrappers
        ∷ step_result
        ∷ generate_func_args_count ir
        ∷ step
        ∷ generate_prepare_and_result_helpers ir
        ∷ generate_heap_init_helpers ir
        ∷ []))
