-- ===== src/Codegen/Code.antt =====
-- dsl/src/codegen.rs, `generate_global_step`: what an arm of the generated `global_step` is made of. An
-- index is a slot of the running function's frame, a state is the name of a variant.
use maroon.Prelude.{ℕ, String, List, Bool, Option}

-- A `let` at the start of an arm.
pub data Binding : Type 0 where
  from_frame : (name ty variant : String) → (index : ℕ) → Binding
  from_heap : (name ty heap_field : String) → Binding
  not_found : String → Binding

pub data PrimitiveCode : Type 0 where
  future : PrimitiveCode
  queue : (index : ℕ) → Bool → PrimitiveCode
  schedule : (index : ℕ) → PrimitiveCode

-- `SuccessBindKind`
pub data KindCode : Type 0 where
  string : KindCode
  future : String → KindCode

pub data SetCode : Type 0 where
  queue_message : (queue variant value : String) → SetCode
  future : (id variant value : String) → SetCode

pub data ArmCode : Type 0 where
  queue : (queue bind next : String) → ArmCode
  future_var : (id : String) → Option String → (next : String) → ArmCode

pub data EntryCode : Type 0 where
  state : String → EntryCode
  retrn : Option ℕ → EntryCode
  value : (name variant value : String) → EntryCode

pub record CreateCode : Type 0 where
  pub primitives : List PrimitiveCode
  pub success_next : String
  pub success_binds : List String
  pub success_kinds : List KindCode
  pub fail_next : String
  pub fail_binds : List String

-- The expression that ends an arm.
pub data StepCode : Type 0 where
  debug : String → (next : String) → StepCode
  debug_print_vars : (next : String) → StepCode
  create_fibers : List (String × List (String × ℕ)) → (next : String) → StepCode
  create : CreateCode → StepCode
  set_values : List SetCode → (next : String) → StepCode
  select : List ArmCode → StepCode
  next : List EntryCode → StepCode
  go_to : String → StepCode
  return : (variant value : String) → StepCode
  return_void : StepCode
  branch : (cond then_ else_ : String) → StepCode
  assign : ℕ → (variant value : String) → (next : String) → StepCode
  block_return : (code variant : String) → StepCode
  block_assign : (code : String) → ℕ → (variant : String) → (next : String) → StepCode
  block_assigns : (code : String) → List (ℕ × String) → (next : String) → StepCode
