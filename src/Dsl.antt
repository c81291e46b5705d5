-- ===== src/Dsl.antt =====
-- dsl/src/ir.rs: the intermediate representation of a program. Its newtypes over strings are strings
-- here; a list inside the type of its own items is a data type of the same block.
pub mod Infer
pub mod Checks
pub mod Calls
pub mod Primitives
pub mod Valid
pub mod Clean
pub mod Scope
pub mod Typing
pub mod Collected
pub mod TypedCalls
pub mod TypedPrimitives
pub mod Typed
mod Shape
mod Targets
mod Tests
use maroon.Prelude.{ℕ, String, List, Bool, Option}
use maroon.Prelude.Maps.{Map}

abbrev pub StepId : Type 0
StepId = String

abbrev pub FiberType : Type 0
FiberType = String

abbrev pub LocalVarRef : Type 0
LocalVarRef = String

mutual
  -- `Type`
  pub data IrType : Type 0 where
    uint64 string bool void : IrType
    map : IrType → IrType → IrType
    array : IrType → IrType
    struct : String → StructFields → String → IrType
    max_queue min_queue option future : IrType → IrType
    custom : String → IrType
    pub_queue_message : String → StructFields → String → IrType

  -- `Vec<StructField>`
  pub data StructFields : Type 0 where
    nil : StructFields
    field : String → IrType → StructFields → StructFields

-- `InVar` and `LocalVar`
abbrev pub InVar : Type 0
InVar = String × IrType

mutual
  pub data Expr : Type 0 where
    uint64 : ℕ → Expr
    str : String → Expr
    bool : Bool → Expr
    var : LocalVarRef → Expr
    equal greater less : Expr → Expr → Expr
    is_some unwrap : Expr → Expr
    get_field : Expr → String → Expr
    struct_update : Expr → Updates → Expr

  -- `Vec<(String, Expr)>`
  pub data Updates : Type 0 where
    nil : Updates
    update : String → Expr → Updates → Updates

pub data RetValue : Type 0 where
  var : LocalVarRef → RetValue
  uint64 : ℕ → RetValue
  str : String → RetValue
  bool : Bool → RetValue
  some : RetValue → RetValue
  none : RetValue

pub record FuncRef : Type 0 where
  pub fiber : String
  pub func : String

pub data AwaitSpec : Type 0 where
  future : Option LocalVarRef → StepId → LocalVarRef → AwaitSpec
  queue : (queue_name message_var : LocalVarRef) → StepId → AwaitSpec

pub data SetPrimitive : Type 0 where
  queue_message : (f_var_queue_name var_name : LocalVarRef) → SetPrimitive
  future : (f_var_name var_name : LocalVarRef) → SetPrimitive

pub data RuntimePrimitive : Type 0 where
  future : RuntimePrimitive
  queue : LocalVarRef → Bool → RuntimePrimitive
  schedule : LocalVarRef → RuntimePrimitive

pub record SuccessCreateBranch : Type 0 where
  pub next : StepId
  pub id_binds : List LocalVarRef

pub record FailCreateBranch : Type 0 where
  pub next : StepId
  pub error_binds : List LocalVarRef

pub record CreateFiberDetail : Type 0 where
  pub f_name : FiberType
  pub init_vars : List LocalVarRef

pub data Step : Type 0 where
  call : FuncRef → List Expr → (bind : Option LocalVarRef) → (ret_to : StepId) → Step
  return : RetValue → Step
  return_void : Step
  branch : Expr → (then_ else_ : StepId) → Step
  assign : (local : String) → Expr → (next : StepId) → Step
  rust_block : (binds : List LocalVarRef) → (code : String) → (next : StepId) → Step
  select : List AwaitSpec → Step
  set_values : List SetPrimitive → (next : StepId) → Step
  create : List RuntimePrimitive → SuccessCreateBranch → FailCreateBranch → Step
  create_fibers : List CreateFiberDetail → (next : StepId) → Step
  debug : String → StepId → Step
  debug_print_vars : StepId → Step

pub record Func : Type 0 where
  pub in_vars : List InVar
  pub out : IrType
  pub locals : List InVar
  pub steps : List (StepId × Step)

pub record IrFiber : Type 0 where
  pub heap : Map String IrType
  pub init_vars : List InVar
  pub funcs : Map String Func

pub record Ir : Type 0 where
  pub types : List IrType
  pub fibers : Map FiberType IrFiber
