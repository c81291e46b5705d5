-- ===== src/Dsl/Checks.antt =====
-- dsl/src/ir.rs: `IR::is_valid` and `uses_correct_variables`. A message is a value with what it names;
-- its text is left out, and the explanation is the list of the messages.
use maroon.Prelude.{ℕ, String, List, [], ◌∷◌, ◌++◌, Bool, true, false, Option, none, some}
use maroon.Prelude.Maps.{Map, string_eq, contains_key}
use maroon.Dsl.{StepId, FiberType, IrType, nil, Expr, Updates, update, RetValue}
use maroon.Dsl.Infer.{same_type}

pub data Complaint : Type 0 where
  undefined : StepId → String → Complaint
  duplicate : String → (ty previous : IrType) → Complaint
  unknown_fiber : StepId → FiberType → Complaint
  wrong_length : StepId → (expected got : ℕ) → Complaint
  mismatch : StepId → String → (expected got : IrType) → Complaint
  wrong_type : StepId → String → (got : IrType) → Complaint
  wrong_condition : StepId → (got : IrType) → Complaint
  wrong_operands : StepId → (left right : IrType) → Complaint
  wrong_return : StepId → (out : IrType) → (inferred : Option IrType) → Complaint
  main_returns : FiberType → Complaint
  no_entry : FiberType → String → Complaint
  no_main : FiberType → Complaint
  no_root : Complaint
  no_public_future_id : String → Complaint

abbrev pub Vars : Type 0
Vars = Map String IrType

abbrev pub unless : Bool → Complaint → List Complaint
unless true c = []
unless false c = c ∷ []

unfoldable pub check_defined : Vars → StepId → String → List Complaint
unfolding contains_key
check_defined vars id name = unless (contains_key vars name) (undefined id name)

unfoldable mutual
  unfolding check_defined

  pub collect_vars_from_expr : Expr → Vars → StepId → List Complaint
  collect_vars_from_expr (Expr.var name) vars id = check_defined vars id name
  collect_vars_from_expr (Expr.equal a b) vars id =
      collect_vars_from_expr a vars id ++ collect_vars_from_expr b vars id
  collect_vars_from_expr (Expr.greater a b) vars id =
      collect_vars_from_expr a vars id ++ collect_vars_from_expr b vars id
  collect_vars_from_expr (Expr.less a b) vars id =
      collect_vars_from_expr a vars id ++ collect_vars_from_expr b vars id
  collect_vars_from_expr (Expr.is_some inner) vars id = collect_vars_from_expr inner vars id
  collect_vars_from_expr (Expr.unwrap inner) vars id = collect_vars_from_expr inner vars id
  collect_vars_from_expr (Expr.get_field base name) vars id = collect_vars_from_expr base vars id
  collect_vars_from_expr (Expr.struct_update base updates) vars id =
      collect_vars_from_expr base vars id ++ collect_vars_from_updates updates vars id
  collect_vars_from_expr (Expr.uint64 n) vars id = []
  collect_vars_from_expr (Expr.str s) vars id = []
  collect_vars_from_expr (Expr.bool b) vars id = []

  pub collect_vars_from_updates : Updates → Vars → StepId → List Complaint
  collect_vars_from_updates nil vars id = []
  collect_vars_from_updates (update name e updates) vars id =
      collect_vars_from_expr e vars id ++ collect_vars_from_updates updates vars id

unfoldable pub collect_vars_from_ret_value : RetValue → Vars → StepId → List Complaint
unfolding check_defined
collect_vars_from_ret_value (RetValue.var name) vars id = check_defined vars id name
collect_vars_from_ret_value (RetValue.some inner) vars id =
    collect_vars_from_ret_value inner vars id
collect_vars_from_ret_value (RetValue.uint64 n) vars id = []
collect_vars_from_ret_value (RetValue.str s) vars id = []
collect_vars_from_ret_value (RetValue.bool b) vars id = []
collect_vars_from_ret_value RetValue.none vars id = []

unfoldable pub collect_vars_from_args : List Expr → Vars → StepId → List Complaint
collect_vars_from_args [] vars id = []
collect_vars_from_args (e ∷ es) vars id =
    collect_vars_from_expr e vars id ++ collect_vars_from_args es vars id

-- A type that is known is to be the expected one.
abbrev pub expect_type : StepId → String → IrType → Option IrType → List Complaint
expect_type id name expected none = []
expect_type id name expected (some got) =
    unless (same_type got expected) (mismatch id name expected got)

-- A variable is to be there, and its type to pass a test.
abbrev pub check_type : (IrType → Bool) → StepId → String → Option IrType → List Complaint
check_type ok_type id name none = undefined id name ∷ []
check_type ok_type id name (some t) = unless (ok_type t) (wrong_type id name t)

abbrev pub is_string : IrType → Bool
is_string = same_type IrType.string
