-- ===== src/Dsl/Calls.antt =====
-- dsl/src/ir.rs, `uses_correct_variables`: the steps that call, return, branch and assign.
use maroon.Prelude.{
  ℕ, String, List, [], ◌∷◌, ◌++◌, Bool, true, false, ◌||◌, not, Option, none, some, ◌==◌, length,
}
use maroon.Prelude.Maps.{string_eq, get}
use maroon.Dsl.{
  StepId, LocalVarRef, IrType, InVar, Expr, RetValue, FuncRef, CreateFiberDetail, Func, IrFiber, Ir,
}
use maroon.Dsl.Infer.{same_type, infer_expr_type, infer_ret_value_type, return_type_compatible}
use maroon.Dsl.Checks.{
  Complaint, unknown_fiber, wrong_length, wrong_condition, wrong_operands, wrong_return, Vars,
  unless, check_defined, collect_vars_from_expr, collect_vars_from_ret_value,
  collect_vars_from_args, expect_type,
}

-- `Step::CreateFibers`: the positional variables, as far as the target has parameters.
unfoldable pub check_init_vars : Vars → StepId → List LocalVarRef → List InVar → List Complaint
check_init_vars vars id [] params = []
check_init_vars vars id (v ∷ vs) [] = check_defined vars id v ++ check_init_vars vars id vs []
check_init_vars vars id (v ∷ vs) ((pname, pty) ∷ params) =
    check_defined vars id v
    ++ (expect_type id v pty (get vars v) ++ check_init_vars vars id vs params)

abbrev pub check_target : Vars → StepId → CreateFiberDetail → Option IrFiber → List Complaint
check_target vars id d none = unknown_fiber id d.f_name ∷ []
check_target vars id d (some target) =
    unless (length d.init_vars == length target.init_vars)
      (wrong_length id (length target.init_vars) (length d.init_vars))
    ++ check_init_vars vars id d.init_vars target.init_vars

unfoldable pub check_details : Ir → Vars → StepId → List CreateFiberDetail → List Complaint
check_details ir vars id [] = []
check_details ir vars id (d ∷ ds) =
    check_target vars id d (get ir.fibers d.f_name) ++ check_details ir vars id ds

-- `Step::Call`
unfoldable pub check_args : List IrType → Vars → StepId → List Expr → List InVar → List Complaint
check_args types vars id [] params = []
check_args types vars id (e ∷ es) [] = []
check_args types vars id (e ∷ es) ((pname, pty) ∷ params) =
    expect_type id pname pty (infer_expr_type types e vars) ++ check_args types vars id es params

abbrev pub check_bind_type : Vars → StepId → IrType → Option LocalVarRef → List Complaint
check_bind_type vars id out none = []
check_bind_type vars id out (some name) = expect_type id name out (get vars name)

abbrev pub check_bind : Vars → StepId → Option LocalVarRef → List Complaint
check_bind vars id none = []
check_bind vars id (some name) = check_defined vars id name

-- The callee, if both its fiber and its function are declared.
abbrev pub func_of : Option IrFiber → String → Option Func
func_of none func = none
func_of (some fiber) func = get fiber.funcs func

abbrev pub check_callee :
    Ir → Vars → StepId → List Expr → Option LocalVarRef → Option Func → List Complaint
check_callee ir vars id args bind none = []
check_callee ir vars id args bind (some callee) =
    unless (length callee.in_vars == length args)
      (wrong_length id (length callee.in_vars) (length args))
    ++ (check_args ir.types vars id args callee.in_vars ++ check_bind_type vars id callee.out bind)

unfoldable pub check_call :
    Ir → Vars → StepId → FuncRef → List Expr → Option LocalVarRef → List Complaint
unfolding check_defined collect_vars_from_args check_args
check_call ir vars id target args bind =
    collect_vars_from_args args vars id
    ++ (check_callee ir vars id args bind (func_of (get ir.fibers target.fiber) target.func)
        ++ check_bind vars id bind)

-- `Step::Return`
unfoldable pub check_return : Func → Vars → StepId → RetValue → List Complaint
unfolding collect_vars_from_ret_value infer_ret_value_type return_type_compatible
check_return f vars id value =
    let inferred = infer_ret_value_type value vars in
    collect_vars_from_ret_value value vars id
    ++ unless (return_type_compatible f.out value inferred) (wrong_return id f.out inferred)

-- `std::mem::discriminant`
abbrev pub discriminant : IrType → ℕ
discriminant IrType.uint64 = 0
discriminant IrType.string = 1
discriminant IrType.bool = 2
discriminant IrType.void = 3
discriminant (IrType.map k v) = 4
discriminant (IrType.array t) = 5
discriminant (IrType.struct name fields rust) = 6
discriminant (IrType.max_queue t) = 7
discriminant (IrType.min_queue t) = 8
discriminant (IrType.option t) = 9
discriminant (IrType.future t) = 10
discriminant (IrType.custom name) = 11
discriminant (IrType.pub_queue_message name fields rust) = 12

-- `Step::If`
abbrev pub check_cond_type : StepId → Option IrType → List Complaint
check_cond_type id none = []
check_cond_type id (some cty) = unless (same_type cty IrType.bool) (wrong_condition id cty)

abbrev pub compare_operands : StepId → Bool → Option IrType → Option IrType → List Complaint
compare_operands id orders none rt = []
compare_operands id orders (some lt) none = []
compare_operands id orders (some lt) (some rt) =
    unless (discriminant lt == discriminant rt) (wrong_operands id lt rt)
    ++ unless (not orders || same_type lt IrType.uint64) (wrong_condition id lt)

abbrev pub check_operands : Ir → Vars → StepId → Expr → List Complaint
check_operands ir vars id (Expr.equal l r) =
    compare_operands id false (infer_expr_type ir.types l vars) (infer_expr_type ir.types r vars)
check_operands ir vars id (Expr.greater l r) =
    compare_operands id true (infer_expr_type ir.types l vars) (infer_expr_type ir.types r vars)
check_operands ir vars id (Expr.less l r) =
    compare_operands id true (infer_expr_type ir.types l vars) (infer_expr_type ir.types r vars)
check_operands ir vars id _ = []

unfoldable pub check_branch : Ir → Vars → StepId → Expr → List Complaint
check_branch ir vars id cond =
    collect_vars_from_expr cond vars id
    ++ (check_cond_type id (infer_expr_type ir.types cond vars) ++ check_operands ir vars id cond)

-- `Step::Let`
abbrev pub check_let_type : StepId → String → Option IrType → Option IrType → List Complaint
check_let_type id local none rt = []
check_let_type id local (some lt) rt = expect_type id local lt rt

unfoldable pub check_let : Ir → Vars → StepId → String → Expr → List Complaint
unfolding check_defined
check_let ir vars id local e =
    check_defined vars id local
    ++ (collect_vars_from_expr e vars id
        ++ check_let_type id local (get vars local) (infer_expr_type ir.types e vars))

-- `Step::RustBlock`
unfoldable pub check_binds : Vars → StepId → List LocalVarRef → List Complaint
unfolding check_defined
check_binds vars id [] = []
check_binds vars id (b ∷ bs) = check_defined vars id b ++ check_binds vars id bs
