-- ===== src/Dsl/TypedCalls.antt =====
-- dsl/src/ir.rs: a call, a condition, a `Let` or a `CreateFibers` that `uses_correct_variables` has no
-- message on obeys its typing rule.
use mathlib.Core.Path.{subst}
use maroon.Prelude.{
  Bool, true, false, arith, String, List, [], ◌∷◌, Option, none, some, ◌≡◌, refl, All, length, ◌==◌,
  ==_iff,
}
use maroon.Prelude.Maps.{string_eq, get, contains_key-get}
use maroon.Dsl.{StepId, LocalVarRef, IrType, Expr, FuncRef, CreateFiberDetail, Func, IrFiber, Ir}
use maroon.Dsl.Infer.{infer_expr_type, same_type}
use maroon.Dsl.Checks.{
  Complaint, wrong_operands, Vars, unless, check_defined, collect_vars_from_expr,
  collect_vars_from_args,
}
use maroon.Dsl.Calls.{
  func_of, check_target, check_details, check_args, check_callee, check_bind, check_call,
  check_cond_type, discriminant, compare_operands, check_operands, check_let, check_let_type,
}
use maroon.Dsl.Clean.{append-empty, unless-empty, same_type-eq}
use maroon.Dsl.Typing.{
  names_of_expr, AreInScope, Agrees, ArgsFit, VarsFit, BindFits, IsTypedDetail, AreAlike,
  AreNumbers, OperandsFit,
}
use maroon.Dsl.Collected.{
  check_defined-empty, expect_type-empty, bind-fits, collect_vars_from_expr-empty,
  check_args-ArgsFit, check_init_vars-VarsFit,
}

callee-fits :
    (ir : Ir) (vars : Vars) (id : StepId) (args : List Expr) (bind : Option LocalVarRef)
    (callee : Func)
    → collect_vars_from_args args vars id ≡ []
    → check_callee ir vars id args bind (some callee) ≡ []
    → check_bind vars id bind ≡ []
    → ArgsFit ir.types vars args callee.in_vars × BindFits vars callee.out bind
callee-fits ir vars id args bind callee names checked bound =
    let (n, rest) =
      append-empty
        (unless (length callee.in_vars == length args)
          (Complaint.wrong_length id (length callee.in_vars) (length args)))
        checked in
    let (fit, out) = append-empty (check_args ir.types vars id args callee.in_vars) rest in
    (
      check_args-ArgsFit ir.types vars id args callee.in_vars
          ((==_iff (length callee.in_vars) (length args)).0
            (unless-empty (length callee.in_vars == length args) _ n))
          names fit,
      bind-fits vars id callee.out bind out bound,
    )

pub check_call-IsTyped :
    (ir : Ir) (vars : Vars) (id : StepId) (target : FuncRef) (args : List Expr)
    (bind : Option LocalVarRef)
    → check_call ir vars id target args bind ≡ []
    → (callee : Func) → func_of (get ir.fibers target.fiber) target.func ≡ some callee
    → ArgsFit ir.types vars args callee.in_vars × BindFits vars callee.out bind
unfolding check_call
check_call-IsTyped ir vars id target args bind h callee known =
    let (names, rest) = append-empty (collect_vars_from_args args vars id) h in
    let (checked, bound) =
      append-empty
        (check_callee ir vars id args bind (func_of (get ir.fibers target.fiber) target.func))
        rest in
    callee-fits ir vars id args bind callee names (rw known at checked) bound

pub check_details-IsTyped :
    (ir : Ir) (vars : Vars) (id : StepId) (ds : List CreateFiberDetail)
    → check_details ir vars id ds ≡ []
    → All (IsTypedDetail ir vars) ds
unfolding check_details
check_details-IsTyped ir vars id [] h = tt
check_details-IsTyped ir vars id (d ∷ ds) h =
    let (now, later) = append-empty (check_target vars id d (get ir.fibers d.f_name)) h in
    (found (get ir.fibers d.f_name) now, check_details-IsTyped ir vars id ds later)
  where
    found :
        (o : Option IrFiber)
        → check_target vars id d o ≡ []
        → (target : IrFiber) × (o ≡ some target) × VarsFit vars d.init_vars target.init_vars
    found none k = cc
    found (some target) k =
        let (n, fit) =
          append-empty
            (unless (length d.init_vars == length target.init_vars)
              (Complaint.wrong_length id (length target.init_vars) (length d.init_vars)))
            k in
        (
          target,
          refl,
          check_init_vars-VarsFit vars id d.init_vars target.init_vars
              ((==_iff (length d.init_vars) (length target.init_vars)).0
                (unless-empty (length d.init_vars == length target.init_vars) _ n))
              fit,
        )

pub cond-Agrees :
    (id : StepId) (o : Option IrType) → check_cond_type id o ≡ [] → Agrees o IrType.bool
cond-Agrees id none h = tt
cond-Agrees id (some t) h = same_type-eq t IrType.bool (unless-empty (same_type t IrType.bool) _ h)

compare_operands-AreAlike :
    (id : StepId) (orders : Bool) (left right : Option IrType)
    → compare_operands id orders left right ≡ []
    → AreAlike left right
compare_operands-AreAlike id orders none right h = tt
compare_operands-AreAlike id orders (some lt) none h = tt
compare_operands-AreAlike id orders (some lt) (some rt) h =
    let (same, _) =
      append-empty (unless (discriminant lt == discriminant rt) (wrong_operands id lt rt)) h in
    (==_iff (discriminant lt) (discriminant rt)).0
      (unless-empty (discriminant lt == discriminant rt) _ same)

-- A type of the kind of numbers is the type of numbers.
discriminant-uint64 : (t : IrType) → discriminant IrType.uint64 ≡ discriminant t → t ≡ IrType.uint64
discriminant-uint64 IrType.uint64 h = refl
discriminant-uint64 IrType.string h = ground (arith, h)
discriminant-uint64 IrType.bool h = ground (arith, h)
discriminant-uint64 IrType.void h = ground (arith, h)
discriminant-uint64 (IrType.map k v) h = ground (arith, h)
discriminant-uint64 (IrType.array t) h = ground (arith, h)
discriminant-uint64 (IrType.struct name fields rust) h = ground (arith, h)
discriminant-uint64 (IrType.max_queue t) h = ground (arith, h)
discriminant-uint64 (IrType.min_queue t) h = ground (arith, h)
discriminant-uint64 (IrType.option t) h = ground (arith, h)
discriminant-uint64 (IrType.future t) h = ground (arith, h)
discriminant-uint64 (IrType.custom name) h = ground (arith, h)
discriminant-uint64 (IrType.pub_queue_message name fields rust) h = ground (arith, h)

compare_operands-AreNumbers :
    (id : StepId) (left right : Option IrType)
    → compare_operands id true left right ≡ []
    → AreNumbers left right
compare_operands-AreNumbers id none right h = tt
compare_operands-AreNumbers id (some lt) none h = tt
compare_operands-AreNumbers id (some lt) (some rt) h =
    let (_, number) =
      append-empty (unless (discriminant lt == discriminant rt) (wrong_operands id lt rt)) h in
    let left : lt ≡ IrType.uint64 =
      same_type-eq lt IrType.uint64 (unless-empty (same_type lt IrType.uint64) _ number) in
    let alike : discriminant lt ≡ discriminant rt =
      compare_operands-AreAlike id true (some lt) (some rt) h in
    (left, discriminant-uint64 rt (subst (λ t. discriminant t ≡ discriminant rt) left alike))

pub check_operands-OperandsFit :
    (ir : Ir) (vars : Vars) (id : StepId) (cond : Expr)
    → check_operands ir vars id cond ≡ []
    → OperandsFit ir.types vars cond
check_operands-OperandsFit ir vars id (Expr.equal l r) h =
    compare_operands-AreAlike id false (infer_expr_type ir.types l vars)
      (infer_expr_type ir.types r vars) h
check_operands-OperandsFit ir vars id (Expr.greater l r) h =
    compare_operands-AreNumbers id (infer_expr_type ir.types l vars)
      (infer_expr_type ir.types r vars) h
check_operands-OperandsFit ir vars id (Expr.less l r) h =
    compare_operands-AreNumbers id (infer_expr_type ir.types l vars)
      (infer_expr_type ir.types r vars) h
check_operands-OperandsFit ir vars id (Expr.var name) h = tt
check_operands-OperandsFit ir vars id (Expr.is_some inner) h = tt
check_operands-OperandsFit ir vars id (Expr.unwrap inner) h = tt
check_operands-OperandsFit ir vars id (Expr.get_field base name) h = tt
check_operands-OperandsFit ir vars id (Expr.struct_update base updates) h = tt
check_operands-OperandsFit ir vars id (Expr.uint64 n) h = tt
check_operands-OperandsFit ir vars id (Expr.str s) h = tt
check_operands-OperandsFit ir vars id (Expr.bool b) h = tt

let-Agrees :
    (id : StepId) (name : String) (t : IrType) (o inferred : Option IrType)
    → o ≡ some t
    → check_let_type id name o inferred ≡ []
    → Agrees inferred t
let-Agrees id name t o inferred at h = expect_type-empty id name t inferred (rw at at h)

pub check_let-IsTyped :
    (ir : Ir) (vars : Vars) (id : StepId) (local : String) (e : Expr)
    → check_let ir vars id local e ≡ []
    → AreInScope vars (names_of_expr e)
      × ((t : IrType) × (get vars local ≡ some t) × Agrees (infer_expr_type ir.types e vars) t)
unfolding check_let
check_let-IsTyped ir vars id local e h =
    let (here, rest) = append-empty (check_defined vars id local) h in
    let (names, fits) = append-empty (collect_vars_from_expr e vars id) rest in
    let (t, at) = contains_key-get vars local (check_defined-empty vars id local here) in
    (
      collect_vars_from_expr-empty e vars id names,
      (t, at, let-Agrees id local t (get vars local) (infer_expr_type ir.types e vars) at fits),
    )
