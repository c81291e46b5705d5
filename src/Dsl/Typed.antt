-- ===== src/Dsl/Typed.antt =====
-- dsl/src/ir.rs: a step that `uses_correct_variables` has no message on obeys its typing rule.
use maroon.Prelude.{[], true, ◌≡◌}
use maroon.Prelude.Maps.{string_eq}
use maroon.Dsl.{StepId, Step, Func, Ir}
use maroon.Dsl.Infer.{infer_expr_type, infer_ret_value_type, return_type_compatible}
use maroon.Dsl.Checks.{Vars, collect_vars_from_expr, collect_vars_from_ret_value}
use maroon.Dsl.Calls.{check_return, check_branch, check_cond_type}
use maroon.Dsl.Valid.{check_step, is_valid, vars_of}
use maroon.Dsl.Clean.{append-empty, unless-empty, EachStep, is_valid-EachStep}
use maroon.Dsl.Typing.{IsTyped}
use maroon.Dsl.Collected.{
  collect_vars_from_expr-empty, collect_vars_from_ret_value-empty, check_binds-AreInScope,
}
use maroon.Dsl.TypedCalls.{
  check_call-IsTyped, check_details-IsTyped, cond-Agrees, check_operands-OperandsFit,
  check_let-IsTyped,
}
use maroon.Dsl.TypedPrimitives.{
  check_arms-IsTyped, check_set_values-IsTyped, check_create-CreateFits,
}

check_step-IsTyped :
    (ir : Ir) (f : Func) (vars : Vars) (id : StepId) (step : Step)
    → check_step ir f vars id step ≡ []
    → IsTyped ir f vars step
unfolding check_step check_return check_branch
check_step-IsTyped ir f vars id (Step.call target args bind ret_to) h =
    check_call-IsTyped ir vars id target args bind h
check_step-IsTyped ir f vars id (Step.return value) h =
    let (names, fits) = append-empty (collect_vars_from_ret_value value vars id) h in
    (
      collect_vars_from_ret_value-empty value vars id names,
      unless-empty (return_type_compatible f.out value (infer_ret_value_type value vars)) _ fits,
    )
check_step-IsTyped ir f vars id Step.return_void h = tt
check_step-IsTyped ir f vars id (Step.branch cond then_ else_) h =
    let (names, rest) = append-empty (collect_vars_from_expr cond vars id) h in
    let (fits, more) =
      append-empty (check_cond_type id (infer_expr_type ir.types cond vars)) rest in
    (
      collect_vars_from_expr-empty cond vars id names,
      cond-Agrees id (infer_expr_type ir.types cond vars) fits,
      check_operands-OperandsFit ir vars id cond more,
    )
check_step-IsTyped ir f vars id (Step.assign local e next) h =
    check_let-IsTyped ir vars id local e h
check_step-IsTyped ir f vars id (Step.rust_block binds code next) h =
    check_binds-AreInScope vars id binds h
check_step-IsTyped ir f vars id (Step.select arms) h = check_arms-IsTyped ir vars id arms h
check_step-IsTyped ir f vars id (Step.set_values values next) h =
    check_set_values-IsTyped vars id values h
check_step-IsTyped ir f vars id (Step.create primitives success fail) h =
    check_create-CreateFits vars id primitives success fail h
check_step-IsTyped ir f vars id (Step.create_fibers details next) h =
    check_details-IsTyped ir vars id details h
check_step-IsTyped ir f vars id (Step.debug text next) h = tt
check_step-IsTyped ir f vars id (Step.debug_print_vars next) h = tt

pub is_valid-IsTyped :
    (ir : Ir)
    → (is_valid ir).0 ≡ true
    → EachStep (λ fiber f id step. IsTyped ir f (vars_of fiber f) step) ir
is_valid-IsTyped ir h =
    is_valid-EachStep ir (λ fiber f id step. check_step-IsTyped ir f (vars_of fiber f) id step) h
