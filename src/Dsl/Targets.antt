-- ===== src/Dsl/Targets.antt =====
-- dsl/src/ir.rs: what `uses_correct_variables` makes of the steps that a step goes on to.
use maroon.Prelude.{List, [], ◌∷◌, ◌++◌, ◌≡◌, refl, ap}
use maroon.Dsl.{StepId, AwaitSpec, Step, Func, Ir}
use maroon.Dsl.Checks.{Vars}
use maroon.Dsl.Primitives.{check_arm, check_arms, check_create}
use maroon.Dsl.Valid.{check_step}

abbrev pub retarget_arm : (StepId → StepId) → AwaitSpec → AwaitSpec
retarget_arm r (AwaitSpec.future bind ret_to future_id) = AwaitSpec.future bind (r ret_to) future_id
retarget_arm r (AwaitSpec.queue queue_name message_var next) =
    AwaitSpec.queue queue_name message_var (r next)

abbrev pub retarget_arms : (StepId → StepId) → List AwaitSpec → List AwaitSpec
retarget_arms r [] = []
retarget_arms r (arm ∷ arms) = retarget_arm r arm ∷ retarget_arms r arms

-- The same step, going on elsewhere.
abbrev pub retarget : (StepId → StepId) → Step → Step
retarget r (Step.call target args bind ret_to) = Step.call target args bind (r ret_to)
retarget r (Step.branch cond then_ else_) = Step.branch cond (r then_) (r else_)
retarget r (Step.assign local e next) = Step.assign local e (r next)
retarget r (Step.rust_block binds code next) = Step.rust_block binds code (r next)
retarget r (Step.select arms) = Step.select (retarget_arms r arms)
retarget r (Step.set_values values next) = Step.set_values values (r next)
retarget r (Step.create primitives success fail) =
    Step.create primitives (record { next = r success.next; id_binds = success.id_binds })
      (record { next = r fail.next; error_binds = fail.error_binds })
retarget r (Step.create_fibers details next) = Step.create_fibers details (r next)
retarget r (Step.debug text next) = Step.debug text (r next)
retarget r (Step.debug_print_vars next) = Step.debug_print_vars (r next)
retarget r (Step.return value) = Step.return value
retarget r Step.return_void = Step.return_void

check_arms-retarget :
    (r : StepId → StepId) (ir : Ir) (vars : Vars) (id : StepId) (arms : List AwaitSpec)
    → check_arms ir vars id (retarget_arms r arms) ≡ check_arms ir vars id arms
unfolding check_arms
check_arms-retarget r ir vars id [] = refl
check_arms-retarget r ir vars id (AwaitSpec.future bind ret_to future_id ∷ arms) =
    ap (λ rest. check_arm ir vars id (AwaitSpec.future bind ret_to future_id) ++ rest)
      (check_arms-retarget r ir vars id arms)
check_arms-retarget r ir vars id (AwaitSpec.queue queue_name message_var next ∷ arms) =
    ap (λ rest. check_arm ir vars id (AwaitSpec.queue queue_name message_var next) ++ rest)
      (check_arms-retarget r ir vars id arms)

-- The messages on a step do not depend on where it goes on: any step ids in its place, declared in the
-- function or not, get the same messages.
pub check_step-retarget :
    (r : StepId → StepId) (ir : Ir) (f : Func) (vars : Vars) (id : StepId) (step : Step)
    → check_step ir f vars id (retarget r step) ≡ check_step ir f vars id step
unfolding check_step check_create
check_step-retarget r ir f vars id (Step.select arms) = check_arms-retarget r ir vars id arms
check_step-retarget r ir f vars id (Step.call target args bind ret_to) = refl
check_step-retarget r ir f vars id (Step.branch cond then_ else_) = refl
check_step-retarget r ir f vars id (Step.assign local e next) = refl
check_step-retarget r ir f vars id (Step.rust_block binds code next) = refl
check_step-retarget r ir f vars id (Step.set_values values next) = refl
check_step-retarget r ir f vars id (Step.create primitives success fail) = refl
check_step-retarget r ir f vars id (Step.create_fibers details next) = refl
check_step-retarget r ir f vars id (Step.debug text next) = refl
check_step-retarget r ir f vars id (Step.debug_print_vars next) = refl
check_step-retarget r ir f vars id (Step.return value) = refl
check_step-retarget r ir f vars id Step.return_void = refl
