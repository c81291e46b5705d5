-- ===== src/Dsl/Primitives.antt =====
-- dsl/src/ir.rs, `uses_correct_variables`: the steps that wait for, set and create futures, queues and
-- schedules.
use text.Mathlib.Text.{◌==◌ as string_beq}
use maroon.Prelude.{
  ℕ, String, List, [], ◌∷◌, ◌++◌, Bool, true, false, Option, none, some, ◌==◌, if◌then◌else◌,
  length, get_elem?, ◌+◌,
}
use maroon.Prelude.Maps.{Map, string_eq, get}
use maroon.Dsl.{
  StepId, FiberType, LocalVarRef, IrType, InVar, AwaitSpec, SetPrimitive, RuntimePrimitive,
  SuccessCreateBranch, FailCreateBranch, IrFiber, Ir,
}
use maroon.Dsl.Infer.{same_type}
use maroon.Dsl.Checks.{
  Complaint, undefined, wrong_length, mismatch, wrong_type, Vars, unless, check_defined, check_type,
  is_string,
}
use maroon.Dsl.Calls.{check_bind}

-- `Step::Select`
abbrev pub names_init_var : String → List InVar → Bool
names_init_var name [] = false
names_init_var name ((n, t) ∷ vs) = if string_beq n name then true else names_init_var name vs

unfoldable pub is_any_init_var : String → Map FiberType IrFiber → Bool
is_any_init_var name [] = false
is_any_init_var name ((key, fiber) ∷ fibers) =
    if names_init_var name fiber.init_vars then true else is_any_init_var name fibers

-- A queue's name may also be a variable that any fiber starts with.
abbrev pub check_queue_name : Ir → StepId → String → Option IrType → List Complaint
check_queue_name ir id name (some t) = unless (is_string t) (wrong_type id name t)
check_queue_name ir id name none = unless (is_any_init_var name ir.fibers) (undefined id name)

abbrev pub check_arm : Ir → Vars → StepId → AwaitSpec → List Complaint
check_arm ir vars id (AwaitSpec.future bind ret_to future_id) = check_bind vars id bind
check_arm ir vars id (AwaitSpec.queue queue_name message_var next) =
    check_queue_name ir id queue_name (get vars queue_name) ++ check_defined vars id message_var

unfoldable pub check_arms : Ir → Vars → StepId → List AwaitSpec → List Complaint
unfolding check_defined is_any_init_var
check_arms ir vars id [] = []
check_arms ir vars id (arm ∷ arms) = check_arm ir vars id arm ++ check_arms ir vars id arms

-- `Step::SetValues`
abbrev pub check_queue_id : StepId → String → Option IrType → List Complaint
check_queue_id id name none = []
check_queue_id id name (some t) = unless (is_string t) (wrong_type id name t)

abbrev pub check_inner : StepId → String → IrType → Option IrType → List Complaint
check_inner id name inner none = undefined id name ∷ []
check_inner id name inner (some t) = unless (same_type t inner) (mismatch id name inner t)

abbrev pub check_resolved : Vars → StepId → String → String → Option IrType → List Complaint
check_resolved vars id f_var_name var_name none = undefined id f_var_name ∷ []
check_resolved vars id f_var_name var_name (some (IrType.future inner)) =
    check_inner id var_name inner (get vars var_name)
check_resolved vars id f_var_name var_name (some other) = wrong_type id f_var_name other ∷ []

abbrev pub check_set : Vars → StepId → SetPrimitive → List Complaint
check_set vars id (SetPrimitive.queue_message f_var_queue_name var_name) =
    check_defined vars id f_var_queue_name
    ++ (check_queue_id id f_var_queue_name (get vars f_var_queue_name)
        ++ check_defined vars id var_name)
check_set vars id (SetPrimitive.future f_var_name var_name) =
    check_resolved vars id f_var_name var_name (get vars f_var_name)

unfoldable pub check_set_values : Vars → StepId → List SetPrimitive → List Complaint
unfolding check_defined
check_set_values vars id [] = []
check_set_values vars id (v ∷ vs) = check_set vars id v ++ check_set_values vars id vs

-- `Step::Create`
abbrev pub fits_success : RuntimePrimitive → IrType → Bool
fits_success (RuntimePrimitive.queue name public) t = is_string t
fits_success RuntimePrimitive.future (IrType.future inner) = true
fits_success RuntimePrimitive.future _ = false
fits_success (RuntimePrimitive.schedule ms_var) (IrType.future inner) = same_type inner IrType.void
fits_success (RuntimePrimitive.schedule ms_var) _ = false

abbrev pub fits_error : IrType → Bool
fits_error (IrType.option inner) = is_string inner
fits_error _ = false

-- The variable at a position, if there is one.
abbrev pub check_bound : (IrType → Bool) → Vars → StepId → Option LocalVarRef → List Complaint
check_bound fits vars id none = []
check_bound fits vars id (some b) = check_type fits id b (get vars b)

abbrev pub check_argument : Vars → StepId → RuntimePrimitive → List Complaint
check_argument vars id RuntimePrimitive.future = []
check_argument vars id (RuntimePrimitive.queue name public) =
    check_type is_string id name (get vars name)
check_argument vars id (RuntimePrimitive.schedule ms_var) =
    check_type (same_type IrType.uint64) id ms_var (get vars ms_var)

-- The primitives from position `i` on.
unfoldable pub check_primitives :
    Vars
    → StepId
    → (id_binds error_binds : List LocalVarRef) → ℕ
    → List RuntimePrimitive
    → List Complaint
check_primitives vars id id_binds error_binds i [] = []
check_primitives vars id id_binds error_binds i (p ∷ ps) =
    check_bound (fits_success p) vars id (get_elem? id_binds i)
    ++ (check_bound fits_error vars id (get_elem? error_binds i)
        ++ (check_argument vars id p ++ check_primitives vars id id_binds error_binds (i + 1) ps))

unfoldable pub check_create :
    Vars → StepId → List RuntimePrimitive → SuccessCreateBranch → FailCreateBranch → List Complaint
unfolding check_primitives
check_create vars id primitives success fail =
    unless (length success.id_binds == length primitives)
      (wrong_length id (length primitives) (length success.id_binds))
    ++ (unless (length fail.error_binds == length primitives)
          (wrong_length id (length primitives) (length fail.error_binds))
        ++ check_primitives vars id success.id_binds fail.error_binds 0 primitives)
