-- ===== src/Dsl/TypedPrimitives.antt =====
-- dsl/src/ir.rs: a `Select`, `SetValues` or `Create` that `uses_correct_variables` has no message on obeys its typing rule.
use maroon.Prelude.{
  ℕ, String, List, [], ◌∷◌, Bool, true, Option, none, some, ◌≡◌, refl, ap, ◌∙◌, sym, arith, All,
  length, ◌==◌, ==_iff, get_elem?, ◌+◌, suc,
}
use maroon.Prelude.Maps.{string_eq, get}
use maroon.Dsl.{
  StepId, LocalVarRef, IrType, AwaitSpec, SetPrimitive, RuntimePrimitive, SuccessCreateBranch,
  FailCreateBranch, Ir,
}
use maroon.Dsl.Infer.{same_type}
use maroon.Dsl.Checks.{Complaint, Vars, unless, check_defined, check_type, is_string}
use maroon.Dsl.Primitives.{
  check_arm, check_arms, check_queue_name, check_queue_id, check_inner, check_resolved, check_set,
  check_set_values, fits_success, fits_error, check_bound, check_argument, check_primitives,
  check_create,
}
use maroon.Dsl.Clean.{append-empty, unless-empty, same_type-eq}
use maroon.Dsl.Typing.{Agrees, IsTypedSet, IsTypedArm, IsTypedPrimitive, CreateFits}
use maroon.Dsl.Collected.{check_defined-empty, check_type-empty, get-of-Agrees}

arm-IsTyped :
    (ir : Ir) (vars : Vars) (id : StepId) (arm : AwaitSpec)
    → check_arm ir vars id arm ≡ []
    → IsTypedArm vars arm
arm-IsTyped ir vars id (AwaitSpec.future none ret_to future_id) h = tt
arm-IsTyped ir vars id (AwaitSpec.future (some name) ret_to future_id) h =
    check_defined-empty vars id name h
arm-IsTyped ir vars id (AwaitSpec.queue queue_name message_var next) h =
    let (named, here) = append-empty (check_queue_name ir id queue_name (get vars queue_name)) h in
    (agrees (get vars queue_name) named, check_defined-empty vars id message_var here)
  where
    agrees : (o : Option IrType) → check_queue_name ir id queue_name o ≡ [] → Agrees o IrType.string
    agrees none k = tt
    agrees (some t) k = sym (same_type-eq IrType.string t (unless-empty (is_string t) _ k))

pub check_arms-IsTyped :
    (ir : Ir) (vars : Vars) (id : StepId) (arms : List AwaitSpec)
    → check_arms ir vars id arms ≡ []
    → All (IsTypedArm vars) arms
unfolding check_arms
check_arms-IsTyped ir vars id [] h = tt
check_arms-IsTyped ir vars id (arm ∷ arms) h =
    let (now, later) = append-empty (check_arm ir vars id arm) h in
    (arm-IsTyped ir vars id arm now, check_arms-IsTyped ir vars id arms later)

queue_id-Agrees :
    (id : StepId) (name : String) (o : Option IrType)
    → check_queue_id id name o ≡ []
    → Agrees o IrType.string
queue_id-Agrees id name none h = tt
queue_id-Agrees id name (some t) h =
    sym (same_type-eq IrType.string t (unless-empty (is_string t) _ h))

inner-typed :
    (id : StepId) (name : String) (t : IrType) (o : Option IrType)
    → check_inner id name t o ≡ []
    → o ≡ some t
inner-typed id name t none h = cc
inner-typed id name t (some u) h = ap some (same_type-eq u t (unless-empty (same_type u t) _ h))

resolved-typed :
    (vars : Vars) (id : StepId) (f_var_name var_name : String) (o : Option IrType)
    → check_resolved vars id f_var_name var_name o ≡ []
    → (t : IrType) × (o ≡ some (IrType.future t)) × (get vars var_name ≡ some t)
resolved-typed vars id f v none h = cc
resolved-typed vars id f v (some (IrType.future t)) h = (t, refl, inner-typed id v t (get vars v) h)
resolved-typed vars id f v (some _) h = cc

set-IsTyped :
    (vars : Vars) (id : StepId) (v : SetPrimitive) → check_set vars id v ≡ [] → IsTypedSet vars v
set-IsTyped vars id (SetPrimitive.queue_message queue_name var_name) h =
    let (here, rest) = append-empty (check_defined vars id queue_name) h in
    let (fits, there) = append-empty (check_queue_id id queue_name (get vars queue_name)) rest in
    (
      get-of-Agrees vars queue_name IrType.string (check_defined-empty vars id queue_name here)
          (queue_id-Agrees id queue_name (get vars queue_name) fits),
      check_defined-empty vars id var_name there,
    )
set-IsTyped vars id (SetPrimitive.future f_var_name var_name) h =
    resolved-typed vars id f_var_name var_name (get vars f_var_name) h

pub check_set_values-IsTyped :
    (vars : Vars) (id : StepId) (vs : List SetPrimitive)
    → check_set_values vars id vs ≡ []
    → All (IsTypedSet vars) vs
unfolding check_set_values
check_set_values-IsTyped vars id [] h = tt
check_set_values-IsTyped vars id (v ∷ vs) h =
    let (now, later) = append-empty (check_set vars id v) h in
    (set-IsTyped vars id v now, check_set_values-IsTyped vars id vs later)

-- The tests on the types of a primitive's variables.
error-fits : (t : IrType) → fits_error t ≡ true → t ≡ IrType.option IrType.string
error-fits (IrType.option t) h = ap IrType.option (sym (same_type-eq IrType.string t h))
error-fits _ h = cc

argument-typed :
    (vars : Vars) (id : StepId) (name : String) (t : IrType)
    → check_type (same_type t) id name (get vars name) ≡ []
    → get vars name ≡ some t
argument-typed vars id name t h =
    let (u, at, fits) = check_type-empty (same_type t) id name (get vars name) h in
    at ∙ ap some (sym (same_type-eq t u fits))

success-fits :
    (vars : Vars) (id : StepId) (p : RuntimePrimitive) (t : IrType)
    → fits_success p t ≡ true
    → check_argument vars id p ≡ []
    → IsTypedPrimitive vars p t
success-fits vars id (RuntimePrimitive.queue name public) t h k =
    (sym (same_type-eq IrType.string t h), argument-typed vars id name IrType.string k)
success-fits vars id RuntimePrimitive.future (IrType.future inner) h k = (inner, refl)
success-fits vars id RuntimePrimitive.future _ h k = cc
success-fits vars id (RuntimePrimitive.schedule ms_var) (IrType.future inner) h k = (
  ap IrType.future (same_type-eq inner IrType.void h),
  argument-typed vars id ms_var IrType.uint64 k,
)
success-fits vars id (RuntimePrimitive.schedule ms_var) _ h k = cc

bound-typed :
    (fits : IrType → Bool) (vars : Vars) (id : StepId) (o : Option LocalVarRef) (b : LocalVarRef)
    → o ≡ some b
    → check_bound fits vars id o ≡ []
    → (t : IrType) × (get vars b ≡ some t) × (fits t ≡ true)
bound-typed fits vars id o b at h = check_type-empty fits id b (get vars b) (rw at at h)

next_index : (i k : ℕ) → i + 1 + k ≡ i + suc k
next_index i k = omega arith

zero_index : (k : ℕ) → 0 + k ≡ k
zero_index k = omega arith

check_primitives-CreateFits :
    (vars : Vars) (id : StepId) (ids errs : List LocalVarRef) (i : ℕ) (ps : List RuntimePrimitive)
    (bs es : List LocalVarRef)
    → length bs ≡ length ps
    → length es ≡ length ps
    → ((k : ℕ) → get_elem? ids (i + k) ≡ get_elem? bs k)
    → ((k : ℕ) → get_elem? errs (i + k) ≡ get_elem? es k)
    → check_primitives vars id ids errs i ps ≡ []
    → CreateFits vars ps bs es
unfolding check_primitives
check_primitives-CreateFits vars id ids errs i [] [] [] m n same same' h = tt
check_primitives-CreateFits vars id ids errs i [] (b ∷ bs) es m n same same' h = ground arith
check_primitives-CreateFits vars id ids errs i [] [] (e ∷ es) m n same same' h = ground arith
check_primitives-CreateFits vars id ids errs i (p ∷ ps) [] es m n same same' h = ground arith
check_primitives-CreateFits vars id ids errs i (p ∷ ps) (b ∷ bs) [] m n same same' h = ground arith
check_primitives-CreateFits vars id ids errs i (p ∷ ps) (b ∷ bs) (e ∷ es) m n same same' h =
    let (success, rest) = append-empty (check_bound (fits_success p) vars id (get_elem? ids i)) h in
    let (error, rest') = append-empty (check_bound fits_error vars id (get_elem? errs i)) rest in
    let (argument, later) = append-empty (check_argument vars id p) rest' in
    let here : i ≡ i + 0 = omega arith in
    let (t, at, fits) =
      bound-typed (fits_success p) vars id (get_elem? ids i) b (ap (get_elem? ids) here ∙ same 0)
        success in
    let (u, at', fits') =
      bound-typed fits_error vars id (get_elem? errs i) e (ap (get_elem? errs) here ∙ same' 0)
        error in
    (
      (t, at, success-fits vars id p t fits argument, at' ∙ ap some (error-fits u fits')),
      check_primitives-CreateFits vars id ids errs (i + 1) ps bs es (omega (arith, m))
          (omega (arith, n)) (λ k. ap (get_elem? ids) (next_index i k) ∙ same (suc k))
          (λ k. ap (get_elem? errs) (next_index i k) ∙ same' (suc k)) later,
    )

pub check_create-CreateFits :
    (vars : Vars) (id : StepId) (ps : List RuntimePrimitive) (success : SuccessCreateBranch)
    (fail : FailCreateBranch)
    → check_create vars id ps success fail ≡ []
    → CreateFits vars ps success.id_binds fail.error_binds
unfolding check_create
check_create-CreateFits vars id ps success fail h =
    let (m, rest) =
      append-empty
        (unless (length success.id_binds == length ps)
          (Complaint.wrong_length id (length ps) (length success.id_binds)))
        h in
    let (n, checked) =
      append-empty
        (unless (length fail.error_binds == length ps)
          (Complaint.wrong_length id (length ps) (length fail.error_binds)))
        rest in
    check_primitives-CreateFits vars id success.id_binds fail.error_binds 0 ps success.id_binds
      fail.error_binds ((==_iff _ _).0 (unless-empty (length success.id_binds == length ps) _ m))
      ((==_iff _ _).0 (unless-empty (length fail.error_binds == length ps) _ n))
      (λ k. ap (get_elem? success.id_binds) (zero_index k))
      (λ k. ap (get_elem? fail.error_binds) (zero_index k)) checked
