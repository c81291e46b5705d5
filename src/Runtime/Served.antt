-- ===== src/Runtime/Served.antt =====
-- runtime/src/runtime.rs: every round of the main loop keeps `non_empty_queues` right.
use maroon.Prelude.{
  ◌∙◌, ℕ, zero, suc, ◌≡◌, refl, arith, List, [], ◌∷◌, ◌++◌, Bool, true, false, ◌||◌, Option, String,
  Bool-cases, Option-cases, List-cases, inl, inr, leb, OnOk, OnOk-bind, OnOk-bind-eq,
}
use maroon.Prelude.Maps.{Map, nat_eq, string_eq, get, contains_key, contains_key-insert}
use maroon.RangeKey.{add64}
use maroon.Fiber.{
  SetPrimitiveValue, CreatePrimitiveValue, Creation, RunResult, Fiber, run as run_fiber,
}
use maroon.Runtime.{
  SuccessBindKind, Program, Runtime, ScheduledBlob, push_message, set_value, set_values, new_fiber,
  create_fibers,
}
use maroon.Runtime.Create.{
  contains, errors_of, has_error, bind_errors, bind_ids, create_primitive, create_primitives,
  create,
}
use maroon.Runtime.Loop.{take_scheduled, apply_run_result, run_active}
use maroon.Runtime.Queues.{NamesNonEmpty, push-NamesNonEmpty, create-NamesNonEmpty}

module _ {St V F H : Type 0} where
  abbrev pub IsServed : Runtime St V F H → Type 0
  IsServed rt = NamesNonEmpty rt.queue_messages rt.non_empty_queues

  set_value-keeps :
      (rt : Runtime St V F H) (v : SetPrimitiveValue V)
      → IsServed rt
      → OnOk IsServed (set_value rt v)
  unfolding set_value push_message
  set_value-keeps rt (SetPrimitiveValue.queue_message q value) served =
      elim (Option-cases (get rt.queue_messages q)) [
        | inl gone ↦ rw (gone, set_value, OnOk) tt
        | inr (queue, at) ↦
            rw (at, set_value, OnOk)
              (push-NamesNonEmpty rt.queue_messages rt.non_empty_queues q queue value served at)
      ]
  set_value-keeps rt (SetPrimitiveValue.future id value) served =
      elim (Option-cases (get rt.public_futures id)) [
        | inl gone ↦ rw (gone, set_value, OnOk) served
        | inr (u_id, at) ↦ rw (at, set_value, OnOk) served
      ]

  set_values-keeps :
      (rt : Runtime St V F H) (vs : List (SetPrimitiveValue V))
      → IsServed rt
      → OnOk IsServed (set_values rt vs)
  unfolding set_values
  set_values-keeps rt [] served = served
  set_values-keeps rt (v ∷ vs) served =
      OnOk-bind IsServed IsServed (set_value rt v) _ (set_value-keeps rt v served)
        (λ set s. set_values-keeps set vs s)

module _ {St V F H : Type 0} (timer : ℕ → ℕ) where
  -- The names in use are those that were, and those that this creation has made.
  create_primitives-keeps :
      (rt : Runtime St V F H) (queues : Map String (List V)) (candidates : List String)
      (ps : List CreatePrimitiveValue)
      → ((name : String)
          → contains_key rt.queue_messages name
            ≡ (contains_key queues name || contains candidates name))
      → has_error (errors_of queues candidates ps) ≡ false
      → IsServed rt
      → IsServed (create_primitives timer rt ps).0
  unfolding create_primitives create_primitive errors_of
  create_primitives-keeps rt queues candidates [] same free served = served
  create_primitives-keeps rt queues candidates (CreatePrimitiveValue.future ∷ ps) same free served =
      create_primitives-keeps (create_primitive timer rt CreatePrimitiveValue.future).0 queues
        candidates ps same free served
  create_primitives-keeps rt queues candidates (CreatePrimitiveValue.schedule ms ∷ ps) same free
        served =
      create_primitives-keeps (create_primitive timer rt (CreatePrimitiveValue.schedule ms)).0
        queues candidates ps same free served
  create_primitives-keeps rt queues candidates (CreatePrimitiveValue.queue q public ∷ ps) same free
        served =
      elim (Bool-cases (contains_key queues q || contains candidates q)) [
        | inl taken ↦ cc (rw taken at free)
        | inr new ↦
            create_primitives-keeps
              (create_primitive timer rt (CreatePrimitiveValue.queue q public)).0 queues
              (q ∷ candidates) ps
              (λ name. ground (arith, contains_key-insert rt.queue_messages q name [], same name))
              (rw new at free)
              (create-NamesNonEmpty rt.queue_messages rt.non_empty_queues q served (same q ∙ new))
      ]

module _ {St V F H : Type 0} (program : Program St V F H) where
  create_fibers-keeps :
      (rt : Runtime St V F H) (details : List (String × List V))
      → IsServed rt
      → OnOk IsServed (create_fibers program rt details)
  unfolding create_fibers
  create_fibers-keeps rt [] served = served
  create_fibers-keeps rt ((f_type, init_vars) ∷ details) served =
      OnOk-bind-eq IsServed (new_fiber program f_type rt.next_fiber_id init_vars) _ (λ nf made.
        create_fibers-keeps
          (record rt {
            next_fiber_id = add64 rt.next_fiber_id 1;
            active_fibers = rt.active_fibers ++ nf ∷ [];
          })
          details served)

module _ {St V F H : Type 0} (program : Program St V F H) (timer : ℕ → ℕ) where
  create-keeps :
      (rt : Runtime St V F H) (fiber : Fiber St V (SuccessBindKind F) H)
      (c : Creation St (SuccessBindKind F))
      → IsServed rt
      → OnOk IsServed (create program timer rt fiber c)
  unfolding create
  create-keeps rt fiber c served =
      elim (Bool-cases (has_error (errors_of rt.queue_messages [] c.primitives))) [
        | inl taken ↦ rw taken (
            OnOk-bind-eq IsServed
              (bind_errors program fiber c.fail_binds (errors_of rt.queue_messages [] c.primitives))
              _ (λ bound at. served))
        | inr free ↦ rw free (
            OnOk-bind-eq IsServed
              (bind_ids program fiber c.success_binds (create_primitives timer rt c.primitives).1
                c.success_kinds)
              _
              (λ bound at.
                create_primitives-keeps timer rt rt.queue_messages [] c.primitives
                  (λ name. or-false (contains_key rt.queue_messages name)) free served))
      ]
    where
      or-false : (b : Bool) → b ≡ (b || false)
      or-false true = refl
      or-false false = refl

module _ {St V F H : Type 0} (program : Program St V F H) (timer : ℕ → ℕ)
    (vacant : (A : Type 0) → Map ℕ A → ℕ)
    (pop_first : List ScheduledBlob → Option (ScheduledBlob × List ScheduledBlob)) where
  pub take_scheduled-keeps :
      (rt : Runtime St V F H)
      → IsServed rt
      → IsServed (take_scheduled program timer vacant pop_first rt)
  unfolding take_scheduled
  take_scheduled-keeps rt served = elim (Option-cases (pop_first rt.scheduled)) [
    | inl none_due ↦ rw (none_due, take_scheduled) served
    | inr ((blob, rest), at) ↦
        rw (at, take_scheduled)
          (elim (Bool-cases (leb blob.when (timer rt.readings))) [
            | inl due ↦ rw due served
            | inr later ↦ rw later served
          ])
  ]

  pub apply_run_result-keeps :
      (rt : Runtime St V F H) (fiber : Fiber St V (SuccessBindKind F) H)
      (result : RunResult St V (SuccessBindKind F))
      → IsServed rt
      → OnOk IsServed (apply_run_result program timer vacant pop_first rt fiber result)
  unfolding apply_run_result
  apply_run_result-keeps rt fiber RunResult.done served = served
  apply_run_result-keeps rt fiber (RunResult.select states) served = served
  apply_run_result-keeps rt fiber (RunResult.create_fibers details) served =
      OnOk-bind IsServed IsServed (create_fibers program rt details) _
        (create_fibers-keeps program rt details served) (λ spawned s. s)
  apply_run_result-keeps rt fiber (RunResult.set_values values) served =
      OnOk-bind IsServed IsServed (set_values rt values) _ (set_values-keeps rt values served)
        (λ set s. s)
  apply_run_result-keeps rt fiber (RunResult.create c) served =
      create-keeps program timer rt fiber c served

  pub run_active-keeps :
      (fuel : ℕ) (rt : Runtime St V F H)
      → IsServed rt
      → OnOk IsServed (run_active program timer vacant pop_first fuel rt)
  unfolding run_active
  run_active-keeps zero rt served = tt
  run_active-keeps (suc fuel) rt served = elim (List-cases rt.active_fibers) [
    | inl at ↦ rw (at, run_active, OnOk) served
    | inr (fiber, rest, at) ↦
        rw (at, run_active)
          (OnOk-bind-eq IsServed (run_fiber program.func_args_count program.global_step fuel fiber)
            _
            (λ (ran, result) run.
              OnOk-bind IsServed IsServed
                (apply_run_result program timer vacant pop_first
                  (record rt { active_fibers = rest }) ran result)
                _ (apply_run_result-keeps (record rt { active_fibers = rest }) ran result served)
                (λ applied s. run_active-keeps fuel applied s)))
  ]
