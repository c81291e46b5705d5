-- ===== src/Runtime/Same.antt =====
-- runtime/src/runtime.rs: what leaves the fibers where they are.
use mathlib.Core.Path.{subst}
use maroon.Prelude.{
  ℕ, zero, suc, ◌≡◌, refl, sym, ◌∙◌, List, [], ◌∷◌, Option, some, leb, ltb, Bool-cases,
  Option-cases, List-cases, inl, inr, OnOk, OnOk-bind, OnOk-bind-eq, OnOk-map,
}
use maroon.Prelude.Maps.{Map, nat_eq, string_eq, get, insert}
use maroon.Prelude.Decimal.{to_string}
use maroon.RangeKey.{add64}
use maroon.App.Transactions.{RuntimeTask}
use maroon.Fiber.{SetPrimitiveValue, CreatePrimitiveValue}
use maroon.WaitRegistry.{SelectReg}
use maroon.Runtime.{Program, Runtime, ScheduledBlob, Input, push_message, set_value, set_values}
use maroon.Runtime.Create.{create_primitive, create_primitives}
use maroon.Runtime.Loop.{take_scheduled, deliver, next_tasks, read_tasks}
use maroon.Runtime.Parked.{IsParked}

module _ {St V F H : Type 0} where
  -- `to` has the fibers of `from`, in the same places.
  abbrev pub HasSameFibers : Runtime St V F H → Runtime St V F H → Type 0
  HasSameFibers from to =
      (to.wait_index ≡ from.wait_index)
      × (to.awaiting_fibers ≡ from.awaiting_fibers)
      × (to.active_fibers ≡ from.active_fibers)
      × (to.next_fiber_id ≡ from.next_fiber_id)

  HasSameFibers-trans :
      (a b c : Runtime St V F H) → HasSameFibers a b → HasSameFibers b c → HasSameFibers a c
  HasSameFibers-trans a b c (p, q, r, s) (t, u, v, w) = (t ∙ p, u ∙ q, v ∙ r, w ∙ s)

  set_value-same :
      (rt : Runtime St V F H) (v : SetPrimitiveValue V) → OnOk (HasSameFibers rt) (set_value rt v)
  unfolding set_value push_message
  set_value-same rt (SetPrimitiveValue.queue_message q value) =
      elim (Option-cases (get rt.queue_messages q)) [
        | inl gone ↦ rw (gone, set_value, OnOk) tt
        | inr (queue, at) ↦ rw (at, set_value, OnOk) (refl, refl, refl, refl)
      ]
  set_value-same rt (SetPrimitiveValue.future id value) =
      elim (Option-cases (get rt.public_futures id)) [
        | inl gone ↦ rw (gone, set_value, OnOk) (refl, refl, refl, refl)
        | inr (u_id, at) ↦ rw (at, set_value, OnOk) (refl, refl, refl, refl)
      ]

  pub set_values-same :
      (rt : Runtime St V F H) (vs : List (SetPrimitiveValue V))
      → OnOk (HasSameFibers rt) (set_values rt vs)
  unfolding set_values
  set_values-same rt [] = (refl, refl, refl, refl)
  set_values-same rt (v ∷ vs) =
      OnOk-bind (HasSameFibers rt) (HasSameFibers rt) (set_value rt v) _ (set_value-same rt v)
        (λ set s.
          OnOk-map (HasSameFibers set) (HasSameFibers rt) (set_values set vs)
            (set_values-same set vs) (λ last t. HasSameFibers-trans rt set last s t))

  pub IsParked-same :
      (rt to : Runtime St V F H) (gs : Map ℕ (SelectReg St))
      → HasSameFibers rt to
      → IsParked rt gs
      → IsParked to gs
  IsParked-same rt to gs (index, awaiting, active, next) h =
      subst (λ w. IsParked (record to { wait_index = w }) gs) (sym index)
        (subst (λ a. IsParked (record to { wait_index = rt.wait_index; awaiting_fibers = a }) gs)
          (sym awaiting)
          (subst
            (λ fs. IsParked (record rt { active_fibers = fs; next_fiber_id = to.next_fiber_id }) gs)
            (sym active) (subst (λ n. IsParked (record rt { next_fiber_id = n }) gs) (sym next) h)))

module _ {St V F H : Type 0} (timer : ℕ → ℕ) where
  create_primitive-same :
      (rt : Runtime St V F H) (p : CreatePrimitiveValue)
      → HasSameFibers rt (create_primitive timer rt p).0
  unfolding create_primitive
  create_primitive-same rt (CreatePrimitiveValue.queue name public) = (refl, refl, refl, refl)
  create_primitive-same rt CreatePrimitiveValue.future = (refl, refl, refl, refl)
  create_primitive-same rt (CreatePrimitiveValue.schedule ms) = (refl, refl, refl, refl)

  pub create_primitives-same :
      (rt : Runtime St V F H) (ps : List CreatePrimitiveValue)
      → HasSameFibers rt (create_primitives timer rt ps).0
  unfolding create_primitives
  create_primitives-same rt [] = (refl, refl, refl, refl)
  create_primitives-same rt (p ∷ ps) =
      let made = (create_primitive timer rt p).0 in
      HasSameFibers-trans rt made (create_primitives timer made ps).0 (create_primitive-same rt p)
        (create_primitives-same made ps)

module _ {St V F H : Type 0} (program : Program St V F H) (timer : ℕ → ℕ)
    (vacant : (A : Type 0) → Map ℕ A → ℕ)
    (pop_first : List ScheduledBlob → Option (ScheduledBlob × List ScheduledBlob)) where
  pub take_scheduled-same :
      (rt : Runtime St V F H) → HasSameFibers rt (take_scheduled program timer vacant pop_first rt)
  unfolding take_scheduled
  take_scheduled-same rt = elim (Option-cases (pop_first rt.scheduled)) [
    | inl none_due ↦ rw (none_due, take_scheduled) (refl, refl, refl, refl)
    | inr ((blob, rest), at) ↦
        rw (at, take_scheduled)
          (elim (Bool-cases (leb blob.when (timer rt.readings))) [
            | inl due ↦ rw due (refl, refl, refl, refl)
            | inr later ↦ rw later (refl, refl, refl, refl)
          ])
  ]

  deliver-same :
      (rt : Runtime St V F H) (bs : List (RuntimeTask V))
      → OnOk (HasSameFibers rt) (deliver program timer vacant pop_first rt bs)
  unfolding deliver push_message
  deliver-same rt [] = (refl, refl, refl, refl)
  deliver-same rt (b ∷ bs) = elim (Option-cases (get rt.queue_messages b.q_name)) [
    | inl gone ↦ rw (gone, deliver) (deliver-same rt bs)
    | inr (queue, at) ↦
        rw (at, deliver)
          (OnOk-bind-eq (HasSameFibers rt)
            (program.pub_to_private b.value (to_string rt.next_created_future_id)) _
            (λ p_value made.
              deliver-same
                (push_message
                  (record rt {
                    public_futures =
                        insert rt.public_futures (to_string rt.next_created_future_id) b.global_id;
                    next_created_future_id = add64 rt.next_created_future_id 1;
                  })
                  b.q_name queue p_value)
                bs))
  ]

  next_tasks-same :
      (rt : Runtime St V F H) (tasks : Input V) (taken : Runtime St V F H)
      → next_tasks program timer vacant pop_first rt ≡ some (tasks, taken)
      → HasSameFibers rt taken
  next_tasks-same rt tasks taken h = elim (List-cases rt.active_tasks) [
    | inl at ↦ elim (List-cases rt.received) [
      | inl at' ↦ cc (rw at' at (rw at at h))
      | inr (x, later, at') ↦
          let same : record rt { received = later } ≡ taken = cc (rw at' at (rw at at h)) in
          subst (HasSameFibers rt) same (refl, refl, refl, refl)
    ]
    | inr (x, later, at) ↦
        let same : record rt { active_tasks = later } ≡ taken = cc (rw at at h) in
        subst (HasSameFibers rt) same (refl, refl, refl, refl)
  ]

  pub read_tasks-same :
      (fuel : ℕ) (rt : Runtime St V F H)
      → OnOk (HasSameFibers rt) (read_tasks program timer vacant pop_first fuel rt)
  unfolding read_tasks
  read_tasks-same zero rt = tt
  read_tasks-same (suc fuel) rt =
      let read = record rt { readings = suc rt.readings } in
      elim (Option-cases (next_tasks program timer vacant pop_first read)) [
        | inl empty ↦ rw (empty, read_tasks, OnOk) (refl, refl, refl, refl)
        | inr (((time_stamp, tasks), taken), at) ↦
            let kept = next_tasks-same read (time_stamp, tasks) taken at in
            rw (at, read_tasks)
              (elim (Bool-cases (ltb (timer rt.readings) time_stamp)) [
                | inl early ↦ rw (early, OnOk) kept
                | inr due ↦ rw due (
                    OnOk-bind (HasSameFibers rt) (HasSameFibers rt)
                      (deliver program timer vacant pop_first taken tasks) _
                      (OnOk-map (HasSameFibers taken) (HasSameFibers rt)
                        (deliver program timer vacant pop_first taken tasks)
                        (deliver-same taken tasks)
                        (λ d same. HasSameFibers-trans rt taken d kept same))
                      (λ d s.
                        OnOk-map (HasSameFibers d) (HasSameFibers rt)
                          (read_tasks program timer vacant pop_first fuel d)
                          (read_tasks-same fuel d) (λ last t. HasSameFibers-trans rt d last s t)))
              ])
      ]
