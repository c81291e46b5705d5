-- ===== src/Runtime/Alive.antt =====
-- runtime/src/runtime.rs: while the ids of the fibers do not wrap, each fiber is active or waits, and the
-- fibers that wait are those of the registrations.
use mathlib.Core.Path.{subst}
use maroon.Prelude.{
  ℕ, ◌+◌, ◌<◌, ◌≡◌, ◌≢◌, refl, sym, ◌∙◌, ap, arith, List, [], ◌∷◌, ◌++◌, Option, none, String,
  length, Bool-cases, ◌%◌, inl, inr, All, All-append, All-of-append, All-map, OnOk, OnOk-bind,
  OnOk-bind-eq, OnOk-of, OnOk-map,
}
use maroon.Prelude.Maps.{Map, nat_eq, string_eq, get}
use maroon.RangeKey.{u64_mod, add64}
use maroon.Fiber.{SelectArm, Fiber, RunResult, Creation, push_next}
use maroon.WaitRegistry.{SelectReg}
use maroon.WaitRegistry.Links.{AreDistinct}
use maroon.Runtime.{
  SuccessBindKind, Program, Runtime, ScheduledBlob, set_values, new_fiber, create_fibers,
}
use maroon.WaitRegistry.Serving.{IsServing}
use maroon.Runtime.Create.{has_error, errors_of, bind_errors, bind_ids, create_primitives, create}
use maroon.Runtime.Loop.{apply_run_result}
use maroon.Runtime.Same.{HasSameFibers, set_values-same, create_primitives-same}
use maroon.Runtime.Bound.{bind_errors-unique_id, bind_ids-unique_id, new_fiber-unique_id}
use maroon.Runtime.Parked.{IsParked, Waits, NobodyElse, ids_active, fibers_of, select-IsParked}

-- A new item put between two parts of a list.
All-insert :
    (P : ℕ → Type 0) (xs : List ℕ) (k : ℕ) (ys : List ℕ)
    → P k
    → All P (xs ++ ys)
    → All P ((xs ++ k ∷ []) ++ ys)
All-insert P xs k ys here all =
    let (front, back) = All-of-append P xs ys all in
    All-append P (xs ++ k ∷ []) ys (All-append P xs (k ∷ []) front (here, tt)) back

AreDistinct-insert :
    (xs : List ℕ) (k : ℕ) (ys : List ℕ)
    → All (λ i. i ≢ k) (xs ++ ys)
    → AreDistinct (xs ++ ys)
    → AreDistinct ((xs ++ k ∷ []) ++ ys)
AreDistinct-insert [] k ys out distinct = (out, distinct)
AreDistinct-insert (x ∷ xs) k ys out (away, distinct) = (
  All-insert (λ j. j ≢ x) xs k ys (λ e. out.0 (sym e)) away,
  AreDistinct-insert xs k ys out.1 distinct,
)

module _ {St V F H : Type 0} where
  ids_active-append :
      (fs gs : List (Fiber St V (SuccessBindKind F) H))
      → ids_active (fs ++ gs) ≡ ids_active fs ++ ids_active gs
  ids_active-append [] gs = refl
  ids_active-append (f ∷ fs) gs = ap (◌∷◌ f.unique_id) (ids_active-append fs gs)

module _ {St V F H : Type 0} (program : Program St V F H) where
  -- The state while the fiber `i` runs, which is taken from the active ones.
  abbrev pub IsRunning : Runtime St V F H → ℕ → Map ℕ (SelectReg St) → Type 0
  IsRunning rt i gs =
      IsServing rt.wait_index gs
      × AreDistinct (i ∷ ids_active rt.active_fibers ++ fibers_of gs)
      × All (Waits rt.awaiting_fibers) (fibers_of gs)
      × All (λ k. k < rt.next_fiber_id) (i ∷ ids_active rt.active_fibers ++ fibers_of gs)
      × NobodyElse rt.awaiting_fibers (fibers_of gs)

  IsRunning-same :
      (rt to : Runtime St V F H) (i : ℕ) (gs : Map ℕ (SelectReg St))
      → HasSameFibers rt to
      → IsRunning rt i gs
      → IsRunning to i gs
  IsRunning-same rt to i gs (index, awaiting, active, next) h =
      subst (λ w. IsRunning (record to { wait_index = w }) i gs) (sym index)
        (subst (λ a. IsRunning (record to { wait_index = rt.wait_index; awaiting_fibers = a }) i gs)
          (sym awaiting)
          (subst
            (λ fs.
              IsRunning (record rt { active_fibers = fs; next_fiber_id = to.next_fiber_id }) i gs)
            (sym active)
            (subst (λ n. IsRunning (record rt { next_fiber_id = n }) i gs) (sym next) h)))

  -- The new fiber is put behind those that are active.
  spawned-IsRunning :
      (rt : Runtime St V F H) (i : ℕ) (gs : Map ℕ (SelectReg St))
      (nf : Fiber St V (SuccessBindKind F) H)
      → nf.unique_id ≡ rt.next_fiber_id
      → rt.next_fiber_id + 1 < u64_mod
      → IsRunning rt i gs
      → IsRunning
          (record rt {
            next_fiber_id = add64 rt.next_fiber_id 1;
            active_fibers = rt.active_fibers ++ nf ∷ [];
          })
          i
          gs
  unfolding add64
  spawned-IsRunning rt i gs nf own room (serving, distinct, waits, below, only) =
      let actives = ids_active rt.active_fibers in
      let grown : (i ∷ actives ++ rt.next_fiber_id ∷ []) ++ fibers_of gs
          ≡ i ∷ ids_active (rt.active_fibers ++ nf ∷ []) ++ fibers_of gs =
        ap (λ l. i ∷ l ++ fibers_of gs)
          (ap (λ k. actives ++ k ∷ []) (sym own)
            ∙ sym (ids_active-append rt.active_fibers (nf ∷ []))) in
      let counts : rt.next_fiber_id + 1 ≡ (rt.next_fiber_id + 1) % u64_mod = omega arith in
      (
        serving,
        subst AreDistinct grown (
            AreDistinct-insert (i ∷ actives) rt.next_fiber_id (fibers_of gs)
              (All-map (λ k. k < rt.next_fiber_id) (λ k. k ≢ rt.next_fiber_id)
                (i ∷ actives ++ fibers_of gs) (λ k less. omega arith) below)
              distinct),
        waits,
        subst (λ n. All (λ k. k < n) (i ∷ ids_active (rt.active_fibers ++ nf ∷ []) ++ fibers_of gs))
            counts
            (subst (All (λ k. k < rt.next_fiber_id + 1)) grown (
              All-insert (λ k. k < rt.next_fiber_id + 1) (i ∷ actives) rt.next_fiber_id
                (fibers_of gs) (omega arith)
                (All-map (λ k. k < rt.next_fiber_id) (λ k. k < rt.next_fiber_id + 1)
                  (i ∷ actives ++ fibers_of gs) (λ k less. omega arith) below))),
        only,
      )

  create_fibers-IsRunning :
      (rt : Runtime St V F H) (details : List (String × List V)) (i : ℕ) (gs : Map ℕ (SelectReg St))
      → rt.next_fiber_id + length details < u64_mod
      → IsRunning rt i gs
      → OnOk (λ r. IsRunning r i gs) (create_fibers program rt details)
  unfolding create_fibers add64
  create_fibers-IsRunning rt [] i gs room h = h
  create_fibers-IsRunning rt ((f_type, init_vars) ∷ details) i gs room h =
      OnOk-bind-eq (λ r. IsRunning r i gs) (new_fiber program f_type rt.next_fiber_id init_vars) _
        (λ nf made.
          create_fibers-IsRunning
            (record rt {
              next_fiber_id = add64 rt.next_fiber_id 1;
              active_fibers = rt.active_fibers ++ nf ∷ [];
            })
            details i gs (omega arith)
            (spawned-IsRunning rt i gs nf
              (OnOk-of (λ f. f.unique_id ≡ rt.next_fiber_id)
                (new_fiber program f_type rt.next_fiber_id init_vars)
                (new_fiber-unique_id program f_type rt.next_fiber_id init_vars) made)
              (omega arith) h))

module _ {St V F H : Type 0} (program : Program St V F H) (timer : ℕ → ℕ) where
  create-IsParked :
      (rt : Runtime St V F H) (fiber : Fiber St V (SuccessBindKind F) H)
      (c : Creation St (SuccessBindKind F)) (gs : Map ℕ (SelectReg St))
      → IsRunning program rt fiber.unique_id gs
      → OnOk (λ r. IsParked r gs) (create program timer rt fiber c)
  unfolding create push_next
  create-IsParked rt fiber c gs h =
      elim (Bool-cases (has_error (errors_of rt.queue_messages [] c.primitives))) [
        | inl taken ↦ rw taken (
            OnOk-bind (λ g. g.unique_id ≡ fiber.unique_id) (λ r. IsParked r gs)
              (bind_errors program fiber c.fail_binds (errors_of rt.queue_messages [] c.primitives))
              _
              (bind_errors-unique_id program fiber c.fail_binds
                (errors_of rt.queue_messages [] c.primitives))
              (λ bound same. subst (λ i. IsRunning program rt i gs) (sym same) h))
        | inr none_taken ↦ rw none_taken (
            OnOk-bind (λ g. g.unique_id ≡ fiber.unique_id) (λ r. IsParked r gs)
              (bind_ids program fiber c.success_binds (create_primitives timer rt c.primitives).1
                c.success_kinds)
              _
              (bind_ids-unique_id program fiber c.success_binds
                (create_primitives timer rt c.primitives).1 c.success_kinds)
              (λ bound same.
                subst (λ i. IsRunning program (create_primitives timer rt c.primitives).0 i gs)
                  (sym same)
                  (IsRunning-same program rt (create_primitives timer rt c.primitives).0
                    fiber.unique_id gs (create_primitives-same timer rt c.primitives) h)))
      ]

-- A fiber's run that makes fibers finds ids for them.
abbrev pub HasRoom : {St V F : Type 0} → ℕ → RunResult St V (SuccessBindKind F) → Type 0
HasRoom next RunResult.done = Unit
HasRoom next (RunResult.select states) = Unit
HasRoom next (RunResult.create_fibers details) = next + length details < u64_mod
HasRoom next (RunResult.set_values values) = Unit
HasRoom next (RunResult.create c) = Unit

module _ {St V F H : Type 0} (program : Program St V F H) (timer : ℕ → ℕ)
    (vacant : (A : Type 0) → Map ℕ A → ℕ)
    (pop_first : List ScheduledBlob → Option (ScheduledBlob × List ScheduledBlob)) where
  abbrev pub IsSettled : Runtime St V F H → Type 0
  IsSettled rt = (gs : Map ℕ (SelectReg St)) × IsParked rt gs

  module _ (free : (A : Type 0) (m : Map ℕ A) → get m (vacant A m) ≡ none) where
    select-IsSettled :
        (rt : Runtime St V F H) (fiber : Fiber St V (SuccessBindKind F) H)
        (states : List (SelectArm St)) (gs : Map ℕ (SelectReg St))
        → IsRunning program rt fiber.unique_id gs
        → OnOk IsSettled
            (apply_run_result program timer vacant pop_first rt fiber (RunResult.select states))
    unfolding apply_run_result
    select-IsSettled rt fiber states gs running =
        let (id, reg, _, _, joined) =
          select-IsParked program timer vacant pop_first free rt gs fiber states running in
        (gs ++ (id, reg) ∷ [], joined)

    pub apply_run_result-IsSettled :
        (rt : Runtime St V F H) (fiber : Fiber St V (SuccessBindKind F) H)
        (result : RunResult St V (SuccessBindKind F)) (gs : Map ℕ (SelectReg St))
        → HasRoom rt.next_fiber_id result
        → IsRunning program rt fiber.unique_id gs
        → OnOk IsSettled (apply_run_result program timer vacant pop_first rt fiber result)
    unfolding apply_run_result
    apply_run_result-IsSettled rt fiber RunResult.done gs room
          (serving, (_, distinct), waits, (_, below), only) =
        (gs, (serving, distinct, waits, below, only))
    apply_run_result-IsSettled rt fiber (RunResult.select states) gs room h =
        select-IsSettled rt fiber states gs h
    apply_run_result-IsSettled rt fiber (RunResult.create_fibers details) gs room h =
        OnOk-bind (λ r. IsRunning program r fiber.unique_id gs) IsSettled
          (create_fibers program rt details) _
          (create_fibers-IsRunning program rt details fiber.unique_id gs room h)
          (λ spawned running. (gs, running))
    apply_run_result-IsSettled rt fiber (RunResult.set_values values) gs room h =
        OnOk-bind (HasSameFibers rt) IsSettled (set_values rt values) _ (set_values-same rt values)
          (λ set same. (gs, IsRunning-same program rt set fiber.unique_id gs same h))
    apply_run_result-IsSettled rt fiber (RunResult.create c) gs room h =
        OnOk-map (λ r. IsParked r gs) IsSettled (create program timer rt fiber c)
          (create-IsParked program timer rt fiber c gs h) (λ r alive. (gs, alive))
