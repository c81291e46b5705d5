-- ===== src/Runtime/Steps.antt =====
-- runtime/src/runtime.rs: the runtime as a sequence of steps, in any order, and what they keep.
use mathlib.Core.Path.{subst}
use maroon.Prelude.{
  ℕ, ◌≡◌, refl, sym, arith, List, [], ◌∷◌, Bool, false, Option, none, String, ok, List-cases, inl,
  inr, OnOk, OnOk-bind-eq, OnOk-of, OnOk-map,
}
use maroon.Prelude.Maps.{Map, nat_eq, string_eq, get}
use maroon.Fiber.{Fiber, RunResult, run as run_fiber}
use maroon.Fiber.Identity.{run-unique_id}
use maroon.WaitRegistry.Lives.{default-IsServing}
use maroon.Runtime.{SuccessBindKind, Program, Runtime, ScheduledBlob, Input, new, new_fiber}
use maroon.Runtime.Loop.{
  take_scheduled, apply_run_result, resolve_future, serve_queue, read_tasks, start,
}
use maroon.Runtime.Served.{IsServed, take_scheduled-keeps, apply_run_result-keeps}
use maroon.Runtime.Rounds.{resolve_future-keeps, serve_queue-keeps, read_tasks-keeps}
use maroon.Runtime.Parked.{IsParked}
use maroon.Runtime.Turns.{serve_queue-first, resolve_future-first}
use maroon.Runtime.Same.{HasSameFibers, IsParked-same, take_scheduled-same, read_tasks-same}
use maroon.Runtime.Bound.{new_fiber-unique_id}
use maroon.Runtime.Alive.{IsRunning, IsSettled, HasRoom, apply_run_result-IsSettled}

module _ {St V F H : Type 0} (program : Program St V F H) (timer : ℕ → ℕ)
    (vacant : (A : Type 0) → Map ℕ A → ℕ)
    (pop_first : List ScheduledBlob → Option (ScheduledBlob × List ScheduledBlob)) where
  -- The parts of the main loop: a blob that is due, a run of the first active fiber, for which there are
  -- ids when it makes fibers, a resolved future, a queue, and the tasks that come in.
  pub data Turn (from to : Runtime St V F H) : Type 0 where
    schedules : to ≡ take_scheduled program timer vacant pop_first from → Turn from to
    runs :
        (fuel : ℕ) (fiber ran : Fiber St V (SuccessBindKind F) H)
        (rest : List (Fiber St V (SuccessBindKind F) H))
        (result : RunResult St V (SuccessBindKind F))
        → from.active_fibers ≡ fiber ∷ rest
        → run_fiber program.func_args_count program.global_step fuel fiber ≡ ok (ran, result)
        → HasRoom from.next_fiber_id result
        → apply_run_result program timer vacant pop_first
            (record from { active_fibers = rest })
            ran
            result
          ≡ ok to
        → Turn from to
    resolves : resolve_future program timer vacant pop_first from ≡ ok to → Turn from to
    serves :
        (again : Bool)
        → serve_queue program timer vacant pop_first from ≡ ok (to, again)
        → Turn from to
    reads : (fuel : ℕ) → read_tasks program timer vacant pop_first fuel from ≡ ok to → Turn from to

  pub data Turns (from : Runtime St V F H) : Runtime St V F H → Type 0 where
    stay : Turns from from
    go : {mid to : Runtime St V F H} → Turns from mid → Turn mid to → Turns from to

  abbrev Settled : Runtime St V F H → Type 0
  Settled rt = IsSettled program timer vacant pop_first rt

  serve_queue-empty :
      (rt : Runtime St V F H)
      → rt.non_empty_queues ≡ []
      → serve_queue program timer vacant pop_first rt ≡ ok (rt, false)
  unfolding serve_queue
  serve_queue-empty rt at = ground (arith, at)

  resolve_future-empty :
      (rt : Runtime St V F H)
      → rt.resolved_futures ≡ []
      → resolve_future program timer vacant pop_first rt ≡ ok rt
  unfolding resolve_future
  resolve_future-empty rt at = ground (arith, at)

  serve_queue-IsSettled :
      (rt : Runtime St V F H)
      → IsServed rt
      → Settled rt
      → OnOk (λ r. Settled r.0) (serve_queue program timer vacant pop_first rt)
  serve_queue-IsSettled rt right (gs, parked) = elim (List-cases rt.non_empty_queues) [
    | inl at ↦ rw (serve_queue-empty rt at, OnOk) (gs, parked)
    | inr (q, queues, at) ↦
        let (_, kept) =
          serve_queue-first program timer vacant pop_first rt gs q queues right parked at in
        OnOk-map _ (λ r. Settled r.0) (serve_queue program timer vacant pop_first rt) kept
          (λ r p. (_, p))
  ]

  resolve_future-IsSettled :
      (rt : Runtime St V F H)
      → Settled rt
      → OnOk Settled (resolve_future program timer vacant pop_first rt)
  resolve_future-IsSettled rt (gs, parked) = elim (List-cases rt.resolved_futures) [
    | inl at ↦ rw (resolve_future-empty rt at, OnOk) (gs, parked)
    | inr ((id, value), resolved, at) ↦
        let (_, kept) =
          resolve_future-first program timer vacant pop_first rt gs id value resolved parked at in
        OnOk-map _ Settled (resolve_future program timer vacant pop_first rt) kept (λ r p. (_, p))
  ]

  module _ (free : (A : Type 0) (m : Map ℕ A) → get m (vacant A m) ≡ none) where
    runs-IsSettled :
        (rt to : Runtime St V F H) (fuel : ℕ) (fiber ran : Fiber St V (SuccessBindKind F) H)
        (rest : List (Fiber St V (SuccessBindKind F) H))
        (result : RunResult St V (SuccessBindKind F))
        → Settled rt
        → rt.active_fibers ≡ fiber ∷ rest
        → run_fiber program.func_args_count program.global_step fuel fiber ≡ ok (ran, result)
        → HasRoom rt.next_fiber_id result
        → apply_run_result program timer vacant pop_first
            (record rt { active_fibers = rest })
            ran
            result
          ≡ ok to
        → Settled to
    runs-IsSettled rt to fuel fiber ran rest result (gs, parked) at run room applied =
        let same : ran.unique_id ≡ fiber.unique_id =
          OnOk-of (λ r. r.0.unique_id ≡ fiber.unique_id)
            (run_fiber program.func_args_count program.global_step fuel fiber)
            (run-unique_id program.func_args_count program.global_step fuel fiber) run in
        let front : IsParked (record rt { active_fibers = fiber ∷ rest }) gs =
          subst (λ fs. IsParked (record rt { active_fibers = fs }) gs) at parked in
        OnOk-of Settled
          (apply_run_result program timer vacant pop_first (record rt { active_fibers = rest }) ran
            result)
          (apply_run_result-IsSettled program timer vacant pop_first free
            (record rt { active_fibers = rest }) ran result gs room
            (subst (λ i. IsRunning program (record rt { active_fibers = rest }) i gs) (sym same)
              front))
          applied

    Turn-IsSettled :
        (from to : Runtime St V F H)
        → IsServed from × Settled from
        → Turn from to
        → IsServed to × Settled to
    Turn-IsSettled from to (right, (gs, parked)) (schedules e) = (
      subst IsServed (sym e) (take_scheduled-keeps program timer vacant pop_first from right),
      subst Settled (sym e) (
        gs,
        IsParked-same from (take_scheduled program timer vacant pop_first from) gs
            (take_scheduled-same program timer vacant pop_first from) parked,
      ),
    )
    Turn-IsSettled from to (right, settled) (runs fuel fiber ran rest result at run room applied) =
        (
          OnOk-of IsServed
              (apply_run_result program timer vacant pop_first
                (record from { active_fibers = rest }) ran result)
              (apply_run_result-keeps program timer vacant pop_first
                (record from { active_fibers = rest }) ran result right)
              applied,
          runs-IsSettled from to fuel fiber ran rest result settled at run room applied,
        )
    Turn-IsSettled from to (right, settled) (resolves e) = (
      OnOk-of IsServed (resolve_future program timer vacant pop_first from)
          (resolve_future-keeps program timer vacant pop_first from right) e,
      OnOk-of Settled (resolve_future program timer vacant pop_first from)
          (resolve_future-IsSettled from settled) e,
    )
    Turn-IsSettled from to (right, settled) (serves again e) = (
      OnOk-of (λ r. IsServed r.0) (serve_queue program timer vacant pop_first from)
          (serve_queue-keeps program timer vacant pop_first from right) e,
      OnOk-of (λ r. Settled r.0) (serve_queue program timer vacant pop_first from)
          (serve_queue-IsSettled from right settled) e,
    )
    Turn-IsSettled from to (right, (gs, parked)) (reads fuel e) = (
      OnOk-of IsServed (read_tasks program timer vacant pop_first fuel from)
          (read_tasks-keeps program timer vacant pop_first fuel from right) e,
      (
        gs,
        IsParked-same from to gs
            (OnOk-of (HasSameFibers from) (read_tasks program timer vacant pop_first fuel from)
              (read_tasks-same program timer vacant pop_first fuel from) e)
            parked,
      ),
    )

    started-IsSettled :
        (received : List (Input V)) (root_type : String) (rt : Runtime St V F H)
        → start program timer vacant pop_first (new received) root_type ≡ ok rt
        → IsServed rt × Settled rt
    unfolding start new get
    started-IsSettled received root_type rt started =
        OnOk-of (λ r. IsServed r × Settled r)
          (start program timer vacant pop_first (new received) root_type)
          (OnOk-bind-eq (λ r. IsServed r × Settled r) (new_fiber program root_type 0 []) _
            (λ root made.
              let own =
                OnOk-of (λ f. f.unique_id ≡ 0) (new_fiber program root_type 0 [])
                  (new_fiber-unique_id program root_type 0 []) made in
              (
                λ name. refl,
                ([], (default-IsServing, (tt, tt), tt, (omega (arith, own), tt), (λ i out. refl))),
              )))
          started

    -- Where a slab's `insert` takes a key that has no entry: after any steps of a runtime that has just
    -- started, in any order, as long as a run that makes fibers finds ids for them on u64, a fiber is
    -- among those that wait exactly where the wait registry has a registration of it, it has only
    -- one, and is not active; and `non_empty_queues` has the names of the queues that have messages.
    pub Turns-IsSettled :
        (received : List (Input V)) (root_type : String) (first last : Runtime St V F H)
        → start program timer vacant pop_first (new received) root_type ≡ ok first
        → Turns first last
        → IsServed last × IsSettled program timer vacant pop_first last
    Turns-IsSettled received root_type first last started stay =
        started-IsSettled received root_type first started
    Turns-IsSettled received root_type first last started (go {mid} before turn) =
        Turn-IsSettled mid last (Turns-IsSettled received root_type first mid started before) turn
