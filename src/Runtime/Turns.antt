-- ===== src/Runtime/Turns.antt =====
-- runtime/src/runtime.rs, with runtime/src/wait_registry.rs: a message and a resolved future go to the
-- fiber whose select came first.
use mathlib.Core.Path.{subst}
use maroon.Prelude.{
  ℕ, ◌<◌, ◌≡◌, refl, sym, ◌∙◌, ap, List, [], ◌∷◌, ◌++◌, true, false, Option, none, some, String, ok,
  ◌>>=◌, All, if◌then◌else◌, OnOk, OnOk-bind-eq, OnOk-of, Option-cases, inl, inr,
}
use maroon.Prelude.Maps.{Map, nat_eq, string_eq, get, insert, remove}
use maroon.Fiber.{Fiber, assign_last, assign_local, assign_local_and_push_next, push_next}
use maroon.WaitRegistry.{WaitKey, SelectReg, WaitRegistry, WakeOutcome, wake_one}
use maroon.WaitRegistry.Links.{AreDistinct}
use maroon.WaitRegistry.Serving.{IsServing}
use maroon.WaitRegistry.Order.{served}
use maroon.WaitRegistry.Served.{wake_one-served}
use maroon.Runtime.{SuccessBindKind, Program, Runtime, ScheduledBlob, is_empty}
use maroon.Runtime.Loop.{resume, resolve_future, serve_queue}
use maroon.Runtime.Rounds.{serve_queue-message}
use maroon.Runtime.Served.{IsServed}
use maroon.Runtime.Parked.{
  IsParked, IsNext, Waits, NobodyElse, ids_active, fibers_of, served-IsNext, served-nobody,
}

module _ {St V F H : Type 0} (program : Program St V F H) (timer : ℕ → ℕ)
    (vacant : (A : Type 0) → Map ℕ A → ℕ)
    (pop_first : List ScheduledBlob → Option (ScheduledBlob × List ScheduledBlob)) where
  resume-unique_id :
      (fiber : Fiber St V (SuccessBindKind F) H) (a : WakeOutcome St) (v : V)
      → OnOk
          (λ resumed. resumed.unique_id ≡ fiber.unique_id)
          (resume program timer vacant pop_first fiber a v)
  unfolding assign_local_and_push_next push_next assign_local
  resume-unique_id fiber a v = elim (Option-cases a.bind) [
    | inl unbound ↦ rw (unbound, OnOk) refl
    | inr (name, bound) ↦ elim (Option-cases (assign_last name v fiber.stack)) [
      | inl gone ↦ rw (bound, assign_local_and_push_next, assign_local) (rw (gone, OnOk) tt)
      | inr (stack, there) ↦
          rw (bound, assign_local_and_push_next, assign_local) (rw (there, OnOk) refl)
    ]
  ]

  -- The queue's message is given to the fiber that was woken.
  abbrev given_to :
      Runtime St V F H
      → String
      → List String
      → WaitRegistry St
      → WakeOutcome St
      → List V
      → Fiber St V (SuccessBindKind F) H
      → Runtime St V F H
  given_to rt q queues woken a left resumed = record rt {
    wait_index = woken;
    queue_messages = insert rt.queue_messages q left;
    non_empty_queues = if is_empty left then queues else queues ++ q ∷ [];
    awaiting_fibers = remove rt.awaiting_fibers a.fiber_id;
    active_fibers = resumed ∷ rt.active_fibers;
  }

  abbrev pub MessageGiven :
      Runtime St V F H → String → List String → Option (WakeOutcome St) → Type 0
  MessageGiven rt q queues none =
      (woken : WaitRegistry St) × (serve_queue program timer vacant pop_first rt
        ≡ ok (record rt { wait_index = woken; non_empty_queues = queues ++ q ∷ [] }, false))
  MessageGiven rt q queues (some a) =
      (woken : WaitRegistry St) × (fiber : Fiber St V (SuccessBindKind F) H) × (v : V)
      × (left : List V) × (get rt.awaiting_fibers a.fiber_id ≡ some fiber)
      × (get rt.queue_messages q ≡ some (v ∷ left))
      × (serve_queue program timer vacant pop_first rt ≡ (
          resume program timer vacant pop_first fiber a v >>= λ resumed.
          ok (given_to rt q queues woken a left resumed, true)))

  resumed-IsParked :
      (rt : Runtime St V F H) (woken : WaitRegistry St) (hs : Map ℕ (SelectReg St))
      (a : WakeOutcome St) (i : ℕ)
      → IsServing woken hs
      → IsNext rt a hs
      → i ≡ a.fiber_id
      → IsServing woken hs
        × AreDistinct (i ∷ ids_active rt.active_fibers ++ fibers_of hs)
        × All (Waits (remove rt.awaiting_fibers a.fiber_id)) (fibers_of hs)
        × All (λ k. k < rt.next_fiber_id) (i ∷ ids_active rt.active_fibers ++ fibers_of hs)
        × NobodyElse (remove rt.awaiting_fibers a.fiber_id) (fibers_of hs)
  resumed-IsParked rt woken hs a i serving (_, distinct, waits, below, only) same =
      (serving, rw same distinct, waits, rw same below, only)

  still-IsParked :
      (rt : Runtime St V F H) (woken : WaitRegistry St) (gs : Map ℕ (SelectReg St)) (key : WaitKey)
      → (served key gs).1 ≡ none
      → IsServing woken (served key gs).0
      → IsParked rt gs
      → IsParked (record rt { wait_index = woken }) (served key gs).0
  still-IsParked rt woken gs key nobody serving (_, distinct, waits, below, only) =
      let same = served-nobody gs key nobody in
      subst (IsParked (record rt { wait_index = woken })) (sym same)
        (subst (IsServing woken) same serving, distinct, waits, below, only)

  serve_queue-rotates :
      (rt : Runtime St V F H) (q : String) (queues : List String) (woken : WaitRegistry St)
      → rt.non_empty_queues ≡ q ∷ queues
      → wake_one rt.wait_index (WaitKey.queue q) ≡ ok (woken, none)
      → serve_queue program timer vacant pop_first rt
        ≡ ok (record rt { wait_index = woken; non_empty_queues = queues ++ q ∷ [] }, false)
  unfolding serve_queue
  serve_queue-rotates rt q queues woken front woke = rw (front, serve_queue) (rw woke refl)

  -- A queue that is first in `non_empty_queues`, where these are right, the fibers that wait are those of
  -- the registrations, and the fibers have distinct ids below the next one: its first message goes to
  -- the fiber of the first registration that has an arm on the queue, which is among the fibers that
  -- wait, and which becomes active, unless it has no variable to bind the message to, which panics; if
  -- there is no such registration, the queue goes to the end. Where nothing panics, the fibers that
  -- wait are again those of the registrations, without the one that was served.
  pub serve_queue-first :
      (rt : Runtime St V F H) (gs : Map ℕ (SelectReg St)) (q : String) (queues : List String)
      → IsServed rt
      → IsParked rt gs
      → rt.non_empty_queues ≡ q ∷ queues
      → MessageGiven rt q queues (served (WaitKey.queue q) gs).1
        × OnOk
            (λ r. IsParked r.0 (served (WaitKey.queue q) gs).0)
            (serve_queue program timer vacant pop_first rt)
  serve_queue-first rt gs q queues right parked front =
      let (woken, woke, serving) = wake_one-served rt.wait_index gs (WaitKey.queue q) parked.0 in
      elim (Option-cases (served (WaitKey.queue q) gs).1) [
        | inl nobody ↦
            let runs =
              serve_queue-rotates rt q queues woken front (woke ∙ ap (λ o. ok (woken, o)) nobody) in
            rw nobody (
              (woken, runs),
              rw (runs, OnOk) (still-IsParked rt woken gs (WaitKey.queue q) nobody serving parked),
            )
        | inr (a, serves) ↦
            let next = served-IsNext rt gs (WaitKey.queue q) a parked serves in
            let (fiber, waits, own) = next.0 in
            let (v, left, at, runs) =
              serve_queue-message program timer vacant pop_first rt q queues woken a fiber right
                front (woke ∙ ap (λ o. ok (woken, o)) serves) waits in
            rw serves (
              (woken, fiber, v, left, waits, at, runs),
              rw runs (
                  OnOk-bind-eq (λ r. IsParked r.0 (served (WaitKey.queue q) gs).0)
                    (resume program timer vacant pop_first fiber a v) _
                    (λ resumed ran.
                      resumed-IsParked rt woken (served (WaitKey.queue q) gs).0 a resumed.unique_id
                        serving next
                        (OnOk-of (λ f. f.unique_id ≡ fiber.unique_id)
                            (resume program timer vacant pop_first fiber a v)
                            (resume-unique_id fiber a v) ran
                          ∙ own))),
            )
      ]

  abbrev pub FutureGiven :
      Runtime St V F H → String → V → List (String × V) → Option (WakeOutcome St) → Type 0
  FutureGiven rt id value resolved none =
      (woken : WaitRegistry St) × (resolve_future program timer vacant pop_first rt
        ≡ ok (record rt { wait_index = woken; resolved_futures = resolved ++ (id, value) ∷ [] }))
  FutureGiven rt id value resolved (some a) =
      (woken : WaitRegistry St) × (fiber : Fiber St V (SuccessBindKind F) H) × (get
          rt.awaiting_fibers a.fiber_id
        ≡ some fiber)
      × (resolve_future program timer vacant pop_first rt ≡ (
          resume program timer vacant pop_first fiber a value >>= λ resumed. ok (record rt {
            wait_index = woken;
            resolved_futures = resolved;
            awaiting_fibers = remove rt.awaiting_fibers a.fiber_id;
            active_fibers = resumed ∷ rt.active_fibers;
          })))

  resolve_future-keeps :
      (rt : Runtime St V F H) (id : String) (value : V) (resolved : List (String × V))
      (woken : WaitRegistry St)
      → rt.resolved_futures ≡ (id, value) ∷ resolved
      → wake_one rt.wait_index (WaitKey.future id) ≡ ok (woken, none)
      → resolve_future program timer vacant pop_first rt
        ≡ ok (record rt { wait_index = woken; resolved_futures = resolved ++ (id, value) ∷ [] })
  unfolding resolve_future
  resolve_future-keeps rt id value resolved woken front woke =
      rw (front, resolve_future) (rw woke refl)

  resolve_future-gives :
      (rt : Runtime St V F H) (id : String) (value : V) (resolved : List (String × V))
      (woken : WaitRegistry St) (a : WakeOutcome St) (fiber : Fiber St V (SuccessBindKind F) H)
      → rt.resolved_futures ≡ (id, value) ∷ resolved
      → wake_one rt.wait_index (WaitKey.future id) ≡ ok (woken, some a)
      → get rt.awaiting_fibers a.fiber_id ≡ some fiber
      → resolve_future program timer vacant pop_first rt ≡ (
          resume program timer vacant pop_first fiber a value >>= λ resumed. ok (record rt {
            wait_index = woken;
            resolved_futures = resolved;
            awaiting_fibers = remove rt.awaiting_fibers a.fiber_id;
            active_fibers = resumed ∷ rt.active_fibers;
          }))
  unfolding resolve_future
  resolve_future-gives rt id value resolved woken a fiber front woke waits =
      rw (front, resolve_future) (rw woke (rw waits refl))

  -- A future that is first among those resolved, where the fibers that wait are those of the
  -- registrations, and the fibers have distinct ids below the next one: its value goes to the fiber of
  -- the first registration that has an arm on the future, which is among the fibers that wait, and
  -- which becomes active, unless it has no variable to bind the value to, which panics; if there is no
  -- such registration, the future goes to the end. Where nothing panics, the fibers that wait are
  -- again those of the registrations, without the one that was served.
  pub resolve_future-first :
      (rt : Runtime St V F H) (gs : Map ℕ (SelectReg St)) (id : String) (value : V)
      (resolved : List (String × V))
      → IsParked rt gs
      → rt.resolved_futures ≡ (id, value) ∷ resolved
      → FutureGiven rt id value resolved (served (WaitKey.future id) gs).1
        × OnOk
            (λ r. IsParked r (served (WaitKey.future id) gs).0)
            (resolve_future program timer vacant pop_first rt)
  resolve_future-first rt gs id value resolved parked front =
      let key = WaitKey.future id in
      let (woken, woke, serving) = wake_one-served rt.wait_index gs key parked.0 in
      elim (Option-cases (served key gs).1) [
        | inl nobody ↦
            let runs =
              resolve_future-keeps rt id value resolved woken front
                (woke ∙ ap (λ o. ok (woken, o)) nobody) in
            rw nobody (
              (woken, runs),
              rw (runs, OnOk) (still-IsParked rt woken gs key nobody serving parked),
            )
        | inr (a, serves) ↦
            let next = served-IsNext rt gs key a parked serves in
            let (fiber, waits, own) = next.0 in
            let runs =
              resolve_future-gives rt id value resolved woken a fiber front
                (woke ∙ ap (λ o. ok (woken, o)) serves) waits in
            rw serves (
              (woken, fiber, waits, runs),
              rw runs (
                  OnOk-bind-eq (λ r. IsParked r (served key gs).0)
                    (resume program timer vacant pop_first fiber a value) _
                    (λ resumed ran.
                      resumed-IsParked rt woken (served key gs).0 a resumed.unique_id serving next (
                        OnOk-of (λ f. f.unique_id ≡ fiber.unique_id)
                          (resume program timer vacant pop_first fiber a value)
                          (resume-unique_id fiber a value) ran
                        ∙ own))),
            )
      ]
