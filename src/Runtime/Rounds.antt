-- ===== src/Runtime/Rounds.antt =====
-- runtime/src/runtime.rs: a round of the main loop, and `non_empty_queues`.
use maroon.Prelude.{
  ℕ, zero, suc, ◌≡◌, refl, List, [], ◌∷◌, ◌++◌, Bool, true, false, Option, none, some, String, ok,
  ◌>>=◌, if◌then◌else◌, Bool-cases, Option-cases, List-cases, inl, inr, ltb, OnOk, OnOk-bind,
  OnOk-bind-eq, OnOk-of, expect,
}
use maroon.Prelude.Maps.{Map, nat_eq, string_eq, get, insert, remove}
use maroon.Prelude.Decimal.{to_string}
use maroon.RangeKey.{add64}
use maroon.App.Transactions.{RuntimeTask}
use maroon.Fiber.{Fiber}
use maroon.WaitRegistry.{WaitRegistry, WaitKey, WakeOutcome, wake_one}
use maroon.Runtime.{
  SuccessBindKind, Program, Runtime, ScheduledBlob, is_empty, push_message, new_fiber,
}
use maroon.Runtime.Loop.{
  take_scheduled, run_active, resume, resolve_future, give_resolved, first_message, give_message,
  serve_queue, deliver, next_tasks, read_tasks, main_round, start, rounds,
}
use maroon.Runtime.Queues.{
  NamesNonEmpty, push-NamesNonEmpty, rotate-NamesNonEmpty, serve-NamesNonEmpty, first-has_message,
}
use mathlib.Core.Path.{subst}
use maroon.Runtime.{new, Input}
use maroon.Runtime.Served.{IsServed, take_scheduled-keeps, run_active-keeps}

module _ {St V F H : Type 0} (program : Program St V F H) (timer : ℕ → ℕ)
    (vacant : (A : Type 0) → Map ℕ A → ℕ)
    (pop_first : List ScheduledBlob → Option (ScheduledBlob × List ScheduledBlob)) where
  pub resolve_future-keeps :
      (rt : Runtime St V F H)
      → IsServed rt
      → OnOk IsServed (resolve_future program timer vacant pop_first rt)
  unfolding resolve_future
  resolve_future-keeps rt served = elim (List-cases rt.resolved_futures) [
    | inl at ↦ rw (at, resolve_future, OnOk) served
    | inr ((future_id, value), resolved, at) ↦
        rw (at, resolve_future)
          (OnOk-bind-eq IsServed (wake_one rt.wait_index (WaitKey.future future_id)) _
            (λ (woken, awaiter) woke. given future_id value resolved woken awaiter))
  ]
    where
      given :
          (future_id : String) (value : V) (resolved : List (String × V)) (woken : WaitRegistry St)
          (awaiter : Option (WakeOutcome St))
          → OnOk IsServed (
              give_resolved program timer vacant pop_first rt future_id value resolved
                (woken, awaiter))
      given future_id value resolved woken none = served
      given future_id value resolved woken (some a) =
          OnOk-bind-eq IsServed (expect (get rt.awaiting_fibers a.fiber_id)) _ (λ fiber found.
            OnOk-bind-eq IsServed (resume program timer vacant pop_first fiber a value) _
              (λ resumed done. served))

  first_message-found :
      (o : Option (List V)) (v : V) (left : List V)
      → first_message program timer vacant pop_first o ≡ ok (v, left)
      → o ≡ some (v ∷ left)
  first_message-found none v left h = cc
  first_message-found (some []) v left h = cc
  first_message-found (some (w ∷ ws)) v left h = cc

  pub serve_queue-keeps :
      (rt : Runtime St V F H)
      → IsServed rt
      → OnOk (λ r. IsServed r.0) (serve_queue program timer vacant pop_first rt)
  unfolding serve_queue
  serve_queue-keeps rt served = elim (List-cases rt.non_empty_queues) [
    | inl at ↦ rw (at, serve_queue, OnOk) served
    | inr (q, queues, at) ↦
        rw (at, serve_queue)
          (OnOk-bind-eq (λ r. IsServed r.0) (wake_one rt.wait_index (WaitKey.queue q)) _
            (λ (woken, awaiter) woke. given q queues (rw at at served) woken awaiter))
  ]
    where
      given :
          (q : String) (queues : List String)
          → NamesNonEmpty rt.queue_messages (q ∷ queues)
          → (woken : WaitRegistry St) (awaiter : Option (WakeOutcome St))
          → OnOk
              (λ r. IsServed r.0)
              (give_message program timer vacant pop_first rt q queues (woken, awaiter))
      given q queues names woken none = rotate-NamesNonEmpty rt.queue_messages queues q names
      given q queues names woken (some a) =
          OnOk-bind-eq (λ r. IsServed r.0) (expect (get rt.awaiting_fibers a.fiber_id)) _
            (λ fiber found.
              OnOk-bind-eq (λ r. IsServed r.0)
                (first_message program timer vacant pop_first (get rt.queue_messages q)) _
                (λ (v, left) first.
                  OnOk-bind-eq (λ r. IsServed r.0) (resume program timer vacant pop_first fiber a v)
                    _
                    (λ resumed done.
                      serve-NamesNonEmpty rt.queue_messages queues q v left names
                        (first_message-found (get rt.queue_messages q) v left first))))

  deliver-keeps :
      (rt : Runtime St V F H) (bs : List (RuntimeTask V))
      → IsServed rt
      → OnOk IsServed (deliver program timer vacant pop_first rt bs)
  unfolding deliver push_message
  deliver-keeps rt [] served = served
  deliver-keeps rt (b ∷ bs) served = elim (Option-cases (get rt.queue_messages b.q_name)) [
    | inl gone ↦ rw (gone, deliver) (deliver-keeps rt bs served)
    | inr (queue, at) ↦
        rw (at, deliver)
          (OnOk-bind-eq IsServed
            (program.pub_to_private b.value (to_string rt.next_created_future_id)) _
            (λ p_value made.
              deliver-keeps
                (push_message
                  (record rt {
                    public_futures =
                        insert rt.public_futures (to_string rt.next_created_future_id) b.global_id;
                    next_created_future_id = add64 rt.next_created_future_id 1;
                  })
                  b.q_name queue p_value)
                bs
                (push-NamesNonEmpty rt.queue_messages rt.non_empty_queues b.q_name queue p_value
                  served at)))
  ]

  next_tasks-keeps :
      (rt : Runtime St V F H)
      → IsServed rt
      → (tasks : Input V) (taken : Runtime St V F H)
      → next_tasks program timer vacant pop_first rt ≡ some (tasks, taken)
      → IsServed taken
  next_tasks-keeps rt served tasks taken h = elim (List-cases rt.active_tasks) [
    | inl at ↦ elim (List-cases rt.received) [
      | inl at' ↦ cc (rw at' at (rw at at h))
      | inr (x, later, at') ↦
          let same : record rt { received = later } ≡ taken = cc (rw at' at (rw at at h)) in
          subst IsServed same served
    ]
    | inr (x, later, at) ↦
        let same : record rt { active_tasks = later } ≡ taken = cc (rw at at h) in
        subst IsServed same served
  ]

  pub read_tasks-keeps :
      (fuel : ℕ) (rt : Runtime St V F H)
      → IsServed rt
      → OnOk IsServed (read_tasks program timer vacant pop_first fuel rt)
  unfolding read_tasks
  read_tasks-keeps zero rt served = tt
  read_tasks-keeps (suc fuel) rt served =
      let read = record rt { readings = suc rt.readings } in
      elim (Option-cases (next_tasks program timer vacant pop_first read)) [
        | inl empty ↦ rw (empty, read_tasks, OnOk) served
        | inr (((time_stamp, tasks), taken), at) ↦
            let kept = next_tasks-keeps read served (time_stamp, tasks) taken at in
            rw (at, read_tasks)
              (elim (Bool-cases (ltb (timer rt.readings) time_stamp)) [
                | inl early ↦ rw (early, OnOk) kept
                | inr due ↦ rw due (
                    OnOk-bind IsServed IsServed (deliver program timer vacant pop_first taken tasks)
                      _ (deliver-keeps taken tasks kept)
                      (λ delivered s. read_tasks-keeps fuel delivered s))
              ])
      ]

  round-keeps :
      (fuel : ℕ) (rt : Runtime St V F H)
      → IsServed rt
      → OnOk IsServed (main_round program timer vacant pop_first fuel rt)
  unfolding main_round
  round-keeps fuel rt served =
      OnOk-bind IsServed IsServed
        (run_active program timer vacant pop_first fuel
          (take_scheduled program timer vacant pop_first rt))
        _
        (run_active-keeps program timer vacant pop_first fuel
          (take_scheduled program timer vacant pop_first rt)
          (take_scheduled-keeps program timer vacant pop_first rt served))
        (λ ran s.
          OnOk-bind IsServed IsServed (resolve_future program timer vacant pop_first ran) _
            (resolve_future-keeps ran s)
            (λ resolved s'.
              OnOk-bind (λ r. IsServed r.0) IsServed
                (serve_queue program timer vacant pop_first resolved) _
                (serve_queue-keeps resolved s')
                (λ (served', again) s''. read_or_stop served' s'' again)))
    where
      read_or_stop :
          (now : Runtime St V F H)
          → IsServed now
          → (again : Bool)
          → OnOk IsServed
              (if again then ok now else read_tasks program timer vacant pop_first fuel now)
      read_or_stop now s true = s
      read_or_stop now s false = read_tasks-keeps fuel now s

  -- A round of the main loop that ends leaves `non_empty_queues` with the name of each queue that has
  -- messages, once, and no other name, if it was so before.
  pub main_round-IsServed :
      (fuel : ℕ) (rt rt' : Runtime St V F H)
      → IsServed rt
      → main_round program timer vacant pop_first fuel rt ≡ ok rt'
      → IsServed rt'
  main_round-IsServed fuel rt rt' served ran =
      OnOk-of IsServed (main_round program timer vacant pop_first fuel rt)
        (round-keeps fuel rt served) ran

  -- Where `non_empty_queues` is right and begins with a queue for which a fiber was woken that is among
  -- those that wait, the queue has a message: serving the queue comes down to giving that message to the fiber.
  pub serve_queue-message :
      (rt : Runtime St V F H) (q : String) (queues : List String) (woken : WaitRegistry St)
      (a : WakeOutcome St) (fiber : Fiber St V (SuccessBindKind F) H)
      → IsServed rt
      → rt.non_empty_queues ≡ q ∷ queues
      → wake_one rt.wait_index (WaitKey.queue q) ≡ ok (woken, some a)
      → get rt.awaiting_fibers a.fiber_id ≡ some fiber
      → (v : V) × (left : List V) × (get rt.queue_messages q ≡ some (v ∷ left))
        × (serve_queue program timer vacant pop_first rt ≡ (
            resume program timer vacant pop_first fiber a v >>= λ resumed. ok (
              record rt {
                wait_index = woken;
                queue_messages = insert rt.queue_messages q left;
                non_empty_queues = if is_empty left then queues else queues ++ q ∷ [];
                awaiting_fibers = remove rt.awaiting_fibers a.fiber_id;
                active_fibers = resumed ∷ rt.active_fibers;
              },
              true,
            )))
  unfolding serve_queue
  serve_queue-message rt q queues woken a fiber served front woke waits =
      let (v, left, at) = first-has_message rt.queue_messages queues q (rw front at served) in
      (v, left, at, rw (front, serve_queue) (rw woke (rw waits (rw at refl))))

  rounds-keeps :
      (fuel n : ℕ) (rt : Runtime St V F H)
      → IsServed rt
      → OnOk IsServed (rounds program timer vacant pop_first fuel n rt)
  unfolding rounds
  rounds-keeps fuel zero rt served = served
  rounds-keeps fuel (suc n) rt served =
      OnOk-bind IsServed IsServed (main_round program timer vacant pop_first fuel rt) _
        (round-keeps fuel rt served) (λ next s. rounds-keeps fuel n next s)

  -- Whatever a new runtime receives and whatever program it runs: after any number of rounds that ended,
  -- `non_empty_queues` has the name of each queue that has messages, once, and no other name.
  pub rounds-IsServed :
      (fuel n : ℕ) (received : List (Input V)) (root_type : String) (rt rt' : Runtime St V F H)
      → start program timer vacant pop_first (new received) root_type ≡ ok rt
      → rounds program timer vacant pop_first fuel n rt ≡ ok rt'
      → IsServed rt'
  unfolding start new get
  rounds-IsServed fuel n received root_type rt rt' started ran =
      let begun : IsServed rt =
        OnOk-of IsServed (start program timer vacant pop_first (new received) root_type)
          (OnOk-bind-eq IsServed (new_fiber program root_type 0 []) _ (λ root made. λ name. refl))
          started in
      OnOk-of IsServed (rounds program timer vacant pop_first fuel n rt)
        (rounds-keeps fuel n rt begun) ran
