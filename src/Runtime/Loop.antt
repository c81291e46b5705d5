-- ===== src/Runtime/Loop.antt =====
-- runtime/src/runtime.rs: a round of the main loop of `Runtime::run`.
use maroon.Prelude.{
  ℕ, zero, suc, List, [], ◌∷◌, ◌++◌, Bool, true, false, Option, none, some, String, Outcome, ok,
  panic, hang, ◌>>=◌, expect, ltb, leb, if◌then◌else◌,
}
use maroon.Prelude.Maps.{Map, nat_eq, string_eq, get, insert, remove}
use maroon.Prelude.Decimal.{to_string}
use maroon.RangeKey.{add64}
use maroon.App.Transactions.{RuntimeTask}
use maroon.Fiber.{RunResult, Fiber, assign_local_and_push_next, push_next, run as run_fiber}
use maroon.WaitRegistry.{WaitRegistry, WaitKey, WakeOutcome, register_select, wake_one}
use maroon.Runtime.{
  SuccessBindKind, Program, Runtime, ScheduledBlob, Input, is_empty, push_message, set_values,
  new_fiber, create_fibers,
}
use maroon.Runtime.Create.{create, push_front}

module _ {St V F H : Type 0} (program : Program St V F H) (timer : ℕ → ℕ)
    (vacant : (A : Type 0) → Map ℕ A → ℕ)
    (pop_first : List ScheduledBlob → Option (ScheduledBlob × List ScheduledBlob)) where
  -- The blob that is due first resolves its future, once its time has come.
  unfoldable pub take_scheduled : Runtime St V F H → Runtime St V F H
  take_scheduled rt =
      let now = timer rt.readings in
      let next = record rt { readings = suc rt.readings } in
      elim (pop_first rt.scheduled) [
        | none ↦ next
        | some (blob, rest) ↦
            if leb blob.when now
            then record next {
              scheduled = rest;
              resolved_futures = (blob.what, program.unit) ∷ rt.resolved_futures;
            }
            else next
      ]

  -- What is done with a fiber that has run.
  unfoldable pub apply_run_result :
      Runtime St V F H
      → Fiber St V (SuccessBindKind F) H
      → RunResult St V (SuccessBindKind F)
      → Outcome (Runtime St V F H)
  unfolding register_select create_fibers set_values create insert
  apply_run_result rt fiber RunResult.done = ok rt
  apply_run_result rt fiber (RunResult.select states) = ok (record rt {
    wait_index = (register_select vacant rt.wait_index fiber.unique_id states).0;
    awaiting_fibers = insert rt.awaiting_fibers fiber.unique_id fiber;
  })
  apply_run_result rt fiber (RunResult.create_fibers details) = do
    spawned ← create_fibers program rt details
    ok (push_front program timer spawned fiber)
  apply_run_result rt fiber (RunResult.set_values values) = do
    set ← set_values rt values
    ok (push_front program timer set fiber)
  apply_run_result rt fiber (RunResult.create c) = create program timer rt fiber c

  -- The loop over the active fibers; `fuel` bounds its rounds and those of each fiber.
  unfoldable pub run_active : ℕ → Runtime St V F H → Outcome (Runtime St V F H)
  unfolding apply_run_result run_fiber
  run_active zero rt = hang
  run_active (suc fuel) rt = elim rt.active_fibers [
    | [] ↦ ok rt
    | fiber ∷ rest ↦ (do
      (ran, result) ← run_fiber program.func_args_count program.global_step fuel fiber
      applied ← apply_run_result (record rt { active_fibers = rest }) ran result
      run_active fuel applied)
  ]

  abbrev pub resume :
      Fiber St V (SuccessBindKind F) H
      → WakeOutcome St
      → V
      → Outcome (Fiber St V (SuccessBindKind F) H)
  resume fiber awaiter value = elim awaiter.bind [
    | none ↦ ok (push_next fiber awaiter.next)
    | some bind ↦ assign_local_and_push_next fiber bind value awaiter.next
  ]

  -- A resolved future goes to the fiber that was woken; one that none waits for is kept.
  abbrev pub give_resolved :
      Runtime St V F H
      → String
      → V
      → List (String × V)
      → WaitRegistry St × Option (WakeOutcome St)
      → Outcome (Runtime St V F H)
  give_resolved rt future_id value resolved (woken, none) =
      ok (record rt { wait_index = woken; resolved_futures = resolved ++ (future_id, value) ∷ [] })
  give_resolved rt future_id value resolved (woken, some a) = do
    fiber ← expect (get rt.awaiting_fibers a.fiber_id)
    resumed ← resume fiber a value
    ok (record rt {
      wait_index = woken;
      resolved_futures = resolved;
      awaiting_fibers = remove rt.awaiting_fibers a.fiber_id;
      active_fibers = resumed ∷ rt.active_fibers;
    })

  unfoldable pub resolve_future : Runtime St V F H → Outcome (Runtime St V F H)
  unfolding wake_one get remove assign_local_and_push_next push_next
  resolve_future rt = elim rt.resolved_futures [
    | [] ↦ ok rt
    | (future_id, value) ∷ resolved ↦
        wake_one rt.wait_index (WaitKey.future future_id)
        >>= give_resolved rt future_id value resolved
  ]

  abbrev pub first_message : Option (List V) → Outcome (V × List V)
  first_message none = panic
  first_message (some []) = panic
  first_message (some (v ∷ vs)) = ok (v, vs)

  -- A fiber that was woken takes the first message, and the answer is that the round ends here; else the
  -- queue goes to the end.
  abbrev pub give_message :
      Runtime St V F H
      → String
      → List String
      → WaitRegistry St × Option (WakeOutcome St)
      → Outcome (Runtime St V F H × Bool)
  give_message rt q_name queues (woken, none) =
      ok (record rt { wait_index = woken; non_empty_queues = queues ++ q_name ∷ [] }, false)
  give_message rt q_name queues (woken, some a) = do
    fiber ← expect (get rt.awaiting_fibers a.fiber_id)
    (v, left) ← first_message (get rt.queue_messages q_name)
    resumed ← resume fiber a v
    ok (
      record rt {
        wait_index = woken;
        queue_messages = insert rt.queue_messages q_name left;
        non_empty_queues = if is_empty left then queues else queues ++ q_name ∷ [];
        awaiting_fibers = remove rt.awaiting_fibers a.fiber_id;
        active_fibers = resumed ∷ rt.active_fibers;
      },
      true,
    )

  unfoldable pub serve_queue : Runtime St V F H → Outcome (Runtime St V F H × Bool)
  unfolding wake_one get remove insert assign_local_and_push_next push_next
  serve_queue rt = elim rt.non_empty_queues [
    | [] ↦ ok (rt, false)
    | q_name ∷ queues ↦
        wake_one rt.wait_index (WaitKey.queue q_name) >>= give_message rt q_name queues
  ]

  -- A task for a queue that is not there is dropped.
  unfoldable pub deliver : Runtime St V F H → List (RuntimeTask V) → Outcome (Runtime St V F H)
  unfolding get insert push_message add64
  deliver rt [] = ok rt
  deliver rt (b ∷ bs) = elim (get rt.queue_messages b.q_name) [
    | none ↦ deliver rt bs
    | some queue ↦ (do
      let id = to_string rt.next_created_future_id
      p_value ← program.pub_to_private b.value id
      deliver
          (push_message
            (record rt {
              public_futures = insert rt.public_futures id b.global_id;
              next_created_future_id = add64 rt.next_created_future_id 1;
            })
            b.q_name queue p_value)
          bs)
  ]

  -- The next tasks, the rest of those that wait, and the rest of what is to be received.
  abbrev pub next_tasks : Runtime St V F H → Option (Input V × Runtime St V F H)
  next_tasks rt = elim rt.active_tasks [
    | tasks ∷ later ↦ some (tasks, record rt { active_tasks = later })
    | [] ↦ elim rt.received [
      | [] ↦ none
      | tasks ∷ later ↦ some (tasks, record rt { received = later })
    ]
  ]

  -- The loop that reads the tasks whose time has come.
  unfoldable pub read_tasks : ℕ → Runtime St V F H → Outcome (Runtime St V F H)
  unfolding deliver
  read_tasks zero rt = hang
  read_tasks (suc fuel) rt =
      let now = timer rt.readings in
      elim (next_tasks (record rt { readings = suc rt.readings })) [
        | none ↦ ok (record rt { readings = suc rt.readings })
        | some ((time_stamp, tasks), taken) ↦
            if ltb now time_stamp
            then ok (record taken { active_tasks = (time_stamp, tasks) ∷ taken.active_tasks })
            else (do delivered ← deliver taken tasks; read_tasks fuel delivered)
      ]

  -- A round of the main loop.
  unfoldable pub main_round : ℕ → Runtime St V F H → Outcome (Runtime St V F H)
  unfolding take_scheduled run_active resolve_future serve_queue read_tasks
  main_round fuel rt = do
    ran ← run_active fuel (take_scheduled rt)
    resolved ← resolve_future ran
    (served, again) ← serve_queue resolved
    if again then ok served else read_tasks fuel served

  -- The start of `run`, and some rounds of its loop.
  unfoldable pub start : Runtime St V F H → String → Outcome (Runtime St V F H)
  unfolding new_fiber
  start rt root_type = do
    root ← new_fiber program root_type 0 []
    ok (record rt { next_fiber_id = 1; active_fibers = rt.active_fibers ++ root ∷ [] })

  unfoldable pub rounds : ℕ → ℕ → Runtime St V F H → Outcome (Runtime St V F H)
  unfolding main_round
  rounds fuel zero rt = ok rt
  rounds fuel (suc n) rt = do next ← main_round fuel rt; rounds fuel n next
