-- ===== src/Engine/Single.antt =====
-- state/src/maroon.rs: the engine executes a turn of a task as the turn says.
use mathlib.Core.Path.{subst}
use maroon.Prelude.{
  ℕ, ◌≡◌, refl, String, List, [], ◌∷◌, ◌++◌, some, ok, expect, bind-eq-ok, Bool-cases, inl, inr,
}
use maroon.Prelude.Maps.{nat_eq, get, insert, remove}
use maroon.RangeKey.{add64}
use maroon.Fiber.Stack.{pop}
use maroon.Engine.{
  MaroonTaskStackEntryValue, state, value, MaroonTaskStack, MaroonTaskHeap, MaroonStepResult,
  MaroonTask, MaroonRuntime, carry_on,
}
use maroon.Engine.Steps.{global_step}
use maroon.Engine.Loop.{
  push, push_all, push_vars, pop_state, return_state, apply_step, step_task, execute, is_idle,
}
use maroon.Engine.Turns.{Place, follow, after_state, turn}

module _ {W : Type 0} where
  -- The texts of a turn come last among those written, with the writer and the time.
  abbrev pub with_texts :
      List (W × String × ℕ) → (writer : W) → (time : ℕ) → List String → List (W × String × ℕ)
  with_texts written writer time [] = written
  with_texts written writer time (text ∷ texts) =
      with_texts (written ++ (writer, text, time) ∷ []) writer time texts

  -- The engine after a turn of a task: the task is active with the turn's stack and heap, and is the
  -- last of the pending ones, at the turn's time; the texts are written; nothing else is changed.
  abbrev pub turned : MaroonRuntime W → ℕ → MaroonTask W → ℕ → Place × List String → MaroonRuntime W
  turned fsm id task time (q, texts) = record fsm {
    active_tasks =
        insert fsm.active_tasks id (record task { maroon_stack = q.stack; maroon_heap = q.heap });
    pending_operations =
        fsm.pending_operations ++ record { scheduled_timestamp = q.time; task_id = id } ∷ [];
    written = with_texts fsm.written task.writer time texts;
  }

  apply_step-follow :
      (fsm : MaroonRuntime W) (id : ℕ) (task : MaroonTask W) (below : MaroonTaskStack)
      (vars : List MaroonTaskStackEntryValue) (heap : MaroonTaskHeap) (time : ℕ)
      (result : MaroonStepResult) (to : Place × List String)
      → follow below vars heap time result ≡ ok to
      → apply_step fsm id
          (record task { maroon_stack = below; maroon_heap = heap })
          vars
          time
          result
        ≡ ok (turned fsm id task time to)
  unfolding apply_step carry_on
  apply_step-follow fsm id task below vars heap time (MaroonStepResult.sleep ms st) to h =
      let same : (
        record {
          stack = push (push_vars below vars) (state st);
          heap = heap;
          time = add64 time ms;
        },
        [],
      )
          ≡ to =
        cc h in
      subst
        (λ r.
          apply_step fsm id (record task { maroon_stack = below; maroon_heap = heap }) vars time
            (MaroonStepResult.sleep ms st)
          ≡ ok (turned fsm id task time r))
        same refl
  apply_step-follow fsm id task below vars heap time (MaroonStepResult.write text st) to h =
      let same : (
        record { stack = push (push_vars below vars) (state st); heap = heap; time = time },
        text ∷ [],
      )
          ≡ to =
        cc h in
      subst
        (λ r.
          apply_step fsm id (record task { maroon_stack = below; maroon_heap = heap }) vars time
            (MaroonStepResult.write text st)
          ≡ ok (turned fsm id task time r))
        same refl
  apply_step-follow fsm id task below vars heap time (MaroonStepResult.next entries) to h =
      let same : (record { stack = push_all below entries; heap = heap; time = time }, []) ≡ to =
        cc h in
      subst
        (λ r.
          apply_step fsm id (record task { maroon_stack = below; maroon_heap = heap }) vars time
            (MaroonStepResult.next entries)
          ≡ ok (turned fsm id task time r))
        same refl
  apply_step-follow fsm id task below vars heap time (MaroonStepResult.return retval) to h =
      let ((base, popped), at, rest) = bind-eq-ok (expect (pop below)) _ h in
      let (st, at', last) = bind-eq-ok (return_state popped) _ rest in
      let same : (
        record { stack = push (push base (value retval)) (state st); heap = heap; time = time },
        [],
      )
          ≡ to =
        cc last in
      subst
        (λ r.
          apply_step fsm id (record task { maroon_stack = below; maroon_heap = heap }) vars time
            (MaroonStepResult.return retval)
          ≡ ok (turned fsm id task time r))
        same (rw (at, apply_step) (rw at' refl))
  apply_step-follow fsm id task below vars heap time MaroonStepResult.done to h = cc
  apply_step-follow fsm id task below vars heap time (MaroonStepResult.send message st) to h = cc
  apply_step-follow fsm id task below vars heap time
        (MaroonStepResult.send_get_user_request_im u_id) to h =
      cc
  apply_step-follow fsm id task below vars heap time
        (MaroonStepResult.user_storage_send_response u_id awaiter_id) to h =
      cc

  -- An operation of a task that can take a turn: the task stands in the engine with the turn's stack and
  -- heap, and comes last among the pending operations, at the turn's time; what the turn writes comes
  -- last among the texts, with the task's writer and the time of the operation; and nothing else of
  -- the engine is changed.
  pub execute-turn :
      (fsm : MaroonRuntime W) (id time : ℕ) (task : MaroonTask W) (to : Place × List String)
      → get fsm.active_tasks id ≡ some task
      → turn (record { stack = task.maroon_stack; heap = task.maroon_heap; time = time }) ≡ ok to
      → execute fsm (record { scheduled_timestamp = time; task_id = id })
        ≡ ok (turned (record fsm { active_tasks = remove fsm.active_tasks id }) id task time to)
  unfolding execute turn step_task
  execute-turn fsm id time task to found h =
      let ((below, st, vars), at, rest) =
        bind-eq-ok (pop_state task.maroon_stack) (after_state task.maroon_heap time) h in
      let ((result, heap), at', last) = bind-eq-ok (global_step st vars task.maroon_heap) _ rest in
      rw found (
        rw at (elim (Bool-cases (is_idle st)) [
          | inl idles ↦ cc (rw idles at last)
          | inr runs ↦ rw runs (
              rw at' (
                apply_step-follow (record fsm { active_tasks = remove fsm.active_tasks id }) id task
                  below vars heap time result to (rw runs at last)))
        ]))
