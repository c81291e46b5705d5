-- ===== src/Engine/Turns.antt =====
-- state/src/maroon.rs: the steps of a task that concern it alone, apart from the engine.
use maroon.Prelude.{
  ℕ, ◌≡◌, String, List, [], ◌∷◌, ◌++◌, Outcome, ok, panic, ◌>>=◌, expect, if◌then◌else◌,
}
use maroon.Prelude.Maps.{nat_eq}
use maroon.RangeKey.{add64}
use maroon.Fiber.Stack.{pop}
use maroon.Engine.{
  MaroonTaskState, MaroonTaskStackEntryValue, state, value, MaroonTaskStack, MaroonTaskHeap,
  MaroonStepResult,
}
use maroon.Engine.Steps.{global_step}
use maroon.Engine.Loop.{push, push_all, push_vars, pop_state, return_state, is_idle}

-- A task's stack and heap, and the time of its next step.
pub record Place : Type 0 where
  pub stack : MaroonTaskStack
  pub heap : MaroonTaskHeap
  pub time : ℕ

-- Where a step leads, and what it writes. Steps that end the task or concern another give nothing.
abbrev pub follow :
    MaroonTaskStack
    → List MaroonTaskStackEntryValue
    → MaroonTaskHeap
    → ℕ
    → MaroonStepResult
    → Outcome (Place × List String)
follow below vars heap time (MaroonStepResult.sleep ms st) = ok (
  record { stack = push (push_vars below vars) (state st); heap = heap; time = add64 time ms },
  [],
)
follow below vars heap time (MaroonStepResult.write text st) =
    ok (
      record { stack = push (push_vars below vars) (state st); heap = heap; time = time },
      text ∷ [],
    )
follow below vars heap time (MaroonStepResult.next entries) =
    ok (record { stack = push_all below entries; heap = heap; time = time }, [])
follow below vars heap time (MaroonStepResult.return retval) = do
  (base, popped) ← expect (pop below)
  st ← return_state popped
  ok (record { stack = push (push base (value retval)) (state st); heap = heap; time = time }, [])
follow below vars heap time MaroonStepResult.done = panic
follow below vars heap time (MaroonStepResult.send message st) = panic
follow below vars heap time (MaroonStepResult.send_get_user_request_im u_id) = panic
follow below vars heap time (MaroonStepResult.user_storage_send_response u_id id) = panic

abbrev pub after_state :
    MaroonTaskHeap
    → ℕ
    → MaroonTaskStack × MaroonTaskState × List MaroonTaskStackEntryValue
    → Outcome (Place × List String)
after_state heap time (below, st, vars) = do
  (result, heap') ← global_step st vars heap
  if is_idle st then panic else follow below vars heap' time result

unfoldable pub turn : Place → Outcome (Place × List String)
unfolding pop_state global_step push_vars push_all pop add64
turn p = pop_state p.stack >>= after_state p.heap p.time

-- A task gets from a place to another in some turns, and writes some texts.
pub data Reaches : Place → Place → List String → Type 0 where
  stay : {p : Place} → Reaches p p []
  then_ :
      {p q r : Place} {ts us : List String}
      → turn p ≡ ok (q, ts)
      → Reaches q r us
      → Reaches p r (ts ++ us)
