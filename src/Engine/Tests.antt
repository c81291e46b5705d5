-- ===== src/Engine/Tests.antt =====
-- Witnesses for state/src/maroon.rs: a runtime with one factorial task, writers being numbers.
use maroon.Prelude.{
  ℕ, suc, ◌+◌, ◌<◌, ◌≡◌, refl, arith, String, List, [], ◌∷◌, ◌++◌, Option, none, some, Outcome, ok,
  panic, hang,
}
use maroon.Prelude.Maps.{nat_eq, get, remove}
use maroon.Engine.{
  MaroonTaskState, state, value, factorial_input, MaroonTaskHeap, MaroonTask, TimestampedMaroonTask,
  MaroonRuntime, schedule,
}
use maroon.Engine.Loop.{execute, execute_pending_operations_inner}
use maroon.Engine.Turns.{Place, turn, Reaches}
use maroon.Engine.Single.{turned, execute-turn}
use maroon.Engine.Factorial.{factorial, at, answered, factorial_completes}
use maroon.Engine.Fibonacci
use maroon.Engine.Fibonacci.{fib, memory, fibonacci_completes}
use maroon.Engine.Divisors.{place, divisor_texts, divisors_complete}

abbrev fresh : MaroonRuntime ℕ
fresh = record {
  next_task_id = 1;
  active_tasks = [];
  pending_operations = [];
  awaiter = none;
  daemon_user_storage = none;
  written = [];
  readings = 0;
}

abbrev asking : MaroonRuntime ℕ
asking =
    schedule fresh 7 (value (factorial_input 3) ∷ state MaroonTaskState.factorial_entry ∷ [])
      MaroonTaskHeap.empty 5 "3!"

abbrev first :
    List TimestampedMaroonTask → Option (TimestampedMaroonTask × List TimestampedMaroonTask)
first [] = none
first (t ∷ ts) = some (t, ts)

abbrev texts_of : Outcome (MaroonRuntime ℕ) → List (ℕ × String × ℕ)
texts_of (ok fsm) = fsm.written
texts_of panic = []
texts_of hang = []

-- The whole run of the factorial of 3, at a clock that is far enough.
runs :
    texts_of (execute_pending_operations_inner (λ n. 10000) first 40 asking)
    ≡ (7, "f(3)", 5) ∷ (7, "f(2)", 155) ∷ (7, "f(1)", 255) ∷ (7, "3!=6", 305) ∷ []
unfolding execute_pending_operations_inner schedule maroon.Prelude.Decimal.digits_from
runs = refl

abbrev task : MaroonTask ℕ
task = record {
  description = "3!";
  writer = 7;
  maroon_stack = value (factorial_input 3) ∷ state MaroonTaskState.factorial_entry ∷ [];
  maroon_heap = MaroonTaskHeap.empty;
  in_queue = [];
}

abbrev or_same : Place → Outcome (Place × List String) → Place × List String
or_same p (ok to) = to
or_same p panic = (p, [])
or_same p hang = (p, [])

abbrev begins : Place
begins = at (value (factorial_input 3) ∷ state MaroonTaskState.factorial_entry ∷ []) 5

turns : turn begins ≡ ok (or_same begins (turn begins))
unfolding turn
turns = refl

is_there : get asking.active_tasks 1 ≡ some task
unfolding schedule get
is_there = refl

execute-turn_example :
    execute asking (record { scheduled_timestamp = 5; task_id = 1 })
    ≡ ok (
        turned
          (record asking { active_tasks = remove asking.active_tasks 1 })
          1
          task
          5
          (or_same begins (turn begins)))
execute-turn_example = execute-turn asking 1 5 task (or_same begins (turn begins)) is_there turns

factorial_completes_example :
    (later : ℕ) × (texts : List String) × Reaches
      (at (value (factorial_input 5) ∷ state MaroonTaskState.factorial_entry ∷ []) 0)
      (at (answered 5 (factorial 5)) later)
      (texts ++ "5!=120" ∷ [])
unfolding maroon.Prelude.Decimal.digits_from
factorial_completes_example = factorial_completes 5 0 (omega arith) (omega arith)

divisors_complete_example :
    (left : ℕ) × (later : ℕ) × Reaches
      (place MaroonTaskState.divisors_task_begin 6 0 0)
      (place MaroonTaskState.completed 6 left later)
      (divisor_texts 6 6)
divisors_complete_example = divisors_complete 6 0 0 (omega arith)

fibonacci_completes_example :
    (heap : MaroonTaskHeap) × (later : ℕ) × (texts : List String) × Reaches
      (Fibonacci.place MaroonTaskState.fibonacci_task_begin (memory 7 0 0 0 0) 0)
      (Fibonacci.place MaroonTaskState.completed heap later)
      (texts ++ "fib7=13" ∷ [])
unfolding maroon.Prelude.Decimal.digits_from
fibonacci_completes_example = fibonacci_completes 7 0 0 0 0 0 (omega arith) (omega arith)
