-- ===== src/Fiber/Tests.antt =====
-- Witnesses for runtime/src/fiber.rs: a program of two functions with one argument each, the first
-- of which returns 9, while the second assigns its argument.
use maroon.Prelude.{ℕ, zero, suc, ◌+◌, ◌≡◌, refl, arith, List, [], ◌∷◌, ◌++◌, some, ok}
use maroon.RangeKey.{add64}
use maroon.Fiber.Stack.{pop, update}
use maroon.Fiber.{
  StackEntry, state, retrn, value, frame_assign, StepResult, Fiber, again, round, step_state,
  apply_result, apply_entries, assign_slots,
}
use maroon.Fiber.Frames.{round-keeps_callers}

abbrev arguments : ℕ → ℕ
arguments st = 1

abbrev program : ℕ → List (StackEntry ℕ ℕ) → ℕ → StepResult ℕ ℕ ℕ × ℕ
program zero args heap = (StepResult.return 9, heap + 1)
program (suc st) args heap = (StepResult.next (frame_assign ((0, 7) ∷ []) ∷ state 0 ∷ []), heap)

abbrev fiber : List (StackEntry ℕ ℕ) → Fiber ℕ ℕ ℕ ℕ
fiber stack = record {
  stack = stack;
  heap = 0;
  function_key = "f.main";
  f_type = "f";
  unique_id = 1;
  trace_sink = [];
}

abbrev called : Fiber ℕ ℕ ℕ ℕ
called = fiber (value "x" 0 ∷ retrn (some 1) ∷ value "a" 5 ∷ state 0 ∷ [])

abbrev assigning : Fiber ℕ ℕ ℕ ℕ
assigning = fiber (value "x" 0 ∷ value "a" 5 ∷ state 1 ∷ [])

abbrev assigned : Fiber ℕ ℕ ℕ ℕ
assigned = record (fiber (value "x" 0 ∷ value "a" 7 ∷ state 0 ∷ [])) {
  trace_sink = (1, StepResult.next (frame_assign ((0, 7) ∷ []) ∷ state 0 ∷ [])) ∷ [];
}

assigns : round arguments program assigning ≡ ok (again assigned)
unfolding round step_state apply_result apply_entries assign_slots pop update add64
assigns = refl

round-keeps_callers_example :
    (xs : List (StackEntry ℕ ℕ)) × (assigned.stack ≡ (value "x" 0 ∷ []) ++ xs)
round-keeps_callers_example =
    round-keeps_callers arguments program assigning (value "x" 0 ∷ []) (value "a" 5 ∷ []) 1
      (again assigned) refl refl ((omega arith, tt), tt) assigns
