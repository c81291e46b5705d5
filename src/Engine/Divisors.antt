-- ===== src/Engine/Divisors.antt =====
-- state/src/maroon.rs: the states of the divisors.
use Prim.Native.String.{◌++◌ as text_append}
use maroon.Prelude.{
  ℕ, zero, suc, ◌%◌, ◌<◌, ◌≡◌, refl, arith, String, List, [], ◌∷◌, false, ok, if◌then◌else◌, ◌==◌,
  Bool-cases, inl, inr,
}
use maroon.Prelude.Decimal.{to_string}
use maroon.RangeKey.{u64_mod, add64, sub64}
use maroon.Fiber.Stack.{pop}
use maroon.Engine.{mul64, MaroonTaskState, state, MaroonTaskHeap, local_vars_count}
use maroon.Engine.Steps.{next_divisor, global_step}
use maroon.Engine.Loop.{push_all, push_vars, pop_vars, pop_state}
use maroon.Engine.Turns.{Place, turn, Reaches, stay, then_}

-- The texts on the divisors of `n` up to a number, the greatest first, and the last text.
abbrev pub divisor_texts : ℕ → ℕ → List String
divisor_texts n zero = text_append (to_string n) "!" ∷ []
divisor_texts n (suc j) =
    if n % suc j == 0
    then text_append (to_string n) (text_append "%" (text_append (to_string (suc j)) "==0"))
      ∷ divisor_texts n j
    else divisor_texts n j

abbrev pub place : MaroonTaskState → ℕ → ℕ → ℕ → Place
place st n i time = record {
  stack = state st ∷ [];
  heap = MaroonTaskHeap.divisors (record { n = n; i = i });
  time = time;
}

finds_none :
    (n i time : ℕ)
    → next_divisor n i ≡ 0
    → turn (place MaroonTaskState.divisors_task_iteration n i time)
      ≡ ok (place MaroonTaskState.completed n i time, text_append (to_string n) "!" ∷ [])
unfolding turn pop_state pop_vars pop local_vars_count global_step push_vars
finds_none n i time h = rw h refl

nonzero : (d : ℕ) → (suc d == 0) ≡ false
nonzero d = ground arith

finds :
    (n i d time : ℕ)
    → next_divisor n i ≡ suc d
    → turn (place MaroonTaskState.divisors_task_iteration n i time)
      ≡ ok (
        place MaroonTaskState.divisors_print_and_move_on n (suc d) (add64 time (mul64 (suc d) 10)),
        [],
      )
unfolding turn pop_state pop_vars pop local_vars_count global_step push_vars
finds n i d time h = rw h (rw (nonzero d) refl)

pred64 : (d : ℕ) → suc d < u64_mod → sub64 (suc d) 1 ≡ d
unfolding sub64
pred64 d h = omega (arith, h)

prints :
    (n d time : ℕ)
    → suc d < u64_mod
    → turn (place MaroonTaskState.divisors_print_and_move_on n (suc d) time)
      ≡ ok (
        place MaroonTaskState.divisors_task_iteration n d time,
        text_append (to_string n) (text_append "%" (text_append (to_string (suc d)) "==0")) ∷ [],
      )
unfolding turn pop_state pop_vars pop local_vars_count global_step push_vars
prints n d time fits = rw (pred64 d fits) refl

abbrev Completes : ℕ → ℕ → ℕ → List String → Type 0
Completes n i time texts =
    (left : ℕ) × (later : ℕ) × Reaches (place MaroonTaskState.divisors_task_iteration n i time)
      (place MaroonTaskState.completed n left later) texts

-- From any place whose next divisor is the one up to `j`.
iterates :
    (n j i time : ℕ)
    → j < u64_mod
    → next_divisor n i ≡ next_divisor n j
    → Completes n i time (divisor_texts n j)
unfolding next_divisor
iterates n zero i time fits h = (i, time, then_ (finds_none n i time h) stay)
iterates n (suc j) i time fits h = elim (Bool-cases (n % suc j == 0)) [
  | inl divides ↦
      let found : next_divisor n i ≡ suc j = rw divides at h in
      let (left, later, rest) =
        iterates n j j (add64 time (mul64 (suc j) 10)) (omega (arith, fits)) refl in
      rw divides (
        left,
        later,
        then_ (finds n i j time found)
            (then_ (prints n j (add64 time (mul64 (suc j) 10)) fits) rest),
      )
  | inr fails ↦
      let same : next_divisor n i ≡ next_divisor n j = rw fails at h in
      rw fails (iterates n j i time (omega (arith, fits)) same)
]

begins :
    (n i time : ℕ)
    → turn (place MaroonTaskState.divisors_task_begin n i time)
      ≡ ok (place MaroonTaskState.divisors_task_iteration n n time, [])
unfolding turn pop_state pop_vars pop local_vars_count global_step push_all
begins n i time = refl

-- A divisors task gets from its first state to `Completed` in finitely many turns, and writes a line for
-- each divisor of its number, the greatest first, and then the number with `!`.
pub divisors_complete :
    (n i time : ℕ)
    → n < u64_mod
    → (left : ℕ) × (later : ℕ) × Reaches
        (place MaroonTaskState.divisors_task_begin n i time)
        (place MaroonTaskState.completed n left later)
        (divisor_texts n n)
divisors_complete n i time fits =
    let (left, later, rest) = iterates n n n time fits refl in
    (left, later, then_ (begins n i time) rest)
