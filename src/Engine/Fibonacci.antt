-- ===== src/Engine/Fibonacci.antt =====
-- state/src/maroon.rs: the states of the Fibonacci numbers.
use Prim.Native.String.{◌++◌ as text_append}
use mathlib.Core.Path.{subst}
use maroon.Prelude.{
  ℕ, zero, suc, ◌+◌, ◌<◌, ◌≤◌, ◌≡◌, refl, ap, ◌∙◌, arith, String, List, [], ◌∷◌, ◌++◌, true, false,
  ok, leb,
}
use maroon.Prelude.Decimal.{to_string}
use maroon.RangeKey.{u64_mod, add64}
use maroon.Fiber.Stack.{pop}
use maroon.Engine.{mul64, MaroonTaskState, state, MaroonTaskHeap, local_vars_count}
use maroon.Engine.Steps.{global_step}
use maroon.Engine.Loop.{push_all, push_vars, pop_vars, pop_state}
use maroon.Engine.Turns.{Place, turn, Reaches, stay, then_}

-- The number of an index, and the next one.
abbrev fib_pair : ℕ → ℕ × ℕ
fib_pair zero = (0, 1)
fib_pair (suc n) = let (a, b) = fib_pair n in (b, a + b)

abbrev pub fib : ℕ → ℕ
fib n = (fib_pair n).0

abbrev pub memory : ℕ → ℕ → ℕ → ℕ → ℕ → MaroonTaskHeap
memory n index a b delay_ms =
    MaroonTaskHeap.fibonacci (record { n = n; index = index; a = a; b = b; delay_ms = delay_ms })

abbrev pub place : MaroonTaskState → MaroonTaskHeap → ℕ → Place
place st heap time = record { stack = state st ∷ []; heap = heap; time = time }

abbrev result_text : ℕ → ℕ → String
result_text n r = text_append "fib" (text_append (to_string n) (text_append "=" (to_string r)))

abbrev step_text : ℕ → ℕ → ℕ → String
step_text index n b = text_append "fib" (
    text_append (to_string index)
      (text_append "[" (text_append (to_string n) (text_append "]=" (to_string b)))))

starts_small :
    (n index a b delay_ms time : ℕ)
    → leb n 1 ≡ true
    → turn (place MaroonTaskState.fibonacci_task_begin (memory n index a b delay_ms) time)
      ≡ ok
          (place MaroonTaskState.completed (memory n index a b delay_ms) time, result_text n n ∷ [])
unfolding turn pop_state pop_vars pop local_vars_count global_step push_vars
starts_small n index a b delay_ms time h = rw h refl

starts :
    (n index a b delay_ms time : ℕ)
    → leb n 1 ≡ false
    → turn (place MaroonTaskState.fibonacci_task_begin (memory n index a b delay_ms) time)
      ≡ ok (place MaroonTaskState.fibonacci_task_calculate (memory n 1 0 1 delay_ms) time, [])
unfolding turn pop_state pop_vars pop local_vars_count global_step push_all
starts n index a b delay_ms time h = rw h refl

stops :
    (n index a b delay_ms time : ℕ)
    → leb n index ≡ true
    → turn (place MaroonTaskState.fibonacci_task_calculate (memory n index a b delay_ms) time)
      ≡ ok (place MaroonTaskState.fibonacci_task_result (memory n index a b delay_ms) time, [])
unfolding turn pop_state pop_vars pop local_vars_count global_step push_all
stops n index a b delay_ms time h = rw h refl

tells :
    (n index a b delay_ms time : ℕ)
    → leb n index ≡ false
    → turn (place MaroonTaskState.fibonacci_task_calculate (memory n index a b delay_ms) time)
      ≡ ok (
        place MaroonTaskState.fibonacci_task_step (memory n index a b (mul64 5 index)) time,
        step_text index n b ∷ [],
      )
unfolding turn pop_state pop_vars pop local_vars_count global_step push_vars
tells n index a b delay_ms time h = rw h refl

add64-small : (a b : ℕ) → a + b < u64_mod → add64 a b ≡ a + b
unfolding add64
add64-small a b h = omega (arith, h)

steps :
    (n index a b delay_ms time : ℕ)
    → index + 1 < u64_mod
    → a + b < u64_mod
    → turn (place MaroonTaskState.fibonacci_task_step (memory n index a b delay_ms) time)
      ≡ ok (
        place MaroonTaskState.fibonacci_task_calculate
            (memory n (index + 1) b (a + b) delay_ms)
            (add64 time delay_ms),
        [],
      )
unfolding turn pop_state pop_vars pop local_vars_count global_step push_vars
steps n index a b delay_ms time fits sum =
    rw (add64-small index 1 fits) (rw (add64-small a b sum) refl)

answers :
    (n index a b delay_ms time : ℕ)
    → turn (place MaroonTaskState.fibonacci_task_result (memory n index a b delay_ms) time)
      ≡ ok
          (place MaroonTaskState.completed (memory n index a b delay_ms) time, result_text n b ∷ [])
unfolding turn pop_state pop_vars pop local_vars_count global_step push_vars
answers n index a b delay_ms time = refl

-- The number that is some steps after two consecutive ones.
abbrev fib_from : (a b left : ℕ) → ℕ
fib_from a b zero = b
fib_from a b (suc left) = fib_from b (a + b) left

fib_from-ge : (a b left : ℕ) → b ≤ fib_from a b left
fib_from-ge a b zero = omega arith
fib_from-ge a b (suc left) = omega (arith, fib_from-ge b (a + b) left)

abbrev suc_many : ℕ → ℕ → ℕ
suc_many zero k = k
suc_many (suc left) k = suc_many left (suc k)

suc_many-add : (left k : ℕ) → suc_many left k ≡ left + k
suc_many-add zero k = omega arith
suc_many-add (suc left) k = suc_many-add left (suc k) ∙ omega arith

fib_from-pair :
    (left k : ℕ) → fib_from (fib_pair k).0 (fib_pair k).1 left ≡ (fib_pair (suc_many left k)).1
fib_from-pair zero k = refl
fib_from-pair (suc left) k = fib_from-pair left (suc k)

fib_from-fib : (left : ℕ) → fib_from 0 1 left ≡ fib (suc left)
fib_from-fib left =
    fib_from-pair left 0 ∙ ap (λ k. (fib_pair k).1) (suc_many-add left 0 ∙ omega arith)

abbrev Tells : Place → ℕ → ℕ → Type 0
Tells from n r =
    (heap : MaroonTaskHeap) × (later : ℕ) × (texts : List String) × Reaches from
      (place MaroonTaskState.completed heap later) (texts ++ result_text n r ∷ [])

calculates :
    (left n index a b delay_ms time : ℕ)
    → n ≡ index + left
    → n < u64_mod
    → fib_from a b left < u64_mod
    → Tells
        (place MaroonTaskState.fibonacci_task_calculate (memory n index a b delay_ms) time)
        n
        (fib_from a b left)
calculates zero n index a b delay_ms time at_ fits bound = (
  memory n index a b delay_ms,
  time,
  [],
  then_ (stops n index a b delay_ms time (ground (arith, at_)))
      (then_ (answers n index a b delay_ms time) stay),
)
calculates (suc left) n index a b delay_ms time at_ fits bound =
    let delay' = mul64 5 index in
    let (heap, later, texts, rest) =
      calculates left n (index + 1) b (a + b) delay' (add64 time delay') (omega (arith, at_)) fits
        bound in
    (
      heap,
      later,
      step_text index n b ∷ texts,
      then_ (tells n index a b delay_ms time (ground (arith, at_))) (
          then_
            (steps n index a b delay' time (omega (arith, at_, fits))
              (omega (arith, bound, fib_from-ge b (a + b) left)))
            rest),
    )

-- A Fibonacci task gets from its first state to `Completed` in finitely many turns, and the last text that
-- it writes has the Fibonacci number of its index, where this and the index are below 2 ^ 64.
pub fibonacci_completes :
    (n index a b delay_ms time : ℕ)
    → n < u64_mod
    → fib n < u64_mod
    → (heap : MaroonTaskHeap) × (later : ℕ) × (texts : List String) × Reaches
        (place MaroonTaskState.fibonacci_task_begin (memory n index a b delay_ms) time)
        (place MaroonTaskState.completed heap later)
        (texts ++ result_text n (fib n) ∷ [])
fibonacci_completes zero index a b delay_ms time fits bound = (
  memory 0 index a b delay_ms,
  time,
  [],
  then_ (starts_small 0 index a b delay_ms time refl) stay,
)
fibonacci_completes (suc zero) index a b delay_ms time fits bound = (
  memory 1 index a b delay_ms,
  time,
  [],
  then_ (starts_small 1 index a b delay_ms time refl) stay,
)
fibonacci_completes (suc (suc m)) index a b delay_ms time fits bound =
    let n = suc (suc m) in
    let same = fib_from-fib (suc m) in
    let (heap, later, texts, rest) =
      calculates (suc m) n 1 0 1 delay_ms time (omega arith) fits (omega (arith, bound, same)) in
    (
      heap,
      later,
      texts,
      then_ (starts n index a b delay_ms time (ground arith)) (
          subst
            (λ r.
              Reaches
                (place MaroonTaskState.fibonacci_task_calculate (memory n 1 0 1 delay_ms) time)
                (place MaroonTaskState.completed heap later) (texts ++ result_text n r ∷ []))
            same rest),
    )
