-- ===== src/Engine/Factorial.antt =====
-- state/src/maroon.rs: the states of the factorial.
use Prim.Native.String.{◌++◌ as text_append}
use mathlib.Core.Path.{subst}
use mathlib.Core.List.{append_assoc}
use native.Mathlib.Nat.{le-mul_of_pos_right}
use maroon.Prelude.{
  ℕ, zero, suc, ◌*◌, ◌<◌, ◌≤◌, ◌≡◌, refl, sym, arith, String, List, [], ◌∷◌, ◌++◌, true, false, ok,
  ltb,
}
use maroon.Prelude.Decimal.{to_string}
use maroon.RangeKey.{u64_mod, add64, sub64}
use maroon.Fiber.Stack.{pop-push}
use maroon.Engine.{
  mul64, MaroonTaskState, MaroonTaskStackEntryValue, state, retrn, value, MaroonTaskStack,
  factorial_input, factorial_argument, factorial_return_value, MaroonTaskHeap, local_vars_count,
}
use maroon.Engine.Steps.{global_step}
use maroon.Engine.Loop.{push, push_all, push_vars, pop_vars, pop_state}
use maroon.Engine.Turns.{Place, turn, Reaches, stay, then_}

abbrev pub factorial : ℕ → ℕ
factorial zero = 1
factorial (suc n) = factorial n * suc n

abbrev pub at : MaroonTaskStack → ℕ → Place
at stack time = record { stack = stack; heap = MaroonTaskHeap.empty; time = time }

-- The top of a stack with one variable, and of one with two.
pop_state-one :
    (below : MaroonTaskStack) (v : MaroonTaskStackEntryValue) (st : MaroonTaskState)
    → local_vars_count st ≡ 1
    → pop_state (push (push below (value v)) (state st)) ≡ ok (below, st, v ∷ [])
unfolding pop_state pop_vars
pop_state-one below v st n =
    rw (pop-push (push below (value v)) (state st))
      (rw n (rw (pop-push below (value v), pop_vars) refl))

pop_state-two :
    (below : MaroonTaskStack) (v w : MaroonTaskStackEntryValue) (st : MaroonTaskState)
    → local_vars_count st ≡ 2
    → pop_state (push (push (push below (value w)) (value v)) (state st))
      ≡ ok (below, st, v ∷ w ∷ [])
unfolding pop_state pop_vars
pop_state-two below v w st n = rw (pop-push (push (push below (value w)) (value v)) (state st)) (
    rw n (
      rw (pop-push (push below (value w)) (value v), pop_vars)
        (rw (pop-push below (value w), pop_vars) refl)))

abbrev calling : MaroonTaskStack → MaroonTaskState → ℕ → MaroonTaskState → MaroonTaskStack
calling base back n st =
    push (push (push base (retrn back)) (value (factorial_argument n))) (state st)

abbrev returned : MaroonTaskStack → MaroonTaskState → ℕ → MaroonTaskStack
returned base back r = push (push base (value (factorial_return_value r))) (state back)

sub64-one : (m : ℕ) → suc m < u64_mod → sub64 (suc m) 1 ≡ m
unfolding sub64
sub64-one m h = omega (arith, h)

mul64-small : (a b : ℕ) → a * b < u64_mod → mul64 a b ≡ a * b
unfolding mul64
mul64-small a b h = omega (arith, h)

writes :
    (base : MaroonTaskStack) (back : MaroonTaskState) (n time : ℕ)
    → turn (at (calling base back n MaroonTaskState.factorial_recursive_call) time)
      ≡ ok (
        at (calling base back n MaroonTaskState.factorial_recursion_post_write) time,
        text_append "f(" (text_append (to_string n) ")") ∷ [],
      )
unfolding turn push_vars global_step local_vars_count
writes base back n time =
    rw
      (pop_state-one (push base (retrn back)) (factorial_argument n)
        MaroonTaskState.factorial_recursive_call refl)
      refl

sleeps :
    (base : MaroonTaskStack) (back : MaroonTaskState) (n time : ℕ)
    → turn (at (calling base back n MaroonTaskState.factorial_recursion_post_write) time)
      ≡ ok (
        at
            (calling base back n MaroonTaskState.factorial_recursion_post_sleep)
            (add64 time (mul64 n 50)),
        [],
      )
unfolding turn push_vars global_step local_vars_count
sleeps base back n time =
    rw
      (pop_state-one (push base (retrn back)) (factorial_argument n)
        MaroonTaskState.factorial_recursion_post_write refl)
      refl

ends :
    (base : MaroonTaskStack) (back : MaroonTaskState) (n time : ℕ)
    → ltb 1 n ≡ false
    → turn (at (calling base back n MaroonTaskState.factorial_recursion_post_sleep) time)
      ≡ ok (at (returned base back 1) time, [])
unfolding turn global_step local_vars_count
ends base back n time small =
    rw
      (pop_state-one (push base (retrn back)) (factorial_argument n)
        MaroonTaskState.factorial_recursion_post_sleep refl)
      (rw small (rw (pop-push base (retrn back)) refl))

recurses :
    (base : MaroonTaskStack) (back : MaroonTaskState) (n time : ℕ)
    → suc (suc n) < u64_mod
    → turn
        (at (calling base back (suc (suc n)) MaroonTaskState.factorial_recursion_post_sleep) time)
      ≡ ok (
        at
            (calling
              (push (push base (retrn back)) (value (factorial_argument (suc (suc n)))))
              MaroonTaskState.factorial_recursion_post_recursive_call
              (suc n)
              MaroonTaskState.factorial_recursive_call)
            time,
        [],
      )
unfolding turn push_all global_step local_vars_count
recurses base back n time fits =
    let big : ltb 1 (suc (suc n)) ≡ true = ground arith in
    rw
      (pop_state-one (push base (retrn back)) (factorial_argument (suc (suc n)))
        MaroonTaskState.factorial_recursion_post_sleep refl)
      (rw big (rw (sub64-one (suc n) (omega (arith, fits))) refl))

multiplies :
    (base : MaroonTaskStack) (back : MaroonTaskState) (a n time : ℕ)
    → a * n < u64_mod
    → turn (
        at
          (returned
            (push (push base (retrn back)) (value (factorial_argument n)))
            MaroonTaskState.factorial_recursion_post_recursive_call
            a)
          time)
      ≡ ok (at (returned base back (a * n)) time, [])
unfolding turn global_step local_vars_count
multiplies base back a n time fits =
    rw
      (pop_state-two (push base (retrn back)) (factorial_return_value a) (factorial_argument n)
        MaroonTaskState.factorial_recursion_post_recursive_call refl)
      (rw (pop-push base (retrn back)) (rw (mul64-small a n fits) refl))

pub Reaches-trans :
    {p q r : Place} {ts us : List String} → Reaches p q ts → Reaches q r us → Reaches p r (ts ++ us)
Reaches-trans stay later = later
Reaches-trans {r = r} {us = us} (then_ {p = p} {ts = t} {us = ts} one rest) later =
    subst (Reaches p r) (sym (append_assoc t ts us)) (then_ one (Reaches-trans rest later))

le-factor : (a n : ℕ) → a ≤ a * suc n
le-factor a n = le-mul_of_pos_right a (omega arith)

abbrev Call : MaroonTaskStack → MaroonTaskState → (n result time : ℕ) → Type 0
Call base back n result time =
    (later : ℕ) × (texts : List String) × Reaches
      (at (calling base back n MaroonTaskState.factorial_recursive_call) time)
      (at (returned base back result) later) texts

Call-small :
    (base : MaroonTaskStack) (back : MaroonTaskState) (n time : ℕ)
    → ltb 1 n ≡ false
    → Call base back n 1 time
Call-small base back n time small =
    let slept = add64 time (mul64 n 50) in
    (
      slept,
      _,
      then_ (writes base back n time)
          (then_ (sleeps base back n time) (then_ (ends base back n slept small) stay)),
    )

-- A call of the recursive function gives the factorial to its caller.
Call-factorial :
    (n : ℕ) (base : MaroonTaskStack) (back : MaroonTaskState) (time : ℕ)
    → n < u64_mod
    → factorial n < u64_mod
    → Call base back n (factorial n) time
Call-factorial zero base back time fits bound = Call-small base back 0 time refl
Call-factorial (suc zero) base back time fits bound = Call-small base back 1 time refl
Call-factorial (suc (suc m)) base back time fits bound =
    let n = suc (suc m) in
    let slept = add64 time (mul64 n 50) in
    let kept = push (push base (retrn back)) (value (factorial_argument n)) in
    let back' = MaroonTaskState.factorial_recursion_post_recursive_call in
    let (later, texts, inner) =
      Call-factorial (suc m) kept back' slept (omega (arith, fits))
        (omega (arith, bound, le-factor (factorial (suc m)) (suc m))) in
    (
      later,
      _,
      then_ (writes base back n time) (
          then_ (sleeps base back n time) (
            then_ (recurses base back m slept fits) (
              Reaches-trans inner
                (then_ (multiplies base back (factorial (suc m)) n later bound) stay)))),
    )

enters :
    (n time : ℕ)
    → turn (
        at
          (push (push [] (value (factorial_input n))) (state MaroonTaskState.factorial_entry))
          time)
      ≡ ok (
        at
            (calling
              (push [] (value (factorial_input n)))
              MaroonTaskState.factorial_done
              n
              MaroonTaskState.factorial_recursive_call)
            time,
        [],
      )
unfolding turn push_all global_step local_vars_count
enters n time = refl

abbrev pub answered : ℕ → ℕ → MaroonTaskStack
answered n r =
    push (push (push [] (value (factorial_input n))) (value (factorial_return_value r)))
      (state MaroonTaskState.completed)

answers :
    (n r time : ℕ)
    → turn
        (at (returned (push [] (value (factorial_input n))) MaroonTaskState.factorial_done r) time)
      ≡ ok (at (answered n r) time, text_append (to_string n) (text_append "!=" (to_string r)) ∷ [])
unfolding turn push_vars global_step local_vars_count
answers n r time = refl

-- A factorial task gets from its first state to `Completed` in finitely many turns, and the last text that
-- it writes is the number, `!=` and the factorial of the number, where this and the number are below 2 ^ 64.
pub factorial_completes :
    (n time : ℕ)
    → n < u64_mod
    → factorial n < u64_mod
    → (later : ℕ) × (texts : List String) × Reaches
        (at
          (push (push [] (value (factorial_input n))) (state MaroonTaskState.factorial_entry))
          time)
        (at (answered n (factorial n)) later)
        (texts ++ text_append (to_string n) (text_append "!=" (to_string (factorial n))) ∷ [])
factorial_completes n time fits bound =
    let (later, texts, inner) =
      Call-factorial n (push [] (value (factorial_input n))) MaroonTaskState.factorial_done time
        fits bound in
    (
      later,
      texts,
      then_ (enters n time) (Reaches-trans inner (then_ (answers n (factorial n) later) stay)),
    )
