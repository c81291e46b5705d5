-- ===== src/Fiber/Stack.antt =====
-- What runtime/src/fiber.rs uses of a vector: its top is the last item.
use maroon.Prelude.{
  ℕ, zero, suc, ◌≤◌, ◌≡◌, refl, ap, arith, List, [], ◌∷◌, ◌++◌, Option, none, some, Outcome, ok,
  panic, ◌>>=◌, length, bind-eq-ok,
}

module _ {A : Type 0} where
  -- `truncate`
  abbrev pub take : ℕ → List A → List A
  take zero xs = []
  take (suc n) [] = []
  take (suc n) (x ∷ xs) = x ∷ take n xs

  abbrev pub drop : ℕ → List A → List A
  drop zero xs = xs
  drop (suc n) [] = []
  drop (suc n) (x ∷ xs) = drop n xs

  unfoldable pub pop : List A → Option (List A × A)
  pop [] = none
  pop (x ∷ xs) = elim (pop xs) [ none ↦ some ([], x) | some (rest, last) ↦ some (x ∷ rest, last) ]

  -- The item at an index is replaced; out of bounds is a panic.
  unfoldable pub update : (A → A) → List A → ℕ → Outcome (List A)
  update g [] i = panic
  update g (x ∷ xs) zero = ok (g x ∷ xs)
  update g (x ∷ xs) (suc i) = do ys ← update g xs i; ok (x ∷ ys)

  pub pop-push : (xs : List A) (x : A) → pop (xs ++ x ∷ []) ≡ some (xs, x)
  unfolding pop
  pop-push [] x = refl
  pop-push (y ∷ ys) x = rw (pop-push ys x) refl

  pub take-length-append : (xs ys : List A) → take (length xs) (xs ++ ys) ≡ xs
  take-length-append [] ys = refl
  take-length-append (x ∷ xs) ys = ap (λ zs. x ∷ zs) (take-length-append xs ys)

  pub drop-length-append : (xs ys : List A) → drop (length xs) (xs ++ ys) ≡ ys
  drop-length-append [] ys = refl
  drop-length-append (x ∷ xs) ys = drop-length-append xs ys

  pub update-append :
      (g : A → A) (xs : List A) (x : A) (ys : List A)
      → update g (xs ++ x ∷ ys) (length xs) ≡ ok (xs ++ g x ∷ ys)
  unfolding update
  update-append g [] x ys = refl
  update-append g (y ∷ xs) x ys = rw (update-append g xs x ys) refl

  -- An update at an index past the first items leaves them.
  pub update-keeps :
      (g : A → A) (xs ys : List A) (i : ℕ) {zs : List A}
      → length xs ≤ i
      → update g (xs ++ ys) i ≡ ok zs
      → (ys' : List A) × (zs ≡ xs ++ ys')
  unfolding update
  update-keeps g [] ys i {zs} h e = (zs, refl)
  update-keeps g (x ∷ xs) ys zero h e = absurd (omega arith)
  update-keeps g (x ∷ xs) ys (suc i) h e =
      let (ws, run, rest) = bind-eq-ok (update g (xs ++ ys) i) _ e in
      let (ys', same) = update-keeps g xs ys i (omega arith) run in
      (ys', ground (arith, same, rest))
