-- ===== src/Prelude/Sort.antt =====
-- Rust's `sort`, by an order that a Boolean test decides: insertion of each item in its place.
use mathlib.Core.Logic.{∥∥₁_elim, ◌⊎◌, inl, inr}
use mathlib.Core.Path.{◌≡◌, refl, ◌∙◌}
use mathlib.Core.Bool.{Bool, true}
use mathlib.Core.List.{List, [], ◌∷◌, Perm, Permᴰ}
use Prim.Native.Nat.{◌+◌}
use native.Mathlib.Omega.{arith}
use maroon.Prelude.Tests.{if◌then◌else◌, Bool-cases}
use maroon.Prelude.Lists.{count_if, length, All}

pub record IsTotalOrder {ℓ} {A : Type ℓ} (le : A → A → Bool) : Type ℓ where
  pub total : (a b : A) → (le a b ≡ true) ⊎ (le b a ≡ true)
  pub antisymm : (a b : A) → le a b ≡ true → le b a ≡ true → a ≡ b
  pub trans : (a b c : A) → le a b ≡ true → le b c ≡ true → le a c ≡ true

module _ {ℓ} {A : Type ℓ} (le : A → A → Bool) where
  unfoldable pub insert_sorted : A → List A → List A
  insert_sorted a [] = a ∷ []
  insert_sorted a (x ∷ xs) = if le a x then a ∷ x ∷ xs else x ∷ insert_sorted a xs

  unfoldable pub sort : List A → List A
  unfolding insert_sorted
  sort [] = []
  sort (x ∷ xs) = insert_sorted x (sort xs)

  pub count_if-insert_sorted :
      (p : A → Bool) (a : A) (xs : List A) → count_if p (insert_sorted a xs) ≡ count_if p (a ∷ xs)
  unfolding insert_sorted
  count_if-insert_sorted p a [] = refl
  count_if-insert_sorted p a (x ∷ xs) = ground (arith, count_if-insert_sorted p a xs)

  -- Sorting keeps every item, as often as it stood there.
  pub count_if-sort : (p : A → Bool) (xs : List A) → count_if p (sort xs) ≡ count_if p xs
  unfolding sort
  count_if-sort p [] = refl
  count_if-sort p (x ∷ xs) = omega (arith, count_if-insert_sorted p x (sort xs), count_if-sort p xs)

  pub length-insert_sorted : (a : A) (xs : List A) → length (insert_sorted a xs) ≡ length xs + 1
  unfolding insert_sorted
  length-insert_sorted a [] = omega arith
  length-insert_sorted a (x ∷ xs) = ground (arith, length-insert_sorted a xs)

  pub length-sort : (xs : List A) → length (sort xs) ≡ length xs
  unfolding sort
  length-sort [] = refl
  length-sort (x ∷ xs) = omega (arith, length-insert_sorted x (sort xs), length-sort xs)

module _ {ℓ} {A : Type ℓ} (le : A → A → Bool) where
  -- Each item stands before all that follow it.
  pub data IsSorted : List A → Type ℓ where
    nil : IsSorted []
    cons : {x : A} {xs : List A} → All (λ y. le x y ≡ true) xs → IsSorted xs → IsSorted (x ∷ xs)

module _ {ℓ κ} {A : Type ℓ} (P : A → Type κ) (le : A → A → Bool) where
  All-insert_sorted : (a : A) (xs : List A) → P a → All P xs → All P (insert_sorted le a xs)
  unfolding insert_sorted
  All-insert_sorted a [] h all = (h, tt)
  All-insert_sorted a (x ∷ xs) h all = elim (Bool-cases (le a x)) [
    | inl before ↦ rw before (h, all)
    | inr after ↦ rw after (all.0, All-insert_sorted a xs h all.1)
  ]

  pub All-sort : (xs : List A) → All P xs → All P (sort le xs)
  unfolding sort
  All-sort [] all = tt
  All-sort (x ∷ xs) all = All-insert_sorted x (sort le xs) all.0 (All-sort xs all.1)

module _ {ℓ κ} {A : Type ℓ} (P : A → Type κ) (le : A → A → Bool) where
  All-of_insert_sorted : (a : A) (xs : List A) → All P (insert_sorted le a xs) → P a × All P xs
  unfolding insert_sorted
  All-of_insert_sorted a [] all = all
  All-of_insert_sorted a (x ∷ xs) all = elim (Bool-cases (le a x)) [
    | inl before ↦ rw before at all
    | inr after ↦
        let now : All P (x ∷ insert_sorted le a xs) = rw after at all in
        let (h, rest) = All-of_insert_sorted a xs now.1 in (h, (now.0, rest))
  ]

  -- What holds of all sorted items held of them before.
  pub All-of_sort : (xs : List A) → All P (sort le xs) → All P xs
  unfolding sort
  All-of_sort [] all = tt
  All-of_sort (x ∷ xs) all =
      let (h, rest) = All-of_insert_sorted x (sort le xs) all in (h, All-of_sort xs rest)

List-set {ℓ} : {A : Type ℓ} → IsSet A → IsSet (List A)
List-set s = hlevel s

module _ {ℓ} {A : Type ℓ} (le : A → A → Bool) (order : IsTotalOrder le) where
  insert_sorted_comm :
      (a b : A) (xs : List A)
      → insert_sorted le a (insert_sorted le b xs) ≡ insert_sorted le b (insert_sorted le a xs)
  unfolding insert_sorted
  insert_sorted_comm a b [] = ground (arith, order.total a b, order.antisymm a b)
  insert_sorted_comm a b (x ∷ xs) = ground (
    arith,
    insert_sorted_comm a b xs,
    order.total a b,
    order.antisymm a b,
    order.trans a b x,
    order.trans b a x,
    order.total a x,
    order.total b x,
  )

  sort-Permᴰ : {xs ys : List A} → Permᴰ xs ys → sort le xs ≡ sort le ys
  unfolding sort
  sort-Permᴰ Permᴰ.nil = refl
  sort-Permᴰ (Permᴰ.cons e p) = cc (e, sort-Permᴰ p)
  sort-Permᴰ (Permᴰ.swap {a} {b} {l = l} p q) = cc (p, q, insert_sorted_comm a b (sort le l))
  sort-Permᴰ (Permᴰ.trans p q) = sort-Permᴰ p ∙ sort-Permᴰ q

  -- The result does not depend on the order in which the items came.
  pub sort-perm : IsSet A → {xs ys : List A} → Perm xs ys → sort le xs ≡ sort le ys
  sort-perm is_set p = ∥∥₁_elim p (List-set is_set _ _) sort-Permᴰ

  All-above :
      (a x : A) (xs : List A)
      → le a x ≡ true
      → All (λ y. le x y ≡ true) xs
      → All (λ y. le a y ≡ true) xs
  All-above a x [] h all = tt
  All-above a x (y ∷ ys) h all = (order.trans a x y h all.0, All-above a x ys h all.1)

  insert_sorted-IsSorted :
      (a : A) {xs : List A} → IsSorted le xs → IsSorted le (insert_sorted le a xs)
  unfolding insert_sorted
  insert_sorted-IsSorted a nil = cons tt nil
  insert_sorted-IsSorted a (cons {x} {xs} all s) = elim (Bool-cases (le a x)) [
    | inl before ↦ rw before (cons (before, All-above a x xs before all) (cons all s))
    | inr after ↦ rw after (
        cons (All-insert_sorted (λ y. le x y ≡ true) le a xs (ground (arith, order.total a x)) all)
          (insert_sorted-IsSorted a s))
  ]

  pub sort-IsSorted : (xs : List A) → IsSorted le (sort le xs)
  unfolding sort
  sort-IsSorted [] = nil
  sort-IsSorted (x ∷ xs) = insert_sorted-IsSorted x (sort-IsSorted xs)
