-- ===== src/App/Offsets/Consensus.antt =====
-- maroon/src/app/app.rs: `consensus_maximum` against what enough peers hold.
use maroon.Prelude.{
  ℕ, zero, suc, ◌+◌, ◌-◌, ◌<◌, ◌≤◌, ◌≡◌, ◌⊎◌, refl, ap, arith, List, [], ◌∷◌, none, some, inl, inr,
  ltb, leb, get_elem?, length, All, true, count_if, ok, Bool-cases, ltb→lt,
}
use maroon.Prelude.Maps.{Map}
use maroon.Prelude.Sort.{IsSorted, IsTotalOrder, sort, sort-IsSorted, length-sort, count_if-sort}
use maroon.App.Offsets.{values, geb, consensus_maximum}

geb-IsTotalOrder : IsTotalOrder geb
geb-IsTotalOrder = record {
  total = λ a b. ground arith;
  antisymm = λ a b h k. ground arith;
  trans = λ a b c h k. ground arith;
}

-- How many values are at least `v`.
abbrev pub support : ℕ → List ℕ → ℕ
support v = count_if (λ x. leb v x)

support_none : (v x : ℕ) (xs : List ℕ) → x < v → All (λ y. geb x y ≡ true) xs → support v xs ≡ 0
support_none v x [] h all = refl
support_none v x (y ∷ ys) h all = ground (arith, support_none v x ys h all.1)

All-at :
    (x : ℕ) (xs : List ℕ) (k v : ℕ) → All (λ y. geb x y ≡ true) xs → get_elem? xs k ≡ some v → v ≤ x
All-at x [] k v all e = cc
All-at x (y ∷ ys) zero v all e = ground arith
All-at x (y ∷ ys) (suc k) v all e = All-at x ys k v all.1 e

-- In a falling list, more than `k` values are at least the one at place `k`, and at most `k` values
-- are at least a larger one.
support_at :
    (xs : List ℕ) (k v : ℕ)
    → IsSorted geb xs
    → get_elem? xs k ≡ some v
    → (k < support v xs) × ((w : ℕ) → v < w → support w xs ≤ k)
support_at [] k v s e = cc
support_at (x ∷ xs) zero v (IsSorted.cons all s) e =
    (ground arith, λ w h. ground (arith, support_none w x xs (ground arith) all))
support_at (x ∷ xs) (suc k) v (IsSorted.cons all s) e =
    let (low, high) = support_at xs k v s e in
    let first = All-at x xs k v all e in (ground arith, λ w h. ground (arith, high w h))

at_length : (xs : List ℕ) (k : ℕ) → k < length xs → (v : ℕ) × (get_elem? xs k ≡ some v)
at_length [] k h = absurd (omega arith)
at_length (x ∷ xs) zero h = (x, refl)
at_length (x ∷ xs) (suc k) h = at_length xs k (omega arith)

length-values : {P : Type 0} (m : Map P ℕ) → length (values m) ≡ length m
length-values [] = refl
length-values (x ∷ m) = ap suc (length-values m)

falling_at :
    {P : Type 0} (m : Map P ℕ) (k : ℕ)
    → k < length m
    → (v : ℕ) × (get_elem? (sort geb (values m)) k ≡ some v)
      × (k < support v (values m))
      × ((w : ℕ) → v < w → support w (values m) ≤ k)
falling_at m k h =
    let xs : List ℕ = sort geb (values m) in
    let (v, at) = at_length xs k (omega (arith, length-sort geb (values m), length-values m)) in
    let supported = support_at xs k v (sort-IsSorted geb geb-IsTotalOrder (values m)) at in
    let same = λ (w : ℕ). count_if-sort geb (λ x. leb w x) (values m) in
    (v, at, omega (arith, supported.0, same v), λ w more. omega (arith, supported.1 w more, same w))

-- Either there are fewer peers than `n`, and there is no consensus; or the consensus is the largest
-- offset that at least `n` peers have reached: `n` of them have, and fewer have reached the next one.
-- `n` is not zero.
pub consensus_maximum_lem :
    {P : Type 0} (m : Map P ℕ) (n : ℕ)
    → 0 < n
    → ((length m < n) × (consensus_maximum m n ≡ ok none))
      ⊎ ((v : ℕ) × (consensus_maximum m n ≡ ok (some v))
          × (n ≤ support v (values m))
          × (support (v + 1) (values m) < n))
unfolding consensus_maximum
consensus_maximum_lem m n h = elim (Bool-cases (ltb (length m) n)) [
  | inl few ↦ inl (ltb→lt _ _ few, rw few refl)
  | inr many ↦
      let (v, at, low, high) = falling_at m (n - 1) (ground arith) in
      inr (v, rw (many, at) refl, omega (arith, low), omega (arith, high (v + 1) (omega arith)))
]
