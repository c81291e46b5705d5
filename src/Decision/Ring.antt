-- ===== src/Decision/Ring.antt =====
-- maroon/src/epoch_decision_engine.rs: `calculate_position` against the ring of the nodes.
use maroon.Prelude.{
  ℕ, zero, suc, ◌+◌, ◌-◌, ◌%◌, ◌<◌, ◌≡◌, ◌≢◌, refl, ap, arith, List, [], ◌∷◌, some, if◌then◌else◌,
  get_elem?, length, All, false, ◌∙◌, sym,
}
use maroon.Prelude.Maps.{Eq, beq_self}
use maroon.Decision.{positions, calculate_position}

-- The steps from place `j` to place `i` of a ring of `n`.
ring_steps :
    (n i j : ℕ)
    → i < n
    → j < n
    → i ≢ j
    → ((j + (n - j + i) % n) % n ≡ i) × (0 < (n - j + i) % n) × ((n - j + i) % n < n)
ring_steps n i j hi hj ne = grind arith

double_ne : (j n : ℕ) → 0 < j → j < n → (j + j) % n ≢ j
double_ne j n h k = grind arith

steps_cancel : (n j s : ℕ) → j < n → s < n → (j + s) % n ≡ (j + j) % n → s ≡ j
steps_cancel n j s hj hs e = grind arith

module _ {P : Type 0} ⦃e : Eq P⦄ where
  -- No node stands twice in the list.
  abbrev pub AreDistinct : List P → Type 0
  AreDistinct [] = Unit
  AreDistinct (x ∷ xs) = All (λ y. e.beq y x ≡ false) xs × AreDistinct xs

  -- The last place of `p`, counted from `pos`, or `d`.
  last_place : List P → ℕ → P → ℕ → ℕ
  last_place [] pos p d = d
  last_place (x ∷ xs) pos p d = last_place xs (pos + 1) p (if e.beq x p then pos else d)

  positions-last_place :
      (nodes : List P) (pos : ℕ) (p q : P) (a b : ℕ)
      → positions nodes pos p q a b ≡ (last_place nodes pos p a, last_place nodes pos q b)
  unfolding positions last_place
  positions-last_place [] pos p q a b = refl
  positions-last_place (x ∷ xs) pos p q a b = positions-last_place xs (pos + 1) p q _ _

  last_place_absent :
      (nodes : List P) (pos : ℕ) (p : P) (d : ℕ)
      → All (λ y. e.beq y p ≡ false) nodes
      → last_place nodes pos p d ≡ d
  unfolding last_place
  last_place_absent [] pos p d h = refl
  last_place_absent (x ∷ xs) pos p d h = rw h.0 (last_place_absent xs (pos + 1) p d h.1)

  last_place_at :
      (nodes : List P) (i pos : ℕ) (p : P) (d : ℕ)
      → AreDistinct nodes
      → get_elem? nodes i ≡ some p
      → last_place nodes pos p d ≡ pos + i
  unfolding last_place
  last_place_at [] i pos p d h k = cc
  last_place_at (x ∷ xs) zero pos p d h k =
      let same : x ≡ p = ground arith in
      rw (← same) (rw (beq_self x) (last_place_absent xs (pos + 1) x pos h.0 ∙ omega arith))
  last_place_at (x ∷ xs) (suc i) pos p d h k = last_place_at xs i (pos + 1) p _ h.1 k ∙ omega arith

  same_place :
      (nodes : List P) (i j : ℕ) (p : P)
      → AreDistinct nodes
      → get_elem? nodes i ≡ some p
      → get_elem? nodes j ≡ some p
      → i ≡ j
  same_place nodes i j p h hi hj =
      omega (arith, last_place_at nodes i 0 p 0 h hi, last_place_at nodes j 0 p 0 h hj)

  below_length : (nodes : List P) (i : ℕ) {p : P} → get_elem? nodes i ≡ some p → i < length nodes
  below_length [] i h = cc
  below_length (x ∷ xs) zero h = omega arith
  below_length (x ∷ xs) (suc i) h = omega (arith, below_length xs i h)

  -- Among distinct nodes, where the last commiter is the node at place `j` and this node stands at
  -- another place `i`: the position counts the steps on the ring from the commiter to this node,
  -- and it is at least one and below the number of nodes.
  pub calculate_position-ring :
      (nodes : List P) (i j : ℕ) (self_id latest : P)
      → AreDistinct nodes
      → get_elem? nodes i ≡ some self_id
      → get_elem? nodes j ≡ some latest
      → i ≢ j
      → let steps = calculate_position nodes self_id (some latest) in
        ((j + steps) % length nodes ≡ i) × (0 < steps) × (steps < length nodes)
  unfolding calculate_position
  calculate_position-ring nodes i j self_id latest h hi hj ne =
      rw
        (
          positions-last_place nodes 0 self_id latest 0 0,
          last_place_at nodes i 0 self_id 0 h hi,
          last_place_at nodes j 0 latest 0 h hj,
        )
        (ground (
          arith,
          ring_steps (length nodes) i j (below_length nodes i hi) (below_length nodes j hj) ne,
        ))

  -- A node that committed the last epoch itself is given its own place in the list, not the offset
  -- zero from itself.
  pub calculate_position_self :
      (nodes : List P) (i : ℕ) (p : P)
      → AreDistinct nodes
      → get_elem? nodes i ≡ some p
      → calculate_position nodes p (some p) ≡ i
  unfolding calculate_position
  calculate_position_self nodes i p h hi =
      rw (positions-last_place nodes 0 p p 0 0, last_place_at nodes i 0 p 0 h hi) (ground arith)

  -- So that place is shared: if the last commiter stands at place `j`, not the first, then another
  -- node of the ring, the one `j` steps after it, has the same position.
  pub calculate_position-collides :
      (nodes : List P) (j : ℕ) (latest other : P)
      → AreDistinct nodes
      → 0 < j
      → get_elem? nodes j ≡ some latest
      → get_elem? nodes ((j + j) % length nodes) ≡ some other
      → (other ≢ latest)
        × (calculate_position nodes other (some latest)
            ≡ calculate_position nodes latest (some latest))
  calculate_position-collides nodes j latest other h pos hj ho =
      let k = (j + j) % length nodes in
      let bound = below_length nodes j hj in
      let apart : k ≢ j = double_ne j (length nodes) pos bound in
      let (turn, some_steps, few) = calculate_position-ring nodes k j other latest h ho hj apart in
      let self = calculate_position_self nodes j latest h hj in
      (
        λ same. apart (same_place nodes k j latest h (ho ∙ ap some same) hj),
        steps_cancel (length nodes) j _ bound few turn ∙ sym self,
      )
