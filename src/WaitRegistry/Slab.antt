-- ===== src/WaitRegistry/Slab.antt =====
-- A choice of keys for the entries of a slab, as runtime/src/wait_registry.rs uses it.
use maroon.Prelude.{ℕ, suc, ◌≡◌, ◌≤◌, refl, arith, max, [], ◌∷◌, none}
use maroon.Prelude.Maps.{Map, nat_eq, get}

-- The number after the greatest key.
abbrev pub next_key : (A : Type 0) → Map ℕ A → ℕ
next_key A [] = 0
next_key A ((k, v) ∷ m) = max (suc k) (next_key A m)

get-above : (A : Type 0) (m : Map ℕ A) (k : ℕ) → next_key A m ≤ k → get m k ≡ none
unfolding get
get-above A [] k h = refl
get-above A ((i, v) ∷ m) k h = ground (arith, get-above A m k)

pub next_key_free : (A : Type 0) (m : Map ℕ A) → get m (next_key A m) ≡ none
next_key_free A m = get-above A m (next_key A m) (omega arith)
