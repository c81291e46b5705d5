-- ===== src/Epoch/Chain.antt =====
-- epoch_coordinator/src/epoch.rs: what the chain of epochs keeps, and what a hash is bound to.
use native.Mathlib.Nat.{pow-suc}
use mathlib.Core.List.{append_assoc}
use native.Mathlib.Decide.{ℕ_discrete}
use maroon.Prelude.{
  ℕ, zero, suc, ◌+◌, ◌*◌, ◌/◌, ◌^◌, ◌<◌, ◌≡◌, refl, ap, arith, List, [], ◌∷◌, ◌++◌, Option, some,
  length, length-append, All, sym, ◌∙◌, ◌≢◌, ◌⊎◌, inl, inr,
}
use maroon.RangeKey.{U64BlobIdClosedInterval, u64_mod}
use maroon.Epoch.{Epoch, to_le_bytes, increments_bytes, next, prev_hash}

append_inj :
    (xs ys : List ℕ) {zs ws : List ℕ}
    → length xs ≡ length ys
    → xs ++ zs ≡ ys ++ ws
    → (xs ≡ ys) × (zs ≡ ws)
append_inj [] [] h e = (refl, e)
append_inj [] (y ∷ ys) h e = absurd (omega arith)
append_inj (x ∷ xs) [] h e = absurd (omega arith)
append_inj (x ∷ xs) (y ∷ ys) {zs} {ws} h e =
    let r : (xs ≡ ys) × (zs ≡ ws) = append_inj xs ys (omega arith) (ground arith) in
    (ground arith, r.1)

length-to_le_bytes : (n x : ℕ) → length (to_le_bytes n x) ≡ n
unfolding to_le_bytes
length-to_le_bytes zero x = refl
length-to_le_bytes (suc n) x = ap suc (length-to_le_bytes n (x / 256))

to_le_bytes_inj :
    (n x y : ℕ) → x < 256 ^ n → y < 256 ^ n → to_le_bytes n x ≡ to_le_bytes n y → x ≡ y
unfolding to_le_bytes
to_le_bytes_inj zero x y hx hy e = omega arith
to_le_bytes_inj (suc n) x y hx hy e =
    let step =
      to_le_bytes_inj n (x / 256) (y / 256) (omega (arith, pow-suc 256 n))
        (omega (arith, pow-suc 256 n)) (ground arith) in
    ground arith

interval_bytes_inj :
    (i j : U64BlobIdClosedInterval) {zs ws : List ℕ}
    → i.left < u64_mod
    → i.right < u64_mod
    → j.left < u64_mod
    → j.right < u64_mod
    → to_le_bytes 8 i.left ++ (to_le_bytes 8 i.right ++ zs)
      ≡ to_le_bytes 8 j.left ++ (to_le_bytes 8 j.right ++ ws)
    → (i ≡ j) × (zs ≡ ws)
interval_bytes_inj i j {zs} {ws} a b c d e =
    let same_length = λ (x y : ℕ). length-to_le_bytes 8 x ∙ sym (length-to_le_bytes 8 y) in
    let l = append_inj (to_le_bytes 8 i.left) (to_le_bytes 8 j.left) (same_length _ _) e in
    let r = append_inj (to_le_bytes 8 i.right) (to_le_bytes 8 j.right) (same_length _ _) l.1 in
    let p : i.left ≡ j.left = to_le_bytes_inj 8 i.left j.left a c l.0 in
    let q : i.right ≡ j.right = to_le_bytes_inj 8 i.right j.right b d r.0 in (ground arith, r.1)

bytes_discrete : Discrete (List ℕ)
bytes_discrete = hlevel ℕ_discrete

-- An interval of u64 values.
abbrev pub InU64 : U64BlobIdClosedInterval → Type 0
InU64 i = (i.left < u64_mod) × (i.right < u64_mod)

length-increments_bytes :
    (is : List U64BlobIdClosedInterval) → length (increments_bytes is) ≡ 16 * length is
unfolding increments_bytes
length-increments_bytes [] = refl
length-increments_bytes (i ∷ is) = omega (
  arith,
  length-append (to_le_bytes 8 i.left) (to_le_bytes 8 i.right ++ increments_bytes is),
  length-append (to_le_bytes 8 i.right) (increments_bytes is),
  length-to_le_bytes 8 i.left,
  length-to_le_bytes 8 i.right,
  length-increments_bytes is,
)

increments_bytes_inj :
    (is js : List U64BlobIdClosedInterval) {zs ws : List ℕ}
    → All InU64 is
    → All InU64 js
    → length is ≡ length js
    → increments_bytes is ++ zs ≡ increments_bytes js ++ ws
    → (is ≡ js) × (zs ≡ ws)
unfolding increments_bytes
increments_bytes_inj [] [] hi hj n e = (refl, e)
increments_bytes_inj [] (j ∷ js) hi hj n e = absurd (omega arith)
increments_bytes_inj (i ∷ is) [] hi hj n e = absurd (omega arith)
increments_bytes_inj (i ∷ is) (j ∷ js) {zs} {ws} hi hj n e =
    let first = interval_bytes_inj i j hi.0.0 hi.0.1 hj.0.0 hj.0.1 (simp append_assoc at e) in
    let rest = increments_bytes_inj is js hi.1 hj.1 (omega arith) first.1 in
    (cc (first.0, rest.0), rest.1)

module _ {P : Type 0} (sha256 : List ℕ → List ℕ) (to_bytes : P → List ℕ) where
  -- The epochs that one node after another puts on top of `prev`, newest first. A proposal is a
  -- creator, its increments and its time.
  pub extend : List (P × List U64BlobIdClosedInterval × ℕ) → Option (Epoch P) → Option (Epoch P)
  extend [] prev = prev
  extend ((creator, increments, time) ∷ later) prev =
      extend later (some (next sha256 to_bytes creator increments prev time))

  -- Where fewer than 2 ^ 64 epochs were made, the newest carries the number of those before it.
  pub extend-number :
      (proposals : List (P × List U64BlobIdClosedInterval × ℕ)) (e : Epoch P)
      → e.sequence_number + length proposals < u64_mod
      → (f : Epoch P) × (extend proposals (some e) ≡ some f)
        × (f.sequence_number ≡ e.sequence_number + length proposals)
  unfolding extend next
  extend-number [] e h = (e, refl, omega arith)
  extend-number ((creator, increments, time) ∷ later) e h =
      let r =
        extend-number later (next sha256 to_bytes creator increments (some e) time) (omega arith) in
      (r.0, r.1, omega (arith, r.2))

  -- The bytes that are hashed for an epoch.
  abbrev pub hash_input : Option (Epoch P) → List U64BlobIdClosedInterval → P → List ℕ
  hash_input prev increments creator =
      prev_hash prev ++ (increments_bytes increments ++ to_bytes creator)

  hash_input-injective :
      (from_bytes : List ℕ → Option P)
      → ((r : P) → from_bytes (to_bytes r) ≡ some r)
      → (p q : P) (is js : List U64BlobIdClosedInterval) (prev before : Option (Epoch P))
      → length (to_bytes p) ≡ length (to_bytes q)
      → All InU64 is
      → All InU64 js
      → length (prev_hash prev) ≡ length (prev_hash before)
      → hash_input prev is p ≡ hash_input before js q
      → (p ≡ q) × (is ≡ js) × (prev_hash prev ≡ prev_hash before)
  hash_input-injective from_bytes round p q is js prev before width hi hj n same =
      let parts = append_inj (prev_hash prev) (prev_hash before) n same in
      let count : length is ≡ length js = omega (
        arith,
        ap length parts.1,
        length-append (increments_bytes is) (to_bytes p),
        length-append (increments_bytes js) (to_bytes q),
        length-increments_bytes is,
        length-increments_bytes js,
        width,
      ) in
      let inner = increments_bytes_inj is js hi hj count parts.1 in
      let creators : p ≡ q = cc (round p, round q, inner.1) in (creators, inner.0, parts.0)

  -- Where creators can be read back from their bytes, and of two epochs, with ids on u64, the creators have
  -- byte strings of one length, and so have the hashes of the epochs before, which are empty where there
  -- is none: if the two have the same hash, they have the same creator, the same increments and the same
  -- hash before them, or else the bytes that were hashed for the one and for the other are a
  -- collision of the digest.
  pub next-hash-injective :
      (from_bytes : List ℕ → Option P)
      → ((r : P) → from_bytes (to_bytes r) ≡ some r)
      → (p q : P) (is js : List U64BlobIdClosedInterval) (prev before : Option (Epoch P)) (t u : ℕ)
      → length (to_bytes p) ≡ length (to_bytes q)
      → All InU64 is
      → All InU64 js
      → length (prev_hash prev) ≡ length (prev_hash before)
      → (next sha256 to_bytes p is prev t).hash ≡ (next sha256 to_bytes q js before u).hash
      → ((p ≡ q) × (is ≡ js) × (prev_hash prev ≡ prev_hash before))
        ⊎ ((hash_input prev is p ≢ hash_input before js q)
            × (sha256 (hash_input prev is p) ≡ sha256 (hash_input before js q)))
  unfolding next
  next-hash-injective from_bytes round p q is js prev before t u width hi hj n same =
      elim (bytes_discrete (hash_input prev is p) (hash_input before js q)) [
        | yes equal ↦
            inl (hash_input-injective from_bytes round p q is js prev before width hi hj n equal)
        | no differ ↦ inr (differ, same)
      ]
