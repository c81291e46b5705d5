-- ===== src/Prelude/Maps.antt =====
-- `HashMap` as an association list, over keys with a lawful equality. The list's order is the order
-- of iteration, which the source leaves open: what is proved holds for every list.
use mathlib.Core.Path.{◌≡◌, refl}
use mathlib.Core.Logic.{◌↔◌, inl, inr}
use mathlib.Core.Bool.{Bool, true, false}
use mathlib.Core.List.{List, [], ◌∷◌}
use mathlib.Core.Option.{Option, none, some}
use native.Mathlib.Omega.{arith}
use Prim.Native.Nat.{ℕ}
use Prim.Native.String.{String}
use text.Mathlib.Text.{◌==◌ as string_beq}
use text.Mathlib.TextEquality.{eq_iff}
use maroon.Prelude.Tests.{if◌then◌else◌, ◌==◌ as nat_beq, ==_iff, Bool-cases}

pub record Eq {ℓ} (A : Type ℓ) : Type ℓ where
  pub beq : A → A → Bool
  pub beq_iff : (a b : A) → (beq a b ≡ true) ↔ (a ≡ b)

instance abbrev pub nat_eq : Eq ℕ
nat_eq = record { beq = nat_beq; beq_iff = ==_iff }

instance abbrev pub string_eq : Eq String
string_eq = record { beq = string_beq; beq_iff = eq_iff }

abbrev pub Map {ℓ κ} : Type ℓ → Type κ → Type (ℓ ⊔ κ)
Map K V = List (K × V)

module _ {ℓ κ} {K : Type ℓ} {V : Type κ} ⦃e : Eq K⦄ where
  unfoldable pub get : Map K V → K → Option V
  get [] k = none
  get ((j, v) ∷ m) k = if e.beq j k then some v else get m k

  unfoldable pub insert : Map K V → K → V → Map K V
  insert [] k v = (k, v) ∷ []
  insert ((j, w) ∷ m) k v = if e.beq j k then (k, v) ∷ m else (j, w) ∷ insert m k v

  unfoldable pub remove : Map K V → K → Map K V
  remove [] k = []
  remove ((j, w) ∷ m) k = let rest = remove m k in if e.beq j k then rest else (j, w) ∷ rest

  unfoldable pub contains_key : Map K V → K → Bool
  contains_key [] k = false
  contains_key ((j, v) ∷ m) k = if e.beq j k then true else contains_key m k

  pub get-insert :
      (m : Map K V) (k j : K) (v : V)
      → get (insert m k v) j ≡ (if e.beq k j then some v else get m j)
  unfolding get insert
  get-insert [] k j v = refl
  get-insert ((i, w) ∷ m) k j v =
      ground (arith, get-insert m k j v, e.beq_iff k j, e.beq_iff i k, e.beq_iff i j)

  pub get-remove :
      (m : Map K V) (k j : K) → get (remove m k) j ≡ (if e.beq k j then none else get m j)
  unfolding get remove
  get-remove [] k j = ground arith
  get-remove ((i, w) ∷ m) k j =
      ground (arith, get-remove m k j, e.beq_iff k j, e.beq_iff i k, e.beq_iff i j)

  pub contains_key-insert :
      (m : Map K V) (k j : K) (v : V)
      → contains_key (insert m k v) j ≡ (if e.beq k j then true else contains_key m j)
  unfolding contains_key insert
  contains_key-insert [] k j v = refl
  contains_key-insert ((i, w) ∷ m) k j v =
      ground (arith, contains_key-insert m k j v, e.beq_iff k j, e.beq_iff i k, e.beq_iff i j)

  pub contains_key-get :
      (m : Map K V) (k : K) → contains_key m k ≡ true → (v : V) × (get m k ≡ some v)
  unfolding contains_key get
  contains_key-get [] k h = cc
  contains_key-get ((i, w) ∷ m) k h = elim (Bool-cases (e.beq i k)) [
    | inl hit ↦ (w, ground arith)
    | inr miss ↦ let (v, p) = contains_key-get m k (ground arith) in (v, ground arith)
  ]

  pub contains_key-of-get :
      (m : Map K V) (k : K) (v : V) → get m k ≡ some v → contains_key m k ≡ true
  unfolding contains_key get
  contains_key-of-get [] k v h = cc
  contains_key-of-get ((i, w) ∷ m) k v h = ground (arith, contains_key-of-get m k v)

-- The instances' laws: a key equals itself.
pub beq_self {ℓ} : {K : Type ℓ} ⦃e : Eq K⦄ (k : K) → e.beq k k ≡ true
beq_self ⦃e⦄ k = (e.beq_iff k k).1 refl

module _ {ℓ κ} {K : Type ℓ} {V : Type κ} ⦃e : Eq K⦄ where
  -- No key stands twice, as in any `HashMap`.
  abbrev pub HasDistinctKeys : Map K V → Type 0
  HasDistinctKeys [] = Unit
  HasDistinctKeys ((k, v) ∷ m) = (contains_key m k ≡ false) × HasDistinctKeys m

  pub get-none : (m : Map K V) (k : K) → contains_key m k ≡ false → get m k ≡ none
  unfolding contains_key get
  get-none [] k h = refl
  get-none ((i, w) ∷ m) k h = ground (arith, get-none m k)

  pub insert-HasDistinctKeys :
      (m : Map K V) (k : K) (v : V) → HasDistinctKeys m → HasDistinctKeys (insert m k v)
  unfolding contains_key insert
  insert-HasDistinctKeys [] k v h = (refl, tt)
  insert-HasDistinctKeys ((i, w) ∷ m) k v h = elim (Bool-cases (e.beq i k)) [
    | inl hit ↦ rw hit (rw (← (e.beq_iff i k).0 hit) h)
    | inr miss ↦ rw miss (
      ground (arith, contains_key-insert m k i v, e.beq_iff k i, e.beq_iff i k, h.0),
      insert-HasDistinctKeys m k v h.1,
    )
  ]

module _ {ℓ κ μ} {K : Type ℓ} {V : Type κ} ⦃e : Eq K⦄ (P : K → V → Type μ) where
  -- Every entry satisfies `P`.
  abbrev pub AllEntries : Map K V → Type μ
  AllEntries [] = Unit
  AllEntries ((k, v) ∷ m) = P k v × AllEntries m

  pub AllEntries-get : (m : Map K V) (k : K) (v : V) → AllEntries m → get m k ≡ some v → P k v
  unfolding get
  AllEntries-get [] k v all h = cc
  AllEntries-get ((i, w) ∷ m) k v all h = elim (Bool-cases (e.beq i k)) [
    | inl hit ↦ let same : w ≡ v = ground arith in rw (← same) (rw (← (e.beq_iff i k).0 hit) all.0)
    | inr miss ↦ AllEntries-get m k v all.1 (ground arith)
  ]

  pub AllEntries-insert :
      (m : Map K V) (k : K) (v : V) → AllEntries m → P k v → AllEntries (insert m k v)
  unfolding insert
  AllEntries-insert [] k v all h = (h, tt)
  AllEntries-insert ((i, w) ∷ m) k v all h = elim (Bool-cases (e.beq i k)) [
    | inl hit ↦ rw hit (h, all.1)
    | inr miss ↦ rw miss (all.0, AllEntries-insert m k v all.1 h)
  ]

module _ {ℓ κ μ ν} {K : Type ℓ} {V : Type κ} ⦃e : Eq K⦄ {P : K → V → Type μ}
    {Q : K → V → Type ν} where
  pub AllEntries-map :
      (m : Map K V)
      → ((k : K) (v : V) → contains_key m k ≡ true → P k v → Q k v)
      → AllEntries P m
      → AllEntries Q m
  unfolding contains_key
  AllEntries-map [] f all = tt
  AllEntries-map ((i, w) ∷ m) f all = (
    f i w (rw (beq_self i)) all.0,
    AllEntries-map m (λ k v here p. f k v (ground (arith, here)) p) all.1,
  )

module _ {ℓ κ} {K : Type ℓ} {V : Type κ} ⦃e : Eq K⦄ where
  -- Every entry is found under its key.
  pub AllEntries-found : (m : Map K V) → HasDistinctKeys m → AllEntries (λ k v. get m k ≡ some v) m
  unfolding get
  AllEntries-found [] d = tt
  AllEntries-found ((i, w) ∷ m) d = (
    rw (beq_self i),
    AllEntries-map m
        (λ k v here at. elim (Bool-cases (e.beq i k)) [
          | inl same ↦ cc (rw (← (e.beq_iff i k).0 same) at here, d.0)
          | inr apart ↦ rw apart at
        ])
        (AllEntries-found m d.1),
  )

module _ {ℓ κ μ ν} {K : Type ℓ} {V : Type κ} ⦃e : Eq K⦄ (P : K → V → Type μ)
    (Q : K → V → Type ν) where
  pub AllEntries-both :
      (m : Map K V) → AllEntries P m → AllEntries Q m → AllEntries (λ k v. P k v × Q k v) m
  AllEntries-both [] p q = tt
  AllEntries-both ((i, w) ∷ m) p q = ((p.0, q.0), AllEntries-both m p.1 q.1)

module _ {ℓ κ μ} {K : Type ℓ} {V : Type κ} ⦃e : Eq K⦄ (P : K → V → Type μ) where
  -- What holds of all entries after an insertion held before it, if it held of the value written over.
  pub AllEntries-of-insert :
      (m : Map K V) (k : K) (v : V)
      → AllEntries P (insert m k v)
      → ((w : V) → get m k ≡ some w → P k v → P k w)
      → P k v × AllEntries P m
  unfolding insert get
  AllEntries-of-insert [] k v all old = (all.0, tt)
  AllEntries-of-insert ((i, w) ∷ m) k v all old = elim (Bool-cases (e.beq i k)) [
    | inl hit ↦
        let now : AllEntries P ((k, v) ∷ m) = rw hit at all in
        (now.0, (rw ((e.beq_iff i k).0 hit) (old w (rw hit) now.0), now.1))
    | inr miss ↦
        let now : AllEntries P ((i, w) ∷ insert m k v) = rw miss at all in
        let (new, rest) = AllEntries-of-insert m k v now.1 (λ u at. old u (rw miss at)) in
        (new, (now.0, rest))
  ]
