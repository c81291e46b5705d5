-- ===== src/Prelude/Outcomes.antt =====
-- Rust code that may panic (`panic!`, `expect`, an index out of bounds), or loop: `hang` is the
-- result of a loop whose fuel ran out.
use mathlib.Core.Path.{◌≡◌, refl}
use mathlib.Core.Option.{Option, none, some}

pub data Outcome {ℓ} (A : Type ℓ) : Type ℓ where
  ok : A → Outcome A
  panic hang : Outcome A

infixl 5 ◌>>=◌ ◌>>◌
abbrev pub ◌>>=◌ {ℓ κ} : {A : Type ℓ} {B : Type κ} → Outcome A → (A → Outcome B) → Outcome B
ok a >>= f = f a
panic >>= f = panic
hang >>= f = hang

abbrev pub ◌>>◌ {ℓ κ} : {A : Type ℓ} {B : Type κ} → Outcome A → Outcome B → Outcome B
m >> k = m >>= λ _. k

-- `Option::expect`
abbrev pub expect {ℓ} : {A : Type ℓ} → Option A → Outcome A
expect none = panic
expect (some a) = ok a

pub bind-eq-ok {ℓ κ} :
    {A : Type ℓ} {B : Type κ} (m : Outcome A) (f : A → Outcome B) {b : B}
    → (m >>= f) ≡ ok b
    → (a : A) × (m ≡ ok a) × (f a ≡ ok b)
bind-eq-ok (ok a) f h = (a, refl, h)
bind-eq-ok panic f h = cc
bind-eq-ok hang f h = cc

-- What is asked of the result, if there is one.
abbrev pub OnOk {ℓ κ} : {A : Type ℓ} → (A → Type κ) → Outcome A → Type κ
OnOk P (ok a) = P a
OnOk P panic = Unit
OnOk P hang = Unit

module _ {ℓ κ μ} {A : Type ℓ} {B : Type κ} (Q : B → Type μ) where
  pub OnOk-bind-eq :
      (m : Outcome A) (f : A → Outcome B) → ((a : A) → m ≡ ok a → OnOk Q (f a)) → OnOk Q (m >>= f)
  OnOk-bind-eq (ok a) f h = h a refl
  OnOk-bind-eq panic f h = tt
  OnOk-bind-eq hang f h = tt

module _ {ℓ κ μ ν} {A : Type ℓ} {B : Type κ} (P : A → Type ν) (Q : B → Type μ) where
  pub OnOk-bind :
      (m : Outcome A) (f : A → Outcome B)
      → OnOk P m
      → ((a : A) → P a → OnOk Q (f a))
      → OnOk Q (m >>= f)
  OnOk-bind (ok a) f p h = h a p
  OnOk-bind panic f p h = tt
  OnOk-bind hang f p h = tt

pub OnOk-of {ℓ κ} :
    {A : Type ℓ} (P : A → Type κ) (m : Outcome A) {a : A} → OnOk P m → m ≡ ok a → P a
OnOk-of P m p h = rw h at p

module _ {ℓ κ μ} {A : Type ℓ} (P : A → Type κ) (Q : A → Type μ) where
  pub OnOk-map : (m : Outcome A) → OnOk P m → ((a : A) → P a → Q a) → OnOk Q m
  OnOk-map (ok a) p f = f a p
  OnOk-map panic p f = tt
  OnOk-map hang p f = tt

-- There is a result.
abbrev pub Returns {ℓ} : {A : Type ℓ} → Outcome A → Type ℓ
Returns {A = A} m = (a : A) × (m ≡ ok a)

module _ {ℓ κ} {A : Type ℓ} {B : Type κ} where
  pub Returns-bind :
      (m : Outcome A) (f : A → Outcome B)
      → Returns m
      → ((a : A) → Returns (f a))
      → Returns (m >>= f)
  Returns-bind (ok a) f r h = h a
  Returns-bind panic f r h = cc
  Returns-bind hang f r h = cc

pub expect-Returns {ℓ} : {A : Type ℓ} (o : Option A) {a : A} → o ≡ some a → Returns (expect o)
expect-Returns none h = cc
expect-Returns (some a) h = (a, refl)
