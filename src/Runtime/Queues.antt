-- ===== src/Runtime/Queues.antt =====
-- runtime/src/runtime.rs: `non_empty_queues` names the queues that have messages.
use maroon.Prelude.{
  ℕ, ◌+◌, ◌≡◌, refl, arith, List, [], ◌∷◌, ◌++◌, Bool, true, false, Option, none, some, String,
  if◌then◌else◌, count_if, Bool-cases, Option-cases, inl, inr,
}
use maroon.Prelude.Maps.{Map, string_eq, get, insert, contains_key, get-insert, get-none}
use maroon.Runtime.{is_empty}

abbrev pub has_message {ℓ} : {V : Type ℓ} → Option (List V) → Bool
has_message none = false
has_message (some []) = false
has_message (some (v ∷ vs)) = true

abbrev pub times : String → List String → ℕ
times name = count_if (λ n. string_eq.beq n name)

-- The names are those of the queues with messages, each once.
abbrev pub NamesNonEmpty {ℓ} : {V : Type ℓ} → Map String (List V) → List String → Type 0
NamesNonEmpty queues names =
    (name : String) → times name names ≡ (if has_message (get queues name) then 1 else 0)

times-append :
    (name : String) (xs ys : List String) → times name (xs ++ ys) ≡ times name xs + times name ys
times-append name [] ys = omega arith
times-append name (x ∷ xs) ys = omega (arith, times-append name xs ys)

abbrev said {ℓ} : {V : Type ℓ} → Option (List V) → ℕ
said o = if has_message o then 1 else 0

module _ {ℓ} {V : Type ℓ} (queues : Map String (List V)) (names : List String) where
  has_message-append : (vs : List V) (v : V) → has_message (some (vs ++ v ∷ [])) ≡ true
  has_message-append [] v = refl
  has_message-append (w ∷ vs) v = refl

  pub push-NamesNonEmpty :
      (q : String) (queue : List V) (v : V)
      → NamesNonEmpty queues names
      → get queues q ≡ some queue
      → NamesNonEmpty
          (insert queues q (queue ++ v ∷ []))
          (if is_empty queue then names ++ q ∷ [] else names)
  push-NamesNonEmpty q [] v agree at name = elim (Bool-cases (string_eq.beq q name)) [
    | inl same ↦
        let here : get queues name ≡ some [] = rw (← (string_eq.beq_iff q name).0 same) at in
        ground (
          arith,
          times-append name names (q ∷ []),
          agree name,
          here,
          get-insert queues q name (v ∷ []),
        )
    | inr apart ↦
        ground
          (arith, times-append name names (q ∷ []), agree name, get-insert queues q name (v ∷ []))
  ]
  push-NamesNonEmpty q (w ∷ vs) v agree at name = elim (Bool-cases (string_eq.beq q name)) [
    | inl same ↦
        let here : get queues name ≡ some (w ∷ vs) = rw (← (string_eq.beq_iff q name).0 same) at in
        ground (arith, agree name, here, get-insert queues q name (w ∷ vs ++ v ∷ []))
    | inr apart ↦ ground (arith, agree name, get-insert queues q name (w ∷ vs ++ v ∷ []))
  ]

  pub create-NamesNonEmpty :
      (q : String)
      → NamesNonEmpty queues names
      → contains_key queues q ≡ false
      → NamesNonEmpty (insert queues q []) names
  create-NamesNonEmpty q agree new name = elim (Bool-cases (string_eq.beq q name)) [
    | inl same ↦
        let here : get queues name ≡ none =
          rw (← (string_eq.beq_iff q name).0 same) (get-none queues q new) in
        ground (arith, agree name, here, get-insert queues q name [])
    | inr apart ↦ ground (arith, agree name, get-insert queues q name [])
  ]

  pub rotate-NamesNonEmpty :
      (q : String) → NamesNonEmpty queues (q ∷ names) → NamesNonEmpty queues (names ++ q ∷ [])
  rotate-NamesNonEmpty q agree name = ground (arith, agree name, times-append name names (q ∷ []))

  pub serve-NamesNonEmpty :
      (q : String) (v : V) (left : List V)
      → NamesNonEmpty queues (q ∷ names)
      → get queues q ≡ some (v ∷ left)
      → NamesNonEmpty (insert queues q left) (if is_empty left then names else names ++ q ∷ [])
  serve-NamesNonEmpty q v [] agree at name = elim (Bool-cases (string_eq.beq q name)) [
    | inl same ↦
        let here : get queues name ≡ some (v ∷ []) = rw (← (string_eq.beq_iff q name).0 same) at in
        ground (arith, agree name, here, get-insert queues q name [])
    | inr apart ↦ ground (arith, agree name, get-insert queues q name [])
  ]
  serve-NamesNonEmpty q v (w ∷ vs) agree at name = elim (Bool-cases (string_eq.beq q name)) [
    | inl same ↦
        let here : get queues name ≡ some (v ∷ w ∷ vs) =
          rw (← (string_eq.beq_iff q name).0 same) at in
        ground (
          arith,
          agree name,
          here,
          times-append name names (q ∷ []),
          get-insert queues q name (w ∷ vs),
        )
    | inr apart ↦
        ground
          (arith, agree name, times-append name names (q ∷ []), get-insert queues q name (w ∷ vs))
  ]

  -- The queue of the first name has a message.
  pub first-has_message :
      (q : String)
      → NamesNonEmpty queues (q ∷ names)
      → (v : V) × (left : List V) × (get queues q ≡ some (v ∷ left))
  first-has_message q agree = elim (Option-cases (get queues q)) [
    | inl gone ↦ ground (arith, agree q, gone, (string_eq.beq_iff q q).1 refl)
    | inr (vs, at) ↦ found vs at
  ]
    where
      found :
          (vs : List V)
          → get queues q ≡ some vs
          → (v : V) × (left : List V) × (get queues q ≡ some (v ∷ left))
      found [] at = ground (arith, agree q, at, (string_eq.beq_iff q q).1 refl)
      found (v ∷ left) at = (v, left, at)
