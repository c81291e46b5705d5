-- ===== src/Runtime/Messages.antt =====
-- runtime/src/runtime.rs, `Runtime::run`: what `RunResult::SetValues` does to the queues.
use mathlib.Core.List.{append_assoc}
use maroon.Prelude.{
  ◌≡◌, refl, sym, ap, ◌∙◌, List, [], ◌∷◌, ◌++◌, none, some, String, ok, if◌then◌else◌, Bool-cases,
  Option-cases, inl, inr, OnOk, OnOk-bind-eq, OnOk-of, OnOk-map,
}
use maroon.Prelude.Maps.{Map, nat_eq, string_eq, get, get-insert}
use maroon.Fiber.{SetPrimitiveValue}
use maroon.Runtime.{Runtime, push_message, set_value, set_values}

-- The messages for a queue, in order.
abbrev pub messages_to : {V : Type 0} → String → List (SetPrimitiveValue V) → List V
messages_to q [] = []
messages_to q (SetPrimitiveValue.queue_message name v ∷ vs) =
    if string_eq.beq name q then v ∷ messages_to q vs else messages_to q vs
messages_to q (SetPrimitiveValue.future id v ∷ vs) = messages_to q vs

-- Queues as functions from names to lists.
abbrev pub queue_of : {V : Type 0} → Map String (List V) → String → List V
queue_of queues q = elim (get queues q) [ none ↦ [] | some vs ↦ vs ]

append-empty_list : {V : Type 0} (vs : List V) → vs ≡ vs ++ []
append-empty_list [] = refl
append-empty_list (w ∷ ws) = ap (λ t. w ∷ t) (append-empty_list ws)

messages_to-cons :
    {V : Type 0} (q : String) (v : SetPrimitiveValue V) (vs : List (SetPrimitiveValue V))
    → messages_to q (v ∷ vs) ≡ messages_to q (v ∷ []) ++ messages_to q vs
messages_to-cons q (SetPrimitiveValue.queue_message name v) vs =
    elim (Bool-cases (string_eq.beq name q)) [ inl same ↦ rw same refl | inr apart ↦ rw apart refl ]
messages_to-cons q (SetPrimitiveValue.future id v) vs = refl

module _ {St V F H : Type 0} where
  queue_of-push :
      (rt : Runtime St V F H) (name : String) (queue : List V) (v : V) (q : String)
      → get rt.queue_messages name ≡ some queue
      → queue_of (push_message rt name queue v).queue_messages q
        ≡ queue_of rt.queue_messages q
          ++ messages_to q (SetPrimitiveValue.queue_message name v ∷ [])
  unfolding push_message
  queue_of-push rt name queue v q at = elim (Bool-cases (string_eq.beq name q)) [
    | inl same ↦
        let here : get rt.queue_messages q ≡ some queue =
          rw (← (string_eq.beq_iff name q).0 same) at in
        rw (get-insert rt.queue_messages name q (queue ++ v ∷ []), queue_of)
          (rw same (rw (here, queue_of) refl))
    | inr apart ↦
        rw (get-insert rt.queue_messages name q (queue ++ v ∷ []), queue_of)
          (rw apart (append-empty_list (queue_of rt.queue_messages q)))
  ]

  set_value-appends :
      (rt : Runtime St V F H) (v : SetPrimitiveValue V) (q : String)
      → OnOk
          (λ rt'.
            queue_of rt'.queue_messages q ≡ queue_of rt.queue_messages q ++ messages_to q (v ∷ []))
          (set_value rt v)
  unfolding set_value
  set_value-appends rt (SetPrimitiveValue.queue_message name value) q =
      elim (Option-cases (get rt.queue_messages name)) [
        | inl gone ↦ rw (gone, set_value, OnOk) tt
        | inr (queue, at) ↦ rw (at, set_value, OnOk) (queue_of-push rt name queue value q at)
      ]
  set_value-appends rt (SetPrimitiveValue.future id value) q =
      elim (Option-cases (get rt.public_futures id)) [
        | inl gone ↦ rw (gone, set_value, OnOk) (append-empty_list (queue_of rt.queue_messages q))
        | inr (u_id, at) ↦
            rw (at, set_value, OnOk) (append-empty_list (queue_of rt.queue_messages q))
      ]

  appends :
      (rt : Runtime St V F H) (vs : List (SetPrimitiveValue V)) (q : String)
      → OnOk
          (λ rt'. queue_of rt'.queue_messages q ≡ queue_of rt.queue_messages q ++ messages_to q vs)
          (set_values rt vs)
  unfolding set_values
  appends rt [] q = append-empty_list (queue_of rt.queue_messages q)
  appends rt (v ∷ vs) q =
      OnOk-bind-eq
        (λ rt'.
          queue_of rt'.queue_messages q ≡ queue_of rt.queue_messages q ++ messages_to q (v ∷ vs))
        (set_value rt v) _
        (λ set at.
          let first =
            OnOk-of
              (λ r.
                queue_of r.queue_messages q
                ≡ queue_of rt.queue_messages q ++ messages_to q (v ∷ []))
              (set_value rt v) (set_value-appends rt v q) at in
          OnOk-map _ _ (set_values set vs) (appends set vs q) (λ rt' later.
            later
            ∙ ap (λ t. t ++ messages_to q vs) first
            ∙ append_assoc (queue_of rt.queue_messages q) (messages_to q (v ∷ []))
                (messages_to q vs)
            ∙ ap (λ t. queue_of rt.queue_messages q ++ t) (sym (messages_to-cons q v vs))))

  -- Where all the values are set, each queue, taken as the list of its messages, is what it was with the
  -- messages for it at its end, in order.
  pub set_values-appends :
      (rt rt' : Runtime St V F H) (vs : List (SetPrimitiveValue V)) (q : String)
      → set_values rt vs ≡ ok rt'
      → queue_of rt'.queue_messages q ≡ queue_of rt.queue_messages q ++ messages_to q vs
  set_values-appends rt rt' vs q done =
      OnOk-of (λ r. queue_of r.queue_messages q ≡ queue_of rt.queue_messages q ++ messages_to q vs)
        (set_values rt vs) (appends rt vs q) done
