-- ===== src/Gateway/Answers.antt =====
-- gateway/src/core.rs: `handle_inbox` against what a waiting socket should see.
use mathlib.Core.List.{append-nil}
use maroon.Prelude.{
  ℕ, ◌≡◌, refl, sym, ◌∙◌, arith, List, [], ◌∷◌, ◌++◌, map, Bool, false, ◌&&◌, ◌||◌, Option, none,
  some, ◌==◌, if◌then◌else◌, inl, inr, Option-cases,
}
use maroon.Prelude.Maps.{Map, nat_eq, get, get-remove}
use maroon.Protocol.{TxUpdate}
use maroon.Gateway.{
  Sent, to_socket, to_monitor, new_transaction, is_finished, handle_update, handle_inbox,
}

module _ {V : Type 0} where
  -- The updates of a transaction, up to the first that finishes it.
  abbrev pub until_finished : ℕ → List (TxUpdate V) → List (TxUpdate V)
  until_finished id [] = []
  until_finished id (u ∷ us) =
      let rest = until_finished id us in
      if u.meta.id == id then u ∷ (if is_finished u.meta.status then [] else rest) else rest

  abbrev pub finishes : ℕ → List (TxUpdate V) → Bool
  finishes id [] = false
  finishes id (u ∷ us) = (u.meta.id == id && is_finished u.meta.status) || finishes id us

module _ {S V : Type 0} where
  -- What goes to sockets about a transaction.
  abbrev pub answers : ℕ → List (Sent S V) → List (S × TxUpdate V)
  answers id [] = []
  answers id (to_socket socket u ∷ rest) =
      let later = answers id rest in if u.meta.id == id then (socket, u) ∷ later else later
  answers id (new_transaction tx ∷ rest) = answers id rest
  answers id (to_monitor event ∷ rest) = answers id rest

  -- A socket that waits for the transaction gets the updates.
  abbrev pub answers_to : Option S → List (TxUpdate V) → List (S × TxUpdate V)
  answers_to none us = []
  answers_to (some socket) us = map (λ u. (socket, u)) us

  answers-append :
      (id : ℕ) (xs ys : List (Sent S V)) → answers id (xs ++ ys) ≡ answers id xs ++ answers id ys
  answers-append id [] ys = refl
  answers-append id (to_socket socket u ∷ xs) ys = ground (arith, answers-append id xs ys)
  answers-append id (new_transaction tx ∷ xs) ys = answers-append id xs ys
  answers-append id (to_monitor event ∷ xs) ys = answers-append id xs ys

  update_registry :
      (id : ℕ) (u : TxUpdate V) (ws_registry : Map ℕ S)
      → get (handle_update u ws_registry).0 id
        ≡ (if u.meta.id == id && is_finished u.meta.status then none else get ws_registry id)
  unfolding handle_update
  update_registry id u ws_registry = elim (Option-cases (get ws_registry u.meta.id)) [
    | inl none_waits ↦ rw (none_waits, handle_update) (ground arith)
    | inr (socket, waits) ↦
        rw (waits, handle_update) (ground (arith, get-remove ws_registry u.meta.id id))
  ]

  update_answers :
      (id : ℕ) (u : TxUpdate V) (ws_registry : Map ℕ S)
      → answers id (handle_update u ws_registry).1
        ≡ (if u.meta.id == id then answers_to (get ws_registry id) (u ∷ []) else [])
  unfolding handle_update
  update_answers id u ws_registry = elim (Option-cases (get ws_registry u.meta.id)) [
    | inl none_waits ↦ rw (none_waits, handle_update, answers) (ground arith)
    | inr (socket, waits) ↦ rw (waits, handle_update, answers) (ground arith)
  ]

  no_answers : (waiting : Option S) → answers_to waiting [] ≡ []
  no_answers none = refl
  no_answers (some socket) = refl

  one_answer :
      (waiting : Option S) (u : TxUpdate V) (us : List (TxUpdate V))
      → answers_to waiting (u ∷ []) ++ answers_to waiting us ≡ answers_to waiting (u ∷ us)
  one_answer none u us = refl
  one_answer (some socket) u us = refl

  -- About each transaction, the socket that waits for it gets its updates in order, up to and with
  -- the first that finishes it; if none waits, nobody gets any. After that the socket still waits
  -- exactly if no update finished the transaction.
  pub handle_inbox_lem :
      (id : ℕ) (updates : List (TxUpdate V)) (ws_registry : Map ℕ S)
      → (answers id (handle_inbox updates ws_registry).1
          ≡ answers_to (get ws_registry id) (until_finished id updates))
        × (get (handle_inbox updates ws_registry).0 id
            ≡ (if finishes id updates then none else get ws_registry id))
  unfolding handle_inbox
  handle_inbox_lem id [] ws_registry = (sym (no_answers (get ws_registry id)), refl)
  handle_inbox_lem id (u ∷ us) ws_registry =
      let registry : Map ℕ S = (handle_update u ws_registry).0 in
      let sent : List (Sent S V) = (handle_update u ws_registry).1 in
      let (later, after) = handle_inbox_lem id us registry in
      let waiting = get ws_registry id in
      (
        answers-append id sent (handle_inbox us registry).1
            ∙ ground (
              arith,
              later,
              update_answers id u ws_registry,
              update_registry id u ws_registry,
              one_answer waiting u (until_finished id us),
              append-nil (answers_to waiting (u ∷ [])),
              no_answers waiting,
              no_answers none,
            ),
        ground (arith, after, update_registry id u ws_registry),
      )
