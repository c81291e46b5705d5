-- ===== src/App/Invariant.antt =====
-- maroon/src/app/app.rs: the invariant of a node's transactions and offsets, kept by every handler.
use maroon.Prelude.{
  ℕ, ◌+◌, ◌*◌, ◌≡◌, refl, arith, List, [], ◌∷◌, some, Bool, true, Outcome, ok, panic, hang, ◌∙◌,
  sym, All, Option-cases, inl, inr, bind-eq-ok, ◌>>=◌,
}
use maroon.Prelude.Maps.{
  Map, Eq, nat_eq, get, insert, contains_key, contains_key-insert, contains_key-of-get,
}
use maroon.Prelude.Sort.{sort}
use maroon.RangeKey.{range_from_unique_blob_id, U64BlobIdClosedInterval, single_blob_size}
use maroon.Epoch.{Epoch, interval_le, ids_of, new_epoch}
use maroon.Protocol.{Transaction, TxUpdate, Inbox, pending, finished}
use maroon.App.Offsets.{txs_to_range_tx_map}
use maroon.App.Offsets.Contiguous.{AreAdmitted, HasPrefixes, Grows}
use maroon.App.Prefix.{IsAdmitted, buckets-AllStored, txs_to_range_tx_map-IsAdmitted}
use maroon.App.Transactions.{schedule_txs, finish_txs, RuntimeTask, set_status, task_of}
use maroon.App.{
  App, Event, Output, receive_txs, receive_tx, move_pointers, commit_offsets, handle_inbox_message,
  step, handle_epoch_coordinator_updates, advertise_offsets_and_request_missing,
}

-- A loop that gathers a list beside its state.
gathered :
    {A B : Type 0} (o : Outcome (A × List B)) (b : B) {a : A} {bs : List B}
    → ◌>>=◌ {B = A × List B} o (λ r. ok (r.0, b ∷ r.1)) ≡ ok (a, bs)
    → (rest : List B) × (o ≡ ok (a, rest))
gathered (ok (a, rest)) b e = (rest, ground arith)
gathered panic b e = cc
gathered hang b e = cc

module _ {V : Type 0} where
  abbrev SameKeys : Map ℕ (Transaction V) → Map ℕ (Transaction V) → Type 0
  SameKeys m m' = (id : ℕ) → contains_key m' id ≡ contains_key m id

  SameKeys-insert :
      (m : Map ℕ (Transaction V)) (id : ℕ) (tx tx' : Transaction V)
      → get m id ≡ some tx
      → SameKeys m (insert m id tx')
  SameKeys-insert m id tx tx' e j =
      ground (arith, contains_key-insert m id j tx', contains_key-of-get m id tx e)

  schedule_txs-SameKeys :
      (is : List ℕ) (m m' : Map ℕ (Transaction V)) (tasks : List (RuntimeTask V))
      → schedule_txs is m ≡ ok (m', tasks)
      → SameKeys m m'
  unfolding schedule_txs
  schedule_txs-SameKeys [] m m' tasks e id = ground arith
  schedule_txs-SameKeys (i ∷ is) m m' tasks e id = elim (Option-cases (get m i)) [
    | inl gone ↦ ground arith
    | inr (tx, here) ↦
        let m₁ : Map ℕ (Transaction V) = insert m i (set_status tx pending) in
        let (r, run) = gathered (schedule_txs is m₁) (task_of tx) (rw here at e) in
        schedule_txs-SameKeys is m₁ m' r run id
        ∙ SameKeys-insert m i tx (set_status tx pending) here id
  ]

  finish_txs-SameKeys :
      (rs : List (ℕ × V)) (m m' : Map ℕ (Transaction V)) (updates : List (TxUpdate V))
      → finish_txs rs m ≡ ok (m', updates)
      → SameKeys m m'
  unfolding finish_txs
  finish_txs-SameKeys [] m m' updates e id = ground arith
  finish_txs-SameKeys ((i, value) ∷ rs) m m' updates e id = elim (Option-cases (get m i)) [
    | inl gone ↦ ground arith
    | inr (tx, here) ↦
        let m₁ : Map ℕ (Transaction V) = insert m i (set_status tx finished) in
        let (_, _, rest) = bind-eq-ok (range_from_unique_blob_id tx.meta.id) _ (rw here at e) in
        let (r, run) = gathered (finish_txs rs m₁) _ rest in
        finish_txs-SameKeys rs m₁ m' r run id
        ∙ SameKeys-insert m i tx (set_status tx finished) here id
  ]

-- A node whose transactions can all be split, and which has what it says of its offsets.
pub record IsNode {P V : Type 0} (app : App P V) : Type 0 where
  pub admitted : AreAdmitted app.transactions
  pub prefixes : HasPrefixes app.self_offsets app.transactions

module _ {P V : Type 0} ⦃e : Eq P⦄ where
  -- Transactions with admitted ids are always taken: the handler neither panics nor loops, all of
  -- them are stored, none is lost, and every offset that the node then reports is backed by all the
  -- transactions up to it.
  pub receive_txs-IsNode :
      (app : App P V) (txs : List (Transaction V))
      → All IsAdmitted txs
      → IsNode app
      → (app' : App P V) × (receive_txs app txs ≡ ok app')
        × IsNode app'
        × Grows app.transactions app'.transactions
        × All (λ tx. contains_key app'.transactions tx.meta.id ≡ true) txs
  unfolding receive_txs
  receive_txs-IsNode app txs all h =
      let (buckets, run, u, update, (prefixes, ids, grows), stored) =
        buckets-AllStored txs app.self_offsets app.transactions all h.prefixes h.admitted in
      (
        record app {
          self_offsets = u.self_offsets;
          transactions = u.transactions;
          offsets = move_pointers u.updates app.peer_id app.offsets;
        },
        rw (run, update) refl,
        record { admitted = ids; prefixes = prefixes },
        grows,
        stored,
      )

  received :
      (app app' : App P V) (txs : List (Transaction V))
      → IsNode app
      → receive_txs app txs ≡ ok app'
      → IsNode app'
  unfolding receive_txs
  received app app' txs h e =
      let (buckets, run, _) = bind-eq-ok (txs_to_range_tx_map txs) _ e in
      let all = txs_to_range_tx_map-IsAdmitted txs buckets run in
      let (buckets', run', u, update, (prefixes, ids, _), _) =
        buckets-AllStored txs app.self_offsets app.transactions all h.prefixes h.admitted in
      let same_txs : app'.transactions ≡ u.transactions = ground arith in
      let same_offsets : app'.self_offsets ≡ u.self_offsets = ground arith in
      record { admitted = rw same_txs ids; prefixes = rw (same_txs, same_offsets) prefixes }

  receive_tx-IsNode :
      (app app' : App P V) (tx : Transaction V)
      → IsNode app
      → receive_tx app tx ≡ ok app'
      → IsNode app'
  unfolding receive_tx
  receive_tx-IsNode app app' tx h e =
      let (buckets, run, _) = bind-eq-ok (txs_to_range_tx_map (tx ∷ [])) _ e in
      let all = txs_to_range_tx_map-IsAdmitted (tx ∷ []) buckets run in
      let (buckets', run', u, update, (prefixes, ids, _), _) =
        buckets-AllStored (tx ∷ []) app.self_offsets app.transactions all h.prefixes h.admitted in
      let same_txs : app'.transactions ≡ u.transactions = ground arith in
      let same_offsets : app'.self_offsets ≡ u.self_offsets = ground arith in
      record { admitted = rw same_txs ids; prefixes = rw (same_txs, same_offsets) prefixes }

  IsNode-of :
      (app app' : App P V)
      → IsNode app
      → SameKeys app.transactions app'.transactions
      → app'.self_offsets ≡ app.self_offsets
      → IsNode app'
  IsNode-of app app' h keys same = record {
    admitted = λ id there. h.admitted id (sym (keys id) ∙ there);
    prefixes = λ r o e.
        (let (low, fits, all) = h.prefixes r o (rw (← same) e) in
          (low, fits, λ k below. keys (r * single_blob_size + k) ∙ all k below));
  }

  IsNode-unchanged :
      (app app' : App P V)
      → IsNode app
      → app'.transactions ≡ app.transactions
      → app'.self_offsets ≡ app.self_offsets
      → IsNode app'
  IsNode-unchanged app app' h keys same = IsNode-of app app' h (λ id. rw keys) same

  inbox-IsNode :
      (le : P → P → Bool) (app app' : App P V) (msg : Inbox P V) (sent : List (Output P V))
      → IsNode app
      → handle_inbox_message le app msg ≡ ok (app', sent)
      → IsNode app'
  unfolding handle_inbox_message
  inbox-IsNode le app app' (Inbox.state peer_id state) sent h e =
      IsNode-unchanged app app' h (ground arith) (ground arith)
  inbox-IsNode le app app' (Inbox.nodes ids) sent h e =
      IsNode-unchanged app app' h (ground arith) (ground arith)
  inbox-IsNode le app app' (Inbox.new_transaction tx) sent h e =
      let (app₁, run, rest) = bind-eq-ok (receive_tx app tx) _ e in
      IsNode-unchanged app₁ app' (receive_tx-IsNode app app₁ tx h run) (ground arith) (ground arith)
  inbox-IsNode le app app' (Inbox.missing_tx txs) sent h e =
      let (app₁, run, rest) = bind-eq-ok (receive_txs app txs) _ e in
      IsNode-unchanged app₁ app' (received app app₁ txs h run) (ground arith) (ground arith)
  inbox-IsNode le app app' (Inbox.request_missing_txs peer_id intervals) sent h e =
      IsNode-unchanged app app' h (ground arith) (ground arith)

  epoch-IsNode :
      (app app' : App P V) (epoch : Epoch P) (sent : List (Output P V))
      → IsNode app
      → handle_epoch_coordinator_updates app epoch ≡ ok (app', sent)
      → IsNode app'
  unfolding handle_epoch_coordinator_updates
  epoch-IsNode app app' epoch sent h e =
      let increments : List U64BlobIdClosedInterval = sort interval_le epoch.increments in
      let (linearizer, _, e₁) =
        bind-eq-ok (new_epoch app.linearizer (record epoch { increments = increments })) _ e in
      let (commited, _, e₂) = bind-eq-ok (commit_offsets increments app.commited_offsets) _ e₁ in
      let (ids, _, e₃) = bind-eq-ok (ids_of increments) _ e₂ in
      let (done, run, rest) = bind-eq-ok (schedule_txs ids app.transactions) _ e₃ in
      let same : app'.transactions ≡ done.0 = ground arith in
      IsNode-of app app' h
        (λ id. rw same (schedule_txs-SameKeys ids app.transactions done.0 done.1 run id))
        (ground arith)

  -- A node whose ids can all be split, and which has every transaction up to the offsets that it
  -- reports, is such a node after any round of its loop that neither panics nor hangs.
  pub step-IsNode :
      (sha256 : List ℕ → List ℕ) (to_bytes : P → List ℕ) (le : P → P → Bool) (app app' : App P V)
      (event : Event P V) (sent : List (Output P V))
      → IsNode app
      → step sha256 to_bytes le app event ≡ ok (app', sent)
      → IsNode app'
  unfolding step advertise_offsets_and_request_missing
  step-IsNode sha256 to_bytes le app app' Event.advertise_tick sent h e =
      IsNode-unchanged app app' h (ground arith) (ground arith)
  step-IsNode sha256 to_bytes le app app' (Event.commit_tick now) sent h e =
      IsNode-unchanged app app' h (ground arith) (ground arith)
  step-IsNode sha256 to_bytes le app app' Event.get_state sent h e =
      IsNode-unchanged app app' h (ground arith) (ground arith)
  step-IsNode sha256 to_bytes le app app' (Event.inbox msg) sent h e =
      inbox-IsNode le app app' msg sent h e
  step-IsNode sha256 to_bytes le app app' (Event.epoch_update epoch) sent h e =
      epoch-IsNode app app' epoch sent h e
  step-IsNode sha256 to_bytes le app app' (Event.runtime_results []) sent h e =
      IsNode-unchanged app app' h (ground arith) (ground arith)
  step-IsNode sha256 to_bytes le app app' (Event.runtime_results (r ∷ rs)) sent h e =
      let (done, run, rest) = bind-eq-ok (finish_txs (r ∷ rs) app.transactions) _ e in
      let same : app'.transactions ≡ done.0 = ground arith in
      IsNode-of app app' h
        (λ id. rw same (finish_txs-SameKeys (r ∷ rs) app.transactions done.0 done.1 run id))
        (ground arith)
