-- ===== src/App.antt =====
-- maroon/src/app/app.rs: a node's state and its handlers. What a handler sends is a list of outputs
-- beside the new state; the timer's reading is an argument. `P` is libp2p's `PeerId` with its order
-- `le`, `V` the runtime's `Value`; `sha256` and `to_bytes` go into an epoch's hash.
pub mod Offsets
pub mod Transactions
pub mod Commit
pub mod Responses
pub mod Prefix
pub mod Invariant
mod Reachable
mod Tests
use maroon.Prelude.{
  ℕ, zero, suc, ◌+◌, ◌-◌, List, [], ◌∷◌, ◌++◌, map, Bool, true, false, Option, none, some, String,
  Outcome, ok, panic, hang, expect, ◌>>=◌, ltb, leb, ◌==◌, if◌then◌else◌, length, get_last?,
}
use maroon.Prelude.Maps.{Map, Eq, nat_eq, get, insert}
use maroon.Prelude.Sort.{sort}
use maroon.RangeKey.{
  U64BlobIdClosedInterval, add64, ids_count, iter, range_offset_from_unique_blob_id,
}
use maroon.Epoch.{Epoch, LogLineriazer, next, new_epoch, interval_le, ids_of, count_ids}
use maroon.Decision.{EpochDecisionEngine, should_send, update_node_ids, update_latest_epoch}
use maroon.Decision
use maroon.Protocol.{
  Transaction, TxStatus, TxUpdate, Meta, NodeState, Inbox, Outbox, pending, finished,
}
use Transactions.{RuntimeTask, schedule_txs, finish_txs, requested_intervals}
use Offsets.{
  consensus_maximum, calculate_epoch_increments, move_offset_pointer, txs_to_range_tx_map, Updated,
  update_self_offsets, self_delays,
}

pub record App (P V : Type 0) : Type 0 where
  pub consensus_nodes : ℕ
  pub peer_id : P
  pub self_offsets : Map ℕ ℕ
  pub offsets : Map ℕ (Map P ℕ)
  pub consensus_offset : Map ℕ ℕ
  pub commited_offsets : Map ℕ ℕ
  pub epochs : List (Epoch P)
  pub transactions : Map ℕ (Transaction V)
  pub linearizer : LogLineriazer
  pub send_decider : EpochDecisionEngine P

pub data Output (P V : Type 0) : Type 0 where
  p2p : Outbox P V → Output P V
  to_runtime : ℕ → List (RuntimeTask V) → Output P V
  epoch_request : Epoch P → Output P V
  current_offsets : Map ℕ ℕ → Map ℕ ℕ → Output P V

-- The arms of the loop's `select!`, but for the shutdown.
pub data Event (P V : Type 0) : Type 0 where
  advertise_tick : Event P V
  commit_tick : ℕ → Event P V
  get_state : Event P V
  inbox : Inbox P V → Event P V
  epoch_update : Epoch P → Event P V
  runtime_results : List (ℕ × V) → Event P V

-- `App::new`: a node that knows nothing yet.
unfoldable pub new : {P V : Type 0} → P → ℕ → ℕ → App P V
new peer_id consensus_nodes epoch_period = record {
  consensus_nodes = consensus_nodes;
  peer_id = peer_id;
  self_offsets = [];
  offsets = [];
  consensus_offset = [];
  commited_offsets = [];
  epochs = [];
  transactions = [];
  linearizer = record { sequence = [] };
  send_decider = Decision.new peer_id epoch_period;
}

-- The loop of `recalculate_consensus_offsets`.
unfoldable pub recalculate_consensus_offsets :
    {P : Type 0} → ℕ → Map ℕ (Map P ℕ) → Map ℕ ℕ → Outcome (Map ℕ ℕ)
recalculate_consensus_offsets n [] consensus = ok consensus
recalculate_consensus_offsets n ((k, v) ∷ rest) consensus = do
  found ← consensus_maximum v n
  recalculate_consensus_offsets n rest
      (elim found [ none ↦ consensus | some max ↦ insert consensus k max ])

-- The committed offsets after an epoch: each increment's end.
unfoldable pub commit_offsets : List U64BlobIdClosedInterval → Map ℕ ℕ → Outcome (Map ℕ ℕ)
commit_offsets [] commited_offsets = ok commited_offsets
commit_offsets (i ∷ is) commited_offsets = do
  (range, new_offset) ← range_offset_from_unique_blob_id i.right
  commit_offsets is (insert commited_offsets range new_offset)

module _ {P : Type 0} ⦃e : Eq P⦄ where
  -- One pointer after the other: what a peer says of its offsets, or what this node's updates give.
  unfoldable pub move_pointers : List (ℕ × ℕ) → P → Map ℕ (Map P ℕ) → Map ℕ (Map P ℕ)
  move_pointers [] peer_id offsets = offsets
  move_pointers ((range, offset) ∷ rest) peer_id offsets =
      move_pointers rest peer_id (move_offset_pointer offsets peer_id range offset)

module _ {P V : Type 0} ⦃e : Eq P⦄ where
  -- `Inbox::MissingTx`
  unfoldable pub receive_txs : App P V → List (Transaction V) → Outcome (App P V)
  receive_txs app txs = do
    buckets ← txs_to_range_tx_map txs
    u ← update_self_offsets app.self_offsets app.transactions buckets
    ok (record app {
      self_offsets = u.self_offsets;
      transactions = u.transactions;
      offsets = move_pointers u.updates app.peer_id app.offsets;
    })

  -- `Inbox::NewTransaction`: the last update alone moves a pointer.
  unfoldable pub receive_tx : App P V → Transaction V → Outcome (App P V)
  receive_tx app tx = do
    buckets ← txs_to_range_tx_map (tx ∷ [])
    u ← update_self_offsets app.self_offsets app.transactions buckets
    ok (record app {
      self_offsets = u.self_offsets;
      transactions = u.transactions;
      offsets = elim (get_last? u.updates) [
        | none ↦ app.offsets
        | some (range, offset) ↦ move_offset_pointer app.offsets app.peer_id range offset
      ];
    })

  -- `interval.ids_count()` of each interval is taken for the capacity, and may panic.
  unfoldable pub handle_inbox_message :
      (P → P → Bool) → App P V → Inbox P V → Outcome (App P V × List (Output P V))
  handle_inbox_message le app (Inbox.state peer_id state) =
      ok (record app { offsets = move_pointers state.offsets peer_id app.offsets }, [])
  handle_inbox_message le app (Inbox.nodes ids) =
      ok (record app { send_decider = update_node_ids le app.send_decider ids }, [])
  handle_inbox_message le app (Inbox.new_transaction tx) = do
    app' ← receive_tx app tx
    ok (app', [])
  handle_inbox_message le app (Inbox.missing_tx txs) = do app' ← receive_txs app txs; ok (app', [])
  handle_inbox_message le app (Inbox.request_missing_txs peer_id intervals) = do
    _ ← count_ids intervals
    response ← requested_intervals app.transactions intervals []
    ok (app, Output.p2p (Outbox.requested_txs_for_peer peer_id response) ∷ [])

  abbrev send_tasks : ℕ → List (RuntimeTask V) → List (Output P V)
  send_tasks time [] = []
  send_tasks time blueprints = Output.to_runtime time blueprints ∷ []

  unfoldable pub handle_epoch_coordinator_updates :
      App P V → Epoch P → Outcome (App P V × List (Output P V))
  handle_epoch_coordinator_updates app epoch = do
    let increments = sort interval_le epoch.increments
    let sorted = record epoch { increments = increments }
    linearizer ← new_epoch app.linearizer sorted
    commited_offsets ← commit_offsets increments app.commited_offsets
    ids ← ids_of increments
    (transactions, blueprints) ← schedule_txs ids app.transactions
    ok (
      record app {
        linearizer = linearizer;
        commited_offsets = commited_offsets;
        send_decider = update_latest_epoch app.send_decider epoch.creator epoch.creation_time;
        epochs = app.epochs ++ sorted ∷ [];
        transactions = transactions;
      },
      send_tasks epoch.creation_time blueprints,
    )

  abbrev requests : Map P (List U64BlobIdClosedInterval) → List (Output P V)
  requests = map λ d. Output.p2p (Outbox.request_missing_txs d.0 d.1)

  unfoldable pub advertise_offsets_and_request_missing :
      App P V → Outcome (App P V × List (Output P V))
  advertise_offsets_and_request_missing app = do
    consensus ← recalculate_consensus_offsets app.consensus_nodes app.offsets app.consensus_offset
    delays ← self_delays app.transactions app.self_offsets app.offsets
    ok (
      record app { consensus_offset = consensus },
      Output.p2p (Outbox.state (record { offsets = app.self_offsets })) ∷ requests delays,
    )

  unfoldable pub commit_epoch_if_needed :
      (List ℕ → List ℕ) → (P → List ℕ) → App P V → ℕ → Outcome (List (Output P V))
  commit_epoch_if_needed sha256 to_bytes app now =
      if should_send app.send_decider now
      then (do
        increments ← calculate_epoch_increments app.consensus_offset app.commited_offsets
        let prev_epoch = get_last? app.epochs
        ok (Output.epoch_request (next sha256 to_bytes app.peer_id increments prev_epoch now) ∷ []))
      else ok []

  -- One round of `loop_until_shutdown`.
  unfoldable pub step :
      (List ℕ → List ℕ)
      → (P → List ℕ)
      → (P → P → Bool)
      → App P V
      → Event P V
      → Outcome (App P V × List (Output P V))
  step sha256 to_bytes le app advertise_tick = advertise_offsets_and_request_missing app
  step sha256 to_bytes le app (commit_tick now) = do
    sent ← commit_epoch_if_needed sha256 to_bytes app now
    ok (app, sent)
  step sha256 to_bytes le app get_state =
      ok (app, Output.current_offsets app.self_offsets app.consensus_offset ∷ [])
  step sha256 to_bytes le app (inbox msg) = handle_inbox_message le app msg
  step sha256 to_bytes le app (epoch_update epoch) = handle_epoch_coordinator_updates app epoch
  step sha256 to_bytes le app (runtime_results []) = ok (app, [])
  step sha256 to_bytes le app (runtime_results (r ∷ rs)) = do
    (transactions, updates) ← finish_txs (r ∷ rs) app.transactions
    ok (record app { transactions = transactions }, Output.p2p (Outbox.notify_gws updates) ∷ [])
