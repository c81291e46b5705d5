-- ===== src/App/Tests.antt =====
-- Witnesses for maroon/src/app/app.rs: peers are numbers, and so are the runtime's values.
use maroon.Prelude.{
  Outcome, panic, ℕ, zero, suc, ◌+◌, ◌*◌, ◌<◌, ◌≤◌, ◌≡◌, ◌⊎◌, refl, arith, List, [], ◌∷◌, ◌++◌, map,
  true, none, some, ok, hang, length, leb, count_if, count_up, All, if◌then◌else◌,
}
use maroon.Prelude.Maps.{Map, nat_eq, get, insert, contains_key, HasDistinctKeys}
use maroon.Prelude.Sort.{sort, insert_sorted}
use maroon.RangeKey.{
  U64BlobIdClosedInterval, single_blob_size, max_block_index, add64, sub64, ids_count, iter,
  iter_from, new_from_range_and_offsets, unique_blob_id_from_range_and_offset,
  range_offset_from_unique_blob_id, range_from_unique_blob_id,
}
use maroon.Epoch.{Epoch, new_epoch, count_ids, ids_of, interval_le}
use maroon.Epoch.Log.{holds}
use maroon.Decision.{update_latest_epoch}
use maroon.Protocol.{Transaction, pending, created, Inbox}
use maroon.App.Transactions.{requested_txs, schedule_txs, set_status, task_of}
use maroon.App.Offsets.{
  values, txs_to_range_tx_map, bucket_txs, update_self_offsets, update_ranges, store_txs,
  move_self_offset, last_contiguous, move_offset_pointer, consensus_maximum,
  calculate_epoch_increments, missing_runs,
}
use maroon.App.Offsets.Consensus.{support, consensus_maximum_lem}
use maroon.App.Offsets.Increments.{is_pending, calculate_epoch_increments_lem}
use maroon.App.Offsets.Contiguous.{AreAdmitted, HasPrefixes, Grows}
use maroon.App.Offsets.Gaps.{asked, missing_runs_lem}
use maroon.RangeKey
use maroon.App.{
  handle_inbox_message, move_pointers, App, Output, Event, new, step, receive_txs, commit_offsets,
  handle_epoch_coordinator_updates,
}
use maroon.App.Commit.{next_increments_empty}
use maroon.App.Responses.{requested_txs_lem, requested_txs-hang}
use maroon.App.Invariant.{IsNode, step-IsNode, receive_txs-IsNode}
use maroon.App.Reachable.{Reaches, new-Reaches-IsNode}

abbrev tx : ℕ → Transaction ℕ
tx id = record {
  meta = record { id = id; status = created };
  blueprint = record { queue_name = "q"; param = id };
}

abbrev stored : Map ℕ (Transaction ℕ)
stored = (0, tx 0) ∷ (1, tx 1) ∷ (4, tx 4) ∷ []

abbrev peers : Map ℕ ℕ
peers = (7, 3) ∷ (8, 5) ∷ (9, 4) ∷ []

consensus_maximum_lem_example :
    ((length peers < 2) × (consensus_maximum peers 2 ≡ ok none))
    ⊎ ((v : ℕ) × (consensus_maximum peers 2 ≡ ok (some v))
        × (2 ≤ support v (values peers))
        × (support (v + 1) (values peers) < 2))
consensus_maximum_lem_example = consensus_maximum_lem peers 2 (omega arith)

abbrev consensus : Map ℕ ℕ
consensus = (0, 4) ∷ (2, 1) ∷ []

abbrev commited : Map ℕ ℕ
commited = (0, 2) ∷ []

distinct : HasDistinctKeys consensus
unfolding contains_key
distinct = (refl, (refl, tt))

calculate_epoch_increments_lem_example :
    (is : List U64BlobIdClosedInterval) × (calculate_epoch_increments consensus commited ≡ ok is)
    × (count_if (holds (2 * single_blob_size + 1)) is
        ≡ (if is_pending consensus commited 2 1 then 1 else 0))
calculate_epoch_increments_lem_example =
    calculate_epoch_increments_lem consensus commited 2 1 distinct
      ((omega arith, omega arith), ((omega arith, omega arith), tt))
      ((omega arith, omega arith), tt) (omega arith, omega arith)

missing_runs_lem_example :
    (is : List U64BlobIdClosedInterval) × (missing_runs 7 stored 0 0 0 5 [] ≡ ok is)
    × (count_if (holds (0 * single_blob_size + 3)) is ≡ (if asked stored 0 0 5 0 3 then 1 else 0))
missing_runs_lem_example =
    missing_runs_lem stored 0 (omega arith) 5 (omega arith) 0 0 3 (omega arith) (omega arith)

missing : get stored 2 ≡ none
unfolding get
missing = refl

requested_txs-hang_example : requested_txs 1000 stored 0 4 [] ≡ hang
requested_txs-hang_example =
    requested_txs-hang stored 1000 0 2 4 [] (omega arith) (omega arith) (omega arith) missing

there : (id : ℕ) → 0 ≤ id → id ≤ 1 → (t : Transaction ℕ) × (get stored id ≡ some t)
unfolding get
there zero h k = (tx 0, refl)
there (suc zero) h k = (tx 1, refl)
there (suc (suc n)) h k = absurd (omega arith)

requested_txs_lem_example :
    (txs : List (Transaction ℕ)) × (requested_txs 3 stored 0 1 [] ≡ ok ([] ++ txs))
    × (map (λ t. some t) txs ≡ map (get stored) (count_up 0 2))
requested_txs_lem_example =
    requested_txs_lem stored 2 3 0 1 [] (omega arith) (omega arith) (omega arith) there

abbrev digest : List ℕ → List ℕ
digest xs = xs

abbrev one_byte : ℕ → List ℕ
one_byte p = p ∷ []

abbrev node : App ℕ ℕ
node = record (new 7 2 5) {
  consensus_offset = (0, 1) ∷ [];
  transactions = stored;
  self_offsets = (0, 1) ∷ [];
}

prefixes : HasPrefixes node.self_offsets stored
unfolding get contains_key
prefixes range offset e = (ground arith, ground arith, λ k h. ground arith)

admitted : AreAdmitted stored
unfolding contains_key
admitted id e = ground arith

node-IsNode : IsNode node
node-IsNode = record { admitted = admitted; prefixes = prefixes }

receive_txs-IsNode_example :
    (app' : App ℕ ℕ) × (receive_txs node (tx 2 ∷ tx 3 ∷ []) ≡ ok app')
    × IsNode app'
    × Grows stored app'.transactions
    × All (λ t. contains_key app'.transactions t.meta.id ≡ true) (tx 2 ∷ tx 3 ∷ [])
receive_txs-IsNode_example =
    receive_txs-IsNode node (tx 2 ∷ tx 3 ∷ []) (omega arith, (omega arith, tt)) node-IsNode

abbrev node' : App ℕ ℕ
node' = record node {
  self_offsets = (0, 2) ∷ [];
  transactions = stored ++ (2, tx 2) ∷ [];
  offsets = (0, (7, 2) ∷ []) ∷ [];
}

received :
    step digest one_byte leb node (Event.inbox (Inbox.missing_tx (tx 2 ∷ []))) ≡ ok (node', [])
unfolding step handle_inbox_message receive_txs txs_to_range_tx_map bucket_txs update_self_offsets
    update_ranges store_txs move_self_offset last_contiguous move_pointers move_offset_pointer get
    insert contains_key range_from_unique_blob_id range_offset_from_unique_blob_id
    unique_blob_id_from_range_and_offset add64 new
received = refl

step-IsNode_example : IsNode node'
step-IsNode_example =
    step-IsNode digest one_byte leb node node' (Event.inbox (Inbox.missing_tx (tx 2 ∷ []))) []
      node-IsNode received

abbrev epoch : Epoch ℕ
epoch = record {
  sequence_number = 0;
  increments = record { left = 0; right = 1 } ∷ [];
  creator = 8;
  creation_time = 50;
  hash = [];
}

abbrev committed_node : App ℕ ℕ
committed_node = record node {
  commited_offsets = (0, 1) ∷ [];
  epochs = epoch ∷ [];
  transactions = (0, set_status (tx 0) pending) ∷ (1, set_status (tx 1) pending) ∷ (4, tx 4) ∷ [];
  linearizer = record { sequence = 0 ∷ 1 ∷ [] };
  send_decider = record node.send_decider { latest_epoch = some (8, 50) };
}

proposed :
    calculate_epoch_increments node.consensus_offset node.commited_offsets ≡ ok epoch.increments
unfolding calculate_epoch_increments get add64 new_from_range_and_offsets RangeKey.new
    unique_blob_id_from_range_and_offset new
proposed = refl

handled :
    handle_epoch_coordinator_updates node epoch
    ≡ ok (committed_node, Output.to_runtime 50 (task_of (tx 0) ∷ task_of (tx 1) ∷ []) ∷ [])
unfolding handle_epoch_coordinator_updates sort insert_sorted interval_le new_epoch count_ids ids_of
    ids_count iter iter_from commit_offsets schedule_txs get insert range_offset_from_unique_blob_id
    range_from_unique_blob_id add64 sub64 update_latest_epoch new
handled = refl

one_range : HasDistinctKeys node.consensus_offset
unfolding contains_key
one_range = (refl, tt)

next_increments_empty_example :
    calculate_epoch_increments committed_node.consensus_offset committed_node.commited_offsets
    ≡ ok []
next_increments_empty_example =
    next_increments_empty node committed_node
      (Output.to_runtime 50 (task_of (tx 0) ∷ task_of (tx 1) ∷ []) ∷ []) epoch one_range
      ((omega arith, omega arith), tt) proposed handled

abbrev begun : App ℕ ℕ
begun = new 7 2 5

abbrev or_begun : Outcome (App ℕ ℕ × List (Output ℕ ℕ)) → App ℕ ℕ × List (Output ℕ ℕ)
or_begun (ok r) = r
or_begun panic = (begun, [])
or_begun hang = (begun, [])

abbrev two_come : Event ℕ ℕ
two_come = Event.inbox (Inbox.missing_tx (tx 1 ∷ tx 0 ∷ []))

abbrev then_two : App ℕ ℕ × List (Output ℕ ℕ)
then_two = or_begun (step digest one_byte leb begun two_come)

two_taken : step digest one_byte leb begun two_come ≡ ok then_two
unfolding step handle_inbox_message receive_txs txs_to_range_tx_map bucket_txs update_self_offsets
    update_ranges store_txs move_self_offset last_contiguous move_pointers move_offset_pointer get
    insert contains_key range_from_unique_blob_id range_offset_from_unique_blob_id
    unique_blob_id_from_range_and_offset add64 new
two_taken = refl

new-Reaches-IsNode_example : IsNode then_two.0
new-Reaches-IsNode_example =
    new-Reaches-IsNode digest one_byte leb 7 2 5 then_two.0 (then_two.1 ++ [])
      (Reaches.then_ two_come two_taken Reaches.stay)
