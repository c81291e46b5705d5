-- ===== src/Coordinator.antt =====
-- epoch_coordinator/src/etcd.rs: epochs are committed to etcd, one for each sequence number. `C` is
-- the state of etcd behind its client. `run` sends a transaction: it gives the next state, and whether
-- the transaction succeeded, or nothing where the call failed. `to_vec` is the serialization of an
-- epoch into bytes, `V`. The requests of etcd's client that the code builds are data.
pub mod Commits
mod Tests
use Prim.Native.String.{◌++◌ as text_append}
use maroon.Prelude.{
  ℕ, String, List, [], ◌∷◌, ◌++◌, Bool, true, false, Option, none, some, Outcome, ok, ◌>>=◌, ◌==◌,
  if◌then◌else◌, expect,
}
use maroon.Prelude.Decimal.{to_string}
use maroon.Epoch.{Epoch, count_ids}

abbrev maroon_latest : String
maroon_latest = "/maroon/latest"

abbrev maroon_history : String
maroon_history = "/maroon/history"

-- `Compare::version`
pub data CompareOp : Type 0 where
  equal greater less not_equal : CompareOp

pub data Compare : Type 0 where
  version : (key : String) (op : CompareOp) (target : ℕ) → Compare

-- `TxnOp::put`
pub data TxnOp (V : Type 0) : Type 0 where
  put : (key : String) (value : V) → TxnOp V

pub record Txn (V : Type 0) : Type 0 where
  pub when : List Compare
  pub and_then : List (TxnOp V)

pub record EpochObject (P : Type 0) : Type 0 where
  pub epoch : Epoch P

-- The key of the epoch with a sequence number.
unfoldable pub history_key : ℕ → String
history_key seq_number = text_append maroon_history (text_append "/" (to_string seq_number))

-- What is sent for an epoch whose bytes are `value`.
unfoldable pub commit_txn : {V : Type 0} → ℕ → V → Txn V
commit_txn seq_number value = record {
  when = Compare.version (history_key seq_number) CompareOp.equal 0 ∷ [];
  and_then = TxnOp.put maroon_latest value ∷ TxnOp.put (history_key seq_number) value ∷ [];
}

-- `success` of `handle_commit_new_epoch`, from the response.
abbrev pub succeeded : Option Bool → Bool
succeeded none = false
succeeded (some success) = success

abbrev pub is_number : Option ℕ → ℕ → Bool
is_number none sn = false
is_number (some last) sn = last == sn

module _ {C P V : Type 0} (run : C → Txn V → C × Option Bool)
    (to_vec : EpochObject P → Option V) where
  -- The sum of the new ids is taken for a metric, and may panic.
  unfoldable pub handle_commit_new_epoch : C → Epoch P → Outcome (C × Bool)
  handle_commit_new_epoch client epoch = do
    _ ← count_ids epoch.increments
    value ← expect (to_vec (record { epoch = epoch }))
    let (next, resp) = run client (commit_txn epoch.sequence_number value)
    ok (next, succeeded resp)

  abbrev committed_sn : Option ℕ → ℕ → Bool → Option ℕ
  committed_sn last_committed_sn sn true = some sn
  committed_sn last_committed_sn sn false = last_committed_sn

  -- The arm of `receiver.changed()`, with `last_committed_sn` and what was committed.
  unfoldable pub on_request :
      C → Option ℕ → Option (Epoch P) → Outcome (C × Option ℕ × List (Epoch P))
  on_request client last_committed_sn none = ok (client, last_committed_sn, [])
  on_request client last_committed_sn (some epoch) =
      let attempt = (do
        (next, success) ← handle_commit_new_epoch client epoch
        ok (
          next,
          committed_sn last_committed_sn epoch.sequence_number success,
          if success then epoch ∷ [] else [],
        )) in
      if is_number last_committed_sn epoch.sequence_number
      then ok (client, last_committed_sn, [])
      else attempt

  -- Requests of any nodes, in the order in which they reach etcd; each comes with what its node
  -- committed last.
  unfoldable pub on_requests : C → List (Option ℕ × Option (Epoch P)) → Outcome (C × List (Epoch P))
  on_requests client [] = ok (client, [])
  on_requests client ((last_committed_sn, request) ∷ rest) = do
    (next, last, committed) ← on_request client last_committed_sn request
    (end, later) ← on_requests next rest
    ok (end, committed ++ later)
