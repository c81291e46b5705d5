-- ===== src/App/Transactions.antt =====
-- maroon/src/app/app.rs: what the handlers do with the transactions of a node.
use maroon.Prelude.{
  ℕ, zero, suc, ◌+◌, ◌-◌, List, [], ◌∷◌, ◌++◌, none, some, String, Outcome, ok, hang, expect, ◌>>=◌,
  leb, if◌then◌else◌,
}
use maroon.Prelude.Maps.{Map, nat_eq, get, insert}
use maroon.RangeKey.{U64BlobIdClosedInterval, add64, range_from_unique_blob_id}
use maroon.Protocol.{Transaction, TxStatus, TxUpdate, pending, finished}

-- runtime/src/runtime.rs: a task for the runtime.
pub record RuntimeTask (V : Type 0) : Type 0 where
  pub global_id : ℕ
  pub q_name : String
  pub value : V

abbrev pub set_status : {V : Type 0} → Transaction V → TxStatus → Transaction V
set_status tx status = record tx { meta = record tx.meta { status = status } }

module _ {V : Type 0} where
  abbrev pub task_of : Transaction V → RuntimeTask V
  task_of tx = record {
    global_id = tx.meta.id;
    q_name = tx.blueprint.queue_name;
    value = tx.blueprint.param;
  }

  -- An epoch's transactions become pending, in the order of the ids, and tasks for the runtime.
  unfoldable pub schedule_txs :
      List ℕ → Map ℕ (Transaction V) → Outcome (Map ℕ (Transaction V) × List (RuntimeTask V))
  unfolding get insert
  schedule_txs [] transactions = ok (transactions, [])
  schedule_txs (i ∷ is) transactions = do
    tx ← expect (get transactions i)
    (rest, blueprints) ← schedule_txs is (insert transactions i (set_status tx pending))
    ok (rest, task_of tx ∷ blueprints)

  -- The runtime's results: the transactions are finished, and the gateways are told. The metric takes
  -- the range of the id, and may panic.
  unfoldable pub finish_txs :
      List (ℕ × V) → Map ℕ (Transaction V) → Outcome (Map ℕ (Transaction V) × List (TxUpdate V))
  unfolding get insert
  finish_txs [] transactions = ok (transactions, [])
  finish_txs ((id, value) ∷ rs) transactions = do
    tx ← expect (get transactions id)
    _ ← range_from_unique_blob_id tx.meta.id
    (rest, updates) ← finish_txs rs (insert transactions id (set_status tx finished))
    ok (rest, record { meta = record tx.meta { status = finished }; result = some value } ∷ updates)

  -- The pointer's loop that answers a request for one interval. A missing transaction is `continue`d
  -- with the pointer where it was.
  unfoldable pub requested_txs :
      ℕ → Map ℕ (Transaction V) → ℕ → ℕ → List (Transaction V) → Outcome (List (Transaction V))
  unfolding get add64
  requested_txs zero transactions pointer end response = hang
  requested_txs (suc fuel) transactions pointer end response =
      let rest = requested_txs fuel transactions in
      let missing = rest pointer end response in
      let found = λ (tx : Transaction V). rest (add64 pointer 1) end (response ++ tx ∷ []) in
      if leb pointer end
      then (elim (get transactions pointer) [ none ↦ missing | some tx ↦ found tx ])
      else ok response

  unfoldable pub requested_intervals :
      Map ℕ (Transaction V)
      → List U64BlobIdClosedInterval
      → List (Transaction V)
      → Outcome (List (Transaction V))
  unfolding requested_txs
  requested_intervals transactions [] response = ok response
  requested_intervals transactions (i ∷ is) response = do
    response' ← requested_txs (i.right + 2 - i.left) transactions i.left i.right response
    requested_intervals transactions is response'
