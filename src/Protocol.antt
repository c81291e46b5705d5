-- ===== src/Protocol.antt =====
-- protocol/src/transaction.rs, protocol/src/node2gw.rs and maroon/src/network/interface.rs: what nodes
-- and gateways send one another. `V` is the runtime's `Value`, and `P` libp2p's `PeerId`.
use maroon.Prelude.{ℕ, String, List, Option}
use maroon.Prelude.Maps.{Map}
use maroon.RangeKey.{U64BlobIdClosedInterval}

pub data TxStatus : Type 0 where
  created pending finished : TxStatus
  rejected : String → TxStatus

pub record Meta : Type 0 where
  pub id : ℕ
  pub status : TxStatus

pub record TaskBlueprint (V : Type 0) : Type 0 where
  pub queue_name : String
  pub param : V

pub record Transaction (V : Type 0) : Type 0 where
  pub meta : Meta
  pub blueprint : TaskBlueprint V

pub record TxUpdate (V : Type 0) : Type 0 where
  pub meta : Meta
  pub result : Option V

pub record NodeState : Type 0 where
  pub offsets : Map ℕ ℕ

pub data Outbox (P V : Type 0) : Type 0 where
  state : NodeState → Outbox P V
  request_missing_txs : P → List U64BlobIdClosedInterval → Outbox P V
  requested_txs_for_peer : P → List (Transaction V) → Outbox P V
  notify_gws : List (TxUpdate V) → Outbox P V

pub data Inbox (P V : Type 0) : Type 0 where
  state : P → NodeState → Inbox P V
  nodes : List P → Inbox P V
  new_transaction : Transaction V → Inbox P V
  request_missing_txs : P → List U64BlobIdClosedInterval → Inbox P V
  missing_tx : List (Transaction V) → Inbox P V
