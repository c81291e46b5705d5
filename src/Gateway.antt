-- ===== src/Gateway.antt =====
-- gateway/src/core.rs and gateway/src/network_interface.rs: a gateway numbers the requests, passes
-- them on to the nodes, and answers to the sockets that wait. `S` is axum's `WebSocket`, `V` the
-- runtime's `Value`. What goes into a channel is a list of outputs, and a failed send is ignored, as
-- in the code.
pub mod Ids
pub mod Answers
mod Tests
use maroon.Prelude.{
  ℕ, List, [], ◌∷◌, ◌++◌, Bool, true, false, Option, none, some, String, Outcome, ok, panic, ◌>>=◌,
  leb, if◌then◌else◌,
}
use maroon.Prelude.Maps.{Map, nat_eq, get, insert, remove}
use maroon.RangeKey.{KeyRange, UniqueU64BlobId, add64, full_interval_for_range}
use maroon.Protocol.{
  TxStatus, Meta, TaskBlueprint, Transaction, TxUpdate, created, finished, pending, rejected,
}

pub data MonitorEvent (V : Type 0) : Type 0 where
  new_request : UniqueU64BlobId → String → V → MonitorEvent V
  tx_update : Meta → Option V → MonitorEvent V

pub record NewRequest (S V : Type 0) : Type 0 where
  pub id : UniqueU64BlobId
  pub blueprint : TaskBlueprint V
  pub response_socket : Option S

pub data Sent (S V : Type 0) : Type 0 where
  new_transaction : Transaction V → Sent S V
  to_socket : S → TxUpdate V → Sent S V
  to_monitor : MonitorEvent V → Sent S V

-- The gateway's own state; its other fields are ends of channels.
pub record Gateway : Type 0 where
  pub interval_left : UniqueU64BlobId
  pub interval_right : UniqueU64BlobId

-- `Gateway::new`, but for the network.
unfoldable pub new : KeyRange → Outcome Gateway
new range = do
  interval ← full_interval_for_range range
  ok (record { interval_left = interval.left; interval_right = interval.right })

-- `TxStatus::Finished` as a test.
abbrev pub is_finished : TxStatus → Bool
is_finished created = false
is_finished pending = false
is_finished finished = true
is_finished (rejected reason) = false

abbrev register_socket : {S : Type 0} → Map ℕ S → UniqueU64BlobId → Option S → Map ℕ S
register_socket ws_registry id none = ws_registry
register_socket ws_registry id (some sock) = insert ws_registry id sock

module _ {S V : Type 0} where
  unfoldable pub send_request :
      Gateway → TaskBlueprint V → Option S → Outcome (Gateway × NewRequest S V)
  unfolding add64
  send_request g blueprint response_socket =
      if leb g.interval_right g.interval_left
      then panic
      else ok (
        record g { interval_left = add64 g.interval_left 1 },
        record { id = g.interval_left; blueprint = blueprint; response_socket = response_socket },
      )

  -- Requests that are sent one after the other.
  unfoldable pub send_requests :
      Gateway → List (TaskBlueprint V × Option S) → Outcome (Gateway × List (NewRequest S V))
  send_requests g [] = ok (g, [])
  send_requests g ((blueprint, socket) ∷ rest) = do
    (next, request) ← send_request g blueprint socket
    (last, requests) ← send_requests next rest
    ok (last, request ∷ requests)

  unfoldable pub handle_send_new_request : NewRequest S V → Map ℕ S → Map ℕ S × List (Sent S V)
  handle_send_new_request request ws_registry = (
    register_socket ws_registry request.id request.response_socket,
    new_transaction (record {
      meta = record { id = request.id; status = created };
      blueprint = request.blueprint;
    })
        ∷ to_monitor (new_request request.id request.blueprint.queue_name request.blueprint.param)
        ∷ [],
  )

  -- One update: it goes to the socket that waits, if there is one, and to the monitors.
  unfoldable pub handle_update : TxUpdate V → Map ℕ S → Map ℕ S × List (Sent S V)
  handle_update update ws_registry = elim (get ws_registry update.meta.id) [
    | none ↦ (ws_registry, to_monitor (tx_update update.meta update.result) ∷ [])
    | some socket ↦ (
      if is_finished update.meta.status then remove ws_registry update.meta.id else ws_registry,
      to_socket socket update ∷ to_monitor (tx_update update.meta update.result) ∷ [],
    )
  ]

  unfoldable pub handle_inbox : List (TxUpdate V) → Map ℕ S → Map ℕ S × List (Sent S V)
  handle_inbox [] ws_registry = (ws_registry, [])
  handle_inbox (update ∷ updates) ws_registry =
      let (registry, sent) = handle_update update ws_registry in
      let (last, later) = handle_inbox updates registry in (last, sent ++ later)
