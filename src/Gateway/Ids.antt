-- ===== src/Gateway/Ids.antt =====
-- gateway/src/core.rs: the ids that a gateway gives its requests.
use maroon.Prelude.{
  ℕ, ◌+◌, ◌-◌, ◌*◌, ◌<◌, ◌≤◌, ◌≡◌, refl, arith, List, [], ◌∷◌, map, Option, ok, panic, length,
  count_up,
}
use maroon.RangeKey.{single_blob_size, max_block_index, u64_mod, add64}
use maroon.RangeKey.Blobs.{full_interval_lem}
use maroon.Protocol.{TaskBlueprint}
use maroon.Gateway.{Gateway, NewRequest, new, send_request, send_requests}

started :
    (range : ℕ) (g : Gateway)
    → range ≤ max_block_index
    → new range ≡ ok g
    → (g.interval_left ≡ range * single_blob_size)
      × (g.interval_right ≡ range * single_blob_size + (single_blob_size - 1))
unfolding new
started range g h e =
    let (i, full, left, right, _) = full_interval_lem range h in ground (arith, full, left, right)

module _ {S V : Type 0} where
  -- With `free` ids before the right border, as many requests are numbered in a row.
  send_requests-from :
      (g : Gateway) (requests : List (TaskBlueprint V × Option S))
      → g.interval_left + length requests ≤ g.interval_right
      → g.interval_right < u64_mod
      → (g' : Gateway) × (sent : List (NewRequest S V)) × (send_requests g requests ≡ ok (g', sent))
        × (map (λ r. r.id) sent ≡ count_up g.interval_left (length requests))
        × (g'.interval_left ≡ g.interval_left + length requests)
        × (g'.interval_right ≡ g.interval_right)
  unfolding send_requests send_request add64
  send_requests-from g [] h k = (g, [], refl, refl, omega arith, refl)
  send_requests-from g ((blueprint, socket) ∷ rest) h k =
      let next : Gateway = record g { interval_left = g.interval_left + 1 } in
      let (g', sent, run, ids, left, right) = send_requests-from next rest (omega arith) k in
      (
        g',
        record { id = g.interval_left; blueprint = blueprint; response_socket = socket } ∷ sent,
        ground (arith, run),
        cc ids,
        omega (arith, left),
        right,
      )

  send_requests-over :
      (g : Gateway) (requests : List (TaskBlueprint V × Option S))
      → g.interval_right < g.interval_left + length requests
      → g.interval_left ≤ g.interval_right
      → g.interval_right < u64_mod
      → send_requests g requests ≡ panic
  unfolding send_requests send_request add64
  send_requests-over g [] h l k = absurd (omega arith)
  send_requests-over g ((blueprint, socket) ∷ rest) h l k =
      let next : Gateway = record g { interval_left = g.interval_left + 1 } in
      ground (arith, send_requests-over next rest)

  -- A gateway that was started on a range numbers fewer requests than the range has ids from the
  -- start of the range on, one after the other, so that no id is given twice.
  pub send_requests_lem :
      (range : ℕ) (g : Gateway) (requests : List (TaskBlueprint V × Option S))
      → range ≤ max_block_index
      → new range ≡ ok g
      → length requests < single_blob_size
      → (g' : Gateway) × (sent : List (NewRequest S V)) × (send_requests g requests ≡ ok (g', sent))
        × (map (λ r. r.id) sent ≡ count_up (range * single_blob_size) (length requests))
  send_requests_lem range g requests h e few =
      let (left, right) = started range g h e in
      let (g', sent, run, ids, _, _) = send_requests-from g requests (omega arith) (omega arith) in
      (g', sent, run, rw (← left) ids)

  -- A gateway that is given as many requests as its range has ids, or more, panics: it asks for no
  -- second range, and it leaves the last id of its own unused.
  pub send_requests-panic :
      (range : ℕ) (g : Gateway) (requests : List (TaskBlueprint V × Option S))
      → range ≤ max_block_index
      → new range ≡ ok g
      → single_blob_size ≤ length requests
      → send_requests g requests ≡ panic
  send_requests-panic range g requests h e many =
      let (left, right) = started range g h e in
      send_requests-over g requests (omega arith) (omega arith) (omega arith)
