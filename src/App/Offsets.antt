-- ===== src/App/Offsets.antt =====
-- maroon/src/app/app.rs, the functions below the `impl`: offsets, increments and delays, over the
-- node's maps.
pub mod Consensus
pub mod Increments
pub mod Contiguous
pub mod Gaps
use maroon.Prelude.{
  ℕ, zero, suc, ◌+◌, ◌-◌, ◌≡◌, List, [], ◌∷◌, ◌++◌, map, Bool, true, false, Option, none, some,
  Outcome, ok, hang, expect, ◌>>=◌, ltb, leb, ◌==◌, if◌then◌else◌, length, get_elem?,
}
use maroon.Prelude.Maps.{Map, Eq, nat_eq, get, insert, contains_key}
use maroon.Prelude.Sort.{sort}
use maroon.RangeKey.{
  U64BlobIdClosedInterval, add64, sub64, new_from_range_and_offsets,
  unique_blob_id_from_range_and_offset, range_from_unique_blob_id, range_offset_from_unique_blob_id,
}
use maroon.Protocol.{Transaction}

abbrev pub values {ℓ} : {K : Type ℓ} → Map K ℕ → List ℕ
values = map λ kv. kv.1

abbrev pub geb : ℕ → ℕ → Bool
geb a b = leb b a

-- `n_consensus` is not zero; the index `n - 1` is in bounds or panics.
unfoldable pub consensus_maximum {ℓ} : {P : Type ℓ} → Map P ℕ → ℕ → Outcome (Option ℕ)
unfolding sort
consensus_maximum m n =
    if ltb (length m) n
    then ok none
    else (do v ← expect (get_elem? (sort geb (values m)) (n - 1)); ok (some v))

abbrev pub start_of : Option ℕ → ℕ
start_of none = 0
start_of (some prev) = add64 prev 1

unfoldable pub calculate_epoch_increments :
    Map ℕ ℕ → Map ℕ ℕ → Outcome (List U64BlobIdClosedInterval)
unfolding new_from_range_and_offsets get add64
calculate_epoch_increments [] commited_offsets = ok []
calculate_epoch_increments ((range, offset) ∷ rest) commited_offsets = do
  let increments = calculate_epoch_increments rest commited_offsets
  let start = start_of (get commited_offsets range)
  if ltb offset start
      then increments
      else do i ← new_from_range_and_offsets range start offset; is ← increments; ok (i ∷ is)

unfoldable pub move_offset_pointer :
    {P : Type 0} ⦃e : Eq P⦄ → Map ℕ (Map P ℕ) → P → ℕ → ℕ → Map ℕ (Map P ℕ)
unfolding get insert
move_offset_pointer offsets peer_id new_range new_offset = elim (get offsets new_range) [
  | none ↦ insert offsets new_range ((peer_id, new_offset) ∷ [])
  | some mut_range ↦ insert offsets new_range (insert mut_range peer_id new_offset)
]

-- What `update_self_offsets` writes and returns.
pub record Updated (V : Type 0) : Type 0 where
  pub self_offsets : Map ℕ ℕ
  pub transactions : Map ℕ (Transaction V)
  pub updates : List (ℕ × ℕ)

-- `max_by_key`: of several greatest values it takes the last.
unfoldable pub max_entry : {P : Type 0} → Map P ℕ → Option (P × ℕ)
max_entry [] = none
max_entry (x ∷ xs) = elim (max_entry xs) [
  | none ↦ some x
  | some y ↦ if ltb y.1 x.1 then some x else some y
]

-- Where this node stands behind, the border from which transactions may be missing.
abbrev pub left_border_of : Option ℕ → ℕ → Option ℕ
left_border_of none right_border = some 0
left_border_of (some current) right_border =
    if leb right_border current then none else some (add64 current 1)

abbrev pub append_delays :
    {P : Type 0} ⦃e : Eq P⦄
    → Map P (List U64BlobIdClosedInterval)
    → P
    → List U64BlobIdClosedInterval
    → Option (List U64BlobIdClosedInterval)
    → Map P (List U64BlobIdClosedInterval)
append_delays result peer_id new_intervals none = insert result peer_id new_intervals
append_delays result peer_id new_intervals (some ranges) =
    insert result peer_id (ranges ++ new_intervals)

module _ {V : Type 0} where
  abbrev pub push_bucket :
      Map ℕ (List (Transaction V))
      → ℕ
      → Transaction V
      → Option (List (Transaction V))
      → Map ℕ (List (Transaction V))
  push_bucket m range tx none = insert m range (tx ∷ [])
  push_bucket m range tx (some bucket) = insert m range (bucket ++ tx ∷ [])

  -- The loop of `txs_to_range_tx_map`, over its map.
  unfoldable pub bucket_txs :
      List (Transaction V) → Map ℕ (List (Transaction V)) → Outcome (Map ℕ (List (Transaction V)))
  unfolding get insert range_from_unique_blob_id
  bucket_txs [] range_map = ok range_map
  bucket_txs (tx ∷ txs) range_map = do
    range ← range_from_unique_blob_id tx.meta.id
    bucket_txs txs (push_bucket range_map range tx (get range_map range))

  unfoldable pub txs_to_range_tx_map : List (Transaction V) → Outcome (Map ℕ (List (Transaction V)))
  unfolding bucket_txs
  txs_to_range_tx_map txs = bucket_txs txs []

  -- The inner loop of `update_self_offsets`: one range's transactions are stored.
  unfoldable pub store_txs :
      List (Transaction V) → Map ℕ (Transaction V) → Bool → Outcome (Map ℕ (Transaction V) × Bool)
  unfolding insert range_offset_from_unique_blob_id
  store_txs [] transactions has_0_tx = ok (transactions, has_0_tx)
  store_txs (tx ∷ txs) transactions has_0_tx = do
    (range, offset) ← range_offset_from_unique_blob_id tx.meta.id
    store_txs txs (insert transactions tx.meta.id tx) (if offset == 0 then true else has_0_tx)

  -- `while transactions.contains_key(&(key + 1)) { key += 1 }`
  unfoldable pub last_contiguous : ℕ → Map ℕ (Transaction V) → ℕ → Outcome ℕ
  unfolding add64 contains_key
  last_contiguous zero transactions key = hang
  last_contiguous (suc fuel) transactions key =
      let rest = last_contiguous fuel transactions (add64 key 1) in
      if contains_key transactions (add64 key 1) then rest else ok key

  -- From a known offset the pointer moves as far as the transactions go on.
  unfoldable pub move_self_offset :
      Map ℕ ℕ → Map ℕ (Transaction V) → List (ℕ × ℕ) → ℕ → ℕ → Outcome (Updated V)
  unfolding last_contiguous insert unique_blob_id_from_range_and_offset
      range_offset_from_unique_blob_id
  move_self_offset self_offsets transactions updates range start = do
    key ←
        last_contiguous (suc (length transactions)) transactions
          (unique_blob_id_from_range_and_offset range start)
    (other, new_offset) ← range_offset_from_unique_blob_id key
    ok (record {
      self_offsets = insert self_offsets range new_offset;
      transactions = transactions;
      updates = updates ++ (range, new_offset) ∷ [];
    })

  abbrev update_range :
      Map ℕ ℕ → Map ℕ (Transaction V) → List (ℕ × ℕ) → ℕ → Bool → Option ℕ → Outcome (Updated V)
  update_range self_offsets transactions updates range has_0_tx (some existing) =
      move_self_offset self_offsets transactions updates range existing
  update_range self_offsets transactions updates range true none =
      move_self_offset (insert self_offsets range 0) transactions updates range 0
  update_range self_offsets transactions updates range false none =
      ok (record { self_offsets = self_offsets; transactions = transactions; updates = updates })

  -- The outer loop of `update_self_offsets`, over the two maps and the updates so far.
  unfoldable pub update_ranges :
      Map ℕ (List (Transaction V))
      → Map ℕ ℕ
      → Map ℕ (Transaction V)
      → List (ℕ × ℕ)
      → Outcome (Updated V)
  unfolding store_txs get insert move_self_offset
  update_ranges [] self_offsets transactions updates =
      ok (record { self_offsets = self_offsets; transactions = transactions; updates = updates })
  update_ranges ((range, txs) ∷ rest) self_offsets transactions updates = do
    (stored, has_0_tx) ← store_txs txs transactions false
    u ← update_range self_offsets stored updates range has_0_tx (get self_offsets range)
    update_ranges rest u.self_offsets u.transactions u.updates

  unfoldable pub update_self_offsets :
      Map ℕ ℕ → Map ℕ (Transaction V) → Map ℕ (List (Transaction V)) → Outcome (Updated V)
  unfolding update_ranges
  update_self_offsets self_offsets transactions range_transactions =
      update_ranges range_transactions self_offsets transactions []

  -- The pointer's loop in `self_delays`: the runs of missing transactions, oldest first. A run that
  -- began at `left_border` ends before a transaction that is there, or at the right border.
  unfoldable pub missing_runs :
      ℕ
      → Map ℕ (Transaction V)
      → ℕ
      → ℕ
      → ℕ
      → ℕ
      → List U64BlobIdClosedInterval
      → Outcome (List U64BlobIdClosedInterval)
  unfolding new_from_range_and_offsets unique_blob_id_from_range_and_offset add64 sub64 contains_key
  missing_runs zero transactions range left_border pointer right_border new_intervals = hang
  missing_runs (suc fuel) transactions range left_border pointer right_border new_intervals =
      let rest = missing_runs fuel transactions range in
      let skipped = rest left_border (add64 pointer 1) right_border new_intervals in
      let close : Outcome (List U64BlobIdClosedInterval) = (do
        i ← new_from_range_and_offsets range left_border (sub64 pointer 1)
        ok (new_intervals ++ i ∷ [])) in
      if leb pointer right_border
      then (if contains_key transactions (unique_blob_id_from_range_and_offset range pointer)
          then (do
            closed ← if ltb left_border pointer then close else ok new_intervals
            rest (add64 pointer 1) (add64 pointer 1) right_border closed)
          else skipped)
      else (if pointer == left_border then ok new_intervals else close)

module _ {V P : Type 0} ⦃e : Eq P⦄ where
  abbrev delay_from :
      Map ℕ (Transaction V)
      → ℕ
      → Map P (List U64BlobIdClosedInterval)
      → P
      → ℕ
      → Option ℕ
      → Outcome (Map P (List U64BlobIdClosedInterval))
  delay_from transactions range result peer_id right_border none = ok result
  delay_from transactions range result peer_id right_border (some left_border) = do
    new_intervals ←
        missing_runs (right_border + 2 - left_border) transactions range left_border left_border
          right_border []
    ok (append_delays result peer_id new_intervals (get result peer_id))

  -- The outer loop of `self_delays`, over its result.
  unfoldable pub delays_from :
      Map ℕ (Transaction V)
      → Map ℕ ℕ
      → Map ℕ (Map P ℕ)
      → Map P (List U64BlobIdClosedInterval)
      → Outcome (Map P (List U64BlobIdClosedInterval))
  unfolding missing_runs max_entry get insert add64
  delays_from transactions self_offsets [] result = ok result
  delays_from transactions self_offsets ((range, nodes) ∷ rest) result = do
    result' ← elim (max_entry nodes) [
      | none ↦ ok result
      | some (peer_id, right_border) ↦
          delay_from transactions range result peer_id right_border
            (left_border_of (get self_offsets range) right_border)
    ]
    delays_from transactions self_offsets rest result'

  unfoldable pub self_delays :
      Map ℕ (Transaction V)
      → Map ℕ ℕ
      → Map ℕ (Map P ℕ)
      → Outcome (Map P (List U64BlobIdClosedInterval))
  unfolding delays_from
  self_delays transactions self_offsets offsets = delays_from transactions self_offsets offsets []
