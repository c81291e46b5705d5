-- ===== src/App/Offsets/Increments.antt =====
-- maroon/src/app/app.rs: `calculate_epoch_increments` against the offsets that are not committed.
use maroon.Prelude.{
  ℕ, ◌+◌, ◌*◌, ◌<◌, ◌≤◌, ◌≡◌, refl, arith, List, [], ◌∷◌, Bool, ◌&&◌, not, Option, none, some, inl,
  inr, ltb, leb, ◌==◌, if◌then◌else◌, false, count_if, ok, Bool-cases, Option-cases, ◌^◌,
}
use maroon.Prelude.Maps.{Map, nat_eq, get, HasDistinctKeys, AllEntries, AllEntries-get, get-none}
use maroon.RangeKey.{
  U64BlobIdClosedInterval, single_blob_size, max_block_index, new_from_range_and_offsets, add64,
}
use maroon.RangeKey.Blobs.{unique_blob_id_lem}
use maroon.Epoch.Log.{holds}
use maroon.App.Offsets.{calculate_epoch_increments, start_of}

-- An offset of a range that the ids leave room for.
abbrev pub InBlock : ℕ → ℕ → Type 0
InBlock range offset = (range ≤ max_block_index) × (offset < single_blob_size)

pub new_from_range_and_offsets_lem :
    (range a b : ℕ)
    → range ≤ max_block_index
    → a ≤ b
    → b < single_blob_size
    → new_from_range_and_offsets range a b
      ≡ ok (record { left = range * single_blob_size + a; right = range * single_blob_size + b })
unfolding new_from_range_and_offsets
new_from_range_and_offsets_lem range a b h k l =
    ground (arith, unique_blob_id_lem range a, unique_blob_id_lem range b)

abbrev pub reached : Option ℕ → ℕ → Bool
reached none offset = false
reached (some last) offset = leb offset last

-- Whether the consensus reaches an offset of a range that is not committed yet.
abbrev pub is_pending : Map ℕ ℕ → Map ℕ ℕ → ℕ → ℕ → Bool
is_pending consensus commited range offset =
    reached (get consensus range) offset && not (reached (get commited range) offset)

start_of-reached :
    (commited : Map ℕ ℕ) (range offset : ℕ)
    → AllEntries InBlock commited
    → leb (start_of (get commited range)) offset ≡ not (reached (get commited range) offset)
unfolding add64
start_of-reached commited range offset all = elim (Option-cases (get commited range)) [
  | inl e ↦ rw e (ground arith)
  | inr (last, e) ↦
      let bound = AllEntries-get InBlock commited range last all e in rw e (ground arith)
]

-- An interval within one block holds an id exactly if the range and the offset fit.
pub holds_block :
    (range offset r a b : ℕ)
    → offset < single_blob_size
    → b < single_blob_size
    → holds
        (range * single_blob_size + offset)
        (record { left = r * single_blob_size + a; right = r * single_blob_size + b })
      ≡ (range == r && (leb a offset && leb offset b))
holds_block range offset r a b h k = ground arith

increments_from :
    (consensus commited : Map ℕ ℕ)
    → HasDistinctKeys consensus
    → AllEntries InBlock consensus
    → AllEntries InBlock commited
    → (is : List U64BlobIdClosedInterval) × (calculate_epoch_increments consensus commited ≡ ok is)
      × ((range offset : ℕ)
          → InBlock range offset
          → count_if (holds (range * single_blob_size + offset)) is
            ≡ (if is_pending consensus commited range offset then 1 else 0))
unfolding calculate_epoch_increments get
increments_from [] commited d hc hm = ([], refl, λ range offset h. refl)
increments_from ((r, o) ∷ rest) commited d hc hm =
    let (is, e, counts) = increments_from rest commited d.1 hc.1 hm in
    elim (Bool-cases (ltb o (start_of (get commited r)))) [
      | inl behind ↦ (
        is,
        rw behind e,
        λ range offset h. ground (
          arith,
          counts range offset h,
          start_of-reached commited range offset hm,
          get-none rest range,
        ),
      )
      | inr ahead ↦ (
        record { left = r * 2 ^ 30 + start_of (get commited r); right = r * 2 ^ 30 + o } ∷ is,
        rw ahead (
            rw (
              new_from_range_and_offsets_lem r (start_of (get commited r)) o hc.0.0 (ground arith)
                  hc.0.1,
              e,
            )),
        λ range offset h. ground (
          arith,
          counts range offset h,
          holds_block range offset r (start_of (get commited r)) o h.1 hc.0.1,
          start_of-reached commited range offset hm,
          get-none rest range,
          d.0,
        ),
      )
    ]

-- For offsets within the blocks, the computation never panics, and of every id with its range and
-- offset within the blocks there is exactly one increment that holds it if the consensus reaches
-- the offset and the committed offset does not, and none otherwise.
pub calculate_epoch_increments_lem :
    (consensus commited : Map ℕ ℕ) (range offset : ℕ)
    → HasDistinctKeys consensus
    → AllEntries InBlock consensus
    → AllEntries InBlock commited
    → InBlock range offset
    → (is : List U64BlobIdClosedInterval) × (calculate_epoch_increments consensus commited ≡ ok is)
      × (count_if (holds (range * single_blob_size + offset)) is
          ≡ (if is_pending consensus commited range offset then 1 else 0))
calculate_epoch_increments_lem consensus commited range offset d hc hm h =
    let (is, e, counts) = increments_from consensus commited d hc hm in
    (is, e, counts range offset h)
