-- ===== src/RangeKey/Blobs.antt =====
-- types/src/range_key.rs: ids against their range and offset.
use maroon.Prelude.{ℕ, ◌+◌, ◌-◌, ◌*◌, ◌^◌, ◌≤◌, ◌<◌, ◌≡◌, arith, ok, panic}
use maroon.RangeKey.{
  U64BlobIdClosedInterval, single_blob_size, max_block_index, unique_blob_id_from_range_and_offset,
  range_from_unique_blob_id, range_offset_from_unique_blob_id, full_interval_for_range, ids_count,
}

-- In a range that the guard admits, an id is the sum of its block and its offset: nothing wraps.
pub unique_blob_id_lem :
    (range offset : ℕ)
    → range ≤ max_block_index
    → offset < single_blob_size
    → unique_blob_id_from_range_and_offset range offset ≡ range * single_blob_size + offset
unfolding unique_blob_id_from_range_and_offset
unique_blob_id_lem range offset h k = omega arith

-- For every range below the last one, splitting the id built from a range and an offset gives both
-- back, whatever the offset within the block.
pub range_offset_unique :
    (range offset : ℕ)
    → range < max_block_index
    → offset < single_blob_size
    → range_offset_from_unique_blob_id (unique_blob_id_from_range_and_offset range offset)
      ≡ ok (range, offset)
unfolding range_offset_from_unique_blob_id
range_offset_unique range offset h k = ground (arith, unique_blob_id_lem range offset)

-- Whenever an id splits into a range and an offset, the two are in bounds and build the id again.
pub unique-range_offset :
    (id range offset : ℕ)
    → range_offset_from_unique_blob_id id ≡ ok (range, offset)
    → (range ≤ max_block_index)
      × (offset < single_blob_size)
      × (unique_blob_id_from_range_and_offset range offset ≡ id)
unfolding range_offset_from_unique_blob_id unique_blob_id_from_range_and_offset
unique-range_offset id range offset h = ground arith

-- In the last range, the guard of `range_from_unique_blob_id` refuses every id but the first, although
-- `full_interval_for_range` gives all of them to that range.
pub last_range_panics :
    (offset : ℕ)
    → 0 < offset
    → offset < single_blob_size
    → (range_from_unique_blob_id (unique_blob_id_from_range_and_offset max_block_index offset)
        ≡ panic)
      × ((i : U64BlobIdClosedInterval) × (full_interval_for_range max_block_index ≡ ok i)
          × (i.left < unique_blob_id_from_range_and_offset max_block_index offset)
          × (unique_blob_id_from_range_and_offset max_block_index offset ≤ i.right))
unfolding range_from_unique_blob_id full_interval_for_range unique_blob_id_from_range_and_offset
last_range_panics offset h k = (
  ground arith,
  (
    record { left = 18446744072635809792; right = 18446744073709551615 },
    ground arith,
    ground arith,
    ground arith,
  ),
)

-- The interval of a range holds exactly the ids of that range, and a block's worth of them.
pub full_interval_lem :
    (range : ℕ)
    → range ≤ max_block_index
    → (i : U64BlobIdClosedInterval) × (full_interval_for_range range ≡ ok i)
      × (i.left ≡ range * single_blob_size)
      × (i.right ≡ range * single_blob_size + (single_blob_size - 1))
      × (ids_count i ≡ ok single_blob_size)
unfolding full_interval_for_range ids_count
full_interval_lem range h = (
  record { left = range * 2 ^ 30; right = range * 2 ^ 30 + (2 ^ 30 - 1) },
  ground arith,
  ground arith,
  ground arith,
  ground arith,
)
