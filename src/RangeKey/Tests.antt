-- ===== src/RangeKey/Tests.antt =====
-- Witnesses for types/src/range_key.rs.
use maroon.Prelude.{List, ℕ, ◌≡◌, refl, arith, ok, count_up, length}
use maroon.RangeKey.{
  unique_blob_id_from_range_and_offset, range_from_unique_blob_id, range_offset_from_unique_blob_id,
  ids_count, iter_from, new,
}
use maroon.RangeKey.Blobs.{range_offset_unique}
use maroon.RangeKey.Intervals.{iter-new}

range_offset_unique_example :
    range_offset_from_unique_blob_id (unique_blob_id_from_range_and_offset 7 123) ≡ ok (7, 123)
range_offset_unique_example = range_offset_unique 7 123 (omega arith) (omega arith)

split_id : range_offset_from_unique_blob_id 7516192891 ≡ ok (7, 123)
unfolding range_offset_from_unique_blob_id range_from_unique_blob_id
split_id = refl

interval_made : new 10 12 ≡ ok (record { left = 10; right = 12 })
unfolding new
interval_made = refl

iter-new_example :
    (ids : List ℕ) × (iter_from 4 12 10 ≡ ok ids)
    × (ids ≡ count_up 10 3)
    × (ids_count (record { left = 10; right = 12 }) ≡ ok (length ids))
iter-new_example =
    iter-new 10 12 4 (record { left = 10; right = 12 }) interval_made (omega arith) (omega arith)
