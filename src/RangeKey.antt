-- ===== src/RangeKey.antt =====
-- types/src/range_key.rs: transaction ids, the key ranges that they fall into, and closed intervals
-- of ids. A u64 sum, difference or product wraps, as in the released build.
pub mod Blobs
pub mod Intervals
mod Tests
use maroon.Prelude.{
  ℕ, zero, suc, ◌+◌, ◌-◌, ◌*◌, ◌/◌, ◌%◌, ◌^◌, List, [], ◌∷◌, Outcome, ok, panic, hang, ◌>>=◌, ltb,
  leb, ◌==◌, if◌then◌else◌,
}

abbrev pub u64_mod : ℕ
u64_mod = 2 ^ 64

abbrev pub KeyRange : Type 0
KeyRange = ℕ

abbrev pub KeyOffset : Type 0
KeyOffset = ℕ

abbrev pub UniqueU64BlobId : Type 0
UniqueU64BlobId = ℕ

pub record U64BlobIdClosedInterval : Type 0 where
  pub left : UniqueU64BlobId
  pub right : UniqueU64BlobId

-- Two u64 values added.
unfoldable pub add64 : ℕ → ℕ → ℕ
add64 a b = (a + b) % u64_mod

-- One u64 value taken from another.
unfoldable pub sub64 : ℕ → ℕ → ℕ
sub64 a b = (a + u64_mod - b) % u64_mod

-- `U64BlobIdClosedInterval::new`
unfoldable pub new : UniqueU64BlobId → UniqueU64BlobId → Outcome U64BlobIdClosedInterval
new left right = if ltb right left then panic else ok (record { left = left; right = right })

abbrev pub single_blob_size : ℕ
single_blob_size = 2 ^ 30

abbrev pub max_block_index : ℕ
max_block_index = 2 ^ 34 - 1

unfoldable pub unique_blob_id_from_range_and_offset : KeyRange → KeyOffset → UniqueU64BlobId
unfolding add64
unique_blob_id_from_range_and_offset range offset =
    add64 ((range * single_blob_size) % u64_mod) offset

unfoldable pub new_from_range_and_offsets :
    KeyRange → KeyOffset → KeyOffset → Outcome U64BlobIdClosedInterval
unfolding new unique_blob_id_from_range_and_offset
new_from_range_and_offsets range left right =
    new (unique_blob_id_from_range_and_offset range left)
      (unique_blob_id_from_range_and_offset range right)

unfoldable pub ids_count : U64BlobIdClosedInterval → Outcome ℕ
unfolding sub64
ids_count i =
    let diff = sub64 i.right i.left in if diff + 1 == u64_mod then panic else ok (diff + 1)

-- What a loop over `iter` sees from the counter `current` on, if it ends within `fuel` calls of
-- `next`. With the last u64 value in the interval, the counter wraps, and the loop never ends.
unfoldable pub iter_from : ℕ → UniqueU64BlobId → UniqueU64BlobId → Outcome (List UniqueU64BlobId)
unfolding add64
iter_from zero right current = hang
iter_from (suc fuel) right current =
    let later = iter_from fuel right (add64 current 1) in
    let more = (do rest ← later; ok (current ∷ rest)) in if leb current right then more else ok []

unfoldable pub iter : U64BlobIdClosedInterval → Outcome (List UniqueU64BlobId)
unfolding iter_from
iter i = iter_from (i.right + 2 - i.left) i.right i.left

unfoldable pub full_interval_for_range : KeyRange → Outcome U64BlobIdClosedInterval
unfolding new add64 sub64
full_interval_for_range range =
    if ltb max_block_index range
    then panic
    else (let start = (range * single_blob_size) % u64_mod in
        new start (sub64 (add64 start single_blob_size) 1))

unfoldable pub range_from_unique_blob_id : UniqueU64BlobId → Outcome KeyRange
range_from_unique_blob_id global_key =
    if ltb (max_block_index * single_blob_size) global_key
    then panic
    else ok (global_key / single_blob_size)

unfoldable pub range_offset_from_unique_blob_id : UniqueU64BlobId → Outcome (KeyRange × KeyOffset)
unfolding range_from_unique_blob_id
range_offset_from_unique_blob_id global_key = do
  range ← range_from_unique_blob_id global_key
  let offset = global_key % single_blob_size
  ok (range, offset)
