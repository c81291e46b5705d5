-- ===== src/RangeKey/Intervals.antt =====
-- types/src/range_key.rs: what a closed interval's iterator yields.
use maroon.Prelude.{
  ℕ, zero, suc, ◌+◌, ◌-◌, ◌<◌, ◌≡◌, arith, ok, List, refl, count_up, length, length-count_up,
}
use maroon.RangeKey.{U64BlobIdClosedInterval, u64_mod, iter_from, new, ids_count}

pub iter_from-count_up :
    (n fuel right current : ℕ)
    → right + 1 ≡ current + n
    → right + 1 < u64_mod
    → n < fuel
    → iter_from fuel right current ≡ ok (count_up current n)
unfolding iter_from
iter_from-count_up zero zero right current e h k = absurd (omega arith)
iter_from-count_up zero (suc fuel) right current e h k = ground arith
iter_from-count_up (suc n) zero right current e h k = absurd (omega arith)
iter_from-count_up (suc n) (suc fuel) right current e h k =
    ground (arith, iter_from-count_up n fuel right (current + 1))

-- From an interval that `new` admits, below the last u64 value, a loop over the iterator ends once
-- `next` was called for each id and one more time, and it sees the ids from the start to the end in
-- order; their number is what `ids_count` says.
pub iter-new :
    (left right fuel : ℕ) (i : U64BlobIdClosedInterval)
    → new left right ≡ ok i
    → right + 1 < u64_mod
    → right + 1 - left < fuel
    → (ids : List ℕ) × (iter_from fuel i.right i.left ≡ ok ids)
      × (ids ≡ count_up left (right + 1 - left))
      × (ids_count i ≡ ok (length ids))
unfolding new ids_count
iter-new left right fuel i e h k = (
  count_up left (right + 1 - left),
  ground (arith, iter_from-count_up (right + 1 - left) fuel right left),
  refl,
  ground (arith, length-count_up left (right + 1 - left)),
)
