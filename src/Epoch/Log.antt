-- ===== src/Epoch/Log.antt =====
-- maroon/src/linearizer.rs: the log does not depend on the order of an epoch's increments.
use mathlib.Core.List.{Perm}
use native.Mathlib.Nat.{ℕ_set}
use maroon.Prelude.{
  ℕ, ◌+◌, ◌-◌, ◌<◌, ◌≤◌, ◌≡◌, refl, arith, List, [], ◌∷◌, ◌++◌, ok, All, ltb, count_if, count_up,
  zero, suc, Bool, ◌&&◌, if◌then◌else◌, ◌∙◌, leb, ◌==◌,
}
use maroon.Prelude.Sort.{IsTotalOrder, sort-perm, All-sort, count_if-sort}
use maroon.RangeKey.{U64BlobIdClosedInterval, u64_mod, iter, add64}
use maroon.RangeKey.Intervals.{iter_from-count_up}
use maroon.Epoch.{Epoch, LogLineriazer, interval_le, count_ids, ids_of, new_epoch}

interval-set : IsSet U64BlobIdClosedInterval
interval-set = hlevel ℕ_set

pub interval_le-IsTotalOrder : IsTotalOrder interval_le
unfolding interval_le
interval_le-IsTotalOrder = record {
  total = λ i j. ground arith;
  antisymm = λ i j h k. ground arith;
  trans = λ i j k h l. ground arith;
}

-- Two epochs whose increments are the same in another order extend the log by the same ids in the
-- same order, or both panic, or both never end.
pub new_epoch-perm :
    {P : Type 0} (l : LogLineriazer) (e f : Epoch P)
    → Perm e.increments f.increments
    → new_epoch l e ≡ new_epoch l f
unfolding new_epoch
new_epoch-perm l e f p = rw (sort-perm interval_le interval_le-IsTotalOrder interval-set p)

-- An interval that `new` admits, below the last u64 value.
abbrev pub IsProper : U64BlobIdClosedInterval → Type 0
IsProper i = (i.left ≤ i.right) × (i.right + 1 < u64_mod)

-- Whether an interval holds an id.
abbrev pub holds : ℕ → U64BlobIdClosedInterval → Bool
holds id i = leb i.left id && leb id i.right

-- How often an id stands in a log.
abbrev pub occurrences : ℕ → List ℕ → ℕ
occurrences id = count_if (λ x. x == id)

count_ids-ok :
    (is : List U64BlobIdClosedInterval) → All IsProper is → (n : ℕ) × (count_ids is ≡ ok n)
unfolding count_ids
count_ids-ok [] all = (0, refl)
count_ids-ok (i ∷ is) all =
    let (n, e) = count_ids-ok is all.1 in (add64 (i.right + 1 - i.left) n, rw e (ground arith))

occurrences-append :
    (id : ℕ) (xs ys : List ℕ) → occurrences id (xs ++ ys) ≡ occurrences id xs + occurrences id ys
occurrences-append id [] ys = omega arith
occurrences-append id (x ∷ xs) ys = omega (arith, occurrences-append id xs ys)

occurrences-count_up :
    (id a n : ℕ) → occurrences id (count_up a n) ≡ (if leb a id && ltb id (a + n) then 1 else 0)
occurrences-count_up id a zero = ground arith
occurrences-count_up id a (suc n) = ground (arith, occurrences-count_up id (a + 1) n)

iter-ok :
    (i : U64BlobIdClosedInterval)
    → IsProper i
    → (ids : List ℕ) × (iter i ≡ ok ids)
      × ((id : ℕ) → occurrences id ids ≡ (if holds id i then 1 else 0))
unfolding iter
iter-ok i h =
    let n : ℕ = i.right + 1 - i.left in
    (
      count_up i.left n,
      iter_from-count_up n (i.right + 2 - i.left) i.right i.left (omega arith) h.1 (omega arith),
      λ id. ground (arith, occurrences-count_up id i.left n),
    )

ids_of-ok :
    (is : List U64BlobIdClosedInterval)
    → All IsProper is
    → (ids : List ℕ) × (ids_of is ≡ ok ids)
      × ((id : ℕ) → occurrences id ids ≡ count_if (holds id) is)
unfolding ids_of
ids_of-ok [] all = ([], refl, λ id. refl)
ids_of-ok (i ∷ is) all =
    let (xs, run, ours) = iter-ok i all.0 in
    let (ys, later, theirs) = ids_of-ok is all.1 in
    (
      xs ++ ys,
      rw (run, later) refl,
      λ id. omega (arith, occurrences-append id xs ys, ours id, theirs id),
    )

-- An epoch of proper increments never panics: the log keeps what it held, and after that come its
-- ids, each as often as there are increments that hold it.
pub new_epoch_lem :
    {P : Type 0} (l : LogLineriazer) (e : Epoch P)
    → All IsProper e.increments
    → (ids : List ℕ) × (new_epoch l e ≡ ok (record { sequence = l.sequence ++ ids }))
      × ((id : ℕ) → occurrences id ids ≡ count_if (holds id) e.increments)
unfolding new_epoch
new_epoch_lem l e all =
    let sorted = All-sort IsProper interval_le e.increments all in
    let (n, c) = count_ids-ok _ sorted in
    let (ids, run, occur) = ids_of-ok _ sorted in
    (ids, rw (c, run) refl, λ id. occur id ∙ count_if-sort interval_le (holds id) e.increments)
