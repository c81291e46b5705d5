-- ===== src/Epoch/Tests.antt =====
-- Witnesses for epoch_coordinator/src/epoch.rs and maroon/src/linearizer.rs: byte strings of one
-- byte stand for the creators, and a sum in two bytes for the digest.
use mathlib.Core.List.Perm
use maroon.Prelude.{
  ℕ, ◌+◌, ◌≡◌, refl, arith, List, [], ◌∷◌, ◌≢◌, ◌⊎◌, Option, none, some, ok, count_if,
}
use maroon.RangeKey.{U64BlobIdClosedInterval}
use maroon.Epoch.{Epoch, LogLineriazer, new_epoch, next, prev_hash, to_le_bytes}
use maroon.Epoch.Chain.{hash_input, next-hash-injective}
use maroon.Epoch.Log.{new_epoch-perm, new_epoch_lem, holds, occurrences}

abbrev total : List ℕ → ℕ
total [] = 0
total (x ∷ xs) = x + total xs

abbrev digest : List ℕ → List ℕ
digest xs = to_le_bytes 2 (total xs)

abbrev one_byte : ℕ → List ℕ
one_byte p = p ∷ []

abbrev from_one_byte : List ℕ → Option ℕ
from_one_byte [] = none
from_one_byte (b ∷ bs) = some b

abbrev some_ids : U64BlobIdClosedInterval
some_ids = record { left = 10; right = 12 }

abbrev more_ids : U64BlobIdClosedInterval
more_ids = record { left = 2; right = 3 }

abbrev first : Epoch ℕ
first = record {
  sequence_number = 0;
  increments = some_ids ∷ more_ids ∷ [];
  creator = 7;
  creation_time = 100;
  hash = 1 ∷ 2 ∷ [];
}

abbrev swapped : Epoch ℕ
swapped = record first { increments = more_ids ∷ some_ids ∷ [] }

abbrev log : LogLineriazer
log = record { sequence = 5 ∷ [] }

same_hash :
    (next digest one_byte 7 (some_ids ∷ []) (some first) 1).hash
    ≡ (next digest one_byte 7 (some_ids ∷ []) (some swapped) 2).hash
unfolding next
same_hash = refl

read_back : (p : ℕ) → from_one_byte (one_byte p) ≡ some p
read_back p = refl

next-hash-injective_example :
    ((first.creator ≡ swapped.creator)
      × (some_ids ∷ [] ≡ some_ids ∷ [])
      × (prev_hash (some first) ≡ prev_hash (some swapped)))
    ⊎ ((hash_input digest one_byte (some first) (some_ids ∷ []) 7
          ≢ hash_input digest one_byte (some swapped) (some_ids ∷ []) 7)
        × (digest (hash_input digest one_byte (some first) (some_ids ∷ []) 7)
            ≡ digest (hash_input digest one_byte (some swapped) (some_ids ∷ []) 7)))
next-hash-injective_example =
    next-hash-injective digest one_byte from_one_byte read_back 7 7 (some_ids ∷ []) (some_ids ∷ [])
      (some first) (some swapped) 1 2 refl ((omega arith, omega arith), tt)
      ((omega arith, omega arith), tt) refl same_hash

new_epoch-perm_example : new_epoch log first ≡ new_epoch log swapped
new_epoch-perm_example = new_epoch-perm log first swapped (Perm.swap _ _ [])

new_epoch_lem_example :
    (ids : List ℕ) × (new_epoch log first ≡ ok (record { sequence = 5 ∷ ids }))
    × ((id : ℕ) → occurrences id ids ≡ count_if (holds id) (some_ids ∷ more_ids ∷ []))
new_epoch_lem_example =
    new_epoch_lem log first ((omega arith, omega arith), ((omega arith, omega arith), tt))
