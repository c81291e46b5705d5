-- ===== src/Epoch.antt =====
-- epoch_coordinator/src/epoch.rs and maroon/src/linearizer.rs: the chain of epochs, and the log of
-- transaction ids that the epochs give. `P` is libp2p's `PeerId`; `sha256` and `to_bytes` are what
-- the crates sha2 and libp2p compute.
pub mod Chain
pub mod Log
mod Tests
use maroon.Prelude.{
  ℕ, zero, suc, ◌+◌, ◌/◌, ◌%◌, ◌^◌, List, [], ◌∷◌, ◌++◌, Bool, ◌&&◌, ◌||◌, Option, none, some,
  Outcome, ok, ◌>>=◌, ltb, leb, ◌==◌,
}
use maroon.Prelude.Sort.{sort}
use maroon.RangeKey.{U64BlobIdClosedInterval, add64, ids_count, iter}

pub record Epoch (P : Type 0) : Type 0 where
  pub sequence_number : ℕ
  pub increments : List U64BlobIdClosedInterval
  pub creator : P
  pub creation_time : ℕ
  pub hash : List ℕ

-- The `n` low bytes, lowest first: `u64::to_le_bytes` at 8.
unfoldable pub to_le_bytes : ℕ → ℕ → List ℕ
to_le_bytes zero x = []
to_le_bytes (suc n) x = (x % 256) ∷ to_le_bytes n (x / 256)

unfoldable pub increments_bytes : List U64BlobIdClosedInterval → List ℕ
unfolding to_le_bytes
increments_bytes [] = []
increments_bytes (i ∷ is) = to_le_bytes 8 i.left ++ (to_le_bytes 8 i.right ++ increments_bytes is)

abbrev pub prev_hash : {P : Type 0} → Option (Epoch P) → List ℕ
prev_hash none = []
prev_hash (some prev) = prev.hash

module _ {P : Type 0} (sha256 : List ℕ → List ℕ) (to_bytes : P → List ℕ) where
  next_number : Option (Epoch P) → ℕ
  next_number none = 0
  next_number (some prev) = add64 prev.sequence_number 1

  -- `Epoch::next`
  unfoldable pub next : P → List U64BlobIdClosedInterval → Option (Epoch P) → ℕ → Epoch P
  unfolding next_number add64
  next creator increments prev_epoch time_tick = record {
    sequence_number = next_number prev_epoch;
    increments = increments;
    creator = creator;
    creation_time = time_tick;
    hash = sha256 (prev_hash prev_epoch ++ (increments_bytes increments ++ to_bytes creator));
  }

-- The derived order of intervals: by start, then by end.
unfoldable pub interval_le : U64BlobIdClosedInterval → U64BlobIdClosedInterval → Bool
interval_le i j = ltb i.left j.left || (i.left == j.left && leb i.right j.right)

-- `iter().map(|i| i.ids_count()).sum()`
unfoldable pub count_ids : List U64BlobIdClosedInterval → Outcome ℕ
unfolding ids_count
count_ids [] = ok 0
count_ids (i ∷ is) = do n ← ids_count i; m ← count_ids is; ok (add64 n m)

-- The ids of all the intervals, in the order of the list.
unfoldable pub ids_of : List U64BlobIdClosedInterval → Outcome (List ℕ)
unfolding iter
ids_of [] = ok []
ids_of (i ∷ is) = do ids ← iter i; later ← ids_of is; ok (ids ++ later)

pub record LogLineriazer : Type 0 where
  pub sequence : List ℕ

-- `Linearizer::new_epoch`
unfoldable pub new_epoch : {P : Type 0} → LogLineriazer → Epoch P → Outcome LogLineriazer
unfolding sort interval_le count_ids ids_of
new_epoch l epoch = do
  let increments = sort interval_le epoch.increments
  _ ← count_ids increments
  ids ← ids_of increments
  ok (record { sequence = l.sequence ++ ids })

-- A log's epochs, one after the other.
unfoldable pub new_epochs : {P : Type 0} → LogLineriazer → List (Epoch P) → Outcome LogLineriazer
unfolding new_epoch
new_epochs l [] = ok l
new_epochs l (e ∷ es) = do l' ← new_epoch l e; new_epochs l' es
