-- ===== src/App/Offsets/Gaps.antt =====
-- maroon/src/app/app.rs: the intervals that `self_delays` asks for.
use mathlib.Core.List.{append-nil, append_assoc}
use maroon.Prelude.{
  ℕ, zero, suc, ◌+◌, ◌-◌, ◌*◌, ◌<◌, ◌≤◌, ◌≡◌, arith, List, [], ◌∷◌, ◌++◌, Bool, true, false, ◌&&◌,
  not, Outcome, ok, leb, ltb, ◌==◌, if◌then◌else◌, inl, inr, Bool-cases, count_if, ltb→lt,
}
use maroon.Prelude.Maps.{Map, nat_eq, contains_key}
use maroon.RangeKey.{
  U64BlobIdClosedInterval, single_blob_size, max_block_index, add64, sub64,
  new_from_range_and_offsets,
}
use maroon.RangeKey.Blobs.{unique_blob_id_lem}
use maroon.Epoch.Log.{holds}
use maroon.Protocol.{Transaction}
use maroon.App.Offsets.{missing_runs}
use maroon.App.Offsets.Increments.{new_from_range_and_offsets_lem, holds_block}

module _ {V : Type 0} (m : Map ℕ (Transaction V)) (range : ℕ) where
  -- Whether the transaction at an offset of the range is missing.
  abbrev pub is_missing : ℕ → Bool
  is_missing offset = not (contains_key m (range * single_blob_size + offset))

  abbrev pub asked : ℕ → ℕ → ℕ → ℕ → Bool
  asked left right r offset =
      r == range && (leb left offset && (leb offset right && is_missing offset))

  -- What the loop adds from a pointer on: intervals that hold just the missing ids, each once.
  abbrev Adds :
      (left right : ℕ) (acc : List U64BlobIdClosedInterval)
      → Outcome (List U64BlobIdClosedInterval)
      → Type 0
  Adds left right acc result =
      (is : List U64BlobIdClosedInterval) × (result ≡ ok (acc ++ is))
      × ((r offset : ℕ)
          → offset < single_blob_size
          → count_if (holds (r * single_blob_size + offset)) is
            ≡ (if asked left right r offset then 1 else 0))

  abbrev AllMissing : ℕ → ℕ → Type 0
  AllMissing left pointer =
      (offset : ℕ) → left ≤ offset → offset < pointer → is_missing offset ≡ true

  module _ (low : range ≤ max_block_index) (right : ℕ) (fits : right < single_blob_size) where
    -- A run that ends before the pointer, and what is asked for after it.
    close_run :
        (left pointer : ℕ) (is : List U64BlobIdClosedInterval)
        → left < pointer
        → pointer ≤ right + 1
        → AllMissing left pointer
        → ((r offset : ℕ)
            → offset < single_blob_size
            → count_if (holds (r * single_blob_size + offset)) is
              ≡ (if asked pointer right r offset then 1 else 0))
        → (r offset : ℕ) → offset < single_blob_size
        → count_if (holds (r * single_blob_size + offset)) (
            record {
              left = range * single_blob_size + left;
              right = range * single_blob_size + (pointer - 1);
            }
            ∷ is)
          ≡ (if asked left right r offset then 1 else 0)
    close_run left pointer is h k gone counts r offset b =
        ground
          (arith, holds_block r offset range left (pointer - 1) b, counts r offset b, gone offset)

    -- A transaction that is there is not asked for.
    skip_there :
        (pointer : ℕ)
        → is_missing pointer ≡ false
        → (r offset : ℕ) → asked (pointer + 1) right r offset ≡ asked pointer right r offset
    skip_there pointer there r offset = elim (Bool-cases (pointer == offset)) [
      | inl same ↦ ground arith
      | inr other ↦ ground arith
    ]

    missing_runs_from :
        (fuel left pointer : ℕ) (acc : List U64BlobIdClosedInterval)
        → left ≤ pointer
        → pointer ≤ right + 1
        → right + 1 < pointer + fuel
        → AllMissing left pointer
        → Adds left right acc (missing_runs fuel m range left pointer right acc)
    unfolding missing_runs add64 sub64
    missing_runs_from zero left pointer acc h k enough gone = absurd (omega arith)
    missing_runs_from (suc fuel) left pointer acc h k enough gone =
        elim (Bool-cases (leb pointer right)) [
          | inr past ↦ elim (Bool-cases (ltb left pointer)) [
            | inl run ↦ (
              interval left pointer ∷ [],
              ground (arith, made run),
              λ r offset b.
                  close_run left pointer [] (ltb→lt _ _ run) k gone (λ r offset b. ground arith) r
                    offset b,
            )
            | inr empty ↦ ([], ground (arith, append-nil acc), λ r offset b. ground arith)
          ]
          | inl inside ↦ elim (Bool-cases (is_missing pointer)) [
            | inr there ↦ elim (Bool-cases (ltb left pointer)) [
              | inl run ↦
                  let (is, e, counts) =
                    missing_runs_from fuel (pointer + 1) (pointer + 1)
                      (acc ++ interval left pointer ∷ []) (omega arith) (ground arith) (omega arith)
                      (λ offset b c. absurd (omega arith)) in
                  (
                    interval left pointer ∷ is,
                    ground (
                      arith,
                      unique_blob_id_lem range pointer low,
                      made run,
                      append_assoc acc (interval left pointer ∷ []) is,
                    ),
                    close_run left pointer is (ltb→lt _ _ run) k gone (λ r offset b.
                        rw (← skip_there pointer there r offset) (counts r offset b)),
                  )
              | inr none_before ↦
                  let (is, e, counts) =
                    missing_runs_from fuel (pointer + 1) (pointer + 1) acc (omega arith)
                      (ground arith) (omega arith) (λ offset b c. absurd (omega arith)) in
                  (
                    is,
                    ground (arith, unique_blob_id_lem range pointer low),
                    λ r offset b.
                        ground (arith, skip_there pointer there r offset, counts r offset b),
                  )
            ]
            | inl away ↦
                let (is, e, counts) =
                  missing_runs_from fuel left (pointer + 1) acc (omega arith) (ground arith)
                    (omega arith)
                    (λ offset b c. elim (Bool-cases (offset == pointer)) [
                      | inl same ↦ ground arith
                      | inr other ↦ gone offset b (ground arith)
                    ]) in
                (is, ground (arith, unique_blob_id_lem range pointer low), counts)
          ]
        ]
      where
        interval : ℕ → ℕ → U64BlobIdClosedInterval
        interval a b = record {
          left = range * single_blob_size + a;
          right = range * single_blob_size + (b - 1);
        }

        made :
            ltb left pointer ≡ true
            → new_from_range_and_offsets range left (pointer - 1) ≡ ok (interval left pointer)
        made run =
            new_from_range_and_offsets_lem range left (pointer - 1) low (ground arith) (omega arith)

    -- The run's loop, started at the left border of a range and with the fuel that `self_delays` gives
    -- it, ends with intervals that hold an id exactly once if it belongs to a missing transaction of
    -- the range between the two borders, and not at all otherwise; `right` stays below a range's size,
    -- `left` is at most one past it, and the range is not past the last.
    pub missing_runs_lem :
        (left r offset : ℕ)
        → left ≤ right + 1
        → offset < single_blob_size
        → (is : List U64BlobIdClosedInterval) × (missing_runs
              (right + 2 - left)
              m
              range
              left
              left
              right
              []
            ≡ ok is)
          × (count_if (holds (r * single_blob_size + offset)) is
              ≡ (if asked left right r offset then 1 else 0))
    missing_runs_lem left r offset h b =
        let (is, e, counts) =
          missing_runs_from (right + 2 - left) left left [] (omega arith) h (omega arith)
            (λ offset b c. absurd (omega arith)) in
        (is, e, counts r offset b)
