-- ===== src/App/Commit.antt =====
-- maroon/src/app/app.rs: what the next epoch holds after an epoch was committed.
use maroon.Prelude.{
  ℕ, ◌+◌, ◌*◌, ◌/◌, ◌<◌, ◌≡◌, ◌⊎◌, refl, arith, List, [], ◌∷◌, Option, some, Bool, true, ok, leb,
  ltb, ◌==◌, ◌∙◌, sym, inl, inr, Bool-cases, All, count_if,
}
use maroon.Prelude.Maps.{
  Map, Eq, nat_eq, get, insert, get-insert, HasDistinctKeys, AllEntries, AllEntries-map,
  AllEntries-found, AllEntries-both,
}
use maroon.Prelude.Sort.{sort, All-sort, count_if-sort}
use maroon.RangeKey.{
  U64BlobIdClosedInterval, single_blob_size, max_block_index, range_offset_from_unique_blob_id,
  add64,
}
use maroon.Epoch.{Epoch, interval_le}
use maroon.App.Offsets.{calculate_epoch_increments, start_of}
use maroon.App.Offsets.Increments.{new_from_range_and_offsets_lem}
use maroon.App.{App, Output, commit_offsets, handle_epoch_coordinator_updates}

-- An offset of a range below the last one.
abbrev pub InOpenBlock : ℕ → ℕ → Type 0
InOpenBlock range offset = (range < max_block_index) × (offset < single_blob_size)

module _ (consensus : Map ℕ ℕ) where
  -- The increment ends where the consensus of its range does.
  abbrev EndsAtConsensus : U64BlobIdClosedInterval → Type 0
  EndsAtConsensus i =
      (range : ℕ) × (offset : ℕ) × (range_offset_from_unique_blob_id i.right ≡ ok (range, offset))
      × (get consensus range ≡ some offset)

  -- Whether the increment ends in the range.
  abbrev ends_in : ℕ → U64BlobIdClosedInterval → Bool
  ends_in range i = (i.right / single_blob_size) == range

  block_of :
      (i : U64BlobIdClosedInterval) (r o : ℕ)
      → range_offset_from_unique_blob_id i.right ≡ ok (r, o)
      → r ≡ i.right / single_blob_size
  unfolding range_offset_from_unique_blob_id
  block_of i r o e = ground arith

  commit_offsets_lem :
      (is : List U64BlobIdClosedInterval) (commited : Map ℕ ℕ)
      → All EndsAtConsensus is
      → (commited' : Map ℕ ℕ) × (commit_offsets is commited ≡ ok commited')
        × ((range : ℕ)
            → ((count_if (ends_in range) is ≡ 0) × (get commited' range ≡ get commited range))
              ⊎ (get commited' range ≡ get consensus range))
  unfolding commit_offsets
  commit_offsets_lem [] commited all = (commited, refl, λ range. inl (refl, refl))
  commit_offsets_lem (i ∷ is) commited ((r, o, split, reached), all) =
      let (commited', run, kept) = commit_offsets_lem is (insert commited r o) all in
      let block = block_of i r o split in
      let now = λ (range : ℕ). get-insert commited r range o in
      (
        commited',
        rw split run,
        λ range. elim (kept range) [ inl (z, same) ↦ ground (arith, now range) | inr at ↦ inr at ],
      )

  split_end :
      (r o : ℕ)
      → InOpenBlock r o
      → range_offset_from_unique_blob_id (r * single_blob_size + o) ≡ ok (r, o)
  unfolding range_offset_from_unique_blob_id
  split_end r o h = ground arith

  -- Each entry that is ahead of the committed offset gives an increment that ends at its consensus.
  increments_end :
      (rest commited : Map ℕ ℕ)
      → AllEntries (λ r o. get consensus r ≡ some o) rest
      → AllEntries InOpenBlock rest
      → (is : List U64BlobIdClosedInterval) × (calculate_epoch_increments rest commited ≡ ok is)
        × All EndsAtConsensus is
        × AllEntries
            (λ r o. leb (start_of (get commited r)) o ≡ true → 0 < count_if (ends_in r) is)
            rest
  unfolding calculate_epoch_increments
  increments_end [] commited found bounds = ([], refl, tt, tt)
  increments_end ((r, o) ∷ rest) commited found bounds =
      let (is, run, ends, ahead) = increments_end rest commited found.1 bounds.1 in
      let start : ℕ = start_of (get commited r) in
      elim (Bool-cases (ltb o start)) [
        | inl behind ↦ (is, rw behind run, ends, (λ h. ground arith, ahead))
        | inr reach ↦
            let i : U64BlobIdClosedInterval = record {
              left = r * single_blob_size + start;
              right = r * single_blob_size + o;
            } in
            let made =
              new_from_range_and_offsets_lem r start o (omega arith) (ground arith) bounds.0.1 in
            (
              i ∷ is,
              rw reach (rw (made, run)),
              ((r, o, split_end r o bounds.0, found.0), ends),
              (λ h. ground arith, AllEntries-map rest (λ k v _ p h. omega (arith, p h)) ahead),
            )
      ]

no_increments :
    (rest commited : Map ℕ ℕ)
    → AllEntries (λ r o. o < start_of (get commited r)) rest
    → calculate_epoch_increments rest commited ≡ ok []
unfolding calculate_epoch_increments
no_increments [] commited all = refl
no_increments ((r, o) ∷ rest) commited all =
    ground (arith, no_increments rest commited all.1, all.0)

pass_consensus :
    (o : ℕ) (before after : Option ℕ) (n : ℕ)
    → o < single_blob_size
    → (leb (start_of before) o ≡ true → 0 < n)
    → ((n ≡ 0) × (after ≡ before)) ⊎ (after ≡ some o)
    → o < start_of after
unfolding add64
pass_consensus o before after n bound ahead (inl (z, same)) = rw same (ground arith)
pass_consensus o before after n bound ahead (inr at) = rw at (ground arith)

ok_injective {ℓ} : {A : Type ℓ} {a b : A} → ok a ≡ ok b → a ≡ b
ok_injective e = cc

increments_after_commit :
    (consensus commited commited' : Map ℕ ℕ) (is : List U64BlobIdClosedInterval)
    → HasDistinctKeys consensus
    → AllEntries InOpenBlock consensus
    → calculate_epoch_increments consensus commited ≡ ok is
    → commit_offsets (sort interval_le is) commited ≡ ok commited'
    → calculate_epoch_increments consensus commited' ≡ ok []
increments_after_commit consensus commited commited' is d bounds made run =
    let found = AllEntries-found consensus d in
    let (js, made', ends, ahead) = increments_end consensus consensus commited found bounds in
    let same : js ≡ is = ground arith in
    let (result, run', kept) =
      commit_offsets_lem consensus (sort interval_le js) commited
        (All-sort (EndsAtConsensus consensus) interval_le js ends) in
    let result_is : result ≡ commited' = ok_injective (sym run' ∙ rw same run) in
    let count = λ (r : ℕ). count_if-sort interval_le (ends_in consensus r) js in
    let entries =
      AllEntries-both (λ r o. get consensus r ≡ some o) _ consensus found
        (AllEntries-both InOpenBlock
          (λ r o. leb (start_of (get commited r)) o ≡ true → 0 < count_if (ends_in consensus r) js)
          consensus bounds ahead) in
    rw (← result_is) (
      no_increments consensus result (
        AllEntries-map consensus
          (λ r o _ p.
            pass_consensus o (get commited r) (get result r)
              (count_if (ends_in consensus r) (sort interval_le js)) p.1.0.1
              (λ h. omega (arith, p.1.1 h, count r))
              (elim (kept r) [ inl same ↦ inl same | inr at ↦ inr (at ∙ p.0) ]))
          entries))

handle_commits :
    {P V : Type 0} ⦃e : Eq P⦄ (app app' : App P V) (sent : List (Output P V)) (epoch : Epoch P)
    → handle_epoch_coordinator_updates app epoch ≡ ok (app', sent)
    → (commit_offsets (sort interval_le epoch.increments) app.commited_offsets
        ≡ ok app'.commited_offsets)
      × (app'.consensus_offset ≡ app.consensus_offset)
unfolding handle_epoch_coordinator_updates
handle_commits app app' sent epoch run = ground arith

-- Where the offsets of the consensus stand in ranges below the last one: after a node has handled
-- the epoch that holds the increments it would propose now, the same consensus gives no increments.
-- So no id is proposed again until the consensus moves.
pub next_increments_empty :
    {P V : Type 0} ⦃e : Eq P⦄ (app app' : App P V) (sent : List (Output P V)) (epoch : Epoch P)
    → HasDistinctKeys app.consensus_offset
    → AllEntries InOpenBlock app.consensus_offset
    → calculate_epoch_increments app.consensus_offset app.commited_offsets ≡ ok epoch.increments
    → handle_epoch_coordinator_updates app epoch ≡ ok (app', sent)
    → calculate_epoch_increments app'.consensus_offset app'.commited_offsets ≡ ok []
next_increments_empty app app' sent epoch d bounds made run =
    let parts = handle_commits app app' sent epoch run in
    rw parts.1 (
      increments_after_commit app.consensus_offset app.commited_offsets app'.commited_offsets
        epoch.increments d bounds made parts.0)
