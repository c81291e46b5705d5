-- ===== src/App/Offsets/Contiguous.antt =====
-- maroon/src/app/app.rs: `update_self_offsets`. What a node says that it has, it has.
use maroon.Prelude.{
  ℕ, zero, suc, ◌+◌, ◌*◌, ◌/◌, ◌%◌, ◌<◌, ◌≤◌, ◌≡◌, refl, arith, List, [], ◌∷◌, ◌++◌, Option, none,
  some, Bool, true, false, ok, leb, ltb, ◌==◌, if◌then◌else◌, inl, inr, Bool-cases, All, count_if,
  length, count_if-le-length,
}
use maroon.Prelude.Maps.{
  Map, nat_eq, get, insert, get-insert, contains_key, contains_key-insert, AllEntries,
}
use maroon.RangeKey.{single_blob_size, max_block_index, add64, range_offset_from_unique_blob_id}
use maroon.RangeKey.Blobs.{unique_blob_id_lem}
use maroon.Protocol.{Transaction}
use maroon.App.Offsets.{last_contiguous, store_txs, move_self_offset, update_range, Updated}

module _ {V : Type 0} where
  -- The entries with keys above `key`.
  above : ℕ → Map ℕ (Transaction V) → ℕ
  above key = count_if (λ kv. ltb key kv.0)

  above_mono : (key : ℕ) (m : Map ℕ (Transaction V)) → above (key + 1) m ≤ above key m
  unfolding above
  above_mono key [] = omega arith
  above_mono key (x ∷ m) = ground (arith, above_mono key m)

  above-lt :
      (key : ℕ) (m : Map ℕ (Transaction V))
      → contains_key m (key + 1) ≡ true
      → above (key + 1) m < above key m
  unfolding above contains_key
  above-lt key [] h = cc
  above-lt key (x ∷ m) h = ground (arith, above-lt key m, above_mono key m)

  above-le-length : (key : ℕ) (m : Map ℕ (Transaction V)) → above key m ≤ length m
  unfolding above
  above-le-length key m = count_if-le-length (λ kv. ltb key kv.0) m

  -- Every transaction's id can be split into a range and an offset.
  abbrev pub AreAdmitted : Map ℕ (Transaction V) → Type 0
  AreAdmitted m = (id : ℕ) → contains_key m id ≡ true → id ≤ max_block_index * single_blob_size

  -- With more fuel than there are transactions above the key, the loop ends at the last id of the
  -- run of ids that begins at the key.
  last_contiguous_lem :
      (fuel key : ℕ) (m : Map ℕ (Transaction V))
      → AreAdmitted m
      → key ≤ max_block_index * single_blob_size
      → above key m < fuel
      → (last : ℕ) × (last_contiguous fuel m key ≡ ok last)
        × (key ≤ last)
        × ((id : ℕ) → key < id → id ≤ last → contains_key m id ≡ true)
        × (last ≤ max_block_index * single_blob_size)
        × (contains_key m (last + 1) ≡ false)
  unfolding last_contiguous add64
  last_contiguous_lem zero key m ids h k = absurd (omega arith)
  last_contiguous_lem (suc fuel) key m ids h k = elim (Bool-cases (contains_key m (key + 1))) [
    | inl there ↦
        let (last, run, up, all, bound, gap) =
          last_contiguous_lem fuel (key + 1) m ids (ids (key + 1) there)
            (omega (arith, above-lt key m there)) in
        (
          last,
          ground arith,
          omega arith,
          λ id low high. elim (Bool-cases (id == key + 1)) [
            | inl same ↦ ground arith
            | inr other ↦ all id (ground arith) high
          ],
          bound,
          gap,
        )
    | inr gone ↦ (key, ground arith, omega arith, λ id low high. absurd (omega arith), h, gone)
  ]

  -- What the node says of each range, up to the offset it has, is there.
  abbrev pub HasPrefixes : Map ℕ ℕ → Map ℕ (Transaction V) → Type 0
  HasPrefixes self_offsets m =
      (range offset : ℕ)
      → get self_offsets range ≡ some offset
      → (range ≤ max_block_index)
        × (offset < single_blob_size)
        × ((k : ℕ) → k ≤ offset → contains_key m (range * single_blob_size + k) ≡ true)

  -- `m` holds all that `m'` holds.
  abbrev pub Grows : Map ℕ (Transaction V) → Map ℕ (Transaction V) → Type 0
  Grows m m' = (id : ℕ) → contains_key m id ≡ true → contains_key m' id ≡ true

  -- A transaction that a range's bucket may hold.
  abbrev pub IsOf : ℕ → Transaction V → Type 0
  IsOf range tx =
      (tx.meta.id ≤ max_block_index * single_blob_size) × (tx.meta.id / single_blob_size ≡ range)

  pub store_txs_lem :
      (txs : List (Transaction V)) (range : ℕ) (m : Map ℕ (Transaction V)) (has_0_tx : Bool)
      → All (IsOf range) txs
      → AreAdmitted m
      → (has_0_tx ≡ true → contains_key m (range * single_blob_size) ≡ true)
      → (m' : Map ℕ (Transaction V)) × (has : Bool) × (store_txs txs m has_0_tx ≡ ok (m', has))
        × AreAdmitted m'
        × Grows m m'
        × All (λ tx. contains_key m' tx.meta.id ≡ true) txs
        × (has ≡ true → contains_key m' (range * single_blob_size) ≡ true)
  unfolding store_txs range_offset_from_unique_blob_id
  store_txs_lem [] range m has_0_tx all ids first = (m, has_0_tx, refl, ids, (λ id h. h), tt, first)
  store_txs_lem (tx ∷ txs) range m has_0_tx all ids first =
      let offset : ℕ = tx.meta.id % single_blob_size in
      let m₁ : Map ℕ (Transaction V) = insert m tx.meta.id tx in
      let has₁ : Bool = if offset == 0 then true else has_0_tx in
      let there = λ (id : ℕ). contains_key-insert m tx.meta.id id tx in
      let (m', has, run, ids', grows, stored, first') =
        store_txs_lem txs range m₁ has₁ all.1 (λ id h. ground (arith, there id, ids id))
          (λ h. ground (arith, there (range * single_blob_size), first)) in
      (
        m',
        has,
        ground arith,
        ids',
        (λ id h. grows id (ground (arith, there id))),
        (grows tx.meta.id (ground (arith, there tx.meta.id)), stored),
        first',
      )

  -- What `update_self_offsets` keeps of the two maps.
  abbrev pub IsUpdated : Map ℕ (Transaction V) → Updated V → Type 0
  IsUpdated m u =
      HasPrefixes u.self_offsets u.transactions
      × AreAdmitted u.transactions
      × Grows m u.transactions

  prefix_of_run :
      (range start last k : ℕ) (m : Map ℕ (Transaction V))
      → ((j : ℕ) → j ≤ start → contains_key m (range * single_blob_size + j) ≡ true)
      → ((id : ℕ) → range * single_blob_size + start < id → id ≤ last → contains_key m id ≡ true)
      → range * single_blob_size + start ≤ last
      → start < single_blob_size
      → k ≤ last % single_blob_size
      → contains_key m (range * single_blob_size + k) ≡ true
  prefix_of_run range start last k m before run up h low = elim (Bool-cases (leb k start)) [
    | inl old ↦ before k (ground arith)
    | inr fresh ↦ run (range * single_blob_size + k) (ground arith) (omega arith)
  ]

  HasPrefixes-insert :
      (self_offsets : Map ℕ ℕ) (m : Map ℕ (Transaction V)) (range offset : ℕ)
      → HasPrefixes self_offsets m
      → range ≤ max_block_index
      → offset < single_blob_size
      → ((k : ℕ) → k ≤ offset → contains_key m (range * single_blob_size + k) ≡ true)
      → HasPrefixes (insert self_offsets range offset) m
  HasPrefixes-insert self_offsets m range offset prefixes h k all r o e =
      let at = get-insert self_offsets range r offset in
      elim (Bool-cases (range == r)) [
        | inl same ↦
            let r_is : range ≡ r = ground arith in
            let o_is : offset ≡ o = ground arith in
            (omega arith, omega arith, λ j low. rw (← r_is) (all j (omega arith)))
        | inr other ↦ prefixes r o (ground arith)
      ]

  move_self_offset_lem :
      (self_offsets : Map ℕ ℕ) (m : Map ℕ (Transaction V)) (updates : List (ℕ × ℕ))
      (range start : ℕ)
      → HasPrefixes self_offsets m
      → AreAdmitted m
      → range ≤ max_block_index
      → start < single_blob_size
      → ((k : ℕ) → k ≤ start → contains_key m (range * single_blob_size + k) ≡ true)
      → (u : Updated V) × (move_self_offset self_offsets m updates range start ≡ ok u)
        × HasPrefixes u.self_offsets u.transactions
        × (u.transactions ≡ m)
  unfolding move_self_offset range_offset_from_unique_blob_id
  move_self_offset_lem self_offsets m updates range start prefixes ids h k before =
      let key : ℕ = range * single_blob_size + start in
      let (last, run, up, run', bound, gap) =
        last_contiguous_lem (suc (length m)) key m ids (ids key (before start (omega arith)))
          (omega (arith, above-le-length key m)) in
      (
        record {
          self_offsets = insert self_offsets range (last % single_blob_size);
          transactions = m;
          updates = updates ++ (range, last % single_blob_size) ∷ [];
        },
        rw (unique_blob_id_lem range start h k) (rw run (ground arith)),
        HasPrefixes-insert self_offsets m range (last % single_blob_size) prefixes h (omega arith)
            (λ j low. prefix_of_run range start last j m before run' up k low),
        refl,
      )

  origin_prefix :
      (range : ℕ) (m : Map ℕ (Transaction V))
      → contains_key m (range * single_blob_size) ≡ true
      → (k : ℕ) → k ≤ 0
      → contains_key m (range * single_blob_size + k) ≡ true
  origin_prefix range m there k low = ground arith

  pub update_range_lem :
      (self_offsets : Map ℕ ℕ) (m : Map ℕ (Transaction V)) (updates : List (ℕ × ℕ)) (range : ℕ)
      (has_0_tx : Bool) (known : Option ℕ)
      → HasPrefixes self_offsets m
      → AreAdmitted m
      → range ≤ max_block_index
      → (has_0_tx ≡ true → contains_key m (range * single_blob_size) ≡ true)
      → get self_offsets range ≡ known
      → (u : Updated V) × (update_range self_offsets m updates range has_0_tx known ≡ ok u)
        × HasPrefixes u.self_offsets u.transactions
        × (u.transactions ≡ m)
  update_range_lem self_offsets m updates range has_0_tx (some start) prefixes ids h first e =
      let (_, k, before) = prefixes range start e in
      move_self_offset_lem self_offsets m updates range start prefixes ids h k before
  update_range_lem self_offsets m updates range true none prefixes ids h first e =
      let origin = origin_prefix range m (first refl) in
      move_self_offset_lem (insert self_offsets range 0) m updates range 0
        (HasPrefixes-insert self_offsets m range 0 prefixes h (omega arith) origin) ids h
        (omega arith) origin
  update_range_lem self_offsets m updates range false none prefixes ids h first e = (
    record { self_offsets = self_offsets; transactions = m; updates = updates },
    refl,
    prefixes,
    refl,
  )

  -- A map of buckets, each with the transactions of its range.
  abbrev pub AreBuckets : Map ℕ (List (Transaction V)) → Type 0
  AreBuckets = AllEntries (λ range txs. (range ≤ max_block_index) × All (IsOf range) txs)

  abbrev pub AllStored : Map ℕ (Transaction V) → Map ℕ (List (Transaction V)) → Type 0
  AllStored m = AllEntries (λ range txs. All (λ tx. contains_key m tx.meta.id ≡ true) txs)
