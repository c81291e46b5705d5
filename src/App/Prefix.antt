-- ===== src/App/Prefix.antt =====
-- maroon/src/app/app.rs: transactions on their way through the buckets into a node's maps.
use maroon.Prelude.{
  ℕ, ◌*◌, ◌/◌, ◌≤◌, ◌≡◌, refl, arith, List, [], ◌∷◌, ◌++◌, Option, none, some, true, false, ok, ◌∙◌,
  sym, All, bind-eq-ok,
}
use maroon.Prelude.Maps.{
  Map, nat_eq, get, contains_key, AllEntries-insert, AllEntries-get, AllEntries-of-insert,
}
use maroon.RangeKey.{single_blob_size, max_block_index, range_from_unique_blob_id}
use maroon.Protocol.{Transaction}
use maroon.App.Offsets.{
  Updated, update_ranges, update_self_offsets, bucket_txs, push_bucket, txs_to_range_tx_map,
}
use maroon.App.Offsets.Contiguous.{
  AreAdmitted, HasPrefixes, Grows, IsOf, IsUpdated, AreBuckets, AllStored, store_txs_lem,
  update_range_lem,
}

some-eq {ℓ} : {A : Type ℓ} {a b : A} → some a ≡ some b → a ≡ b
some-eq e = cc

module _ {V : Type 0} where
  All-Grows :
      (m m' : Map ℕ (Transaction V)) (txs : List (Transaction V))
      → Grows m m'
      → All (λ tx. contains_key m tx.meta.id ≡ true) txs
      → All (λ tx. contains_key m' tx.meta.id ≡ true) txs
  All-Grows m m' [] grows all = tt
  All-Grows m m' (tx ∷ txs) grows all = (grows tx.meta.id all.0, All-Grows m m' txs grows all.1)

  update_ranges_lem :
      (buckets : Map ℕ (List (Transaction V))) (self_offsets : Map ℕ ℕ) (m : Map ℕ (Transaction V))
      (updates : List (ℕ × ℕ))
      → AreBuckets buckets
      → HasPrefixes self_offsets m
      → AreAdmitted m
      → (u : Updated V) × (update_ranges buckets self_offsets m updates ≡ ok u)
        × IsUpdated m u
        × AllStored u.transactions buckets
  unfolding update_ranges
  update_ranges_lem [] self_offsets m updates buckets prefixes ids = (
    record { self_offsets = self_offsets; transactions = m; updates = updates },
    refl,
    (prefixes, ids, λ id h. h),
    tt,
  )
  update_ranges_lem ((range, txs) ∷ rest) self_offsets m updates buckets prefixes ids =
      let (m₁, has, stored, ids₁, grows₁, all₁, first) =
        store_txs_lem txs range m false buckets.0.1 ids (λ h. cc) in
      let kept : HasPrefixes self_offsets m₁ = λ r o e.
        (let (low, fits, before) = prefixes r o e in (low, fits, λ k h. grows₁ _ (before k h))) in
      let (u₁, moved, prefixes₁, same) =
        update_range_lem self_offsets m₁ updates range has (get self_offsets range) kept ids₁
          buckets.0.0 first refl in
      let ids₂ : AreAdmitted u₁.transactions = rw same ids₁ in
      let (u, run, (prefixes₂, ids₃, grows₂), all₂) =
        update_ranges_lem rest u₁.self_offsets u₁.transactions u₁.updates buckets.1 prefixes₁
          ids₂ in
      let grows : Grows m₁ u.transactions = rw same at grows₂ in
      (
        u,
        rw (stored, moved) run,
        (prefixes₂, ids₃, λ id h. grows id (grows₁ id h)),
        (All-Grows m₁ u.transactions txs grows all₁, all₂),
      )

  -- A transaction whose id the guard of `range_from_unique_blob_id` lets pass.
  abbrev pub IsAdmitted : Transaction V → Type 0
  IsAdmitted tx = tx.meta.id ≤ max_block_index * single_blob_size

  abbrev IsStored : Map ℕ (Transaction V) → Transaction V → Type 0
  IsStored m tx = contains_key m tx.meta.id ≡ true

  All-snoc :
      (P : Transaction V → Type 0) (txs : List (Transaction V)) (tx : Transaction V)
      → All P txs
      → P tx
      → All P (txs ++ tx ∷ [])
  All-snoc P [] tx all h = (h, tt)
  All-snoc P (x ∷ txs) tx all h = (all.0, All-snoc P txs tx all.1 h)

  All-of-snoc :
      (P : Transaction V → Type 0) (txs : List (Transaction V)) (tx : Transaction V)
      → All P (txs ++ tx ∷ [])
      → All P txs × P tx
  All-of-snoc P [] tx all = (tt, all.0)
  All-of-snoc P (x ∷ txs) tx all =
      let (most, last) = All-of-snoc P txs tx all.1 in ((all.0, most), last)

  push_bucket_lem :
      (map : Map ℕ (List (Transaction V))) (range : ℕ) (tx : Transaction V)
      (found : Option (List (Transaction V)))
      → get map range ≡ found
      → range ≤ max_block_index
      → IsOf range tx
      → AreBuckets map
      → AreBuckets (push_bucket map range tx found)
        × ((m : Map ℕ (Transaction V))
            → AllStored m (push_bucket map range tx found)
            → IsStored m tx × AllStored m map)
  push_bucket_lem map range tx none e h of buckets = (
    AllEntries-insert _ map range (tx ∷ []) buckets (h, (of, tt)),
    λ m stored.
        (let (all, rest) =
            AllEntries-of-insert (λ range txs. All (IsStored m) txs) map range (tx ∷ []) stored
              (λ w at _. cc (at, e)) in
          (all.0, rest)),
  )
  push_bucket_lem map range tx (some bucket) e h of buckets =
      let old = AllEntries-get _ map range bucket buckets e in
      (
        AllEntries-insert _ map range (bucket ++ tx ∷ []) buckets
            (h, All-snoc (IsOf range) bucket tx old.1 of),
        λ m stored.
            (let (all, rest) =
                AllEntries-of-insert (λ range txs. All (IsStored m) txs) map range
                  (bucket ++ tx ∷ []) stored
                  (λ w at all.
                    (let same : bucket ≡ w = some-eq (sym e ∙ at) in
                      rw (← same) (All-of-snoc (IsStored m) bucket tx all).0)) in
              ((All-of-snoc (IsStored m) bucket tx all).1, rest)),
      )

  bucket_txs_lem :
      (txs : List (Transaction V)) (map : Map ℕ (List (Transaction V)))
      → All IsAdmitted txs
      → AreBuckets map
      → (map' : Map ℕ (List (Transaction V))) × (bucket_txs txs map ≡ ok map')
        × AreBuckets map'
        × ((m : Map ℕ (Transaction V)) → AllStored m map' → All (IsStored m) txs × AllStored m map)
  unfolding bucket_txs range_from_unique_blob_id
  bucket_txs_lem [] map all buckets = (map, refl, buckets, λ m stored. (tt, stored))
  bucket_txs_lem (tx ∷ txs) map all buckets =
      let range : ℕ = tx.meta.id / single_blob_size in
      let (buckets₁, stored₁) =
        push_bucket_lem map range tx (get map range) refl (omega (arith, all.0)) (all.0, refl)
          buckets in
      let (map', run, buckets', stored) =
        bucket_txs_lem txs (push_bucket map range tx (get map range)) all.1 buckets₁ in
      (
        map',
        ground arith,
        buckets',
        λ m h.
            (let (most, before) = stored m h in
              let (this, rest) = stored₁ m before in ((this, most), rest)),
      )

  pub buckets-AllStored :
      (txs : List (Transaction V)) (self_offsets : Map ℕ ℕ) (m : Map ℕ (Transaction V))
      → All IsAdmitted txs
      → HasPrefixes self_offsets m
      → AreAdmitted m
      → (buckets : Map ℕ (List (Transaction V))) × (txs_to_range_tx_map txs ≡ ok buckets)
        × (u : Updated V) × (update_self_offsets self_offsets m buckets ≡ ok u)
        × IsUpdated m u
        × All (IsStored u.transactions) txs
  unfolding txs_to_range_tx_map update_self_offsets
  buckets-AllStored txs self_offsets m all prefixes ids =
      let (buckets, run, are, stored) = bucket_txs_lem txs [] all tt in
      let (u, update, updated, all_stored) =
        update_ranges_lem buckets self_offsets m [] are prefixes ids in
      (buckets, run, u, update, updated, (stored u.transactions all_stored).0)

  -- Only admitted transactions pass the buckets.
  bucket_txs-IsAdmitted :
      (txs : List (Transaction V)) (map map' : Map ℕ (List (Transaction V)))
      → bucket_txs txs map ≡ ok map'
      → All IsAdmitted txs
  unfolding bucket_txs range_from_unique_blob_id
  bucket_txs-IsAdmitted [] map map' e = tt
  bucket_txs-IsAdmitted (tx ∷ txs) map map' e =
      let (range, fits, rest) =
        bind-eq-ok (range_from_unique_blob_id tx.meta.id)
          (λ range. bucket_txs txs (push_bucket map range tx (get map range))) e in
      (ground arith, bucket_txs-IsAdmitted txs (push_bucket map range tx (get map range)) map' rest)

  pub txs_to_range_tx_map-IsAdmitted :
      (txs : List (Transaction V)) (buckets : Map ℕ (List (Transaction V)))
      → txs_to_range_tx_map txs ≡ ok buckets
      → All IsAdmitted txs
  unfolding txs_to_range_tx_map
  txs_to_range_tx_map-IsAdmitted txs buckets e = bucket_txs-IsAdmitted txs [] buckets e
