-- ===== src/App/Responses.antt =====
-- maroon/src/app/app.rs: the answer to `Inbox::RequestMissingTxs`.
use mathlib.Core.List.{append-nil, append_assoc}
use maroon.Prelude.{
  ℕ, zero, suc, ◌+◌, ◌-◌, ◌<◌, ◌≤◌, ◌≡◌, refl, arith, List, [], ◌∷◌, ◌++◌, map, none, some, ok,
  hang, count_up, inl, inr, Option-cases,
}
use maroon.Prelude.Maps.{Map, nat_eq, get}
use maroon.RangeKey.{u64_mod, add64}
use maroon.Protocol.{Transaction}
use maroon.App.Transactions.{requested_txs}

module _ {V : Type 0} (transactions : Map ℕ (Transaction V)) where
  -- A missing id holds the pointer up for ever.
  requested_txs-stuck :
      (fuel id end : ℕ) (response : List (Transaction V))
      → id ≤ end
      → get transactions id ≡ none
      → requested_txs fuel transactions id end response ≡ hang
  unfolding requested_txs
  requested_txs-stuck zero id end response h e = refl
  requested_txs-stuck (suc fuel) id end response h e =
      ground (arith, requested_txs-stuck fuel id end response)

  -- If one id of the requested interval is not there, the loop that answers never ends, whatever the
  -- number of its rounds: `continue` leaves the pointer on the missing id.
  pub requested_txs-hang :
      (fuel pointer id end : ℕ) (response : List (Transaction V))
      → pointer ≤ id
      → id ≤ end
      → end < u64_mod - 1
      → get transactions id ≡ none
      → requested_txs fuel transactions pointer end response ≡ hang
  unfolding requested_txs add64
  requested_txs-hang zero pointer id end response h k l e = refl
  requested_txs-hang (suc fuel) pointer id end response h k l e =
      elim (Option-cases (get transactions pointer)) [
        | inl gone ↦ requested_txs-stuck (suc fuel) pointer end response (omega arith) gone
        | inr (tx, here) ↦
            let more : pointer < id = ground arith in
            let next =
              requested_txs-hang fuel (pointer + 1) id end (response ++ tx ∷ []) (omega arith) k l
                e in
            ground arith
      ]

  -- If all ids of the requested interval are there, the loop ends within as many rounds as there are
  -- ids and one more, and the answer is their transactions in the order of the ids.
  pub requested_txs_lem :
      (n fuel pointer end : ℕ) (response : List (Transaction V))
      → end + 1 ≡ pointer + n
      → end < u64_mod - 1
      → n < fuel
      → ((id : ℕ)
          → pointer ≤ id
          → id ≤ end
          → (tx : Transaction V) × (get transactions id ≡ some tx))
      → (txs : List (Transaction V)) × (requested_txs fuel transactions pointer end response
          ≡ ok (response ++ txs))
        × (map (λ tx. some tx) txs ≡ map (get transactions) (count_up pointer n))
  unfolding requested_txs add64
  requested_txs_lem n zero pointer end response e h k all = absurd (omega arith)
  requested_txs_lem zero (suc fuel) pointer end response e h k all =
      ([], ground (arith, append-nil response), refl)
  requested_txs_lem (suc n) (suc fuel) pointer end response e h k all =
      let (tx, here) = all pointer (omega arith) (omega arith) in
      let (txs, run, same) =
        requested_txs_lem n fuel (pointer + 1) end (response ++ tx ∷ []) (omega arith) h
          (omega arith) (λ id low high. all id (omega arith) high) in
      (tx ∷ txs, ground (arith, append_assoc response (tx ∷ []) txs), cc)
