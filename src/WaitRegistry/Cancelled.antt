-- ===== src/WaitRegistry/Cancelled.antt =====
-- runtime/src/wait_registry.rs: `cancel_by_registered_select_id` takes one registration away.
use mathlib.Core.Path.{subst}
use maroon.Prelude.{
  ℕ, ◌≡◌, ◌⊎◌, refl, ◌∙◌, ap, arith, [], ◌∷◌, ◌++◌, false, Option, none, some, ◌==◌, Bool-cases,
  inl, inr, length,
}
use maroon.Prelude.Maps.{Map, nat_eq, get, remove, contains_key, HasDistinctKeys}
use maroon.WaitRegistry.{SelectReg, WaitRegistry, unlink_arms, cancel_by_registered_select_id}
use maroon.WaitRegistry.Serving.{IsServing, without_reg, unlink-IsServing}

module _ {V : Type 0} where
  remove_absent : (m : Map ℕ V) (k : ℕ) → contains_key m k ≡ false → remove m k ≡ m
  unfolding contains_key remove
  remove_absent [] k h = refl
  remove_absent ((i, w) ∷ m) k h = ground (arith, h, remove_absent m k)

  -- The entry of a key, between the others.
  record EntryOf (m : Map ℕ V) (k : ℕ) : Type 0 where
    before : Map ℕ V
    value : V
    after : Map ℕ V
    parts : m ≡ before ++ (k, value) ∷ after
    here : get m k ≡ some value
    others : remove m k ≡ before ++ after

  entry-cases :
      (m : Map ℕ V) (k : ℕ)
      → HasDistinctKeys m
      → ((get m k ≡ none) × (remove m k ≡ m)) ⊎ EntryOf m k
  unfolding get remove
  entry-cases [] k h = inl (refl, refl)
  entry-cases ((i, w) ∷ m) k (out, distinct) = elim (Bool-cases (i == k)) [
    | inl hit ↦
        let same : i ≡ k = ground (arith, hit) in
        inr (record {
          before = [];
          value = w;
          after = m;
          parts = ap (λ (j : ℕ). (j, w) ∷ m) same;
          here = rw hit refl;
          others = rw hit (remove_absent m k (rw (← same) out));
        })
    | inr miss ↦ elim (entry-cases m k distinct) [
      | inl (missing, kept) ↦ inl (rw miss missing, ground (arith, miss, kept))
      | inr there ↦ inr (record {
        before = (i, w) ∷ there.before;
        value = there.value;
        after = there.after;
        parts = ap (◌∷◌ (i, w)) there.parts;
        here = rw miss (there.here);
        others = ground (arith, miss, there.others);
      })
    ]
  ]

module _ {St : Type 0} where
  -- How many arms a registration has.
  abbrev pub arms_count : Option (SelectReg St) → ℕ
  arms_count none = 0
  arms_count (some reg) = length reg.arms

  cancel-found :
      (r : WaitRegistry St) (id : ℕ) (reg : SelectReg St)
      → get r.regs id ≡ some reg
      → cancel_by_registered_select_id r id
        ≡ ((unlink_arms (without_reg r id) reg.arms 0 none).0, length reg.arms)
  unfolding cancel_by_registered_select_id
  cancel-found r id reg at = ground (arith, at)

  cancel-missing :
      (r : WaitRegistry St) (id : ℕ)
      → get r.regs id ≡ none
      → cancel_by_registered_select_id r id ≡ (r, 0)
  unfolding cancel_by_registered_select_id
  cancel-missing r id at = ground (arith, at)

  -- A cancelled registration is taken away with all of its arms, which are counted; an id that is not
  -- there changes nothing. The others stay in their order.
  pub cancel-IsServing :
      (r : WaitRegistry St) (gs : Map ℕ (SelectReg St)) (id : ℕ)
      → IsServing r gs
      → IsServing (cancel_by_registered_select_id r id).0 (remove gs id)
        × ((cancel_by_registered_select_id r id).1 ≡ arms_count (get gs id))
  cancel-IsServing r gs id h = elim (entry-cases gs id h.1) [
    | inl (missing, kept) ↦ rw (cancel-missing r id (h.0 id ∙ missing), kept, missing) (h, refl)
    | inr entry ↦
        rw (cancel-found r id entry.value (h.0 id ∙ entry.here), entry.others, entry.here)
          (
            unlink-IsServing r entry.before id entry.value entry.after 0 none
                (subst (IsServing r) entry.parts h),
            refl,
          )
  ]
