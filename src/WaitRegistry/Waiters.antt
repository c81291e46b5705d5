-- ===== src/WaitRegistry/Waiters.antt =====
-- runtime/src/wait_registry.rs: the arms that wait, in the order in which they came, and the lists of
-- the keys.
use mathlib.Core.Path.{subst}
use maroon.Prelude.{
  ℕ, ◌≡◌, ◌≢◌, refl, sym, ◌∙◌, ap, arith, List, [], ◌∷◌, ◌++◌, false, none, some, All, All-map,
  if◌then◌else◌, Bool-cases, inl, inr,
}
use maroon.Prelude.Maps.{Map, nat_eq, get}
use maroon.WaitRegistry.{
  WaitKey, wait_key_beq, wait_key_beq_iff, wait_key_eq, WaitNode, WaitList, ArmHandle, or_default,
  same_id,
}
use maroon.WaitRegistry.Links.{first, AreDistinct, IsQueue}

abbrev pub AreApart : List ℕ → List ℕ → Type 0
AreApart is js = All (λ i. All (λ j. j ≢ i) js) is

pub AreApart-eq : {is is' js js' : List ℕ} → is ≡ is' → js ≡ js' → AreApart is js → AreApart is' js'
AreApart-eq {is} {js'} e f h = subst (λ l. AreApart l js') e (subst (λ l. AreApart is l) f h)

AreApart-more :
    (is : List ℕ) (j : ℕ) (js : List ℕ)
    → All (λ i. i ≢ j) is
    → AreApart is js
    → AreApart is (j ∷ js)
AreApart-more [] j js out h = tt
AreApart-more (i ∷ is) j js out h = (((λ e. out.0 (sym e)), h.0), AreApart-more is j js out.1 h.1)

-- An arm of a registration.
pub record Waiter (St : Type 0) : Type 0 where
  pub arm : ArmHandle St
  pub reg_id : ℕ
  pub fiber_id : ℕ

module _ {St : Type 0} where
  abbrev pub all_ids : List (Waiter St) → List ℕ
  all_ids [] = []
  all_ids (w ∷ ws) = w.arm.node_id ∷ all_ids ws

  -- The nodes of those that wait for a key.
  abbrev pub ids_of : WaitKey → List (Waiter St) → List ℕ
  ids_of key [] = []
  ids_of key (w ∷ ws) =
      let rest = ids_of key ws in if wait_key_beq w.arm.key key then w.arm.node_id ∷ rest else rest

  abbrev pub IsOwned : Map ℕ WaitNode → Waiter St → Type 0
  IsOwned nodes w =
      (n : WaitNode) × (get nodes w.arm.node_id ≡ some n)
      × (n.reg_id ≡ w.reg_id)
      × (n.fiber_id ≡ w.fiber_id)

  -- The list of each key has the nodes of those that wait for it, in the order in which they came.
  abbrev pub IsThreaded : Map WaitKey WaitList → Map ℕ WaitNode → List (Waiter St) → Type 0
  IsThreaded per_key nodes ws =
      ((key : WaitKey) → IsQueue (or_default (get per_key key)) nodes (ids_of key ws))
      × AreDistinct (all_ids ws)
      × All (IsOwned nodes) ws

  pub ids_of-append :
      (key : WaitKey) (ws vs : List (Waiter St))
      → ids_of key (ws ++ vs) ≡ ids_of key ws ++ ids_of key vs
  ids_of-append key [] vs = refl
  ids_of-append key (w ∷ ws) vs = ground (arith, ids_of-append key ws vs)

  pub all_ids-append : (ws vs : List (Waiter St)) → all_ids (ws ++ vs) ≡ all_ids ws ++ all_ids vs
  all_ids-append [] vs = refl
  all_ids-append (w ∷ ws) vs = ap (◌∷◌ w.arm.node_id) (all_ids-append ws vs)

  pub ids_of-hit :
      (key : WaitKey) (w : Waiter St) (ws : List (Waiter St))
      → w.arm.key ≡ key
      → ids_of key (w ∷ ws) ≡ w.arm.node_id ∷ ids_of key ws
  ids_of-hit key w ws at = rw ((wait_key_beq_iff w.arm.key key).1 at) refl

  pub ids_of-other :
      (key : WaitKey) (w : Waiter St) (ws : List (Waiter St))
      → w.arm.key ≢ key
      → ids_of key (w ∷ ws) ≡ ids_of key ws
  ids_of-other key w ws other = ground (arith, wait_key_beq_iff w.arm.key key)

  pub All-ids_of :
      (P : ℕ → Type 0) (key : WaitKey) (ws : List (Waiter St))
      → All P (all_ids ws)
      → All P (ids_of key ws)
  All-ids_of P key [] all = tt
  All-ids_of P key (w ∷ ws) all = elim (Bool-cases (wait_key_beq w.arm.key key)) [
    | inl hit ↦ rw hit (all.0, All-ids_of P key ws all.1)
    | inr miss ↦ rw miss (All-ids_of P key ws all.1)
  ]

  -- A node stands in the list of one key only.
  pub keys-apart :
      (key other : WaitKey) (ws : List (Waiter St))
      → key ≢ other
      → AreDistinct (all_ids ws)
      → AreApart (ids_of key ws) (ids_of other ws)
  keys-apart key other [] apart distinct = tt
  keys-apart key other (w ∷ ws) apart (out, distinct) =
      let rest = keys-apart key other ws apart distinct in
      elim (Bool-cases (wait_key_beq w.arm.key key)) [
        | inl hit ↦
            let at : w.arm.key ≡ key = (wait_key_beq_iff w.arm.key key).0 hit in
            AreApart-eq (sym (ids_of-hit key w ws at))
              (sym (ids_of-other other w ws (λ e. apart (sym at ∙ e))))
              (All-ids_of (λ j. j ≢ w.arm.node_id) other ws out, rest)
        | inr miss ↦
            let away : ids_of key ws ≡ ids_of key (w ∷ ws) = rw miss refl in
            elim (Bool-cases (wait_key_beq w.arm.key other)) [
              | inl hit ↦
                  AreApart-eq away
                    (sym (ids_of-hit other w ws ((wait_key_beq_iff w.arm.key other).0 hit)))
                    (AreApart-more (ids_of key ws) w.arm.node_id (ids_of other ws)
                      (All-ids_of (λ i. i ≢ w.arm.node_id) key ws out) rest)
              | inr skip ↦ AreApart-eq away (rw skip refl) rest
            ]
      ]

pub All-none : (ids : List ℕ) → All (λ k. same_id none k ≡ false) ids
All-none [] = tt
All-none (i ∷ ids) = (refl, All-none ids)

pub first-away : (xs js : List ℕ) → AreApart xs js → All (λ k. same_id (first xs) k ≡ false) js
first-away [] js h = All-none js
first-away (x ∷ xs) js h =
    All-map (λ j. j ≢ x) (λ k. same_id (some x) k ≡ false) js (λ j out. ground arith) h.0
