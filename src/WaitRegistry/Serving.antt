-- ===== src/WaitRegistry/Serving.antt =====
-- runtime/src/wait_registry.rs: the registry as the list of its registrations, in the order in which
-- they came, and the loop that unlinks the arms of one.
use mathlib.Core.Path.{subst}
use mathlib.Core.List.{append_assoc}
use maroon.Prelude.{
  ℕ, ◌≡◌, ◌≢◌, refl, sym, ◌∙◌, ap, arith, List, [], ◌∷◌, ◌++◌, false, Option, none, some, All, ◌==◌,
  if◌then◌else◌,
}
use maroon.Prelude.Maps.{
  Map, nat_eq, get, remove, contains_key, HasDistinctKeys, get-none, get-remove,
}
use maroon.WaitRegistry.{ArmHandle, ArmResume, SelectReg, WaitRegistry, list_unlink, unlink_arms}
use maroon.WaitRegistry.Waiters.{Waiter, IsThreaded}
use maroon.WaitRegistry.Unlinked.{list_unlink-IsThreaded, regs-list_unlink}

module _ {V : Type 0} where
  contains_key-middle :
      (ss : Map ℕ V) (k : ℕ) (v : V) (ts : Map ℕ V) (j : ℕ)
      → contains_key (ss ++ (k, v) ∷ ts) j ≡ false
      → (contains_key (ss ++ ts) j ≡ false) × (k ≢ j)
  unfolding contains_key
  contains_key-middle [] k v ts j h = (ground (arith, h), ground (arith, h))
  contains_key-middle ((i, w) ∷ ss) k v ts j h =
      let rest : contains_key (ss ++ (k, v) ∷ ts) j ≡ false = ground (arith, h) in
      let (a, b) = contains_key-middle ss k v ts j rest in (ground (arith, h, a), b)

  -- An entry of a map with distinct keys, and the map without it.
  HasDistinctKeys-middle :
      (ss : Map ℕ V) (k : ℕ) (v : V) (ts : Map ℕ V)
      → HasDistinctKeys (ss ++ (k, v) ∷ ts)
      → HasDistinctKeys (ss ++ ts)
  HasDistinctKeys-middle [] k v ts (out, distinct) = distinct
  HasDistinctKeys-middle ((i, w) ∷ ss) k v ts (out, distinct) =
      ((contains_key-middle ss k v ts i out).0, HasDistinctKeys-middle ss k v ts distinct)

  get-middle :
      (ss : Map ℕ V) (k : ℕ) (v : V) (ts : Map ℕ V) (j : ℕ)
      → HasDistinctKeys (ss ++ (k, v) ∷ ts)
      → get (ss ++ ts) j ≡ (if k == j then none else get (ss ++ (k, v) ∷ ts) j)
  unfolding get
  get-middle [] k v ts j (out, distinct) = ground (arith, ap (contains_key ts), get-none ts k out)
  get-middle ((i, w) ∷ ss) k v ts j (out, distinct) =
      ground (arith, get-middle ss k v ts j distinct, (contains_key-middle ss k v ts i out).1)

  pub get-middle_here :
      (ss : Map ℕ V) (k : ℕ) (v : V) (ts : Map ℕ V)
      → HasDistinctKeys (ss ++ (k, v) ∷ ts)
      → get (ss ++ (k, v) ∷ ts) k ≡ some v
  unfolding get
  get-middle_here [] k v ts h = ground arith
  get-middle_here ((i, w) ∷ ss) k v ts (out, distinct) =
      ground (arith, get-middle_here ss k v ts distinct, (contains_key-middle ss k v ts i out).1)

module _ {St : Type 0} where
  abbrev pub waiter : ℕ → ℕ → ArmHandle St → Waiter St
  waiter reg_id fiber_id arm = record { arm = arm; reg_id = reg_id; fiber_id = fiber_id }

  abbrev pub waiters_of : ℕ → ℕ → List (ArmHandle St) → List (Waiter St)
  waiters_of reg_id fiber_id [] = []
  waiters_of reg_id fiber_id (arm ∷ arms) =
      waiter reg_id fiber_id arm ∷ waiters_of reg_id fiber_id arms

  abbrev pub waiters : Map ℕ (SelectReg St) → List (Waiter St)
  waiters [] = []
  waiters ((id, reg) ∷ gs) = waiters_of id reg.fiber_id reg.arms ++ waiters gs

  -- The registry holds these registrations, which came in this order: `regs` has each under its id,
  -- and the list of each key the arms that wait for it, in the order in which they came.
  abbrev pub IsServing : WaitRegistry St → Map ℕ (SelectReg St) → Type 0
  IsServing r gs =
      ((id : ℕ) → get r.regs id ≡ get gs id)
      × HasDistinctKeys gs
      × IsThreaded r.per_key r.nodes (waiters gs)

  unlink_arms-IsThreaded :
      (r : WaitRegistry St) (ws : List (Waiter St)) (id fiber_id : ℕ) (arms : List (ArmHandle St))
      (vs : List (Waiter St)) (head_id : ℕ) (found : Option (ArmResume St))
      → IsThreaded r.per_key r.nodes (ws ++ (waiters_of id fiber_id arms ++ vs))
      → IsThreaded
          (unlink_arms r arms head_id found).0.per_key
          (unlink_arms r arms head_id found).0.nodes
          (ws ++ vs)
  unfolding unlink_arms
  unlink_arms-IsThreaded r ws id fiber_id [] vs head_id found h = h
  unlink_arms-IsThreaded r ws id fiber_id (arm ∷ arms) vs head_id found h =
      unlink_arms-IsThreaded (list_unlink r arm.key arm.node_id) ws id fiber_id arms vs head_id
        (if arm.node_id == head_id then some arm.resume else found)
        (list_unlink-IsThreaded r ws (waiter id fiber_id arm) (waiters_of id fiber_id arms ++ vs) h)

  regs-unlink_arms :
      (r : WaitRegistry St) (arms : List (ArmHandle St)) (head_id : ℕ)
      (found : Option (ArmResume St))
      → (unlink_arms r arms head_id found).0.regs ≡ r.regs
  unfolding unlink_arms
  regs-unlink_arms r [] head_id found = refl
  regs-unlink_arms r (arm ∷ arms) head_id found =
      regs-unlink_arms (list_unlink r arm.key arm.node_id) arms head_id
        (if arm.node_id == head_id then some arm.resume else found)
      ∙ regs-list_unlink r arm.key arm.node_id

  unlink_arms-absent :
      (r : WaitRegistry St) (arms : List (ArmHandle St)) (head_id : ℕ)
      (found : Option (ArmResume St))
      → All (λ arm. arm.node_id ≢ head_id) arms
      → (unlink_arms r arms head_id found).1 ≡ found
  unfolding unlink_arms
  unlink_arms-absent r [] head_id found out = refl
  unlink_arms-absent r (arm ∷ arms) head_id found out =
      let miss : (if arm.node_id == head_id then some arm.resume else found) ≡ found =
        ground (arith, out.0) in
      unlink_arms-absent (list_unlink r arm.key arm.node_id) arms head_id
        (if arm.node_id == head_id then some arm.resume else found) out.1
      ∙ miss

  -- The loop finds the arm whose node was the first.
  pub unlink_arms-finds :
      (r : WaitRegistry St) (front : List (ArmHandle St)) (a : ArmHandle St)
      (bs : List (ArmHandle St)) (found : Option (ArmResume St))
      → All (λ arm. arm.node_id ≢ a.node_id) bs
      → (unlink_arms r (front ++ a ∷ bs) a.node_id found).1 ≡ some a.resume
  unfolding unlink_arms
  unlink_arms-finds r [] a bs found out =
      let hit : (if a.node_id == a.node_id then some a.resume else found) ≡ some a.resume =
        ground arith in
      unlink_arms-absent (list_unlink r a.key a.node_id) bs a.node_id
        (if a.node_id == a.node_id then some a.resume else found) out
      ∙ hit
  unlink_arms-finds r (arm ∷ front) a bs found out =
      unlink_arms-finds (list_unlink r arm.key arm.node_id) front a bs
        (if arm.node_id == a.node_id then some arm.resume else found) out

  abbrev pub without_reg : WaitRegistry St → ℕ → WaitRegistry St
  without_reg r id = record r { regs = remove r.regs id }

  pub waiters-append :
      (gs hs : Map ℕ (SelectReg St)) → waiters (gs ++ hs) ≡ waiters gs ++ waiters hs
  waiters-append [] hs = refl
  waiters-append ((id, reg) ∷ gs) hs =
      ap (◌++◌ (waiters_of id reg.fiber_id reg.arms)) (waiters-append gs hs)
      ∙ sym (append_assoc (waiters_of id reg.fiber_id reg.arms) (waiters gs) (waiters hs))

  -- A registration is taken away, and its arms are unlinked: the others stay in their order.
  pub unlink-IsServing :
      (r : WaitRegistry St) (before : Map ℕ (SelectReg St)) (id : ℕ) (reg : SelectReg St)
      (after : Map ℕ (SelectReg St)) (head_id : ℕ) (found : Option (ArmResume St))
      → IsServing r (before ++ (id, reg) ∷ after)
      → IsServing (unlink_arms (without_reg r id) reg.arms head_id found).0 (before ++ after)
  unlink-IsServing r before id reg after head_id found (regs, keys, threaded) = (
    λ k.
        ap (λ m. get m k) (regs-unlink_arms (without_reg r id) reg.arms head_id found)
        ∙ get-remove r.regs id k
        ∙ rw (regs k) (sym (get-middle before id reg after k keys)),
    HasDistinctKeys-middle before id reg after keys,
    subst
        (IsThreaded (unlink_arms (without_reg r id) reg.arms head_id found).0.per_key
          (unlink_arms (without_reg r id) reg.arms head_id found).0.nodes)
        (sym (waiters-append before after))
        (unlink_arms-IsThreaded (without_reg r id) (waiters before) id reg.fiber_id reg.arms
          (waiters after) head_id found
          (subst (IsThreaded r.per_key r.nodes) (waiters-append before ((id, reg) ∷ after))
            threaded)),
  )
