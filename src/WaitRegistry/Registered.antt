-- ===== src/WaitRegistry/Registered.antt =====
-- runtime/src/wait_registry.rs: `register_select` puts a registration behind the others.
use mathlib.Core.Path.{subst}
use mathlib.Core.List.{append_assoc, append-nil}
use maroon.Prelude.{
  ℕ, ◌≡◌, ◌≢◌, refl, ◌∙◌, sym, ap, arith, List, [], ◌∷◌, ◌++◌, false, none, some, ◌==◌,
  if◌then◌else◌, Bool-cases, inl, inr,
}
use maroon.Prelude.Maps.{
  Map, nat_eq, get, insert, contains_key, HasDistinctKeys, get-insert, contains_key-get,
}
use maroon.Fiber.{SelectArm}
use maroon.WaitRegistry.{
  WaitNode, ArmHandle, SelectReg, WaitRegistry, list_push_back, key_of, kind_of, resume_of,
  register_arms, register_select,
}
use maroon.WaitRegistry.Waiters.{Waiter, IsThreaded}
use maroon.WaitRegistry.Pushed.{
  fresh, IsThreaded-insert, list_push_back-IsThreaded, regs-list_push_back,
}
use maroon.WaitRegistry.Serving.{waiter, waiters_of, waiters, IsServing, waiters-append}

module _ {V : Type 0} where
  contains_key-new :
      (m : Map ℕ V) (k : ℕ) (v : V) (j : ℕ)
      → contains_key m j ≡ false
      → k ≢ j
      → contains_key (m ++ (k, v) ∷ []) j ≡ false
  unfolding contains_key
  contains_key-new [] k v j h apart = ground arith
  contains_key-new ((i, w) ∷ m) k v j h apart = ground (arith, h, contains_key-new m k v j)

  absent : (m : Map ℕ V) (k : ℕ) → get m k ≡ none → contains_key m k ≡ false
  absent m k h = elim (Bool-cases (contains_key m k)) [
    | inl there ↦ let (v, at) = contains_key-get m k there in cc
    | inr away ↦ away
  ]

  HasDistinctKeys-new :
      (m : Map ℕ V) (k : ℕ) (v : V)
      → contains_key m k ≡ false
      → HasDistinctKeys m
      → HasDistinctKeys (m ++ (k, v) ∷ [])
  unfolding contains_key
  HasDistinctKeys-new [] k v free h = (refl, tt)
  HasDistinctKeys-new ((i, w) ∷ m) k v free (out, distinct) = (
    contains_key-new m k v i out (ground (arith, free)),
    HasDistinctKeys-new m k v (ground (arith, free)) distinct,
  )

  get-new :
      (m : Map ℕ V) (k : ℕ) (v : V) (j : ℕ)
      → contains_key m k ≡ false
      → get (m ++ (k, v) ∷ []) j ≡ (if k == j then some v else get m j)
  unfolding get contains_key
  get-new [] k v j free = refl
  get-new ((i, w) ∷ m) k v j free = ground (arith, free, get-new m k v j)

abbrev waiting : ℕ → ℕ → WaitNode
waiting reg_id fiber_id = record { prev = none; next = none; reg_id = reg_id; fiber_id = fiber_id }

module _ {St : Type 0} where
  -- The handles of the arms: their keys, and how the fiber goes on.
  abbrev pub AreArms : List (SelectArm St) → List (ArmHandle St) → Type 0
  AreArms [] [] = Unit
  AreArms [] (h ∷ hs) = ⊥
  AreArms (arm ∷ arms) [] = ⊥
  AreArms (arm ∷ arms) (h ∷ hs) =
      ((h.key ≡ key_of arm) × (h.kind ≡ kind_of arm) × (h.resume ≡ resume_of arm)) × AreArms arms hs

module _ {St : Type 0} (vacant : (A : Type 0) → Map ℕ A → ℕ)
    (free : (A : Type 0) (m : Map ℕ A) → get m (vacant A m) ≡ none) where
  abbrev node_of : WaitRegistry St → ℕ
  node_of r = vacant WaitNode r.nodes

  abbrev with_node : WaitRegistry St → ℕ → ℕ → WaitRegistry St
  with_node r reg_id fiber_id = record r {
    nodes = insert r.nodes (node_of r) (waiting reg_id fiber_id);
  }

  abbrev added : WaitRegistry St → ℕ → ℕ → SelectArm St → WaitRegistry St
  added r reg_id fiber_id arm =
      list_push_back (with_node r reg_id fiber_id) (key_of arm) (node_of r)

  abbrev handle_of : WaitRegistry St → SelectArm St → ArmHandle St
  handle_of r arm = record {
    key = key_of arm;
    node_id = node_of r;
    kind = kind_of arm;
    resume = resume_of arm;
  }

  abbrev handles : WaitRegistry St → ℕ → ℕ → List (SelectArm St) → List (ArmHandle St)
  handles r reg_id fiber_id arms = (register_arms vacant r reg_id fiber_id arms).1

  handles-AreArms :
      (r : WaitRegistry St) (reg_id fiber_id : ℕ) (arms : List (SelectArm St))
      → AreArms arms (handles r reg_id fiber_id arms)
  unfolding register_arms
  handles-AreArms r reg_id fiber_id [] = tt
  handles-AreArms r reg_id fiber_id (arm ∷ arms) =
      ((refl, refl, refl), handles-AreArms (added r reg_id fiber_id arm) reg_id fiber_id arms)

  regs-register_arms :
      (r : WaitRegistry St) (reg_id fiber_id : ℕ) (arms : List (SelectArm St))
      → (register_arms vacant r reg_id fiber_id arms).0.regs ≡ r.regs
  unfolding register_arms
  regs-register_arms r reg_id fiber_id [] = refl
  regs-register_arms r reg_id fiber_id (arm ∷ arms) =
      regs-register_arms (added r reg_id fiber_id arm) reg_id fiber_id arms
      ∙ regs-list_push_back (with_node r reg_id fiber_id) (key_of arm) (node_of r)

  added-IsThreaded :
      (r : WaitRegistry St) (ws : List (Waiter St)) (reg_id fiber_id : ℕ) (arm : SelectArm St)
      → IsThreaded r.per_key r.nodes ws
      → IsThreaded
          (added r reg_id fiber_id arm).per_key
          (added r reg_id fiber_id arm).nodes
          (ws ++ waiter reg_id fiber_id (handle_of r arm) ∷ [])
  added-IsThreaded r ws reg_id fiber_id arm h =
      let out = fresh r.nodes (node_of r) ws (free WaitNode r.nodes) h.2 in
      list_push_back-IsThreaded (with_node r reg_id fiber_id) ws
        (waiter reg_id fiber_id (handle_of r arm))
        (IsThreaded-insert r.per_key r.nodes (node_of r) (waiting reg_id fiber_id) ws out h) out
        (waiting reg_id fiber_id)
        (ground (arith, get-insert r.nodes (node_of r) (node_of r) (waiting reg_id fiber_id))) refl
        refl refl refl

  register_arms-IsThreaded :
      (r : WaitRegistry St) (ws : List (Waiter St)) (reg_id fiber_id : ℕ)
      (arms : List (SelectArm St))
      → IsThreaded r.per_key r.nodes ws
      → IsThreaded
          (register_arms vacant r reg_id fiber_id arms).0.per_key
          (register_arms vacant r reg_id fiber_id arms).0.nodes
          (ws ++ waiters_of reg_id fiber_id (handles r reg_id fiber_id arms))
  unfolding register_arms
  register_arms-IsThreaded r ws reg_id fiber_id [] h =
      subst (IsThreaded r.per_key r.nodes) (sym (append-nil ws)) h
  register_arms-IsThreaded r ws reg_id fiber_id (arm ∷ arms) h =
      let next = added r reg_id fiber_id arm in
      let one = waiter reg_id fiber_id (handle_of r arm) in
      let more = waiters_of reg_id fiber_id (handles next reg_id fiber_id arms) in
      subst
        (IsThreaded (register_arms vacant next reg_id fiber_id arms).0.per_key
          (register_arms vacant next reg_id fiber_id arms).0.nodes)
        (append_assoc ws (one ∷ []) more)
        (register_arms-IsThreaded next (ws ++ one ∷ []) reg_id fiber_id arms
          (added-IsThreaded r ws reg_id fiber_id arm h))

  abbrev started : WaitRegistry St → ℕ → WaitRegistry St
  started r fiber_id = record r {
    regs = insert r.regs (vacant (SelectReg St) r.regs) (record { fiber_id = fiber_id; arms = [] });
  }

  abbrev registration : WaitRegistry St → ℕ → List (SelectArm St) → SelectReg St
  registration r fiber_id arms = record {
    fiber_id = fiber_id;
    arms = handles (started r fiber_id) (vacant (SelectReg St) r.regs) fiber_id arms;
  }

  -- A registry that holds registrations, which came in some order, holds these and after them a new
  -- one, under an id that none of them has: it has the fiber, and for each arm the key to wait for and
  -- how the fiber goes on.
  pub register_select-IsServing :
      (r : WaitRegistry St) (gs : Map ℕ (SelectReg St)) (fiber_id : ℕ) (arms : List (SelectArm St))
      → IsServing r gs
      → (reg : SelectReg St) × (reg.fiber_id ≡ fiber_id)
        × AreArms arms reg.arms
        × (get gs (register_select vacant r fiber_id arms).1 ≡ none)
        × IsServing
            (register_select vacant r fiber_id arms).0
            (gs ++ ((register_select vacant r fiber_id arms).1, reg) ∷ [])
  unfolding register_select
  register_select-IsServing r gs fiber_id arms (regs, keys, threaded) =
      let id = vacant (SelectReg St) r.regs in
      let reg = registration r fiber_id arms in
      let last = (register_arms vacant (started r fiber_id) id fiber_id arms).0 in
      let none_yet : get gs id ≡ none = sym (regs id) ∙ free (SelectReg St) r.regs in
      let away = absent gs id none_yet in
      (
        reg,
        refl,
        handles-AreArms (started r fiber_id) id fiber_id arms,
        none_yet,
        (
          λ k. ground (
            arith,
            get-insert last.regs id k reg,
            ap (λ m. get m k) (regs-register_arms (started r fiber_id) id fiber_id arms),
            get-insert r.regs id k (record { fiber_id = fiber_id; arms = [] }),
            regs k,
            get-new gs id reg k away,
          ),
          HasDistinctKeys-new gs id reg away keys,
          subst (IsThreaded last.per_key last.nodes)
              (sym (
                waiters-append gs ((id, reg) ∷ [])
                ∙ ap (◌++◌ (waiters gs)) (append-nil (waiters_of id fiber_id reg.arms))))
              (register_arms-IsThreaded (started r fiber_id) (waiters gs) id fiber_id arms
                threaded),
        ),
      )
