-- ===== src/WaitRegistry/Served.antt =====
-- runtime/src/wait_registry.rs: `wake_one` serves the registration that came first.
use mathlib.Core.Path.{subst}
use maroon.Prelude.{
  ℕ, ◌≡◌, ◌≢◌, ◌∙◌, sym, ap, arith, List, [], ◌∷◌, ◌++◌, none, some, ok, All, All-of-append, inl,
  inr,
}
use maroon.Prelude.Maps.{Map, nat_eq, get, HasDistinctKeys}
use maroon.WaitRegistry.{
  WaitKey, wait_key_eq, WaitNode, ArmHandle, SelectReg, WaitRegistry, or_default, unlink_arms,
  wake_one,
}
use maroon.WaitRegistry.Links.{first, AreDistinct}
use maroon.WaitRegistry.Spans.{AreDistinct-parts}
use maroon.WaitRegistry.Waiters.{Waiter, all_ids, IsOwned, IsThreaded, all_ids-append}
use maroon.WaitRegistry.Serving.{
  waiter, waiters_of, waiters, IsServing, without_reg, waiters-append, get-middle_here,
  unlink_arms-finds, unlink-IsServing,
}
use maroon.WaitRegistry.Order.{outcome, served, ServedOn, served-cases}

module _ {St : Type 0} where
  wake_one-finds :
      (r : WaitRegistry St) (key : WaitKey) (head_id : ℕ) (n : WaitNode) (id : ℕ)
      (reg : SelectReg St) (arm : ArmHandle St)
      → (or_default (get r.per_key key)).head ≡ some head_id
      → get r.nodes head_id ≡ some n
      → n.reg_id ≡ id
      → n.fiber_id ≡ reg.fiber_id
      → get r.regs id ≡ some reg
      → (unlink_arms (without_reg r id) reg.arms head_id none).1 ≡ some arm.resume
      → wake_one r key
        ≡ ok ((unlink_arms (without_reg r id) reg.arms head_id none).0, some (outcome reg arm))
  unfolding wake_one
  wake_one-finds r key head_id n id reg arm head at own fiber registered found =
      ground (arith, head, at, own, fiber, registered, found)

  wake_one-nobody :
      (r : WaitRegistry St) (key : WaitKey)
      → (or_default (get r.per_key key)).head ≡ none
      → wake_one r key ≡ ok (r, none)
  unfolding wake_one
  wake_one-nobody r key head = ground (arith, head)

  -- Each arm has its node, which names its registration and its fiber.
  arm-IsOwned :
      (nodes : Map ℕ WaitNode) (id fiber_id : ℕ) (front : List (ArmHandle St)) (arm : ArmHandle St)
      (back : List (ArmHandle St))
      → All (IsOwned nodes) (waiters_of id fiber_id (front ++ arm ∷ back))
      → IsOwned nodes (waiter id fiber_id arm)
  arm-IsOwned nodes id fiber_id [] arm back owned = owned.0
  arm-IsOwned nodes id fiber_id (a ∷ front) arm back owned =
      arm-IsOwned nodes id fiber_id front arm back owned.1

  arms-distinct :
      (id fiber_id : ℕ) (front : List (ArmHandle St)) (arm : ArmHandle St)
      (back : List (ArmHandle St))
      → AreDistinct (all_ids (waiters_of id fiber_id (front ++ arm ∷ back)))
      → All (λ a. a.node_id ≢ arm.node_id) back
  arms-distinct id fiber_id [] arm back (out, distinct) = nodes-out back out
    where
      nodes-out :
          (arms : List (ArmHandle St))
          → All (λ k. k ≢ arm.node_id) (all_ids (waiters_of id fiber_id arms))
          → All (λ a. a.node_id ≢ arm.node_id) arms
      nodes-out [] h = tt
      nodes-out (a ∷ arms) h = (h.0, nodes-out arms h.1)
  arms-distinct id fiber_id (a ∷ front) arm back (out, distinct) =
      arms-distinct id fiber_id front arm back distinct

  module _ (r : WaitRegistry St) (gs : Map ℕ (SelectReg St)) (h : IsServing r gs) (key : WaitKey)
      (on : ServedOn key gs) where
    abbrev arms : List (Waiter St)
    arms = waiters_of on.id on.reg.fiber_id on.reg.arms

    threaded : IsThreaded r.per_key r.nodes (waiters on.before ++ (arms ++ waiters on.after))
    threaded =
        subst (IsThreaded r.per_key r.nodes)
          (ap waiters on.parts ∙ waiters-append on.before ((on.id, on.reg) ∷ on.after)) h.2

    keys : HasDistinctKeys (on.before ++ (on.id, on.reg) ∷ on.after)
    keys = subst HasDistinctKeys on.parts h.1

    arm-IsOwned_here : IsOwned r.nodes (waiter on.id on.reg.fiber_id on.on.arm)
    arm-IsOwned_here =
        let (_, rest) =
          All-of-append (IsOwned r.nodes) (waiters on.before) (arms ++ waiters on.after)
            threaded.2 in
        let (mine, _) = All-of-append (IsOwned r.nodes) arms (waiters on.after) rest in
        arm-IsOwned r.nodes on.id on.reg.fiber_id on.on.front on.on.arm on.on.back (
          subst (λ as'. All (IsOwned r.nodes) (waiters_of on.id on.reg.fiber_id as')) on.on.parts
            mine)

    back-apart : All (λ a. a.node_id ≢ on.on.arm.node_id) on.on.back
    back-apart =
        let (_, rest, _) =
          AreDistinct-parts (all_ids (waiters on.before)) (all_ids (arms ++ waiters on.after)) (
            subst AreDistinct (all_ids-append (waiters on.before) (arms ++ waiters on.after))
              threaded.1) in
        let (mine, _, _) =
          AreDistinct-parts (all_ids arms) (all_ids (waiters on.after))
            (subst AreDistinct (all_ids-append arms (waiters on.after)) rest) in
        arms-distinct on.id on.reg.fiber_id on.on.front on.on.arm on.on.back (
          subst (λ as'. AreDistinct (all_ids (waiters_of on.id on.reg.fiber_id as'))) on.on.parts
            mine)

    finds :
        (unlink_arms (without_reg r on.id) on.reg.arms on.on.arm.node_id none).1
        ≡ some on.on.arm.resume
    finds =
        subst
          (λ as'.
            (unlink_arms (without_reg r on.id) as' on.on.arm.node_id none).1
            ≡ some on.on.arm.resume)
          (sym on.on.parts)
          (unlink_arms-finds (without_reg r on.id) on.on.front on.on.arm on.on.back none back-apart)

    abbrev unlinked_all : WaitRegistry St
    unlinked_all = (unlink_arms (without_reg r on.id) on.reg.arms on.on.arm.node_id none).0

    served-IsServing : IsServing unlinked_all (on.before ++ on.after)
    served-IsServing =
        unlink-IsServing r on.before on.id on.reg on.after on.on.arm.node_id none
          (subst (IsServing r) on.parts h)

    wake_one-serves : wake_one r key ≡ ok (unlinked_all, some (outcome on.reg on.on.arm))
    wake_one-serves =
        let (n, at, own, fiber) = arm-IsOwned_here in
        wake_one-finds r key on.on.arm.node_id n on.id on.reg on.on.arm ((h.2.0 key).0 ∙ on.leads)
          at own fiber
          (h.0 on.id
            ∙ ap (λ m. get m on.id) on.parts
            ∙ get-middle_here on.before on.id on.reg on.after keys)
          finds

  -- A registry that holds registrations, which came in some order, does not panic when it wakes a fiber
  -- for a key: it serves the first registration that has an arm on the key, with the first of its arms
  -- on the key, and then holds the other registrations in the same order; if there is none, it wakes
  -- nobody and stays as it was.
  pub wake_one-served :
      (r : WaitRegistry St) (gs : Map ℕ (SelectReg St)) (key : WaitKey)
      → IsServing r gs
      → (after : WaitRegistry St) × (wake_one r key ≡ ok (after, (served key gs).1))
        × IsServing after (served key gs).0
  wake_one-served r gs key h = elim (served-cases key gs) [
    | inl (nobody, same) ↦ rw same (r, wake_one-nobody r key ((h.2.0 key).0 ∙ ap first nobody), h)
    | inr on ↦
        rw (on.result) (
          unlinked_all r gs h key on,
          wake_one-serves r gs h key on,
          served-IsServing r gs h key on,
        )
  ]
