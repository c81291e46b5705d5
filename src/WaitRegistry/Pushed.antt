-- ===== src/WaitRegistry/Pushed.antt =====
-- runtime/src/wait_registry.rs: `list_push_back` puts a new arm behind those that wait.
use mathlib.Core.Path.{subst}
use mathlib.Core.List.{append-nil}
use maroon.Prelude.{
  ℕ, ◌≡◌, ◌≢◌, refl, sym, ◌∙◌, ap, arith, List, [], ◌∷◌, ◌++◌, false, Option, none, some, All,
  All-append, All-map, ◌==◌, if◌then◌else◌, Bool-cases, inl, inr,
}
use maroon.Prelude.Maps.{Map, nat_eq, get, insert, get-insert}
use maroon.WaitRegistry.{
  WaitKey, wait_key_beq, wait_key_beq_iff, wait_key_eq, WaitNode, WaitList, WaitRegistry, modify,
  set_next, set_prev, or_default, same_id, push_back, list_push_back,
}
use maroon.WaitRegistry.Links.{
  last, AreLinked, AreLinked-same, AreDistinct-push, IsQueue, push_back-IsQueue,
}
use maroon.WaitRegistry.Spans.{last-is-last_or, last-apart}
use maroon.WaitRegistry.Unlink.{get-set_next, get-set_prev}
use maroon.WaitRegistry.Waiters.{
  Waiter, all_ids, ids_of, IsOwned, IsThreaded, ids_of-append, all_ids-append, ids_of-hit,
  ids_of-other, All-ids_of, keys-apart, All-none,
}

abbrev pushed_at : Option ℕ → ℕ → ℕ → WaitNode → WaitNode
pushed_at none i k n = n
pushed_at (some t) i k n = record n {
  prev = if i == k then some t else n.prev;
  next = if t == k then some i else n.next;
}

get-push_back :
    (wl : WaitList) (nodes : Map ℕ WaitNode) (i k : ℕ) (n : WaitNode)
    → get nodes k ≡ some n
    → get (push_back i wl nodes).1 k ≡ some (pushed_at wl.tail i k n)
unfolding push_back
get-push_back wl nodes i k n at = at_tail wl.tail
  where
    at_tail :
        (tail : Option ℕ)
        → get
            (elim tail as (λ t. WaitList × Map ℕ WaitNode) [
              | none ↦ (record { head = some i; tail = some i }, nodes)
              | some t ↦ (
                record wl { tail = some i },
                modify (set_prev (some t)) (some i) (modify (set_next (some i)) (some t) nodes),
              )
            ]).1
            k
          ≡ some (pushed_at tail i k n)
    at_tail none = at
    at_tail (some t) =
        get-set_prev (modify (set_next (some i)) (some t) nodes) (some t) (some i) k
          (record n { next = if t == k then some i else n.next })
          (get-set_next nodes (some t) (some i) k n at)

AreLinked-push_back :
    (wl : WaitList) (nodes : Map ℕ WaitNode) (i : ℕ) (p : Option ℕ) (ids : List ℕ)
    → All (λ k. same_id wl.tail k ≡ false) ids
    → All (λ k. k ≢ i) ids
    → AreLinked nodes p ids
    → AreLinked (push_back i wl nodes).1 p ids
AreLinked-push_back wl nodes i p [] away out links = tt
AreLinked-push_back wl nodes i p (k ∷ ids) away out ((n, at, l, r), rest) = (
  (n, linked_at wl.tail (away.0) (get-push_back wl nodes i k n at), l, r),
  AreLinked-push_back wl nodes i (some k) ids away.1 out.1 rest,
)
  where
    linked_at :
        (tail : Option ℕ)
        → same_id tail k ≡ false
        → get (push_back i wl nodes).1 k ≡ some (pushed_at tail i k n)
        → get (push_back i wl nodes).1 k ≡ some n
    linked_at none off here = here
    linked_at (some t) off here = ground (arith, here, off, out.0)

module _ {St : Type 0} where
  IsOwned-push_back :
      (wl : WaitList) (nodes : Map ℕ WaitNode) (i : ℕ) (ws : List (Waiter St))
      → All (IsOwned nodes) ws
      → All (IsOwned (push_back i wl nodes).1) ws
  IsOwned-push_back wl nodes i [] all = tt
  IsOwned-push_back wl nodes i (w ∷ ws) ((n, at, reg, fiber), all) = (
    owned_at wl.tail (get-push_back wl nodes i w.arm.node_id n at),
    IsOwned-push_back wl nodes i ws all,
  )
    where
      owned_at :
          (tail : Option ℕ)
          → get (push_back i wl nodes).1 w.arm.node_id ≡ some (pushed_at tail i w.arm.node_id n)
          → IsOwned (push_back i wl nodes).1 w
      owned_at none here = (n, here, reg, fiber)
      owned_at (some t) here = (pushed_at (some t) i w.arm.node_id n, here, reg, fiber)

  pub fresh :
      (nodes : Map ℕ WaitNode) (i : ℕ) (ws : List (Waiter St))
      → get nodes i ≡ none
      → All (IsOwned nodes) ws
      → All (λ k. k ≢ i) (all_ids ws)
  fresh nodes i [] free all = tt
  fresh nodes i (w ∷ ws) free ((n, at, _, _), all) =
      ((λ e. ground (arith, ap (get nodes) e, at)), fresh nodes i ws free all)

  IsOwned-insert :
      (nodes : Map ℕ WaitNode) (i : ℕ) (m : WaitNode) (ws : List (Waiter St))
      → All (λ k. k ≢ i) (all_ids ws)
      → All (IsOwned nodes) ws
      → All (IsOwned (insert nodes i m)) ws
  IsOwned-insert nodes i m [] out all = tt
  IsOwned-insert nodes i m (w ∷ ws) out ((n, at, reg, fiber), all) = (
    (n, ground (arith, get-insert nodes i w.arm.node_id m, out.0), reg, fiber),
    IsOwned-insert nodes i m ws out.1 all,
  )

  -- A node that nobody has leaves the lists as they are.
  pub IsThreaded-insert :
      (per_key : Map WaitKey WaitList) (nodes : Map ℕ WaitNode) (i : ℕ) (m : WaitNode)
      (ws : List (Waiter St))
      → All (λ k. k ≢ i) (all_ids ws)
      → IsThreaded per_key nodes ws
      → IsThreaded per_key (insert nodes i m) ws
  IsThreaded-insert per_key nodes i m ws out (queues, distinct, owned) = (
    λ key.
        let (head, tail, links, once) = queues key in
        (
          head,
          tail,
          AreLinked-same nodes (insert nodes i m) none (ids_of key ws)
              (All-map (λ k. k ≢ i) (λ k. get (insert nodes i m) k ≡ get nodes k) (ids_of key ws)
                (λ k apart. ground (arith, get-insert nodes i k m))
                (All-ids_of (λ k. k ≢ i) key ws out))
              links,
          once,
        ),
    distinct,
    IsOwned-insert nodes i m ws out owned,
  )

  module _ (r : WaitRegistry St) (ws : List (Waiter St)) (w : Waiter St)
      (h : IsThreaded r.per_key r.nodes ws) (out : All (λ k. k ≢ w.arm.node_id) (all_ids ws))
      (n : WaitNode) (at : get r.nodes w.arm.node_id ≡ some n) where
    abbrev list : WaitList
    list = or_default (get r.per_key w.arm.key)

    abbrev after : Map ℕ WaitNode
    after = (push_back w.arm.node_id list r.nodes).1

    pushed-own :
        n.prev ≡ none
        → n.next ≡ none
        → IsQueue (push_back w.arm.node_id list r.nodes).0 after (ids_of w.arm.key (ws ++ w ∷ []))
    pushed-own starts ends =
        subst (λ ids. IsQueue (push_back w.arm.node_id list r.nodes).0 after ids)
          (sym (
            ids_of-append w.arm.key ws (w ∷ [])
            ∙ ap (◌++◌ (ids_of w.arm.key ws)) (ids_of-hit w.arm.key w [] refl)))
          (push_back-IsQueue list r.nodes (ids_of w.arm.key ws) w.arm.node_id n (h.0 w.arm.key) at
            starts ends (All-ids_of (λ k. k ≢ w.arm.node_id) w.arm.key ws out))

    pushed-other :
        (key : WaitKey)
        → w.arm.key ≢ key
        → IsQueue (or_default (get r.per_key key)) after (ids_of key (ws ++ w ∷ []))
    pushed-other key apart =
        let (head, tail, links, once) = h.0 key in
        let at_end : list.tail ≡ last (ids_of w.arm.key ws) = (h.0 w.arm.key).1 in
        subst (λ ids. IsQueue (or_default (get r.per_key key)) after ids)
          (sym (
            ids_of-append key ws (w ∷ [])
            ∙ ap (◌++◌ (ids_of key ws)) (ids_of-other key w [] apart)
            ∙ append-nil (ids_of key ws)))
          (
            head,
            tail,
            AreLinked-push_back list r.nodes w.arm.node_id none (ids_of key ws)
                (subst (λ o. All (λ k. same_id o k ≡ false) (ids_of key ws))
                  (sym (at_end ∙ last-is-last_or (ids_of w.arm.key ws)))
                  (last-apart none (ids_of w.arm.key ws) (ids_of key ws) (All-none (ids_of key ws))
                    (keys-apart w.arm.key key ws apart h.1)))
                (All-ids_of (λ k. k ≢ w.arm.node_id) key ws out) links,
            once,
          )

    pub list_push_back-IsThreaded :
        n.prev ≡ none
        → n.next ≡ none
        → n.reg_id ≡ w.reg_id
        → n.fiber_id ≡ w.fiber_id
        → IsThreaded
            (list_push_back r w.arm.key w.arm.node_id).per_key
            (list_push_back r w.arm.key w.arm.node_id).nodes
            (ws ++ w ∷ [])
    unfolding list_push_back
    list_push_back-IsThreaded starts ends reg fiber = (
      λ key. elim (Bool-cases (wait_key_beq w.arm.key key)) [
        | inl hit ↦
            subst
              (λ k.
                IsQueue
                  (or_default
                    (get (insert r.per_key w.arm.key (push_back w.arm.node_id list r.nodes).0) k))
                  after (ids_of k (ws ++ w ∷ [])))
              ((wait_key_beq_iff w.arm.key key).0 hit)
              (rw
                (
                  get-insert r.per_key w.arm.key w.arm.key (push_back w.arm.node_id list r.nodes).0,
                  (wait_key_beq_iff w.arm.key w.arm.key).1 refl,
                )
                (pushed-own starts ends))
        | inr miss ↦
            rw (get-insert r.per_key w.arm.key key (push_back w.arm.node_id list r.nodes).0, miss)
              (pushed-other key (λ e. cc ((wait_key_beq_iff w.arm.key key).1 e, miss)))
      ],
      rw (all_ids-append ws (w ∷ [])) (AreDistinct-push (all_ids ws) w.arm.node_id h.1 out),
      All-append (IsOwned after) ws (w ∷ []) (IsOwned-push_back list r.nodes w.arm.node_id ws h.2)
          (IsOwned-push_back list r.nodes w.arm.node_id (w ∷ []) ((n, at, reg, fiber), tt)),
    )

  pub regs-list_push_back :
      (r : WaitRegistry St) (key : WaitKey) (i : ℕ) → (list_push_back r key i).regs ≡ r.regs
  unfolding list_push_back
  regs-list_push_back r key i = refl
