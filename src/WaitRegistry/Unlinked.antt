-- ===== src/WaitRegistry/Unlinked.antt =====
-- runtime/src/wait_registry.rs: `list_unlink` takes one arm out, of the list of its key and of no other.
use mathlib.Core.Path.{subst}
use maroon.Prelude.{
  ℕ, ◌≡◌, ◌≢◌, refl, sym, ◌∙◌, ap, arith, List, [], ◌∷◌, ◌++◌, true, false, ◌&&◌, Option, none,
  some, All, All-append, All-of-append, if◌then◌else◌, Bool-cases, inl, inr,
}
use maroon.Prelude.Maps.{Map, nat_eq, get, get-insert, get-remove}
use maroon.WaitRegistry.{
  WaitKey, wait_key_beq, wait_key_beq_iff, wait_key_eq, WaitNode, WaitList, WaitRegistry,
  or_default, is_none, same_id, unlink_key, list_unlink,
}
use maroon.WaitRegistry.Links.{first, AreDistinct, IsQueue}
use maroon.WaitRegistry.Spans.{last_or, last-apart, AreDistinct-middle}
use maroon.WaitRegistry.Unlink.{
  unlinked, patched, get-unlinked, without, AreLinked-unlinked, unlink-IsQueue, neighbours,
}
use maroon.WaitRegistry.Waiters.{
  Waiter, AreApart, AreApart-eq, all_ids, ids_of, IsOwned, IsThreaded, ids_of-append,
  all_ids-append, ids_of-hit, ids_of-other, keys-apart, All-none, first-away,
}

is_none_iff : (o : Option ℕ) → is_none o ≡ true → o ≡ none
is_none_iff none h = refl
is_none_iff (some i) h = cc

emptied :
    (head tail : Option ℕ)
    → (is_none head && is_none tail) ≡ true
    → ◌≡◌ {A = WaitList} (record { head = none; tail = none }) (record { head = head; tail = tail })
emptied none none h = refl
emptied none (some t) h = cc
emptied (some i) tail h = cc

get-unlink_key :
    (o : Option WaitList) (m : Map WaitKey WaitList) (key : WaitKey) (i : ℕ) (prev next : Option ℕ)
    → get m key ≡ o
    → or_default (get (unlink_key o key i prev next m) key) ≡ without (or_default o) i prev next
get-unlink_key none m key i prev next at = rw at refl
get-unlink_key (some wl) m key i prev next at =
    let head = if same_id wl.head i then next else wl.head in
    let tail = if same_id wl.tail i then prev else wl.tail in
    let here = (wait_key_beq_iff key key).1 refl in
    elim (Bool-cases (is_none head && is_none tail)) [
      | inl empty ↦ rw empty (rw (get-remove m key key, here) (emptied head tail empty))
      | inr kept ↦
          rw kept (rw (get-insert m key key (record { head = head; tail = tail }), here) refl)
    ]

get-unlink_key-other :
    (o : Option WaitList) (m : Map WaitKey WaitList) (key other : WaitKey) (i : ℕ)
    (prev next : Option ℕ)
    → key ≢ other
    → get (unlink_key o key i prev next m) other ≡ get m other
get-unlink_key-other none m key other i prev next apart = refl
get-unlink_key-other (some wl) m key other i prev next apart =
    let head = if same_id wl.head i then next else wl.head in
    let tail = if same_id wl.tail i then prev else wl.tail in
    ground (
      arith,
      get-remove m key other,
      get-insert m key other (record { head = head; tail = tail }),
      wait_key_beq_iff key other,
    )

module _ {St : Type 0} where
  All-middle :
      (P : Waiter St → Type 0) (ws : List (Waiter St)) (w : Waiter St) (vs : List (Waiter St))
      → All P (ws ++ w ∷ vs)
      → P w × All P (ws ++ vs)
  All-middle P ws w vs all =
      let (front, (here, back)) = All-of-append P ws (w ∷ vs) all in
      (here, All-append P ws vs front back)

  IsOwned-unlinked :
      (nodes : Map ℕ WaitNode) (i : ℕ) (prev next : Option ℕ) (ws : List (Waiter St))
      → All (λ k. k ≢ i) (all_ids ws)
      → All (IsOwned nodes) ws
      → All (IsOwned (unlinked nodes i prev next)) ws
  IsOwned-unlinked nodes i prev next [] out all = tt
  IsOwned-unlinked nodes i prev next (w ∷ ws) out ((n, at, reg, fiber), all) = (
    (
      patched prev next w.arm.node_id n,
      get-unlinked nodes i prev next w.arm.node_id n out.0 at,
      reg,
      fiber,
    ),
    IsOwned-unlinked nodes i prev next ws out.1 all,
  )

  module _ (per_key : Map WaitKey WaitList) (nodes : Map ℕ WaitNode) (ws : List (Waiter St))
      (w : Waiter St) (vs : List (Waiter St)) (h : IsThreaded per_key nodes (ws ++ w ∷ vs))
      (n : WaitNode) (at : get nodes w.arm.node_id ≡ some n) where
    abbrev own : WaitKey
    own = w.arm.key

    own-list :
        IsQueue
          (or_default (get per_key own))
          nodes
          (ids_of own ws ++ w.arm.node_id ∷ ids_of own vs)
    own-list =
        subst (λ ids. IsQueue (or_default (get per_key own)) nodes ids)
          (ids_of-append own ws (w ∷ vs) ∙ ap (◌++◌ (ids_of own ws)) (ids_of-hit own w vs refl))
          (h.0 own)

    ends : (n.prev ≡ last_or none (ids_of own ws)) × (n.next ≡ first (ids_of own vs))
    ends = neighbours nodes (ids_of own ws) w.arm.node_id (ids_of own vs) n own-list.2 at

    others : AreDistinct (all_ids (ws ++ vs)) × All (λ k. k ≢ w.arm.node_id) (all_ids (ws ++ vs))
    others = rw (all_ids-append ws vs) (
        AreDistinct-middle (all_ids ws) w.arm.node_id (all_ids vs)
          (subst AreDistinct (all_ids-append ws (w ∷ vs)) h.1))

    unlinked-own :
        IsQueue
          (or_default
            (get (unlink_key (get per_key own) own w.arm.node_id n.prev n.next per_key) own))
          (unlinked nodes w.arm.node_id n.prev n.next)
          (ids_of own (ws ++ vs))
    unlinked-own =
        rw
          (
            get-unlink_key (get per_key own) per_key own w.arm.node_id n.prev n.next refl,
            ids_of-append own ws vs,
          )
          (unlink-IsQueue (or_default (get per_key own)) nodes (ids_of own ws) w.arm.node_id
            (ids_of own vs) n.prev n.next own-list ends.0 ends.1)

    unlinked-other :
        (key : WaitKey)
        → own ≢ key
        → IsQueue
            (or_default
              (get (unlink_key (get per_key own) own w.arm.node_id n.prev n.next per_key) key))
            (unlinked nodes w.arm.node_id n.prev n.next)
            (ids_of key (ws ++ vs))
    unlinked-other key apart =
        let same : ids_of key (ws ++ w ∷ vs) ≡ ids_of key (ws ++ vs) =
          ids_of-append key ws (w ∷ vs)
          ∙ ap (◌++◌ (ids_of key ws)) (ids_of-other key w vs apart)
          ∙ sym (ids_of-append key ws vs) in
        let (head, tail, links, distinct) =
          subst (λ ids. IsQueue (or_default (get per_key key)) nodes ids) same (h.0 key) in
        let away : AreApart (ids_of own ws ++ w.arm.node_id ∷ ids_of own vs)
            (ids_of key (ws ++ vs)) =
          AreApart-eq
            (ids_of-append own ws (w ∷ vs) ∙ ap (◌++◌ (ids_of own ws)) (ids_of-hit own w vs refl))
            same (keys-apart own key (ws ++ w ∷ vs) apart h.1) in
        let (front, (out, back)) =
          All-of-append (λ i. All (λ j. j ≢ i) (ids_of key (ws ++ vs))) (ids_of own ws)
            (w.arm.node_id ∷ ids_of own vs) away in
        rw
          (get-unlink_key-other (get per_key own) per_key own key w.arm.node_id n.prev n.next apart)
          (
            head,
            tail,
            AreLinked-unlinked nodes w.arm.node_id n.prev n.next none (ids_of key (ws ++ vs)) out
                (subst (λ o. All (λ k. same_id o k ≡ false) (ids_of key (ws ++ vs))) (sym (ends.0))
                  (last-apart none (ids_of own ws) (ids_of key (ws ++ vs))
                    (All-none (ids_of key (ws ++ vs))) front))
                (subst (λ o. All (λ k. same_id o k ≡ false) (ids_of key (ws ++ vs))) (sym (ends.1))
                  (first-away (ids_of own vs) (ids_of key (ws ++ vs)) back))
                links,
            distinct,
          )

module _ {St : Type 0} where
  list_unlink-found :
      (r : WaitRegistry St) (key : WaitKey) (i : ℕ) (n : WaitNode)
      → get r.nodes i ≡ some n
      → list_unlink r key i ≡ record r {
        nodes = unlinked r.nodes i n.prev n.next;
        per_key = unlink_key (get r.per_key key) key i n.prev n.next r.per_key;
      }
  unfolding list_unlink
  list_unlink-found r key i n at = ground (arith, at)

  -- The arms that wait stay in their order, without the one that is unlinked.
  pub list_unlink-IsThreaded :
      (r : WaitRegistry St) (ws : List (Waiter St)) (w : Waiter St) (vs : List (Waiter St))
      → IsThreaded r.per_key r.nodes (ws ++ w ∷ vs)
      → IsThreaded
          (list_unlink r w.arm.key w.arm.node_id).per_key
          (list_unlink r w.arm.key w.arm.node_id).nodes
          (ws ++ vs)
  list_unlink-IsThreaded r ws w vs h =
      let ((n, at, _, _), owned) = All-middle (IsOwned r.nodes) ws w vs h.2 in
      let (distinct, out) = others r.per_key r.nodes ws w vs h n at in
      subst (λ r'. IsThreaded r'.per_key r'.nodes (ws ++ vs))
        (sym (list_unlink-found r w.arm.key w.arm.node_id n at))
        (
          (λ key. elim (Bool-cases (wait_key_beq w.arm.key key)) [
            | inl hit ↦
                subst
                  (λ k.
                    IsQueue
                      (or_default (
                        get
                          (unlink_key (get r.per_key w.arm.key) w.arm.key w.arm.node_id n.prev
                            n.next r.per_key)
                          k))
                      (unlinked r.nodes w.arm.node_id n.prev n.next) (ids_of k (ws ++ vs)))
                  ((wait_key_beq_iff w.arm.key key).0 hit)
                  (unlinked-own r.per_key r.nodes ws w vs h n at)
            | inr miss ↦
                unlinked-other r.per_key r.nodes ws w vs h n at key
                  (λ e. cc ((wait_key_beq_iff w.arm.key key).1 e, miss))
          ]),
          distinct,
          IsOwned-unlinked r.nodes w.arm.node_id n.prev n.next (ws ++ vs) out owned,
        )

  pub regs-list_unlink :
      (r : WaitRegistry St) (key : WaitKey) (i : ℕ) → (list_unlink r key i).regs ≡ r.regs
  unfolding list_unlink
  regs-list_unlink r key i = ground arith
