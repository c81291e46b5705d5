-- ===== src/WaitRegistry/Links.antt =====
-- runtime/src/wait_registry.rs: the doubly linked list of a key, and `list_push_back` on it.
use mathlib.Core.Path.{subst}
use maroon.Prelude.{
  ℕ, ◌≡◌, ◌≢◌, refl, sym, ◌∙◌, arith, List, [], ◌∷◌, ◌++◌, Option, none, some, All, ◌==◌,
  if◌then◌else◌,
}
use maroon.Prelude.Maps.{Map, nat_eq, get, insert, get-insert}
use maroon.WaitRegistry.{WaitNode, WaitList, push_back, set_next, set_prev}

abbrev pub first : List ℕ → Option ℕ
first [] = none
first (i ∷ is) = some i

abbrev pub last : List ℕ → Option ℕ
last [] = none
last (i ∷ []) = some i
last (i ∷ j ∷ is) = last (j ∷ is)

-- The nodes of the list are linked both ways, in its order.
abbrev pub AreLinked : Map ℕ WaitNode → Option ℕ → List ℕ → Type 0
AreLinked nodes prev [] = Unit
AreLinked nodes prev (i ∷ is) =
    ((n : WaitNode) × (get nodes i ≡ some n) × (n.prev ≡ prev) × (n.next ≡ first is))
    × AreLinked nodes (some i) is

abbrev pub AreDistinct : List ℕ → Type 0
AreDistinct [] = Unit
AreDistinct (i ∷ is) = All (λ j. j ≢ i) is × AreDistinct is

abbrev pub IsQueue : WaitList → Map ℕ WaitNode → List ℕ → Type 0
IsQueue wl nodes ids =
    (wl.head ≡ first ids) × (wl.tail ≡ last ids) × AreLinked nodes none ids × AreDistinct ids

-- Links through nodes that are left alone.
pub AreLinked-same :
    (nodes nodes' : Map ℕ WaitNode) (prev : Option ℕ) (ids : List ℕ)
    → All (λ i. get nodes' i ≡ get nodes i) ids
    → AreLinked nodes prev ids
    → AreLinked nodes' prev ids
AreLinked-same nodes nodes' prev [] same links = tt
AreLinked-same nodes nodes' prev (i ∷ is) same ((n, here, before, after), rest) =
    ((n, same.0 ∙ here, before, after), AreLinked-same nodes nodes' (some i) is same.1 rest)

-- What the two writes of `push_back` leave at each node.
abbrev linked_at : Map ℕ WaitNode → ℕ → ℕ → WaitNode → WaitNode → Map ℕ WaitNode
linked_at nodes tail_id node_id t n =
    insert (insert nodes tail_id (set_next (some node_id) t)) node_id (set_prev (some tail_id) n)

get-linked_at :
    (nodes : Map ℕ WaitNode) (tail_id node_id : ℕ) (t n : WaitNode) (k : ℕ)
    → get (linked_at nodes tail_id node_id t n) k ≡ (
        if node_id == k
        then some (set_prev (some tail_id) n)
        else (if tail_id == k then some (set_next (some node_id) t) else get nodes k))
get-linked_at nodes tail_id node_id t n k = ground (
  arith,
  get-insert (insert nodes tail_id (set_next (some node_id) t)) node_id k
      (set_prev (some tail_id) n),
  get-insert nodes tail_id k (set_next (some node_id) t),
)

All-last : (P : ℕ → Type 0) (ids : List ℕ) (k : ℕ) → last ids ≡ some k → All P ids → P k
All-last P [] k e all = cc
All-last P (i ∷ []) k e all = let same : i ≡ k = ground arith in rw (← same) all.0
All-last P (i ∷ j ∷ is) k e all = All-last P (j ∷ is) k e all.1

-- After the writes, the list's links go on to the new node.
AreLinked-push :
    (nodes : Map ℕ WaitNode) (prev : Option ℕ) (ids : List ℕ) (tail_id node_id : ℕ) (t n : WaitNode)
    → last ids ≡ some tail_id
    → get nodes tail_id ≡ some t
    → n.next ≡ none
    → AreDistinct ids
    → All (λ i. i ≢ node_id) ids
    → AreLinked nodes prev ids
    → AreLinked (linked_at nodes tail_id node_id t n) prev (ids ++ node_id ∷ [])
AreLinked-push nodes prev [] tail_id node_id t n is_last at ends distinct fresh links = cc
AreLinked-push nodes prev (i ∷ []) tail_id node_id t n is_last at ends distinct fresh
      ((m, here, before, after), rest) =
    let same : i ≡ tail_id = ground arith in
    let node : m ≡ t = ground arith in
    (
      (
        set_next (some node_id) t,
        ground (arith, get-linked_at nodes tail_id node_id t n i, fresh.0),
        ground (arith, node, before),
        refl,
      ),
      (
        (
          set_prev (some tail_id) n,
          ground (arith, get-linked_at nodes tail_id node_id t n node_id),
          ground arith,
          ends,
        ),
        tt,
      ),
    )
AreLinked-push nodes prev (i ∷ j ∷ is) tail_id node_id t n is_last at ends distinct fresh
      ((m, here, before, after), rest) =
    let apart : tail_id ≢ i = All-last (λ k. k ≢ i) (j ∷ is) tail_id is_last distinct.0 in
    (
      (m, ground (arith, get-linked_at nodes tail_id node_id t n i, fresh.0, apart), before, after),
      AreLinked-push nodes (some i) (j ∷ is) tail_id node_id t n is_last at ends distinct.1 fresh.1
          rest,
    )

pub AreLinked-found :
    (nodes : Map ℕ WaitNode) (prev : Option ℕ) (ids : List ℕ)
    → AreLinked nodes prev ids
    → All (λ i. (n : WaitNode) × (get nodes i ≡ some n)) ids
AreLinked-found nodes prev [] links = tt
AreLinked-found nodes prev (i ∷ is) ((n, here, _, _), rest) =
    ((n, here), AreLinked-found nodes (some i) is rest)

last_item : (i : ℕ) (is : List ℕ) → (k : ℕ) × (last (i ∷ is) ≡ some k)
last_item i [] = (i, refl)
last_item i (j ∷ is) = last_item j is

last-push : (ids : List ℕ) (k : ℕ) → last (ids ++ k ∷ []) ≡ some k
last-push [] k = refl
last-push (i ∷ []) k = refl
last-push (i ∷ j ∷ is) k = last-push (j ∷ is) k

All-push : (P : ℕ → Type 0) (ids : List ℕ) (k : ℕ) → All P ids → P k → All P (ids ++ k ∷ [])
All-push P [] k all h = (h, tt)
All-push P (i ∷ is) k all h = (all.0, All-push P is k all.1 h)

pub AreDistinct-push :
    (ids : List ℕ) (k : ℕ) → AreDistinct ids → All (λ i. i ≢ k) ids → AreDistinct (ids ++ k ∷ [])
AreDistinct-push [] k distinct fresh = (tt, tt)
AreDistinct-push (i ∷ is) k distinct fresh = (
  All-push (λ j. j ≢ i) is k distinct.0 (λ e. fresh.0 (sym e)),
  AreDistinct-push is k distinct.1 fresh.1,
)

push_back-linked :
    (wl : WaitList) (nodes : Map ℕ WaitNode) (tail_id node_id : ℕ) (t n : WaitNode)
    → wl.tail ≡ some tail_id
    → get nodes tail_id ≡ some t
    → get nodes node_id ≡ some n
    → tail_id ≢ node_id
    → push_back node_id wl nodes
      ≡ (record wl { tail = some node_id }, linked_at nodes tail_id node_id t n)
unfolding push_back
push_back-linked wl nodes tail_id node_id t n at_tail there at other =
    let still : get (insert nodes tail_id (set_next (some node_id) t)) node_id ≡ some n =
      ground (arith, get-insert nodes tail_id node_id (set_next (some node_id) t), at, other) in
    ground (arith, at_tail, there, still)

-- A new node, which is not in the list and has no neighbours yet, is put at the end of the list of a
-- key: the links, both ways, the head and the tail then show the same nodes in the same order with
-- the new one as the last, each of them once.
pub push_back-IsQueue :
    (wl : WaitList) (nodes : Map ℕ WaitNode) (ids : List ℕ) (node_id : ℕ) (n : WaitNode)
    → IsQueue wl nodes ids
    → get nodes node_id ≡ some n
    → n.prev ≡ none
    → n.next ≡ none
    → All (λ i. i ≢ node_id) ids
    → IsQueue (push_back node_id wl nodes).0 (push_back node_id wl nodes).1 (ids ++ node_id ∷ [])
unfolding push_back
push_back-IsQueue wl nodes [] node_id n (head, tail, links, distinct) at starts ends fresh =
    rw tail (refl, refl, ((n, at, starts, ends), tt), (tt, tt))
push_back-IsQueue wl nodes (i ∷ is) node_id n (head, tail, links, distinct) at starts ends fresh =
    let (tail_id, is_last) = last_item i is in
    let (t, there) =
      All-last (λ k. (m : WaitNode) × (get nodes k ≡ some m)) (i ∷ is) tail_id is_last
        (AreLinked-found nodes none (i ∷ is) links) in
    let other : tail_id ≢ node_id = All-last (λ k. k ≢ node_id) (i ∷ is) tail_id is_last fresh in
    let at_tail : wl.tail ≡ some tail_id = tail ∙ is_last in
    subst (λ q. IsQueue q.0 q.1 (i ∷ is ++ node_id ∷ []))
      (sym (push_back-linked wl nodes tail_id node_id t n at_tail there at other))
      (
        head,
        sym (last-push (i ∷ is) node_id),
        AreLinked-push nodes none (i ∷ is) tail_id node_id t n is_last there ends distinct fresh
            links,
        AreDistinct-push (i ∷ is) node_id distinct fresh,
      )
