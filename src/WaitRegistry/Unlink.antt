-- ===== src/WaitRegistry/Unlink.antt =====
-- runtime/src/wait_registry.rs: `list_unlink` on the doubly linked list of a key.
use maroon.Prelude.{
  ℕ, ◌≡◌, ◌≢◌, refl, sym, ◌∙◌, arith, List, [], ◌∷◌, ◌++◌, false, Option, none, some, All,
  All-of-append, All-map, ◌==◌, if◌then◌else◌,
}
use maroon.Prelude.Maps.{Map, nat_eq, get, insert, remove, get-insert, get-remove}
use maroon.WaitRegistry.{WaitNode, WaitList, modify, set_next, set_prev, same_id}
use maroon.WaitRegistry.Links.{first, last, AreLinked, AreDistinct, IsQueue}
use maroon.WaitRegistry.Spans.{
  last_or, Spans, last_or-apart, last-append, last-is-last_or, last_or-append, Spans-of-AreLinked,
  AreLinked-join, AreDistinct-parts, AreDistinct-middle, first-apart, last-apart,
}

-- The nodes after `list_unlink` took out the node `i`, which had the neighbours `prev` and `next`.
abbrev pub unlinked : Map ℕ WaitNode → ℕ → Option ℕ → Option ℕ → Map ℕ WaitNode
unlinked nodes i prev next =
    modify (set_prev prev) next (modify (set_next next) prev (remove nodes i))

abbrev pub patched : Option ℕ → Option ℕ → ℕ → WaitNode → WaitNode
patched prev next k n = record n {
  prev = if same_id next k then prev else n.prev;
  next = if same_id prev k then next else n.next;
}

get-modify :
    (g : WaitNode → WaitNode) (j : ℕ) (nodes : Map ℕ WaitNode) (k : ℕ) (n : WaitNode)
    → get nodes k ≡ some n
    → get (modify g (some j) nodes) k ≡ some (if j == k then g n else n)
get-modify g j nodes k n at = at_found (get nodes j) refl
  where
    at_found :
        (found : Option WaitNode)
        → get nodes j ≡ found
        → get
            (elim found as (λ x. Map ℕ WaitNode) [ none ↦ nodes | some m ↦ insert nodes j (g m) ])
            k
          ≡ some (if j == k then g n else n)
    at_found none e = ground (arith, at)
    at_found (some m) e = ground (arith, at, get-insert nodes j k (g m))

pub get-set_prev :
    (nodes : Map ℕ WaitNode) (prev next : Option ℕ) (k : ℕ) (n : WaitNode)
    → get nodes k ≡ some n
    → get (modify (set_prev prev) next nodes) k
      ≡ some (record n { prev = if same_id next k then prev else n.prev })
get-set_prev nodes prev none k n at = at
get-set_prev nodes prev (some j) k n at = ground (arith, get-modify (set_prev prev) j nodes k n at)

pub get-set_next :
    (nodes : Map ℕ WaitNode) (prev next : Option ℕ) (k : ℕ) (n : WaitNode)
    → get nodes k ≡ some n
    → get (modify (set_next next) prev nodes) k
      ≡ some (record n { next = if same_id prev k then next else n.next })
get-set_next nodes none next k n at = at
get-set_next nodes (some j) next k n at = ground (arith, get-modify (set_next next) j nodes k n at)

pub get-unlinked :
    (nodes : Map ℕ WaitNode) (i : ℕ) (prev next : Option ℕ) (k : ℕ) (n : WaitNode)
    → k ≢ i
    → get nodes k ≡ some n
    → get (unlinked nodes i prev next) k ≡ some (patched prev next k n)
get-unlinked nodes i prev next k n apart at =
    get-set_prev (modify (set_next next) prev (remove nodes i)) prev next k
      (record n { next = if same_id prev k then next else n.next })
      (get-set_next (remove nodes i) prev next k n (ground (arith, get-remove nodes i k, at)))

-- Nodes that are not neighbours of the one that was taken out.
pub AreLinked-unlinked :
    (nodes : Map ℕ WaitNode) (i : ℕ) (prev next : Option ℕ) (p : Option ℕ) (ids : List ℕ)
    → All (λ k. k ≢ i) ids
    → All (λ k. same_id prev k ≡ false) ids
    → All (λ k. same_id next k ≡ false) ids
    → AreLinked nodes p ids
    → AreLinked (unlinked nodes i prev next) p ids
AreLinked-unlinked nodes i prev next p [] apart before after links = tt
AreLinked-unlinked nodes i prev next p (k ∷ ids) apart before after ((n, here, l, r), rest) = (
  (
    patched prev next k n,
    get-unlinked nodes i prev next k n apart.0 here,
    rw (after.0) l,
    rw (before.0) r,
  ),
  AreLinked-unlinked nodes i prev next (some k) ids apart.1 before.1 after.1 rest,
)

-- The nodes before the one that was taken out: the last of them goes on to the next one.
Spans-unlinked :
    (nodes : Map ℕ WaitNode) (i : ℕ) (next : Option ℕ) (p : Option ℕ) (xs : List ℕ)
    → All (λ k. k ≢ i) xs
    → All (λ k. same_id next k ≡ false) xs
    → AreDistinct xs
    → Spans nodes p xs (some i)
    → Spans (unlinked nodes i (last_or p xs) next) p xs next
Spans-unlinked nodes i next p [] apart after distinct links = tt
Spans-unlinked nodes i next p (k ∷ []) apart after distinct ((n, here, l, r), rest) = (
  (
    patched (some k) next k n,
    get-unlinked nodes i (some k) next k n apart.0 here,
    rw (after.0) l,
    ground arith,
  ),
  tt,
)
Spans-unlinked nodes i next p (k ∷ j ∷ xs) apart after distinct ((n, here, l, r), rest) =
    let final = last_or (some j) xs in
    (
      (
        patched final next k n,
        get-unlinked nodes i final next k n apart.0 here,
        rw (after.0) l,
        rw (last_or-apart j xs k distinct.0.0 distinct.0.1) r,
      ),
      Spans-unlinked nodes i next (some k) (j ∷ xs) apart.1 after.1 distinct.1 rest,
    )

-- The nodes after it: the first of them goes back to the one before.
AreLinked-after :
    (nodes : Map ℕ WaitNode) (i : ℕ) (prev p : Option ℕ) (ys : List ℕ)
    → All (λ k. k ≢ i) ys
    → All (λ k. same_id prev k ≡ false) ys
    → AreDistinct ys
    → AreLinked nodes p ys
    → AreLinked (unlinked nodes i prev (first ys)) prev ys
AreLinked-after nodes i prev p [] apart before distinct links = tt
AreLinked-after nodes i prev p (k ∷ ys) apart before distinct ((n, here, l, r), rest) = (
  (
    patched prev (some k) k n,
    get-unlinked nodes i prev (some k) k n apart.0 here,
    ground arith,
    rw (before.0) r,
  ),
  AreLinked-unlinked nodes i prev (some k) (some k) ys apart.1 before.1
      (All-map (λ j. j ≢ k) (λ j. same_id (some k) j ≡ false) ys (λ j h. ground arith) distinct.0)
      rest,
)

-- The list of a key after `list_unlink` took out the node `i`.
abbrev pub without : WaitList → ℕ → Option ℕ → Option ℕ → WaitList
without wl i prev next = record {
  head = if same_id wl.head i then next else wl.head;
  tail = if same_id wl.tail i then prev else wl.tail;
}

head-without :
    (wl : WaitList) (xs : List ℕ) (i : ℕ) (ys : List ℕ) (prev : Option ℕ)
    → wl.head ≡ first (xs ++ i ∷ ys)
    → All (λ k. k ≢ i) (xs ++ ys)
    → (without wl i prev (first ys)).head ≡ first (xs ++ ys)
head-without wl [] i ys prev head out = rw head (ground arith)
head-without wl (x ∷ xs) i ys prev head out = rw head (ground (arith, out.0))

tail-without :
    (wl : WaitList) (xs : List ℕ) (i : ℕ) (ys : List ℕ) (next : Option ℕ)
    → wl.tail ≡ last (xs ++ i ∷ ys)
    → All (λ k. k ≢ i) ys
    → (without wl i (last_or none xs) next).tail ≡ last (xs ++ ys)
tail-without wl xs i [] next tail out =
    let at_end : wl.tail ≡ some i = tail ∙ last-append xs i [] in
    ground (arith, at_end, last-is-last_or (xs ++ []), last_or-append none xs [])
tail-without wl xs i (y ∷ ys) next tail out =
    let at_end : wl.tail ≡ last_or (some y) ys = tail ∙ last-append xs i (y ∷ ys) in
    let other : same_id wl.tail i ≡ false = rw at_end (last_or-apart y ys i out.0 out.1) in
    rw other (at_end ∙ sym (last-append xs y ys))

-- A node of a list is taken out: the list has the others, in their order, linked both ways.
pub unlink-IsQueue :
    (wl : WaitList) (nodes : Map ℕ WaitNode) (xs : List ℕ) (i : ℕ) (ys : List ℕ)
    (prev next : Option ℕ)
    → IsQueue wl nodes (xs ++ i ∷ ys)
    → prev ≡ last_or none xs
    → next ≡ first ys
    → IsQueue (without wl i prev next) (unlinked nodes i prev next) (xs ++ ys)
unlink-IsQueue wl nodes xs i ys prev next (head, tail, links, distinct) at_prev at_next =
    let (front, (_, back)) = Spans-of-AreLinked nodes none xs i ys links in
    let (rest, out) = AreDistinct-middle xs i ys distinct in
    let (dx, dy, apart) = AreDistinct-parts xs ys rest in
    let (out_x, out_y) = All-of-append (λ k. k ≢ i) xs ys out in
    rw (at_prev, at_next)
      (
        head-without wl xs i ys (last_or none xs) head out,
        tail-without wl xs i ys (first ys) tail out_y,
        AreLinked-join (unlinked nodes i (last_or none xs) (first ys)) none xs ys
            (Spans-unlinked nodes i (first ys) none xs out_x (first-apart xs ys apart) dx front)
            (AreLinked-after nodes i (last_or none xs) (some i) ys out_y
              (last-apart none xs ys
                (All-map (λ k. k ≢ i) (λ k. same_id none k ≡ false) ys (λ k _. refl) out_y) apart)
              dy back),
        rest,
      )

-- What the node that is taken out says of its neighbours.
pub neighbours :
    (nodes : Map ℕ WaitNode) (xs : List ℕ) (i : ℕ) (ys : List ℕ) (n : WaitNode)
    → AreLinked nodes none (xs ++ i ∷ ys)
    → get nodes i ≡ some n
    → (n.prev ≡ last_or none xs) × (n.next ≡ first ys)
neighbours nodes xs i ys n links at =
    let (_, ((m, here, l, r), _)) = Spans-of-AreLinked nodes none xs i ys links in
    let same : m ≡ n = ground arith in rw (← same) (l, r)
