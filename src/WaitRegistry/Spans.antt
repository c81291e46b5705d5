-- ===== src/WaitRegistry/Spans.antt =====
-- runtime/src/wait_registry.rs: the part of a doubly linked list before a node, and the part after it.
use maroon.Prelude.{
  ℕ, ◌≡◌, ◌≢◌, refl, sym, ◌∙◌, arith, List, [], ◌∷◌, ◌++◌, false, Option, none, some, All,
  All-append, All-of-append, All-map,
}
use maroon.Prelude.Maps.{Map, nat_eq, get}
use maroon.WaitRegistry.{WaitNode, same_id}
use maroon.WaitRegistry.Links.{first, last, AreLinked, AreDistinct}

abbrev pub last_or : Option ℕ → List ℕ → Option ℕ
last_or p [] = p
last_or p (i ∷ is) = last_or (some i) is

abbrev pub first_or : List ℕ → Option ℕ → Option ℕ
first_or [] e = e
first_or (i ∷ is) e = some i

-- The nodes are linked both ways, from `prev` before the first to `next` after the last.
abbrev pub Spans : Map ℕ WaitNode → Option ℕ → List ℕ → Option ℕ → Type 0
Spans nodes prev [] next = Unit
Spans nodes prev (i ∷ is) next =
    ((n : WaitNode) × (get nodes i ≡ some n) × (n.prev ≡ prev) × (n.next ≡ first_or is next))
    × Spans nodes (some i) is next

pub last-last_or : (i : ℕ) (is : List ℕ) → last (i ∷ is) ≡ last_or (some i) is
last-last_or i [] = refl
last-last_or i (j ∷ is) = last-last_or j is

pub last_or-append :
    (p : Option ℕ) (xs ys : List ℕ) → last_or p (xs ++ ys) ≡ last_or (last_or p xs) ys
last_or-append p [] ys = refl
last_or-append p (x ∷ xs) ys = last_or-append (some x) xs ys

pub last-is-last_or : (is : List ℕ) → last is ≡ last_or none is
last-is-last_or [] = refl
last-is-last_or (i ∷ is) = last-last_or i is

pub last-append : (xs : List ℕ) (i : ℕ) (ys : List ℕ) → last (xs ++ i ∷ ys) ≡ last_or (some i) ys
last-append xs i ys = last-is-last_or (xs ++ i ∷ ys) ∙ last_or-append none xs (i ∷ ys)

pub last_or-apart :
    (j : ℕ) (is : List ℕ) (k : ℕ)
    → j ≢ k
    → All (λ i. i ≢ k) is
    → same_id (last_or (some j) is) k ≡ false
last_or-apart j [] k apart all = ground arith
last_or-apart j (i ∷ is) k apart all = last_or-apart i is k all.0 all.1

-- A list that is linked as a whole is linked up to a node, at it and after it.
pub Spans-of-AreLinked :
    (nodes : Map ℕ WaitNode) (p : Option ℕ) (xs : List ℕ) (i : ℕ) (ys : List ℕ)
    → AreLinked nodes p (xs ++ i ∷ ys)
    → Spans nodes p xs (some i) × AreLinked nodes (last_or p xs) (i ∷ ys)
Spans-of-AreLinked nodes p [] i ys links = (tt, links)
Spans-of-AreLinked nodes p (x ∷ []) i ys ((n, here, before, after), rest) =
    (((n, here, before, after), tt), rest)
Spans-of-AreLinked nodes p (x ∷ y ∷ xs) i ys ((n, here, before, after), rest) =
    let (front, back) = Spans-of-AreLinked nodes (some x) (y ∷ xs) i ys rest in
    (((n, here, before, after), front), back)

pub AreLinked-join :
    (nodes : Map ℕ WaitNode) (p : Option ℕ) (xs ys : List ℕ)
    → Spans nodes p xs (first ys)
    → AreLinked nodes (last_or p xs) ys
    → AreLinked nodes p (xs ++ ys)
AreLinked-join nodes p [] ys front back = back
AreLinked-join nodes p (x ∷ []) ys ((n, here, before, after), tt) back =
    ((n, here, before, after), back)
AreLinked-join nodes p (x ∷ y ∷ xs) ys ((n, here, before, after), rest) back =
    ((n, here, before, after), AreLinked-join nodes (some x) (y ∷ xs) ys rest back)

pub AreDistinct-parts :
    (xs ys : List ℕ)
    → AreDistinct (xs ++ ys)
    → AreDistinct xs × AreDistinct ys × All (λ k. All (λ j. j ≢ k) ys) xs
AreDistinct-parts [] ys distinct = (tt, distinct, tt)
AreDistinct-parts (x ∷ xs) ys (out, distinct) =
    let (front, back) = All-of-append (λ j. j ≢ x) xs ys out in
    let (a, b, c) = AreDistinct-parts xs ys distinct in ((front, a), b, (back, c))

pub AreDistinct-middle :
    (xs : List ℕ) (i : ℕ) (ys : List ℕ)
    → AreDistinct (xs ++ i ∷ ys)
    → AreDistinct (xs ++ ys) × All (λ k. k ≢ i) (xs ++ ys)
AreDistinct-middle [] i ys (out, distinct) = (distinct, out)
AreDistinct-middle (x ∷ xs) i ys (out, distinct) =
    let (rest, others) = AreDistinct-middle xs i ys distinct in
    let (front, back) = All-of-append (λ j. j ≢ x) xs (i ∷ ys) out in
    ((All-append (λ j. j ≢ x) xs ys front back.1, rest), ((λ e. back.0 (sym e)), others))

pub first-apart :
    (xs ys : List ℕ)
    → All (λ k. All (λ j. j ≢ k) ys) xs
    → All (λ k. same_id (first ys) k ≡ false) xs
first-apart xs [] all = All-map (λ k. Unit) (λ k. same_id none k ≡ false) xs (λ k _. refl) all
first-apart xs (y ∷ ys) all =
    All-map (λ k. All (λ j. j ≢ k) (y ∷ ys)) (λ k. same_id (some y) k ≡ false) xs
      (λ k out. ground (arith, out.0)) all

pub last-apart :
    (p : Option ℕ) (xs ys : List ℕ)
    → All (λ k. same_id p k ≡ false) ys
    → All (λ k. All (λ j. j ≢ k) ys) xs
    → All (λ k. same_id (last_or p xs) k ≡ false) ys
last-apart p [] ys before all = before
last-apart p (x ∷ xs) ys before all =
    last-apart (some x) xs ys
      (All-map (λ j. j ≢ x) (λ j. same_id (some x) j ≡ false) ys (λ j out. ground arith) all.0)
      all.1
