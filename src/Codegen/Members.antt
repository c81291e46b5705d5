-- ===== src/Codegen/Members.antt =====
-- Membership in a list of strings.
use text.Mathlib.Text.{◌==◌ as string_beq}
use text.Mathlib.TextEquality.{eq_iff, path_by_compare}
use maroon.Prelude.{String, List, [], ◌∷◌, Bool, ◌||◌, ◌≡◌, refl, ◌∙◌, sym, arith, ltb, count_if}
use maroon.Prelude.Sort.{sort, count_if-sort}
use Prim.Native.String.{compare}
use Prim.Native.Nat.{Ordering}
use maroon.Codegen.Exprs.{add, add_at}
use maroon.Codegen.States.{member, dedup}

pub member-count_if :
    (s : String) (ts : List String) → member s ts ≡ ltb 0 (count_if (λ t. string_beq t s) ts)
unfolding member
member-count_if s [] = refl
member-count_if s (t ∷ ts) = ground (arith, member-count_if s ts)

pub member-sort :
    (le : String → String → Bool) (s : String) (ts : List String)
    → member s (sort le ts) ≡ member s ts
member-sort le s ts =
    member-count_if s (sort le ts)
    ∙ (rw (count_if-sort le (λ t. string_beq t s) ts) refl ∙ sym (member-count_if s ts))

pub member-dedup : (s : String) (ts : List String) → member s (dedup ts) ≡ member s ts
unfolding member dedup
member-dedup s [] = refl
member-dedup s (t ∷ []) = refl
member-dedup s (t ∷ u ∷ ts) = ground (arith, member-dedup s (u ∷ ts), eq_iff t u)

member-add_at :
    (o : Ordering) (s t u : String) (ts added : List String)
    → compare t u ≡ o
    → member s added ≡ (string_beq t s || member s ts)
    → member s (add_at o t u ts added) ≡ (string_beq t s || (string_beq u s || member s ts))
unfolding member
member-add_at Ordering.lt s t u ts added e h = refl
member-add_at Ordering.eq s t u ts added e h =
    ground (arith, path_by_compare t u e, eq_iff u s, eq_iff t s)
member-add_at Ordering.gt s t u ts added e h = ground arith

pub member-add :
    (s t : String) (ts : List String) → member s (add t ts) ≡ (string_beq t s || member s ts)
unfolding member add
member-add s t [] = refl
member-add s t (u ∷ ts) = member-add_at (compare t u) s t u ts (add t ts) refl (member-add s t ts)
