-- ===== src/Codegen/Covered.antt =====
-- dsl/src/codegen.rs: the three lists that the generator makes of a function's states agree.
use text.Mathlib.Text.{◌==◌ as string_beq}
use text.Mathlib.TextEquality.{eq_iff}
use maroon.Prelude.{
  String, List, [], ◌∷◌, map, Bool, true, false, ◌&&◌, ◌||◌, not, ◌≡◌, refl, ap, sym, ◌∙◌, arith,
  ltb, count_if, Bool-cases, inl, inr,
}
use maroon.Prelude.Sort.{sort, count_if-sort}
use maroon.Dsl.{StepId, FiberType, Step, Func}
use maroon.Codegen.Exprs.{add}
use maroon.Codegen.Members.{member-dedup, member-sort, member-add}
use maroon.Codegen.States.{
  member, Steps, is_suppressed, kept_ids, kept_after_entry, kept_steps, unseen_steps, arm_steps,
  string_leb, key_leb, sorted, state_of, state_steps, func_states, func_args_states, func_arms,
  id_of,
}

abbrev states : (String → String) → Steps → List String
states state steps = map (λ s. state (id_of s)) steps

same_truth : (a b : Bool) → (a ≡ true → b ≡ true) → (b ≡ true → a ≡ true) → a ≡ b
same_truth true b f g = sym (f refl)
same_truth false true f g = g refl
same_truth false false f g = refl

module _ (g : String → String) where
  member-of_map :
      (v : String) (xs : List String)
      → member v (map g xs) ≡ true
      → (s : String) × (member s xs ≡ true) × (g s ≡ v)
  unfolding member
  member-of_map v [] h = cc
  member-of_map v (x ∷ xs) h = elim (Bool-cases (string_beq (g x) v)) [
    | inl same ↦ (x, ground (arith, eq_iff x x), (eq_iff (g x) v).0 same)
    | inr other ↦
        let (s, here, at) = member-of_map v xs (ground arith) in (s, ground (arith, here), at)
  ]

  pub member-map_of :
      (s : String) (xs : List String) → member s xs ≡ true → member (g s) (map g xs) ≡ true
  unfolding member
  member-map_of s [] h = cc
  member-map_of s (x ∷ xs) h = elim (Bool-cases (string_beq x s)) [
    | inl same ↦ rw ((eq_iff x s).0 same) (ground (arith, eq_iff (g s) (g s)))
    | inr other ↦ ground (arith, member-map_of s xs (ground arith))
  ]

  map-subset :
      (v : String) (xs ys : List String)
      → ((s : String) → member s xs ≡ member s ys)
      → member v (map g xs) ≡ true
      → member v (map g ys) ≡ true
  map-subset v xs ys same h =
      let (s, here, at) = member-of_map v xs h in
      rw at at (member-map_of s ys (sym (same s) ∙ here))

  -- Lists with the same members have images with the same members.
  member-map :
      (v : String) (xs ys : List String)
      → ((s : String) → member s xs ≡ member s ys)
      → member v (map g xs) ≡ member v (map g ys)
  member-map v xs ys same =
      same_truth _ _ (map-subset v xs ys same) (map-subset v ys xs (λ s. sym (same s)))

-- The steps of an id that are kept.
abbrev kept_as : Steps → String → StepId × Step → Bool
unfolding is_suppressed
kept_as steps s (id, step) = string_beq id s && not (is_suppressed steps id step)

member-kept_ids :
    (steps : Steps) (s : String) (xs : Steps)
    → member s (kept_ids steps xs) ≡ ltb 0 (count_if (kept_as steps s) xs)
unfolding member kept_ids
member-kept_ids steps s [] = refl
member-kept_ids steps s ((id, step) ∷ xs) = ground (arith, member-kept_ids steps s xs)

member-kept_sorted :
    (steps : Steps) (s : String) (xs : Steps)
    → member s (kept_ids steps (sorted xs)) ≡ member s (kept_ids steps xs)
unfolding sorted
member-kept_sorted steps s xs =
    member-kept_ids steps s (sorted xs)
    ∙ (ap (ltb 0) (count_if-sort key_leb (kept_as steps s) xs) ∙ sym (member-kept_ids steps s xs))

member-kept_after_entry :
    (steps : Steps) (s : String) (xs : Steps)
    → member s ("entry" ∷ kept_after_entry steps xs) ≡ member s ("entry" ∷ kept_ids steps xs)
unfolding member kept_ids kept_after_entry
member-kept_after_entry steps s [] = refl
member-kept_after_entry steps s ((id, step) ∷ xs) =
    ground (arith, member-kept_after_entry steps s xs, eq_iff id "entry")

kept_steps-ids : (steps xs : Steps) → map id_of (kept_steps steps xs) ≡ kept_ids steps xs
unfolding kept_ids kept_steps
kept_steps-ids steps [] = refl
kept_steps-ids steps ((id, step) ∷ xs) = ground (arith, kept_steps-ids steps xs)

member-unseen :
    (state : StepId → String) (v : String) (seen : List String) (xs : Steps)
    → (member v (states state (unseen_steps state seen xs)) || member v seen)
      ≡ (member v (states state xs) || member v seen)
unfolding member unseen_steps
member-unseen state v seen [] = refl
member-unseen state v seen ((id, step) ∷ xs) = elim (Bool-cases (member (state id) seen)) [
  | inl old ↦
      rw (old, unseen_steps) (ground (arith, member-unseen state v seen xs, eq_iff (state id) v))
  | inr new ↦
      rw (new, unseen_steps)
        (ground
          (arith, member-unseen state v (add (state id) seen) xs, member-add v (state id) seen))
]

map_map-states : (state : StepId → String) (xs : Steps) → states state xs ≡ map state (map id_of xs)
map_map-states state [] = refl
map_map-states state (x ∷ xs) = ap (λ rest. state (id_of x) ∷ rest) (map_map-states state xs)

pub member-state_steps :
    (s : String) (steps : Steps)
    → member s (state_steps steps) ≡ member s ("entry" ∷ kept_ids steps steps)
unfolding state_steps
member-state_steps s steps =
    member-dedup s (sort string_leb ("entry" ∷ kept_ids steps steps))
    ∙ member-sort string_leb s ("entry" ∷ kept_ids steps steps)

member-sorted_steps :
    (s : String) (steps : Steps)
    → member s ("entry" ∷ kept_ids steps (sorted steps)) ≡ member s (state_steps steps)
unfolding member
member-sorted_steps s steps =
    ap (λ b. string_beq "entry" s || b) (member-kept_sorted steps s steps)
    ∙ sym (member-state_steps s steps)

member-arm_steps :
    (v : String) (fiber : FiberType) (name : String) (func : Func)
    → member v (func_arms fiber name func)
      ≡ member v (map (state_of fiber name) ("entry" ∷ kept_ids func.steps (sorted func.steps)))
unfolding member func_arms arm_steps
member-arm_steps v fiber name func =
    let kept = kept_steps func.steps (sorted func.steps) in
    let seen : List String = state_of fiber name "entry" ∷ [] in
    ground (
      arith,
      member-unseen (state_of fiber name) v seen kept,
      map_map-states (state_of fiber name) kept,
      kept_steps-ids func.steps (sorted func.steps),
    )

-- For every function, the variants that the generated `State` has for it, the states that have an arm in
-- the generated `func_args_count`, and those that have an arm in the generated `global_step` are the same.
pub func_states-covered :
    (fiber : FiberType) (name : String) (func : Func) (v : String)
    → (member v (func_args_states fiber name func) ≡ member v (func_states fiber name func))
      × (member v (func_arms fiber name func) ≡ member v (func_states fiber name func))
unfolding func_states func_args_states
func_states-covered fiber name func v =
    let all = "entry" ∷ kept_ids func.steps (sorted func.steps) in
    let later = "entry" ∷ kept_after_entry func.steps (sorted func.steps) in
    let states = state_steps func.steps in
    (
      member-map (state_of fiber name) v later states (λ s.
          member-kept_after_entry func.steps s (sorted func.steps)
          ∙ member-sorted_steps s func.steps),
      member-arm_steps v fiber name func
          ∙ member-map (state_of fiber name) v all states (λ s. member-sorted_steps s func.steps),
    )
