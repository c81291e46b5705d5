-- ===== src/Codegen/Jumps.antt =====
-- dsl/src/codegen.rs: the states that the code of a step goes on to.
use text.Mathlib.Text.{◌==◌ as string_beq}
use text.Mathlib.TextEquality.{eq_iff}
use maroon.Prelude.{
  String, List, [], ◌∷◌, Bool, true, false, ◌||◌, Option, none, some, ◌≡◌, refl, ◌∙◌, arith,
  Bool-cases, inl, inr,
}
use maroon.Prelude.Maps.{string_eq, get, contains_key}
use maroon.Dsl.{StepId, LocalVarRef, FiberType, Step, Func}
use maroon.Codegen.States.{
  member, Steps, single_bind, returned_var, returns_var, suppress, suppressed_from, suppressed,
  is_direct_block, has_direct_block, is_direct_return, is_suppressed, kept_ids, state_of,
  state_steps, func_states,
}
use maroon.Codegen.Members.{member-add}
use maroon.Codegen.Covered.{member-state_steps, member-map_of}

abbrev is_next : StepId → Option (LocalVarRef × StepId) → Bool
is_next id none = false
is_next id (some (b, next)) = string_beq next id

-- A block of Rust code with one bind leads to the step.
unfoldable pub block_to : Steps → StepId → Bool
block_to [] id = false
block_to ((sid, step) ∷ rest) id = is_next id (single_bind step) || block_to rest id

member-suppress :
    (steps : Steps) (block : Option (LocalVarRef × StepId)) (s : String) (acc : List String)
    → is_next s block ≡ false
    → member s (suppress steps block acc) ≡ member s acc
unfolding suppress
member-suppress steps none s acc h = refl
member-suppress steps (some (b, next)) s acc h =
    elim (Bool-cases (returns_var b (get steps next))) [
      | inl returns ↦ rw returns (ground (arith, member-add s next acc))
      | inr goes_on ↦ rw goes_on refl
    ]

member-suppressed_from :
    (steps rest : Steps) (s : String) (acc : List String)
    → block_to rest s ≡ false
    → member s (suppressed_from steps rest acc) ≡ member s acc
unfolding suppressed_from block_to
member-suppressed_from steps [] s acc h = refl
member-suppressed_from steps ((id, step) ∷ rest) s acc h =
    member-suppressed_from steps rest s (suppress steps (single_bind step) acc) (ground arith)
    ∙ member-suppress steps (single_bind step) s acc (ground arith)

is_direct_block-next :
    (s : StepId) (vn : LocalVarRef) (block : Option (LocalVarRef × StepId))
    → is_next s block ≡ false
    → is_direct_block s vn block ≡ false
is_direct_block-next s vn none h = refl
is_direct_block-next s vn (some (b, next)) h = ground arith

has_direct_block-to :
    (steps : Steps) (s : StepId) (vn : LocalVarRef)
    → block_to steps s ≡ false
    → has_direct_block steps s vn ≡ false
unfolding has_direct_block block_to
has_direct_block-to [] s vn h = refl
has_direct_block-to ((id, step) ∷ rest) s vn h = ground (
  arith,
  is_direct_block-next s vn (single_bind step) (ground arith),
  has_direct_block-to rest s vn (ground arith),
)

is_direct_return-to :
    (steps : Steps) (s : StepId) (returned : Option LocalVarRef)
    → block_to steps s ≡ false
    → is_direct_return steps s returned ≡ false
unfolding is_direct_return
is_direct_return-to steps s none h = refl
is_direct_return-to steps s (some vn) h = has_direct_block-to steps s vn h

-- A step is folded only if a block of Rust code with one bind leads to it.
is_suppressed-block_to :
    (steps : Steps) (s : StepId) (step : Step)
    → block_to steps s ≡ false
    → is_suppressed steps s step ≡ false
unfolding is_suppressed suppressed member
is_suppressed-block_to steps s step h = ground (
  arith,
  member-suppressed_from steps steps s [] h,
  is_direct_return-to steps s (returned_var step) h,
)

-- It is declared, and no block with one bind leads to it.
abbrev pub IsOpen : Steps → StepId → Type 0
IsOpen steps s = (contains_key steps s ≡ true) × (block_to steps s ≡ false)

member-kept_open :
    (steps rest : Steps) (s : StepId)
    → contains_key rest s ≡ true
    → block_to steps s ≡ false
    → member s (kept_ids steps rest) ≡ true
unfolding contains_key kept_ids member
member-kept_open steps [] s here h = cc
member-kept_open steps ((id, step) ∷ rest) s here h = elim (Bool-cases (string_beq id s)) [
  | inl hit ↦
      rw ((eq_iff id s).0 hit, is_suppressed-block_to steps s step h) (ground (arith, eq_iff s s))
  | inr miss ↦ ground (arith, member-kept_open steps rest s (ground arith) h)
]

-- Such a step has a state.
pub func_states-open :
    (fiber : FiberType) (name : String) (func : Func) (s : StepId)
    → IsOpen func.steps s
    → member (state_of fiber name s) (func_states fiber name func) ≡ true
unfolding func_states member
func_states-open fiber name func s open_ =
    member-map_of (state_of fiber name) s (state_steps func.steps) (
      member-state_steps s func.steps
      ∙ ground (arith, member-kept_open func.steps func.steps s open_.0 open_.1))
