-- ===== src/Codegen/States.antt =====
-- dsl/src/codegen.rs: the states of the generated code. A `return` step that a block of Rust code
-- leads to is folded into the block, and gets no state of its own.
use Prim.Native.String.{compare}
use Prim.Native.Nat.{Ordering}
use text.Mathlib.Text.{◌==◌ as string_beq}
use maroon.Prelude.{
  ℕ, ◌+◌, String, List, [], ◌∷◌, map, Bool, true, false, ◌&&◌, ◌||◌, Option, none, some,
  if◌then◌else◌, length,
}
use maroon.Prelude.Sort.{sort}
use maroon.Prelude.Maps.{Map, string_eq, get}
use maroon.Dsl.{StepId, LocalVarRef, FiberType, RetValue, Step, Func}
use maroon.Codegen.Names.{variant_name}
use maroon.Codegen.Exprs.{add}

-- `contains`, on a set of strings and on a list.
unfoldable pub member : String → List String → Bool
member s [] = false
member s (t ∷ ts) = string_beq t s || member s ts

abbrev pub Steps : Type 0
Steps = List (StepId × Step)

-- A block of Rust code with one bind: the bind, and the next step.
abbrev pub single_bind : Step → Option (LocalVarRef × StepId)
single_bind (Step.rust_block (b ∷ []) code next) = some (b, next)
single_bind _ = none

-- The variable that a step returns as it is.
abbrev pub returned_var : Step → Option LocalVarRef
returned_var (Step.return (RetValue.var vn)) = some vn
returned_var _ = none

abbrev pub is_var : LocalVarRef → Option LocalVarRef → Bool
is_var b none = false
is_var b (some vn) = string_beq vn b

abbrev pub returns_var : LocalVarRef → Option Step → Bool
returns_var b none = false
returns_var b (some step) = is_var b (returned_var step)

-- What a block of Rust code adds to the set of the folded steps.
unfoldable pub suppress : Steps → Option (LocalVarRef × StepId) → List String → List String
unfolding get add
suppress steps none acc = acc
suppress steps (some (b, next)) acc = if returns_var b (get steps next) then add next acc else acc

unfoldable pub suppressed_from : Steps → Steps → List String → List String
unfolding suppress
suppressed_from steps [] acc = acc
suppressed_from steps ((id, step) ∷ rest) acc =
    suppressed_from steps rest (suppress steps (single_bind step) acc)

unfoldable pub suppressed : Steps → List String
unfolding suppressed_from
suppressed steps = suppressed_from steps steps []

abbrev pub is_direct_block : StepId → LocalVarRef → Option (LocalVarRef × StepId) → Bool
is_direct_block id vn none = false
is_direct_block id vn (some (b, next)) = string_beq b vn && string_beq next id

unfoldable pub has_direct_block : Steps → StepId → LocalVarRef → Bool
has_direct_block [] id vn = false
has_direct_block ((sid, step) ∷ rest) id vn =
    is_direct_block id vn (single_bind step) || has_direct_block rest id vn

-- The "additional safety" of the source: a `return` of the variable that a block binds.
unfoldable pub is_direct_return : Steps → StepId → Option LocalVarRef → Bool
unfolding has_direct_block
is_direct_return steps id none = false
is_direct_return steps id (some vn) = has_direct_block steps id vn

unfoldable pub is_suppressed : Steps → StepId → Step → Bool
unfolding member suppressed is_direct_return
is_suppressed steps id step =
    member id (suppressed steps) || is_direct_return steps id (returned_var step)

unfoldable pub kept_ids : Steps → Steps → List String
unfolding is_suppressed
kept_ids steps [] = []
kept_ids steps ((id, step) ∷ rest) =
    let ids = kept_ids steps rest in if is_suppressed steps id step then ids else id ∷ ids

abbrev pub string_leb : String → String → Bool
string_leb s t = elim (compare s t) [ Ordering.gt ↦ false | _ ↦ true ]

-- `Vec::dedup`: of equal neighbours the first is kept.
unfoldable pub dedup : List String → List String
dedup [] = []
dedup (s ∷ []) = s ∷ []
dedup (s ∷ t ∷ ts) =
    let rest = dedup (t ∷ ts) in elim (string_beq s t) [ true ↦ rest | false ↦ s ∷ rest ]

-- The steps of a function that get a state.
unfoldable pub state_steps : Steps → List String
unfolding kept_ids dedup sort
state_steps steps = dedup (sort string_leb ("entry" ∷ kept_ids steps steps))

unfoldable pub state_of : FiberType → String → StepId → String
unfolding variant_name
state_of fiber func id = variant_name (fiber ∷ func ∷ id ∷ [])

-- The variants of `State` for a function.
unfoldable pub func_states : FiberType → String → Func → List String
unfolding state_of state_steps
func_states fiber name func = map (state_of fiber name) (state_steps func.steps)

abbrev pub key_leb {ℓ} : {A : Type ℓ} → String × A → String × A → Bool
key_leb a b = string_leb a.0 b.0

-- `sort_by(|a, b| a.0.cmp(b.0))`
unfoldable pub sorted {ℓ} : {A : Type ℓ} → Map String A → Map String A
unfolding sort
sorted m = sort key_leb m

unfoldable pub kept_after_entry : Steps → Steps → List String
unfolding is_suppressed
kept_after_entry steps [] = []
kept_after_entry steps ((id, step) ∷ rest) =
    let ids = kept_after_entry steps rest in
    if string_beq id "entry" then ids else if is_suppressed steps id step then ids else id ∷ ids

-- How many values the frame of a function has.
abbrev pub args_count : Func → ℕ
args_count func = length func.in_vars + length func.locals

-- The states that have an arm in the generated `func_args_count` for a function; the arms have the same value.
unfoldable pub func_args_states : FiberType → String → Func → List String
unfolding state_of kept_after_entry sorted
func_args_states fiber name func =
    state_of fiber name "entry"
    ∷ map (state_of fiber name) (kept_after_entry func.steps (sorted func.steps))

unfoldable pub kept_steps : Steps → Steps → Steps
unfolding is_suppressed
kept_steps steps [] = []
kept_steps steps ((id, step) ∷ rest) =
    let kept = kept_steps steps rest in
    if is_suppressed steps id step then kept else (id, step) ∷ kept

-- The steps whose state was not seen before; the first of a state gets the arm.
unfoldable pub unseen_steps : (StepId → String) → List String → Steps → Steps
unfolding member add
unseen_steps state seen [] = []
unseen_steps state seen ((id, step) ∷ rest) = elim (member (state id) seen) [
  | true ↦ unseen_steps state seen rest
  | false ↦ (id, step) ∷ unseen_steps state (add (state id) seen) rest
]

-- The steps of a function that have an arm in the generated `global_step`, after the arm of its entry.
unfoldable pub arm_steps : FiberType → String → Func → Steps
unfolding state_of kept_steps sorted unseen_steps
arm_steps fiber name func =
    unseen_steps (state_of fiber name) (state_of fiber name "entry" ∷ [])
      (kept_steps func.steps (sorted func.steps))

abbrev pub id_of : StepId × Step → StepId
id_of (id, step) = id

-- The states that have an arm in the generated `global_step` for a function.
unfoldable pub func_arms : FiberType → String → Func → List String
unfolding state_of arm_steps
func_arms fiber name func =
    state_of fiber name "entry"
    ∷ map (λ s. state_of fiber name (id_of s)) (arm_steps fiber name func)
