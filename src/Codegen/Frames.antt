-- ===== src/Codegen/Frames.antt =====
-- dsl/src/codegen.rs: the slots that the generated code reads and writes are those of the variables.
use text.Mathlib.Text.{◌==◌ as string_beq}
use text.Mathlib.TextEquality.{eq_iff}
use maroon.Prelude.{
  ℕ, zero, suc, ◌+◌, ◌<◌, String, List, [], ◌∷◌, ◌++◌, none, some, ◌≡◌, refl, ◌∙◌, arith, length,
  get_elem?, Bool-cases, Option-cases, inl, inr, ap, length-append,
}
use maroon.Prelude.Maps.{string_eq, get}
use maroon.Dsl.{IrType, InVar, Func}
use maroon.Codegen.Exprs.{var_type_of}
use maroon.Codegen.States.{args_count}
use maroon.Codegen.Slots.{position, frame_index, let_index, var_index}

-- The variables of a function's frame, in order.
abbrev pub declared : Func → List InVar
declared func = func.in_vars ++ func.locals

position-none :
    (vars : List InVar) (name : String) → get vars name ≡ none → position vars name ≡ none
unfolding get position
position-none [] name h = refl
position-none ((n, t) ∷ vars) name h = ground (arith, position-none vars name)

-- A name that has a type has a position, and stands there with its type.
position-some :
    (vars : List InVar) (name : String) (ty : IrType)
    → get vars name ≡ some ty
    → (i : ℕ) × (position vars name ≡ some i) × (get_elem? vars i ≡ some (name, ty))
unfolding get position
position-some [] name ty h = cc
position-some ((n, t) ∷ vars) name ty h = elim (Bool-cases (string_beq n name)) [
  | inl hit ↦ (0, rw hit refl, ground (arith, eq_iff n name))
  | inr miss ↦
      let (i, at, item) = position-some vars name ty (ground arith) in
      (suc i, rw (miss, at) refl, item)
]

get_elem?-append_left :
    {A : Type 0} (xs ys : List A) (i : ℕ) (x : A)
    → get_elem? xs i ≡ some x
    → get_elem? (xs ++ ys) i ≡ some x
get_elem?-append_left [] ys i x h = cc
get_elem?-append_left (w ∷ xs) ys zero x h = h
get_elem?-append_left (w ∷ xs) ys (suc i) x h = get_elem?-append_left xs ys i x h

get_elem?-append_right :
    {A : Type 0} (xs ys : List A) (i : ℕ) → get_elem? (xs ++ ys) (length xs + i) ≡ get_elem? ys i
get_elem?-append_right [] ys i = ap (get_elem? ys) (omega arith)
get_elem?-append_right (w ∷ xs) ys i =
    let next : suc (length xs) + i ≡ suc (length xs + i) = omega arith in
    ap (get_elem? (w ∷ xs ++ ys)) next ∙ get_elem?-append_right xs ys i

pub get_elem?-bound :
    {A : Type 0} (xs : List A) (i : ℕ) {x : A} → get_elem? xs i ≡ some x → i < length xs
get_elem?-bound [] i h = cc
get_elem?-bound (w ∷ xs) zero h = omega arith
get_elem?-bound (w ∷ xs) (suc i) h = omega (arith, get_elem?-bound xs i h)

-- A declared variable has one index: that of its slot.
pub var_index-declared :
    (func : Func) (name : String) (ty : IrType)
    → var_type_of func name ≡ some ty
    → (i : ℕ) × (var_index func name ≡ some i)
      × (frame_index func name ≡ i)
      × (get_elem? (declared func) i ≡ some (name, ty))
unfolding var_type_of var_index frame_index
var_index-declared func name ty h = elim (Option-cases (get func.in_vars name)) [
  | inr (t, at) ↦
      let (i, pos, item) = position-some func.in_vars name t at in
      let same : t ≡ ty = ground arith in
      (
        i,
        rw (pos, var_index) refl,
        rw (pos, frame_index) refl,
        rw (← same) (get_elem?-append_left func.in_vars func.locals i (name, t) item),
      )
  | inl missing ↦
      let (i, pos, item) = position-some func.locals name ty (ground arith) in
      let no_param = position-none func.in_vars name missing in
      (
        length func.in_vars + i,
        rw (no_param, pos, var_index) refl,
        rw (no_param, pos, frame_index) refl,
        get_elem?-append_right func.in_vars func.locals i ∙ item,
      )
]

-- The slot that the generated code reads for a declared variable, and writes for a bind, is the
-- variable's own: at that index the frame has the variable with its type.
pub frame_index-declared :
    (func : Func) (name : String) (ty : IrType)
    → var_type_of func name ≡ some ty
    → get_elem? (declared func) (frame_index func name) ≡ some (name, ty)
frame_index-declared func name ty h =
    let (i, at, same, item) = var_index-declared func name ty h in rw same item

pub frame_index-bound :
    (func : Func) (name : String) (ty : IrType)
    → var_type_of func name ≡ some ty
    → frame_index func name < args_count func
frame_index-bound func name ty h = omega (
  arith,
  get_elem?-bound (declared func) (frame_index func name) (frame_index-declared func name ty h),
  length-append func.in_vars func.locals,
)

pub let_index-bound :
    (func : Func) (name : String) (ty : IrType)
    → var_type_of func name ≡ some ty
    → let_index func name < args_count func
unfolding let_index var_type_of
let_index-bound func name ty h = elim (Option-cases (get func.locals name)) [
  | inr (t, at) ↦
      let (i, pos, item) = position-some func.locals name t at in
      rw (pos, let_index) (omega (arith, get_elem?-bound func.locals i item))
  | inl missing ↦
      let pos = position-none func.locals name missing in
      let param : get func.in_vars name ≡ some ty = ground arith in
      let (i, at, item) = position-some func.in_vars name ty param in
      rw (pos, let_index) (omega (arith, get_elem?-bound func.in_vars i item))
]

-- `Step::Let` to a parameter that is not the first, of a function whose locals have other names: the
-- generated code writes the frame's first slot, which is not the parameter's.
pub let_index-param :
    (func : Func) (name : String) (i : ℕ)
    → position func.in_vars name ≡ some (suc i)
    → get func.locals name ≡ none
    → (let_index func name ≡ 0) × (frame_index func name ≡ suc i)
unfolding let_index frame_index
let_index-param func name i at missing =
    (rw (position-none func.locals name missing, let_index) refl, rw (at, frame_index) refl)
