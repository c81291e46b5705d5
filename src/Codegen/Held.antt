-- ===== src/Codegen/Held.antt =====
-- dsl/src/codegen.rs: the variants of the generated `Value`, each once, and with the Rust type that goes
-- by its name.
use maroon.Prelude.{
  ℕ, ◌+◌, ◌≤◌, String, List, [], ◌∷◌, ◌++◌, ◌∙◌, true, false, ◌&&◌, ◌≡◌, refl, arith, ltb, count_if,
  All, All-of-append, if◌then◌else◌, Bool-cases, inl, inr,
}
use maroon.Prelude.Maps.{Map, string_eq, insert, contains_key}
use maroon.Dsl.{FiberType, IrType, InVar, Func, IrFiber}
use maroon.Codegen.Types.{type_variant_name, rust_type}
use maroon.Codegen.Values.{Types, use_type, use_vars, use_funcs, use_fibers, or_insert}

abbrev pub var_types : List InVar → List IrType
var_types [] = []
var_types ((name, ty) ∷ vars) = ty ∷ var_types vars

abbrev pub func_types : Map String Func → List IrType
func_types [] = []
func_types ((name, func) ∷ funcs) =
    var_types func.in_vars ++ (var_types func.locals ++ func.out ∷ func_types funcs)

-- The types of the variables of a fiber's start, and of the parameters, locals and results of its functions.
abbrev pub fiber_types : FiberType × IrFiber → List IrType
fiber_types (name, fiber) = var_types fiber.init_vars ++ func_types fiber.funcs

abbrev pub entry_key : String × IrType → String
entry_key (key, ty) = key

abbrev pub entry_type : String × IrType → String
entry_type (key, ty) = rust_type ty

-- How many variants have a name, and how many have it and hold a Rust type.
abbrev pub named : String → Types → ℕ
named k = count_if (λ entry. string_eq.beq (entry_key entry) k)

abbrev pub holding : (name rust : String) → Types → ℕ
holding k r =
    count_if (λ entry. string_eq.beq (entry_key entry) k && string_eq.beq (entry_type entry) r)

-- One variant has the name of the type, and it holds the Rust type of the type.
abbrev pub HasVariant : Types → IrType → Type 0
HasVariant used ty =
    (named (type_variant_name ty) used ≡ 1)
    × (holding (type_variant_name ty) (rust_type ty) used ≡ 1)

pub contains_key-named : (used : Types) (k : String) → contains_key used k ≡ ltb 0 (named k used)
unfolding contains_key
contains_key-named [] k = refl
contains_key-named ((key, ty) ∷ used) k = ground (arith, contains_key-named used k)

-- A name tells the Rust type of the types that have it.
abbrev pub Tells : (held : String → String) → IrType → Type 0
Tells held ty = held (type_variant_name ty) ≡ rust_type ty

named-insert :
    (used : Types) (j k : String) (ty : IrType)
    → named k (insert used j ty) ≡ (
        if contains_key used j
        then named k used
        else named k used + (if string_eq.beq j k then 1 else 0))
unfolding insert contains_key
named-insert [] j k ty = ground arith
named-insert ((key, t) ∷ used) j k ty = ground (
  arith,
  named-insert used j k ty,
  string_eq.beq_iff key j,
  string_eq.beq_iff key k,
  string_eq.beq_iff j k,
)

holding-insert :
    (used : Types) (j k r : String) (ty : IrType)
    → contains_key used j ≡ false
    → string_eq.beq j k ≡ false
    → holding k r (insert used j ty) ≡ holding k r used
unfolding insert contains_key
holding-insert [] j k r ty out other = ground (arith, other)
holding-insert ((key, t) ∷ used) j k r ty out other =
    ground (arith, holding-insert used j k r ty, out, other)

-- A variant that is put only where there is none leaves the others.
pub or_insert-HasVariant :
    (used : Types) (j : String) (t ty : IrType)
    → HasVariant used ty
    → HasVariant (or_insert j t used) ty
unfolding or_insert
or_insert-HasVariant used j t ty (once, right) = elim (Bool-cases (contains_key used j)) [
  | inl there ↦ rw there (once, right)
  | inr missing ↦
      let k = type_variant_name ty in
      let other : string_eq.beq j k ≡ false =
        ground (arith, string_eq.beq_iff j k, contains_key-named used j, once, missing) in
      rw missing (
        ground (arith, named-insert used j k t, missing, other, once),
        ground (arith, holding-insert used j k (rust_type ty) t missing other, right),
      )
]

module _ (held : String → String) where
  abbrev Right : String × IrType → Type 0
  Right (key, ty) = held key ≡ rust_type ty

  -- Each name stands once, with its Rust type.
  abbrev pub AreHeld : Types → Type 0
  AreHeld used = ((k : String) → named k used ≤ 1) × All Right used

  All-insert :
      (used : Types) (j : String) (ty : IrType)
      → Right (j, ty)
      → All Right used
      → All Right (insert used j ty)
  unfolding insert
  All-insert [] j ty h all = (h, tt)
  All-insert ((key, t) ∷ used) j ty h all = elim (Bool-cases (string_eq.beq key j)) [
    | inl same ↦ rw same (h, all.1)
    | inr other ↦ rw other (all.0, All-insert used j ty h all.1)
  ]

  use_type-AreHeld :
      (ty : IrType) (used : Types) → Tells held ty → AreHeld used → AreHeld (use_type ty used)
  unfolding use_type
  use_type-AreHeld ty used tells (once, right) = (
    λ k. ground (
      arith,
      named-insert used (type_variant_name ty) k ty,
      once k,
      contains_key-named used (type_variant_name ty),
      string_eq.beq_iff (type_variant_name ty) k,
    ),
    All-insert used (type_variant_name ty) ty tells right,
  )

  use_vars-AreHeld :
      (vars : List InVar) (used : Types)
      → All (Tells held) (var_types vars)
      → AreHeld used
      → AreHeld (use_vars vars used)
  unfolding use_vars
  use_vars-AreHeld [] used tells h = h
  use_vars-AreHeld ((name, ty) ∷ vars) used tells h =
      use_vars-AreHeld vars (use_type ty used) tells.1 (use_type-AreHeld ty used tells.0 h)

  use_funcs-AreHeld :
      (funcs : Map String Func) (used : Types)
      → All (Tells held) (func_types funcs)
      → AreHeld used
      → AreHeld (use_funcs funcs used)
  unfolding use_funcs
  use_funcs-AreHeld [] used tells h = h
  use_funcs-AreHeld ((name, func) ∷ funcs) used tells h =
      let (params, more) =
        All-of-append (Tells held) (var_types func.in_vars)
          (var_types func.locals ++ func.out ∷ func_types funcs) tells in
      let (locals, (out, rest)) =
        All-of-append (Tells held) (var_types func.locals) (func.out ∷ func_types funcs) more in
      use_funcs-AreHeld funcs
        (use_type func.out (use_vars func.locals (use_vars func.in_vars used))) rest
        (use_type-AreHeld func.out (use_vars func.locals (use_vars func.in_vars used)) out (
          use_vars-AreHeld func.locals (use_vars func.in_vars used) locals
            (use_vars-AreHeld func.in_vars used params h)))

  abbrev pub AllTell : FiberType × IrFiber → Type 0
  AllTell entry = All (Tells held) (fiber_types entry)

  pub use_fibers-AreHeld :
      (fibers : Map FiberType IrFiber) (used : Types)
      → All AllTell fibers
      → AreHeld used
      → AreHeld (use_fibers fibers used)
  unfolding use_fibers
  use_fibers-AreHeld [] used tells h = h
  use_fibers-AreHeld ((name, fiber) ∷ fibers) used tells h =
      let (start, funcs) =
        All-of-append (Tells held) (var_types fiber.init_vars) (func_types fiber.funcs) tells.0 in
      use_fibers-AreHeld fibers (use_funcs fiber.funcs (use_vars fiber.init_vars used)) tells.1 (
        use_funcs-AreHeld fiber.funcs (use_vars fiber.init_vars used) funcs
          (use_vars-AreHeld fiber.init_vars used start h))

  holding-Right :
      (used : Types) (k r : String) → held k ≡ r → All Right used → holding k r used ≡ named k used
  holding-Right [] k r h all = refl
  holding-Right ((key, ty) ∷ used) k r h all = ground (
    arith,
    holding-Right used k r h all.1,
    all.0,
    h,
    string_eq.beq_iff key k,
    string_eq.beq_iff (rust_type ty) r,
  )

  -- Where each name stands once with its Rust type, a name that stands there gives its variant.
  pub AreHeld-HasVariant :
      (used : Types) (ty : IrType)
      → AreHeld used
      → Tells held ty
      → contains_key used (type_variant_name ty) ≡ true
      → HasVariant used ty
  AreHeld-HasVariant used ty (once, right) tells here =
      let one : named (type_variant_name ty) used ≡ 1 = ground (
        arith,
        once (type_variant_name ty),
        contains_key-named used (type_variant_name ty),
        here,
      ) in
      (one, holding-Right used (type_variant_name ty) (rust_type ty) tells right ∙ one)
