-- ===== src/Dsl/Shape.antt =====
-- dsl/src/ir.rs: the shape of a valid program, apart from the types of its steps.
use text.Mathlib.Text.{◌==◌ as string_beq}
use maroon.Prelude.{
  String, List, [], ◌∷◌, Bool, true, false, ◌&&◌, ◌≡◌, refl, Bool-cases, inl, inr, ◌⊎◌, All,
}
use maroon.Prelude.Maps.{string_eq, contains_key, HasDistinctKeys, AllEntries, AllEntries-map}
use maroon.Dsl.{IrType, StructFields, nil, field, Func, IrFiber, Ir}
use maroon.Dsl.Valid.{
  insert_vars, is_future_id, has_public_future_id, check_type_decl, check_types, is_valid,
}
use maroon.Dsl.Clean.{append-empty, unless-empty, IsCleanFunc, is_valid-IsClean}
use maroon.Dsl.Scope.{check_duplicates-distinct}

abbrev pub HasField : StructFields → String → IrType → Type 0
HasField nil name ty = ⊥
HasField (field n t fields) name ty = ((n ≡ name) × (t ≡ ty)) ⊎ HasField fields name ty

-- A message of a public queue says for which future it is.
abbrev pub NamesFuture : IrType → Type 0
NamesFuture (IrType.pub_queue_message name fields rust) =
    HasField fields "public_future_id" IrType.string
    ⊎ ((inner : IrType) × HasField fields "public_future_id" (IrType.future inner))
NamesFuture _ = Unit

abbrev pub HasFuncShape : String → Func → Type 0
HasFuncShape name f =
    HasDistinctKeys f.in_vars
    × HasDistinctKeys f.locals
    × AllEntries (λ n t. contains_key (insert_vars [] f.in_vars) n ≡ false) f.locals
    × (name ≡ "main" → f.out ≡ IrType.void)
    × (contains_key f.steps "entry" ≡ true)

abbrev pub HasShape : Ir → Type 0
HasShape ir =
    (contains_key ir.fibers "root" ≡ true)
    × AllEntries
        (λ key fiber.
          (contains_key fiber.funcs "main" ≡ true) × AllEntries HasFuncShape fiber.funcs)
        ir.fibers
    × All NamesFuture ir.types

func-HasShape :
    (ir : Ir) (fiber : IrFiber) (name : String) (f : Func)
    → IsCleanFunc ir fiber name f
    → HasFuncShape name f
func-HasShape ir fiber name f clean =
    let (params, new) = check_duplicates-distinct [] f.in_vars clean.0 in
    let (locals, apart) = check_duplicates-distinct (insert_vars [] f.in_vars) f.locals clean.1 in
    (params, locals, apart, clean.3, clean.4)

add-field :
    (n : String) (t : IrType) (fields : StructFields) (name rust : String)
    → NamesFuture (IrType.pub_queue_message name fields rust)
    → NamesFuture (IrType.pub_queue_message name (field n t fields) rust)
add-field n t fields name rust (inl h) = inl (inr h)
add-field n t fields name rust (inr (inner, h)) = inr (inner, inr h)

field-here :
    (n : String) (t : IrType) (fields : StructFields) (name rust : String)
    → n ≡ "public_future_id"
    → is_future_id t ≡ true
    → NamesFuture (IrType.pub_queue_message name (field n t fields) rust)
field-here n IrType.string fields name rust same h = inl (inl (same, refl))
field-here n (IrType.future inner) fields name rust same h = inr (inner, inl (same, refl))
field-here n _ fields name rust same h = cc

and-true : (a b : Bool) → (a && b) ≡ true → (a ≡ true) × (b ≡ true)
and-true true true h = (refl, refl)
and-true true false h = cc
and-true false b h = cc

fields-NamesFuture :
    (fields : StructFields) (name rust : String)
    → has_public_future_id fields ≡ true
    → NamesFuture (IrType.pub_queue_message name fields rust)
unfolding has_public_future_id
fields-NamesFuture nil name rust h = cc
fields-NamesFuture (field n t fields) name rust h =
    let here = string_beq n "public_future_id" && is_future_id t in
    elim (Bool-cases here) [
      | inl yes_ ↦
          let (named, fits) = and-true (string_beq n "public_future_id") (is_future_id t) yes_ in
          field-here n t fields name rust ((string_eq.beq_iff n "public_future_id").0 named) fits
      | inr no_ ↦ add-field n t fields name rust (fields-NamesFuture fields name rust (rw no_ at h))
    ]

types-NameFuture : (ts : List IrType) → check_types ts ≡ [] → All NamesFuture ts
unfolding check_types
types-NameFuture [] h = tt
types-NameFuture (t ∷ ts) h =
    let (now, later) = append-empty (check_type_decl t) h in
    (of_decl t now, types-NameFuture ts later)
  where
    of_decl : (t : IrType) → check_type_decl t ≡ [] → NamesFuture t
    of_decl (IrType.pub_queue_message name fields rust) k =
        fields-NamesFuture fields name rust (unless-empty (has_public_future_id fields) _ k)
    of_decl _ k = tt

-- A valid program has a root fiber; each of its fibers has a main function; in each function no name
-- of a variable stands twice, there is a step `entry`, and a main function returns nothing; and each
-- type for messages of a public queue has a field for the future.
pub is_valid-HasShape : (ir : Ir) → (is_valid ir).0 ≡ true → HasShape ir
is_valid-HasShape ir h =
    let clean = is_valid-IsClean ir h in
    (
      clean.1,
      AllEntries-map ir.fibers
          (λ key fiber here c. (
            c.1,
            AllEntries-map fiber.funcs (λ name f there d. func-HasShape ir fiber name f d) c.0,
          ))
          clean.0,
      types-NameFuture ir.types clean.2,
    )
