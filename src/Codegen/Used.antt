-- ===== src/Codegen/Used.antt =====
-- dsl/src/codegen.rs: the generated `Value` has a variant for every type that stands in a frame.
use maroon.Prelude.{String, List, [], ◌∷◌, ◌++◌, ◌&&◌, true, ◌≡◌, ◌∙◌, arith, All}
use maroon.Prelude.Sort.{count_if-sort, All-sort, All-of_sort}
use maroon.Prelude.Maps.{Map, string_eq, insert, contains_key, contains_key-insert, beq_self}
use maroon.Dsl.{FiberType, IrType, nil, InVar, Func, IrFiber, Ir}
use maroon.Codegen.Names.{pascal_case}
use maroon.Codegen.Types.{type_variant_name, rust_type}
use maroon.Codegen.Held.{
  var_types, func_types, fiber_types, entry_key, entry_type, HasVariant, Tells, AreHeld, AllTell,
  or_insert-HasVariant, use_fibers-AreHeld, AreHeld-HasVariant,
}
use maroon.Codegen.States.{sorted, key_leb}
use maroon.Codegen.Values.{
  Types, use_type, use_vars, use_funcs, use_fibers, or_insert, pub_name, use_message, use_messages,
  used_types,
}

abbrev HasName : Types → IrType → Type 0
HasName used ty = contains_key used (type_variant_name ty) ≡ true

abbrev Grows : Types → Types → Type 0
Grows used more = (k : String) → contains_key used k ≡ true → contains_key more k ≡ true

abbrev Uses : Types → List IrType → Types → Type 0
Uses used ts more = Grows used more × All (HasName more) ts

All-Grows :
    (ts : List IrType) (used more : Types)
    → Grows used more
    → All (HasName used) ts
    → All (HasName more) ts
All-Grows [] used more g h = tt
All-Grows (t ∷ ts) used more g h = (g (type_variant_name t) h.0, All-Grows ts used more g h.1)

All-append :
    (ts ss : List IrType) (used : Types)
    → All (HasName used) ts
    → All (HasName used) ss
    → All (HasName used) (ts ++ ss)
All-append [] ss used h k = k
All-append (t ∷ ts) ss used h k = (h.0, All-append ts ss used h.1 k)

Uses-append :
    (u v w : Types) (ts ss : List IrType) → Uses u ts v → Uses v ss w → Uses u (ts ++ ss) w
Uses-append u v w ts ss first rest = (
  λ k here. rest.0 k (first.0 k here),
  All-append ts ss w (All-Grows ts v w rest.0 first.1) rest.1,
)

insert-Grows : (used : Types) (key : String) (ty : IrType) → Grows used (insert used key ty)
insert-Grows used key ty k here = ground (arith, contains_key-insert used key k ty)

use_type-Uses : (ty : IrType) (used : Types) → Uses used (ty ∷ []) (use_type ty used)
unfolding use_type
use_type-Uses ty used = (
  insert-Grows used (type_variant_name ty) ty,
  (
    ground (
      arith,
      contains_key-insert used (type_variant_name ty) (type_variant_name ty) ty,
      beq_self (type_variant_name ty),
    ),
    tt,
  ),
)

use_vars-Uses : (vars : List InVar) (used : Types) → Uses used (var_types vars) (use_vars vars used)
unfolding use_vars
use_vars-Uses [] used = (λ k here. here, tt)
use_vars-Uses ((name, ty) ∷ vars) used =
    Uses-append used (use_type ty used) (use_vars vars (use_type ty used)) (ty ∷ [])
      (var_types vars) (use_type-Uses ty used) (use_vars-Uses vars (use_type ty used))

use_funcs-Uses :
    (funcs : Map String Func) (used : Types) → Uses used (func_types funcs) (use_funcs funcs used)
unfolding use_funcs
use_funcs-Uses [] used = (λ k here. here, tt)
use_funcs-Uses ((name, func) ∷ funcs) used =
    let params = use_vars func.in_vars used in
    let locals = use_vars func.locals params in
    let out = use_type func.out locals in
    let all = use_funcs funcs out in
    Uses-append used params all (var_types func.in_vars)
      (var_types func.locals ++ func.out ∷ func_types funcs) (use_vars-Uses func.in_vars used)
      (Uses-append params locals all (var_types func.locals) (func.out ∷ func_types funcs)
        (use_vars-Uses func.locals params)
        (Uses-append locals out all (func.out ∷ []) (func_types funcs)
          (use_type-Uses func.out locals) (use_funcs-Uses funcs out)))

abbrev HasNames : Types → FiberType × IrFiber → Type 0
HasNames used entry = All (HasName used) (fiber_types entry)

use_fibers-HasNames :
    (fibers : Map FiberType IrFiber) (used : Types)
    → Grows used (use_fibers fibers used) × All (HasNames (use_fibers fibers used)) fibers
unfolding use_fibers
use_fibers-HasNames [] used = (λ k here. here, tt)
use_fibers-HasNames ((name, fiber) ∷ fibers) used =
    let start = use_vars fiber.init_vars used in
    let mid = use_funcs fiber.funcs start in
    let first =
      Uses-append used start mid (var_types fiber.init_vars) (func_types fiber.funcs)
        (use_vars-Uses fiber.init_vars used) (use_funcs-Uses fiber.funcs start) in
    let rest = use_fibers-HasNames fibers mid in
    (
      λ k here. rest.0 k (first.0 k here),
      (All-Grows (fiber_types (name, fiber)) mid (use_fibers fibers mid) rest.0 first.1, rest.1),
    )

use_messages-HasVariant :
    (types : List IrType) (used : Types) (ty : IrType)
    → HasVariant used ty
    → HasVariant (use_messages types used) ty
unfolding use_messages use_message
use_messages-HasVariant [] used ty h = h
use_messages-HasVariant (IrType.pub_queue_message name fields additions ∷ types) used ty h =
    let priv = or_insert (pascal_case name) (IrType.pub_queue_message name nil "") used in
    use_messages-HasVariant types
      (or_insert (pub_name name) (IrType.struct (pub_name name) nil "") priv) ty
      (or_insert-HasVariant priv (pub_name name) (IrType.struct (pub_name name) nil "") ty
        (or_insert-HasVariant used (pascal_case name) (IrType.pub_queue_message name nil "") ty h))
use_messages-HasVariant (IrType.future inner ∷ types) used ty h =
    use_messages-HasVariant types used ty h
use_messages-HasVariant (IrType.option inner ∷ types) used ty h =
    use_messages-HasVariant types used ty h
use_messages-HasVariant (IrType.array inner ∷ types) used ty h =
    use_messages-HasVariant types used ty h
use_messages-HasVariant (IrType.max_queue inner ∷ types) used ty h =
    use_messages-HasVariant types used ty h
use_messages-HasVariant (IrType.min_queue inner ∷ types) used ty h =
    use_messages-HasVariant types used ty h
use_messages-HasVariant (IrType.map key v ∷ types) used ty h =
    use_messages-HasVariant types used ty h
use_messages-HasVariant (IrType.custom n ∷ types) used ty h =
    use_messages-HasVariant types used ty h
use_messages-HasVariant (IrType.struct n fields additions ∷ types) used ty h =
    use_messages-HasVariant types used ty h
use_messages-HasVariant (IrType.uint64 ∷ types) used ty h = use_messages-HasVariant types used ty h
use_messages-HasVariant (IrType.string ∷ types) used ty h = use_messages-HasVariant types used ty h
use_messages-HasVariant (IrType.bool ∷ types) used ty h = use_messages-HasVariant types used ty h
use_messages-HasVariant (IrType.void ∷ types) used ty h = use_messages-HasVariant types used ty h

sorted-HasVariant : (used : Types) (ty : IrType) → HasVariant used ty → HasVariant (sorted used) ty
unfolding sorted
sorted-HasVariant used ty (once, right) = (
  count_if-sort key_leb (λ entry. string_eq.beq (entry_key entry) (type_variant_name ty)) used
      ∙ once,
  count_if-sort key_leb
        (λ entry.
          string_eq.beq (entry_key entry) (type_variant_name ty)
          && string_eq.beq (entry_type entry) (rust_type ty))
        used
      ∙ right,
)

abbrev pub HasVariants : Types → FiberType × IrFiber → Type 0
HasVariants used entry = All (HasVariant used) (fiber_types entry)

module _ (held : String → String) (ir : Ir) where
  types-HasVariant :
      (used : Types) (tys : List IrType)
      → AreHeld held used
      → All (Tells held) tys
      → All (HasName used) tys
      → All (HasVariant (sorted (use_messages ir.types used))) tys
  types-HasVariant used [] are tells names = tt
  types-HasVariant used (ty ∷ tys) are tells names = (
    sorted-HasVariant (use_messages ir.types used) ty (
        use_messages-HasVariant ir.types used ty
          (AreHeld-HasVariant held used ty are tells.0 names.0)),
    types-HasVariant used tys are tells.1 names.1,
  )

  fibers-HasVariants :
      (used : Types) (fibers : Map FiberType IrFiber)
      → AreHeld held used
      → All (AllTell held) fibers
      → All (HasNames used) fibers
      → All (HasVariants (sorted (use_messages ir.types used))) fibers
  fibers-HasVariants used [] are tells names = tt
  fibers-HasVariants used (entry ∷ fibers) are tells names = (
    types-HasVariant used (fiber_types entry) are tells.0 names.0,
    fibers-HasVariants used fibers are tells.1 names.1,
  )

  -- Where types of the fibers that go by one variant name have one Rust type, `held`: for every fiber of the
  -- program, each type of a variable that it starts with, and of a parameter, a local or the result
  -- of one of its functions, has exactly one variant of its name among those of the generated `Value`,
  -- and that variant holds the type's Rust type.
  pub used_types-HasVariants :
      All (AllTell held) ir.fibers → All (HasVariants (used_types ir)) ir.fibers
  unfolding used_types sorted
  used_types-HasVariants tells =
      let own = use_fibers (sorted ir.fibers) [] in
      fibers-HasVariants own ir.fibers
        (use_fibers-AreHeld held (sorted ir.fibers) []
          (All-sort (AllTell held) key_leb ir.fibers tells) ((λ k. omega arith), tt))
        tells
        (All-of_sort (HasNames own) key_leb ir.fibers (use_fibers-HasNames (sorted ir.fibers) []).1)
