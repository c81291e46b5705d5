-- ===== src/Codegen/Ends.antt =====
-- dsl/src/codegen.rs: `generate_rust_types` gives a text.
use maroon.Prelude.{ℕ, String, List, [], ◌∷◌, true, ◌≡◌, refl, All, Returns, Returns-bind}
use maroon.Prelude.Maps.{Map}
use maroon.Dsl.{FiberType, IrType, StructFields, InVar, Func, IrFiber, Ir}
use maroon.Dsl.Valid.{is_valid}
use maroon.Codegen.Wrappers.{
  visit_name, collect_fields, collect_future_wrappers, collect_decl, collect_decls, collect_vars,
  collect_funcs, collect_fibers, future_wrappers,
}
use maroon.Codegen.Wrapped.{
  IsBelow, AreBelow, IsRanked, visit_name-Returns, collect_fields-Returns,
  collect_future_wrappers-Returns,
}
use maroon.Codegen.Arms.{generate_global_step}
use maroon.Codegen.Generate.{generate_rust_types}
use maroon.Codegen.Whole.{WritesOwn, generate_global_step-Returns}

module _ (rank : String → ℕ) (k : ℕ) where
  abbrev DeclBelow : IrType → Type 0
  DeclBelow (IrType.struct name fields additions) = AreBelow rank k fields
  DeclBelow (IrType.pub_queue_message name fields additions) = AreBelow rank k fields
  DeclBelow t = IsBelow rank k t

  abbrev VarsBelow : List InVar → Type 0
  VarsBelow = All (λ v. IsBelow rank k v.1)

  abbrev FuncBelow : String × Func → Type 0
  FuncBelow (name, f) = VarsBelow f.in_vars × VarsBelow f.locals × IsBelow rank k f.out

  abbrev FiberBelow : FiberType × IrFiber → Type 0
  FiberBelow (name, fiber) = VarsBelow fiber.heap × All FuncBelow fiber.funcs

  -- All types of the program look up only names of ranks below `k`.
  abbrev pub IrBelow : Ir → Type 0
  IrBelow ir = All DeclBelow ir.types × All FiberBelow ir.fibers

  module _ (types : List IrType) (ranked : IsRanked rank types) where
    below-Returns :
        (ty : IrType) (acc : List String)
        → IsBelow rank k ty
        → Returns (collect_future_wrappers k types ty acc)
    below-Returns = collect_future_wrappers-Returns rank types ranked k

    fields-Returns :
        (fields : StructFields) (acc : List String)
        → AreBelow rank k fields
        → Returns (collect_fields (visit_name k types) fields acc)
    fields-Returns =
        collect_fields-Returns rank k (visit_name k types) (visit_name-Returns rank types ranked k)

    collect_vars-Returns :
        (vars : List InVar) (acc : List String)
        → VarsBelow vars
        → Returns (collect_vars k types vars acc)
    unfolding collect_vars
    collect_vars-Returns [] acc h = (acc, refl)
    collect_vars-Returns ((name, ty) ∷ vars) acc h =
        Returns-bind (collect_future_wrappers k types ty acc) _ (below-Returns ty acc h.0)
          (λ more. collect_vars-Returns vars more h.1)

    collect_funcs-Returns :
        (funcs : Map String Func) (acc : List String)
        → All FuncBelow funcs
        → Returns (collect_funcs k types funcs acc)
    unfolding collect_funcs
    collect_funcs-Returns [] acc h = (acc, refl)
    collect_funcs-Returns ((name, f) ∷ funcs) acc h =
        Returns-bind (collect_vars k types f.in_vars acc) _
          (collect_vars-Returns f.in_vars acc h.0.0)
          (λ params.
            Returns-bind (collect_vars k types f.locals params) _
              (collect_vars-Returns f.locals params h.0.1)
              (λ locals.
                Returns-bind (collect_future_wrappers k types f.out locals) _
                  (below-Returns f.out locals h.0.2) (λ out. collect_funcs-Returns funcs out h.1)))

    collect_fibers-Returns :
        (fibers : Map FiberType IrFiber) (acc : List String)
        → All FiberBelow fibers
        → Returns (collect_fibers k types fibers acc)
    unfolding collect_fibers
    collect_fibers-Returns [] acc h = (acc, refl)
    collect_fibers-Returns ((name, fiber) ∷ fibers) acc h =
        Returns-bind (collect_vars k types fiber.heap acc) _
          (collect_vars-Returns fiber.heap acc h.0.0)
          (λ heap.
            Returns-bind (collect_funcs k types fiber.funcs heap) _
              (collect_funcs-Returns fiber.funcs heap h.0.1)
              (λ funcs. collect_fibers-Returns fibers funcs h.1))

    collect_decl-Returns :
        (t : IrType) (acc : List String) → DeclBelow t → Returns (collect_decl k types t acc)
    unfolding collect_decl
    collect_decl-Returns (IrType.struct name fields additions) acc h = fields-Returns fields acc h
    collect_decl-Returns (IrType.pub_queue_message name fields additions) acc h =
        fields-Returns fields acc h
    collect_decl-Returns (IrType.future inner) acc h = below-Returns (IrType.future inner) acc h
    collect_decl-Returns (IrType.option inner) acc h = below-Returns (IrType.option inner) acc h
    collect_decl-Returns (IrType.array inner) acc h = below-Returns (IrType.array inner) acc h
    collect_decl-Returns (IrType.max_queue inner) acc h =
        below-Returns (IrType.max_queue inner) acc h
    collect_decl-Returns (IrType.min_queue inner) acc h =
        below-Returns (IrType.min_queue inner) acc h
    collect_decl-Returns (IrType.map key v) acc h = below-Returns (IrType.map key v) acc h
    collect_decl-Returns (IrType.custom n) acc h = below-Returns (IrType.custom n) acc h
    collect_decl-Returns IrType.uint64 acc h = below-Returns IrType.uint64 acc h
    collect_decl-Returns IrType.string acc h = below-Returns IrType.string acc h
    collect_decl-Returns IrType.bool acc h = below-Returns IrType.bool acc h
    collect_decl-Returns IrType.void acc h = below-Returns IrType.void acc h

    collect_decls-Returns :
        (ts : List IrType) (acc : List String)
        → All DeclBelow ts
        → Returns (collect_decls k types ts acc)
    unfolding collect_decls
    collect_decls-Returns [] acc h = (acc, refl)
    collect_decls-Returns (t ∷ ts) acc h =
        Returns-bind (collect_decl k types t acc) _ (collect_decl-Returns t acc h.0)
          (λ more. collect_decls-Returns ts more h.1)

-- A valid program whose declared types have ranks, such that a type refers only to types of lower ranks,
-- and of which no step writes or sends a variable that its fiber starts with: with as much fuel as the
-- ranks need, the generator ends and gives the text of the whole module.
pub generate_rust_types-Returns :
    (rank : String → ℕ) (fuel : ℕ) (ir : Ir)
    → (is_valid ir).0 ≡ true
    → WritesOwn ir
    → IsRanked rank ir.types
    → IrBelow rank fuel ir
    → Returns (generate_rust_types fuel ir)
unfolding generate_rust_types future_wrappers
generate_rust_types-Returns rank fuel ir valid own ranked below =
    Returns-bind (future_wrappers fuel ir) _
      (Returns-bind (collect_decls fuel ir.types ir.types []) _
        (collect_decls-Returns rank fuel ir.types ranked ir.types [] below.0)
        (λ declared. collect_fibers-Returns rank fuel ir.types ranked ir.fibers declared below.1))
      (λ wrappers.
        Returns-bind (generate_global_step ir) _ (generate_global_step-Returns ir valid own)
          (λ step. (_, refl)))
