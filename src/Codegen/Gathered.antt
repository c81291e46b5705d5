-- ===== src/Codegen/Gathered.antt =====
-- dsl/src/codegen.rs: the structs for the ids of futures that `generate_rust_types` collects.
use maroon.Prelude.{ℕ, String, List, [], ◌∷◌, ◌++◌, ok, ◌>>=◌, ◌≡◌, OnOk-of}
use maroon.Prelude.Maps.{Map}
use maroon.Dsl.{FiberType, IrType, InVar, Func, IrFiber, Ir}
use maroon.Codegen.Futures.{
  futures_in, futures_of_fields, futures_of_decls, futures_of_vars, futures_of_funcs,
  futures_of_fibers, futures_named, futures_of,
}
use maroon.Codegen.Gathers.{
  Has, Grows, Gathers, Gathers-bind, collect_fields-Gathers, collect_in-Gathers, visit_name-Gathers,
}
use maroon.Codegen.Wrappers.{
  collect_fields, visit_name, collect_future_wrappers, collect_decl, collect_decls, collect_vars,
  collect_funcs, collect_fibers, future_wrappers,
}

module _ (fuel depth : ℕ) (types : List IrType) where
  collect-Gathers :
      (ty : IrType) (acc : List String)
      → Gathers acc
          (futures_in (futures_named depth types) ty)
          (collect_future_wrappers fuel types ty acc)
  unfolding collect_future_wrappers
  collect-Gathers =
      collect_in-Gathers (futures_named depth types) (visit_name fuel types)
        (visit_name-Gathers fuel depth types)

  other-Gathers :
      (t : IrType) (ts : List IrType) (acc : List String)
      → ((mid : List String)
          → Gathers mid
              (futures_of_decls (futures_named depth types) ts)
              (collect_decls fuel types ts mid))
      → Gathers acc
          (futures_in (futures_named depth types) t
            ++ futures_of_decls (futures_named depth types) ts)
          (collect_future_wrappers fuel types t acc >>= λ mid. collect_decls fuel types ts mid)
  other-Gathers t ts acc rest =
      Gathers-bind (collect_future_wrappers fuel types t acc) _ acc
        (futures_in (futures_named depth types) t) (futures_of_decls (futures_named depth types) ts)
        (collect-Gathers t acc) rest

  collect_decls-Gathers :
      (ts : List IrType) (acc : List String)
      → Gathers acc
          (futures_of_decls (futures_named depth types) ts)
          (collect_decls fuel types ts acc)
  unfolding collect_decls collect_decl collect_future_wrappers
  collect_decls-Gathers [] acc = (λ w here. here, tt)
  collect_decls-Gathers (IrType.struct name fields additions ∷ ts) acc =
      Gathers-bind (collect_fields (visit_name fuel types) fields acc) _ acc
        (futures_of_fields (futures_named depth types) fields)
        (futures_of_decls (futures_named depth types) ts)
        (collect_fields-Gathers (futures_named depth types) (visit_name fuel types)
          (visit_name-Gathers fuel depth types) fields acc)
        (collect_decls-Gathers ts)
  collect_decls-Gathers (IrType.pub_queue_message name fields additions ∷ ts) acc =
      Gathers-bind (collect_fields (visit_name fuel types) fields acc) _ acc
        (futures_of_fields (futures_named depth types) fields)
        (futures_of_decls (futures_named depth types) ts)
        (collect_fields-Gathers (futures_named depth types) (visit_name fuel types)
          (visit_name-Gathers fuel depth types) fields acc)
        (collect_decls-Gathers ts)
  collect_decls-Gathers (IrType.future inner ∷ ts) acc =
      other-Gathers (IrType.future inner) ts acc (collect_decls-Gathers ts)
  collect_decls-Gathers (IrType.option inner ∷ ts) acc =
      other-Gathers (IrType.option inner) ts acc (collect_decls-Gathers ts)
  collect_decls-Gathers (IrType.array inner ∷ ts) acc =
      other-Gathers (IrType.array inner) ts acc (collect_decls-Gathers ts)
  collect_decls-Gathers (IrType.max_queue inner ∷ ts) acc =
      other-Gathers (IrType.max_queue inner) ts acc (collect_decls-Gathers ts)
  collect_decls-Gathers (IrType.min_queue inner ∷ ts) acc =
      other-Gathers (IrType.min_queue inner) ts acc (collect_decls-Gathers ts)
  collect_decls-Gathers (IrType.map key value ∷ ts) acc =
      other-Gathers (IrType.map key value) ts acc (collect_decls-Gathers ts)
  collect_decls-Gathers (IrType.custom name ∷ ts) acc =
      other-Gathers (IrType.custom name) ts acc (collect_decls-Gathers ts)
  collect_decls-Gathers (IrType.uint64 ∷ ts) acc =
      other-Gathers IrType.uint64 ts acc (collect_decls-Gathers ts)
  collect_decls-Gathers (IrType.string ∷ ts) acc =
      other-Gathers IrType.string ts acc (collect_decls-Gathers ts)
  collect_decls-Gathers (IrType.bool ∷ ts) acc =
      other-Gathers IrType.bool ts acc (collect_decls-Gathers ts)
  collect_decls-Gathers (IrType.void ∷ ts) acc =
      other-Gathers IrType.void ts acc (collect_decls-Gathers ts)

  collect_vars-Gathers :
      (vars : List InVar) (acc : List String)
      → Gathers acc
          (futures_of_vars (futures_named depth types) vars)
          (collect_vars fuel types vars acc)
  unfolding collect_vars
  collect_vars-Gathers [] acc = (λ w here. here, tt)
  collect_vars-Gathers ((name, ty) ∷ vars) acc =
      Gathers-bind (collect_future_wrappers fuel types ty acc) _ acc
        (futures_in (futures_named depth types) ty)
        (futures_of_vars (futures_named depth types) vars) (collect-Gathers ty acc)
        (collect_vars-Gathers vars)

  collect_funcs-Gathers :
      (funcs : Map String Func) (acc : List String)
      → Gathers acc
          (futures_of_funcs (futures_named depth types) funcs)
          (collect_funcs fuel types funcs acc)
  unfolding collect_funcs
  collect_funcs-Gathers [] acc = (λ w here. here, tt)
  collect_funcs-Gathers ((name, func) ∷ funcs) acc =
      Gathers-bind (collect_vars fuel types func.in_vars acc) _ acc
        (futures_of_vars (futures_named depth types) func.in_vars)
        (futures_of_vars (futures_named depth types) func.locals
          ++ (futures_in (futures_named depth types) func.out
              ++ futures_of_funcs (futures_named depth types) funcs))
        (collect_vars-Gathers func.in_vars acc)
        (λ params.
          Gathers-bind (collect_vars fuel types func.locals params) _ params
            (futures_of_vars (futures_named depth types) func.locals)
            (futures_in (futures_named depth types) func.out
              ++ futures_of_funcs (futures_named depth types) funcs)
            (collect_vars-Gathers func.locals params)
            (λ locals.
              Gathers-bind (collect_future_wrappers fuel types func.out locals) _ locals
                (futures_in (futures_named depth types) func.out)
                (futures_of_funcs (futures_named depth types) funcs)
                (collect-Gathers func.out locals) (collect_funcs-Gathers funcs)))

  collect_fibers-Gathers :
      (fibers : Map FiberType IrFiber) (acc : List String)
      → Gathers acc
          (futures_of_fibers (futures_named depth types) fibers)
          (collect_fibers fuel types fibers acc)
  unfolding collect_fibers
  collect_fibers-Gathers [] acc = (λ w here. here, tt)
  collect_fibers-Gathers ((name, fiber) ∷ fibers) acc =
      Gathers-bind (collect_vars fuel types fiber.heap acc) _ acc
        (futures_of_vars (futures_named depth types) fiber.heap)
        (futures_of_funcs (futures_named depth types) fiber.funcs
          ++ futures_of_fibers (futures_named depth types) fibers)
        (collect_vars-Gathers fiber.heap acc)
        (λ heap.
          Gathers-bind (collect_funcs fuel types fiber.funcs heap) _ heap
            (futures_of_funcs (futures_named depth types) fiber.funcs)
            (futures_of_fibers (futures_named depth types) fibers)
            (collect_funcs-Gathers fiber.funcs heap) (collect_fibers-Gathers fibers))

-- Where the collection ends: every future in a field of a declared type, in a heap, and in a parameter, a
-- local or the result of a function of the program, also inside other types and, through any number of
-- names, in the fields of the declared types that these name, has its wrapper among those that are
-- generated. A type of a struct that is written in place, and not named, is not entered.
pub future_wrappers-Has :
    (fuel depth : ℕ) (ir : Ir) (wrappers : List String)
    → future_wrappers fuel ir ≡ ok wrappers
    → Has wrappers (futures_of depth ir)
unfolding future_wrappers
future_wrappers-Has fuel depth ir wrappers e =
    (OnOk-of (λ all. Grows [] all × Has all (futures_of depth ir)) (future_wrappers fuel ir)
      (Gathers-bind (collect_decls fuel ir.types ir.types []) _ []
        (futures_of_decls (futures_named depth ir.types) ir.types)
        (futures_of_fibers (futures_named depth ir.types) ir.fibers)
        (collect_decls-Gathers fuel depth ir.types ir.types [])
        (collect_fibers-Gathers fuel depth ir.types ir.fibers))
      e).1
