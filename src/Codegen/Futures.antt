-- ===== src/Codegen/Futures.antt =====
-- dsl/src/codegen.rs: the futures of a program whose ids have a struct of their own, apart from the code
-- that collects them.
use maroon.Prelude.{ℕ, zero, suc, String, List, [], ◌∷◌, ◌++◌, Option, none, some}
use maroon.Prelude.Maps.{Map}
use maroon.Dsl.{FiberType, IrType, StructFields, nil, field, InVar, Func, IrFiber, Ir}
use maroon.Codegen.Wrappers.{wrapper_name, find_fields}

module _ (named : String → List String) where
  -- The futures in a type, where those of a type that is named are given.
  abbrev pub futures_in : IrType → List String
  futures_in (IrType.future inner) = wrapper_name inner ∷ futures_in inner
  futures_in (IrType.option inner) = futures_in inner
  futures_in (IrType.array inner) = futures_in inner
  futures_in (IrType.max_queue inner) = futures_in inner
  futures_in (IrType.min_queue inner) = futures_in inner
  futures_in (IrType.map key value) = futures_in key ++ futures_in value
  futures_in (IrType.custom name) = named name
  futures_in _ = []

  abbrev pub futures_of_fields : StructFields → List String
  futures_of_fields nil = []
  futures_of_fields (field name ty fields) = futures_in ty ++ futures_of_fields fields

  abbrev pub futures_of_found : Option StructFields → List String
  futures_of_found none = []
  futures_of_found (some fields) = futures_of_fields fields

  -- The futures in the fields of the declared types.
  abbrev pub futures_of_decls : List IrType → List String
  futures_of_decls [] = []
  futures_of_decls (IrType.struct name fields additions ∷ types) =
      futures_of_fields fields ++ futures_of_decls types
  futures_of_decls (IrType.pub_queue_message name fields additions ∷ types) =
      futures_of_fields fields ++ futures_of_decls types
  futures_of_decls (t ∷ types) = futures_in t ++ futures_of_decls types

  abbrev pub futures_of_vars : List InVar → List String
  futures_of_vars [] = []
  futures_of_vars ((name, ty) ∷ vars) = futures_in ty ++ futures_of_vars vars

  abbrev pub futures_of_funcs : Map String Func → List String
  futures_of_funcs [] = []
  futures_of_funcs ((name, func) ∷ funcs) =
      futures_of_vars func.in_vars
      ++ (futures_of_vars func.locals ++ (futures_in func.out ++ futures_of_funcs funcs))

  -- The futures in the heaps, and in the parameters, locals and results of the functions.
  abbrev pub futures_of_fibers : Map FiberType IrFiber → List String
  futures_of_fibers [] = []
  futures_of_fibers ((name, fiber) ∷ fibers) =
      futures_of_vars fiber.heap ++ (futures_of_funcs fiber.funcs ++ futures_of_fibers fibers)

-- The futures in the type of a name, through so many names that stand inside each other.
abbrev pub futures_named : (depth : ℕ) → List IrType → String → List String
futures_named zero types name = []
futures_named (suc depth) types name =
    futures_of_found (futures_named depth types) (find_fields types name)

-- The futures of a program, through so many names.
abbrev pub futures_of : (depth : ℕ) → Ir → List String
futures_of depth ir =
    futures_of_decls (futures_named depth ir.types) ir.types
    ++ futures_of_fibers (futures_named depth ir.types) ir.fibers
