-- ===== src/Codegen/Wrappers.antt =====
-- dsl/src/codegen.rs, `collect_future_wrappers` and what `generate_rust_types` makes of it: the structs
-- that stand for the ids of futures.
use text.Mathlib.Text.{◌==◌ as string_beq}
use maroon.Prelude.{
  ℕ, zero, suc, String, List, [], ◌∷◌, map, Bool, true, false, Option, none, some, Outcome, ok,
  hang, ◌>>=◌,
}
use maroon.Prelude.Maps.{Map}
use maroon.Dsl.{FiberType, IrType, StructFields, nil, field, InVar, Func, IrFiber, Ir}
use maroon.Codegen.Names.{format}
use maroon.Codegen.Types.{type_variant_name}
use maroon.Codegen.Exprs.{add}

unfoldable pub wrapper_name : IrType → String
unfolding type_variant_name
wrapper_name inner = format ("Future" ∷ type_variant_name inner ∷ [])

abbrev pub fields_if : Bool → StructFields → Option StructFields → Option StructFields
fields_if true fields later = some fields
fields_if false fields later = later

-- The fields of the first declared type of a name.
unfoldable pub find_fields : List IrType → String → Option StructFields
find_fields [] name = none
find_fields (IrType.struct n fields additions ∷ types) name =
    fields_if (string_beq n name) fields (find_fields types name)
find_fields (IrType.pub_queue_message n fields additions ∷ types) name =
    fields_if (string_beq n name) fields (find_fields types name)
find_fields (t ∷ types) name = find_fields types name

module _ (visit : String → List String → Outcome (List String)) where
  -- The futures in a type; `visit` goes into a type that is named.
  unfoldable pub collect_in : IrType → List String → Outcome (List String)
  unfolding add wrapper_name
  collect_in (IrType.future inner) acc = collect_in inner (add (wrapper_name inner) acc)
  collect_in (IrType.option inner) acc = collect_in inner acc
  collect_in (IrType.array inner) acc = collect_in inner acc
  collect_in (IrType.max_queue inner) acc = collect_in inner acc
  collect_in (IrType.min_queue inner) acc = collect_in inner acc
  collect_in (IrType.map k v) acc = do keys ← collect_in k acc; collect_in v keys
  collect_in (IrType.custom name) acc = visit name acc
  collect_in IrType.uint64 acc = ok acc
  collect_in IrType.string acc = ok acc
  collect_in IrType.bool acc = ok acc
  collect_in IrType.void acc = ok acc
  collect_in (IrType.struct name fields additions) acc = ok acc
  collect_in (IrType.pub_queue_message name fields additions) acc = ok acc

  unfoldable pub collect_fields : StructFields → List String → Outcome (List String)
  unfolding collect_in
  collect_fields nil acc = ok acc
  collect_fields (field name ty fields) acc = do
    more ← collect_in ty acc
    collect_fields fields more

  -- A name that no type is declared by has no futures.
  unfoldable pub collect_found : Option StructFields → List String → Outcome (List String)
  unfolding collect_fields
  collect_found none acc = ok acc
  collect_found (some fields) acc = collect_fields fields acc

-- With fuel for the names that are looked up inside each other.
unfoldable pub visit_name : ℕ → List IrType → String → List String → Outcome (List String)
unfolding collect_found find_fields
visit_name zero types name acc = hang
visit_name (suc fuel) types name acc =
    collect_found (visit_name fuel types) (find_fields types name) acc

unfoldable pub collect_future_wrappers :
    ℕ → List IrType → IrType → List String → Outcome (List String)
unfolding collect_in visit_name
collect_future_wrappers fuel types ty acc = collect_in (visit_name fuel types) ty acc

module _ (fuel : ℕ) (types : List IrType) where
  unfoldable pub collect_decl : IrType → List String → Outcome (List String)
  unfolding collect_future_wrappers collect_fields visit_name
  collect_decl (IrType.struct name fields additions) acc =
      collect_fields (visit_name fuel types) fields acc
  collect_decl (IrType.pub_queue_message name fields additions) acc =
      collect_fields (visit_name fuel types) fields acc
  collect_decl other acc = collect_future_wrappers fuel types other acc

  unfoldable pub collect_decls : List IrType → List String → Outcome (List String)
  unfolding collect_decl
  collect_decls [] acc = ok acc
  collect_decls (t ∷ ts) acc = do more ← collect_decl t acc; collect_decls ts more

  -- Of the variables of a list, or of the entries of a heap.
  unfoldable pub collect_vars : List InVar → List String → Outcome (List String)
  unfolding collect_future_wrappers
  collect_vars [] acc = ok acc
  collect_vars ((name, ty) ∷ vars) acc = do
    more ← collect_future_wrappers fuel types ty acc
    collect_vars vars more

  unfoldable pub collect_funcs : Map String Func → List String → Outcome (List String)
  unfolding collect_vars collect_future_wrappers
  collect_funcs [] acc = ok acc
  collect_funcs ((name, func) ∷ funcs) acc = do
    params ← collect_vars func.in_vars acc
    locals ← collect_vars func.locals params
    out ← collect_future_wrappers fuel types func.out locals
    collect_funcs funcs out

  unfoldable pub collect_fibers : Map FiberType IrFiber → List String → Outcome (List String)
  unfolding collect_vars collect_funcs
  collect_fibers [] acc = ok acc
  collect_fibers ((name, fiber) ∷ fibers) acc = do
    heap ← collect_vars fiber.heap acc
    funcs ← collect_funcs fiber.funcs heap
    collect_fibers fibers funcs

unfoldable pub future_wrappers : ℕ → Ir → Outcome (List String)
unfolding collect_decls collect_fibers
future_wrappers fuel ir = do
  declared ← collect_decls fuel ir.types ir.types []
  collect_fibers fuel ir.types ir.fibers declared

abbrev pub wrapper_structs : List String → String
wrapper_structs ws = format (
    map
      (λ w. format (
        "#[derive(Clone, Debug, Default, PartialEq, Eq, Serialize, Deserialize)]\npub struct " ∷ w
        ∷ "(pub String);\n\n" ∷ []))
      ws)

abbrev pub future_kinds : List String → String
future_kinds ws = format (
    "#[derive(Clone, Debug, PartialEq, Eq)]\npub enum FutureKind {\n"
    ∷ format (map (λ w. format ("  " ∷ w ∷ ",\n" ∷ [])) ws)
    ∷ "}\n\n"
    ∷ "pub fn wrap_future_id(kind: FutureKind, id: String) -> Value {\n  match kind {\n"
    ∷ format (
        map (λ w. format ("    FutureKind::" ∷ w ∷ " => Value::" ∷ w ∷ "(" ∷ w ∷ "(id)),\n" ∷ []))
          ws)
    ∷ "  }\n}\n\n"
    ∷ [])
