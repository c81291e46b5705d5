-- ===== src/Codegen/Heaps.antt =====
-- dsl/src/codegen.rs: the heap of each fiber, and what fills in its `in_vars` at the start.
use maroon.Prelude.{ℕ, ◌+◌, String, List, [], ◌∷◌, map}
use maroon.Prelude.Decimal.{to_string}
use maroon.Prelude.Sort.{sort}
use maroon.Dsl.{FiberType, IrType, InVar, IrFiber, Ir}
use maroon.Codegen.Names.{format, join_comma, camel_ident, variant_name}
use maroon.Codegen.Types.{type_variant_name, rust_type, default_value_expr}
use maroon.Codegen.States.{string_leb, sorted}

abbrev field_text : String × IrType → String
unfolding camel_ident rust_type
field_text (name, ty) = format ("  pub " ∷ camel_ident name ∷ ": " ∷ rust_type ty ∷ ",\n" ∷ [])

abbrev heap_struct : FiberType → String
unfolding variant_name
heap_struct fiber = variant_name (fiber ∷ "Heap" ∷ [])

abbrev in_vars_struct : FiberType → String
unfolding variant_name
in_vars_struct fiber = variant_name (fiber ∷ "InVars" ∷ [])

abbrev in_vars_field : FiberType → List InVar → String
unfolding in_vars_struct
in_vars_field fiber [] = ""
in_vars_field fiber (v ∷ vs) = format ("  pub in_vars: " ∷ in_vars_struct fiber ∷ ",\n" ∷ [])

abbrev in_vars_text : FiberType → List InVar → String
unfolding in_vars_struct field_text sorted
in_vars_text fiber [] = ""
in_vars_text fiber (v ∷ vs) = format (
    "#[derive(Clone, Debug, Default)]\npub struct "
    ∷ in_vars_struct fiber
    ∷ " {\n"
    ∷ format (map field_text (sorted (v ∷ vs)))
    ∷ "}\n\n"
    ∷ [])

unfoldable pub fiber_heap : FiberType × IrFiber → String
unfolding heap_struct in_vars_field in_vars_text field_text sorted
fiber_heap (name, fiber) = format (
    "#[derive(Clone, Debug, Default)]\npub struct "
    ∷ heap_struct name
    ∷ " {\n"
    ∷ format (map field_text (sorted fiber.heap))
    ∷ in_vars_field name fiber.init_vars
    ∷ "}\n\n"
    ∷ in_vars_text name fiber.init_vars
    ∷ [])

abbrev heap_entry : FiberType × IrFiber → String × String
unfolding camel_ident heap_struct
heap_entry (name, fiber) = (camel_ident name, heap_struct name)

abbrev entry_text : String × String → String
entry_text (name, struct) = format ("  pub " ∷ name ∷ ": " ∷ struct ∷ ",\n" ∷ [])

unfoldable pub heap_structs : Ir → String
unfolding fiber_heap heap_entry sorted
heap_structs ir = format (
    format (map fiber_heap (sorted ir.fibers))
    ∷ "#[derive(Clone, Debug, Default)]\npub struct Heap {\n"
    ∷ format (map entry_text (sorted (map heap_entry (sorted ir.fibers))))
    ∷ "}\n\n"
    ∷ [])

unfoldable pub param_text : InVar → String
unfolding camel_ident rust_type
param_text (name, ty) = format (camel_ident name ∷ ": " ∷ rust_type ty ∷ [])

unfoldable pub arg_name : InVar → String
unfolding camel_ident
arg_name (name, ty) = camel_ident name

abbrev init_text : FiberType → InVar → String
unfolding camel_ident
init_text fiber (name, ty) = format (
    "  heap."
    ∷ camel_ident fiber
    ∷ ".in_vars."
    ∷ camel_ident name
    ∷ " = "
    ∷ camel_ident name
    ∷ ";\n"
    ∷ [])

unfoldable pub from_values : ℕ → List InVar → String
unfolding camel_ident type_variant_name rust_type default_value_expr
from_values i [] = ""
from_values i ((name, ty) ∷ vars) = format (
    "  let "
    ∷ camel_ident name
    ∷ ": "
    ∷ rust_type ty
    ∷ " = if let Some(Value::"
    ∷ type_variant_name ty
    ∷ "(x)) = args.get("
    ∷ to_string i
    ∷ ") { x.clone() } else { "
    ∷ default_value_expr ty
    ∷ " };\n"
    ∷ from_values (i + 1) vars
    ∷ [])

unfoldable pub heap_init : FiberType × IrFiber → String
unfolding camel_ident param_text arg_name init_text from_values
heap_init (name, fiber) =
    let fname = camel_ident name in
    format (
      "pub fn "
      ∷ fname
      ∷ "_prepare_heap("
      ∷ join_comma (map param_text fiber.init_vars)
      ∷ ") -> Heap {\n"
      ∷ "  let mut heap = Heap::default();\n"
      ∷ format (map (init_text name) fiber.init_vars)
      ∷ "  heap\n}\n\n"
      ∷ "fn "
      ∷ fname
      ∷ "_prepare_heap_from_values(args: Vec<Value>) -> Heap {\n"
      ∷ from_values 0 fiber.init_vars
      ∷ "  "
      ∷ fname
      ∷ "_prepare_heap("
      ∷ join_comma (map arg_name fiber.init_vars)
      ∷ ")\n}\n\n"
      ∷ [])

abbrev init_arm : FiberType × IrFiber → String
unfolding camel_ident
init_arm (name, fiber) =
    format ("    \"" ∷ name ∷ "\" => " ∷ camel_ident name ∷ "_prepare_heap_from_values,\n" ∷ [])

unfoldable pub generate_heap_init_helpers : Ir → String
unfolding heap_init init_arm sorted sort
generate_heap_init_helpers ir = format (
    "pub type HeapInitFn = fn(Vec<Value>) -> Heap;\n\n"
    ∷ format (map heap_init (sorted ir.fibers))
    ∷ "pub fn get_heap_init_fn(fiber: &FiberType) -> HeapInitFn {\n  match fiber.0.as_str() {\n"
    ∷ format (sort string_leb (map init_arm (sorted ir.fibers)))
    ∷ "    _ => |_| Heap::default(),\n  }\n}\n\n"
    ∷ [])
