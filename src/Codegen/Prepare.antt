-- ===== src/Codegen/Prepare.antt =====
-- dsl/src/codegen.rs, `generate_prepare_and_result_helpers`: the stack that a fiber begins with, and how
-- its result is read.
use maroon.Prelude.{
  ℕ, ◌+◌, String, List, [], ◌∷◌, ◌++◌, map, Bool, true, false, some, if◌then◌else◌,
}
use maroon.Prelude.Decimal.{to_string}
use maroon.Prelude.Sort.{sort}
use maroon.Dsl.{FiberType, IrType, InVar, Func, IrFiber, Ir}
use maroon.Codegen.Names.{format, join_comma, camel_ident}
use maroon.Codegen.Types.{type_variant_name, rust_type, default_value_expr}
use maroon.Codegen.States.{string_leb, sorted, state_of}
use maroon.Codegen.Code.{EntryCode}
use maroon.Codegen.Emit.{default_locals}
use maroon.Codegen.Heaps.{param_text, arg_name}

abbrev pub is_void : IrType → Bool
is_void IrType.void = true
is_void _ = false

abbrev pub ret_slot : IrType → List EntryCode
unfolding type_variant_name default_value_expr
ret_slot ty =
    if is_void ty
    then []
    else EntryCode.value "ret" (type_variant_name ty) (default_value_expr ty) ∷ []

unfoldable pub param_values : List InVar → List EntryCode
unfolding camel_ident type_variant_name
param_values [] = []
param_values ((name, ty) ∷ params) =
    EntryCode.value name (type_variant_name ty) (camel_ident name) ∷ param_values params

-- What the generated function pushes on the empty stack.
unfoldable pub prepared_stack : FiberType → String → Func → List EntryCode
unfolding ret_slot param_values default_locals state_of
prepared_stack fiber name func =
    ret_slot func.out
    ++ EntryCode.retrn (some 1)
      ∷ (param_values func.in_vars
          ++ (default_locals func.locals ++ EntryCode.state (state_of fiber name "entry") ∷ []))

abbrev push_text : EntryCode → String
push_text (EntryCode.value name variant v) = format (
    "  stack.push(StackEntry::Value(\"" ∷ name ∷ "\".to_string(), Value::" ∷ variant ∷ "(" ∷ v
    ∷ ")));\n" ∷ [])
push_text (EntryCode.retrn offset) = "  stack.push(StackEntry::Retrn(Some(1)));\n"
push_text (EntryCode.state st) =
    format ("  stack.push(StackEntry::State(State::" ∷ st ∷ "));\n" ∷ [])

abbrev result_body : IrType → String
unfolding type_variant_name
result_body ty =
    if is_void ty
    then "  let _ = stack;\n  ()\n}\n\n"
    else format (
        "  match stack.last() {\n"
        ∷ "    Some(StackEntry::Value(_, "
        ∷ "Value::"
        ∷ type_variant_name ty
        ∷ "(v))) => v.clone(),\n"
        ∷ "    _ => unreachable!(\"result not found on stack\"),\n"
        ∷ "  }\n}\n\n"
        ∷ [])

unfoldable pub args_text : FiberType → String → ℕ → List InVar → String
unfolding camel_ident type_variant_name rust_type
args_text fiber func i [] = ""
args_text fiber func i ((name, ty) ∷ vars) = format (
    "  let "
    ∷ camel_ident name
    ∷ ": "
    ∷ rust_type ty
    ∷ " = if let Value::"
    ∷ type_variant_name ty
    ∷ "(x) = &args["
    ∷ to_string i
    ∷ "] { x.clone() } else { unreachable!(\"invalid args for "
    ∷ fiber
    ∷ "."
    ∷ func
    ∷ "\") };\n"
    ∷ args_text fiber func (i + 1) vars
    ∷ [])

abbrev prepare_name : FiberType → String → String
unfolding camel_ident
prepare_name fiber name = format (camel_ident fiber ∷ "_prepare_" ∷ camel_ident name ∷ [])

abbrev result_name : FiberType → String → String
unfolding camel_ident
result_name fiber name = format (camel_ident fiber ∷ "_result_" ∷ camel_ident name ∷ [])

unfoldable pub func_helpers : FiberType → String × Func → String
unfolding prepare_name result_name param_text arg_name prepared_stack result_body args_text
    rust_type type_variant_name
func_helpers fiber (name, func) =
    let prepare = prepare_name fiber name in
    let result = result_name fiber name in
    format (
      "pub fn "
      ∷ prepare
      ∷ "("
      ∷ join_comma (map param_text func.in_vars)
      ∷ ") -> (Vec<StackEntry>, Heap) {\n"
      ∷ "  let mut stack: Vec<StackEntry> = Vec::new();\n"
      ∷ format (map push_text (prepared_stack fiber name func))
      ∷ "  let heap = Heap::default();\n  (stack, heap)\n}\n\n"
      ∷ "pub fn "
      ∷ result
      ∷ "(stack: &[StackEntry]) -> "
      ∷ rust_type func.out
      ∷ " {\n"
      ∷ result_body func.out
      ∷ "fn "
      ∷ prepare
      ∷ "_from_values(args: Vec<Value>) -> Vec<StackEntry> {\n"
      ∷ args_text fiber name 0 func.in_vars
      ∷ "  let (stack, _heap) = "
      ∷ prepare
      ∷ "("
      ∷ join_comma (map arg_name func.in_vars)
      ∷ ");\n  stack\n}\n\n"
      ∷ "fn "
      ∷ result
      ∷ "_value(stack: &[StackEntry]) -> Value { Value::"
      ∷ type_variant_name func.out
      ∷ "("
      ∷ result
      ∷ "(stack)) }\n\n"
      ∷ [])

abbrev fiber_helpers : FiberType × IrFiber → String
unfolding func_helpers sorted
fiber_helpers (name, fiber) = format (map (func_helpers name) (sorted fiber.funcs))

abbrev prepare_arm : FiberType → String × Func → String
unfolding prepare_name
prepare_arm fiber (name, func) =
    format
      ("    \"" ∷ fiber ∷ "." ∷ name ∷ "\" => " ∷ prepare_name fiber name ∷ "_from_values,\n" ∷ [])

unfoldable pub prepare_arms : List (FiberType × IrFiber) → List String
unfolding prepare_arm sorted
prepare_arms [] = []
prepare_arms ((name, fiber) ∷ fibers) =
    map (prepare_arm name) (sorted fiber.funcs) ++ prepare_arms fibers

unfoldable pub generate_prepare_and_result_helpers : Ir → String
unfolding fiber_helpers prepare_arms sorted sort
generate_prepare_and_result_helpers ir = format (
    "\n// Registry: function key -> (prepare_from_values, result_to_value)\n"
    ∷ "pub type PrepareFn = fn(Vec<Value>) -> Vec<StackEntry>;\n"
    ∷ "pub type ResultFn = fn(&[StackEntry]) -> Value;\n\n"
    ∷ format (map fiber_helpers (sorted ir.fibers))
    ∷ "pub fn get_prepare_fn(key: &str) -> PrepareFn {\n  match key {\n"
    ∷ format (sort string_leb (prepare_arms (sorted ir.fibers)))
    ∷ "    _ => panic!(\"shouldnt be here\"),\n  }\n}\n\n"
    ∷ [])
