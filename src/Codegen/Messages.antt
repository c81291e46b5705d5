-- ===== src/Codegen/Messages.antt =====
-- dsl/src/codegen.rs, `generate_rust_types`: the conversions between the public and the private variant of
-- a message.
use text.Mathlib.Text.{◌==◌ as string_beq}
use maroon.Prelude.{String, List, [], ◌∷◌, map, if◌then◌else◌}
use maroon.Dsl.{IrType, StructFields, nil, field, Ir}
use maroon.Codegen.Names.{format, join_comma, pascal_case, camel_ident}
use maroon.Codegen.Wrappers.{wrapper_name}
use maroon.Codegen.Values.{pub_name}

abbrev copy_text : String → String
unfolding camel_ident
copy_text name = format (camel_ident name ∷ ": m." ∷ camel_ident name ∷ [])

-- The copies of all fields but `public_future_id`.
unfoldable pub copies : StructFields → List String
unfolding copy_text
copies nil = []
copies (field name ty fields) =
    let rest = copies fields in
    if string_beq name "public_future_id" then rest else copy_text name ∷ rest

abbrev pub id_code : IrType → String
unfolding wrapper_name
id_code (IrType.future inner) = format (wrapper_name inner ∷ "(future_id)" ∷ [])
id_code _ = "future_id"

-- What the field `public_future_id` is given; the last of that name counts.
unfoldable pub future_assign : StructFields → String → String
unfolding id_code
future_assign nil code = code
future_assign (field name ty fields) code =
    future_assign fields (if string_beq name "public_future_id" then id_code ty else code)

unfoldable pub to_private : IrType → String
unfolding pascal_case camel_ident pub_name copies future_assign
to_private (IrType.pub_queue_message name fields additions) = format (
    "    Value::"
    ∷ pub_name name
    ∷ "(m) => Value::"
    ∷ pascal_case name
    ∷ "("
    ∷ pascal_case name
    ∷ " { "
    ∷ join_comma (copies fields)
    ∷ " , "
    ∷ camel_ident "public_future_id"
    ∷ ": "
    ∷ future_assign fields "future_id"
    ∷ " }),\n"
    ∷ [])
to_private _ = ""

unfoldable pub to_public : IrType → String
unfolding pascal_case pub_name copies
to_public (IrType.pub_queue_message name fields additions) = format (
    "    Value::"
    ∷ pascal_case name
    ∷ "(m) => Value::"
    ∷ pub_name name
    ∷ "("
    ∷ pub_name name
    ∷ " { "
    ∷ join_comma (copies fields)
    ∷ " }),\n"
    ∷ [])
to_public _ = ""

unfoldable pub converters : Ir → String
unfolding to_private to_public
converters ir = format (
    "pub fn pub_to_private(val: Value, future_id: String) -> Value {\n  match val {\n"
    ∷ format (map to_private ir.types)
    ∷ "    _ => panic!(\"pub_to_private is only for PubQueueMessage values\"),\n  }\n}\n\n"
    ∷ "pub fn private_to_pub(val: Value) -> Value {\n  match val {\n"
    ∷ format (map to_public ir.types)
    ∷ "    _ => panic!(\"private_to_pub is only for PubQueueMessage values\"),\n  }\n}\n\n"
    ∷ [])
