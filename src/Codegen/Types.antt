-- ===== src/Codegen/Types.antt =====
-- dsl/src/codegen.rs: the Rust types of the generated code, and the variants of its `Value`.
use maroon.Prelude.{String, [], ◌∷◌, Bool, true, false}
use maroon.Dsl.{IrType}
use maroon.Codegen.Names.{format, pascal_case}

unfoldable pub is_copy_type : IrType → Bool
is_copy_type IrType.uint64 = true
is_copy_type IrType.bool = true
is_copy_type IrType.void = true
is_copy_type (IrType.option inner) = is_copy_type inner
is_copy_type IrType.string = false
is_copy_type (IrType.max_queue inner) = false
is_copy_type (IrType.min_queue inner) = false
is_copy_type (IrType.map k v) = false
is_copy_type (IrType.array inner) = false
is_copy_type (IrType.struct name fields additions) = false
is_copy_type (IrType.pub_queue_message name fields additions) = false
is_copy_type (IrType.future inner) = false
is_copy_type (IrType.custom name) = false

unfoldable pub type_variant_name : IrType → String
unfolding pascal_case
type_variant_name IrType.uint64 = "U64"
type_variant_name IrType.string = "String"
type_variant_name IrType.bool = "Bool"
type_variant_name IrType.void = "Unit"
type_variant_name (IrType.max_queue inner) = format ("MaxQueue" ∷ type_variant_name inner ∷ [])
type_variant_name (IrType.min_queue inner) = format ("MinQueue" ∷ type_variant_name inner ∷ [])
type_variant_name (IrType.struct name fields additions) = pascal_case name
type_variant_name (IrType.pub_queue_message name fields additions) = pascal_case name
type_variant_name (IrType.future inner) = format ("Future" ∷ type_variant_name inner ∷ [])
type_variant_name (IrType.custom name) = pascal_case name
type_variant_name (IrType.option inner) = format ("Option" ∷ type_variant_name inner ∷ [])
type_variant_name (IrType.array inner) = format ("Array" ∷ type_variant_name inner ∷ [])
type_variant_name (IrType.map k v) =
    format ("Map" ∷ type_variant_name k ∷ "To" ∷ type_variant_name v ∷ [])

unfoldable pub rust_type : IrType → String
unfolding pascal_case type_variant_name
rust_type IrType.uint64 = "u64"
rust_type IrType.string = "String"
rust_type IrType.bool = "bool"
rust_type IrType.void = "()"
rust_type (IrType.max_queue inner) =
    format ("std::collections::BinaryHeap<" ∷ rust_type inner ∷ ">" ∷ [])
rust_type (IrType.min_queue inner) =
    format ("std::collections::BinaryHeap<std::cmp::Reverse<" ∷ rust_type inner ∷ ">>" ∷ [])
rust_type (IrType.map k v) =
    format ("std::collections::HashMap<" ∷ rust_type k ∷ ", " ∷ rust_type v ∷ ">" ∷ [])
rust_type (IrType.array inner) = format ("Vec<" ∷ rust_type inner ∷ ">" ∷ [])
rust_type (IrType.struct name fields additions) = pascal_case name
rust_type (IrType.option inner) = format ("Option<" ∷ rust_type inner ∷ ">" ∷ [])
rust_type (IrType.pub_queue_message name fields additions) = pascal_case name
rust_type (IrType.future inner) = format ("Future" ∷ type_variant_name inner ∷ [])
rust_type (IrType.custom name) = pascal_case name

unfoldable pub default_value_expr : IrType → String
unfolding pascal_case type_variant_name rust_type
default_value_expr IrType.uint64 = "0u64"
default_value_expr IrType.string = "String::new()"
default_value_expr IrType.bool = "false"
default_value_expr IrType.void = "()"
default_value_expr (IrType.max_queue inner) =
    format ("std::collections::BinaryHeap::<" ∷ rust_type inner ∷ ">::new()" ∷ [])
default_value_expr (IrType.min_queue inner) =
    format
      ("std::collections::BinaryHeap::<std::cmp::Reverse<" ∷ rust_type inner ∷ ">>::new()" ∷ [])
default_value_expr (IrType.option inner) = "None"
default_value_expr (IrType.array inner) = format ("Vec::<" ∷ rust_type inner ∷ ">::new()" ∷ [])
default_value_expr (IrType.map k v) =
    format ("std::collections::HashMap::<" ∷ rust_type k ∷ ", " ∷ rust_type v ∷ ">::new()" ∷ [])
default_value_expr (IrType.struct name fields additions) =
    format (pascal_case name ∷ "::default()" ∷ [])
default_value_expr (IrType.custom name) = format (pascal_case name ∷ "::default()" ∷ [])
default_value_expr (IrType.pub_queue_message name fields additions) =
    format (pascal_case name ∷ "::default()" ∷ [])
default_value_expr (IrType.future inner) =
    format ("Future" ∷ type_variant_name inner ∷ "::default()" ∷ [])
