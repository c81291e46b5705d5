-- ===== src/Codegen/Decls.antt =====
-- dsl/src/codegen.rs, `generate_rust_types`: the structs of the declared types.
use Prim.Native.Char.{Char, code}
use text.Mathlib.Text.{find?, ◌==◌ as string_beq}
use maroon.Prelude.{
  ℕ, String, List, [], ◌∷◌, map, Bool, true, false, Option, none, some, ◌&&◌, ◌||◌, not, ◌==◌, leb,
  if◌then◌else◌,
}
use maroon.Prelude.Maps.{Map}
use maroon.Dsl.{FiberType, IrType, StructFields, nil, field, IrFiber, Ir}
use maroon.Codegen.Names.{format, pascal_case, camel_ident}
use maroon.Codegen.Types.{rust_type}
use maroon.Codegen.Exprs.{add}
use maroon.Codegen.States.{member}

-- `char::is_whitespace`
unfoldable pub is_whitespace : Char → Bool
is_whitespace c =
    let n = code c in
    (leb 9 n && leb n 13)
    || n == 32
    || n == 133
    || n == 160
    || n == 5760
    || (leb 8192 n && leb n 8202)
    || n == 8232
    || n == 8233
    || n == 8239
    || n == 8287
    || n == 12288

unfoldable pub trim_start : String → String
unfolding is_whitespace
trim_start String.[] = String.[]
trim_start (String.◌∷◌ c s) =
    let rest = trim_start s in if is_whitespace c then rest else String.◌∷◌ c s

abbrev put_unless_blank : Char → String → String
unfolding is_whitespace
put_unless_blank c String.[] = if is_whitespace c then String.[] else String.◌∷◌ c String.[]
put_unless_blank c (String.◌∷◌ d s) = String.◌∷◌ c (String.◌∷◌ d s)

unfoldable pub trim_end : String → String
unfolding put_unless_blank
trim_end String.[] = String.[]
trim_end (String.◌∷◌ c s) = put_unless_blank c (trim_end s)

-- `str::trim`
abbrev pub trim : String → String
unfolding trim_start trim_end
trim s = trim_end (trim_start s)

abbrev is_found : Option ℕ → Bool
is_found none = false
is_found (some i) = true

-- `str::contains`
abbrev contains : String → String → Bool
contains s t = is_found (find? s t)

abbrev item_name : IrType → List String → List String
unfolding pascal_case add
item_name (IrType.custom n) acc = add (pascal_case n) acc
item_name (IrType.struct n fields additions) acc = add (pascal_case n) acc
item_name _ acc = acc

abbrev queue_item : IrType → List String → List String
unfolding item_name
queue_item (IrType.min_queue inner) acc = item_name inner acc
queue_item (IrType.max_queue inner) acc = item_name inner acc
queue_item _ acc = acc

unfoldable pub heap_items : Map String IrType → List String → List String
unfolding queue_item
heap_items [] acc = acc
heap_items ((name, ty) ∷ heap) acc = heap_items heap (queue_item ty acc)

unfoldable pub need_ord_from : Map FiberType IrFiber → List String → List String
unfolding heap_items
need_ord_from [] acc = acc
need_ord_from ((name, fiber) ∷ fibers) acc = need_ord_from fibers (heap_items fiber.heap acc)

-- The structs that stand in a queue of some heap: they need an order.
unfoldable pub need_ord : Ir → List String
unfolding need_ord_from
need_ord ir = need_ord_from ir.fibers []

unfoldable pub struct_fields : StructFields → String
unfolding camel_ident rust_type
struct_fields nil = ""
struct_fields (field name ty fields) =
    format ("  pub " ∷ camel_ident name ∷ ": " ∷ rust_type ty ∷ ",\n" ∷ struct_fields fields ∷ [])

-- The fields of a message but its `public_future_id`.
unfoldable pub public_fields : StructFields → StructFields
public_fields nil = nil
public_fields (field name ty fields) =
    let rest = public_fields fields in
    if string_beq name "public_future_id" then rest else field name ty rest

abbrev struct_text : (derives name : String) → StructFields → String
unfolding struct_fields
struct_text derives name fields = format (
    "#[derive(" ∷ derives ∷ ")]\npub struct " ∷ name ∷ " {\n" ∷ struct_fields fields ∷ "}\n\n" ∷ [])

abbrev with_eq : String
with_eq = "Clone, Debug, Default, PartialEq, Eq, Serialize, Deserialize"

-- What is derived for a struct, by the implementations that are given for it.
abbrev pub derives_of : (provides_partial_eq provides_ord needs_ord : Bool) → String
derives_of true provides_ord needs_ord = "Clone, Debug, Default, Serialize, Deserialize"
derives_of false provides_ord needs_ord =
    if needs_ord && not provides_ord
    then "Clone, Debug, Default, PartialEq, Eq, PartialOrd, Ord, Serialize, Deserialize"
    else with_eq

abbrev additions_text : String → String
additions_text String.[] = ""
additions_text (String.◌∷◌ c s) = format (String.◌∷◌ c s ∷ "\n\n" ∷ [])

unfoldable pub type_decl : List String → IrType → String
unfolding pascal_case trim struct_text member public_fields
type_decl ordered (IrType.struct name fields impl_block) =
    let ib = trim impl_block in
    let derives =
      derives_of (contains ib "impl PartialEq" || contains ib "impl Eq")
        (contains ib "impl Ord" || contains ib "impl PartialOrd")
        (member (pascal_case name) ordered) in
    format (struct_text derives (pascal_case name) fields ∷ impl_block ∷ "\n\n" ∷ [])
type_decl ordered (IrType.pub_queue_message name fields rust_additions) = format (
    struct_text with_eq (format (pascal_case name ∷ "Pub" ∷ [])) (public_fields fields)
    ∷ struct_text with_eq (pascal_case name) fields
    ∷ additions_text (trim rust_additions)
    ∷ [])
type_decl ordered _ = ""

unfoldable pub type_decls : Ir → String
unfolding need_ord type_decl
type_decls ir = format (map (type_decl (need_ord ir)) ir.types)
