-- ===== src/Codegen/Values.antt =====
-- dsl/src/codegen.rs, `generate_rust_types`: the variants of the generated `Value`.
use maroon.Prelude.{String, List, [], ◌∷◌, map, if◌then◌else◌}
use maroon.Prelude.Maps.{Map, string_eq, insert, contains_key}
use maroon.Dsl.{FiberType, IrType, nil, InVar, Func, IrFiber, Ir}
use maroon.Codegen.Names.{format, pascal_case}
use maroon.Codegen.Types.{type_variant_name, rust_type}
use maroon.Codegen.States.{sorted}

abbrev pub Types : Type 0
Types = Map String IrType

unfoldable pub use_type : IrType → Types → Types
unfolding insert type_variant_name
use_type ty used = insert used (type_variant_name ty) ty

unfoldable pub use_vars : List InVar → Types → Types
unfolding use_type
use_vars [] used = used
use_vars ((name, ty) ∷ vars) used = use_vars vars (use_type ty used)

unfoldable pub use_funcs : Map String Func → Types → Types
unfolding use_vars use_type
use_funcs [] used = used
use_funcs ((name, func) ∷ funcs) used =
    use_funcs funcs (use_type func.out (use_vars func.locals (use_vars func.in_vars used)))

unfoldable pub use_fibers : Map FiberType IrFiber → Types → Types
unfolding use_vars use_funcs
use_fibers [] used = used
use_fibers ((name, fiber) ∷ fibers) used =
    use_fibers fibers (use_funcs fiber.funcs (use_vars fiber.init_vars used))

-- `entry(..).or_insert_with(..)`
unfoldable pub or_insert : String → IrType → Types → Types
unfolding insert contains_key
or_insert key ty used = if contains_key used key then used else insert used key ty

unfoldable pub pub_name : String → String
unfolding pascal_case
pub_name name = format (pascal_case name ∷ "Pub" ∷ [])

unfoldable pub use_message : IrType → Types → Types
unfolding pascal_case or_insert pub_name
use_message (IrType.pub_queue_message name fields additions) used =
    or_insert (pub_name name) (IrType.struct (pub_name name) nil "")
      (or_insert (pascal_case name) (IrType.pub_queue_message name nil "") used)
use_message _ used = used

unfoldable pub use_messages : List IrType → Types → Types
unfolding use_message
use_messages [] used = used
use_messages (t ∷ ts) used = use_messages ts (use_message t used)

-- The variants of `Value`, each with the type that it holds.
unfoldable pub used_types : Ir → Types
unfolding use_fibers use_messages sorted
used_types ir = sorted (use_messages ir.types (use_fibers (sorted ir.fibers) []))

abbrev variant_text : String × IrType → String
unfolding rust_type
variant_text (name, ty) = format ("  " ∷ name ∷ "(" ∷ rust_type ty ∷ "),\n" ∷ [])

unfoldable pub value_enum : Ir → String
unfolding used_types variant_text
value_enum ir = format (
    "#[derive(Clone, Debug, PartialEq, Eq, Serialize, Deserialize)]\npub enum Value {\n"
    ∷ format (map variant_text (used_types ir))
    ∷ "}\n\n"
    ∷ [])
