-- ===== src/Dsl/Infer.antt =====
-- dsl/src/ir.rs, the functions below `uses_correct_variables`: types of expressions, as far as they
-- can be told.
use maroon.Prelude.{
  String, List, [], ◌∷◌, Bool, true, false, ◌&&◌, ◌||◌, Option, none, some, if◌then◌else◌, ◌≡◌, ◌↔◌,
  refl, arith,
}
use text.Mathlib.Text.{◌==◌}
use maroon.Prelude.Maps.{Map, string_eq, get}
use maroon.Dsl.{IrType, StructFields, nil, field, Expr, RetValue}

dec_of : {P : Type 0} (b : Bool) → (b ≡ true) ↔ P → Dec P
dec_of true iff = yes (iff.0 refl)
dec_of false iff = no (λ p. ground (arith, iff.1 p))

String-discrete : Discrete String
unfolding dec_of
String-discrete a b = dec_of (string_eq.beq a b) (string_eq.beq_iff a b)

-- The derived `PartialEq` of `Type`.
unfoldable pub IrType-discrete : Discrete IrType
unfolding String-discrete
IrType-discrete = hlevel String-discrete

abbrev pub is_yes {ℓ} : {P : Type ℓ} → Dec P → Bool
is_yes (yes p) = true
is_yes (no n) = false

abbrev pub same_type : IrType → IrType → Bool
same_type a b = is_yes (IrType-discrete a b)

-- `?` on an `Option`.
infixl 5 ◌>>=◌
abbrev pub ◌>>=◌ : {A B : Type 0} → Option A → (A → Option B) → Option B
none >>= f = none
some a >>= f = f a

-- `iter().find(|sf| sf.name == field)`
unfoldable pub find_field : StructFields → String → Option IrType
find_field nil name = none
find_field (field n ty fields) name = if n == name then some ty else find_field fields name

-- The fields of the declared type of a name; other declarations are passed over.
unfoldable pub find_struct : List IrType → String → Option StructFields
find_struct [] name = none
find_struct (IrType.struct n fields rust ∷ types) name =
    if n == name then some fields else find_struct types name
find_struct (IrType.pub_queue_message n fields rust ∷ types) name =
    if n == name then some fields else find_struct types name
find_struct (_ ∷ types) name = find_struct types name

unfoldable pub resolve_struct_fields : List IrType → IrType → Option StructFields
unfolding find_struct
resolve_struct_fields types (IrType.struct name fields rust) = some fields
resolve_struct_fields types (IrType.pub_queue_message name fields rust) = some fields
resolve_struct_fields types (IrType.custom name) = find_struct types name
resolve_struct_fields types _ = none

unfoldable pub resolve_struct_field_type : List IrType → IrType → String → Option IrType
unfolding resolve_struct_fields find_field
resolve_struct_field_type types t name = do
  fields ← resolve_struct_fields types t
  find_field fields name

abbrev pub unwrap_option : IrType → Option IrType
unwrap_option (IrType.option inner) = some inner
unwrap_option _ = none

-- The inference of a comparison's operands and of a struct's updates has no effect.
unfoldable pub infer_expr_type : List IrType → Expr → Map String IrType → Option IrType
unfolding get resolve_struct_field_type
infer_expr_type types (Expr.uint64 n) vars = some IrType.uint64
infer_expr_type types (Expr.str s) vars = some IrType.string
infer_expr_type types (Expr.bool b) vars = some IrType.bool
infer_expr_type types (Expr.var name) vars = get vars name
infer_expr_type types (Expr.equal a b) vars = some IrType.bool
infer_expr_type types (Expr.greater a b) vars = some IrType.bool
infer_expr_type types (Expr.less a b) vars = some IrType.bool
infer_expr_type types (Expr.is_some inner) vars = some IrType.bool
infer_expr_type types (Expr.unwrap inner) vars = do
  t ← infer_expr_type types inner vars
  unwrap_option t
infer_expr_type types (Expr.get_field base name) vars = do
  bty ← infer_expr_type types base vars
  resolve_struct_field_type types bty name
infer_expr_type types (Expr.struct_update base updates) vars = infer_expr_type types base vars

unfoldable pub infer_ret_value_type : RetValue → Map String IrType → Option IrType
unfolding get
infer_ret_value_type (RetValue.var name) vars = get vars name
infer_ret_value_type (RetValue.uint64 n) vars = some IrType.uint64
infer_ret_value_type (RetValue.str s) vars = some IrType.string
infer_ret_value_type (RetValue.bool b) vars = some IrType.bool
infer_ret_value_type (RetValue.some inner) vars = do
  t ← infer_ret_value_type inner vars
  some (IrType.option t)
infer_ret_value_type RetValue.none vars = some (IrType.option IrType.void)

abbrev pub is_option : IrType → Bool
is_option (IrType.option inner) = true
is_option _ = false

abbrev same_as_inferred : IrType → Option IrType → Bool
same_as_inferred func_out none = true
same_as_inferred func_out (some it) = same_type func_out it

abbrev inferred_option : Option IrType → Bool
inferred_option none = false
inferred_option (some t) = is_option t

unfoldable pub return_type_compatible : IrType → RetValue → Option IrType → Bool
return_type_compatible func_out RetValue.none inferred =
    is_option func_out || same_as_inferred func_out inferred
return_type_compatible func_out (RetValue.some rv) inferred =
    (is_option func_out && inferred_option inferred) || same_as_inferred func_out inferred
return_type_compatible func_out (RetValue.var name) inferred = same_as_inferred func_out inferred
return_type_compatible func_out (RetValue.uint64 n) inferred = same_as_inferred func_out inferred
return_type_compatible func_out (RetValue.str s) inferred = same_as_inferred func_out inferred
return_type_compatible func_out (RetValue.bool b) inferred = same_as_inferred func_out inferred
