-- ===== src/Codegen/Exprs.antt =====
-- dsl/src/codegen.rs: the text of expressions and returned values, and the variables they read. A
-- `BTreeSet` of strings is a list in their order, without repetitions.
use Prim.Native.Char.{code}
use Prim.Native.String.{compare}
use Prim.Native.Nat.{Ordering}
use maroon.Prelude.{
  String, List, [], ◌∷◌, Bool, true, false, ◌==◌, Option, none, some, if◌then◌else◌,
}
use maroon.Prelude.Decimal.{to_string}
use maroon.Prelude.Maps.{string_eq, get, contains_key}
use maroon.Dsl.{IrType, InVar, Expr, Updates, nil, update, RetValue, Func, Ir}
use maroon.Dsl.Calls.{func_of}
use maroon.Codegen.Names.{format, camel_ident}

abbrev pub add_at : Ordering → String → String → List String → List String → List String
add_at Ordering.lt s t ts added = s ∷ t ∷ ts
add_at Ordering.eq s t ts added = t ∷ ts
add_at Ordering.gt s t ts added = t ∷ added

-- `BTreeSet::insert`
unfoldable pub add : String → List String → List String
add s [] = s ∷ []
add s (t ∷ ts) = add_at (compare s t) s t ts (add s ts)

unfoldable pub add_all : List String → List String → List String
unfolding add
add_all [] acc = acc
add_all (s ∷ ss) acc = add_all ss (add s acc)

unfoldable mutual
  unfolding add

  pub collect_vars_from_expr : Expr → List String → List String
  collect_vars_from_expr (Expr.uint64 n) acc = acc
  collect_vars_from_expr (Expr.str s) acc = acc
  collect_vars_from_expr (Expr.bool b) acc = acc
  collect_vars_from_expr (Expr.var name) acc = add name acc
  collect_vars_from_expr (Expr.equal a b) acc =
      collect_vars_from_expr b (collect_vars_from_expr a acc)
  collect_vars_from_expr (Expr.greater a b) acc =
      collect_vars_from_expr b (collect_vars_from_expr a acc)
  collect_vars_from_expr (Expr.less a b) acc =
      collect_vars_from_expr b (collect_vars_from_expr a acc)
  collect_vars_from_expr (Expr.is_some e) acc = collect_vars_from_expr e acc
  collect_vars_from_expr (Expr.unwrap e) acc = collect_vars_from_expr e acc
  collect_vars_from_expr (Expr.get_field e name) acc = collect_vars_from_expr e acc
  collect_vars_from_expr (Expr.struct_update base updates) acc =
      collect_vars_from_updates updates (collect_vars_from_expr base acc)

  pub collect_vars_from_updates : Updates → List String → List String
  collect_vars_from_updates nil acc = acc
  collect_vars_from_updates (update name e updates) acc =
      collect_vars_from_updates updates (collect_vars_from_expr e acc)

unfoldable pub collect_vars_from_args : List Expr → List String → List String
unfolding collect_vars_from_expr
collect_vars_from_args [] acc = acc
collect_vars_from_args (e ∷ es) acc = collect_vars_from_args es (collect_vars_from_expr e acc)

unfoldable pub collect_vars_from_retvalue : RetValue → List String → List String
unfolding add
collect_vars_from_retvalue (RetValue.var name) acc = add name acc
collect_vars_from_retvalue (RetValue.uint64 n) acc = acc
collect_vars_from_retvalue (RetValue.str s) acc = acc
collect_vars_from_retvalue (RetValue.bool b) acc = acc
collect_vars_from_retvalue (RetValue.some inner) acc = collect_vars_from_retvalue inner acc
collect_vars_from_retvalue RetValue.none acc = acc

abbrev or_get : Option IrType → List InVar → String → Option IrType
unfolding get
or_get (some t) vars name = some t
or_get none vars name = get vars name

unfoldable pub var_type_of : Func → String → Option IrType
unfolding get
var_type_of func name = or_get (get func.in_vars name) func.locals name

unfoldable pub var_is_param : Func → String → Bool
unfolding contains_key
var_is_param func name = contains_key func.in_vars name

unfoldable pub find_func : Ir → String → String → Option Func
unfolding get
find_func ir fiber func = func_of (get ir.fibers fiber) func

-- `replace('"', "\\\"")`
unfoldable pub escape_quotes : String → String
escape_quotes String.[] = String.[]
escape_quotes (String.◌∷◌ c s) =
    let rest = escape_quotes s in
    if code c == b'"' then format ("\\\"" ∷ rest ∷ []) else String.◌∷◌ c rest

abbrev bool_code : Bool → String
bool_code true = "true"
bool_code false = "false"

unfoldable mutual
  unfolding camel_ident escape_quotes

  pub render_expr_code : Expr → String
  render_expr_code (Expr.uint64 x) = format (to_string x ∷ "u64" ∷ [])
  render_expr_code (Expr.var name) = camel_ident name
  render_expr_code (Expr.str s) = format ("\"" ∷ escape_quotes s ∷ "\".to_string()" ∷ [])
  render_expr_code (Expr.bool b) = bool_code b
  render_expr_code (Expr.equal a b) = format (render_expr_code a ∷ " == " ∷ render_expr_code b ∷ [])
  render_expr_code (Expr.greater a b) =
      format (render_expr_code a ∷ " > " ∷ render_expr_code b ∷ [])
  render_expr_code (Expr.less a b) = format (render_expr_code a ∷ " < " ∷ render_expr_code b ∷ [])
  render_expr_code (Expr.is_some e) = format ("(" ∷ render_expr_code e ∷ ").is_some()" ∷ [])
  render_expr_code (Expr.unwrap e) = format ("(" ∷ render_expr_code e ∷ ").unwrap()" ∷ [])
  render_expr_code (Expr.get_field e name) =
      format ("(" ∷ render_expr_code e ∷ ")." ∷ camel_ident name ∷ [])
  render_expr_code (Expr.struct_update base updates) = format (
      "{ let mut tmp = ("
      ∷ render_expr_code base
      ∷ ").clone(); "
      ∷ render_updates updates
      ∷ "tmp }"
      ∷ [])

  pub render_updates : Updates → String
  render_updates nil = ""
  render_updates (update name e updates) = format (
      "tmp." ∷ camel_ident name ∷ " = (" ∷ render_expr_code e ∷ "); " ∷ render_updates updates ∷ [])

abbrev inner_type : IrType → IrType
inner_type (IrType.option inner) = inner
inner_type t = t

unfoldable pub render_ret_value : RetValue → IrType → String
unfolding camel_ident escape_quotes
render_ret_value (RetValue.uint64 x) expected = format (to_string x ∷ "u64" ∷ [])
render_ret_value (RetValue.str s) expected = format ("\"" ∷ escape_quotes s ∷ "\".to_string()" ∷ [])
render_ret_value (RetValue.bool b) expected = bool_code b
render_ret_value (RetValue.var name) expected = camel_ident name
render_ret_value (RetValue.some inner) expected =
    format ("Some(" ∷ render_ret_value inner (inner_type expected) ∷ ")" ∷ [])
render_ret_value RetValue.none expected = "None"
