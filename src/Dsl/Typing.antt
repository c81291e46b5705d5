-- ===== src/Dsl/Typing.antt =====
-- dsl/src/ir.rs: typing rules for the steps of a function, apart from the code that checks them. A type
-- that the code cannot infer is taken to fit.
use maroon.Prelude.{String, List, [], ◌∷◌, ◌++◌, true, Option, none, some, ◌≡◌, All}
use maroon.Prelude.Maps.{string_eq, get, contains_key}
use maroon.Dsl.{
  LocalVarRef, IrType, InVar, Expr, Updates, nil, update, RetValue, AwaitSpec, SetPrimitive,
  RuntimePrimitive, CreateFiberDetail, Step, Func, IrFiber, Ir,
}
use maroon.Dsl.Infer.{infer_expr_type, infer_ret_value_type, return_type_compatible}
use maroon.Dsl.Checks.{Vars}
use maroon.Dsl.Calls.{func_of, discriminant}

unfoldable mutual
  pub names_of_expr : Expr → List String
  names_of_expr (Expr.var name) = name ∷ []
  names_of_expr (Expr.equal a b) = names_of_expr a ++ names_of_expr b
  names_of_expr (Expr.greater a b) = names_of_expr a ++ names_of_expr b
  names_of_expr (Expr.less a b) = names_of_expr a ++ names_of_expr b
  names_of_expr (Expr.is_some inner) = names_of_expr inner
  names_of_expr (Expr.unwrap inner) = names_of_expr inner
  names_of_expr (Expr.get_field base name) = names_of_expr base
  names_of_expr (Expr.struct_update base updates) = names_of_expr base ++ names_of_updates updates
  names_of_expr (Expr.uint64 n) = []
  names_of_expr (Expr.str s) = []
  names_of_expr (Expr.bool b) = []

  pub names_of_updates : Updates → List String
  names_of_updates nil = []
  names_of_updates (update name e updates) = names_of_expr e ++ names_of_updates updates

unfoldable pub names_of_ret_value : RetValue → List String
names_of_ret_value (RetValue.var name) = name ∷ []
names_of_ret_value (RetValue.some inner) = names_of_ret_value inner
names_of_ret_value (RetValue.uint64 n) = []
names_of_ret_value (RetValue.str s) = []
names_of_ret_value (RetValue.bool b) = []
names_of_ret_value RetValue.none = []

abbrev pub AreInScope : Vars → List String → Type 0
AreInScope vars = All (λ name. contains_key vars name ≡ true)

abbrev pub Agrees : Option IrType → IrType → Type 0
Agrees none t = Unit
Agrees (some u) t = u ≡ t

-- Each argument fits the parameter at its position, and there are as many.
abbrev pub ArgsFit : List IrType → Vars → List Expr → List InVar → Type 0
ArgsFit types vars [] [] = Unit
ArgsFit types vars [] (p ∷ ps) = ⊥
ArgsFit types vars (e ∷ es) [] = ⊥
ArgsFit types vars (e ∷ es) ((name, t) ∷ ps) =
    AreInScope vars (names_of_expr e)
    × Agrees (infer_expr_type types e vars) t
    × ArgsFit types vars es ps

abbrev pub VarsFit : Vars → List LocalVarRef → List InVar → Type 0
VarsFit vars [] [] = Unit
VarsFit vars [] (p ∷ ps) = ⊥
VarsFit vars (v ∷ vs) [] = ⊥
VarsFit vars (v ∷ vs) ((name, t) ∷ ps) = (get vars v ≡ some t) × VarsFit vars vs ps

-- Both operands of an equality have types of one kind, and those of an order are numbers.
abbrev pub AreAlike : (left right : Option IrType) → Type 0
AreAlike (some lt) (some rt) = discriminant lt ≡ discriminant rt
AreAlike _ _ = Unit

abbrev pub AreNumbers : (left right : Option IrType) → Type 0
AreNumbers (some lt) (some rt) = (lt ≡ IrType.uint64) × (rt ≡ IrType.uint64)
AreNumbers _ _ = Unit

abbrev pub OperandsFit : List IrType → Vars → Expr → Type 0
OperandsFit types vars (Expr.equal l r) =
    AreAlike (infer_expr_type types l vars) (infer_expr_type types r vars)
OperandsFit types vars (Expr.greater l r) =
    AreNumbers (infer_expr_type types l vars) (infer_expr_type types r vars)
OperandsFit types vars (Expr.less l r) =
    AreNumbers (infer_expr_type types l vars) (infer_expr_type types r vars)
OperandsFit types vars _ = Unit

abbrev pub BindFits : Vars → IrType → Option LocalVarRef → Type 0
BindFits vars t none = Unit
BindFits vars t (some name) = get vars name ≡ some t

abbrev pub IsTypedDetail : Ir → Vars → CreateFiberDetail → Type 0
IsTypedDetail ir vars d =
    (target : IrFiber) × (get ir.fibers d.f_name ≡ some target)
    × VarsFit vars d.init_vars target.init_vars

abbrev pub IsTypedSet : Vars → SetPrimitive → Type 0
IsTypedSet vars (SetPrimitive.queue_message queue_name var_name) =
    (get vars queue_name ≡ some IrType.string) × (contains_key vars var_name ≡ true)
IsTypedSet vars (SetPrimitive.future f_var_name var_name) =
    (t : IrType) × (get vars f_var_name ≡ some (IrType.future t)) × (get vars var_name ≡ some t)

abbrev pub IsTypedArm : Vars → AwaitSpec → Type 0
IsTypedArm vars (AwaitSpec.future none ret_to future_id) = Unit
IsTypedArm vars (AwaitSpec.future (some name) ret_to future_id) = contains_key vars name ≡ true
IsTypedArm vars (AwaitSpec.queue queue_name message_var next) =
    Agrees (get vars queue_name) IrType.string × (contains_key vars message_var ≡ true)

-- What a primitive takes, and the type of the variable that gets its id.
abbrev pub IsTypedPrimitive : Vars → RuntimePrimitive → IrType → Type 0
IsTypedPrimitive vars RuntimePrimitive.future t = (inner : IrType) × (t ≡ IrType.future inner)
IsTypedPrimitive vars (RuntimePrimitive.queue name public) t =
    (t ≡ IrType.string) × (get vars name ≡ some IrType.string)
IsTypedPrimitive vars (RuntimePrimitive.schedule ms_var) t =
    (t ≡ IrType.future IrType.void) × (get vars ms_var ≡ some IrType.uint64)

abbrev pub IsTypedBinding : Vars → RuntimePrimitive → (id_bind error_bind : LocalVarRef) → Type 0
IsTypedBinding vars p b err =
    (t : IrType) × (get vars b ≡ some t)
    × IsTypedPrimitive vars p t
    × (get vars err ≡ some (IrType.option IrType.string))

-- Each primitive has a variable for its id and one for its error.
abbrev pub CreateFits : Vars → List RuntimePrimitive → (ids errs : List LocalVarRef) → Type 0
CreateFits vars [] [] [] = Unit
CreateFits vars (p ∷ ps) (b ∷ bs) (err ∷ errs) =
    IsTypedBinding vars p b err × CreateFits vars ps bs errs
CreateFits vars _ _ _ = ⊥

abbrev pub IsTyped : Ir → Func → Vars → Step → Type 0
IsTyped ir f vars (Step.call target args bind ret_to) =
    (callee : Func)
    → func_of (get ir.fibers target.fiber) target.func ≡ some callee
    → ArgsFit ir.types vars args callee.in_vars × BindFits vars callee.out bind
IsTyped ir f vars (Step.return value) =
    AreInScope vars (names_of_ret_value value)
    × (return_type_compatible f.out value (infer_ret_value_type value vars) ≡ true)
IsTyped ir f vars (Step.branch cond then_ else_) =
    AreInScope vars (names_of_expr cond)
    × Agrees (infer_expr_type ir.types cond vars) IrType.bool
    × OperandsFit ir.types vars cond
IsTyped ir f vars (Step.assign local e next) =
    AreInScope vars (names_of_expr e)
    × ((t : IrType) × (get vars local ≡ some t) × Agrees (infer_expr_type ir.types e vars) t)
IsTyped ir f vars (Step.rust_block binds code next) = AreInScope vars binds
IsTyped ir f vars (Step.select arms) = All (IsTypedArm vars) arms
IsTyped ir f vars (Step.set_values values next) = All (IsTypedSet vars) values
IsTyped ir f vars (Step.create primitives success fail) =
    CreateFits vars primitives success.id_binds fail.error_binds
IsTyped ir f vars (Step.create_fibers details next) = All (IsTypedDetail ir vars) details
IsTyped ir f vars _ = Unit
