-- ===== src/Dsl/Collected.antt =====
-- dsl/src/ir.rs: what the small checks of `uses_correct_variables` establish where they have no message.
use maroon.Prelude.{
  String, List, [], ◌∷◌, ◌++◌, Bool, true, Option, none, some, ◌≡◌, refl, ap, ◌∙◌, arith, length,
}
use maroon.Prelude.Maps.{string_eq, get, contains_key, contains_key-get}
use maroon.Dsl.{StepId, LocalVarRef, IrType, InVar, Expr, Updates, nil, update, RetValue}
use maroon.Dsl.Infer.{infer_expr_type, same_type}
use maroon.Dsl.Checks.{
  Vars, check_defined, collect_vars_from_expr, collect_vars_from_updates,
  collect_vars_from_ret_value, collect_vars_from_args, expect_type, check_type,
}
use maroon.Dsl.Calls.{check_init_vars, check_args, check_bind_type, check_bind, check_binds}
use maroon.Dsl.Clean.{append-empty, unless-empty, same_type-eq}
use maroon.Dsl.Typing.{
  names_of_expr, names_of_updates, names_of_ret_value, AreInScope, Agrees, ArgsFit, VarsFit,
  BindFits,
}

AreInScope-append :
    (vars : Vars) (xs ys : List String)
    → AreInScope vars xs
    → AreInScope vars ys
    → AreInScope vars (xs ++ ys)
AreInScope-append vars [] ys p q = q
AreInScope-append vars (x ∷ xs) ys p q = (p.0, AreInScope-append vars xs ys p.1 q)

pub check_defined-empty :
    (vars : Vars) (id : StepId) (name : String)
    → check_defined vars id name ≡ []
    → contains_key vars name ≡ true
unfolding check_defined
check_defined-empty vars id name h = unless-empty (contains_key vars name) _ h

pub expect_type-empty :
    (id : StepId) (name : String) (t : IrType) (o : Option IrType)
    → expect_type id name t o ≡ []
    → Agrees o t
expect_type-empty id name t none h = tt
expect_type-empty id name t (some u) h = same_type-eq u t (unless-empty (same_type u t) _ h)

pub check_type-empty :
    (fits : IrType → Bool) (id : StepId) (name : String) (o : Option IrType)
    → check_type fits id name o ≡ []
    → (t : IrType) × (o ≡ some t) × (fits t ≡ true)
check_type-empty fits id name none h = cc
check_type-empty fits id name (some t) h = (t, refl, unless-empty (fits t) _ h)

-- A variable in scope whose type agrees has that type.
pub get-of-Agrees :
    (vars : Vars) (name : String) (t : IrType)
    → contains_key vars name ≡ true
    → Agrees (get vars name) t
    → get vars name ≡ some t
get-of-Agrees vars name t here agrees =
    let (u, at) = contains_key-get vars name here in
    let same : Agrees (some u) t = rw at at agrees in at ∙ ap some same

abbrev pub AgreesBind : Vars → IrType → Option LocalVarRef → Type 0
AgreesBind vars t none = Unit
AgreesBind vars t (some name) = Agrees (get vars name) t

pub bind-fits :
    (vars : Vars) (id : StepId) (out : IrType) (bind : Option LocalVarRef)
    → check_bind_type vars id out bind ≡ []
    → check_bind vars id bind ≡ []
    → BindFits vars out bind
bind-fits vars id out none h k = tt
bind-fits vars id out (some name) h k =
    get-of-Agrees vars name out (check_defined-empty vars id name k)
      (expect_type-empty id name out (get vars name) h)

mutual
  unfolding collect_vars_from_expr collect_vars_from_updates names_of_expr names_of_updates

  pub collect_vars_from_expr-empty :
      (e : Expr) (vars : Vars) (id : StepId)
      → collect_vars_from_expr e vars id ≡ []
      → AreInScope vars (names_of_expr e)
  collect_vars_from_expr-empty (Expr.var name) vars id h = (check_defined-empty vars id name h, tt)
  collect_vars_from_expr-empty (Expr.equal a b) vars id h =
      let (l, r) = append-empty (collect_vars_from_expr a vars id) h in
      AreInScope-append vars (names_of_expr a) (names_of_expr b)
        (collect_vars_from_expr-empty a vars id l) (collect_vars_from_expr-empty b vars id r)
  collect_vars_from_expr-empty (Expr.greater a b) vars id h =
      let (l, r) = append-empty (collect_vars_from_expr a vars id) h in
      AreInScope-append vars (names_of_expr a) (names_of_expr b)
        (collect_vars_from_expr-empty a vars id l) (collect_vars_from_expr-empty b vars id r)
  collect_vars_from_expr-empty (Expr.less a b) vars id h =
      let (l, r) = append-empty (collect_vars_from_expr a vars id) h in
      AreInScope-append vars (names_of_expr a) (names_of_expr b)
        (collect_vars_from_expr-empty a vars id l) (collect_vars_from_expr-empty b vars id r)
  collect_vars_from_expr-empty (Expr.is_some inner) vars id h =
      collect_vars_from_expr-empty inner vars id h
  collect_vars_from_expr-empty (Expr.unwrap inner) vars id h =
      collect_vars_from_expr-empty inner vars id h
  collect_vars_from_expr-empty (Expr.get_field base name) vars id h =
      collect_vars_from_expr-empty base vars id h
  collect_vars_from_expr-empty (Expr.struct_update base updates) vars id h =
      let (l, r) = append-empty (collect_vars_from_expr base vars id) h in
      AreInScope-append vars (names_of_expr base) (names_of_updates updates)
        (collect_vars_from_expr-empty base vars id l)
        (collect_vars_from_updates-empty updates vars id r)
  collect_vars_from_expr-empty (Expr.uint64 n) vars id h = tt
  collect_vars_from_expr-empty (Expr.str s) vars id h = tt
  collect_vars_from_expr-empty (Expr.bool b) vars id h = tt

  pub collect_vars_from_updates-empty :
      (us : Updates) (vars : Vars) (id : StepId)
      → collect_vars_from_updates us vars id ≡ []
      → AreInScope vars (names_of_updates us)
  collect_vars_from_updates-empty nil vars id h = tt
  collect_vars_from_updates-empty (update name e us) vars id h =
      let (l, r) = append-empty (collect_vars_from_expr e vars id) h in
      AreInScope-append vars (names_of_expr e) (names_of_updates us)
        (collect_vars_from_expr-empty e vars id l) (collect_vars_from_updates-empty us vars id r)

pub collect_vars_from_ret_value-empty :
    (v : RetValue) (vars : Vars) (id : StepId)
    → collect_vars_from_ret_value v vars id ≡ []
    → AreInScope vars (names_of_ret_value v)
unfolding collect_vars_from_ret_value names_of_ret_value
collect_vars_from_ret_value-empty (RetValue.var name) vars id h =
    (check_defined-empty vars id name h, tt)
collect_vars_from_ret_value-empty (RetValue.some inner) vars id h =
    collect_vars_from_ret_value-empty inner vars id h
collect_vars_from_ret_value-empty (RetValue.uint64 n) vars id h = tt
collect_vars_from_ret_value-empty (RetValue.str s) vars id h = tt
collect_vars_from_ret_value-empty (RetValue.bool b) vars id h = tt
collect_vars_from_ret_value-empty RetValue.none vars id h = tt

pub check_args-ArgsFit :
    (types : List IrType) (vars : Vars) (id : StepId) (args : List Expr) (params : List InVar)
    → length params ≡ length args
    → collect_vars_from_args args vars id ≡ []
    → check_args types vars id args params ≡ []
    → ArgsFit types vars args params
unfolding collect_vars_from_args check_args
check_args-ArgsFit types vars id [] [] n h k = tt
check_args-ArgsFit types vars id [] (p ∷ ps) n h k = ground arith
check_args-ArgsFit types vars id (e ∷ es) [] n h k = ground arith
check_args-ArgsFit types vars id (e ∷ es) ((name, t) ∷ ps) n h k =
    let (here, later) = append-empty (collect_vars_from_expr e vars id) h in
    let (fits, fit) = append-empty (expect_type id name t (infer_expr_type types e vars)) k in
    (
      collect_vars_from_expr-empty e vars id here,
      expect_type-empty id name t (infer_expr_type types e vars) fits,
      check_args-ArgsFit types vars id es ps (omega (arith, n)) later fit,
    )

pub check_init_vars-VarsFit :
    (vars : Vars) (id : StepId) (vs : List LocalVarRef) (params : List InVar)
    → length vs ≡ length params
    → check_init_vars vars id vs params ≡ []
    → VarsFit vars vs params
unfolding check_init_vars
check_init_vars-VarsFit vars id [] [] n h = tt
check_init_vars-VarsFit vars id [] (p ∷ ps) n h = ground arith
check_init_vars-VarsFit vars id (v ∷ vs) [] n h = ground arith
check_init_vars-VarsFit vars id (v ∷ vs) ((name, t) ∷ ps) n h =
    let (here, rest) = append-empty (check_defined vars id v) h in
    let (fits, later) = append-empty (expect_type id v t (get vars v)) rest in
    (
      get-of-Agrees vars v t (check_defined-empty vars id v here)
          (expect_type-empty id v t (get vars v) fits),
      check_init_vars-VarsFit vars id vs ps (omega (arith, n)) later,
    )

pub check_binds-AreInScope :
    (vars : Vars) (id : StepId) (bs : List LocalVarRef)
    → check_binds vars id bs ≡ []
    → AreInScope vars bs
unfolding check_binds
check_binds-AreInScope vars id [] h = tt
check_binds-AreInScope vars id (b ∷ bs) h =
    let (here, later) = append-empty (check_defined vars id b) h in
    (check_defined-empty vars id b here, check_binds-AreInScope vars id bs later)
