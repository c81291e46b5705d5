-- ===== src/Codegen/Total.antt =====
-- dsl/src/codegen.rs, with dsl/src/ir.rs: the generator does not panic on a step that the check has no
-- message on.
use maroon.Prelude.{
  String, List, [], ◌∷◌, Bool, true, false, ◌||◌, some, expect, Returns, Returns-bind,
  expect-Returns, ◌≡◌, refl, arith, All, Bool-cases, Option-cases, inl, inr, if◌then◌else◌, map,
}
use maroon.Prelude.Maps.{
  string_eq, get, insert, contains_key, contains_key-insert, contains_key-get, contains_key-of-get,
}
use maroon.Dsl.{LocalVarRef, FiberType, IrType, InVar, SetPrimitive, Step, Func, IrFiber, Ir}
use maroon.Dsl.Checks.{Vars}
use maroon.Dsl.Valid.{insert_vars, or_insert_vars, vars_of}
use maroon.Dsl.Typing.{AreInScope, IsTyped, IsTypedSet}
use maroon.Codegen.Exprs.{var_type_of}
use maroon.Codegen.Emit.{step_code, set_code, set_codes, bind_slots}

contains_key-insert_vars :
    (vars : Vars) (vs : List InVar) (name : String)
    → contains_key (insert_vars vars vs) name ≡ (contains_key vs name || contains_key vars name)
unfolding insert_vars contains_key
contains_key-insert_vars vars [] name = refl
contains_key-insert_vars vars ((n, ty) ∷ vs) name =
    ground (
      arith,
      contains_key-insert_vars (insert vars n ty) vs name,
      contains_key-insert vars n name ty,
    )

contains_key-or_insert_vars :
    (vars : Vars) (vs : List InVar) (name : String)
    → contains_key vs name ≡ false
    → contains_key (or_insert_vars vars vs) name ≡ contains_key vars name
unfolding or_insert_vars contains_key
contains_key-or_insert_vars vars [] name h = refl
contains_key-or_insert_vars vars ((n, ty) ∷ vs) name h = ground (
  arith,
  contains_key-or_insert_vars (if contains_key vars n then vars else insert vars n ty) vs name
      (ground arith),
  contains_key-insert vars n name ty,
)

-- A name that is in scope, and no variable that the fiber starts with, is a parameter or a local.
var_type_of-scope :
    (fiber : IrFiber) (func : Func) (name : String)
    → contains_key (vars_of fiber func) name ≡ true
    → contains_key fiber.init_vars name ≡ false
    → (ty : IrType) × (var_type_of func name ≡ some ty)
unfolding vars_of var_type_of contains_key
var_type_of-scope fiber func name here own =
    let scope =
      contains_key-or_insert_vars (insert_vars (insert_vars [] func.in_vars) func.locals)
        fiber.init_vars name own in
    let locals = contains_key-insert_vars (insert_vars [] func.in_vars) func.locals name in
    let params = contains_key-insert_vars [] func.in_vars name in
    elim (Option-cases (get func.in_vars name)) [
      | inr (t, at) ↦ (t, ground arith)
      | inl missing ↦ elim (Bool-cases (contains_key func.locals name)) [
        | inl local ↦ let (t, at) = contains_key-get func.locals name local in (t, ground arith)
        | inr no_local ↦
            let (t, at) = contains_key-get func.in_vars name (ground arith) in absurd (ground arith)
      ]
    ]

typed-Returns :
    (fiber : IrFiber) (func : Func) (name : String)
    → contains_key (vars_of fiber func) name ≡ true
    → contains_key fiber.init_vars name ≡ false
    → Returns (expect (var_type_of func name))
typed-Returns fiber func name scope own =
    let (ty, at) = var_type_of-scope fiber func name scope own in
    expect-Returns (var_type_of func name) at

abbrev pub set_var : SetPrimitive → String
set_var (SetPrimitive.queue_message f_var_queue_name var_name) = var_name
set_var (SetPrimitive.future f_var_name var_name) = var_name

-- The variables of a step whose types the generator expects to find in the function.
abbrev pub own_vars : Step → List String
own_vars (Step.assign local e next) = local ∷ []
own_vars (Step.rust_block binds code next) = binds
own_vars (Step.set_values values next) = map set_var values
own_vars _ = []

-- None of them is a variable that the fiber starts with.
abbrev pub AreOwn : IrFiber → List String → Type 0
AreOwn fiber = All (λ name. contains_key fiber.init_vars name ≡ false)

bind_slots-Returns :
    (fiber : IrFiber) (func : Func) (bs : List LocalVarRef)
    → AreInScope (vars_of fiber func) bs
    → AreOwn fiber bs
    → Returns (bind_slots func bs)
unfolding bind_slots
bind_slots-Returns fiber func [] scope own = ([], refl)
bind_slots-Returns fiber func (b ∷ bs) scope own =
    Returns-bind (expect (var_type_of func b)) _ (typed-Returns fiber func b scope.0 own.0) (λ ty.
      Returns-bind (bind_slots func bs) _ (bind_slots-Returns fiber func bs scope.1 own.1)
        (λ slots. (_, refl)))

set_var-scope :
    (vars : Vars) (v : SetPrimitive) → IsTypedSet vars v → contains_key vars (set_var v) ≡ true
set_var-scope vars (SetPrimitive.queue_message f_var_queue_name var_name) h = h.1
set_var-scope vars (SetPrimitive.future f_var_name var_name) h =
    contains_key-of-get vars var_name h.0 h.2

set_code-Returns :
    (is_entry : Bool) (func : Func) (v : SetPrimitive)
    → Returns (expect (var_type_of func (set_var v)))
    → Returns (set_code is_entry func v)
unfolding set_code
set_code-Returns is_entry func (SetPrimitive.queue_message f_var_queue_name var_name) typed =
    Returns-bind (expect (var_type_of func var_name)) _ typed (λ ty. (_, refl))
set_code-Returns is_entry func (SetPrimitive.future f_var_name var_name) typed =
    Returns-bind (expect (var_type_of func var_name)) _ typed (λ ty. (_, refl))

set_codes-Returns :
    (is_entry : Bool) (fiber : IrFiber) (func : Func) (vs : List SetPrimitive)
    → All (IsTypedSet (vars_of fiber func)) vs
    → AreOwn fiber (map set_var vs)
    → Returns (set_codes is_entry func vs)
unfolding set_codes
set_codes-Returns is_entry fiber func [] typed own = ([], refl)
set_codes-Returns is_entry fiber func (v ∷ vs) typed own =
    let scope = set_var-scope (vars_of fiber func) v typed.0 in
    Returns-bind (set_code is_entry func v) _
      (set_code-Returns is_entry func v (typed-Returns fiber func (set_var v) scope own.0))
      (λ code.
        Returns-bind (set_codes is_entry func vs) _
          (set_codes-Returns is_entry fiber func vs typed.1 own.1) (λ codes. (_, refl)))

-- A step that obeys its typing rule, as every step of a valid program does, and that writes or sends no
-- variable that the fiber starts with: the generator makes code of it, and does not panic.
pub step_code-Returns :
    (ir : Ir) (fiber_name : FiberType) (fiber : IrFiber) (name : String) (func : Func)
    (is_entry : Bool) (step : Step)
    → IsTyped ir func (vars_of fiber func) step
    → AreOwn fiber (own_vars step)
    → Returns (step_code ir fiber_name name func is_entry step)
unfolding step_code
step_code-Returns ir fiber_name fiber name func is_entry (Step.assign local e next) typed own =
    let (t, at, agrees) = typed.1 in
    let scope = contains_key-of-get (vars_of fiber func) local t at in
    Returns-bind (expect (var_type_of func local)) _ (typed-Returns fiber func local scope own.0)
      (λ ty. (_, refl))
step_code-Returns ir fiber_name fiber name func is_entry (Step.rust_block binds code next) typed
      own =
    Returns-bind (bind_slots func binds) _ (bind_slots-Returns fiber func binds typed own)
      (λ slots. (_, refl))
step_code-Returns ir fiber_name fiber name func is_entry (Step.set_values values next) typed own =
    Returns-bind (set_codes is_entry func values) _
      (set_codes-Returns is_entry fiber func values typed own) (λ codes. (_, refl))
step_code-Returns ir fiber_name fiber name func is_entry (Step.call target args bind ret_to) typed
      own =
    (_, refl)
step_code-Returns ir fiber_name fiber name func is_entry (Step.return v) typed own = (_, refl)
step_code-Returns ir fiber_name fiber name func is_entry Step.return_void typed own = (_, refl)
step_code-Returns ir fiber_name fiber name func is_entry (Step.branch cond then_ else_) typed own =
    (_, refl)
step_code-Returns ir fiber_name fiber name func is_entry (Step.select arms) typed own = (_, refl)
step_code-Returns ir fiber_name fiber name func is_entry (Step.create primitives success fail) typed
      own =
    (_, refl)
step_code-Returns ir fiber_name fiber name func is_entry (Step.create_fibers details next) typed
      own =
    (_, refl)
step_code-Returns ir fiber_name fiber name func is_entry (Step.debug text next) typed own =
    (_, refl)
step_code-Returns ir fiber_name fiber name func is_entry (Step.debug_print_vars next) typed own =
    (_, refl)
