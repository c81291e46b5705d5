-- ===== src/Codegen/Emit.antt =====
-- dsl/src/codegen.rs, `generate_global_step` and `render_call_step`: what the steps of a function become.
use maroon.Prelude.{
  ℕ, ◌+◌, String, List, [], ◌∷◌, ◌++◌, map, Bool, false, Option, none, some, Outcome, ok, ◌>>=◌,
  expect, if◌then◌else◌, get_elem?,
}
use maroon.Prelude.Maps.{string_eq, get}
use maroon.Dsl.{
  StepId, LocalVarRef, FiberType, IrType, InVar, Expr, AwaitSpec, SetPrimitive, RuntimePrimitive,
  CreateFiberDetail, Step, Func, Ir,
}
use maroon.Codegen.Names.{format, camel_ident}
use maroon.Codegen.Types.{is_copy_type, type_variant_name, default_value_expr}
use maroon.Codegen.Exprs.{var_type_of, find_func, render_expr_code, render_ret_value}
use maroon.Codegen.States.{Steps, state_of, returns_var}
use maroon.Codegen.Slots.{frame_index, let_index, bind_offset}
use maroon.Codegen.Code.{PrimitiveCode, KindCode, SetCode, ArmCode, EntryCode, StepCode}

abbrev variant_or_string : Option IrType → String
unfolding type_variant_name
variant_or_string none = "String"
variant_or_string (some ty) = type_variant_name ty

unfoldable pub spawn_args : Func → List LocalVarRef → List (String × ℕ)
unfolding var_type_of variant_or_string frame_index
spawn_args func [] = []
spawn_args func (v ∷ vs) =
    (variant_or_string (var_type_of func v), frame_index func v) ∷ spawn_args func vs

unfoldable pub spawn_details : Func → List CreateFiberDetail → List (String × List (String × ℕ))
unfolding spawn_args
spawn_details func [] = []
spawn_details func (d ∷ ds) = (d.f_name, spawn_args func d.init_vars) ∷ spawn_details func ds

unfoldable pub primitive_codes : Func → List RuntimePrimitive → List PrimitiveCode
unfolding frame_index
primitive_codes func [] = []
primitive_codes func (RuntimePrimitive.future ∷ ps) = PrimitiveCode.future ∷ primitive_codes func ps
primitive_codes func (RuntimePrimitive.queue name public ∷ ps) =
    PrimitiveCode.queue (frame_index func name) public ∷ primitive_codes func ps
primitive_codes func (RuntimePrimitive.schedule ms_var ∷ ps) =
    PrimitiveCode.schedule (frame_index func ms_var) ∷ primitive_codes func ps

abbrev future_kind : Option IrType → KindCode
unfolding type_variant_name
future_kind (some (IrType.future inner)) =
    KindCode.future (format ("Future" ∷ type_variant_name inner ∷ []))
future_kind _ = KindCode.string

abbrev bind_kind : Func → LocalVarRef → Option RuntimePrimitive → KindCode
unfolding future_kind var_type_of
bind_kind func b none = KindCode.string
bind_kind func b (some (RuntimePrimitive.queue name public)) = KindCode.string
bind_kind func b (some RuntimePrimitive.future) = future_kind (var_type_of func b)
bind_kind func b (some (RuntimePrimitive.schedule ms_var)) = future_kind (var_type_of func b)

-- The kind of the `i`-th and of the later binds, by the primitives at their indices.
unfoldable pub success_kinds : Func → List RuntimePrimitive → ℕ → List LocalVarRef → List KindCode
unfolding bind_kind
success_kinds func primitives i [] = []
success_kinds func primitives i (b ∷ bs) =
    bind_kind func b (get_elem? primitives i) ∷ success_kinds func primitives (i + 1) bs

-- The value that is set: in the entry's arm a value that is copied is not cloned.
abbrev set_ident : Bool → IrType → String → String
unfolding is_copy_type camel_ident
set_ident is_entry ty name =
    if (if is_entry then is_copy_type ty else false)
    then camel_ident name
    else format (camel_ident name ∷ ".clone()" ∷ [])

-- The id of a future: out of its wrapper, or the text itself.
abbrev id_expr : Option IrType → String → String
unfolding camel_ident
id_expr (some (IrType.future inner)) name = format (camel_ident name ∷ ".0.clone()" ∷ [])
id_expr _ name = format (camel_ident name ∷ ".clone()" ∷ [])

unfoldable pub set_code : Bool → Func → SetPrimitive → Outcome SetCode
unfolding var_type_of type_variant_name camel_ident set_ident id_expr
set_code is_entry func (SetPrimitive.queue_message queue_name var_name) = do
  ty ← expect (var_type_of func var_name)
  ok (
      SetCode.queue_message (camel_ident queue_name) (type_variant_name ty)
        (set_ident is_entry ty var_name))
set_code is_entry func (SetPrimitive.future f_var_name var_name) = do
  ty ← expect (var_type_of func var_name)
  ok (
      SetCode.future (id_expr (var_type_of func f_var_name) f_var_name) (type_variant_name ty)
        (set_ident is_entry ty var_name))

unfoldable pub set_codes : Bool → Func → List SetPrimitive → Outcome (List SetCode)
unfolding set_code
set_codes is_entry func [] = ok []
set_codes is_entry func (v ∷ vs) = do
  code ← set_code is_entry func v
  codes ← set_codes is_entry func vs
  ok (code ∷ codes)

unfoldable pub select_arm : FiberType → String → Func → AwaitSpec → ArmCode
unfolding state_of camel_ident var_type_of id_expr
select_arm fiber name func (AwaitSpec.queue queue_name message_var next) =
    ArmCode.queue (camel_ident queue_name) message_var (state_of fiber name next)
select_arm fiber name func (AwaitSpec.future bind ret_to future_id) =
    ArmCode.future_var (id_expr (var_type_of func future_id) future_id) bind
      (state_of fiber name ret_to)

-- The values of the callee's parameters, as far as there are arguments.
unfoldable pub call_args : List InVar → List Expr → List EntryCode
unfolding type_variant_name render_expr_code
call_args [] args = []
call_args (p ∷ params) [] = []
call_args ((pname, pty) ∷ params) (e ∷ es) =
    EntryCode.value pname (type_variant_name pty) (render_expr_code e) ∷ call_args params es

unfoldable pub default_locals : List InVar → List EntryCode
unfolding type_variant_name default_value_expr
default_locals [] = []
default_locals ((lname, lty) ∷ locals) =
    EntryCode.value lname (type_variant_name lty) (default_value_expr lty) ∷ default_locals locals

unfoldable pub call_code :
    Func
    → (ret_state entry_state : String) → Option LocalVarRef
    → List Expr
    → Option Func
    → StepCode
unfolding bind_offset call_args default_locals
call_code func ret_state entry_state bind args none = StepCode.go_to ret_state
call_code func ret_state entry_state bind args (some callee) = StepCode.next (
    EntryCode.state ret_state
    ∷ EntryCode.retrn (bind_offset func bind)
    ∷ (call_args callee.in_vars args
        ++ (default_locals callee.locals ++ EntryCode.state entry_state ∷ [])))

unfoldable pub bind_slots : Func → List LocalVarRef → Outcome (List (ℕ × String))
unfolding var_type_of type_variant_name frame_index
bind_slots func [] = ok []
bind_slots func (b ∷ bs) = do
  ty ← expect (var_type_of func b)
  slots ← bind_slots func bs
  ok ((frame_index func b, type_variant_name ty) ∷ slots)

abbrev pub block_code : Bool → String → String → List (ℕ × String) → StepCode
block_code direct code next ((index, variant) ∷ []) =
    if direct
    then StepCode.block_return code variant
    else StepCode.block_assign code index variant next
block_code direct code next slots = StepCode.block_assigns code slots next

-- The optimization: the next step returns what the block binds.
unfoldable pub returns_directly : Steps → List LocalVarRef → StepId → Bool
unfolding get
returns_directly steps (b ∷ []) next = returns_var b (get steps next)
returns_directly steps _ next = false

module _ (ir : Ir) (fiber : FiberType) (name : String) (func : Func) where
  -- The expression for a step; `is_entry` tells the entry's arm from the others.
  unfoldable pub step_code : Bool → Step → Outcome StepCode
  unfolding spawn_details primitive_codes success_kinds set_codes select_arm call_code find_func
      state_of type_variant_name render_ret_value render_expr_code var_type_of let_index bind_slots
      returns_directly
  step_code is_entry (Step.debug msg next) = ok (StepCode.debug msg (state_of fiber name next))
  step_code is_entry (Step.create_fibers details next) =
      ok (StepCode.create_fibers (spawn_details func details) (state_of fiber name next))
  step_code is_entry (Step.create primitives success fail) = ok (
      StepCode.create (record {
        primitives = primitive_codes func primitives;
        success_next = state_of fiber name success.next;
        success_binds = success.id_binds;
        success_kinds = success_kinds func primitives 0 success.id_binds;
        fail_next = state_of fiber name fail.next;
        fail_binds = fail.error_binds;
      }))
  step_code is_entry (Step.debug_print_vars next) =
      ok (StepCode.debug_print_vars (state_of fiber name next))
  step_code is_entry (Step.set_values values next) = do
    codes ← set_codes is_entry func values
    ok (StepCode.set_values codes (state_of fiber name next))
  step_code is_entry (Step.select arms) =
      ok (StepCode.select (map (select_arm fiber name func) arms))
  step_code is_entry (Step.call target args bind ret_to) = ok (
      call_code func (state_of fiber name ret_to) (state_of target.fiber target.func "entry") bind
        args (find_func ir target.fiber target.func))
  step_code is_entry (Step.return value) =
      ok (StepCode.return (type_variant_name func.out) (render_ret_value value func.out))
  step_code is_entry Step.return_void = ok StepCode.return_void
  step_code is_entry (Step.branch cond then_ else_) = ok (
      StepCode.branch (render_expr_code cond) (state_of fiber name then_)
        (state_of fiber name else_))
  step_code is_entry (Step.assign local e next) = do
    ty ← expect (var_type_of func local)
    ok (
        StepCode.assign (let_index func local) (type_variant_name ty) (render_expr_code e)
          (state_of fiber name next))
  step_code is_entry (Step.rust_block binds code next) = do
    slots ← bind_slots func binds
    ok (block_code (returns_directly func.steps binds next) code (state_of fiber name next) slots)
