-- ===== src/Codegen/Arms.antt =====
-- dsl/src/codegen.rs: `generate_global_step` and `generate_func_args_count`.
use maroon.Prelude.{
  ℕ, ◌+◌, String, List, [], ◌∷◌, ◌++◌, map, Bool, true, false, Option, none, some, Outcome, ok,
  ◌>>=◌, if◌then◌else◌,
}
use maroon.Prelude.Decimal.{to_string}
use maroon.Prelude.Maps.{string_eq, get}
use maroon.Dsl.{
  FiberType, IrType, InVar, AwaitSpec, SetPrimitive, RuntimePrimitive, CreateFiberDetail, Step,
  Func, IrFiber, Ir,
}
use maroon.Codegen.Names.{format, camel_ident}
use maroon.Codegen.Types.{type_variant_name, rust_type}
use maroon.Codegen.Exprs.{
  add, add_all, collect_vars_from_expr, collect_vars_from_args, collect_vars_from_retvalue,
  var_type_of, var_is_param,
}
use maroon.Codegen.States.{Steps, state_of, sorted, args_count, func_args_states, arm_steps}
use maroon.Codegen.Slots.{frame_index}
use maroon.Codegen.Code.{Binding, from_frame, from_heap, not_found, StepCode}
use maroon.Codegen.Text.{binding_text, code_text}
use maroon.Codegen.Emit.{step_code}

abbrev names : List InVar → List String
names [] = []
names ((name, ty) ∷ vars) = name ∷ names vars

unfoldable pub set_reads : List SetPrimitive → List String → List String
unfolding add
set_reads [] acc = acc
set_reads (SetPrimitive.queue_message f_var_queue_name var_name ∷ vs) acc =
    set_reads vs (add var_name (add f_var_queue_name acc))
set_reads (SetPrimitive.future f_var_name var_name ∷ vs) acc =
    set_reads vs (add var_name (add f_var_name acc))

unfoldable pub create_reads : List RuntimePrimitive → List String → List String
unfolding add
create_reads [] acc = acc
create_reads (RuntimePrimitive.queue name public ∷ ps) acc = create_reads ps (add name acc)
create_reads (RuntimePrimitive.future ∷ ps) acc = create_reads ps acc
create_reads (RuntimePrimitive.schedule ms_var ∷ ps) acc = create_reads ps acc

unfoldable pub spawn_reads : List CreateFiberDetail → List String → List String
unfolding add_all
spawn_reads [] acc = acc
spawn_reads (d ∷ ds) acc = spawn_reads ds (add_all d.init_vars acc)

unfoldable pub select_reads : List AwaitSpec → List String → List String
unfolding add
select_reads [] acc = acc
select_reads (AwaitSpec.queue queue_name message_var next ∷ arms) acc =
    select_reads arms (add queue_name acc)
select_reads (AwaitSpec.future bind ret_to future_id ∷ arms) acc =
    select_reads arms (add future_id acc)

-- The variables that a step's code reads: of a block of Rust code all that are in scope.
unfoldable pub referenced : IrFiber → Func → Step → List String
unfolding add_all set_reads create_reads spawn_reads select_reads collect_vars_from_args
    collect_vars_from_retvalue collect_vars_from_expr
referenced fiber func (Step.debug msg next) = []
referenced fiber func (Step.debug_print_vars next) = []
referenced fiber func (Step.set_values values next) = set_reads values []
referenced fiber func (Step.create primitives success fail) = create_reads primitives []
referenced fiber func (Step.create_fibers details next) = spawn_reads details []
referenced fiber func (Step.select arms) = select_reads arms []
referenced fiber func (Step.call target args bind ret_to) = collect_vars_from_args args []
referenced fiber func (Step.return value) = collect_vars_from_retvalue value []
referenced fiber func Step.return_void = []
referenced fiber func (Step.branch cond then_ else_) = collect_vars_from_expr cond []
referenced fiber func (Step.assign local e next) = collect_vars_from_expr e []
referenced fiber func (Step.rust_block binds code next) =
    add_all (names fiber.init_vars) (add_all (names func.locals) (add_all (names func.in_vars) []))

abbrev pub heap_binding : FiberType → String → Option IrType → Binding
unfolding rust_type camel_ident
heap_binding fiber_name name none = not_found name
heap_binding fiber_name name (some ty) =
    from_heap (camel_ident name) (rust_type ty) (camel_ident fiber_name)

abbrev pub frame_binding : Func → String → IrType → Binding
unfolding type_variant_name rust_type camel_ident frame_index
frame_binding func name ty =
    from_frame (camel_ident name) (rust_type ty) (type_variant_name ty) (frame_index func name)

module _ (fiber_name : FiberType) (fiber : IrFiber) (func : Func) where
  abbrev bound_by : String → Option IrType → Binding
  unfolding get
  bound_by name (some ty) = frame_binding func name ty
  bound_by name none = heap_binding fiber_name name (get fiber.init_vars name)

  unfoldable pub bindings : List String → List Binding
  unfolding var_type_of bound_by
  bindings [] = []
  bindings (name ∷ rest) = bound_by name (var_type_of func name) ∷ bindings rest

  abbrev is_bound_param : String → Option IrType → Bool
  unfolding var_is_param
  is_bound_param name (some ty) = var_is_param func name
  is_bound_param name none = false

  -- In the entry's arm the parameters are bound before.
  unfoldable pub entry_bindings : List String → List Binding
  unfolding var_type_of bound_by is_bound_param
  entry_bindings [] = []
  entry_bindings (name ∷ others) =
      let rest = entry_bindings others in
      if is_bound_param name (var_type_of func name)
      then rest
      else bound_by name (var_type_of func name) ∷ rest

  -- The entry's arm binds every parameter, by its name as it is.
  unfoldable pub param_bindings : ℕ → List InVar → List Binding
  unfolding type_variant_name rust_type
  param_bindings i [] = []
  param_bindings i ((name, ty) ∷ vars) =
      from_frame name (rust_type ty) (type_variant_name ty) i ∷ param_bindings (i + 1) vars

abbrev arm_text : String → List Binding → StepCode → String
arm_text state bs code = format (
    "    State::"
    ∷ state
    ∷ " => {\n"
    ∷ format (map binding_text bs)
    ∷ code_text code
    ∷ "    }\n"
    ∷ [])

module _ (ir : Ir) (fiber_name : FiberType) (fiber : IrFiber) (name : String) (func : Func) where
  -- The arm of the entry: without an entry step it goes to itself.
  unfoldable pub entry_arm : Option Step → Outcome String
  unfolding state_of referenced entry_bindings param_bindings step_code
  entry_arm none =
      let state = state_of fiber_name name "entry" in
      ok (
        arm_text state (param_bindings fiber_name fiber func 0 func.in_vars) (StepCode.go_to state))
  entry_arm (some step) = do
    code ← step_code ir fiber_name name func true step
    ok (
        arm_text (state_of fiber_name name "entry")
          (param_bindings fiber_name fiber func 0 func.in_vars
            ++ entry_bindings fiber_name fiber func (referenced fiber func step))
          code)

  unfoldable pub step_arms : Steps → Outcome String
  unfolding state_of referenced bindings step_code
  step_arms [] = ok ""
  step_arms ((id, step) ∷ rest) = do
    code ← step_code ir fiber_name name func false step
    arms ← step_arms rest
    ok (
        format (
          arm_text (state_of fiber_name name id)
            (bindings fiber_name fiber func (referenced fiber func step)) code
          ∷ arms
          ∷ []))

  unfoldable pub func_step : Outcome String
  unfolding get entry_arm step_arms arm_steps
  func_step = do
    entry ← entry_arm (get func.steps "entry")
    arms ← step_arms (arm_steps fiber_name name func)
    ok (format (entry ∷ arms ∷ []))

-- The text for every item of a list, in order.
unfoldable pub each {ℓ} : {A : Type ℓ} → (A → Outcome String) → List A → Outcome String
each f [] = ok ""
each f (x ∷ xs) = do text ← f x; rest ← each f xs; ok (format (text ∷ rest ∷ []))

unfoldable pub fiber_step : Ir → FiberType × IrFiber → Outcome String
unfolding each sorted func_step
fiber_step ir (fiber_name, fiber) =
    each (λ (name, func). func_step ir fiber_name fiber name func) (sorted fiber.funcs)

unfoldable pub generate_global_step : Ir → Outcome String
unfolding each sorted fiber_step
generate_global_step ir = do
  arms ← each (fiber_step ir) (sorted ir.fibers)
  ok (
      format (
        "pub fn global_step(state: State, vars: &[StackEntry], heap: &mut Heap) -> StepResult {\n"
        ∷ "  match state {\n" ∷ "    State::Completed => StepResult::Done,\n"
        ∷ "    State::Idle => panic!(\"shoudnt be here\"),\n" ∷ arms
        ∷ "    _ => StepResult::Todo(\"uncovered-state\".to_string()),\n  }\n}\n" ∷ []))

abbrev func_counts : FiberType → String × Func → String
unfolding func_args_states
func_counts fiber_name (name, func) = format (
    map
      (λ state. format ("    State::" ∷ state ∷ " => " ∷ to_string (args_count func) ∷ ",\n" ∷ []))
      (func_args_states fiber_name name func))

abbrev fiber_counts : FiberType × IrFiber → String
unfolding sorted func_counts
fiber_counts (fiber_name, fiber) = format (map (func_counts fiber_name) (sorted fiber.funcs))

unfoldable pub generate_func_args_count : Ir → String
unfolding sorted fiber_counts
generate_func_args_count ir = format (
    "\npub fn func_args_count(e: &State) -> usize {\n  match e {\n"
    ∷ format (map fiber_counts (sorted ir.fibers))
    ∷ "    State::Idle => 0,\n"
    ∷ "    State::Completed => 0,\n"
    ∷ "  }\n}\n"
    ∷ [])
