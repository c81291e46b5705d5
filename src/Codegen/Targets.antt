-- ===== src/Codegen/Targets.antt =====
-- dsl/src/codegen.rs: every state that the code of a step names is one that the generated `State` has.
use maroon.Prelude.{
  String, List, [], ◌∷◌, ◌++◌, map, Bool, true, false, Option, none, some, ok, ◌≡◌, refl, ap, arith,
  All, Option-cases, inl, inr, OnOk, OnOk-bind, OnOk-bind-eq, OnOk-of, ℕ, suc, length, Bool-cases,
  expect,
}
use maroon.Prelude.Maps.{string_eq, get}
use maroon.Dsl.{StepId, LocalVarRef, InVar, FiberType, Expr, AwaitSpec, Step, Func, Ir}
use maroon.Codegen.Exprs.{find_func, var_type_of}
use maroon.Codegen.States.{returns_var, member, Steps, state_of, state_steps, func_states}
use maroon.Codegen.Code.{ArmCode, StepCode, EntryCode}
use maroon.Codegen.Covered.{member-state_steps, member-map_of}
use maroon.Codegen.Emit.{
  step_code, select_arm, call_args, default_locals, call_code, block_code, returns_directly,
  bind_slots, set_codes,
}
use maroon.Codegen.Jumps.{IsOpen, func_states-open}

abbrev arm_next : AwaitSpec → StepId
arm_next (AwaitSpec.future bind ret_to future_id) = ret_to
arm_next (AwaitSpec.queue queue_name message_var next) = next

abbrev unless_direct : Bool → StepId → List StepId
unless_direct true next = []
unless_direct false next = next ∷ []

-- The steps that a step goes on to: none after a block that returns what it binds.
abbrev pub next_steps : Steps → Step → List StepId
unfolding returns_directly
next_steps steps (Step.call target args bind ret_to) = ret_to ∷ []
next_steps steps (Step.return v) = []
next_steps steps Step.return_void = []
next_steps steps (Step.branch cond then_ else_) = then_ ∷ else_ ∷ []
next_steps steps (Step.assign local e next) = next ∷ []
next_steps steps (Step.rust_block binds code next) =
    unless_direct (returns_directly steps binds next) next
next_steps steps (Step.select arms) = map arm_next arms
next_steps steps (Step.set_values values next) = next ∷ []
next_steps steps (Step.create primitives success fail) = success.next ∷ fail.next ∷ []
next_steps steps (Step.create_fibers details next) = next ∷ []
next_steps steps (Step.debug text next) = next ∷ []
next_steps steps (Step.debug_print_vars next) = next ∷ []

abbrev entry_states : List EntryCode → List String
entry_states [] = []
entry_states (EntryCode.state st ∷ entries) = st ∷ entry_states entries
entry_states (EntryCode.retrn offset ∷ entries) = entry_states entries
entry_states (EntryCode.value name variant v ∷ entries) = entry_states entries

abbrev arm_state : ArmCode → String
arm_state (ArmCode.queue q bind st) = st
arm_state (ArmCode.future_var id bind st) = st

-- The states that the code of a step names.
abbrev pub code_states : StepCode → List String
code_states (StepCode.debug msg st) = st ∷ []
code_states (StepCode.debug_print_vars st) = st ∷ []
code_states (StepCode.create_fibers details st) = st ∷ []
code_states (StepCode.create c) = c.success_next ∷ c.fail_next ∷ []
code_states (StepCode.set_values values st) = st ∷ []
code_states (StepCode.select arms) = map arm_state arms
code_states (StepCode.next entries) = entry_states entries
code_states (StepCode.go_to st) = st ∷ []
code_states (StepCode.return variant v) = []
code_states StepCode.return_void = []
code_states (StepCode.branch cond then_ else_) = then_ ∷ else_ ∷ []
code_states (StepCode.assign index variant v st) = st ∷ []
code_states (StepCode.block_return code variant) = []
code_states (StepCode.block_assign code index variant st) = st ∷ []
code_states (StepCode.block_assigns code slots st) = st ∷ []

-- The variant of `State` of some function of the program.
abbrev pub IsState : Ir → String → Type 0
IsState ir v =
    (fiber : FiberType) × (name : String) × (func : Func) × (find_func ir fiber name ≡ some func)
    × (member v (func_states fiber name func) ≡ true)

func_states-entry :
    (fiber : FiberType) (name : String) (func : Func)
    → member (state_of fiber name "entry") (func_states fiber name func) ≡ true
unfolding func_states
func_states-entry fiber name func =
    member-map_of (state_of fiber name) "entry" (state_steps func.steps)
      (rw (member-state_steps "entry" func.steps, member) refl)

entry_states-args :
    (params : List InVar) (args : List Expr) (locals : List InVar) (rest : List EntryCode)
    → entry_states (call_args params args ++ (default_locals locals ++ rest)) ≡ entry_states rest
unfolding call_args default_locals
entry_states-args [] args [] rest = refl
entry_states-args [] args ((lname, lty) ∷ locals) rest = entry_states-args [] args locals rest
entry_states-args (p ∷ params) [] [] rest = refl
entry_states-args (p ∷ params) [] ((lname, lty) ∷ locals) rest = entry_states-args [] [] locals rest
entry_states-args ((pname, pty) ∷ params) (e ∷ es) locals rest =
    entry_states-args params es locals rest

length-bind_slots :
    (func : Func) (bs : List LocalVarRef)
    → OnOk (λ slots. length slots ≡ length bs) (bind_slots func bs)
unfolding bind_slots
length-bind_slots func [] = refl
length-bind_slots func (b ∷ bs) = elim (Option-cases (var_type_of func b)) [
  | inl missing ↦ rw (missing, bind_slots) tt
  | inr (ty, at) ↦
      rw (at, bind_slots)
        (OnOk-bind (λ slots. length slots ≡ length bs) (λ slots. length slots ≡ length (b ∷ bs))
          (bind_slots func bs) _ (length-bind_slots func bs) (λ slots len. ap suc len))
]

module _ (ir : Ir) (fiber : FiberType) (name : String) (func : Func)
    (found : find_func ir fiber name ≡ some func) where
  abbrev Names : StepCode → Type 0
  Names code = All (IsState ir) (code_states code)

  IsState-open : (s : StepId) → IsOpen func.steps s → IsState ir (state_of fiber name s)
  IsState-open s open_ = (fiber, name, func, found, func_states-open fiber name func s open_)

  arms-open :
      (arms : List AwaitSpec)
      → All (IsOpen func.steps) (map arm_next arms)
      → All (IsState ir) (map arm_state (map (select_arm fiber name func) arms))
  unfolding select_arm
  arms-open [] opens = tt
  arms-open (AwaitSpec.future bind ret_to future_id ∷ arms) opens =
      (IsState-open ret_to opens.0, arms-open arms opens.1)
  arms-open (AwaitSpec.queue queue_name message_var next ∷ arms) opens =
      (IsState-open next opens.0, arms-open arms opens.1)

  call-open :
      (ret_to : StepId) (target_fiber target_func : String) (bind : Option LocalVarRef)
      (args : List Expr) (callee : Option Func)
      → find_func ir target_fiber target_func ≡ callee
      → IsOpen func.steps ret_to
      → Names (
          call_code func
            (state_of fiber name ret_to)
            (state_of target_fiber target_func "entry")
            bind
            args
            callee)
  unfolding call_code
  call-open ret_to target_fiber target_func bind args none at open_ =
      (IsState-open ret_to open_, tt)
  call-open ret_to target_fiber target_func bind args (some callee) at open_ = (
    IsState-open ret_to open_,
    rw
        (entry_states-args callee.in_vars args callee.locals
          (EntryCode.state (state_of target_fiber target_func "entry") ∷ []))
        (
          (
            target_fiber,
            target_func,
            callee,
            at,
            func_states-entry target_fiber target_func callee,
          ),
          tt,
        ),
  )

  block-open :
      (binds : List LocalVarRef) (code : String) (next : StepId) (slots : List (ℕ × String))
      → length slots ≡ length binds
      → All (IsOpen func.steps) (unless_direct (returns_directly func.steps binds next) next)
      → Names (
          block_code (returns_directly func.steps binds next) code (state_of fiber name next) slots)
  unfolding returns_directly
  block-open [] code next [] len opens = (IsState-open next opens.0, tt)
  block-open (b ∷ []) code next (slot ∷ []) len opens =
      elim (Bool-cases (returns_var b (get func.steps next))) [
        | inl direct ↦ rw direct tt
        | inr goes_on ↦ rw goes_on (IsState-open next (rw goes_on at opens).0, tt)
      ]
  block-open (b ∷ c ∷ bs) code next (slot ∷ other ∷ slots) len opens =
      (IsState-open next opens.0, tt)
  block-open [] code next (slot ∷ slots) len opens = absurd (omega (arith, len))
  block-open (b ∷ bs) code next [] len opens = absurd (omega (arith, len))
  block-open (b ∷ []) code next (slot ∷ other ∷ slots) len opens = absurd (omega (arith, len))
  block-open (b ∷ c ∷ bs) code next (slot ∷ []) len opens = absurd (omega (arith, len))

  step_code-OnNames :
      (is_entry : Bool) (step : Step)
      → All (IsOpen func.steps) (next_steps func.steps step)
      → OnOk Names (step_code ir fiber name func is_entry step)
  unfolding step_code
  step_code-OnNames is_entry (Step.debug msg next) opens = (IsState-open next opens.0, tt)
  step_code-OnNames is_entry (Step.debug_print_vars next) opens = (IsState-open next opens.0, tt)
  step_code-OnNames is_entry (Step.create_fibers details next) opens =
      (IsState-open next opens.0, tt)
  step_code-OnNames is_entry (Step.create primitives success fail) opens =
      (IsState-open success.next opens.0, (IsState-open fail.next opens.1.0, tt))
  step_code-OnNames is_entry (Step.set_values values next) opens =
      OnOk-bind-eq Names (set_codes is_entry func values) _
        (λ codes e. (IsState-open next opens.0, tt))
  step_code-OnNames is_entry (Step.select arms) opens = arms-open arms opens
  step_code-OnNames is_entry (Step.call target args bind ret_to) opens =
      call-open ret_to target.fiber target.func bind args (find_func ir target.fiber target.func)
        refl opens.0
  step_code-OnNames is_entry (Step.return v) opens = tt
  step_code-OnNames is_entry Step.return_void opens = tt
  step_code-OnNames is_entry (Step.branch cond then_ else_) opens =
      (IsState-open then_ opens.0, (IsState-open else_ opens.1.0, tt))
  step_code-OnNames is_entry (Step.assign local e next) opens =
      OnOk-bind-eq Names (expect (var_type_of func local)) _
        (λ ty at. (IsState-open next opens.0, tt))
  step_code-OnNames is_entry (Step.rust_block binds code next) opens =
      OnOk-bind-eq Names (bind_slots func binds) _ (λ slots e.
        block-open binds code next slots
          (OnOk-of (λ slots. length slots ≡ length binds) (bind_slots func binds)
            (length-bind_slots func binds) e)
          opens)

  -- A step whose next steps are all declared in the function, none of them a step that a block of Rust
  -- code with one bind leads to (a block that returns its bind at once has no next step here): every state
  -- that its code names, the callee's entry of a call included, is one that the generated `State` has.
  pub step_code-Names :
      (is_entry : Bool) (step : Step) (code : StepCode)
      → All (IsOpen func.steps) (next_steps func.steps step)
      → step_code ir fiber name func is_entry step ≡ ok code
      → All (IsState ir) (code_states code)
  step_code-Names is_entry step code opens e =
      OnOk-of Names (step_code ir fiber name func is_entry step)
        (step_code-OnNames is_entry step opens) e
