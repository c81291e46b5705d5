-- ===== src/Fiber.antt =====
-- runtime/src/fiber.rs, with the data that it shares with the generated code
-- (generated/src/maroon_assembler.rs): a fiber's stack, and the loop that runs it. `St` is the
-- generated `State`, `V` the runtime's `Value`, `H` the heap; `global_step` and `func_args_count`
-- are generated from the program. A stack is a list as in the code's vector: its top is the last.
-- What a debug step prints is left out.
pub mod Stack
pub mod Frames
pub mod Identity
mod Tests
use maroon.Prelude.{
  ℕ, zero, suc, ◌+◌, ◌-◌, List, [], ◌∷◌, ◌++◌, Bool, true, false, Option, none, some, String,
  Outcome, ok, panic, hang, ◌>>=◌, ltb, if◌then◌else◌, length,
}
use maroon.Prelude.Maps.{Eq}
use maroon.RangeKey.{add64, sub64}
use Stack.{take, drop, pop, update}

pub data StackEntry (St V : Type 0) : Type 0 where
  state : St → StackEntry St V
  retrn : Option ℕ → StackEntry St V
  value : String → V → StackEntry St V
  frame_assign : List (ℕ × V) → StackEntry St V

pub data SelectArm (St : Type 0) : Type 0 where
  future_var : String → Option String → St → SelectArm St
  queue : String → String → St → SelectArm St

pub data SetPrimitiveValue (V : Type 0) : Type 0 where
  queue_message : String → V → SetPrimitiveValue V
  future : String → V → SetPrimitiveValue V

pub data CreatePrimitiveValue : Type 0 where
  future : CreatePrimitiveValue
  queue : String → Bool → CreatePrimitiveValue
  schedule : ℕ → CreatePrimitiveValue

-- `StepResult::Create` and `RunResult::Create`; `K` is the generated `SuccessBindKind`.
pub record Creation (St K : Type 0) : Type 0 where
  pub primitives : List CreatePrimitiveValue
  pub success_next : St
  pub success_binds : List String
  pub success_kinds : List K
  pub fail_next : St
  pub fail_binds : List String

pub data StepResult (St V K : Type 0) : Type 0 where
  done : StepResult St V K
  next : List (StackEntry St V) → StepResult St V K
  go_to : St → StepResult St V K
  select : List (SelectArm St) → StepResult St V K
  create : Creation St K → StepResult St V K
  return : V → StepResult St V K
  return_void : StepResult St V K
  todo : String → StepResult St V K
  set_values : List (SetPrimitiveValue V) → St → StepResult St V K
  debug : String → St → StepResult St V K
  debug_print_vars : St → StepResult St V K
  create_fibers : List (String × List V) → St → StepResult St V K

pub data RunResult (St V K : Type 0) : Type 0 where
  done : RunResult St V K
  select : List (SelectArm St) → RunResult St V K
  set_values : List (SetPrimitiveValue V) → RunResult St V K
  create_fibers : List (String × List V) → RunResult St V K
  create : Creation St K → RunResult St V K

pub record Fiber (St V K H : Type 0) : Type 0 where
  pub stack : List (StackEntry St V)
  pub heap : H
  pub function_key : String
  pub f_type : String
  pub unique_id : ℕ
  pub trace_sink : List (St × StepResult St V K)

module _ {St V : Type 0} where
  -- A value that is bound to a slot keeps the slot's name, if it has one.
  abbrev pub bind_slot : String → V → StackEntry St V → StackEntry St V
  bind_slot label val (value old_label old) = value old_label val
  bind_slot label val (state st) = value label val
  bind_slot label val (retrn offset) = value label val
  bind_slot label val (frame_assign updates) = value label val

  abbrev is_local : ⦃e : Eq String⦄ → String → StackEntry St V → Bool
  is_local ⦃e⦄ name (value label val) = e.beq label name
  is_local name (state st) = false
  is_local name (retrn offset) = false
  is_local name (frame_assign updates) = false

  -- The search of `assign_local`, from the top.
  unfoldable pub assign_last :
      ⦃e : Eq String⦄ → String → V → List (StackEntry St V) → Option (List (StackEntry St V))
  assign_last name val [] = none
  assign_last name val (x ∷ xs) = elim (assign_last name val xs) [
    | some ys ↦ some (x ∷ ys)
    | none ↦ if is_local name x then some (bind_slot name val x ∷ xs) else none
  ]

  -- `StackEntry::FrameAssign`: the slots are counted from the start of the frame.
  unfoldable pub assign_slots :
      List (ℕ × V) → ℕ → List (StackEntry St V) → Outcome (List (StackEntry St V))
  assign_slots [] start stack = ok stack
  assign_slots ((ofs, val) ∷ updates) start stack = do
    assigned ← update (bind_slot "_" val) stack (add64 start ofs)
    assign_slots updates start assigned

  -- `StepResult::Next`
  unfoldable pub apply_entries :
      List (StackEntry St V) → ℕ → List (StackEntry St V) → Outcome (List (StackEntry St V))
  apply_entries [] start stack = ok stack
  apply_entries (frame_assign updates ∷ entries) start stack = do
    assigned ← assign_slots updates start stack
    apply_entries entries start assigned
  apply_entries (state st ∷ entries) start stack =
      apply_entries entries start (stack ++ state st ∷ [])
  apply_entries (retrn offset ∷ entries) start stack =
      apply_entries entries start (stack ++ retrn offset ∷ [])
  apply_entries (value label val ∷ entries) start stack =
      apply_entries entries start (stack ++ value label val ∷ [])

  abbrev return_address : StackEntry St V → Outcome (Option ℕ)
  return_address (retrn offset) = ok offset
  return_address (state st) = panic
  return_address (value label val) = panic
  return_address (frame_assign updates) = panic

  -- The frame is dropped, and then the return marker under it.
  unfoldable pub leave_frame :
      ℕ → List (StackEntry St V) → Outcome (List (StackEntry St V) × Option ℕ)
  leave_frame start stack = elim (pop (take start stack)) [
    | none ↦ panic
    | some (below, marker) ↦ (do offset ← return_address marker; ok (below, offset))
  ]

  abbrev pub bind_return : V → Option ℕ → List (StackEntry St V) → Outcome (List (StackEntry St V))
  bind_return val none stack = ok stack
  bind_return val (some offset) stack =
      update (bind_slot "ret" val) stack (sub64 (length stack) offset)

-- A round of the loop goes on, or ends the run.
pub data Round (St V K H : Type 0) : Type 0 where
  again : Fiber St V K H → Round St V K H
  stop : Fiber St V K H → RunResult St V K → Round St V K H

module _ {St V K H : Type 0} where
  unfoldable pub push_next : Fiber St V K H → St → Fiber St V K H
  push_next f following = record f { stack = f.stack ++ state following ∷ [] }

  unfoldable pub assign_local :
      ⦃e : Eq String⦄ → Fiber St V K H → String → V → Outcome (Fiber St V K H)
  assign_local f name val = elim (assign_last name val f.stack) [
    | none ↦ panic
    | some stack ↦ ok (record f { stack = stack })
  ]

  unfoldable pub assign_local_and_push_next :
      ⦃e : Eq String⦄ → Fiber St V K H → String → V → St → Outcome (Fiber St V K H)
  assign_local_and_push_next f name val following = do
    assigned ← assign_local f name val
    ok (push_next assigned following)

  -- What a step asks for, where the frame begins at `start`.
  unfoldable pub apply_result : Fiber St V K H → ℕ → StepResult St V K → Outcome (Round St V K H)
  apply_result f start (StepResult.debug msg following) = ok (again (push_next f following))
  apply_result f start (StepResult.debug_print_vars following) = ok (again (push_next f following))
  apply_result f start (StepResult.return val) = do
    (below, offset) ← leave_frame start f.stack
    stack ← bind_return val offset below
    ok (again (record f { stack = stack }))
  apply_result f start StepResult.return_void = do
    (below, offset) ← leave_frame start f.stack
    ok (again (record f { stack = below }))
  apply_result f start (StepResult.go_to st) = ok (again (push_next f st))
  apply_result f start (StepResult.next entries) = do
    stack ← apply_entries entries start f.stack
    ok (again (record f { stack = stack }))
  apply_result f start (StepResult.select arms) = ok (stop f (RunResult.select arms))
  apply_result f start (StepResult.create_fibers details following) =
      ok (stop (push_next f following) (RunResult.create_fibers details))
  apply_result f start (StepResult.create creation) = ok (stop f (RunResult.create creation))
  apply_result f start (StepResult.set_values values following) =
      ok (stop (push_next f following) (RunResult.set_values values))
  apply_result f start StepResult.done = ok (again f)
  apply_result f start (StepResult.todo msg) = ok (again f)

module _ {St V K H : Type 0} (func_args_count : St → ℕ)
    (global_step : St → List (StackEntry St V) → H → StepResult St V K × H) where
  unfoldable pub step_state :
      Fiber St V K H → List (StackEntry St V) → St → Outcome (Round St V K H)
  step_state f rest st =
      let start = length rest - func_args_count st in
      let (result, heap) = global_step st (drop start rest) f.heap in
      if ltb (length rest) (func_args_count st)
      then panic
      else apply_result
          (record f { stack = rest; heap = heap; trace_sink = f.trace_sink ++ (st, result) ∷ [] })
          start result

  abbrev pub run_head :
      Fiber St V K H → List (StackEntry St V) → StackEntry St V → Outcome (Round St V K H)
  run_head f rest (state st) = step_state f rest st
  run_head f rest (retrn offset) = ok (stop f RunResult.done)
  run_head f rest (value label val) = ok (stop f RunResult.done)
  run_head f rest (frame_assign updates) = ok (stop f RunResult.done)

  -- One round of the loop of `run`.
  unfoldable pub round : Fiber St V K H → Outcome (Round St V K H)
  round f = elim (pop f.stack) [
    | none ↦ ok (stop f RunResult.done)
    | some (rest, head) ↦ run_head f rest head
  ]

  -- `run`, for at most `fuel` rounds.
  unfoldable pub run : ℕ → Fiber St V K H → Outcome (Fiber St V K H × RunResult St V K)
  run zero f = hang
  run (suc fuel) f = do
    r ← round f
    elim r [ again g ↦ run fuel g | stop g result ↦ ok (g, result) ]
