-- ===== src/Engine/Loop.antt =====
-- state/src/maroon.rs: `execute_pending_operations_inner`. `pop_first` takes the operation of the binary
-- heap that is due first, and `timer` gives the readings of the clock.
use maroon.Prelude.{
  ℕ, zero, suc, String, List, [], ◌∷◌, ◌++◌, Bool, true, false, Option, none, some, Outcome, ok,
  panic, hang, ◌>>=◌, expect, leb, if◌then◌else◌,
}
use maroon.Prelude.Maps.{nat_eq, string_eq, get, insert, remove}
use maroon.RangeKey.{add64}
use maroon.Fiber.Stack.{pop}
use maroon.Engine.{
  User, MaroonTaskState, MaroonTaskStackEntryValue, MaroonTaskStackEntry, state, retrn, value,
  MaroonTaskStack, MaroonTaskHeap, MaroonStepResult, get_user, MaroonTask, TimestampedMaroonTask,
  MaroonRuntime, local_vars_count, carry_on, awaiter_input_message,
  user_storage_get_user_request_user_id, user_storage_get_user_request_ret_task,
  requester_got_user_response,
}
use maroon.Engine.Steps.{global_step}

abbrev pub push : MaroonTaskStack → MaroonTaskStackEntry → MaroonTaskStack
push stack entry = stack ++ entry ∷ []

unfoldable pub push_all : MaroonTaskStack → List MaroonTaskStackEntry → MaroonTaskStack
push_all stack [] = stack
push_all stack (entry ∷ entries) = push_all (push stack entry) entries

-- The variables go back to where they were.
unfoldable pub push_vars : MaroonTaskStack → List MaroonTaskStackEntryValue → MaroonTaskStack
push_vars stack [] = stack
push_vars stack (v ∷ vars) = push (push_vars stack vars) (value v)

-- The variables of a state, the top of the stack first.
unfoldable pub pop_vars :
    ℕ → MaroonTaskStack → Outcome (MaroonTaskStack × List MaroonTaskStackEntryValue)
unfolding pop
pop_vars zero stack = ok (stack, [])
pop_vars (suc n) stack = elim (pop stack) [
  | none ↦ panic
  | some (rest, entry) ↦ elim entry [
    | state st ↦ panic
    | retrn st ↦ panic
    | value v ↦ (do (below, vars) ← pop_vars n rest; ok (below, v ∷ vars))
  ]
]

abbrev state_of : MaroonTaskStackEntry → Outcome MaroonTaskState
state_of (state st) = ok st
state_of (retrn st) = panic
state_of (value v) = panic

-- The state on top of the stack and its variables.
unfoldable pub pop_state :
    MaroonTaskStack → Outcome (MaroonTaskStack × MaroonTaskState × List MaroonTaskStackEntryValue)
unfolding pop pop_vars local_vars_count
pop_state stack = do
  (rest, entry) ← expect (pop stack)
  st ← state_of entry
  (below, vars) ← pop_vars (local_vars_count st) rest
  ok (below, st, vars)

abbrev pub is_idle : MaroonTaskState → Bool
is_idle MaroonTaskState.idle = true
is_idle _ = false

abbrev pub return_state : MaroonTaskStackEntry → Outcome MaroonTaskState
return_state (retrn st) = ok st
return_state (state st) = panic
return_state (value v) = panic

abbrev find_user : MaroonTaskHeap → String → Outcome (Option User)
find_user (MaroonTaskHeap.users_storage store) u_id = ok (get store u_id)
find_user MaroonTaskHeap.empty u_id = panic
find_user (MaroonTaskHeap.divisors d) u_id = panic
find_user (MaroonTaskHeap.fibonacci f) u_id = panic

module _ {W : Type 0} where
  abbrev pub write_text : MaroonRuntime W → MaroonTask W → String → ℕ → MaroonRuntime W
  write_text fsm task text timestamp = record fsm {
    written = fsm.written ++ (task.writer, text, timestamp) ∷ [];
  }

  abbrev pub with_stack : MaroonTask W → MaroonTaskStack → MaroonTask W
  with_stack task stack = record task { maroon_stack = stack }

  -- `MaroonStepResult::Send`, to the task that waits for a message.
  abbrev send_to :
      MaroonRuntime W → ℕ → MaroonTask W → ℕ → String → MaroonTaskState → Option ℕ → MaroonRuntime W
  send_to fsm task_id task timestamp message new_state none =
      write_text fsm task "no awaiter. closing" timestamp
  send_to fsm task_id task timestamp message new_state (some awaiter) =
      let taken = record fsm { awaiter = none; active_tasks = remove fsm.active_tasks awaiter } in
      elim (get fsm.active_tasks awaiter) [
        | none ↦
            write_text (record fsm { awaiter = none }) task "internal error. Awaiter is not running"
              timestamp
        | some awaiting ↦
            let sent =
              carry_on (write_text taken task "message has been sent" timestamp) task_id
                (with_stack task (push task.maroon_stack (state new_state))) timestamp in
            carry_on sent awaiter
              (with_stack awaiting (
                push (push awaiting.maroon_stack (value (awaiter_input_message message)))
                  (state MaroonTaskState.waiter_wait_message_awaiting)))
              timestamp
      ]

  -- `MaroonStepResult::SendGetUserRequestIM`
  abbrev request_user : MaroonRuntime W → ℕ → MaroonTask W → ℕ → String → Outcome (MaroonRuntime W)
  request_user fsm task_id task timestamp u_id = do
    storage_id ← expect fsm.daemon_user_storage
    storage ← expect (get fsm.active_tasks storage_id)
    let asked =
        carry_on (record fsm { active_tasks = remove fsm.active_tasks storage_id }) storage_id
          (record storage { in_queue = storage.in_queue ++ get_user u_id task_id ∷ [] }) timestamp
    ok (record asked { active_tasks = insert asked.active_tasks task_id task })

  -- `MaroonStepResult::UserStorageSendResponse`
  abbrev answer_user :
      MaroonRuntime W → ℕ → MaroonTask W → ℕ → String → ℕ → Outcome (MaroonRuntime W)
  answer_user fsm task_id task timestamp u_id awaiter_id = do
    awaiting ← expect (get fsm.active_tasks awaiter_id)
    user ← find_user task.maroon_heap u_id
    let answered =
        carry_on (record fsm { active_tasks = remove fsm.active_tasks awaiter_id }) awaiter_id
          (with_stack awaiting (
            push (push awaiting.maroon_stack (value (requester_got_user_response user)))
              (state MaroonTaskState.requester_get_user_got)))
          timestamp
    ok (
        carry_on answered task_id
          (with_stack task (push task.maroon_stack (state MaroonTaskState.idle))) timestamp)

  -- What a step asks for; the task's stack is the one below the state and its variables.
  unfoldable pub apply_step :
      MaroonRuntime W
      → ℕ
      → MaroonTask W
      → List MaroonTaskStackEntryValue
      → ℕ
      → MaroonStepResult
      → Outcome (MaroonRuntime W)
  unfolding carry_on push_all push_vars pop get insert remove add64
  apply_step fsm task_id task vars timestamp MaroonStepResult.done = ok fsm
  apply_step fsm task_id task vars timestamp (MaroonStepResult.sleep ms new_state) = ok (
      carry_on fsm task_id
        (with_stack task (push (push_vars task.maroon_stack vars) (state new_state)))
        (add64 timestamp ms))
  apply_step fsm task_id task vars timestamp (MaroonStepResult.write text new_state) = ok (
      carry_on (write_text fsm task text timestamp) task_id
        (with_stack task (push (push_vars task.maroon_stack vars) (state new_state))) timestamp)
  apply_step fsm task_id task vars timestamp (MaroonStepResult.send message new_state) =
      ok (send_to fsm task_id task timestamp message new_state fsm.awaiter)
  apply_step fsm task_id task vars timestamp (MaroonStepResult.next entries) =
      ok (carry_on fsm task_id (with_stack task (push_all task.maroon_stack entries)) timestamp)
  apply_step fsm task_id task vars timestamp (MaroonStepResult.return retval) = do
    (below, popped) ← expect (pop task.maroon_stack)
    next_state ← return_state popped
    ok (
        carry_on fsm task_id (with_stack task (push (push below (value retval)) (state next_state)))
          timestamp)
  apply_step fsm task_id task vars timestamp (MaroonStepResult.send_get_user_request_im u_id) =
      request_user fsm task_id task timestamp u_id
  apply_step fsm task_id task vars timestamp
        (MaroonStepResult.user_storage_send_response u_id awaiter_id) =
      answer_user fsm task_id task timestamp u_id awaiter_id

  -- A step in a state, with its variables.
  unfoldable pub step_task :
      MaroonRuntime W
      → ℕ
      → MaroonTask W
      → ℕ
      → MaroonTaskState
      → List MaroonTaskStackEntryValue
      → Outcome (MaroonRuntime W)
  unfolding global_step apply_step
  step_task fsm task_id task timestamp st vars = do
    (result, heap) ← global_step st vars task.maroon_heap
    apply_step fsm task_id (record task { maroon_heap = heap }) vars timestamp result

  -- An idle task takes its next message; without one it stays, and is not pending.
  unfoldable pub serve_idle :
      MaroonRuntime W
      → ℕ
      → MaroonTask W
      → ℕ
      → List MaroonTaskStackEntryValue
      → Outcome (MaroonRuntime W)
  unfolding step_task insert
  serve_idle fsm task_id task timestamp vars = elim task.in_queue [
    | [] ↦ elim task.maroon_stack [
      | entry ∷ entries ↦ panic
      | [] ↦ ok (record fsm {
        active_tasks =
            insert fsm.active_tasks task_id (with_stack task (state MaroonTaskState.idle ∷ []));
      })
    ]
    | get_user u_id awaiter_id ∷ later ↦
        step_task fsm task_id (record task { in_queue = later }) timestamp
          MaroonTaskState.users_storage_get_user_request
          (vars
            ++ user_storage_get_user_request_user_id u_id
              ∷ user_storage_get_user_request_ret_task awaiter_id
              ∷ [])
  ]

  -- The work on an operation that was taken from the heap.
  unfoldable pub execute : MaroonRuntime W → TimestampedMaroonTask → Outcome (MaroonRuntime W)
  unfolding pop_state step_task serve_idle get remove
  execute fsm operation = do
    task ← expect (get fsm.active_tasks operation.task_id)
    (below, st, vars) ← pop_state task.maroon_stack
    let taken = record fsm { active_tasks = remove fsm.active_tasks operation.task_id }
    let popped = with_stack task below
    if is_idle st
        then serve_idle taken operation.task_id popped operation.scheduled_timestamp vars
        else step_task taken operation.task_id popped operation.scheduled_timestamp st vars

module _ {W : Type 0} (timer : ℕ → ℕ)
    (pop_first : List TimestampedMaroonTask
      → Option (TimestampedMaroonTask × List TimestampedMaroonTask)) where
  -- The operation that is due first, if its time has come.
  unfoldable pub next_operation : MaroonRuntime W → Option (TimestampedMaroonTask × MaroonRuntime W)
  next_operation fsm = elim (pop_first fsm.pending_operations) [
    | none ↦ none
    | some (operation, rest) ↦
        if leb operation.scheduled_timestamp (timer fsm.readings)
        then some (operation, record fsm { pending_operations = rest; readings = suc fsm.readings })
        else none
  ]

  unfoldable pub execute_pending_operations_inner : ℕ → MaroonRuntime W → Outcome (MaroonRuntime W)
  unfolding next_operation execute
  execute_pending_operations_inner zero fsm = hang
  execute_pending_operations_inner (suc fuel) fsm = elim (next_operation fsm) [
    | none ↦ ok (record fsm { readings = suc fsm.readings })
    | some (operation, taken) ↦ (do
      executed ← execute taken operation
      execute_pending_operations_inner fuel executed)
  ]
