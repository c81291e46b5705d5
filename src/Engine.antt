-- ===== src/Engine.antt =====
-- state/src/maroon.rs: the in-memory engine: the data of a task, and the tasks with their operations.
-- `W` is the type of writers. The `println!` of the verbose mode is left out, and so is the check of
-- stacks, which the released build has not.
pub mod Steps
pub mod Loop
pub mod Turns
mod Single
mod Factorial
mod Divisors
mod Fibonacci
mod Tests
use maroon.Prelude.{
  ℕ, ◌+◌, ◌*◌, ◌%◌, String, List, [], ◌∷◌, ◌++◌, Bool, true, false, Option, none, some, Outcome, ok,
  panic, ◌>>=◌,
}
use maroon.Prelude.Maps.{Map, Eq, nat_eq, string_eq, get, insert, remove}
use maroon.RangeKey.{u64_mod, add64}

unfoldable pub mul64 : ℕ → ℕ → ℕ
mul64 a b = (a * b) % u64_mod

pub record User : Type 0 where
  pub id : String
  pub email : String
  pub age : ℕ

pub data MaroonTaskState : Type 0 where
  completed : MaroonTaskState
  delayed_message_task_begin delayed_message_task_execute : MaroonTaskState
  divisors_task_begin divisors_task_iteration divisors_print_and_move_on : MaroonTaskState
  fibonacci_task_begin fibonacci_task_calculate fibonacci_task_result fibonacci_task_step :
      MaroonTaskState
  factorial_entry factorial_recursive_call factorial_recursion_post_write : MaroonTaskState
  factorial_recursion_post_sleep factorial_recursion_post_recursive_call factorial_done :
      MaroonTaskState
  sender_send_message waiter_wait_message_awaiting idle : MaroonTaskState
  users_storage_get_user_request requester_get_user_request requester_get_user_got : MaroonTaskState

pub data MaroonTaskStackEntryValue : Type 0 where
  delay_input_ms : ℕ → MaroonTaskStackEntryValue
  delay_input_message : String → MaroonTaskStackEntryValue
  factorial_input factorial_argument factorial_return_value : ℕ → MaroonTaskStackEntryValue
  sender_input_message awaiter_input_message : String → MaroonTaskStackEntryValue
  user_storage_get_user_request_user_id : String → MaroonTaskStackEntryValue
  user_storage_get_user_request_ret_task : ℕ → MaroonTaskStackEntryValue
  requester_get_user_input : String → MaroonTaskStackEntryValue
  requester_got_user_response : Option User → MaroonTaskStackEntryValue

-- `maroon_task_state_local_vars_count`
unfoldable pub local_vars_count : MaroonTaskState → ℕ
local_vars_count MaroonTaskState.factorial_entry = 1
local_vars_count MaroonTaskState.factorial_recursive_call = 1
local_vars_count MaroonTaskState.factorial_recursion_post_write = 1
local_vars_count MaroonTaskState.factorial_recursion_post_sleep = 1
local_vars_count MaroonTaskState.factorial_recursion_post_recursive_call = 2
local_vars_count MaroonTaskState.factorial_done = 2
local_vars_count MaroonTaskState.delayed_message_task_begin = 2
local_vars_count MaroonTaskState.delayed_message_task_execute = 2
local_vars_count MaroonTaskState.sender_send_message = 1
local_vars_count MaroonTaskState.waiter_wait_message_awaiting = 1
local_vars_count MaroonTaskState.requester_get_user_request = 1
local_vars_count MaroonTaskState.requester_get_user_got = 1
local_vars_count _ = 0

-- `MaroonTaskStackEntry`; the top of a stack is the last entry, as in the code's vector.
pub data MaroonTaskStackEntry : Type 0 where
  state retrn : MaroonTaskState → MaroonTaskStackEntry
  value : MaroonTaskStackEntryValue → MaroonTaskStackEntry

abbrev pub MaroonTaskStack : Type 0
MaroonTaskStack = List MaroonTaskStackEntry

pub record MaroonTaskHeapDivisors : Type 0 where
  pub n : ℕ
  pub i : ℕ

pub record MaroonTaskHeapFibonacci : Type 0 where
  pub n : ℕ
  pub index : ℕ
  pub a : ℕ
  pub b : ℕ
  pub delay_ms : ℕ

pub data MaroonTaskHeap : Type 0 where
  empty : MaroonTaskHeap
  divisors : MaroonTaskHeapDivisors → MaroonTaskHeap
  fibonacci : MaroonTaskHeapFibonacci → MaroonTaskHeap
  users_storage : Map String User → MaroonTaskHeap

pub data MaroonStepResult : Type 0 where
  done : MaroonStepResult
  next : List MaroonTaskStackEntry → MaroonStepResult
  sleep : ℕ → MaroonTaskState → MaroonStepResult
  write : String → MaroonTaskState → MaroonStepResult
  return : MaroonTaskStackEntryValue → MaroonStepResult
  send : String → MaroonTaskState → MaroonStepResult
  send_get_user_request_im : String → MaroonStepResult
  user_storage_send_response : String → ℕ → MaroonStepResult

pub data MaroonInputMessageTask : Type 0 where
  get_user : String → ℕ → MaroonInputMessageTask

pub record MaroonTask (W : Type 0) : Type 0 where
  pub description : String
  pub writer : W
  pub maroon_stack : MaroonTaskStack
  pub maroon_heap : MaroonTaskHeap
  pub in_queue : List MaroonInputMessageTask

pub record TimestampedMaroonTask : Type 0 where
  pub scheduled_timestamp : ℕ
  pub task_id : ℕ

-- `MaroonRuntime`, with what was written so far, and how often the clock was read.
pub record MaroonRuntime (W : Type 0) : Type 0 where
  pub next_task_id : ℕ
  pub active_tasks : Map ℕ (MaroonTask W)
  pub pending_operations : List TimestampedMaroonTask
  pub awaiter : Option ℕ
  pub daemon_user_storage : Option ℕ
  pub written : List (W × String × ℕ)
  pub readings : ℕ

module _ {W : Type 0} where
  -- A task that runs on, at a time.
  unfoldable pub carry_on : MaroonRuntime W → ℕ → MaroonTask W → ℕ → MaroonRuntime W
  unfolding insert
  carry_on fsm task_id task timestamp = record fsm {
    active_tasks = insert fsm.active_tasks task_id task;
    pending_operations =
        fsm.pending_operations
        ++ record { scheduled_timestamp = timestamp; task_id = task_id } ∷ [];
  }

  abbrev new_task : W → MaroonTaskStack → MaroonTaskHeap → String → MaroonTask W
  new_task writer stack heap description = record {
    description = description;
    writer = writer;
    maroon_stack = stack;
    maroon_heap = heap;
    in_queue = [];
  }

  unfoldable pub schedule :
      MaroonRuntime W → W → MaroonTaskStack → MaroonTaskHeap → ℕ → String → MaroonRuntime W
  unfolding carry_on add64
  schedule fsm writer stack heap timestamp description =
      carry_on (record fsm { next_task_id = add64 fsm.next_task_id 1 }) fsm.next_task_id
        (new_task writer stack heap description) timestamp

  unfoldable pub park_awaiter :
      MaroonRuntime W → W → MaroonTaskStack → MaroonTaskHeap → String → Outcome (MaroonRuntime W)
  unfolding insert add64
  park_awaiter fsm writer stack heap description = elim fsm.awaiter [
    | some id ↦ panic
    | none ↦ ok (record fsm {
      next_task_id = add64 fsm.next_task_id 1;
      awaiter = some fsm.next_task_id;
      active_tasks =
          insert fsm.active_tasks fsm.next_task_id (new_task writer stack heap description);
    })
  ]

  unfoldable pub create_user_storage : MaroonRuntime W → W → Outcome (MaroonRuntime W)
  unfolding insert add64
  create_user_storage fsm writer = elim fsm.daemon_user_storage [
    | some id ↦ panic
    | none ↦ ok (record fsm {
      next_task_id = add64 fsm.next_task_id 1;
      active_tasks = insert fsm.active_tasks fsm.next_task_id (
          new_task writer (MaroonTaskStackEntry.state MaroonTaskState.idle ∷ [])
            (MaroonTaskHeap.users_storage
              (("id1", record { id = "id1"; email = "aha@uhu.com"; age = 42 }) ∷ []))
            "Users storage");
      daemon_user_storage = some fsm.next_task_id;
    })
  ]
