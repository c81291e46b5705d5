-- ===== src/Engine/Steps.antt =====
-- state/src/maroon.rs: `global_step`, what a task does in each of its states.
use Prim.Native.String.{◌++◌ as text_append}
use maroon.Prelude.{
  ℕ, zero, suc, ◌%◌, String, List, [], ◌∷◌, Option, none, some, Outcome, ok, panic, ltb, leb, ◌==◌,
  if◌then◌else◌,
}
use maroon.Prelude.Decimal.{to_string}
use maroon.RangeKey.{add64, sub64}
use maroon.Engine.{
  mul64, User, MaroonTaskState, MaroonTaskStackEntryValue, state, retrn, value,
  MaroonTaskHeapDivisors, MaroonTaskHeapFibonacci, MaroonTaskHeap, MaroonStepResult, delay_input_ms,
  delay_input_message, factorial_input, factorial_argument, factorial_return_value,
  sender_input_message, awaiter_input_message, user_storage_get_user_request_user_id,
  user_storage_get_user_request_ret_task, requester_get_user_input, requester_got_user_response,
}

infixr 30 ◌&◌
abbrev ◌&◌ : String → String → String
a & b = text_append a b

-- The loop of `DivisorsTaskIteration`: the greatest divisor of `n` up to a number, or 0.
unfoldable pub next_divisor : ℕ → ℕ → ℕ
next_divisor n zero = 0
next_divisor n (suc j) = let below = next_divisor n j in if n % suc j == 0 then suc j else below

abbrev iterate_divisors : MaroonTaskHeapDivisors → Outcome (MaroonStepResult × MaroonTaskHeap)
iterate_divisors data_ =
    let i = next_divisor data_.n data_.i in
    if i == 0
    then ok (
      MaroonStepResult.write (to_string data_.n & "!") MaroonTaskState.completed,
      MaroonTaskHeap.divisors data_,
    )
    else ok (
      MaroonStepResult.sleep (mul64 i 10) MaroonTaskState.divisors_print_and_move_on,
      MaroonTaskHeap.divisors (record data_ { i = i }),
    )

abbrev begin_fibonacci : MaroonTaskHeapFibonacci → Outcome (MaroonStepResult × MaroonTaskHeap)
begin_fibonacci data_ =
    if leb data_.n 1
    then ok (
      MaroonStepResult.write ("fib" & to_string data_.n & "=" & to_string data_.n)
          MaroonTaskState.completed,
      MaroonTaskHeap.fibonacci data_,
    )
    else ok (
      MaroonStepResult.next (state MaroonTaskState.fibonacci_task_calculate ∷ []),
      MaroonTaskHeap.fibonacci (record data_ { index = 1; a = 0; b = 1 }),
    )

abbrev calculate_fibonacci : MaroonTaskHeapFibonacci → Outcome (MaroonStepResult × MaroonTaskHeap)
calculate_fibonacci data_ =
    if leb data_.n data_.index
    then ok (
      MaroonStepResult.next (state MaroonTaskState.fibonacci_task_result ∷ []),
      MaroonTaskHeap.fibonacci data_,
    )
    else ok (
      MaroonStepResult.write
          ("fib" & to_string data_.index & "[" & to_string data_.n & "]=" & to_string data_.b)
          MaroonTaskState.fibonacci_task_step,
      MaroonTaskHeap.fibonacci (record data_ { delay_ms = mul64 5 data_.index }),
    )

abbrev got_user : Option User → String
got_user (some u) = "got user: " & u.id & ":" & to_string u.age & ":" & u.email
got_user none = "Not found user"

abbrev recurse : ℕ → MaroonStepResult
recurse n =
    if ltb 1 n
    then MaroonStepResult.next (
        value (factorial_argument n)
        ∷ retrn MaroonTaskState.factorial_recursion_post_recursive_call
        ∷ value (factorial_argument (sub64 n 1))
        ∷ state MaroonTaskState.factorial_recursive_call
        ∷ [])
    else MaroonStepResult.return (factorial_return_value 1)

-- The top of the stack is the first variable. A state that finds other variables than its own panics,
-- and so does one that finds another heap.
unfoldable pub global_step :
    MaroonTaskState
    → List MaroonTaskStackEntryValue
    → MaroonTaskHeap
    → Outcome (MaroonStepResult × MaroonTaskHeap)
unfolding next_divisor mul64 add64 sub64
global_step MaroonTaskState.requester_get_user_request (requester_get_user_input u_id ∷ vars) heap =
    ok (MaroonStepResult.send_get_user_request_im u_id, heap)
global_step MaroonTaskState.requester_get_user_got (requester_got_user_response user ∷ vars) heap =
    ok (MaroonStepResult.write (got_user user) MaroonTaskState.completed, heap)
global_step MaroonTaskState.users_storage_get_user_request
      (user_storage_get_user_request_user_id u_id
        ∷ user_storage_get_user_request_ret_task id
        ∷ vars)
      heap =
    ok (MaroonStepResult.user_storage_send_response u_id id, heap)
global_step MaroonTaskState.sender_send_message (sender_input_message msg ∷ vars) heap =
    ok (MaroonStepResult.send ("[" & msg & "] went through state") MaroonTaskState.completed, heap)
global_step MaroonTaskState.waiter_wait_message_awaiting (awaiter_input_message msg ∷ vars) heap =
    ok (MaroonStepResult.write ("got: " & msg) MaroonTaskState.completed, heap)
global_step MaroonTaskState.delayed_message_task_begin (v ∷ delay_input_ms ms ∷ vars) heap =
    ok (MaroonStepResult.sleep ms MaroonTaskState.delayed_message_task_execute, heap)
global_step MaroonTaskState.delayed_message_task_execute
      (delay_input_message msg ∷ delay_input_ms ms ∷ vars) heap =
    ok (
      MaroonStepResult.write (msg & " after " & to_string ms & "ms") MaroonTaskState.completed,
      heap,
    )
global_step MaroonTaskState.divisors_task_begin vars (MaroonTaskHeap.divisors data_) = ok (
  MaroonStepResult.next (state MaroonTaskState.divisors_task_iteration ∷ []),
  MaroonTaskHeap.divisors (record data_ { i = data_.n }),
)
global_step MaroonTaskState.divisors_task_iteration vars (MaroonTaskHeap.divisors data_) =
    iterate_divisors data_
global_step MaroonTaskState.divisors_print_and_move_on vars (MaroonTaskHeap.divisors data_) = ok (
  MaroonStepResult.write (to_string data_.n & "%" & to_string data_.i & "==0")
      MaroonTaskState.divisors_task_iteration,
  MaroonTaskHeap.divisors (record data_ { i = sub64 data_.i 1 }),
)
global_step MaroonTaskState.fibonacci_task_begin vars (MaroonTaskHeap.fibonacci data_) =
    begin_fibonacci data_
global_step MaroonTaskState.fibonacci_task_calculate vars (MaroonTaskHeap.fibonacci data_) =
    calculate_fibonacci data_
global_step MaroonTaskState.fibonacci_task_step vars (MaroonTaskHeap.fibonacci data_) = ok (
  MaroonStepResult.sleep data_.delay_ms MaroonTaskState.fibonacci_task_calculate,
  MaroonTaskHeap.fibonacci
      (record data_ { index = add64 data_.index 1; a = data_.b; b = add64 data_.a data_.b }),
)
global_step MaroonTaskState.fibonacci_task_result vars (MaroonTaskHeap.fibonacci data_) = ok (
  MaroonStepResult.write ("fib" & to_string data_.n & "=" & to_string data_.b)
      MaroonTaskState.completed,
  MaroonTaskHeap.fibonacci data_,
)
global_step MaroonTaskState.factorial_entry (factorial_input n ∷ vars) heap = ok (
  MaroonStepResult.next (
      value (factorial_input n)
      ∷ retrn MaroonTaskState.factorial_done
      ∷ value (factorial_argument n)
      ∷ state MaroonTaskState.factorial_recursive_call
      ∷ []),
  heap,
)
global_step MaroonTaskState.factorial_recursive_call (factorial_argument n ∷ vars) heap = ok (
  MaroonStepResult.write ("f(" & to_string n & ")") MaroonTaskState.factorial_recursion_post_write,
  heap,
)
global_step MaroonTaskState.factorial_recursion_post_write (factorial_argument n ∷ vars) heap =
    ok (MaroonStepResult.sleep (mul64 n 50) MaroonTaskState.factorial_recursion_post_sleep, heap)
global_step MaroonTaskState.factorial_recursion_post_sleep (factorial_argument n ∷ vars) heap =
    ok (recurse n, heap)
global_step MaroonTaskState.factorial_recursion_post_recursive_call
      (factorial_return_value a ∷ factorial_argument n ∷ vars) heap =
    ok (MaroonStepResult.return (factorial_return_value (mul64 a n)), heap)
global_step MaroonTaskState.factorial_done (factorial_return_value r ∷ factorial_input n ∷ vars)
      heap =
    ok (MaroonStepResult.write (to_string n & "!=" & to_string r) MaroonTaskState.completed, heap)
global_step MaroonTaskState.completed vars heap = ok (MaroonStepResult.done, heap)
global_step _ vars heap = panic
