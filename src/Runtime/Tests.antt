-- ===== src/Runtime/Tests.antt =====
-- runtime/src/runtime.rs: a program that makes a queue, puts two messages in it, and waits for them.
use maroon.Prelude.{
  ℕ, zero, suc, ◌≡◌, refl, arith, List, [], ◌∷◌, ◌++◌, false, Option, none, some, Outcome, ok,
  panic, hang, length, Bool-cases, inl, inr, OnOk,
}
use maroon.Prelude.Maps.{Map, nat_eq, string_eq, get, insert, contains_key}
use maroon.Fiber.{
  StackEntry, state, value, SelectArm, SetPrimitiveValue, CreatePrimitiveValue, Creation,
  StepResult, RunResult, Fiber, run as run_fiber,
}
use maroon.WaitRegistry.{
  WaitRegistry, WaitKey, wait_key_beq, wait_key_eq, WaitNode, WaitList, ArmKind, SelectReg,
  or_default, register_select, default,
}
use maroon.WaitRegistry.Links.{IsQueue}
use maroon.WaitRegistry.Waiters.{ids_of}
use maroon.WaitRegistry.Serving.{waiters}
use maroon.WaitRegistry.Slab.{next_key, next_key_free}
use maroon.WaitRegistry.Order.{served}
use maroon.Runtime.{SuccessBindKind, Program, Runtime, ScheduledBlob, new, set_values}
use maroon.Runtime.Create.{create}
use maroon.Runtime.Loop.{start, rounds, serve_queue, apply_run_result}
use maroon.Runtime.Served.{IsServed}
use maroon.Runtime.Rounds.{rounds-IsServed}
use maroon.Runtime.Parked.{IsParked}
use maroon.Runtime.Turns.{MessageGiven, serve_queue-first}
use maroon.Runtime.Alive.{IsSettled}
use maroon.Runtime.Steps.{Turn, Turns, stay, go, Turns-IsSettled}
use maroon.Runtime.Messages.{queue_of, messages_to, set_values-appends}

abbrev R : Type 0
R = Runtime ℕ ℕ ℕ ℕ

abbrev creation : Creation ℕ (SuccessBindKind ℕ)
creation = record {
  primitives = CreatePrimitiveValue.queue "q" false ∷ [];
  success_next = 1;
  success_binds = [];
  success_kinds = [];
  fail_next = 0;
  fail_binds = [];
}

abbrev messages : List (SetPrimitiveValue ℕ)
messages = SetPrimitiveValue.queue_message "q" 5 ∷ SetPrimitiveValue.queue_message "q" 6 ∷ []

abbrev step : ℕ → List (StackEntry ℕ ℕ) → ℕ → StepResult ℕ ℕ (SuccessBindKind ℕ) × ℕ
step zero args heap = (StepResult.create creation, heap)
step (suc zero) args heap = (StepResult.set_values messages 2, heap)
step (suc (suc n)) args heap = (StepResult.select (SelectArm.queue "q" "x" 3 ∷ []), heap)

abbrev program : Program ℕ ℕ ℕ ℕ
program = record {
  func_args_count = λ st. 0;
  global_step = step;
  prepare_fn = λ key args. ok (value "x" 0 ∷ state 0 ∷ []);
  heap_init_fn = λ f_type vars. ok 0;
  unit = 0;
  string = λ s. 0;
  option_string = λ s. 0;
  wrap_future_id = λ kind id. 0;
  pub_to_private = λ v id. ok v;
}

abbrev clock : ℕ → ℕ
clock n = n

abbrev size : (A : Type 0) → Map ℕ A → ℕ
size A m = length m

abbrev take_first : List ScheduledBlob → Option (ScheduledBlob × List ScheduledBlob)
take_first [] = none
take_first (b ∷ bs) = some (b, bs)

abbrev or_new : Outcome R → R
or_new (ok rt) = rt
or_new panic = new []
or_new hang = new []

abbrev begun : R
begun = or_new (start program clock size take_first (new []) "root")

begins : start program clock size take_first (new []) "root" ≡ ok begun
unfolding start
begins = refl

abbrev after : R
after = or_new (rounds program clock size take_first 9 1 begun)

runs : rounds program clock size take_first 9 1 begun ≡ ok after
unfolding rounds start new maroon.Fiber.round maroon.Fiber.Stack.pop maroon.Fiber.step_state
    maroon.Fiber.apply_result maroon.WaitRegistry.register_arms maroon.WaitRegistry.list_push_back
    maroon.WaitRegistry.default maroon.WaitRegistry.wait_key_beq maroon.WaitRegistry.push_back
    maroon.WaitRegistry.unlink_arms maroon.Fiber.assign_last
runs = refl

-- One message is given to the fiber, the other is left.
leaves : (after.non_empty_queues ≡ "q" ∷ []) × (after.queue_messages ≡ ("q", 6 ∷ []) ∷ [])
unfolding rounds start new maroon.Fiber.round maroon.Fiber.Stack.pop maroon.Fiber.step_state
    maroon.Fiber.apply_result maroon.WaitRegistry.register_arms maroon.WaitRegistry.list_push_back
    maroon.WaitRegistry.default maroon.WaitRegistry.wait_key_beq maroon.WaitRegistry.push_back
    maroon.WaitRegistry.unlink_arms maroon.Fiber.assign_last
leaves = (refl, refl)

rounds-IsServed_example : IsServed after
rounds-IsServed_example =
    rounds-IsServed program clock size take_first 9 1 [] "root" begun after begins runs

abbrev parked : Fiber ℕ ℕ (SuccessBindKind ℕ) ℕ
parked = record {
  stack = value "x" 0 ∷ [];
  heap = 0;
  function_key = "root.main";
  f_type = "root";
  unique_id = 1;
  trace_sink = [];
}

abbrev registry : WaitRegistry ℕ
registry = (register_select size default 1 (SelectArm.queue "q" "x" 3 ∷ [])).0

abbrev waiting : R
waiting = record (new []) {
  queue_messages = ("q", 5 ∷ 6 ∷ []) ∷ [];
  non_empty_queues = "q" ∷ [];
  next_fiber_id = 2;
  wait_index = registry;
  awaiting_fibers = (1, parked) ∷ [];
}

waiting-IsServed : IsServed waiting
unfolding get
waiting-IsServed name = ground arith

abbrev parked_reg : SelectReg ℕ
parked_reg = record {
  fiber_id = 1;
  arms =
      record {
        key = WaitKey.queue "q";
        node_id = 0;
        kind = ArmKind.queue;
        resume = record { bind = some "x"; next = 3 };
      }
      ∷ [];
}

abbrev alone : WaitNode
alone = record { prev = none; next = none; reg_id = 0; fiber_id = 1 }

registry-queues :
    (key : WaitKey)
    → IsQueue
        (or_default (get registry.per_key key))
        registry.nodes
        (ids_of key (waiters ((0, parked_reg) ∷ [])))
unfolding register_select maroon.WaitRegistry.register_arms maroon.WaitRegistry.list_push_back
    maroon.WaitRegistry.push_back default get insert
registry-queues key = elim (Bool-cases (wait_key_beq (WaitKey.queue "q") key)) [
  | inl hit ↦ rw hit (refl, refl, ((alone, refl, refl, refl), tt), (tt, tt))
  | inr miss ↦ rw miss (refl, refl, tt, tt)
]

waiting-IsParked : IsParked waiting ((0, parked_reg) ∷ [])
unfolding register_select maroon.WaitRegistry.register_arms maroon.WaitRegistry.list_push_back
    maroon.WaitRegistry.push_back default get insert contains_key new
waiting-IsParked = (
  (λ id. refl, (refl, tt), (registry-queues, (tt, tt), ((alone, refl, refl, refl), tt))),
  (tt, tt),
  ((parked, refl, refl), tt),
  (omega arith, tt),
  (λ i out. ground (arith, out.0)),
)

serve_queue-first_example :
    MessageGiven program clock size take_first waiting "q" []
      (served (WaitKey.queue "q") ((0, parked_reg) ∷ [])).1
    × OnOk
        (λ r. IsParked r.0 (served (WaitKey.queue "q") ((0, parked_reg) ∷ [])).0)
        (serve_queue program clock size take_first waiting)
serve_queue-first_example =
    serve_queue-first program clock size take_first waiting ((0, parked_reg) ∷ []) "q" []
      waiting-IsServed waiting-IsParked refl

abbrev mixed : Creation ℕ (SuccessBindKind ℕ)
mixed = record creation {
  primitives =
      CreatePrimitiveValue.future
      ∷ CreatePrimitiveValue.queue "q" false
      ∷ CreatePrimitiveValue.schedule 5
      ∷ CreatePrimitiveValue.future
      ∷ [];
}

abbrev made : R
made = or_new (create program clock (new []) parked mixed)

makes_next_id : made.next_created_future_id ≡ 3
unfolding create new get maroon.RangeKey.add64
makes_next_id = refl

abbrev filled : R
filled = or_new (set_values waiting messages)

fills : set_values waiting messages ≡ ok filled
unfolding set_values
fills = refl

set_values-appends_example :
    queue_of filled.queue_messages "q"
    ≡ queue_of waiting.queue_messages "q" ++ messages_to "q" messages
set_values-appends_example = set_values-appends waiting filled messages "q" fills

abbrev Ran : Type 0
Ran = Fiber ℕ ℕ (SuccessBindKind ℕ) ℕ × RunResult ℕ ℕ (SuccessBindKind ℕ)

abbrev head_of : List (Fiber ℕ ℕ (SuccessBindKind ℕ) ℕ) → Fiber ℕ ℕ (SuccessBindKind ℕ) ℕ
head_of [] = parked
head_of (f ∷ fs) = f

abbrev tail_of : List (Fiber ℕ ℕ (SuccessBindKind ℕ) ℕ) → List (Fiber ℕ ℕ (SuccessBindKind ℕ) ℕ)
tail_of [] = []
tail_of (f ∷ fs) = fs

abbrev or_parked : Outcome Ran → Ran
or_parked (ok r) = r
or_parked panic = (parked, RunResult.done)
or_parked hang = (parked, RunResult.done)

abbrev ran_of : R → Ran
ran_of rt =
    or_parked (run_fiber program.func_args_count program.global_step 9 (head_of rt.active_fibers))

abbrev next_of : R → R
next_of rt = or_new (
    apply_run_result program clock next_key take_first
      (record rt { active_fibers = tail_of rt.active_fibers }) (ran_of rt).0 (ran_of rt).1)

-- The root makes a queue, puts two messages in it, and waits.
abbrev created : R
created = next_of begun

abbrev sent : R
sent = next_of created

abbrev selected : R
selected = next_of sent

three-Turns : Turns program clock next_key take_first begun selected
unfolding start new run_fiber apply_run_result maroon.Fiber.round maroon.Fiber.Stack.pop
    maroon.Fiber.step_state maroon.Fiber.apply_result
three-Turns =
    go
      (go
        (go stay (
          Turn.runs 9 (head_of begun.active_fibers) (ran_of begun).0 (tail_of begun.active_fibers)
            (ran_of begun).1 refl refl tt refl))
        (Turn.runs 9 (head_of created.active_fibers) (ran_of created).0
          (tail_of created.active_fibers) (ran_of created).1 refl refl tt refl))
      (Turn.runs 9 (head_of sent.active_fibers) (ran_of sent).0 (tail_of sent.active_fibers)
        (ran_of sent).1 refl refl tt refl)

begins_free : start program clock next_key take_first (new []) "root" ≡ ok begun
unfolding start
begins_free = refl

Turns-IsSettled_example : IsServed selected × IsSettled program clock next_key take_first selected
Turns-IsSettled_example =
    Turns-IsSettled program clock next_key take_first next_key_free [] "root" begun selected
      begins_free three-Turns
