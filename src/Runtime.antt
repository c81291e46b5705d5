-- ===== src/Runtime.antt =====
-- runtime/src/runtime.rs: the state of the runtime, and what it does with the result of a fiber's run.
-- What is generated from the program is the record `Program`; `vacant` picks the keys of the crate
-- slab, `pop_first` takes the blob of the binary heap that is due first, and `timer` gives the readings
-- of the clock, one after the other. The debug text is left out.
pub mod Create
pub mod Loop
pub mod Queues
pub mod Served
pub mod Parked
mod Turns
mod Same
mod Bound
mod Alive
mod Steps
pub mod Rounds
mod Atomic
mod Messages
mod Tests
use maroon.Prelude.{
  ℕ, zero, suc, ◌+◌, ◌/◌, ◌%◌, List, [], ◌∷◌, ◌++◌, Bool, true, false, Option, none, some, String,
  Outcome, ok, panic, hang, ◌>>=◌, expect, ltb, leb, if◌then◌else◌, get_elem?,
}
use Prim.Native.String.{◌++◌ as text_append}
use maroon.Prelude.Maps.{Map, Eq, nat_eq, string_eq, get, insert, remove}
use maroon.Prelude.Decimal.{to_string}
use maroon.RangeKey.{UniqueU64BlobId, add64}
use maroon.App.Transactions.{RuntimeTask}
use maroon.Fiber.{StackEntry, SetPrimitiveValue, StepResult, Fiber}
use maroon.WaitRegistry.{WaitRegistry, default}

pub record ScheduledBlob : Type 0 where
  pub when : ℕ
  pub what : String

abbrev pub Input : Type 0 → Type 0
Input V = ℕ × List (RuntimeTask V)

pub data SuccessBindKind (F : Type 0) : Type 0 where
  string : SuccessBindKind F
  future : F → SuccessBindKind F

-- The generated code; `F` is its `FutureKind`.
pub record Program (St V F H : Type 0) : Type 0 where
  pub func_args_count : St → ℕ
  pub global_step : St → List (StackEntry St V) → H → StepResult St V (SuccessBindKind F) × H
  pub prepare_fn : String → List V → Outcome (List (StackEntry St V))
  pub heap_init_fn : String → List V → Outcome H
  pub unit : V
  pub string : String → V
  pub option_string : Option String → V
  pub wrap_future_id : F → String → V
  pub pub_to_private : V → String → Outcome V

-- `interface` is two fields: what it has still to receive, and what it was given to send.
pub record Runtime (St V F H : Type 0) : Type 0 where
  pub received : List (Input V)
  pub sent : List (UniqueU64BlobId × V)
  pub active_tasks : List (Input V)
  pub active_fibers : List (Fiber St V (SuccessBindKind F) H)
  pub scheduled : List ScheduledBlob
  pub readings : ℕ
  pub next_fiber_id : ℕ
  pub next_created_future_id : ℕ
  pub public_futures : Map String UniqueU64BlobId
  pub queue_messages : Map String (List V)
  pub non_empty_queues : List String
  pub resolved_futures : List (String × V)
  pub wait_index : WaitRegistry St
  pub awaiting_fibers : Map ℕ (Fiber St V (SuccessBindKind F) H)

abbrev pub is_empty {ℓ} : {A : Type ℓ} → List A → Bool
is_empty [] = true
is_empty (x ∷ xs) = false

module _ {St V F H : Type 0} where
  -- `Runtime::new`
  unfoldable pub new : List (Input V) → Runtime St V F H
  new received = record {
    received = received;
    sent = [];
    active_tasks = [];
    active_fibers = [];
    scheduled = [];
    readings = 0;
    next_fiber_id = 0;
    next_created_future_id = 0;
    public_futures = [];
    queue_messages = [];
    non_empty_queues = [];
    resolved_futures = [];
    wait_index = default;
    awaiting_fibers = [];
  }

  -- A message for a queue that is there; the queue's name is noted if it was empty.
  unfoldable pub push_message : Runtime St V F H → String → List V → V → Runtime St V F H
  unfolding insert
  push_message rt q_name queue message = record rt {
    queue_messages = insert rt.queue_messages q_name (queue ++ message ∷ []);
    non_empty_queues =
        if is_empty queue then rt.non_empty_queues ++ q_name ∷ [] else rt.non_empty_queues;
  }

  -- The arms of `RunResult::SetValues`.
  unfoldable pub set_value : Runtime St V F H → SetPrimitiveValue V → Outcome (Runtime St V F H)
  unfolding push_message get remove
  set_value rt (SetPrimitiveValue.queue_message q_name value) =
      elim (get rt.queue_messages q_name) [
        | none ↦ panic
        | some queue ↦ ok (push_message rt q_name queue value)
      ]
  set_value rt (SetPrimitiveValue.future id value) = elim (get rt.public_futures id) [
    | none ↦ ok (record rt { resolved_futures = rt.resolved_futures ++ (id, value) ∷ [] })
    | some u_id ↦ ok (record rt {
      public_futures = remove rt.public_futures id;
      sent = rt.sent ++ (u_id, value) ∷ [];
    })
  ]

  unfoldable pub set_values :
      Runtime St V F H → List (SetPrimitiveValue V) → Outcome (Runtime St V F H)
  unfolding set_value
  set_values rt [] = ok rt
  set_values rt (v ∷ vs) = do set ← set_value rt v; set_values set vs

module _ {St V F H : Type 0} (program : Program St V F H) where
  -- `Fiber::new`
  unfoldable pub new_fiber : String → ℕ → List V → Outcome (Fiber St V (SuccessBindKind F) H)
  new_fiber f_type unique_id init_vars = do
    let f_name = text_append f_type ".main"
    heap ← program.heap_init_fn f_type init_vars
    stack ← program.prepare_fn f_name []
    ok (record {
      f_type = f_type;
      unique_id = unique_id;
      stack = stack;
      heap = heap;
      function_key = f_name;
      trace_sink = [];
    })

  -- `RunResult::CreateFibers`: the new fibers come last.
  unfoldable pub create_fibers :
      Runtime St V F H → List (String × List V) → Outcome (Runtime St V F H)
  unfolding new_fiber add64
  create_fibers rt [] = ok rt
  create_fibers rt ((f_type, init_vars) ∷ details) = do
    nf ← new_fiber f_type rt.next_fiber_id init_vars
    create_fibers
        (record rt {
          next_fiber_id = add64 rt.next_fiber_id 1;
          active_fibers = rt.active_fibers ++ nf ∷ [];
        })
        details
