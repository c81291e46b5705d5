-- ===== src/Lib.antt =====
-- Maroon: nodes that agree on one log of transactions, and run it.
--
-- A gateway gives every transaction an id from a key range that it owns. The nodes gossip how far they
-- have each range, fetch what they miss from one another, and propose epochs: sets of intervals of ids
-- that enough nodes hold. The epochs form a chain in etcd; every node turns the chain into one log,
-- and the runtime executes it. The parts, with the file that models each and the code it follows:
--
--   RangeKey   types/src/range_key.rs: ids, ranges, offsets, and closed intervals of ids.
--   Epoch      epoch_coordinator/src/epoch.rs (`Epoch::next`) and maroon/src/linearizer.rs (`new_epoch`).
--   Coordinator  epoch_coordinator/src/etcd.rs: the commit of an epoch (`handle_commit_new_epoch`), with the
--              transaction that it builds (`commit_txn`) as data; etcd, which runs transactions, is a
--              parameter with what it promises of any of them (`IsTxn`).
--   Decision   maroon/src/epoch_decision_engine.rs: when a node proposes the next epoch.
--   Protocol   protocol/src/transaction.rs, maroon/src/network/interface.rs: the data of the messages.
--   App        maroon/src/app/app.rs: a node's state (`App`), the handlers of `loop_until_shutdown` as
--              one function each, and the loop's round as `step`; App/Offsets has the functions below
--              the `impl`, App/Transactions the loops over the stored transactions.
--   Gateway    gateway/src/core.rs: the numbering of requests (`send_request`), what goes to the nodes
--              (`handle_send_new_request`) and back to the waiting sockets (`handle_inbox`).
--   Fiber      runtime/src/fiber.rs and the data of generated/src/maroon_assembler.rs: the loop that runs
--              a fiber, its round as `round`; Fiber/Stack has what it uses of a vector.
--   Runtime    runtime/src/runtime.rs: the state of the runtime (`Runtime`) and the arms of `RunResult`;
--              Runtime/Create is the arm `Create`, Runtime/Loop the main loop of `run`, a round of it as
--              `main_round`. Runtime/Steps has the parts of a round as steps that may come in any order.
--   WaitRegistry  runtime/src/wait_registry.rs: which fibers wait for which queues and futures; a slab of
--              the crate slab is a map, and the key that its `insert` picks (`vacant`) is a parameter.
--              WaitRegistry/Order and WaitRegistry/Lives have what it promises: a list of registrations.
--   Engine     state/src/maroon.rs: the in-memory engine (`MaroonRuntime`); Engine/Steps is
--              `global_step`, and Engine/Loop is `execute_pending_operations_inner`. Engine/Turns has
--              the steps of a task that concern it alone, apart from the engine.
--   Dsl        dsl/src/ir.rs: the intermediate representation of a program (`IR`), and its check.
--              Dsl/Infer has the types of expressions, Dsl/Checks, Dsl/Calls and Dsl/Primitives the arms of
--              `uses_correct_variables`, Dsl/Valid the rest of it and `is_valid`; Dsl/Typing has typing rules for
--              the steps, over the types that the code infers.
--   Codegen    dsl/src/codegen.rs: from a program to the text of the module that runs it. Codegen/Names and
--              Codegen/Types have the names and types, Codegen/Exprs the expressions, Codegen/States which
--              steps get a state, Codegen/Slots the places in a frame; Codegen/Emit makes of a step a value
--              (`StepCode`, in Codegen/Code) whose text is in Codegen/Text, and Codegen/Arms puts the arms
--              of `global_step` together. Codegen/Decls, Wrappers, Values, Messages, Heaps and Prepare are the
--              other parts of `generate_rust_types`, which is in Codegen/Generate. Codegen/Futures and
--              Codegen/Held say which futures and types a program has, apart from the generator.
--              Codegen/Sample is the program of runtime/src/ir_spec.rs; for it the text of the model is
--              that of generated/src/maroon_assembler.rs, but for the layout.
--   Prelude    the tests, lists, maps, sorting and outcomes that the parts share.
--
-- A record stands for a struct, a data type for an enum. A map is an association list; where the code
-- iterates over a hash map, the model takes the order of the list. The fiber's step and the numbers of
-- arguments, which are generated from a program, are parameters (for the runtime, the record
-- `Program`), as is the type of its states. Numbers are natural numbers, and where the code computes
-- on u64 the wrap-around is written out (`add64`, `sub64`), as the released build has it. A function
-- that may panic, or whose loop may not end, gives an `Outcome`: `ok`, `panic` or `hang`. Loops over a
-- counter take fuel: one round more than there are ids between the counter and its end
-- (`requested_txs`, `missing_runs`, `iter_from`), or than there are stored transactions
-- (`last_contiguous`); the theorems on each show that this is enough where the loop ends. A fiber may
-- run for ever, so its `run` takes any number of rounds, and so do the loops of the runtime over
-- fibers that are active (`run_active`) and tasks that arrive (`read_tasks`), and the engine's loop
-- over pending operations: the theorems hold for each. The collection of the futures of declared types
-- (`collect_future_wrappers`) takes as fuel how deep the types refer to each other.
--
-- A handler gives the next state and the list of what it sends. The timer's reading, what a binary
-- heap gives next, the order and the byte strings of libp2p's `PeerId`, and the digest of the crate
-- sha2 are parameters. Equality of peers is the interface `Eq`. A round of a node's loop takes one
-- reading of the clock, which serves both of its timers, and what a runtime will receive from its
-- channel is a list that is there from the start.
--
-- Not modelled: the network, the watch on etcd, redis, logging and metrics, shutdown; the parser of
-- the DSL, which walks what the crate pest makes of the grammar; generated code.
pub mod Prelude
pub mod RangeKey
pub mod Epoch
pub mod Decision
pub mod Protocol
pub mod App
pub mod Gateway
pub mod Fiber
pub mod Runtime
pub mod Engine
pub mod WaitRegistry
pub mod Coordinator
pub mod Dsl
pub mod Codegen
