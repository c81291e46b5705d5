-- ===== src/Runtime/Create.antt =====
-- runtime/src/runtime.rs, `Runtime::run`: the arm of `RunResult::Create`.
use maroon.Prelude.{
  ℕ, suc, List, [], ◌∷◌, ◌++◌, Bool, true, false, ◌||◌, Option, none, some, String, Outcome, ok,
  panic, ◌>>=◌, if◌then◌else◌,
}
use maroon.Prelude.Maps.{Map, nat_eq, string_eq, insert, contains_key}
use maroon.Prelude.Decimal.{to_string}
use maroon.RangeKey.{add64}
use maroon.Fiber.{CreatePrimitiveValue, Creation, Fiber, assign_local, push_next}
use maroon.Runtime.{SuccessBindKind, Program, Runtime}

abbrev pub contains : List String → String → Bool
contains [] name = false
contains (n ∷ names) name = string_eq.beq n name || contains names name

abbrev pub already_exists : Option String
already_exists = some "already_exists"

-- The first pass: the error of each primitive. A name counts as taken from its first use on.
unfoldable pub errors_of {ℓ} :
    {M : Type ℓ}
    → Map String M
    → (candidates : List String) → List CreatePrimitiveValue
    → List (Option String)
unfolding contains_key
errors_of queues candidates [] = []
errors_of queues candidates (CreatePrimitiveValue.queue name public ∷ ps) =
    let taken = contains_key queues name || contains candidates name in
    (if taken then already_exists else none)
    ∷ errors_of queues (if taken then candidates else name ∷ candidates) ps
errors_of queues candidates (CreatePrimitiveValue.future ∷ ps) =
    none ∷ errors_of queues candidates ps
errors_of queues candidates (CreatePrimitiveValue.schedule ms ∷ ps) =
    none ∷ errors_of queues candidates ps

abbrev pub has_error : List (Option String) → Bool
has_error [] = false
has_error (none ∷ errors) = has_error errors
has_error (some e ∷ errors) = true

module _ {St V F H : Type 0} (program : Program St V F H) where
  -- A variable without an error of its own gets `none`.
  unfoldable pub bind_errors :
      Fiber St V (SuccessBindKind F) H
      → (binds : List String) → List (Option String)
      → Outcome (Fiber St V (SuccessBindKind F) H)
  unfolding assign_local
  bind_errors f [] errors = ok f
  bind_errors f (b ∷ bs) [] = do
    bound ← assign_local f b (program.option_string none)
    bind_errors bound bs []
  bind_errors f (b ∷ bs) (error ∷ errors) = do
    bound ← assign_local f b (program.option_string error)
    bind_errors bound bs errors

  abbrev pub id_value : List (SuccessBindKind F) → String → V
  id_value [] id = program.string id
  id_value (SuccessBindKind.string ∷ kinds) id = program.string id
  id_value (SuccessBindKind.future kind ∷ kinds) id = program.wrap_future_id kind id

  abbrev pub rest_of {ℓ} : {A : Type ℓ} → List A → List A
  rest_of [] = []
  rest_of (x ∷ xs) = xs

  unfoldable pub bind_ids :
      Fiber St V (SuccessBindKind F) H
      → (binds ids : List String) → List (SuccessBindKind F)
      → Outcome (Fiber St V (SuccessBindKind F) H)
  unfolding assign_local
  bind_ids f [] ids kinds = ok f
  bind_ids f (b ∷ bs) [] kinds = panic
  bind_ids f (b ∷ bs) (id ∷ ids) kinds = do
    bound ← assign_local f b (id_value kinds id)
    bind_ids bound bs ids (rest_of kinds)

module _ {St V F H : Type 0} (timer : ℕ → ℕ) where
  -- The second pass: each primitive is made, and has an id.
  unfoldable pub create_primitive :
      Runtime St V F H → CreatePrimitiveValue → Runtime St V F H × String
  unfolding insert add64
  create_primitive rt (CreatePrimitiveValue.queue name public) =
      (record rt { queue_messages = insert rt.queue_messages name [] }, name)
  create_primitive rt CreatePrimitiveValue.future = (
    record rt { next_created_future_id = add64 rt.next_created_future_id 1 },
    to_string rt.next_created_future_id,
  )
  create_primitive rt (CreatePrimitiveValue.schedule ms) = (
    record rt {
      next_created_future_id = add64 rt.next_created_future_id 1;
      readings = suc rt.readings;
      scheduled =
          rt.scheduled
          ++ record {
            when = add64 (timer rt.readings) ms;
            what = to_string rt.next_created_future_id;
          }
            ∷ [];
    },
    to_string rt.next_created_future_id,
  )

  unfoldable pub create_primitives :
      Runtime St V F H → List CreatePrimitiveValue → Runtime St V F H × List String
  unfolding create_primitive
  create_primitives rt [] = (rt, [])
  create_primitives rt (p ∷ ps) =
      let (made, id) = create_primitive rt p in
      let (last, ids) = create_primitives made ps in (last, id ∷ ids)

module _ {St V F H : Type 0} (program : Program St V F H) (timer : ℕ → ℕ) where
  abbrev pub push_front : Runtime St V F H → Fiber St V (SuccessBindKind F) H → Runtime St V F H
  push_front rt fiber = record rt { active_fibers = fiber ∷ rt.active_fibers }

  abbrev pub fail_create :
      Runtime St V F H
      → Fiber St V (SuccessBindKind F) H
      → Creation St (SuccessBindKind F)
      → List (Option String)
      → Outcome (Runtime St V F H)
  fail_create rt fiber c errors = do
    bound ← bind_errors program fiber c.fail_binds errors
    ok (push_front rt (push_next bound c.fail_next))

  abbrev pub succeed_create :
      Runtime St V F H
      → Fiber St V (SuccessBindKind F) H
      → Creation St (SuccessBindKind F)
      → Outcome (Runtime St V F H)
  succeed_create rt fiber c =
      let (made, ids) = create_primitives timer rt c.primitives in
      (do
        bound ← bind_ids program fiber c.success_binds ids c.success_kinds
        ok (push_front made (push_next bound c.success_next)))

  unfoldable pub create :
      Runtime St V F H
      → Fiber St V (SuccessBindKind F) H
      → Creation St (SuccessBindKind F)
      → Outcome (Runtime St V F H)
  unfolding errors_of bind_errors bind_ids create_primitives push_next
  create rt fiber c =
      let errors = errors_of rt.queue_messages [] c.primitives in
      if has_error errors then fail_create rt fiber c errors else succeed_create rt fiber c
