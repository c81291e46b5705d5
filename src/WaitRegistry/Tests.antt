-- ===== src/WaitRegistry/Tests.antt =====
-- Witnesses and a run for runtime/src/wait_registry.rs: states are numbers, and a new entry of a slab is
-- put at the number after the greatest.
use maroon.Prelude.{ℕ, ◌≡◌, refl, List, [], ◌∷◌, Option, none, some, Outcome, ok}
use maroon.Prelude.Maps.{Map, nat_eq, get, insert, remove}
use maroon.Fiber.{SelectArm}
use maroon.WaitRegistry.{
  WaitRegistry, WakeOutcome, WaitKey, SelectReg, wait_key_beq, wait_key_eq, push_back,
  list_push_back, list_unlink, unlink_arms, wake_one, register_arms, register_select,
  cancel_by_registered_select_id, default,
}
use maroon.WaitRegistry.Slab.{next_key, next_key_free}
use maroon.WaitRegistry.Serving.{IsServing}
use maroon.WaitRegistry.Lives.{
  Call, register, wake, cancel, Answer, registered, woken, cancelled, call, calls, ServesAll,
  calls-ServesAll,
}

abbrev arm : ℕ → SelectArm ℕ
arm next = SelectArm.queue "q" "x" next

abbrev both : WaitRegistry ℕ
both =
    (register_select next_key (register_select next_key default 1 (arm 10 ∷ [])).0 2
      (arm 20 ∷ [])).0

abbrev outcome_of : Outcome (WaitRegistry ℕ × Option (WakeOutcome ℕ)) → Option (WakeOutcome ℕ)
outcome_of (ok (r, outcome)) = outcome
outcome_of Outcome.panic = none
outcome_of Outcome.hang = none

first_come :
    outcome_of (wake_one both (WaitKey.queue "q"))
    ≡ some (record { fiber_id = 1; bind = some "x"; next = 10 })
unfolding wake_one register_select register_arms list_push_back push_back list_unlink unlink_arms
    default get insert remove wait_key_beq
first_come = refl

abbrev some_calls : List (Call ℕ)
some_calls =
    register 1 (arm 10 ∷ arm 11 ∷ [])
    ∷ register 2 (arm 20 ∷ [])
    ∷ wake (WaitKey.queue "q")
    ∷ cancel 1
    ∷ wake (WaitKey.queue "q")
    ∷ []

calls-ServesAll_example :
    (last : WaitRegistry ℕ) × (answers : List (Answer ℕ)) × (hs : Map ℕ (SelectReg ℕ)) × (calls
        next_key default some_calls
      ≡ ok (last, answers))
    × ServesAll [] some_calls answers hs
    × IsServing last hs
calls-ServesAll_example = calls-ServesAll next_key next_key_free some_calls

abbrev answers_of : Outcome (WaitRegistry ℕ × List (Answer ℕ)) → List (Answer ℕ)
answers_of (ok (r, answers)) = answers
answers_of Outcome.panic = []
answers_of Outcome.hang = []

-- The second arm of a fiber that was woken waits no more, and a cancelled select is not served.
answers_run :
    answers_of (calls next_key default some_calls)
    ≡ registered 0
      ∷ registered 1
      ∷ woken (some (record { fiber_id = 1; bind = some "x"; next = 10 }))
      ∷ cancelled 1
      ∷ woken none
      ∷ []
unfolding calls call wake_one cancel_by_registered_select_id register_select register_arms
    list_push_back push_back list_unlink unlink_arms default get insert remove wait_key_beq
answers_run = refl
