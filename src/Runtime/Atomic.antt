-- ===== src/Runtime/Atomic.antt =====
-- runtime/src/runtime.rs, `Runtime::run`: `RunResult::Create` makes all of its primitives or none.
use maroon.Prelude.{◌++◌, if◌then◌else◌, ℕ, suc, ◌≡◌, List, [], ◌∷◌, false, ◌||◌, some, String, ok}
use maroon.Prelude.Maps.{Map, nat_eq, string_eq, get, contains_key}
use maroon.Prelude.Decimal.{to_string}
use maroon.RangeKey.{add64}
use maroon.Fiber.{CreatePrimitiveValue, Creation, Fiber, push_next}
use maroon.Runtime.{SuccessBindKind, Program, Runtime, ScheduledBlob}
use maroon.Runtime.Create.{contains, errors_of, bind_errors, bind_ids}

abbrev pub queue_names : List CreatePrimitiveValue → List String
queue_names [] = []
queue_names (CreatePrimitiveValue.queue name public ∷ ps) = name ∷ queue_names ps
queue_names (CreatePrimitiveValue.future ∷ ps) = queue_names ps
queue_names (CreatePrimitiveValue.schedule ms ∷ ps) = queue_names ps

-- No name is in use, nor comes before itself.
abbrev pub AreFresh {ℓ} : {M : Type ℓ} → Map String M → (before names : List String) → Type 0
AreFresh queues before [] = Unit
AreFresh queues before (name ∷ names) =
    ((contains_key queues name || contains before name) ≡ false)
    × AreFresh queues (name ∷ before) names

-- The ids that a creation gives, in the order of its primitives: a queue has its name, and a future or a
-- schedule the next number.
abbrev pub ids_made : ℕ → List CreatePrimitiveValue → List String
ids_made id [] = []
ids_made id (CreatePrimitiveValue.queue name public ∷ ps) = name ∷ ids_made id ps
ids_made id (CreatePrimitiveValue.future ∷ ps) = to_string id ∷ ids_made (add64 id 1) ps
ids_made id (CreatePrimitiveValue.schedule ms ∷ ps) = to_string id ∷ ids_made (add64 id 1) ps

-- The next number after them.
abbrev pub next_id : ℕ → List CreatePrimitiveValue → ℕ
next_id id [] = id
next_id id (CreatePrimitiveValue.queue name public ∷ ps) = next_id id ps
next_id id (CreatePrimitiveValue.future ∷ ps) = next_id (add64 id 1) ps
next_id id (CreatePrimitiveValue.schedule ms ∷ ps) = next_id (add64 id 1) ps

-- The blobs of its schedules: each is due that long after its own reading of the clock, and has its id.
abbrev pub blobs_made :
    (timer : ℕ → ℕ) → (reading id : ℕ) → List CreatePrimitiveValue → List ScheduledBlob
blobs_made timer reading id [] = []
blobs_made timer reading id (CreatePrimitiveValue.queue name public ∷ ps) =
    blobs_made timer reading id ps
blobs_made timer reading id (CreatePrimitiveValue.future ∷ ps) =
    blobs_made timer reading (add64 id 1) ps
blobs_made timer reading id (CreatePrimitiveValue.schedule ms ∷ ps) =
    record { when = add64 (timer reading) ms; what = to_string id }
    ∷ blobs_made timer (suc reading) (add64 id 1) ps

module _ {St V F H : Type 0} (timer : ℕ → ℕ) where
  -- `rt'` has what the primitives leave of the queues, the schedules and the next number.
  abbrev pub HasPrimitives :
      Runtime St V F H → Runtime St V F H → List CreatePrimitiveValue → Type 0
  HasPrimitives rt rt' ps =
      ((q : String)
        → get rt'.queue_messages q
          ≡ (if contains (queue_names ps) q then some [] else get rt.queue_messages q))
      × (rt'.scheduled ≡ rt.scheduled ++ blobs_made timer rt.readings rt.next_created_future_id ps)
      × (rt'.next_created_future_id ≡ next_id rt.next_created_future_id ps)

module _ {St V F H : Type 0} (program : Program St V F H) (timer : ℕ → ℕ) where
  -- What a creation is to leave: all of its primitives, with their ids in the variables of its success, or
  -- nothing new, with the errors in the variables of its failure. The fiber goes on in either case.
  abbrev pub MadeAll :
      Runtime St V F H
      → Runtime St V F H
      → Fiber St V (SuccessBindKind F) H
      → Creation St (SuccessBindKind F)
      → Type 0
  MadeAll rt rt' fiber c =
      AreFresh rt.queue_messages [] (queue_names c.primitives)
      × HasPrimitives timer rt rt' c.primitives
      × ((bound : Fiber St V (SuccessBindKind F) H) × (bind_ids program fiber c.success_binds
              (ids_made rt.next_created_future_id c.primitives) c.success_kinds
            ≡ ok bound)
          × (rt'.active_fibers ≡ push_next bound c.success_next ∷ rt.active_fibers))

  abbrev pub MadeNone :
      Runtime St V F H
      → Runtime St V F H
      → Fiber St V (SuccessBindKind F) H
      → Creation St (SuccessBindKind F)
      → Type 0
  MadeNone rt rt' fiber c =
      (¬ AreFresh rt.queue_messages [] (queue_names c.primitives))
      × ((bound : Fiber St V (SuccessBindKind F) H) × (bind_errors program fiber c.fail_binds
              (errors_of rt.queue_messages [] c.primitives)
            ≡ ok bound)
          × (rt' ≡ record rt { active_fibers = push_next bound c.fail_next ∷ rt.active_fibers }))
