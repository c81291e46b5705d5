-- ===== src/WaitRegistry/Lives.antt =====
-- runtime/src/wait_registry.rs: the registry over its life, against a list of registrations.
use maroon.Prelude.{ℕ, ◌≡◌, refl, List, [], ◌∷◌, ◌++◌, Option, none, Outcome, ok, ◌>>=◌}
use maroon.Prelude.Maps.{Map, nat_eq, get, remove}
use maroon.Fiber.{SelectArm}
use maroon.WaitRegistry.{
  WaitKey, SelectReg, WakeOutcome, WaitRegistry, default, wake_one, register_select,
  cancel_by_registered_select_id,
}
use maroon.WaitRegistry.Serving.{IsServing}
use maroon.WaitRegistry.Order.{served}
use maroon.WaitRegistry.Served.{wake_one-served}
use maroon.WaitRegistry.Cancelled.{arms_count, cancel-IsServing}
use maroon.WaitRegistry.Registered.{AreArms, register_select-IsServing}

-- The calls of the registry, and what they give back.
pub data Call (St : Type 0) : Type 0 where
  register : ℕ → List (SelectArm St) → Call St
  wake : WaitKey → Call St
  cancel : ℕ → Call St

pub data Answer (St : Type 0) : Type 0 where
  registered : ℕ → Answer St
  woken : Option (WakeOutcome St) → Answer St
  cancelled : ℕ → Answer St

module _ {St : Type 0} (vacant : (A : Type 0) → Map ℕ A → ℕ) where
  unfoldable pub call : WaitRegistry St → Call St → Outcome (WaitRegistry St × Answer St)
  call r (register fiber_id arms) =
      let (next, id) = register_select vacant r fiber_id arms in ok (next, registered id)
  call r (wake key) = do (next, out) ← wake_one r key; ok (next, woken out)
  call r (cancel id) =
      let (next, count) = cancel_by_registered_select_id r id in ok (next, cancelled count)

  unfoldable pub calls :
      WaitRegistry St → List (Call St) → Outcome (WaitRegistry St × List (Answer St))
  calls r [] = ok (r, [])
  calls r (c ∷ cs) = do
    (next, answer) ← call r c
    (last, answers) ← calls next cs
    ok (last, answer ∷ answers)

module _ {St : Type 0} where
  -- The registry as a list of registrations: a new one goes behind the others, under an id of its own;
  -- to wake serves the first that waits for the key; to cancel takes one away.
  pub data Serves (gs : Map ℕ (SelectReg St))
      : Call St → Answer St → Map ℕ (SelectReg St) → Type 0 where
    registers :
        {fiber_id : ℕ} {arms : List (SelectArm St)} (id : ℕ) (reg : SelectReg St)
        → reg.fiber_id ≡ fiber_id
        → AreArms arms reg.arms
        → get gs id ≡ none
        → Serves gs (register fiber_id arms) (registered id) (gs ++ (id, reg) ∷ [])
    wakes : (key : WaitKey) → Serves gs (wake key) (woken (served key gs).1) (served key gs).0
    cancels : (id : ℕ) → Serves gs (cancel id) (cancelled (arms_count (get gs id))) (remove gs id)

  pub data ServesAll
      : Map ℕ (SelectReg St)
        → List (Call St)
        → List (Answer St)
        → Map ℕ (SelectReg St)
        → Type 0 where
    done : {gs : Map ℕ (SelectReg St)} → ServesAll gs [] [] gs
    more :
        {gs hs is : Map ℕ (SelectReg St)} {c : Call St} {a : Answer St} {cs : List (Call St)}
        {as' : List (Answer St)}
        → Serves gs c a hs
        → ServesAll hs cs as' is
        → ServesAll gs (c ∷ cs) (a ∷ as') is

  pub default-IsServing : IsServing {St = St} default []
  unfolding default get
  default-IsServing = (λ id. refl, tt, (λ key. (refl, refl, tt, tt), tt, tt))

module _ {St : Type 0} (vacant : (A : Type 0) → Map ℕ A → ℕ)
    (free : (A : Type 0) (m : Map ℕ A) → get m (vacant A m) ≡ none) where
  pub call-Serves :
      (r : WaitRegistry St) (gs : Map ℕ (SelectReg St)) (c : Call St)
      → IsServing r gs
      → (next : WaitRegistry St) × (answer : Answer St) × (hs : Map ℕ (SelectReg St)) × (call vacant
            r c
          ≡ ok (next, answer))
        × Serves gs c answer hs
        × IsServing next hs
  unfolding call
  call-Serves r gs (register fiber_id arms) h =
      let (reg, same, are, away, serving) =
        register_select-IsServing vacant free r gs fiber_id arms h in
      let (next, id) = register_select vacant r fiber_id arms in
      (next, registered id, gs ++ (id, reg) ∷ [], refl, registers id reg same are away, serving)
  call-Serves r gs (wake key) h =
      let (next, eq, serving) = wake_one-served r gs key h in
      (next, woken (served key gs).1, (served key gs).0, rw eq refl, wakes key, serving)
  call-Serves r gs (cancel id) h =
      let (serving, count) = cancel-IsServing r gs id h in
      (
        (cancel_by_registered_select_id r id).0,
        cancelled (arms_count (get gs id)),
        remove gs id,
        rw count refl,
        cancels id,
        serving,
      )

  calls-IsServing :
      (r : WaitRegistry St) (gs : Map ℕ (SelectReg St)) (cs : List (Call St))
      → IsServing r gs
      → (last : WaitRegistry St) × (answers : List (Answer St)) × (hs : Map ℕ (SelectReg St))
        × (calls vacant r cs ≡ ok (last, answers))
        × ServesAll gs cs answers hs
        × IsServing last hs
  unfolding calls
  calls-IsServing r gs [] h = (r, [], gs, refl, done, h)
  calls-IsServing r gs (c ∷ cs) h =
      let (next, answer, hs, eq, one, serving) = call-Serves r gs c h in
      let (last, answers, is, eqs, rest, ends) = calls-IsServing next hs cs serving in
      (last, answer ∷ answers, is, rw (eq, eqs) refl, more one rest, ends)

  -- Where a slab's `insert` takes a key that has no entry: whatever calls a new registry gets, in
  -- whatever order, none of them panics, and their answers are those of a list of registrations, to
  -- which a new one is added at the end, from which the first that waits for a key is served, with the
  -- first of its arms on the key, and from which one is cancelled by its id; at the end the registry
  -- holds the registrations of that list.
  pub calls-ServesAll :
      (cs : List (Call St))
      → (last : WaitRegistry St) × (answers : List (Answer St)) × (hs : Map ℕ (SelectReg St))
        × (calls vacant default cs ≡ ok (last, answers))
        × ServesAll [] cs answers hs
        × IsServing last hs
  calls-ServesAll cs = calls-IsServing default [] cs default-IsServing
