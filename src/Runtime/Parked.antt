-- ===== src/Runtime/Parked.antt =====
-- runtime/src/runtime.rs, with runtime/src/wait_registry.rs: the fibers that wait are those of the
-- registrations, each with one, and none of them is active.
use mathlib.Core.Path.{subst}
use mathlib.Core.List.{append_assoc}
use maroon.Prelude.{
  ℕ, ◌<◌, ◌≡◌, ◌≢◌, refl, sym, ◌∙◌, ap, arith, List, [], ◌∷◌, ◌++◌, Option, none, some, All,
  All-append, All-of-append, Bool-cases, inl, inr, OnOk,
}
use maroon.Prelude.Maps.{Map, nat_eq, get, insert, remove, get-insert, get-remove}
use maroon.Fiber.{SelectArm, RunResult, Fiber}
use maroon.WaitRegistry.{WaitKey, SelectReg, WakeOutcome, register_select}
use maroon.WaitRegistry.Links.{AreDistinct, AreDistinct-push}
use maroon.WaitRegistry.Spans.{AreDistinct-middle}
use maroon.WaitRegistry.Serving.{IsServing}
use maroon.WaitRegistry.Order.{served, served-cases, ServedOn, outcome}
use maroon.WaitRegistry.Registered.{AreArms, register_select-IsServing}
use maroon.Runtime.{SuccessBindKind, Program, Runtime, ScheduledBlob}
use maroon.Runtime.Loop.{apply_run_result}

module _ {St : Type 0} where
  -- The fibers of the registrations.
  abbrev pub fibers_of : Map ℕ (SelectReg St) → List ℕ
  fibers_of [] = []
  fibers_of ((id, reg) ∷ gs) = reg.fiber_id ∷ fibers_of gs

  pub fibers_of-append :
      (gs hs : Map ℕ (SelectReg St)) → fibers_of (gs ++ hs) ≡ fibers_of gs ++ fibers_of hs
  fibers_of-append [] hs = refl
  fibers_of-append ((id, reg) ∷ gs) hs = ap (◌∷◌ reg.fiber_id) (fibers_of-append gs hs)

  pub served-nobody :
      (gs : Map ℕ (SelectReg St)) (key : WaitKey)
      → (served key gs).1 ≡ none
      → (served key gs).0 ≡ gs
  served-nobody gs key nobody = elim (served-cases key gs) [
    | inl (_, same) ↦ ap (λ (p : Map ℕ (SelectReg St) × Option (WakeOutcome St)). p.0) same
    | inr on ↦
        cc (ap (λ (p : Map ℕ (SelectReg St) × Option (WakeOutcome St)). p.1) on.result, nobody)
  ]

module _ {St V F H : Type 0} where
  abbrev pub ids_active : List (Fiber St V (SuccessBindKind F) H) → List ℕ
  ids_active [] = []
  ids_active (fiber ∷ fibers) = fiber.unique_id ∷ ids_active fibers

  abbrev pub Waits : Map ℕ (Fiber St V (SuccessBindKind F) H) → ℕ → Type 0
  Waits awaiting i =
      (fiber : Fiber St V (SuccessBindKind F) H) × (get awaiting i ≡ some fiber)
      × (fiber.unique_id ≡ i)

  -- No other fiber waits.
  abbrev pub NobodyElse : Map ℕ (Fiber St V (SuccessBindKind F) H) → List ℕ → Type 0
  NobodyElse awaiting ids = (i : ℕ) → All (λ k. k ≢ i) ids → get awaiting i ≡ none

  -- The registry holds these registrations, each of another fiber, which waits and is not active; no
  -- other fiber waits; the active fibers have distinct ids, and all ids are below the next one.
  abbrev pub IsParked : Runtime St V F H → Map ℕ (SelectReg St) → Type 0
  IsParked rt gs =
      IsServing rt.wait_index gs
      × AreDistinct (ids_active rt.active_fibers ++ fibers_of gs)
      × All (Waits rt.awaiting_fibers) (fibers_of gs)
      × All (λ i. i < rt.next_fiber_id) (ids_active rt.active_fibers ++ fibers_of gs)
      × NobodyElse rt.awaiting_fibers (fibers_of gs)

  Waits-remove :
      (awaiting : Map ℕ (Fiber St V (SuccessBindKind F) H)) (i : ℕ) (ids : List ℕ)
      → All (λ k. k ≢ i) ids
      → All (Waits awaiting) ids
      → All (Waits (remove awaiting i)) ids
  Waits-remove awaiting i [] out all = tt
  Waits-remove awaiting i (k ∷ ids) out ((fiber, at, own), all) = (
    (fiber, ground (arith, get-remove awaiting i k, at, out.0), own),
    Waits-remove awaiting i ids out.1 all,
  )

  Waits-insert :
      (awaiting : Map ℕ (Fiber St V (SuccessBindKind F) H)) (i : ℕ)
      (fiber : Fiber St V (SuccessBindKind F) H) (ids : List ℕ)
      → All (λ k. k ≢ i) ids
      → All (Waits awaiting) ids
      → All (Waits (insert awaiting i fiber)) ids
  Waits-insert awaiting i fiber [] out all = tt
  Waits-insert awaiting i fiber (k ∷ ids) out ((f, at, own), all) = (
    (f, ground (arith, get-insert awaiting i k fiber, at, out.0), own),
    Waits-insert awaiting i fiber ids out.1 all,
  )

  -- One waiting fiber is taken away.
  NobodyElse-remove :
      (awaiting : Map ℕ (Fiber St V (SuccessBindKind F) H)) (k : ℕ) (before after : List ℕ)
      → NobodyElse awaiting (before ++ k ∷ after)
      → NobodyElse (remove awaiting k) (before ++ after)
  NobodyElse-remove awaiting k before after only i out = elim (Bool-cases (nat_eq.beq k i)) [
    | inl same ↦ rw (get-remove awaiting k i) (rw same refl)
    | inr other ↦
        let (front, back) = All-of-append (λ j. j ≢ i) before after out in
        let apart : k ≢ i = ground (arith, nat_eq.beq_iff k i, other) in
        rw (get-remove awaiting k i)
          (rw other (only i (All-append (λ j. j ≢ i) before (k ∷ after) front (apart, back))))
  ]

  -- One more waits.
  NobodyElse-insert :
      (awaiting : Map ℕ (Fiber St V (SuccessBindKind F) H)) (k : ℕ)
      (fiber : Fiber St V (SuccessBindKind F) H) (ids : List ℕ)
      → NobodyElse awaiting ids
      → NobodyElse (insert awaiting k fiber) (ids ++ k ∷ [])
  NobodyElse-insert awaiting k fiber ids only i out =
      let (front, (apart, _)) = All-of-append (λ j. j ≢ i) ids (k ∷ []) out in
      ground (arith, get-insert awaiting k i fiber, only i front, apart)

  -- What is so of the fiber that is served.
  abbrev pub IsNext : Runtime St V F H → WakeOutcome St → Map ℕ (SelectReg St) → Type 0
  IsNext rt out hs =
      Waits rt.awaiting_fibers out.fiber_id
      × AreDistinct (out.fiber_id ∷ ids_active rt.active_fibers ++ fibers_of hs)
      × All (Waits (remove rt.awaiting_fibers out.fiber_id)) (fibers_of hs)
      × All (λ i. i < rt.next_fiber_id) (out.fiber_id ∷ ids_active rt.active_fibers ++ fibers_of hs)
      × NobodyElse (remove rt.awaiting_fibers out.fiber_id) (fibers_of hs)

  IsNext-on :
      (rt : Runtime St V F H) (gs : Map ℕ (SelectReg St)) (key : WaitKey) (on : ServedOn key gs)
      → IsParked rt gs
      → IsNext rt (outcome on.reg on.on.arm) (on.before ++ on.after)
  IsNext-on rt gs key on (_, distinct, waits, below, only) =
      let parts : fibers_of gs ≡ fibers_of on.before ++ on.reg.fiber_id ∷ fibers_of on.after =
        ap fibers_of on.parts ∙ fibers_of-append on.before ((on.id, on.reg) ∷ on.after) in
      let actives = ids_active rt.active_fibers in
      let all = subst (All (Waits rt.awaiting_fibers)) parts waits in
      let (front, (here, back)) =
        All-of-append (Waits rt.awaiting_fibers) (fibers_of on.before)
          (on.reg.fiber_id ∷ fibers_of on.after) all in
      let split : actives ++ fibers_of gs
          ≡ (actives ++ fibers_of on.before) ++ on.reg.fiber_id ∷ fibers_of on.after =
        ap (◌++◌ actives) parts
        ∙ sym (append_assoc actives (fibers_of on.before) (on.reg.fiber_id ∷ fibers_of on.after)) in
      let (rest, out) =
        AreDistinct-middle (actives ++ fibers_of on.before) on.reg.fiber_id (fibers_of on.after)
          (subst AreDistinct split distinct) in
      let (less, (less_here, less_after)) =
        All-of-append (λ i. i < rt.next_fiber_id) (actives ++ fibers_of on.before)
          (on.reg.fiber_id ∷ fibers_of on.after)
          (subst (All (λ i. i < rt.next_fiber_id)) split below) in
      let joined : (actives ++ fibers_of on.before) ++ fibers_of on.after
          ≡ actives ++ fibers_of (on.before ++ on.after) =
        append_assoc actives (fibers_of on.before) (fibers_of on.after)
        ∙ ap (◌++◌ actives) (sym (fibers_of-append on.before on.after)) in
      let away = subst (All (λ k. k ≢ on.reg.fiber_id)) joined out in
      (
        here,
        (away, subst AreDistinct joined rest),
        Waits-remove rt.awaiting_fibers on.reg.fiber_id (fibers_of (on.before ++ on.after))
            (All-of-append (λ k. k ≢ on.reg.fiber_id) actives (fibers_of (on.before ++ on.after))
              away).1
            (subst (All (Waits rt.awaiting_fibers)) (sym (fibers_of-append on.before on.after)) (
              All-append (Waits rt.awaiting_fibers) (fibers_of on.before) (fibers_of on.after) front
                back)),
        (
          less_here,
          subst (All (λ i. i < rt.next_fiber_id)) joined (
              All-append (λ i. i < rt.next_fiber_id) (actives ++ fibers_of on.before)
                (fibers_of on.after) less less_after),
        ),
        subst (NobodyElse (remove rt.awaiting_fibers on.reg.fiber_id))
            (sym (fibers_of-append on.before on.after))
            (NobodyElse-remove rt.awaiting_fibers on.reg.fiber_id (fibers_of on.before)
              (fibers_of on.after) (subst (NobodyElse rt.awaiting_fibers) parts only)),
      )

  -- The fiber that the registry serves waits, and is not active; the others go on waiting.
  pub served-IsNext :
      (rt : Runtime St V F H) (gs : Map ℕ (SelectReg St)) (key : WaitKey) (out : WakeOutcome St)
      → IsParked rt gs
      → (served key gs).1 ≡ some out
      → IsNext rt out (served key gs).0
  served-IsNext rt gs key out parked serves = elim (served-cases key gs) [
    | inl (_, same) ↦
        cc (ap (λ (p : Map ℕ (SelectReg St) × Option (WakeOutcome St)). p.1) same, serves)
    | inr on ↦
        let this : outcome on.reg on.on.arm ≡ out =
          cc (ap (λ (p : Map ℕ (SelectReg St) × Option (WakeOutcome St)). p.1) on.result, serves) in
        subst (λ o. IsNext rt o (served key gs).0) this
          (rw (on.result) (IsNext-on rt gs key on parked))
  ]

module _ {St V F H : Type 0} (program : Program St V F H) (timer : ℕ → ℕ)
    (vacant : (A : Type 0) → Map ℕ A → ℕ)
    (pop_first : List ScheduledBlob → Option (ScheduledBlob × List ScheduledBlob))
    (free : (A : Type 0) (m : Map ℕ A) → get m (vacant A m) ≡ none) where
  -- An active fiber that selects joins those that wait, as the last registration.
  pub select-IsParked :
      (rt : Runtime St V F H) (gs : Map ℕ (SelectReg St)) (fiber : Fiber St V (SuccessBindKind F) H)
      (arms : List (SelectArm St))
      → IsParked (record rt { active_fibers = fiber ∷ rt.active_fibers }) gs
      → (id : ℕ) × (reg : SelectReg St) × (reg.fiber_id ≡ fiber.unique_id)
        × AreArms arms reg.arms
        × OnOk
            (λ r. IsParked r (gs ++ (id, reg) ∷ []))
            (apply_run_result program timer vacant pop_first rt fiber (RunResult.select arms))
  unfolding apply_run_result
  select-IsParked rt gs fiber arms (serving, (out, distinct), waits, (less, below), only) =
      let (reg, same, are, _, next) =
        register_select-IsServing vacant free rt.wait_index gs fiber.unique_id arms serving in
      let id = (register_select vacant rt.wait_index fiber.unique_id arms).1 in
      let actives = ids_active rt.active_fibers in
      let (_, apart) = All-of-append (λ j. j ≢ fiber.unique_id) actives (fibers_of gs) out in
      let grown : fibers_of gs ++ fiber.unique_id ∷ [] ≡ fibers_of (gs ++ (id, reg) ∷ []) =
        ap (λ i. fibers_of gs ++ i ∷ []) (sym same) ∙ sym (fibers_of-append gs ((id, reg) ∷ [])) in
      (
        id,
        reg,
        same,
        are,
        (
          next,
          subst AreDistinct
              (append_assoc actives (fibers_of gs) (fiber.unique_id ∷ []) ∙ ap (◌++◌ actives) grown)
              (AreDistinct-push (actives ++ fibers_of gs) fiber.unique_id distinct out),
          subst (All (Waits (insert rt.awaiting_fibers fiber.unique_id fiber))) grown (
              All-append (Waits (insert rt.awaiting_fibers fiber.unique_id fiber)) (fibers_of gs)
                (fiber.unique_id ∷ [])
                (Waits-insert rt.awaiting_fibers fiber.unique_id fiber (fibers_of gs) apart waits)
                (
                  (
                    fiber,
                    rw (get-insert rt.awaiting_fibers fiber.unique_id fiber.unique_id fiber)
                        (ground arith),
                    refl,
                  ),
                  tt,
                )),
          subst (All (λ i. i < rt.next_fiber_id))
              (append_assoc actives (fibers_of gs) (fiber.unique_id ∷ []) ∙ ap (◌++◌ actives) grown)
              (All-append (λ i. i < rt.next_fiber_id) (actives ++ fibers_of gs)
                (fiber.unique_id ∷ []) below (less, tt)),
          subst (NobodyElse (insert rt.awaiting_fibers fiber.unique_id fiber)) grown
              (NobodyElse-insert rt.awaiting_fibers fiber.unique_id fiber (fibers_of gs) only),
        ),
      )
