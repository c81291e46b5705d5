-- ===== src/Fiber/Identity.antt =====
-- runtime/src/fiber.rs: a fiber that runs keeps its id.
use maroon.Prelude.{
  ℕ, zero, suc, ◌≡◌, refl, ◌∙◌, List, [], ◌∷◌, ◌++◌, Option, none, some, String, Outcome, ok, ltb,
  length, ◌-◌, OnOk, OnOk-bind-eq, OnOk-of, OnOk-map, Option-cases, Bool-cases, inl, inr,
}
use maroon.Prelude.Maps.{string_eq}
use maroon.Fiber.{
  StackEntry, state, retrn, value, frame_assign, StepResult, RunResult, Fiber, Round, again, stop,
  push_next, assign_last, assign_local, apply_entries, apply_result, leave_frame, bind_return,
  step_state, run_head, round, run,
}
use maroon.Fiber.Stack.{pop, drop}

module _ {St V K H : Type 0} where
  abbrev pub fiber_of : Round St V K H → Fiber St V K H
  fiber_of (again f) = f
  fiber_of (stop f result) = f

  abbrev KeepsId : Fiber St V K H → Round St V K H → Type 0
  KeepsId f r = (fiber_of r).unique_id ≡ f.unique_id

  apply_result-unique_id :
      (f : Fiber St V K H) (start : ℕ) (result : StepResult St V K)
      → OnOk (KeepsId f) (apply_result f start result)
  unfolding apply_result push_next
  apply_result-unique_id f start (StepResult.debug msg following) = refl
  apply_result-unique_id f start (StepResult.debug_print_vars following) = refl
  apply_result-unique_id f start (StepResult.return val) =
      OnOk-bind-eq (KeepsId f) (leave_frame start f.stack) _ (λ (below, offset) left.
        OnOk-bind-eq (KeepsId f) (bind_return val offset below) _ (λ stack bound. refl))
  apply_result-unique_id f start StepResult.return_void =
      OnOk-bind-eq (KeepsId f) (leave_frame start f.stack) _ (λ (below, offset) left. refl)
  apply_result-unique_id f start (StepResult.go_to st) = refl
  apply_result-unique_id f start (StepResult.next entries) =
      OnOk-bind-eq (KeepsId f) (apply_entries entries start f.stack) _ (λ stack at. refl)
  apply_result-unique_id f start (StepResult.select arms) = refl
  apply_result-unique_id f start (StepResult.create_fibers details following) = refl
  apply_result-unique_id f start (StepResult.create creation) = refl
  apply_result-unique_id f start (StepResult.set_values values following) = refl
  apply_result-unique_id f start StepResult.done = refl
  apply_result-unique_id f start (StepResult.todo msg) = refl

  pub assign_local-unique_id :
      (f : Fiber St V K H) (name : String) (val : V)
      → OnOk (λ g. g.unique_id ≡ f.unique_id) (assign_local f name val)
  unfolding assign_local
  assign_local-unique_id f name val = elim (Option-cases (assign_last name val f.stack)) [
    | inl gone ↦ rw (gone, OnOk) tt
    | inr (stack, there) ↦ rw (there, OnOk) refl
  ]

module _ {St V K H : Type 0} (func_args_count : St → ℕ)
    (global_step : St → List (StackEntry St V) → H → StepResult St V K × H) where
  step_state-unique_id :
      (f : Fiber St V K H) (rest : List (StackEntry St V)) (st : St)
      → OnOk (KeepsId f) (step_state func_args_count global_step f rest st)
  unfolding step_state
  step_state-unique_id f rest st =
      let start = length rest - func_args_count st in
      let (result, heap) = global_step st (drop start rest) f.heap in
      elim (Bool-cases (ltb (length rest) (func_args_count st))) [
        | inl short ↦ rw (short, OnOk) tt
        | inr enough ↦ rw enough (
            apply_result-unique_id
              (record f {
                stack = rest;
                heap = heap;
                trace_sink = f.trace_sink ++ (st, result) ∷ [];
              })
              start result)
      ]

  round-unique_id : (f : Fiber St V K H) → OnOk (KeepsId f) (round func_args_count global_step f)
  unfolding round
  round-unique_id f = headed (pop f.stack)
    where
      headed :
          (popped : Option (List (StackEntry St V) × StackEntry St V))
          → OnOk (KeepsId f) (elim popped as (λ p. Outcome (Round St V K H)) [
            | none ↦ ok (stop f RunResult.done)
            | some (rest, head) ↦ run_head func_args_count global_step f rest head
          ])
      headed none = refl
      headed (some (rest, state st)) = step_state-unique_id f rest st
      headed (some (rest, retrn offset)) = refl
      headed (some (rest, value label val)) = refl
      headed (some (rest, frame_assign updates)) = refl

  -- A fiber that runs keeps its id.
  pub run-unique_id :
      (fuel : ℕ) (f : Fiber St V K H)
      → OnOk (λ r. r.0.unique_id ≡ f.unique_id) (run func_args_count global_step fuel f)
  unfolding run
  run-unique_id zero f = tt
  run-unique_id (suc fuel) f =
      OnOk-bind-eq (λ r. r.0.unique_id ≡ f.unique_id) (round func_args_count global_step f) _
        (λ r ran.
          goes_on (run-unique_id fuel) r
            (OnOk-of (KeepsId f) (round func_args_count global_step f) (round-unique_id f) ran))
    where
      goes_on :
          ((g : Fiber St V K H)
            → OnOk (λ q. q.0.unique_id ≡ g.unique_id) (run func_args_count global_step fuel g))
          → (r : Round St V K H) → KeepsId f r
          → OnOk
              (λ q. q.0.unique_id ≡ f.unique_id)
              (elim r as (λ x. Outcome (Fiber St V K H × RunResult St V K)) [
                | again g ↦ run func_args_count global_step fuel g
                | stop g result ↦ ok (g, result)
              ])
      goes_on runs (again g) kept =
          OnOk-map (λ q. q.0.unique_id ≡ g.unique_id) (λ q. q.0.unique_id ≡ f.unique_id)
            (run func_args_count global_step fuel g) (runs g) (λ q same. same ∙ kept)
      goes_on runs (stop g result) kept = kept
