-- ===== src/Fiber/Frames.antt =====
-- runtime/src/fiber.rs: what a step of the running function may touch, and what its return does.
use mathlib.Core.List.{append_assoc}
use maroon.Prelude.{
  ℕ, ◌+◌, ◌-◌, ◌<◌, ◌≡◌, refl, ap, sym, ◌∙◌, arith, List, [], ◌∷◌, ◌++◌, some, ok, ltb, length,
  length-append, bind-eq-ok, false,
}
use maroon.RangeKey.{u64_mod, add64, sub64}
use maroon.Fiber.Stack.{
  update, pop-push, take-length-append, drop-length-append, update-append, update-keeps,
}
use maroon.Fiber.{
  StackEntry, state, retrn, value, frame_assign, StepResult, Fiber, Round, again, stop,
  assign_slots, apply_entries, apply_result, bind_slot, leave_frame, push_next, round, step_state,
}

-- The slots that a step assigns are counted from its frame's start without wrapping.
abbrev pub SlotsFit : {V : Type 0} → ℕ → List (ℕ × V) → Type 0
SlotsFit start [] = Unit
SlotsFit start ((ofs, val) ∷ updates) = (start + ofs < u64_mod) × SlotsFit start updates

module _ {St V : Type 0} where
  abbrev pub EntriesFit : ℕ → List (StackEntry St V) → Type 0
  EntriesFit start [] = Unit
  EntriesFit start (frame_assign updates ∷ entries) =
      SlotsFit start updates × EntriesFit start entries
  EntriesFit start (state st ∷ entries) = EntriesFit start entries
  EntriesFit start (retrn offset ∷ entries) = EntriesFit start entries
  EntriesFit start (value label val ∷ entries) = EntriesFit start entries

  assign_slots-keeps :
      (updates : List (ℕ × V)) (below xs : List (StackEntry St V)) {ys : List (StackEntry St V)}
      → SlotsFit (length below) updates
      → assign_slots updates (length below) (below ++ xs) ≡ ok ys
      → (xs' : List (StackEntry St V)) × (ys ≡ below ++ xs')
  unfolding assign_slots add64
  assign_slots-keeps [] below xs fits e = (xs, ground arith)
  assign_slots-keeps ((ofs, val) ∷ updates) below xs fits e =
      let (zs, run, rest) =
        bind-eq-ok (update (bind_slot "_" val) (below ++ xs) (add64 (length below) ofs)) _ e in
      let (xs', same) = update-keeps (bind_slot "_" val) below xs _ (omega (arith, fits.0)) run in
      assign_slots-keeps updates below xs' fits.1 (rw same at rest)

  apply_entries-keeps :
      (entries below xs : List (StackEntry St V)) {ys : List (StackEntry St V)}
      → EntriesFit (length below) entries
      → apply_entries entries (length below) (below ++ xs) ≡ ok ys
      → (xs' : List (StackEntry St V)) × (ys ≡ below ++ xs')
  unfolding apply_entries
  apply_entries-keeps [] below xs fits e = (xs, ground arith)
  apply_entries-keeps (frame_assign updates ∷ entries) below xs fits e =
      let (zs, run, rest) = bind-eq-ok (assign_slots updates (length below) (below ++ xs)) _ e in
      let (xs', same) = assign_slots-keeps updates below xs fits.0 run in
      apply_entries-keeps entries below xs' fits.1 (rw same at rest)
  apply_entries-keeps (state st ∷ entries) below xs fits e =
      apply_entries-keeps entries below (xs ++ state st ∷ []) fits
        (rw (append_assoc below xs (state st ∷ [])) at e)
  apply_entries-keeps (retrn offset ∷ entries) below xs fits e =
      apply_entries-keeps entries below (xs ++ retrn offset ∷ []) fits
        (rw (append_assoc below xs (retrn offset ∷ [])) at e)
  apply_entries-keeps (value label val ∷ entries) below xs fits e =
      apply_entries-keeps entries below (xs ++ value label val ∷ []) fits
        (rw (append_assoc below xs (value label val ∷ [])) at e)

module _ {St V K : Type 0} where
  -- The step does not leave its function.
  abbrev pub StaysIn : ℕ → StepResult St V K → Type 0
  StaysIn start (StepResult.return val) = ⊥
  StaysIn start StepResult.return_void = ⊥
  StaysIn start (StepResult.next entries) = EntriesFit start entries
  StaysIn start StepResult.done = Unit
  StaysIn start (StepResult.go_to st) = Unit
  StaysIn start (StepResult.select arms) = Unit
  StaysIn start (StepResult.create creation) = Unit
  StaysIn start (StepResult.todo msg) = Unit
  StaysIn start (StepResult.set_values values st) = Unit
  StaysIn start (StepResult.debug msg st) = Unit
  StaysIn start (StepResult.debug_print_vars st) = Unit
  StaysIn start (StepResult.create_fibers details st) = Unit

pushed :
    {St V : Type 0} (below xs : List (StackEntry St V)) (st : St)
    → (xs' : List (StackEntry St V)) × ((below ++ xs) ++ state st ∷ [] ≡ below ++ xs')
pushed below xs st = (xs ++ state st ∷ [], append_assoc below xs (state st ∷ []))

module _ {St V K H : Type 0} where
  abbrev pub stack_after : Round St V K H → List (StackEntry St V)
  stack_after (again f) = f.stack
  stack_after (stop f result) = f.stack

  apply_result-keeps :
      (f : Fiber St V K H) (below xs : List (StackEntry St V)) (result : StepResult St V K)
      (r : Round St V K H)
      → f.stack ≡ below ++ xs
      → StaysIn (length below) result
      → apply_result f (length below) result ≡ ok r
      → (xs' : List (StackEntry St V)) × (stack_after r ≡ below ++ xs')
  unfolding apply_result push_next
  apply_result-keeps f below xs (StepResult.return val) r s stays e = absurd stays
  apply_result-keeps f below xs StepResult.return_void r s stays e = absurd stays
  apply_result-keeps f below xs (StepResult.next entries) r s stays e =
      let (ys, run, rest) = bind-eq-ok (apply_entries entries (length below) f.stack) _ e in
      let (xs', same) = apply_entries-keeps entries below xs stays (rw s at run) in
      (xs', ground (arith, rest, same))
  apply_result-keeps f below xs StepResult.done r s stays e = (xs, ground arith)
  apply_result-keeps f below xs (StepResult.todo msg) r s stays e = (xs, ground arith)
  apply_result-keeps f below xs (StepResult.select arms) r s stays e = (xs, ground arith)
  apply_result-keeps f below xs (StepResult.create creation) r s stays e = (xs, ground arith)
  apply_result-keeps f below xs (StepResult.go_to st) r s stays e =
      let (xs', same) = pushed below xs st in (xs', ground (arith, same))
  apply_result-keeps f below xs (StepResult.set_values values st) r s stays e =
      let (xs', same) = pushed below xs st in (xs', ground (arith, same))
  apply_result-keeps f below xs (StepResult.debug msg st) r s stays e =
      let (xs', same) = pushed below xs st in (xs', ground (arith, same))
  apply_result-keeps f below xs (StepResult.debug_print_vars st) r s stays e =
      let (xs', same) = pushed below xs st in (xs', ground (arith, same))
  apply_result-keeps f below xs (StepResult.create_fibers details st) r s stays e =
      let (xs', same) = pushed below xs st in (xs', ground (arith, same))

module _ {St V K H : Type 0} where
  apply_result-return :
      (f : Fiber St V K H) (front back args : List (StackEntry St V)) (slot : StackEntry St V)
      (val : V)
      → f.stack ≡ ((front ++ slot ∷ back) ++ retrn (some (length back + 1)) ∷ []) ++ args
      → length front + length back + 1 < u64_mod
      → apply_result f
          (length ((front ++ slot ∷ back) ++ retrn (some (length back + 1)) ∷ []))
          (StepResult.return val)
        ≡ ok (again (record f { stack = front ++ bind_slot "ret" val slot ∷ back }))
  unfolding apply_result leave_frame sub64
  apply_result-return f front back args slot val s fits =
      let caller : List (StackEntry St V) = front ++ slot ∷ back in
      let below : List (StackEntry St V) = caller ++ retrn (some (length back + 1)) ∷ [] in
      let marker = pop-push caller (retrn (some (length back + 1))) in
      let index : sub64 (length caller) (length back + 1) ≡ length front =
        grind (arith, length-append front (slot ∷ back)) in
      rw
        (
          s,
          take-length-append below args,
          marker,
          index,
          update-append (bind_slot "ret" val) front slot back,
          apply_result,
          leave_frame,
        )
        refl

module _ {St V K H : Type 0} (func_args_count : St → ℕ)
    (global_step : St → List (StackEntry St V) → H → StepResult St V K × H) where
  abbrev stepped :
      Fiber St V K H → List (StackEntry St V) → List (StackEntry St V) → St → Fiber St V K H
  stepped f below args st = record f {
    stack = below ++ args;
    heap = (global_step st args f.heap).1;
    trace_sink = f.trace_sink ++ (st, (global_step st args f.heap).0) ∷ [];
  }

  round-frame :
      (f : Fiber St V K H) (below args : List (StackEntry St V)) (st : St)
      → f.stack ≡ below ++ (args ++ state st ∷ [])
      → length args ≡ func_args_count st
      → round func_args_count global_step f
        ≡ apply_result (stepped f below args st) (length below) (global_step st args f.heap).0
  unfolding round step_state
  round-frame f below args st s count =
      let whole : f.stack ≡ (below ++ args) ++ state st ∷ [] =
        s ∙ sym (append_assoc below args (state st ∷ [])) in
      let start : length (below ++ args) - func_args_count st ≡ length below =
        omega (arith, length-append below args) in
      let enough : ltb (length (below ++ args)) (func_args_count st) ≡ false =
        ground (arith, length-append below args) in
      rw (whole, pop-push (below ++ args) (state st), round)
        (rw (start, enough, drop-length-append below args, step_state) refl)

  -- A round that runs a state whose function takes `args`, with `below` under them on the stack: if
  -- the step is no return, and the slots that it assigns do not wrap, then all that was under the
  -- frame stands there after the round as before, whether the fiber goes on or is parked.
  pub round-keeps_callers :
      (f : Fiber St V K H) (below args : List (StackEntry St V)) (st : St) (r : Round St V K H)
      → f.stack ≡ below ++ (args ++ state st ∷ [])
      → length args ≡ func_args_count st
      → StaysIn (length below) (global_step st args f.heap).0
      → round func_args_count global_step f ≡ ok r
      → (xs : List (StackEntry St V)) × (stack_after r ≡ below ++ xs)
  round-keeps_callers f below args st r s count stays e =
      apply_result-keeps (stepped f below args st) below args _ r refl stays
        (sym (round-frame f below args st s count) ∙ e)

  -- A function returns a value to a caller that wants it in the slot `offset` places under the return
  -- marker: the round goes on with the frame, the marker and the state gone, and of the caller's
  -- stack just that slot has changed: it holds the value.
  pub round-returns :
      (f : Fiber St V K H) (front back args : List (StackEntry St V)) (slot : StackEntry St V)
      (st : St) (val : V)
      → f.stack
        ≡ ((front ++ slot ∷ back) ++ retrn (some (length back + 1)) ∷ []) ++ (args ++ state st ∷ [])
      → length args ≡ func_args_count st
      → length front + length back + 1 < u64_mod
      → (global_step st args f.heap).0 ≡ StepResult.return val
      → (g : Fiber St V K H) × (round func_args_count global_step f ≡ ok (again g))
        × (g.stack ≡ front ++ bind_slot "ret" val slot ∷ back)
        × (g.heap ≡ (global_step st args f.heap).1)
  round-returns f front back args slot st val s count fits returns =
      let caller : List (StackEntry St V) = front ++ slot ∷ back in
      let below : List (StackEntry St V) = caller ++ retrn (some (length back + 1)) ∷ [] in
      let g = stepped f below args st in
      (
        record g { stack = front ++ bind_slot "ret" val slot ∷ back },
        round-frame f below args st s count
            ∙ ap (apply_result g (length below)) returns
            ∙ apply_result-return g front back args slot val refl fits,
        refl,
        refl,
      )
