-- ===== src/Codegen/Writes.antt =====
-- dsl/src/codegen.rs, with runtime/src/fiber.rs: what the generated code assigns to the running frame.
use maroon.Prelude.{
  ℕ, zero, suc, ◌+◌, ◌%◌, ◌<◌, String, List, [], ◌∷◌, ◌++◌, Bool, true, false, Option, none, some,
  ok, ◌≡◌, refl, ap, ◌∙◌, arith, length, All, Option-cases, inl, inr, OnOk, OnOk-bind, OnOk-bind-eq,
  OnOk-of, map,
}
use maroon.Dsl.{Expr, LocalVarRef, FiberType, Step, Func, Ir}
use maroon.Fiber.{StackEntry, bind_slot, assign_slots}
use maroon.Fiber.Stack.{update}
use maroon.RangeKey.{u64_mod, add64}
use maroon.Codegen.Exprs.{var_type_of}
use maroon.Codegen.States.{args_count}
use maroon.Codegen.Code.{StepCode}
use maroon.Codegen.Emit.{step_code, bind_slots, set_codes, call_code, block_code, returns_directly}
use maroon.Codegen.Frames.{frame_index-bound, let_index-bound}

-- The slots that the code of a step assigns.
abbrev pub first_slots : List (ℕ × String) → List ℕ
first_slots [] = []
first_slots ((index, variant) ∷ slots) = index ∷ first_slots slots

abbrev pub assigned_slots : StepCode → List ℕ
assigned_slots (StepCode.assign index variant v following) = index ∷ []
assigned_slots (StepCode.block_assign code index variant following) = index ∷ []
assigned_slots (StepCode.block_assigns code slots following) = first_slots slots
assigned_slots _ = []

bind_slots-bound :
    (func : Func) (bs : List LocalVarRef)
    → OnOk (λ slots. All (λ i. i < args_count func) (first_slots slots)) (bind_slots func bs)
unfolding bind_slots
bind_slots-bound func [] = tt
bind_slots-bound func (b ∷ bs) = elim (Option-cases (var_type_of func b)) [
  | inl missing ↦ rw (missing, bind_slots) tt
  | inr (ty, at) ↦
      rw (at, bind_slots)
        (OnOk-bind (λ slots. All (λ i. i < args_count func) (first_slots slots)) _
          (bind_slots func bs) _ (bind_slots-bound func bs)
          (λ slots all. (frame_index-bound func b ty at, all)))
]

block_code-bound :
    (func : Func) (direct : Bool) (code following : String) (slots : List (ℕ × String))
    → All (λ i. i < args_count func) (first_slots slots)
    → All (λ i. i < args_count func) (assigned_slots (block_code direct code following slots))
block_code-bound func direct code following [] all = tt
block_code-bound func true code following (slot ∷ []) all = tt
block_code-bound func false code following (slot ∷ []) all = all
block_code-bound func direct code following (slot ∷ other ∷ slots) all = all

abbrev Fits : Func → StepCode → Type 0
Fits func code = All (λ i. i < args_count func) (assigned_slots code)

call_code-Fits :
    (func caller : Func) (ret entry : String) (bind : Option LocalVarRef) (args : List Expr)
    (callee : Option Func)
    → Fits caller (call_code func ret entry bind args callee)
unfolding call_code
call_code-Fits func caller ret entry bind args none = tt
call_code-Fits func caller ret entry bind args (some callee) = tt

module _ (ir : Ir) (fiber : FiberType) (name : String) (func : Func) where
  step_code-OnOk :
      (is_entry : Bool) (step : Step)
      → OnOk (Fits func) (step_code ir fiber name func is_entry step)
  unfolding step_code
  step_code-OnOk is_entry (Step.debug msg following) = tt
  step_code-OnOk is_entry (Step.create_fibers details following) = tt
  step_code-OnOk is_entry (Step.create primitives success fail) = tt
  step_code-OnOk is_entry (Step.debug_print_vars following) = tt
  step_code-OnOk is_entry (Step.set_values values following) =
      OnOk-bind-eq (Fits func) (set_codes is_entry func values) _ (λ codes e. tt)
  step_code-OnOk is_entry (Step.select arms) = tt
  step_code-OnOk is_entry (Step.call target args bind ret_to) =
      call_code-Fits func func _ _ bind args _
  step_code-OnOk is_entry (Step.return v) = tt
  step_code-OnOk is_entry Step.return_void = tt
  step_code-OnOk is_entry (Step.branch cond then_ else_) = tt
  step_code-OnOk is_entry (Step.assign local e following) =
      elim (Option-cases (var_type_of func local)) [
        | inl missing ↦ rw (missing, step_code) tt
        | inr (ty, at) ↦ rw (at, step_code) (let_index-bound func local ty at, tt)
      ]
  step_code-OnOk is_entry (Step.rust_block binds code following) =
      OnOk-bind (λ slots. All (λ i. i < args_count func) (first_slots slots)) (Fits func)
        (bind_slots func binds) _ (bind_slots-bound func binds)
        (λ slots all.
          block_code-bound func (returns_directly func.steps binds following) code _ slots all)

  -- Every slot that the code of a step assigns is a slot of its function's frame.
  step_code-Fits :
      (is_entry : Bool) (step : Step) (code : StepCode)
      → step_code ir fiber name func is_entry step ≡ ok code
      → Fits func code
  step_code-Fits is_entry step code e =
      OnOk-of (Fits func) (step_code ir fiber name func is_entry step)
        (step_code-OnOk is_entry step) e

module _ {A : Type 0} (g : A → A) where
  update-bound :
      (below frame : List A) (i : ℕ)
      → i < length frame
      → (frame' : List A) × (update g (below ++ frame) (length below + i) ≡ ok (below ++ frame'))
        × (length frame' ≡ length frame)
  unfolding update
  update-bound [] [] i h = absurd (omega arith)
  update-bound [] (x ∷ frame) zero h = (g x ∷ frame, refl, refl)
  update-bound [] (x ∷ frame) (suc i) h =
      let (frame', run, len) = update-bound [] frame i (omega arith) in
      let next : 0 + suc i ≡ suc (0 + i) = omega arith in
      (x ∷ frame', ap (update g (x ∷ frame)) next ∙ rw run refl, omega (arith, len))
  update-bound (y ∷ below) frame i h =
      let (frame', run, len) = update-bound below frame i h in
      let next : suc (length below) + i ≡ suc (length below + i) = omega arith in
      (frame', ap (update g (y ∷ below ++ frame)) next ∙ rw run refl, len)

abbrev pub slot_of : {V : Type 0} → ℕ × V → ℕ
slot_of (ofs, v) = ofs

module _ {St V : Type 0} where
  assign_slots-bound :
      (n : ℕ) (updates : List (ℕ × V)) (below frame : List (StackEntry St V))
      → All (λ i. i < n) (map slot_of updates)
      → length frame ≡ n
      → length below + n < u64_mod
      → (frame' : List (StackEntry St V)) × (assign_slots updates (length below) (below ++ frame)
          ≡ ok (below ++ frame'))
        × (length frame' ≡ n)
  unfolding assign_slots add64
  assign_slots-bound n [] below frame all len fits = (frame, refl, len)
  assign_slots-bound n ((ofs, v) ∷ updates) below frame all len fits =
      let (mid, run, len') =
        update-bound (bind_slot "_" v) below frame ofs (omega (arith, all.0)) in
      let (frame', rest, same) = assign_slots-bound n updates below mid all.1 (len' ∙ len) fits in
      let at : (length below + ofs) % u64_mod ≡ length below + ofs = omega (arith, all.0) in
      (frame', rw (at, run, assign_slots) rest, same)

-- The assignments of a step, carried out by the fiber on the frame of its function: no slot is out of
-- bounds, the frame keeps its length, and the stack below it stays as it was, as long as the stack is
-- shorter than 2^64.
pub step_code-assigns :
    {St V : Type 0} (ir : Ir) (fiber : FiberType) (name : String) (func : Func) (is_entry : Bool)
    (step : Step) (code : StepCode) (updates : List (ℕ × V)) (below frame : List (StackEntry St V))
    → step_code ir fiber name func is_entry step ≡ ok code
    → map slot_of updates ≡ assigned_slots code
    → length frame ≡ args_count func
    → length below + args_count func < u64_mod
    → (frame' : List (StackEntry St V)) × (assign_slots updates (length below) (below ++ frame)
        ≡ ok (below ++ frame'))
      × (length frame' ≡ args_count func)
step_code-assigns ir fiber name func is_entry step code updates below frame e same len fits =
    assign_slots-bound (args_count func) updates below frame
      (rw same (step_code-Fits ir fiber name func is_entry step code e)) len fits
