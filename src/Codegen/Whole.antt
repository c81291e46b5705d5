-- ===== src/Codegen/Whole.antt =====
-- dsl/src/codegen.rs, with dsl/src/ir.rs: the generator gives a text for every valid program.
use maroon.Prelude.{
  String, List, [], ◌∷◌, Bool, true, false, Option, none, some, Outcome, ◌≡◌, refl, All, All-map,
  Returns, Returns-bind, Bool-cases, inl, inr,
}
use maroon.Prelude.Maps.{
  Map, string_eq, get, AllEntries, AllEntries-get, AllEntries-both, AllEntries-map,
}
use maroon.Prelude.Sort.{All-sort}
use maroon.Dsl.{StepId, FiberType, Step, Func, IrFiber, Ir}
use maroon.Dsl.Valid.{is_valid, vars_of}
use maroon.Dsl.Clean.{EachStep}
use maroon.Dsl.Typing.{IsTyped}
use maroon.Dsl.Typed.{is_valid-IsTyped}
use maroon.Codegen.Exprs.{add}
use maroon.Codegen.States.{
  member, Steps, is_suppressed, kept_steps, unseen_steps, arm_steps, state_of, sorted, key_leb,
}
use maroon.Codegen.Emit.{step_code}
use maroon.Codegen.Arms.{entry_arm, step_arms, func_step, each, fiber_step, generate_global_step}
use maroon.Codegen.Total.{own_vars, AreOwn, step_code-Returns}

module _ (P : StepId × Step → Type 0) where
  All-kept_steps : (steps xs : Steps) → All P xs → All P (kept_steps steps xs)
  unfolding kept_steps
  All-kept_steps steps [] all = tt
  All-kept_steps steps ((id, step) ∷ xs) all = elim (Bool-cases (is_suppressed steps id step)) [
    | inl folded ↦ rw folded (All-kept_steps steps xs all.1)
    | inr kept ↦ rw kept (all.0, All-kept_steps steps xs all.1)
  ]

  All-unseen_steps :
      (state : StepId → String) (seen : List String) (xs : Steps)
      → All P xs
      → All P (unseen_steps state seen xs)
  unfolding unseen_steps
  All-unseen_steps state seen [] all = tt
  All-unseen_steps state seen ((id, step) ∷ xs) all = elim (Bool-cases (member (state id) seen)) [
    | inl old ↦ rw (old, unseen_steps) (All-unseen_steps state seen xs all.1)
    | inr new ↦
        rw (new, unseen_steps) (all.0, All-unseen_steps state (add (state id) seen) xs all.1)
  ]

  All-arm_steps :
      (fiber : FiberType) (name : String) (func : Func)
      → All P func.steps
      → All P (arm_steps fiber name func)
  unfolding arm_steps sorted
  All-arm_steps fiber name func all =
      All-unseen_steps (state_of fiber name) (state_of fiber name "entry" ∷ [])
        (kept_steps func.steps (sorted func.steps))
        (All-kept_steps func.steps (sorted func.steps) (All-sort P key_leb func.steps all))

module _ {A : Type 0} (P : String → A → Type 0) where
  All-AllEntries : (m : Map String A) → AllEntries P m → All (λ e. P e.0 e.1) m
  All-AllEntries [] all = tt
  All-AllEntries ((key, a) ∷ m) all = (all.0, All-AllEntries m all.1)

each-Returns :
    {A : Type 0} (f : A → Outcome String) (xs : List A)
    → All (λ x. Returns (f x)) xs
    → Returns (each f xs)
unfolding each
each-Returns f [] all = ("", refl)
each-Returns f (x ∷ xs) all =
    Returns-bind (f x) _ all.0
      (λ text. Returns-bind (each f xs) _ (each-Returns f xs all.1) (λ rest. (_, refl)))

-- A step that the generator makes code of.
abbrev IsReady : Ir → IrFiber → Func → StepId → Step → Type 0
IsReady ir fiber func id step =
    IsTyped ir func (vars_of fiber func) step × AreOwn fiber (own_vars step)

module _ (ir : Ir) (fiber_name : FiberType) (fiber : IrFiber) (name : String) (func : Func) where
  ready-Returns :
      (is_entry : Bool) (id : StepId) (step : Step)
      → IsReady ir fiber func id step
      → Returns (step_code ir fiber_name name func is_entry step)
  ready-Returns is_entry id step ready =
      step_code-Returns ir fiber_name fiber name func is_entry step ready.0 ready.1

  step_arms-Returns :
      (steps : Steps)
      → All (λ e. IsReady ir fiber func e.0 e.1) steps
      → Returns (step_arms ir fiber_name fiber name func steps)
  unfolding step_arms
  step_arms-Returns [] all = ("", refl)
  step_arms-Returns ((id, step) ∷ steps) all =
      Returns-bind (step_code ir fiber_name name func false step) _
        (ready-Returns false id step all.0)
        (λ code.
          Returns-bind (step_arms ir fiber_name fiber name func steps) _
            (step_arms-Returns steps all.1) (λ arms. (_, refl)))

  entry_arm-Returns :
      (found : Option Step)
      → ((step : Step) → found ≡ some step → IsReady ir fiber func "entry" step)
      → Returns (entry_arm ir fiber_name fiber name func found)
  unfolding entry_arm
  entry_arm-Returns none ready = (_, refl)
  entry_arm-Returns (some step) ready =
      Returns-bind (step_code ir fiber_name name func true step) _
        (ready-Returns true "entry" step (ready step refl)) (λ code. (_, refl))

  func_step-Returns :
      AllEntries (IsReady ir fiber func) func.steps
      → Returns (func_step ir fiber_name fiber name func)
  unfolding func_step
  func_step-Returns all =
      let ready = All-AllEntries (IsReady ir fiber func) func.steps all in
      Returns-bind (entry_arm ir fiber_name fiber name func (get func.steps "entry")) _
        (entry_arm-Returns (get func.steps "entry")
          (λ step at. AllEntries-get (IsReady ir fiber func) func.steps "entry" step all at))
        (λ entry.
          Returns-bind (step_arms ir fiber_name fiber name func (arm_steps fiber_name name func)) _
            (step_arms-Returns (arm_steps fiber_name name func)
              (All-arm_steps (λ e. IsReady ir fiber func e.0 e.1) fiber_name name func ready))
            (λ arms. (_, refl)))

abbrev ReadyFiber : Ir → FiberType → IrFiber → Type 0
ReadyFiber ir key fiber = AllEntries (λ name f. AllEntries (IsReady ir fiber f) f.steps) fiber.funcs

fiber_step-Returns :
    (ir : Ir) (entry : FiberType × IrFiber)
    → ReadyFiber ir entry.0 entry.1
    → Returns (fiber_step ir entry)
unfolding fiber_step sorted
fiber_step-Returns ir (fiber_name, fiber) all =
    let P : String × Func → Type 0 = λ e. AllEntries (IsReady ir fiber e.1) e.1.steps in
    let ready =
      All-AllEntries (λ name f. AllEntries (IsReady ir fiber f) f.steps) fiber.funcs all in
    each-Returns (λ (name, func). func_step ir fiber_name fiber name func) (sorted fiber.funcs)
      (All-map P (λ e. Returns (func_step ir fiber_name fiber e.0 e.1)) (sorted fiber.funcs)
        (λ e h. func_step-Returns ir fiber_name fiber e.0 e.1 h)
        (All-sort P key_leb fiber.funcs ready))

-- No step of the program writes or sends a variable that its fiber starts with.
abbrev pub WritesOwn : Ir → Type 0
WritesOwn ir = EachStep (λ fiber f id step. AreOwn fiber (own_vars step)) ir

abbrev Typed : Ir → FiberType → IrFiber → Type 0
Typed ir key fiber =
    AllEntries (λ name f. AllEntries (λ id step. IsTyped ir f (vars_of fiber f) step) f.steps)
      fiber.funcs

abbrev Own : FiberType → IrFiber → Type 0
Own key fiber =
    AllEntries (λ name f. AllEntries (λ id step. AreOwn fiber (own_vars step)) f.steps) fiber.funcs

ready-fiber :
    (ir : Ir) (key : FiberType) (fiber : IrFiber)
    → Typed ir key fiber × Own key fiber
    → ReadyFiber ir key fiber
ready-fiber ir key fiber (typed, own) =
    AllEntries-map fiber.funcs
      (λ name f here h.
        AllEntries-both (λ id step. IsTyped ir f (vars_of fiber f) step)
          (λ id step. AreOwn fiber (own_vars step)) f.steps h.0 h.1)
      (AllEntries-both
        (λ name f. AllEntries (λ id step. IsTyped ir f (vars_of fiber f) step) f.steps)
        (λ name f. AllEntries (λ id step. AreOwn fiber (own_vars step)) f.steps) fiber.funcs typed
        own)

-- For a valid program, of which no step writes or sends a variable that its fiber starts with, the
-- generator makes the text of `global_step`: it panics at no step.
pub generate_global_step-Returns :
    (ir : Ir) → (is_valid ir).0 ≡ true → WritesOwn ir → Returns (generate_global_step ir)
unfolding generate_global_step sorted
generate_global_step-Returns ir valid own =
    let ready =
      AllEntries-map ir.fibers (λ key fiber here h. ready-fiber ir key fiber h)
        (AllEntries-both (Typed ir) Own ir.fibers (is_valid-IsTyped ir valid) own) in
    Returns-bind (each (fiber_step ir) (sorted ir.fibers)) _
      (each-Returns (fiber_step ir) (sorted ir.fibers) (
        All-map (λ e. ReadyFiber ir e.0 e.1) (λ e. Returns (fiber_step ir e)) (sorted ir.fibers)
          (λ e h. fiber_step-Returns ir e h)
          (All-sort (λ e. ReadyFiber ir e.0 e.1) key_leb ir.fibers
            (All-AllEntries (ReadyFiber ir) ir.fibers ready))))
      (λ arms. (_, refl))
