-- ===== src/Dsl/Clean.antt =====
-- dsl/src/ir.rs: what it means for each fiber, function and step that `IR::is_valid` has no message.
use text.Mathlib.Text.{◌==◌ as string_beq}
use maroon.Prelude.{String, List, [], ◌∷◌, ◌++◌, Bool, true, false, ◌≡◌, refl, if◌then◌else◌}
use maroon.Prelude.Maps.{Map, string_eq, contains_key, AllEntries, AllEntries-map}
use maroon.Dsl.{StepId, FiberType, IrType, Step, Func, IrFiber, Ir}
use maroon.Dsl.Infer.{IrType-discrete, same_type, is_yes}
use maroon.Dsl.Checks.{Complaint, unless, Vars}
use maroon.Dsl.Valid.{
  check_step, check_steps, insert_vars, check_duplicates, vars_of, uses_correct_variables,
  some_unless_empty, pushed, check_func, check_funcs, check_fibers, check_types, is_valid, is_empty,
}

pub append-empty {ℓ} :
    {A : Type ℓ} (xs : List A) {ys : List A} → xs ++ ys ≡ [] → (xs ≡ []) × (ys ≡ [])
append-empty [] h = (refl, h)
append-empty (x ∷ xs) h = cc

pub unless-empty : (b : Bool) (c : Complaint) → unless b c ≡ [] → b ≡ true
unless-empty true c h = refl
unless-empty false c h = cc

pub is_yes-true {ℓ} : {P : Type ℓ} (d : Dec P) → is_yes d ≡ true → P
is_yes-true (yes p) h = p
is_yes-true (no n) h = cc

pub same_type-eq : (a b : IrType) → same_type a b ≡ true → a ≡ b
same_type-eq a b h = is_yes-true (IrType-discrete a b) h

is_empty-true : (cs : List Complaint) → is_empty cs ≡ true → cs ≡ []
is_empty-true [] h = refl
is_empty-true (c ∷ cs) h = cc

pushed-some_unless_empty : (cs : List Complaint) → pushed (some_unless_empty cs) ≡ cs
pushed-some_unless_empty [] = refl
pushed-some_unless_empty (c ∷ cs) = refl

-- A function without messages.
abbrev pub IsCleanFunc : Ir → IrFiber → String → Func → Type 0
IsCleanFunc ir fiber name f =
    (check_duplicates [] f.in_vars ≡ [])
    × (check_duplicates (insert_vars [] f.in_vars) f.locals ≡ [])
    × AllEntries (λ id step. check_step ir f (vars_of fiber f) id step ≡ []) f.steps
    × (name ≡ "main" → f.out ≡ IrType.void)
    × (contains_key f.steps "entry" ≡ true)

-- A program without messages.
abbrev pub IsClean : Ir → Type 0
IsClean ir =
    AllEntries
      (λ key fiber.
        AllEntries (IsCleanFunc ir fiber) fiber.funcs × (contains_key fiber.funcs "main" ≡ true))
      ir.fibers
    × (contains_key ir.fibers "root" ≡ true)
    × (check_types ir.types ≡ [])

check_steps-clean :
    (ir : Ir) (f : Func) (vars : Vars) (steps : List (StepId × Step))
    → check_steps ir f vars steps ≡ []
    → AllEntries (λ id step. check_step ir f vars id step ≡ []) steps
unfolding check_steps
check_steps-clean ir f vars [] h = tt
check_steps-clean ir f vars ((id, step) ∷ steps) h =
    let (now, later) = append-empty (check_step ir f vars id step) h in
    (now, check_steps-clean ir f vars steps later)

main-void :
    (name : String) (t : IrType) (c : Complaint)
    → (if string_beq name "main" then unless (same_type t IrType.void) c else []) ≡ []
    → name ≡ "main"
    → t ≡ IrType.void
main-void name t c h p =
    same_type-eq t IrType.void
      (unless-empty (same_type t IrType.void) _ (rw ((string_eq.beq_iff name "main").1 p) at h))

check_func-clean :
    (ir : Ir) (key : FiberType) (fiber : IrFiber) (name : String) (f : Func)
    → check_func ir key fiber name f ≡ []
    → IsCleanFunc ir fiber name f
unfolding check_func uses_correct_variables
check_func-clean ir key fiber name f h =
    let first = check_duplicates [] f.in_vars in
    let second = check_duplicates (insert_vars [] f.in_vars) f.locals in
    let all = first ++ (second ++ check_steps ir f (vars_of fiber f) f.steps) in
    let (uses, rest) = append-empty (pushed (some_unless_empty all)) h in
    let (ins, uses') = append-empty first (rw (pushed-some_unless_empty all) at uses) in
    let (locals, steps) = append-empty second uses' in
    let (void, entry) =
      append-empty
        (if string_beq name "main"
          then unless (same_type f.out IrType.void) (Complaint.main_returns key)
          else [])
        rest in
    (
      ins,
      locals,
      check_steps-clean ir f (vars_of fiber f) f.steps steps,
      main-void name f.out _ void,
      unless-empty (contains_key f.steps "entry") _ entry,
    )

check_funcs-clean :
    (ir : Ir) (key : FiberType) (fiber : IrFiber) (funcs : Map String Func)
    → check_funcs ir key fiber funcs ≡ []
    → AllEntries (IsCleanFunc ir fiber) funcs
unfolding check_funcs
check_funcs-clean ir key fiber [] h = tt
check_funcs-clean ir key fiber ((name, f) ∷ funcs) h =
    let (now, later) = append-empty (check_func ir key fiber name f) h in
    (check_func-clean ir key fiber name f now, check_funcs-clean ir key fiber funcs later)

check_fibers-clean :
    (ir : Ir) (fibers : Map FiberType IrFiber)
    → check_fibers ir fibers ≡ []
    → AllEntries
        (λ key fiber.
          AllEntries (IsCleanFunc ir fiber) fiber.funcs × (contains_key fiber.funcs "main" ≡ true))
        fibers
unfolding check_fibers
check_fibers-clean ir [] h = tt
check_fibers-clean ir ((key, fiber) ∷ fibers) h =
    let (funcs, rest) = append-empty (check_funcs ir key fiber fiber.funcs) h in
    let (main, later) =
      append-empty (unless (contains_key fiber.funcs "main") (Complaint.no_main key)) rest in
    (
      (
        check_funcs-clean ir key fiber fiber.funcs funcs,
        unless-empty (contains_key fiber.funcs "main") _ main,
      ),
      check_fibers-clean ir fibers later,
    )

pub is_valid-IsClean : (ir : Ir) → (is_valid ir).0 ≡ true → IsClean ir
unfolding is_valid
is_valid-IsClean ir h =
    let (fibers, rest) =
      append-empty (check_fibers ir ir.fibers) (is_empty-true (is_valid ir).1 h) in
    let (root, types) =
      append-empty (unless (contains_key ir.fibers "root") Complaint.no_root) rest in
    (
      check_fibers-clean ir ir.fibers fibers,
      unless-empty (contains_key ir.fibers "root") _ root,
      types,
    )

-- What holds of all steps without messages holds of all steps of a valid program.
abbrev pub EachStep {ℓ} : (IrFiber → Func → StepId → Step → Type ℓ) → Ir → Type ℓ
EachStep P ir =
    AllEntries (λ key fiber. AllEntries (λ name f. AllEntries (P fiber f) f.steps) fiber.funcs)
      ir.fibers

pub is_valid-EachStep {ℓ} :
    {P : IrFiber → Func → StepId → Step → Type ℓ} (ir : Ir)
    → ((fiber : IrFiber) (f : Func) (id : StepId) (step : Step)
        → check_step ir f (vars_of fiber f) id step ≡ []
        → P fiber f id step)
    → (is_valid ir).0 ≡ true
    → EachStep P ir
is_valid-EachStep ir holds h =
    AllEntries-map ir.fibers
      (λ key fiber here clean.
        AllEntries-map fiber.funcs
          (λ name f here' func.
            AllEntries-map f.steps (λ id step here'' c. holds fiber f id step c) func.2)
          clean.0)
      (is_valid-IsClean ir h).0
