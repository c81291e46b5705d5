-- ===== src/Dsl/Valid.antt =====
-- dsl/src/ir.rs: `IR::is_valid` and `uses_correct_variables`.
use text.Mathlib.Text.{◌==◌ as string_beq}
use maroon.Prelude.{
  String, List, [], ◌∷◌, ◌++◌, Bool, true, false, ◌&&◌, ◌||◌, Option, none, some, if◌then◌else◌,
}
use maroon.Prelude.Maps.{Map, string_eq, get, insert, contains_key}
use maroon.Dsl.{StepId, FiberType, IrType, StructFields, nil, field, InVar, Step, Func, IrFiber, Ir}
use maroon.Dsl.Infer.{same_type}
use maroon.Dsl.Checks.{
  Complaint, duplicate, main_returns, no_entry, no_main, no_root, no_public_future_id, Vars, unless,
}
use maroon.Dsl.Calls.{check_details, check_call, check_return, check_branch, check_let, check_binds}
use maroon.Dsl.Primitives.{check_arms, check_set_values, check_create}

unfoldable pub check_step : Ir → Func → Vars → StepId → Step → List Complaint
unfolding check_details check_call check_return check_branch check_let check_binds check_arms
    check_set_values check_create
check_step ir f vars id (Step.call target args bind ret_to) = check_call ir vars id target args bind
check_step ir f vars id (Step.return value) = check_return f vars id value
check_step ir f vars id Step.return_void = []
check_step ir f vars id (Step.branch cond then_ else_) = check_branch ir vars id cond
check_step ir f vars id (Step.assign local e next) = check_let ir vars id local e
check_step ir f vars id (Step.rust_block binds code next) = check_binds vars id binds
check_step ir f vars id (Step.select arms) = check_arms ir vars id arms
check_step ir f vars id (Step.set_values values next) = check_set_values vars id values
check_step ir f vars id (Step.create primitives success fail) =
    check_create vars id primitives success fail
check_step ir f vars id (Step.create_fibers details next) = check_details ir vars id details
check_step ir f vars id (Step.debug text next) = []
check_step ir f vars id (Step.debug_print_vars next) = []

unfoldable pub check_steps : Ir → Func → Vars → List (StepId × Step) → List Complaint
unfolding check_step
check_steps ir f vars [] = []
check_steps ir f vars ((id, step) ∷ steps) =
    check_step ir f vars id step ++ check_steps ir f vars steps

abbrev pub duplicate_of : String → IrType → Option IrType → List Complaint
duplicate_of name ty none = []
duplicate_of name ty (some previous) = duplicate name ty previous ∷ []

-- `vars_map.insert` of each; the last of a name wins.
unfoldable pub insert_vars : Vars → List InVar → Vars
unfolding insert
insert_vars vars [] = vars
insert_vars vars ((name, ty) ∷ vs) = insert_vars (insert vars name ty) vs

unfoldable pub check_duplicates : Vars → List InVar → List Complaint
unfolding insert get
check_duplicates vars [] = []
check_duplicates vars ((name, ty) ∷ vs) =
    duplicate_of name ty (get vars name) ++ check_duplicates (insert vars name ty) vs

-- `vars_map.entry(name).or_insert_with(..)` of each.
unfoldable pub or_insert_vars : Vars → List InVar → Vars
unfolding insert contains_key
or_insert_vars vars [] = vars
or_insert_vars vars ((name, ty) ∷ vs) =
    or_insert_vars (if contains_key vars name then vars else insert vars name ty) vs

unfoldable pub vars_of : IrFiber → Func → Vars
unfolding insert_vars or_insert_vars
vars_of fiber f = or_insert_vars (insert_vars (insert_vars [] f.in_vars) f.locals) fiber.init_vars

abbrev pub some_unless_empty : List Complaint → Option (List Complaint)
some_unless_empty [] = none
some_unless_empty (c ∷ cs) = some (c ∷ cs)

unfoldable pub uses_correct_variables : Ir → IrFiber → Func → Option (List Complaint)
unfolding check_duplicates insert_vars vars_of check_steps
uses_correct_variables ir fiber f = some_unless_empty (
    check_duplicates [] f.in_vars
    ++ (check_duplicates (insert_vars [] f.in_vars) f.locals
        ++ check_steps ir f (vars_of fiber f) f.steps))

abbrev pub pushed : Option (List Complaint) → List Complaint
pushed none = []
pushed (some cs) = cs

unfoldable pub check_func : Ir → FiberType → IrFiber → String → Func → List Complaint
unfolding uses_correct_variables contains_key
check_func ir key fiber name f =
    pushed (uses_correct_variables ir fiber f)
    ++ ((if string_beq name "main"
          then unless (same_type f.out IrType.void) (main_returns key)
          else [])
        ++ unless (contains_key f.steps "entry") (no_entry key name))

unfoldable pub check_funcs : Ir → FiberType → IrFiber → Map String Func → List Complaint
unfolding check_func
check_funcs ir key fiber [] = []
check_funcs ir key fiber ((name, f) ∷ funcs) =
    check_func ir key fiber name f ++ check_funcs ir key fiber funcs

unfoldable pub check_fibers : Ir → Map FiberType IrFiber → List Complaint
unfolding check_funcs contains_key
check_fibers ir [] = []
check_fibers ir ((key, fiber) ∷ fibers) =
    check_funcs ir key fiber fiber.funcs
    ++ (unless (contains_key fiber.funcs "main") (no_main key) ++ check_fibers ir fibers)

abbrev pub is_future_id : IrType → Bool
is_future_id IrType.string = true
is_future_id (IrType.future inner) = true
is_future_id _ = false

-- Some field `public_future_id` is a string or a future.
unfoldable pub has_public_future_id : StructFields → Bool
has_public_future_id nil = false
has_public_future_id (field name ty fields) =
    (string_beq name "public_future_id" && is_future_id ty) || has_public_future_id fields

abbrev pub check_type_decl : IrType → List Complaint
check_type_decl (IrType.pub_queue_message name fields rust) =
    unless (has_public_future_id fields) (no_public_future_id name)
check_type_decl _ = []

unfoldable pub check_types : List IrType → List Complaint
unfolding has_public_future_id
check_types [] = []
check_types (t ∷ ts) = check_type_decl t ++ check_types ts

abbrev pub is_empty : List Complaint → Bool
is_empty [] = true
is_empty (c ∷ cs) = false

unfoldable pub is_valid : Ir → Bool × List Complaint
unfolding check_fibers check_types contains_key
is_valid ir =
    let explanation =
      check_fibers ir ir.fibers
      ++ (unless (contains_key ir.fibers "root") no_root ++ check_types ir.types) in
    (is_empty explanation, explanation)
