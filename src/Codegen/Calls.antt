-- ===== src/Codegen/Calls.antt =====
-- dsl/src/codegen.rs, with dsl/src/ir.rs and runtime/src/fiber.rs: a call's frame, and where its result goes.
use mathlib.Core.List.{append_assoc}
use maroon.Prelude.{
  ℕ, suc, ◌+◌, ◌-◌, ◌<◌, String, List, [], ◌∷◌, ◌++◌, Bool, Option, some, ok, ◌≡◌, refl, ap, arith,
  length, length-append, All, All-append, ◌==◌,
}
use maroon.Prelude.Maps.{string_eq, get}
use maroon.Dsl.{Expr, LocalVarRef, StepId, FiberType, InVar, FuncRef, Step, Func, Ir}
use maroon.Dsl.Checks.{Vars, unless, wrong_length, collect_vars_from_args}
use maroon.Dsl.Calls.{check_call, check_callee, func_of}
use maroon.Dsl.Clean.{append-empty, unless-empty}
use maroon.RangeKey.{u64_mod}
use maroon.Fiber.{StackEntry, state, retrn, StepResult, Fiber, again, bind_slot, round}
use maroon.Fiber.Frames.{round-returns}
use maroon.Codegen.Exprs.{find_func}
use maroon.Codegen.States.{args_count, state_of}
use maroon.Codegen.Code.{StepCode, EntryCode}
use maroon.Codegen.Slots.{var_index, bind_offset}
use maroon.Codegen.Emit.{step_code, call_args, default_locals, call_code}

abbrev pub IsValue : EntryCode → Type 0
IsValue (EntryCode.value name variant v) = Unit
IsValue (EntryCode.state st) = ⊥
IsValue (EntryCode.retrn offset) = ⊥

length-call_args :
    (params : List InVar) (args : List Expr)
    → length params ≡ length args
    → length (call_args params args) ≡ length params
unfolding call_args
length-call_args [] args h = refl
length-call_args (p ∷ params) [] h = absurd (omega (arith, h))
length-call_args ((pname, pty) ∷ params) (e ∷ es) h =
    omega (arith, length-call_args params es (omega (arith, h)))

call_args-All : (params : List InVar) (args : List Expr) → All IsValue (call_args params args)
unfolding call_args
call_args-All [] args = tt
call_args-All (p ∷ params) [] = tt
call_args-All ((pname, pty) ∷ params) (e ∷ es) = (tt, call_args-All params es)

length-default_locals : (locals : List InVar) → length (default_locals locals) ≡ length locals
unfolding default_locals
length-default_locals [] = refl
length-default_locals ((lname, lty) ∷ locals) = ap suc (length-default_locals locals)

default_locals-All : (locals : List InVar) → All IsValue (default_locals locals)
unfolding default_locals
default_locals-All [] = tt
default_locals-All ((lname, lty) ∷ locals) = (tt, default_locals-All locals)

check_callee-length :
    (ir : Ir) (vars : Vars) (id : StepId) (args : List Expr) (bind : Option LocalVarRef)
    (callee : Func)
    → check_callee ir vars id args bind (some callee) ≡ []
    → length callee.in_vars ≡ length args
check_callee-length ir vars id args bind callee clean =
    let n = length callee.in_vars in
    let first = append-empty (unless (n == length args) (wrong_length id n (length args))) clean in
    ground (arith, unless-empty (n == length args) (wrong_length id n (length args)) first.0)

check_call-length :
    (ir : Ir) (vars : Vars) (id : StepId) (target : FuncRef) (args : List Expr)
    (bind : Option LocalVarRef) (callee : Func)
    → check_call ir vars id target args bind ≡ []
    → find_func ir target.fiber target.func ≡ some callee
    → length callee.in_vars ≡ length args
unfolding check_call find_func
check_call-length ir vars id target args bind callee clean found =
    let later = (append-empty (collect_vars_from_args args vars id) clean).1 in
    let found_callee = func_of (get ir.fibers target.fiber) target.func in
    check_callee-length ir vars id args bind callee
      (rw found at (append-empty (check_callee ir vars id args bind found_callee) later).0)

-- A call that the check of the program has no message on, of a function that is declared: the code pushes
-- the state to return to, the return marker, one value for each slot of the callee's frame, and the
-- callee's entry.
pub step_code-calls :
    (ir : Ir) (fiber : FiberType) (name : String) (func : Func) (is_entry : Bool) (vars : Vars)
    (id : StepId) (target : FuncRef) (args : List Expr) (bind : Option LocalVarRef)
    (ret_to : StepId) (callee : Func)
    → check_call ir vars id target args bind ≡ []
    → find_func ir target.fiber target.func ≡ some callee
    → (values : List EntryCode) × (step_code ir fiber name func is_entry
          (Step.call target args bind ret_to)
        ≡ ok (
            StepCode.next (
              EntryCode.state (state_of fiber name ret_to)
              ∷ EntryCode.retrn (bind_offset func bind)
              ∷ (values ++ EntryCode.state (state_of target.fiber target.func "entry") ∷ []))))
      × All IsValue values
      × (length values ≡ args_count callee)
unfolding step_code call_code
step_code-calls ir fiber name func is_entry vars id target args bind ret_to callee clean found =
    let params = call_args callee.in_vars args in
    let locals = default_locals callee.locals in
    let same = check_call-length ir vars id target args bind callee clean found in
    (
      params ++ locals,
      rw
          (
            found,
            step_code,
            call_code,
            append_assoc params locals
                (EntryCode.state (state_of target.fiber target.func "entry") ∷ []),
          )
          refl,
      All-append IsValue params locals (call_args-All callee.in_vars args)
          (default_locals-All callee.locals),
      omega (
        arith,
        length-append params locals,
        length-call_args callee.in_vars args same,
        length-default_locals callee.locals,
      ),
    )

-- A call that binds its result: the code puts an offset into the return marker. When the callee's last
-- state returns a value to that marker, the fiber goes on with the caller's frame and the state to return
-- to, and of the frame just the slot of the bound variable has changed: it holds the value.
pub round-binds :
    {St V K H : Type 0} (func_args_count : St → ℕ)
    (global_step : St → List (StackEntry St V) → H → StepResult St V K × H) (func : Func)
    (bind : LocalVarRef) (f : Fiber St V K H) (below pre post args : List (StackEntry St V))
    (slot : StackEntry St V) (ret_to st : St) (val : V)
    → var_index func bind ≡ some (length pre)
    → length (pre ++ slot ∷ post) ≡ args_count func
    → f.stack
      ≡ (((below ++ pre) ++ slot ∷ (post ++ state ret_to ∷ []))
          ++ retrn (bind_offset func (some bind)) ∷ [])
        ++ (args ++ state st ∷ [])
    → length args ≡ func_args_count st
    → length below + args_count func + 1 < u64_mod
    → (global_step st args f.heap).0 ≡ StepResult.return val
    → (g : Fiber St V K H) × (round func_args_count global_step f ≡ ok (again g))
      × (g.stack ≡ (below ++ pre) ++ bind_slot "ret" val slot ∷ (post ++ state ret_to ∷ []))
unfolding bind_offset
round-binds {St} {V} func_args_count global_step func bind f below pre post args slot ret_to st val
      at len s count fits returns =
    let back : List (StackEntry St V) = post ++ state ret_to ∷ [] in
    let size = length-append pre (slot ∷ post) in
    let back_size = length-append post (state ret_to ∷ []) in
    let offset : (args_count func + 1) - length pre ≡ length back + 1 =
      omega (arith, size, back_size, len) in
    let (g, run, stack, heap) =
      round-returns func_args_count global_step f (below ++ pre) back args slot st val
        (rw (at, offset) at s) count
        (omega (arith, size, back_size, len, fits, length-append below pre)) returns in
    (g, run, stack)
