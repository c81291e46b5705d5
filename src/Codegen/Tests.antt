-- ===== src/Codegen/Tests.antt =====
-- dsl/src/codegen.rs, on the program of runtime/src/ir_spec.rs.
use maroon.Prelude.{
  ℕ, ◌+◌, String, List, [], ◌∷◌, ◌++◌, false, some, ok, ◌≡◌, refl, arith, All, length,
  if◌then◌else◌, Returns,
}
use maroon.Dsl.{IrType, FuncRef, Expr, Step, Func, Ir, nil, field}
use maroon.Dsl.Calls.{check_call}
use maroon.Dsl.Checks.{Vars}
use maroon.Dsl.Valid.{is_valid}
use maroon.Fiber.{StackEntry, state, retrn, value, StepResult, Fiber, again, round, assign_slots}
use maroon.Codegen.Code.{StepCode, EntryCode}
use maroon.Codegen.Sample.{sample_ir}
use maroon.Codegen.Sample.Functions.{
  test_functions_call_mult, test_functions_call_sub, test_functions_call_factorial,
}
use maroon.Codegen.Sample.Mains.{test_calculator_main}
use maroon.Codegen.States.{member, func_states, func_args_states, func_arms, state_of}
use maroon.Codegen.Slots.{bind_offset, var_index}
use text.Mathlib.Text.{◌==◌ as string_beq}
use maroon.Codegen.Generate.{generate_rust_types}
use maroon.Codegen.Ends.{generate_rust_types-Returns}
use maroon.Codegen.Futures.{futures_of}
use maroon.Codegen.Gathered.{future_wrappers-Has}
use maroon.Codegen.Gathers.{Has}
use maroon.Codegen.Emit.{step_code}
use maroon.Codegen.Covered.{func_states-covered}
use maroon.Codegen.Targets.{code_states, IsState, step_code-Names}
use maroon.Codegen.Writes.{step_code-assigns}
use maroon.Codegen.Calls.{IsValue, step_code-calls, round-binds}
use maroon.Codegen.Values.{used_types}
use maroon.Codegen.Used.{HasVariants, used_types-HasVariants}

func_states-covered_example :
    (member "TestFunctionsCallMultReturn"
        (func_args_states "testFunctionsCall" "mult" test_functions_call_mult)
      ≡ member "TestFunctionsCallMultReturn"
          (func_states "testFunctionsCall" "mult" test_functions_call_mult))
    × (member "TestFunctionsCallMultReturn"
          (func_arms "testFunctionsCall" "mult" test_functions_call_mult)
        ≡ member "TestFunctionsCallMultReturn"
            (func_states "testFunctionsCall" "mult" test_functions_call_mult))
func_states-covered_example =
    func_states-covered "testFunctionsCall" "mult" test_functions_call_mult
      "TestFunctionsCallMultReturn"

abbrev sub_target : FuncRef
sub_target = record { fiber = "testFunctionsCall"; func = "sub" }

abbrev sub_args : List Expr
sub_args = Expr.var "n" ∷ Expr.uint64 1 ∷ []

abbrev call_sub : Step
call_sub = Step.call sub_target sub_args (some "subtract_res") "factorial_call"

abbrev call_sub_code : StepCode
call_sub_code = StepCode.next (
    EntryCode.state "TestFunctionsCallFactorialFactorialCall"
    ∷ EntryCode.retrn (some 3)
    ∷ EntryCode.value "a" "U64" "n"
    ∷ EntryCode.value "b" "U64" "1u64"
    ∷ EntryCode.value "sub" "U64" "0u64"
    ∷ EntryCode.state "TestFunctionsCallSubEntry"
    ∷ [])

step_code-Names_example : All (IsState sample_ir) (code_states call_sub_code)
unfolding step_code maroon.Codegen.Exprs.find_func maroon.Prelude.Maps.contains_key
    maroon.Codegen.Jumps.block_to maroon.Prelude.Decimal.digits_from
step_code-Names_example =
    step_code-Names sample_ir "testFunctionsCall" "factorial" test_functions_call_factorial refl
      false call_sub call_sub_code ((refl, refl), tt) refl

abbrev calculate : Step
calculate =
    Step.rust_block ("result" ∷ "respFutureId" ∷ [])
      "(request.a * request.b, request.responseFutureId)" "response"

abbrev calculate_code : StepCode
calculate_code =
    StepCode.block_assigns "(request.a * request.b, request.responseFutureId)"
      ((1, "U64") ∷ (2, "FutureU64") ∷ []) "TestCalculatorMainResponse"

abbrev three : List (StackEntry ℕ ℕ)
three = value "request" 1 ∷ value "result" 2 ∷ value "respFutureId" 3 ∷ []

step_code-assigns_example :
    (frame' : List (StackEntry ℕ ℕ)) × (assign_slots
        ((1, 7) ∷ (2, 8) ∷ [])
        1
        (retrn (some 1) ∷ three)
      ≡ ok (retrn (some 1) ∷ frame'))
    × (length frame' ≡ 3)
unfolding step_code
step_code-assigns_example =
    step_code-assigns sample_ir "testCalculator" "main" test_calculator_main false calculate
      calculate_code ((1, 7) ∷ (2, 8) ∷ []) (retrn (some 1) ∷ []) three refl refl refl (omega arith)

abbrev factorial_vars : Vars
factorial_vars = ("n", IrType.uint64) ∷ ("subtract_res", IrType.uint64) ∷ []

step_code-calls_example :
    (values : List EntryCode) × (step_code sample_ir "testFunctionsCall" "factorial"
        test_functions_call_factorial false call_sub
      ≡ ok (
          StepCode.next (
            EntryCode.state (state_of "testFunctionsCall" "factorial" "factorial_call")
            ∷ EntryCode.retrn (bind_offset test_functions_call_factorial (some "subtract_res"))
            ∷ (values ++ EntryCode.state (state_of "testFunctionsCall" "sub" "entry") ∷ []))))
    × All IsValue values
    × (length values ≡ 3)
unfolding check_call maroon.Codegen.Exprs.find_func maroon.Dsl.Checks.collect_vars_from_expr
    maroon.Dsl.Infer.infer_expr_type maroon.Dsl.Infer.IrType-discrete
step_code-calls_example =
    step_code-calls sample_ir "testFunctionsCall" "factorial" test_functions_call_factorial false
      factorial_vars "subtract" sub_target sub_args (some "subtract_res") "factorial_call"
      test_functions_call_sub refl refl

abbrev arguments : ℕ → ℕ
arguments st = 1

abbrev program : ℕ → List (StackEntry ℕ ℕ) → ℕ → StepResult ℕ ℕ ℕ × ℕ
program st args heap = (StepResult.return 9, heap)

abbrev called : Fiber ℕ ℕ ℕ ℕ
called = record {
  stack =
      value "x" 0
      ∷ value "n" 5
      ∷ value "fac_call_res" 0
      ∷ value "subtract_res" 0
      ∷ value "result" 0
      ∷ state 1
      ∷ retrn (some 3)
      ∷ value "a" 5
      ∷ state 0
      ∷ [];
  heap = 0;
  function_key = "f.main";
  f_type = "f";
  unique_id = 1;
  trace_sink = [];
}

round-binds_example :
    (g : Fiber ℕ ℕ ℕ ℕ) × (round arguments program called ≡ ok (again g))
    × (g.stack
        ≡ value "x" 0
          ∷ value "n" 5
          ∷ value "fac_call_res" 0
          ∷ value "subtract_res" 9
          ∷ value "result" 0
          ∷ state 1
          ∷ [])
unfolding var_index bind_offset
round-binds_example =
    round-binds arguments program test_functions_call_factorial "subtract_res" called
      (value "x" 0 ∷ []) (value "n" 5 ∷ value "fac_call_res" 0 ∷ []) (value "result" 0 ∷ [])
      (value "a" 5 ∷ []) (value "subtract_res" 0) 1 0 9 refl refl refl refl (omega arith) refl

-- A program with a type that refers to another.
abbrev tiny_main : Func
tiny_main = record {
  in_vars = [];
  out = IrType.void;
  locals = ("x", IrType.uint64) ∷ ("node", IrType.custom "Node") ∷ [];
  steps = ("entry", Step.assign "x" (Expr.uint64 1) "end") ∷ ("end", Step.return_void) ∷ [];
}

abbrev tiny_ir : Ir
tiny_ir = record {
  types =
      IrType.struct "Node" (field "next" (IrType.future (IrType.custom "Leaf")) nil) ""
      ∷ IrType.struct "Leaf" (field "size" IrType.uint64 nil) ""
      ∷ [];
  fibers = ("root", record { heap = []; init_vars = []; funcs = ("main", tiny_main) ∷ [] }) ∷ [];
}

-- The result has a list of a type that is named, and a field of that type is a future.
abbrev waiting_ir : Ir
waiting_ir = record tiny_ir {
  fibers =
      (
        "root",
        record {
          heap = ("due", IrType.option (IrType.future IrType.uint64)) ∷ [];
          init_vars = [];
          funcs = ("main", record tiny_main { out = IrType.array (IrType.custom "Node") }) ∷ [];
        },
      )
      ∷ [];
}

abbrev tiny_rank : String → ℕ
tiny_rank name = if string_beq name "Node" then 1 else 0

generate_rust_types-Returns_example : Returns (generate_rust_types 2 tiny_ir)
unfolding is_valid maroon.Dsl.Checks.collect_vars_from_expr maroon.Dsl.Infer.infer_expr_type
    maroon.Dsl.Infer.IrType-discrete
generate_rust_types-Returns_example =
    generate_rust_types-Returns tiny_rank 2 tiny_ir refl ((((refl, tt), (tt, tt)), tt), tt)
      ((omega arith, tt), ((tt, tt), tt))
      (((omega arith, tt), ((tt, tt), tt)), ((tt, ((tt, (tt, (omega arith, tt)), tt), tt)), tt))

future_wrappers-Has_example : Has ("FutureLeaf" ∷ "FutureU64" ∷ []) (futures_of 2 waiting_ir)
unfolding maroon.Codegen.Wrappers.future_wrappers
future_wrappers-Has_example =
    future_wrappers-Has 3 2 waiting_ir ("FutureLeaf" ∷ "FutureU64" ∷ []) refl

abbrev held : String → String
held name =
    if string_beq name "U64"
    then "u64"
    else if string_beq name "ArrayNode"
    then "Vec<Node>"
    else name

used_types-HasVariants_example : All (HasVariants (used_types waiting_ir)) waiting_ir.fibers
unfolding maroon.Codegen.Types.rust_type maroon.Codegen.Types.type_variant_name
used_types-HasVariants_example =
    used_types-HasVariants held waiting_ir ((refl, (refl, (refl, tt))), tt)
