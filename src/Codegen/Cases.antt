-- ===== src/Codegen/Cases.antt =====
-- dsl/src/codegen.rs: the program of runtime/src/ir_spec.rs is valid, and small cases.
use maroon.Prelude.{◌+◌, [], ◌∷◌, true, ok, ◌≡◌, refl}
use maroon.Dsl.{IrType, RetValue, Expr, Step, Func, IrFiber}
use maroon.Dsl.Valid.{is_valid, vars_of, check_step}
use maroon.Codegen.Names.{camel_ident}
use maroon.Codegen.Code.{StepCode}
use maroon.Codegen.Sample.{sample_ir}
use maroon.Codegen.Sample.Functions.{test_functions_call_mult}
use maroon.Codegen.States.{func_states}
use maroon.Codegen.Emit.{step_code}

camel_case : camel_ident "in_str_value" ≡ "inStrValue"
unfolding camel_ident
camel_case = refl

-- The program of the repository is valid.
sample_ir-valid : is_valid sample_ir ≡ (true, [])
unfolding is_valid maroon.Dsl.Calls.check_init_vars maroon.Dsl.Infer.IrType-discrete
    maroon.Dsl.Checks.collect_vars_from_expr maroon.Dsl.Infer.infer_expr_type
sample_ir-valid = refl

-- The `return` of `mult` is folded into the block before it.
mult-states :
    func_states "testFunctionsCall" "mult" test_functions_call_mult
    ≡ "TestFunctionsCallMultEntry" ∷ []
unfolding func_states
mult-states = refl

-- A `let` to the second parameter.
abbrev second_param : Func
second_param = record {
  in_vars = ("a", IrType.uint64) ∷ ("b", IrType.uint64) ∷ [];
  out = IrType.uint64;
  locals = [];
  steps =
      ("entry", Step.assign "b" (Expr.uint64 1) "end")
      ∷ ("end", Step.return (RetValue.var "b"))
      ∷ [];
}

abbrev two_params : IrFiber
two_params = record { heap = []; init_vars = []; funcs = ("f", second_param) ∷ [] }

second_param-checked :
    check_step sample_ir second_param
      (vars_of two_params second_param)
      "entry"
      (Step.assign "b" (Expr.uint64 1) "end")
    ≡ []
unfolding check_step vars_of maroon.Dsl.Checks.collect_vars_from_expr
    maroon.Dsl.Infer.infer_expr_type maroon.Dsl.Infer.IrType-discrete
second_param-checked = refl

second_param-code :
    step_code sample_ir "root" "f" second_param true (Step.assign "b" (Expr.uint64 1) "end")
    ≡ ok (StepCode.assign 0 "U64" "1u64" "RootFEnd")
unfolding step_code maroon.Prelude.Decimal.digits_from
second_param-code = refl

-- A `return` that both a block and a branch go to.
abbrev shared_return : Func
shared_return = record {
  in_vars = ("a", IrType.uint64) ∷ [];
  out = IrType.uint64;
  locals = [];
  steps =
      ("entry", Step.branch (Expr.greater (Expr.var "a") (Expr.uint64 1)) "end" "add")
      ∷ ("add", Step.rust_block ("a" ∷ []) "a + 1" "end")
      ∷ ("end", Step.return (RetValue.var "a"))
      ∷ [];
}

shared_return-states : func_states "root" "f" shared_return ≡ "RootFAdd" ∷ "RootFEntry" ∷ []
unfolding func_states
shared_return-states = refl

shared_return-code :
    step_code sample_ir "root" "f" shared_return true
      (Step.branch (Expr.greater (Expr.var "a") (Expr.uint64 1)) "end" "add")
    ≡ ok (StepCode.branch "a > 1u64" "RootFEnd" "RootFAdd")
unfolding step_code maroon.Prelude.Decimal.digits_from
shared_return-code = refl
