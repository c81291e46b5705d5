-- ===== src/Codegen/Sample/Functions.antt =====
-- runtime/src/ir_spec.rs: the functions of the fiber `testFunctionsCall`.
use maroon.Prelude.{[], ◌∷◌, some}
use maroon.Dsl.{IrType, Expr, RetValue, Step, Func}

abbrev pub test_functions_call_main : Func
test_functions_call_main = record {
  in_vars = [];
  out = IrType.void;
  locals =
      (("multResult", IrType.uint64)
        ∷ ("factorialResult", IrType.uint64)
        ∷ ("binarySearchResult", (IrType.option IrType.uint64))
        ∷ ("binarySearchLeft", IrType.uint64)
        ∷ ("binarySearchRight", IrType.uint64)
        ∷ []);
  steps =
      (("entry", Step.debug_print_vars "multiply")
        ∷ (
          "multiply",
          Step.call (record { fiber = "testFunctionsCall"; func = "mult" })
              ((Expr.var "multa") ∷ (Expr.var "multb") ∷ []) (some "multResult") "after_multiply",
        )
        ∷ ("after_multiply", Step.debug_print_vars "factorial")
        ∷ (
          "factorial",
          Step.call (record { fiber = "testFunctionsCall"; func = "factorial" })
              ((Expr.var "factorialStart") ∷ []) (some "factorialResult") "after_factorial",
        )
        ∷ ("after_factorial", Step.debug_print_vars "set_b_search_values")
        ∷ (
          "set_b_search_values",
          Step.rust_block ("binarySearchLeft" ∷ "binarySearchRight" ∷ [])
              "\n                      heap.testFunctionsCall.binarySearchValues = binarySearchArray.clone();\n                    (0u64, (binarySearchArray.len() as u64)-1)\n                      "
              "binary_search",
        )
        ∷ (
          "binary_search",
          Step.call (record { fiber = "testFunctionsCall"; func = "binary_search" })
              ((Expr.var "binarySearchTarget")
                ∷ (Expr.var "binarySearchLeft")
                ∷ (Expr.var "binarySearchRight")
                ∷ [])
              (some "binarySearchResult") "after_binary",
        )
        ∷ ("after_binary", Step.debug_print_vars "finish")
        ∷ ("finish", Step.return_void)
        ∷ []);
}

abbrev pub test_functions_call_mult : Func
test_functions_call_mult = record {
  in_vars = (("a", IrType.uint64) ∷ ("b", IrType.uint64) ∷ []);
  out = IrType.uint64;
  locals = (("mult", IrType.uint64) ∷ []);
  steps =
      (("entry", Step.rust_block ("mult" ∷ []) "a*b" "return")
        ∷ ("return", Step.return (RetValue.var "mult"))
        ∷ []);
}

abbrev pub test_functions_call_sub : Func
test_functions_call_sub = record {
  in_vars = (("a", IrType.uint64) ∷ ("b", IrType.uint64) ∷ []);
  out = IrType.uint64;
  locals = (("sub", IrType.uint64) ∷ []);
  steps =
      (("entry", Step.rust_block ("sub" ∷ []) "\nlet out = a - b;\nout\n" "return")
        ∷ ("return", Step.return (RetValue.var "sub"))
        ∷ []);
}

abbrev pub test_functions_call_factorial : Func
test_functions_call_factorial = record {
  in_vars = (("n", IrType.uint64) ∷ []);
  out = IrType.uint64;
  locals =
      (("fac_call_res", IrType.uint64)
        ∷ ("subtract_res", IrType.uint64)
        ∷ ("result", IrType.uint64)
        ∷ []);
  steps =
      (("entry", Step.branch (Expr.equal (Expr.var "n") (Expr.uint64 1)) "return_1" "subtract")
        ∷ ("return_1", Step.return (RetValue.uint64 1))
        ∷ (
          "subtract",
          Step.call (record { fiber = "testFunctionsCall"; func = "sub" })
              ((Expr.var "n") ∷ (Expr.uint64 1) ∷ []) (some "subtract_res") "factorial_call",
        )
        ∷ (
          "factorial_call",
          Step.call (record { fiber = "testFunctionsCall"; func = "factorial" })
              ((Expr.var "subtract_res") ∷ []) (some "fac_call_res") "multiply",
        )
        ∷ (
          "multiply",
          Step.call (record { fiber = "testFunctionsCall"; func = "mult" })
              ((Expr.var "n") ∷ (Expr.var "fac_call_res") ∷ []) (some "result") "return",
        )
        ∷ ("return", Step.return (RetValue.var "result"))
        ∷ []);
}

abbrev pub test_functions_call_binary_search : Func
test_functions_call_binary_search = record {
  in_vars = (("e", IrType.uint64) ∷ ("left", IrType.uint64) ∷ ("right", IrType.uint64) ∷ []);
  out = (IrType.option IrType.uint64);
  locals =
      (("div", IrType.uint64)
        ∷ ("v_by_index_div", IrType.uint64)
        ∷ ("fac_call_res", (IrType.option IrType.uint64))
        ∷ []);
  steps =
      ((
        "entry",
        Step.branch (Expr.greater (Expr.var "left") (Expr.var "right")) "return_None"
            "calculate_div",
      )
        ∷ ("return_None", Step.return RetValue.none)
        ∷ (
          "calculate_div",
          Step.rust_block ("div" ∷ "v_by_index_div" ∷ [])
              "\n                    let o_div = (left + right) / 2;\n                    let s = &heap.testFunctionsCall;\n                    (o_div, s.binarySearchValues[o_div as usize])\n                    "
              "return_if_equal",
        )
        ∷ (
          "return_if_equal",
          Step.branch (Expr.equal (Expr.var "v_by_index_div") (Expr.var "e")) "return_found"
              "cmp_less",
        )
        ∷ ("return_found", Step.return (RetValue.some (RetValue.var "div")))
        ∷ (
          "cmp_less",
          Step.branch (Expr.less (Expr.var "v_by_index_div") (Expr.var "e")) "go_right"
              "go_left_check_overflow",
        )
        ∷ (
          "go_right",
          Step.call (record { fiber = "testFunctionsCall"; func = "add" })
              ((Expr.var "div") ∷ (Expr.uint64 1) ∷ []) (some "left") "recursive_call",
        )
        ∷ (
          "go_left_check_overflow",
          Step.branch (Expr.less (Expr.var "div") (Expr.uint64 0)) "return_None" "go_left",
        )
        ∷ (
          "go_left",
          Step.call (record { fiber = "testFunctionsCall"; func = "sub" })
              ((Expr.var "div") ∷ (Expr.uint64 1) ∷ []) (some "right") "recursive_call",
        )
        ∷ (
          "recursive_call",
          Step.call (record { fiber = "testFunctionsCall"; func = "binary_search" })
              ((Expr.var "e") ∷ (Expr.var "left") ∷ (Expr.var "right") ∷ []) (some "fac_call_res")
              "return_result",
        )
        ∷ ("return_result", Step.return (RetValue.var "fac_call_res"))
        ∷ []);
}
