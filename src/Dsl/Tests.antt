-- ===== src/Dsl/Tests.antt =====
-- dsl/src/ir.rs: a program with the steps of every kind that has variables, and what is said of it.
use maroon.Prelude.{[], ◌∷◌, true, none, some, ◌≡◌, refl}
use maroon.Prelude.Maps.{string_eq, contains_key, HasDistinctKeys}
use maroon.Dsl.{
  StepId, FiberType, IrType, StructFields, nil, field, InVar, Expr, RetValue, AwaitSpec,
  SetPrimitive, RuntimePrimitive, Step, Func, IrFiber, Ir,
}
use maroon.Dsl.Checks.{Complaint, Vars}
use maroon.Dsl.Valid.{is_valid}
use maroon.Dsl.Shape.{HasShape, is_valid-HasShape}

abbrev larger : Func
larger = record {
  in_vars = ("a", IrType.uint64) ∷ ("b", IrType.uint64) ∷ [];
  out = IrType.uint64;
  locals = [];
  steps =
      ("entry", Step.branch (Expr.greater (Expr.var "a") (Expr.var "b")) "first" "second")
      ∷ ("first", Step.return (RetValue.var "a"))
      ∷ ("second", Step.return (RetValue.var "b"))
      ∷ [];
}

abbrev main : Func
main = record {
  in_vars = [];
  out = IrType.void;
  locals =
      ("ms", IrType.uint64)
      ∷ ("timer", IrType.future IrType.void)
      ∷ ("answer", IrType.future IrType.uint64)
      ∷ ("problem", IrType.option IrType.string)
      ∷ ("message", IrType.custom "Vote")
      ∷ [];
  steps =
      ("entry", Step.assign "ms" (Expr.uint64 10) "ask")
      ∷ (
        "ask",
        Step.call (record { fiber = "root"; func = "larger" }) (Expr.var "ms" ∷ Expr.uint64 3 ∷ [])
            (some "ms") "create",
      )
      ∷ (
        "create",
        Step.create (RuntimePrimitive.schedule "ms" ∷ [])
            (record { next = "wait"; id_binds = "timer" ∷ [] })
            (record { next = "done"; error_binds = "problem" ∷ [] }),
      )
      ∷ (
        "wait",
        Step.select
            (AwaitSpec.queue "votes" "message" "set" ∷ AwaitSpec.future none "set" "timer" ∷ []),
      )
      ∷ ("set", Step.set_values (SetPrimitive.future "answer" "ms" ∷ []) "done")
      ∷ ("done", Step.return_void)
      ∷ [];
}

abbrev root : IrFiber
root = record {
  heap = [];
  init_vars = ("votes", IrType.string) ∷ [];
  funcs = ("larger", larger) ∷ ("main", main) ∷ [];
}

abbrev program : Ir
program = record {
  types =
      IrType.pub_queue_message "Vote" (field "public_future_id" (IrType.future IrType.bool) nil) ""
      ∷ [];
  fibers = ("root", root) ∷ [];
}

program-valid : (is_valid program).0 ≡ true
unfolding is_valid maroon.Dsl.Checks.collect_vars_from_expr maroon.Dsl.Infer.infer_expr_type
    maroon.Dsl.Infer.IrType-discrete
program-valid = refl

-- A program whose call has an argument of another type.
abbrev mistyped : Ir
mistyped = record {
  types = [];
  fibers =
      (
        "root",
        record {
          heap = [];
          init_vars = [];
          funcs =
              (
                "main",
                record {
                  in_vars = [];
                  out = IrType.void;
                  locals = ("x", IrType.string) ∷ [];
                  steps =
                      (
                        "entry",
                        Step.call (record { fiber = "root"; func = "main" }) (Expr.str "y" ∷ [])
                            (some "x") "gone",
                      )
                      ∷ [];
                },
              )
              ∷ [];
        },
      )
      ∷ [];
}

mistyped-explained :
    (is_valid mistyped).1
    ≡ Complaint.wrong_length "entry" 0 1
      ∷ Complaint.mismatch "entry" "x" IrType.void IrType.string
      ∷ []
unfolding is_valid maroon.Dsl.Checks.collect_vars_from_expr maroon.Dsl.Infer.infer_expr_type
    maroon.Dsl.Infer.IrType-discrete
mistyped-explained = refl

is_valid-HasShape_example : HasShape program
is_valid-HasShape_example = is_valid-HasShape program program-valid

distinct-main : HasDistinctKeys main.locals
unfolding contains_key
distinct-main = (refl, (refl, (refl, (refl, (refl, tt)))))
