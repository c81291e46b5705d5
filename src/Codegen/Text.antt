-- ===== src/Codegen/Text.antt =====
-- dsl/src/codegen.rs, `generate_global_step`: the text of the arms of the generated `global_step`.
use maroon.Prelude.{ℕ, ◌+◌, String, List, [], ◌∷◌, map, Bool, true, false, Option, none, some}
use maroon.Prelude.Decimal.{to_string}
use maroon.Codegen.Names.{format, join_comma}
use maroon.Codegen.Code.{
  Binding, from_frame, from_heap, not_found, PrimitiveCode, KindCode, SetCode, ArmCode, EntryCode,
  StepCode,
}

abbrev slot_text : String → ℕ → String
slot_text variant index = format (
    "if let StackEntry::Value(_, Value::"
    ∷ variant
    ∷ "(x)) = &vars["
    ∷ to_string index
    ∷ "] { x.clone() } else { unreachable!() }"
    ∷ [])

abbrev pub binding_text : Binding → String
binding_text (from_frame name ty variant index) =
    format ("      let " ∷ name ∷ ": " ∷ ty ∷ " = " ∷ slot_text variant index ∷ ";\n" ∷ [])
binding_text (from_heap name ty heap_field) = format (
    "      let " ∷ name ∷ ": " ∷ ty ∷ " = heap." ∷ heap_field ∷ ".in_vars." ∷ name ∷ ".clone();\n"
    ∷ [])
binding_text (not_found name) = format (
    "      // NOTE: Referenced variable '" ∷ name ∷ "' not found among params/locals/init_vars.\n"
    ∷ [])

abbrev value_text : String × ℕ → String
value_text (variant, index) =
    format ("Value::" ∷ variant ∷ "(" ∷ slot_text variant index ∷ ")" ∷ [])

abbrev detail_text : String × List (String × ℕ) → String
detail_text (fiber, args) =
    format
      ("(FiberType::new(\"" ∷ fiber ∷ "\"), vec![" ∷ join_comma (map value_text args) ∷ "])" ∷ [])

abbrev bool_text : Bool → String
bool_text true = "true"
bool_text false = "false"

abbrev primitive_text : PrimitiveCode → String
primitive_text PrimitiveCode.future = "CreatePrimitiveValue::Future"
primitive_text (PrimitiveCode.queue index public) = format (
    "CreatePrimitiveValue::Queue { name: "
    ∷ slot_text "String" index
    ∷ ", public: "
    ∷ bool_text public
    ∷ " }"
    ∷ [])
primitive_text (PrimitiveCode.schedule index) =
    format ("CreatePrimitiveValue::Schedule { ms: " ∷ slot_text "U64" index ∷ " }" ∷ [])

abbrev kind_text : KindCode → String
kind_text KindCode.string = "SuccessBindKind::String"
kind_text (KindCode.future wrapper) =
    format ("SuccessBindKind::Future(FutureKind::" ∷ wrapper ∷ ")" ∷ [])

abbrev quoted : String → String
quoted name = format ("\"" ∷ name ∷ "\".to_string()" ∷ [])

abbrev set_text : SetCode → String
set_text (SetCode.queue_message q variant v) = format (
    "SetPrimitiveValue::QueueMessage { queue_name: " ∷ q ∷ ".clone(), value: Value::" ∷ variant
    ∷ "(" ∷ v ∷ ") }" ∷ [])
set_text (SetCode.future id variant v) =
    format (
      "SetPrimitiveValue::Future { id: " ∷ id ∷ ", value: Value::" ∷ variant ∷ "(" ∷ v ∷ ") }" ∷ [])

abbrev bind_text : Option String → String
bind_text none = "None"
bind_text (some name) = format ("Some(" ∷ quoted name ∷ ")" ∷ [])

abbrev arm_text : ArmCode → String
arm_text (ArmCode.queue q bind following) = format (
    "SelectArm::Queue { queue_name: "
    ∷ q
    ∷ ".clone(), bind: "
    ∷ quoted bind
    ∷ ", next: State::"
    ∷ following
    ∷ " }"
    ∷ [])
arm_text (ArmCode.future_var id bind following) = format (
    "SelectArm::FutureVar { future_id: "
    ∷ id
    ∷ ", bind: "
    ∷ bind_text bind
    ∷ ", next: State::"
    ∷ following
    ∷ " }"
    ∷ [])

abbrev entry_text : EntryCode → String
entry_text (EntryCode.state st) = format ("        StackEntry::State(State::" ∷ st ∷ "),\n" ∷ [])
entry_text (EntryCode.retrn none) = "        StackEntry::Retrn(None),\n"
entry_text (EntryCode.retrn (some offset)) =
    format ("        StackEntry::Retrn(Some(" ∷ to_string offset ∷ ")),\n" ∷ [])
entry_text (EntryCode.value name variant v) =
    format
      ("        StackEntry::Value(" ∷ quoted name ∷ ", Value::" ∷ variant ∷ "(" ∷ v ∷ ")),\n" ∷ [])

abbrev output_names : ℕ → List (ℕ × String) → List String
output_names i [] = []
output_names i (x ∷ xs) = format ("o" ∷ to_string i ∷ []) ∷ output_names (i + 1) xs

abbrev assigns_text : ℕ → List (ℕ × String) → String
assigns_text i [] = ""
assigns_text i ((index, variant) ∷ xs) = format (
    "            ( "
    ∷ to_string index
    ∷ ", Value::"
    ∷ variant
    ∷ "(o"
    ∷ to_string i
    ∷ ") ),\n"
    ∷ assigns_text (i + 1) xs
    ∷ [])

abbrev pub code_text : StepCode → String
code_text (StepCode.debug msg following) =
    format ("      StepResult::Debug(\"" ∷ msg ∷ "\", State::" ∷ following ∷ ")\n" ∷ [])
code_text (StepCode.debug_print_vars following) =
    format ("      StepResult::DebugPrintVars(State::" ∷ following ∷ ")\n" ∷ [])
code_text (StepCode.create_fibers details following) = format (
    "      StepResult::CreateFibers { details: vec!["
    ∷ join_comma (map detail_text details)
    ∷ "], next: State::"
    ∷ following
    ∷ " }\n"
    ∷ [])
code_text (StepCode.create c) = format (
    "      StepResult::Create { primitives: vec!["
    ∷ join_comma (map primitive_text c.primitives)
    ∷ "], success_next: State::"
    ∷ c.success_next
    ∷ ", success_binds: vec!["
    ∷ join_comma (map quoted c.success_binds)
    ∷ "], success_kinds: vec!["
    ∷ join_comma (map kind_text c.success_kinds)
    ∷ "], fail_next: State::"
    ∷ c.fail_next
    ∷ ", fail_binds: vec!["
    ∷ join_comma (map quoted c.fail_binds)
    ∷ "] }\n"
    ∷ [])
code_text (StepCode.set_values values following) = format (
    "      StepResult::SetValues { values: vec!["
    ∷ join_comma (map set_text values)
    ∷ "], next: State::"
    ∷ following
    ∷ " }\n"
    ∷ [])
code_text (StepCode.select arms) =
    format ("      StepResult::Select(vec![" ∷ join_comma (map arm_text arms) ∷ "])\n" ∷ [])
code_text (StepCode.next entries) =
    format ("      StepResult::Next(vec![\n" ∷ format (map entry_text entries) ∷ "      ])\n" ∷ [])
code_text (StepCode.go_to st) = format ("      StepResult::GoTo(State::" ∷ st ∷ ")\n" ∷ [])
code_text (StepCode.return variant v) =
    format ("      StepResult::Return(Value::" ∷ variant ∷ "(" ∷ v ∷ "))\n" ∷ [])
code_text StepCode.return_void = "      StepResult::ReturnVoid\n"
code_text (StepCode.branch cond then_ else_) = format (
    "      if " ∷ cond ∷ " { StepResult::GoTo(State::" ∷ then_
    ∷ ") } else { StepResult::GoTo(State::" ∷ else_ ∷ ") }\n" ∷ [])
code_text (StepCode.assign index variant v following) = format (
    "      StepResult::Next(vec![\n        StackEntry::FrameAssign(vec![( "
    ∷ to_string index
    ∷ ", Value::"
    ∷ variant
    ∷ "("
    ∷ v
    ∷ ") )]),\n        StackEntry::State(State::"
    ∷ following
    ∷ "),\n      ])\n"
    ∷ [])
code_text (StepCode.block_return code variant) = format (
    "      { let out = {\n" ∷ code ∷ "\n      }; StepResult::Return(Value::" ∷ variant
    ∷ "(out)) }\n" ∷ [])
code_text (StepCode.block_assign code index variant following) = format (
    "      { let out = {\n"
    ∷ code
    ∷ "\n      }; StepResult::Next(vec![\n          StackEntry::FrameAssign(vec![( "
    ∷ to_string index
    ∷ ", Value::"
    ∷ variant
    ∷ "(out) )]),\n          StackEntry::State(State::"
    ∷ following
    ∷ "),\n        ]) }\n"
    ∷ [])
code_text (StepCode.block_assigns code updates following) = format (
    "      { let out = {\n"
    ∷ code
    ∷ "\n      };\n        let ("
    ∷ join_comma (output_names 0 updates)
    ∷ ") = out;\n        StepResult::Next(vec![\n          StackEntry::FrameAssign(vec![\n"
    ∷ assigns_text 0 updates
    ∷ "          ]),\n          StackEntry::State(State::"
    ∷ following
    ∷ "),\n        ]) }\n"
    ∷ [])
