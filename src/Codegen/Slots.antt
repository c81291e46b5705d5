-- ===== src/Codegen/Slots.antt =====
-- dsl/src/codegen.rs: where the variables of a function stand in its frame.
use text.Mathlib.Text.{◌==◌ as string_beq}
use maroon.Prelude.{
  ℕ, suc, ◌+◌, ◌-◌, String, List, [], ◌∷◌, Option, none, some, if◌then◌else◌, length,
}
use maroon.Dsl.{LocalVarRef, InVar, Func}
use maroon.Codegen.States.{args_count}

-- `iter().position(..)` by the name.
unfoldable pub position : List InVar → String → Option ℕ
position [] name = none
position ((n, ty) ∷ vars) name =
    let rest = position vars name in
    if string_beq n name then some 0 else elim rest [ none ↦ none | some i ↦ some (suc i) ]

abbrev pub local_index : Func → Option ℕ → ℕ
local_index func none = 0
local_index func (some i) = length func.in_vars + i

abbrev param_index : Func → String → Option ℕ → ℕ
unfolding position
param_index func name (some i) = i
param_index func name none = local_index func (position func.locals name)

-- `idx_expr` and `pos_expr`: the slot of a variable in the frame, 0 for a name that is not declared.
unfoldable pub frame_index : Func → String → ℕ
unfolding position param_index
frame_index func name = param_index func name (position func.in_vars name)

-- The slot that `Step::Let` writes: parameters are not looked for.
unfoldable pub let_index : Func → String → ℕ
unfolding position
let_index func name = local_index func (position func.locals name)

abbrev pub locals_index : Func → Option ℕ → Option ℕ
locals_index func none = none
locals_index func (some li) = some (length func.in_vars + li)

abbrev pub var_index_from : Func → String → Option ℕ → Option ℕ
unfolding position
var_index_from func name (some pi) = some pi
var_index_from func name none = locals_index func (position func.locals name)

unfoldable pub var_index : Func → String → Option ℕ
unfolding position var_index_from
var_index func name = var_index_from func name (position func.in_vars name)

-- How far under the return marker the slot of the result is; one more for the state between them.
abbrev pub slot_offset : Func → Option ℕ → Option ℕ
slot_offset func none = none
slot_offset func (some index) = some ((args_count func + 1) - index)

unfoldable pub bind_offset : Func → Option LocalVarRef → Option ℕ
unfolding var_index
bind_offset func none = none
bind_offset func (some name) = slot_offset func (var_index func name)
