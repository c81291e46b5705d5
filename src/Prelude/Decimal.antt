-- ===== src/Prelude/Decimal.antt =====
-- `format!("{}", n)` of a number.
use Prim.Native.String.{String, ◌++◌ as text_append}
use Prim.Native.Nat.{ℕ, zero, suc, ◌/◌, ◌%◌}
use mathlib.Core.List.{List, [], ◌∷◌}
use mathlib.Core.Option.{Option, none, some}
use maroon.Prelude.Tests.{ltb, if◌then◌else◌}
use maroon.Prelude.Lists.{get_elem?}

abbrev digits : List String
digits = "0" ∷ "1" ∷ "2" ∷ "3" ∷ "4" ∷ "5" ∷ "6" ∷ "7" ∷ "8" ∷ "9" ∷ []

abbrev digit_or : Option String → String
digit_or none = ""
digit_or (some d) = d

-- The decimal digits of a number; as many rounds as the number are enough.
unfoldable pub digits_from : ℕ → ℕ → String
digits_from zero n = digit_or (get_elem? digits n)
digits_from (suc fuel) n =
    let before = digits_from fuel (n / 10) in
    if ltb n 10
    then digit_or (get_elem? digits n)
    else text_append before (digit_or (get_elem? digits (n % 10)))

abbrev pub to_string : ℕ → String
to_string n = digits_from n n
