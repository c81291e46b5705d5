-- ===== src/Codegen/Names.antt =====
-- dsl/src/codegen.rs: the names that the generated code gives to types, fields and states.
use Prim.Native.Char.{Char, code}
use Prim.Native.String.{◌++◌ as text_append, char_at}
use maroon.Prelude.{
  String, List, [], ◌∷◌, map, Bool, false, ◌&&◌, ◌||◌, ◌-◌, leb, ◌==◌, if◌then◌else◌,
}

-- `format!`, and `join("")`: the pieces in order.
abbrev pub format : List String → String
format [] = ""
format (s ∷ ss) = text_append s (format ss)

-- `join(", ")`
abbrev pub join_comma : List String → String
join_comma [] = ""
join_comma (s ∷ []) = s
join_comma (s ∷ t ∷ ss) = text_append s (text_append ", " (join_comma (t ∷ ss)))

unfoldable pub to_ascii_uppercase : Char → Char
to_ascii_uppercase c =
    if leb b'a' (code c) && leb (code c) b'z'
    then char_at "ABCDEFGHIJKLMNOPQRSTUVWXYZ" (code c - b'a')
    else c

unfoldable pub to_ascii_lowercase : Char → Char
to_ascii_lowercase c =
    if leb b'A' (code c) && leb (code c) b'Z'
    then char_at "abcdefghijklmnopqrstuvwxyz" (code c - b'A')
    else c

-- `contains('_')`
unfoldable pub has_underscore : String → Bool
has_underscore String.[] = false
has_underscore (String.◌∷◌ c s) = code c == b'_' || has_underscore s

abbrev onto_first : Char → List String → List String
onto_first c [] = String.◌∷◌ c String.[] ∷ []
onto_first c (part ∷ parts) = String.◌∷◌ c part ∷ parts

-- `split('_')`
unfoldable pub split_underscore : String → List String
split_underscore String.[] = String.[] ∷ []
split_underscore (String.◌∷◌ c s) =
    let parts = split_underscore s in
    if code c == b'_' then String.[] ∷ parts else onto_first c parts

unfoldable pub lowercase : String → String
unfolding to_ascii_lowercase
lowercase String.[] = String.[]
lowercase (String.◌∷◌ c s) = String.◌∷◌ (to_ascii_lowercase c) (lowercase s)

-- What a part adds to the name: nothing if it is empty.
unfoldable pub capitalize : String → String
unfolding to_ascii_uppercase lowercase
capitalize String.[] = String.[]
capitalize (String.◌∷◌ c s) = String.◌∷◌ (to_ascii_uppercase c) (lowercase s)

abbrev or_underscore : String → String
or_underscore String.[] = "_"
or_underscore (String.◌∷◌ c s) = String.◌∷◌ c s

abbrev uppercase_first : String → String
unfolding to_ascii_uppercase
uppercase_first String.[] = "_"
uppercase_first (String.◌∷◌ c s) = String.◌∷◌ (to_ascii_uppercase c) s

abbrev lowercase_first : String → String
unfolding to_ascii_lowercase
lowercase_first String.[] = String.[]
lowercase_first (String.◌∷◌ c s) = String.◌∷◌ (to_ascii_lowercase c) s

unfoldable pub pascal_case : String → String
unfolding has_underscore split_underscore capitalize uppercase_first
pascal_case raw =
    if has_underscore raw
    then or_underscore (format (map capitalize (split_underscore raw)))
    else uppercase_first raw

unfoldable pub camel_ident : String → String
unfolding pascal_case lowercase_first
camel_ident raw = lowercase_first (pascal_case raw)

unfoldable pub variant_name : List String → String
unfolding pascal_case
variant_name parts = format (map pascal_case parts)
