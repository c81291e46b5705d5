-- ===== src/Dsl/Scope.antt =====
-- dsl/src/ir.rs: the variables in scope of a function, and the names that may stand in one.
use maroon.Prelude.{
  String, List, [], ◌∷◌, false, Option, none, some, ◌≡◌, refl, arith, if◌then◌else◌, Bool-cases,
  inl, inr,
}
use maroon.Prelude.Maps.{
  string_eq, get, insert, contains_key, get-insert, contains_key-insert, contains_key-get,
  HasDistinctKeys, AllEntries, get-none,
}
use maroon.Dsl.{IrType, InVar, Func, IrFiber}
use maroon.Dsl.Checks.{Vars}
use maroon.Dsl.Valid.{insert_vars, or_insert_vars, vars_of, check_duplicates, duplicate_of}
use maroon.Dsl.Clean.{append-empty}

abbrev pub or_else {ℓ} : {A : Type ℓ} → Option A → Option A → Option A
or_else none o = o
or_else (some a) o = some a

get-insert_vars :
    (vars : Vars) (vs : List InVar) (name : String)
    → HasDistinctKeys vs
    → get (insert_vars vars vs) name ≡ or_else (get vs name) (get vars name)
unfolding insert_vars get
get-insert_vars vars [] name d = refl
get-insert_vars vars ((n, ty) ∷ vs) name d = elim (Bool-cases (string_eq.beq n name)) [
  | inl same ↦
      let gone : get vs name ≡ none =
        get-none vs name (rw (← (string_eq.beq_iff n name).0 same) d.0) in
      ground
        (arith, get-insert_vars (insert vars n ty) vs name d.1, get-insert vars n name ty, gone)
  | inr apart ↦
      ground (arith, get-insert_vars (insert vars n ty) vs name d.1, get-insert vars n name ty)
]

get-or_insert :
    (vars : Vars) (n : String) (ty : IrType) (name : String)
    → get (if contains_key vars n then vars else insert vars n ty) name
      ≡ or_else (get vars name) (if string_eq.beq n name then some ty else none)
get-or_insert vars n ty name = elim (Bool-cases (string_eq.beq n name)) [
  | inl same ↦ rw same (
      rw (← (string_eq.beq_iff n name).0 same) (elim (Bool-cases (contains_key vars n)) [
        | inl here ↦ let (v, at) = contains_key-get vars n here in rw here (rw at refl)
        | inr new ↦ rw new (
            rw (get-insert vars n n ty)
              (rw ((string_eq.beq_iff n n).1 refl) (rw (get-none vars n new) refl)))
      ]))
  | inr apart ↦ elim (Bool-cases (contains_key vars n)) [
    | inl here ↦ rw here (rw apart (or_else-none (get vars name)))
    | inr new ↦ rw new (rw (get-insert vars n name ty) (rw apart (or_else-none (get vars name))))
  ]
]
  where
    or_else-none : (o : Option IrType) → o ≡ or_else o none
    or_else-none none = refl
    or_else-none (some a) = refl

get-or_insert_vars :
    (vars : Vars) (vs : List InVar) (name : String)
    → get (or_insert_vars vars vs) name ≡ or_else (get vars name) (get vs name)
unfolding or_insert_vars get
get-or_insert_vars vars [] name = ground arith
get-or_insert_vars vars ((n, ty) ∷ vs) name = ground (
  arith,
  get-or_insert_vars (if contains_key vars n then vars else insert vars n ty) vs name,
  get-or_insert vars n ty name,
)

-- In a function whose parameters have different names, and whose locals have different names, a
-- variable is the local of its name, or else the parameter, or else the variable that the fiber starts
-- with.
pub get-vars_of :
    (fiber : IrFiber) (f : Func) (name : String)
    → HasDistinctKeys f.in_vars
    → HasDistinctKeys f.locals
    → get (vars_of fiber f) name
      ≡ or_else (get f.locals name) (or_else (get f.in_vars name) (get fiber.init_vars name))
unfolding vars_of get
get-vars_of fiber f name d d' =
    let params = insert_vars [] f.in_vars in
    ground (
      arith,
      get-or_insert_vars (insert_vars params f.locals) fiber.init_vars name,
      get-insert_vars params f.locals name d',
      get-insert_vars [] f.in_vars name d,
    )

duplicate_of-empty :
    (vars : Vars) (name : String) (ty : IrType)
    → duplicate_of name ty (get vars name) ≡ []
    → contains_key vars name ≡ false
duplicate_of-empty vars name ty h = elim (Bool-cases (contains_key vars name)) [
  | inl here ↦ let (v, at) = contains_key-get vars name here in cc (rw at at h)
  | inr new ↦ new
]

AllEntries-apart :
    (vars : Vars) (name : String) (ty : IrType) (vs : List InVar)
    → AllEntries (λ n t. contains_key (insert vars name ty) n ≡ false) vs
    → (contains_key vs name ≡ false) × AllEntries (λ n t. contains_key vars n ≡ false) vs
unfolding contains_key
AllEntries-apart vars name ty [] all = (refl, tt)
AllEntries-apart vars name ty ((n, t) ∷ vs) all =
    let (out, apart) = AllEntries-apart vars name ty vs all.1 in
    let inserted = contains_key-insert vars name n ty in
    (
      ground (arith, out, inserted, all.0, string_eq.beq_iff n name, string_eq.beq_iff name n),
      (ground (arith, inserted, all.0), apart),
    )

-- No name stands twice, and none is in scope already.
pub check_duplicates-distinct :
    (vars : Vars) (vs : List InVar)
    → check_duplicates vars vs ≡ []
    → HasDistinctKeys vs × AllEntries (λ n t. contains_key vars n ≡ false) vs
unfolding check_duplicates
check_duplicates-distinct vars [] h = (tt, tt)
check_duplicates-distinct vars ((name, ty) ∷ vs) h =
    let (new, rest) = append-empty (duplicate_of name ty (get vars name)) h in
    let (distinct, later) = check_duplicates-distinct (insert vars name ty) vs rest in
    let (out, apart) = AllEntries-apart vars name ty vs later in
    ((out, distinct), (duplicate_of-empty vars name ty new, apart))
