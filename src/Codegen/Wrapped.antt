-- ===== src/Codegen/Wrapped.antt =====
-- dsl/src/codegen.rs: `collect_future_wrappers` ends if the declared types do not contain themselves.
use maroon.Prelude.{
  ℕ, zero, suc, ◌<◌, String, List, [], ◌∷◌, Option, some, Outcome, ◌≡◌, refl, arith, Bool-cases,
  Option-cases, inl, inr, Returns, Returns-bind,
}
use text.Mathlib.Text.{◌==◌ as string_beq}
use text.Mathlib.TextEquality.{eq_iff}
use maroon.Dsl.{IrType, StructFields, nil, field}
use maroon.Codegen.Exprs.{add}
use maroon.Codegen.Wrappers.{
  wrapper_name, fields_if, find_fields, collect_in, collect_fields, collect_found, visit_name,
  collect_future_wrappers,
}

module _ (rank : String → ℕ) where
  -- The names that are looked up for a type have ranks below `k`.
  abbrev pub IsBelow : ℕ → IrType → Type 0
  IsBelow k (IrType.future inner) = IsBelow k inner
  IsBelow k (IrType.option inner) = IsBelow k inner
  IsBelow k (IrType.array inner) = IsBelow k inner
  IsBelow k (IrType.max_queue inner) = IsBelow k inner
  IsBelow k (IrType.min_queue inner) = IsBelow k inner
  IsBelow k (IrType.map key value) = IsBelow k key × IsBelow k value
  IsBelow k (IrType.custom name) = rank name < k
  IsBelow k IrType.uint64 = Unit
  IsBelow k IrType.string = Unit
  IsBelow k IrType.bool = Unit
  IsBelow k IrType.void = Unit
  IsBelow k (IrType.struct name fields additions) = Unit
  IsBelow k (IrType.pub_queue_message name fields additions) = Unit

  abbrev pub AreBelow : ℕ → StructFields → Type 0
  AreBelow k nil = Unit
  AreBelow k (field name ty fields) = IsBelow k ty × AreBelow k fields

  -- A declared type refers only to types of lower ranks.
  abbrev pub IsRanked : List IrType → Type 0
  IsRanked [] = Unit
  IsRanked (IrType.struct n fields additions ∷ types) = AreBelow (rank n) fields × IsRanked types
  IsRanked (IrType.pub_queue_message n fields additions ∷ types) =
      AreBelow (rank n) fields × IsRanked types
  IsRanked (t ∷ types) = IsRanked types

  fields_if-AreBelow :
      (n name : String) (given fields : StructFields) (later : Option StructFields)
      → AreBelow (rank n) given
      → (later ≡ some fields → AreBelow (rank name) fields)
      → fields_if (string_beq n name) given later ≡ some fields
      → AreBelow (rank name) fields
  fields_if-AreBelow n name given fields later below rest h =
      elim (Bool-cases (string_beq n name)) [
        | inl hit ↦
            let same : given ≡ fields = ground (arith, rw hit at h) in
            rw (← same, ← (eq_iff n name).0 hit) below
        | inr miss ↦ rest (rw miss at h)
      ]

  IsRanked-find :
      (types : List IrType) (name : String) (fields : StructFields)
      → IsRanked types
      → find_fields types name ≡ some fields
      → AreBelow (rank name) fields
  unfolding find_fields
  IsRanked-find [] name fields r h = cc
  IsRanked-find (IrType.struct n given additions ∷ types) name fields r h =
      fields_if-AreBelow n name given fields (find_fields types name) r.0
        (IsRanked-find types name fields r.1) h
  IsRanked-find (IrType.pub_queue_message n given additions ∷ types) name fields r h =
      fields_if-AreBelow n name given fields (find_fields types name) r.0
        (IsRanked-find types name fields r.1) h
  IsRanked-find (IrType.future inner ∷ types) name fields r h = IsRanked-find types name fields r h
  IsRanked-find (IrType.option inner ∷ types) name fields r h = IsRanked-find types name fields r h
  IsRanked-find (IrType.array inner ∷ types) name fields r h = IsRanked-find types name fields r h
  IsRanked-find (IrType.max_queue inner ∷ types) name fields r h =
      IsRanked-find types name fields r h
  IsRanked-find (IrType.min_queue inner ∷ types) name fields r h =
      IsRanked-find types name fields r h
  IsRanked-find (IrType.map key value ∷ types) name fields r h = IsRanked-find types name fields r h
  IsRanked-find (IrType.custom n ∷ types) name fields r h = IsRanked-find types name fields r h
  IsRanked-find (IrType.uint64 ∷ types) name fields r h = IsRanked-find types name fields r h
  IsRanked-find (IrType.string ∷ types) name fields r h = IsRanked-find types name fields r h
  IsRanked-find (IrType.bool ∷ types) name fields r h = IsRanked-find types name fields r h
  IsRanked-find (IrType.void ∷ types) name fields r h = IsRanked-find types name fields r h

  module _ (k : ℕ) (visit : String → List String → Outcome (List String))
      (visits : (name : String) (acc : List String)
        → rank name < k
        → Returns (visit name acc)) where
    collect_in-Returns :
        (ty : IrType) (acc : List String) → IsBelow k ty → Returns (collect_in visit ty acc)
    unfolding collect_in
    collect_in-Returns (IrType.future inner) acc h =
        collect_in-Returns inner (add (wrapper_name inner) acc) h
    collect_in-Returns (IrType.option inner) acc h = collect_in-Returns inner acc h
    collect_in-Returns (IrType.array inner) acc h = collect_in-Returns inner acc h
    collect_in-Returns (IrType.max_queue inner) acc h = collect_in-Returns inner acc h
    collect_in-Returns (IrType.min_queue inner) acc h = collect_in-Returns inner acc h
    collect_in-Returns (IrType.map key value) acc h =
        Returns-bind (collect_in visit key acc) _ (collect_in-Returns key acc h.0)
          (λ keys. collect_in-Returns value keys h.1)
    collect_in-Returns (IrType.custom name) acc h = visits name acc h
    collect_in-Returns IrType.uint64 acc h = (acc, refl)
    collect_in-Returns IrType.string acc h = (acc, refl)
    collect_in-Returns IrType.bool acc h = (acc, refl)
    collect_in-Returns IrType.void acc h = (acc, refl)
    collect_in-Returns (IrType.struct name fields additions) acc h = (acc, refl)
    collect_in-Returns (IrType.pub_queue_message name fields additions) acc h = (acc, refl)

    pub collect_fields-Returns :
        (fields : StructFields) (acc : List String)
        → AreBelow k fields
        → Returns (collect_fields visit fields acc)
    unfolding collect_fields
    collect_fields-Returns nil acc h = (acc, refl)
    collect_fields-Returns (field name ty fields) acc h =
        Returns-bind (collect_in visit ty acc) _ (collect_in-Returns ty acc h.0)
          (λ more. collect_fields-Returns fields more h.1)

  pub visit_name-Returns :
      (types : List IrType) (ranked : IsRanked types) (fuel : ℕ) (name : String) (acc : List String)
      → rank name < fuel
      → Returns (visit_name fuel types name acc)
  unfolding visit_name collect_found
  visit_name-Returns types ranked zero name acc h = absurd (omega arith)
  visit_name-Returns types ranked (suc fuel) name acc h =
      elim (Option-cases (find_fields types name)) [
        | inl missing ↦ rw missing (acc, refl)
        | inr (fields, at) ↦ rw at (
            collect_fields-Returns (rank name) (visit_name fuel types)
              (λ n more below. visit_name-Returns types ranked fuel n more (omega arith)) fields acc
              (IsRanked-find types name fields ranked at))
      ]

  -- With as much fuel as the ranks of the types that a type names, the collection ends.
  pub collect_future_wrappers-Returns :
      (types : List IrType)
      → IsRanked types
      → (fuel : ℕ) (ty : IrType) (acc : List String) → IsBelow fuel ty
      → Returns (collect_future_wrappers fuel types ty acc)
  unfolding collect_future_wrappers
  collect_future_wrappers-Returns types ranked fuel ty acc h =
      collect_in-Returns fuel (visit_name fuel types) (visit_name-Returns types ranked fuel) ty acc
        h
