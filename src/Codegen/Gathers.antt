-- ===== src/Codegen/Gathers.antt =====
-- dsl/src/codegen.rs, `collect_future_wrappers`: what it adds for a type, and for the fields of a name.
use maroon.Prelude.{
  ℕ, zero, suc, String, List, [], ◌∷◌, ◌++◌, true, Option, none, some, Outcome, ok, panic, hang,
  ◌>>=◌, ◌≡◌, arith, All, OnOk,
}
use text.Mathlib.TextEquality.{eq_iff}
use maroon.Dsl.{IrType, StructFields, nil, field}
use maroon.Codegen.Exprs.{add}
use maroon.Codegen.States.{member}
use maroon.Codegen.Futures.{futures_in, futures_of_fields, futures_of_found, futures_named}
use maroon.Codegen.Members.{member-add}
use maroon.Codegen.Wrappers.{
  wrapper_name, find_fields, collect_in, collect_fields, collect_found, visit_name,
}

abbrev pub Has : List String → List String → Type 0
Has all ws = All (λ w. member w all ≡ true) ws

abbrev pub Grows : List String → List String → Type 0
Grows acc all = (w : String) → member w acc ≡ true → member w all ≡ true

-- The result, if there is one, has all that was there and all of `ws`.
abbrev pub Gathers : List String → List String → Outcome (List String) → Type 0
Gathers acc ws m = OnOk (λ all. Grows acc all × Has all ws) m

Has-Grows : (ws acc all : List String) → Grows acc all → Has acc ws → Has all ws
Has-Grows [] acc all g h = tt
Has-Grows (w ∷ ws) acc all g h = (g w h.0, Has-Grows ws acc all g h.1)

Has-append : (ws vs all : List String) → Has all ws → Has all vs → Has all (ws ++ vs)
Has-append [] vs all h k = k
Has-append (w ∷ ws) vs all h k = (h.0, Has-append ws vs all h.1 k)

Gathers-after :
    (m : Outcome (List String)) (acc mid ws vs : List String)
    → Grows acc mid
    → Has mid ws
    → Gathers mid vs m
    → Gathers acc (ws ++ vs) m
Gathers-after (ok all) acc mid ws vs grows has rest = (
  λ w here. rest.0 w (grows w here),
  Has-append ws vs all (Has-Grows ws mid all rest.0 has) rest.1,
)
Gathers-after panic acc mid ws vs grows has rest = tt
Gathers-after hang acc mid ws vs grows has rest = tt

Gathers-none :
    (m : Outcome (List String)) (acc ws : List String) → Gathers acc ws m → Gathers acc [] m
Gathers-none (ok all) acc ws h = (h.0, tt)
Gathers-none panic acc ws h = tt
Gathers-none hang acc ws h = tt

pub Gathers-bind :
    (m : Outcome (List String)) (f : List String → Outcome (List String)) (acc ws vs : List String)
    → Gathers acc ws m
    → ((mid : List String) → Gathers mid vs (f mid))
    → Gathers acc (ws ++ vs) (m >>= f)
Gathers-bind (ok mid) f acc ws vs first rest =
    Gathers-after (f mid) acc mid ws vs first.0 first.1 (rest mid)
Gathers-bind panic f acc ws vs first rest = tt
Gathers-bind hang f acc ws vs first rest = tt

module _ (named : String → List String) (visit : String → List String → Outcome (List String))
    (visits : (name : String) (acc : List String) → Gathers acc (named name) (visit name acc)) where
  pub collect_in-Gathers :
      (ty : IrType) (acc : List String)
      → Gathers acc (futures_in named ty) (collect_in visit ty acc)
  unfolding collect_in
  collect_in-Gathers (IrType.future inner) acc =
      Gathers-after (collect_in visit inner (add (wrapper_name inner) acc)) acc
        (add (wrapper_name inner) acc) (wrapper_name inner ∷ []) (futures_in named inner)
        (λ w here. ground (arith, member-add w (wrapper_name inner) acc))
        (
          ground (
            arith,
            member-add (wrapper_name inner) (wrapper_name inner) acc,
            eq_iff (wrapper_name inner) (wrapper_name inner),
          ),
          tt,
        )
        (collect_in-Gathers inner (add (wrapper_name inner) acc))
  collect_in-Gathers (IrType.option inner) acc = collect_in-Gathers inner acc
  collect_in-Gathers (IrType.array inner) acc = collect_in-Gathers inner acc
  collect_in-Gathers (IrType.max_queue inner) acc = collect_in-Gathers inner acc
  collect_in-Gathers (IrType.min_queue inner) acc = collect_in-Gathers inner acc
  collect_in-Gathers (IrType.map key value) acc =
      Gathers-bind (collect_in visit key acc) _ acc (futures_in named key) (futures_in named value)
        (collect_in-Gathers key acc) (collect_in-Gathers value)
  collect_in-Gathers (IrType.custom name) acc = visits name acc
  collect_in-Gathers IrType.uint64 acc = (λ w here. here, tt)
  collect_in-Gathers IrType.string acc = (λ w here. here, tt)
  collect_in-Gathers IrType.bool acc = (λ w here. here, tt)
  collect_in-Gathers IrType.void acc = (λ w here. here, tt)
  collect_in-Gathers (IrType.struct name fields additions) acc = (λ w here. here, tt)
  collect_in-Gathers (IrType.pub_queue_message name fields additions) acc = (λ w here. here, tt)

  pub collect_fields-Gathers :
      (fields : StructFields) (acc : List String)
      → Gathers acc (futures_of_fields named fields) (collect_fields visit fields acc)
  unfolding collect_fields
  collect_fields-Gathers nil acc = (λ w here. here, tt)
  collect_fields-Gathers (field name ty fields) acc =
      Gathers-bind (collect_in visit ty acc) _ acc (futures_in named ty)
        (futures_of_fields named fields) (collect_in-Gathers ty acc) (collect_fields-Gathers fields)

  collect_found-Gathers :
      (found : Option StructFields) (acc : List String)
      → Gathers acc (futures_of_found named found) (collect_found visit found acc)
  unfolding collect_found
  collect_found-Gathers none acc = (λ w here. here, tt)
  collect_found-Gathers (some fields) acc = collect_fields-Gathers fields acc

pub visit_name-Gathers :
    (fuel depth : ℕ) (types : List IrType) (name : String) (acc : List String)
    → Gathers acc (futures_named depth types name) (visit_name fuel types name acc)
unfolding visit_name
visit_name-Gathers zero depth types name acc = tt
visit_name-Gathers (suc fuel) zero types name acc =
    let found = find_fields types name in
    Gathers-none (collect_found (visit_name fuel types) found acc) acc
      (futures_of_found (futures_named zero types) found)
      (collect_found-Gathers (futures_named zero types) (visit_name fuel types)
        (visit_name-Gathers fuel zero types) found acc)
visit_name-Gathers (suc fuel) (suc depth) types name acc =
    collect_found-Gathers (futures_named depth types) (visit_name fuel types)
      (visit_name-Gathers fuel depth types) (find_fields types name) acc
