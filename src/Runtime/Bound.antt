-- ===== src/Runtime/Bound.antt =====
-- runtime/src/runtime.rs: the ids of the fibers that are made, and of those that variables are bound in.
use Prim.Native.String.{◌++◌ as text_append}
use maroon.Prelude.{
  ℕ, ◌≡◌, refl, ◌∙◌, List, [], ◌∷◌, Option, none, String, OnOk, OnOk-bind, OnOk-bind-eq, OnOk-map,
}
use maroon.Prelude.Maps.{string_eq}
use maroon.Fiber.{Fiber}
use maroon.Fiber.Identity.{assign_local-unique_id}
use maroon.Runtime.{SuccessBindKind, Program, new_fiber}
use maroon.Runtime.Create.{id_value, rest_of, bind_errors, bind_ids}

module _ {St V F H : Type 0} (program : Program St V F H) where
  pub bind_errors-unique_id :
      (f : Fiber St V (SuccessBindKind F) H) (binds : List String) (errors : List (Option String))
      → OnOk (λ g. g.unique_id ≡ f.unique_id) (bind_errors program f binds errors)
  unfolding bind_errors
  bind_errors-unique_id f [] errors = refl
  bind_errors-unique_id f (b ∷ bs) [] =
      OnOk-bind (λ g. g.unique_id ≡ f.unique_id) (λ g. g.unique_id ≡ f.unique_id) _ _
        (assign_local-unique_id f b (program.option_string none))
        (λ g same.
          OnOk-map (λ h. h.unique_id ≡ g.unique_id) (λ h. h.unique_id ≡ f.unique_id) _
            (bind_errors-unique_id g bs []) (λ h s. s ∙ same))
  bind_errors-unique_id f (b ∷ bs) (e ∷ errors) =
      OnOk-bind (λ g. g.unique_id ≡ f.unique_id) (λ g. g.unique_id ≡ f.unique_id) _ _
        (assign_local-unique_id f b (program.option_string e))
        (λ g same.
          OnOk-map (λ h. h.unique_id ≡ g.unique_id) (λ h. h.unique_id ≡ f.unique_id) _
            (bind_errors-unique_id g bs errors) (λ h s. s ∙ same))

  pub bind_ids-unique_id :
      (f : Fiber St V (SuccessBindKind F) H) (binds ids : List String)
      (kinds : List (SuccessBindKind F))
      → OnOk (λ g. g.unique_id ≡ f.unique_id) (bind_ids program f binds ids kinds)
  unfolding bind_ids
  bind_ids-unique_id f [] ids kinds = refl
  bind_ids-unique_id f (b ∷ bs) [] kinds = tt
  bind_ids-unique_id f (b ∷ bs) (id ∷ ids) kinds =
      OnOk-bind (λ g. g.unique_id ≡ f.unique_id) (λ g. g.unique_id ≡ f.unique_id) _ _
        (assign_local-unique_id f b (id_value program kinds id))
        (λ g same.
          OnOk-map (λ h. h.unique_id ≡ g.unique_id) (λ h. h.unique_id ≡ f.unique_id) _
            (bind_ids-unique_id g bs ids (rest_of program kinds)) (λ h s. s ∙ same))

  pub new_fiber-unique_id :
      (f_type : String) (id : ℕ) (init_vars : List V)
      → OnOk (λ f. f.unique_id ≡ id) (new_fiber program f_type id init_vars)
  unfolding new_fiber
  new_fiber-unique_id f_type id init_vars =
      OnOk-bind-eq (λ f. f.unique_id ≡ id) (program.heap_init_fn f_type init_vars) _
        (λ heap made.
          OnOk-bind-eq (λ f. f.unique_id ≡ id) (program.prepare_fn (text_append f_type ".main") [])
            _ (λ stack prepared. refl))
