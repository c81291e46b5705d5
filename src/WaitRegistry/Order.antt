-- ===== src/WaitRegistry/Order.antt =====
-- runtime/src/wait_registry.rs: which registration is served, as a function of the registrations in the
-- order in which they came.
use maroon.Prelude.{
  ℕ, ◌≡◌, ◌⊎◌, refl, ◌∙◌, ap, arith, List, [], ◌∷◌, ◌++◌, Option, none, some, if◌then◌else◌,
  Bool-cases, inl, inr,
}
use maroon.Prelude.Maps.{Map}
use maroon.WaitRegistry.{WaitKey, wait_key_beq, ArmHandle, SelectReg, WakeOutcome}
use maroon.WaitRegistry.Links.{first}
use maroon.WaitRegistry.Waiters.{ids_of, ids_of-append}
use maroon.WaitRegistry.Serving.{waiters_of, waiters}

first-skip : (xs ys : List ℕ) → xs ≡ [] → first (xs ++ ys) ≡ first ys
first-skip [] ys e = refl
first-skip (x ∷ xs) ys e = cc

first-found : (xs ys : List ℕ) (i : ℕ) → first xs ≡ some i → first (xs ++ ys) ≡ some i
first-found [] ys i e = cc
first-found (x ∷ xs) ys i e = e

module _ {St : Type 0} where
  -- The first arm of a registration that waits for a key.
  abbrev pub arm_on : WaitKey → List (ArmHandle St) → Option (ArmHandle St)
  arm_on key [] = none
  arm_on key (arm ∷ arms) =
      let rest = arm_on key arms in if wait_key_beq arm.key key then some arm else rest

  abbrev pub outcome : SelectReg St → ArmHandle St → WakeOutcome St
  outcome reg arm = record {
    fiber_id = reg.fiber_id;
    bind = arm.resume.bind;
    next = arm.resume.next;
  }

  -- First come, first served: the first registration with an arm on the key is taken away, with all of
  -- its arms, and its fiber goes on as that arm says. The others stay in their order.
  abbrev pub served :
      WaitKey → Map ℕ (SelectReg St) → Map ℕ (SelectReg St) × Option (WakeOutcome St)
  served key [] = ([], none)
  served key ((id, reg) ∷ gs) =
      let (rest, out) = served key gs in
      elim (arm_on key reg.arms) [
        | none ↦ ((id, reg) ∷ rest, out)
        | some arm ↦ (gs, some (outcome reg arm))
      ]

  -- The arm on the key, between the others of its registration.
  pub record ArmOn (key : WaitKey) (id fiber_id : ℕ) (arms : List (ArmHandle St)) : Type 0 where
    pub front : List (ArmHandle St)
    pub arm : ArmHandle St
    pub back : List (ArmHandle St)
    pub parts : arms ≡ front ++ arm ∷ back
    pub leads : first (ids_of key (waiters_of id fiber_id arms)) ≡ some arm.node_id
    pub found : arm_on key arms ≡ some arm

  arm_on-cases :
      (key : WaitKey) (id fiber_id : ℕ) (arms : List (ArmHandle St))
      → ((ids_of key (waiters_of id fiber_id arms) ≡ []) × (arm_on key arms ≡ none))
        ⊎ ArmOn key id fiber_id arms
  arm_on-cases key id fiber_id [] = inl (refl, refl)
  arm_on-cases key id fiber_id (arm ∷ arms) = elim (Bool-cases (wait_key_beq arm.key key)) [
    | inl hit ↦ inr (record {
      front = [];
      arm = arm;
      back = arms;
      parts = refl;
      leads = rw hit refl;
      found = rw hit refl;
    })
    | inr miss ↦ elim (arm_on-cases key id fiber_id arms) [
      | inl (nobody, missing) ↦ inl (rw miss nobody, rw miss missing)
      | inr there ↦ inr (record {
        front = arm ∷ there.front;
        arm = there.arm;
        back = there.back;
        parts = ap (◌∷◌ arm) there.parts;
        leads = rw miss (there.leads);
        found = rw miss (there.found);
      })
    ]
  ]

  -- The registration that is served, between the others.
  pub record ServedOn (key : WaitKey) (gs : Map ℕ (SelectReg St)) : Type 0 where
    pub before : Map ℕ (SelectReg St)
    pub id : ℕ
    pub reg : SelectReg St
    pub after : Map ℕ (SelectReg St)
    pub on : ArmOn key id reg.fiber_id reg.arms
    pub parts : gs ≡ before ++ (id, reg) ∷ after
    pub leads : first (ids_of key (waiters gs)) ≡ some on.arm.node_id
    pub result : served key gs ≡ (before ++ after, some (outcome reg on.arm))

  pub served-cases :
      (key : WaitKey) (gs : Map ℕ (SelectReg St))
      → ((ids_of key (waiters gs) ≡ []) × (served key gs ≡ (gs, none))) ⊎ ServedOn key gs
  served-cases key [] = inl (refl, refl)
  served-cases key ((id, reg) ∷ gs) =
      let both = ids_of-append key (waiters_of id reg.fiber_id reg.arms) (waiters gs) in
      elim (arm_on-cases key id reg.fiber_id reg.arms) [
        | inr on ↦ inr (record {
          before = [];
          id = id;
          reg = reg;
          after = gs;
          on = on;
          parts = refl;
          leads =
              ap first both
              ∙ first-found (ids_of key (waiters_of id reg.fiber_id reg.arms))
                  (ids_of key (waiters gs)) on.arm.node_id on.leads;
          result = ground (arith, on.found);
        })
        | inl (nobody, missing) ↦ elim (served-cases key gs) [
          | inl (empty, same) ↦ inl (both ∙ rw (nobody, empty) refl, ground (arith, missing, same))
          | inr there ↦ inr (record {
            before = (id, reg) ∷ there.before;
            id = there.id;
            reg = there.reg;
            after = there.after;
            on = there.on;
            parts = ap (◌∷◌ (id, reg)) there.parts;
            leads =
                ap first both
                ∙ first-skip (ids_of key (waiters_of id reg.fiber_id reg.arms))
                    (ids_of key (waiters gs)) nobody
                ∙ there.leads;
            result = ground (arith, missing, there.result);
          })
        ]
      ]
