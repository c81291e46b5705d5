-- ===== src/WaitRegistry.antt =====
-- runtime/src/wait_registry.rs: which fibers wait for which queues and futures, first come first
-- served. `St` is the generated `State`. A `Slab` of the crate slab is a map; `vacant` is the key that
-- its `insert` takes for a new entry.
pub mod Links
pub mod Spans
pub mod Unlink
pub mod Waiters
pub mod Unlinked
pub mod Pushed
pub mod Serving
pub mod Order
pub mod Served
pub mod Cancelled
pub mod Registered
pub mod Lives
pub mod Slab
mod Tests
use text.Mathlib.Text.{◌==◌ as string_beq}
use text.Mathlib.TextEquality.{eq_iff}
use maroon.Prelude.{
  ℕ, ◌+◌, ◌≡◌, ◌↔◌, ap, List, [], ◌∷◌, ◌++◌, Bool, true, false, ◌&&◌, Option, none, some, String,
  Outcome, ok, panic, expect, ◌>>=◌, ◌==◌, if◌then◌else◌, length,
}
use maroon.Prelude.Maps.{Map, Eq, nat_eq, get, insert, remove}
use maroon.Fiber.{SelectArm}

pub data WaitKey : Type 0 where
  queue : String → WaitKey
  future : String → WaitKey

unfoldable pub wait_key_beq : WaitKey → WaitKey → Bool
wait_key_beq (WaitKey.queue a) (WaitKey.queue b) = string_beq a b
wait_key_beq (WaitKey.queue a) (WaitKey.future b) = false
wait_key_beq (WaitKey.future a) (WaitKey.queue b) = false
wait_key_beq (WaitKey.future a) (WaitKey.future b) = string_beq a b

pub wait_key_beq_iff : (a b : WaitKey) → (wait_key_beq a b ≡ true) ↔ (a ≡ b)
unfolding wait_key_beq
wait_key_beq_iff (WaitKey.queue a) (WaitKey.queue b) =
    (λ h. ap WaitKey.queue ((eq_iff a b).0 h), λ h. (eq_iff a b).1 cc)
wait_key_beq_iff (WaitKey.queue a) (WaitKey.future b) = (λ h. cc, λ h. cc)
wait_key_beq_iff (WaitKey.future a) (WaitKey.queue b) = (λ h. cc, λ h. cc)
wait_key_beq_iff (WaitKey.future a) (WaitKey.future b) =
    (λ h. ap WaitKey.future ((eq_iff a b).0 h), λ h. (eq_iff a b).1 cc)

instance abbrev pub wait_key_eq : Eq WaitKey
wait_key_eq = record { beq = wait_key_beq; beq_iff = wait_key_beq_iff }

pub record WaitNode : Type 0 where
  pub prev : Option ℕ
  pub next : Option ℕ
  pub reg_id : ℕ
  pub fiber_id : ℕ

pub record WaitList : Type 0 where
  pub head : Option ℕ
  pub tail : Option ℕ

pub data ArmKind : Type 0 where
  queue future : ArmKind

pub record ArmResume (St : Type 0) : Type 0 where
  pub bind : Option String
  pub next : St

pub record ArmHandle (St : Type 0) : Type 0 where
  pub key : WaitKey
  pub node_id : ℕ
  pub kind : ArmKind
  pub resume : ArmResume St

pub record SelectReg (St : Type 0) : Type 0 where
  pub fiber_id : ℕ
  pub arms : List (ArmHandle St)

pub record WakeOutcome (St : Type 0) : Type 0 where
  pub fiber_id : ℕ
  pub bind : Option String
  pub next : St

pub record WaitRegistry (St : Type 0) : Type 0 where
  pub per_key : Map WaitKey WaitList
  pub nodes : Map ℕ WaitNode
  pub regs : Map ℕ (SelectReg St)

-- `WaitRegistry::default`
unfoldable pub default : {St : Type 0} → WaitRegistry St
default = record { per_key = []; nodes = []; regs = [] }

-- `get_mut`, if the key is there.
abbrev pub modify : (WaitNode → WaitNode) → Option ℕ → Map ℕ WaitNode → Map ℕ WaitNode
modify g none nodes = nodes
modify g (some i) nodes = elim (get nodes i) [ none ↦ nodes | some n ↦ insert nodes i (g n) ]

abbrev pub set_next : Option ℕ → WaitNode → WaitNode
set_next next n = record n { next = next }

abbrev pub set_prev : Option ℕ → WaitNode → WaitNode
set_prev prev n = record n { prev = prev }

abbrev pub or_default : Option WaitList → WaitList
or_default none = record { head = none; tail = none }
or_default (some wl) = wl

-- The body of `list_push_back`, on the list of its key.
unfoldable pub push_back : ℕ → WaitList → Map ℕ WaitNode → WaitList × Map ℕ WaitNode
push_back node_id wl nodes = elim wl.tail [
  | none ↦ (record { head = some node_id; tail = some node_id }, nodes)
  | some tail_id ↦ (
    record wl { tail = some node_id },
    modify (set_prev (some tail_id)) (some node_id)
        (modify (set_next (some node_id)) (some tail_id) nodes),
  )
]

abbrev pub same_id : Option ℕ → ℕ → Bool
same_id none j = false
same_id (some i) j = i == j

abbrev pub is_none : Option ℕ → Bool
is_none none = true
is_none (some i) = false

-- The list of a key without one of its nodes; an empty one is removed.
abbrev pub unlink_key :
    Option WaitList
    → WaitKey
    → ℕ
    → Option ℕ
    → Option ℕ
    → Map WaitKey WaitList
    → Map WaitKey WaitList
unlink_key none key node_id prev next per_key = per_key
unlink_key (some wl) key node_id prev next per_key =
    let head = if same_id wl.head node_id then next else wl.head in
    let tail = if same_id wl.tail node_id then prev else wl.tail in
    if is_none head && is_none tail
    then remove per_key key
    else insert per_key key (record { head = head; tail = tail })

module _ {St : Type 0} where
  unfoldable pub list_push_back : WaitRegistry St → WaitKey → ℕ → WaitRegistry St
  list_push_back r key node_id =
      let (wl, nodes) = push_back node_id (or_default (get r.per_key key)) r.nodes in
      record r { per_key = insert r.per_key key wl; nodes = nodes }

  unfoldable pub list_unlink : WaitRegistry St → WaitKey → ℕ → WaitRegistry St
  list_unlink r key node_id = elim (get r.nodes node_id) [
    | none ↦ r
    | some n ↦ record r {
      nodes =
          modify (set_prev n.prev) n.next
            (modify (set_next n.next) n.prev (remove r.nodes node_id));
      per_key = unlink_key (get r.per_key key) key node_id n.prev n.next r.per_key;
    }
  ]

  -- The loop of `wake_one`: each arm is unlinked, and the last that holds the node is kept.
  unfoldable pub unlink_arms :
      WaitRegistry St
      → List (ArmHandle St)
      → ℕ
      → Option (ArmResume St)
      → WaitRegistry St × Option (ArmResume St)
  unlink_arms r [] head_id found = (r, found)
  unlink_arms r (arm ∷ arms) head_id found =
      unlink_arms (list_unlink r arm.key arm.node_id) arms head_id
        (if arm.node_id == head_id then some arm.resume else found)

  abbrev wake : WaitRegistry St → Option ℕ → Outcome (WaitRegistry St × Option (WakeOutcome St))
  wake r none = ok (r, none)
  wake r (some head_id) = do
    node ← expect (get r.nodes head_id)
    reg ← expect (get r.regs node.reg_id)
    let (unlinked, found) =
        unlink_arms (record r { regs = remove r.regs node.reg_id }) reg.arms head_id none
    winner ← expect found
    ok (
      unlinked,
      some (record { fiber_id = node.fiber_id; bind = winner.bind; next = winner.next }),
    )

  unfoldable pub wake_one :
      WaitRegistry St → WaitKey → Outcome (WaitRegistry St × Option (WakeOutcome St))
  wake_one r key = wake r (or_default (get r.per_key key)).head

  unfoldable pub cancel_by_registered_select_id : WaitRegistry St → ℕ → WaitRegistry St × ℕ
  cancel_by_registered_select_id r id = elim (get r.regs id) [
    | none ↦ (r, 0)
    | some reg ↦
        ((unlink_arms (record r { regs = remove r.regs id }) reg.arms 0 none).0, length reg.arms)
  ]

module _ {St : Type 0} where
  abbrev pub key_of : SelectArm St → WaitKey
  key_of (SelectArm.queue queue_name bind next) = WaitKey.queue queue_name
  key_of (SelectArm.future_var future_id bind next) = WaitKey.future future_id

  abbrev pub kind_of : SelectArm St → ArmKind
  kind_of (SelectArm.queue queue_name bind next) = ArmKind.queue
  kind_of (SelectArm.future_var future_id bind next) = ArmKind.future

  abbrev pub resume_of : SelectArm St → ArmResume St
  resume_of (SelectArm.queue queue_name bind next) = record { bind = some bind; next = next }
  resume_of (SelectArm.future_var future_id bind next) = record { bind = bind; next = next }

module _ {St : Type 0} (vacant : (A : Type 0) → Map ℕ A → ℕ) where
  -- The loop of `register_select`.
  unfoldable pub register_arms :
      WaitRegistry St → ℕ → ℕ → List (SelectArm St) → WaitRegistry St × List (ArmHandle St)
  register_arms r reg_id fiber_id [] = (r, [])
  register_arms r reg_id fiber_id (arm ∷ arms) =
      let node_id = vacant WaitNode r.nodes in
      let waiting : WaitNode = record {
        prev = none;
        next = none;
        reg_id = reg_id;
        fiber_id = fiber_id;
      } in
      let added = record r { nodes = insert r.nodes node_id waiting } in
      let (last, handles) =
        register_arms (list_push_back added (key_of arm) node_id) reg_id fiber_id arms in
      (
        last,
        record { key = key_of arm; node_id = node_id; kind = kind_of arm; resume = resume_of arm }
            ∷ handles,
      )

  unfoldable pub register_select : WaitRegistry St → ℕ → List (SelectArm St) → WaitRegistry St × ℕ
  register_select r fiber_id arms =
      let reg_id = vacant (SelectReg St) r.regs in
      let added = record r {
        regs = insert r.regs reg_id (record { fiber_id = fiber_id; arms = [] });
      } in
      let (last, handles) = register_arms added reg_id fiber_id arms in
      (
        record last {
          regs = insert last.regs reg_id (record { fiber_id = fiber_id; arms = handles });
        },
        reg_id,
      )
