-- ===== src/Decision.antt =====
-- maroon/src/epoch_decision_engine.rs: when a node proposes the next epoch. `P` is libp2p's
-- `PeerId`, with its equality and its order `le`; the timer's reading is an argument.
pub mod Ring
pub mod Turns
mod Tests
use maroon.Prelude.{
  ℕ, zero, suc, ◌+◌, ◌-◌, ◌*◌, ◌%◌, List, [], ◌∷◌, Bool, Option, none, some, ltb, leb, ◌==◌,
  if◌then◌else◌, length,
}
use maroon.Prelude.Maps.{Eq}
use maroon.Prelude.Sort.{sort}
use maroon.RangeKey.{add64, sub64, u64_mod}

pub record EpochDecisionEngine (P : Type 0) : Type 0 where
  pub id : P
  pub nodes : List P
  pub tick_delta : ℕ
  pub latest_epoch : Option (P × ℕ)

-- `LogicalTimeAbsoluteMs::abs_diff`
unfoldable pub abs_diff : ℕ → ℕ → ℕ
unfolding sub64
abs_diff a b = if ltb b a then sub64 a b else sub64 b a

module _ {P : Type 0} where
  unfoldable pub new : P → ℕ → EpochDecisionEngine P
  new id tick_delta = record { id = id; nodes = []; tick_delta = tick_delta; latest_epoch = none }

  -- The set's items come in an order that is left open, and are sorted.
  unfoldable pub update_node_ids :
      (P → P → Bool) → EpochDecisionEngine P → List P → EpochDecisionEngine P
  unfolding sort
  update_node_ids le d ids = record d { nodes = sort le ids }

  unfoldable pub update_latest_epoch : EpochDecisionEngine P → P → ℕ → EpochDecisionEngine P
  update_latest_epoch d commiter_id commit_time = record d {
    latest_epoch = some (commiter_id, commit_time);
  }

  abbrev pub start_time : Option (P × ℕ) → ℕ
  start_time none = 0
  start_time (some (p, t)) = t

  abbrev pub commiter : Option (P × ℕ) → Option P
  commiter none = none
  commiter (some (p, t)) = some p

module _ {P : Type 0} ⦃e : Eq P⦄ where
  -- The loop of `calculate_position`, over its two variables.
  unfoldable pub positions : List P → ℕ → P → P → ℕ → ℕ → ℕ × ℕ
  positions [] pos self_id latest self_position last_position = (self_position, last_position)
  positions (id ∷ rest) pos self_id latest self_position last_position =
      positions rest (pos + 1) self_id latest (if e.beq id self_id then pos else self_position)
        (if e.beq id latest then pos else last_position)

  unfoldable pub calculate_position : List P → P → Option P → ℕ
  unfolding positions
  calculate_position nodes self_id latest_commiter_id =
      let latest : P = elim latest_commiter_id [ none ↦ self_id | some p ↦ p ] in
      let (self_position, last_position) = positions nodes 0 self_id latest 0 0 in
      if self_position == last_position
      then self_position
      else (length nodes - last_position + self_position) % length nodes

  unfoldable pub next_publish_timestamp : EpochDecisionEngine P → ℕ
  unfolding calculate_position add64
  next_publish_timestamp d = add64 (start_time d.latest_epoch) (
      (add64 (calculate_position d.nodes d.id (commiter d.latest_epoch)) 1 * d.tick_delta)
      % u64_mod)

  unfoldable pub should_send : EpochDecisionEngine P → ℕ → Bool
  unfolding next_publish_timestamp
  should_send d current_timestamp = ltb (next_publish_timestamp d) current_timestamp
