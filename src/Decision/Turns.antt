-- ===== src/Decision/Turns.antt =====
-- maroon/src/epoch_decision_engine.rs: whose turn it is to propose an epoch.
use mathlib.Core.List.{Perm}
use maroon.Prelude.{ℕ, ◌+◌, ◌*◌, ◌%◌, ◌<◌, ◌≤◌, ◌≡◌, arith, List, Bool, true}
use maroon.Prelude.Maps.{Eq}
use maroon.Prelude.Sort.{IsTotalOrder, sort-perm}
use maroon.RangeKey.{u64_mod, add64}
use maroon.Decision.{
  EpochDecisionEngine, update_node_ids, should_send, next_publish_timestamp, calculate_position,
  start_time, commiter,
}

-- The set of nodes alone counts: in whatever order a set of ids is read, the decider is the same.
pub update_node_ids-perm :
    {P : Type 0} (le : P → P → Bool)
    → IsTotalOrder le
    → IsSet P
    → (d : EpochDecisionEngine P) {ids others : List P} → Perm ids others
    → update_node_ids le d ids ≡ update_node_ids le d others
unfolding update_node_ids
update_node_ids-perm le order set d p = rw (sort-perm le order set p)

turns_apart : (p q t : ℕ) → p < q → (p + 1) * t + t ≤ (q + 1) * t
turns_apart p q t h = grind arith

module _ {P : Type 0} ⦃e : Eq P⦄ where
  -- The place on the ring that a decider computes for its node.
  abbrev pub position : EpochDecisionEngine P → ℕ
  position d = calculate_position d.nodes d.id (commiter d.latest_epoch)

  -- The time of the decider's turn, in which no u64 value wraps.
  abbrev pub turn : EpochDecisionEngine P → ℕ
  turn d = start_time d.latest_epoch + (position d + 1) * d.tick_delta

  next_publish_timestamp-turn :
      (d : EpochDecisionEngine P)
      → position d + 1 < u64_mod
      → turn d < u64_mod
      → next_publish_timestamp d ≡ turn d
  unfolding next_publish_timestamp add64
  next_publish_timestamp-turn d h k =
      timestamp (position d) d.tick_delta (start_time d.latest_epoch) h k
    where
      timestamp :
          (p t s : ℕ)
          → p + 1 < u64_mod
          → s + (p + 1) * t < u64_mod
          → add64 s ((add64 p 1 * t) % u64_mod) ≡ s + (p + 1) * t
      timestamp p t s h k = grind arith

  -- Two deciders have the same period and the same time of the last epoch, the first is closer on the
  -- ring than the second, and nothing wraps: when the second sends, the first does too, and its turn
  -- is more than a whole period ago.
  pub should_send-order :
      (d f : EpochDecisionEngine P) (now : ℕ)
      → d.tick_delta ≡ f.tick_delta
      → start_time d.latest_epoch ≡ start_time f.latest_epoch
      → position d < position f
      → position f + 1 < u64_mod
      → turn f < u64_mod
      → should_send f now ≡ true
      → (should_send d now ≡ true) × (turn d + d.tick_delta < now)
  unfolding should_send
  should_send-order d f now tick start closer h k sent =
      let gap = turns_apart (position d) (position f) d.tick_delta closer in
      let later : turn d + d.tick_delta ≤ turn f = rw (← tick, ← start) (omega (arith, gap)) in
      let first = next_publish_timestamp-turn d (omega arith) (omega arith) in
      let second = next_publish_timestamp-turn f h k in (ground arith, ground arith)
