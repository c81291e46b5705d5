-- ===== src/Decision/Tests.antt =====
-- Witnesses for maroon/src/epoch_decision_engine.rs: a ring of five nodes.
use maroon.Prelude.{ℕ, ◌+◌, ◌%◌, ◌<◌, ◌≡◌, refl, arith, List, [], ◌∷◌, true, some, leb}
use maroon.Prelude.Maps.{nat_eq}
use maroon.Prelude.Sort.{IsTotalOrder}
use maroon.Decision.{
  EpochDecisionEngine, calculate_position, positions, next_publish_timestamp, should_send,
}
use maroon.Decision.Ring.{calculate_position-ring}
use maroon.Decision.Turns.{position, turn, should_send-order}
use maroon.RangeKey.{add64}

abbrev ring : List ℕ
ring = 10 ∷ 20 ∷ 30 ∷ 40 ∷ 50 ∷ []

abbrev decider : ℕ → EpochDecisionEngine ℕ
decider id = record { id = id; nodes = ring; tick_delta = 5; latest_epoch = some (20, 100) }

calculate_position-ring_example :
    let steps = calculate_position ring 10 (some 40) in
    ((3 + steps) % 5 ≡ 0) × (0 < steps) × (steps < 5)
calculate_position-ring_example =
    calculate_position-ring ring 0 3 10 40 (ground arith) refl refl (omega arith)

closer : position (decider 30) < position (decider 10)
unfolding calculate_position positions
closer = omega arith

small : (position (decider 10) ≡ 4) × (turn (decider 10) ≡ 125)
unfolding calculate_position positions
small = (refl, refl)

sends : should_send (decider 10) 130 ≡ true
unfolding should_send next_publish_timestamp calculate_position positions add64
sends = refl

should_send-order_example : (should_send (decider 30) 130 ≡ true) × (turn (decider 30) + 5 < 130)
should_send-order_example =
    should_send-order (decider 30) (decider 10) 130 refl refl closer (omega (arith, small.0))
      (omega (arith, small.1)) sends

leb-IsTotalOrder : IsTotalOrder leb
leb-IsTotalOrder = record {
  total = λ a b. ground arith;
  antisymm = λ a b h k. ground arith;
  trans = λ a b c h k. ground arith;
}
