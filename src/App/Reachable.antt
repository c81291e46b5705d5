-- ===== src/App/Reachable.antt =====
-- maroon/src/app/app.rs: the states that a node gets to from its start, in any order of events.
use maroon.Prelude.{ℕ, ◌≡◌, List, [], ◌++◌, Bool, ok}
use maroon.Prelude.Maps.{Eq, nat_eq, get, contains_key}
use maroon.App.{App, Event, Output, new, step}
use maroon.App.Invariant.{IsNode, step-IsNode}

module _ {P V : Type 0} ⦃e : Eq P⦄ (sha256 : List ℕ → List ℕ) (to_bytes : P → List ℕ)
    (le : P → P → Bool) where
  -- Rounds of the loop one after the other, with what they send.
  pub data Reaches : App P V → App P V → List (Output P V) → Type 0 where
    stay : {app : App P V} → Reaches app app []
    then_ :
        {app next last : App P V} {sent later : List (Output P V)} (event : Event P V)
        → step sha256 to_bytes le app event ≡ ok (next, sent)
        → Reaches next last later
        → Reaches app last (sent ++ later)

  Reaches-IsNode :
      {app last : App P V} {sent : List (Output P V)}
      → IsNode app
      → Reaches app last sent
      → IsNode last
  Reaches-IsNode node stay = node
  Reaches-IsNode node (then_ {app = app} {next = next} {sent = sent} event run rest) =
      Reaches-IsNode (step-IsNode sha256 to_bytes le app next event sent node run) rest

  new-IsNode :
      (peer_id : P) (consensus_nodes epoch_period : ℕ)
      → IsNode {V = V} (new peer_id consensus_nodes epoch_period)
  unfolding new get contains_key
  new-IsNode peer_id consensus_nodes epoch_period = record {
    admitted = λ id here. cc;
    prefixes = λ range offset at. cc;
  }

  -- A node that has just begun has, after any events in any order, only ids that can be split, and every
  -- transaction up to the offsets that it reports.
  pub new-Reaches-IsNode :
      (peer_id : P) (consensus_nodes epoch_period : ℕ) (last : App P V) (sent : List (Output P V))
      → Reaches (new peer_id consensus_nodes epoch_period) last sent
      → IsNode last
  new-Reaches-IsNode peer_id consensus_nodes epoch_period last sent rounds =
      Reaches-IsNode (new-IsNode peer_id consensus_nodes epoch_period) rounds
