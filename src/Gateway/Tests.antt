-- ===== src/Gateway/Tests.antt =====
-- Witnesses for gateway/src/core.rs: sockets and values are numbers.
use maroon.Prelude.{
  ℕ, zero, suc, ◌*◌, ◌≡◌, refl, ap, arith, List, [], ◌∷◌, map, Option, none, some, ok, length,
  count_up, if◌then◌else◌,
}
use maroon.Prelude.Maps.{Map, nat_eq, get}
use maroon.RangeKey.{single_blob_size, full_interval_for_range, new, add64, sub64}
use maroon.Protocol.{TaskBlueprint, TxUpdate, finished, pending}
use maroon.Gateway
use maroon.Gateway.{Gateway, NewRequest, send_requests, handle_inbox}
use maroon.Gateway.Ids.{send_requests_lem}
use maroon.Gateway.Answers.{until_finished, finishes, answers, answers_to, handle_inbox_lem}

abbrev request : TaskBlueprint ℕ × Option ℕ
request = (record { queue_name = "q"; param = 1 }, some 5)

abbrev gateway : Gateway
gateway = record { interval_left = 1073741824; interval_right = 2147483647 }

started : Gateway.new 1 ≡ ok gateway
unfolding Gateway.new full_interval_for_range new add64 sub64
started = refl

send_requests_lem_example :
    (g' : Gateway) × (sent : List (NewRequest ℕ ℕ)) × (send_requests gateway
        (request ∷ request ∷ [])
      ≡ ok (g', sent))
    × (map (λ r. r.id) sent ≡ count_up (1 * single_blob_size) 2)
send_requests_lem_example =
    send_requests_lem 1 gateway (request ∷ request ∷ []) (omega arith) started (omega arith)

many : ℕ → List (TaskBlueprint ℕ × Option ℕ)
many zero = []
many (suc n) = request ∷ many n

length-many : (n : ℕ) → length (many n) ≡ n
unfolding many
length-many zero = refl
length-many (suc n) = ap suc (length-many n)

abbrev updates : List (TxUpdate ℕ)
updates =
    record { meta = record { id = 3; status = pending }; result = none }
    ∷ record { meta = record { id = 3; status = finished }; result = some 8 }
    ∷ record { meta = record { id = 3; status = finished }; result = some 9 }
    ∷ []

abbrev waiting : Map ℕ ℕ
waiting = (3, 5) ∷ (4, 6) ∷ []

handle_inbox_lem_example :
    (answers 3 (handle_inbox updates waiting).1
      ≡ answers_to (get waiting 3) (until_finished 3 updates))
    × (get (handle_inbox updates waiting).0 3
        ≡ (if finishes 3 updates then none else get waiting 3))
handle_inbox_lem_example = handle_inbox_lem 3 updates waiting
