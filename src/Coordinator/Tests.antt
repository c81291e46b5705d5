-- ===== src/Coordinator/Tests.antt =====
-- Witness for epoch_coordinator/src/etcd.rs: the store is the list of the keys that were put.
use maroon.Prelude.{
  ℕ, ◌+◌, ◌≡◌, ◌≤◌, refl, arith, String, List, [], ◌∷◌, Bool, true, false, ◌&&◌, not, ltb, Option,
  none, some, ok, ◌==◌, if◌then◌else◌, count_if, All, ◌⊎◌, Bool-cases, inl, inr,
}
use maroon.Prelude.Maps.{string_eq}
use maroon.Epoch.{Epoch, count_ids}
use maroon.Coordinator.{
  CompareOp, Compare, TxnOp, Txn, EpochObject, history_key, commit_txn, handle_commit_new_epoch,
  on_request, on_requests,
}
use maroon.Coordinator.Commits.{count_of, Holds, IsDone, IsTxn, on_requests-once}

abbrev version : List String → String → ℕ
version store key = count_if (λ k. string_eq.beq k key) store

abbrev holds_one : List String → Compare → Bool
holds_one store (Compare.version key CompareOp.equal target) = version store key == target
holds_one store (Compare.version key CompareOp.greater target) = ltb target (version store key)
holds_one store (Compare.version key CompareOp.less target) = ltb (version store key) target
holds_one store (Compare.version key CompareOp.not_equal target) = not (version store key == target)

abbrev holds : List String → List Compare → Bool
holds store [] = true
holds store (c ∷ cs) = holds_one store c && holds store cs

abbrev put_all : {V : Type 0} → List (TxnOp V) → List String → List String
put_all [] store = store
put_all (TxnOp.put key value ∷ ops) store = put_all ops (key ∷ store)

abbrev run : List String → Txn ℕ → List String × Option Bool
run store t =
    if holds store t.when then (put_all t.and_then store, some true) else (store, some false)

holds_one-Holds :
    (store : List String) (c : Compare) → holds_one store c ≡ true → Holds (version store) c
holds_one-Holds store (Compare.version key CompareOp.equal target) h = ground (arith, h)
holds_one-Holds store (Compare.version key CompareOp.greater target) h = ground (arith, h)
holds_one-Holds store (Compare.version key CompareOp.less target) h = ground (arith, h)
holds_one-Holds store (Compare.version key CompareOp.not_equal target) h = ground (arith, h)

holds-Holds :
    (store : List String) (cs : List Compare)
    → holds store cs ≡ true
    → All (Holds (version store)) cs
holds-Holds store [] h = tt
holds-Holds store (c ∷ cs) h =
    (holds_one-Holds store c (ground (arith, h)), holds-Holds store cs (ground (arith, h)))

put_all-kept :
    (ops : List (TxnOp ℕ)) (store : List String) (key : String)
    → version store key ≤ version (put_all ops store) key
put_all-kept [] store key = omega arith
put_all-kept (TxnOp.put k value ∷ ops) store key = ground (arith, put_all-kept ops (k ∷ store) key)

put_all-IsDone :
    (ops : List (TxnOp ℕ)) (store : List String) → All (IsDone (version (put_all ops store))) ops
put_all-IsDone [] store = tt
put_all-IsDone (TxnOp.put key value ∷ ops) store = (
  ground (arith, put_all-kept ops (key ∷ store) key, string_eq.beq_iff key key),
  put_all-IsDone ops (key ∷ store),
)

run-IsTxn : IsTxn run version
run-IsTxn = record {
  held = λ c t h. elim (Bool-cases (holds c t.when)) [
    | inl met ↦ holds-Holds c t.when met
    | inr unmet ↦ cc (rw unmet at h)
  ];
  done = λ c t h. elim (Bool-cases (holds c t.when)) [
    | inl met ↦ rw met (put_all-IsDone t.and_then c)
    | inr unmet ↦ cc (rw unmet at h)
  ];
  kept = λ c t key. ground (arith, put_all-kept t.and_then c key);
}

abbrev to_vec : EpochObject ℕ → Option ℕ
to_vec object = some object.epoch.sequence_number

abbrev epoch : ℕ → ℕ → Epoch ℕ
epoch sn creator = record {
  sequence_number = sn;
  increments = [];
  creator = creator;
  creation_time = 0;
  hash = [];
}

-- Two nodes ask for the third epoch, and the second of them has it from the first.
abbrev store : List String
store = "/maroon/history/4" ∷ "/maroon/latest" ∷ "/maroon/history/3" ∷ "/maroon/latest" ∷ []

committed :
    on_requests run to_vec []
      ((none, some (epoch 3 1)) ∷ (none, some (epoch 3 2)) ∷ (some 3, some (epoch 4 1)) ∷ [])
    ≡ ok (store, epoch 3 1 ∷ epoch 4 1 ∷ [])
unfolding on_requests on_request handle_commit_new_epoch count_ids commit_txn history_key
    maroon.Prelude.Decimal.digits_from
committed = refl

on_requests-once_example :
    (count_of 3 (epoch 3 1 ∷ epoch 4 1 ∷ []) ≤ 1)
    × ((count_of 3 (epoch 3 1 ∷ epoch 4 1 ∷ []) ≡ 0) ⊎ (version [] (history_key 3) ≡ 0))
on_requests-once_example =
    on_requests-once run to_vec version run-IsTxn 3 [] store
      ((none, some (epoch 3 1)) ∷ (none, some (epoch 3 2)) ∷ (some 3, some (epoch 4 1)) ∷ [])
      (epoch 3 1 ∷ epoch 4 1 ∷ []) committed
