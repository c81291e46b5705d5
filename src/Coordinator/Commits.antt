-- ===== src/Coordinator/Commits.antt =====
-- epoch_coordinator/src/etcd.rs: no two epochs are committed under one sequence number.
use maroon.Prelude.{
  ℕ, ◌+◌, ◌<◌, ◌≤◌, ◌≡◌, arith, String, List, [], ◌∷◌, ◌++◌, Bool, true, Option, none, some, ok,
  ◌==◌, count_if, bind-eq-ok, expect, All, Bool-cases, inl, inr, ◌⊎◌,
}
use maroon.Epoch.{Epoch, count_ids}
use maroon.Coordinator.{
  CompareOp, Compare, TxnOp, Txn, EpochObject, history_key, commit_txn, succeeded, is_number,
  handle_commit_new_epoch, on_request, on_requests,
}

-- How many epochs carry a sequence number.
abbrev pub count_of : {P : Type 0} → ℕ → List (Epoch P) → ℕ
count_of sn = count_if (λ e. e.sequence_number == sn)

count_of-append :
    {P : Type 0} (sn : ℕ) (xs ys : List (Epoch P))
    → count_of sn (xs ++ ys) ≡ count_of sn xs + count_of sn ys
count_of-append sn [] ys = omega arith
count_of-append sn (x ∷ xs) ys = omega (arith, count_of-append sn xs ys)

-- A comparison holds of the versions of the keys.
abbrev pub Holds : (String → ℕ) → Compare → Type 0
Holds versions (Compare.version key CompareOp.equal target) = versions key ≡ target
Holds versions (Compare.version key CompareOp.greater target) = target < versions key
Holds versions (Compare.version key CompareOp.less target) = versions key < target
Holds versions (Compare.version key CompareOp.not_equal target) = ¬ (versions key ≡ target)

-- A key that was put has a version.
abbrev pub IsDone : {V : Type 0} → (String → ℕ) → TxnOp V → Type 0
IsDone versions (TxnOp.put key value) = 0 < versions key

-- What etcd promises of any transaction that puts, with the versions of its keys: one that succeeds found
-- its comparisons to hold, and has put its keys; and no version goes down.
pub record IsTxn {C V : Type 0} (run : C → Txn V → C × Option Bool) (version : C → String → ℕ)
    : Type 0 where
  pub held : (c : C) (t : Txn V) → (run c t).1 ≡ some true → All (Holds (version c)) t.when
  pub done :
      (c : C) (t : Txn V) → (run c t).1 ≡ some true → All (IsDone (version (run c t).0)) t.and_then
  pub kept : (c : C) (t : Txn V) (key : String) → version c key ≤ version (run c t).0 key

module _ {C P V : Type 0} (run : C → Txn V → C × Option Bool) (to_vec : EpochObject P → Option V)
    (version : C → String → ℕ) (law : IsTxn run version) where
  succeeded-some : (resp : Option Bool) → succeeded resp ≡ true → resp ≡ some true
  succeeded-some none h = cc
  succeeded-some (some success) h = cc

  -- The key of the number that is committed is free before and taken after.
  commit_txn-free :
      (c : C) (sn : ℕ) (value : V)
      → (run c (commit_txn sn value)).1 ≡ some true
      → (version c (history_key sn) ≡ 0)
        × (0 < version (run c (commit_txn sn value)).0 (history_key sn))
  unfolding commit_txn
  commit_txn-free c sn value h =
      ((law.held c (commit_txn sn value) h).0, (law.done c (commit_txn sn value) h).1.0)

  handle_commit_new_epoch_lem :
      (key : String) (c c' : C) (epoch : Epoch P) (success : Bool)
      → handle_commit_new_epoch run to_vec c epoch ≡ ok (c', success)
      → (version c key ≤ version c' key)
        × (success ≡ true
            → (version c (history_key epoch.sequence_number) ≡ 0)
              × (0 < version c' (history_key epoch.sequence_number)))
  unfolding handle_commit_new_epoch
  handle_commit_new_epoch_lem key c c' epoch success e =
      let (_, _, e₁) = bind-eq-ok (count_ids epoch.increments) _ e in
      let (value, _, e₂) = bind-eq-ok (expect (to_vec (record { epoch = epoch }))) _ e₁ in
      let t = commit_txn epoch.sequence_number value in
      ground (
        arith,
        e₂,
        law.kept c t key,
        commit_txn-free c epoch.sequence_number value,
        succeeded-some (run c t).1,
      )

  -- A request commits under a number at most once, and only where the number is free before it and
  -- taken after it.
  on_request_lem :
      (sn : ℕ) (c c' : C) (last last' : Option ℕ) (request : Option (Epoch P))
      (committed : List (Epoch P))
      → on_request run to_vec c last request ≡ ok (c', last', committed)
      → (version c (history_key sn) ≤ version c' (history_key sn))
        × (count_of sn committed ≤ 1)
        × (0 < count_of sn committed
            → (version c (history_key sn) ≡ 0) × (0 < version c' (history_key sn)))
  unfolding on_request
  on_request_lem sn c c' last last' none committed e = ground arith
  on_request_lem sn c c' last last' (some epoch) committed e =
      elim (Bool-cases (is_number last epoch.sequence_number)) [
        | inl again ↦ ground (arith, rw again at e)
        | inr other ↦
            let ((next, success), handled, e₁) =
              bind-eq-ok (handle_commit_new_epoch run to_vec c epoch) _ (rw other at e) in
            ground
              (arith, e₁, handle_commit_new_epoch_lem (history_key sn) c next epoch success handled)
      ]

  on_requests_lem :
      (sn : ℕ) (c c' : C) (requests : List (Option ℕ × Option (Epoch P)))
      (committed : List (Epoch P))
      → on_requests run to_vec c requests ≡ ok (c', committed)
      → (count_of sn committed ≤ 1) × (0 < version c (history_key sn) → count_of sn committed ≡ 0)
  unfolding on_requests
  on_requests_lem sn c c' [] committed e = ground arith
  on_requests_lem sn c c' ((last, request) ∷ rest) committed e =
      let ((next, last', ours), ran, e₁) = bind-eq-ok (on_request run to_vec c last request) _ e in
      let ((end, later), ran', e₂) = bind-eq-ok (on_requests run to_vec next rest) _ e₁ in
      let (grows, once, taken) = on_request_lem sn c next last last' request ours ran in
      let (few, none_if) = on_requests_lem sn next end rest later ran' in
      ground (arith, count_of-append sn ours later, grows, once, taken, few, none_if)

  -- Where a transaction of etcd that succeeds found its comparisons to hold and has put its keys, and no
  -- key's version goes down: whatever epochs any nodes ask for, in whatever order, and whichever calls
  -- fail, at most one epoch is committed under each sequence number, and none unless the number's key in
  -- the history had no version before.
  pub on_requests-once :
      (sn : ℕ) (c c' : C) (requests : List (Option ℕ × Option (Epoch P)))
      (committed : List (Epoch P))
      → on_requests run to_vec c requests ≡ ok (c', committed)
      → (count_of sn committed ≤ 1)
        × ((count_of sn committed ≡ 0) ⊎ (version c (history_key sn) ≡ 0))
  on_requests-once sn c c' requests committed e =
      let (once, taken) = on_requests_lem sn c c' requests committed e in
      (
        once,
        elim (Bool-cases (version c (history_key sn) == 0)) [
          | inl free ↦ inr (ground (arith, free))
          | inr used ↦ inl (ground (arith, used, taken))
        ],
      )
