-- ===== src/Tests/Control.antt =====
-- Histories of the control tables.
use agents_for_dummies.Base.{
  ◌≤◌, String, ◌≡◌, ◌≢◌, refl, true, none, some, List, [], ◌∷◌, arith, ◌⊎◌, inr, eq_iff,
}
use agents_for_dummies.Base.Int.{pos}
use agents_for_dummies.Base.Result.{ok}
use agents_for_dummies.Control.Tables.{Control, Approval, Fault, fine, broken, empty, take_chars}
use agents_for_dummies.Control.Runs.{reserve_bounded, total_calls}
use agents_for_dummies.Control.Replay.{new, conflict, claim_replay}
use agents_for_dummies.Control.Approvals.{approval_of, approval_binds}
use agents_for_dummies.Control.Ops.{
  Op, apply, history, reserved_bounded, released, committed, acquired, claimed, stored, requested,
  decided,
}
use agents_for_dummies.Control.Once.{claim_state, claim_replay-once}
use agents_for_dummies.Control.Lease.{Leased, IsExclusive, Ends, history-IsExclusive, lease_kept}
use agents_for_dummies.Control.Budget.{Reserves, reserve_bounded-Reserves, history-calls}
use agents_for_dummies.Control.Rows.{history-decided}
use agents_for_dummies.Control.TwoPerson.{long_action_unbound}
use agents_for_dummies.Tests.Data.{read_time}

-- A run that claims, reserves and stores, with a fault on the way.
abbrev busy_day : List (Op × Fault)
busy_day =
    (claimed "m1" "h1", fine)
    ∷ (reserved_bounded "x" "r1" "n1" 1 0 (some 2) none, fine)
    ∷ (acquired "r2", fine)
    ∷ (committed "r1" "n1" (pos 5), broken)
    ∷ (stored "m1" "h1" "a1", fine)
    ∷ (released "r1" "n1", fine)
    ∷ []

first_claim : claim_state (claim_replay fine "m9" "h1" empty).0 ≡ some new
unfolding claim_replay
first_claim = refl

claim_replay-once_example :
    claim_state
      (claim_replay fine "m9" "h2"
        (history read_time busy_day (claim_replay fine "m9" "h1" empty).1)).0
    ≡ some conflict
claim_replay-once_example = claim_replay-once read_time "m9" "h1" "h2" empty busy_day first_claim

history-IsExclusive_example : IsExclusive (history read_time busy_day empty)
history-IsExclusive_example = history-IsExclusive read_time busy_day empty refl

abbrev leased : Control
leased = record empty { run_lease = record { workspace_key = "default"; run_id = "r1" } ∷ [] }

lease_kept_example :
    Leased (apply read_time (acquired "r2") fine leased) (some "r1")
    ⊎ (Ends (acquired "r2") "r1" × Leased (apply read_time (acquired "r2") fine leased) none)
lease_kept_example = lease_kept read_time (acquired "r2") fine leased "r1" refl

reserve_bounded-Reserves_example :
    Reserves "x" "r1" "n1" 1 0
      (some 2)
      (some 60)
      empty
      (reserve_bounded fine "x" "r1" "n1" 1 0 (some 2) (some 60) empty)
reserve_bounded-Reserves_example =
    reserve_bounded-Reserves "x" "r1" "n1" 1 0 (some 2) (some 60) empty fine

history-calls_example : total_calls "r1" (history read_time busy_day empty) ≤ 2
history-calls_example =
    history-calls "r1" read_time 2 busy_day empty
      (tt, (inr (2, refl, omega arith), (tt, (tt, (tt, (tt, tt)))))) (omega arith)

abbrev settled : List (Op × Fault)
settled =
    (requested "a1" "r1" "ann" "code" "repo" "h1" "low" [] "T2", fine)
    ∷ (decided "a1" "bob" "approved" "T1", fine)
    ∷ []

abbrev approved_row : Approval
approved_row = record {
  approval_id = "a1";
  run_id = "r1";
  requester = "ann";
  action = "code";
  resource = "repo";
  artifact_hash = "h1";
  risk = "low";
  rule_ids = [];
  expires_at = "T2";
  approver = some "bob";
  decision = some "approved";
  decided_at = some "T1";
}

history-decided_example :
    approval_of "a1" (
      history read_time
        ((decided "a1" "eve" "rejected" "T1", fine) ∷ [])
        (record empty { approvals = approved_row ∷ [] }))
    ≡ some approved_row
history-decided_example =
    history-decided read_time ((decided "a1" "eve" "rejected" "T1", fine) ∷ [])
      (record empty { approvals = approved_row ∷ [] }) "a1" approved_row "approved" refl refl

-- 260 characters
abbrev long_action : String
long_action =
    "aaaaaaaaaaaaaaaaaaaaaaaaaaaaaaaaaaaaaaaaaaaaaaaaaaaaaaaaaaaaaaaaaaaaaaaaaaaaaaaaaaaaaaaaaaaaaaaaaaaaaaaaaaaaaaaaaaaaaaaaaaaaaaaaaaaaaaaaaaaaaaaaaaaaaaaaaaaaaaaaaaaaaaaaaaaaaaaaaaaaaaaaaaaaaaaaaaaaaaaaaaaaaaaaaaaaaaaaaaaaaaaaaaaaaaaaaaaaaaaaaaaaaaaaaaaaaaaaaaaa"

abbrev long_request : List (Op × Fault)
long_request =
    (requested "a1" "r1" "ann" long_action "repo" "h1" "low" [] "T2", fine)
    ∷ (decided "a1" "bob" "approved" "T1", fine)
    ∷ []

long_action-cut : take_chars 256 long_action ≢ long_action
unfolding take_chars
long_action-cut e = ground (arith, (eq_iff (take_chars 256 long_action) long_action).1 e)

long_action_unbound_example :
    approval_binds read_time fine "a1" long_action "repo" "h1" "T1"
      (history read_time long_request empty)
    ≢ ok true
long_action_unbound_example =
    long_action_unbound read_time long_request fine "a1" long_action "repo" "h1" "T1"
      long_action-cut
