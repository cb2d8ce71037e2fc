-- ===== src/Control/Runs.antt =====
-- Decisions, reservations, budgets, cancellations and the run lease.
use agents_for_dummies.Base.{
  ℕ, String, Bool, true, false, not, ◌&&◌, ◌||◌, Option, none, some, List, [], ◌∷◌, ◌++◌, ◌==◌, ◌+◌,
  ltb, find_first, any_of, contains, if◌then◌else◌,
}
use agents_for_dummies.Base.Int.{ℤ, clamp_zero, is_negative}
use agents_for_dummies.Base.Result.{Result, ok, err}
use agents_for_dummies.Envelope.{Decision, run_busy, run_lease}
use agents_for_dummies.Policy.Data.{Used}
use agents_for_dummies.Control.Tables.{
  Control, DecisionRow, Reservation, RunLease, RunBudget, Fault, fine, readonly, broken, Raised,
  control_error, update_where, delete_where, sum_where, take,
}

-- INSERT OR REPLACE INTO decisions
abbrev replace_decision : DecisionRow → List DecisionRow → List DecisionRow
replace_decision row rows = delete_where (λ r. r.decision_id == row.decision_id) rows ++ row ∷ []

unfoldable pub record_decision :
    Fault
    → Decision
    → String
    → String
    → String
    → String
    → String
    → String
    → Control
    → Result Raised Bool × Control
record_decision fine d run_id node_id envelope_hash sender recipient operation c = (
  ok true,
  record c {
    decisions =
        replace_decision
          (record {
            decision_id = d.decision_id;
            run_id = run_id;
            node_id = node_id;
            envelope_hash = envelope_hash;
            allowed = d.allowed;
            reason_code = d.reason_code;
            policy_version = d.policy_version;
            checked_rules = take 64 d.checked_rules;
            sender = sender;
            recipient = recipient;
            operation = operation;
          })
          c.decisions;
  },
)
record_decision readonly d run_id node_id envelope_hash sender recipient operation c = (ok false, c)
record_decision broken d run_id node_id envelope_hash sender recipient operation c =
    (err control_error, c)

abbrev pub workspace_slot : RunLease → Bool
workspace_slot l = l.workspace_key == "default"

abbrev pub leased_to : String → RunLease → Bool
leased_to run_id l = l.run_id == run_id

-- DELETE FROM run_lease WHERE run_id=?
abbrev pub drop_lease : String → Control → Control
drop_lease run_id c = record c { run_lease = delete_where (leased_to run_id) c.run_lease }

-- `busy_id` is the fresh id of the audit row for a busy attempt.
unfoldable pub claim_run : String → String → String → Control → Bool × Control
claim_run busy_id run_id node_id c =
    if any_of workspace_slot c.run_lease
    then (
      false,
      record c {
        decisions =
            c.decisions
            ++ record {
              decision_id = busy_id;
              run_id = run_id;
              node_id = node_id;
              envelope_hash = "";
              allowed = false;
              reason_code = run_busy;
              policy_version = "runtime";
              checked_rules = run_lease ∷ [];
              sender = "";
              recipient = "";
              operation = "reserve";
            }
              ∷ [];
      },
    )
    else (
      true,
      record c {
        run_lease = c.run_lease ++ record { workspace_key = "default"; run_id = run_id } ∷ [];
      },
    )

-- WHERE run_id=? AND released=0
abbrev pub open_in : String → Reservation → Bool
open_in run_id r = (r.run_id == run_id) && not r.released

-- The primary key of the table.
abbrev pub reserved_for : String → String → Reservation → Bool
reserved_for run_id node_id r = (r.run_id == run_id) && (r.node_id == node_id)

abbrev pub total_calls : String → Control → ℕ
total_calls run_id c = sum_where (open_in run_id) (λ r. r.calls) c.reservations

abbrev pub total_seconds : String → Control → ℕ
total_seconds run_id c = sum_where (open_in run_id) (λ r. r.seconds) c.reservations

-- INSERT INTO reservations. A row with the same key is an IntegrityError, which rolls back to `before`.
insert_reservation : String → String → ℕ → ℕ → Control → Control → Result Raised Bool × Control
insert_reservation run_id node_id calls seconds before c =
    if any_of (reserved_for run_id node_id) c.reservations then (err control_error, before) else (
      ok true,
      record c {
        reservations =
            c.reservations
            ++ record {
              run_id = run_id;
              node_id = node_id;
              calls = calls;
              seconds = seconds;
              released = false;
            }
              ∷ [];
      },
    )

-- `max is not None and total > max`
abbrev pub over : ℕ → Option ℕ → Bool
over total none = false
over total (some m) = ltb m total

-- The calls and seconds are not negative; unlike `reserve`, the code does not test that. The gateway,
-- the only caller, reserves one call and no seconds.
unfoldable pub reserve_bounded :
    Fault
    → String
    → String
    → String
    → ℕ
    → ℕ
    → Option ℕ
    → Option ℕ
    → Control
    → Result Raised Bool × Control
unfolding claim_run insert_reservation
reserve_bounded fine busy_id run_id node_id calls seconds max_calls max_seconds c =
    let (claimed, c') = claim_run busy_id run_id node_id c in
    if not claimed
    then (ok false, c')
    else if over (total_calls run_id c' + calls) max_calls
    then (ok false, drop_lease run_id c')
    else if over (total_seconds run_id c' + seconds) max_seconds
    then (ok false, drop_lease run_id c')
    else insert_reservation run_id node_id calls seconds c c'
reserve_bounded _ busy_id run_id node_id calls seconds max_calls max_seconds c =
    (err control_error, c)

unfoldable pub reserve :
    Fault → String → String → String → ℤ → ℤ → Control → Result Raised Bool × Control
unfolding claim_run insert_reservation
reserve fault busy_id run_id node_id calls seconds c =
    if is_negative calls || is_negative seconds then (ok false, c) else elim fault [
      | fine ↦
          let (claimed, c') = claim_run busy_id run_id node_id c in
          if not claimed
          then (ok false, c')
          else insert_reservation run_id node_id (clamp_zero calls) (clamp_zero seconds) c c'
      | readonly ↦ (ok false, c)
      | broken ↦ (err control_error, c)
    ]

unfoldable pub release : Fault → String → String → Control → Bool × Control
release fine run_id node_id c = (
  true,
  drop_lease run_id (record c {
    reservations =
        update_where (reserved_for run_id node_id) (λ r. record r { released = true })
          c.reservations;
  }),
)
release _ run_id node_id c = (false, c)

unfoldable pub used : Fault → String → Control → Used
used fine run_id c = record { calls = total_calls run_id c; seconds = total_seconds run_id c }
used _ run_id c = record { calls = 0; seconds = 0 }

unfoldable pub commit_usage : Fault → String → String → ℤ → Control → Bool × Control
commit_usage fine run_id node_id seconds c = (
  true,
  record c {
    reservations =
        update_where (λ r. reserved_for run_id node_id r && not r.released)
          (λ r. record r { seconds = clamp_zero seconds }) c.reservations;
  },
)
commit_usage _ run_id node_id seconds c = (false, c)

abbrev pub budget_of : String → Control → Option RunBudget
budget_of run_id c = find_first (λ b. b.run_id == run_id) c.run_budgets

-- INSERT OR IGNORE, then the row that stands there.
unfoldable pub record_run_budget :
    Fault → String → Option ℕ → Option ℕ → Control → Result Raised RunBudget × Control
record_run_budget fine run_id max_calls max_seconds c = elim (budget_of run_id c) [
  | some b ↦ (ok b, c)
  | none ↦
      let b : RunBudget = record {
        run_id = run_id;
        max_calls = max_calls;
        max_seconds = max_seconds;
      } in
      (ok b, record c { run_budgets = c.run_budgets ++ b ∷ [] })
]
record_run_budget _ run_id max_calls max_seconds c = (err control_error, c)

-- INSERT OR REPLACE INTO cancellations
unfoldable pub cancel : Fault → String → Control → Bool × Control
cancel fine run_id c = (
  true,
  record c { cancellations = delete_where (λ r. r == run_id) c.cancellations ++ run_id ∷ [] },
)
cancel _ run_id c = (false, c)

-- An error counts as cancelled.
unfoldable pub is_cancelled : Fault → String → Control → Bool
is_cancelled fine run_id c = contains run_id c.cancellations
is_cancelled _ run_id c = true

unfoldable pub acquire_lease : Fault → String → Control → Bool × Control
acquire_lease fine run_id c = elim (find_first workspace_slot c.run_lease) [
  | none ↦ (
    true,
    record c {
      run_lease = c.run_lease ++ record { workspace_key = "default"; run_id = run_id } ∷ [];
    },
  )
  | some l ↦ (l.run_id == run_id, c)
]
acquire_lease _ run_id c = (false, c)

unfoldable pub release_lease : Fault → String → Control → Bool × Control
release_lease fine run_id c = (true, drop_lease run_id c)
release_lease _ run_id c = (false, c)
