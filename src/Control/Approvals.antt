-- ===== src/Control/Approvals.antt =====
-- Approvals: requested, decided once by someone else in time, and bound to what was requested.
use agents_for_dummies.Base.{
  ℕ, String, Bool, true, false, not, ◌&&◌, Option, none, some, List, [], ◌∷◌, ◌++◌, ◌==◌, ltb,
  find_first, if◌then◌else◌,
}
use agents_for_dummies.Base.Text.{normalise, same_codes}
use agents_for_dummies.Base.Result.{Result, ok, err, ◌>>=◌}
use agents_for_dummies.Policy.Data.{Instant}
use agents_for_dummies.Control.Tables.{
  Control, Approval, Fault, fine, readonly, broken, Raised, control_error, type_error, value_error,
  update_where, take_chars,
}
use agents_for_dummies.Base.{is_some}

abbrev pub approval_of : String → Control → Option Approval
approval_of approval_id c = find_first (λ a. a.approval_id == approval_id) c.approvals

-- The row of a new approval; SQLite keeps the first 256 characters of three texts.
abbrev pub new_approval :
    String → String → String → String → String → String → String → List String → String → Approval
new_approval approval_id run_id requester action resource artifact_hash risk rule_ids expires_at =
    record {
      approval_id = approval_id;
      run_id = run_id;
      requester = requester;
      action = take_chars 256 action;
      resource = take_chars 256 resource;
      artifact_hash = artifact_hash;
      risk = take_chars 256 risk;
      rule_ids = rule_ids;
      expires_at = expires_at;
      approver = none;
      decision = none;
      decided_at = none;
    }

-- `approval_id` is the id that the method draws; a row with it is an IntegrityError.
unfoldable pub request_approval :
    Fault
    → String
    → String
    → String
    → String
    → String
    → String
    → String
    → List String
    → String
    → Control
    → Result Raised (Option String) × Control
request_approval fine approval_id run_id requester action resource artifact_hash risk rule_ids
      expires_at c =
    if is_some (approval_of approval_id c) then (err control_error, c) else (
      ok (some approval_id),
      record c {
        approvals =
            c.approvals
            ++ new_approval approval_id run_id requester action resource artifact_hash risk rule_ids
                expires_at
              ∷ [];
      },
    )
request_approval readonly approval_id run_id requester action resource artifact_hash risk rule_ids
      expires_at c =
    (ok none, c)
request_approval broken approval_id run_id requester action resource artifact_hash risk rule_ids
      expires_at c =
    (err control_error, c)

-- a.strip().casefold() == b.strip().casefold()
unfoldable pub same_person : String → String → Bool
same_person a b = same_codes (normalise a) (normalise b)

abbrev pub is_none {ℓ} : {A : Type ℓ} → Option A → Bool
is_none none = true
is_none (some a) = false

abbrev or_raise {ℓ} : {A : Type ℓ} → Option A → Raised → Result Raised A
or_raise none e = err e
or_raise (some a) e = ok a

-- `now > expires`: datetimes with and without an offset are not compared.
abbrev pub is_past : Instant → Instant → Result Raised Bool
is_past now expires =
    if now.aware && expires.aware
    then ok (ltb expires.ticks now.ticks)
    else if not now.aware && not expires.aware
    then ok (ltb expires.ticks now.ticks)
    else err type_error

module _ (parse_iso : String → Option Instant) where
  unfoldable pub past_expiry : String → String → Result Raised Bool
  past_expiry now expires_at = do
    now_dt ← or_raise (parse_iso now) value_error
    expires_dt ← or_raise (parse_iso expires_at) value_error
    is_past now_dt expires_dt

  abbrev pub settle : String → String → String → String → Approval → Approval
  settle approval_id approver decision now a = record a {
    approver = some (take_chars 256 approver);
    decision = some decision;
    decided_at = some now;
  }

  unfoldable pub decide_row :
      Approval → String → String → String → String → Control → Result Raised Bool × Control
  decide_row a approval_id approver decision now c =
      if not (is_none a.decision)
      then (ok false, c)
      else if same_person a.requester approver
      then (ok false, c)
      else elim (past_expiry now a.expires_at) [
        | err e ↦ (err e, c)
        | ok true ↦ (ok false, c)
        | ok false ↦ (
          ok true,
          record c {
            approvals =
                update_where (λ r. r.approval_id == approval_id)
                  (settle approval_id approver decision now) c.approvals;
          },
        )
      ]

  unfoldable pub decide_approval :
      Fault → String → String → String → String → Control → Result Raised Bool × Control
  unfolding decide_row
  decide_approval fine approval_id approver decision now c = elim (approval_of approval_id c) [
    | none ↦ (ok false, c)
    | some a ↦ decide_row a approval_id approver decision now c
  ]
  decide_approval readonly approval_id approver decision now c = (ok false, c)
  decide_approval broken approval_id approver decision now c = (err control_error, c)

  row_matches : Approval → String → String → String → String → String → Result Raised Bool
  row_matches a decision action resource artifact_hash now =
      if not (decision == "approved") then ok false else do
        late ← past_expiry now a.expires_at
        ok (
            not late
            && (a.action == action)
            && (a.resource == resource)
            && (a.artifact_hash == artifact_hash))

  unfoldable pub row_binds : Approval → String → String → String → String → Result Raised Bool
  unfolding row_matches
  row_binds a action resource artifact_hash now = elim a.decision [
    | none ↦ ok false
    | some decision ↦ row_matches a decision action resource artifact_hash now
  ]

  unfoldable pub approval_binds :
      Fault → String → String → String → String → String → Control → Result Raised Bool
  approval_binds fine approval_id action resource artifact_hash now c =
      elim (approval_of approval_id c) [
        | none ↦ ok false
        | some a ↦ row_binds a action resource artifact_hash now
      ]
  approval_binds readonly approval_id action resource artifact_hash now c = ok false
  approval_binds broken approval_id action resource artifact_hash now c = err control_error

  -- `now` is what `datetime.utcnow().astimezone()` gives, which has an offset.
  unfoldable pub approval_status : Fault → ℕ → String → Control → Result Raised String
  approval_status fine now approval_id c = elim (approval_of approval_id c) [
    | none ↦ ok "unknown"
    | some a ↦
        let undecided : Result Raised String = do
          expires ← or_raise (parse_iso a.expires_at) value_error
          late ← is_past (record { ticks = now; aware = true }) expires
          ok (if late then "expired" else "pending")
        in elim a.decision [
          | none ↦ undecided
          | some decision ↦ if decision == "" then undecided else ok decision
        ]
  ]
  approval_status readonly now approval_id c = ok "error"
  approval_status broken now approval_id c = err control_error
