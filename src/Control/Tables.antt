-- ===== src/Control/Tables.antt =====
-- The tables of control.sqlite, and the statements that the methods run on them.
use agents_for_dummies.Base.{ℕ, zero, suc, ◌+◌, String, Bool, Option, List, [], ◌∷◌, if◌then◌else◌}
use agents_for_dummies.Envelope.{ReasonCode, Rule}

pub record DecisionRow : Type 0 where
  pub decision_id : String
  pub run_id : String
  pub node_id : String
  pub envelope_hash : String
  pub allowed : Bool
  pub reason_code : ReasonCode
  pub policy_version : String
  pub checked_rules : List Rule
  pub sender : String
  pub recipient : String
  pub operation : String

pub record Reservation : Type 0 where
  pub run_id : String
  pub node_id : String
  pub calls : ℕ
  pub seconds : ℕ
  pub released : Bool

pub record ReplayKey : Type 0 where
  pub message_id : String
  pub envelope_hash : String
  pub artifact_ref : Option String

pub record RunLease : Type 0 where
  pub workspace_key : String
  pub run_id : String

pub record RunBudget : Type 0 where
  pub run_id : String
  pub max_calls : Option ℕ
  pub max_seconds : Option ℕ

pub record Approval : Type 0 where
  pub approval_id : String
  pub run_id : String
  pub requester : String
  pub action : String
  pub resource : String
  pub artifact_hash : String
  pub risk : String
  pub rule_ids : List String
  pub expires_at : String
  pub approver : Option String
  pub decision : Option String
  pub decided_at : Option String

pub record Control : Type 0 where
  pub decisions : List DecisionRow
  pub reservations : List Reservation
  pub replay_keys : List ReplayKey
  pub cancellations : List String
  pub run_lease : List RunLease
  pub run_budgets : List RunBudget
  pub approvals : List Approval

abbrev pub empty : Control
empty = record {
  decisions = [];
  reservations = [];
  replay_keys = [];
  cancellations = [];
  run_lease = [];
  run_budgets = [];
  approvals = [];
}

-- What SQLite reports: nothing, an error that `_is_readonly_error` recognises, or another error.
pub data Fault : Type 0 where
  fine readonly broken : Fault

-- The exceptions that leave a method.
pub data Raised : Type 0 where
  control_error type_error value_error envelope_error : Raised

module _ {ℓ} {R : Type ℓ} where
  -- UPDATE … SET … WHERE
  abbrev pub update_where : (R → Bool) → (R → R) → List R → List R
  update_where p f [] = []
  update_where p f (r ∷ rs) = (if p r then f r else r) ∷ update_where p f rs

  -- DELETE … WHERE
  abbrev pub delete_where : (R → Bool) → List R → List R
  delete_where p [] = []
  delete_where p (r ∷ rs) = if p r then delete_where p rs else r ∷ delete_where p rs

  -- SELECT SUM(…) … WHERE
  abbrev pub sum_where : (R → Bool) → (R → ℕ) → List R → ℕ
  sum_where p f [] = 0
  sum_where p f (r ∷ rs) = (if p r then f r else 0) + sum_where p f rs

  -- xs[:n]
  abbrev pub take : ℕ → List R → List R
  take zero rs = []
  take (suc n) [] = []
  take (suc n) (r ∷ rs) = r ∷ take n rs

-- s[:n], counted in characters
unfoldable pub take_chars : ℕ → String → String
take_chars zero s = String.[]
take_chars (suc n) String.[] = String.[]
take_chars (suc n) (String.◌∷◌ c s) = String.◌∷◌ c (take_chars n s)
