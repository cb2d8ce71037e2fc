-- ===== src/Envelope.antt =====
-- workerbees/envelope.py: the message between agents, and the decision about it.
pub mod Validate
pub mod Valid
use agents_for_dummies.Base.{ℕ, String, Bool, Option, none, some, List}
use agents_for_dummies.Base.Int.{ℤ}

pub record ArtifactRef : Type 0 where
  pub kind : String
  pub sha256 : String
  pub size : ℕ

-- `budget["max_cost"]`: absent or null, a number, or something that `float` refuses.
pub data Cost : Type 0 where
  unset : Cost
  amount : ℤ → Cost
  unreadable : Cost

-- The keys of `budget` that the program reads. `max_seconds` may be absent, null or a number; for
-- the others absent and null are read alike.
pub record Budget : Type 0 where
  pub max_calls : Option ℕ
  pub max_seconds : Option (Option ℕ)
  pub max_tokens : Option ℕ
  pub max_cost : Cost

-- The keys of `security` that the program reads.
pub record Security : Type 0 where
  pub approval_required : Option Bool
  pub approval_id : Option String
  pub resource : Option String
  pub artifact_hash : Option String

-- `payload["prompt"]`, if it is there and a text; `rest` is the other contents, as JSON.
pub record Payload : Type 0 where
  pub prompt : Option String
  pub rest : String

pub record Envelope : Type 0 where
  pub message_id : String
  pub task_id : String
  pub parent_task_id : Option String
  pub correlation_id : String
  pub sender : String
  pub recipient : String
  pub intent : String
  pub operation : String
  pub protocol : String
  pub schema : String
  pub payload : Payload
  pub data_classification : String
  pub created_at : String
  pub expires_at : Option String
  pub deadline : Option String
  pub reply_to : Option String
  pub required_artifacts : List ArtifactRef
  pub budget : Budget
  pub provenance : String
  pub security : Security

-- The reason codes of the policy and of the gateway.
pub data ReasonCode : Type 0 where
  allowed_code : ReasonCode
  unauthenticated_sender sender_mismatch unknown_sender unknown_recipient : ReasonCode
  sender_disabled recipient_disabled no_edge : ReasonCode
  capability_not_allowed capability_disabled operation_not_allowed schema_not_allowed : ReasonCode
  unknown_classification classification_exceeded delegation_depth_exceeded : ReasonCode
  expired invalid_expiry cancelled_code approval_required cost_not_zero : ReasonCode
  token_budget_unsupported budget_exceeded policy_error : ReasonCode
  envelope_invalid audit_unavailable duplicate_code replay_conflict no_registry : ReasonCode
  route_provider_mismatch provider_not_executable route_not_cataloged : ReasonCode
  frontier_gate_required invalid_deadline run_busy : ReasonCode

-- The names that `checked_rules` collects.
pub data Rule : Type 0 where
  authenticated_sender sender_match known_sender known_recipient : Rule
  sender_enabled recipient_enabled edge_exists intent_capability : Rule
  operation_allowed schema_allowed classification_clearance delegation_depth : Rule
  not_expired not_cancelled approval_rule cost_zero budget_within_limits : Rule
  replay_check run_lease : Rule

-- The text `reason` is left out.
pub record Decision : Type 0 where
  pub allowed : Bool
  pub decision_id : String
  pub reason_code : ReasonCode
  pub policy_version : String
  pub checked_rules : List Rule
