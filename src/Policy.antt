-- ===== src/Policy.antt =====
-- workerbees/policy.py, `evaluate`: the rules that a request passes before any dispatch. A rule is
-- an action over the list `checked_rules`, which it extends before it tests. The texts that explain
-- a denial are left out.
pub mod Rules
pub mod Data
pub mod Trail
pub mod Permits
pub mod Allowed
use Prim.Native.String.{◌++◌ as append}
use text.Mathlib.Text.{starts_with}
use agents_for_dummies.Base.{
  ℕ, String, ◌≡◌, Bool, true, false, not, ◌&&◌, ◌||◌, Option, none, some, List, [], ◌∷◌, ◌==◌, min,
  ltb, leb, keep_if, any_of, contains, is_some, if◌then◌else◌,
}
use agents_for_dummies.Base.Dict.{get}
use agents_for_dummies.Base.Int.{is_positive}
use agents_for_dummies.Envelope.{
  Envelope, Decision, ReasonCode, Rule, Cost, unset, amount, unreadable, allowed_code,
  unauthenticated_sender, sender_mismatch, unknown_sender, unknown_recipient, sender_disabled,
  recipient_disabled, no_edge, capability_not_allowed, capability_disabled, operation_not_allowed,
  schema_not_allowed, unknown_classification, classification_exceeded, delegation_depth_exceeded,
  expired, invalid_expiry, cancelled_code, approval_required, cost_not_zero,
  token_budget_unsupported, budget_exceeded, policy_error, authenticated_sender, sender_match,
  known_sender, known_recipient, sender_enabled, recipient_enabled, edge_exists, intent_capability,
  operation_allowed, schema_allowed, classification_clearance, delegation_depth, not_expired,
  not_cancelled, approval_rule, cost_zero, budget_within_limits,
}
use agents_for_dummies.Registry.{
  Agent, Relationship, Registry, clearance_levels, edge, agent, capability,
}
use Data.{Instant, ContextNow, clock, at, iso_text, Context}
use Rules.{Check, Outcome, pass, deny, rule, refuse_if, require, refuse, return, ◌>>=◌, ◌>>◌}

abbrev pub or_else {ℓ} : {A : Type ℓ} → Option A → A → A
or_else none d = d
or_else (some a) d = a

abbrev pub flatten {ℓ} : {A : Type ℓ} → Option (Option A) → Option A
flatten none = none
flatten (some o) = o

-- `if not auth_sender`, then the comparison with the envelope
unfoldable pub check_sender : Context → Envelope → Check (Unit {0})
check_sender ctx env = do
  rule authenticated_sender
  auth_sender ← require ctx.authenticated_sender unauthenticated_sender
  refuse_if (auth_sender == "") unauthenticated_sender
  rule sender_match
  refuse_if (not (auth_sender == env.sender)) sender_mismatch

unfoldable pub check_parties : Envelope → Registry → Check (Agent × Agent)
check_parties env reg = do
  rule known_sender
  sender_agent ← require (agent reg env.sender true) unknown_sender
  rule known_recipient
  recipient_agent ← require (agent reg env.recipient true) unknown_recipient
  rule sender_enabled
  refuse_if (not sender_agent.enabled) sender_disabled
  rule recipient_enabled
  refuse_if (not recipient_agent.enabled) recipient_disabled
  return (sender_agent, recipient_agent)

abbrev pub relation_for : Envelope → String
relation_for env = if env.operation == "request" then "delegates_to" else "requests"

unfoldable pub check_edge : Envelope → Registry → Check Relationship
check_edge env reg = do
  rule edge_exists
  require (edge reg env.sender env.recipient (relation_for env)) no_edge

-- `removesuffix("ion")`, which is applied to "extraction" alone
abbrev pub intent_of : Envelope → String
intent_of env = if env.intent == "extraction" then "extract" else env.intent

abbrev pub serves : String → String → Bool
serves intent c = (c == intent) || starts_with c (append intent ".")

abbrev pub matching : Envelope → Agent → List String
matching env recipient_agent = keep_if (serves (intent_of env)) recipient_agent.capabilities

-- A declared capability that is switched off. The loader switches none off.
unfoldable pub is_disabled : Registry → String → Bool
is_disabled reg c = elim (capability reg c true) [ none ↦ false | some cap ↦ not cap.enabled ]

abbrev pub is_empty {ℓ} : {A : Type ℓ} → List A → Bool
is_empty [] = true
is_empty (x ∷ xs) = false

unfoldable pub check_capability : Envelope → Registry → Agent → Check (Unit {0})
check_capability env reg recipient_agent = do
  rule intent_capability
  refuse_if (not (is_empty reg.capabilities) && is_empty (matching env recipient_agent))
      capability_not_allowed
  refuse_if (any_of (is_disabled reg) (matching env recipient_agent)) capability_disabled

abbrev pub operations : List String
operations = "request" ∷ "response" ∷ "error" ∷ "cancellation" ∷ "approval" ∷ []

abbrev pub schemas : List String
schemas = "request_v1" ∷ "response_v1" ∷ "error_v1" ∷ "cancellation_v1" ∷ "approval_v1" ∷ []

unfoldable pub check_operation : Envelope → Check (Unit {0})
check_operation env = do
  rule operation_allowed
  refuse_if (not (contains env.operation operations)) operation_not_allowed
  rule schema_allowed
  refuse_if (not (contains env.schema schemas)) schema_not_allowed

abbrev pub level_of : String → Option ℕ
level_of clearance = get clearance clearance_levels

unfoldable pub check_clearance : Envelope → Agent → Agent → Check (Unit {0})
check_clearance env sender_agent recipient_agent = do
  rule classification_clearance
  sender_level ← require (level_of sender_agent.clearance) unknown_classification
  rcv_level ← require (level_of recipient_agent.clearance) unknown_classification
  env_level ← require (level_of env.data_classification) unknown_classification
  refuse_if (ltb sender_level env_level) classification_exceeded
  refuse_if (ltb rcv_level env_level) classification_exceeded

abbrev pub depth_limit : Relationship → Agent → ℕ
depth_limit e sender_agent =
    min (min (or_else e.max_delegation_depth 1) (or_else sender_agent.max_delegation_depth 1)) 1

unfoldable pub check_depth : Context → Relationship → Agent → Check (Unit {0})
check_depth ctx e sender_agent = do
  rule delegation_depth
  refuse_if (ltb (depth_limit e sender_agent) ctx.depth) delegation_depth_exceeded

-- The clock at the time of the call, and `datetime.fromisoformat` after Z is replaced.
module _ (parse_iso : String → Option Instant) (utc_now : ℕ) where
  -- `None` where the text is refused. A datetime without an offset is read as UTC.
  unfoldable pub now_ticks : ContextNow → Option ℕ
  now_ticks clock = some utc_now
  now_ticks (at i) = some i.ticks
  now_ticks (iso_text s) =
      if s == "" then some utc_now else elim (parse_iso s) [ none ↦ none | some i ↦ some i.ticks ]

  -- an absent or empty `expires_at` does not expire
  unfoldable pub check_expires : Context → Option String → Check (Unit {0})
  check_expires ctx none = return tt
  check_expires ctx (some expires_at) = if expires_at == "" then return tt else do
    now ← require (now_ticks ctx.now) invalid_expiry
    expires ← require (parse_iso expires_at) invalid_expiry
    refuse_if (ltb expires.ticks now) expired

  unfoldable pub check_expiry : Context → Envelope → Check (Unit {0})
  unfolding check_expires
  check_expiry ctx env = do rule not_expired; check_expires ctx env.expires_at

unfoldable pub check_cancelled : Context → Check (Unit {0})
check_cancelled ctx = do rule not_cancelled; refuse_if ctx.cancelled cancelled_code

abbrev pub needs_approval : Envelope → Relationship → Bool
needs_approval env e = e.requires_approval || or_else env.security.approval_required false

unfoldable pub check_approval : Context → Envelope → Relationship → Check (Unit {0})
check_approval ctx env e = do
  rule approval_rule
  refuse_if (needs_approval env e && not ctx.approval_valid) approval_required

-- An error of `float` ends in the handler of `evaluate`.
unfoldable pub check_amount : Cost → Check (Unit {0})
check_amount unset = return tt
check_amount unreadable = refuse policy_error
check_amount (amount z) = refuse_if (is_positive z) cost_not_zero

unfoldable pub check_cost : Envelope → Check (Unit {0})
unfolding check_amount
check_cost env = do rule cost_zero; check_amount env.budget.max_cost

-- `max is not None and used >= max`
abbrev pub reached : ℕ → Option ℕ → Bool
reached used none = false
reached used (some m) = leb m used

abbrev pub calls_limit : Context → Envelope → Option ℕ
calls_limit ctx env = or_else ctx.budget_limits.max_calls env.budget.max_calls

abbrev pub seconds_limit : Context → Envelope → Option ℕ
seconds_limit ctx env = or_else ctx.budget_limits.max_seconds (flatten env.budget.max_seconds)

unfoldable pub check_budget : Context → Envelope → Check (Unit {0})
check_budget ctx env = do
  rule budget_within_limits
  refuse_if (is_some env.budget.max_tokens) token_budget_unsupported
  refuse_if (reached ctx.budget_used.calls (calls_limit ctx env)) budget_exceeded
  refuse_if (reached ctx.budget_used.seconds (seconds_limit ctx env)) budget_exceeded

module _ (parse_iso : String → Option Instant) (utc_now : ℕ) where
  -- The rules in their order.
  unfoldable pub check_rules : Context → Envelope → Registry → Check (Unit {0})
  check_rules ctx env reg = do
    check_sender ctx env
    parties ← check_parties env reg
    e ← check_edge env reg
    check_capability env reg parties.1
    check_operation env
    check_clearance env parties.0 parties.1
    check_depth ctx e parties.0
    check_expiry parse_iso utc_now ctx env
    check_cancelled ctx
    check_approval ctx env e
    check_cost env
    check_budget ctx env

abbrev pub decide : String → String → Outcome (Unit {0}) → Decision
decide decision_id policy_version (pass _ rules) = record {
  allowed = true;
  decision_id = decision_id;
  reason_code = allowed_code;
  policy_version = policy_version;
  checked_rules = rules;
}
decide decision_id policy_version (deny c rules) = record {
  allowed = false;
  decision_id = decision_id;
  reason_code = c;
  policy_version = policy_version;
  checked_rules = rules;
}

-- The fresh decision id is an argument.
module _ (parse_iso : String → Option Instant) (utc_now : ℕ) where
  unfoldable pub evaluate : String → Context → Envelope → Registry → Decision
  evaluate decision_id ctx env reg =
      decide decision_id reg.policy_version (check_rules parse_iso utc_now ctx env reg [])
