-- ===== src/Gateway/Steps.antt =====
-- The steps of `Gateway.dispatch`.
use agents_for_dummies.Base.{
  String, Bool, true, false, not, ◌&&◌, Option, none, some, List, [], ◌∷◌, ◌++◌, ◌==◌, is_some,
  if◌then◌else◌,
}
use Prim.Native.String.{◌++◌ as append}
use agents_for_dummies.Base.Dict.{get}
use agents_for_dummies.Base.Result.{Result, ok, err}
use agents_for_dummies.Envelope.{
  Envelope, Decision, ReasonCode, Rule, sender_mismatch, envelope_invalid as envelope_invalid_code,
  audit_unavailable, duplicate_code, replay_conflict, replay_check,
}
use agents_for_dummies.Envelope.Validate.{
  Defect, Incomparable, unknown_protocol, schema_mismatch, prompt_missing, validate,
}
use agents_for_dummies.Policy.{or_else}
use agents_for_dummies.Router.{Route}
use agents_for_dummies.Control.Tables.{Control, Raised, type_error}
use agents_for_dummies.Control.Runs
use agents_for_dummies.Control.Replay.{
  ReplayResult, ReplayState, new, duplicate as duplicate_state, conflict as conflict_state, error,
  claim_replay,
}
use agents_for_dummies.Gateway.Data.{
  Mode, off, shadow, enforce, Status, denied, blocked, duplicate, conflict, envelope_invalid,
  WorkerResult, GatewayResult, Gateway, CallContext, Outside, Platform, M, return, stop,
  control_call, raise_err, ◌>>=◌, ◌>>◌,
}
use agents_for_dummies.Control.Tables.{envelope_error}

abbrev pub governed : Mode → Bool
governed off = false
governed shadow = true
governed enforce = true

abbrev pub is_enforce : Mode → Bool
is_enforce enforce = true
is_enforce _ = false

-- Decision(allowed, id, code, …, "1.0", rules)
abbrev pub gateway_decision : Bool → String → ReasonCode → List Rule → Decision
gateway_decision verdict decision_id code rules = record {
  allowed = verdict;
  decision_id = decision_id;
  reason_code = code;
  policy_version = "1.0";
  checked_rules = rules;
}

-- One call of `dispatch`.
pub record Call : Type 0 where
  pub gateway : Gateway
  pub platform : Platform
  pub outside : Outside
  pub context : CallContext
  pub envelope : Envelope
  pub route : Route

module _ (k : Call) where
  abbrev pub run_id : String
  run_id = or_else k.context.run_id k.outside.new_run_id

  abbrev pub result : Status → Decision → Option WorkerResult → Bool → GatewayResult
  result status decision worker_result recorded = record {
    status = status;
    decision = decision;
    worker_result = worker_result;
    node_id = k.outside.node_id;
    decision_recorded = recorded;
  }

  -- control.record_decision(…) for this request
  abbrev pub audit : Decision → String → Control → Result Raised Bool × Control
  audit d envelope_hash c =
      Runs.record_decision k.outside.faults.denial d run_id k.outside.node_id envelope_hash
        k.envelope.sender k.envelope.recipient k.envelope.operation c

  -- The first audit of the policy's decision has a fault of its own.
  abbrev pub audit_policy : Decision → String → Control → Result Raised Bool × Control
  audit_policy d envelope_hash c =
      Runs.record_decision k.outside.faults.decision d run_id k.outside.node_id envelope_hash
        k.envelope.sender k.envelope.recipient k.envelope.operation c

  -- A `ControlError` counts as not recorded.
  abbrev pub or_false : Result Raised Bool → Bool
  or_false (ok b) = b
  or_false (err e) = false

  -- Recording that swallows errors, in the governed modes.
  unfoldable pub audit_quietly : Decision → String → M Bool
  audit_quietly d envelope_hash =
      if governed k.gateway.mode
      then (do recorded ← control_call (audit d envelope_hash); return (or_false recorded))
      else return false

  -- Recording that lets a `ControlError` out, in the governed modes.
  unfoldable pub audit_loudly : Bool → Decision → String → M Bool
  audit_loudly before d envelope_hash =
      if governed k.gateway.mode
      then (do recorded ← control_call (audit d envelope_hash); raise_err recorded)
      else return before

  -- The decision is changed in place, recorded again and returned as a denial.
  unfoldable pub deny : Decision → ReasonCode → Bool → String → M (Unit {0})
  unfolding audit_loudly
  deny d code recorded envelope_hash = do
    let d' = record d { allowed = false; reason_code = code }
    recorded' ← audit_loudly recorded d' envelope_hash
    stop (result denied d' none recorded')

  abbrev pub impostor : Bool
  impostor = elim k.context.authenticated_sender [
    | none ↦ false
    | some s ↦ not (s == k.envelope.sender)
  ]

  -- Step 1
  unfoldable pub check_sender : M (Unit {0})
  unfolding audit_quietly
  check_sender =
      if impostor
      then (do
        let d = gateway_decision false k.outside.decision_id sender_mismatch []
        recorded ← audit_quietly d (or_else (k.platform.canonical_hash k.envelope) "")
        stop (result denied d none recorded))
      else return tt

  -- The defects that the gateway itself looks for.
  abbrev pub gateway_defects : List Defect
  gateway_defects =
      (if is_some (get k.envelope.protocol k.gateway.protocols) then [] else unknown_protocol ∷ [])
      ++ ((if k.envelope.schema == append k.envelope.operation "_v1"
            then []
            else schema_mismatch ∷ [])
          ++ (if k.envelope.operation == "request" && not (is_some k.envelope.payload.prompt)
              then prompt_missing ∷ []
              else []))

  unfoldable pub refuse_defects : List Defect → M (Unit {0})
  unfolding audit_quietly
  refuse_defects [] = return tt
  refuse_defects (_ ∷ _) = do
    let d = gateway_decision false k.outside.decision_id envelope_invalid_code []
    recorded ← audit_quietly d ""
    stop (result envelope_invalid d none recorded)

  abbrev pub defects : Result Incomparable (List Defect)
  defects =
      validate k.platform.parse_iso k.platform.payload_bytes k.platform.envelope_bytes k.envelope
        k.gateway.protocols

  abbrev or_type_error : Result Incomparable (List Defect) → Result Raised (List Defect)
  or_type_error (ok ds) = ok ds
  or_type_error (err e) = err type_error

  -- Step 2, with the hash of the envelope. Its errors leave the dispatch.
  unfoldable pub check_envelope : M String
  unfolding refuse_defects
  check_envelope = do
    found ← raise_err (or_type_error defects)
    refuse_defects (found ++ gateway_defects)
    raise_err
        (elim (k.platform.canonical_hash k.envelope) [ none ↦ err envelope_error | some h ↦ ok h ])

  -- Step 3. Unless it enforces, the gateway goes on without the control layer.
  unfoldable pub unavailable : M (Unit {0})
  unavailable =
      if is_enforce k.gateway.mode
      then stop (
          result blocked (gateway_decision false k.outside.node_id audit_unavailable []) none false)
      else return tt

  unfoldable pub settle_conflict : Decision → Result Raised Bool → M (Unit {0})
  unfolding unavailable
  settle_conflict d (ok recorded) = stop (result conflict d none recorded)
  settle_conflict d (err e) = unavailable

  unfoldable pub after_state : String → ReplayState → M (Unit {0})
  unfolding unavailable settle_conflict
  after_state envelope_hash new = return tt
  after_state envelope_hash error = unavailable
  after_state envelope_hash duplicate_state =
      stop (result duplicate (gateway_decision true k.outside.node_id duplicate_code []) none false)
  after_state envelope_hash conflict_state = do
    let d = gateway_decision false k.outside.decision_id replay_conflict (replay_check ∷ [])
    recorded ← control_call (audit d envelope_hash)
    settle_conflict d recorded

  unfoldable pub after_claim : String → Result Raised ReplayResult → M (Unit {0})
  unfolding unavailable after_state
  after_claim envelope_hash (err e) = unavailable
  after_claim envelope_hash (ok r) = after_state envelope_hash r.state

  unfoldable pub check_replay : String → M (Unit {0})
  unfolding after_claim
  check_replay envelope_hash =
      if governed k.gateway.mode
      then (do
        claimed ←
            control_call (claim_replay k.outside.faults.claim k.envelope.message_id envelope_hash)
        after_claim envelope_hash claimed)
      else return tt
