-- ===== src/Gateway/Dispatch.antt =====
-- The later steps of `Gateway.dispatch`, and the whole of it.
use Prim.Native.Nat.{◌/◌}
use agents_for_dummies.Base.{
  ℕ, ◌-◌, ◌*◌, min, String, Bool, true, false, not, ◌&&◌, ◌||◌, Option, none, some, [], ◌==◌, leb,
  is_some, if◌then◌else◌,
}
use agents_for_dummies.Base.Dict.{get}
use agents_for_dummies.Base.Int.{pos}
use agents_for_dummies.Base.Result.{Result, ok, err}
use agents_for_dummies.Envelope.{
  Decision, allowed_code, audit_unavailable, no_registry, route_provider_mismatch,
  provider_not_executable, route_not_cataloged, frontier_gate_required, expired, invalid_deadline,
}
use agents_for_dummies.Envelope.Validate.{given_text}
use agents_for_dummies.Registry.{Registry, provider_for}
use agents_for_dummies.Policy.{evaluate, flatten, or_else}
use agents_for_dummies.Policy.Data.{Context, Instant, ContextNow, Limits, Used}
use agents_for_dummies.Control.Tables.{Control, Raised, RunBudget}
use agents_for_dummies.Control.Runs
use agents_for_dummies.Control.Replay.{store_artifact}
use agents_for_dummies.Control.Approvals.{approval_binds}
use agents_for_dummies.Gateway.Data.{
  allowed, denied, blocked, cancelled, WorkerResult, returned, failed, paused, GatewayResult,
  dispatched, invoked, finished, output_bound, World, M, Step, return, stop, control_call,
  control_read, raise_err, log, ◌>>=◌, ◌>>◌,
}
use agents_for_dummies.Gateway.Steps.{
  Call, governed, is_enforce, gateway_decision, run_id, result, audit_policy, or_false,
  audit_loudly, deny, check_sender, check_envelope, check_replay,
}

module _ (k : Call) where
  -- The context that the policy sees: the caller's, with what the control layer knows put over it.
  abbrev pub trusted_context : Used → Limits → Bool → Context
  trusted_context used limits approval_valid = record {
    authenticated_sender = k.context.authenticated_sender;
    depth = k.context.depth;
    now = ContextNow.at (record { ticks = k.outside.policy_now; aware = true });
    cancelled = k.context.cancelled;
    approval_valid = approval_valid;
    budget_used = used;
    budget_limits = limits;
  }

  abbrev pub durable_limits : RunBudget → Limits
  durable_limits b = record { max_calls = some b.max_calls; max_seconds = some b.max_seconds }

  -- The limits of the run: the first that were declared, which are kept. Where they cannot be
  -- had, an enforcing gateway stops and another reads the envelope's.
  unfoldable pub after_budget : Result Raised RunBudget → M Limits
  after_budget (ok b) = return (durable_limits b)
  after_budget (err e) =
      if is_enforce k.gateway.mode
      then stop (
          result k blocked (gateway_decision false k.outside.node_id audit_unavailable []) none
            false)
      else return (record { max_calls = none; max_seconds = none })

  -- `approval_binds` is asked only for an id that is given.
  abbrev pub approval_answer : Control → Result Raised Bool
  approval_answer c = elim (given_text k.envelope.security.approval_id) [
    | none ↦ ok false
    | some approval_id ↦
        approval_binds k.platform.parse_iso k.outside.faults.binds approval_id k.envelope.intent
          (or_else k.envelope.security.resource "") (or_else k.envelope.security.artifact_hash "")
          k.outside.approval_now c
  ]

  unfoldable pub evaluate_with : Registry → M Decision
  unfolding after_budget
  evaluate_with reg = do
    used ← control_read (Runs.used k.outside.faults.used (run_id k))
    recorded ← control_call (
        Runs.record_run_budget k.outside.faults.budget (run_id k) k.envelope.budget.max_calls
          (flatten k.envelope.budget.max_seconds))
    limits ← after_budget recorded
    answer ← control_read approval_answer
    valid ← raise_err answer
    return (
        evaluate k.platform.parse_iso k.outside.policy_now k.outside.decision_id
          (trusted_context used limits valid) k.envelope reg)

  unfoldable pub decide_by : Option Registry → M Decision
  unfolding evaluate_with
  decide_by none = return (gateway_decision false k.outside.node_id no_registry [])
  decide_by (some reg) = evaluate_with reg

  -- Step 4
  unfoldable pub decide : M Decision
  unfolding decide_by
  decide =
      if governed k.gateway.mode
      then decide_by k.gateway.registry
      else return (gateway_decision true k.outside.node_id allowed_code [])

  unfoldable pub after_audit : Decision → Bool → M Bool
  after_audit d recorded =
      if is_enforce k.gateway.mode && not recorded
      then stop (result k blocked d none false)
      else if is_enforce k.gateway.mode && not d.allowed
      then stop (result k denied d none recorded)
      else return recorded

  -- Steps 5 and 6: an enforcing gateway goes on only with a recorded, allowed decision.
  unfoldable pub authorize : Decision → String → M Bool
  unfolding after_audit
  authorize d envelope_hash =
      if governed k.gateway.mode
      then (do
        answer ← control_call (audit_policy k d envelope_hash)
        after_audit d (or_false k answer))
      else return false

  -- The provider that the registry gives the recipient, if it gives one, is not the route's.
  abbrev pub provider_differs : Bool
  provider_differs = elim k.gateway.registry [
    | none ↦ false
    | some reg ↦ elim (provider_for reg k.envelope.recipient) [
      | none ↦ false
      | some p ↦ not (p == k.route.provider)
    ]
  ]

  abbrev pub executable : Bool
  executable = (k.route.provider == "claude") || (k.route.provider == "codex")

  abbrev pub cataloged : Bool
  cataloged = elim (get k.route.model k.gateway.catalog) [
    | none ↦ false
    | some profile ↦ (profile.provider == k.route.provider) && (profile.tier == k.route.tier)
  ]

  abbrev pub gate_missing : Bool
  gate_missing = (k.route.tier == "executive") && not (is_some (given_text k.context.gate_reason))

  -- Steps 7 and 8
  unfoldable pub check_route : Decision → Bool → String → M (Unit {0})
  check_route d recorded envelope_hash =
      if provider_differs
      then deny k d route_provider_mismatch recorded envelope_hash
      else if not executable
      then deny k d provider_not_executable recorded envelope_hash
      else if governed k.gateway.mode && not cataloged
      then deny k d route_not_cataloged recorded envelope_hash
      else if governed k.gateway.mode && gate_missing
      then deny k d frontier_gate_required recorded envelope_hash
      else return tt

  -- Step 9
  unfoldable pub check_cancelled : Decision → Bool → M (Unit {0})
  check_cancelled d recorded =
      if governed k.gateway.mode
      then (do
        stopped ← control_read (Runs.is_cancelled k.outside.faults.cancel_first (run_id k))
        if stopped then stop (result k cancelled d none recorded) else return tt)
      else return tt

  -- Only an enforcing gateway limits the reservation.
  abbrev pub calls_cap : Option ℕ
  calls_cap = if is_enforce k.gateway.mode then k.envelope.budget.max_calls else none

  abbrev pub seconds_cap : Option ℕ
  seconds_cap = if is_enforce k.gateway.mode then flatten k.envelope.budget.max_seconds else none

  unfoldable pub after_reserve : Decision → Bool → Result Raised Bool → M (Unit {0})
  after_reserve d recorded (ok reserved) =
      if reserved then return tt else stop (result k blocked d none recorded)
  after_reserve d recorded (err e) =
      if is_enforce k.gateway.mode then stop (result k blocked d none recorded) else return tt

  -- Step 10
  unfoldable pub reserve : Decision → Bool → M (Unit {0})
  unfolding after_reserve
  reserve d recorded =
      if governed k.gateway.mode
      then (do
        answer ← control_call (
            Runs.reserve_bounded k.outside.faults.reserve k.outside.busy_id (run_id k)
              k.outside.node_id 1 0 calls_cap seconds_cap)
        after_reserve d recorded answer)
      else return tt

  unfoldable pub give_up : Decision → Bool → Bool → M (Unit {0})
  give_up d recorded false = return tt
  give_up d recorded true = do
    control_call (Runs.release k.outside.faults.release (run_id k) k.outside.node_id)
    stop (result k cancelled d none recorded)

  -- Step 11
  unfoldable pub recheck_cancelled : Decision → Bool → M (Unit {0})
  unfolding give_up
  recheck_cancelled d recorded =
      if governed k.gateway.mode
      then (do
        stopped ← control_read (Runs.is_cancelled k.outside.faults.cancel_second (run_id k))
        give_up d recorded stopped)
      else return tt

  unfoldable pub release_expired : M Bool
  release_expired =
      if governed k.gateway.mode
      then control_call (Runs.release k.outside.faults.release (run_id k) k.outside.node_id)
      else return false

  unfoldable pub free_lease : M Bool
  free_lease =
      if governed k.gateway.mode
      then control_call (Runs.release_lease k.outside.faults.lease (run_id k))
      else return false

  -- The lease is given back and the reservation stays.
  unfoldable pub refuse_deadline : Decision → Bool → String → M (Option ℕ)
  unfolding free_lease
  refuse_deadline d recorded envelope_hash = do
    free_lease
    let d' = gateway_decision false d.decision_id invalid_deadline d.checked_rules
    recorded' ← audit_loudly k recorded d' envelope_hash
    stop (result k denied d' none recorded')

  unfoldable pub refuse_expired : Decision → Bool → String → M (Option ℕ)
  unfolding release_expired
  refuse_expired d recorded envelope_hash = do
    release_expired
    deny k d expired recorded envelope_hash
    return none

  -- `budget.get("max_seconds", 300)`: `none` for a null, on which `min` raises. In microseconds.
  abbrev pub max_run : Option ℕ
  max_run = or_else k.envelope.budget.max_seconds (some (300 * 1_000_000))

  -- The worker's timeout in whole seconds, where there is time left.
  unfoldable pub bound_run : Decision → Bool → String → ℕ → Option ℕ → M (Option ℕ)
  unfolding refuse_deadline
  bound_run d recorded envelope_hash left none = refuse_deadline d recorded envelope_hash
  bound_run d recorded envelope_hash left (some longest) =
      return (some (min left longest / 1_000_000))

  unfoldable pub before_due : Decision → Bool → String → Option Instant → M (Option ℕ)
  unfolding refuse_deadline refuse_expired bound_run
  before_due d recorded envelope_hash none = refuse_deadline d recorded envelope_hash
  before_due d recorded envelope_hash (some due) =
      if leb due.ticks k.outside.deadline_now
      then refuse_expired d recorded envelope_hash
      else bound_run d recorded envelope_hash (due.ticks - k.outside.deadline_now) max_run

  unfoldable pub before_deadline : Decision → Bool → String → Option String → M (Option ℕ)
  unfolding before_due
  before_deadline d recorded envelope_hash none = return none
  before_deadline d recorded envelope_hash (some deadline) =
      before_due d recorded envelope_hash (k.platform.parse_iso deadline)

  -- Step 12
  unfoldable pub check_deadline : Decision → Bool → String → M (Option ℕ)
  unfolding before_deadline
  check_deadline d recorded envelope_hash =
      before_deadline d recorded envelope_hash (given_text k.envelope.deadline)

  abbrev pub worker_result : WorkerResult
  worker_result = or_else k.outside.worker (record { status = failed; output = "" })

  abbrev pub keeps_output : WorkerResult → Bool
  keeps_output r = elim r.status [
    | failed ↦ false
    | returned ↦ not (r.output == "")
    | paused ↦ not (r.output == "")
  ]

  -- Step 16
  unfoldable pub bind_output : String → M (Unit {0})
  bind_output envelope_hash =
      if keeps_output worker_result
      then (do
        log (output_bound k.outside.node_id k.outside.output_hash)
        control_call (
            store_artifact k.outside.faults.store k.envelope.message_id envelope_hash
              k.outside.output_hash)
        return tt)
      else return tt

  unfoldable pub commit : M Bool
  commit =
      if governed k.gateway.mode
      then control_call (
          Runs.commit_usage k.outside.faults.commit (run_id k) k.outside.node_id
            (pos k.outside.elapsed))
      else return false

  -- Steps 13 to 16
  unfoldable pub invoke : Decision → Bool → String → Option ℕ → M GatewayResult
  unfolding commit bind_output free_lease
  invoke d recorded envelope_hash timeout = do
    log (
        dispatched k.outside.node_id (run_id k) k.route.model k.route.tier k.envelope.intent
          k.route.provider)
    log (invoked k.route.provider k.route.model k.envelope.payload.prompt timeout)
    commit
    log (finished k.outside.node_id worker_result.status k.outside.elapsed)
    bind_output envelope_hash
    free_lease
    return (result k allowed d (some worker_result) recorded)

  unfoldable pub pipeline : M GatewayResult
  pipeline = do
    check_sender k
    envelope_hash ← check_envelope k
    check_replay k envelope_hash
    d ← decide
    recorded ← authorize d envelope_hash
    check_route d recorded envelope_hash
    check_cancelled d recorded
    reserve d recorded
    recheck_cancelled d recorded
    timeout ← check_deadline d recorded envelope_hash
    invoke d recorded envelope_hash timeout

  abbrev pub settle : Step GatewayResult × World → Result Raised GatewayResult × World
  settle (Step.next r, w) = (ok r, w)
  settle (Step.finish r, w) = (ok r, w)
  settle (Step.raise e, w) = (err e, w)

  unfoldable pub dispatch : World → Result Raised GatewayResult × World
  dispatch w = settle (pipeline w)
