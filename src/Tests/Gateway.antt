-- ===== src/Tests/Gateway.antt =====
-- Dispatches of the gateway at a request that it allows, and at one on which it raises.
use agents_for_dummies.Base.{String, ◌≡◌, refl, true, false, Option, none, some, [], ◌∷◌}
use agents_for_dummies.Base.Dict.{get}
use agents_for_dummies.Base.Result.{ok, err}
use agents_for_dummies.Router.{Route}
use agents_for_dummies.Control.Tables.{fine, empty, type_error}
use agents_for_dummies.Control.Runs.{total_calls}
use agents_for_dummies.Control.Ops.{lease_released}
use agents_for_dummies.Control.Once.{hash_of}
use agents_for_dummies.Control.Budget.{IsWithin}
use agents_for_dummies.Gateway.Data.{
  enforce, allowed, returned, Gateway, CallContext, Faults, Outside, Platform, World, GatewayResult,
}
use agents_for_dummies.Gateway.Steps.{Call}
use agents_for_dummies.Gateway.Dispatch.{dispatch, cataloged, gate_missing}
use agents_for_dummies.Gateway.Invocation.{
  Outcome, dispatch-Outcome, dispatch-enforced, dispatch-once, is_through, later,
}
use agents_for_dummies.Gateway.Raises.{dispatch-raises}
use agents_for_dummies.Gateway.Dispatch.{
  pipeline, decide, authorize, after_audit, after_budget, after_reserve, before_deadline,
  before_due, bind_output, bound_run, check_cancelled, check_deadline, check_route, commit,
  decide_by, evaluate_with, free_lease, give_up, invoke, recheck_cancelled, reserve,
}
use agents_for_dummies.Gateway.Data.{
  ◌>>◌, return, raise_err, control_call, control_read, log, stop, ◌>>=◌,
}
use agents_for_dummies.Gateway.Steps.{
  check_sender, check_envelope, check_replay, after_claim, after_state, refuse_defects,
}
use agents_for_dummies.Envelope.Validate.{
  validate, chronology, compare_times, envelope_limit, not_iso, size_defects,
}
use agents_for_dummies.Control.Replay.{claim_replay, store_artifact}
use agents_for_dummies.Control.Runs.{
  record_run_budget, record_decision, commit_usage, is_cancelled, release_lease, reserve_bounded,
  used,
}
use agents_for_dummies.Policy.{
  evaluate, check_sender as policy_check_sender, check_parties, check_edge, is_disabled,
  check_capability, check_operation, check_clearance, now_ticks, check_expires, check_depth,
  check_expiry, check_cancelled as policy_check_cancelled, check_approval, check_amount, check_cost,
  check_budget, check_rules,
}
use agents_for_dummies.Registry.{agent, capability, edge}
use agents_for_dummies.Registry.{provider_for}
use agents_for_dummies.Policy.Trail.{all_rules}
use agents_for_dummies.Envelope.{allowed_code}
use agents_for_dummies.Tests.Data.{read_time, registry, request}
use agents_for_dummies.Tests.Router.{catalog}

abbrev gateway : Gateway
gateway = record {
  mode = enforce;
  registry = some registry;
  protocols = ("p", record { max_bytes = some 1000 }) ∷ [];
  catalog = catalog;
}

abbrev no_faults : Faults
no_faults = record {
  claim = fine;
  used = fine;
  budget = fine;
  binds = fine;
  decision = fine;
  denial = fine;
  cancel_first = fine;
  reserve = fine;
  cancel_second = fine;
  release = fine;
  lease = fine;
  commit = fine;
  store = fine;
}

abbrev outside : String → Outside
outside node_id = record {
  node_id = node_id;
  new_run_id = "r0";
  decision_id = "d1";
  busy_id = "b1";
  policy_now = 2_000_000;
  approval_now = "T1";
  deadline_now = 3_000_000;
  worker = some (record { status = returned; output = "done" });
  elapsed = 7;
  output_hash = "sha";
  faults = no_faults;
}

abbrev platform : Platform
platform = record {
  parse_iso = read_time;
  payload_bytes = λ p. some 20;
  envelope_bytes = λ e. some 400;
  canonical_hash = λ e. some "hash";
}

abbrev context : CallContext
context = record {
  run_id = some "r1";
  authenticated_sender = some "lead";
  depth = 1;
  cancelled = false;
  gate_reason = none;
  parent_id = none;
  edge_type = none;
  artifact_hash = none;
  cwd = none;
}

abbrev route : Route
route = record { provider = "claude"; model = "opus"; tier = "senior"; cmd_kind = "cli" }

abbrev call : String → Option String → Call
call node_id expires_at = record {
  gateway = gateway;
  platform = platform;
  outside = outside node_id;
  context = context;
  envelope = request "m1" expires_at;
  route = route;
}

abbrev start : World
start = record { control = empty; events = [] }

first-through : is_through (dispatch (call "n1" (some "T2")) start).0 ≡ true
unfolding dispatch pipeline decide authorize after_audit after_budget after_reserve before_deadline
    before_due bind_output bound_run check_cancelled check_deadline check_route commit decide_by
    evaluate_with free_lease give_up invoke recheck_cancelled reserve ◌>>◌ return raise_err
    control_call control_read log stop ◌>>=◌ check_sender check_envelope check_replay after_claim
    after_state refuse_defects validate chronology compare_times envelope_limit not_iso size_defects
    get claim_replay store_artifact record_run_budget record_decision commit_usage is_cancelled
    release_lease reserve_bounded used evaluate provider_for edge policy_check_sender check_parties
    check_edge is_disabled check_capability check_operation check_clearance now_ticks check_expires
    check_depth check_expiry policy_check_cancelled check_approval check_amount check_cost
    check_budget check_rules agent capability
first-through = refl

dispatch-Outcome_example :
    Outcome (call "n1" (some "T2")) start (dispatch (call "n1" (some "T2")) start)
dispatch-Outcome_example = dispatch-Outcome (call "n1" (some "T2")) start

dispatch-once_example :
    is_through
      (dispatch (call "n2" none) (
        later
          (call "n1" (some "T2"))
          (call "n2" none)
          start
          ((lease_released "r1", fine) ∷ [])
          [])).0
    ≡ false
dispatch-once_example =
    dispatch-once (call "n1" (some "T2")) (call "n2" none) start ((lease_released "r1", fine) ∷ [])
      [] refl refl refl first-through

dispatch-raises_example : dispatch (call "n1" (some "T3")) start ≡ (err type_error, start)
dispatch-raises_example =
    dispatch-raises (call "n1" (some "T3")) start "T1" "T3"
      (record { ticks = 1_000_000; aware = true }) (record { ticks = 9_000_000; aware = false })
      refl refl refl refl refl refl

abbrev first_result : GatewayResult
first_result = record {
  status = allowed;
  decision = record {
    allowed = true;
    decision_id = "d1";
    reason_code = allowed_code;
    policy_version = "2.0";
    checked_rules = all_rules;
  };
  worker_result = some (record { status = returned; output = "done" });
  node_id = "n1";
  decision_recorded = true;
}

first-dispatch :
    dispatch (call "n1" (some "T2")) start
    ≡ (ok first_result, (dispatch (call "n1" (some "T2")) start).1)
unfolding dispatch pipeline decide authorize after_audit after_budget after_reserve before_deadline
    before_due bind_output bound_run check_cancelled check_deadline check_route commit decide_by
    evaluate_with free_lease give_up invoke recheck_cancelled reserve ◌>>◌ return raise_err
    control_call control_read log stop ◌>>=◌ check_sender check_envelope check_replay after_claim
    after_state refuse_defects validate chronology compare_times envelope_limit not_iso size_defects
    get claim_replay store_artifact record_run_budget record_decision commit_usage is_cancelled
    release_lease reserve_bounded used evaluate provider_for edge policy_check_sender check_parties
    check_edge is_disabled check_capability check_operation check_clearance now_ticks check_expires
    check_depth check_expiry policy_check_cancelled check_approval check_amount check_cost
    check_budget check_rules agent capability
first-dispatch = refl

dispatch-enforced_example :
    (true ≡ true)
    × (true ≡ true)
    × (cataloged (call "n1" (some "T2")) ≡ true)
    × (gate_missing (call "n1" (some "T2")) ≡ false)
    × (hash_of "m1" empty ≡ none)
    × ((h : String) × (hash_of "m1" (dispatch (call "n1" (some "T2")) start).1.control ≡ some h))
    × IsWithin (total_calls "r1" (dispatch (call "n1" (some "T2")) start).1.control) (some 2)
dispatch-enforced_example =
    dispatch-enforced (call "n1" (some "T2")) start (dispatch (call "n1" (some "T2")) start).1
      first_result refl first-dispatch refl
