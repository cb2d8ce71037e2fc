-- ===== src/Reviewer/Review.antt =====
-- reviewer.py: `review`, around the call of a worker or of the gateway, and the reading of JSON.
use agents_for_dummies.Base.{
  String, Bool, true, false, Option, none, some, List, ℕ, ◌==◌, if◌then◌else◌,
}
use agents_for_dummies.Base.Dict.{Dict}
use agents_for_dummies.Base.Result.{Result, ok, err}
use agents_for_dummies.Router.{Profile, Route, Table, pick_model}
use agents_for_dummies.Gateway.Data.{
  Status, allowed, WorkerStatus, returned, failed, paused, WorkerResult, GatewayResult,
}
use agents_for_dummies.Reviewer.Verdicts.{
  Verdict, ReviewError, value_error, type_error, Judgement, judge,
}

-- The governance mode, from the argument or from the environment.
pub data ReviewMode : Type 0 where
  off shadow enforce other : ReviewMode

-- What reading the output gives: no JSON or not the object that is asked for; or the fields
-- `verdicts` and `omissions`, each `none` where it cannot be iterated over.
pub data ReviewPayload : Type 0 where
  unreadable : ReviewPayload
  fields : Option (List Verdict) → Option (List String) → ReviewPayload

-- ReviewResult.status
pub data ReviewStatus : Type 0 where
  no_other_vendor same_vendor blocked unparsed : ReviewStatus
  not_allowed : Status → ReviewStatus
  not_returned : WorkerStatus → ReviewStatus
  judged : Judgement → ReviewStatus

-- The two command-line tools that a review without governance runs.
pub data Cli : Type 0 where
  claude_cli codex_cli : Cli

-- codex for every provider but claude
abbrev pub cli_for : Route → Cli
cli_for route = if route.provider == "claude" then claude_cli else codex_cli

-- What is called: a tool with a model, or the gateway with a route.
pub data Called : Type 0 where
  ran : Cli → String → Called
  governed : Route → Called

-- What is called over a route.
abbrev pub call_of : ReviewMode → Route → Called
call_of off route = ran (cli_for route) route.model
call_of mode route = governed route

-- How a review ends, and what it called.
pub record Review : Type 0 where
  pub outcome : Result ReviewError ReviewStatus
  pub called : Option Called

abbrev pub judged_as : Result ReviewError Judgement → Result ReviewError ReviewStatus
judged_as (err e) = err e
judged_as (ok judgement) = ok (judged judgement)

module _ (parse : String → ReviewPayload) (claims : ℕ) where
  -- What is made of an output that was returned.
  abbrev pub read_payload : ReviewPayload → Result ReviewError ReviewStatus
  read_payload unreadable = ok unparsed
  read_payload (fields none omissions) = err type_error
  read_payload (fields (some verdicts) none) = err type_error
  read_payload (fields (some verdicts) (some omissions)) =
      judged_as (judge claims verdicts omissions)

  abbrev pub worker_outcome : WorkerStatus → String → Result ReviewError ReviewStatus
  worker_outcome returned output = read_payload (parse output)
  worker_outcome failed output = ok (not_returned failed)
  worker_outcome paused output = ok (not_returned paused)

  abbrev pub after_worker : WorkerResult → Result ReviewError ReviewStatus
  after_worker result = worker_outcome result.status result.output

  -- What a governed call that was not allowed gives.
  abbrev pub refused : ReviewMode → Status → ReviewStatus
  refused enforce status = blocked
  refused _ status = not_allowed status

  -- A result that is allowed has a worker's result; None has no status.
  abbrev pub gateway_outcome :
      ReviewMode → Status → Option WorkerResult → Result ReviewError ReviewStatus
  gateway_outcome mode allowed none = err ReviewError.attribute_error
  gateway_outcome mode allowed (some worker) = after_worker worker
  gateway_outcome mode status worker = ok (refused mode status)

  abbrev pub after_gateway : ReviewMode → GatewayResult → Result ReviewError ReviewStatus
  after_gateway mode result = gateway_outcome mode result.status result.worker_result

  module _ (run : Cli → String → WorkerResult) (dispatch : Route → GatewayResult) where
    abbrev pub call_reviewer : ReviewMode → Route → Result ReviewError ReviewStatus
    call_reviewer off route = after_worker (run (cli_for route) route.model)
    call_reviewer mode route = after_gateway mode (dispatch route)

    -- The vendor rule: whether the route's provider is the worker's.
    abbrev pub vendor_rule : ReviewMode → Route → Bool → Review
    vendor_rule mode route true = record { outcome = ok same_vendor; called = none }
    vendor_rule mode route false = record {
      outcome = call_reviewer mode route;
      called = some (call_of mode route);
    }

    -- The rest, on the route that was given or picked.
    unfoldable pub review_over : ReviewMode → String → Option Route → Review
    review_over mode worker_provider none = record { outcome = ok no_other_vendor; called = none }
    review_over mode worker_provider (some route) =
        vendor_rule mode route (route.provider == worker_provider)

    module _ (table : Table) (catalog : Dict Profile) where
      abbrev pub review_route : Option Route → String → List String → Bool → Option Route
      review_route (some route) worker_provider available authorized = some route
      review_route none worker_provider available authorized =
          pick_model table catalog "review" "workhorse" available authorized (some worker_provider)
            none

      unfoldable pub review : ReviewMode → Option Route → String → List String → Bool → Review
      review other route worker_provider available authorized = record {
        outcome = err value_error;
        called = none;
      }
      review mode route worker_provider available authorized =
          review_over mode worker_provider (review_route route worker_provider available authorized)
