-- ===== src/Tests/Lineup.antt =====
-- A run with two models, one of which has failed.
use mathlib.Core.List.{Memᴰ}
use agents_for_dummies.Base.{
  ◌↔◌, ◌≤◌, String, ◌≡◌, refl, true, Option, none, some, List, [], ◌∷◌, arith,
}
use agents_for_dummies.Base.Dict.{get}
use agents_for_dummies.Router.{Route, eligible}
use agents_for_dummies.Lineup.{
  RunRecord, count_retries, route_step, step_failure, with_pick, rank, remove_failed,
}
use agents_for_dummies.Lineup.Steps.{
  Outcome, next_run, IsUntried, route_step-authority, route_step-retries, route_step-IsUntried,
}
use agents_for_dummies.Tests.Router.{catalog, table}
use agents_for_dummies.Lineup.Plan.{
  IsCandidate, lineup_candidates, lineup_candidates-IsCandidate_iff,
}

abbrev route : String → Route
route model = record { provider = "claude"; model = model; tier = "senior"; cmd_kind = "http" }

abbrev run : Option Route → RunRecord
run picked = record {
  run_id = "r1";
  task = "code";
  accept_rule = "";
  authority_holder = route "judge";
  authority_limits = "";
  authority_movable = true;
  authority_move_rule = none;
  policy_version = "1.0";
  allowed_models = [];
  hard_limits = "";
  budget = "";
  tie_break_order = "cost" ∷ [];
  max_retries = 0;
  model_snapshot_ref = "";
  candidates_considered = [];
  picked = picked;
  retries = [];
  authority_change_events = [];
  pre_approved_larger_pool = [];
  pre_approved_backup_list = route "backup" ∷ [];
}

abbrev pool : List Route
pool = route "opus" ∷ route "other" ∷ []

route_step-authority_example :
    Outcome catalog
      (run none)
      pool
      "holder_cannot_continue"
      (next_run catalog (run none) pool "holder_cannot_continue")
route_step-authority_example = route_step-authority catalog (run none) pool "holder_cannot_continue"

route_step-retries_example :
    count_retries (next_run catalog (run (some (route "opus"))) pool "failure") ≤ 0
route_step-retries_example =
    route_step-retries catalog (run (some (route "opus"))) pool "failure" (omega arith)

other-next :
    (route_step catalog (run (some (route "opus"))) "failure" pool).picked ≡ some (route "other")
unfolding route_step step_failure with_pick rank remove_failed
other-next = refl

-- The pick before the last one is forgotten: a second failure goes back to it.
opus-again :
    (route_step catalog
      (next_run catalog (run (some (route "opus"))) pool "failure")
      "failure"
      pool).picked
    ≡ some (route "opus")
unfolding route_step step_failure with_pick rank remove_failed
opus-again = refl

route_step-IsUntried_example : IsUntried catalog (run (some (route "opus"))) pool (route "other")
route_step-IsUntried_example =
    route_step-IsUntried catalog (run (some (route "opus"))) pool (route "other") (omega arith)
      other-next

opus_only : lineup_candidates table catalog "anthropic" "code" ("opus" ∷ []) ≡ route "opus" ∷ []
unfolding lineup_candidates eligible get
opus_only = refl

lineup_candidates-IsCandidate_iff_example :
    Memᴰ (route "opus") (lineup_candidates table catalog "anthropic" "code" ("opus" ∷ []))
    ↔ IsCandidate table catalog "anthropic" "code" ("opus" ∷ []) (route "opus")
lineup_candidates-IsCandidate_iff_example =
    lineup_candidates-IsCandidate_iff table catalog "anthropic" "code" ("opus" ∷ []) (route "opus")
