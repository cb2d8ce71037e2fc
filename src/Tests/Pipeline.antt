-- ===== src/Tests/Pipeline.antt =====
-- A brief with one claim, in which the review finds an issue and accepts the correction.
use agents_for_dummies.Base.{
  ℕ, zero, suc, ◌≤◌, String, ◌≡◌, refl, Bool, true, false, Option, none, some, List, [], ◌∷◌, ◌==◌,
}
use agents_for_dummies.Base.Dict.{Dict, get}
use agents_for_dummies.Base.Int.{pos}
use agents_for_dummies.Base.Result.{ok}
use agents_for_dummies.Router.{
  Route, Table, Profile, pick_model, pick_model_chain, chain_over, provider_order, skipped,
  provider_routes, named_routes, named_route, configured_routes, configured_models, eligible,
}
use agents_for_dummies.Gateway.Data.{WorkerResult, returned}
use agents_for_dummies.Verifier.Verify.{paragraph_of, quote_matches, check_claims, verify, passed}
use agents_for_dummies.Verifier.Drafts.{check_draft}
use agents_for_dummies.Reviewer.Verdicts.{
  dict, all_bools, claim_ids, insert_id, sorted_ids, range_from, judge_ids, judge,
}
use agents_for_dummies.Reviewer.Review.{ReviewPayload, fields, off, review, review_over}
use agents_for_dummies.Pipeline.Worker.{
  passed_review, verified, Processed, Extract, extract, anchored, dispatch_worker,
  process_worker_result,
}
use agents_for_dummies.Pipeline.Brief.{
  BriefResult, Surroundings, Request, review_round, review_loop, brief,
}
use agents_for_dummies.Pipeline.Quality.{process}
use agents_for_dummies.Pipeline.Bounds.{brief-corrections}
use agents_for_dummies.Tests.Reviewer.{
  governed_call, match_anchor, unchanged, found_in, paras, claims,
}

abbrev profile : String → String → Profile
profile provider tier = record {
  vendor = provider;
  provider = provider;
  tier = tier;
  tasks_good = "extract" ∷ "review" ∷ [];
  tasks_bad = [];
  status = "ok";
  cost_class = "paid";
  ctx_hint = 200_000;
}

abbrev two_models : Dict Profile
two_models = ("haiku", profile "claude" "grunt") ∷ ("gpt", profile "codex" "workhorse") ∷ []

abbrev two_providers : Table
two_providers = record {
  required = "claude" ∷ "codex" ∷ [];
  optional = [];
  tiers = ("grunt", ("claude", "haiku" ∷ []) ∷ []) ∷ ("workhorse", ("codex", "gpt" ∷ []) ∷ []) ∷ [];
  optional_allowed_tasks = [];
}

abbrev answer : String → Route → WorkerResult
answer output route = record { status = returned; output = output }

-- The reviewer's output is the draft's number: an issue with the first, none with the second.
abbrev by_round : ℕ → String
by_round zero = "first"
by_round (suc n) = "second"

abbrev setting : Surroundings
setting = record {
  table = two_providers;
  catalog = two_models;
  available = "claude" ∷ "codex" ∷ [];
  authorized = false;
  permits = λ route. true;
  run = λ round. answer (by_round round);
  dispatch = λ round. governed_call;
  review_run = λ round cli model. record { status = returned; output = by_round round };
  review_dispatch = λ round. governed_call;
}

abbrev parse_review : String → ReviewPayload
parse_review output = fields (some (dict (some (output == "second")) (some (pos 0)) ∷ [])) (some [])

abbrev read_draft : String → Extract
read_draft output = extract claims output

abbrev whole : String → List String
whole draft = draft ∷ []

abbrev cites_two : String → List String
cites_two sentence = "2" ∷ []

abbrev number_two : String → Option String
number_two anchor = some "2"

abbrev never_blank : String → Bool
never_blank text = false

abbrev as_marked : Processed → String
as_marked p = p.draft

abbrev request : Request
request = record {
  worker_tier = "grunt";
  worker_provider = none;
  review_enabled = true;
  max_corrections = 1;
}

abbrev corrected : BriefResult
corrected = record {
  status = verified;
  draft = "second";
  report = some record { checked = 1; matched = 1; failures = [] };
  content_review = some passed_review;
  corrections = some 1;
}

corrected_once :
    brief parse_review
      (process match_anchor unchanged found_in whole cites_two number_two never_blank read_draft
        paras "s1")
      as_marked
      setting
      off
      request
    ≡ ok corrected
unfolding brief review_loop review_round dispatch_worker process_worker_result verify check_claims
    paragraph_of quote_matches passed check_draft anchored review review_over judge all_bools
    judge_ids claim_ids sorted_ids insert_id range_from pick_model pick_model_chain get chain_over
    provider_order skipped provider_routes named_routes named_route configured_routes
    configured_models eligible
corrected_once = refl

abbrev processed : WorkerResult → Processed
processed =
    process match_anchor unchanged found_in whole cites_two number_two never_blank read_draft paras
      "s1"

brief-corrections_example : 1 ≤ 1
brief-corrections_example =
    brief-corrections parse_review
      (process match_anchor unchanged found_in whole cites_two number_two never_blank read_draft
        paras "s1")
      as_marked setting off request corrected_once refl
