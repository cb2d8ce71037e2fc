-- ===== src/Tests/Reviewer.antt =====
-- A review of two claims, and the check of a quote.
use agents_for_dummies.Base.{
  ◌<◌, String, ◌≡◌, refl, Bool, true, false, Option, none, some, List, [], ◌∷◌, ◌==◌, ◌↔◌, All,
  length,
}
use agents_for_dummies.Base.Int.{pos, negsuc}
use agents_for_dummies.Base.Result.{ok, err}
use agents_for_dummies.Router.{Route}
use agents_for_dummies.Envelope.{capability_disabled}
use agents_for_dummies.Gateway.Data.{WorkerResult, GatewayResult, returned, denied}
use agents_for_dummies.Reviewer.Verdicts.{
  Verdict, no_dict, dict, attribute_error, accepted, issues, invalid, all_bools, claim_ids,
  insert_id, sorted_ids, range_from, judge_ids, judge,
}
use agents_for_dummies.Reviewer.Review.{
  Cli, codex_cli, Called, ran, ReviewPayload, fields, off, judged, review, review_over,
}
use agents_for_dummies.Reviewer.Vendor.{
  IsOverOther, IsAccepted, review-other_vendor, review-IsAccepted,
}
use agents_for_dummies.Verifier.Verify.{
  Claim, Anchor, paragraph_of, quote_matches, check_claims, verify, passed,
}
use agents_for_dummies.Verifier.Anchors.{IsQuoted}
use agents_for_dummies.Verifier.Reports.{verify-IsQuoted_iff, IsReported, verify-IsReported}
use agents_for_dummies.Tests.Router.{catalog, table}

abbrev two_verdicts : List Verdict
two_verdicts = dict (some true) (some (pos 1)) ∷ dict (some true) (some (pos 0)) ∷ []

abbrev no_omissions : List String
no_omissions = []

judge_two : judge 2 two_verdicts no_omissions ≡ ok accepted
unfolding judge all_bools judge_ids claim_ids sorted_ids insert_id range_from
judge_two = refl

judge_issue : judge 1 (dict (some false) (some (pos 0)) ∷ []) no_omissions ≡ ok issues
unfolding judge all_bools judge_ids claim_ids sorted_ids insert_id range_from
judge_issue = refl

judge_negative : judge 1 (dict (some true) (some (negsuc 0)) ∷ []) no_omissions ≡ ok invalid
unfolding judge all_bools judge_ids claim_ids sorted_ids insert_id range_from
judge_negative = refl

judge_no_dict : judge 1 (no_dict ∷ []) no_omissions ≡ err attribute_error
unfolding judge all_bools judge_ids claim_ids sorted_ids insert_id range_from
judge_no_dict = refl

abbrev parse : String → ReviewPayload
parse output = fields (some two_verdicts) (some [])

abbrev run : Cli → String → WorkerResult
run cli model = record { status = returned; output = "{}" }

abbrev pub governed_call : Route → GatewayResult
governed_call route = record {
  status = denied;
  decision = record {
    allowed = false;
    decision_id = "d";
    reason_code = capability_disabled;
    policy_version = "1";
    checked_rules = [];
  };
  worker_result = none;
  node_id = "n";
  decision_recorded = true;
}

abbrev other_route : Route
other_route = record { provider = "codex"; model = "gpt"; tier = "workhorse"; cmd_kind = "cli" }

review_called :
    (review parse 2 run governed_call table catalog off (some other_route) "claude" [] false).called
    ≡ some (ran codex_cli "gpt")
unfolding review review_over
review_called = refl

review_outcome :
    (review parse 2 run governed_call table catalog off
      (some other_route)
      "claude"
      []
      false).outcome
    ≡ ok (judged accepted)
unfolding review review_over judge all_bools judge_ids claim_ids sorted_ids insert_id range_from
review_outcome = refl

abbrev third_route : Route
third_route = record { provider = "gemini"; model = "pro"; tier = "workhorse"; cmd_kind = "http" }

-- A route to a provider without a tool runs codex, which may be the worker's own.
third_called :
    (review parse 2 run governed_call table catalog off (some third_route) "codex" [] false).called
    ≡ some (ran codex_cli "pro")
unfolding review review_over
third_called = refl

review-other_vendor_example :
    IsOverOther parse 2 run governed_call table catalog off
      (some other_route)
      "claude"
      []
      false
      (ran codex_cli "gpt")
review-other_vendor_example =
    review-other_vendor parse 2 run governed_call table catalog off (some other_route) "claude" []
      false review_called

review-IsAccepted_example :
    (c : Called) × ((review parse 2 run governed_call table catalog off
        (some other_route)
        "claude"
        []
        false).called
      ≡ some c)
    × IsOverOther parse 2 run governed_call table catalog off (some other_route) "claude" [] false c
    × IsAccepted parse 2 run governed_call c
review-IsAccepted_example =
    review-IsAccepted parse 2 run governed_call table catalog off (some other_route) "claude" []
      false review_outcome

abbrev pub match_anchor : String → Option Anchor
match_anchor text = some record { src = "s1"; n = 2 }

abbrev pub unchanged : String → String
unchanged text = text

abbrev pub found_in : String → String → Bool
found_in quote paragraph = quote == paragraph

abbrev pub claims : List Claim
claims = record { anchor = some "s1#p2"; quote = some "two" } ∷ []

abbrev pub paras : List String
paras = "one" ∷ "two" ∷ []

verify_two : passed (verify match_anchor unchanged found_in paras "s1" claims) ≡ true
unfolding passed verify check_claims paragraph_of quote_matches
verify_two = refl

verify-IsQuoted_iff_example :
    (passed (verify match_anchor unchanged found_in paras "s1" claims) ≡ true)
    ↔ ((0 < length claims) × All (IsQuoted match_anchor unchanged found_in paras "s1") claims)
verify-IsQuoted_iff_example = verify-IsQuoted_iff match_anchor unchanged found_in paras "s1" claims

verify-IsReported_example :
    (let report = verify match_anchor unchanged found_in paras "s1" claims in
      (report.checked ≡ length claims)
      × IsReported match_anchor unchanged found_in paras "s1" 0 claims report.matched
          report.failures)
verify-IsReported_example = verify-IsReported match_anchor unchanged found_in paras "s1" claims
