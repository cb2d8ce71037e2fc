-- ===== src/Pipeline/Brief.antt =====
-- pipeline.py: `brief`, with the worker's and the reviewer's answers of each round as arguments.
use agents_for_dummies.Base.{
  ℕ, zero, suc, String, Bool, true, false, not, ◌&&◌, Option, none, some, List, [], ◌∷◌, length,
  if◌then◌else◌, contains,
}
use agents_for_dummies.Base.Dict.{Dict}
use agents_for_dummies.Base.Result.{Result, ok, err}
use agents_for_dummies.Router.{Route, Profile, Table, pick_model}
use agents_for_dummies.Gateway.Data.{returned, failed, paused, WorkerResult, GatewayResult}
use agents_for_dummies.Verifier.Verify.{Report}
use agents_for_dummies.Verifier.Drafts.{is_empty_texts}
use agents_for_dummies.Reviewer.Verdicts.{ReviewError, value_error, accepted, issues}
use agents_for_dummies.Reviewer.Review.{
  Cli, ReviewMode, other, ReviewPayload, ReviewStatus, judged, Review, review,
}
use agents_for_dummies.Pipeline.Worker.{
  BriefStatus, blocked, needs_review, verified, of_worker, ContentReview, disabled, passed_review,
  issues_left, of_review, Processed, Sent, not_sent, sent, dispatch_worker,
}

pub record BriefResult : Type 0 where
  pub status : BriefStatus
  pub draft : String
  pub report : Option Report
  pub content_review : Option ContentReview
  pub corrections : Option ℕ

abbrev pub ended_with :
    BriefStatus → String → Option Report → Option ContentReview → ℕ → BriefResult
ended_with status draft report note corrections = record {
  status = status;
  draft = draft;
  report = report;
  content_review = note;
  corrections = some corrections;
}

abbrev pub blocked_result : BriefResult
blocked_result = record {
  status = blocked;
  draft = "";
  report = none;
  content_review = none;
  corrections = none;
}

abbrev pub is_needs_review : BriefStatus → Bool
is_needs_review needs_review = true
is_needs_review status = false

-- The end of a correction that gives no draft to review, with the draft before it where the worker
-- gave none.
abbrev pub unfinished : Processed → Processed → ℕ → BriefStatus → BriefResult
unfinished prior p corrections (of_worker paused) =
    ended_with (of_worker paused) prior.draft prior.report prior.note corrections
unfinished prior p corrections (of_worker failed) =
    ended_with (of_worker failed) prior.draft prior.report prior.note corrections
unfinished prior p corrections status = ended_with status p.draft p.report p.note corrections

-- What stands outside a brief: the tables of the router, the providers that are available, whether
-- the workspace is authorized, the policy's check of a route, and the answers of each round.
pub record Surroundings : Type 0 where
  pub table : Table
  pub catalog : Dict Profile
  pub available : List String
  pub authorized : Bool
  pub permits : Route → Bool
  pub run : ℕ → Route → WorkerResult
  pub dispatch : ℕ → Route → GatewayResult
  pub review_run : ℕ → Cli → String → WorkerResult
  pub review_dispatch : ℕ → Route → GatewayResult

-- The reading of a reviewer's output, the treatment of a worker's result, and the marking of the
-- unresolved sentences of a draft.
module _ (parse : String → ReviewPayload) (process : WorkerResult → Processed)
    (mark_unresolved : Processed → String) (s : Surroundings) (mode : ReviewMode)
    (route : Route) where
  -- A draft that the reviewer accepts, with the sentences that cite nothing.
  abbrev pub accepted_status : Processed → BriefStatus
  accepted_status p = if is_empty_texts p.uncited_sentences then verified else needs_review

  unfoldable pub review_round : ℕ → Processed → Review
  review_round round p =
      review parse (length p.claims) (s.review_run round) (s.review_dispatch round) s.table
        s.catalog mode
        (pick_model s.table s.catalog "review" "workhorse" s.available s.authorized
          (some route.provider) none)
        route.provider s.available s.authorized

  -- What is done with what a correction's dispatch gave; the rest of the loop goes on with it.
  abbrev pub after_correction :
      (Processed → Result ReviewError BriefResult)
      → Processed
      → ℕ
      → Sent
      → Result ReviewError BriefResult
  after_correction onwards prior corrections not_sent = ok blocked_result
  after_correction onwards prior corrections (sent res) =
      let p = process res in
      let rest = onwards p in
      if is_needs_review p.status then rest else ok (unfinished prior p corrections p.status)

  -- What is done with the reviewer's answer: `onwards` is the correction, where one is left.
  abbrev pub after_review :
      Option (Result ReviewError BriefResult)
      → Processed
      → ℕ
      → Result ReviewError ReviewStatus
      → Result ReviewError BriefResult
  after_review correction p corrections (err e) = err e
  after_review correction p corrections (ok (judged accepted)) =
      ok (ended_with (accepted_status p) p.draft p.report (some passed_review) corrections)
  after_review none p corrections (ok (judged issues)) =
      ok (ended_with needs_review (mark_unresolved p) p.report (some issues_left) corrections)
  after_review (some corrected) p corrections (ok (judged issues)) = corrected
  after_review correction p corrections (ok status) =
      ok (ended_with (of_worker returned) p.draft p.report (some (of_review status)) corrections)

  -- The loop, on the corrections that are left; the round counts those that were made.
  unfoldable pub review_loop : ℕ → ℕ → Processed → Result ReviewError BriefResult
  review_loop zero round p = after_review none p round (review_round round p).outcome
  review_loop (suc left) round p =
      after_review
        (some (
          after_correction (review_loop left (suc round)) p (suc round)
            (dispatch_worker (s.run (suc round)) (s.dispatch (suc round)) mode route)))
        p round (review_round round p).outcome

  -- From the first worker's answer on.
  abbrev pub after_worker_sent : Bool → ℕ → Sent → Result ReviewError BriefResult
  after_worker_sent review_enabled max_corrections not_sent = ok blocked_result
  after_worker_sent review_enabled max_corrections (sent res) =
      let p = process res in
      let rest = review_loop max_corrections 0 p in
      if not (is_needs_review p.status)
      then ok (ended_with p.status p.draft p.report p.note 0)
      else if not review_enabled
      then ok (ended_with (of_worker returned) p.draft p.report (some disabled) 0)
      else rest

-- The adapters that there are.
abbrev pub has_adapter : Route → Bool
has_adapter route = contains route.provider ("claude" ∷ "codex" ∷ [])

-- The arguments of a brief that its course depends on.
pub record Request : Type 0 where
  pub worker_tier : String
  pub worker_provider : Option String
  pub review_enabled : Bool
  pub max_corrections : ℕ

-- A route that is not permitted, or without an adapter, is blocked.
abbrev pub where_permitted : Bool → Result ReviewError BriefResult → Result ReviewError BriefResult
where_permitted true rest = rest
where_permitted false rest = ok blocked_result

module _ (parse : String → ReviewPayload) (process : WorkerResult → Processed)
    (mark_unresolved : Processed → String) (s : Surroundings) where
  abbrev pub with_route : ReviewMode → Request → Option Route → Result ReviewError BriefResult
  with_route mode request none = ok blocked_result
  with_route mode request (some route) = where_permitted (s.permits route && has_adapter route) (
      after_worker_sent parse process mark_unresolved s mode route request.review_enabled
        request.max_corrections (dispatch_worker (s.run 0) (s.dispatch 0) mode route))

  unfoldable pub brief : ReviewMode → Request → Result ReviewError BriefResult
  brief other request = err value_error
  brief mode request = with_route mode request (
      pick_model s.table s.catalog "extract" request.worker_tier s.available s.authorized none
        request.worker_provider)
