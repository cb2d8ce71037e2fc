-- ===== src/Reviewer/Vendor.antt =====
-- Who is asked for a review, and what an accepted one rests on.
use agents_for_dummies.Base.{
  eq_iff, Bool-cases, String, ◌≡◌, ◌≢◌, refl, Bool, true, false, Option, none, some, List, ℕ, ◌==◌,
  arith, inl, inr, ◌⊎◌, some_injective, subst,
}
use agents_for_dummies.Base.Dict.{Dict}
use agents_for_dummies.Base.Result.{Result, ok, err}
use agents_for_dummies.Router.{Profile, Route, Table}
use agents_for_dummies.Router.Chain.{IsChosen, pick_model-IsChosen}
use agents_for_dummies.Gateway.Data.{
  Status, allowed, denied, duplicate, conflict, envelope_invalid, cancelled, WorkerStatus, returned,
  failed, paused, WorkerResult, GatewayResult,
}
use agents_for_dummies.Reviewer.Verdicts.{Verdict, ReviewError, Judgement, accepted}
use agents_for_dummies.Reviewer.Judged.{IsCovered, judge-IsCovered}
use agents_for_dummies.Reviewer.Review.{
  Cli, claude_cli, codex_cli, cli_for, Called, ran, governed, call_of, ReviewMode, off, shadow,
  enforce, other, ReviewPayload, unreadable, fields, ReviewStatus, judged, judged_as, read_payload,
  worker_outcome, gateway_outcome, refused, call_reviewer, vendor_rule, review_over, review_route,
  review,
}

judged_as-accepted :
    (judgement : Result ReviewError Judgement)
    → judged_as judgement ≡ ok (judged accepted)
    → judgement ≡ ok accepted
judged_as-accepted (err e) h = absurd (ground arith)
judged_as-accepted (ok judgement) h = ground arith

-- The tool is the provider's own.
abbrev pub IsOwn : Cli → String → Type 0
IsOwn claude_cli provider = provider ≡ "claude"
IsOwn codex_cli provider = provider ≡ "codex"

-- What is called over a route in a mode. Without governance, that is the tool of the route's
-- provider, or codex for a provider that has no tool.
pub data IsCall : ReviewMode → Route → Called → Type 0 where
  own : (r : Route) (cli : Cli) → IsOwn cli r.provider → IsCall off r (ran cli r.model)
  third :
      (r : Route)
      → (r.provider == "claude") ≡ false
      → (r.provider == "codex") ≡ false
      → IsCall off r (ran codex_cli r.model)
  in_shadow : (r : Route) → IsCall shadow r (governed r)
  in_enforce : (r : Route) → IsCall enforce r (governed r)

ran-IsCall : (r : Route) → IsCall off r (ran (cli_for r) r.model)
ran-IsCall r = elim (Bool-cases (r.provider == "claude")) [
  | inl e ↦ rw e (own r claude_cli ((eq_iff r.provider "claude").0 e))
  | inr e ↦ rw e (elim (Bool-cases (r.provider == "codex")) [
    | inl c ↦ own r codex_cli ((eq_iff r.provider "codex").0 c)
    | inr c ↦ third r e c
  ])
]

module _ (parse : String → ReviewPayload) (claims : ℕ) where
  -- The output of a worker that returned has verdicts that cover the claims.
  abbrev pub IsCovering : WorkerResult → Type 0
  IsCovering w =
      (w.status ≡ returned)
      × (verdicts : List Verdict) × (omissions : List String) × (parse w.output
          ≡ fields (some verdicts) (some omissions))
      × IsCovered claims verdicts omissions

  payload-IsCovered :
      (output : String) (payload : ReviewPayload)
      → parse output ≡ payload
      → read_payload parse claims payload ≡ ok (judged accepted)
      → (verdicts : List Verdict) × (omissions : List String) × (parse output
          ≡ fields (some verdicts) (some omissions))
        × IsCovered claims verdicts omissions
  payload-IsCovered output unreadable at h = absurd (ground arith)
  payload-IsCovered output (fields none omissions) at h = absurd (ground arith)
  payload-IsCovered output (fields (some verdicts) none) at h = absurd (ground arith)
  payload-IsCovered output (fields (some verdicts) (some omissions)) at h =
      (verdicts, omissions, at, judge-IsCovered claims verdicts omissions (judged_as-accepted _ h))

  worker-IsCovering :
      (w : WorkerResult) (status : WorkerStatus)
      → w.status ≡ status
      → worker_outcome parse claims status w.output ≡ ok (judged accepted)
      → IsCovering w
  worker-IsCovering w returned at h =
      let (verdicts, omissions, read, covered) = payload-IsCovered w.output _ refl h in
      (at, verdicts, omissions, read, covered)
  worker-IsCovering w failed at h = absurd (ground arith)
  worker-IsCovering w paused at h = absurd (ground arith)

  not_refused :
      (mode : ReviewMode) (status : Status)
      → ◌≢◌ {A = Result ReviewError ReviewStatus}
          (ok (refused parse claims mode status))
          (ok (judged accepted))
  not_refused enforce status = λ h. ground arith
  not_refused off status = λ h. ground arith
  not_refused shadow status = λ h. ground arith
  not_refused other status = λ h. ground arith

  -- An allowed call of the gateway has the result of a worker, whose verdicts cover the claims.
  gateway-IsCovering :
      (mode : ReviewMode) (status : Status) (worker : Option WorkerResult)
      → gateway_outcome parse claims mode status worker ≡ ok (judged accepted)
      → (w : WorkerResult) × (status ≡ allowed) × (worker ≡ some w) × IsCovering w
  gateway-IsCovering mode allowed none h = absurd (ground arith)
  gateway-IsCovering mode allowed (some w) h = (w, refl, refl, worker-IsCovering w _ refl h)
  gateway-IsCovering mode denied worker h = absurd (not_refused mode _ h)
  gateway-IsCovering mode Status.blocked worker h = absurd (not_refused mode _ h)
  gateway-IsCovering mode duplicate worker h = absurd (not_refused mode _ h)
  gateway-IsCovering mode conflict worker h = absurd (not_refused mode _ h)
  gateway-IsCovering mode envelope_invalid worker h = absurd (not_refused mode _ h)
  gateway-IsCovering mode cancelled worker h = absurd (not_refused mode _ h)

  module _ (run : Cli → String → WorkerResult) (dispatch : Route → GatewayResult) where
    -- The worker's result that a call gives: the tool's, or that of an allowed dispatch.
    abbrev pub IsAnswer : Called → WorkerResult → Type 0
    IsAnswer (ran cli model) w = run cli model ≡ w
    IsAnswer (governed r) w =
        ((dispatch r).status ≡ allowed) × ((dispatch r).worker_result ≡ some w)

    -- What the call gave covers the claims.
    abbrev pub IsAccepted : Called → Type 0
    IsAccepted c = (w : WorkerResult) × IsAnswer c w × IsCovering w

    governed-IsAccepted :
        (mode : ReviewMode) (route : Route)
        → gateway_outcome parse claims mode (dispatch route).status (dispatch route).worker_result
          ≡ ok (judged accepted)
        → IsAccepted (governed route)
    governed-IsAccepted mode route h =
        let (w, status, given, covering) = gateway-IsCovering mode _ _ h in
        (w, (status, given), covering)

    call_reviewer-IsAccepted :
        (mode : ReviewMode) (route : Route)
        → call_reviewer parse claims run dispatch mode route ≡ ok (judged accepted)
        → IsAccepted (call_of mode route)
    call_reviewer-IsAccepted off route h =
        let w = run (cli_for route) route.model in (w, refl, worker-IsCovering w w.status refl h)
    call_reviewer-IsAccepted shadow route h = governed-IsAccepted shadow route h
    call_reviewer-IsAccepted enforce route h = governed-IsAccepted enforce route h
    call_reviewer-IsAccepted other route h = governed-IsAccepted other route h

    rule-IsAccepted :
        (mode : ReviewMode) (route : Route) (same : Bool)
        → (vendor_rule parse claims run dispatch mode route same).outcome ≡ ok (judged accepted)
        → (c : Called) × ((vendor_rule parse claims run dispatch mode route same).called ≡ some c)
          × IsAccepted c
    rule-IsAccepted mode route true h = absurd (ground arith)
    rule-IsAccepted mode route false h =
        (call_of mode route, refl, call_reviewer-IsAccepted mode route h)

    over-IsAccepted :
        (mode : ReviewMode) (worker_provider : String) (route : Option Route)
        → (review_over parse claims run dispatch mode worker_provider route).outcome
          ≡ ok (judged accepted)
        → (c : Called) × ((review_over parse claims run dispatch mode worker_provider route).called
            ≡ some c)
          × IsAccepted c
    unfolding review_over
    over-IsAccepted mode worker_provider none h = absurd (ground arith)
    over-IsAccepted mode worker_provider (some route) h =
        rule-IsAccepted mode route (route.provider == worker_provider) h

    rule-called :
        (mode : ReviewMode) (route : Route) (same : Bool) {c : Called}
        → (vendor_rule parse claims run dispatch mode route same).called ≡ some c
        → (call_of mode route ≡ c) × (same ≡ false)
    rule-called mode route true h = absurd (ground arith)
    rule-called mode route false h = (some_injective h, refl)

    over-called :
        (mode : ReviewMode) (worker_provider : String) (route : Option Route) {c : Called}
        → (review_over parse claims run dispatch mode worker_provider route).called ≡ some c
        → (r : Route) × (route ≡ some r)
          × ((r.provider == worker_provider) ≡ false)
          × (call_of mode r ≡ c)
    unfolding review_over
    over-called mode worker_provider none h = absurd (ground arith)
    over-called mode worker_provider (some route) {c} h =
        let (same, differs) =
          rule-called mode route (route.provider == worker_provider) {c = c} h in
        (route, refl, differs, same)

    module _ (table : Table) (catalog : Dict Profile) where
      picked :
          (given : Option Route) (worker_provider : String) (available : List String)
          (authorized : Bool) {r : Route}
          → review_route parse claims run dispatch table catalog given worker_provider available
              authorized
            ≡ some r
          → (given ≡ some r)
            ⊎ IsChosen table catalog "review" "workhorse" available authorized
                (some worker_provider)
                r
      picked (some route) worker_provider available authorized h = inl h
      picked none worker_provider available authorized {r} h = inr (
          pick_model-IsChosen table catalog "review" "workhorse" available authorized
            (some worker_provider) none r h)

      -- The call is made over a route to a provider that is not the worker's: the route that was
      -- given, or one that the router chose for a review by a workhorse.
      abbrev pub IsOverOther :
          ReviewMode → Option Route → String → List String → Bool → Called → Type 0
      IsOverOther mode given worker_provider available authorized c =
          (r : Route) × ((r.provider == worker_provider) ≡ false)
          × ((given ≡ some r)
              ⊎ IsChosen table catalog "review" "workhorse" available authorized
                  (some worker_provider) r)
          × IsCall mode r c

      called-IsOverOther :
          (mode : ReviewMode) (given : Option Route) (worker_provider : String)
          (available : List String) (authorized : Bool) {c : Called}
          → ((r : Route) → IsCall mode r (call_of mode r))
          → (review_over parse claims run dispatch mode worker_provider (
              review_route parse claims run dispatch table catalog given worker_provider available
                authorized)).called
            ≡ some c
          → IsOverOther mode given worker_provider available authorized c
      called-IsOverOther mode given worker_provider available authorized calls h =
          let (r, route, differs, same) = over-called mode worker_provider _ h in
          (
            r,
            differs,
            picked given worker_provider available authorized route,
            subst (λ x. IsCall mode r x) same (calls r),
          )

      -- What a review calls, it calls over a route to a provider that is not the worker's; the route
      -- is the one that was given, or one that the router chose for a review by a workhorse, without
      -- the worker's provider. With governance off, the call is of the tool of the route's provider,
      -- or of codex where that is neither claude nor codex; in the other modes, of the gateway.
      pub review-other_vendor :
          (mode : ReviewMode) (given : Option Route) (worker_provider : String)
          (available : List String) (authorized : Bool) {c : Called}
          → (review parse claims run dispatch table catalog mode given worker_provider available
              authorized).called
            ≡ some c
          → IsOverOther mode given worker_provider available authorized c
      unfolding review
      review-other_vendor off given w a z h = called-IsOverOther off given w a z ran-IsCall h
      review-other_vendor shadow given w a z h = called-IsOverOther shadow given w a z in_shadow h
      review-other_vendor enforce given w a z h =
          called-IsOverOther enforce given w a z in_enforce h
      review-other_vendor other given w a z h = absurd (ground arith)

      accepted_call :
          (mode : ReviewMode) (given : Option Route) (worker_provider : String)
          (available : List String) (authorized : Bool)
          → (review parse claims run dispatch table catalog mode given worker_provider available
              authorized).outcome
            ≡ ok (judged accepted)
          → (c : Called) × ((review parse claims run dispatch table catalog mode given
                worker_provider available authorized).called
              ≡ some c)
            × IsAccepted c
      unfolding review
      accepted_call off given w a z h = over-IsAccepted off w _ h
      accepted_call shadow given w a z h = over-IsAccepted shadow w _ h
      accepted_call enforce given w a z h = over-IsAccepted enforce w _ h
      accepted_call other given w a z h = absurd (ground arith)

      -- A review that is accepted made a call over a route to another provider than the worker's;
      -- the worker's result that this call gave, in a dispatch that was allowed where there is
      -- governance, has returned, and its output has verdicts that are all ok, without omissions, as
      -- many as the claims and one for each claim.
      pub review-IsAccepted :
          (mode : ReviewMode) (given : Option Route) (worker_provider : String)
          (available : List String) (authorized : Bool)
          → (review parse claims run dispatch table catalog mode given worker_provider available
              authorized).outcome
            ≡ ok (judged accepted)
          → (c : Called) × ((review parse claims run dispatch table catalog mode given
                worker_provider available authorized).called
              ≡ some c)
            × IsOverOther mode given worker_provider available authorized c
            × IsAccepted c
      review-IsAccepted mode given w a z h =
          let (c, called, fine) = accepted_call mode given w a z h in
          (c, called, review-other_vendor mode given w a z called, fine)
