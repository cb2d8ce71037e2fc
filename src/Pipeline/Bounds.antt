-- ===== src/Pipeline/Bounds.antt =====
-- How many corrections a brief makes.
use agents_for_dummies.Base.{
  ℕ, zero, suc, ◌≤◌, ◌+◌, String, ◌≡◌, refl, Bool, true, false, ◌&&◌, inl, inr, Option, none, some,
  arith, Bool-cases, subst, some_injective,
}
use agents_for_dummies.Base.Result.{Result, ok, err}
use agents_for_dummies.Router.{Route}
use agents_for_dummies.Gateway.Data.{returned, failed, paused, WorkerResult}
use agents_for_dummies.Reviewer.Verdicts.{ReviewError, accepted, issues, invalid}
use agents_for_dummies.Reviewer.Review.{
  ReviewMode, off, shadow, enforce, other, ReviewPayload, ReviewStatus, judged, no_other_vendor,
  same_vendor, unparsed, not_allowed, not_returned,
}
use agents_for_dummies.Pipeline.Worker.{
  BriefStatus, blocked, needs_review, verified, of_worker, Processed, Sent, not_sent, sent,
  dispatch_worker,
}
use agents_for_dummies.Pipeline.Brief.{
  BriefResult, Surroundings, Request, unfinished, is_needs_review, after_correction, after_review,
  review_loop, after_worker_sent, has_adapter, where_permitted, with_route, brief,
}

abbrev number_in : Option ℕ → ℕ
number_in none = 0
number_in (some n) = n

abbrev corrections_in : Result ReviewError BriefResult → ℕ
corrections_in (err e) = 0
corrections_in (ok r) = number_in r.corrections

unfinished-corrections :
    (prior p : Processed) (n : ℕ) (status : BriefStatus)
    → (unfinished prior p n status).corrections ≡ some n
unfinished-corrections prior p n blocked = refl
unfinished-corrections prior p n needs_review = refl
unfinished-corrections prior p n verified = refl
unfinished-corrections prior p n (of_worker returned) = refl
unfinished-corrections prior p n (of_worker failed) = refl
unfinished-corrections prior p n (of_worker paused) = refl

module _ (parse : String → ReviewPayload) (process : WorkerResult → Processed)
    (mark_unresolved : Processed → String) (s : Surroundings) where
  module _ (mode : ReviewMode) (route : Route) (m : ℕ) where
    after_review-corrections :
        (correction : Option (Result ReviewError BriefResult)) (p : Processed) (n : ℕ)
        (outcome : Result ReviewError ReviewStatus)
        → n ≤ m
        → ((x : Result ReviewError BriefResult) → correction ≡ some x → corrections_in x ≤ m)
        → corrections_in
            (after_review parse process mark_unresolved s mode route correction p n outcome)
          ≤ m
    after_review-corrections c p n (err e) h g = omega arith
    after_review-corrections c p n (ok (judged accepted)) h g = h
    after_review-corrections none p n (ok (judged issues)) h g = h
    after_review-corrections (some x) p n (ok (judged issues)) h g = g x refl
    after_review-corrections c p n (ok (judged invalid)) h g = h
    after_review-corrections c p n (ok no_other_vendor) h g = h
    after_review-corrections c p n (ok same_vendor) h g = h
    after_review-corrections c p n (ok ReviewStatus.blocked) h g = h
    after_review-corrections c p n (ok unparsed) h g = h
    after_review-corrections c p n (ok (not_allowed status)) h g = h
    after_review-corrections c p n (ok (not_returned status)) h g = h

    after_correction-corrections :
        (onwards : Processed → Result ReviewError BriefResult) (prior : Processed) (n : ℕ)
        (answer : Sent)
        → n ≤ m
        → ((p : Processed) → corrections_in (onwards p) ≤ m)
        → corrections_in
            (after_correction parse process mark_unresolved s mode route onwards prior n answer)
          ≤ m
    after_correction-corrections onwards prior n not_sent h goes = omega arith
    after_correction-corrections onwards prior n (sent res) h goes =
        elim (Bool-cases (is_needs_review (process res).status)) [
          | inl e ↦ rw e (goes (process res))
          | inr e ↦ rw e (rw (unfinished-corrections prior (process res) n (process res).status) h)
        ]

    review_loop-corrections :
        (left n : ℕ) (p : Processed)
        → n + left ≤ m
        → corrections_in (review_loop parse process mark_unresolved s mode route left n p) ≤ m
    unfolding review_loop
    review_loop-corrections zero n p h =
        after_review-corrections none p n _ (omega arith) (λ x e. absurd (ground arith))
    review_loop-corrections (suc left) n p h =
        let onwards = review_loop parse process mark_unresolved s mode route left (suc n) in
        let answered = dispatch_worker (s.run (suc n)) (s.dispatch (suc n)) mode route in
        let next =
          after_correction parse process mark_unresolved s mode route onwards p (suc n) answered in
        after_review-corrections (some next) p n _ (omega arith) (λ x e.
          subst (λ y. corrections_in y ≤ m) (some_injective e)
            (after_correction-corrections onwards p (suc n) answered (omega arith)
              (λ q. review_loop-corrections left (suc n) q (omega arith))))

    sent-corrections :
        (review_enabled : Bool) (answer : Sent)
        → corrections_in
            (after_worker_sent parse process mark_unresolved s mode route review_enabled m answer)
          ≤ m
    sent-corrections review_enabled not_sent = omega arith
    sent-corrections review_enabled (sent res) =
        elim (Bool-cases (is_needs_review (process res).status)) [
          | inr e ↦ rw e (omega arith)
          | inl e ↦ rw e (elim (Bool-cases review_enabled) [
            | inl on ↦ rw on (review_loop-corrections m 0 (process res) (omega arith))
            | inr skipped ↦ rw skipped (omega arith)
          ])
        ]

  permitted-corrections :
      (permitted : Bool) (rest : Result ReviewError BriefResult) (m : ℕ)
      → corrections_in rest ≤ m
      → corrections_in (where_permitted permitted rest) ≤ m
  permitted-corrections true rest m h = h
  permitted-corrections false rest m h = omega arith

  route-corrections :
      (mode : ReviewMode) (request : Request) (picked : Option Route)
      → corrections_in (with_route parse process mark_unresolved s mode request picked)
        ≤ request.max_corrections
  route-corrections mode request none = omega arith
  route-corrections mode request (some route) =
      permitted-corrections (s.permits route && has_adapter route) _ request.max_corrections (
        sent-corrections mode route request.max_corrections request.review_enabled
          (dispatch_worker (s.run 0) (s.dispatch 0) mode route))

  all-corrections :
      (mode : ReviewMode) (request : Request)
      → corrections_in (brief parse process mark_unresolved s mode request)
        ≤ request.max_corrections
  unfolding brief
  all-corrections off request = route-corrections off request _
  all-corrections shadow request = route-corrections shadow request _
  all-corrections enforce request = route-corrections enforce request _
  all-corrections other request = omega arith

  -- A brief reports at most as many corrections as it was allowed.
  pub brief-corrections :
      (mode : ReviewMode) (request : Request) {r : BriefResult} {n : ℕ}
      → brief parse process mark_unresolved s mode request ≡ ok r
      → r.corrections ≡ some n
      → n ≤ request.max_corrections
  brief-corrections mode request {r} {n} e h =
      subst (λ o. number_in o ≤ request.max_corrections) h
        (subst (λ o. corrections_in o ≤ request.max_corrections) e (all-corrections mode request))
