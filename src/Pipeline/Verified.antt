-- ===== src/Pipeline/Verified.antt =====
-- What a verified brief rests on.
use agents_for_dummies.Base.{
  ℕ, zero, suc, String, ◌≡◌, refl, Bool, true, false, ◌&&◌, inl, inr, Option, none, some, List, [],
  ◌∷◌, if◌then◌else◌, arith, Bool-cases, ap, ◌∙◌, subst, some_injective,
}
use agents_for_dummies.Base.Result.{Result, ok, err, ok_injective}
use agents_for_dummies.Router.{Route, pick_model}
use agents_for_dummies.Gateway.Data.{returned, failed, paused, WorkerResult}
use agents_for_dummies.Verifier.Drafts.{is_empty_texts}
use agents_for_dummies.Reviewer.Verdicts.{ReviewError, accepted, issues, invalid}
use agents_for_dummies.Reviewer.Review.{
  ReviewMode, off, shadow, enforce, other, ReviewPayload, ReviewStatus, judged, no_other_vendor,
  same_vendor, unparsed, not_allowed, not_returned,
}
use agents_for_dummies.Pipeline.Worker.{
  BriefStatus, blocked, needs_review, verified, of_worker, Processed, Sent, not_sent, sent,
  dispatch_worker,
}
use agents_for_dummies.Pipeline.Brief.{
  BriefResult, Surroundings, Request, review_round, unfinished, is_needs_review, after_correction,
  after_review, review_loop, after_worker_sent, has_adapter, where_permitted, with_route, brief,
}

abbrev pub is_verified : BriefStatus → Bool
is_verified verified = true
is_verified status = false

-- A result that is there and is verified.
abbrev is_verified_result : Result ReviewError BriefResult → Bool
is_verified_result (err e) = false
is_verified_result (ok r) = is_verified r.status

accepted_cited :
    (uncited : List String)
    → is_verified (if is_empty_texts uncited then verified else needs_review) ≡ true
    → is_empty_texts uncited ≡ true
accepted_cited [] h = refl
accepted_cited (x ∷ xs) h = absurd (ground arith)

unfinished-status :
    (prior p : Processed) (round : ℕ) (status : BriefStatus)
    → is_verified status ≡ false
    → is_verified (unfinished prior p round status).status ≡ false
unfinished-status prior p round blocked h = refl
unfinished-status prior p round needs_review h = refl
unfinished-status prior p round verified h = h
unfinished-status prior p round (of_worker returned) h = refl
unfinished-status prior p round (of_worker failed) h = refl
unfinished-status prior p round (of_worker paused) h = refl

module _ (parse : String → ReviewPayload) (process : WorkerResult → Processed)
    (mark_unresolved : Processed → String) (s : Surroundings) (mode : ReviewMode)
    (route : Route) where
  -- The result has the draft and the report of a worker's answer that a reviewer accepted, in which
  -- each sentence cites something.
  pub record IsReviewed (r : BriefResult) : Type 0 where
    pub answer : WorkerResult
    pub round : ℕ
    pub ready : is_needs_review (process answer).status ≡ true
    pub cited : is_empty_texts (process answer).uncited_sentences ≡ true
    pub draft : r.draft ≡ (process answer).draft
    pub report : r.report ≡ (process answer).report
    pub review_accepted :
        (review_round parse process mark_unresolved s mode route round (process answer)).outcome
        ≡ ok (judged accepted)

  -- What is shown of a result: if it is verified, it is reviewed.
  Sound : Result ReviewError BriefResult → Type 0
  Sound result = (r : BriefResult) → result ≡ ok r → is_verified r.status ≡ true → IsReviewed r

  unverified-Sound :
      (result : Result ReviewError BriefResult) → is_verified_result result ≡ false → Sound result
  unfolding Sound
  unverified-Sound result h r e v = absurd (ground (arith, ap is_verified_result e, v, h))

  accepted-Sound :
      (correction : Option (Result ReviewError BriefResult)) (answer : WorkerResult) (round : ℕ)
      → is_needs_review (process answer).status ≡ true
      → (review_round parse process mark_unresolved s mode route round (process answer)).outcome
        ≡ ok (judged accepted)
      → Sound (
          after_review parse process mark_unresolved s mode route correction
            (process answer)
            round
            (ok (judged accepted)))
  unfolding Sound
  accepted-Sound correction answer round ready fine r e v =
      let same = ok_injective e in
      subst IsReviewed same record {
        answer = answer;
        round = round;
        ready = ready;
        cited =
            accepted_cited (process answer).uncited_sentences
              (ap (λ o. is_verified o.status) same ∙ v);
        draft = refl;
        report = refl;
        review_accepted = fine;
      }

  after_review-Sound :
      (correction : Option (Result ReviewError BriefResult)) (answer : WorkerResult) (round : ℕ)
      (outcome : Result ReviewError ReviewStatus)
      → is_needs_review (process answer).status ≡ true
      → (review_round parse process mark_unresolved s mode route round (process answer)).outcome
        ≡ outcome
      → ((x : Result ReviewError BriefResult) → correction ≡ some x → Sound x)
      → Sound (
          after_review parse process mark_unresolved s mode route correction
            (process answer)
            round
            outcome)
  after_review-Sound c answer round (err e) ready at corrected = unverified-Sound _ refl
  after_review-Sound c answer round (ok (judged accepted)) ready at corrected =
      accepted-Sound c answer round ready at
  after_review-Sound none answer round (ok (judged issues)) ready at corrected =
      unverified-Sound _ refl
  after_review-Sound (some x) answer round (ok (judged issues)) ready at corrected =
      corrected x refl
  after_review-Sound c answer round (ok (judged invalid)) ready at corrected =
      unverified-Sound _ refl
  after_review-Sound c answer round (ok no_other_vendor) ready at corrected =
      unverified-Sound _ refl
  after_review-Sound c answer round (ok same_vendor) ready at corrected = unverified-Sound _ refl
  after_review-Sound c answer round (ok ReviewStatus.blocked) ready at corrected =
      unverified-Sound _ refl
  after_review-Sound c answer round (ok unparsed) ready at corrected = unverified-Sound _ refl
  after_review-Sound c answer round (ok (not_allowed status)) ready at corrected =
      unverified-Sound _ refl
  after_review-Sound c answer round (ok (not_returned status)) ready at corrected =
      unverified-Sound _ refl

  module _ (never : (res : WorkerResult) → is_verified (process res).status ≡ false) where
    after_correction-Sound :
        (onwards : Processed → Result ReviewError BriefResult) (prior : Processed) (round : ℕ)
        (answer : Sent)
        → ((res : WorkerResult)
            → is_needs_review (process res).status ≡ true
            → Sound (onwards (process res)))
        → Sound
            (after_correction parse process mark_unresolved s mode route onwards prior round answer)
    after_correction-Sound onwards prior round not_sent goes = unverified-Sound _ refl
    after_correction-Sound onwards prior round (sent res) goes =
        elim (Bool-cases (is_needs_review (process res).status)) [
          | inl e ↦ rw e (goes res e)
          | inr e ↦ rw e (
              unverified-Sound _
                (unfinished-status prior (process res) round (process res).status (never res)))
        ]

    review_loop-Sound :
        (left round : ℕ) (answer : WorkerResult)
        → is_needs_review (process answer).status ≡ true
        → Sound (review_loop parse process mark_unresolved s mode route left round (process answer))
    unfolding review_loop
    review_loop-Sound zero round answer ready =
        after_review-Sound none answer round _ ready refl (λ x e. absurd (ground arith))
    review_loop-Sound (suc left) round answer ready =
        let onwards = review_loop parse process mark_unresolved s mode route left (suc round) in
        let answered = dispatch_worker (s.run (suc round)) (s.dispatch (suc round)) mode route in
        let next =
          after_correction parse process mark_unresolved s mode route onwards (process answer)
            (suc round) answered in
        after_review-Sound (some next) answer round _ ready refl (λ x e.
          subst Sound (some_injective e) (
            after_correction-Sound onwards (process answer) (suc round) answered
              (λ res fit. review_loop-Sound left (suc round) res fit)))

    after_worker_sent-Sound :
        (review_enabled : Bool) (max_corrections : ℕ) (answer : Sent)
        → Sound (
            after_worker_sent parse process mark_unresolved s mode route review_enabled
              max_corrections answer)
    after_worker_sent-Sound review_enabled n not_sent = unverified-Sound _ refl
    after_worker_sent-Sound review_enabled n (sent res) =
        elim (Bool-cases (is_needs_review (process res).status)) [
          | inr e ↦ rw e (unverified-Sound _ (never res))
          | inl e ↦ rw e (elim (Bool-cases review_enabled) [
            | inl on ↦ rw on (review_loop-Sound n 0 res e)
            | inr skipped ↦ rw skipped (unverified-Sound _ refl)
          ])
        ]

module _ (parse : String → ReviewPayload) (process : WorkerResult → Processed)
    (mark_unresolved : Processed → String) (s : Surroundings)
    (never : (res : WorkerResult) → is_verified (process res).status ≡ false) where
  where_permitted-Sound :
      (mode : ReviewMode) (route : Route) (permitted : Bool) (rest : Result ReviewError BriefResult)
      → Sound parse process mark_unresolved s mode route rest
      → Sound parse process mark_unresolved s mode route (where_permitted permitted rest)
  where_permitted-Sound mode route true rest h = h
  where_permitted-Sound mode route false rest h =
      unverified-Sound parse process mark_unresolved s mode route _ refl

  with_route-IsReviewed :
      (mode : ReviewMode) (request : Request) (picked : Option Route) {r : BriefResult}
      → with_route parse process mark_unresolved s mode request picked ≡ ok r
      → is_verified r.status ≡ true
      → (route : Route) × (picked ≡ some route)
        × IsReviewed parse process mark_unresolved s mode route r
  unfolding Sound
  with_route-IsReviewed mode request none e v = absurd (ground (arith, ap is_verified_result e, v))
  with_route-IsReviewed mode request (some route) {r} e v = (
    route,
    refl,
    where_permitted-Sound mode route (s.permits route && has_adapter route) _
        (after_worker_sent-Sound parse process mark_unresolved s mode route never
          request.review_enabled request.max_corrections
          (dispatch_worker (s.run 0) (s.dispatch 0) mode route))
        r e v,
  )

  pub brief-IsReviewed :
      (mode : ReviewMode) (request : Request) {r : BriefResult}
      → brief parse process mark_unresolved s mode request ≡ ok r
      → is_verified r.status ≡ true
      → (route : Route) × (pick_model s.table s.catalog "extract" request.worker_tier s.available
            s.authorized none request.worker_provider
          ≡ some route)
        × IsReviewed parse process mark_unresolved s mode route r
  unfolding brief
  brief-IsReviewed off request e v = with_route-IsReviewed off request _ e v
  brief-IsReviewed shadow request e v = with_route-IsReviewed shadow request _ e v
  brief-IsReviewed enforce request e v = with_route-IsReviewed enforce request _ e v
  brief-IsReviewed other request e v = absurd (ground arith)
