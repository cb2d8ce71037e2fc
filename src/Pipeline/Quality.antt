-- ===== src/Pipeline/Quality.antt =====
-- The quality of a verified brief, with the check of the worker's answer.
use agents_for_dummies.Base.{
  ℕ, String, ◌≡◌, Bool, true, false, Option, none, some, List, [], length,
}
use agents_for_dummies.Router.{Route, pick_model}
use agents_for_dummies.Gateway.Data.{WorkerResult}
use agents_for_dummies.Verifier.Verify.{Claim, Anchor, verify, passed}
use agents_for_dummies.Verifier.Drafts.{DraftCheck, is_empty_texts, check_draft}
use agents_for_dummies.Reviewer.Review.{ReviewMode, ReviewPayload, Called}
use agents_for_dummies.Reviewer.Vendor.{IsOverOther, IsAccepted}
use agents_for_dummies.Pipeline.Worker.{Processed, Extract, anchored, process_worker_result}
use agents_for_dummies.Pipeline.Brief.{Surroundings, is_needs_review}

-- A call was made over a route to another provider than the worker's, and gave verdicts that cover
-- the claims of the worker's answer.
abbrev pub ReviewedBy :
    (String → ReviewPayload) → Surroundings → ReviewMode → Route → ℕ → Processed → Called → Type 0
ReviewedBy parse s mode worker round p c =
    IsOverOther parse (length p.claims) (s.review_run round) (s.review_dispatch round) s.table
      s.catalog mode
      (pick_model s.table s.catalog "review" "workhorse" s.available s.authorized
        (some worker.provider) none)
      worker.provider s.available s.authorized c
    × IsAccepted parse (length p.claims) (s.review_run round) (s.review_dispatch round) c

module _ (match_anchor : String → Option Anchor) (norm : String → String)
    (found_in : String → String → Bool) (sentences_of citations : String → List String)
    (anchor_number : String → Option String) (is_blank : String → Bool)
    (read_output : String → Extract) (paras : List String) (source_id : String) where
  abbrev pub process : WorkerResult → Processed
  process =
      process_worker_result match_anchor norm found_in sentences_of citations anchor_number is_blank
        read_output paras source_id

  abbrev pub draft_check : String → List Claim → DraftCheck
  draft_check draft claims = check_draft sentences_of citations draft (
      anchored match_anchor norm found_in sentences_of citations anchor_number is_blank read_output
        paras source_id claims)

  -- A draft with its claims: the claims pass, the draft is not blank, each of its sentences cites
  -- something, and it cites only paragraphs that a claim is anchored in.
  pub IsGood : String → List Claim → Type 0
  IsGood draft claims =
      (passed (verify match_anchor norm found_in paras source_id claims) ≡ true)
      × (is_blank draft ≡ false)
      × ((draft_check draft claims).uncited_sentences ≡ [])
      × ((draft_check draft claims).bad_citations ≡ [])

  -- What is shown of a worker's answer: if it is ready for review and its sentences cite, it is good.
  Good : Processed → Type 0
  Good p =
      is_needs_review p.status ≡ true
      → is_empty_texts p.uncited_sentences ≡ true
      → IsGood p.draft p.claims
