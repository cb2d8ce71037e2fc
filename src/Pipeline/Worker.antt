-- ===== src/Pipeline/Worker.antt =====
-- pipeline.py: `_dispatch_worker` and `_process_worker_result`.
use agents_for_dummies.Base.{
  String, Bool, true, false, not, Option, none, some, List, [], ◌∷◌, if◌then◌else◌,
}
use agents_for_dummies.Router.{Route}
use agents_for_dummies.Gateway.Data.{
  Status, allowed, WorkerStatus, returned, WorkerResult, GatewayResult,
}
use agents_for_dummies.Verifier.Verify.{Claim, Report, Anchor, text_of, verify, passed}
use agents_for_dummies.Verifier.Drafts.{DraftCheck, is_empty_texts, check_draft}
use agents_for_dummies.Reviewer.Review.{ReviewMode, off, ReviewStatus}

-- The statuses of a brief.
pub data BriefStatus : Type 0 where
  blocked needs_review verified : BriefStatus
  of_worker : WorkerStatus → BriefStatus

-- receipt["content_review"]
pub data ContentReview : Type 0 where
  not_run draft_missing uncited_draft disabled passed_review issues_left : ContentReview
  of_review : ReviewStatus → ContentReview

-- What `_process_worker_result` returns. The note is the receipt's `content_review`, where it is
-- written, and the uncited sentences are the receipt's, none where they are not written.
pub record Processed : Type 0 where
  pub status : BriefStatus
  pub report : Option Report
  pub claims : List Claim
  pub draft : String
  pub note : Option ContentReview
  pub uncited_sentences : List String

-- What a worker's output is read as: no JSON object, or claims and a draft.
pub data Extract : Type 0 where
  unparsed : Extract
  extract : List Claim → String → Extract

-- A dispatch of a worker was not_sent, or gave a result.
pub data Sent : Type 0 where
  not_sent : Sent
  sent : WorkerResult → Sent

abbrev pub sent_as : Status → Option WorkerResult → Sent
sent_as allowed (some result) = sent result
sent_as _ _ = not_sent

module _ (run : Route → WorkerResult) (dispatch : Route → GatewayResult) where
  -- In a mode that is checked before; the records in the ledger are left out.
  unfoldable pub dispatch_worker : ReviewMode → Route → Sent
  dispatch_worker off route = sent (run route)
  dispatch_worker mode route =
      let result = dispatch route in sent_as result.status result.worker_result

-- The status after the check of the draft, of a report that passes.
abbrev pub draft_status : DraftCheck → BriefStatus
draft_status dc =
    if not (is_empty_texts dc.uncited_sentences)
    then needs_review
    else if not (is_empty_texts dc.bad_citations)
    then of_worker returned
    else needs_review

abbrev pub draft_note : DraftCheck → ContentReview
draft_note dc = if is_empty_texts dc.bad_citations then not_run else uncited_draft

-- The result for a report, on whether it passes and whether the draft is blank, with its check.
abbrev pub judge_draft : List Claim → String → Report → Bool → Bool → DraftCheck → Processed
judge_draft claims draft report false blank dc = record {
  status = of_worker returned;
  report = some report;
  claims = claims;
  draft = draft;
  note = some not_run;
  uncited_sentences = [];
}
judge_draft claims draft report true true dc = record {
  status = of_worker returned;
  report = some report;
  claims = claims;
  draft = draft;
  note = some draft_missing;
  uncited_sentences = [];
}
judge_draft claims draft report true false dc = record {
  status = draft_status dc;
  report = some report;
  claims = claims;
  draft = draft;
  note = some (draft_note dc);
  uncited_sentences = dc.uncited_sentences;
}

-- The patterns and texts of the verifier; the number after "#p" in an anchor, normalised; whether a
-- text is blank.
module _ (match_anchor : String → Option Anchor) (norm : String → String)
    (found_in : String → String → Bool) (sentences_of citations : String → List String)
    (anchor_number : String → Option String) (is_blank : String → Bool)
    (read_output : String → Extract) (paras : List String) (source_id : String) where
  abbrev pub number_before : Option String → List String → List String
  number_before none ns = ns
  number_before (some n) ns = n ∷ ns

  unfoldable pub anchored : List Claim → List String
  anchored [] = []
  anchored (c ∷ cs) = number_before (anchor_number (text_of c.anchor)) (anchored cs)

  abbrev pub with_report : List Claim → String → Report → Processed
  with_report claims draft report =
      judge_draft claims draft report (passed report) (is_blank draft)
        (check_draft sentences_of citations draft (anchored claims))

  abbrev pub process_extract : String → Extract → Processed
  process_extract output unparsed = record {
    status = of_worker returned;
    report = none;
    claims = [];
    draft = output;
    note = some not_run;
    uncited_sentences = [];
  }
  process_extract output (extract claims draft) =
      with_report claims draft (verify match_anchor norm found_in paras source_id claims)

  -- A status other than returned, with its receipt.
  abbrev pub not_processed : WorkerStatus → Processed
  not_processed status = record {
    status = of_worker status;
    report = none;
    claims = [];
    draft = "";
    note = none;
    uncited_sentences = [];
  }

  abbrev pub process_status : WorkerStatus → String → Processed
  process_status returned output = process_extract output (read_output output)
  process_status status output = not_processed status

  unfoldable pub process_worker_result : WorkerResult → Processed
  process_worker_result res = process_status res.status res.output
