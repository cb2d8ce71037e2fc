-- ===== src/Verifier/Verify.antt =====
-- verifier.py: `verify` and `passed`. The hash of the source, which nothing reads, is left out.
use agents_for_dummies.Base.{
  ℕ, zero, suc, ◌-◌, String, Bool, not, ◌&&◌, Option, none, some, List, [], ◌∷◌, ◌++◌, length, leb,
  ltb, eqb, if◌then◌else◌, ◌==◌, contains,
}

-- A claim; a missing anchor or quote is read as an empty text, and reported as none.
pub record Claim : Type 0 where
  pub anchor : Option String
  pub quote : Option String

pub data Reason : Type 0 where
  bad_anchor quote_not_in_anchor : Reason

pub record Failure : Type 0 where
  pub claim : ℕ
  pub reason : Reason
  pub anchor : Option String

pub record Report : Type 0 where
  pub checked : ℕ
  pub matched : ℕ
  pub failures : List Failure

-- What the pattern of an anchor matches: the source and the number.
pub record Anchor : Type 0 where
  pub src : String
  pub n : ℕ

abbrev pub text_of : Option String → String
text_of none = ""
text_of (some text) = text

-- paras[i]
abbrev pub item_at : List String → ℕ → Option String
item_at [] i = none
item_at (p ∷ ps) zero = some p
item_at (p ∷ ps) (suc i) = item_at ps i

-- The regular expressions: the match of an anchor, the normal form of a text, and the search for a
-- normal quote between word boundaries in a normal text.
module _ (match_anchor : String → Option Anchor) (norm : String → String)
    (found_in : String → String → Bool) where
  -- The paragraph that an anchor names, if it is the source's and in range.
  unfoldable pub paragraph_of : List String → String → Option Anchor → Option String
  paragraph_of paras source_id none = none
  paragraph_of paras source_id (some m) =
      if (m.src == source_id) && (leb 1 m.n && leb m.n (length paras))
      then item_at paras (m.n - 1)
      else none

  -- Whether the quote is not blank and stands in the paragraph.
  unfoldable pub quote_matches : String → String → Bool
  quote_matches quote paragraph =
      not (contains (norm quote) ("" ∷ [])) && found_in (norm quote) (norm paragraph)

  abbrev pub failure : ℕ → Reason → Claim → Failure
  failure i reason c = record { claim = i; reason = reason; anchor = c.anchor }

  abbrev pub add_failure : Failure → Report → Report
  add_failure f rep = record {
    checked = rep.checked;
    matched = rep.matched;
    failures = rep.failures ++ (f ∷ []);
  }

  abbrev pub add_match : Report → Report
  add_match rep = record {
    checked = rep.checked;
    matched = suc rep.matched;
    failures = rep.failures;
  }

  -- A round of the loop, at the paragraph that the anchor names.
  abbrev pub check_at : ℕ → Claim → Option String → Report → Report
  check_at i c none rep = add_failure (failure i bad_anchor c) rep
  check_at i c (some paragraph) rep =
      if quote_matches (text_of c.quote) paragraph
      then add_match rep
      else add_failure (failure i quote_not_in_anchor c) rep

  unfoldable pub check_claims : List String → String → ℕ → List Claim → Report → Report
  check_claims paras source_id i [] rep = rep
  check_claims paras source_id i (c ∷ cs) rep =
      check_claims paras source_id (suc i) cs
        (check_at i c (paragraph_of paras source_id (match_anchor (text_of c.anchor))) rep)

  unfoldable pub verify : List String → String → List Claim → Report
  verify paras source_id claims =
      check_claims paras source_id 0 claims
        record { checked = length claims; matched = 0; failures = [] }

unfoldable pub passed : Report → Bool
passed report = ltb 0 report.checked && eqb report.checked report.matched
