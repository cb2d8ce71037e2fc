-- ===== src/Verifier/Drafts.antt =====
-- verifier.py: `check_draft`, over the sentences of a draft and the numbers that a sentence cites.
-- The code sorts the bad citations and drops repetitions.
use agents_for_dummies.Base.{
  ℕ, String, not, List, [], ◌∷◌, ◌++◌, length, contains, keep_if, Bool, true, false,
}

pub record DraftCheck : Type 0 where
  pub sentences : ℕ
  pub cited : ℕ
  pub uncited_sentences : List String
  pub bad_citations : List String

abbrev pub is_empty_texts : List String → Bool
is_empty_texts [] = true
is_empty_texts (x ∷ xs) = false

-- A sentence's citations, after those of the sentences before it.
module _ (sentences_of citations : String → List String) where
  abbrev pub uncited_in : List String → List String
  uncited_in sentences = keep_if (λ s. is_empty_texts (citations s)) sentences

  abbrev pub bad_in : List String → List String → List String
  bad_in anchored [] = []
  bad_in anchored (s ∷ rest) =
      keep_if (λ n. not (contains n anchored)) (citations s) ++ bad_in anchored rest

  unfoldable pub check_draft : String → List String → DraftCheck
  check_draft draft anchored =
      let all = sentences_of draft in
      record {
        sentences = length all;
        cited = length (keep_if (λ s. not (is_empty_texts (citations s))) all);
        uncited_sentences = uncited_in all;
        bad_citations = bad_in anchored all;
      }
