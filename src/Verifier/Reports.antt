-- ===== src/Verifier/Reports.antt =====
-- What a report says of each claim, and when it passes.
use agents_for_dummies.Base.{
  ℕ, suc, ◌+◌, ◌≤◌, ◌<◌, ◌≡◌, refl, String, Bool, true, false, Option, none, some, List, [], ◌∷◌,
  ◌++◌, length, All, ◌↔◌, arith, Bool-cases, inl, inr, subst, sym, ap, ◌∙◌,
}
use agents_for_dummies.Verifier.Verify.{
  Claim, bad_anchor, quote_not_in_anchor, Failure, Report, Anchor, text_of, paragraph_of,
  quote_matches, failure, add_failure, add_match, check_at, check_claims, verify, passed,
}
use agents_for_dummies.Verifier.Anchors.{
  IsNamed, StandsIn, IsQuoted, quote_matches-StandsIn, StandsIn-quote_matches, paragraph_of-IsNamed,
  IsNamed-paragraph_of, IsNamed-unique,
}

append_one : (fs gs : List Failure) (f : Failure) → (fs ++ (f ∷ [])) ++ gs ≡ fs ++ (f ∷ gs)
append_one [] gs f = refl
append_one (g ∷ fs) gs f = ap (λ r. g ∷ r) (append_one fs gs f)

append_nil : (fs : List Failure) → fs ++ [] ≡ fs
append_nil [] = refl
append_nil (f ∷ fs) = ap (λ r. f ∷ r) (append_nil fs)

zero_plus : (k : ℕ) → 0 + k ≡ k
zero_plus k = omega arith

module _ (match_anchor : String → Option Anchor) (norm : String → String)
    (found_in : String → String → Bool) (paras : List String) (source_id : String) where
  -- What is reported of claims that are numbered from the given number on: how many are matched,
  -- and the failures in their order, one for each other claim.
  pub data IsReported : ℕ → List Claim → ℕ → List Failure → Type 0 where
    end : (i : ℕ) → IsReported i [] 0 []
    matching :
        {i k : ℕ} {cs : List Claim} {fs : List Failure} (c : Claim)
        → IsQuoted match_anchor norm found_in paras source_id c
        → IsReported (suc i) cs k fs
        → IsReported i (c ∷ cs) (suc k) fs
    unnamed :
        {i k : ℕ} {cs : List Claim} {fs : List Failure} (c : Claim)
        → ((p : String)
            → ¬ (IsNamed match_anchor norm found_in paras source_id (text_of c.anchor) p))
        → IsReported (suc i) cs k fs
        → IsReported i
            (c ∷ cs)
            k
            (record { claim = i; reason = bad_anchor; anchor = c.anchor } ∷ fs)
    unquoted :
        {i k : ℕ} {cs : List Claim} {fs : List Failure} (c : Claim) (p : String)
        → IsNamed match_anchor norm found_in paras source_id (text_of c.anchor) p
        → ¬ (StandsIn match_anchor norm found_in (text_of c.quote) p)
        → IsReported (suc i) cs k fs
        → IsReported i
            (c ∷ cs)
            k
            (record { claim = i; reason = quote_not_in_anchor; anchor = c.anchor } ∷ fs)

  -- What a run of the loop adds to a report.
  Adds : ℕ → List Claim → Report → Report → Type 0
  Adds i cs rep final =
      (k : ℕ) × (fs : List Failure) × (final.checked ≡ rep.checked)
      × (final.matched ≡ rep.matched + k)
      × (final.failures ≡ rep.failures ++ fs)
      × IsReported i cs k fs

  module _ (i : ℕ) (c : Claim) (cs : List Claim) (rep : Report) where
    abbrev rest_of : Report → Report
    rest_of = check_claims match_anchor norm found_in paras source_id (suc i) cs

    after_match :
        IsQuoted match_anchor norm found_in paras source_id c
        → Adds
            (suc i)
            cs
            (add_match match_anchor norm found_in rep)
            (rest_of (add_match match_anchor norm found_in rep))
        → Adds i (c ∷ cs) rep (rest_of (add_match match_anchor norm found_in rep))
    unfolding Adds
    after_match quoted (k, fs, checked, many, failed, r) =
        (suc k, fs, checked, many ∙ omega arith, failed, matching c quoted r)

    unnamed_or :
        (o : Option String)
        → paragraph_of match_anchor norm found_in paras source_id (match_anchor (text_of c.anchor))
          ≡ o
        → ((rep' : Report) → Adds (suc i) cs rep' (rest_of rep'))
        → Adds i (c ∷ cs) rep (rest_of (check_at match_anchor norm found_in i c o rep))
    unfolding Adds
    unnamed_or none at rest =
        let f = failure match_anchor norm found_in i bad_anchor c in
        let (k, fs, checked, many, failed, r) =
          rest (add_failure match_anchor norm found_in f rep) in
        (
          k,
          f ∷ fs,
          checked,
          many,
          failed ∙ append_one rep.failures fs f,
          unnamed c
              (λ p named. ground (
                arith,
                sym at
                    ∙ IsNamed-paragraph_of match_anchor norm found_in paras source_id
                        (text_of c.anchor) p named,
              ))
              r,
        )
    unnamed_or (some p) at rest =
        let named =
          paragraph_of-IsNamed match_anchor norm found_in paras source_id (text_of c.anchor) p
            (match_anchor (text_of c.anchor)) refl at in
        elim (Bool-cases (quote_matches match_anchor norm found_in (text_of c.quote) p)) [
          | inl e ↦ rw e (
              after_match
                (p, named, quote_matches-StandsIn match_anchor norm found_in (text_of c.quote) p e)
                (rest (add_match match_anchor norm found_in rep)))
          | inr e ↦ rw e (after_unquoted p named e rest)
        ]
      where
        after_unquoted :
            (p : String)
            → IsNamed match_anchor norm found_in paras source_id (text_of c.anchor) p
            → quote_matches match_anchor norm found_in (text_of c.quote) p ≡ false
            → ((rep' : Report) → Adds (suc i) cs rep' (rest_of rep'))
            → Adds i (c ∷ cs) rep (
                rest_of (
                  add_failure match_anchor norm found_in
                    (failure match_anchor norm found_in i quote_not_in_anchor c)
                    rep))
        after_unquoted p named e rest =
            let f = failure match_anchor norm found_in i quote_not_in_anchor c in
            let (k, fs, checked, many, failed, r) =
              rest (add_failure match_anchor norm found_in f rep) in
            (
              k,
              f ∷ fs,
              checked,
              many,
              failed ∙ append_one rep.failures fs f,
              unquoted c p named
                  (λ stands. ground (
                    arith,
                    e,
                    StandsIn-quote_matches match_anchor norm found_in (text_of c.quote) p stands,
                  ))
                  r,
            )

  check_claims-Adds :
      (i : ℕ) (cs : List Claim) (rep : Report)
      → Adds i cs rep (check_claims match_anchor norm found_in paras source_id i cs rep)
  unfolding check_claims Adds
  check_claims-Adds i [] rep = (0, [], refl, omega arith, sym (append_nil rep.failures), end i)
  check_claims-Adds i (c ∷ cs) rep =
      unnamed_or i c cs rep
        (paragraph_of match_anchor norm found_in paras source_id (match_anchor (text_of c.anchor)))
        refl (check_claims-Adds (suc i) cs)

  reported_as :
      {i k m : ℕ} {cs : List Claim} {fs gs : List Failure}
      → IsReported i cs k fs
      → m ≡ k
      → gs ≡ fs
      → IsReported i cs m gs
  reported_as {i} {k} {m} {cs} {fs} {gs} r many failed =
      subst (λ n. IsReported i cs n gs) (sym many)
        (subst (λ hs. IsReported i cs k hs) (sym failed) r)

  -- The report counts the claims. Of each it says, in their order and under its number, that it is
  -- matched, if its anchor names a paragraph of the source and its quote, which is not blank,
  -- stands there; that its anchor is bad, if it names none; or that the quote is not in the
  -- anchor, if it names one without the quote; and it has no other failures.
  pub verify-IsReported :
      (claims : List Claim)
      → (let report = verify match_anchor norm found_in paras source_id claims in
          (report.checked ≡ length claims) × IsReported 0 claims report.matched report.failures)
  unfolding verify Adds
  verify-IsReported claims =
      let start : Report = record { checked = length claims; matched = 0; failures = [] } in
      let (k, fs, checked, many, failed, r) = check_claims-Adds 0 claims start in
      (checked, reported_as r (many ∙ zero_plus k) failed)

  reported_most :
      {i k : ℕ} {cs : List Claim} {fs : List Failure} → IsReported i cs k fs → k ≤ length cs
  reported_most (end i) = omega arith
  reported_most (matching c quoted r) = ground (arith, reported_most r)
  reported_most (unnamed c h r) = ground (arith, reported_most r)
  reported_most (unquoted c p named h r) = ground (arith, reported_most r)

  All-IsQuoted :
      {i k : ℕ} {cs : List Claim} {fs : List Failure}
      → IsReported i cs k fs
      → k ≡ length cs
      → All (IsQuoted match_anchor norm found_in paras source_id) cs
  All-IsQuoted (end i) h = tt
  All-IsQuoted (matching c quoted r) h = (quoted, All-IsQuoted r (ground (arith, h)))
  All-IsQuoted (unnamed c missing r) h = absurd (ground (arith, h, reported_most r))
  All-IsQuoted (unquoted c p named missing r) h = absurd (ground (arith, h, reported_most r))

  All-matched :
      {i k : ℕ} {cs : List Claim} {fs : List Failure}
      → IsReported i cs k fs
      → All (IsQuoted match_anchor norm found_in paras source_id) cs
      → k ≡ length cs
  All-matched (end i) h = refl
  All-matched (matching c quoted r) h = ap suc (All-matched r h.1)
  All-matched (unnamed c missing r) ((p, named, stands), h) = absurd (missing p named)
  All-matched (unquoted c p named missing r) ((q, other, stands), h) = absurd (
      missing (
        subst (λ x. StandsIn match_anchor norm found_in (text_of c.quote) x)
          (IsNamed-unique match_anchor norm found_in paras source_id (text_of c.anchor) q p other
            named)
          stands))

  -- The claims pass if and only if there is one, and the anchor of every claim is one of the source
  -- whose number is that of a paragraph, counted from 1, in which the claim's quote, which is not
  -- blank, stands.
  pub verify-IsQuoted_iff :
      (claims : List Claim)
      → (passed (verify match_anchor norm found_in paras source_id claims) ≡ true)
        ↔ ((0 < length claims) × All (IsQuoted match_anchor norm found_in paras source_id) claims)
  unfolding passed
  verify-IsQuoted_iff claims =
      let (checked, r) = verify-IsReported claims in
      (
        λ h. (ground (arith, h, checked), All-IsQuoted r (ground (arith, h, checked))),
        λ h. ground (arith, checked, h.0, All-matched r h.1),
      )
