-- ===== src/Verifier/Anchors.antt =====
-- The paragraph that an anchor names, and the quotes that stand in one.
use agents_for_dummies.Base.{
  some_injective, ℕ, zero, suc, ◌-◌, ◌≡◌, ◌≢◌, refl, String, Bool, true, false, Option, none, some,
  List, [], ◌∷◌, ◌++◌, length, if◌then◌else◌, arith, Bool-cases, inl, inr, length-append, subst,
  sym, ap, ◌∙◌, ◌==◌, eq_iff, ◌&&◌, leb,
}
use agents_for_dummies.Verifier.Verify.{
  Claim, Anchor, text_of, item_at, paragraph_of, quote_matches,
}

-- The paragraph stands in the source after the given number of others.
abbrev pub StandsAfter : ℕ → String → List String → Type 0
StandsAfter n p paras =
    (before : List String) × (after : List String) × (paras ≡ before ++ (p ∷ after))
    × (length before ≡ n)

item_at-found : (ps : List String) (n : ℕ) (p : String) → item_at ps n ≡ some p → StandsAfter n p ps
item_at-found [] n p h = absurd (ground arith)
item_at-found (q ∷ qs) zero p h = ([], qs, ap (λ x. x ∷ qs) (some_injective h), refl)
item_at-found (q ∷ qs) (suc n) p h =
    let (before, after, whole, many) = item_at-found qs n p h in
    (q ∷ before, after, ap (λ r. q ∷ r) whole, ap suc many)

item_at-append :
    (before : List String) (p : String) (after : List String)
    → item_at (before ++ (p ∷ after)) (length before) ≡ some p
item_at-append [] p after = refl
item_at-append (q ∷ before) p after = item_at-append before p after

module _ (match_anchor : String → Option Anchor) (norm : String → String)
    (found_in : String → String → Bool) where
  -- The text is an anchor of the source, and its number is the paragraph's, from 1.
  abbrev pub IsNamed : List String → String → String → String → Type 0
  IsNamed paras source_id text paragraph =
      (m : Anchor) × (match_anchor text ≡ some m)
      × (m.src ≡ source_id)
      × (before : List String) × (after : List String) × (paras ≡ before ++ (paragraph ∷ after))
      × (suc (length before) ≡ m.n)

  -- The quote is not blank and stands in the paragraph.
  abbrev pub StandsIn : String → String → Type 0
  StandsIn quote paragraph = (norm quote ≢ "") × (found_in (norm quote) (norm paragraph) ≡ true)

  -- The anchor of the claim names a paragraph of the source in which its quote stands.
  abbrev pub IsQuoted : List String → String → Claim → Type 0
  IsQuoted paras source_id c =
      (paragraph : String) × IsNamed paras source_id (text_of c.anchor) paragraph
      × StandsIn (text_of c.quote) paragraph

  pub quote_matches-StandsIn :
      (quote paragraph : String)
      → quote_matches match_anchor norm found_in quote paragraph ≡ true
      → StandsIn quote paragraph
  unfolding quote_matches
  quote_matches-StandsIn quote paragraph h =
      (λ blank. ground (arith, h, (eq_iff (norm quote) "").1 blank), ground (arith, h))

  pub StandsIn-quote_matches :
      (quote paragraph : String)
      → StandsIn quote paragraph
      → quote_matches match_anchor norm found_in quote paragraph ≡ true
  unfolding quote_matches
  StandsIn-quote_matches quote paragraph (full, found) = elim (Bool-cases (norm quote == "")) [
    | inl e ↦ absurd (full ((eq_iff (norm quote) "").0 e))
    | inr e ↦ rw e (rw found refl)
  ]

  module _ (paras : List String) (source_id : String) where
    abbrev in_source : Anchor → Bool
    in_source m = (m.src == source_id) && (leb 1 m.n && leb m.n (length paras))

    IsNamed-at :
        (text paragraph : String) (m : Anchor) (inside : Bool)
        → match_anchor text ≡ some m
        → in_source m ≡ inside
        → (if inside then item_at paras (m.n - 1) else none) ≡ some paragraph
        → IsNamed paras source_id text paragraph
    IsNamed-at text paragraph m false at e h = absurd (ground arith)
    IsNamed-at text paragraph m true at e h =
        let (before, after, whole, many) = item_at-found paras (m.n - 1) paragraph h in
        (
          m,
          at,
          (eq_iff m.src source_id).0 (ground (arith, e)),
          before,
          after,
          whole,
          ground (arith, e, many),
        )

    pub paragraph_of-IsNamed :
        (text paragraph : String) (found : Option Anchor)
        → match_anchor text ≡ found
        → paragraph_of match_anchor norm found_in paras source_id found ≡ some paragraph
        → IsNamed paras source_id text paragraph
    unfolding paragraph_of
    paragraph_of-IsNamed text paragraph none at h = absurd (ground arith)
    paragraph_of-IsNamed text paragraph (some m) at h = IsNamed-at text paragraph m _ at refl h

    split_in_source :
        (m : Anchor) (before after : List String) (paragraph : String)
        → m.src ≡ source_id
        → paras ≡ before ++ (paragraph ∷ after)
        → suc (length before) ≡ m.n
        → in_source m ≡ true
    split_in_source m before after paragraph same whole many =
        rw ((eq_iff m.src source_id).1 same)
          (ground (arith, ap length whole, length-append before (paragraph ∷ after), many))

    split_item :
        (m : Anchor) (before after : List String) (paragraph : String)
        → paras ≡ before ++ (paragraph ∷ after)
        → suc (length before) ≡ m.n
        → item_at paras (m.n - 1) ≡ some paragraph
    split_item m before after paragraph whole many =
        let at : length before ≡ m.n - 1 = ground (arith, many) in
        subst (λ n. item_at paras n ≡ some paragraph) at
          (subst (λ ps. item_at ps (length before) ≡ some paragraph) (sym whole)
            (item_at-append before paragraph after))

    pub IsNamed-paragraph_of :
        (text paragraph : String)
        → IsNamed paras source_id text paragraph
        → paragraph_of match_anchor norm found_in paras source_id (match_anchor text)
          ≡ some paragraph
    unfolding paragraph_of
    IsNamed-paragraph_of text paragraph (m, at, same, before, after, whole, many) = rw at (
        rw (split_in_source m before after paragraph same whole many)
          (split_item m before after paragraph whole many))

    pub IsNamed-unique :
        (text p q : String)
        → IsNamed paras source_id text p
        → IsNamed paras source_id text q
        → p ≡ q
    IsNamed-unique text p q a b =
        some_injective (sym (IsNamed-paragraph_of text p a) ∙ IsNamed-paragraph_of text q b)
