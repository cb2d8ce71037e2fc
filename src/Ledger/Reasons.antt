-- ===== src/Ledger/Reasons.antt =====
-- When the reason of a node is blank: `not node.gate_reason.strip()` of `lint`.
use mathlib.Core.List.{reverse, reverse-append, reverse-cons, append_assoc}
use agents_for_dummies.Base.{
  ℕ, String, ◌≡◌, refl, true, false, Option, none, some, List, [], ◌∷◌, ◌++◌, ◌↔◌, arith,
  Bool-cases, inl, inr, ap, sym, subst, ◌∙◌, some_injective,
}
use agents_for_dummies.Base.Text.{codes, is_space, lstrip, strip}
use agents_for_dummies.Ledger.Lint.{is_nil, lacks_reason}

-- A character of the text is not white space.
abbrev pub HasText : List ℕ → Type 0
HasText cs =
    (before : List ℕ) × (c : ℕ) × (after : List ℕ) × (cs ≡ before ++ (c ∷ after))
    × (is_space c ≡ false)

-- There is a reason, and it has a character that is not white space.
abbrev pub HasReason : Option String → Type 0
HasReason reason = (text : String) × (reason ≡ some text) × HasText (codes text)

-- Stripping the front leaves nothing, or a text that starts with a character that is no space.
abbrev Stripped : List ℕ → Type 0
Stripped cs =
    (c : ℕ) × (before : List ℕ) × (rest : List ℕ) × (lstrip cs ≡ c ∷ rest)
    × (cs ≡ before ++ (c ∷ rest))
    × (is_space c ≡ false)

later :
    (x : ℕ) (xs : List ℕ)
    → is_space x ≡ true
    → is_nil (lstrip (x ∷ xs)) ≡ false
    → is_nil (lstrip xs) ≡ false
unfolding lstrip
later x xs e h = ground (arith, e, h)

stripped : (cs : List ℕ) → is_nil (lstrip cs) ≡ false → Stripped cs
unfolding lstrip
stripped [] h = absurd (ground arith)
stripped (x ∷ xs) h = elim (Bool-cases (is_space x)) [
  | inl e ↦
      let (c, before, rest, left, whole, plain) = stripped xs (later x xs e h) in
      (c, x ∷ before, rest, rw e left, ap (λ r. x ∷ r) whole, plain)
  | inr e ↦ (x, [], xs, rw e refl, refl, e)
]

kept :
    (before : List ℕ) (c : ℕ) (after : List ℕ)
    → is_space c ≡ false
    → is_nil (lstrip (before ++ (c ∷ after))) ≡ false
unfolding lstrip
kept [] c after plain = rw plain refl
kept (x ∷ before) c after plain = elim (Bool-cases (is_space x)) [
  | inl e ↦ rw e (kept before c after plain)
  | inr e ↦ rw e refl
]

lstrip-HasText : (cs : List ℕ) → HasText cs → is_nil (lstrip cs) ≡ false
lstrip-HasText cs (before, c, after, whole, plain) =
    subst (λ x. is_nil (lstrip x) ≡ false) (sym whole) (kept before c after plain)

reverse-HasText : (cs : List ℕ) → HasText cs → HasText (reverse cs)
reverse-HasText cs (before, c, after, whole, plain) = (
  reverse after,
  c,
  reverse before,
  ap reverse whole ∙ reverse-append before (c ∷ after) ∙ turned before c after,
  plain,
)
  where
    turned :
        (before : List ℕ) (c : ℕ) (after : List ℕ)
        → reverse (c ∷ after) ++ reverse before ≡ reverse after ++ (c ∷ reverse before)
    turned before c after =
        ap (λ r. r ++ reverse before) (reverse-cons c after)
        ∙ append_assoc (reverse after) (c ∷ []) (reverse before)

reverse-is_nil : (cs : List ℕ) → is_nil cs ≡ false → is_nil (reverse cs) ≡ false
reverse-is_nil [] h = absurd (ground arith)
reverse-is_nil (c ∷ cs) h = rw (reverse-cons c cs) (append-is_nil (reverse cs) c)
  where
    append-is_nil : (xs : List ℕ) (c : ℕ) → is_nil (xs ++ (c ∷ [])) ≡ false
    append-is_nil [] c = refl
    append-is_nil (x ∷ xs) c = refl

lstrip-keeps : (cs : List ℕ) → HasText cs → HasText (lstrip cs)
lstrip-keeps cs has =
    let (c, before, rest, left, whole, plain) = stripped cs (lstrip-HasText cs has) in
    ([], c, rest, left, plain)

strip-HasText : (cs : List ℕ) → HasText cs → is_nil (strip cs) ≡ false
unfolding strip
strip-HasText cs has =
    reverse-is_nil (lstrip (reverse (lstrip cs)))
      (lstrip-HasText (reverse (lstrip cs)) (reverse-HasText (lstrip cs) (lstrip-keeps cs has)))

strip_nil : (cs : List ℕ) → is_nil (lstrip cs) ≡ true → is_nil (strip cs) ≡ true
unfolding strip
strip_nil cs h =
    subst (λ r. is_nil (reverse (lstrip (reverse r))) ≡ true) (sym (nil_of (lstrip cs) h)) refl
  where
    nil_of : (xs : List ℕ) → is_nil xs ≡ true → xs ≡ []
    nil_of [] h = refl
    nil_of (x ∷ xs) h = absurd (ground arith)

HasText-strip : (cs : List ℕ) → is_nil (strip cs) ≡ false → HasText cs
HasText-strip cs h = elim (Bool-cases (is_nil (lstrip cs))) [
  | inl e ↦ absurd (ground (arith, strip_nil cs e, h))
  | inr e ↦
      let (c, before, rest, left, whole, plain) = stripped cs e in (before, c, rest, whole, plain)
]

pub lacks_reason_iff : (reason : Option String) → (lacks_reason reason ≡ false) ↔ HasReason reason
lacks_reason_iff none = (λ h. ground arith, λ (text, some_text, has). ground (arith, some_text))
lacks_reason_iff (some text) = (
  λ h. (text, refl, HasText-strip (codes text) h),
  λ (other, same, has).
      strip-HasText (codes text) (subst (λ t. HasText (codes t)) (sym (some_injective same)) has),
)
