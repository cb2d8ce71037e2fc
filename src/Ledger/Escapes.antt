-- ===== src/Ledger/Escapes.antt =====
-- The escapes of a label.
use agents_for_dummies.Base.{
  ℕ, ◌≡◌, refl, Bool, true, false, ◌||◌, List, [], ◌∷◌, if◌then◌else◌, eqb, arith, ap, Bool-cases,
  inl, inr, subst, sym, ◌∙◌,
}
use agents_for_dummies.Ledger.Mermaid.{replace, escape_label}

abbrev pub is_special : ℕ → Bool
is_special x = eqb x b'\\' || eqb x 34 || eqb x 124 || eqb x 91 || eqb x 93

-- One pass over the text.
unfoldable escape_once : List ℕ → List ℕ
escape_once [] = []
escape_once (x ∷ xs) =
    let rest = escape_once xs in if is_special x then b'\\' ∷ x ∷ rest else x ∷ rest

-- A backslash stands for what follows it.
unfoldable pub unescape : List ℕ → List ℕ
unescape [] = []
unescape (x ∷ []) = x ∷ []
unescape (x ∷ y ∷ rest) =
    let plain = unescape (y ∷ rest) in
    let taken = unescape rest in if eqb x b'\\' then y ∷ taken else x ∷ plain

eqb_equal : (x y : ℕ) → eqb x y ≡ true → x ≡ y
eqb_equal x y h = ground (arith, h)

-- The two agree at a character, if they agree on what follows.
Agree : ℕ → List ℕ → Type 0
Agree x xs = escape_label xs ≡ escape_once xs → escape_label (x ∷ xs) ≡ escape_once (x ∷ xs)

module _ (xs : List ℕ) where
  agree_special : (x c : ℕ) → eqb x c ≡ true → Agree c xs → Agree x xs
  agree_special x c e = subst (λ y. Agree y xs) (sym (eqb_equal x c e))

  agree_plain :
      (x : ℕ)
      → eqb x b'\\' ≡ false
      → eqb x 34 ≡ false
      → eqb x 124 ≡ false
      → eqb x 91 ≡ false
      → eqb x 93 ≡ false
      → Agree x xs
  unfolding Agree escape_label escape_once replace
  agree_plain x a b c d e h = rw a (rw b (rw c (rw d (rw e (ap (λ r. x ∷ r) h)))))

  backslash : Agree b'\\' xs
  unfolding Agree escape_label escape_once replace
  backslash h = ap (λ r. b'\\' ∷ b'\\' ∷ r) h

  quote : Agree 34 xs
  unfolding Agree escape_label escape_once replace
  quote h = ap (λ r. b'\\' ∷ 34 ∷ r) h

  bar : Agree 124 xs
  unfolding Agree escape_label escape_once replace
  bar h = ap (λ r. b'\\' ∷ 124 ∷ r) h

  opening : Agree 91 xs
  unfolding Agree escape_label escape_once replace
  opening h = ap (λ r. b'\\' ∷ 91 ∷ r) h

  closing : Agree 93 xs
  unfolding Agree escape_label escape_once replace
  closing h = ap (λ r. b'\\' ∷ 93 ∷ r) h

  agree : (x : ℕ) → Agree x xs
  agree x = elim (Bool-cases (eqb x b'\\')) [
    | inl e ↦ agree_special x b'\\' e backslash
    | inr a ↦ elim (Bool-cases (eqb x 34)) [
      | inl e ↦ agree_special x 34 e quote
      | inr b ↦ elim (Bool-cases (eqb x 124)) [
        | inl e ↦ agree_special x 124 e bar
        | inr c ↦ elim (Bool-cases (eqb x 91)) [
          | inl e ↦ agree_special x 91 e opening
          | inr d ↦ elim (Bool-cases (eqb x 93)) [
            | inl e ↦ agree_special x 93 e closing
            | inr e ↦ agree_plain x a b c d e
          ]
        ]
      ]
    ]
  ]

escape_label-once : (text : List ℕ) → escape_label text ≡ escape_once text
unfolding Agree escape_label escape_once replace
escape_label-once [] = refl
escape_label-once (x ∷ xs) = agree xs x (escape_label-once xs)

unescape-plain : (x : ℕ) (xs : List ℕ) → eqb x b'\\' ≡ false → unescape (x ∷ xs) ≡ x ∷ unescape xs
unfolding unescape
unescape-plain x [] h = refl
unescape-plain x (y ∷ ys) h = rw h refl

unescape-once : (text : List ℕ) → unescape (escape_once text) ≡ text
unfolding unescape escape_once
unescape-once [] = refl
unescape-once (x ∷ xs) = elim (Bool-cases (is_special x)) [
  | inl e ↦ rw e (ap (λ r. x ∷ r) (unescape-once xs))
  | inr e ↦
      rw e
        (unescape-plain x (escape_once xs) (ground (arith, e)) ∙ ap (λ r. x ∷ r) (unescape-once xs))
]

-- Each special character has a backslash before it: no quote, bar or bracket stands alone, and no
-- backslash but before one of them or before another backslash.
pub data IsEscaped : List ℕ → Type 0 where
  end : IsEscaped []
  plain : (x : ℕ) {xs : List ℕ} → is_special x ≡ false → IsEscaped xs → IsEscaped (x ∷ xs)
  escaped : (x : ℕ) {xs : List ℕ} → is_special x ≡ true → IsEscaped xs → IsEscaped (b'\\' ∷ x ∷ xs)

escape_once-IsEscaped : (text : List ℕ) → IsEscaped (escape_once text)
unfolding escape_once
escape_once-IsEscaped [] = end
escape_once-IsEscaped (x ∷ xs) = elim (Bool-cases (is_special x)) [
  | inl e ↦ rw e (escaped x e (escape_once-IsEscaped xs))
  | inr e ↦ rw e (plain x e (escape_once-IsEscaped xs))
]

-- In an escaped label each backslash, quote, bar and square bracket of the text has a backslash
-- before it, and no other character has one; taking away the backslashes gives the text back.
pub escape_label-IsEscaped :
    (text : List ℕ) → IsEscaped (escape_label text) × (unescape (escape_label text) ≡ text)
escape_label-IsEscaped text = (
  subst IsEscaped (sym (escape_label-once text)) (escape_once-IsEscaped text),
  ap unescape (escape_label-once text) ∙ unescape-once text,
)
