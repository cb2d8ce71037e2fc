-- ===== src/Base/Lists.antt =====
-- Lists: length over the native numbers, search, membership of texts, predicates by recursion.
use Prim.Native.Nat.{ℕ, suc, ◌+◌}
use Prim.Native.String.{String}
use mathlib.Core.Path.{◌≡◌, sym, subst}
use mathlib.Core.Bool.{Bool, true, false, ◌||◌}
use mathlib.Core.List.{List, [], ◌∷◌, ◌++◌}
use mathlib.Core.Option.{Option, none, some}
use native.Mathlib.Omega.{arith}
use text.Mathlib.Text.{◌==◌}
use mathlib.Core.Logic.{inl, inr}
use agents_for_dummies.Base.Tests.{if◌then◌else◌, String-cases}

module _ {ℓ} {A : Type ℓ} where
  abbrev pub length : List A → ℕ
  length [] = 0
  length (x ∷ xs) = suc (length xs)

  -- The first element that passes the test, as a `for` loop with a `return` finds it.
  abbrev pub find_first : (A → Bool) → List A → Option A
  find_first p [] = none
  find_first p (x ∷ xs) = if p x then some x else find_first p xs

  -- Python's `any(p(x) for x in xs)`
  abbrev pub any_of : (A → Bool) → List A → Bool
  any_of p [] = false
  any_of p (x ∷ xs) = p x || any_of p xs

  -- `[x for x in xs if p(x)]`
  abbrev pub keep_if : (A → Bool) → List A → List A
  keep_if p [] = []
  keep_if p (x ∷ xs) = if p x then x ∷ keep_if p xs else keep_if p xs

  abbrev pub All {κ} : (A → Type κ) → List A → Type κ
  All P [] = Unit
  All P (x ∷ xs) = P x × All P xs

  pub length-append : (xs ys : List A) → length (xs ++ ys) ≡ length xs + length ys
  length-append [] ys = omega arith
  length-append (x ∷ xs) ys = omega (arith, length-append xs ys)

  pub All-append {κ} : (P : A → Type κ) (xs ys : List A) → All P xs → All P ys → All P (xs ++ ys)
  All-append P [] ys h k = k
  All-append P (x ∷ xs) ys h k = (h.0, All-append P xs ys h.1 k)

  -- What `find_first` returns passes its test.
  pub find_first-passes :
      (p : A → Bool) (xs : List A) {x : A} → find_first p xs ≡ some x → p x ≡ true
  find_first-passes p [] h = cc
  find_first-passes p (y ∷ ys) {x} h = ground (arith, find_first-passes p ys {x = x})

-- `s in xs` for a collection of texts
abbrev pub contains : String → List String → Bool
contains s [] = false
contains s (x ∷ xs) = (s == x) || contains s xs

pub All-at {κ} :
    (P : String → Type κ) (p : String) (xs : List String) → All P xs → contains p xs ≡ true → P p
All-at P p [] h c = absurd (ground arith)
All-at P p (x ∷ xs) h c = elim (String-cases p x) [
  | inl e ↦ subst P (sym e) h.0
  | inr e ↦ All-at P p xs h.1 (ground arith)
]
