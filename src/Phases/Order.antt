-- ===== src/Phases/Order.antt =====
-- Sorting by a numeric key: it lists what is there in the order of a list that ascends.
use agents_for_dummies.Base.{
  ℕ, ◌<◌, ◌≤◌, String, ◌≡◌, refl, Bool, true, not, ◌&&◌, ◌||◌, List, [], ◌∷◌, ◌==◌, contains,
  keep_if, ltb, leb, arith, eq_iff, String-cases, eq_refl, inl, inr, Bool-cases, All, ap, subst,
  ◌∙◌, sym,
}
use agents_for_dummies.Phases.Resolve.{insert_name, sort_names}

module _ (key : String → ℕ) where
  abbrev pub before : String → String → Bool
  before a b = not (leb (key b) (key a))

  -- Each key is above the one before it, and the first above the bound.
  abbrev pub ascends : ℕ → List String → Bool
  ascends n [] = true
  ascends n (x ∷ xs) = ltb n (key x) && ascends (key x) xs

  ascends-above :
      (n : ℕ) (xs : List String) (x : String)
      → ascends n xs ≡ true
      → contains x xs ≡ true
      → n < key x
  ascends-above n [] x h c = ground arith
  ascends-above n (y ∷ ys) x h c = elim (String-cases x y) [
    | inl e ↦ rw e (ground arith)
    | inr e ↦ ground (arith, ascends-above (key y) ys x)
  ]

  -- Nothing in an ascending list is below its bound.
  keep-agree :
      (n : ℕ) (x : String) (q : String → Bool) (xs : List String)
      → ascends n xs ≡ true
      → key x ≤ n
      → keep_if q xs ≡ keep_if (λ p. (p == x) || q p) xs
  keep-agree n x q [] h le = refl
  keep-agree n x q (y ∷ ys) h le = elim (String-cases y x) [
    | inl e ↦ absurd (ground (arith, ap key e))
    | inr e ↦ ground (arith, keep-agree (key y) x q ys)
  ]

  insert-first :
      (n : ℕ) (x : String) (q : String → Bool) (xs : List String)
      → ascends n xs ≡ true
      → key x ≤ n
      → insert_name before x (keep_if q xs) ≡ x ∷ keep_if q xs
  insert-first n x q [] h le = refl
  insert-first n x q (y ∷ ys) h le = ground (arith, insert-first (key y) x q ys)

  insert-head :
      (y : String) (q : String → Bool) (ys : List String)
      → ascends (key y) ys ≡ true
      → insert_name before y (keep_if q (y ∷ ys)) ≡ y ∷ keep_if q ys
  insert-head y q ys h = elim (Bool-cases (q y)) [
    | inl e ↦ rw e (ground arith)
    | inr e ↦ rw e (insert-first (key y) y q ys h (omega arith))
  ]

  ascends-tail :
      (n : ℕ) (y : String) (ys : List String)
      → ascends n (y ∷ ys) ≡ true
      → ascends (key y) ys ≡ true
  ascends-tail n y ys h = ground arith

  insert-same :
      (y : String) (q : String → Bool) (ys : List String)
      → ascends (key y) ys ≡ true
      → insert_name before y (keep_if q (y ∷ ys)) ≡ keep_if (λ p. (p == y) || q p) (y ∷ ys)
  insert-same y q ys up =
      rw (eq_refl y)
        (insert-head y q ys up ∙ ap (λ zs. y ∷ zs) (keep-agree (key y) y q ys up (omega arith)))

  insert-keep_if :
      (n : ℕ) (x : String) (q : String → Bool) (xs : List String)
      → ascends n xs ≡ true
      → contains x xs ≡ true
      → insert_name before x (keep_if q xs) ≡ keep_if (λ p. (p == x) || q p) xs
  insert-keep_if n x q [] h c = ground arith
  insert-keep_if n x q (y ∷ ys) h c = elim (String-cases y x) [
    | inl e ↦
        subst
          (λ z. insert_name before z (keep_if q (y ∷ ys)) ≡ keep_if (λ p. (p == z) || q p) (y ∷ ys))
          e (insert-same y q ys (ascends-tail n y ys h))
    | inr e ↦
        ground
          (arith, insert-keep_if (key y) x q ys, ascends-above (key y) ys x, eq_iff x y, eq_refl y)
  ]

  keep-none : (xs : List String) → keep_if (λ p. contains p []) xs ≡ []
  keep-none [] = refl
  keep-none (x ∷ xs) = keep-none xs

  -- Names of a list that ascends, sorted by the key, are the list's elements that are among them, in
  -- the order of the list.
  pub sort_names-keep_if :
      (all names : List String)
      → ascends 0 all ≡ true
      → All (λ x. contains x all ≡ true) names
      → sort_names before names ≡ keep_if (λ p. contains p names) all
  sort_names-keep_if all [] h known = sym (keep-none all)
  sort_names-keep_if all (x ∷ xs) h known =
      ap (insert_name before x) (sort_names-keep_if all xs h known.1)
      ∙ insert-keep_if 0 x (λ p. contains p xs) all h known.0
