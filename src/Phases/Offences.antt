-- ===== src/Phases/Offences.antt =====
-- What the resolver's errors name.
use agents_for_dummies.Base.{
  subst, String, ◌≡◌, refl, Bool, true, false, not, ◌&&◌, List, [], ◌∷◌, ◌++◌, contains, keep_if,
  if◌then◌else◌, arith, eq_refl, Bool-cases, inl, inr, All, All-append, sym, ◌∙◌,
}
use agents_for_dummies.Base.Result.{Result, err}
use agents_for_dummies.Base.Text.{text_before}
use agents_for_dummies.Phases.Table.{insertable_names, required_names}
use agents_for_dummies.Phases.Resolve.{
  ResolveError, unknown_phase, skip_add_conflict, not_insertable, required_phase_skip, dep_break,
  without, meet, is_empty_list, insert_name, sort_names, order_before, canonical, deps_of,
  pairs_with, violations_of, orderable, effective_of, resolve_effective, resolve,
}
use agents_for_dummies.Phases.Plans.{is_effective, All-map, contains-effective_of}

-- There are names, and each is what the error says.
AreNames : (String → Type 0) → List String → Type 0
AreNames P names = (is_empty_list names ≡ false) × All P names

module _ (skip add : List String) where
  -- A phase that runs, with one that it depends on and that does not.
  IsBroken : String × String → Type 0
  IsBroken (p, d) =
      (is_effective skip add p ≡ true)
      × (contains d (deps_of p) ≡ true)
      × (is_effective skip add d ≡ false)

  pub IsOffence : ResolveError → Type 0
  unfolding AreNames
  IsOffence (unknown_phase names) =
      AreNames (λ p. (contains p (skip ++ add) ≡ true) × (contains p orderable ≡ false)) names
  IsOffence (skip_add_conflict names) =
      AreNames (λ p. (contains p skip ≡ true) × (contains p add ≡ true)) names
  IsOffence (not_insertable names) =
      AreNames (λ p. (contains p add ≡ true) × (contains p insertable_names ≡ false)) names
  IsOffence (required_phase_skip names) =
      AreNames (λ p. (contains p skip ≡ true) × (contains p required_names ≡ true)) names
  IsOffence (dep_break violations) = (is_empty_list violations ≡ false) × All IsBroken violations

insert_name-All :
    (before : String → String → Bool) (P : String → Type 0) (x : String) (xs : List String)
    → P x
    → All P xs
    → All P (insert_name before x xs)
insert_name-All before P x [] h k = (h, tt)
insert_name-All before P x (y ∷ ys) h k = elim (Bool-cases (before x y)) [
  | inl e ↦ rw e (h, k)
  | inr e ↦ rw e (elim (Bool-cases (before y x)) [
    | inl f ↦ rw f (k.0, insert_name-All before P x ys h k.1)
    | inr f ↦ rw f k
  ])
]

sort_names-All :
    (before : String → String → Bool) (P : String → Type 0) (xs : List String)
    → All P xs
    → All P (sort_names before xs)
sort_names-All before P [] h = tt
sort_names-All before P (x ∷ xs) h =
    insert_name-All before P x (sort_names before xs) h.0 (sort_names-All before P xs h.1)

insert_name-some :
    (before : String → String → Bool) (x : String) (xs : List String)
    → is_empty_list (insert_name before x xs) ≡ false
insert_name-some before x [] = refl
insert_name-some before x (y ∷ ys) = ground arith

sort_names-some :
    (before : String → String → Bool) (xs : List String)
    → is_empty_list xs ≡ false
    → is_empty_list (sort_names before xs) ≡ false
sort_names-some before [] h = h
sort_names-some before (x ∷ xs) h = insert_name-some before x (sort_names before xs)

-- What is kept was there, and passes the test.
keep_if-All :
    (q : String → Bool) (xs : List String)
    → All (λ p. (contains p xs ≡ true) × (q p ≡ true)) (keep_if q xs)
keep_if-All q [] = tt
keep_if-All q (x ∷ xs) =
    let later =
      All-map _ (λ p. (contains p (x ∷ xs) ≡ true) × (q p ≡ true)) (keep_if q xs)
        (λ p h. (ground (arith, h.0), h.1)) (keep_if-All q xs) in
    elim (Bool-cases (q x)) [
      | inl e ↦ rw e ((ground (arith, eq_refl x), e), later)
      | inr e ↦ rw e later
    ]

-- The names of an error: those that pass a test, sorted.
sorted-AreNames :
    (q : String → Bool) (P : String → Type 0) (xs : List String)
    → ((p : String) → (contains p xs ≡ true) × (q p ≡ true) → P p)
    → is_empty_list (keep_if q xs) ≡ false
    → AreNames P (sort_names text_before (keep_if q xs))
unfolding AreNames
sorted-AreNames q P xs means some_left = (
  sort_names-some text_before (keep_if q xs) some_left,
  sort_names-All text_before P (keep_if q xs) (All-map _ P (keep_if q xs) means (keep_if-All q xs)),
)

err_injective :
    {a b : ResolveError} → ◌≡◌ {A = Result ResolveError (List String)} (err a) (err b) → a ≡ b
err_injective h = cc

module _ (skip add : List String) where
  pairs-IsBroken :
      (p : String) (ds : List String)
      → is_effective skip add p ≡ true
      → All (λ d. (contains d (deps_of p) ≡ true) × (is_effective skip add d ≡ false)) ds
      → All (IsBroken skip add) (pairs_with p ds)
  unfolding IsBroken
  pairs-IsBroken p [] runs h = tt
  pairs-IsBroken p (d ∷ ds) runs h = ((runs, h.0.0, h.0.1), pairs-IsBroken p ds runs h.1)

  missing :
      (p : String)
      → All
          (λ d. (contains d (deps_of p) ≡ true) × (is_effective skip add d ≡ false))
          (without (deps_of p) (effective_of skip add))
  missing p =
      All-map _ _ (without (deps_of p) (effective_of skip add))
        (λ d h. (h.0, ground (arith, h.1, contains-effective_of skip add d)))
        (keep_if-All (λ x. not (contains x (effective_of skip add))) (deps_of p))

  violations-IsBroken :
      (ps : List String)
      → All (λ p. is_effective skip add p ≡ true) ps
      → All (IsBroken skip add) (violations_of (effective_of skip add) ps)
  violations-IsBroken [] h = tt
  violations-IsBroken (p ∷ ps) h =
      All-append (IsBroken skip add) _ _
        (pairs-IsBroken p (without (deps_of p) (effective_of skip add)) h.0 (missing p))
        (violations-IsBroken ps h.1)

  All-contains : (xs : List String) → All (λ p. contains p xs ≡ true) xs
  All-contains [] = tt
  All-contains (x ∷ xs) = (
    ground (arith, eq_refl x),
    All-map _ (λ p. contains p (x ∷ xs) ≡ true) xs (λ p h. ground (arith, h)) (All-contains xs),
  )

  canonical-runs : All (λ p. is_effective skip add p ≡ true) (canonical (effective_of skip add))
  unfolding canonical
  canonical-runs = sort_names-All order_before _ (effective_of skip add) (
      All-map _ _ (effective_of skip add) (λ p h. sym (contains-effective_of skip add p) ∙ h)
        (All-contains (effective_of skip add)))

  effective-IsOffence :
      {e : ResolveError} → resolve_effective (effective_of skip add) ≡ err e → IsOffence skip add e
  unfolding resolve_effective IsOffence
  effective-IsOffence {e} =
      let violations = violations_of (effective_of skip add) (canonical (effective_of skip add)) in
      elim (Bool-cases (is_empty_list violations)) [
        | inl none_left ↦ rw none_left (λ h. absurd (ground arith))
        | inr broken ↦ rw broken (λ h.
            subst (IsOffence skip add) (err_injective h)
              (broken, violations-IsBroken (canonical (effective_of skip add)) canonical-runs))
      ]

  -- The error that a test raises, where its names are offences; and the rest where it passes.
  raised :
      (failing : Bool) (error : ResolveError) (rest : Result ResolveError (List String))
      {e : ResolveError}
      → (failing ≡ true → IsOffence skip add error)
      → (rest ≡ err e → IsOffence skip add e)
      → (if failing then err error else rest) ≡ err e
      → IsOffence skip add e
  raised true error rest here later h = subst (IsOffence skip add) (err_injective h) (here refl)
  raised false error rest here later h = later h

  -- An error of the resolver names phases, and only such as break its rule: names that are not
  -- orderable, phases that are both skipped and added, added ones that are not insertable, required
  -- ones that are skipped; or pairs of a phase that runs and one that it depends on and that does not.
  pub resolve-IsOffence :
      (force : Bool) {e : ResolveError} → resolve skip add force ≡ err e → IsOffence skip add e
  unfolding resolve IsOffence
  resolve-IsOffence force =
      raised (not (is_empty_list (without (skip ++ add) orderable)))
        (unknown_phase (sort_names text_before (without (skip ++ add) orderable))) _
        (λ b.
          sorted-AreNames (λ x. not (contains x orderable))
            (λ p. (contains p (skip ++ add) ≡ true) × (contains p orderable ≡ false)) (skip ++ add)
            (λ p k. (k.0, ground (arith, k.1))) (ground (arith, b)))
        (raised (not (is_empty_list (meet skip add)))
          (skip_add_conflict (sort_names text_before (meet skip add))) _
          (λ b.
            sorted-AreNames (λ x. contains x add)
              (λ p. (contains p skip ≡ true) × (contains p add ≡ true)) skip (λ p k. k)
              (ground (arith, b)))
          (raised (not (is_empty_list (without add insertable_names)))
            (not_insertable (sort_names text_before (without add insertable_names))) _
            (λ b.
              sorted-AreNames (λ x. not (contains x insertable_names))
                (λ p. (contains p add ≡ true) × (contains p insertable_names ≡ false)) add
                (λ p k. (k.0, ground (arith, k.1))) (ground (arith, b)))
            (raised (not force && not (is_empty_list (meet skip required_names)))
              (required_phase_skip (sort_names text_before (meet skip required_names)))
              (resolve_effective (effective_of skip add))
              (λ b.
                sorted-AreNames (λ x. contains x required_names)
                  (λ p. (contains p skip ≡ true) × (contains p required_names ≡ true)) skip
                  (λ p k. k) (ground (arith, b)))
              effective-IsOffence)))
