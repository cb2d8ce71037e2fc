-- ===== src/Phases/Plans.antt =====
-- The plans that the resolver gives, and what its errors name.
use agents_for_dummies.Base.{
  String, ◌≡◌, refl, Bool, true, false, not, ◌&&◌, ◌||◌, List, [], ◌∷◌, ◌++◌, contains, keep_if, ap,
  ◌∙◌, arith, eq_refl, String-cases, Bool-cases, inl, inr, ◌⊎◌, ◌↔◌, All, All-append,
}
use agents_for_dummies.Base.Dict.{get}
use agents_for_dummies.Base.Result.{ok}
use agents_for_dummies.Phases.Table.{defaults, insertable_names, required_names}
use agents_for_dummies.Phases.Resolve.{
  without, meet, is_empty_list, order_of, canonical, deps_of, pairs_with, violations_of, orderable,
  effective_of, resolve_effective, resolve,
}
use agents_for_dummies.Phases.Order.{ascends, sort_names-keep_if}

-- The orderable phases in their order.
abbrev pub all_phases : List String
all_phases =
    "constitution" ∷ "specify" ∷ "clarify" ∷ "plan" ∷ "tasks" ∷ "tasks-to-issues" ∷ "split"
    ∷ "checklist" ∷ "analyze" ∷ "implement" ∷ "commit" ∷ []

module _ (skip add : List String) where
  -- The phase runs: it is a default one that is not skipped, or it is added.
  abbrev pub is_effective : String → Bool
  is_effective p = (contains p defaults && not (contains p skip)) || contains p add

  unfoldable pub plan_of : List String
  plan_of = keep_if is_effective all_phases

  pub record IsPlannable (force : Bool) : Type 0 where
    pub known : All (λ p. contains p orderable ≡ true) (skip ++ add)
    pub disjoint : All (λ p. contains p add ≡ false) skip
    pub addable : All (λ p. contains p insertable_names ≡ true) add
    pub required : (force ≡ true) ⊎ All (λ p. contains p required_names ≡ false) skip
    pub closed : All (λ p. All (λ d. is_effective d ≡ true) (deps_of p)) plan_of

module _ {A : Type 0} where
  pub empty_iff :
      (q : A → Bool) (xs : List A)
      → (is_empty_list (keep_if q xs) ≡ true) ↔ All (λ x. q x ≡ false) xs
  empty_iff q [] = (λ h. tt, λ h. refl)
  empty_iff q (x ∷ xs) =
      (λ h. ground (arith, (empty_iff q xs).0), λ h. ground (arith, (empty_iff q xs).1))

  keep_if-eq : (q r : A → Bool) (xs : List A) → ((x : A) → q x ≡ r x) → keep_if q xs ≡ keep_if r xs
  keep_if-eq q r [] h = refl
  keep_if-eq q r (x ∷ xs) h = ground (arith, h x, keep_if-eq q r xs h)

pub contains-append :
    (p : String) (xs ys : List String) → contains p (xs ++ ys) ≡ (contains p xs || contains p ys)
contains-append p [] ys = refl
contains-append p (x ∷ xs) ys = ground (arith, contains-append p xs ys)

pub contains-keep_if :
    (p : String) (q : String → Bool) (xs : List String)
    → contains p (keep_if q xs) ≡ (contains p xs && q p)
contains-keep_if p q [] = refl
contains-keep_if p q (x ∷ xs) = elim (String-cases p x) [
  | inl e ↦ rw e (ground (arith, eq_refl x, contains-keep_if p q xs))
  | inr e ↦ ground (arith, contains-keep_if p q xs)
]

orderable-all_phases : (p : String) → contains p orderable ≡ true → contains p all_phases ≡ true
orderable-all_phases p h = ground arith

All-without : (P : String → Type 0) (xs ys : List String) → All P xs → All P (without xs ys)
All-without P [] ys h = tt
All-without P (x ∷ xs) ys h = elim (Bool-cases (contains x ys)) [
  | inl e ↦ rw e (All-without P xs ys h.1)
  | inr e ↦ rw e (h.0, All-without P xs ys h.1)
]

pub All-map {κ} :
    (P Q : String → Type κ) (xs : List String) → ((x : String) → P x → Q x) → All P xs → All Q xs
All-map P Q [] f h = tt
All-map P Q (x ∷ xs) f h = (f x h.0, All-map P Q xs f h.1)

All-right {κ} : (P : String → Type κ) (xs ys : List String) → All P (xs ++ ys) → All P ys
All-right P [] ys h = h
All-right P (x ∷ xs) ys h = All-right P xs ys h.1

All-left {κ} : (P : String → Type κ) (xs ys : List String) → All P (xs ++ ys) → All P xs
All-left P [] ys h = tt
All-left P (x ∷ xs) ys h = (h.0, All-left P xs ys h.1)

defaults_known : All (λ p. contains p all_phases ≡ true) defaults
defaults_known = (refl, (refl, (refl, (refl, (refl, (refl, (refl, tt)))))))

all_phases_ascend : ascends order_of 0 all_phases ≡ true
unfolding order_of get
all_phases_ascend = refl

module _ (skip add : List String) where
  pub contains-effective_of :
      (p : String) → contains p (effective_of skip add) ≡ is_effective skip add p
  unfolding effective_of
  contains-effective_of p =
      contains-append p (without defaults skip) add
      ∙ ap (λ b. b || contains p add) (contains-keep_if p (λ x. not (contains x skip)) defaults)

  -- The effective set, sorted, is the plan.
  pub canonical-plan_of :
      All (λ p. contains p orderable ≡ true) (skip ++ add)
      → canonical (effective_of skip add) ≡ plan_of skip add
  unfolding canonical plan_of effective_of
  canonical-plan_of known =
      sort_names-keep_if order_of all_phases (effective_of skip add) all_phases_ascend (
        All-append (λ p. contains p all_phases ≡ true) (without defaults skip) add
          (All-without (λ p. contains p all_phases ≡ true) defaults skip defaults_known)
          (All-map _ _ add orderable-all_phases
            (All-right (λ p. contains p orderable ≡ true) skip add known)))
      ∙ keep_if-eq _ _ all_phases contains-effective_of

pairs_empty :
    (p : String) (effective ds : List String)
    → (is_empty_list (pairs_with p (without ds effective)) ≡ true)
      ↔ All (λ d. contains d effective ≡ true) ds
pairs_empty p effective [] = (λ h. tt, λ h. refl)
pairs_empty p effective (d ∷ ds) = elim (Bool-cases (contains d effective)) [
  | inl e ↦ (
    λ h. (e, (pairs_empty p effective ds).0 (ground arith)),
    λ h. ground (arith, (pairs_empty p effective ds).1 h.1),
  )
  | inr e ↦ (λ h. ground arith, λ h. ground arith)
]

empty-append {ℓ} :
    {A : Type ℓ} (xs ys : List A)
    → is_empty_list (xs ++ ys) ≡ (is_empty_list xs && is_empty_list ys)
empty-append [] ys = refl
empty-append (x ∷ xs) ys = refl

pub violations_empty :
    (effective ps : List String)
    → (is_empty_list (violations_of effective ps) ≡ true)
      ↔ All (λ p. All (λ d. contains d effective ≡ true) (deps_of p)) ps
violations_empty effective [] = (λ h. tt, λ h. refl)
violations_empty effective (p ∷ ps) =
    let here = pairs_empty p effective (deps_of p) in
    let rest = violations_empty effective ps in
    let both =
      empty-append (pairs_with p (without (deps_of p) effective)) (violations_of effective ps) in
    (
      λ h. (here.0 (ground (arith, both)), rest.0 (ground (arith, both))),
      λ h. ground (arith, both, here.1 h.0, rest.1 h.1),
    )

-- What `resolve` returns is what its last two steps return, once the four tests pass.
pub resolve-eq_ok :
    (skip add : List String) (force : Bool) {plan : List String}
    → (resolve skip add force ≡ ok plan) ↔ (
        (is_empty_list (without (skip ++ add) orderable) ≡ true)
        × (is_empty_list (meet skip add) ≡ true)
        × (is_empty_list (without add insertable_names) ≡ true)
        × ((force ≡ true) ⊎ (is_empty_list (meet skip required_names) ≡ true))
        × (resolve_effective (effective_of skip add) ≡ ok plan))
unfolding resolve
resolve-eq_ok skip add force = (
  λ h. (
    ground arith,
    ground arith,
    ground arith,
    elim (Bool-cases force) [ inl e ↦ inl e | inr e ↦ inr (ground arith) ],
    ground arith,
  ),
  λ h. ground arith,
)
