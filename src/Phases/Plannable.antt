-- ===== src/Phases/Plannable.antt =====
-- When the resolver gives a plan, and which.
use agents_for_dummies.Base.{
  All-at, String, ◌≡◌, refl, Bool, true, false, not, ◌&&◌, List, [], ◌∷◌, ◌++◌, contains, subst,
  sym, ◌∙◌, arith, Bool-cases, inl, inr, ◌↔◌, All,
}
use agents_for_dummies.Base.Dict.{get}
use agents_for_dummies.Base.Result.{ok}
use agents_for_dummies.Phases.Table.{insertable_names, required_names}
use agents_for_dummies.Phases.Resolve.{
  without, is_empty_list, canonical, deps_of, violations_of, orderable, effective_of,
  resolve_effective, resolve,
}
use agents_for_dummies.Phases.Plans.{
  all_phases, is_effective, plan_of, IsPlannable, empty_iff, contains-keep_if, All-map,
  contains-effective_of, canonical-plan_of, violations_empty, resolve-eq_ok,
}

without_empty :
    (xs ys : List String)
    → (is_empty_list (without xs ys) ≡ true) ↔ All (λ p. contains p ys ≡ true) xs
without_empty xs ys =
    let here = empty_iff (λ x. not (contains x ys)) xs in
    (
      λ h. All-map _ _ xs (λ x e. ground (arith, e)) (here.0 h),
      λ h. here.1 (All-map _ _ xs (λ x e. ground (arith, e)) h),
    )

resolve_effective-sorted :
    (effective sorted : List String) {plan : List String}
    → canonical effective ≡ sorted
    → (resolve_effective effective ≡ ok plan)
      ↔ ((is_empty_list (violations_of effective sorted) ≡ true) × (plan ≡ sorted))
unfolding resolve_effective
resolve_effective-sorted effective sorted {plan} same =
    subst
      (λ l.
        (resolve_effective effective ≡ ok plan)
        ↔ ((is_empty_list (violations_of effective l) ≡ true) × (plan ≡ l)))
      same (λ h. (ground arith, ground arith), λ h. ground arith)

module _ (skip add : List String)
    (known : All (λ p. contains p orderable ≡ true) (skip ++ add)) where
  IsClosed : Type 0
  IsClosed = All (λ p. All (λ d. is_effective skip add d ≡ true) (deps_of p)) (plan_of skip add)

  closed_iff :
      (is_empty_list (violations_of (effective_of skip add) (plan_of skip add)) ≡ true) ↔ IsClosed
  unfolding IsClosed
  closed_iff =
      let here = violations_empty (effective_of skip add) (plan_of skip add) in
      let same = contains-effective_of skip add in
      (
        λ h.
            All-map _ _ (plan_of skip add)
              (λ p ds. All-map _ _ (deps_of p) (λ d e. sym (same d) ∙ e) ds) (here.0 h),
        λ h. here.1 (
            All-map _ _ (plan_of skip add) (λ p ds. All-map _ _ (deps_of p) (λ d e. same d ∙ e) ds)
              h),
      )

  resolve_effective-eq_ok :
      {plan : List String}
      → (resolve_effective (effective_of skip add) ≡ ok plan)
        ↔ (IsClosed × (plan ≡ plan_of skip add))
  resolve_effective-eq_ok =
      let here =
        resolve_effective-sorted (effective_of skip add) (plan_of skip add)
          (canonical-plan_of skip add known) in
      (λ h. (closed_iff.0 (here.0 h).0, (here.0 h).1), λ h. here.1 (closed_iff.1 h.0, h.1))

-- The resolver returns a plan for the phases that are skipped and added if and only if every name
-- is orderable, none is both skipped and added, only insertable ones are added, required ones are
-- skipped by force only, and no phase that runs lacks one that it depends on; the plan is then
-- the list of the phases that run, in their order.
pub resolve-IsPlannable_iff :
    (skip add plan : List String) (force : Bool)
    → (resolve skip add force ≡ ok plan) ↔ (IsPlannable skip add force × (plan ≡ plan_of skip add))
unfolding IsClosed
resolve-IsPlannable_iff skip add plan force =
    let gates = resolve-eq_ok skip add force {plan = plan} in
    let names = without_empty (skip ++ add) orderable in
    let apart = empty_iff (λ x. contains x add) skip in
    let added = without_empty add insertable_names in
    let kept = empty_iff (λ x. contains x required_names) skip in
    (
      λ h.
          let g = gates.0 h in
          let known = names.0 g.0 in
          let e = (resolve_effective-eq_ok skip add known).0 g.4 in
          (
            record {
              known = known;
              disjoint = apart.0 g.1;
              addable = added.0 g.2;
              required = elim g.3 [ inl f ↦ inl f | inr r ↦ inr (kept.0 r) ];
              closed = e.0;
            },
            e.1,
          ),
      λ h.
          let p = h.0 in
          gates.1 (
            names.1 p.known,
            apart.1 p.disjoint,
            added.1 p.addable,
            elim p.required [ inl f ↦ inl f | inr r ↦ inr (kept.1 r) ],
            (resolve_effective-eq_ok skip add p.known).1 (p.closed, h.1),
          ),
    )

not_skipped :
    (p : String) (names skip : List String)
    → All (λ x. contains x names ≡ false) skip
    → contains p names ≡ true
    → contains p skip ≡ false
not_skipped p names skip h c = elim (Bool-cases (contains p skip)) [
  | inl e ↦ absurd (ground (arith, All-at (λ x. contains x names ≡ false) p skip h e))
  | inr e ↦ e
]

pub contains-plan_of :
    (skip add : List String) (p : String)
    → contains p (plan_of skip add) ≡ (contains p all_phases && is_effective skip add p)
unfolding plan_of
contains-plan_of skip add p = contains-keep_if p (is_effective skip add) all_phases

required_kept :
    (skip add : List String)
    → IsPlannable skip add false
    → All (λ p. contains p required_names ≡ false) skip
required_kept skip add h = elim h.required [ inl f ↦ absurd (ground arith) | inr r ↦ r ]

-- A plan that the resolver gives without force runs the phases specify, plan, tasks and implement.
pub resolve-required :
    (skip add plan : List String)
    → resolve skip add false ≡ ok plan
    → All (λ p. contains p plan ≡ true) ("specify" ∷ "plan" ∷ "tasks" ∷ "implement" ∷ [])
unfolding get
resolve-required skip add plan h =
    let e = (resolve-IsPlannable_iff skip add plan false).0 h in
    let kept = required_kept skip add e.0 in
    let runs = contains-plan_of skip add in
    let specify_runs =
      runs "specify" ∙ ground (arith, not_skipped "specify" required_names skip kept refl) in
    let implement_runs =
      runs "implement" ∙ ground (arith, not_skipped "implement" required_names skip kept refl) in
    let before = All-at _ "implement" (plan_of skip add) e.0.closed implement_runs in
    subst (λ l. All (λ p. contains p l ≡ true) ("specify" ∷ "plan" ∷ "tasks" ∷ "implement" ∷ []))
      (sym e.1)
      (specify_runs, (runs "plan" ∙ before.0, (runs "tasks" ∙ before.1.0, (implement_runs, tt))))
