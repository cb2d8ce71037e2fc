-- ===== src/Phases/Printed.antt =====
-- What a run of resolve_phases.py prints.
use agents_for_dummies.Base.{
  All-at, String, ◌≡◌, refl, Bool, true, false, List, [], ◌∷◌, ◌++◌, map, contains, ◌==◌, arith, ap,
  ◌∙◌, All,
}
use agents_for_dummies.Base.Result.{Result, ok, err}
use agents_for_dummies.Phases.Resolve.{resolve, ResolveError}
use agents_for_dummies.Phases.Plans.{contains-append}
use agents_for_dummies.Phases.Plannable.{resolve-IsPlannable_iff, contains-plan_of}
use agents_for_dummies.Phases.Cli.{Options, rows_of, row_of, report, parse_csv, main}

-- A phase that is skipped is not in the plan.
skipped-plan :
    (skip add plan : List String) (force : Bool) (p : String)
    → resolve skip add force ≡ ok plan
    → contains p skip ≡ true
    → contains p plan ≡ false
skipped-plan skip add plan force p h c =
    let e = (resolve-IsPlannable_iff skip add plan force).0 h in
    let apart = All-at (λ x. contains x add ≡ false) p skip e.0.disjoint c in
    ap (contains p) e.1 ∙ contains-plan_of skip add p ∙ ground (arith, apart)

row_names :
    (p : String) (names : List String)
    → contains p names ≡ false
    → All (λ row. (p == row.0) ≡ false) (map row_of names)
row_names p [] h = tt
row_names p (x ∷ xs) h = (ground arith, row_names p xs (ground arith))

report_names :
    (p : String) (json : Bool) (result : Result ResolveError (List String))
    → ((plan : List String) → result ≡ ok plan → contains p plan ≡ false)
    → All (λ row. (p == row.0) ≡ false) (rows_of (report json result))
report_names p json (err e) absent = tt
report_names p true (ok plan) absent = row_names p plan (absent plan refl)
report_names p false (ok plan) absent = row_names p plan (absent plan refl)

module _ (split_at_commas : String → List String) (strip : String → String) where
  -- A run with --plan-only, without --list, prints no row for the phase implement.
  pub main-plan_only :
      (args : Options)
      → args.plan_only ≡ true
      → args.list ≡ false
      → All (λ row. ("implement" == row.0) ≡ false) (rows_of (main split_at_commas strip args))
  unfolding main
  main-plan_only args planning no_list = rw planning (
      rw no_list (
        report_names "implement" args.json _ (λ plan h.
          skipped-plan (parse_csv split_at_commas strip args.skip ++ ("implement" ∷ [])) _ plan _
            "implement" h
            (contains-append "implement" (parse_csv split_at_commas strip args.skip)
                ("implement" ∷ [])
              ∙ ground arith))))
