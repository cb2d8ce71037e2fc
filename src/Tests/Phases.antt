-- ===== src/Tests/Phases.antt =====
-- Runs of the phase resolver, with a program that reads texts without spaces.
use agents_for_dummies.Base.{
  String, ◌≡◌, refl, true, false, List, [], ◌∷◌, All, contains, ◌↔◌, ◌==◌,
}
use agents_for_dummies.Base.Dict.{get}
use agents_for_dummies.Base.Text.{text_before}
use agents_for_dummies.Base.Result.{ok, err}
use agents_for_dummies.Phases.Resolve.{
  required_phase_skip, dep_break, skip_add_conflict, unknown_phase, order_of, canonical,
  effective_of, resolve_effective, resolve,
}
use agents_for_dummies.Phases.Cli.{Options, listed, rows_of, main}
use agents_for_dummies.Phases.Plans.{IsPlannable, plan_of}
use agents_for_dummies.Phases.Plannable.{resolve-IsPlannable_iff, resolve-required}
use agents_for_dummies.Phases.Offences.{IsOffence, resolve-IsOffence}
use agents_for_dummies.Phases.Printed.{main-plan_only}

abbrev short_plan : List String
short_plan = "specify" ∷ "plan" ∷ "tasks" ∷ "implement" ∷ "commit" ∷ []

abbrev skip_three : List String
skip_three = "analyze" ∷ "clarify" ∷ "checklist" ∷ []

skip_and_add : resolve skip_three ("commit" ∷ []) false ≡ ok short_plan
unfolding order_of get canonical effective_of resolve_effective resolve
skip_and_add = refl

broken :
    resolve ("tasks" ∷ []) [] false
    ≡ err (dep_break (("analyze", "tasks") ∷ ("implement", "tasks") ∷ []))
unfolding order_of get canonical effective_of resolve_effective resolve
broken = refl

required_hit : resolve ("implement" ∷ []) [] false ≡ err (required_phase_skip ("implement" ∷ []))
unfolding order_of get canonical effective_of resolve_effective resolve
required_hit = refl

both :
    resolve ("split" ∷ "commit" ∷ []) ("split" ∷ "commit" ∷ []) false
    ≡ err (skip_add_conflict ("commit" ∷ "split" ∷ []))
unfolding order_of get canonical effective_of resolve_effective resolve text_before
both = refl

misspelt : resolve ("analyse" ∷ []) [] false ≡ err (unknown_phase ("analyse" ∷ []))
unfolding order_of get canonical effective_of resolve_effective resolve text_before
misspelt = refl

list_all :
    listed
    ≡ "constitution" ∷ "specify" ∷ "clarify" ∷ "plan" ∷ "tasks" ∷ "tasks-to-issues" ∷ "split"
      ∷ "checklist" ∷ "analyze" ∷ "implement" ∷ "commit" ∷ []
unfolding listed order_of get
list_all = refl

resolve-IsPlannable_iff_example : (resolve skip_three ("commit" ∷ []) false ≡ ok short_plan) ↔ (
    IsPlannable skip_three ("commit" ∷ []) false
    × (short_plan ≡ plan_of skip_three ("commit" ∷ [])))
resolve-IsPlannable_iff_example =
    resolve-IsPlannable_iff skip_three ("commit" ∷ []) short_plan false

resolve-required_example :
    All (λ p. contains p short_plan ≡ true) ("specify" ∷ "plan" ∷ "tasks" ∷ "implement" ∷ [])
resolve-required_example = resolve-required skip_three ("commit" ∷ []) short_plan skip_and_add

abbrev options : Options
options = record {
  skip = "";
  add = "split";
  allow_required_skip = false;
  plan_only = true;
  json = true;
  list = false;
}

abbrev one_item : String → List String
one_item text = text ∷ []

abbrev unchanged_text : String → String
unchanged_text text = text

main-plan_only_example :
    All (λ row. ("implement" == row.0) ≡ false) (rows_of (main one_item unchanged_text options))
main-plan_only_example = main-plan_only one_item unchanged_text options refl refl

resolve-IsOffence_example :
    IsOffence ("tasks" ∷ []) [] (dep_break (("analyze", "tasks") ∷ ("implement", "tasks") ∷ []))
resolve-IsOffence_example = resolve-IsOffence ("tasks" ∷ []) [] false broken
