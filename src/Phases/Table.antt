-- ===== src/Phases/Table.antt =====
-- phase_registry.py: the table of the phases.
use agents_for_dummies.Base.{ℕ, String, Bool, true, false, Option, none, some, List, [], ◌∷◌}
use agents_for_dummies.Base.Dict.{Dict}

-- `Phase`; the phases that cannot be ordered have `none` in most fields.
pub record Phase : Type 0 where
  pub order : Option ℕ
  pub default : Option Bool
  pub insertable : Option Bool
  pub required : Option Bool
  pub interactive : Option String
  pub deps : List String
  pub agent : String
  pub model : String
  pub effort : String
  pub caveman : String
  pub skill_dir : Option String

abbrev constitution_phase : Phase
constitution_phase = record {
  order = some 5;
  default = some false;
  insertable = some true;
  required = some false;
  interactive = some "if-principles-unspecified";
  deps = [];
  agent = "main session";
  model = "session";
  effort = "high";
  caveman = "none";
  skill_dir = some "speckit-constitution";
}

abbrev specify_phase : Phase
specify_phase = record {
  order = some 10;
  default = some true;
  insertable = some false;
  required = some true;
  interactive = some "no";
  deps = [];
  agent = "main session";
  model = "session";
  effort = "high";
  caveman = "none";
  skill_dir = some "speckit-specify";
}

abbrev clarify_phase : Phase
clarify_phase = record {
  order = some 20;
  default = some true;
  insertable = some false;
  required = some false;
  interactive = some "yes (human gate)";
  deps = "specify" ∷ [];
  agent = "main session";
  model = "session";
  effort = "session";
  caveman = "light";
  skill_dir = some "speckit-clarify";
}

abbrev plan_phase : Phase
plan_phase = record {
  order = some 30;
  default = some true;
  insertable = some false;
  required = some false;
  interactive = some "no";
  deps = "specify" ∷ [];
  agent = "Plan";
  model = "opus/sonnet";
  effort = "high";
  caveman = "dispatch max · plan.md none";
  skill_dir = some "speckit-plan";
}

abbrev tasks_phase : Phase
tasks_phase = record {
  order = some 40;
  default = some true;
  insertable = some false;
  required = some false;
  interactive = some "no";
  deps = "plan" ∷ [];
  agent = "general-purpose";
  model = "sonnet";
  effort = "medium";
  caveman = "dispatch max · tasks.md none";
  skill_dir = some "speckit-tasks";
}

abbrev tasks_to_issues_phase : Phase
tasks_to_issues_phase = record {
  order = some 42;
  default = some false;
  insertable = some true;
  required = some false;
  interactive = some "no";
  deps = "tasks" ∷ [];
  agent = "general-purpose";
  model = "haiku";
  effort = "low";
  caveman = "dispatch max · issue light";
  skill_dir = some "speckit-taskstoissues";
}

abbrev split_phase : Phase
split_phase = record {
  order = some 44;
  default = some false;
  insertable = some true;
  required = some false;
  interactive = some "no";
  deps = "specify" ∷ [];
  agent = "general-purpose";
  model = "haiku";
  effort = "low";
  caveman = "dispatch max · issue light";
  skill_dir = some "speckit-split";
}

abbrev checklist_phase : Phase
checklist_phase = record {
  order = some 50;
  default = some true;
  insertable = some false;
  required = some false;
  interactive = some "no";
  deps = "specify" ∷ [];
  agent = "general-purpose";
  model = "haiku";
  effort = "low";
  caveman = "dispatch max · checklist none";
  skill_dir = some "speckit-checklist";
}

abbrev analyze_phase : Phase
analyze_phase = record {
  order = some 60;
  default = some true;
  insertable = some false;
  required = some false;
  interactive = some "no";
  deps = "specify" ∷ "plan" ∷ "tasks" ∷ [];
  agent = "adversarial-reviewer";
  model = "sonnet/opus";
  effort = "high";
  caveman = "dispatch max · report max";
  skill_dir = some "speckit-analyze";
}

abbrev implement_phase : Phase
implement_phase = record {
  order = some 70;
  default = some true;
  insertable = some false;
  required = some true;
  interactive = some "no";
  deps = "plan" ∷ "tasks" ∷ [];
  agent = "cavecrew-builder (preset)";
  model = "haiku";
  effort = "medium (esc. high if broad)";
  caveman = "dispatch max · code normal";
  skill_dir = some "speckit-implement";
}

abbrev commit_phase : Phase
commit_phase = record {
  order = some 80;
  default = some false;
  insertable = some true;
  required = some false;
  interactive = some "no";
  deps = "implement" ∷ [];
  agent = "main session";
  model = "session";
  effort = "low";
  caveman = "caveman-commit";
  skill_dir = some "speckit-git-commit";
}

abbrev resolve_issues_phase : Phase
resolve_issues_phase = record {
  order = none;
  default = none;
  insertable = none;
  required = none;
  interactive = none;
  deps = [];
  agent = "main / cavecrew-builder";
  model = "sonnet";
  effort = "medium";
  caveman = "dispatch max · edits none";
  skill_dir = none;
}

abbrev summary_phase : Phase
summary_phase = record {
  order = none;
  default = none;
  insertable = none;
  required = none;
  interactive = none;
  deps = [];
  agent = "main (nested-notes)";
  model = "session";
  effort = "low";
  caveman = "light";
  skill_dir = none;
}

abbrev illustrate_phase : Phase
illustrate_phase = record {
  order = none;
  default = none;
  insertable = none;
  required = none;
  interactive = none;
  deps = [];
  agent = "main (accelerate)";
  model = "session";
  effort = "low";
  caveman = "n/a";
  skill_dir = none;
}

abbrev pub registry : Dict Phase
registry =
    ("constitution", constitution_phase)
    ∷ ("specify", specify_phase)
    ∷ ("clarify", clarify_phase)
    ∷ ("plan", plan_phase)
    ∷ ("tasks", tasks_phase)
    ∷ ("tasks-to-issues", tasks_to_issues_phase)
    ∷ ("split", split_phase)
    ∷ ("checklist", checklist_phase)
    ∷ ("analyze", analyze_phase)
    ∷ ("implement", implement_phase)
    ∷ ("commit", commit_phase)
    ∷ ("resolve-issues", resolve_issues_phase)
    ∷ ("summary", summary_phase)
    ∷ ("illustrate", illustrate_phase)
    ∷ []

abbrev pub defaults : List String
defaults = "specify" ∷ "clarify" ∷ "plan" ∷ "tasks" ∷ "checklist" ∷ "analyze" ∷ "implement" ∷ []

abbrev pub insertable_names : List String
insertable_names = "constitution" ∷ "tasks-to-issues" ∷ "split" ∷ "commit" ∷ []

abbrev pub required_names : List String
required_names = "specify" ∷ "implement" ∷ []
