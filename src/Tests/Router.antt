-- ===== src/Tests/Router.antt =====
-- A table with one required provider, and the chain that it gives.
use agents_for_dummies.Base.{false, none, [], ◌∷◌, All}
use agents_for_dummies.Base.Dict.{Dict}
use agents_for_dummies.Router.{Profile, Table, pick_model_chain}
use agents_for_dummies.Router.Chain.{IsChosen, pick_model_chain-IsChosen}

abbrev pub catalog : Dict Profile
catalog =
    (
      "opus",
      record {
        vendor = "anthropic";
        provider = "claude";
        tier = "senior";
        tasks_good = "code" ∷ [];
        tasks_bad = [];
        status = "ok";
        cost_class = "paid";
        ctx_hint = 200_000;
      },
    )
    ∷ []

abbrev pub table : Table
table = record {
  required = "claude" ∷ [];
  optional = "openrouter" ∷ [];
  tiers = ("senior", ("claude", "opus" ∷ []) ∷ []) ∷ [];
  optional_allowed_tasks = [];
}

pick_model_chain-IsChosen_example :
    All
      (IsChosen table catalog "code" "senior" ("claude" ∷ []) false none)
      (pick_model_chain table catalog "code" "senior" ("claude" ∷ []) false none none)
pick_model_chain-IsChosen_example =
    pick_model_chain-IsChosen table catalog "code" "senior" ("claude" ∷ []) false none none
