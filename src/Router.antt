-- ===== src/Router.antt =====
-- workerbees/router.py: the eligible models for a task, in the order in which they are tried.
pub mod Chain
pub mod Fits
use agents_for_dummies.Base.{
  ℕ, String, Bool, true, false, not, ◌&&◌, ◌||◌, Option, none, some, List, [], ◌∷◌, ◌++◌, ◌==◌,
  contains, if◌then◌else◌,
}
use agents_for_dummies.Base.Dict.{Dict, get}

pub record Route : Type 0 where
  pub provider : String
  pub model : String
  pub tier : String
  pub cmd_kind : String

-- An entry of models.json.
pub record Profile : Type 0 where
  pub vendor : String
  pub provider : String
  pub tier : String
  pub tasks_good : List String
  pub tasks_bad : List String
  pub status : String
  pub cost_class : String
  pub ctx_hint : ℕ

-- The models of a provider in a tier of routing.json; one name is a list of one.
pub record Table : Type 0 where
  pub required : List String
  pub optional : List String
  pub tiers : Dict (Dict (List String))
  pub optional_allowed_tasks : List String

-- chain[0] if chain else None
abbrev pub first_of_routes : List Route → Option Route
first_of_routes [] = none
first_of_routes (r ∷ rs) = some r

abbrev pub auto_free : String
auto_free = "openrouter/auto:free"

module _ (table : Table) (catalog : Dict Profile) where
  unfoldable pub eligible : String → String → Bool → Bool
  eligible model task require_good = elim (get model catalog) [
    | none ↦ false
    | some profile ↦
        if profile.status == "unavailable"
        then false
        else if contains task profile.tasks_bad
        then false
        else not require_good || contains task profile.tasks_good
  ]

  unfoldable pub named_route : String → String → String → String × Profile → Bool
  unfolding eligible
  named_route provider task tier (model, profile) =
      not (model == auto_free)
      && (profile.provider == provider)
      && (profile.tier == tier)
      && eligible model task true

  unfoldable pub named_routes : String → String → String → List (String × Profile) → List Route
  unfolding named_route
  named_routes provider task tier [] = []
  named_routes provider task tier (entry ∷ rest) =
      let more = named_routes provider task tier rest in
      if named_route provider task tier entry
      then record { provider = provider; model = entry.0; tier = tier; cmd_kind = "http" } ∷ more
      else more

  unfoldable pub configured_models : String → String → List String
  configured_models provider tier = elim (get tier table.tiers) [
    | none ↦ []
    | some providers ↦ elim (get provider providers) [ none ↦ [] | some models ↦ models ]
  ]

  unfoldable pub configured_routes : String → String → String → List String → List Route
  configured_routes provider task tier [] = []
  configured_routes provider task tier (model ∷ rest) =
      let more = configured_routes provider task tier rest in
      if not (model == "") && eligible model task false
      then record {
        provider = provider;
        model = model;
        tier = tier;
        cmd_kind = if contains provider table.required then "cli" else "http";
      }
        ∷ more
      else more

  unfoldable pub provider_routes : String → String → String → List Route
  unfolding named_routes configured_models configured_routes
  provider_routes provider task tier =
      if provider == "openrouter"
      then named_routes provider task tier catalog
        ++ (if eligible auto_free task true
            then record { provider = provider; model = auto_free; tier = tier; cmd_kind = "http" }
              ∷ []
            else [])
      else configured_routes provider task tier (configured_models provider tier)

  -- order.remove(provider)
  remove_first : String → List String → List String
  remove_first p [] = []
  remove_first p (q ∷ qs) = if q == p then qs else q ∷ remove_first p qs

  unfoldable pub provider_order : Option String → List String
  unfolding remove_first
  provider_order none = table.required ++ table.optional
  provider_order (some p) =
      let order = table.required ++ table.optional in
      if contains p order then p ∷ remove_first p order else order

  -- Whether the loop passes the provider over.
  unfoldable pub skipped : String → List String → Bool → Option String → String → Bool
  skipped task available workspace_authorized exclude_provider provider =
      not (contains provider available)
      || (elim exclude_provider [ none ↦ false | some p ↦ provider == p ])
      || (contains provider table.optional
          && (not workspace_authorized || not (contains task table.optional_allowed_tasks)))

  unfoldable pub chain_over :
      String → String → List String → Bool → Option String → List String → List Route
  unfolding skipped
  chain_over task tier available authorized exclude [] = []
  chain_over task tier available authorized exclude (p ∷ ps) =
      let more = chain_over task tier available authorized exclude ps in
      if skipped task available authorized exclude p
      then more
      else provider_routes p task tier ++ more

  unfoldable pub pick_model_chain :
      String → String → List String → Bool → Option String → Option String → List Route
  unfolding provider_order chain_over
  pick_model_chain task tier available authorized exclude prefer = elim (get tier table.tiers) [
    | none ↦ []
    | some _ ↦ chain_over task tier available authorized exclude (provider_order prefer)
  ]

  unfoldable pub pick_model :
      String → String → List String → Bool → Option String → Option String → Option Route
  pick_model task tier available authorized exclude prefer =
      first_of_routes (pick_model_chain task tier available authorized exclude prefer)
