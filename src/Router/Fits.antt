-- ===== src/Router/Fits.antt =====
-- What every route of a provider satisfies: `provider_routes` and `eligible`.
use mathlib.Core.List.{Memᴰ}
use mathlib.Core.List.Memᴰ.{head, tail}
use agents_for_dummies.Base.{
  String, ◌≡◌, refl, Bool, true, false, Option, some, List, [], ◌∷◌, ◌==◌, contains, if◌then◌else◌,
  All, All-append, arith, eq_iff, ◌⊎◌, ◌∙◌, eq_refl, not, ◌&&◌, ◌||◌, none, inl, inr, Bool-cases,
  Option-cases,
}
use agents_for_dummies.Base.Dict.{Dict, get}
use agents_for_dummies.Router.{
  Route, Profile, Table, auto_free, eligible, named_route, named_routes, configured_models,
  configured_routes, provider_routes,
}
use agents_for_dummies.Base.{sym}

-- The model has an entry that is not unavailable, and the task is not one that it is bad at.
abbrev pub CanDo : Dict Profile → String → String → Type 0
CanDo catalog model task =
    (profile : Profile) × (get model catalog ≡ some profile)
    × ((profile.status == "unavailable") ≡ false)
    × (contains task profile.tasks_bad ≡ false)

-- The task is one that the model is good at.
abbrev pub IsGoodAt : Dict Profile → String → String → Type 0
IsGoodAt catalog model task =
    (profile : Profile) × (get model catalog ≡ some profile)
    × (contains task profile.tasks_good ≡ true)

module _ (table : Table) (catalog : Dict Profile) where
  fits : Bool → String → Option Profile → Bool
  fits require_good task none = false
  fits require_good task (some profile) =
      if profile.status == "unavailable"
      then false
      else if contains task profile.tasks_bad
      then false
      else not require_good || contains task profile.tasks_good

  eligible-fits :
      (model task : String) (require_good : Bool)
      → eligible table catalog model task require_good ≡ fits require_good task (get model catalog)
  unfolding eligible fits
  eligible-fits model task require_good = elim (Option-cases (get model catalog)) [
    | inl e ↦ rw (e, eligible) refl
    | inr (p, e) ↦ rw (e, eligible) refl
  ]

  fits-CanDo :
      (model task : String) (require_good : Bool) (found : Option Profile)
      → get model catalog ≡ found
      → fits require_good task found ≡ true
      → CanDo catalog model task
  unfolding fits
  fits-CanDo model task require_good none at h = absurd (ground arith)
  fits-CanDo model task require_good (some p) at h = (p, at, ground arith, ground arith)

  fits-IsGoodAt :
      (model task : String) (found : Option Profile)
      → get model catalog ≡ found
      → fits true task found ≡ true
      → IsGoodAt catalog model task
  unfolding fits
  fits-IsGoodAt model task none at h = absurd (ground arith)
  fits-IsGoodAt model task (some p) at h = (p, at, ground arith)

  pub eligible-CanDo :
      (model task : String) (require_good : Bool)
      → eligible table catalog model task require_good ≡ true
      → CanDo catalog model task
  eligible-CanDo model task require_good h =
      fits-CanDo model task require_good _ refl (sym (eligible-fits model task require_good) ∙ h)

  eligible-IsGoodAt :
      (model task : String)
      → eligible table catalog model task true ≡ true
      → IsGoodAt catalog model task
  eligible-IsGoodAt model task h =
      fits-IsGoodAt model task _ refl (sym (eligible-fits model task true) ∙ h)

  pub CanDo-eligible :
      (model task : String)
      → CanDo catalog model task
      → eligible table catalog model task false ≡ true
  unfolding fits
  CanDo-eligible model task (p, at, fine, not_bad) =
      eligible-fits model task false ∙ rw at (rw fine (rw not_bad refl))

module _ (table : Table) (catalog : Dict Profile) (task tier : String) where
  -- The model has an entry of the provider and of the tier, and is good at the task.
  abbrev pub IsCatalogued : Route → Type 0
  IsCatalogued r =
      (profile : Profile) × Memᴰ (r.model, profile) catalog
      × (profile.provider ≡ r.provider)
      × (profile.tier ≡ tier)
      × IsGoodAt catalog r.model task

  -- The table lists the model for the provider in the tier.
  abbrev pub IsConfigured : Route → Type 0
  IsConfigured r =
      (providers : Dict (List String)) × (models : List String) × (get tier table.tiers
        ≡ some providers)
      × (get r.provider providers ≡ some models)
      × (contains r.model models ≡ true)

  -- Where the model of a route comes from: for openrouter, the catalog or the automatic choice of a
  -- free model; for another provider, the table.
  abbrev pub IsSourced : Route → Type 0
  IsSourced r =
      ((r.provider ≡ "openrouter") × IsCatalogued r)
      ⊎ ((r.provider ≡ "openrouter") × (r.model ≡ auto_free) × IsGoodAt catalog auto_free task)
      ⊎ (((r.provider == "openrouter") ≡ false) × IsConfigured r)

  -- A route to a model that may do the task, from where the models of the tier are listed.
  abbrev pub IsFit : String → Route → Type 0
  IsFit provider r =
      (r.provider ≡ provider) × (r.tier ≡ tier) × CanDo catalog r.model task × IsSourced r

  contains_more :
      (m x : String) (xs : List String) → contains m xs ≡ true → contains m (x ∷ xs) ≡ true
  contains_more m x xs h = ground arith

  named_at :
      (provider model : String) (profile : Profile)
      → provider ≡ "openrouter"
      → Memᴰ (model, profile) catalog
      → named_route table catalog provider task tier (model, profile) ≡ true
      → IsFit provider
          (record { provider = provider; model = model; tier = tier; cmd_kind = "http" })
  unfolding named_route
  named_at provider model profile routed m h =
      let good : eligible table catalog model task true ≡ true = ground (arith, h) in
      (
        refl,
        refl,
        eligible-CanDo table catalog model task true good,
        inl (
          routed,
          (
            profile,
            m,
            (eq_iff profile.provider provider).0 (ground (arith, h)),
            (eq_iff profile.tier tier).0 (ground (arith, h)),
            eligible-IsGoodAt table catalog model task good,
          ),
        ),
      )

  named-IsFit :
      (provider : String) (entries : List (String × Profile))
      → provider ≡ "openrouter"
      → ((e : String × Profile) → Memᴰ e entries → Memᴰ e catalog)
      → All (IsFit provider) (named_routes table catalog provider task tier entries)
  unfolding named_routes
  named-IsFit provider [] routed inside = tt
  named-IsFit provider ((model, profile) ∷ rest) routed inside =
      let more = named-IsFit provider rest routed (λ e m. inside e (tail m)) in
      elim (Bool-cases (named_route table catalog provider task tier (model, profile))) [
        | inl h ↦
            rw h
              (named_at provider model profile routed (inside (model, profile) (head refl)) h, more)
        | inr h ↦ rw h more
      ]

  Listed : String → String → Type 0
  Listed provider model =
      (providers : Dict (List String)) × (models : List String) × (get tier table.tiers
        ≡ some providers)
      × (get provider providers ≡ some models)
      × (contains model models ≡ true)

  configured-IsFit :
      (provider : String) (models : List String)
      → (provider == "openrouter") ≡ false
      → ((model : String) → contains model models ≡ true → Listed provider model)
      → All (IsFit provider) (configured_routes table catalog provider task tier models)
  unfolding configured_routes Listed
  configured-IsFit provider [] closed listed = tt
  configured-IsFit provider (model ∷ rest) closed listed =
      let more =
        configured-IsFit provider rest closed (λ m h. listed m (contains_more m model rest h)) in
      elim (Bool-cases (not (model == "") && eligible table catalog model task false)) [
        | inl h ↦ rw h (
          (
            refl,
            refl,
            eligible-CanDo table catalog model task false (ground (arith, h)),
            inr (inr (closed, listed model (ground (arith, eq_refl model)))),
          ),
          more,
        )
        | inr h ↦ rw h more
      ]

  auto_free-IsFit :
      (provider : String)
      → provider ≡ "openrouter"
      → All (IsFit provider) (
          if eligible table catalog auto_free task true
          then record { provider = provider; model = auto_free; tier = tier; cmd_kind = "http" }
            ∷ []
          else [])
  auto_free-IsFit provider routed = elim (Bool-cases (eligible table catalog auto_free task true)) [
    | inl h ↦ rw h (
      (
        refl,
        refl,
        eligible-CanDo table catalog auto_free task true h,
        inr (inl (routed, refl, eligible-IsGoodAt table catalog auto_free task h)),
      ),
      tt,
    )
    | inr h ↦ rw h tt
  ]

  Listed-in :
      (provider model : String) (providers : Dict (List String))
      → get tier table.tiers ≡ some providers
      → contains model (elim (get provider providers) [ none ↦ [] | some models ↦ models ]) ≡ true
      → Listed provider model
  unfolding Listed
  Listed-in provider model providers at = Listed-under (get provider providers) refl
    where
      Listed-under :
          (found : Option (List String))
          → get provider providers ≡ found
          → contains model (elim found [ none ↦ [] | some models ↦ models ]) ≡ true
          → Listed provider model
      Listed-under none e h = absurd (ground arith)
      Listed-under (some models) e h = (providers, models, at, e, h)

  Listed-at :
      (provider model : String) (found : Option (Dict (List String)))
      → get tier table.tiers ≡ found
      → contains model (elim found [
        | none ↦ []
        | some providers ↦ elim (get provider providers) [ none ↦ [] | some models ↦ models ]
      ])
        ≡ true
      → Listed provider model
  Listed-at provider model none at h = absurd (ground arith)
  Listed-at provider model (some providers) at h = Listed-in provider model providers at h

  configured_models-Listed :
      (provider model : String)
      → contains model (configured_models table catalog provider tier) ≡ true
      → Listed provider model
  unfolding configured_models
  configured_models-Listed provider model h = Listed-at provider model _ refl h

  pub provider-IsFit :
      (provider : String) → All (IsFit provider) (provider_routes table catalog provider task tier)
  unfolding provider_routes
  provider-IsFit provider = elim (Bool-cases (provider == "openrouter")) [
    | inl e ↦
        let routed = (eq_iff provider "openrouter").0 e in
        rw e (
          All-append (IsFit provider) _ _ (named-IsFit provider catalog routed (λ x m. m))
            (auto_free-IsFit provider routed))
    | inr e ↦ rw e (
        configured-IsFit provider (configured_models table catalog provider tier) e
          (configured_models-Listed provider))
  ]
