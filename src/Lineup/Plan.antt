-- ===== src/Lineup/Plan.antt =====
-- `lineup_candidates` and `pick_model_or_lineup` of workerbees/lineup_router.py.
use mathlib.Core.List.{Memᴰ}
use mathlib.Core.List.Memᴰ.{head, tail}
use agents_for_dummies.Router.Fits.{CanDo, eligible-CanDo, CanDo-eligible}
use agents_for_dummies.Base.{
  refl, ap, sym, ◌↔◌, eq_iff, subst, inl, inr, Bool-cases, String, ◌≡◌, Bool, true, false, not,
  ◌&&◌, Option, none, some, List, [], ◌∷◌, ◌==◌, contains, if◌then◌else◌, arith,
}
use agents_for_dummies.Base.Dict.{Dict}
use agents_for_dummies.Router.{Route, Profile, Table, eligible, pick_model}
use agents_for_dummies.Lineup.{first_route}

pub record RoutePlan : Type 0 where
  pub run_id : String
  pub authority : Route
  pub target_vendor : String
  pub candidates : List Route
  pub picked : Option Route
  pub mode : String

pub data Pick : Type 0 where
  single : Option Route → Pick
  lineup : RoutePlan → Pick

module _ (table : Table) (catalog : Dict Profile) where
  abbrev pub is_candidate : String → String → List String → String × Profile → Bool
  is_candidate target_vendor task allowed (model, profile) =
      (profile.vendor == target_vendor)
      && contains model allowed
      && eligible table catalog model task false
      && not (profile.provider == "")
      && not (profile.tier == "")

  candidates_in : String → String → List String → List (String × Profile) → List Route
  candidates_in target_vendor task allowed [] = []
  candidates_in target_vendor task allowed (entry ∷ rest) =
      let more = candidates_in target_vendor task allowed rest in
      if is_candidate target_vendor task allowed entry
      then record {
        provider = entry.1.provider;
        model = entry.0;
        tier = entry.1.tier;
        cmd_kind = "http";
      }
        ∷ more
      else more

  unfoldable pub lineup_candidates : String → String → List String → List Route
  unfolding candidates_in
  lineup_candidates target_vendor task allowed = candidates_in target_vendor task allowed catalog

  abbrev models_of : List (String × Profile) → List String
  models_of [] = []
  models_of (entry ∷ rest) = entry.0 ∷ models_of rest

  abbrev no_route : Route
  no_route = record { provider = ""; model = ""; tier = ""; cmd_kind = "" }

  abbrev plan_for : String → List Route → RoutePlan
  plan_for target_vendor candidates = record {
    run_id = "";
    authority = no_route;
    target_vendor = target_vendor;
    candidates = candidates;
    picked = first_route candidates;
    mode = "normal";
  }

  unfoldable pub pick_model_or_lineup :
      String → String → List String → Bool → Option String → Option String → Option String → Pick
  pick_model_or_lineup task tier available authorized none exclude prefer =
      single (pick_model table catalog task tier available authorized exclude prefer)
  pick_model_or_lineup task tier available authorized (some vendor) exclude prefer =
      lineup (plan_for vendor (lineup_candidates vendor task (models_of catalog)))

  -- The route is made of an entry of the target vendor, with a provider and a tier, whose model is
  -- allowed, is not unavailable and is not bad at the task.
  abbrev pub IsCandidate : String → String → List String → Route → Type 0
  IsCandidate vendor task allowed r =
      (model : String) × (profile : Profile) × Memᴰ (model, profile) catalog
      × (profile.vendor ≡ vendor)
      × (contains model allowed ≡ true)
      × CanDo catalog model task
      × ((profile.provider == "") ≡ false)
      × ((profile.tier == "") ≡ false)
      × (record {
        provider = profile.provider;
        model = model;
        tier = profile.tier;
        cmd_kind = "http";
      }
          ≡ r)

  module _ (vendor task : String) (allowed : List String) where
    abbrev route_of : String × Profile → Route
    route_of entry = record {
      provider = entry.1.provider;
      model = entry.0;
      tier = entry.1.tier;
      cmd_kind = "http";
    }

    Found : Route → List (String × Profile) → Type 0
    Found r entries =
        (e : String × Profile) × Memᴰ e entries
        × (is_candidate vendor task allowed e ≡ true)
        × (route_of e ≡ r)

    Found-later :
        (r : Route) (entry : String × Profile) (rest : List (String × Profile))
        → Found r rest
        → Found r (entry ∷ rest)
    unfolding Found
    Found-later r entry rest (e, m, h, same) = (e, tail m, h, same)

    Found-here :
        (r : Route) (entry : String × Profile) (rest : List (String × Profile))
        → is_candidate vendor task allowed entry ≡ true
        → (Memᴰ r (candidates_in vendor task allowed rest) → Found r rest)
        → Memᴰ r (route_of entry ∷ candidates_in vendor task allowed rest)
        → Found r (entry ∷ rest)
    unfolding Found
    Found-here r entry rest h found (head same) = (entry, head refl, h, sym same)
    Found-here r entry rest h found (tail m) = Found-later r entry rest (found m)

    candidates_in-Found :
        (r : Route) (entries : List (String × Profile))
        → Memᴰ r (candidates_in vendor task allowed entries)
        → Found r entries
    unfolding candidates_in Found
    candidates_in-Found r [] = λ m. elim m [ ]
    candidates_in-Found r (entry ∷ rest) =
        elim (Bool-cases (is_candidate vendor task allowed entry)) [
          | inl h ↦ rw h (Found-here r entry rest h (candidates_in-Found r rest))
          | inr h ↦ rw h (λ m. Found-later r entry rest (candidates_in-Found r rest m))
        ]

    candidates_in-kept :
        (e : String × Profile) (entries : List (String × Profile))
        → Memᴰ e entries
        → is_candidate vendor task allowed e ≡ true
        → Memᴰ (route_of e) (candidates_in vendor task allowed entries)
    unfolding candidates_in
    candidates_in-kept e [] m h = elim m [ ]
    candidates_in-kept e (entry ∷ rest) (head same) h =
        rw (subst (λ x. is_candidate vendor task allowed x ≡ true) same h) (head (ap route_of same))
    candidates_in-kept e (entry ∷ rest) (tail m) h =
        let more = candidates_in-kept e rest m h in
        elim (Bool-cases (is_candidate vendor task allowed entry)) [
          | inl k ↦ rw k (tail more)
          | inr k ↦ rw k more
        ]

    is_candidate-found :
        (model : String) (profile : Profile) (r : Route)
        → Memᴰ (model, profile) catalog
        → is_candidate vendor task allowed (model, profile) ≡ true
        → route_of (model, profile) ≡ r
        → IsCandidate vendor task allowed r
    is_candidate-found model profile r m h same = (
      model,
      profile,
      m,
      (eq_iff profile.vendor vendor).0 (ground (arith, h)),
      ground (arith, h),
      eligible-CanDo table catalog model task false (ground (arith, h)),
      ground (arith, h),
      ground (arith, h),
      same,
    )

    is_candidate-holds :
        (model : String) (profile : Profile)
        → profile.vendor ≡ vendor
        → contains model allowed ≡ true
        → eligible table catalog model task false ≡ true
        → (profile.provider == "") ≡ false
        → (profile.tier == "") ≡ false
        → is_candidate vendor task allowed (model, profile) ≡ true
    is_candidate-holds model profile v a e p t =
        rw ((eq_iff profile.vendor vendor).1 v) (rw a (rw e (rw p (rw t refl))))

    -- The candidates of a line-up are exactly the routes that are made of an entry of the target
    -- vendor, with a provider and a tier, whose model is allowed, is not unavailable and is not bad
    -- at the task.
    pub lineup_candidates-IsCandidate_iff :
        (r : Route)
        → Memᴰ r (lineup_candidates vendor task allowed) ↔ IsCandidate vendor task allowed r
    unfolding lineup_candidates Found
    lineup_candidates-IsCandidate_iff r = (
      λ m.
          let ((model, profile), at, h, same) = candidates_in-Found r catalog m in
          is_candidate-found model profile r at h same,
      λ (model, profile, at, v, a, can, p, t, same).
          subst (λ s. Memᴰ s (candidates_in vendor task allowed catalog)) same
            (candidates_in-kept (model, profile) catalog at
              (is_candidate-holds model profile v a (CanDo-eligible table catalog model task can) p
                t)),
    )
