-- ===== src/Router/Chain.antt =====
-- What every route of a chain satisfies.
use agents_for_dummies.Base.{
  String, ◌≡◌, ◌≢◌, refl, Bool, true, false, Option, some, List, [], ◌∷◌, contains, All, All-append,
  arith, eq_iff, ◌⊎◌, inl, inr, Bool-cases, Option-cases,
}
use agents_for_dummies.Base.Dict.{Dict, get}
use agents_for_dummies.Router.{
  Route, Profile, Table, provider_order, skipped, chain_over, pick_model_chain, pick_model,
}
use agents_for_dummies.Base.{subst, sym}
use agents_for_dummies.Router.{first_of_routes}
use agents_for_dummies.Router.Fits.{IsFit, provider-IsFit}

first_eq : {x r : Route} → some x ≡ some r → x ≡ r
first_eq h = cc

module _ (table : Table) (catalog : Dict Profile) (task tier : String) where
  module _ (available : List String) (authorized : Bool) (exclude : Option String) where
    -- The provider is at hand, is not excluded, and takes this task if it is an optional one.
    abbrev pub IsAdmitted : String → Type 0
    IsAdmitted p =
        (contains p available ≡ true)
        × (exclude ≢ some p)
        × ((contains p table.optional ≡ false)
            ⊎ ((authorized ≡ true) × (contains task table.optional_allowed_tasks ≡ true)))

    not_skipped-IsAdmitted :
        (p : String)
        → skipped table catalog task available authorized exclude p ≡ false
        → IsAdmitted p
    unfolding skipped
    not_skipped-IsAdmitted p h = elim (Option-cases exclude) [
      | inl e ↦ (ground arith, λ q. cc, ground arith)
      | inr (x, e) ↦ (ground arith, λ q. ground (arith, eq_iff p x), ground arith)
    ]

    abbrev pub IsChosen : Route → Type 0
    IsChosen r = IsFit table catalog task tier r.provider r × IsAdmitted r.provider

    fit-IsChosen :
        (p : String) (routes : List Route)
        → IsAdmitted p
        → All (IsFit table catalog task tier p) routes
        → All IsChosen routes
    fit-IsChosen p [] a fitting = tt
    fit-IsChosen p (r ∷ rs) a fitting = (
      ((refl, fitting.0.1, fitting.0.2, fitting.0.3), subst IsAdmitted (sym fitting.0.0) a),
      fit-IsChosen p rs a fitting.1,
    )

    chain_over-IsChosen :
        (order : List String)
        → All IsChosen (chain_over table catalog task tier available authorized exclude order)
    unfolding chain_over
    chain_over-IsChosen [] = tt
    chain_over-IsChosen (p ∷ ps) =
        elim (Bool-cases (skipped table catalog task available authorized exclude p)) [
          | inl e ↦ rw e (chain_over-IsChosen ps)
          | inr e ↦ rw e (
              All-append IsChosen _ _
                (fit-IsChosen p _ (not_skipped-IsAdmitted p e)
                  (provider-IsFit table catalog task tier p))
                (chain_over-IsChosen ps))
        ]

    -- Every route of a chain is to a model that is not unavailable and not bad at the task. The
    -- table lists it for its provider in the asked tier; for openrouter, the catalog has it under
    -- that provider and tier, or it is the automatic choice of a free model, and in both cases the
    -- task is one that it is good at. Its provider is available, not excluded, and, where it is
    -- optional, authorized for the task.
    pub pick_model_chain-IsChosen :
        (prefer : Option String)
        → All IsChosen
            (pick_model_chain table catalog task tier available authorized exclude prefer)
    unfolding pick_model_chain
    pick_model_chain-IsChosen prefer = elim (Option-cases (get tier table.tiers)) [
      | inl e ↦ rw (e, pick_model_chain) tt
      | inr (t, e) ↦
          rw (e, pick_model_chain) (chain_over-IsChosen (provider_order table catalog prefer))
    ]

    first-IsChosen :
        (routes : List Route) (r : Route)
        → All IsChosen routes
        → first_of_routes routes ≡ some r
        → IsChosen r
    first-IsChosen [] r a h = cc
    first-IsChosen (x ∷ xs) r a h = subst IsChosen (first_eq h) a.0

    -- So is the one that `pick_model` returns.
    pub pick_model-IsChosen :
        (prefer : Option String) (r : Route)
        → pick_model table catalog task tier available authorized exclude prefer ≡ some r
        → IsChosen r
    unfolding pick_model
    pick_model-IsChosen prefer r h = first-IsChosen _ r (pick_model_chain-IsChosen prefer) h
