-- ===== src/Phases/Resolve.antt =====
-- phase_registry.py: `resolve`. A set is a list, whose order and repetitions no test sees; where the
-- code sorts a set, its repetitions are dropped first.
use agents_for_dummies.Base.{
  ℕ, String, Bool, true, false, not, ◌&&◌, none, some, List, [], ◌∷◌, ◌++◌, contains, keep_if, leb,
  if◌then◌else◌,
}
use agents_for_dummies.Base.Text.{text_before}
use agents_for_dummies.Base.Dict.{get}
use agents_for_dummies.Base.Result.{Result, ok, err}
use agents_for_dummies.Phases.Table.{registry, defaults, insertable_names, required_names}

-- The exceptions, with the names that they carry.
pub data ResolveError : Type 0 where
  unknown_phase skip_add_conflict not_insertable required_phase_skip : List String → ResolveError
  dep_break : List (String × String) → ResolveError

-- e.code
abbrev pub exit_code : ResolveError → ℕ
exit_code (unknown_phase names) = 10
exit_code (skip_add_conflict names) = 11
exit_code (not_insertable names) = 12
exit_code (required_phase_skip names) = 13
exit_code (dep_break violations) = 14

-- a - b, a & b
abbrev pub without : List String → List String → List String
without a b = keep_if (λ x. not (contains x b)) a

abbrev pub meet : List String → List String → List String
meet a b = keep_if (λ x. contains x b) a

abbrev pub is_empty_list {ℓ} : {A : Type ℓ} → List A → Bool
is_empty_list [] = true
is_empty_list (x ∷ xs) = false

module _ (before : String → String → Bool) where
  -- Insertion into a sorted list; a name that is there already is not repeated.
  abbrev pub insert_name : String → List String → List String
  insert_name x [] = x ∷ []
  insert_name x (y ∷ ys) =
      let later = insert_name x ys in
      if before x y then x ∷ y ∷ ys else if before y x then y ∷ later else y ∷ ys

  -- sorted(set)
  abbrev pub sort_names : List String → List String
  sort_names [] = []
  sort_names (x ∷ xs) = insert_name x (sort_names xs)

-- REGISTRY[p].order; every phase that is sorted by it has one.
unfoldable pub order_of : String → ℕ
order_of p = elim (get p registry) [
  | none ↦ 0
  | some phase ↦ elim phase.order [ none ↦ 0 | some n ↦ n ]
]

abbrev pub order_before : String → String → Bool
order_before a b = not (leb (order_of b) (order_of a))

-- sorted(effective, key=lambda p: REGISTRY[p].order)
unfoldable pub canonical : List String → List String
canonical names = sort_names order_before names

abbrev pub deps_of : String → List String
deps_of p = elim (get p registry) [ none ↦ [] | some phase ↦ phase.deps ]

abbrev pub pairs_with : String → List String → List (String × String)
pairs_with p [] = []
pairs_with p (d ∷ ds) = (p, d) ∷ pairs_with p ds

-- The dependencies that are missing from `effective`, of the phases in their order.
abbrev pub violations_of : List String → List String → List (String × String)
violations_of effective [] = []
violations_of effective (p ∷ ps) =
    pairs_with p (without (deps_of p) effective) ++ violations_of effective ps

abbrev pub orderable : List String
orderable = defaults ++ insertable_names

unfoldable pub effective_of : List String → List String → List String
effective_of skip add = without defaults skip ++ add

-- Steps 5 and 6
unfoldable pub resolve_effective : List String → Result ResolveError (List String)
resolve_effective effective =
    let violations = violations_of effective (canonical effective) in
    if is_empty_list violations then ok (canonical effective) else err (dep_break violations)

unfoldable pub resolve : List String → List String → Bool → Result ResolveError (List String)
resolve skip add force =
    let unknown = without (skip ++ add) orderable in
    let conflict = meet skip add in
    let foreign = without add insertable_names in
    let required_hit = meet skip required_names in
    if not (is_empty_list unknown)
    then err (unknown_phase (sort_names text_before unknown))
    else if not (is_empty_list conflict)
    then err (skip_add_conflict (sort_names text_before conflict))
    else if not (is_empty_list foreign)
    then err (not_insertable (sort_names text_before foreign))
    else if not force && not (is_empty_list required_hit)
    then err (required_phase_skip (sort_names text_before required_hit))
    else resolve_effective (effective_of skip add)
