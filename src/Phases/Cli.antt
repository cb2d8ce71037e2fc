-- ===== src/Phases/Cli.antt =====
-- resolve_phases.py: the arguments, and what is printed for them.
use agents_for_dummies.Base.{
  ℕ, String, Bool, not, ◌||◌, Option, List, [], ◌∷◌, ◌++◌, map, contains, keep_if, if◌then◌else◌,
}
use agents_for_dummies.Base.Dict.{get}
use agents_for_dummies.Base.Result.{Result, ok, err}
use agents_for_dummies.Phases.Table.{Phase, registry}
use agents_for_dummies.Phases.Resolve.{ResolveError, exit_code, order_before, sort_names, resolve}

-- The parsed options, as far as the run reads them.
pub record Options : Type 0 where
  pub skip : String
  pub add : String
  pub allow_required_skip : Bool
  pub plan_only : Bool
  pub json : Bool
  pub list : Bool

-- A line that is printed, or one entry of the JSON array: the phase and its row of the table.
abbrev pub Row : Type 0
Row = String × Option Phase

-- A run ends with a code; it has printed rows, as lines or as JSON, or the error.
pub data Printout : Type 0 where
  lines : List Row → Printout
  json_rows : List Row → Printout
  failed : ResolveError → Printout

abbrev pub ended_code : Printout → ℕ
ended_code (lines rows) = 0
ended_code (json_rows rows) = 0
ended_code (failed e) = exit_code e

-- The rows that a run has printed.
abbrev pub rows_of : Printout → List Row
rows_of (lines rows) = rows
rows_of (json_rows rows) = rows
rows_of (failed e) = []

abbrev pub row_of : String → Row
row_of p = (p, get p registry)

abbrev pub names_of : List (String × Phase) → List String
names_of [] = []
names_of ((p, phase) ∷ rest) = p ∷ names_of rest

-- --list
unfoldable pub listed : List String
listed = sort_names order_before (
    keep_if (λ p. not (contains p ("resolve-issues" ∷ "summary" ∷ "illustrate" ∷ [])))
      (names_of registry))

-- The output for what the resolver gives.
abbrev pub report : Bool → Result ResolveError (List String) → Printout
report json (err e) = failed e
report json (ok effective) =
    if json then json_rows (map row_of effective) else lines (map row_of effective)

-- Splitting at commas and stripping are those of Python.
module _ (split_at_commas : String → List String) (strip : String → String) where
  unfoldable pub is_blank : String → Bool
  is_blank s = contains s ("" ∷ [])

  unfoldable pub parse_csv : String → List String
  unfolding is_blank
  parse_csv text =
      if is_blank text
      then []
      else map strip (keep_if (λ item. not (is_blank (strip item))) (split_at_commas text))

  unfoldable pub main : Options → Printout
  main args =
      let skip_set = parse_csv args.skip in
      let skips = if args.plan_only then skip_set ++ ("implement" ∷ []) else skip_set in
      if args.list
      then lines (map row_of listed)
      else report args.json
          (resolve skips (parse_csv args.add) (args.allow_required_skip || args.plan_only))
