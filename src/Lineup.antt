-- ===== src/Lineup.antt =====
-- workerbees/lineup_router.py: which model of a vendor's whole list a run tries next. The catalog is
-- an argument. Limits, budgets and rules that no step reads are texts.
pub mod Steps
pub mod Plan
use Prim.Native.Nat.{compare as compare_nat, Ordering}
use Prim.Native.String.{compare as compare_text}
use agents_for_dummies.Base.{
  ℕ, ◌+◌, String, Bool, true, false, not, ◌&&◌, Option, none, some, List, [], ◌∷◌, ◌++◌, ◌==◌,
  contains, keep_if, length, ltb, if◌then◌else◌,
}
use agents_for_dummies.Base.Dict.{Dict, get}
use agents_for_dummies.Router.{Route, Profile, eligible, Table}

-- An entry of `candidates_considered`; its reason says the same as `kept`.
pub record Considered : Type 0 where
  pub route : Route
  pub kept : Bool

pub record Retry : Type 0 where
  pub attempt : ℕ
  pub route : Route

pub record AuthorityChange : Type 0 where
  pub from : Route
  pub to : Route
  pub reason : String

pub record RunRecord : Type 0 where
  pub run_id : String
  pub task : String
  pub accept_rule : String
  pub authority_holder : Route
  pub authority_limits : String
  pub authority_movable : Bool
  pub authority_move_rule : Option String
  pub policy_version : String
  pub allowed_models : List String
  pub hard_limits : String
  pub budget : String
  pub tie_break_order : List String
  pub max_retries : ℕ
  pub model_snapshot_ref : String
  pub candidates_considered : List Considered
  pub picked : Option Route
  pub retries : List Retry
  pub authority_change_events : List AuthorityChange
  pub pre_approved_larger_pool : List Route
  pub pre_approved_backup_list : List Route

abbrev pub first_route : List Route → Option Route
first_route [] = none
first_route (r ∷ rs) = some r

abbrev pub same_route : Route → Option Route → Bool
same_route r none = false
same_route r (some p) =
    (r.provider == p.provider)
    && (r.model == p.model)
    && (r.tier == p.tier)
    && (r.cmd_kind == p.cmd_kind)

abbrev consider : Option Route → List Route → List Considered
consider picked [] = []
consider picked (r ∷ rs) = record { route = r; kept = same_route r picked } ∷ consider picked rs

unfoldable pub with_pick : RunRecord → List Route → Route → RunRecord
with_pick run ranked authority = record run {
  authority_holder = authority;
  candidates_considered = run.candidates_considered ++ consider (first_route ranked) ranked;
  picked = first_route ranked;
}

unfoldable pub with_retry : RunRecord → RunRecord
with_retry run = elim run.picked [
  | none ↦ run
  | some p ↦ record run {
    retries = run.retries ++ record { attempt = length run.retries + 1; route = p } ∷ [];
  }
]

abbrev pub count_retries : RunRecord → ℕ
count_retries run = length run.retries

abbrev pub retried_models : List Retry → List String
retried_models [] = []
retried_models (r ∷ rs) = r.route.model ∷ retried_models rs

abbrev pub picked_model : Option Route → List String
picked_model none = []
picked_model (some p) = p.model ∷ []

-- The models of the retries and of the pick.
abbrev pub failed_models : RunRecord → List String
failed_models run = retried_models run.retries ++ picked_model run.picked

unfoldable pub remove_failed : List Route → RunRecord → List Route
remove_failed pool run = keep_if (λ r. not (contains r.model (failed_models run))) pool

unfoldable pub with_authority_change : RunRecord → Route → Route → String → RunRecord
with_authority_change run frm new_holder reason = record run {
  authority_holder = new_holder;
  authority_change_events =
      run.authority_change_events ++ record { from = frm; to = new_holder; reason = reason } ∷ [];
}

module _ (catalog : Dict Profile) where
  cost_order : String → ℕ
  cost_order c =
      if c == "free"
      then 0
      else if c == "cheap"
      then 1
      else if c == "mid"
      then 2
      else if c == "premium"
      then 3
      else 999

  cost_key : Route → ℕ
  unfolding cost_order
  cost_key r = elim (get r.model catalog) [ none ↦ 999 | some p ↦ cost_order p.cost_class ]

  -- The context size, which the sort takes from high to low.
  latency_key : Route → ℕ
  latency_key r = elim (get r.model catalog) [ none ↦ 999_999 | some p ↦ p.ctx_hint ]

  -- The order of the sort keys of two routes: the criteria in turn, then the model.
  compare_keys : List String → Route → Route → Ordering
  unfolding cost_key latency_key
  compare_keys [] a b = compare_text a.model b.model
  compare_keys (criterion ∷ rest) a b =
      let later = compare_keys rest a b in
      let here : Ordering =
        if criterion == "cost"
        then compare_nat (cost_key a) (cost_key b)
        else if criterion == "latency"
        then compare_nat (latency_key b) (latency_key a)
        else Ordering.eq in
      elim here [ Ordering.eq ↦ later | o ↦ o ]

  abbrev is_less : Ordering → Bool
  is_less Ordering.lt = true
  is_less _ = false

  -- `sorted` is stable: the new route goes before those that are not less.
  insert_route : List String → Route → List Route → List Route
  unfolding compare_keys
  insert_route order r [] = r ∷ []
  insert_route order r (s ∷ ss) =
      let later = insert_route order r ss in
      if is_less (compare_keys order s r) then s ∷ later else r ∷ s ∷ ss

  unfoldable pub rank : List Route → List String → List Route
  unfolding insert_route
  rank [] order = []
  rank (r ∷ rs) order = insert_route order r (rank rs order)

  -- Row 2 of the routing matrix
  unfoldable pub step_failure : RunRecord → List Route → RunRecord
  step_failure run pool =
      if ltb (count_retries run) run.max_retries
      then with_retry run
      else with_pick run (rank (remove_failed pool run) run.tie_break_order) run.authority_holder

  escalate : RunRecord → List Route → RunRecord
  escalate run [] = run
  escalate run (r ∷ rs) = with_pick run (r ∷ rs) run.authority_holder

  -- Row 3
  unfoldable pub step_capability : RunRecord → RunRecord
  unfolding escalate
  step_capability run = escalate run (rank run.pre_approved_larger_pool run.tie_break_order)

  reassign : RunRecord → List Route → RunRecord
  reassign run [] = run
  reassign run (new_holder ∷ rest) =
      with_authority_change run run.authority_holder new_holder "holder_cannot_continue"

  -- Row 4
  unfoldable pub step_holder : RunRecord → RunRecord
  unfolding reassign
  step_holder run = reassign run run.pre_approved_backup_list

  unfoldable pub route_step : RunRecord → String → List Route → RunRecord
  route_step run event pool =
      if event == "start"
      then with_pick run (rank pool run.tie_break_order) run.authority_holder
      else if event == "failure"
      then step_failure run pool
      else if event == "insufficient_capability"
      then step_capability run
      else if event == "holder_cannot_continue"
      then step_holder run
      else run
