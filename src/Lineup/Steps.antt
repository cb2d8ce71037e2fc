-- ===== src/Lineup/Steps.antt =====
-- What a step of the routing matrix changes.
use agents_for_dummies.Base.{
  Option, none, Bool-cases, ◌+◌, ◌≤◌, String, ◌≡◌, refl, Bool, true, false, not, some, List, [],
  ◌∷◌, ◌++◌, ◌==◌, contains, keep_if, length, length-append, if◌then◌else◌, ◌⊎◌, inl, inr, arith,
  All, eq_iff, Option-cases, subst,
}
use agents_for_dummies.Base.Dict.{Dict}
use agents_for_dummies.Router.{Route, Profile}
use agents_for_dummies.Lineup.{
  RunRecord, first_route, with_pick, with_retry, with_authority_change, count_retries,
  failed_models, remove_failed, insert_route, rank, step_failure, step_capability, escalate,
  step_holder, reassign, route_step, retried_models, picked_model, Retry,
}

module _ (catalog : Dict Profile) (run : RunRecord) (pool : List Route) where
  abbrev pub next_run : String → RunRecord
  next_run event = route_step catalog run event pool

  -- The holder and the log of changes before and after a step.
  abbrev pub Kept : RunRecord → Type 0
  Kept new =
      (new.authority_holder ≡ run.authority_holder)
      × (new.authority_change_events ≡ run.authority_change_events)

  abbrev pub Moved : RunRecord → Type 0
  Moved new =
      (first_route run.pre_approved_backup_list ≡ some new.authority_holder)
      × (new.authority_change_events
          ≡ run.authority_change_events
            ++ record {
              from = run.authority_holder;
              to = new.authority_holder;
              reason = "holder_cannot_continue";
            }
              ∷ [])

  reassign-Moved :
      (backups : List Route)
      → run.pre_approved_backup_list ≡ backups
      → Kept (reassign catalog run backups) ⊎ Moved (reassign catalog run backups)
  unfolding reassign with_authority_change
  reassign-Moved [] e = inl (refl, refl)
  reassign-Moved (b ∷ bs) e = inr (rw e refl, refl)

  escalate-Kept : (ranked : List Route) → Kept (escalate catalog run ranked)
  unfolding escalate with_pick
  escalate-Kept [] = (refl, refl)
  escalate-Kept (r ∷ rs) = (refl, refl)

  failure-Kept : Kept (step_failure catalog run pool)
  unfolding step_failure with_retry with_pick
  failure-Kept = ground arith

  abbrev pub Outcome : String → RunRecord → Type 0
  Outcome event new = Kept new ⊎ ((event ≡ "holder_cannot_continue") × Moved new)

  holder-Outcome :
      (event : String) → event ≡ "holder_cannot_continue" → Outcome event (step_holder catalog run)
  unfolding step_holder
  holder-Outcome event e = elim (reassign-Moved run.pre_approved_backup_list refl) [
    | inl kept ↦ inl kept
    | inr moved ↦ inr (e, moved)
  ]

  rows-Outcome :
      (event : String) (start failure capability holder : Bool)
      → (holder ≡ true → event ≡ "holder_cannot_continue")
      → Outcome event (
          if start
          then with_pick run (rank catalog pool run.tie_break_order) run.authority_holder
          else if failure
          then step_failure catalog run pool
          else if capability
          then step_capability catalog run
          else if holder
          then step_holder catalog run
          else run)
  unfolding with_pick step_capability
  rows-Outcome event true f c h e = inl (refl, refl)
  rows-Outcome event false true c h e = inl failure-Kept
  rows-Outcome event false false true h e =
      inl (escalate-Kept (rank catalog run.pre_approved_larger_pool run.tie_break_order))
  rows-Outcome event false false false true e = holder-Outcome event (e refl)
  rows-Outcome event false false false false e = inl (refl, refl)

  -- A step keeps the holder of the authority and the log of its changes, or the event is
  -- "holder_cannot_continue", the first backup is the new holder, and the change is logged.
  pub route_step-authority : (event : String) → Outcome event (next_run event)
  unfolding route_step
  route_step-authority event =
      rows-Outcome event (event == "start") (event == "failure")
        (event == "insufficient_capability") (event == "holder_cannot_continue")
        (eq_iff event "holder_cannot_continue").0

  with_retry-retries : length (with_retry run).retries ≤ length run.retries + 1
  unfolding with_retry
  with_retry-retries = elim (Option-cases run.picked) [
    | inl e ↦ rw (e, with_retry) (omega arith)
    | inr (p, e) ↦
        rw (e, with_retry)
          (omega (
            arith,
            length-append run.retries (record { attempt = length run.retries + 1; route = p } ∷ []),
          ))
  ]

  escalate-retries : (ranked : List Route) → (escalate catalog run ranked).retries ≡ run.retries
  unfolding escalate with_pick
  escalate-retries [] = refl
  escalate-retries (r ∷ rs) = refl

  reassign-retries : (backups : List Route) → (reassign catalog run backups).retries ≡ run.retries
  unfolding reassign with_authority_change
  reassign-retries [] = refl
  reassign-retries (b ∷ bs) = refl

  failure-retries :
      length run.retries ≤ run.max_retries
      → length (step_failure catalog run pool).retries ≤ run.max_retries
  unfolding step_failure with_pick
  failure-retries le = ground (arith, with_retry-retries)

  rows-retries :
      (start failure capability holder : Bool)
      → length run.retries ≤ run.max_retries
      → length
          (if start
            then with_pick run (rank catalog pool run.tie_break_order) run.authority_holder
            else if failure
            then step_failure catalog run pool
            else if capability
            then step_capability catalog run
            else if holder
            then step_holder catalog run
            else run).retries
        ≤ run.max_retries
  unfolding with_pick step_capability step_holder
  rows-retries true f c h le = le
  rows-retries false true c h le = failure-retries le
  rows-retries false false true h le =
      rw (escalate-retries (rank catalog run.pre_approved_larger_pool run.tie_break_order)) le
  rows-retries false false false true le = rw (reassign-retries run.pre_approved_backup_list) le
  rows-retries false false false false le = le

  -- A number of retries within the limit of the run is still within it after a step.
  pub route_step-retries :
      (event : String)
      → count_retries run ≤ run.max_retries
      → count_retries (next_run event) ≤ run.max_retries
  unfolding route_step
  route_step-retries event le =
      rows-retries (event == "start") (event == "failure") (event == "insufficient_capability")
        (event == "holder_cannot_continue") le

module _ (P : Route → Type 0) where
  insert-All :
      (catalog : Dict Profile) (order : List String) (r : Route) (rs : List Route)
      → P r
      → All P rs
      → All P (insert_route catalog order r rs)
  unfolding insert_route
  insert-All catalog order r [] p all = (p, tt)
  insert-All catalog order r (s ∷ ss) p all = ground (arith, insert-All catalog order r ss p all.1)

  rank-All :
      (catalog : Dict Profile) (order : List String) (rs : List Route)
      → All P rs
      → All P (rank catalog rs order)
  unfolding rank
  rank-All catalog order [] all = tt
  rank-All catalog order (r ∷ rs) all =
      insert-All catalog order r (rank catalog rs order) all.0 (rank-All catalog order rs all.1)

  first-All : (rs : List Route) (r : Route) → All P rs → first_route rs ≡ some r → P r
  first-All [] r all e = cc
  first-All (s ∷ ss) r all e = subst P (some_eq e) all.0
    where
      some_eq : some s ≡ some r → s ≡ r
      some_eq e = cc

abbrev pub IsIn : Route → List Route → Type 0
IsIn r [] = ⊥
IsIn r (x ∷ xs) = (x ≡ r) ⊎ IsIn r xs

module _ (catalog : Dict Profile) (run : RunRecord) where
  -- The model is not that of the pick.
  abbrev pub DiffersFrom : Option Route → String → Type 0
  DiffersFrom none model = Unit {0}
  DiffersFrom (some p) model = (model == p.model) ≡ false

  -- A candidate of the pool whose model is neither that of the run's pick nor that of a retry.
  abbrev pub IsUntried : List Route → Route → Type 0
  IsUntried pool r =
      IsIn r pool
      × DiffersFrom run.picked r.model
      × All (λ t. (r.model == t.route.model) ≡ false) run.retries

  not_failed :
      (model : String) (retries : List Retry) (picked : Option Route)
      → contains model (retried_models retries ++ picked_model picked) ≡ false
      → DiffersFrom picked model × All (λ t. (model == t.route.model) ≡ false) retries
  not_failed model [] none h = (tt, tt)
  not_failed model [] (some p) h = (ground (arith, h), tt)
  not_failed model (t ∷ ts) picked h =
      let (differs, rest) = not_failed model ts picked (ground (arith, h)) in
      (differs, (ground (arith, h), rest))

  not_failed_route :
      (r : Route)
      → not (contains r.model (failed_models run)) ≡ true
      → DiffersFrom run.picked r.model × All (λ t. (r.model == t.route.model) ≡ false) run.retries
  not_failed_route r h = not_failed r.model run.retries run.picked (ground (arith, h))

  kept-IsUntried :
      (pool rs : List Route)
      → All (λ r. IsIn r pool) rs
      → All (IsUntried pool) (keep_if (λ r. not (contains r.model (failed_models run))) rs)
  kept-IsUntried pool [] all = tt
  kept-IsUntried pool (r ∷ rs) all =
      let more = kept-IsUntried pool rs all.1 in
      elim (Bool-cases (not (contains r.model (failed_models run)))) [
        | inl h ↦
            let (differs, retried) = not_failed_route r h in rw h ((all.0, differs, retried), more)
        | inr h ↦ rw h more
      ]

  IsIn-widen :
      (x : Route) (pool rs : List Route)
      → All (λ r. IsIn r pool) rs
      → All (λ r. IsIn r (x ∷ pool)) rs
  IsIn-widen x pool [] all = tt
  IsIn-widen x pool (r ∷ rs) all = (inr all.0, IsIn-widen x pool rs all.1)

  All-IsIn : (pool : List Route) → All (λ r. IsIn r pool) pool
  All-IsIn [] = tt
  All-IsIn (r ∷ rs) = (inl refl, IsIn-widen r rs rs (All-IsIn rs))

  -- When the retries of a run are used up, a failure picks only a candidate of the pool whose model
  -- is neither that of the last pick nor that of a retry.
  pub route_step-IsUntried :
      (pool : List Route) (r : Route)
      → run.max_retries ≤ count_retries run
      → (route_step catalog run "failure" pool).picked ≡ some r
      → IsUntried pool r
  unfolding route_step step_failure with_pick remove_failed
  route_step-IsUntried pool r used e =
      first-All (IsUntried pool) (rank catalog (remove_failed pool run) run.tie_break_order) r
        (rank-All (IsUntried pool) catalog run.tie_break_order (remove_failed pool run)
          (kept-IsUntried pool pool (All-IsIn pool)))
        (replaced used e)
    where
      replaced :
          run.max_retries ≤ count_retries run
          → (route_step catalog run "failure" pool).picked ≡ some r
          → first_route (rank catalog (remove_failed pool run) run.tie_break_order) ≡ some r
      replaced used e = ground arith
