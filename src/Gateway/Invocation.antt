-- ===== src/Gateway/Invocation.antt =====
-- What a dispatch has done when it has invoked a worker, and when it has not.
use agents_for_dummies.Base.{
  suc, String, ◌≡◌, subst, Bool, true, false, none, some, List, arith, if◌then◌else◌, ◌⊎◌, inl, inr,
  Bool-cases,
}
use agents_for_dummies.Base.Result.{Result, ok, err}
use agents_for_dummies.Envelope.Validate.{given_text}
use agents_for_dummies.Control.Tables.{Fault, Raised}
use agents_for_dummies.Control.Runs.{total_calls}
use agents_for_dummies.Control.Ops.{Op, history}
use agents_for_dummies.Control.Once.{hash_of, history-hash_of}
use agents_for_dummies.Control.Budget.{IsWithin}
use agents_for_dummies.Gateway.Data.{Mode, Event, allowed, GatewayResult, World}
use agents_for_dummies.Gateway.Steps.{Call, governed, is_enforce, run_id}
use agents_for_dummies.Gateway.Dispatch.{
  dispatch, calls_cap, provider_differs, executable, cataloged, gate_missing,
}
use agents_for_dummies.Gateway.Guards.{is_allowed, Reaches}
use agents_for_dummies.Gateway.Entry.{parse, message, IsClaimed}
use agents_for_dummies.Gateway.Clearance.{IsTimely}
use agents_for_dummies.Gateway.Closing.{invocations}
use agents_for_dummies.Gateway.Ends.{Ends, dispatch-Ends}

enforce-governed : (m : Mode) → is_enforce m ≡ true → governed m ≡ true
enforce-governed m e = ground arith

module _ (k : Call) where
  -- A dispatch went through, or it did not and changed the tables only.
  abbrev pub Outcome : World → Result Raised GatewayResult × World → Type 0
  Outcome w (ok r, w') =
      ((r.status ≡ allowed)
        × (invocations w'.events ≡ suc (invocations w.events))
        × Reaches (parse k) w.control w'.control
        × (provider_differs k ≡ false)
        × (executable k ≡ true)
        × IsTimely k (given_text k.envelope.deadline))
      ⊎ ((is_allowed r.status ≡ false)
          × (w'.events ≡ w.events)
          × Reaches (parse k) w.control w'.control)
  Outcome w (err e, w') = (w'.events ≡ w.events) × Reaches (parse k) w.control w'.control

  -- Whatever the request, the tables and the faults, a dispatch ends in one of these ways. Its status
  -- is `allowed`, and then it invoked exactly one worker, the route's provider is executable and is
  -- the recipient's if the registry gives it one, and a deadline that was given was still to come.
  -- Or its status is another, or it raises, and then no event was logged, so no worker was invoked.
  -- In each case the tables changed by methods of the control layer only.
  pub dispatch-Outcome : (w : World) → Outcome w (dispatch k w)
  dispatch-Outcome w = sort (dispatch k w) (dispatch-Ends k w)
    where
      sort : (x : Result Raised GatewayResult × World) → Ends k w x → Outcome w x
      sort (ok r, w') (inl x) =
          inl (x.allowed, x.once, x.reached, x.routed.agrees, x.routed.runs, x.timely)
      sort (ok r, w') (inr (n, fol)) = inr (n, fol.events, fol.control)
      sort (err e, w') fol = (fol.events, fol.control)

  -- In enforce mode an allowed result means that the decision is allowed and recorded, that the
  -- route is the catalog's and an executive route has a gate reason, that the message had no replay
  -- key before and has one after, and that the calls reserved for the run are within the limit of the
  -- request.
  pub dispatch-enforced :
      (w w' : World) (r : GatewayResult)
      → is_enforce k.gateway.mode ≡ true
      → dispatch k w ≡ (ok r, w')
      → r.status ≡ allowed
      → (r.decision.allowed ≡ true)
        × (r.decision_recorded ≡ true)
        × (cataloged k ≡ true)
        × (gate_missing k ≡ false)
        × (hash_of k.envelope.message_id w.control ≡ none)
        × ((h : String) × (hash_of k.envelope.message_id w'.control ≡ some h))
        × IsWithin (total_calls (run_id k) w'.control) k.envelope.budget.max_calls
  dispatch-enforced w w' r en e a = elim (subst (Ends k w) e (dispatch-Ends k w)) [
    | inr (n, fol) ↦ elim (contradiction n) [ ]
    | inl x ↦
        let (fresh, h, seen) = x.claimed en in
        let (verdict, recorded) = x.authorized en in
        (
          verdict,
          recorded,
          x.routed.listed (enforce-governed k.gateway.mode en),
          x.routed.gated (enforce-governed k.gateway.mode en),
          fresh,
          (h, seen),
          capped (x.reserved en),
        )
  ]
    where
      contradiction : is_allowed r.status ≡ false → ⊥
      contradiction n = ground arith

      capped :
          IsWithin (total_calls (run_id k) w'.control) (calls_cap k)
          → IsWithin (total_calls (run_id k) w'.control) k.envelope.budget.max_calls
      capped x =
          subst
            (λ b.
              IsWithin (total_calls (run_id k) w'.control)
                (if b then k.envelope.budget.max_calls else none))
            en x

-- The result of a dispatch is `allowed`.
abbrev pub is_through : Result Raised GatewayResult → Bool
is_through (ok r) = is_allowed r.status
is_through (err e) = false

module _ (k : Call) where
  through-IsClaimed :
      (w : World) (x : Result Raised GatewayResult × World)
      → Ends k w x
      → is_through x.0 ≡ true
      → IsClaimed k w.control x.1.control
  through-IsClaimed w (ok r, w') (inl x) h = x.claimed
  through-IsClaimed w (ok r, w') (inr (n, fol)) h = ground arith
  through-IsClaimed w (err e, w') x h = ground arith

  dispatch-IsClaimed :
      (w : World)
      → is_through (dispatch k w).0 ≡ true
      → IsClaimed k w.control (dispatch k w).1.control
  dispatch-IsClaimed w = through-IsClaimed w (dispatch k w) (dispatch-Ends k w)

module _ (k k' : Call) (w : World) (ops : List (Op × Fault)) (es : List Event) where
  -- The world of the second dispatch.
  abbrev pub later : World
  later = record {
    control = history k.platform.parse_iso ops (dispatch k w).1.control;
    events = es;
  }

  not_again :
      is_enforce k.gateway.mode ≡ true
      → is_enforce k'.gateway.mode ≡ true
      → k'.envelope.message_id ≡ k.envelope.message_id
      → is_through (dispatch k w).0 ≡ true
      → is_through (dispatch k' later).0 ≡ true
      → ⊥
  not_again en en' same h again =
      let (f, x, seen) = dispatch-IsClaimed k w h en in
      let (unseen, f', x') = dispatch-IsClaimed k' later again en' in
      let kept = history-hash_of (parse k) (message k) x ops (dispatch k w).1.control seen in
      let gone = subst (λ m. hash_of m later.control ≡ none) same unseen in cc

  -- Of two enforcing dispatches of one message id, the second after any history of the tables, the
  -- second is not allowed if the first is, and so invokes no worker, whatever its envelope says.
  pub dispatch-once :
      is_enforce k.gateway.mode ≡ true
      → is_enforce k'.gateway.mode ≡ true
      → k'.envelope.message_id ≡ k.envelope.message_id
      → is_through (dispatch k w).0 ≡ true
      → is_through (dispatch k' later).0 ≡ false
  dispatch-once en en' same h = elim (Bool-cases (is_through (dispatch k' later).0)) [
    | inr other ↦ other
    | inl again ↦ elim (not_again en en' same h again) [ ]
  ]
