-- ===== src/Gateway/Clearance.antt =====
-- The steps of a dispatch from the policy to the deadline, as guards of the invocation.
use agents_for_dummies.Base.{
  ℕ, ◌<◌, String, ◌≡◌, refl, ap, subst, Bool, true, false, not, ◌&&◌, Option, none, some, arith,
  leb,
}
use agents_for_dummies.Base.Result.{Result, ok, err}
use agents_for_dummies.Envelope.{Decision}
use agents_for_dummies.Envelope.Validate.{given_text}
use agents_for_dummies.Policy.{flatten}
use agents_for_dummies.Policy.Data.{Instant}
use agents_for_dummies.Registry.{Registry}
use agents_for_dummies.Control.Tables.{Control, Raised, RunBudget}
use agents_for_dummies.Control.Runs.{total_calls}
use agents_for_dummies.Control.Budget.{IsWithin, reserve_bounded-IsWithin}
use agents_for_dummies.Control.Ops.{apply, reserved_bounded, released, lease_released, budgeted}
use agents_for_dummies.Gateway.Data.{Mode, World}
use agents_for_dummies.Gateway.Steps.{Call, governed, is_enforce, run_id, or_false}
use agents_for_dummies.Gateway.Dispatch.{
  decide, decide_by, evaluate_with, after_budget, approval_answer, authorize, after_audit,
  check_route, check_cancelled, reserve, after_reserve, recheck_cancelled, give_up, check_deadline,
  before_deadline, before_due, bound_run, refuse_deadline, refuse_expired, release_expired,
  free_lease, provider_differs, executable, cataloged, gate_missing, calls_cap, seconds_cap,
  max_run,
}
use agents_for_dummies.Gateway.Guards.{
  Guards, Guards-bind, Guards-then, Guards-call, Guards-if, Guards-return, Guards-stop, Guards-read,
  Guards-raise_err,
}
use agents_for_dummies.Gateway.Entry.{
  governed-is_enforce, parse, True, audit_op, audit_loudly-Guards, deny-Guards,
}

module _ (k : Call) where
  after_budget-Guards :
      (r : Result Raised RunBudget) {w : World} → Guards (parse k) (True k) w (after_budget k r)
  unfolding after_budget
  after_budget-Guards (ok b) = Guards-return _ tt
  after_budget-Guards (err e) =
      Guards-if (is_enforce k.gateway.mode) _ _ (λ e. Guards-stop _ refl) (λ e. Guards-return _ tt)

  evaluate_with-Guards :
      (reg : Registry) {w : World} → Guards (parse k) (True k) w (evaluate_with k reg)
  unfolding evaluate_with apply
  evaluate_with-Guards reg = Guards-bind {Q = True k} _ _ (Guards-read _ tt) (λ used w1 q1.
      Guards-bind {Q = True k} _ _
        (Guards-call _
          (budgeted (run_id k) k.envelope.budget.max_calls (flatten k.envelope.budget.max_seconds))
          k.outside.faults.budget refl tt)
        (λ recorded w2 q2. Guards-bind _ _ (after_budget-Guards recorded) (λ limits w3 q3.
          Guards-bind {Q = True k} _ _ (Guards-read (approval_answer k) tt) (λ answer w4 q4.
            Guards-bind {Q = True k} _ _ (Guards-raise_err answer (λ a p. tt))
              (λ valid w5 q5. Guards-return _ tt)))))

  decide_by-Guards : (o : Option Registry) {w : World} → Guards (parse k) (True k) w (decide_by k o)
  unfolding decide_by
  decide_by-Guards none = Guards-return _ tt
  decide_by-Guards (some reg) = evaluate_with-Guards reg

  pub decide-Guards : {w : World} → Guards (parse k) (True k) w (decide k)
  unfolding decide
  decide-Guards =
      Guards-if (governed k.gateway.mode) _ _ (λ e. decide_by-Guards k.gateway.registry)
        (λ e. Guards-return _ tt)

  -- An enforcing gateway goes on with an allowed decision that is recorded.
  abbrev pub IsAuthorized : Decision → Bool → Type 0
  IsAuthorized d recorded =
      is_enforce k.gateway.mode ≡ true → (d.allowed ≡ true) × (recorded ≡ true)

  after_audit-Guards :
      (d : Decision) (b : Bool) {w : World}
      → Guards (parse k) (λ r w'. IsAuthorized d r) w (after_audit k d b)
  unfolding after_audit
  after_audit-Guards d b =
      Guards-if (is_enforce k.gateway.mode && not b) _ _ (λ e. Guards-stop _ refl)
        (λ e.
          Guards-if (is_enforce k.gateway.mode && not d.allowed) _ _ (λ e'. Guards-stop _ refl)
            (λ e'. Guards-return _ (both k.gateway.mode e e')))
    where
      both :
          (m : Mode)
          → (is_enforce m && not b) ≡ false
          → (is_enforce m && not d.allowed) ≡ false
          → is_enforce m ≡ true
          → (d.allowed ≡ true) × (b ≡ true)
      both m e e' e'' = ground arith

  pub authorize-Guards :
      (d : Decision) (h : String) {w : World}
      → Guards (parse k) (λ r w'. IsAuthorized d r) w (authorize k d h)
  unfolding authorize apply
  authorize-Guards d h =
      Guards-if (governed k.gateway.mode) _ _
        (λ e.
          Guards-bind {Q = True k} _ _
            (Guards-call _ (audit_op k d h) k.outside.faults.decision refl tt)
            (λ r w' q. after_audit-Guards d (or_false k r)))
        (λ e. Guards-return _ (λ e'. unforced e e'))
    where
      unforced :
          governed k.gateway.mode ≡ false
          → is_enforce k.gateway.mode ≡ true
          → (d.allowed ≡ true) × (false ≡ true)
      unforced e e' = ground (arith, governed-is_enforce k.gateway.mode e)

  -- The route is one that the registry and the catalog allow.
  pub record IsRouted : Type 0 where
    pub agrees : provider_differs k ≡ false
    pub runs : executable k ≡ true
    pub listed : governed k.gateway.mode ≡ true → cataloged k ≡ true
    pub gated : governed k.gateway.mode ≡ true → gate_missing k ≡ false

  pub check_route-Guards :
      (d : Decision) (b : Bool) (h : String) {w : World}
      → Guards (parse k) (λ u w'. IsRouted) w (check_route k d b h)
  unfolding check_route
  check_route-Guards d b h =
      Guards-if (provider_differs k) _ _ (λ e. deny-Guards k d _ b h _)
        (λ agrees.
          Guards-if (not (executable k)) _ _ (λ e. deny-Guards k d _ b h _)
            (λ runs.
              Guards-if (governed k.gateway.mode && not (cataloged k)) _ _
                (λ e. deny-Guards k d _ b h _)
                (λ listed.
                  Guards-if (governed k.gateway.mode && gate_missing k) _ _
                    (λ e. deny-Guards k d _ b h _)
                    (λ gated. Guards-return _ (record {
                      agrees = agrees;
                      runs = negated (executable k) runs;
                      listed = λ g. negated (cataloged k) (behind g listed);
                      gated = λ g. behind g gated;
                    })))))
    where
      negated : (x : Bool) → not x ≡ false → x ≡ true
      negated x e = ground arith

      behind : {g x : Bool} → g ≡ true → (g && x) ≡ false → x ≡ false
      behind e e' = ground arith

  pub check_cancelled-Guards :
      (d : Decision) (b : Bool) {w : World} → Guards (parse k) (True k) w (check_cancelled k d b)
  unfolding check_cancelled
  check_cancelled-Guards d b =
      Guards-if (governed k.gateway.mode) _ _
        (λ e.
          Guards-bind {Q = True k} _ _ (Guards-read _ tt)
            (λ r w' q. Guards-if r _ _ (λ e. Guards-stop _ refl) (λ e. Guards-return _ tt)))
        (λ e. Guards-return _ tt)

  -- An enforcing gateway goes on with a reservation, and the run is within its limit of calls.
  abbrev pub IsReserved : Control → Type 0
  IsReserved c =
      is_enforce k.gateway.mode ≡ true → IsWithin (total_calls (run_id k) c) (calls_cap k)

  -- What the answer to a reservation says.
  abbrev IsTold : Result Raised Bool → World → Type 0
  IsTold r w = r ≡ ok true → IsWithin (total_calls (run_id k) w.control) (calls_cap k)

  after_reserve-Guards :
      (d : Decision) (b : Bool) (r : Result Raised Bool) {w : World}
      → IsTold r w
      → Guards (parse k) (λ u w'. IsReserved w'.control) w (after_reserve k d b r)
  unfolding after_reserve
  after_reserve-Guards d b (ok r) p =
      Guards-if r _ _ (λ e. Guards-return _ (λ e'. p (ap ok e))) (λ e. Guards-stop _ refl)
  after_reserve-Guards d b (err e) p =
      Guards-if (is_enforce k.gateway.mode) _ _ (λ e'. Guards-stop _ refl)
        (λ e'. Guards-return _ (λ e''. cc))

  pub reserve-Guards :
      (d : Decision) (b : Bool) {w : World}
      → Guards (parse k) (λ u w'. IsReserved w'.control) w (reserve k d b)
  unfolding reserve apply
  reserve-Guards d b {w} =
      Guards-if (governed k.gateway.mode) _ _
        (λ e.
          Guards-bind {Q = IsTold} _ (after_reserve k d b)
            (Guards-call _
              (reserved_bounded k.outside.busy_id (run_id k) k.outside.node_id 1 0 (calls_cap k)
                (seconds_cap k))
              k.outside.faults.reserve refl
              (reserve_bounded-IsWithin k.outside.busy_id (run_id k) k.outside.node_id 1 0
                (calls_cap k) (seconds_cap k) w.control k.outside.faults.reserve))
            (λ r w' q. after_reserve-Guards d b r q))
        (λ e. Guards-return _ (λ e'. ground (arith, governed-is_enforce k.gateway.mode e)))

  -- The step leaves the tables as they are, where it goes on.
  abbrev pub Same : {A : Type 0} → World → A → World → Type 0
  Same w a w' = w'.control ≡ w.control

  give_up-Guards :
      (d : Decision) (b s : Bool) {w : World} → Guards (parse k) (Same w) w (give_up k d b s)
  unfolding give_up apply
  give_up-Guards d b false = Guards-return _ refl
  give_up-Guards d b true =
      Guards-then {Q = True k} _ _
        (Guards-call _ (released (run_id k) k.outside.node_id) k.outside.faults.release refl tt)
        (λ r w' q. Guards-stop _ refl)

  pub recheck_cancelled-Guards :
      (d : Decision) (b : Bool) {w : World} → Guards (parse k) (Same w) w (recheck_cancelled k d b)
  unfolding recheck_cancelled
  recheck_cancelled-Guards d b {w} =
      Guards-if (governed k.gateway.mode) _ _
        (λ e. Guards-bind {Q = Same w} _ (give_up k d b) (Guards-read _ refl) (λ s w' q.
          subst (λ c. Guards (parse k) (λ u v. v.control ≡ c) w' (give_up k d b s)) q
            (give_up-Guards d b s)))
        (λ e. Guards-return _ refl)

  pub free_lease-Guards : {w : World} → Guards (parse k) (True k) w (free_lease k)
  unfolding free_lease apply
  free_lease-Guards =
      Guards-if (governed k.gateway.mode) _ _
        (λ e. Guards-call _ (lease_released (run_id k)) k.outside.faults.lease refl tt)
        (λ e. Guards-return _ tt)

  refuse_deadline-Guards :
      (d : Decision) (b : Bool) (h : String) (Q : Option ℕ → World → Type 0) {w : World}
      → Guards (parse k) Q w (refuse_deadline k d b h)
  unfolding refuse_deadline
  refuse_deadline-Guards d b h Q = Guards-then {Q = True k} _ _ free_lease-Guards (λ u w' q.
      Guards-bind {Q = True k} _ _ (audit_loudly-Guards k b _ h) (λ r w'' q'. Guards-stop _ refl))

  release_expired-Guards : {w : World} → Guards (parse k) (True k) w (release_expired k)
  unfolding release_expired apply
  release_expired-Guards =
      Guards-if (governed k.gateway.mode) _ _
        (λ e.
          Guards-call _ (released (run_id k) k.outside.node_id) k.outside.faults.release refl tt)
        (λ e. Guards-return _ tt)

  refuse_expired-Guards :
      (d : Decision) (b : Bool) (h : String) (Q : Option ℕ → World → Type 0) {w : World}
      → Guards (parse k) Q w (refuse_expired k d b h)
  unfolding refuse_expired
  refuse_expired-Guards d b h Q = Guards-then {Q = True k} _ _ release_expired-Guards (λ u w' q.
      Guards-then {Q = λ u w. ⊥} _ _ (deny-Guards k d _ b h _) (λ u w'' never. elim never [ ]))

  -- A deadline that is given reads as a time, and that time is still to come.
  abbrev pub IsTimely : Option String → Type 0
  IsTimely none = Unit
  IsTimely (some t) =
      (due : Instant) × (parse k t ≡ some due) × (k.outside.deadline_now < due.ticks)

  -- The step goes on with the same tables, and the deadline is timely.
  abbrev pub InTime : Option String → World → Option ℕ → World → Type 0
  InTime o w a w' = (w'.control ≡ w.control) × IsTimely o

  bound_run-Guards :
      (t : Option String) (d : Decision) (b : Bool) (h : String) (left : ℕ) (o : Option ℕ)
      {w : World}
      → IsTimely t
      → Guards (parse k) (InTime t w) w (bound_run k d b h left o)
  unfolding bound_run
  bound_run-Guards t d b h left none q = refuse_deadline-Guards d b h _
  bound_run-Guards t d b h left (some longest) q = Guards-return _ (refl, q)

  before_due-Guards :
      (t : String) (d : Decision) (b : Bool) (h : String) (o : Option Instant) {w : World}
      → parse k t ≡ o
      → Guards (parse k) (InTime (some t) w) w (before_due k d b h o)
  unfolding before_due
  before_due-Guards t d b h none e = refuse_deadline-Guards d b h _
  before_due-Guards t d b h (some due) e =
      Guards-if (leb due.ticks k.outside.deadline_now) _ _ (λ late. refuse_expired-Guards d b h _)
        (λ early. bound_run-Guards (some t) d b h _ (max_run k) (due, e, ground arith))

  before_deadline-Guards :
      (o : Option String) (d : Decision) (b : Bool) (h : String) {w : World}
      → Guards (parse k) (InTime o w) w (before_deadline k d b h o)
  unfolding before_deadline
  before_deadline-Guards none d b h = Guards-return _ (refl, tt)
  before_deadline-Guards (some t) d b h = before_due-Guards t d b h (parse k t) refl

  pub check_deadline-Guards :
      (d : Decision) (b : Bool) (h : String) {w : World}
      → Guards (parse k) (InTime (given_text k.envelope.deadline) w) w (check_deadline k d b h)
  unfolding check_deadline
  check_deadline-Guards d b h = before_deadline-Guards (given_text k.envelope.deadline) d b h
