-- ===== src/Gateway/Ends.antt =====
-- The end of a dispatch, from what its steps establish.
use agents_for_dummies.Base.{
  ℕ, suc, ◌+◌, ◌≤◌, String, ◌≡◌, ap, sym, subst, Bool, Option, none, some, List, arith, ◌⊎◌, inl,
  inr, Option-cases, ◌∙◌,
}
use agents_for_dummies.Base.Result.{Result, ok, err}
use agents_for_dummies.Envelope.{Decision}
use agents_for_dummies.Envelope.Validate.{given_text}
use agents_for_dummies.Control.Tables.{Control, Fault, Raised}
use agents_for_dummies.Control.Runs.{total_calls}
use agents_for_dummies.Control.Ops.{Op, history}
use agents_for_dummies.Control.Once.{hash_of, history-hash_of}
use agents_for_dummies.Control.Budget.{IsWithin, history-calls}
use agents_for_dummies.Gateway.Data.{allowed, GatewayResult, World, Step, next, finish, raise}
use agents_for_dummies.Gateway.Steps.{Call, run_id}
use agents_for_dummies.Gateway.Dispatch.{invoke, pipeline, dispatch, settle, calls_cap}
use agents_for_dummies.Gateway.Guards.{
  After, Follows, Reaches, Reaches-trans, Refused, Ending, Ending-bind, Ending-then, Follows-trans,
}
use agents_for_dummies.Gateway.Entry.{
  parse, message, IsClaimed, check_sender-Guards, check_envelope-Guards, check_replay-Guards,
}
use agents_for_dummies.Gateway.Clearance.{
  IsAuthorized, IsRouted, IsReserved, IsTimely, decide-Guards, authorize-Guards, check_route-Guards,
  check_cancelled-Guards, reserve-Guards, recheck_cancelled-Guards, check_deadline-Guards,
}
use agents_for_dummies.Gateway.Closing.{
  invocations, closing, Closes, invoke-Does, closing-AreCapped,
}

module _ (k : Call) where
  -- What holds when the dispatch has invoked a worker.
  pub record Invoked (w : World) (r : GatewayResult) (w' : World) : Type 0 where
    pub allowed : r.status ≡ allowed
    pub once : invocations w'.events ≡ suc (invocations w.events)
    pub reached : Reaches (parse k) w.control w'.control
    pub authorized : IsAuthorized k r.decision r.decision_recorded
    pub routed : IsRouted k
    pub claimed : IsClaimed k w.control w'.control
    pub reserved : IsReserved k w'.control
    pub timely : IsTimely k (given_text k.envelope.deadline)

  -- A dispatch ends with a worker invoked, or it is refused or raises and changed the tables only.
  abbrev pub Ends : World → Result Raised GatewayResult × World → Type 0
  Ends w (ok r, w') = Invoked w r w' ⊎ Refused (parse k) w r w'
  Ends w (err e, w') = Follows (parse k) w w'

  IsClaimed-after :
      (a b c : Control) (ops : List (Op × Fault))
      → IsClaimed k a b
      → history (parse k) ops b ≡ c
      → IsClaimed k a c
  IsClaimed-after a b c ops q e en =
      let (fresh, h, e') = q en in
      (
        fresh,
        h,
        subst (λ x. hash_of (message k) x ≡ some h) e
            (history-hash_of (parse k) (message k) h ops b e'),
      )

  IsReserved-after :
      (b c : Control) (h : String)
      → IsReserved k b
      → history (parse k) (closing k h) b ≡ c
      → IsReserved k c
  IsReserved-after b c h q e en = bound (calls_cap k) (q en)
    where
      bound :
          (o : Option ℕ)
          → IsWithin (total_calls (run_id k) b) o
          → IsWithin (total_calls (run_id k) c) o
      bound none x = tt
      bound (some m) x =
          subst (λ c'. total_calls (run_id k) c' ≤ m) e
            (history-calls (run_id k) (parse k) m (closing k h) b (closing-AreCapped k m h) x)

  module _ (w0 : World) where
    -- Everything that the guards have established before the invocation.
    invoke-Ending :
        (d : Decision) (b : Bool) (h : String) (t : Option ℕ) {w : World}
        → Follows (parse k) w0 w
        → IsClaimed k w0.control w.control
        → IsAuthorized k d b
        → IsRouted k
        → IsReserved k w.control
        → IsTimely k (given_text k.envelope.deadline)
        → Ending (parse k) (Invoked w0) w (invoke k d b h t)
    invoke-Ending d b h t {w} fol claimed authorized routed reserved timely = record {
      ended = after (invoke k d b h t w) (invoke-Does k d b h t w).done;
    }
      where
        after :
            (x : Step GatewayResult × World)
            → After
                (λ r w'.
                  Closes k d b r
                  × (history (parse k) (closing k h) w.control ≡ w'.control)
                  × (invocations w'.events ≡ 1 + invocations w.events))
                (λ r w'. ⊥)
                (λ e w'. ⊥)
                x
            → After (Invoked w0) (Refused (parse k) w) (λ e. Follows (parse k) w) x
        after (next r, w') ((status, decision, recorded), e, count) = record {
          allowed = status;
          once = omega (arith, count, ap invocations fol.events);
          reached =
              Reaches-trans (parse k) w0.control w.control w'.control fol.control (closing k h, e);
          authorized = rw (decision, recorded) authorized;
          routed = routed;
          claimed = IsClaimed-after w0.control w.control w'.control (closing k h) claimed e;
          reserved = IsReserved-after w.control w'.control h reserved e;
          timely = timely;
        }
        after (finish r, w') never = elim never [ ]
        after (raise r, w') never = elim never [ ]

  IsClaimed-Follows :
      (a b c : World)
      → IsClaimed k a.control b.control
      → Follows (parse k) b c
      → IsClaimed k a.control c.control
  IsClaimed-Follows a b c q fol =
      let (ops, e) = fol.control in IsClaimed-after a.control b.control c.control ops q e

  IsClaimed-since :
      (a b c : World)
      → Follows (parse k) a b
      → IsClaimed k b.control c.control
      → IsClaimed k a.control c.control
  IsClaimed-since a b c fol q en =
      let (fresh, h, e) = q en in
      (unseen fresh (Option-cases (hash_of (message k) a.control)), h, e)
    where
      unseen :
          hash_of (message k) b.control ≡ none
          → (hash_of (message k) a.control ≡ none)
            ⊎ ((x : String) × (hash_of (message k) a.control ≡ some x))
          → hash_of (message k) a.control ≡ none
      unseen fresh (inl e) = e
      unseen fresh (inr (x, e)) =
          let (ops, r) = fol.control in
          let kept : hash_of (message k) b.control ≡ some x =
            subst (λ c'. hash_of (message k) c' ≡ some x) r
              (history-hash_of (parse k) (message k) x ops a.control e) in
          cc

  pipeline-Ending : (w : World) → Ending (parse k) (Invoked w) w (pipeline k)
  unfolding pipeline
  pipeline-Ending w = Ending-then _ _ (check_sender-Guards k) (λ u1 w1 q1 f1.
      Ending-bind _ _ (check_envelope-Guards k) (λ h w2 q2 f2.
        Ending-then _ _ (check_replay-Guards k h) (λ u3 w3 q3 f3.
          Ending-bind _ _ (decide-Guards k) (λ d w4 q4 f4.
            Ending-bind _ _ (authorize-Guards k d h) (λ b w5 q5 f5.
              Ending-then _ _ (check_route-Guards k d b h) (λ u6 w6 q6 f6.
                Ending-then _ _ (check_cancelled-Guards k d b) (λ u7 w7 q7 f7.
                  Ending-then _ _ (reserve-Guards k d b) (λ u8 w8 q8 f8.
                    Ending-then _ _ (recheck_cancelled-Guards k d b) (λ u9 w9 q9 f9.
                      Ending-bind _ _ (check_deadline-Guards k d b h) (λ t w' q10 f10.
                        let f2' : Follows (parse k) w w2 = Follows-trans _ f1 f2 in
                        let f' : Follows (parse k) w3 w' = Follows-trans _ f4 (
                          Follows-trans _ f5 (
                            Follows-trans _ f6 (
                              Follows-trans _ f7 (Follows-trans _ f8 (Follows-trans _ f9 f10))))) in
                        invoke-Ending w d b h t (Follows-trans _ f2' (Follows-trans _ f3 f'))
                          (IsClaimed-since w w2 w' f2' (IsClaimed-Follows w2 w3 w' q3 f')) q5 q6
                          (subst (IsReserved k) (sym (q10.0 ∙ q9)) q8) q10.1))))))))))

  pub dispatch-Ends : (w : World) → Ends w (dispatch k w)
  unfolding dispatch
  dispatch-Ends w = settled (pipeline k w) (pipeline-Ending w).ended
    where
      settled :
          (x : Step GatewayResult × World)
          → After (Invoked w) (Refused (parse k) w) (λ e. Follows (parse k) w) x
          → Ends w (settle k x)
      settled (next r, w') p = inl p
      settled (finish r, w') p = inr p
      settled (raise e, w') p = p
