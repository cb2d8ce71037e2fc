-- ===== src/Gateway/Closing.antt =====
-- The last steps of a dispatch: it starts one worker, commits, stores the output, frees the lease.
use agents_for_dummies.Base.{
  ℕ, suc, ◌+◌, String, ◌≡◌, refl, sym, Bool, true, false, Option, List, [], ◌∷◌, ◌++◌, arith,
  if◌then◌else◌,
}
use agents_for_dummies.Base.Int.{pos}
use agents_for_dummies.Envelope.{Decision}
use agents_for_dummies.Control.Tables.{Control, Fault}
use agents_for_dummies.Policy.Data.{Instant}
use agents_for_dummies.Control.Ops.{Op, apply, history, lease_released, committed, stored}
use agents_for_dummies.Control.Budget.{AreCapped}
use agents_for_dummies.Gateway.Data.{
  Event, dispatched, invoked, finished, output_bound, allowed, GatewayResult, World, M, Step, next,
  finish, raise, return, control_call, log, ◌>>=◌, ◌>>◌,
}
use agents_for_dummies.Gateway.Steps.{Call, governed, run_id}
use agents_for_dummies.Gateway.Dispatch.{
  invoke, commit, bind_output, free_lease, worker_result, keeps_output,
}
use agents_for_dummies.Gateway.Guards.{After, history-append}
use agents_for_dummies.Gateway.Entry.{parse}

-- How many workers the events start.
abbrev pub invocations : List Event → ℕ
invocations [] = 0
invocations (invoked provider model prompt timeout ∷ es) = suc (invocations es)
invocations (_ ∷ es) = invocations es

invocations-append :
    (es more : List Event) → invocations (es ++ more) ≡ invocations es + invocations more
invocations-append [] more = omega arith
invocations-append (invoked p m t o ∷ es) more = omega (arith, invocations-append es more)
invocations-append (dispatched a b c d e f ∷ es) more = omega (arith, invocations-append es more)
invocations-append (finished a b c ∷ es) more = omega (arith, invocations-append es more)
invocations-append (output_bound a b ∷ es) more = omega (arith, invocations-append es more)

module _ (parse_iso : String → Option Instant) where
  -- The step goes on with a value in `P`, runs the methods, and starts `n` workers.
  pub record Does {A : Type 0} (P : A → Type 0) (ops : List (Op × Fault)) (n : ℕ) (w : World)
      (m : M A) : Type 0 where
    pub done :
        After
          (λ a w'.
            P a
            × (history parse_iso ops w.control ≡ w'.control)
            × (invocations w'.events ≡ n + invocations w.events))
          (λ r w'. ⊥)
          (λ e w'. ⊥)
          (m w)

  Does-then :
      {A B : Type 0} {P : A → Type 0} {P' : B → Type 0} (ops more : List (Op × Fault)) (n n' : ℕ)
      (w : World) (m : M A) (m' : M B)
      → Does P ops n w m
      → ((v : World) → Does P' more n' v m')
      → Does P' (ops ++ more) (n' + n) w (m >> m')
  unfolding ◌>>=◌ ◌>>◌
  Does-then {A} {B} {P} {P'} ops more n n' w m m' x y = record { done = join (m w) x.done }
    where
      lift :
          (v : World) (z : Step B × World)
          → history parse_iso ops w.control ≡ v.control
          → invocations v.events ≡ n + invocations w.events
          → After
              (λ b u.
                P' b
                × (history parse_iso more v.control ≡ u.control)
                × (invocations u.events ≡ n' + invocations v.events))
              (λ r w'. ⊥)
              (λ e w'. ⊥)
              z
          → After
              (λ b u.
                P' b
                × (history parse_iso (ops ++ more) w.control ≡ u.control)
                × (invocations u.events ≡ n' + n + invocations w.events))
              (λ r w'. ⊥)
              (λ e w'. ⊥)
              z
      lift v (next b, u) e e' (p, f, f') =
          (p, rw (history-append parse_iso ops more w.control, e, f), omega arith)
      lift v (finish r, u) e e' never = never
      lift v (raise r, u) e e' never = never

      join :
          (z : Step A × World)
          → After
              (λ a v.
                P a
                × (history parse_iso ops w.control ≡ v.control)
                × (invocations v.events ≡ n + invocations w.events))
              (λ r w'. ⊥)
              (λ e w'. ⊥)
              z
          → After
              (λ b u.
                P' b
                × (history parse_iso (ops ++ more) w.control ≡ u.control)
                × (invocations u.events ≡ n' + n + invocations w.events))
              (λ r w'. ⊥)
              (λ e w'. ⊥)
              (let (s, v) = z in
                elim s [ next a ↦ m' v | finish r ↦ (finish r, v) | raise e ↦ (raise e, v) ])
      join (next a, v) (p, f, f') = lift v (m' v) f f' (y v).done
      join (finish r, v) never = never
      join (raise r, v) never = never

  Does-if :
      {A : Type 0} {P : A → Type 0} (b : Bool) (ops : List (Op × Fault)) (w : World) (m n : M A)
      → Does P ops 0 w m
      → Does P [] 0 w n
      → Does P (if b then ops else []) 0 w (if b then m else n)
  Does-if true ops w m n x y = x
  Does-if false ops w m n x y = y

  Does-return : {A : Type 0} {P : A → Type 0} (w : World) (a : A) → P a → Does P [] 0 w (return a)
  unfolding return history
  Does-return w a p = record { done = (p, refl, omega arith) }

  Does-log : (w : World) (e : Event) → Does (λ u. Unit {0}) [] (invocations (e ∷ [])) w (log e)
  unfolding log history
  Does-log w e = record { done = (tt, refl, omega (arith, invocations-append w.events (e ∷ []))) }

  Does-call :
      {A : Type 0} (w : World) (g : Control → A × Control) (op : Op) (f : Fault)
      → (g w.control).1 ≡ apply parse_iso op f w.control
      → Does (λ a. Unit {0}) ((op, f) ∷ []) 0 w (control_call g)
  unfolding control_call history
  Does-call w g op f e = record { done = (tt, sym e, omega arith) }

module _ (k : Call) where
  -- The methods that a dispatch runs from the invocation on.
  abbrev commit_ops : List (Op × Fault)
  commit_ops =
      if governed k.gateway.mode
      then (committed (run_id k) k.outside.node_id (pos k.outside.elapsed), k.outside.faults.commit)
        ∷ []
      else []

  abbrev store_ops : String → List (Op × Fault)
  store_ops h =
      if keeps_output k (worker_result k)
      then (stored k.envelope.message_id h k.outside.output_hash, k.outside.faults.store) ∷ []
      else []

  abbrev lease_ops : List (Op × Fault)
  lease_ops =
      if governed k.gateway.mode
      then (lease_released (run_id k), k.outside.faults.lease) ∷ []
      else []

  commit-Does : (w : World) → Does (parse k) (λ a. Unit {0}) commit_ops 0 w (commit k)
  unfolding commit apply
  commit-Does w =
      Does-if (parse k) (governed k.gateway.mode) _ w _ _
        (Does-call (parse k) w _ _ k.outside.faults.commit refl) (Does-return (parse k) w false tt)

  bind_output-Does :
      (h : String) (w : World) → Does (parse k) (λ a. Unit {0}) (store_ops h) 0 w (bind_output k h)
  unfolding bind_output apply
  bind_output-Does h w =
      Does-if (parse k) (keeps_output k (worker_result k)) _ w _ _
        (Does-then (parse k) [] _ 0 0 w _ _ (Does-log (parse k) w _) (λ w1.
          Does-then (parse k) _ [] 0 0 w1 _ _
            (Does-call (parse k) w1 _ _ k.outside.faults.store refl)
            (λ w2. Does-return (parse k) w2 tt tt)))
        (Does-return (parse k) w tt tt)

  free_lease-Does : (w : World) → Does (parse k) (λ a. Unit {0}) lease_ops 0 w (free_lease k)
  unfolding free_lease apply
  free_lease-Does w =
      Does-if (parse k) (governed k.gateway.mode) _ w _ _
        (Does-call (parse k) w _ _ k.outside.faults.lease refl) (Does-return (parse k) w false tt)

  abbrev pub closing : String → List (Op × Fault)
  closing h = commit_ops ++ (store_ops h ++ (lease_ops ++ []))

  abbrev pub Closes : Decision → Bool → GatewayResult → Type 0
  Closes d b r = (r.status ≡ allowed) × (r.decision ≡ d) × (r.decision_recorded ≡ b)

  pub invoke-Does :
      (d : Decision) (b : Bool) (h : String) (t : Option ℕ) (w : World)
      → Does (parse k) (Closes d b) (closing h) 1 w (invoke k d b h t)
  unfolding invoke
  invoke-Does d b h t w = Does-then (parse k) [] _ 0 1 w _ _ (Does-log (parse k) w _) (λ w1.
      Does-then (parse k) [] _ 1 0 w1 _ _ (Does-log (parse k) w1 _) (λ w2.
        Does-then (parse k) commit_ops _ 0 0 w2 _ _ (commit-Does w2) (λ w3.
          Does-then (parse k) [] _ 0 0 w3 _ _ (Does-log (parse k) w3 _) (λ w4.
            Does-then (parse k) (store_ops h) _ 0 0 w4 _ _ (bind_output-Does h w4) (λ w5.
              Does-then (parse k) lease_ops [] 0 0 w5 _ _ (free_lease-Does w5)
                (λ w6. Does-return (parse k) w6 _ (refl, refl, refl)))))))

  pub closing-AreCapped : (m : ℕ) (h : String) → AreCapped (run_id k) m (closing h)
  closing-AreCapped m h = capped (governed k.gateway.mode) (keeps_output k (worker_result k))
    where
      capped :
          (g o : Bool)
          → AreCapped (run_id k) m (
              (if g
                then (
                  committed (run_id k) k.outside.node_id (pos k.outside.elapsed),
                  k.outside.faults.commit,
                )
                  ∷ []
                else [])
              ++ ((if o
                    then (
                      stored k.envelope.message_id h k.outside.output_hash,
                      k.outside.faults.store,
                    )
                      ∷ []
                    else [])
                  ++ ((if g then (lease_released (run_id k), k.outside.faults.lease) ∷ [] else [])
                      ++ [])))
      capped true true = (tt, (tt, (tt, tt)))
      capped true false = (tt, (tt, tt))
      capped false true = (tt, tt)
      capped false false = tt
