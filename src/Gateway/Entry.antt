-- ===== src/Gateway/Entry.antt =====
-- The steps of a dispatch up to the replay check, as guards of the invocation.
use agents_for_dummies.Base.{
  String, ◌≡◌, refl, Bool, true, false, Option, none, some, List, [], ◌∷◌, arith, ap,
}
use agents_for_dummies.Base.Result.{Result, ok, err}
use agents_for_dummies.Envelope.{Decision, ReasonCode}
use agents_for_dummies.Envelope.Validate.{Defect}
use agents_for_dummies.Policy.Data.{Instant}
use agents_for_dummies.Control.Tables.{Control, Raised}
use agents_for_dummies.Control.Replay.{
  ReplayState, ReplayResult, new, duplicate as duplicate_state, conflict as conflict_state, error,
  claim_replay,
}
use agents_for_dummies.Control.Once.{hash_of, claim_state, claim-new}
use agents_for_dummies.Control.Ops.{Op, apply, recorded, claimed}
use agents_for_dummies.Gateway.Data.{Mode, World, raise_err, return, control_call}
use agents_for_dummies.Gateway.Steps.{
  Call, governed, is_enforce, run_id, audit, or_false, audit_loudly, audit_quietly, deny, impostor,
  check_sender, check_envelope, check_replay, refuse_defects, unavailable, after_claim, after_state,
  settle_conflict,
}
use agents_for_dummies.Gateway.Guards.{
  Guards, Guards-bind, Guards-call, Guards-if, Guards-return, Guards-stop, Guards-raise_err,
  Guards-then,
}

pub governed-is_enforce : (m : Mode) → governed m ≡ false → is_enforce m ≡ false
governed-is_enforce m h = ground arith

module _ (k : Call) where
  abbrev pub parse : String → Option Instant
  parse = k.platform.parse_iso

  abbrev pub True : {A : Type 0} → A → World → Type 0
  True a w = Unit

  -- The method that an audit runs.
  abbrev pub audit_op : Decision → String → Op
  audit_op d h =
      recorded d (run_id k) k.outside.node_id h k.envelope.sender k.envelope.recipient
        k.envelope.operation

  pub audit-Guards :
      (d : Decision) (h : String) {w : World} → Guards parse True w (control_call (audit k d h))
  unfolding apply
  audit-Guards d h = Guards-call (audit k d h) (audit_op d h) k.outside.faults.denial refl tt

  audit_quietly-Guards :
      (d : Decision) (h : String) {w : World} → Guards parse True w (audit_quietly k d h)
  unfolding audit_quietly
  audit_quietly-Guards d h =
      Guards-if (governed k.gateway.mode) _ _
        (λ e.
          Guards-bind _ (λ r. return (or_false k r)) (audit-Guards d h)
            (λ r w' q. Guards-return _ tt))
        (λ e. Guards-return false tt)

  pub audit_loudly-Guards :
      (b : Bool) (d : Decision) (h : String) {w : World}
      → Guards parse True w (audit_loudly k b d h)
  unfolding audit_loudly
  audit_loudly-Guards b d h =
      Guards-if (governed k.gateway.mode) _ _
        (λ e. Guards-bind _ raise_err (audit-Guards d h) (λ r w' q. Guards-raise_err r (λ a p. tt)))
        (λ e. Guards-return b tt)

  pub deny-Guards :
      (d : Decision) (code : ReasonCode) (b : Bool) (h : String) (Q : Unit {0} → World → Type 0)
      {w : World}
      → Guards parse Q w (deny k d code b h)
  unfolding deny
  deny-Guards d code b h Q =
      Guards-bind _ _ (audit_loudly-Guards b _ h) (λ r w' q. Guards-stop _ refl)

  pub check_sender-Guards : {w : World} → Guards parse True w (check_sender k)
  unfolding check_sender
  check_sender-Guards =
      Guards-if (impostor k) _ _
        (λ e. Guards-bind _ _ (audit_quietly-Guards _ _) (λ r w' q. Guards-stop _ refl))
        (λ e. Guards-return _ tt)

  refuse_defects-Guards :
      (ds : List Defect) {w : World} → Guards parse (λ u w'. ds ≡ []) w (refuse_defects k ds)
  unfolding refuse_defects
  refuse_defects-Guards [] = Guards-return _ refl
  refuse_defects-Guards (x ∷ xs) =
      Guards-bind _ _ (audit_quietly-Guards _ _) (λ r w' q. Guards-stop _ refl)

  pub check_envelope-Guards : {w : World} → Guards parse True w (check_envelope k)
  unfolding check_envelope
  check_envelope-Guards = Guards-bind {Q = True} _ _ (Guards-raise_err _ (λ a p. tt)) (λ ds w' q.
      Guards-then _ _ (refuse_defects-Guards _) (λ u w'' q'. Guards-raise_err _ (λ a p. tt)))

  -- The control layer is there in a mode that needs it.
  abbrev Enforced : Type 0
  Enforced = is_enforce k.gateway.mode ≡ true

  abbrev pub message : String
  message = k.envelope.message_id

  -- An enforcing gateway goes past the replay check only with a new claim of the message.
  abbrev pub IsClaimed : Control → Control → Type 0
  IsClaimed c c' =
      is_enforce k.gateway.mode ≡ true
      → (hash_of message c ≡ none) × (h : String) × (hash_of message c' ≡ some h)

  unavailable-Guards :
      (Q : Unit {0} → World → Type 0) {w : World}
      → (is_enforce k.gateway.mode ≡ false → Q tt w)
      → Guards parse Q w (unavailable k)
  unfolding unavailable
  unavailable-Guards Q h =
      Guards-if (is_enforce k.gateway.mode) _ _ (λ e. Guards-stop _ refl)
        (λ e. Guards-return _ (h e))

  settle_conflict-Guards :
      (Q : Unit {0} → World → Type 0) (d : Decision) (r : Result Raised Bool) {w : World}
      → (is_enforce k.gateway.mode ≡ false → Q tt w)
      → Guards parse Q w (settle_conflict k d r)
  unfolding settle_conflict
  settle_conflict-Guards Q d (ok b) h = Guards-stop _ refl
  settle_conflict-Guards Q d (err e) h = unavailable-Guards Q h

  shadow-IsClaimed : (c c' : Control) → is_enforce k.gateway.mode ≡ false → IsClaimed c c'
  shadow-IsClaimed c c' h e = cc

  ungoverned-IsClaimed : (c c' : Control) → governed k.gateway.mode ≡ false → IsClaimed c c'
  ungoverned-IsClaimed c c' h = shadow-IsClaimed c c' (governed-is_enforce k.gateway.mode h)

  after_state-Guards :
      (c : Control) (h : String) (s : ReplayState) {w : World}
      → (s ≡ new → (hash_of message c ≡ none) × (hash_of message w.control ≡ some h))
      → Guards parse (λ u w'. IsClaimed c w'.control) w (after_state k h s)
  unfolding after_state
  after_state-Guards c h new p = Guards-return _ (λ e. ((p refl).0, h, (p refl).1))
  after_state-Guards c h error {w} p = unavailable-Guards _ (shadow-IsClaimed c w.control)
  after_state-Guards c h duplicate_state p = Guards-stop _ refl
  after_state-Guards c h conflict_state p =
      Guards-bind _ (settle_conflict k _) (audit-Guards _ h)
        (λ r w' q. settle_conflict-Guards _ _ r (shadow-IsClaimed c w'.control))

  -- What a claim's answer says of the tables before and after it.
  abbrev IsTold : Control → String → Result Raised ReplayResult → World → Type 0
  IsTold c h r w =
      claim_state r ≡ some new → (hash_of message c ≡ none) × (hash_of message w.control ≡ some h)

  after_claim-Guards :
      (c : Control) (h : String) (r : Result Raised ReplayResult) {w : World}
      → IsTold c h r w
      → Guards parse (λ u w'. IsClaimed c w'.control) w (after_claim k h r)
  unfolding after_claim
  after_claim-Guards c h (ok r) p = after_state-Guards c h r.state (λ e. p (ap some e))
  after_claim-Guards c h (err e) {w} p = unavailable-Guards _ (shadow-IsClaimed c w.control)

  pub check_replay-Guards :
      (h : String) {w : World}
      → Guards parse (λ u w'. IsClaimed w.control w'.control) w (check_replay k h)
  unfolding check_replay apply
  check_replay-Guards h {w} =
      Guards-if (governed k.gateway.mode) _ _
        (λ e.
          Guards-bind {Q = IsTold w.control h} _ (after_claim k h)
            (Guards-call (claim_replay k.outside.faults.claim message h) (claimed message h)
              k.outside.faults.claim refl
              (λ p. claim-new k.outside.faults.claim message h w.control p))
            (λ r w' q. after_claim-Guards w.control h r q))
        (λ e. Guards-return _ (ungoverned-IsClaimed w.control w.control e))
