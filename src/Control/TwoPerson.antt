-- ===== src/Control/TwoPerson.antt =====
-- What a binding approval stands for, after any history of the tables.
use agents_for_dummies.Base.{
  ℕ, zero, suc, String, ◌≡◌, ◌≢◌, refl, ap, true, false, Option, none, some, List, arith, eq_iff,
  Option-cases, ◌⊎◌, inl, inr,
}
use agents_for_dummies.Base.Result.{ok}
use agents_for_dummies.Policy.Data.{Instant}
use agents_for_dummies.Control.Tables.{
  Control, Approval, Fault, fine, readonly, broken, take_chars, empty,
}
use agents_for_dummies.Control.Approvals.{approval_binds, approval_of, same_person, past_expiry}
use agents_for_dummies.Control.Ops.{Op, history}
use agents_for_dummies.Control.Rows.{history-AllRows}
use agents_for_dummies.Base.{subst}
use agents_for_dummies.Control.Approvals.{row_binds}

-- A decision, where there is one, was taken by someone else than the requester.
abbrev pub IsByOther : Approval → Type 0
IsByOther a =
    (a.decision ≡ none)
    ⊎ ((p : String) × (same_person a.requester p ≡ false) × (a.approver ≡ some (take_chars 256 p)))

take_chars_idem : (n : ℕ) (s : String) → take_chars n (take_chars n s) ≡ take_chars n s
unfolding take_chars
take_chars_idem zero s = refl
take_chars_idem (suc n) String.[] = refl
take_chars_idem (suc n) (String.◌∷◌ c s) = ap (String.◌∷◌ c) (take_chars_idem n s)

module _ (parse_iso : String → Option Instant) where
  row_binds-true :
      (a : Approval) (action resource artifact_hash now : String)
      → row_binds parse_iso a action resource artifact_hash now ≡ ok true
      → (a.decision ≡ some "approved")
        × (past_expiry parse_iso now a.expires_at ≡ ok false)
        × (a.action ≡ action)
        × (a.resource ≡ resource)
        × (a.artifact_hash ≡ artifact_hash)
  unfolding row_binds
  row_binds-true a action resource artifact_hash now h = elim (Option-cases a.decision) [
    | inl e ↦ ground arith
    | inr (d, e) ↦ ground (
      arith,
      eq_iff d "approved",
      eq_iff a.action action,
      eq_iff a.resource resource,
      eq_iff a.artifact_hash artifact_hash,
    )
  ]

  binds_row :
      (f : Fault) (i action resource artifact_hash now : String) (c : Control)
      → approval_binds parse_iso f i action resource artifact_hash now c ≡ ok true
      → (a : Approval) × (approval_of i c ≡ some a)
        × (row_binds parse_iso a action resource artifact_hash now ≡ ok true)
  unfolding approval_binds
  binds_row fine i action resource artifact_hash now c h = elim (Option-cases (approval_of i c)) [
    | inl e ↦ ground arith
    | inr (a, e) ↦ (a, e, rw (e, approval_binds) at h)
  ]
  binds_row readonly i action resource artifact_hash now c h = cc
  binds_row broken i action resource artifact_hash now c h = cc

  history-cut :
      (ops : List (Op × Fault)) (j : String) (a : Approval)
      → approval_of j (history parse_iso ops empty) ≡ some a
      → take_chars 256 a.action ≡ a.action
  history-cut ops =
      history-AllRows parse_iso (λ a. take_chars 256 a.action ≡ a.action)
        (λ i r q a s k l m x. take_chars_idem 256 a) (λ i p d n row other h. h) ops empty
        (λ j a e. cc)

  -- After any history of an empty database, no approval binds an action that is longer than 256
  -- characters: the table holds its first 256 characters, and the comparison takes the whole text.
  pub long_action_unbound :
      (ops : List (Op × Fault)) (f : Fault) (i action resource artifact_hash now : String)
      → take_chars 256 action ≢ action
      → approval_binds parse_iso f i action resource artifact_hash now (history parse_iso ops empty)
        ≢ ok true
  long_action_unbound ops f i action resource artifact_hash now long h =
      let (a, found, bound) = binds_row f i action resource artifact_hash now _ h in
      let act = (row_binds-true a action resource artifact_hash now bound).2 in
      long (subst (λ t. take_chars 256 t ≡ t) act (history-cut ops i a found))
