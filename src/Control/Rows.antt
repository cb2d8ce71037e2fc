-- ===== src/Control/Rows.antt =====
-- The rows of the approvals table over a history: what every method keeps of them.
use agents_for_dummies.Base.{
  String, ◌≡◌, refl, false, Option, none, some, List, [], ◌∷◌, ◌++◌, ◌==◌, arith, eq_iff,
  Option-cases, String-cases, find_first, is_some, if◌then◌else◌, ◌⊎◌, inl, inr,
}
use agents_for_dummies.Base.Result.{ok}
use agents_for_dummies.Policy.Data.{Instant}
use agents_for_dummies.Control.Tables.{Control, Approval, Fault, fine, update_where}
use agents_for_dummies.Control.Runs.{
  record_decision, reserve_bounded, reserve, release, commit_usage, record_run_budget, cancel,
  acquire_lease, release_lease,
}
use agents_for_dummies.Control.Replay.{claim_replay, store_artifact}
use agents_for_dummies.Control.Approvals.{
  request_approval, decide_approval, approval_of, new_approval, settle, same_person, past_expiry,
}
use agents_for_dummies.Control.Ops.{Op, apply, history, requested, decided}
use agents_for_dummies.Control.Approvals.{decide_row}
use agents_for_dummies.Base.{sym, subst}

abbrev find_row : String → List Approval → Option Approval
find_row i rows = find_first (λ a. a.approval_id == i) rows

abbrev settled : (Approval → Approval) → Option Approval → Option Approval
settled f none = none
settled f (some a) = some (f a)

find-append :
    (i : String) (rows : List Approval) (a : Approval)
    → find_row i (rows ++ a ∷ []) ≡ (
        if is_some (find_row i rows)
        then find_row i rows
        else if a.approval_id == i
        then some a
        else none)
find-append i [] a = refl
find-append i (r ∷ rows) a = ground (arith, find-append i rows a)

module _ (parse_iso : String → Option Instant) where
  find-settle :
      (i j p d n : String) (rows : List Approval)
      → find_row j (update_where (λ r. r.approval_id == i) (settle parse_iso i p d n) rows)
        ≡ (if i == j then settled (settle parse_iso i p d n) (find_row j rows) else find_row j rows)
  find-settle i j p d n [] = ground arith
  find-settle i j p d n (r ∷ rows) = ground (
    arith,
    find-settle i j p d n rows,
    eq_iff r.approval_id i,
    eq_iff r.approval_id j,
    eq_iff i j,
  )

  abbrev decided_tables : String → String → String → String → Control → Control
  decided_tables i p d n c = record c {
    approvals = update_where (λ r. r.approval_id == i) (settle parse_iso i p d n) c.approvals;
  }

  row_cases :
      (row : Approval) (i p d n : String) (c : Control)
      → ((decide_row parse_iso row i p d n c).1 ≡ c)
        ⊎ ((row.decision ≡ none)
            × (same_person row.requester p ≡ false)
            × (past_expiry parse_iso n row.expires_at ≡ ok false)
            × ((decide_row parse_iso row i p d n c).1 ≡ decided_tables i p d n c))
  unfolding decide_row
  row_cases row i p d n c = ground arith

  -- The tables stay, or an undecided row of another requester is settled in time.
  decide_cases :
      (f : Fault) (i p d n : String) (c : Control)
      → ((decide_approval parse_iso f i p d n c).1 ≡ c)
        ⊎ ((row : Approval) × (approval_of i c ≡ some row)
            × (row.decision ≡ none)
            × (same_person row.requester p ≡ false)
            × (past_expiry parse_iso n row.expires_at ≡ ok false)
            × ((decide_approval parse_iso f i p d n c).1 ≡ decided_tables i p d n c))
  unfolding decide_approval
  decide_cases fine i p d n c = elim (Option-cases (approval_of i c)) [
    | inl e ↦ inl (ground arith)
    | inr (row, e) ↦ elim (row_cases row i p d n c) [
      | inl same ↦ inl (rw (e, decide_approval) same)
      | inr (open_row, other, late, after) ↦
          inr (row, e, open_row, other, late, rw (e, decide_approval) after)
    ]
  ]
  decide_cases _ i p d n c = inl refl

  module _ (P : Approval → Type 0)
      (fresh : (i r q a s k l : String) (m : List String) (x : String)
        → P (new_approval i r q a s k l m x))
      (kept : (i p d n : String) (row : Approval)
        → same_person row.requester p ≡ false
        → P row
        → P (settle parse_iso i p d n row)) where
    -- Every approval that a look-up finds.
    abbrev pub AllRows : Control → Type 0
    AllRows c = (j : String) (a : Approval) → approval_of j c ≡ some a → P a

    settle-AllRows :
        (i p d n : String) (c : Control) (row : Approval)
        → approval_of i c ≡ some row
        → same_person row.requester p ≡ false
        → AllRows c
        → AllRows (decided_tables i p d n c)
    settle-AllRows i p d n c row found other h j a e = elim (String-cases i j) [
      | inl here ↦
          subst P (ground (arith, find-settle i j p d n c.approvals, eq_iff i j))
            (kept i p d n row other (h i row found))
      | inr there ↦ h j a (ground (arith, find-settle i j p d n c.approvals))
    ]

    decide-AllRows :
        (f : Fault) (i p d n : String) (c : Control)
        → AllRows c
        → AllRows (decide_approval parse_iso f i p d n c).1
    decide-AllRows f i p d n c h = elim (decide_cases f i p d n c) [
      | inl same ↦ subst AllRows (sym same) h
      | inr (row, found, _, other, _, after) ↦
          subst AllRows (sym after) (settle-AllRows i p d n c row found other h)
    ]

    request-AllRows :
        (f : Fault) (i r q a s k l : String) (m : List String) (x : String) (c : Control)
        → AllRows c
        → AllRows (request_approval f i r q a s k l m x c).1
    unfolding request_approval
    request-AllRows fine i r q a s k l m x c h j b e = elim (Option-cases (approval_of j c)) [
      | inr (old, found) ↦
          h j b (ground (arith, find-append j c.approvals (new_approval i r q a s k l m x)))
      | inl absent ↦
          subst P (ground (arith, find-append j c.approvals (new_approval i r q a s k l m x)))
            (fresh i r q a s k l m x)
    ]
    request-AllRows _ i r q a s k l m x c h j b e = h j b e

    apply-AllRows :
        (op : Op) (f : Fault) (c : Control) → AllRows c → AllRows (apply parse_iso op f c)
    unfolding apply record_decision reserve_bounded reserve release commit_usage record_run_budget
        cancel acquire_lease release_lease claim_replay store_artifact
    apply-AllRows (decided i p d n) f c h j a e = decide-AllRows f i p d n c h j a e
    apply-AllRows (requested i r q a s k l m x) f c h j b e =
        request-AllRows f i r q a s k l m x c h j b e
    apply-AllRows op f c h j a e = h j a (ground arith)

    pub history-AllRows :
        (ops : List (Op × Fault)) (c : Control) → AllRows c → AllRows (history parse_iso ops c)
    unfolding history
    history-AllRows [] c h = h
    history-AllRows ((op, f) ∷ rest) c h =
        history-AllRows rest (apply parse_iso op f c) (apply-AllRows op f c h)

  -- A row that is decided stays as it is.
  decide-decided :
      (f : Fault) (i p d n : String) (c : Control) (j : String) (a : Approval) (v : String)
      → approval_of j c ≡ some a
      → a.decision ≡ some v
      → approval_of j (decide_approval parse_iso f i p d n c).1 ≡ some a
  decide-decided f i p d n c j a v e dec = elim (decide_cases f i p d n c) [
    | inl same ↦ rw same e
    | inr (row, found, open_row, _, _, after) ↦
        rw after (ground (arith, find-settle i j p d n c.approvals, eq_iff i j))
  ]

  apply-decided :
      (op : Op) (f : Fault) (c : Control) (j : String) (a : Approval) (v : String)
      → approval_of j c ≡ some a
      → a.decision ≡ some v
      → approval_of j (apply parse_iso op f c) ≡ some a
  unfolding apply record_decision reserve_bounded reserve release commit_usage record_run_budget
      cancel acquire_lease release_lease claim_replay store_artifact request_approval
  apply-decided (decided i p d n) f c j a v e dec = decide-decided f i p d n c j a v e dec
  apply-decided (requested i r q t s k l m x) f c j a v e dec =
      ground (arith, find-append j c.approvals (new_approval i r q t s k l m x))
  apply-decided op f c j a v e dec = ground arith

  -- An approval that has been decided is the same row after any history: no later decision, and no
  -- other method, changes it.
  pub history-decided :
      (ops : List (Op × Fault)) (c : Control) (j : String) (a : Approval) (v : String)
      → approval_of j c ≡ some a
      → a.decision ≡ some v
      → approval_of j (history parse_iso ops c) ≡ some a
  unfolding history
  history-decided [] c j a v e dec = e
  history-decided ((op, f) ∷ rest) c j a v e dec =
      history-decided rest (apply parse_iso op f c) j a v (apply-decided op f c j a v e dec) dec
