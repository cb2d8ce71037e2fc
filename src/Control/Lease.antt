-- ===== src/Control/Lease.antt =====
-- The run lease: at most one run holds the workspace, and a lease ends by a release of its run.
use agents_for_dummies.Base.{
  String, ◌≡◌, Option, none, some, List, [], ◌∷◌, arith, eq_iff, eq_refl, ◌⊎◌, inl, inr,
}
use agents_for_dummies.Policy.Data.{Instant}
use agents_for_dummies.Control.Tables.{Control, RunLease, Fault}
use agents_for_dummies.Control.Runs.{
  record_decision, reserve_bounded, reserve, release, commit_usage, record_run_budget, cancel,
  acquire_lease, release_lease,
}
use agents_for_dummies.Control.Replay.{claim_replay, store_artifact}
use agents_for_dummies.Control.Approvals.{request_approval, decide_approval}
use agents_for_dummies.Control.Ops.{
  Op, apply, history, reserved_bounded, reserved, released, acquired, lease_released, claimed,
  stored, decided,
}

-- The table when nobody, or the run, holds the workspace.
abbrev lease_rows : Option String → List RunLease
lease_rows none = []
lease_rows (some r) = record { workspace_key = "default"; run_id = r } ∷ []

abbrev pub Leased : Control → Option String → Type 0
Leased c o = c.run_lease ≡ lease_rows o

abbrev holder_in : List RunLease → Option String
holder_in [] = none
holder_in (l ∷ ls) = some l.run_id

-- The run that holds the workspace.
abbrev pub holder : Control → Option String
holder c = holder_in c.run_lease

-- The table holds at most one row, for the one workspace key that the program uses.
abbrev pub IsExclusive : Control → Type 0
IsExclusive c = Leased c (holder c)

-- The method ends the lease of the run.
abbrev pub Ends : Op → String → Type 0
Ends (released r' n) r = r' ≡ r
Ends (lease_released r') r = r' ≡ r
Ends _ r = ⊥

module _ (parse_iso : String → Option Instant) where
  -- A run that holds the workspace holds it after any method, or the method was a release of that
  -- run and the workspace is free.
  pub lease_kept :
      (op : Op) (f : Fault) (c : Control) (r : String)
      → Leased c (some r)
      → Leased (apply parse_iso op f c) (some r)
        ⊎ (Ends op r × Leased (apply parse_iso op f c) none)
  unfolding apply record_decision reserve_bounded reserve release commit_usage record_run_budget
      cancel acquire_lease release_lease claim_replay store_artifact request_approval
      decide_approval
  lease_kept (released r' n) f c r e = ground (arith, eq_iff r r')
  lease_kept (lease_released r') f c r e = ground (arith, eq_iff r r')
  lease_kept (stored m h a) f c r e = inl (ground arith)
  lease_kept (claimed m h) f c r e = inl (ground arith)
  lease_kept (decided i p d n) f c r e = inl (ground arith)
  lease_kept (reserved_bounded b r' n k s mk ms) f c r e = inl (ground (arith, eq_refl "default"))
  lease_kept (reserved b r' n k s) f c r e = inl (ground (arith, eq_refl "default"))
  lease_kept (acquired r') f c r e = inl (ground (arith, eq_refl "default"))
  lease_kept op f c r e = inl (ground arith)

  apply-free :
      (op : Op) (f : Fault) (c : Control) → Leased c none → IsExclusive (apply parse_iso op f c)
  unfolding apply record_decision reserve_bounded reserve release commit_usage record_run_budget
      cancel acquire_lease release_lease claim_replay store_artifact request_approval
      decide_approval
  apply-free (reserved_bounded b r n k s mk ms) f c e = ground (arith, eq_refl "default", eq_refl r)
  apply-free op f c e = ground arith

  holder-Leased : (c : Control) (o : Option String) → Leased c o → IsExclusive c
  holder-Leased c none e = ground arith
  holder-Leased c (some r) e = ground arith

  apply-IsExclusive :
      (op : Op) (f : Fault) (c : Control) → IsExclusive c → IsExclusive (apply parse_iso op f c)
  apply-IsExclusive op f c x = split (holder c) x
    where
      split : (o : Option String) → Leased c o → IsExclusive (apply parse_iso op f c)
      split none e = apply-free op f c e
      split (some r) e = elim (lease_kept op f c r e) [
        | inl kept ↦ holder-Leased (apply parse_iso op f c) (some r) kept
        | inr ended ↦ holder-Leased (apply parse_iso op f c) none ended.1
      ]

  -- A lease table of at most one row, for the one workspace key, is still one whatever methods run and
  -- whatever faults occur.
  pub history-IsExclusive :
      (ops : List (Op × Fault)) (c : Control)
      → IsExclusive c
      → IsExclusive (history parse_iso ops c)
  unfolding history
  history-IsExclusive [] c x = x
  history-IsExclusive ((op, f) ∷ rest) c x =
      history-IsExclusive rest (apply parse_iso op f c) (apply-IsExclusive op f c x)
