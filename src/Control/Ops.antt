-- ===== src/Control/Ops.antt =====
-- A history of the control tables: any sequence of the methods that write, with any faults.
use agents_for_dummies.Base.{ℕ, String, Option, List, [], ◌∷◌}
use agents_for_dummies.Base.Int.{ℤ}
use agents_for_dummies.Envelope.{Decision}
use agents_for_dummies.Policy.Data.{Instant}
use agents_for_dummies.Control.Tables.{Control, Fault}
use agents_for_dummies.Control.Runs.{
  record_decision, reserve_bounded, reserve, release, commit_usage, record_run_budget, cancel,
  acquire_lease, release_lease,
}
use agents_for_dummies.Control.Replay.{claim_replay, store_artifact}
use agents_for_dummies.Control.Approvals.{request_approval, decide_approval}

-- The arguments are those of the methods, in their order.
pub data Op : Type 0 where
  recorded : Decision → String → String → String → String → String → String → Op
  reserved_bounded : String → String → String → ℕ → ℕ → Option ℕ → Option ℕ → Op
  reserved : String → String → String → ℤ → ℤ → Op
  released : String → String → Op
  committed : String → String → ℤ → Op
  budgeted : String → Option ℕ → Option ℕ → Op
  cancelled acquired lease_released : String → Op
  claimed : String → String → Op
  stored : String → String → String → Op
  requested :
      String → String → String → String → String → String → String → List String → String → Op
  decided : String → String → String → String → Op

module _ (parse_iso : String → Option Instant) where
  unfoldable pub apply : Op → Fault → Control → Control
  apply (recorded d r n h s t o) f c = (record_decision f d r n h s t o c).1
  apply (reserved_bounded b r n k s mk ms) f c = (reserve_bounded f b r n k s mk ms c).1
  apply (reserved b r n k s) f c = (reserve f b r n k s c).1
  apply (released r n) f c = (release f r n c).1
  apply (committed r n s) f c = (commit_usage f r n s c).1
  apply (budgeted r mk ms) f c = (record_run_budget f r mk ms c).1
  apply (cancelled r) f c = (cancel f r c).1
  apply (acquired r) f c = (acquire_lease f r c).1
  apply (lease_released r) f c = (release_lease f r c).1
  apply (claimed m h) f c = (claim_replay f m h c).1
  apply (stored m h a) f c = (store_artifact f m h a c).1
  apply (requested i r q a s h k l e) f c = (request_approval f i r q a s h k l e c).1
  apply (decided i p d n) f c = (decide_approval parse_iso f i p d n c).1

  unfoldable pub history : List (Op × Fault) → Control → Control
  history [] c = c
  history ((op, f) ∷ rest) c = history rest (apply op f c)
