-- ===== src/Control/Once.antt =====
-- A message is new once: what a replay key records stays, whatever happens to the tables.
use agents_for_dummies.Base.{
  String, ◌≡◌, refl, ◌&&◌, Option, none, some, List, [], ◌∷◌, ◌++◌, ◌==◌, arith, eq_refl,
  find_first, if◌then◌else◌,
}
use agents_for_dummies.Base.Result.{Result, ok, err}
use agents_for_dummies.Policy.Data.{Instant}
use agents_for_dummies.Control.Tables.{
  Control, ReplayKey, Fault, fine, readonly, broken, update_where,
}
use agents_for_dummies.Control.Runs.{
  record_decision, reserve_bounded, reserve, release, commit_usage, record_run_budget, cancel,
  acquire_lease, release_lease,
}
use agents_for_dummies.Control.Replay.{
  ReplayState, new, duplicate, conflict, ReplayResult, claim_replay, store_artifact,
}
use agents_for_dummies.Control.Approvals.{request_approval, decide_approval}
use agents_for_dummies.Control.Ops.{Op, apply, history, claimed, stored}
use agents_for_dummies.Control.Tables.{Raised}

abbrev pub hash_in : String → List ReplayKey → Option String
hash_in m [] = none
hash_in m (k ∷ ks) = if k.message_id == m then some k.envelope_hash else hash_in m ks

-- The hash that stands under the message.
abbrev pub hash_of : String → Control → Option String
hash_of m c = hash_in m c.replay_keys

hash_in-append :
    (m h : String) (ks more : List ReplayKey)
    → hash_in m ks ≡ some h
    → hash_in m (ks ++ more) ≡ some h
hash_in-append m h [] more e = cc
hash_in-append m h (k ∷ ks) more e = ground (arith, hash_in-append m h ks more)

hash_in-update :
    (m i h a : String) (ks : List ReplayKey)
    → hash_in m (
        update_where
          (λ k. (k.message_id == i) && (k.envelope_hash == h))
          (λ k. record k { artifact_ref = some a })
          ks)
      ≡ hash_in m ks
hash_in-update m i h a [] = refl
hash_in-update m i h a (k ∷ ks) = ground (arith, hash_in-update m i h a ks)

abbrev pub fresh_key : String → String → Option String → ReplayKey
fresh_key m h a = record { message_id = m; envelope_hash = h; artifact_ref = a }

module _ (parse_iso : String → Option Instant) (m h : String) where
  apply-hash_of :
      (op : Op) (f : Fault) (c : Control)
      → hash_of m c ≡ some h
      → hash_of m (apply parse_iso op f c) ≡ some h
  unfolding apply record_decision reserve_bounded reserve release commit_usage record_run_budget
      cancel acquire_lease release_lease claim_replay store_artifact request_approval
      decide_approval
  apply-hash_of (claimed i g) f c e =
      ground (arith, hash_in-append m h c.replay_keys (fresh_key i g none ∷ []))
  apply-hash_of (stored i g a) f c e = ground (
    arith,
    hash_in-append m h c.replay_keys (fresh_key i g (some a) ∷ []),
    hash_in-update m i g a c.replay_keys,
  )
  apply-hash_of op f c e = ground arith

  pub history-hash_of :
      (ops : List (Op × Fault)) (c : Control)
      → hash_of m c ≡ some h
      → hash_of m (history parse_iso ops c) ≡ some h
  unfolding history
  history-hash_of [] c e = e
  history-hash_of ((op, f) ∷ rest) c e =
      history-hash_of rest (apply parse_iso op f c) (apply-hash_of op f c e)

-- The answer to a claim, where the database works.
abbrev pub verdict : Option String → String → ReplayState
verdict none g = new
verdict (some h) g = if h == g then duplicate else conflict

abbrev pub claim_state : Result Raised ReplayResult → Option ReplayState
claim_state (ok r) = some r.state
claim_state (err e) = none

abbrev hash_under : Option ReplayKey → Option String
hash_under none = none
hash_under (some k) = some k.envelope_hash

hash_in-key :
    (m : String) (ks : List ReplayKey)
    → hash_in m ks ≡ hash_under (find_first (λ k. k.message_id == m) ks)
hash_in-key m [] = refl
hash_in-key m (k ∷ ks) = ground (arith, hash_in-key m ks)

hash_in-end :
    (m g : String) (a : Option String) (ks : List ReplayKey)
    → hash_in m ks ≡ none
    → hash_in m (ks ++ fresh_key m g a ∷ []) ≡ some g
hash_in-end m g a [] e = ground (arith, eq_refl m)
hash_in-end m g a (k ∷ ks) e = ground (arith, hash_in-end m g a ks)

claim-verdict :
    (m g : String) (c : Control)
    → claim_state (claim_replay fine m g c).0 ≡ some (verdict (hash_of m c) g)
unfolding claim_replay
claim-verdict m g c = ground (arith, hash_in-key m c.replay_keys)

hash_of-claim :
    (m g : String) (c : Control)
    → claim_state (claim_replay fine m g c).0 ≡ some new
    → hash_of m (claim_replay fine m g c).1 ≡ some g
unfolding claim_replay
hash_of-claim m g c e =
    ground (arith, hash_in-key m c.replay_keys, hash_in-end m g none c.replay_keys)

pub claim-new :
    (f : Fault) (m g : String) (c : Control)
    → claim_state (claim_replay f m g c).0 ≡ some new
    → (hash_of m c ≡ none) × (hash_of m (claim_replay f m g c).1 ≡ some g)
unfolding claim_replay
claim-new fine m g c e = (ground (arith, hash_in-key m c.replay_keys), hash_of-claim m g c e)
claim-new readonly m g c e = ground arith
claim-new broken m g c e = ground arith

-- Once a claim of a message was new, every later claim of that message on which the database reports
-- no error, after any history of the tables, is a duplicate if it has the same hash and a conflict if it has another: never new again.
pub claim_replay-once :
    (parse_iso : String → Option Instant) (m g g' : String) (c : Control) (ops : List (Op × Fault))
    → claim_state (claim_replay fine m g c).0 ≡ some new
    → claim_state (claim_replay fine m g' (history parse_iso ops (claim_replay fine m g c).1)).0
      ≡ some (if g == g' then duplicate else conflict)
claim_replay-once parse_iso m g g' c ops e = rw (
  claim-verdict m g' (history parse_iso ops (claim_replay fine m g c).1),
  history-hash_of parse_iso m g ops (claim_replay fine m g c).1 (hash_of-claim m g c e),
)
