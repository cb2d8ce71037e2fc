-- ===== src/Control/Replay.antt =====
-- Replay keys: which messages were seen, with which hash and artifact.
use agents_for_dummies.Base.{
  String, Bool, true, false, ◌&&◌, Option, none, some, [], ◌∷◌, ◌++◌, ◌==◌, find_first,
  if◌then◌else◌,
}
use agents_for_dummies.Base.Result.{Result, ok, err}
use agents_for_dummies.Control.Tables.{
  Control, ReplayKey, Fault, fine, readonly, broken, Raised, control_error, update_where,
}

pub data ReplayState : Type 0 where
  new duplicate conflict error : ReplayState

pub record ReplayResult : Type 0 where
  pub state : ReplayState
  pub artifact_ref : Option String

abbrev pub key_of : String → Control → Option ReplayKey
key_of message_id c = find_first (λ k. k.message_id == message_id) c.replay_keys

abbrev pub compare_hash : ReplayKey → String → ReplayState
compare_hash k envelope_hash = if k.envelope_hash == envelope_hash then duplicate else conflict

unfoldable pub check_replay : Fault → String → String → Control → Result Raised ReplayResult
check_replay fine message_id envelope_hash c = elim (key_of message_id c) [
  | none ↦ ok (record { state = new; artifact_ref = none })
  | some k ↦ ok (record { state = compare_hash k envelope_hash; artifact_ref = k.artifact_ref })
]
check_replay readonly message_id envelope_hash c =
    ok (record { state = error; artifact_ref = none })
check_replay broken message_id envelope_hash c = err control_error

abbrev pub insert_key : String → String → Option String → Control → Control
insert_key message_id envelope_hash artifact_ref c = record c {
  replay_keys =
      c.replay_keys
      ++ record {
        message_id = message_id;
        envelope_hash = envelope_hash;
        artifact_ref = artifact_ref;
      }
        ∷ [];
}

unfoldable pub claim_replay :
    Fault → String → String → Control → Result Raised ReplayResult × Control
claim_replay fine message_id envelope_hash c = elim (key_of message_id c) [
  | none ↦
      (ok (record { state = new; artifact_ref = none }), insert_key message_id envelope_hash none c)
  | some k ↦
      (ok (record { state = compare_hash k envelope_hash; artifact_ref = k.artifact_ref }), c)
]
claim_replay readonly message_id envelope_hash c =
    (ok (record { state = error; artifact_ref = none }), c)
claim_replay broken message_id envelope_hash c = (err control_error, c)

-- ON CONFLICT DO UPDATE … WHERE the hashes agree
unfoldable pub store_artifact : Fault → String → String → String → Control → Bool × Control
store_artifact fine message_id envelope_hash artifact_ref c = elim (key_of message_id c) [
  | none ↦ (true, insert_key message_id envelope_hash (some artifact_ref) c)
  | some _ ↦ (
    true,
    record c {
      replay_keys =
          update_where (λ k. (k.message_id == message_id) && (k.envelope_hash == envelope_hash))
            (λ k. record k { artifact_ref = some artifact_ref }) c.replay_keys;
    },
  )
]
store_artifact _ message_id envelope_hash artifact_ref c = (false, c)
