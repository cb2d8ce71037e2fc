-- ===== src/Gateway/Data.antt =====
-- The parts of a dispatch: its inputs, its result, the world that it changes, and steps that may
-- end it.
use agents_for_dummies.Base.{ℕ, String, Bool, Option, List, [], ◌∷◌, ◌++◌}
use agents_for_dummies.Base.Dict.{Dict}
use agents_for_dummies.Base.Result.{Result, ok, err}
use agents_for_dummies.Envelope.{Envelope, Payload, Decision}
use agents_for_dummies.Envelope.Validate.{Protocol}
use agents_for_dummies.Registry.{Registry}
use agents_for_dummies.Policy.Data.{Instant}
use agents_for_dummies.Router.{Profile}
use agents_for_dummies.Control.Tables.{Control, Fault, Raised}

pub data Mode : Type 0 where
  off shadow enforce : Mode

pub data Status : Type 0 where
  allowed denied blocked duplicate conflict envelope_invalid cancelled : Status

-- What an adapter returns: its status and its output.
pub data WorkerStatus : Type 0 where
  returned failed paused : WorkerStatus

pub record WorkerResult : Type 0 where
  pub status : WorkerStatus
  pub output : String

pub record GatewayResult : Type 0 where
  pub status : Status
  pub decision : Decision
  pub worker_result : Option WorkerResult
  pub node_id : String
  pub decision_recorded : Bool

-- `Gateway`: the workspace is the world.
pub record Gateway : Type 0 where
  pub mode : Mode
  pub registry : Option Registry
  pub protocols : Dict Protocol
  pub catalog : Dict Profile

-- The keys of `context` that the gateway reads or passes on.
pub record CallContext : Type 0 where
  pub run_id : Option String
  pub authenticated_sender : Option String
  pub depth : ℕ
  pub cancelled : Bool
  pub gate_reason : Option String
  pub parent_id : Option String
  pub edge_type : Option String
  pub artifact_hash : Option String
  pub cwd : Option String

-- What SQLite reports at each call of the control layer.
pub record Faults : Type 0 where
  pub claim : Fault
  pub used : Fault
  pub budget : Fault
  pub binds : Fault
  pub decision : Fault
  pub denial : Fault
  pub cancel_first : Fault
  pub reserve : Fault
  pub cancel_second : Fault
  pub release : Fault
  pub lease : Fault
  pub commit : Fault
  pub store : Fault

-- What one call draws or is told from outside: fresh ids, the clock at the places where it is
-- read (as a text for the approvals), the runner's result (`none` if it raises), the time that the
-- run took in microseconds, the hash of the output.
pub record Outside : Type 0 where
  pub node_id : String
  pub new_run_id : String
  pub decision_id : String
  pub busy_id : String
  pub policy_now : ℕ
  pub approval_now : String
  pub deadline_now : ℕ
  pub worker : Option WorkerResult
  pub elapsed : ℕ
  pub output_hash : String
  pub faults : Faults

-- The standard library, as functions: reading ISO 8601, the sizes of two JSON texts, and the hash
-- of the canonical JSON; `none` where they raise.
pub record Platform : Type 0 where
  pub parse_iso : String → Option Instant
  pub payload_bytes : Payload → Option ℕ
  pub envelope_bytes : Envelope → Option ℕ
  pub canonical_hash : Envelope → Option String

-- What the ledger and the providers see of a dispatch.
pub data Event : Type 0 where
  dispatched : (node_id run_id model tier task provider : String) → Event
  invoked : (provider model : String) (prompt : Option String) (timeout : Option ℕ) → Event
  finished : (node_id : String) → WorkerStatus → (seconds : ℕ) → Event
  output_bound : (node_id sha256 : String) → Event

pub record World : Type 0 where
  pub control : Control
  pub events : List Event

-- A step goes on, ends the dispatch with a result, or lets an exception out.
pub data Step {ℓ} (A : Type ℓ) : Type ℓ where
  next : A → Step A
  finish : GatewayResult → Step A
  raise : Raised → Step A

abbrev pub M {ℓ} : Type ℓ → Type ℓ
M A = World → Step A × World

module _ {ℓ} {A : Type ℓ} where
  unfoldable pub return : A → M A
  return a w = (next a, w)

  unfoldable pub stop : GatewayResult → M A
  stop r w = (finish r, w)

  -- A method of the control layer.
  unfoldable pub control_call : (Control → A × Control) → M A
  control_call k w = let (a, c) = k w.control in (next a, record w { control = c })

  -- A method that only reads.
  unfoldable pub control_read : (Control → A) → M A
  control_read k w = (next (k w.control), w)

  unfoldable pub raise_err : Result Raised A → M A
  raise_err (ok a) w = (next a, w)
  raise_err (err e) w = (raise e, w)

unfoldable pub log : Event → M (Unit {0})
log e w = (next tt, record w { events = w.events ++ e ∷ [] })

infixl 5 ◌>>=◌ ◌>>◌
unfoldable pub ◌>>=◌ {ℓ κ} : {A : Type ℓ} {B : Type κ} → M A → (A → M B) → M B
◌>>=◌ m f w =
    let (s, w') = m w in
    elim s [ next a ↦ f a w' | finish r ↦ (finish r, w') | raise e ↦ (raise e, w') ]

unfoldable pub ◌>>◌ {ℓ κ} : {A : Type ℓ} {B : Type κ} → M A → M B → M B
unfolding ◌>>=◌
m >> n = m >>= λ _. n
