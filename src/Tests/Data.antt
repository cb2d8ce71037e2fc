-- ===== src/Tests/Data.antt =====
-- Inputs that the tests share: a clock's texts, a registry, an envelope.
use agents_for_dummies.Base.{
  ℕ, String, Bool, true, false, Option, none, some, [], ◌==◌, if◌then◌else◌,
}
use agents_for_dummies.Envelope.{Envelope, Payload, Budget, Security, unset}
use agents_for_dummies.Registry.{Registry}
use agents_for_dummies.Registry.Load.Tests.{registry as loaded}
use agents_for_dummies.Policy.Data.{Instant}

abbrev instant : ℕ → Bool → Instant
instant ticks aware = record { ticks = ticks; aware = aware }

-- Four texts are times; "T3" has no offset.
abbrev pub read_time : String → Option Instant
read_time s =
    if s == "T1"
    then some (instant 1_000_000 true)
    else if s == "T2"
    then some (instant 9_000_000 true)
    else if s == "T3"
    then some (instant 9_000_000 false)
    else none

abbrev pub registry : Registry
registry = loaded

abbrev pub budget : Budget
budget = record {
  max_calls = some 2;
  max_seconds = some (some 60);
  max_tokens = none;
  max_cost = unset;
}

abbrev pub security : Security
security = record {
  approval_required = none;
  approval_id = none;
  resource = none;
  artifact_hash = none;
}

abbrev pub payload : Payload
payload = record { prompt = some "hello"; rest = "" }

-- A request of "lead" to "bee".
abbrev pub request : String → Option String → Envelope
request id expires_at = record {
  message_id = id;
  task_id = "t1";
  parent_task_id = none;
  correlation_id = "c1";
  sender = "lead";
  recipient = "bee";
  intent = "code";
  operation = "request";
  protocol = "p";
  schema = "request_v1";
  payload = payload;
  data_classification = "public";
  created_at = "T1";
  expires_at = expires_at;
  deadline = some "T2";
  reply_to = none;
  required_artifacts = [];
  budget = budget;
  provenance = "";
  security = security;
}
