-- ===== src/Tests/Policy.antt =====
-- The policy on a request that it allows.
use agents_for_dummies.Base.{ℕ, ◌≡◌, true, false, Option, none, some, List, [], ◌++◌, ◌↔◌, ◌⊎◌}
use agents_for_dummies.Base.Result.{ok}
use agents_for_dummies.Envelope.{Envelope, Payload, Rule}
use agents_for_dummies.Envelope.Validate.{validate}
use agents_for_dummies.Envelope.Valid.{IsValid, validate-IsValid_iff}
use agents_for_dummies.Policy.{evaluate}
use agents_for_dummies.Policy.Data.{Context, ContextNow}
use agents_for_dummies.Policy.Trail.{all_rules, evaluate-checked_rules}
use agents_for_dummies.Policy.Allowed.{Permitted, evaluate-allowed_iff}
use agents_for_dummies.Tests.Data.{read_time, registry, request}

abbrev context : Context
context = record {
  authenticated_sender = some "lead";
  depth = 1;
  now = ContextNow.iso_text "T1";
  cancelled = false;
  approval_valid = false;
  budget_used = record { calls = 0; seconds = 0 };
  budget_limits = record { max_calls = some (some 2); max_seconds = none };
}

evaluate-allowed_iff_example :
    ((evaluate read_time 5 "d1" context (request "m1" (some "T2")) registry).allowed ≡ true)
    ↔ Permitted read_time 5 context (request "m1" (some "T2")) registry
evaluate-allowed_iff_example =
    evaluate-allowed_iff read_time 5 context (request "m1" (some "T2")) registry "d1"

evaluate-checked_rules_example :
    (left : List Rule) × (all_rules
      ≡ (evaluate read_time 5 "d1" context (request "m1" (some "T2")) registry).checked_rules
        ++ left)
    × (((evaluate read_time 5 "d1" context (request "m1" (some "T2")) registry).allowed ≡ false)
        ⊎ ((evaluate read_time 5 "d1" context (request "m1" (some "T2")) registry).checked_rules
            ≡ all_rules))
evaluate-checked_rules_example =
    evaluate-checked_rules read_time 5 context (request "m1" (some "T2")) registry "d1"

abbrev payload_size : Payload → Option ℕ
payload_size p = some 20

abbrev envelope_size : Envelope → Option ℕ
envelope_size e = some 400

validate-IsValid_iff_example :
    (validate read_time payload_size envelope_size (request "m1" (some "T2")) [] ≡ ok [])
    ↔ IsValid read_time payload_size envelope_size (request "m1" (some "T2")) []
validate-IsValid_iff_example =
    validate-IsValid_iff read_time payload_size envelope_size (request "m1" (some "T2")) []
