-- ===== src/Envelope/Validate.antt =====
-- `validate` of workerbees/envelope.py: the list of what is wrong with an envelope. The fields have
-- the types of the model, so the checks of types find nothing. `json` and `datetime` enter as
-- functions: the sizes of the two JSON texts, `none` where `json.dumps` raises, and the reading of
-- ISO 8601 after Z is replaced.
use agents_for_dummies.Base.{
  ℕ, ◌*◌, String, Bool, not, ◌&&◌, ◌||◌, Option, none, some, List, [], ◌∷◌, ◌++◌, ◌==◌, ltb,
  contains, is_some, if◌then◌else◌,
}
use agents_for_dummies.Base.Dict.{Dict, get}
use agents_for_dummies.Base.Result.{Result, ok, err, ◌>>=◌}
use agents_for_dummies.Policy.Data.{Instant}
use agents_for_dummies.Envelope.{Envelope, Payload}

pub data Defect : Type 0 where
  invalid_operation invalid_classification : Defect
  created_at_not_iso expires_at_not_iso deadline_not_iso expires_before_created : Defect
  payload_too_large payload_not_json envelope_too_large envelope_not_json : Defect
  unknown_protocol schema_mismatch prompt_missing : Defect

-- Comparing a datetime with an offset and one without raises this.
pub data Incomparable : Type 0 where
  type_error : Incomparable

-- A protocol's rules: the limit `envelope.maxBytes`, if both keys are there.
pub record Protocol : Type 0 where
  pub max_bytes : Option ℕ

abbrev pub valid_operations : List String
valid_operations = "request" ∷ "response" ∷ "error" ∷ "cancellation" ∷ "approval" ∷ []

abbrev pub valid_classifications : List String
valid_classifications = "public" ∷ "internal" ∷ "confidential" ∷ "restricted" ∷ []

abbrev pub max_payload_size_bytes : ℕ
max_payload_size_bytes = 1024 * 1024

abbrev max_envelope_size_bytes : ℕ
max_envelope_size_bytes = 1_000_000

abbrev pub found : Bool → Defect → List Defect
found b d = if b then d ∷ [] else []

-- `if text and …`
abbrev pub given_text : Option String → Option String
given_text none = none
given_text (some s) = if s == "" then none else some s

module _ (parse_iso : String → Option Instant) (payload_bytes : Payload → Option ℕ)
    (envelope_bytes : Envelope → Option ℕ) where
  unfoldable pub not_iso : Option String → Defect → List Defect
  not_iso none d = []
  not_iso (some t) d = found (not (is_some (parse_iso t))) d

  unfoldable pub compare_times : Instant → Instant → Result Incomparable (List Defect)
  compare_times created expires =
      if (created.aware && expires.aware) || (not created.aware && not expires.aware)
      then ok (found (ltb expires.ticks created.ticks) expires_before_created)
      else err type_error

  -- A text that is not read is passed over here.
  unfoldable pub chronology : Option String → Option String → Result Incomparable (List Defect)
  unfolding compare_times
  chronology none expires = ok []
  chronology (some c) none = ok []
  chronology (some c) (some e) = elim (parse_iso c) [
    | none ↦ ok []
    | some created ↦ elim (parse_iso e) [
      | none ↦ ok []
      | some expires ↦ compare_times created expires
    ]
  ]

  unfoldable pub size_defects : Option ℕ → ℕ → Defect → Defect → List Defect
  size_defects none limit large unserializable = unserializable ∷ []
  size_defects (some n) limit large unserializable = found (ltb limit n) large

  unfoldable pub envelope_limit : Dict Protocol → String → ℕ
  envelope_limit protocols protocol = elim (get protocol protocols) [
    | none ↦ max_envelope_size_bytes
    | some rules ↦ elim rules.max_bytes [ none ↦ max_envelope_size_bytes | some n ↦ n ]
  ]

  unfoldable pub validate : Envelope → Dict Protocol → Result Incomparable (List Defect)
  unfolding not_iso chronology size_defects envelope_limit
  validate env protocols = do
    order ← chronology (given_text (some env.created_at)) (given_text env.expires_at)
    ok (
        found (not (contains env.operation valid_operations)) invalid_operation
        ++ (found (not (contains env.data_classification valid_classifications))
              invalid_classification
            ++ (not_iso (given_text (some env.created_at)) created_at_not_iso
                ++ (not_iso (given_text env.expires_at) expires_at_not_iso
                    ++ (not_iso (given_text env.deadline) deadline_not_iso
                        ++ (order
                            ++ (size_defects (payload_bytes env.payload) max_payload_size_bytes
                                  payload_too_large payload_not_json
                                ++ size_defects (envelope_bytes env)
                                    (envelope_limit protocols env.protocol) envelope_too_large
                                    envelope_not_json)))))))
