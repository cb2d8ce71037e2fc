-- ===== src/Ledger/Load.antt =====
-- ledger.py: `load` from the JSONL file, whose lines enter as parsed values.
use agents_for_dummies.Base.{
  ℕ, suc, String, Bool, Option, none, some, List, [], ◌∷◌, ◌++◌, if◌then◌else◌,
}
use agents_for_dummies.Base.Dict.{Dict, get, put}
use agents_for_dummies.Base.Text.{text_before}
use agents_for_dummies.Base.Result.{Result, ok, err, ◌>>=◌}
use agents_for_dummies.Ledger.{Node, Ledger, Warning, invalid_json, unreadable_file, truthy}

-- A field of a JSON object that has a default when it is absent.
pub data Field : Type 0 where
  absent : Field
  present : Option String → Field

-- The object on a line. Where None is the default, an absent field is `none`.
pub record Entry : Type 0 where
  pub id : Option String
  pub run_id : Option String
  pub model : Option String
  pub tier : Option String
  pub task : Option String
  pub provider : Option String
  pub parent_id : Option String
  pub edge_type : Option String
  pub status : Field
  pub seconds : Option ℕ
  pub subscription_calls : Option ℕ
  pub gate_reason : Option String
  pub timestamp : Field

-- A line: blank, no JSON, JSON that is not an object, or an object.
pub data Line : Type 0 where
  blank not_json not_object : Line
  object : Entry → Line

-- `data.get` of a value that is not a dict.
pub data AttributeError : Type 0 where
  attribute_error : AttributeError

-- data.get(key, default)
abbrev pub get_or : Field → String → Option String
get_or absent default = some default
get_or (present value) default = value

-- data.get(key)
abbrev pub get_field : Field → Option String
get_field absent = none
get_field (present value) = value

-- data.get("id", "")
abbrev pub entry_id : Entry → String
entry_id entry = elim entry.id [ none ↦ "" | some id ↦ id ]

-- a or b
abbrev pub or_existing : Option String → Option String → Option String
or_existing a b = if truthy a then a else b

-- a if a is not None else b
abbrev pub given_or {ℓ} : {A : Type ℓ} → Option A → Option A → Option A
given_or none old = old
given_or (some new) old = some new

-- value or ""
abbrev pub or_empty : Option String → String
or_empty none = ""
or_empty (some text) = text

abbrev pub node_of : Entry → Node
node_of entry = record {
  id = entry_id entry;
  run_id = entry.run_id;
  model = entry.model;
  tier = entry.tier;
  task = entry.task;
  provider = entry.provider;
  parent_id = entry.parent_id;
  edge_type = entry.edge_type;
  status = get_or entry.status "unknown";
  seconds = entry.seconds;
  subscription_calls = entry.subscription_calls;
  gate_reason = entry.gate_reason;
  timestamp = get_or entry.timestamp "";
}

abbrev pub merge : Entry → Node → Node
merge entry existing = record {
  id = entry_id entry;
  run_id = or_existing entry.run_id existing.run_id;
  model = or_existing entry.model existing.model;
  tier = or_existing entry.tier existing.tier;
  task = or_existing entry.task existing.task;
  provider = or_existing entry.provider existing.provider;
  parent_id = or_existing entry.parent_id existing.parent_id;
  edge_type = or_existing entry.edge_type existing.edge_type;
  status = or_existing (get_field entry.status) existing.status;
  seconds = given_or entry.seconds existing.seconds;
  subscription_calls = given_or entry.subscription_calls existing.subscription_calls;
  gate_reason = or_existing entry.gate_reason existing.gate_reason;
  timestamp = get_or entry.timestamp "";
}

-- (new_timestamp or "") > (existing.timestamp or "")
abbrev pub is_later : Entry → Node → Bool
is_later entry existing =
    text_before (or_empty existing.timestamp) (or_empty (get_or entry.timestamp ""))

-- The entry goes to the nodes, of which one may have its id.
abbrev pub place : Entry → Dict Node → Option Node → Dict Node
place entry nodes none = put (entry_id entry) (node_of entry) nodes
place entry nodes (some existing) =
    if is_later entry existing then put (entry_id entry) (merge entry existing) nodes else nodes

unfoldable pub add_entry : Entry → Dict Node → Dict Node
add_entry entry nodes = place entry nodes (get (entry_id entry) nodes)

abbrev pub with_warning : Warning → Ledger → Ledger
with_warning w ledger = record { nodes = ledger.nodes; warnings = ledger.warnings ++ (w ∷ []) }

abbrev pub with_entry : Entry → Ledger → Ledger
with_entry entry ledger = record {
  nodes = add_entry entry ledger.nodes;
  warnings = ledger.warnings;
}

-- The loop over the lines from a number on, over what has been read.
unfoldable pub load_lines : ℕ → List Line → Ledger → Result AttributeError Ledger
load_lines n [] ledger = ok ledger
load_lines n (blank ∷ lines) ledger = load_lines (suc n) lines ledger
load_lines n (not_json ∷ lines) ledger =
    load_lines (suc n) lines (with_warning (invalid_json n) ledger)
load_lines n (not_object ∷ lines) ledger = err attribute_error
load_lines n (object entry ∷ lines) ledger = load_lines (suc n) lines (with_entry entry ledger)

abbrev pub empty_ledger : Ledger
empty_ledger = record { nodes = []; warnings = [] }

-- What opening and reading the file gives: the lines, and whether an OSError ends them.
pub record Reading : Type 0 where
  pub lines : List Line
  pub faulty : Bool

unfoldable pub load_jsonl : Reading → Result AttributeError Ledger
load_jsonl reading =
    load_lines 1 reading.lines empty_ledger
    >>= (λ ledger. ok (if reading.faulty then with_warning unreadable_file ledger else ledger))
