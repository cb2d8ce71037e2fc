-- ===== src/Registry/Load.antt =====
-- `Registry.load`: the checks that turn the parsed governance.json into a registry. The three
-- files are read by the caller of these definitions: each is missing, no JSON, or its contents.
-- The hash of their bytes is an argument.
pub mod WellFormed
pub mod Tests
use agents_for_dummies.Base.{
  ℕ, String, Bool, true, false, not, ◌||◌, Option, none, some, List, [], ◌∷◌, ◌==◌, leb, length,
  is_some, if◌then◌else◌,
}
use agents_for_dummies.Base.Dict.{Dict, get, put}
use agents_for_dummies.Base.Text.{codes, code_at, int_parts_ok}
use agents_for_dummies.Base.Result.{Result, ok, err, ◌>>=◌}
use agents_for_dummies.Registry.{Agent, Capability, Relationship, Registry, clearance_levels}

-- A JSON object of governance.json; an absent key is `none`.
pub record AgentData : Type 0 where
  pub id : Option String
  pub name : Option String
  pub type : Option String
  pub capabilities : Option (List String)
  pub enabled : Option Bool
  -- absent, null, or a text
  pub created_date : Option (Option String)
  pub clearance : Option String
  pub max_delegation_depth : Option ℕ
  pub runtime : Option String
  pub endpoint : Option String

pub record RelationshipData : Type 0 where
  pub source_agent_id : Option String
  pub target_agent_id : Option String
  pub relationship_type : Option String
  pub max_delegation_depth : Option ℕ
  pub requires_approval : Option Bool

pub record Governance : Type 0 where
  pub version : Option String
  pub policy_version : Option String
  pub capabilities : Option (List String)
  pub agents : Option (List AgentData)
  pub relationships : Option (List RelationshipData)

-- The causes of a `RegistryError`, one for each `raise`.
pub data RegistryError : Type 0 where
  missing_file invalid_json : String → RegistryError
  duplicate_capability duplicate_agent : String → RegistryError
  agent_missing_id created_date_empty : RegistryError
  invalid_clearance invalid_date_format invalid_date_values : String → RegistryError
  missing_cap : String → String → RegistryError
  relationship_missing_field : RegistryError
  missing_source missing_target : String → RegistryError

pub data FileRead {ℓ} (A : Type ℓ) : Type ℓ where
  missing invalid : FileRead A
  parsed : A → FileRead A

abbrev pub or_default {ℓ} : {A : Type ℓ} → Option A → A → A
or_default none d = d
or_default (some a) d = a

pub read_json {ℓ} : {A : Type ℓ} → String → FileRead A → Result RegistryError A
read_json filename missing = err (missing_file filename)
read_json filename invalid = err (invalid_json filename)
read_json filename (parsed a) = ok a

abbrev pub has_key {ℓ} : {V : Type ℓ} → String → Dict V → Bool
has_key k d = is_some (get k d)

pub load_capabilities : Dict Capability → List String → Result RegistryError (Dict Capability)
load_capabilities caps [] = ok caps
load_capabilities caps (cap_name ∷ rest) =
    let cap : Capability = record { id = cap_name; name = cap_name; enabled = true } in
    let more = load_capabilities (put cap_name cap caps) rest in
    if has_key cap_name caps then err (duplicate_capability cap_name) else more

-- A text shorter than ten characters is accepted as it is.
check_date_text : String → Result RegistryError String
check_date_text date =
    if date == ""
    then err created_date_empty
    else if not (leb 10 (length (codes date)))
    then ok date
    else if not (code_at (codes date) 4 b'-') || not (code_at (codes date) 7 b'-')
    then err (invalid_date_format date)
    else if not (int_parts_ok (codes date))
    then err (invalid_date_values date)
    else ok date

-- The date of the agent, or the error. An absent key reads as the empty text.
pub check_created_date : Option (Option String) → Result RegistryError (Option String)
unfolding check_date_text
check_created_date none = err created_date_empty
check_created_date (some none) = ok none
check_created_date (some (some date)) = do checked ← check_date_text date; ok (some checked)

pub check_capabilities : String → Dict Capability → List String → Result RegistryError (List String)
check_capabilities aid caps [] = ok []
check_capabilities aid caps (c ∷ rest) =
    let more : Result RegistryError (List String) = do
      cs ← check_capabilities aid caps rest
      ok (c ∷ cs)
    in if has_key c caps then more else err (missing_cap aid c)

-- `if not text`
abbrev pub given : Option String → Option String
given none = none
given (some s) = if s == "" then none else some s

pub load_agent : Dict Capability → Dict Agent → AgentData → Result RegistryError (String × Agent)
load_agent caps agents a = elim (given a.id) [
  | none ↦ err agent_missing_id
  | some aid ↦
      let clearance = or_default a.clearance "public" in
      if has_key aid agents
      then err (duplicate_agent aid)
      else if not (has_key clearance clearance_levels)
      then err (invalid_clearance clearance)
      else do
        date ← check_created_date a.created_date
        agent_caps ← check_capabilities aid caps (or_default a.capabilities [])
        ok (
          aid,
          record {
            id = aid;
            name = or_default a.name "";
            type = or_default a.type "";
            capabilities = agent_caps;
            enabled = or_default a.enabled true;
            created_date = date;
            clearance = clearance;
            max_delegation_depth = a.max_delegation_depth;
            runtime = a.runtime;
            endpoint = a.endpoint;
          },
        )
]

pub load_agents : Dict Capability → Dict Agent → List AgentData → Result RegistryError (Dict Agent)
load_agents caps agents [] = ok agents
load_agents caps agents (a ∷ rest) = do
  (aid, loaded) ← load_agent caps agents a
  load_agents caps (put aid loaded agents) rest

pub load_relationship : Dict Agent → RelationshipData → Result RegistryError Relationship
load_relationship agents r = elim (given r.source_agent_id) [
  | none ↦ err relationship_missing_field
  | some src ↦ elim (given r.target_agent_id) [
    | none ↦ err relationship_missing_field
    | some dst ↦ elim (given r.relationship_type) [
      | none ↦ err relationship_missing_field
      | some rel_type ↦
          if not (has_key src agents)
          then err (missing_source src)
          else if not (has_key dst agents)
          then err (missing_target dst)
          else ok (record {
            source_id = src;
            target_id = dst;
            type = rel_type;
            max_delegation_depth = r.max_delegation_depth;
            requires_approval = or_default r.requires_approval false;
          })
    ]
  ]
]

pub load_relationships :
    Dict Agent → List RelationshipData → Result RegistryError (List Relationship)
load_relationships agents [] = ok []
load_relationships agents (r ∷ rest) = do
  rel ← load_relationship agents r
  rels ← load_relationships agents rest
  ok (rel ∷ rels)

-- The files protocols.json and routing.json are read, and their contents are not used here.
pub load {ℓ κ} :
    {P : Type ℓ} {R : Type κ}
    → String
    → FileRead Governance
    → FileRead P
    → FileRead R
    → Result RegistryError Registry
load snapshot_hash governance protocols routing = do
  gov ← read_json "governance.json" governance
  _ ← read_json "protocols.json" protocols
  _ ← read_json "routing.json" routing
  caps ← load_capabilities [] (or_default gov.capabilities [])
  agents ← load_agents caps [] (or_default gov.agents [])
  relationships ← load_relationships agents (or_default gov.relationships [])
  ok (record {
    version = or_default gov.version "1.0";
    policy_version = or_default gov.policy_version "1.0";
    snapshot_hash = snapshot_hash;
    agents = agents;
    capabilities = caps;
    relationships = relationships;
  })
