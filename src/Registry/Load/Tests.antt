-- ===== src/Registry/Load/Tests.antt =====
-- A small governance file, as parsed, and runs of the loader on it.
use agents_for_dummies.Base.{String, ◌≡◌, refl, true, false, none, some, List, [], ◌∷◌, All}
use agents_for_dummies.Base.Dict.{get, put}
use agents_for_dummies.Base.Result.{ok}
use agents_for_dummies.Registry.{Agent, Registry}
use agents_for_dummies.Registry.Load.{
  AgentData, RelationshipData, Governance, FileRead, parsed, load, read_json, load_capabilities,
  load_agents, load_agent, check_created_date, check_capabilities, load_relationships,
  load_relationship,
}
use agents_for_dummies.Registry.Load.WellFormed.{IsValidAgent, IsLinked, load-IsValidAgent}

abbrev agent_data : String → AgentData
agent_data id = record {
  id = some id;
  name = some id;
  type = some "worker";
  capabilities = some ("code" ∷ []);
  enabled = none;
  created_date = some none;
  clearance = some "internal";
  max_delegation_depth = some 3;
  runtime = some "Claude";
  endpoint = none;
}

abbrev link_data : String → String → RelationshipData
link_data s t = record {
  source_agent_id = some s;
  target_agent_id = some t;
  relationship_type = some "delegates_to";
  max_delegation_depth = none;
  requires_approval = none;
}

abbrev two_agents : Governance
two_agents = record {
  version = none;
  policy_version = some "2.0";
  capabilities = some ("code" ∷ []);
  agents = some (agent_data "lead" ∷ agent_data "bee" ∷ []);
  relationships = some (link_data "lead" "bee" ∷ []);
}

abbrev loaded_agent : String → Agent
loaded_agent id = record {
  id = id;
  name = id;
  type = "worker";
  capabilities = "code" ∷ [];
  enabled = true;
  created_date = none;
  clearance = "internal";
  max_delegation_depth = some 3;
  runtime = some "Claude";
  endpoint = none;
}

abbrev pub registry : Registry
registry = record {
  version = "1.0";
  policy_version = "2.0";
  snapshot_hash = "feed";
  agents = ("lead", loaded_agent "lead") ∷ ("bee", loaded_agent "bee") ∷ [];
  capabilities = ("code", record { id = "code"; name = "code"; enabled = true }) ∷ [];
  relationships =
      record {
        source_id = "lead";
        target_id = "bee";
        type = "delegates_to";
        max_delegation_depth = none;
        requires_approval = false;
      }
      ∷ [];
}

abbrev no_rules : FileRead (List String)
no_rules = parsed []

two_agents-load : load "feed" (parsed two_agents) no_rules no_rules ≡ ok registry
unfolding load read_json load_capabilities get load_agents load_agent check_created_date
    check_capabilities put load_relationships load_relationship
two_agents-load = refl

bee-found : get "bee" registry.agents ≡ some (loaded_agent "bee")
unfolding get
bee-found = refl

load-IsValidAgent_example :
    IsValidAgent registry.capabilities "bee" (loaded_agent "bee")
    × All (IsLinked registry.agents) registry.relationships
load-IsValidAgent_example =
    load-IsValidAgent "feed" (parsed two_agents) no_rules no_rules registry "bee"
      (loaded_agent "bee") two_agents-load bee-found
