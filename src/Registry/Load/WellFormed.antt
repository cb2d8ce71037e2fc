-- ===== src/Registry/Load/WellFormed.antt =====
-- What a registry that loads without an error is known to satisfy.
use agents_for_dummies.Base.{String, ◌≡◌, subst, true, some, List, [], ◌∷◌, arith, All, eq_iff}
use agents_for_dummies.Base.Dict.{Dict, get, put, get-put}
use agents_for_dummies.Base.Result.{ok, >>=-eq-ok, ok_injective}
use agents_for_dummies.Registry.{Agent, Capability, Relationship, Registry, clearance_levels}
use agents_for_dummies.Registry.Load.{
  AgentData, RelationshipData, Governance, FileRead, has_key, read_json, or_default,
  check_capabilities, load_capabilities, load_agent, load_agents, load_relationship,
  load_relationships, load,
}

-- An agent stands under its own id, its clearance is a known level and its capabilities exist.
pub record IsValidAgent (caps : Dict Capability) (key : String) (a : Agent) : Type 0 where
  pub keyed : a.id ≡ key
  pub cleared : has_key a.clearance clearance_levels ≡ true
  pub capable : All (λ c. has_key c caps ≡ true) a.capabilities

abbrev pub AreValidAgents : Dict Capability → Dict Agent → Type 0
AreValidAgents caps agents =
    (k : String) (a : Agent) → get k agents ≡ some a → IsValidAgent caps k a

abbrev pub IsLinked : Dict Agent → Relationship → Type 0
IsLinked agents r = (has_key r.source_id agents ≡ true) × (has_key r.target_id agents ≡ true)

pub record IsWellFormed (reg : Registry) : Type 0 where
  pub agents_valid : AreValidAgents reg.capabilities reg.agents
  pub links : All (IsLinked reg.agents) reg.relationships

check_capabilities-capable :
    (aid : String) (caps : Dict Capability) (cs : List String) {out : List String}
    → check_capabilities aid caps cs ≡ ok out
    → All (λ c. has_key c caps ≡ true) out
unfolding check_capabilities
check_capabilities-capable aid caps [] {out} h = ground arith
check_capabilities-capable aid caps (c ∷ rest) {out = []} h = tt
check_capabilities-capable aid caps (c ∷ rest) {out = d ∷ out} h =
    ground (arith, check_capabilities-capable aid caps rest {out = out})

load_agent-valid :
    (caps : Dict Capability) (agents : Dict Agent) (a : AgentData) (aid : String) (loaded : Agent)
    → load_agent caps agents a ≡ ok (aid, loaded)
    → IsValidAgent caps aid loaded
unfolding load_agent
load_agent-valid caps agents a aid loaded h = ground (
  arith,
  check_capabilities-capable aid caps (or_default a.capabilities []) {out = loaded.capabilities},
)

put-valid :
    (caps : Dict Capability) (agents : Dict Agent) (aid : String) (loaded : Agent)
    → IsValidAgent caps aid loaded
    → AreValidAgents caps agents
    → AreValidAgents caps (put aid loaded agents)
put-valid caps agents aid loaded v vs k a h =
    ground (arith, get-put aid k loaded agents, eq_iff aid k, vs k a)

load_agents-valid :
    (caps : Dict Capability) (agents : Dict Agent) (raw : List AgentData) {out : Dict Agent}
    → AreValidAgents caps agents
    → load_agents caps agents raw ≡ ok out
    → AreValidAgents caps out
unfolding load_agents
load_agents-valid caps agents [] {out} vs h = subst (AreValidAgents caps) (ground arith) vs
load_agents-valid caps agents (a ∷ rest) {out} vs h =
    let (entry, e, more) = >>=-eq-ok (load_agent caps agents a) _ h in
    let (aid, loaded) = entry in
    load_agents-valid caps (put aid loaded agents) rest
      (put-valid caps agents aid loaded (load_agent-valid caps agents a aid loaded e) vs) more

load_relationship-IsLinked :
    (agents : Dict Agent) (r : RelationshipData) (rel : Relationship)
    → load_relationship agents r ≡ ok rel
    → IsLinked agents rel
unfolding load_relationship
load_relationship-IsLinked agents r rel h = ground arith

load_relationships-IsLinked :
    (agents : Dict Agent) (raw : List RelationshipData) (out : List Relationship)
    → load_relationships agents raw ≡ ok out
    → All (IsLinked agents) out
unfolding load_relationships
load_relationships-IsLinked agents raw [] h = tt
load_relationships-IsLinked agents [] (rel ∷ out) h = cc
load_relationships-IsLinked agents (r ∷ rest) (rel ∷ out) h =
    ground
      (arith, load_relationship-IsLinked agents r rel, load_relationships-IsLinked agents rest out)

none-ne-some : (k : String) (a : Agent) → get k [] ≡ some a → ⊥
unfolding get
none-ne-some k a e = cc

load-IsWellFormed {ℓ κ} :
    {P : Type ℓ} {R : Type κ} (snapshot_hash : String) (governance : FileRead Governance)
    (protocols : FileRead P) (routing : FileRead R) (reg : Registry)
    → load snapshot_hash governance protocols routing ≡ ok reg
    → IsWellFormed reg
unfolding load
load-IsWellFormed snapshot_hash governance protocols routing reg h =
    let (gov, _, h₁) = >>=-eq-ok (read_json "governance.json" governance) _ h in
    let (_, _, h₂) = >>=-eq-ok (read_json "protocols.json" protocols) _ h₁ in
    let (_, _, h₃) = >>=-eq-ok (read_json "routing.json" routing) _ h₂ in
    let (caps, _, h₄) = >>=-eq-ok (load_capabilities [] (or_default gov.capabilities [])) _ h₃ in
    let (agents, e₅, h₅) = >>=-eq-ok (load_agents caps [] (or_default gov.agents [])) _ h₄ in
    let (rels, e₆, h₆) =
      >>=-eq-ok (load_relationships agents (or_default gov.relationships [])) _ h₅ in
    subst IsWellFormed (ok_injective h₆) (record {
      agents_valid =
          load_agents-valid caps [] (or_default gov.agents [])
            (λ k a e. absurd (none-ne-some k a e)) e₅;
      links = load_relationships-IsLinked agents (or_default gov.relationships []) rels e₆;
    })

-- In a registry that loads, an agent that is found under a key has that id, a known clearance and
-- declared capabilities only, and every relationship is between agents of the registry.
pub load-IsValidAgent {ℓ κ} :
    {P : Type ℓ} {R : Type κ} (snapshot_hash : String) (governance : FileRead Governance)
    (protocols : FileRead P) (routing : FileRead R) (reg : Registry) (key : String) (a : Agent)
    → load snapshot_hash governance protocols routing ≡ ok reg
    → get key reg.agents ≡ some a
    → IsValidAgent reg.capabilities key a × All (IsLinked reg.agents) reg.relationships
load-IsValidAgent snapshot_hash governance protocols routing reg key a h found =
    let x = load-IsWellFormed snapshot_hash governance protocols routing reg h in
    (x.agents_valid key a found, x.links)
