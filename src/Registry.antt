-- ===== src/Registry.antt =====
-- workerbees/registry.py: the governance registry and its look-ups. The loader is in Registry/Load.
pub mod Load
use agents_for_dummies.Base.{
  ℕ, String, ◌≡◌, Bool, ◌&&◌, ◌||◌, Option, none, some, List, [], ◌∷◌, ◌==◌, find_first,
  if◌then◌else◌,
}
use agents_for_dummies.Base.Dict.{Dict, get}
use agents_for_dummies.Base.Text.{codes, normalise, same_codes}

-- `created_date` is any text or null, checked by the loader.
pub record Agent : Type 0 where
  pub id : String
  pub name : String
  pub type : String
  pub capabilities : List String
  pub enabled : Bool
  pub created_date : Option String
  pub clearance : String
  pub max_delegation_depth : Option ℕ
  pub runtime : Option String
  pub endpoint : Option String

pub record Capability : Type 0 where
  pub id : String
  pub name : String
  pub enabled : Bool

pub record Relationship : Type 0 where
  pub source_id : String
  pub target_id : String
  pub type : String
  pub max_delegation_depth : Option ℕ
  pub requires_approval : Bool

pub record Registry : Type 0 where
  pub version : String
  pub policy_version : String
  pub snapshot_hash : String
  pub agents : Dict Agent
  pub capabilities : Dict Capability
  pub relationships : List Relationship

-- CLEARANCE_LEVELS
abbrev pub clearance_levels : Dict ℕ
clearance_levels = ("public", 0) ∷ ("internal", 1) ∷ ("confidential", 2) ∷ ("restricted", 3) ∷ []

pub connects : String → String → String → Relationship → Bool
connects src dst rel_type r = (r.source_id == src) && (r.target_id == dst) && (r.type == rel_type)

unfoldable pub edge : Registry → String → String → String → Option Relationship
unfolding connects
edge reg src dst rel_type = find_first (connects src dst rel_type) reg.relationships

unfoldable pub agent : Registry → String → Bool → Option Agent
agent reg id include_disabled = elim (get id reg.agents) [
  | none ↦ none
  | some a ↦ if include_disabled || a.enabled then some a else none
]

unfoldable pub capability : Registry → String → Bool → Option Capability
capability reg id include_disabled = elim (get id reg.capabilities) [
  | none ↦ none
  | some c ↦ if include_disabled || c.enabled then some c else none
]

abbrev pub known_providers : List String
known_providers = "claude" ∷ "codex" ∷ "gemini" ∷ "mistral" ∷ "openrouter" ∷ []

-- One of the fields `runtime` and `endpoint`, read as a provider's name.
provider_in : Option String → Option String
unfolding normalise codes same_codes
provider_in none = none
provider_in (some val) = find_first (λ p. same_codes (normalise val) (codes p)) known_providers

first_provider : Agent → Option String
unfolding provider_in
first_provider a = elim (provider_in a.runtime) [ some p ↦ some p | none ↦ provider_in a.endpoint ]

unfoldable pub provider_for : Registry → String → Option String
unfolding first_provider
provider_for reg agent_id = elim (get agent_id reg.agents) [
  | none ↦ none
  | some a ↦ first_provider a
]
