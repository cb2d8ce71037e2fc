-- ===== src/Ledger.antt =====
-- ledger.py: the data of the ledger of dispatches.
pub mod Load
pub mod Export
pub mod Keyed
pub mod RoundTrip
pub mod Lint
pub mod Reasons
pub mod Depth
pub mod Deep
pub mod Loops
pub mod Clean
pub mod Rollup
pub mod Descent
pub mod Pushes
pub mod Subtree
pub mod Record
pub mod Merge
pub mod Mermaid
pub mod Escapes
use agents_for_dummies.Base.{
  ℕ, String, Bool, true, false, not, Option, none, some, List, contains, [], ◌∷◌,
}
use agents_for_dummies.Base.Dict.{Dict}

-- One delegated job. A field that is null in the file is `none`; seconds are in microseconds.
pub record Node : Type 0 where
  pub id : String
  pub run_id : Option String
  pub model : Option String
  pub tier : Option String
  pub task : Option String
  pub provider : Option String
  pub parent_id : Option String
  pub edge_type : Option String
  pub status : Option String
  pub seconds : Option ℕ
  pub subscription_calls : Option ℕ
  pub gate_reason : Option String
  pub timestamp : Option String

pub data LintRule : Type 0 where
  depth same_vendor_review frontier_without_gate : LintRule

pub record Finding : Type 0 where
  pub rule : LintRule
  pub node_ids : List String

pub data Warning : Type 0 where
  invalid_json : ℕ → Warning
  invalid_document : Warning
  unreadable_file : Warning
  invalid_store : Warning

pub record Ledger : Type 0 where
  pub nodes : Dict Node
  pub warnings : List Warning

-- Whether a text or None is true in a test.
abbrev pub truthy : Option String → Bool
truthy none = false
truthy (some text) = not (contains text ("" ∷ []))
