-- ===== src/Ledger/Record.antt =====
-- ledger.py: the lines that `record_dispatch` and `record_return` append to the file.
use agents_for_dummies.Base.{ℕ, String, Option, none, some}
use agents_for_dummies.Ledger.Load.{present, Entry}

-- The arguments of record_dispatch that its line has.
pub record Dispatch : Type 0 where
  pub node_id : String
  pub run_id : String
  pub model : String
  pub tier : String
  pub task : String
  pub provider : String
  pub parent_id : Option String
  pub edge_type : Option String
  pub gate_reason : Option String

-- The arguments of record_return but the node's id.
pub record Return : Type 0 where
  pub status : String
  pub seconds : ℕ
  pub subscription_calls : ℕ

unfoldable pub dispatch_entry : Dispatch → String → Entry
dispatch_entry d now = record {
  id = some d.node_id;
  run_id = some d.run_id;
  model = some d.model;
  tier = some d.tier;
  task = some d.task;
  provider = some d.provider;
  parent_id = d.parent_id;
  edge_type = d.edge_type;
  status = present (some "dispatched");
  seconds = none;
  subscription_calls = none;
  gate_reason = d.gate_reason;
  timestamp = present (some now);
}

unfoldable pub return_entry : String → Return → String → Entry
return_entry node_id r now = record {
  id = some node_id;
  run_id = none;
  model = none;
  tier = none;
  task = none;
  provider = none;
  parent_id = none;
  edge_type = none;
  status = present (some r.status);
  seconds = some r.seconds;
  subscription_calls = some r.subscription_calls;
  gate_reason = none;
  timestamp = present (some now);
}
