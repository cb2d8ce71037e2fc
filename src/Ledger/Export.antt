-- ===== src/Ledger/Export.antt =====
-- ledger.py: `to_json` and `from_json`, around the writing and reading of JSON texts.
use agents_for_dummies.Base.{Option, none, some, List, [], ◌∷◌, map}
use agents_for_dummies.Base.Dict.{Dict, put}
use agents_for_dummies.Ledger.{Node, Ledger, invalid_document}
use agents_for_dummies.Ledger.Load.{present, Entry, node_of}

-- The object that a node is written as: all its fields, null where a field is None.
abbrev pub entry_of : Node → Entry
entry_of n = record {
  id = some n.id;
  run_id = n.run_id;
  model = n.model;
  tier = n.tier;
  task = n.task;
  provider = n.provider;
  parent_id = n.parent_id;
  edge_type = n.edge_type;
  status = present n.status;
  seconds = n.seconds;
  subscription_calls = n.subscription_calls;
  gate_reason = n.gate_reason;
  timestamp = present n.timestamp;
}

-- ledger.nodes.values()
abbrev pub values {ℓ} : {V : Type ℓ} → Dict V → List V
values [] = []
values ((k, v) ∷ d) = v ∷ values d

-- The loop over the objects of a document.
unfoldable pub read_nodes : List Entry → Dict Node → Dict Node
read_nodes [] nodes = nodes
read_nodes (entry ∷ rest) nodes =
    let node = node_of entry in read_nodes rest (put node.id node nodes)

-- What is made of a document that json.loads reads, or fails to.
abbrev pub read_document : Option (List Entry) → Ledger
read_document none = record { nodes = []; warnings = invalid_document ∷ [] }
read_document (some nodes_data) = record { nodes = read_nodes nodes_data []; warnings = [] }

-- The texts are of any type: json.dumps writes a document with a list of nodes, and json.loads
-- reads one, or fails.
module _ {Text : Type 0} where
  unfoldable pub to_json : (List Entry → Text) → Ledger → Text
  to_json dumps ledger = dumps (map entry_of (values ledger.nodes))

  unfoldable pub from_json : (Text → Option (List Entry)) → Text → Ledger
  from_json loads s = read_document (loads s)
