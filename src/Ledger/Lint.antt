-- ===== src/Ledger/Lint.antt =====
-- ledger.py: `lint` of a ledger. The walk to the root runs on fuel; one step for each node and one
-- more is enough.
use agents_for_dummies.Base.{
  ℕ, zero, suc, String, Bool, true, false, ◌&&◌, Option, none, some, List, [], ◌∷◌, ◌++◌, ltb,
  length, contains, if◌then◌else◌, ◌==◌,
}
use agents_for_dummies.Base.Dict.{Dict, get}
use agents_for_dummies.Base.Text.{codes, strip}
use agents_for_dummies.Ledger.{
  Node, Finding, Ledger, depth, same_vendor_review, frontier_without_gate, truthy,
}
use agents_for_dummies.Ledger.Export.{values}

-- ledger.nodes[id], where the id is true and among the nodes
unfoldable pub node_at : Dict Node → String → Option Node
node_at nodes id = if truthy (some id) then get id nodes else none

-- The way on from a node that has not been seen: to its parent, if it has one.
abbrev pub climb : (String → Option ℕ) → ℕ → Option String → Option ℕ
climb onwards height none = some height
climb onwards height (some up) = onwards up

-- A round of the loop, at what is found under the id, which may have been seen.
abbrev pub visit : (String → Option ℕ) → ℕ → Bool → Option Node → Option ℕ
visit onwards height again none = some height
visit onwards height true (some parent) = some 2
visit onwards height false (some parent) = climb onwards height parent.parent_id

-- The loop of compute_depth.
unfoldable pub walk_up : Dict Node → ℕ → String → List String → ℕ → Option ℕ
walk_up nodes zero current seen height = none
walk_up nodes (suc fuel) current seen height =
    visit (λ up. walk_up nodes fuel up (current ∷ seen) (suc height)) height (contains current seen)
      (node_at nodes current)

unfoldable pub compute_depth : Dict Node → String → Option ℕ
compute_depth nodes id = walk_up nodes (suc (length nodes)) id [] 0

abbrev pub depth_finding : Node → Finding
depth_finding node = record { rule = depth; node_ids = node.id ∷ [] }

-- The findings of the first rule, with that of one more node of this depth.
abbrev pub add_deep : Node → Option ℕ → Option (List Finding) → Option (List Finding)
add_deep node none later = none
add_deep node (some d) none = none
add_deep node (some d) (some later) = some (if ltb 1 d then depth_finding node ∷ later else later)

-- The loop of the first rule, over the nodes' values.
unfoldable pub depth_findings : Dict Node → List Node → Option (List Finding)
depth_findings nodes [] = some []
depth_findings nodes (node ∷ rest) =
    add_deep node (compute_depth nodes node.id) (depth_findings nodes rest)

-- Equality of texts that may be None.
abbrev pub same_text : Option String → Option String → Bool
same_text none none = true
same_text (some a) (some b) = a == b
same_text _ _ = false

abbrev pub parent_of : Dict Node → Option String → Option Node
parent_of nodes none = none
parent_of nodes (some up) = node_at nodes up

-- The node that a node reviews, where it is there.
unfoldable pub reviewed : Dict Node → Node → Option Node
reviewed nodes node =
    if same_text node.edge_type (some "reviews") then parent_of nodes node.parent_id else none

abbrev pub review_finding : Node → Option Node → List Finding
review_finding node none = []
review_finding node (some parent) =
    if same_text node.provider parent.provider
    then record { rule = same_vendor_review; node_ids = parent.id ∷ node.id ∷ [] } ∷ []
    else []

unfoldable pub review_findings : Dict Node → List Node → List Finding
review_findings nodes [] = []
review_findings nodes (node ∷ rest) =
    review_finding node (reviewed nodes node) ++ review_findings nodes rest

abbrev pub is_nil : List ℕ → Bool
is_nil [] = true
is_nil (c ∷ cs) = false

-- not node.gate_reason or not node.gate_reason.strip()
abbrev pub lacks_reason : Option String → Bool
lacks_reason none = true
lacks_reason (some reason) = is_nil (strip (codes reason))

abbrev pub gate_finding : Node → List Finding
gate_finding node =
    if same_text node.tier (some "executive") && lacks_reason node.gate_reason
    then record { rule = frontier_without_gate; node_ids = node.id ∷ [] } ∷ []
    else []

unfoldable pub gate_findings : List Node → List Finding
gate_findings [] = []
gate_findings (node ∷ rest) = gate_finding node ++ gate_findings rest

-- The findings of the first rule, and those of the others after them.
abbrev pub after_depth : Ledger → Option (List Finding) → Option (List Finding)
after_depth ledger none = none
after_depth ledger (some deep) = some (
    deep
    ++ review_findings ledger.nodes (values ledger.nodes)
    ++ gate_findings (values ledger.nodes))

unfoldable pub lint : Ledger → Option (List Finding)
lint ledger = after_depth ledger (depth_findings ledger.nodes (values ledger.nodes))
