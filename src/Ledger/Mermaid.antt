-- ===== src/Ledger/Mermaid.antt =====
-- ledger.py: `to_mermaid`, over code points.
use agents_for_dummies.Base.{
  ℕ, String, ◌&&◌, Option, none, some, List, [], ◌∷◌, ◌++◌, if◌then◌else◌, eqb,
}
use agents_for_dummies.Base.Text.{codes}
use agents_for_dummies.Ledger.{Node, Ledger, truthy}
use agents_for_dummies.Ledger.Export.{values}

-- text.replace(c, '\\' + c)
unfoldable pub replace : ℕ → List ℕ → List ℕ
replace c [] = []
replace c (x ∷ xs) = let rest = replace c xs in if eqb x c then b'\\' ∷ c ∷ rest else x ∷ rest

unfoldable pub escape_label : List ℕ → List ℕ
escape_label text = replace 93 (replace 91 (replace 124 (replace 34 (replace b'\\' text))))

-- A field in an f-string
abbrev pub shown : Option String → List ℕ
shown none = codes "None"
shown (some text) = codes text

unfoldable pub node_line : Node → List ℕ
node_line n =
    codes "  "
    ++ codes n.id
    ++ codes "[\""
    ++ escape_label (shown n.task ++ codes "/" ++ shown n.model)
    ++ codes "\"]"

abbrev pub edge_lines : Node → List (List ℕ)
edge_lines n =
    if truthy n.parent_id && truthy n.edge_type
    then (codes "  "
        ++ codes n.id
        ++ codes " -->|"
        ++ escape_label (shown n.edge_type)
        ++ codes "| "
        ++ shown n.parent_id)
      ∷ []
    else []

unfoldable pub node_lines : List Node → List (List ℕ)
node_lines [] = []
node_lines (n ∷ ns) = node_line n ∷ node_lines ns

unfoldable pub all_edge_lines : List Node → List (List ℕ)
all_edge_lines [] = []
all_edge_lines (n ∷ ns) = edge_lines n ++ all_edge_lines ns

-- "\n".join(lines)
unfoldable pub join_lines : List (List ℕ) → List ℕ
join_lines [] = []
join_lines (line ∷ []) = line
join_lines (line ∷ next ∷ rest) = line ++ (10 ∷ join_lines (next ∷ rest))

unfoldable pub to_mermaid : Ledger → List ℕ
to_mermaid ledger =
    join_lines (
      codes "graph TD" ∷ (node_lines (values ledger.nodes) ++ all_edge_lines (values ledger.nodes)))
