-- ===== src/Ledger/Rollup.antt =====
-- ledger.py: `rollup`. The walk of a subtree runs on fuel; a round for each edge and each node, and
-- two more, are enough. Seconds are in microseconds.
use agents_for_dummies.Base.{
  ℕ, zero, suc, ◌+◌, ◌*◌, String, Bool, true, false, not, ◌&&◌, Option, none, some, List, [], ◌∷◌,
  length, contains, if◌then◌else◌, is_some,
}
use agents_for_dummies.Base.Dict.{Dict, get, put}
use agents_for_dummies.Ledger.{Node, Ledger}
use agents_for_dummies.Ledger.Export.{values}
use agents_for_dummies.Ledger.Lint.{same_text}

-- What the walk of a subtree has seen and summed; the last node comes first.
pub record Walk : Type 0 where
  pub visited : List String
  pub calls : ℕ
  pub seconds : ℕ

abbrev pub or_zero : Option ℕ → ℕ
or_zero none = 0
or_zero (some n) = n

-- The loop over the other nodes: the children of a node that are not visited go on the stack.
unfoldable pub push_children : String → List String → List Node → List String → List String
push_children id visited [] stack = stack
push_children id visited (other ∷ rest) stack = push_children id visited rest (
    if same_text other.parent_id (some id) && not (contains other.id visited)
    then other.id ∷ stack
    else stack)

abbrev pub with_node : String → Node → Walk → Walk
with_node id node w = record {
  visited = id ∷ w.visited;
  calls = w.calls + or_zero node.subscription_calls;
  seconds = w.seconds + or_zero node.seconds;
}

-- A round at an id from the stack: the stack and the sums after it.
abbrev pub next_round :
    Dict Node → String → List String → Walk → Bool → Option Node → List String × Walk
next_round nodes id stack w again none = (stack, w)
next_round nodes id stack w true (some node) = (stack, w)
next_round nodes id stack w false (some node) =
    (push_children id (id ∷ w.visited) (values nodes) stack, with_node id node w)

-- `while stack`
unfoldable pub walk_down : Dict Node → ℕ → List String → Walk → Option Walk
walk_down nodes zero stack w = none
walk_down nodes (suc fuel) [] w = some w
walk_down nodes (suc fuel) (id ∷ stack) w =
    let round = next_round nodes id stack w (contains id w.visited) (get id nodes) in
    walk_down nodes fuel round.0 round.1

abbrev pub fuel_for : Dict Node → ℕ
fuel_for nodes = length nodes * (length nodes + 1) + 2

abbrev pub no_walk : Walk
no_walk = record { visited = []; calls = 0; seconds = 0 }

unfoldable pub rollup_root : Dict Node → String → Option Walk
rollup_root nodes root = walk_down nodes (fuel_for nodes) (root ∷ []) no_walk

unfoldable pub root_ids : List Node → List String
root_ids [] = []
root_ids (n ∷ rest) =
    let later = root_ids rest in if is_some n.parent_id then later else n.id ∷ later

-- The totals of each root.
unfoldable pub rollup_roots : Dict Node → List String → Dict (Option Walk)
rollup_roots nodes [] = []
rollup_roots nodes (root ∷ rest) = put root (rollup_root nodes root) (rollup_roots nodes rest)

unfoldable pub rollup : Ledger → Dict (Option Walk)
rollup ledger = rollup_roots ledger.nodes (root_ids (values ledger.nodes))
