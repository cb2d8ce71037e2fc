-- ===== src/Ledger/Deep.antt =====
-- The depth of a node is above one where its parent has a parent.
use agents_for_dummies.Base.{
  sym, ℕ, zero, suc, ◌≤◌, String, ◌≡◌, refl, Bool, true, false, ◌&&◌, Option, none, some, [], ◌∷◌,
  ltb, length, contains, arith, Bool-cases, inl, inr, eq_iff, is_some, ap, ◌∙◌, subst,
}
use agents_for_dummies.Base.Dict.{Dict, get}
use agents_for_dummies.Ledger.{Node, truthy}
use agents_for_dummies.Ledger.Lint.{parent_of, node_at, walk_up, climb, visit, compute_depth}
use agents_for_dummies.Ledger.Depth.{walk_up-high}

abbrev pub has_parent : Option Node → Bool
has_parent none = false
has_parent (some n) = is_some n.parent_id

unfoldable pub is_deep : Dict Node → Node → Bool
is_deep nodes n = truthy (some n.id) && has_parent (parent_of nodes n.parent_id)

second_climb :
    (onwards : String → Option ℕ) (parent : Option String) {d : ℕ}
    → ((up : String) → onwards up ≡ some d → 2 ≤ d)
    → climb onwards 1 parent ≡ some d
    → ltb 1 d ≡ is_some parent
second_climb onwards none goes h = ground arith
second_climb onwards (some up) goes h = ground (arith, goes up h)

second_visit :
    (onwards : String → Option ℕ) (again : Bool) (found : Option Node) {d : ℕ}
    → (again ≡ true → has_parent found ≡ true)
    → ((up : String) → onwards up ≡ some d → 2 ≤ d)
    → visit onwards 1 again found ≡ some d
    → ltb 1 d ≡ has_parent found
second_visit onwards again none cycle goes h = ground arith
second_visit onwards true (some n) cycle goes h = ground arith
second_visit onwards false (some n) cycle goes h = second_climb onwards n.parent_id goes h

module _ (nodes : Dict Node) (n : Node) (here : node_at nodes n.id ≡ some n) where
  cycle : (up : String) → n.parent_id ≡ some up → up ≡ n.id → has_parent (node_at nodes up) ≡ true
  cycle up child same =
      subst (λ id. has_parent (node_at nodes id) ≡ true) (sym same)
        (ap has_parent here ∙ ap is_some child)

  walk_second :
      (fuel : ℕ) (up : String) {d : ℕ}
      → n.parent_id ≡ some up
      → walk_up nodes fuel up (n.id ∷ []) 1 ≡ some d
      → ltb 1 d ≡ has_parent (node_at nodes up)
  unfolding walk_up
  walk_second zero up child h = ground arith
  walk_second (suc fuel) up {d} child h =
      second_visit _ (contains up (n.id ∷ [])) (node_at nodes up)
        (λ again. cycle up child ((eq_iff up n.id).0 (ground arith)))
        (λ next e. walk_up-high nodes fuel next (up ∷ n.id ∷ []) 2 (omega arith) e) h

  first_climb :
      (fuel : ℕ) (parent : Option String) {d : ℕ}
      → n.parent_id ≡ parent
      → climb (λ up. walk_up nodes fuel up (n.id ∷ []) 1) 0 parent ≡ some d
      → ltb 1 d ≡ has_parent (parent_of nodes parent)
  first_climb fuel none child h = ground arith
  first_climb fuel (some up) child h = walk_second fuel up child h

  walk_first :
      (fuel : ℕ) {d : ℕ}
      → walk_up nodes (suc fuel) n.id [] 0 ≡ some d
      → ltb 1 d ≡ has_parent (parent_of nodes n.parent_id)
  unfolding walk_up
  walk_first fuel {d} h = first_climb fuel n.parent_id refl (
      subst (λ found. visit (λ up. walk_up nodes fuel up (n.id ∷ []) 1) 0 false found ≡ some d) here
        h)

node_at-some :
    (nodes : Dict Node) (id : String) {n : Node}
    → truthy (some id) ≡ true
    → get id nodes ≡ some n
    → node_at nodes id ≡ some n
unfolding node_at
node_at-some nodes id e at = ground (arith, e, at)

node_at-none :
    (nodes : Dict Node) (id : String) → truthy (some id) ≡ false → node_at nodes id ≡ none
unfolding node_at
node_at-none nodes id e = ground (arith, e)

walk_nowhere :
    (nodes : Dict Node) (fuel : ℕ) (id : String) {d : ℕ}
    → node_at nodes id ≡ none
    → walk_up nodes (suc fuel) id [] 0 ≡ some d
    → ltb 1 d ≡ false
unfolding walk_up
walk_nowhere nodes fuel id {d} gone h =
    let ends =
      subst (λ found. visit (λ up. walk_up nodes fuel up (id ∷ []) 1) 0 false found ≡ some d) gone
        h in
    ground (arith, ends)

-- The depth of a node is above one if and only if its parent has a parent.
pub compute_depth-is_deep :
    (nodes : Dict Node) (n : Node) {d : ℕ}
    → get n.id nodes ≡ some n
    → compute_depth nodes n.id ≡ some d
    → ltb 1 d ≡ is_deep nodes n
unfolding compute_depth is_deep
compute_depth-is_deep nodes n {d} at h = elim (Bool-cases (truthy (some n.id))) [
  | inl e ↦ rw e (walk_first nodes n (node_at-some nodes n.id e at) (length nodes) h)
  | inr e ↦ rw e (walk_nowhere nodes (length nodes) n.id (node_at-none nodes n.id e) h)
]
