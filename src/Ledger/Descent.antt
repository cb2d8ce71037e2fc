-- ===== src/Ledger/Descent.antt =====
-- The walk of a subtree ends.
use native.Mathlib.Nat.{mul-le-mul_left, mul-suc, mul_comm}
use agents_for_dummies.Base.{
  ℕ, zero, suc, ◌+◌, ◌*◌, ◌≤◌, ◌<◌, String, ◌≡◌, refl, Bool, true, false, not, ◌&&◌, Option, none,
  some, List, [], ◌∷◌, length, contains, arith, Bool-cases, inl, inr, ap,
}
use agents_for_dummies.Base.Dict.{Dict, get}
use agents_for_dummies.Ledger.{Node}
use agents_for_dummies.Ledger.Export.{values}
use agents_for_dummies.Ledger.Keyed.{keys}
use agents_for_dummies.Ledger.Depth.{get-keys, unseen, unseen-less, unseen-length}
use agents_for_dummies.Ledger.Lint.{same_text}
use agents_for_dummies.Ledger.Rollup.{
  Walk, push_children, next_round, walk_down, fuel_for, no_walk, rollup_root,
}

push_children-length :
    (id : String) (visited : List String) (ns : List Node) (stack : List String)
    → length (push_children id visited ns stack) ≤ length ns + length stack
unfolding push_children
push_children-length id visited [] stack = omega arith
push_children-length id visited (n ∷ ns) stack =
    elim (Bool-cases (same_text n.parent_id (some id) && not (contains n.id visited))) [
      | inl e ↦ rw e (omega (arith, push_children-length id visited ns (n.id ∷ stack)))
      | inr e ↦ rw e (omega (arith, push_children-length id visited ns stack))
    ]

length-values : (d : Dict Node) → length (values d) ≡ length d
length-values [] = refl
length-values ((k, n) ∷ d) = ap suc (length-values d)

-- What is left of a walk: the stack, and the nodes not visited with a push for each node.
abbrev left_of : Dict Node → List String → List String → ℕ
left_of nodes stack visited = length stack + (length nodes + 1) * unseen (keys nodes) visited

module _ (nodes : Dict Node) where
  next_round-less :
      (id : String) (stack : List String) (w : Walk) (again : Bool) (found : Option Node)
      → contains id w.visited ≡ again
      → get id nodes ≡ found
      → (let round = next_round nodes id stack w again found in
          left_of nodes round.0 round.1.visited < left_of nodes (id ∷ stack) w.visited)
  next_round-less id stack w again none c g = omega arith
  next_round-less id stack w true (some n) c g = omega arith
  next_round-less id stack w false (some n) c g =
      let fresh = unseen-less (keys nodes) w.visited id (get-keys id nodes g) c in
      let pushed = push_children-length id (id ∷ w.visited) (values nodes) stack in
      let most = mul-le-mul_left (length nodes + 1) fresh in
      omega (
        arith,
        pushed,
        length-values nodes,
        most,
        mul-suc (length nodes + 1) (unseen (keys nodes) (id ∷ w.visited)),
      )

  walk_down-ends :
      (fuel : ℕ) (stack : List String) (w : Walk)
      → left_of nodes stack w.visited < fuel
      → (final : Walk) × (walk_down nodes fuel stack w ≡ some final)
  unfolding walk_down
  walk_down-ends zero stack w enough = absurd (omega arith)
  walk_down-ends (suc fuel) [] w enough = (w, refl)
  walk_down-ends (suc fuel) (id ∷ stack) w enough =
      walk_down-ends fuel _ _ (omega (arith, enough, next_round-less id stack w _ _ refl refl))

  -- The totals of every root are found: the walk of a subtree ends, in a cycle as well.
  pub rollup_root-ends : (root : String) → (final : Walk) × (rollup_root nodes root ≡ some final)
  unfolding rollup_root
  rollup_root-ends root = walk_down-ends (fuel_for nodes) (root ∷ []) no_walk (
      let most = mul-le-mul_left (length nodes + 1) (unseen-length nodes []) in
      omega (arith, most, mul_comm (length nodes) (length nodes + 1)))
