-- ===== src/Ledger/Subtree.antt =====
-- The walk of a subtree visits the nodes below its root, each once.
use agents_for_dummies.Ledger.Descent.{rollup_root-ends}
use agents_for_dummies.Base.{
  All-at, some_injective, ℕ, zero, suc, ◌+◌, String, ◌≡◌, refl, Bool, true, false, not, ◌&&◌, ◌||◌,
  Option, none, some, List, [], ◌∷◌, All, contains, arith, String-cases, inl, inr, subst, sym, ap,
  ◌∙◌, ◌↔◌, eq_refl,
}
use agents_for_dummies.Base.Dict.{Dict, get}
use agents_for_dummies.Ledger.{Node}
use agents_for_dummies.Ledger.Export.{values}
use agents_for_dummies.Ledger.Keyed.{IsKeyed}
use agents_for_dummies.Ledger.Loops.{values_at}
use agents_for_dummies.Ledger.Rollup.{
  Walk, or_zero, push_children, next_round, walk_down, fuel_for, no_walk, rollup_root,
}
use agents_for_dummies.Ledger.Pushes.{push-keeps, push-adds, push-All, get-value, value-get, shift}

-- The id is the root or leads to it by parents, and nodes stand under all of these ids.
pub data Below (nodes : Dict Node) (root : String) : String → Type 0 where
  top : {n : Node} → get root nodes ≡ some n → Below nodes root root
  under :
      {p c : String} {n : Node}
      → Below nodes root p
      → get c nodes ≡ some n
      → n.parent_id ≡ some p
      → Below nodes root c

abbrev calls_at : Option Node → ℕ
calls_at none = 0
calls_at (some n) = or_zero n.subscription_calls

abbrev seconds_at : Option Node → ℕ
seconds_at none = 0
seconds_at (some n) = or_zero n.seconds

-- Sums over the nodes under these ids.
abbrev pub calls_of : Dict Node → List String → ℕ
calls_of nodes [] = 0
calls_of nodes (id ∷ ids) = calls_of nodes ids + calls_at (get id nodes)

abbrev pub seconds_of : Dict Node → List String → ℕ
seconds_of nodes [] = 0
seconds_of nodes (id ∷ ids) = seconds_of nodes ids + seconds_at (get id nodes)

abbrev pub distinct : List String → Bool
distinct [] = true
distinct (x ∷ xs) = not (contains x xs) && distinct xs

module _ (nodes : Dict Node) (keyed : IsKeyed nodes) (root : String) where
  record IsWalk (stack : List String) (w : Walk) : Type 0 where
    below : All (Below nodes root) w.visited
    pending : All (λ id. (n : Node) → get id nodes ≡ some n → Below nodes root id) stack
    closed :
        (p c : String) (n : Node)
        → contains p w.visited ≡ true
        → get c nodes ≡ some n
        → n.parent_id ≡ some p
        → (contains c w.visited || contains c stack) ≡ true
    rooted :
        (n : Node)
        → get root nodes ≡ some n
        → (contains root w.visited || contains root stack) ≡ true
    once : distinct w.visited ≡ true
    calls : w.calls ≡ calls_of nodes w.visited
    seconds : w.seconds ≡ seconds_of nodes w.visited

  next_round-IsWalk :
      (id : String) (stack : List String) (w : Walk) (again : Bool) (found : Option Node)
      → contains id w.visited ≡ again
      → get id nodes ≡ found
      → IsWalk (id ∷ stack) w
      → (let round = next_round nodes id stack w again found in IsWalk round.0 round.1)
  next_round-IsWalk id stack w again none c g h = record {
    below = h.below;
    pending = h.pending.1;
    closed = λ p child n at got its.
        shift child id w.visited stack (h.closed p child n at got its)
          (λ e. absurd (ground (arith, ap (λ k. get k nodes) e, got, g)));
    rooted = λ n got.
        shift root id w.visited stack (h.rooted n got)
          (λ e. absurd (ground (arith, ap (λ k. get k nodes) e, got, g)));
    once = h.once;
    calls = h.calls;
    seconds = h.seconds;
  }
  next_round-IsWalk id stack w true (some n) c g h = record {
    below = h.below;
    pending = h.pending.1;
    closed = λ p child m at got its.
        shift child id w.visited stack (h.closed p child m at got its)
          (λ e. ground (arith, ap (λ k. contains k w.visited) e, c));
    rooted = λ m got.
        shift root id w.visited stack (h.rooted m got)
          (λ e. ground (arith, ap (λ k. contains k w.visited) e, c));
    once = h.once;
    calls = h.calls;
    seconds = h.seconds;
  }
  next_round-IsWalk id stack w false (some n) c g h =
      let seen = id ∷ w.visited in
      let kept = push-keeps id seen (values nodes) stack in
      record {
        below = (h.pending.0 n g, h.below);
        pending = push-All id seen _ (values nodes) stack h.pending.1 (λ m at child o got.
            under (h.pending.0 n g) (value-get nodes (values nodes) m (values_at nodes keyed) at)
              child);
        closed = λ p child m at got its. elim (String-cases p id) [
          | inl e ↦
              let v = get-value nodes child keyed got in
              subst
                (λ k.
                  (contains k seen || contains k (push_children id seen (values nodes) stack))
                  ≡ true)
                v.1 (push-adds id seen (values nodes) stack m v.0 (its ∙ ap some e))
          | inr e ↦ ground (arith, h.closed p child m (ground arith) got its, kept child)
        ];
        rooted = λ m got. ground (arith, h.rooted m got, kept root);
        once = ground (arith, c, h.once);
        calls =
            ap (λ k. k + or_zero n.subscription_calls) h.calls
            ∙ ap (λ o. calls_of nodes w.visited + calls_at o) (sym g);
        seconds =
            ap (λ k. k + or_zero n.seconds) h.seconds
            ∙ ap (λ o. seconds_of nodes w.visited + seconds_at o) (sym g);
      }

  walk_down-IsWalk :
      (fuel : ℕ) (stack : List String) (w : Walk) {final : Walk}
      → IsWalk stack w
      → walk_down nodes fuel stack w ≡ some final
      → IsWalk [] final
  unfolding walk_down
  walk_down-IsWalk zero stack w h e = absurd (ground arith)
  walk_down-IsWalk (suc fuel) [] w h e = subst (λ o. IsWalk [] o) (some_injective e) h
  walk_down-IsWalk (suc fuel) (id ∷ stack) w h e =
      walk_down-IsWalk fuel _ _ (next_round-IsWalk id stack w _ _ refl refl h) e

  start-IsWalk : IsWalk (root ∷ []) no_walk
  start-IsWalk = record {
    below = tt;
    pending = (λ n got. top got, tt);
    closed = λ p c n at got its. absurd (ground arith);
    rooted = λ n got. ground (arith, eq_refl root);
    once = refl;
    calls = refl;
    seconds = refl;
  }

  Below-visited :
      (w : Walk) {c : String} → IsWalk [] w → Below nodes root c → contains c w.visited ≡ true
  Below-visited w h (top {n} got) = ground (arith, h.rooted n got)
  Below-visited w h (under {p} {c} {n} b got its) =
      ground (arith, h.closed p c n (Below-visited w h b) got its)

  -- In a ledger whose nodes stand each under its own id, the walk of a subtree ends; it visits the
  -- nodes below the root, and those only, each once, and its totals are the sums over them.
  pub rollup_root-Below :
      (w : Walk) × (rollup_root nodes root ≡ some w)
      × ((c : String) → (contains c w.visited ≡ true) ↔ Below nodes root c)
      × (distinct w.visited ≡ true)
      × (w.calls ≡ calls_of nodes w.visited)
      × (w.seconds ≡ seconds_of nodes w.visited)
  unfolding rollup_root
  rollup_root-Below =
      let (w, ends) = rollup_root-ends nodes root in
      let h = walk_down-IsWalk (fuel_for nodes) (root ∷ []) no_walk start-IsWalk ends in
      (
        w,
        ends,
        λ c. (All-at (Below nodes root) c w.visited h.below, Below-visited w h),
        h.once,
        h.calls,
        h.seconds,
      )
