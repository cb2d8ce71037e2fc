-- ===== src/Ledger/Depth.antt =====
-- The walk to the root ends.
use agents_for_dummies.Base.{
  sym, ℕ, zero, suc, ◌≤◌, ◌<◌, String, ◌≡◌, refl, Bool, true, false, Option, none, some, List, [],
  ◌∷◌, length, contains, if◌then◌else◌, arith, String-cases, inl, inr, eq_iff, eq_refl,
}
use agents_for_dummies.Base.Dict.{Dict, get}
use agents_for_dummies.Ledger.{Node}
use agents_for_dummies.Ledger.Keyed.{keys}
use agents_for_dummies.Ledger.Lint.{node_at, walk_up, climb, visit, compute_depth}

-- How many of the keys have not been seen.
abbrev pub unseen : List String → List String → ℕ
unseen [] seen = 0
unseen (k ∷ ks) seen = if contains k seen then unseen ks seen else suc (unseen ks seen)

unseen-more : (ks seen : List String) (c : String) → unseen ks (c ∷ seen) ≤ unseen ks seen
unseen-more [] seen c = omega arith
unseen-more (k ∷ ks) seen c = ground (arith, unseen-more ks seen c)

pub unseen-less :
    (ks seen : List String) (c : String)
    → contains c ks ≡ true
    → contains c seen ≡ false
    → unseen ks (c ∷ seen) < unseen ks seen
unseen-less [] seen c h new = ground arith
unseen-less (k ∷ ks) seen c h new = elim (String-cases c k) [
  | inl e ↦ rw (sym e) (rw (eq_refl c) (rw new (ground (arith, unseen-more ks seen c))))
  | inr e ↦ ground (arith, eq_iff k c, eq_iff c k, unseen-less ks seen c)
]

pub get-keys :
    (k : String) (d : Dict Node) {n : Node} → get k d ≡ some n → contains k (keys d) ≡ true
unfolding get
get-keys k [] h = ground arith
get-keys k ((j, m) ∷ d) {n} h = ground (arith, eq_iff k j, eq_iff j k, get-keys k d {n = n})

pub unseen-length : (d : Dict Node) (seen : List String) → unseen (keys d) seen ≤ length d
unseen-length [] seen = omega arith
unseen-length (x ∷ d) seen = ground (arith, unseen-length d seen)

module _ (onwards : String → Option ℕ) (height : ℕ) where
  climb-ends :
      (parent : Option String)
      → ((up : String) → (d : ℕ) × (onwards up ≡ some d))
      → (d : ℕ) × (climb onwards height parent ≡ some d)
  climb-ends none goes = (height, refl)
  climb-ends (some up) goes = goes up

  visit-ends :
      (again : Bool) (found : Option Node)
      → ((n : Node)
          → found ≡ some n
          → again ≡ false
          → (up : String) → (d : ℕ) × (onwards up ≡ some d))
      → (d : ℕ) × (visit onwards height again found ≡ some d)
  visit-ends again none goes = (height, refl)
  visit-ends true (some n) goes = (2, refl)
  visit-ends false (some n) goes = climb-ends n.parent_id (goes n refl refl)

  climb-high :
      (parent : Option String) {d : ℕ}
      → ((up : String) → onwards up ≡ some d → 2 ≤ d)
      → 2 ≤ height
      → climb onwards height parent ≡ some d
      → 2 ≤ d
  climb-high none goes high h = ground arith
  climb-high (some up) goes high h = goes up h

  visit-high :
      (again : Bool) (found : Option Node) {d : ℕ}
      → ((up : String) → onwards up ≡ some d → 2 ≤ d)
      → 2 ≤ height
      → visit onwards height again found ≡ some d
      → 2 ≤ d
  visit-high again none goes high h = ground arith
  visit-high true (some n) goes high h = ground arith
  visit-high false (some n) goes high h = climb-high n.parent_id goes high h

module _ (nodes : Dict Node) where
  node_at-keys :
      (id : String) {n : Node} → node_at nodes id ≡ some n → contains id (keys nodes) ≡ true
  unfolding node_at
  node_at-keys id {n} h = ground (arith, get-keys id nodes {n = n})

  walk_up-ends :
      (fuel : ℕ) (current : String) (seen : List String) (height : ℕ)
      → unseen (keys nodes) seen < fuel
      → (d : ℕ) × (walk_up nodes fuel current seen height ≡ some d)
  unfolding walk_up
  walk_up-ends zero current seen height enough = absurd (omega arith)
  walk_up-ends (suc fuel) current seen height enough =
      visit-ends _ height (contains current seen) (node_at nodes current) (λ n e new up.
        walk_up-ends fuel up (current ∷ seen) (suc height) (
          omega
            (arith, enough, unseen-less (keys nodes) seen current (node_at-keys current e) new)))

  -- The depth of every node is found: the walk up the parents ends, in a cycle as well.
  pub compute_depth-ends : (id : String) → (d : ℕ) × (compute_depth nodes id ≡ some d)
  unfolding compute_depth
  compute_depth-ends id =
      walk_up-ends (suc (length nodes)) id [] 0 (omega (arith, unseen-length nodes []))

  pub walk_up-high :
      (fuel : ℕ) (current : String) (seen : List String) (height : ℕ) {d : ℕ}
      → 2 ≤ height
      → walk_up nodes fuel current seen height ≡ some d
      → 2 ≤ d
  unfolding walk_up
  walk_up-high zero current seen height high h = absurd (ground arith)
  walk_up-high (suc fuel) current seen height high h =
      visit-high _ height (contains current seen) (node_at nodes current)
        (λ up e. walk_up-high fuel up (current ∷ seen) (suc height) (omega arith) e) high h
