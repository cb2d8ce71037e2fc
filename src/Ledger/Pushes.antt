-- ===== src/Ledger/Pushes.antt =====
-- What the stack of a walk gains and keeps, and where a ledger's nodes are found.
use mathlib.Core.List.{Memᴰ}
use mathlib.Core.List.Memᴰ.{head, tail}
use agents_for_dummies.Base.{
  String, ◌≡◌, refl, true, not, ◌&&◌, ◌||◌, some, List, [], ◌∷◌, All, contains, if◌then◌else◌,
  arith, ◌==◌, Bool-cases, String-cases, inl, inr, subst, sym, ap, ◌∙◌, eq_iff, eq_refl,
}
use agents_for_dummies.Base.Dict.{Dict, get}
use agents_for_dummies.Ledger.{Node}
use agents_for_dummies.Ledger.Export.{values}
use agents_for_dummies.Ledger.Keyed.{IsKeyed}
use agents_for_dummies.Ledger.Clean.{same_text_iff}
use agents_for_dummies.Ledger.Lint.{same_text}
use agents_for_dummies.Ledger.Rollup.{push_children}

module _ (id : String) (visited : List String) where
  pub push-keeps :
      (ns : List Node) (stack : List String) (c : String)
      → contains c stack ≡ true
      → contains c (push_children id visited ns stack) ≡ true
  unfolding push_children
  push-keeps [] stack c h = h
  push-keeps (n ∷ ns) stack c h =
      elim (Bool-cases (same_text n.parent_id (some id) && not (contains n.id visited))) [
        | inl e ↦ rw e (push-keeps ns (n.id ∷ stack) c (ground arith))
        | inr e ↦ rw e (push-keeps ns stack c h)
      ]

  pub push-adds :
      (ns : List Node) (stack : List String) (n : Node)
      → Memᴰ n ns
      → n.parent_id ≡ some id
      → (contains n.id visited || contains n.id (push_children id visited ns stack)) ≡ true
  unfolding push_children
  push-adds [] stack n h child = elim h [ ]
  push-adds (m ∷ ns) stack n (tail h) child = push-adds ns _ n h child
  push-adds (m ∷ ns) stack n (head same) child =
      let its = (same_text_iff n.parent_id id).1 child in
      elim (Bool-cases (contains n.id visited)) [
        | inl e ↦ rw e refl
        | inr e ↦ rw e (
            subst
              (λ o.
                contains n.id (
                  push_children id visited ns (
                    if same_text o.parent_id (some id) && not (contains o.id visited)
                    then o.id ∷ stack
                    else stack))
                ≡ true)
              same
              (rw its (rw e (push-keeps ns (n.id ∷ stack) n.id (ground (arith, eq_refl n.id))))))
      ]

  pub push-All :
      (P : String → Type 0) (ns : List Node) (stack : List String)
      → All P stack
      → ((n : Node) → Memᴰ n ns → n.parent_id ≡ some id → P n.id)
      → All P (push_children id visited ns stack)
  unfolding push_children
  push-All P [] stack h goes = h
  push-All P (n ∷ ns) stack h goes =
      elim (Bool-cases (same_text n.parent_id (some id) && not (contains n.id visited))) [
        | inl e ↦ rw e (
            push-All P ns (n.id ∷ stack)
              (goes n (head refl) ((same_text_iff n.parent_id id).0 (ground arith)), h)
              (λ m at. goes m (tail at)))
        | inr e ↦ rw e (push-All P ns stack h (λ m at. goes m (tail at)))
      ]

get-head :
    (k : String) (m : Node) (d : Dict Node) (c : String) {n : Node}
    → k ≡ c
    → get c ((k, m) ∷ d) ≡ some n
    → m ≡ n
unfolding get
get-head k m d c e h = ground (arith, (eq_iff k c).1 e)

-- A node under an id is a value, under its own id.
pub get-value :
    (d : Dict Node) (c : String) {n : Node}
    → IsKeyed d
    → get c d ≡ some n
    → Memᴰ n (values d) × (n.id ≡ c)
unfolding get IsKeyed
get-value [] c keyed h = absurd (ground arith)
get-value ((k, m) ∷ d) c {n} keyed h = elim (String-cases k c) [
  | inl e ↦
      let same = get-head k m d c {n = n} e h in
      (head (sym same), ap (λ o. o.id) (sym same) ∙ keyed.0 ∙ e)
  | inr e ↦ let rest = get-value d c {n = n} keyed.2 (ground arith) in (tail rest.0, rest.1)
]

pub value-get :
    (nodes : Dict Node) (ns : List Node) (n : Node)
    → All (λ m. get m.id nodes ≡ some m) ns
    → Memᴰ n ns
    → get n.id nodes ≡ some n
value-get nodes [] n h at = elim at [ ]
value-get nodes (m ∷ ns) n h (head same) = subst (λ o. get o.id nodes ≡ some o) (sym same) h.0
value-get nodes (m ∷ ns) n h (tail at) = value-get nodes ns n h.1 at

-- An id that the stack loses is still met, if it was met before.
pub shift :
    (c id : String) (visited stack : List String)
    → (contains c visited || (c == id || contains c stack)) ≡ true
    → (c ≡ id → (contains c visited || contains c stack) ≡ true)
    → (contains c visited || contains c stack) ≡ true
shift c id visited stack met same = elim (String-cases c id) [
  | inl e ↦ same e
  | inr e ↦ ground arith
]
