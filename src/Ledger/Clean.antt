-- ===== src/Ledger/Clean.antt =====
-- When `lint` finds nothing.
use agents_for_dummies.Base.{
  String, ◌≡◌, refl, true, false, Option, none, some, List, [], ◌∷◌, ◌++◌, All, ◌↔◌, arith,
  Option-cases, Bool-cases, inl, inr, eq_iff, is_some, subst, sym, ap, ◌∙◌,
}
use agents_for_dummies.Base.Dict.{Dict}
use agents_for_dummies.Ledger.{Node, Ledger, Finding, truthy}
use agents_for_dummies.Ledger.Export.{values}
use agents_for_dummies.Ledger.Keyed.{IsKeyed}
use agents_for_dummies.Ledger.Lint.{
  after_depth, parent_of, node_at, depth_findings, same_text, reviewed, review_finding,
  review_findings, gate_finding, gate_findings, lint,
}
use agents_for_dummies.Ledger.Reasons.{HasReason, lacks_reason_iff}
use agents_for_dummies.Ledger.Deep.{has_parent, is_deep}
use agents_for_dummies.Ledger.Loops.{
  values_at, depth_findings-clean, review_findings-clean, gate_findings-clean, append-nil_iff,
}

-- A node against which no rule is broken. If its id is not empty, its parent has no parent; it does
-- not review a node of the same provider; and on the executive tier it has a reason in which some
-- character is not white space.
pub record IsClean (nodes : Dict Node) (n : Node) : Type 0 where
  pub shallow :
      (up : String) (p : Node)
      → truthy (some n.id) ≡ true
      → n.parent_id ≡ some up
      → node_at nodes up ≡ some p
      → p.parent_id ≡ none
  pub other_vendor :
      (up : String) (p : Node)
      → n.edge_type ≡ some "reviews"
      → n.parent_id ≡ some up
      → node_at nodes up ≡ some p
      → same_text n.provider p.provider ≡ false
  pub gated : n.tier ≡ some "executive" → HasReason n.gate_reason

not_some : {a : Option String} → is_some a ≡ false → a ≡ none
not_some h = ground arith

pub same_text_iff : (a : Option String) (b : String) → (same_text a (some b) ≡ true) ↔ (a ≡ some b)
same_text_iff none b = (λ h. ground arith, λ h. ground arith)
same_text_iff (some a) b = (λ h. ground (arith, eq_iff a b), λ h. ground (arith, eq_iff a b))

-- What the parent is found to be has a property if every node under the parent's id has it.
parent_cases {ℓ} :
    (nodes : Dict Node) (parent : Option String) (P : Option Node → Type ℓ)
    → P none
    → ((up : String) (p : Node) → parent ≡ some up → node_at nodes up ≡ some p → P (some p))
    → P (parent_of nodes parent)
parent_cases nodes none P at_none at_some = at_none
parent_cases nodes (some up) P at_none at_some = elim (Option-cases (node_at nodes up)) [
  | inl e ↦ subst P (sym e) at_none
  | inr (p, e) ↦ subst P (sym e) (at_some up p refl e)
]

module _ (nodes : Dict Node) (n : Node) where
  parent_at :
      {up : String} {p : Node}
      → n.parent_id ≡ some up
      → node_at nodes up ≡ some p
      → parent_of nodes n.parent_id ≡ some p
  parent_at child at = ap (parent_of nodes) child ∙ at

  reviewed_at :
      {p : Node}
      → n.edge_type ≡ some "reviews"
      → parent_of nodes n.parent_id ≡ some p
      → reviewed nodes n ≡ some p
  unfolding reviewed
  reviewed_at reviews at = rw ((same_text_iff n.edge_type "reviews").1 reviews) at

  differ : (p : Node) → review_finding n (some p) ≡ [] → same_text n.provider p.provider ≡ false
  differ p h = ground arith

  shallow_iff : (is_deep nodes n ≡ false) ↔ (
      (up : String) (p : Node)
      → truthy (some n.id) ≡ true
      → n.parent_id ≡ some up
      → node_at nodes up ≡ some p
      → p.parent_id ≡ none)
  unfolding is_deep
  shallow_iff = (
    λ h up p true_id child at.
        not_some (sym (ap has_parent (parent_at child at)) ∙ ground (arith, h, true_id)),
    λ h. elim (Bool-cases (truthy (some n.id))) [
      | inl e ↦ rw e (
          parent_cases nodes n.parent_id (λ found. has_parent found ≡ false) refl
            (λ up p child at. ap is_some (h up p e child at)))
      | inr e ↦ rw e refl
    ],
  )

  other_vendor_iff : (review_finding n (reviewed nodes n) ≡ []) ↔ (
      (up : String) (p : Node)
      → n.edge_type ≡ some "reviews"
      → n.parent_id ≡ some up
      → node_at nodes up ≡ some p
      → same_text n.provider p.provider ≡ false)
  unfolding reviewed
  other_vendor_iff = (
    λ h up p reviews child at.
        differ p (
          subst (λ found. review_finding n found ≡ []) (reviewed_at reviews (parent_at child at))
            h),
    λ h. elim (Bool-cases (same_text n.edge_type (some "reviews"))) [
      | inl e ↦ rw e (
          parent_cases nodes n.parent_id (λ found. review_finding n found ≡ []) refl
            (λ up p child at.
              rw (h up p ((same_text_iff n.edge_type "reviews").0 e) child at) refl))
      | inr e ↦ rw e refl
    ],
  )

  gated_iff : (gate_finding n ≡ []) ↔ (n.tier ≡ some "executive" → HasReason n.gate_reason)
  gated_iff = (
    λ h executive.
        (lacks_reason_iff n.gate_reason).0
          (ground (arith, h, (same_text_iff n.tier "executive").1 executive)),
    λ h. elim (Bool-cases (same_text n.tier (some "executive"))) [
      | inl e ↦ rw e (
          rw ((lacks_reason_iff n.gate_reason).1 (h ((same_text_iff n.tier "executive").0 e))) refl)
      | inr e ↦ rw e refl
    ],
  )

All-iff {ℓ κ} :
    {A : Type ℓ} (P Q : A → Type κ) (xs : List A) → ((x : A) → P x ↔ Q x) → All P xs ↔ All Q xs
All-iff P Q [] same = (λ h. tt, λ h. tt)
All-iff P Q (x ∷ xs) same =
    let rest = All-iff P Q xs same in
    (λ h. ((same x).0 h.0, rest.0 h.1), λ h. ((same x).1 h.0, rest.1 h.1))

All-zip {ℓ κ} :
    {A : Type ℓ} (P Q R : A → Type κ) (xs : List A)
    → (All P xs × All Q xs × All R xs) ↔ All (λ x. P x × Q x × R x) xs
All-zip P Q R [] = (λ h. tt, λ h. (tt, tt, tt))
All-zip P Q R (x ∷ xs) =
    let rest = All-zip P Q R xs in
    (
      λ h. ((h.0.0, h.1.0, h.2.0), rest.0 (h.0.1, h.1.1, h.2.1)),
      λ h. let r = rest.1 h.1 in ((h.0.0, r.0), (h.0.1, r.1), (h.0.2, r.2)),
    )

IsClean-iff :
    (nodes : Dict Node) (n : Node)
    → ((is_deep nodes n ≡ false)
        × (review_finding n (reviewed nodes n) ≡ [])
        × (gate_finding n ≡ []))
      ↔ IsClean nodes n
IsClean-iff nodes n = (
  λ h. record {
    shallow = (shallow_iff nodes n).0 h.0;
    other_vendor = (other_vendor_iff nodes n).0 h.1;
    gated = (gated_iff nodes n).0 h.2;
  },
  λ c. (
    (shallow_iff nodes n).1 c.shallow,
    (other_vendor_iff nodes n).1 c.other_vendor,
    (gated_iff nodes n).1 c.gated,
  ),
)

after_depth-nil :
    (ledger : Ledger) (deep : Option (List Finding))
    → (after_depth ledger deep ≡ some []) ↔ (
        (deep ≡ some [])
        × (review_findings ledger.nodes (values ledger.nodes) ≡ [])
        × (gate_findings (values ledger.nodes) ≡ []))
after_depth-nil ledger none = (λ h. ground arith, λ h. ground arith)
after_depth-nil ledger (some deep) =
    let reviews = review_findings ledger.nodes (values ledger.nodes) in
    let gates = gate_findings (values ledger.nodes) in
    let first = append-nil_iff (deep ++ reviews) gates in
    let others = append-nil_iff deep reviews in
    (
      λ h.
          let parts = first.0 (ground (arith, h)) in
          (ap some (others.0 parts.0).0, (others.0 parts.0).1, parts.1),
      λ h. ap some (first.1 (others.1 (ground (arith, h.0), h.1), h.2)),
    )

-- On a ledger whose nodes stand each under its own id, `lint` ends and finds nothing if and only if
-- every node is clean: where its id is not empty, its parent has no parent; a review is of a node of
-- another provider; and a node on the executive tier has a reason in which some character is not
-- white space.
pub lint-IsClean_iff :
    (ledger : Ledger)
    → IsKeyed ledger.nodes
    → (lint ledger ≡ some []) ↔ All (IsClean ledger.nodes) (values ledger.nodes)
unfolding lint
lint-IsClean_iff ledger keyed =
    let nodes = ledger.nodes in
    let ns = values nodes in
    let at = values_at nodes keyed in
    let all = after_depth-nil ledger (depth_findings nodes ns) in
    let deep = depth_findings-clean nodes ns at in
    let reviews = review_findings-clean nodes ns in
    let gates = gate_findings-clean ns in
    let each = All-iff _ _ ns (IsClean-iff nodes) in
    let zip = All-zip _ _ _ ns in
    (
      λ h.
          let parts = all.0 h in
          each.0 (zip.0 (deep.0 parts.0, reviews.0 parts.1, gates.0 parts.2)),
      λ h.
          let parts = zip.1 (each.1 h) in
          all.1 (deep.1 parts.0, reviews.1 parts.1, gates.1 parts.2),
    )
