-- ===== src/Ledger/Loops.antt =====
-- The loops of `lint`: each ends, and finds nothing where no node gives a finding.
use agents_for_dummies.Base.{
  ℕ, String, ◌≡◌, refl, false, Option, none, some, List, [], ◌∷◌, ◌++◌, ltb, All, ◌↔◌, contains,
  arith, String-cases, inl, inr, eq_refl, sym, ap, ◌∙◌,
}
use agents_for_dummies.Base.Dict.{Dict, get}
use agents_for_dummies.Ledger.{Node, Ledger, Finding}
use agents_for_dummies.Ledger.Export.{values}
use agents_for_dummies.Ledger.Keyed.{keys, IsKeyed}
use agents_for_dummies.Ledger.Lint.{
  depth_findings, add_deep, reviewed, review_finding, review_findings, gate_finding, gate_findings,
  lint,
}
use agents_for_dummies.Ledger.Depth.{get-keys, compute_depth-ends}
use agents_for_dummies.Ledger.Deep.{is_deep, compute_depth-is_deep}

pub append-nil_iff {ℓ} : {A : Type ℓ} (xs ys : List A) → (xs ++ ys ≡ []) ↔ ((xs ≡ []) × (ys ≡ []))
append-nil_iff [] ys = (λ h. (refl, h), λ h. h.1)
append-nil_iff (x ∷ xs) ys = (λ h. ground arith, λ h. ground arith)

get-there :
    (k : String) (m : Node) (d : Dict Node) (n : Node)
    → contains k (keys d) ≡ false
    → get n.id d ≡ some n
    → get n.id ((k, m) ∷ d) ≡ some n
unfolding get
get-there k m d n new h = elim (String-cases k n.id) [
  | inl e ↦ absurd (ground (arith, get-keys n.id d h, ap (λ s. contains s (keys d)) e))
  | inr e ↦ rw e h
]

All-there :
    (k : String) (m : Node) (d : Dict Node) (ns : List Node)
    → contains k (keys d) ≡ false
    → All (λ n. get n.id d ≡ some n) ns
    → All (λ n. get n.id ((k, m) ∷ d) ≡ some n) ns
All-there k m d [] new h = tt
All-there k m d (n ∷ ns) new h = (get-there k m d n new h.0, All-there k m d ns new h.1)

-- Every value is what its id leads to.
pub values_at : (d : Dict Node) → IsKeyed d → All (λ n. get n.id d ≡ some n) (values d)
unfolding IsKeyed get
values_at [] h = tt
values_at ((k, n) ∷ d) h =
    (rw h.0 (rw (eq_refl k) refl), All-there k n d (values d) h.1 (values_at d h.2))

add_deep-nil :
    (n : Node) (d : ℕ) (later : Option (List Finding))
    → (add_deep n (some d) later ≡ some []) ↔ ((ltb 1 d ≡ false) × (later ≡ some []))
add_deep-nil n d none = (λ h. ground arith, λ h. ground arith)
add_deep-nil n d (some later) = (λ h. ground arith, λ h. ground arith)

add_deep-some :
    (n : Node) (d : ℕ) (later : Option (List Finding))
    → ((fs : List Finding) × (later ≡ some fs))
    → (fs : List Finding) × (add_deep n (some d) later ≡ some fs)
add_deep-some n d none found = absurd (ground (arith, found.1))
add_deep-some n d (some later) found = (_, refl)

module _ (nodes : Dict Node) where
  pub depth_findings-clean :
      (ns : List Node)
      → All (λ n. get n.id nodes ≡ some n) ns
      → (depth_findings nodes ns ≡ some []) ↔ All (λ n. is_deep nodes n ≡ false) ns
  unfolding depth_findings
  depth_findings-clean [] at = (λ h. tt, λ h. refl)
  depth_findings-clean (n ∷ ns) at =
      let (d, e) = compute_depth-ends nodes n.id in
      let deep = compute_depth-is_deep nodes n at.0 e in
      let rest = depth_findings-clean ns at.1 in
      let here = add_deep-nil n d (depth_findings nodes ns) in
      rw e
        (λ h. (sym deep ∙ (here.0 h).0, rest.0 (here.0 h).1), λ h. here.1 (deep ∙ h.0, rest.1 h.1))

  pub depth_findings-ends :
      (ns : List Node) → (fs : List Finding) × (depth_findings nodes ns ≡ some fs)
  unfolding depth_findings
  depth_findings-ends [] = ([], refl)
  depth_findings-ends (n ∷ ns) =
      let (d, e) = compute_depth-ends nodes n.id in
      rw e (add_deep-some n d (depth_findings nodes ns) (depth_findings-ends ns))

  pub review_findings-clean :
      (ns : List Node)
      → (review_findings nodes ns ≡ []) ↔ All (λ n. review_finding n (reviewed nodes n) ≡ []) ns
  unfolding review_findings
  review_findings-clean [] = (λ h. tt, λ h. refl)
  review_findings-clean (n ∷ ns) =
      let both = append-nil_iff (review_finding n (reviewed nodes n)) (review_findings nodes ns) in
      let rest = review_findings-clean ns in
      (λ h. ((both.0 h).0, rest.0 (both.0 h).1), λ h. both.1 (h.0, rest.1 h.1))

pub gate_findings-clean :
    (ns : List Node) → (gate_findings ns ≡ []) ↔ All (λ n. gate_finding n ≡ []) ns
unfolding gate_findings
gate_findings-clean [] = (λ h. tt, λ h. refl)
gate_findings-clean (n ∷ ns) =
    let both = append-nil_iff (gate_finding n) (gate_findings ns) in
    let rest = gate_findings-clean ns in
    (λ h. ((both.0 h).0, rest.0 (both.0 h).1), λ h. both.1 (h.0, rest.1 h.1))

-- `lint` ends with its findings on every ledger, one whose parents go round in a cycle included.
pub lint-ends : (ledger : Ledger) → (findings : List Finding) × (lint ledger ≡ some findings)
unfolding lint
lint-ends ledger =
    let (deep, e) = depth_findings-ends ledger.nodes (values ledger.nodes) in rw e (_, refl)
