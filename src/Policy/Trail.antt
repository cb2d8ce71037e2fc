-- ===== src/Policy/Trail.antt =====
-- The list `checked_rules` as a trail: each rule in its order, up to the one that denied.
use agents_for_dummies.Base.{◌⊎◌, inl, inr}
use agents_for_dummies.Base.{
  ℕ, String, ◌==◌, Bool-cases, inl, inr, ◌≡◌, refl, Bool, true, false, Option, none, some, List, [],
  ◌∷◌, ◌++◌, sym, ap, subst, ◌∙◌,
}
use mathlib.Core.List.{append-nil, append_assoc}
use agents_for_dummies.Envelope.{
  Envelope, ReasonCode, Rule, Cost, authenticated_sender, sender_match, known_sender,
  known_recipient, sender_enabled, recipient_enabled, edge_exists, intent_capability,
  operation_allowed, schema_allowed, classification_clearance, delegation_depth, not_expired,
  not_cancelled, approval_rule, cost_zero, budget_within_limits, unset, amount, unreadable,
}
use agents_for_dummies.Registry.{Registry, Agent, Relationship}
use agents_for_dummies.Policy.Data.{Instant, Context}
use agents_for_dummies.Policy.Rules.{
  Check, Outcome, pass, deny, rule, refuse_if, refuse, require, return, ◌>>=◌, ◌>>◌,
}
use agents_for_dummies.Policy.{
  check_sender, check_parties, check_edge, check_capability, check_operation, check_clearance,
  check_depth, check_expiry, check_cancelled, check_approval, check_amount, check_cost,
  check_budget, check_rules, evaluate, check_expires, decide,
}

-- A pass has appended all of `own`, a denial a first part of it.
abbrev pub Follows {ℓ} : {A : Type ℓ} → List Rule → List Rule → Outcome A → Type 0
Follows own rs (pass a rs') = rs' ≡ rs ++ own
Follows own rs (deny c rs') =
    (done : List Rule) × (left : List Rule) × (own ≡ done ++ left) × (rs' ≡ rs ++ done)

pub record Trail {ℓ} {A : Type ℓ} (own : List Rule) (m : Check A) : Type 0 where
  pub at : (rs : List Rule) → Follows own rs (m rs)

module _ {ℓ} {A : Type ℓ} where
  Trail-return : (a : A) → Trail [] (return a)
  Trail-return a = record { at = λ rs. sym (append-nil rs) }

  Trail-refuse : (c : ReasonCode) → Trail [] (refuse {A = A} c)
  Trail-refuse c = record { at = λ rs. ([], [], refl, sym (append-nil rs)) }

  Trail-require : (o : Option A) (c : ReasonCode) → Trail [] (require o c)
  Trail-require none c = record { at = λ rs. ([], [], refl, sym (append-nil rs)) }
  Trail-require (some a) c = record { at = λ rs. sym (append-nil rs) }

Trail-rule : (r : Rule) → Trail (r ∷ []) (rule r)
Trail-rule r = record { at = λ rs. refl }

Trail-refuse_if : (b : Bool) (c : ReasonCode) → Trail [] (refuse_if b c)
Trail-refuse_if true c = record { at = λ rs. ([], [], refl, sym (append-nil rs)) }
Trail-refuse_if false c = record { at = λ rs. sym (append-nil rs) }

module _ {ℓ κ} {A : Type ℓ} {B : Type κ} (own later : List Rule) (f : A → Check B) where
  after_outcome : Outcome A → Outcome B
  after_outcome (pass a rs') = f a rs'
  after_outcome (deny c rs') = deny c rs'

  Follows-later :
      (rs : List Rule) (o : Outcome B) → Follows later (rs ++ own) o → Follows (own ++ later) rs o
  Follows-later rs (pass b rs') h = h ∙ append_assoc rs own later
  Follows-later rs (deny c rs') h = (
    own ++ h.0,
    h.1,
    ap (λ l. own ++ l) h.2 ∙ sym (append_assoc own h.0 h.1),
    h.3 ∙ append_assoc rs own h.0,
  )

  Follows-after :
      (rs : List Rule) (o : Outcome A)
      → Follows own rs o
      → ((a : A) → Trail later (f a))
      → Follows (own ++ later) rs (after_outcome o)
  unfolding after_outcome
  Follows-after rs (pass a rs') h k =
      Follows-later rs (f a rs') (subst (λ l. Follows later l (f a rs')) h ((k a).at rs'))
  Follows-after rs (deny c rs') h k =
      (h.0, h.1 ++ later, ap (λ l. l ++ later) h.2 ∙ append_assoc h.0 h.1 later, h.3)

  Trail-bind :
      (m : Check A) → Trail own m → ((a : A) → Trail later (f a)) → Trail (own ++ later) (m >>= f)
  unfolding after_outcome
  Trail-bind m h k = record { at = λ rs. Follows-after rs (m rs) (h.at rs) k }

module _ {B : Type 0} where
  Trail-rule_then :
      (r : Rule) (later : List Rule) (m : Check B) → Trail later m → Trail (r ∷ later) (rule r >> m)
  Trail-rule_then r later m h = Trail-bind (r ∷ []) later (λ _. m) (rule r) (Trail-rule r) (λ _. h)

  Trail-guard :
      (b : Bool) (c : ReasonCode) (later : List Rule) (m : Check B)
      → Trail later m
      → Trail later (refuse_if b c >> m)
  Trail-guard b c later m h =
      Trail-bind [] later (λ _. m) (refuse_if b c) (Trail-refuse_if b c) (λ _. h)

  Trail-need :
      {A : Type 0} (o : Option A) (c : ReasonCode) (later : List Rule) (f : A → Check B)
      → ((a : A) → Trail later (f a))
      → Trail later (require o c >>= f)
  Trail-need o c later f h = Trail-bind [] later f (require o c) (Trail-require o c) h

ruleset trail_rules = (
  Trail-return, Trail-refuse, Trail-require, Trail-rule, Trail-refuse_if, Trail-rule_then,
  Trail-guard, Trail-need,
)

module _ (ctx : Context) (env : Envelope) (reg : Registry) where
  sender-Trail : Trail (authenticated_sender ∷ sender_match ∷ []) (check_sender ctx env)
  unfolding check_sender
  sender-Trail = search trail_rules

  parties-Trail :
      Trail
        (known_sender ∷ known_recipient ∷ sender_enabled ∷ recipient_enabled ∷ [])
        (check_parties env reg)
  unfolding check_parties
  parties-Trail = search trail_rules depth 12

  edge-Trail : Trail (edge_exists ∷ []) (check_edge env reg)
  unfolding check_edge
  edge-Trail = search trail_rules

  capability-Trail : (r : Agent) → Trail (intent_capability ∷ []) (check_capability env reg r)
  unfolding check_capability
  capability-Trail r = search trail_rules

  operation-Trail : Trail (operation_allowed ∷ schema_allowed ∷ []) (check_operation env)
  unfolding check_operation
  operation-Trail = search trail_rules

  clearance-Trail : (s r : Agent) → Trail (classification_clearance ∷ []) (check_clearance env s r)
  unfolding check_clearance
  clearance-Trail s r = search trail_rules depth 12

  depth-Trail : (e : Relationship) (s : Agent) → Trail (delegation_depth ∷ []) (check_depth ctx e s)
  unfolding check_depth
  depth-Trail e s = search trail_rules

  cancelled-Trail : Trail (not_cancelled ∷ []) (check_cancelled ctx)
  unfolding check_cancelled
  cancelled-Trail = search trail_rules

  approval-Trail : (e : Relationship) → Trail (approval_rule ∷ []) (check_approval ctx env e)
  unfolding check_approval
  approval-Trail e = search trail_rules

  cost-Trail : Trail (cost_zero ∷ []) (check_cost env)
  unfolding check_cost
  cost-Trail = Trail-rule_then cost_zero [] _ (amount_trail env.budget.max_cost)
    where
      amount_trail : (k : Cost) → Trail [] (check_amount k)
      amount_trail unset = search trail_rules
      amount_trail (amount z) = search trail_rules
      amount_trail unreadable = search trail_rules

  budget-Trail : Trail (budget_within_limits ∷ []) (check_budget ctx env)
  unfolding check_budget
  budget-Trail = search trail_rules

-- The rules of `evaluate`, in the order of its description.
abbrev pub all_rules : List Rule
all_rules =
    authenticated_sender ∷ sender_match ∷ known_sender ∷ known_recipient ∷ sender_enabled
    ∷ recipient_enabled ∷ edge_exists ∷ intent_capability ∷ operation_allowed ∷ schema_allowed
    ∷ classification_clearance ∷ delegation_depth ∷ not_expired ∷ not_cancelled ∷ approval_rule
    ∷ cost_zero ∷ budget_within_limits ∷ []

module _ (parse_iso : String → Option Instant) (utc_now : ℕ) (ctx : Context) (env : Envelope) where
  expires-Trail : (o : Option String) → Trail [] (check_expires parse_iso utc_now ctx o)
  unfolding check_expires
  expires-Trail none = search trail_rules
  expires-Trail (some t) = elim (Bool-cases (t == "")) [
    | inl e ↦ rw e (search trail_rules)
    | inr e ↦ rw e (search trail_rules)
  ]

  expiry-Trail : Trail (not_expired ∷ []) (check_expiry parse_iso utc_now ctx env)
  unfolding check_expiry
  expiry-Trail = Trail-rule_then not_expired [] _ (expires-Trail env.expires_at)

  module _ (reg : Registry) where
    rules-Trail : Trail all_rules (check_rules parse_iso utc_now ctx env reg)
    unfolding check_rules
    rules-Trail = Trail-bind _ _ _ _ (sender-Trail ctx env reg) λ _.
        Trail-bind _ _ _ _ (parties-Trail ctx env reg) λ parties.
          Trail-bind _ _ _ _ (edge-Trail ctx env reg) λ e.
            Trail-bind _ _ _ _ (capability-Trail ctx env reg parties.1) λ _.
              Trail-bind _ _ _ _ (operation-Trail ctx env reg) λ _.
                Trail-bind _ _ _ _ (clearance-Trail ctx env reg parties.0 parties.1) λ _.
                  Trail-bind _ _ _ _ (depth-Trail ctx env reg e parties.0) λ _.
                    Trail-bind _ _ _ _ expiry-Trail λ _.
                      Trail-bind _ _ _ _ (cancelled-Trail ctx env reg) λ _.
                        Trail-bind _ _ _ _ (approval-Trail ctx env reg e) λ _.
                          Trail-bind _ _ _ _ (cost-Trail ctx env reg) λ _. budget-Trail ctx env reg

    decide_trail :
        (decision_id policy_version : String) (o : Outcome (Unit {0}))
        → Follows all_rules [] o
        → let d = decide decision_id policy_version o in
          (left : List Rule) × (all_rules ≡ d.checked_rules ++ left)
          × ((d.allowed ≡ false) ⊎ (d.checked_rules ≡ all_rules))
    decide_trail i v (pass _ rs) h = ([], rw h refl, inr h)
    decide_trail i v (deny c rs) h = (h.1, rw h.3 h.2, inl refl)

    -- The rules that a decision names are a first part of the rules in their order, and an allowed
    -- decision names them all.
    pub evaluate-checked_rules :
        (decision_id : String)
        → let d = evaluate parse_iso utc_now decision_id ctx env reg in
          (left : List Rule) × (all_rules ≡ d.checked_rules ++ left)
          × ((d.allowed ≡ false) ⊎ (d.checked_rules ≡ all_rules))
    unfolding evaluate
    evaluate-checked_rules i = decide_trail i reg.policy_version _ (rules-Trail.at [])
