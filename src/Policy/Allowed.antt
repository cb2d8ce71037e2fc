-- ===== src/Policy/Allowed.antt =====
-- `evaluate` allows exactly the requests that satisfy every rule.
use agents_for_dummies.Base.{String, ℕ, ◌≡◌, ◌↔◌, true, Option, some, List, [], refl}
use agents_for_dummies.Envelope.{Envelope, Rule}
use agents_for_dummies.Registry.{Registry, Agent, Relationship}
use agents_for_dummies.Policy.Data.{Instant, Context}
use agents_for_dummies.Policy.Rules.{Check, Outcome, pass, deny}
use agents_for_dummies.Policy.{
  check_sender, check_parties, check_edge, check_capability, check_operation, check_clearance,
  check_depth, check_expiry, check_cancelled, check_approval, check_cost, check_rules, evaluate,
  decide,
}
use agents_for_dummies.Policy.Permits.{
  Permits, value, bind-value, Passes, Passes-bind, sender_iff, parties_iff, edge_iff,
  capability_iff, operation_iff, clearance_iff, depth_iff, expiry_iff, cancelled_iff, approval_iff,
  cost_iff, budget_iff,
}

all {ℓ} :
    {A : Type ℓ} {m : Check A} {a : A} → ((rs : List Rule) → value (m rs) ≡ some a) → Passes m a
all h = record { at = h }

module _ (parse_iso : String → Option Instant) (utc_now : ℕ) (ctx : Context) (env : Envelope)
    (reg : Registry) where
  abbrev pub Permitted : Type 0
  Permitted =
      (s : Agent) × (r : Agent) × (e : Relationship) × Permits parse_iso utc_now ctx env reg s r e

  check_rules-Permitted : value (check_rules parse_iso utc_now ctx env reg []) ≡ some tt → Permitted
  unfolding check_rules
  check_rules-Permitted h =
      let (_, r₁, sent, h₁) = bind-value _ (check_sender ctx env) [] h in
      let (parties, r₂, met, h₂) = bind-value _ (check_parties env reg) r₁ h₁ in
      let (e, r₃, linked, h₃) = bind-value _ (check_edge env reg) r₂ h₂ in
      let (_, r₄, able, h₄) = bind-value _ (check_capability env reg parties.1) r₃ h₃ in
      let (_, r₅, known, h₅) = bind-value _ (check_operation env) r₄ h₄ in
      let (_, r₆, cleared, h₆) = bind-value _ (check_clearance env parties.0 parties.1) r₅ h₅ in
      let (_, r₇, shallow, h₇) = bind-value _ (check_depth ctx e parties.0) r₆ h₆ in
      let (_, r₈, fresh, h₈) = bind-value _ (check_expiry parse_iso utc_now ctx env) r₇ h₇ in
      let (_, r₉, active, h₉) = bind-value _ (check_cancelled ctx) r₈ h₈ in
      let (_, r₁₀, approved, h₁₀) = bind-value _ (check_approval ctx env e) r₉ h₉ in
      let (_, r₁₁, free, h₁₁) = bind-value _ (check_cost env) r₁₀ h₁₀ in
      let sender = (sender_iff ctx env reg []).0 sent in
      let people = (parties_iff ctx env reg r₁ parties.0 parties.1).0 met in
      let capable = (capability_iff ctx env reg r₃ parties.1).0 able in
      let operation = (operation_iff ctx env reg r₄).0 known in
      let left = (budget_iff ctx env reg r₁₁).0 h₁₁ in
      (
        parties.0,
        parties.1,
        e,
        record {
          sender = sender.0;
          named = sender.1;
          sender_known = people.0;
          recipient_known = people.1;
          sender_on = people.2;
          recipient_on = people.3;
          linked = (edge_iff ctx env reg r₂ e).0 linked;
          capable = capable.0;
          switched_on = capable.1;
          operation = operation.0;
          schema = operation.1;
          cleared = (clearance_iff ctx env reg r₅ parties.0 parties.1).0 cleared;
          shallow = (depth_iff ctx env reg r₆ e parties.0).0 shallow;
          unexpired = (expiry_iff parse_iso utc_now ctx env r₇).0 fresh;
          active = (cancelled_iff ctx env reg r₈).0 active;
          approved = (approval_iff ctx env reg r₉ e).0 approved;
          free = (cost_iff ctx env reg r₁₀).0 free;
          no_token_cap = left.0;
          calls_left = left.1;
          seconds_left = left.2;
        },
      )

  Permitted-Passes : Permitted → Passes (check_rules parse_iso utc_now ctx env reg) tt
  unfolding check_rules
  Permitted-Passes (s, r, e, p) =
      Passes-bind _ _ (all (λ rs. (sender_iff ctx env reg rs).1 (p.sender, p.named))) (
        Passes-bind _ _
          (all (λ rs.
            (parties_iff ctx env reg rs s r).1
              (p.sender_known, p.recipient_known, p.sender_on, p.recipient_on)))
          (Passes-bind _ _ (all (λ rs. (edge_iff ctx env reg rs e).1 p.linked)) (
            Passes-bind _ _
              (all (λ rs. (capability_iff ctx env reg rs r).1 (p.capable, p.switched_on)))
              (Passes-bind _ _
                (all (λ rs. (operation_iff ctx env reg rs).1 (p.operation, p.schema)))
                (Passes-bind _ _ (all (λ rs. (clearance_iff ctx env reg rs s r).1 p.cleared)) (
                  Passes-bind _ _ (all (λ rs. (depth_iff ctx env reg rs e s).1 p.shallow)) (
                    Passes-bind _ _
                      (all (λ rs. (expiry_iff parse_iso utc_now ctx env rs).1 p.unexpired))
                      (Passes-bind _ _ (all (λ rs. (cancelled_iff ctx env reg rs).1 p.active)) (
                        Passes-bind _ _ (all (λ rs. (approval_iff ctx env reg rs e).1 p.approved)) (
                          Passes-bind _ _ (all (λ rs. (cost_iff ctx env reg rs).1 p.free)) (
                            all (λ rs.
                              (budget_iff ctx env reg rs).1
                                (p.no_token_cap, p.calls_left, p.seconds_left)))))))))))))

  decide-allowed :
      (i v : String) (o : Outcome (Unit {0}))
      → ((decide i v o).allowed ≡ true) ↔ (value o ≡ some tt)
  decide-allowed i v (pass a rs) = (λ h. refl, λ h. refl)
  decide-allowed i v (deny c rs) = (λ h. cc, λ h. cc)

  -- The policy allows a request exactly if the sender is the authenticated one, both parties are
  -- known and enabled, an edge joins them, the recipient has the capability, the operation, schema
  -- and clearances are known and high enough, the depth is within the limit, nothing has expired or
  -- is cancelled, a needed approval is valid, the cost is zero and the budget is not used up.
  pub evaluate-allowed_iff :
      (decision_id : String)
      → ((evaluate parse_iso utc_now decision_id ctx env reg).allowed ≡ true) ↔ Permitted
  unfolding evaluate
  evaluate-allowed_iff i =
      let d = decide-allowed i reg.policy_version (check_rules parse_iso utc_now ctx env reg []) in
      (λ h. check_rules-Permitted (d.0 h), λ p. d.1 ((Permitted-Passes p).at []))
