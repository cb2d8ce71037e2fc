-- ===== src/Policy/Permits.antt =====
-- What an allowed request satisfies, stated with no order of rules.
use agents_for_dummies.Base.{
  ℕ, String, ◌≡◌, refl, Bool, true, false, not, Option, none, some, List, [], ◌∷◌, ◌++◌, arith,
  ◌==◌, ◌≤◌, ◌<◌, contains, any_of, keep_if, ◌⊎◌, ◌↔◌, eq_iff, eq_refl,
}
use agents_for_dummies.Base.Dict.{get}
use agents_for_dummies.Base.Int.{is_positive}
use agents_for_dummies.Envelope.{Envelope, Rule, Cost, not_expired, unset, amount, unreadable}
use agents_for_dummies.Registry.{Registry, Agent, Relationship, edge, agent}
use agents_for_dummies.Policy.Data.{Instant, Context}
use agents_for_dummies.Policy.Rules.{Check, Outcome, pass, deny, ◌>>=◌}
use agents_for_dummies.Policy.{
  check_sender, check_parties, check_edge, check_capability, check_operation, check_clearance,
  check_depth, check_expires, check_expiry, check_cancelled, check_approval, check_cost,
  check_budget, now_ticks, operations, schemas, relation_for, serves, intent_of, matching,
  is_disabled, is_empty, level_of, depth_limit, needs_approval, calls_limit, seconds_limit,
}

abbrev pub value {ℓ} : {A : Type ℓ} → Outcome A → Option A
value (pass a rs) = some a
value (deny c rs) = none

-- An amount under its limit, where there is one.
abbrev pub IsBelow : ℕ → Option ℕ → Type 0
IsBelow used none = Unit
IsBelow used (some m) = used < m

abbrev pub IsFree : Cost → Type 0
IsFree unset = Unit
IsFree (amount z) = is_positive z ≡ false
IsFree unreadable = ⊥

module _ (parse_iso : String → Option Instant) (utc_now : ℕ) where
  -- An expiry that is given reads as a time, and that time has not passed.
  abbrev pub IsUnexpired : Context → Option String → Type 0
  IsUnexpired ctx none = Unit
  IsUnexpired ctx (some t) =
      (t ≡ "")
      ⊎ ((now : ℕ) × (end : Instant) × (now_ticks parse_iso utc_now ctx.now ≡ some now)
          × (parse_iso t ≡ some end)
          × (now ≤ end.ticks))

  pub record Permits (ctx : Context) (env : Envelope) (reg : Registry) (s r : Agent)
      (e : Relationship) : Type 0 where
    pub sender : ctx.authenticated_sender ≡ some env.sender
    pub named : (env.sender == "") ≡ false
    pub sender_known : get env.sender reg.agents ≡ some s
    pub recipient_known : get env.recipient reg.agents ≡ some r
    pub sender_on : s.enabled ≡ true
    pub recipient_on : r.enabled ≡ true
    pub linked : edge reg env.sender env.recipient (relation_for env) ≡ some e
    pub capable :
        (is_empty reg.capabilities ≡ true) ⊎ (any_of (serves (intent_of env)) r.capabilities ≡ true)
    pub switched_on : any_of (is_disabled reg) (matching env r) ≡ false
    pub operation : contains env.operation operations ≡ true
    pub schema : contains env.schema schemas ≡ true
    pub cleared :
        (ls lr le : ℕ) × (level_of s.clearance ≡ some ls)
        × (level_of r.clearance ≡ some lr)
        × (level_of env.data_classification ≡ some le)
        × (le ≤ ls)
        × (le ≤ lr)
    pub shallow : ctx.depth ≤ depth_limit e s
    pub unexpired : IsUnexpired ctx env.expires_at
    pub active : ctx.cancelled ≡ false
    pub approved : (needs_approval env e ≡ false) ⊎ (ctx.approval_valid ≡ true)
    pub free : IsFree env.budget.max_cost
    pub no_token_cap : env.budget.max_tokens ≡ none
    pub calls_left : IsBelow ctx.budget_used.calls (calls_limit ctx env)
    pub seconds_left : IsBelow ctx.budget_used.seconds (seconds_limit ctx env)

some_eq {ℓ} : {A : Type ℓ} {a a' : A} → some a' ≡ some a → a' ≡ a
some_eq h = cc

module _ {ℓ κ} {A : Type ℓ} {B : Type κ} (f : A → Check B) where
  after_outcome : Outcome A → Outcome B
  after_outcome (pass a rs') = f a rs'
  after_outcome (deny c rs') = deny c rs'

  after-value :
      (o : Outcome A) {b : B}
      → value (after_outcome o) ≡ some b
      → (a : A) × (rs' : List Rule) × (value o ≡ some a) × (value (f a rs') ≡ some b)
  unfolding after_outcome
  after-value (pass a rs') h = (a, rs', refl, h)
  after-value (deny c rs') h = cc

  pub bind-value :
      (m : Check A) (rs : List Rule) {b : B}
      → value ((m >>= f) rs) ≡ some b
      → (a : A) × (rs' : List Rule) × (value (m rs) ≡ some a) × (value (f a rs') ≡ some b)
  unfolding after_outcome
  bind-value m rs h = after-value (m rs) h

-- The action passes with the value, whatever rules went before.
pub record Passes {ℓ} {A : Type ℓ} (m : Check A) (a : A) : Type ℓ where
  pub at : (rs : List Rule) → value (m rs) ≡ some a

module _ {ℓ κ} {A : Type ℓ} {B : Type κ} (f : A → Check B) {b : B} where
  after-Passes :
      (a : A) (o : Outcome A)
      → value o ≡ some a
      → Passes (f a) b
      → value (after_outcome f o) ≡ some b
  unfolding after_outcome
  after-Passes a (pass a' rs') h k = rw (some_eq h) (k.at rs')
  after-Passes a (deny c rs') h k = cc

  pub Passes-bind : (m : Check A) {a : A} → Passes m a → Passes (f a) b → Passes (m >>= f) b
  unfolding after_outcome
  Passes-bind m {a} h k = record { at = λ rs. after-Passes a (m rs) (h.at rs) k }

is_empty-keep_if {ℓ} :
    {A : Type ℓ} (p : A → Bool) (xs : List A) → is_empty (keep_if p xs) ≡ not (any_of p xs)
is_empty-keep_if p [] = refl
is_empty-keep_if p (x ∷ xs) = ground (arith, is_empty-keep_if p xs)

module _ (ctx : Context) (env : Envelope) (reg : Registry) (rs : List Rule) where
  pub sender_iff :
      (value (check_sender ctx env rs) ≡ some tt)
      ↔ ((ctx.authenticated_sender ≡ some env.sender) × ((env.sender == "") ≡ false))
  unfolding check_sender
  sender_iff = (λ h. grind (arith, eq_iff), λ h. grind (arith, eq_iff, eq_refl))

  pub parties_iff :
      (s r : Agent)
      → (value (check_parties env reg rs) ≡ some (s, r)) ↔ (
          (get env.sender reg.agents ≡ some s)
          × (get env.recipient reg.agents ≡ some r)
          × (s.enabled ≡ true)
          × (r.enabled ≡ true))
  unfolding check_parties agent
  parties_iff s r = (λ h. ground arith, λ h. ground arith)

  pub edge_iff :
      (e : Relationship)
      → (value (check_edge env reg rs) ≡ some e)
        ↔ (edge reg env.sender env.recipient (relation_for env) ≡ some e)
  unfolding check_edge
  edge_iff e = (λ h. ground arith, λ h. ground arith)

  pub operation_iff :
      (value (check_operation env rs) ≡ some tt)
      ↔ ((contains env.operation operations ≡ true) × (contains env.schema schemas ≡ true))
  unfolding check_operation
  operation_iff = (λ h. ground arith, λ h. ground arith)

  pub clearance_iff :
      (s r : Agent)
      → (value (check_clearance env s r rs) ≡ some tt) ↔ (
          (ls lr le : ℕ) × (level_of s.clearance ≡ some ls)
          × (level_of r.clearance ≡ some lr)
          × (level_of env.data_classification ≡ some le)
          × (le ≤ ls)
          × (le ≤ lr))
  unfolding check_clearance
  clearance_iff s r = (λ h. ground arith, λ h. ground arith)

  pub depth_iff :
      (e : Relationship) (s : Agent)
      → (value (check_depth ctx e s rs) ≡ some tt) ↔ (ctx.depth ≤ depth_limit e s)
  unfolding check_depth
  depth_iff e s = (λ h. ground arith, λ h. ground arith)

  pub cancelled_iff : (value (check_cancelled ctx rs) ≡ some tt) ↔ (ctx.cancelled ≡ false)
  unfolding check_cancelled
  cancelled_iff = (λ h. ground arith, λ h. ground arith)

  pub approval_iff :
      (e : Relationship)
      → (value (check_approval ctx env e rs) ≡ some tt)
        ↔ ((needs_approval env e ≡ false) ⊎ (ctx.approval_valid ≡ true))
  unfolding check_approval
  approval_iff e = (λ h. ground arith, λ h. ground arith)

  pub cost_iff : (value (check_cost env rs) ≡ some tt) ↔ IsFree env.budget.max_cost
  unfolding check_cost
  cost_iff = (λ h. ground arith, λ h. ground arith)

  pub budget_iff : (value (check_budget ctx env rs) ≡ some tt) ↔ (
      (env.budget.max_tokens ≡ none)
      × IsBelow ctx.budget_used.calls (calls_limit ctx env)
      × IsBelow ctx.budget_used.seconds (seconds_limit ctx env))
  unfolding check_budget
  budget_iff = (λ h. ground arith, λ h. ground arith)

  pub capability_iff :
      (r : Agent)
      → (value (check_capability env reg r rs) ≡ some tt) ↔ (
          ((is_empty reg.capabilities ≡ true)
            ⊎ (any_of (serves (intent_of env)) r.capabilities ≡ true))
          × (any_of (is_disabled reg) (matching env r) ≡ false))
  unfolding check_capability
  capability_iff r = (
    λ h. ground (arith, is_empty-keep_if (serves (intent_of env)) r.capabilities),
    λ h. ground (arith, is_empty-keep_if (serves (intent_of env)) r.capabilities),
  )

module _ (parse_iso : String → Option Instant) (utc_now : ℕ) (ctx : Context) where
  expires_iff :
      (o : Option String) (rs : List Rule)
      → (value (check_expires parse_iso utc_now ctx o rs) ≡ some tt)
        ↔ IsUnexpired parse_iso utc_now ctx o
  unfolding check_expires
  expires_iff none rs = (λ h. tt, λ h. refl)
  expires_iff (some t) rs = (λ h. ground (arith, eq_iff t ""), λ h. ground (arith, eq_iff t ""))

  pub expiry_iff :
      (env : Envelope) (rs : List Rule)
      → (value (check_expiry parse_iso utc_now ctx env rs) ≡ some tt)
        ↔ IsUnexpired parse_iso utc_now ctx env.expires_at
  unfolding check_expiry
  expiry_iff env rs = expires_iff env.expires_at (rs ++ not_expired ∷ [])
