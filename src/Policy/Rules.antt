-- ===== src/Policy/Rules.antt =====
-- Rules as actions: each reads and extends the list of rules checked so far, and passes or denies.
use agents_for_dummies.Base.{Bool, true, false, Option, none, some, List, [], ◌∷◌, ◌++◌}
use agents_for_dummies.Envelope.{ReasonCode, Rule}

pub data Outcome {ℓ} (A : Type ℓ) : Type ℓ where
  pass : A → List Rule → Outcome A
  deny : ReasonCode → List Rule → Outcome A

abbrev pub Check {ℓ} : Type ℓ → Type ℓ
Check A = List Rule → Outcome A

module _ {ℓ} {A : Type ℓ} where
  abbrev pub return : A → Check A
  return a rs = pass a rs

  -- `return deny(code, …)`
  abbrev pub refuse : ReasonCode → Check A
  refuse c rs = deny c rs

  -- `if not x: return deny(code, …)`
  abbrev pub require : Option A → ReasonCode → Check A
  require none c rs = deny c rs
  require (some a) c rs = pass a rs

-- checked_rules.append(r)
abbrev pub rule : Rule → Check (Unit {0})
rule r rs = pass tt (rs ++ r ∷ [])

abbrev pub refuse_if : Bool → ReasonCode → Check (Unit {0})
refuse_if true c rs = deny c rs
refuse_if false c rs = pass tt rs

infixl 5 ◌>>=◌ ◌>>◌
abbrev pub ◌>>=◌ {ℓ κ} : {A : Type ℓ} {B : Type κ} → Check A → (A → Check B) → Check B
◌>>=◌ m f rs = elim (m rs) [ pass a rs' ↦ f a rs' | deny c rs' ↦ deny c rs' ]

abbrev pub ◌>>◌ {ℓ κ} : {A : Type ℓ} {B : Type κ} → Check A → Check B → Check B
m >> n = m >>= λ _. n
