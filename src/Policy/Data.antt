-- ===== src/Policy/Data.antt =====
-- What `evaluate` is given beside the envelope and the registry: its `context`.
use agents_for_dummies.Base.{ℕ, String, Bool, Option}

-- What `datetime.fromisoformat` reads: a point of time, and whether the text gave an offset. The
-- ticks of a text without one are those that the text has in UTC.
pub record Instant : Type 0 where
  pub ticks : ℕ
  pub aware : Bool

-- `context["now"]`: absent, so that the clock is read, a datetime, or a text.
pub data ContextNow : Type 0 where
  clock : ContextNow
  at : Instant → ContextNow
  iso_text : String → ContextNow

-- `context["budget_limits"]`: each key may be absent.
pub record Limits : Type 0 where
  pub max_calls : Option (Option ℕ)
  pub max_seconds : Option (Option ℕ)

-- `context["budget_used"]`
pub record Used : Type 0 where
  pub calls : ℕ
  pub seconds : ℕ

-- The keys of the context that `evaluate` reads, with the defaults that it puts in.
pub record Context : Type 0 where
  pub authenticated_sender : Option String
  pub depth : ℕ
  pub now : ContextNow
  pub cancelled : Bool
  pub approval_valid : Bool
  pub budget_used : Used
  pub budget_limits : Limits
