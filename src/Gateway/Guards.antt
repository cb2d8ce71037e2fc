-- ===== src/Gateway/Guards.antt =====
-- What a step of a dispatch does to the world: it follows it, if only methods of the control layer
-- change the tables and nothing is logged.
use agents_for_dummies.Base.{
  String, ◌≡◌, refl, ◌∙◌, Bool, true, false, Option, List, [], ◌∷◌, ◌++◌, if◌then◌else◌,
}
use agents_for_dummies.Policy.Data.{Instant}
use agents_for_dummies.Control.Tables.{Control, Fault, Raised}
use agents_for_dummies.Control.Ops.{Op, apply, history}
use agents_for_dummies.Gateway.Data.{
  Status, allowed, GatewayResult, World, M, Step, next, finish, raise, return, stop, control_call,
  control_read, raise_err, ◌>>=◌, ◌>>◌,
}
use agents_for_dummies.Base.Result.{Result, ok, err}

abbrev pub is_allowed : Status → Bool
is_allowed allowed = true
is_allowed _ = false

module _ {A : Type 0} where
  abbrev pub After :
      (A → World → Type 0)
      → (GatewayResult → World → Type 0)
      → (Raised → World → Type 0)
      → Step A × World
      → Type 0
  After Q R E (next a, w) = Q a w
  After Q R E (finish r, w) = R r w
  After Q R E (raise e, w) = E e w

module _ (parse_iso : String → Option Instant) where
  -- Some history leads from the first tables to the second.
  abbrev pub Reaches : Control → Control → Type 0
  Reaches c c' = (ops : List (Op × Fault)) × (history parse_iso ops c ≡ c')

  pub history-append :
      (ops more : List (Op × Fault)) (c : Control)
      → history parse_iso (ops ++ more) c ≡ history parse_iso more (history parse_iso ops c)
  unfolding history
  history-append [] more c = refl
  history-append ((op, f) ∷ rest) more c = history-append rest more (apply parse_iso op f c)

  pub Reaches-trans : (a b c : Control) → Reaches a b → Reaches b c → Reaches a c
  Reaches-trans a b c (ops, e) (more, e') = (ops ++ more, rw (history-append ops more a, e, e'))

  pub Reaches-refl : (c : Control) → Reaches c c
  unfolding history
  Reaches-refl c = ([], refl)

  pub Reaches-apply : (c : Control) (op : Op) (f : Fault) → Reaches c (apply parse_iso op f c)
  unfolding history
  Reaches-apply c op f = ((op, f) ∷ [], refl)

  pub record Follows (w w' : World) : Type 0 where
    pub control : Reaches w.control w'.control
    pub events : w'.events ≡ w.events

  pub Follows-refl : (w : World) → Follows w w
  Follows-refl w = record { control = Reaches-refl w.control; events = refl }

  pub Follows-trans : {a b c : World} → Follows a b → Follows b c → Follows a c
  Follows-trans {a} {b} {c} f g = record {
    control = Reaches-trans a.control b.control c.control f.control g.control;
    events = g.events ∙ f.events;
  }

  -- The end of a dispatch that did not go through.
  abbrev pub Refused : World → GatewayResult → World → Type 0
  Refused w r w' = (is_allowed r.status ≡ false) × Follows w w'

  abbrev Good : {A : Type 0} → (A → World → Type 0) → World → Step A × World → Type 0
  Good Q w = After (λ a w'. Q a w' × Follows w w') (Refused w) (λ e. Follows w)

  -- From the world, the step goes on with `Q`, or the dispatch ends and nothing was invoked.
  pub record Guards {A : Type 0} (Q : A → World → Type 0) (w : World) (m : M A) : Type 0 where
    pub good : Good Q w (m w)

  module _ {B : Type 0} (Q' : B → World → Type 0) where
    weaken : (w w' : World) → Follows w w' → (y : Step B × World) → Good Q' w' y → Good Q' w y
    weaken w w' fol (next b, v) (q', g) = (q', Follows-trans fol g)
    weaken w w' fol (finish r, v) (n, g) = (n, Follows-trans fol g)
    weaken w w' fol (raise e, v) g = Follows-trans fol g

  Reaches-eq : (c a b : Control) → a ≡ b → Reaches c b → Reaches c a
  Reaches-eq c a b p (ops, h) = (ops, rw (h, p))

module _ {parse_iso : String → Option Instant} {A B : Type 0} {Q : A → World → Type 0}
    {Q' : B → World → Type 0} where
  Guards-cases :
      (f : A → M B) (w : World) (x : Step A × World)
      → Good parse_iso Q w x
      → ((a : A) (w' : World) → Q a w' → Guards parse_iso Q' w' (f a))
      → Good parse_iso Q' w (
          let (s, w') = x in
          elim s [ next a ↦ f a w' | finish r ↦ (finish r, w') | raise e ↦ (raise e, w') ])
  Guards-cases f w (next a, w') (q, fol) h = weaken parse_iso Q' w w' fol (f a w') (h a w' q).good
  Guards-cases f w (finish r, w') x h = x
  Guards-cases f w (raise e, w') x h = x

  pub Guards-bind :
      (m : M A) (f : A → M B) {w : World}
      → Guards parse_iso Q w m
      → ((a : A) (w' : World) → Q a w' → Guards parse_iso Q' w' (f a))
      → Guards parse_iso Q' w (m >>= f)
  unfolding ◌>>=◌
  Guards-bind m f {w} x h = record { good = Guards-cases f w (m w) x.good h }

  pub Guards-then :
      (m : M A) (n : M B) {w : World}
      → Guards parse_iso Q w m
      → ((a : A) (w' : World) → Q a w' → Guards parse_iso Q' w' n)
      → Guards parse_iso Q' w (m >> n)
  unfolding ◌>>◌
  Guards-then m n x h = Guards-bind m (λ _. n) x h

module _ {parse_iso : String → Option Instant} {A : Type 0} {Q : A → World → Type 0}
    {w : World} where
  pub Guards-if :
      (b : Bool) (m n : M A)
      → (b ≡ true → Guards parse_iso Q w m)
      → (b ≡ false → Guards parse_iso Q w n)
      → Guards parse_iso Q w (if b then m else n)
  Guards-if true m n h h' = h refl
  Guards-if false m n h h' = h' refl

  pub Guards-return : (a : A) → Q a w → Guards parse_iso Q w (return a)
  unfolding return
  Guards-return a q = record { good = (q, Follows-refl parse_iso w) }

  pub Guards-stop :
      (r : GatewayResult) → is_allowed r.status ≡ false → Guards parse_iso Q w (stop r)
  unfolding stop
  Guards-stop r e = record { good = (e, Follows-refl parse_iso w) }

  pub Guards-read : (g : Control → A) → Q (g w.control) w → Guards parse_iso Q w (control_read g)
  unfolding control_read
  Guards-read g q = record { good = (q, Follows-refl parse_iso w) }

  pub Guards-raise_err :
      (r : Result Raised A) → ((a : A) → r ≡ ok a → Q a w) → Guards parse_iso Q w (raise_err r)
  unfolding raise_err
  Guards-raise_err (ok a) q = record { good = (q a refl, Follows-refl parse_iso w) }
  Guards-raise_err (err e) q = record { good = Follows-refl parse_iso w }

  pub Guards-call :
      (g : Control → A × Control) (op : Op) (f : Fault)
      → (g w.control).1 ≡ apply parse_iso op f w.control
      → Q (g w.control).0 (record w { control = (g w.control).1 })
      → Guards parse_iso Q w (control_call g)
  unfolding control_call
  Guards-call g op f e q = record {
    good = (
      q,
      record {
        control =
            Reaches-eq parse_iso w.control (g w.control).1 (apply parse_iso op f w.control) e
              (Reaches-apply parse_iso w.control op f);
        events = refl;
      },
    );
  }

module _ (parse_iso : String → Option Instant) (P : GatewayResult → World → Type 0) where
  abbrev Ended : World → Step GatewayResult × World → Type 0
  Ended w = After P (Refused parse_iso w) (λ e. Follows parse_iso w)

  -- From the world, the rest of the dispatch goes through with `P`, or it is refused or raises.
  pub record Ending (w : World) (m : M GatewayResult) : Type 0 where
    pub ended : Ended w (m w)

  from_before :
      (w w' : World)
      → Follows parse_iso w w'
      → (y : Step GatewayResult × World) → Ended w' y
      → Ended w y
  from_before w w' fol (next r, v) p = p
  from_before w w' fol (finish r, v) (n, g) = (n, Follows-trans parse_iso fol g)
  from_before w w' fol (raise e, v) g = Follows-trans parse_iso fol g

module _ {parse_iso : String → Option Instant} {P : GatewayResult → World → Type 0} {A : Type 0}
    {Q : A → World → Type 0} where
  Ending-cases :
      (f : A → M GatewayResult) (w : World) (x : Step A × World)
      → Good parse_iso Q w x
      → ((a : A) (w' : World) → Q a w' → Follows parse_iso w w' → Ending parse_iso P w' (f a))
      → Ended parse_iso P w (
          let (s, w') = x in
          elim s [ next a ↦ f a w' | finish r ↦ (finish r, w') | raise e ↦ (raise e, w') ])
  Ending-cases f w (next a, w') (q, fol) h =
      from_before parse_iso P w w' fol (f a w') (h a w' q fol).ended
  Ending-cases f w (finish r, w') x h = x
  Ending-cases f w (raise e, w') x h = x

  pub Ending-bind :
      (m : M A) (f : A → M GatewayResult) {w : World}
      → Guards parse_iso Q w m
      → ((a : A) (w' : World) → Q a w' → Follows parse_iso w w' → Ending parse_iso P w' (f a))
      → Ending parse_iso P w (m >>= f)
  unfolding ◌>>=◌
  Ending-bind m f {w} x h = record { ended = Ending-cases f w (m w) x.good h }

  pub Ending-then :
      (m : M A) (n : M GatewayResult) {w : World}
      → Guards parse_iso Q w m
      → ((a : A) (w' : World) → Q a w' → Follows parse_iso w w' → Ending parse_iso P w' n)
      → Ending parse_iso P w (m >> n)
  unfolding ◌>>◌
  Ending-then m n x h = Ending-bind m (λ _. n) x h
