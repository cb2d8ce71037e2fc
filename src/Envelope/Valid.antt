-- ===== src/Envelope/Valid.antt =====
-- What an envelope without defects satisfies, and when the check raises.
use agents_for_dummies.Base.{
  ℕ, ◌≤◌, String, ◌≡◌, refl, Bool, true, false, not, Option, none, some, List, [], ◌∷◌, ◌++◌, arith,
  contains, ◌↔◌, ap, ◌∙◌,
}
use agents_for_dummies.Base.Dict.{Dict}
use agents_for_dummies.Base.Result.{ok, >>=-eq-ok, ok_injective}
use agents_for_dummies.Policy.Data.{Instant}
use agents_for_dummies.Envelope.{Envelope, Payload}
use agents_for_dummies.Envelope.Validate.{
  Defect, invalid_operation, invalid_classification, created_at_not_iso, expires_at_not_iso,
  deadline_not_iso, payload_too_large, payload_not_json, envelope_too_large, envelope_not_json,
  Protocol, valid_operations, valid_classifications, given_text, not_iso, compare_times, chronology,
  size_defects, envelope_limit, max_payload_size_bytes, found, validate,
}

append-eq-[] : {A : Type 0} (xs ys : List A) → (xs ++ ys ≡ []) ↔ ((xs ≡ []) × (ys ≡ []))
append-eq-[] [] ys = (λ e. (refl, e), λ p. p.1)
append-eq-[] (x ∷ xs) ys = (λ e. ground arith, λ p. ground (arith, p.0))

module _ (parse_iso : String → Option Instant) (payload_bytes : Payload → Option ℕ)
    (envelope_bytes : Envelope → Option ℕ) (env : Envelope) (protocols : Dict Protocol) where
  -- A text that is given is read as a time.
  abbrev pub IsRead : Option String → Type 0
  IsRead none = Unit
  IsRead (some t) = (i : Instant) × (parse_iso t ≡ some i)

  -- Two times that are given are both with an offset or both without, and in order.
  abbrev pub AreOrdered : Option String → Option String → Type 0
  AreOrdered none e = Unit
  AreOrdered (some c) none = Unit
  AreOrdered (some c) (some e) =
      (i : Instant) × (j : Instant) × (parse_iso c ≡ some i)
      × (parse_iso e ≡ some j)
      × (i.aware ≡ j.aware)
      × (i.ticks ≤ j.ticks)

  abbrev pub Fits : Option ℕ → ℕ → Type 0
  Fits o limit = (n : ℕ) × (o ≡ some n) × (n ≤ limit)

  pub record IsValid : Type 0 where
    pub operation : contains env.operation valid_operations ≡ true
    pub classification : contains env.data_classification valid_classifications ≡ true
    pub created : IsRead (given_text (some env.created_at))
    pub expires : IsRead (given_text env.expires_at)
    pub deadline : IsRead (given_text env.deadline)
    pub ordered : AreOrdered (given_text (some env.created_at)) (given_text env.expires_at)
    pub payload : Fits (payload_bytes env.payload) max_payload_size_bytes
    pub size :
        Fits
          (envelope_bytes env)
          (envelope_limit parse_iso payload_bytes envelope_bytes protocols env.protocol)

  found-eq-[] : (b : Bool) (d : Defect) → (found b d ≡ []) ↔ (b ≡ false)
  found-eq-[] b d = (λ e. ground arith, λ e. ground arith)

  not_iso_iff :
      (o : Option String) (d : Defect)
      → (not_iso parse_iso payload_bytes envelope_bytes o d ≡ []) ↔ IsRead o
  unfolding not_iso
  not_iso_iff none d = (λ e. tt, λ e. refl)
  not_iso_iff (some t) d = (λ e. ground arith, λ e. ground arith)

  size_defects_iff :
      (o : Option ℕ) (limit : ℕ) (d d' : Defect)
      → (size_defects parse_iso payload_bytes envelope_bytes o limit d d' ≡ []) ↔ Fits o limit
  unfolding size_defects
  size_defects_iff none limit d d' = (λ e. ground arith, λ p. ground arith)
  size_defects_iff (some n) limit d d' = (λ e. (n, refl, ground arith), λ p. ground arith)

  ordered-chronology :
      (c e : Option String)
      → AreOrdered c e
      → chronology parse_iso payload_bytes envelope_bytes c e ≡ ok []
  unfolding chronology compare_times
  ordered-chronology none e h = refl
  ordered-chronology (some c) none h = refl
  ordered-chronology (some c) (some e) (i, j, p, q, same, le) = ground arith

  chronology-ordered :
      (c e : Option String)
      → IsRead c
      → IsRead e
      → chronology parse_iso payload_bytes envelope_bytes c e ≡ ok []
      → AreOrdered c e
  unfolding chronology compare_times
  chronology-ordered none e r r' h = tt
  chronology-ordered (some c) none r r' h = tt
  chronology-ordered (some c) (some e) (i, p) (j, q) h = (i, j, p, q, ground arith, ground arith)

  valid-validate : IsValid → validate parse_iso payload_bytes envelope_bytes env protocols ≡ ok []
  unfolding validate
  valid-validate x = rw (
    ordered-chronology (given_text (some env.created_at)) (given_text env.expires_at) x.ordered,
    x.operation,
    x.classification,
    (not_iso_iff (given_text (some env.created_at)) created_at_not_iso).1 x.created,
    (not_iso_iff (given_text env.expires_at) expires_at_not_iso).1 x.expires,
    (not_iso_iff (given_text env.deadline) deadline_not_iso).1 x.deadline,
    (size_defects_iff (payload_bytes env.payload) max_payload_size_bytes payload_too_large
          payload_not_json).1
        x.payload,
    (size_defects_iff (envelope_bytes env) _ envelope_too_large envelope_not_json).1 x.size,
  )

  validate-valid : validate parse_iso payload_bytes envelope_bytes env protocols ≡ ok [] → IsValid
  unfolding validate
  validate-valid h =
      let (order, in_order, h0) =
        >>=-eq-ok
          (chronology parse_iso payload_bytes envelope_bytes (given_text (some env.created_at))
            (given_text env.expires_at))
          _ h in
      let (a, h1) = (append-eq-[] _ _).0 (ok_injective h0) in
      let (b, h2) = (append-eq-[] _ _).0 h1 in
      let (c, h3) = (append-eq-[] _ _).0 h2 in
      let (d, h4) = (append-eq-[] _ _).0 h3 in
      let (e, h5) = (append-eq-[] _ _).0 h4 in
      let (f, h6) = (append-eq-[] _ _).0 h5 in
      let (g, i) = (append-eq-[] _ _).0 h6 in
      record {
        operation = negated _ ((found-eq-[] _ invalid_operation).0 a);
        classification = negated _ ((found-eq-[] _ invalid_classification).0 b);
        created = (not_iso_iff _ created_at_not_iso).0 c;
        expires = (not_iso_iff _ expires_at_not_iso).0 d;
        deadline = (not_iso_iff _ deadline_not_iso).0 e;
        ordered =
            chronology-ordered _ _ ((not_iso_iff _ created_at_not_iso).0 c)
              ((not_iso_iff _ expires_at_not_iso).0 d) (in_order ∙ ap ok f);
        payload = (size_defects_iff _ _ payload_too_large payload_not_json).0 g;
        size = (size_defects_iff _ _ envelope_too_large envelope_not_json).0 i;
      }
    where
      negated : (b : Bool) → not b ≡ false → b ≡ true
      negated b e = ground arith

  -- The check finds nothing wrong with an envelope if and only if its operation and classification
  -- are known, the times that are given are read as times, the creation and the expiry both have an
  -- offset or both have none and stand in order, and the payload and the envelope are serializable
  -- and within their limits of size.
  pub validate-IsValid_iff :
      (validate parse_iso payload_bytes envelope_bytes env protocols ≡ ok []) ↔ IsValid
  validate-IsValid_iff = (validate-valid, valid-validate)
