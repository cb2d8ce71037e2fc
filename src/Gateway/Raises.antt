-- ===== src/Gateway/Raises.antt =====
-- An exception that leaves the dispatch.
use agents_for_dummies.Base.{String, ◌≡◌, ap, ◌∙◌, false, not, some, arith}
use agents_for_dummies.Base.Result.{err}
use agents_for_dummies.Policy.Data.{Instant}
use agents_for_dummies.Envelope.Validate.{
  type_error as incomparable, given_text, chronology, compare_times, validate,
}
use agents_for_dummies.Control.Tables.{Raised, type_error}
use agents_for_dummies.Gateway.Data.{World, M, return, raise_err, ◌>>=◌, ◌>>◌, next, raise}
use agents_for_dummies.Gateway.Steps.{Call, impostor, check_sender, check_envelope, defects}
use agents_for_dummies.Gateway.Dispatch.{pipeline, dispatch, settle}

module _ {A B : Type 0} {w w' : World} where
  then-next : {a : A} (m : M A) (n : M B) → m w ≡ (next a, w') → (m >> n) w ≡ n w'
  unfolding ◌>>=◌ ◌>>◌
  then-next m n e = rw (e, ◌>>=◌) (ap (λ x. n x.1) e)

  bind-raise :
      {r : Raised} (m : M A) (f : A → M B) → m w ≡ (raise r, w') → (m >>= f) w ≡ (raise r, w')
  unfolding ◌>>=◌
  bind-raise {r} m f e = rw (e, ◌>>=◌) (ap (λ x. (raise r, x.1)) e)

module _ (k : Call) (w : World) (c e : String) (i j : Instant) where
  compare-mixed :
      i.aware ≡ not j.aware
      → compare_times k.platform.parse_iso k.platform.payload_bytes k.platform.envelope_bytes i j
        ≡ err incomparable
  unfolding compare_times
  compare-mixed mixed = ground arith

  chronology-mixed :
      k.platform.parse_iso c ≡ some i
      → k.platform.parse_iso e ≡ some j
      → i.aware ≡ not j.aware
      → chronology k.platform.parse_iso k.platform.payload_bytes k.platform.envelope_bytes
          (some c)
          (some e)
        ≡ err incomparable
  unfolding chronology
  chronology-mixed p q mixed = ground (arith, compare-mixed mixed)

  defects-mixed :
      given_text (some k.envelope.created_at) ≡ some c
      → given_text k.envelope.expires_at ≡ some e
      → k.platform.parse_iso c ≡ some i
      → k.platform.parse_iso e ≡ some j
      → i.aware ≡ not j.aware
      → defects k ≡ err incomparable
  unfolding validate
  defects-mixed created expires p q mixed = rw (created, expires, chronology-mixed p q mixed)

  check_sender-next : impostor k ≡ false → check_sender k w ≡ (next tt, w)
  unfolding check_sender return
  check_sender-next h = rw h

  check_envelope-raise : defects k ≡ err incomparable → check_envelope k w ≡ (raise type_error, w)
  unfolding check_envelope ◌>>=◌ raise_err
  check_envelope-raise h = rw h

  -- A dispatch in any mode, of a request whose sender is no impostor, raises a TypeError and records
  -- nothing if the creation time of the request has an offset where its expiry has none, or the
  -- other way round.
  pub dispatch-raises :
      impostor k ≡ false
      → given_text (some k.envelope.created_at) ≡ some c
      → given_text k.envelope.expires_at ≡ some e
      → k.platform.parse_iso c ≡ some i
      → k.platform.parse_iso e ≡ some j
      → i.aware ≡ not j.aware
      → dispatch k w ≡ (err type_error, w)
  unfolding dispatch pipeline
  dispatch-raises same created expires p q mixed = ap (settle k) (
      then-next _ _ (check_sender-next same)
      ∙ bind-raise _ _ (check_envelope-raise (defects-mixed created expires p q mixed)))
