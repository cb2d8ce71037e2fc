-- ===== src/Control/Budget.antt =====
-- Budgets: what a bounded reservation guarantees, and what a history keeps.
use agents_for_dummies.Base.{
  ℕ, ◌+◌, ◌≤◌, String, ◌≡◌, refl, Bool, true, false, not, ◌&&◌, Option, none, some, List, [], ◌∷◌,
  ◌++◌, ◌==◌, arith, eq_refl, any_of, ◌⊎◌, inl, inr,
}
use agents_for_dummies.Base.Result.{Result, ok, err}
use agents_for_dummies.Policy.Data.{Instant}
use agents_for_dummies.Control.Tables.{
  Control, Reservation, Raised, Fault, fine, control_error, sum_where, update_where,
}
use agents_for_dummies.Control.Runs.{
  record_decision, reserve_bounded, reserve, release, commit_usage, record_run_budget, cancel,
  acquire_lease, release_lease, total_calls, total_seconds, open_in, reserved_for,
}
use agents_for_dummies.Control.Replay.{claim_replay, store_artifact}
use agents_for_dummies.Control.Approvals.{request_approval, decide_approval}
use agents_for_dummies.Control.Ops.{
  Op, apply, history, reserved_bounded, reserved, released, committed,
}
use agents_for_dummies.Base.Int.{clamp_zero}
use agents_for_dummies.Base.{String-cases}
use agents_for_dummies.Base.Int.{ℤ}

abbrev pub IsWithin : ℕ → Option ℕ → Type 0
IsWithin total none = Unit
IsWithin total (some m) = total ≤ m

sum_where-append :
    (p : Reservation → Bool) (f : Reservation → ℕ) (rs more : List Reservation)
    → sum_where p f (rs ++ more) ≡ sum_where p f rs + sum_where p f more
sum_where-append p f [] more = omega arith
sum_where-append p f (r ∷ rs) more = omega (arith, sum_where-append p f rs more)

module _ (busy_id run_id node_id : String) (calls seconds : ℕ) (max_calls max_seconds : Option ℕ)
    (c : Control) where
  abbrev new_row : Reservation
  new_row = record {
    run_id = run_id;
    node_id = node_id;
    calls = calls;
    seconds = seconds;
    released = false;
  }

  -- What a bounded reservation does, for each of its results.
  abbrev pub Reserves : Result Raised Bool × Control → Type 0
  Reserves (ok true, c') =
      (any_of (reserved_for run_id node_id) c.reservations ≡ false)
      × (total_calls run_id c' ≡ total_calls run_id c + calls)
      × (total_seconds run_id c' ≡ total_seconds run_id c + seconds)
      × IsWithin (total_calls run_id c') max_calls
      × IsWithin (total_seconds run_id c') max_seconds
      × (c'.decisions ≡ c.decisions)
  Reserves (ok false, c') = c'.reservations ≡ c.reservations
  Reserves (err e, c') = (e ≡ control_error) × (c' ≡ c)

  calls-new :
      sum_where (open_in run_id) (λ r. r.calls) (c.reservations ++ new_row ∷ [])
      ≡ total_calls run_id c + calls
  calls-new = ground (
    arith,
    sum_where-append (open_in run_id) (λ r. r.calls) c.reservations (new_row ∷ []),
    eq_refl run_id,
  )

  seconds-new :
      sum_where (open_in run_id) (λ r. r.seconds) (c.reservations ++ new_row ∷ [])
      ≡ total_seconds run_id c + seconds
  seconds-new = ground (
    arith,
    sum_where-append (open_in run_id) (λ r. r.seconds) c.reservations (new_row ∷ []),
    eq_refl run_id,
  )

  -- A bounded reservation that succeeds had no row for its node, adds its calls and seconds to the
  -- totals of the run and leaves both within their limits; one that is refused leaves the
  -- reservations alone; one that raises leaves every table alone.
  pub reserve_bounded-Reserves :
      (f : Fault)
      → Reserves (reserve_bounded f busy_id run_id node_id calls seconds max_calls max_seconds c)
  unfolding reserve_bounded
  reserve_bounded-Reserves fine = ground (arith, calls-new, seconds-new)
  reserve_bounded-Reserves _ = (refl, refl)

  within :
      (x : Result Raised Bool × Control)
      → Reserves x
      → x.0 ≡ ok true
      → IsWithin (total_calls run_id x.1) max_calls
  within (ok true, c') h e = h.3
  within (ok false, c') h e = ground arith
  within (err e', c') h e = ground arith

  pub reserve_bounded-IsWithin :
      (f : Fault)
      → (reserve_bounded f busy_id run_id node_id calls seconds max_calls max_seconds c).0 ≡ ok true
      → IsWithin
          (total_calls run_id
            (reserve_bounded f busy_id run_id node_id calls seconds max_calls max_seconds c).1)
          max_calls
  reserve_bounded-IsWithin f e =
      within (reserve_bounded f busy_id run_id node_id calls seconds max_calls max_seconds c)
        (reserve_bounded-Reserves f) e

module _ (r : String) where
  calls_in : List Reservation → ℕ
  calls_in rs = sum_where (open_in r) (λ x. x.calls) rs

  calls_in-release :
      (r' n : String) (rs : List Reservation)
      → calls_in (update_where (reserved_for r' n) (λ x. record x { released = true }) rs)
        ≤ calls_in rs
  unfolding calls_in
  calls_in-release r' n [] = omega arith
  calls_in-release r' n (x ∷ rs) = ground (arith, calls_in-release r' n rs)

  calls_in-commit :
      (r' n : String) (s : ℕ) (rs : List Reservation)
      → calls_in (
          update_where
            (λ x. reserved_for r' n x && not x.released)
            (λ x. record x { seconds = s })
            rs)
        ≡ calls_in rs
  unfolding calls_in
  calls_in-commit r' n s [] = refl
  calls_in-commit r' n s (x ∷ rs) = ground (arith, calls_in-commit r' n s rs)

  calls_in-append :
      (rs more : List Reservation) → calls_in (rs ++ more) ≡ calls_in rs + calls_in more
  unfolding calls_in
  calls_in-append rs more = sum_where-append (open_in r) (λ x. x.calls) rs more

  -- The method reserves for the run only under a limit of at most `m` calls.
  abbrev pub IsCapped : ℕ → Op → Type 0
  IsCapped m (reserved_bounded b r' n k s mk ms) =
      ((r' == r) ≡ false) ⊎ ((m' : ℕ) × (mk ≡ some m') × (m' ≤ m))
  IsCapped m (reserved b r' n k s) = (r' == r) ≡ false
  IsCapped m _ = Unit {0}

  abbrev pub AreCapped : ℕ → List (Op × Fault) → Type 0
  AreCapped m [] = Unit {0}
  AreCapped m ((op, f) ∷ rest) = IsCapped m op × AreCapped m rest

  module _ (parse_iso : String → Option Instant) (m : ℕ) where
    bounded_self :
        (f : Fault) (b n : String) (k s m' : ℕ) (ms : Option ℕ) (c : Control)
        → m' ≤ m
        → total_calls r c ≤ m
        → total_calls r (reserve_bounded f b r n k s (some m') ms c).1 ≤ m
    unfolding calls_in reserve_bounded
    bounded_self f b n k s m' ms c h le =
        ground
          (arith, calls_in-append c.reservations (new_row b r n k s (some m') ms c ∷ []), eq_refl r)

    bounded_other :
        (f : Fault) (b r' n : String) (k s : ℕ) (mk ms : Option ℕ) (c : Control)
        → (r' == r) ≡ false
        → total_calls r c ≤ m
        → total_calls r (reserve_bounded f b r' n k s mk ms c).1 ≤ m
    unfolding calls_in reserve_bounded
    bounded_other f b r' n k s mk ms c h le =
        ground (arith, calls_in-append c.reservations (new_row b r' n k s mk ms c ∷ []))

    bounded-calls :
        (f : Fault) (b r' n : String) (k s : ℕ) (mk ms : Option ℕ) (c : Control)
        → ((r' == r) ≡ false) ⊎ ((m' : ℕ) × (mk ≡ some m') × (m' ≤ m))
        → total_calls r c ≤ m
        → total_calls r (reserve_bounded f b r' n k s mk ms c).1 ≤ m
    bounded-calls f b r' n k s mk ms c (inl h) le = bounded_other f b r' n k s mk ms c h le
    bounded-calls f b r' n k s mk ms c (inr (m', e, h)) le = elim (String-cases r' r) [
      | inl same ↦ rw (same, e) (bounded_self f b n k s m' ms c h le)
      | inr other ↦ bounded_other f b r' n k s mk ms c other le
    ]

    reserve-calls :
        (f : Fault) (b r' n : String) (k s : ℤ) (c : Control)
        → (r' == r) ≡ false
        → total_calls r c ≤ m
        → total_calls r (reserve f b r' n k s c).1 ≤ m
    unfolding calls_in reserve
    reserve-calls f b r' n k s c h le = ground (
      arith,
      calls_in-append c.reservations
          (new_row b r' n (clamp_zero k) (clamp_zero s) none none c ∷ []),
    )

    apply-calls :
        (op : Op) (f : Fault) (c : Control)
        → IsCapped m op
        → total_calls r c ≤ m
        → total_calls r (apply parse_iso op f c) ≤ m
    unfolding calls_in apply record_decision release commit_usage record_run_budget cancel
        acquire_lease release_lease claim_replay store_artifact request_approval decide_approval
    apply-calls (reserved_bounded b r' n k s mk ms) f c cap le =
        bounded-calls f b r' n k s mk ms c cap le
    apply-calls (reserved b r' n k s) f c cap le = reserve-calls f b r' n k s c cap le
    apply-calls (released r' n) f c cap le = ground (arith, calls_in-release r' n c.reservations)
    apply-calls (committed r' n s) f c cap le =
        ground (arith, calls_in-commit r' n (clamp_zero s) c.reservations)
    apply-calls op f c cap le = ground arith

    -- If a run has at most `m` calls reserved and every further reservation for it is made under a
    -- limit of at most `m` calls, it has at most `m` calls reserved after any history in which each
    -- bounded reservation is of a number of calls and seconds that is not negative. The history has
    -- any faults and any other runs between.
    pub history-calls :
        (ops : List (Op × Fault)) (c : Control)
        → AreCapped m ops
        → total_calls r c ≤ m
        → total_calls r (history parse_iso ops c) ≤ m
    unfolding history
    history-calls [] c cap le = le
    history-calls ((op, f) ∷ rest) c cap le =
        history-calls rest (apply parse_iso op f c) cap.1 (apply-calls op f c cap.0 le)
