-- ===== src/Exec/Deadline.antt =====
-- A loop that tries a method again after failures that may pass, until a deadline.
use faststream_mq.Base.{
  ℕ, zero, suc, ◌+◌, ◌<◌, ◌≡◌, refl, subst, Bool, true, false, Option, none, some, arith, leb, not,
  if◌then◌else◌, ◌⊎◌, inl, inr, Bool-cases,
}
use faststream_mq.Errors.{Exc, Result, ok, err, Result-cases}
use faststream_mq.Values.{ℤ, pos, negsuc}
use faststream_mq.Exec.{Exec, pure, raise, try_except, ◌>>=◌, ◌>>◌}
use faststream_mq.Exec.Hoare.{run-cases}

-- `timeout <= 0 or time.monotonic() >= deadline`, where the deadline is `start + timeout`
abbrev pub is_expired : ℤ → ℕ → ℕ → Bool
is_expired (negsuc t) start now = true
is_expired (pos zero) start now = true
is_expired (pos (suc t)) start now = leb (start + suc t) now

-- the loop has come to its end, by a return or by an exception
abbrev pub HasEnded : Result (Option (Unit {0})) → Type 0
HasEnded r = (r ≡ ok (some tt)) ⊎ ((e : Exc) × (r ≡ err e))

module _ {S : Type 0} where
  then-HasEnded :
      (m : Exec S (Unit {0})) (n : Exec S (Option (Unit {0})))
      → ((s : S) → HasEnded (n s).0)
      → (s : S) → HasEnded ((m >> n) s).0
  unfolding ◌>>=◌
  then-HasEnded m n h s = elim (Result-cases (m s).0) [
    | inl (u, r) ↦ rw r (h (m s).1)
    | inr (e, r) ↦ inr (e, rw r refl)
  ]

  try_except-HasEnded :
      (m : Exec S (Option (Unit {0}))) (handler : Exc → Exec S (Option (Unit {0})))
      → ((s : S) → HasEnded (m s).0)
      → ((e : Exc) (s : S) → HasEnded (handler e s).0)
      → (s : S) → HasEnded (try_except m handler s).0
  unfolding try_except
  try_except-HasEnded m handler h k s = elim (h s) [
    | inl r ↦ inl (rw r refl)
    | inr (e, r) ↦ rw r (k e (m s).1)
  ]

-- `clock` gives the readings of the clock in microseconds: the first before the loop, one more
-- after each failed attempt. `between` runs before the next attempt.
module _ {S : Type 0} (retryable : Exc → Bool) (clock : ℕ → ℕ) (timeout : ℤ)
    (attempt between : Exec S (Unit {0})) where
  -- the `except` of the loop; `again` is the next round
  unfoldable pub attempt_failed : ℕ → Exec S (Option (Unit {0})) → Exc → Exec S (Option (Unit {0}))
  attempt_failed n again e =
      if not (retryable e)
      then raise e
      else if is_expired timeout (clock 0) (clock (suc n))
      then raise e
      else (do between; again)

  -- The loop, from its attempt `n` on. It gives nothing if the fuel is short.
  unfoldable pub retry_until : ℕ → ℕ → Exec S (Option (Unit {0}))
  retry_until zero n = pure none
  retry_until (suc fuel) n =
      try_except (do attempt; pure (some tt)) (attempt_failed n (retry_until fuel (suc n)))

  attempt-HasEnded : (s : S) → HasEnded ((do attempt; pure (some tt)) s).0
  unfolding pure
  attempt-HasEnded s = then-HasEnded _ _ (λ t. inl refl) s

  attempt_failed-HasEnded :
      (e : Exc) (t : S) (again : Exec S (Option (Unit {0}))) (n : ℕ)
      → ((u : S) → HasEnded (again u).0)
      → HasEnded (attempt_failed n again e t).0
  unfolding attempt_failed raise
  attempt_failed-HasEnded e t again n h = elim (Bool-cases (retryable e)) [
    | inr fatal ↦ inr (e, rw fatal refl)
    | inl retry ↦ elim (Bool-cases (is_expired timeout (clock 0) (clock (suc n)))) [
      | inl late ↦ inr (e, rw (retry, late) refl)
      | inr early ↦ rw (retry, early) (then-HasEnded _ again h t)
    ]
  ]

  -- and anyway after the deadline
  last_failure-HasEnded :
      (e : Exc) (t : S) (again : Exec S (Option (Unit {0}))) (n : ℕ)
      → is_expired timeout (clock 0) (clock (suc n)) ≡ true
      → HasEnded (attempt_failed n again e t).0
  unfolding attempt_failed raise
  last_failure-HasEnded e t again n late = elim (Bool-cases (retryable e)) [
    | inr fatal ↦ inr (e, rw fatal refl)
    | inl retry ↦ inr (e, rw (retry, late) refl)
  ]

  -- once the deadline has passed after attempt `n + k`, fuel for `k + 1` attempts is enough
  pub retry_until-HasEnded :
      (k fuel n : ℕ) (s : S)
      → k < fuel
      → is_expired timeout (clock 0) (clock (suc (n + k))) ≡ true
      → HasEnded (retry_until fuel n s).0
  unfolding retry_until
  retry_until-HasEnded k zero n s l d = absurd (omega arith)
  retry_until-HasEnded zero (suc fuel) n s l d =
      try_except-HasEnded _ _ attempt-HasEnded
        (λ e t.
          last_failure-HasEnded e t (retry_until fuel (suc n)) n
            (subst (λ i. is_expired timeout (clock 0) (clock (suc i)) ≡ true) (omega arith) d))
        s
  retry_until-HasEnded (suc k) (suc fuel) n s l d =
      try_except-HasEnded _ _ attempt-HasEnded
        (λ e t. attempt_failed-HasEnded e t (retry_until fuel (suc n)) n (λ u.
          retry_until-HasEnded k fuel (suc n) u (omega arith)
            (subst (λ i. is_expired timeout (clock 0) (clock (suc i)) ≡ true) (omega arith) d)))
        s

  -- From attempt `n` in the state `s`: `k` attempts fail in a way that may pass, each of them in
  -- time, and the next one succeeds and leaves the state `t`.
  pub data Recovers : ℕ → ℕ → S → S → Type 0 where
    at_last : {n : ℕ} {s t : S} → attempt s ≡ (ok tt, t) → Recovers zero n s t
    failing :
        {k n : ℕ} {s t u v : S} (e : Exc)
        → attempt s ≡ (err e, t)
        → retryable e ≡ true
        → is_expired timeout (clock 0) (clock (suc n)) ≡ false
        → between t ≡ (ok tt, u)
        → Recovers k (suc n) u v
        → Recovers (suc k) n s v

  pub retry_until-Recovers :
      (fuel : ℕ) {k n : ℕ} {s t : S}
      → Recovers k n s t
      → k < fuel
      → retry_until fuel n s ≡ (ok (some tt), t)
  unfolding retry_until attempt_failed try_except ◌>>=◌
  retry_until-Recovers zero r l = absurd (omega arith)
  retry_until-Recovers (suc fuel) (at_last h) l = rw h refl
  retry_until-Recovers (suc fuel) (failing e h y d b r) l =
      rw (h, y, d, b) (retry_until-Recovers fuel r (omega arith))

  -- a loop that returns has made an attempt that succeeded, and its state is that attempt's
  pub retry_until-succeeded :
      (fuel n : ℕ) (s t : S)
      → retry_until fuel n s ≡ (ok (some tt), t)
      → (u : S) × (attempt u ≡ (ok tt, t))
  unfolding retry_until attempt_failed try_except ◌>>=◌ pure raise
  retry_until-succeeded zero n s t h = absurd cc
  retry_until-succeeded (suc fuel) n s t h = elim (run-cases attempt s) [
    | inl (v, u, r) ↦ (s, ground arith)
    | inr (e, u, r) ↦ elim (Bool-cases (retryable e)) [
      | inr fatal ↦ (let k = simp (r, fatal) at h in cc)
      | inl retry ↦ elim (Bool-cases (is_expired timeout (clock 0) (clock (suc n)))) [
        | inl late ↦ (let k = simp (r, retry, late) at h in cc)
        | inr early ↦ elim (run-cases between u) [
          | inl (v, w, k) ↦ retry_until-succeeded fuel (suc n) w t (simp (r, retry, early, k) at h)
          | inr (f, w, k) ↦ (let l = simp (r, retry, early, k) at h in cc)
        ]
      ]
    ]
  ]

  -- From the state `s` the loop comes to attempt `m` in this state: each attempt before it has
  -- failed in a way that may pass, and in time.
  pub data Tried (s : S) : ℕ → S → Type 0 where
    first : Tried s zero s
    once_more :
        {m : ℕ} {u v w : S} (e : Exc)
        → Tried s m u
        → attempt u ≡ (err e, v)
        → retryable e ≡ true
        → is_expired timeout (clock 0) (clock (suc m)) ≡ false
        → between v ≡ (ok tt, w)
        → Tried s (suc m) w

  -- what ends the loop after the attempt `m` in the state `u` by an exception
  pub data Final (m : ℕ) (e : Exc) (u t : S) : Type 0 where
    fatal : attempt u ≡ (err e, t) → retryable e ≡ false → Final m e u t
    late :
        attempt u ≡ (err e, t) → is_expired timeout (clock 0) (clock (suc m)) ≡ true → Final m e u t
    unready : (v : S) → between v ≡ (err e, t) → Final m e u t

  -- a loop that raises has made an attempt that ended it, and its state is that attempt's
  pub retry_until-Final :
      (fuel n : ℕ) (s0 s t : S) (e : Exc)
      → Tried s0 n s
      → retry_until fuel n s ≡ (err e, t)
      → (m : ℕ) × (u : S) × Tried s0 m u × Final m e u t
  unfolding retry_until attempt_failed try_except ◌>>=◌ pure raise
  retry_until-Final zero n s0 s t e tried h = absurd cc
  retry_until-Final (suc fuel) n s0 s t e tried h = elim (run-cases attempt s) [
    | inl (v, u, r) ↦ absurd (let k = simp r at h in cc)
    | inr (f, u, r) ↦ elim (Bool-cases (retryable f)) [
      | inr final ↦
          let k = simp (r, final) at h in
          let same : f ≡ e = cc in (n, s, tried, fatal (ground (arith, r, k)) (rw (← same) final))
      | inl retry ↦ elim (Bool-cases (is_expired timeout (clock 0) (clock (suc n)))) [
        | inl over ↦
            let k = simp (r, retry, over) at h in (n, s, tried, late (ground (arith, r, k)) over)
        | inr early ↦ elim (run-cases between u) [
          | inl (tt, w, k) ↦
              retry_until-Final fuel (suc n) s0 w t e (once_more f tried r retry early k)
                (simp (r, retry, early, k) at h)
          | inr (g, w, k) ↦
              let l = simp (r, retry, early, k) at h in
              (n, s, tried, unready u (ground (arith, k, l)))
        ]
      ]
    ]
  ]
