-- ===== src/Ready/Waiting.antt =====
-- How the script that waits for queue managers ends.
use faststream_mq.Base.{
  ℕ, zero, suc, ◌+◌, ◌*◌, ◌≤◌, ◌<◌, ◌≡◌, inl, inr, false, Option, some, none, true, List, [], ◌∷◌,
  ltb, arith, Bool-cases,
}
use faststream_mq.Errors.{Exc, Result, ok, err, is_exception, timeout_error}
use faststream_mq.Exec.{pure, raise, gets, modify, try_except, if_some, ◌>>=◌}
use faststream_mq.Exec.Hoare.{Keeps, Keeps-bind, Keeps-finally, Keeps-gets, Keeps-when, run-cases}
use faststream_mq.Ready.{
  MqEndpoint, Outside, probe, probe_try, probe_failed, wait_until, wait_for_endpoint, wait_for_all,
  ready_main, endpoints_from, ReadyArgs,
}

-- The clock never goes back, and goes on by the time that is slept at least.
pub record IsClock {W : Type 0} (outside : Outside W) : Type 0 where
  pub after_new : (t : ℕ) → Keeps (λ w. t ≤ outside.now w) outside.new_queue_manager
  pub after_connect :
      (t q : ℕ) (endpoint : MqEndpoint)
      → Keeps (λ w. t ≤ outside.now w) (outside.connect_tcp_client q endpoint)
  pub after_get_name : (t q : ℕ) → Keeps (λ w. t ≤ outside.now w) (outside.get_name q)
  pub after_disconnect : (t q : ℕ) → Keeps (λ w. t ≤ outside.now w) (outside.disconnect q)
  pub after_ready :
      (endpoint : MqEndpoint) (w : W) → outside.now w ≤ outside.now (outside.print_ready endpoint w)
  pub after_not_ready :
      (endpoint : MqEndpoint) (e : Exc) (w : W)
      → outside.now w ≤ outside.now (outside.print_not_ready endpoint e w)
  pub after_sleep : (n : ℕ) (w : W) → outside.now w + n ≤ outside.now (outside.sleep n w)

module _ {W : Type 0} (outside : Outside W) (interval : ℕ) where
  -- The wait for an endpoint that began at `start` comes to the state: each probe began before the
  -- deadline and failed with an `Exception`, which was printed, and was followed by a sleep.
  pub data Trying (endpoint : MqEndpoint) (deadline : ℕ) (start : W) : W → Type 0 where
    at_start : Trying endpoint deadline start start
    once_more :
        {u v : W} (e : Exc)
        → Trying endpoint deadline start u
        → outside.now u < deadline
        → probe outside endpoint u ≡ (err e, v)
        → is_exception e ≡ true
        → Trying endpoint deadline start
            (outside.sleep interval (outside.print_not_ready endpoint e v))

  -- The wait that began at `start` is over: by a probe that began before the deadline and succeeded,
  -- which was printed; by `TimeoutError` at the deadline or later; or by what a probe raised that is
  -- no `Exception`.
  pub data Waited (endpoint : MqEndpoint) (deadline : ℕ) (start : W)
      : Result (Option (Unit {0})) → W → Type 0 where
    answered :
        {u v : W}
        → Trying endpoint deadline start u
        → outside.now u < deadline
        → probe outside endpoint u ≡ (ok tt, v)
        → Waited endpoint deadline start (ok (some tt)) (outside.print_ready endpoint v)
    timed_out :
        {u : W}
        → Trying endpoint deadline start u
        → deadline ≤ outside.now u
        → Waited endpoint deadline start (err timeout_error) u
    broken :
        {u v : W} (e : Exc)
        → Trying endpoint deadline start u
        → outside.now u < deadline
        → probe outside endpoint u ≡ (err e, v)
        → is_exception e ≡ false
        → Waited endpoint deadline start (err e) v

  -- The waits for some endpoints, one after the other: each begins where the one before it ended
  -- with an answer, and its deadline is the timeout after its own start.
  pub data AllWaited (timeout : ℕ)
      : List MqEndpoint → W → Result (Option (Unit {0})) → W → Type 0 where
    all_answered : {w : W} → AllWaited timeout [] w (ok (some tt)) w
    one_answered :
        {endpoint : MqEndpoint} {endpoints : List MqEndpoint} {w v u : W}
        {r : Result (Option (Unit {0}))}
        → Waited endpoint (outside.now w + timeout) w (ok (some tt)) v
        → AllWaited timeout endpoints v r u
        → AllWaited timeout (endpoint ∷ endpoints) w r u
    one_raised :
        {endpoint : MqEndpoint} {endpoints : List MqEndpoint} {w v : W} {e : Exc}
        → Waited endpoint (outside.now w + timeout) w (err e) v
        → AllWaited timeout (endpoint ∷ endpoints) w (err e) v

-- the fuel was not short
abbrev Decided : Result (Option (Unit {0})) → Type 0
Decided (ok none) = ⊥
Decided r = Unit {0}

Waited-Decided :
    {W : Type 0} {outside : Outside W} {interval : ℕ} {endpoint : MqEndpoint} {d : ℕ} {w v : W}
    {r : Result (Option (Unit {0}))}
    → Waited outside interval endpoint d w r v
    → Decided r
Waited-Decided (answered trying early r) = tt
Waited-Decided (timed_out trying late) = tt
Waited-Decided (broken e trying early r fatal) = tt

module _ {W : Type 0} (outside : Outside W) (clock : IsClock outside) where
  probe-forward :
      (t : ℕ) (endpoint : MqEndpoint) → Keeps (λ w. t ≤ outside.now w) (probe outside endpoint)
  unfolding probe
  probe-forward t endpoint = Keeps-bind _ _ (clock.after_new t) (λ q.
      Keeps-finally _ _
        (Keeps-bind _ _ (clock.after_connect t q endpoint) (λ u. clock.after_get_name t q))
        (Keeps-bind _ _ (Keeps-gets _) (λ c. Keeps-when c _ (clock.after_disconnect t q))))

  -- after a failed probe, a message and a sleep
  slept :
      (endpoint : MqEndpoint) (interval : ℕ) (e : Exc) (w v : W)
      → probe outside endpoint w ≡ (err e, v)
      → outside.now w + interval
        ≤ outside.now (outside.sleep interval (outside.print_not_ready endpoint e v))
  slept endpoint interval e w v r =
      let forward = (probe-forward (outside.now w) endpoint).at w (omega arith) in
      let probed : outside.now w ≤ outside.now v = rw r at forward in
      omega (
        arith,
        clock.after_not_ready endpoint e v,
        clock.after_sleep interval (outside.print_not_ready endpoint e v),
      )

  -- one round: it ends the loop, or the next round starts after the sleep
  round-Waited :
      (fuel : ℕ) (endpoint : MqEndpoint) (deadline interval : ℕ) (start w : W)
      → Trying outside interval endpoint deadline start w
      → ((v : W)
          → Trying outside interval endpoint deadline start v
          → outside.now w < deadline
          → outside.now w + interval ≤ outside.now v
          → let (r, x) = wait_until outside fuel endpoint deadline interval v in
            Waited outside interval endpoint deadline start r x)
      → let (r, v) = wait_until outside (suc fuel) endpoint deadline interval w in
        Waited outside interval endpoint deadline start r v
  unfolding wait_until probe_try probe_failed try_except ◌>>=◌ modify pure raise gets
  round-Waited fuel endpoint deadline interval start w trying again =
      elim (Bool-cases (ltb (outside.now w) deadline)) [
        | inr late ↦ simp late (timed_out trying (ground arith))
        | inl early ↦ elim (run-cases (probe outside endpoint) w) [
          | inl (tt, v, r) ↦ simp (early, r) (answered trying (ground arith) r)
          | inr (e, v, r) ↦ elim (Bool-cases (is_exception e)) [
            | inr fatal ↦ simp (early, r, fatal) (broken e trying (ground arith) r fatal)
            | inl caught ↦
                let next =
                  again (outside.sleep interval (outside.print_not_ready endpoint e v))
                    (once_more e trying (ground arith) r caught) (ground arith)
                    (slept endpoint interval e w v r) in
                simp (early, r, caught) next
          ]
        ]
      ]

  -- the loop has time for as many sleeps as there is fuel before its last round
  wait_until-Waited :
      (fuel : ℕ) (endpoint : MqEndpoint) (deadline interval : ℕ) (start w : W)
      → Trying outside interval endpoint deadline start w
      → deadline ≤ outside.now w + fuel * interval
      → let (r, v) = wait_until outside (suc fuel) endpoint deadline interval w in
        Waited outside interval endpoint deadline start r v
  wait_until-Waited zero endpoint deadline interval start w trying h =
      round-Waited zero endpoint deadline interval start w trying
        (λ v trying early later. absurd (grind arith))
  wait_until-Waited (suc fuel) endpoint deadline interval start w trying h =
      round-Waited (suc fuel) endpoint deadline interval start w trying (λ v trying early later.
        wait_until-Waited fuel endpoint deadline interval start v trying (grind arith))

module _ {W : Type 0} (outside : Outside W) (clock : IsClock outside) (fuel timeout interval : ℕ)
    (enough : timeout ≤ fuel * interval) where
  -- the wait for one endpoint
  wait_for_endpoint-Waited :
      (endpoint : MqEndpoint) (w : W)
      → let (r, v) = wait_for_endpoint outside (suc fuel) timeout interval endpoint w in
        Waited outside interval endpoint (outside.now w + timeout) w r v
  unfolding wait_for_endpoint ◌>>=◌
  wait_for_endpoint-Waited endpoint w =
      wait_until-Waited outside clock fuel endpoint (outside.now w + timeout) interval w w at_start
        (omega (arith, enough))

  -- the waits go on where one of them was answered
  wait_for_all-AllWaited :
      (endpoints : List MqEndpoint) (w : W)
      → let (r, v) = wait_for_all outside (suc fuel) timeout interval endpoints w in
        AllWaited outside interval timeout endpoints w r v
  unfolding wait_for_all if_some ◌>>=◌ pure
  wait_for_all-AllWaited [] w = all_answered
  wait_for_all-AllWaited (endpoint ∷ endpoints) w =
      elim (run-cases (wait_for_endpoint outside (suc fuel) timeout interval endpoint) w) [
        | inl (some tt, v, r) ↦
            let one : Waited outside interval endpoint (outside.now w + timeout) w (ok (some tt))
                v =
              simp r at (wait_for_endpoint-Waited endpoint w) in
            simp r (one_answered one (wait_for_all-AllWaited endpoints v))
        | inl (none, v, r) ↦
            let one : Waited outside interval endpoint (outside.now w + timeout) w (ok none) v =
              simp r at (wait_for_endpoint-Waited endpoint w) in
            absurd (Waited-Decided one)
        | inr (e, v, r) ↦
            let one : Waited outside interval endpoint (outside.now w + timeout) w (err e) v =
              simp r at (wait_for_endpoint-Waited endpoint w) in
            simp r (one_raised one)
      ]

-- Let the clock never go back, let `sleep` sleep as long as it is told at least, and let the
-- timeout be at most `fuel` intervals. Then `main` ends within `fuel + 1` rounds for each endpoint:
-- it waits for the endpoints that were named one after the other, each from where the wait before
-- it was answered, and ends in one of three ways. It returns, and each endpoint has answered a
-- probe that began before the timeout after the start of its own wait; or it raises `TimeoutError`
-- when that timeout has passed since the start of the wait in which it stops, after failed probes
-- only; or it raises what a probe within the timeout raised that is no `Exception`.
pub ready_main-AllWaited :
    {W : Type 0} (outside : Outside W) (fuel : ℕ) (a : ReadyArgs) (w : W)
    → IsClock outside
    → a.timeout ≤ fuel * a.interval
    → let (r, v) = ready_main outside (suc fuel) a w in
      AllWaited outside a.interval a.timeout (endpoints_from 1 a a.conn_names) w r v
unfolding ready_main
ready_main-AllWaited outside fuel a w clock enough =
    wait_for_all-AllWaited outside clock fuel a.timeout a.interval enough
      (endpoints_from 1 a a.conn_names) w
