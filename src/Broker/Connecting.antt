-- ===== src/Broker/Connecting.antt =====
-- `MQBroker._connect` of broker/broker.py: the producer's connect, with retries.
use faststream_mq.Base.{
  subst, ℕ, suc, false, ◌<◌, ◌≡◌, refl, true, Option, none, some, is_some, arith, Bool-cases, inl,
  inr, ◌⊎◌,
}
use faststream_mq.Errors.{Exc, Result, ok, err}
use faststream_mq.Exec.{Exec, pure, gets, modify, assert_some, if_some, ◌>>=◌}
use faststream_mq.Exec.Deadline.{
  Tried, first, Final, fatal, late, unready, retry_until-Final, is_expired, HasEnded, retry_until,
  retry_until-HasEnded, retry_until-succeeded,
}
use faststream_mq.Exec.Hoare.{run-cases}
use faststream_mq.Native.{Env}
use faststream_mq.Connection.State.{State, Connection, ConnectionConfig, load_ibmmq, set_executor}
use faststream_mq.Connection.Tls.{build_tls_options}
use faststream_mq.Connection.Reasons.{is_retryable_mq_exception}
use faststream_mq.Connection.Connect.{
  connect, connect_sync, open_connection, build_cno, guarded_connect,
}
use faststream_mq.Connection.Scope.{guarded_connect-scope}
use faststream_mq.Connection.Running.Link.{connect_sync-IsRunning}
use faststream_mq.Producer.{Producer, producer_connect, new_connection, on_connection}

module _ (env : Env) (clock : ℕ → ℕ) (cfg : ConnectionConfig) where
  -- the loop; `anyio.sleep` between two attempts shows only in the readings of the clock
  unfoldable pub broker_retries : ℕ → ℕ → Exec Producer (Option (Unit {0}))
  broker_retries =
      retry_until (is_retryable_mq_exception env) clock cfg.startup_retry_timeout
        (producer_connect env cfg) (pure tt)

  -- `_connect`, with the fuel of its loop; it gives nothing if the fuel is short
  unfoldable pub broker_connect : ℕ → Exec Producer (Option Connection)
  broker_connect fuel = do
    connected ← broker_retries fuel 0
    if_some connected
        (λ u. do publish ← gets (λ p. p.publish_connection); c ← assert_some publish; pure (some c))
        (pure none)

-- a connect that returns has a queue manager
open_connection-qmgr :
    (env : Env) (s t : State) → open_connection env s ≡ (ok tt, t) → is_some t.conn.qmgr ≡ true
unfolding open_connection ◌>>=◌
open_connection-qmgr env s t h = elim (run-cases (load_ibmmq env) s) [
  | inr (e, u, r) ↦ (let k = simp r at h in cc)
  | inl (v, s1, r) ↦ elim (run-cases (build_cno env) s1) [
    | inr (e, u, k) ↦ (let l = simp (r, k) at h in cc)
    | inl (cno, s2, k) ↦ elim (run-cases (build_tls_options env) s2) [
      | inr (e, u, l) ↦ (let m = simp (r, k, l) at h in cc)
      | inl (options, s3, l) ↦
          let scope = guarded_connect-scope env cno options.0 options.1 s3 in
          let run : guarded_connect env cno options.0 options.1 s3 ≡ (ok tt, t) =
            simp (r, k, l) at h in
          ((rw run at scope)).1
    ]
  ]
]

connect_sync-qmgr :
    (env : Env) (s t : State) → connect_sync env s ≡ (ok tt, t) → is_some t.conn.qmgr ≡ true
unfolding connect_sync ◌>>=◌
connect_sync-qmgr env s t h = elim (Bool-cases (is_some s.conn.qmgr)) [
  | inl y ↦ (let k = simp y at h in ground arith)
  | inr n ↦ open_connection-qmgr env s t (simp n at h)
]

-- a connection on which something can be published
pub record IsConnected (c : Connection) : Type 0 where
  pub started : c.executor ≡ true
  pub linked : is_some c.qmgr ≡ true

connect-IsConnected :
    (env : Env) (s t : State)
    → s.conn.consumer_queue ≡ none
    → connect env s ≡ (ok tt, t)
    → IsConnected t.conn
unfolding connect ◌>>=◌ modify
connect-IsConnected env s t idle h =
    let run =
      (connect_sync-IsRunning env).at (set_executor true s)
        (record { started = refl; attached = λ e. ground (arith, e, idle) }) in
    record {
      started = (rw h at run).started;
      linked = connect_sync-qmgr env (set_executor true s) t h;
    }

producer_connect-IsConnected :
    (env : Env) (cfg : ConnectionConfig) (p q : Producer)
    → producer_connect env cfg p ≡ (ok tt, q)
    → (c : Connection) × (q.publish_connection ≡ some c)
      × IsConnected c
      × (q.request_connection ≡ none)
unfolding producer_connect on_connection ◌>>=◌ modify
producer_connect-IsConnected env cfg p q h =
    elim (run-cases (connect env)
      (record { conn = new_connection cfg; log = p.log; amq_tls_scope = p.amq_tls_scope })) [
        | inr (e, t, r) ↦ (let k = simp r at h in cc)
        | inl (v, t, r) ↦
            (t.conn, ground (arith, r, h), connect-IsConnected env _ t refl r, ground (arith, r, h))
      ]

-- loops that end with a result have connected the producer
broker_retries-IsConnected :
    (env : Env) (clock : ℕ → ℕ) (cfg : ConnectionConfig) (fuel : ℕ) (p q : Producer)
    → broker_retries env clock cfg fuel 0 p ≡ (ok (some tt), q)
    → (c : Connection) × (q.publish_connection ≡ some c)
      × IsConnected c
      × (q.request_connection ≡ none)
unfolding broker_retries
broker_retries-IsConnected env clock cfg fuel p q h =
    let (u, r) =
      retry_until-succeeded _ clock _ (producer_connect env cfg) (pure tt) fuel 0 p q h in
    producer_connect-IsConnected env cfg u q r

unfinished :
    {S : Type 0} {m : Result (Option (Unit {0})) × S} {t : S} → m ≡ (ok none, t) → ¬ HasEnded m.0
unfinished h (inl r) = cc
unfinished h (inr (e, r)) = cc

broker_retries-HasEnded :
    (env : Env) (clock : ℕ → ℕ) (cfg : ConnectionConfig) (k fuel : ℕ) (p : Producer)
    → k < fuel
    → is_expired cfg.startup_retry_timeout (clock 0) (clock (suc k)) ≡ true
    → HasEnded (broker_retries env clock cfg fuel 0 p).0
unfolding broker_retries
broker_retries-HasEnded env clock cfg k fuel p l d =
    retry_until-HasEnded _ clock _ (producer_connect env cfg) (pure tt) k fuel 0 p l (
      subst (λ i. is_expired cfg.startup_retry_timeout (clock 0) (clock (suc i)) ≡ true)
        (omega arith) d)

-- `_connect` raised what its last attempt raised, which the loop came to in the way of `Tried`. The
-- exception is one that is not retried, or the deadline was over after that attempt.
pub record LastFailed (env : Env) (clock : ℕ → ℕ) (cfg : ConnectionConfig) (p : Producer) (e : Exc)
    (q : Producer) : Type 0 where
  pub attempts : ℕ
  pub before : Producer
  pub tried :
      Tried
        (is_retryable_mq_exception env)
        clock
        cfg.startup_retry_timeout
        (producer_connect env cfg)
        (pure tt)
        p
        attempts
        before
  pub attempt : producer_connect env cfg before ≡ (err e, q)
  pub ended :
      (is_retryable_mq_exception env e ≡ false)
      ⊎ (is_expired cfg.startup_retry_timeout (clock 0) (clock (suc attempts)) ≡ true)

broker_retries-LastFailed :
    (env : Env) (clock : ℕ → ℕ) (cfg : ConnectionConfig) (fuel : ℕ) (p q : Producer) (e : Exc)
    → broker_retries env clock cfg fuel 0 p ≡ (err e, q)
    → LastFailed env clock cfg p e q
unfolding broker_retries pure
broker_retries-LastFailed env clock cfg fuel p q e h =
    let (m, u, tried, final) =
      retry_until-Final _ clock _ (producer_connect env cfg) (pure tt) fuel 0 p p q e first h in
    go m u tried final
  where
    go :
        (m : ℕ) (u : Producer)
        → Tried
            (is_retryable_mq_exception env)
            clock
            cfg.startup_retry_timeout
            (producer_connect env cfg)
            (pure tt)
            p
            m
            u
        → Final
            (is_retryable_mq_exception env)
            clock
            cfg.startup_retry_timeout
            (producer_connect env cfg)
            (pure tt)
            m
            e
            u
            q
        → LastFailed env clock cfg p e q
    go m u tried (fatal r f) = record {
      attempts = m;
      before = u;
      tried = tried;
      attempt = r;
      ended = inl f;
    }
    go m u tried (late r f) = record {
      attempts = m;
      before = u;
      tried = tried;
      attempt = r;
      ended = inr f;
    }
    go m u tried (unready v r) = absurd cc

-- Let the clock read, after the attempt `k`, a time at or past the deadline. With fuel for `k + 1`
-- attempts, `_connect` of a broker ends. It raises what its last attempt raised, with the state that
-- this attempt left, after attempts that each failed with an exception that is retried and before
-- the deadline: either that last exception is one that is not retried, or the deadline was
-- over after the last attempt. Or it returns the connection that the producer publishes on: that
-- connection has its executor and a queue manager, and the producer has no connection for requests
-- yet.
pub broker_connect-ends :
    (env : Env) (clock : ℕ → ℕ) (cfg : ConnectionConfig) (k fuel : ℕ) (p : Producer)
    → k < fuel
    → is_expired cfg.startup_retry_timeout (clock 0) (clock (suc k)) ≡ true
    → let (r, q) = broker_connect env clock cfg fuel p in
      ((c : Connection) × (r ≡ ok (some c))
        × (q.publish_connection ≡ some c)
        × IsConnected c
        × (q.request_connection ≡ none))
      ⊎ ((e : Exc) × (r ≡ err e) × LastFailed env clock cfg p e q)
unfolding broker_connect ◌>>=◌ if_some
broker_connect-ends env clock cfg k fuel p l d =
    elim (run-cases (broker_retries env clock cfg fuel 0) p) [
      | inr (e, t, r) ↦
          let failed = broker_retries-LastFailed env clock cfg fuel p t e r in
          inr (e, simp r, simp r failed)
      | inl (none, t, r) ↦
          absurd (unfinished r (broker_retries-HasEnded env clock cfg k fuel p l d))
      | inl (some u, t, r) ↦
          let (c, publish, connected, request) =
            broker_retries-IsConnected env clock cfg fuel p t r in
          inl (
            c,
            ground (arith, r, publish),
            ground (arith, r, publish),
            connected,
            ground (arith, r, publish, request),
          )
    ]
