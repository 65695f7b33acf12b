-- ===== src/Connection/Retry.antt =====
-- `_run_with_reconnect_sync`: one retry, on a recovered connection, after a reconnectable failure.
use faststream_mq.Base.{◌≡◌, refl, sym, subst, Bool, true, false, ◌∷◌, arith, inl, inr, Bool-cases}
use faststream_mq.Errors.{Exc, Result, ok, err}
use faststream_mq.Exec.{Exec, if_some, ◌>>=◌}
use faststream_mq.Native.{Env, sleep, event, answered, failed, Fault, Reply}
use faststream_mq.Connection.State.{State, native, load_ibmmq, exc_of}
use faststream_mq.Connection.Reasons.{is_reconnectable}
use faststream_mq.Connection.Recover.{run_with_reconnect_sync, recover_connection_sync}

-- the state after the pause before the second call
abbrev pub paused : State → Reply (Unit {0}) → State
paused u r = record u { log = event (sleep 200) r ∷ u.log }

-- The outcomes that a call with one retry may have, from the state `s`.
pub data Retried {A : Type 0} (env : Env) (reopen : Bool) (func : Exec State A) (s : State)
    : Result A × State → Type 0 where
  -- the call returned: it was made once
  at_once : (a : A) (t : State) → func s ≡ (ok a, t) → Retried env reopen func s (ok a, t)
  -- it raised, and a new connection would not help: it was made once
  final :
      (e : Exc) (t : State)
      → func s ≡ (err e, t)
      → is_reconnectable env e ≡ false
      → Retried env reopen func s (err e, t)
  -- the connection is lost, and cannot be recovered
  lost :
      (e f : Exc) (t u : State)
      → func s ≡ (err e, t)
      → is_reconnectable env e ≡ true
      → recover_connection_sync env reopen t ≡ (err f, u)
      → Retried env reopen func s (err f, u)
  -- the pause after the recovery is broken off
  interrupted :
      (e : Exc) (f : Fault) (t u : State)
      → func s ≡ (err e, t)
      → is_reconnectable env e ≡ true
      → recover_connection_sync env reopen t ≡ (ok tt, u)
      → env.answer u.log (sleep 200) ≡ failed f
      → Retried env reopen func s (err (exc_of f), paused u (failed f))
  -- a second call on the recovered connection decides
  again :
      (e : Exc) (t u : State)
      → func s ≡ (err e, t)
      → is_reconnectable env e ≡ true
      → recover_connection_sync env reopen t ≡ (ok tt, u)
      → env.answer u.log (sleep 200) ≡ answered tt
      → Retried env reopen func s (func (paused u (answered tt)))

module _ {A : Type 0} (env : Env) (reopen : Bool) (func : Exec State A) (s : State)
    (loaded : env.available ≡ true) where
  lost-run :
      (e f : Exc) (t u : State)
      → func s ≡ (err e, t)
      → is_reconnectable env e ≡ true
      → recover_connection_sync env reopen t ≡ (err f, u)
      → run_with_reconnect_sync env reopen func s ≡ (err f, u)
  unfolding run_with_reconnect_sync ◌>>=◌ load_ibmmq if_some native
  lost-run e f t u h y r = ground arith

  interrupted-run :
      (e : Exc) (f : Fault) (t u : State)
      → func s ≡ (err e, t)
      → is_reconnectable env e ≡ true
      → recover_connection_sync env reopen t ≡ (ok tt, u)
      → env.answer u.log (sleep 200) ≡ failed f
      → run_with_reconnect_sync env reopen func s ≡ (err (exc_of f), paused u (failed f))
  unfolding run_with_reconnect_sync ◌>>=◌ load_ibmmq if_some native
  interrupted-run e f t u h y r w = ground arith

  again-run :
      (e : Exc) (t u : State)
      → func s ≡ (err e, t)
      → is_reconnectable env e ≡ true
      → recover_connection_sync env reopen t ≡ (ok tt, u)
      → env.answer u.log (sleep 200) ≡ answered tt
      → run_with_reconnect_sync env reopen func s ≡ func (paused u (answered tt))
  unfolding run_with_reconnect_sync ◌>>=◌ load_ibmmq if_some native
  again-run e t u h y r w = ground arith

  at_once-run :
      (a : A) (t : State)
      → func s ≡ (ok a, t)
      → run_with_reconnect_sync env reopen func s ≡ (ok a, t)
  unfolding run_with_reconnect_sync ◌>>=◌ load_ibmmq if_some native
  at_once-run a t h = ground arith

  final-run :
      (e : Exc) (t : State)
      → func s ≡ (err e, t)
      → is_reconnectable env e ≡ false
      → run_with_reconnect_sync env reopen func s ≡ (err e, t)
  unfolding run_with_reconnect_sync ◌>>=◌ load_ibmmq if_some native
  final-run e t h n = ground arith

  abbrev IsRetried : Result A × State → Type 0
  IsRetried = Retried env reopen func s

  after_sleep :
      (e : Exc) (t u : State) (r : Reply (Unit {0}))
      → func s ≡ (err e, t)
      → is_reconnectable env e ≡ true
      → recover_connection_sync env reopen t ≡ (ok tt, u)
      → env.answer u.log (sleep 200) ≡ r
      → IsRetried (run_with_reconnect_sync env reopen func s)
  after_sleep e t u (answered v) h y r w =
      subst IsRetried (sym (again-run e t u h y r w)) (again e t u h y r w)
  after_sleep e t u (failed f) h y r w =
      subst IsRetried (sym (interrupted-run e f t u h y r w)) (interrupted e f t u h y r w)

  after_recovery :
      (e : Exc) (t : State) (o : Result (Unit {0}) × State)
      → func s ≡ (err e, t)
      → is_reconnectable env e ≡ true
      → recover_connection_sync env reopen t ≡ o
      → IsRetried (run_with_reconnect_sync env reopen func s)
  after_recovery e t (ok v, u) h y r = after_sleep e t u _ h y r refl
  after_recovery e t (err f, u) h y r =
      subst IsRetried (sym (lost-run e f t u h y r)) (lost e f t u h y r)

  after_call :
      (o : Result A × State) → func s ≡ o → IsRetried (run_with_reconnect_sync env reopen func s)
  after_call (ok a, t) h = subst IsRetried (sym (at_once-run a t h)) (at_once a t h)
  after_call (err e, t) h = elim (Bool-cases (is_reconnectable env e)) [
    | inl y ↦ after_recovery e t _ h y refl
    | inr n ↦ subst IsRetried (sym (final-run e t h n)) (final e t h n)
  ]

  -- Where the runtime can be loaded, a call under `_run_with_reconnect_sync` that returns, or that
  -- raises what is not reconnectable, is made once and is the whole outcome. After a reconnectable
  -- exception the connection is recovered: if that raises, its exception is the outcome, and the
  -- call is not made again; otherwise, after a pause, the outcome is that of one second call on the
  -- recovered connection, whatever it is.
  pub run_with_reconnect_sync-Retried :
      Retried env reopen func s (run_with_reconnect_sync env reopen func s)
  run_with_reconnect_sync-Retried = after_call (func s) refl
