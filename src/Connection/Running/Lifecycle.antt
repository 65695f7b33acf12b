-- ===== src/Connection/Running/Lifecycle.antt =====
-- What holds of a connection between two calls of its methods.
use faststream_mq.Base.{◌≡◌, refl, Bool, true, false, none, arith, is_some, if◌then◌else◌}
use faststream_mq.Errors.{Result, ok, assertion_error}
use faststream_mq.Exec.{
  Exec, pure, raise, modify, ◌>>=◌, finally, for_some, ignore_errors, try_except,
}
use faststream_mq.Exec.Hoare.{Keeps, Keeps-try_except, Keeps-pure}
use faststream_mq.Native.{Env}
use faststream_mq.Connection.State.{State, native, set_executor}
use faststream_mq.Connection.Tls.{cleanup_prepared_tls}
use faststream_mq.Connection.Connect.{connect}
use faststream_mq.Connection.Recover.{
  disconnect_connection, disconnect_sync, safe_close_consumer_sync, safe_disconnect_qmgr_sync,
}
use faststream_mq.Connection.Consume.{ping, ping_sync}
use faststream_mq.Connection.Api.{
  on_executor, if_started, Step, connect_step, disconnect_step, ping_step, commit_step,
  backout_step, start_consumer_step, stop_consumer_step, get_message_step, publish_step,
  request_step, Reach, here, next,
}
use faststream_mq.Connection.Running.{IsRunning}
use faststream_mq.Connection.Running.Link.{connect_sync-IsRunning}
use faststream_mq.Connection.Running.Traffic.{
  ping_sync-IsRunning, commit_sync-IsRunning, backout_sync-IsRunning, start_consumer_sync-IsRunning,
  stop_consumer_sync-IsRunning, get_message_sync-IsRunning,
}
use faststream_mq.Connection.Running.Publish.{publish_sync-IsRunning, request_sync-IsRunning}

-- A connection that is not started holds neither a queue manager nor a queue nor prepared TLS
-- settings; one that is started may hold its consumer's queue only with a queue manager.
pub record IsSound (s : State) : Type 0 where
  pub idle :
      s.conn.executor ≡ false
      → (s.conn.qmgr ≡ none) × (s.conn.consumer_queue ≡ none) × (s.conn.prepared_tls ≡ none)
  pub attached : is_some s.conn.consumer_queue ≡ true → is_some s.conn.qmgr ≡ true

IsRunning-IsSound : (s : State) → IsRunning s → IsSound s
IsRunning-IsSound s r = record { idle = λ e. ground (arith, r.started, e); attached = r.attached }

IsSound-IsRunning : (s : State) → IsSound s → s.conn.executor ≡ true → IsRunning s
IsSound-IsRunning s h e = record { started = e; attached = h.attached }

on_executor-IsSound :
    {A : Type 0} (m : Exec State A) (s : State)
    → Keeps IsRunning m
    → IsSound s
    → IsSound (on_executor m s).1
unfolding on_executor ◌>>=◌
on_executor-IsSound {A} m s km h = go s.conn.executor refl
  where
    go :
        (b : Bool)
        → s.conn.executor ≡ b
        → IsSound ((if b then m else raise {A = A} assertion_error) s).1
    go true e = IsRunning-IsSound _ (km.at s (IsSound-IsRunning s h e))
    go false e = unfold raise in h

if_started-IsSound :
    (m : Exec State (Unit {0})) (s : State)
    → Keeps IsRunning m
    → IsSound s
    → IsSound (if_started m s).1
unfolding if_started ◌>>=◌
if_started-IsSound m s km h = go s.conn.executor refl
  where
    go : (b : Bool) → s.conn.executor ≡ b → IsSound ((if b then m else pure tt) s).1
    go true e = IsRunning-IsSound _ (km.at s (IsSound-IsRunning s h e))
    go false e = unfold pure in h

ping-IsSound : (env : Env) (s : State) → IsSound s → IsSound (ping env s).1
unfolding ping ◌>>=◌
ping-IsSound env s h = go s.conn.executor refl
  where
    go :
        (b : Bool)
        → s.conn.executor ≡ b
        → IsSound ((if b then try_except (ping_sync env) (λ e. pure false) else pure false) s).1
    go true e = IsRunning-IsSound _ (
        (Keeps-try_except _ _ (ping_sync-IsRunning env) (λ e. Keeps-pure false)).at s
          (IsSound-IsRunning s h e))
    go false e = unfold pure in h

connect-IsSound : (env : Env) (s : State) → IsSound s → IsSound (connect env s).1
unfolding connect ◌>>=◌ modify
connect-IsSound env s h =
    IsRunning-IsSound _
      ((connect_sync-IsRunning env).at _ (record { started = refl; attached = h.attached }))

-- a connection with nothing left to close
abbrev IsCleared : Result (Unit {0}) × State → Type 0
IsCleared (r, s) =
    (r ≡ ok tt)
    × (s.conn.executor ≡ false)
    × (s.conn.qmgr ≡ none)
    × (s.conn.consumer_queue ≡ none)
    × (s.conn.prepared_tls ≡ none)

disconnect_sync-IsCleared :
    (env : Env) (s : State)
    → IsCleared (finally (disconnect_sync env) (modify (set_executor false)) s)
unfolding disconnect_sync safe_close_consumer_sync safe_disconnect_qmgr_sync cleanup_prepared_tls
    ◌>>=◌ finally for_some ignore_errors native modify
disconnect_sync-IsCleared env s = ground arith

-- `disconnect` raises nothing, whatever the library does while it closes, and leaves a connection
-- with neither an executor nor a queue manager, a queue or prepared TLS settings.
pub disconnect_connection-clears :
    (env : Env) (s : State)
    → IsSound s
    → let (r, s') = disconnect_connection env s in
      (r ≡ ok tt)
      × (s'.conn.executor ≡ false)
      × (s'.conn.qmgr ≡ none)
      × (s'.conn.consumer_queue ≡ none)
      × (s'.conn.prepared_tls ≡ none)
unfolding disconnect_connection ◌>>=◌
disconnect_connection-clears env s h = go s.conn.executor refl
  where
    go :
        (b : Bool)
        → s.conn.executor ≡ b
        → IsCleared
            ((if b then finally (disconnect_sync env) (modify (set_executor false)) else pure tt) s)
    go true e = disconnect_sync-IsCleared env s
    go false e = unfold pure in (refl, e, (h.idle e).0, (h.idle e).1, (h.idle e).2)

disconnect_connection-IsSound :
    (env : Env) (s : State) → IsSound s → IsSound (disconnect_connection env s).1
disconnect_connection-IsSound env s h =
    let c = disconnect_connection-clears env s h in
    record { idle = λ e. (c.2, c.3, c.4); attached = λ e. ground (arith, c.3, e) }

Step-IsSound : {env : Env} {s t : State} → Step env s t → IsSound s → IsSound t
Step-IsSound {env} (connect_step s) h = connect-IsSound env s h
Step-IsSound {env} (disconnect_step s) h = disconnect_connection-IsSound env s h
Step-IsSound {env} (ping_step s) h = ping-IsSound env s h
Step-IsSound {env} (commit_step s) h = on_executor-IsSound _ s (commit_sync-IsRunning env) h
Step-IsSound {env} (backout_step s) h = on_executor-IsSound _ s (backout_sync-IsRunning env) h
Step-IsSound {env} (start_consumer_step name s) h =
    on_executor-IsSound _ s (start_consumer_sync-IsRunning env name) h
Step-IsSound {env} (stop_consumer_step s) h =
    if_started-IsSound _ s (stop_consumer_sync-IsRunning env) h
Step-IsSound {env} (get_message_step fuel timeout max s) h =
    on_executor-IsSound _ s (get_message_sync-IsRunning env fuel timeout max) h
Step-IsSound {env} (publish_step cmd s) h =
    on_executor-IsSound _ s (publish_sync-IsRunning env cmd) h
Step-IsSound {env} (request_step fuel cmd s) h =
    on_executor-IsSound _ s (request_sync-IsRunning env fuel cmd) h

-- After any sequence of method calls, returned or raised, a connection that started sound is sound:
-- its consumer's queue is open only while it has a queue manager, and without an executor it holds
-- nothing.
pub Reach-IsSound : {env : Env} {s t : State} → IsSound s → Reach env s t → IsSound t
Reach-IsSound h here = h
Reach-IsSound h (next r st) = Step-IsSound st (Reach-IsSound h r)
