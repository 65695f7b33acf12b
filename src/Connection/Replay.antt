-- ===== src/Connection/Replay.antt =====
-- How often one call of `publish` puts its message: `_run_with_reconnect_sync` may replay it once.
use faststream_mq.Base.{◌≡◌, refl, ◌+◌, ◌≤◌, arith, true, inl, inr, Bool-cases}
use faststream_mq.Errors.{Exc, Result, ok, err}
use faststream_mq.Exec.{◌>>=◌}
use faststream_mq.Exec.Hoare.{Ensures-gets}
use faststream_mq.Native.{Env, answered}
use faststream_mq.Command.{MqPublishCommand}
use faststream_mq.Connection.State.{State, load_ibmmq}
use faststream_mq.Connection.Log.{Count, total, put_done}
use faststream_mq.Connection.Posts.{AtMostOne, AtMostOne-Requested, Keeps-AtMostOne}
use faststream_mq.Connection.Harmless.{counting}
use faststream_mq.Connection.Puts.{recover_connection_sync-Keeps}
use faststream_mq.Connection.Publish.{publish_once, publish_sync}
use faststream_mq.Connection.Consume.{has_consumer_name}
use faststream_mq.Connection.Reasons.{is_reconnectable}
use faststream_mq.Connection.Recover.{recover_connection_sync, run_with_reconnect_sync}
use faststream_mq.Connection.Retry.{
  Retried, at_once, final, lost, interrupted, again, paused, run_with_reconnect_sync-Retried,
}
use faststream_mq.Connection.Twice.{
  PutsTwiceAtMost, publish_once-Requested, run_with_reconnect_sync-PutsTwice,
}

-- One message at most was put; or two may have been, and then the first call raised an exception of a
-- lost connection, the connection was recovered, and the call was made once more after the pause.
pub data Replays (env : Env) (cmd : MqPublishCommand) (s : State)
    : Result (Unit {0}) → State → Type 0 where
  at_most_once :
      {r : Result (Unit {0})} {t : State}
      → total put_done t.log ≤ total put_done s.log + 1
      → Replays env cmd s r t
  replayed :
      {r : Result (Unit {0})} {v : State} (e : Exc) (t u : State)
      → publish_once env cmd s ≡ (err e, t)
      → is_reconnectable env e ≡ true
      → recover_connection_sync env (has_consumer_name s) t ≡ (ok tt, u)
      → publish_once env cmd (paused u (answered tt)) ≡ (r, v)
      → Replays env cmd s r v

module _ (env : Env) (cmd : MqPublishCommand) (s : State) where
  once_called :
      (r : Result (Unit {0})) (t : State)
      → publish_once env cmd s ≡ (r, t)
      → AtMostOne (total put_done s.log) t
  once_called r t h =
      AtMostOne-Requested _ r t
        (simp h at ((publish_once-Requested env _ cmd).at s (record { is = refl })))

  recovered :
      (e : Exc) (t : State) (r : Result (Unit {0})) (u : State)
      → publish_once env cmd s ≡ (err e, t)
      → recover_connection_sync env (has_consumer_name s) t ≡ (r, u)
      → AtMostOne (total put_done s.log) u
  recovered e t r u h k = simp k at (
      (Keeps-AtMostOne _ _
          (λ n. recover_connection_sync-Keeps env (counting env n) (has_consumer_name s))).at
        t (once_called (err e) t h))

  Retried-Replays :
      (o : Result (Unit {0}) × State)
      → Retried env (has_consumer_name s) (publish_once env cmd) s o
      → Replays env cmd s o.0 o.1
  Retried-Replays _ (at_once a t h) = at_most_once (omega (arith, (once_called (ok a) t h).upper))
  Retried-Replays _ (final e t h f) = at_most_once (omega (arith, (once_called (err e) t h).upper))
  Retried-Replays _ (lost e f t u h y r) =
      at_most_once (omega (arith, (recovered e t (err f) u h r).upper))
  Retried-Replays _ (interrupted e f t u h y r k) =
      at_most_once (omega (arith, (recovered e t (ok tt) u h r).upper))
  Retried-Replays _ (again e t u h y r k) = replayed e t u h y r refl

  publish_sync-Replays : Replays env cmd s (publish_sync env cmd s).0 (publish_sync env cmd s).1
  unfolding publish_sync ◌>>=◌ run_with_reconnect_sync load_ibmmq
  publish_sync-Replays = elim (Bool-cases env.available) [
    | inl y ↦ Retried-Replays _ (run_with_reconnect_sync-Retried env _ (publish_once env cmd) s y)
    | inr n ↦ simp n (at_most_once (omega arith))
  ]

-- However the library answers, one call of `publish` puts its message at most twice, and at least
-- once if it returns. It is put once at most, unless the first call raised an exception of a lost
-- connection and the connection was recovered: then the call is made once more, and the publication
-- ends as that second call does.
pub publish_sync-PutsTwiceAtMost :
    (env : Env) (cmd : MqPublishCommand) (s : State)
    → let (r, t) = publish_sync env cmd s in
      PutsTwiceAtMost (total put_done s.log) r t × Replays env cmd s r t
unfolding publish_sync
publish_sync-PutsTwiceAtMost env cmd s = (
  (Ensures-gets {P = Count put_done (total put_done s.log)} _ _
        (λ reopen. run_with_reconnect_sync-PutsTwice env _ reopen cmd)).at
      s (record { is = refl }),
  publish_sync-Replays env cmd s,
)
