-- ===== src/Subscriber/Tests.antt =====
-- The laws of settlement and of the start-up, on a broker that counts the calls it gets.
use faststream_mq.Base.{
  ℕ, suc, ◌*◌, ◌≡◌, refl, true, false, Option, none, some, [], ◌∷◌, arith, codes, text_eq, ap,
}
use faststream_mq.Errors.{ok, stop_consume, nack_message}
use faststream_mq.Values.{pos}
use faststream_mq.Exec.{gets, modify, when, finally, ◌>>=◌}
use faststream_mq.Connection.Message.{AckStatus, acked, nacked, raw_message}
use faststream_mq.Exec.{Exec}
use faststream_mq.Errors.{err, mqmi_error}
use faststream_mq.Native.{Env, failed, mqmi_fault}
use faststream_mq.Connection.State.{State, load_ibmmq, native}
use faststream_mq.Connection.Connect.{
  connect, connect_sync, open_connection, build_cno, guarded_connect, connect_try, connect_qmgr,
  connect_failed, restore_tls_scope,
}
use faststream_mq.Connection.Tls.{
  build_tls_options, cleanup_prepared_tls, prepare_once, prepare_tls_config,
}
use faststream_mq.Exec.{finally_with, if_some, for_some}
use faststream_mq.Producer.Lifecycle.{disconnect_connection-ok}
use faststream_mq.Connection.Consume.{start_consumer_sync}
use faststream_mq.Connection.Api.{on_executor}
use faststream_mq.Connection.Reasons.{
  cd_reconnect_default, cno_reconnect_option, is_retryable_mq_exception, is_reconnectable_reason,
}
use faststream_mq.Connection.Recover.{
  run_with_reconnect_sync, open_consumer, disconnect_connection, disconnect_sync,
  safe_close_consumer_sync, safe_disconnect_qmgr_sync,
}
use faststream_mq.Connection.Tests.{sample_env, idle_state, received_message}
use faststream_mq.Exec.Deadline.{HasEnded, Recovers, failing, at_last}
use faststream_mq.Subscriber.{
  MqAcknowledger, StreamMessage, Session, reject_on_error, manual, message_ack,
  wait_for_broker_settle, settle_message, shielded, settle_unresolved_message, should_commit,
}
use faststream_mq.Subscriber.Once.{
  settled-once, by_method, unresolved, ack_method, nack_method, run_settlements,
}
use faststream_mq.Subscriber.Settle.{settle_unresolved_message-settles, settled_session}
use faststream_mq.Subscriber.Startup.{
  startup_connect_consumer, startup_connect_consumer-terminates, startup_connect_consumer-Recovers,
  startup_attempt,
}

-- commits and backouts
abbrev pub counting : MqAcknowledger (ℕ × ℕ)
counting = record { commit = λ s. (ok tt, (suc s.0, s.1)); backout = λ s. (ok tt, (s.0, suc s.1)) }

abbrev acked_or : Option AckStatus → Option AckStatus
acked_or none = some acked
acked_or (some v) = some v

abbrev nacked_or : Option AckStatus → Option AckStatus
nacked_or none = some nacked
nacked_or (some v) = some v

abbrev pub first_status : StreamMessage
first_status = record { ack = acked_or; nack = nacked_or }

abbrev fresh : Session (ℕ × ℕ)
fresh = record { broker = (0, 0); raw = received_message; committed = none }

abbrev after_ack : Session (ℕ × ℕ)
after_ack = record {
  broker = (1, 0);
  raw = record received_message { settled = some acked; settled_event = true };
  committed = some acked;
}

acked_fresh : message_ack counting first_status true fresh ≡ (ok tt, after_ack)
unfolding message_ack settle_message wait_for_broker_settle ◌>>=◌ gets when modify finally shielded
    raw_message
acked_fresh = refl

settled-once_example :
    ((run_settlements counting first_status
        (by_method (nack_method false) ∷ unresolved true manual nack_message ∷ [])
        after_ack).broker
      ≡ (1, 0))
    × ((u : AckStatus) × (some acked ≡ some u)
        × ((run_settlements counting first_status
              (by_method (nack_method false) ∷ unresolved true manual nack_message ∷ [])
              after_ack).raw.settled
            ≡ some u))
settled-once_example =
    settled-once counting first_status acked nacked refl refl (λ u. refl) (λ u. refl)
      (ack_method true) (by_method (nack_method false) ∷ unresolved true manual nack_message ∷ [])
      fresh after_ack acked_fresh

settle_unresolved_message-settles_example :
    settle_unresolved_message counting first_status false reject_on_error stop_consume fresh
    ≡ (ok tt, settled_session false (ok tt) acked (record fresh { broker = (1, 0) }))
unfolding should_commit raw_message
settle_unresolved_message-settles_example =
    settle_unresolved_message-settles counting first_status reject_on_error stop_consume fresh false
      refl refl refl

-- a clock that moves on by two seconds between two attempts
abbrev slow_clock : ℕ → ℕ
slow_clock n = n * 2000000

startup_connect_consumer-terminates_example :
    HasEnded
      (startup_connect_consumer sample_env slow_clock
        (pos 3000000)
        (codes "DEV.QUEUE.1")
        2
        0
        idle_state).0
startup_connect_consumer-terminates_example =
    startup_connect_consumer-terminates sample_env slow_clock (pos 3000000) (codes "DEV.QUEUE.1") 1
      2 0 idle_state (omega arith) refl

-- a library that cannot reach the host at its first call
abbrev flaky_env : Env
flaky_env = record sample_env {
  answer =
      λ log c. elim log [ [] ↦ failed (mqmi_fault 2538 0) | e ∷ es ↦ sample_env.answer (e ∷ es) c ];
}

abbrev attempt : Exec State (Unit {0})
attempt = startup_attempt flaky_env slow_clock (pos 3000000) (codes "DEV.QUEUE.1")

abbrev between : Exec State (Unit {0})
between = disconnect_connection flaky_env

first_fails : attempt idle_state ≡ (err (mqmi_error 2538 0), (attempt idle_state).1)
unfolding startup_attempt connect ◌>>=◌ modify connect_sync open_connection load_ibmmq build_cno
    build_tls_options guarded_connect connect_try connect_qmgr connect_failed restore_tls_scope
    native cd_reconnect_default finally_with cno_reconnect_option prepare_once prepare_tls_config
    finally when text_eq if_some for_some cleanup_prepared_tls
first_fails = refl

abbrev disconnected : State
disconnected = (between (attempt idle_state).1).1

disconnects : between (attempt idle_state).1 ≡ (ok tt, disconnected)
disconnects =
    ap (λ r. (r, disconnected)) (disconnect_connection-ok flaky_env (attempt idle_state).1)

then_connects : attempt disconnected ≡ (ok tt, (attempt disconnected).1)
unfolding startup_attempt connect ◌>>=◌ modify connect_sync open_connection load_ibmmq build_cno
    build_tls_options guarded_connect connect_try connect_qmgr connect_failed restore_tls_scope
    native cd_reconnect_default finally_with cno_reconnect_option prepare_once prepare_tls_config
    finally when text_eq if_some for_some cleanup_prepared_tls disconnect_connection disconnect_sync
    safe_close_consumer_sync safe_disconnect_qmgr_sync start_consumer_sync on_executor
    run_with_reconnect_sync open_consumer
then_connects = refl

recovers :
    Recovers
      (is_retryable_mq_exception flaky_env)
      slow_clock
      (pos 3000000)
      attempt
      between
      1
      0
      idle_state
      (attempt disconnected).1
unfolding is_retryable_mq_exception is_reconnectable_reason
recovers = failing (mqmi_error 2538 0) first_fails refl refl disconnects (at_last then_connects)

startup_connect_consumer-Recovers_example :
    startup_connect_consumer flaky_env slow_clock (pos 3000000) (codes "DEV.QUEUE.1") 2 0 idle_state
    ≡ (ok (some tt), (attempt disconnected).1)
startup_connect_consumer-Recovers_example =
    startup_connect_consumer-Recovers flaky_env slow_clock (pos 3000000) (codes "DEV.QUEUE.1") 1 2 0
      idle_state (attempt disconnected).1 recovers (omega arith)
