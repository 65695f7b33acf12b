-- ===== src/Producer/Lifecycle.antt =====
-- The end of a producer of publisher/producer.py.
use faststream_mq.Base.{◌≡◌, none, arith, Option-cases, inl, inr}
use faststream_mq.Errors.{ok}
use faststream_mq.Exec.{modify, for_some, ◌>>=◌, finally, ignore_errors}
use faststream_mq.Native.{Env}
use faststream_mq.Connection.State.{State, native}
use faststream_mq.Connection.Tls.{cleanup_prepared_tls}
use faststream_mq.Connection.Recover.{
  disconnect_connection, disconnect_sync, safe_close_consumer_sync, safe_disconnect_qmgr_sync,
}
use faststream_mq.Producer.{Producer, producer_disconnect, on_connection, state_of}

pub disconnect_connection-ok : (env : Env) (s : State) → (disconnect_connection env s).0 ≡ ok tt
unfolding disconnect_connection disconnect_sync safe_close_consumer_sync safe_disconnect_qmgr_sync
    cleanup_prepared_tls ◌>>=◌ finally for_some ignore_errors native modify
disconnect_connection-ok env s = ground arith

-- `disconnect` of a producer returns, whatever the library does while the connections close, and
-- the producer is as it was before its first `connect`: with no connection and no configuration.
pub producer_disconnect-clears :
    (env : Env) (p : Producer)
    → let (r, q) = producer_disconnect env p in
      (r ≡ ok tt)
      × (q.publish_connection ≡ none)
      × (q.request_connection ≡ none)
      × (q.connection_config ≡ none)
unfolding producer_disconnect on_connection for_some modify ◌>>=◌
producer_disconnect-clears env p = elim (Option-cases p.publish_connection) [
  | inl n ↦ elim (Option-cases p.request_connection) [
    | inl m ↦ ground arith
    | inr (d, m) ↦ let h = disconnect_connection-ok env (state_of p d) in ground arith
  ]
  | inr (c, n) ↦
      let h = disconnect_connection-ok env (state_of p c) in
      elim (Option-cases p.request_connection) [
        | inl m ↦ ground arith
        | inr (d, m) ↦
            let t = (disconnect_connection env (state_of p c)).1 in
            let k =
              disconnect_connection-ok env
                (record { conn = d; log = t.log; amq_tls_scope = t.amq_tls_scope }) in
            ground arith
      ]
]
