-- ===== src/Connection/Recover.antt =====
-- Closing the connection, opening the consumer's queue, and the one retry after a failure.
use faststream_mq.Base.{Text, Bool, false, some, none, is_empty, [], if◌then◌else◌}
use faststream_mq.Exec.{
  if_some, Exec, pure, raise, gets, modify, assert_some, try_except, finally, for_some,
  ignore_errors, ◌>>=◌, ◌>>◌,
}
use faststream_mq.Native.{Env, disconnect, open_queue, close_queue, sleep, input_as_q_def}
use faststream_mq.Connection.State.{
  State, native, load_ibmmq, set_qmgr, set_consumer, set_consumer_name, set_prepared, set_executor,
}
use faststream_mq.Connection.Tls.{cleanup_prepared_tls}
use faststream_mq.Connection.Reasons.{is_reconnectable}
use faststream_mq.Connection.Connect.{connect_sync}

module _ (env : Env) where
  -- `_safe_close_consumer_sync`
  unfoldable pub safe_close_consumer_sync : Exec State (Unit {0})
  safe_close_consumer_sync = do
    q ← gets (λ s. s.conn.consumer_queue)
    for_some q
        (λ h. finally (ignore_errors (native env (close_queue h))) (modify (set_consumer none)))

  -- `_safe_disconnect_qmgr_sync`
  unfoldable pub safe_disconnect_qmgr_sync : Exec State (Unit {0})
  safe_disconnect_qmgr_sync = do
    q ← gets (λ s. s.conn.qmgr)
    for_some q (λ h. finally (ignore_errors (native env (disconnect h))) (modify (set_qmgr none)))

  -- `_disconnect_sync`
  unfoldable pub disconnect_sync : Exec State (Unit {0})
  disconnect_sync = do
    safe_close_consumer_sync
    safe_disconnect_qmgr_sync
    p ← gets (λ s. s.conn.prepared_tls)
    cleanup_prepared_tls env p
    modify (set_prepared none)

  -- `disconnect`; to shut the executor down is to have none
  unfoldable pub disconnect_connection : Exec State (Unit {0})
  disconnect_connection = do
    running ← gets (λ s. s.conn.executor)
    if running then finally disconnect_sync (modify (set_executor false)) else pure tt

  -- `__start_consumer_sync`
  unfoldable pub open_consumer : Text → Exec State (Unit {0})
  open_consumer queue_name = do
    load_ibmmq env
    safe_close_consumer_sync
    q ← gets (λ s. s.conn.qmgr)
    qmgr ← assert_some q
    h ← native env (open_queue qmgr queue_name input_as_q_def)
    modify (set_consumer (some h))
    modify (set_consumer_name queue_name)

  -- `_recover_connection_sync`
  unfoldable pub recover_connection_sync : Bool → Exec State (Unit {0})
  recover_connection_sync reopen_consumer = do
    name ← gets (λ s. s.conn.consumer_queue_name)
    let queue_name = if reopen_consumer then name else []
    safe_close_consumer_sync
    safe_disconnect_qmgr_sync
    connect_sync env
    if is_empty queue_name then pure tt else open_consumer queue_name

  -- `_run_with_reconnect_sync`
  unfoldable pub run_with_reconnect_sync : {A : Type 0} → Bool → Exec State A → Exec State A
  run_with_reconnect_sync reopen_consumer func = do
    load_ibmmq env
    first ←
        try_except (do a ← func; pure (some a))
          (λ e. if is_reconnectable env e then pure none else raise e)
    if_some first pure (do recover_connection_sync reopen_consumer; native env (sleep 200); func)
