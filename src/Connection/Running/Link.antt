-- ===== src/Connection/Running/Link.antt =====
-- Opening, closing and recovering keep a connection running.
use faststream_mq.Base.{
  ◌≡◌, Text, Bool, true, Option, none, some, arith, is_empty, [], if◌then◌else◌,
}
use faststream_mq.Errors.{Exc}
use faststream_mq.Exec.{
  Exec, assert_some, gets, pure, modify, ◌>>=◌, ◌>>◌, finally, for_some, ignore_errors,
}
use faststream_mq.Exec.Hoare.{
  Keeps, Ensures, keeps_rules, Keeps-pure, Keeps-bind, Ensures-seq, Ensures-bind, Ensures-gets,
}
use faststream_mq.Native.{Env, Cno, Cd, Sco, open_queue, input_as_q_def}
use faststream_mq.Tls.{MqTlsConfig}
use faststream_mq.Connection.State.{State, PreparedTls, native, set_consumer, set_consumer_name}
use faststream_mq.Connection.Tls.{
  prepare_tls_config, cleanup_prepared_tls, prepare_once, build_tls_options,
}
use faststream_mq.Connection.Connect.{
  build_cno, connect_qmgr, connect_try, connect_failed, restore_tls_scope, guarded_connect,
  open_connection, connect_sync,
}
use faststream_mq.Connection.Recover.{
  safe_close_consumer_sync, safe_disconnect_qmgr_sync, open_consumer, recover_connection_sync,
  run_with_reconnect_sync,
}
use faststream_mq.Connection.Running.{IsRunning, running_rules, Keeps-load}

-- a running connection whose consumer's queue is closed
pub record IsDetached (s : State) : Type 0 where
  pub started : s.conn.executor ≡ true
  pub detached : s.conn.consumer_queue ≡ none

IsDetached-IsRunning : (s : State) → IsDetached s → IsRunning s
IsDetached-IsRunning s d = record {
  started = d.started;
  attached = λ e. ground (arith, d.detached);
}

module _ (env : Env) where
  pub cleanup_prepared_tls-IsRunning :
      (tls : Option PreparedTls) → Keeps IsRunning (cleanup_prepared_tls env tls)
  unfolding cleanup_prepared_tls
  cleanup_prepared_tls-IsRunning tls = search (keeps_rules, running_rules) depth 14

  pub prepare_tls_config-IsRunning :
      (tls : Option MqTlsConfig) → Keeps IsRunning (prepare_tls_config env tls)
  unfolding prepare_tls_config
  prepare_tls_config-IsRunning none = Keeps-pure none
  prepare_tls_config-IsRunning (some tls) = search (keeps_rules, running_rules) depth 14

  pub prepare_once-IsRunning : Keeps IsRunning (prepare_once env)
  unfolding prepare_once
  prepare_once-IsRunning =
      search (keeps_rules, running_rules, prepare_tls_config-IsRunning) depth 14

  pub build_tls_options-IsRunning : Keeps IsRunning (build_tls_options env)
  unfolding build_tls_options
  build_tls_options-IsRunning = search (keeps_rules, running_rules, prepare_once-IsRunning) depth 14

  pub build_cno-IsRunning : Keeps IsRunning (build_cno env)
  unfolding build_cno
  build_cno-IsRunning = search (keeps_rules, running_rules) depth 14

  pub connect_qmgr-IsRunning :
      (cno : Cno) (cd : Cd) (sco : Option Sco) → Keeps IsRunning (connect_qmgr env cno cd sco)
  unfolding connect_qmgr
  connect_qmgr-IsRunning cno cd sco = search (keeps_rules, running_rules) depth 14

  pub connect_try-IsRunning :
      (cno : Cno) (cd : Cd) (sco : Option Sco) → Keeps IsRunning (connect_try env cno cd sco)
  unfolding connect_try
  connect_try-IsRunning cno cd sco =
      search (keeps_rules, running_rules, connect_qmgr-IsRunning) depth 14

  pub connect_failed-IsRunning : (e : Exc) → Keeps IsRunning (connect_failed env e)
  unfolding connect_failed
  connect_failed-IsRunning e =
      search (keeps_rules, running_rules, cleanup_prepared_tls-IsRunning) depth 14

  pub restore_tls_scope-IsRunning :
      (old : Option Text) → Keeps IsRunning (restore_tls_scope env old)
  unfolding restore_tls_scope
  restore_tls_scope-IsRunning old = search (keeps_rules, running_rules) depth 14

  pub guarded_connect-IsRunning :
      (cno : Cno) (cd : Cd) (sco : Option Sco) → Keeps (IsRunning) (guarded_connect env cno cd sco)
  unfolding guarded_connect
  guarded_connect-IsRunning cno cd sco =
      search
        (
          keeps_rules, running_rules, connect_try-IsRunning, connect_failed-IsRunning,
          restore_tls_scope-IsRunning,
        )
        depth 14

  pub open_connection-IsRunning : Keeps (IsRunning) (open_connection env)
  unfolding open_connection
  open_connection-IsRunning =
      search
        (
          keeps_rules, running_rules, build_cno-IsRunning, build_tls_options-IsRunning,
          guarded_connect-IsRunning,
        )
        depth 14

  pub connect_sync-IsRunning : Keeps IsRunning (connect_sync env)
  unfolding connect_sync
  connect_sync-IsRunning = search (keeps_rules, running_rules, open_connection-IsRunning) depth 14

  pub safe_close_consumer_sync-IsDetached :
      Ensures IsRunning (safe_close_consumer_sync env) (λ r s. IsDetached s)
  unfolding safe_close_consumer_sync ◌>>=◌ finally for_some ignore_errors native modify
  safe_close_consumer_sync-IsDetached = record { at = λ s h. ground (arith, h.started) }

  safe_disconnect_qmgr_sync-IsDetached : Keeps IsDetached (safe_disconnect_qmgr_sync env)
  unfolding safe_disconnect_qmgr_sync ◌>>=◌ finally for_some ignore_errors native modify
  safe_disconnect_qmgr_sync-IsDetached = record {
    at = λ s h. ground (arith, h.started, h.detached);
  }

  pub safe_close_consumer_sync-IsRunning : Keeps IsRunning (safe_close_consumer_sync env)
  safe_close_consumer_sync-IsRunning = record {
    at = λ s h. IsDetached-IsRunning _ (safe_close_consumer_sync-IsDetached.at s h);
  }

  pub open_consumer-IsRunning : (name : Text) → Keeps IsRunning (open_consumer env name)
  unfolding open_consumer
  open_consumer-IsRunning name =
      Keeps-bind _ _ (Keeps-load env)
        (λ u. Keeps-bind _ _ safe_close_consumer_sync-IsRunning opened)
    where
      opened :
          Unit {0}
          → Keeps IsRunning (do
            q ← gets (λ s. s.conn.qmgr)
            qmgr ← assert_some q
            h ← native env (open_queue qmgr name input_as_q_def)
            modify (set_consumer (some h))
            modify (set_consumer_name name))
      opened u = unfold ◌>>=◌ native modify in record { at = λ s h. ground (arith, h.started) }

  recover_connection_sync-ensures :
      (reopen : Bool) → Ensures IsRunning (recover_connection_sync env reopen) (λ r s. IsRunning s)
  unfolding recover_connection_sync
  recover_connection_sync-ensures reopen = Ensures-gets _ _ (λ name.
      Ensures-seq {Q = λ r s. IsDetached s} _ _ safe_close_consumer_sync-IsDetached
        (λ e. IsDetached-IsRunning)
        (λ u.
          Ensures-bind _ _ safe_disconnect_qmgr_sync-IsDetached (λ e. IsDetached-IsRunning)
            (λ v. record { at = λ s d. (reconnected name).at s (IsDetached-IsRunning s d) })))
    where
      reconnected :
          (name : Text)
          → Keeps IsRunning (
              connect_sync env
              >> (if is_empty (if reopen then name else [])
                  then pure tt
                  else open_consumer env (if reopen then name else [])))
      reconnected name = search (keeps_rules, connect_sync-IsRunning, open_consumer-IsRunning)

  pub recover_connection_sync-IsRunning :
      (reopen : Bool) → Keeps IsRunning (recover_connection_sync env reopen)
  recover_connection_sync-IsRunning reopen = record {
    at = (recover_connection_sync-ensures reopen).at;
  }

  pub run_with_reconnect_sync-IsRunning :
      {A : Type 0} (reopen : Bool) (func : Exec State A)
      → Keeps IsRunning func
      → Keeps IsRunning (run_with_reconnect_sync env reopen func)
  unfolding run_with_reconnect_sync
  run_with_reconnect_sync-IsRunning reopen func kf =
      search (keeps_rules, running_rules, recover_connection_sync-IsRunning) depth 14
