-- ===== src/Connection/Connect.antt =====
-- `AsyncMQConnection.connect`: the options, the two ways to connect, and what a failure undoes.
use faststream_mq.Base.{ℕ, Text, true, Option, some, none, is_some, ◌||◌, if◌then◌else◌}
use faststream_mq.Errors.{Exc}
use faststream_mq.Exec.{
  Exec, pure, raise, lift, gets, modify, assert_some, try_except, finally, for_some, ◌>>=◌, ◌>>◌,
}
use faststream_mq.Native.{Env, connect_with_options, connect_tcp_client, Cd, Sco, Cno}
use faststream_mq.Connection.State.{
  State, native, load_ibmmq, set_qmgr, set_prepared, set_executor, set_tls_scope, is_set,
  PreparedTls, ConnectionConfig,
}
use faststream_mq.Connection.Tls.{build_tls_options, cleanup_prepared_tls}
use faststream_mq.Connection.Reasons.{cno_reconnect_option, cd_reconnect_default}

abbrev with_ccdt_url : ConnectionConfig → ℕ → Cno
with_ccdt_url cfg options = record {
  options = options;
  ccdt_url = if is_set cfg.ccdt_url then cfg.ccdt_url else none;
}

-- `if cd.SSLCipherSpec or cd.SSLPeerNamePtr: kwargs["cd"] = cd`
abbrev cd_keyword : Cd → Option Cd
cd_keyword cd = if is_set cd.ssl_cipher_spec || is_set cd.ssl_peer_name then some cd else none

abbrev with_default : Cd → Option ℕ → Cd
with_default cd none = cd
with_default cd (some d) = record cd { def_reconnect = some d }

-- the environment scope that the prepared settings ask for, if it is not empty
abbrev pub wanted_scope : Option PreparedTls → Option Text
wanted_scope none = none
wanted_scope (some p) = if is_set p.environment_scope then p.environment_scope else none

module _ (env : Env) where
  -- `_build_cno`
  unfoldable pub build_cno : Exec State Cno
  build_cno = do
    cfg ← gets (λ s. s.conn.connection_config)
    options ← lift (cno_reconnect_option env.codes_of cfg.reconnect_mode)
    pure (with_ccdt_url cfg options)

  -- the two ways to connect, at the end of the `try` of `_connect_sync`
  unfoldable pub connect_qmgr : Cno → Cd → Option Sco → Exec State ℕ
  connect_qmgr cno cd sco = do
    cfg ← gets (λ s. s.conn.connection_config)
    if is_set cfg.ccdt_url
        then native env (
            connect_with_options (record {
              queue_manager = cfg.queue_manager;
              cno = cno;
              user = cfg.username;
              password = cfg.password;
              cd = cd_keyword cd;
              sco = sco;
            }))
        else (do
          channel ← assert_some cfg.channel
          conn_name ← assert_some cfg.conn_name
          default ← lift (cd_reconnect_default env.codes_of cfg.reconnect_mode)
          native env (
              connect_tcp_client (record {
                queue_manager = cfg.queue_manager;
                cd = with_default cd default;
                channel = channel;
                conn_name = conn_name;
                user = cfg.username;
                password = cfg.password;
                cno = cno;
                sco = sco;
              })))

  -- the `try` of `_connect_sync`
  unfoldable pub connect_try : Cno → Cd → Option Sco → Exec State (Unit {0})
  connect_try cno cd sco = do
    scope ← gets (λ s. wanted_scope s.conn.prepared_tls)
    for_some scope (λ v. modify (set_tls_scope (some v)))
    handle ← connect_qmgr cno cd sco
    modify (set_qmgr (some handle))

  -- its `except Exception`
  unfoldable pub connect_failed : Exc → Exec State (Unit {0})
  connect_failed e = do
    p ← gets (λ s. s.conn.prepared_tls)
    cleanup_prepared_tls env p
    modify (set_prepared none)
    raise e

  -- its `finally`, with the value that the variable had
  unfoldable pub restore_tls_scope : Option Text → Exec State (Unit {0})
  restore_tls_scope old = do
    scope ← gets (λ s. wanted_scope s.conn.prepared_tls)
    for_some scope (λ _. modify (set_tls_scope old))

  -- the `try`, `except` and `finally` of `_connect_sync`
  unfoldable pub guarded_connect : Cno → Cd → Option Sco → Exec State (Unit {0})
  guarded_connect cno cd sco = do
    old ← gets (λ s. s.amq_tls_scope)
    finally (try_except (connect_try cno cd sco) connect_failed) (restore_tls_scope old)

  -- `_connect_sync` with no connection yet
  unfoldable pub open_connection : Exec State (Unit {0})
  open_connection = do
    load_ibmmq env
    cno ← build_cno
    options ← build_tls_options env
    guarded_connect cno options.0 options.1

  -- `_connect_sync`
  unfoldable pub connect_sync : Exec State (Unit {0})
  connect_sync = do q ← gets (λ s. s.conn.qmgr); if is_some q then pure tt else open_connection

  -- `connect`
  unfoldable pub connect : Exec State (Unit {0})
  connect = do modify (set_executor true); connect_sync
