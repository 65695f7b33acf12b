-- ===== src/Connection/Puts.antt =====
-- The methods that make harmless calls only: opening, closing and recovering the connection, setting
-- and reading properties, and waiting for a reply.
use faststream_mq.Base.{ℕ, zero, suc, refl, Text, Bool, Option, none, some, Dict}
use faststream_mq.Values.{Value}
use faststream_mq.Errors.{Exc, mqmi_error, type_error}
use faststream_mq.Exec.Hoare.{
  Keeps, keeps_rules, Keeps-pure, Keeps-raise, Keeps-when, Keeps-bind, Keeps-on_state, Keeps-assign,
}
use faststream_mq.Exec.{when, on_state, assign, ◌>>=◌, ◌>>◌}
use faststream_mq.Native.{Env, Cno, Cd, Sco, InquireOption, create_handle}
use faststream_mq.Tls.{MqTlsConfig}
use faststream_mq.Command.{Duration, MqPublishCommand}
use faststream_mq.Connection.State.{State, PreparedTls, native}
use faststream_mq.Connection.Harmless.{Harmless, harmless_rules}
use faststream_mq.Connection.Tls.{
  prepare_tls_config, cleanup_prepared_tls, prepare_once, build_tls_options,
}
use faststream_mq.Connection.Connect.{
  build_cno, connect_qmgr, connect_try, connect_failed, restore_tls_scope, guarded_connect,
  open_connection, connect_sync,
}
use faststream_mq.Connection.Recover.{
  safe_close_consumer_sync, safe_disconnect_qmgr_sync, open_consumer, recover_connection_sync,
}
use faststream_mq.Connection.Consume.{
  inquire_without_length, inquire_property, inquire_failed, inquire, read_headers_from,
  read_headers,
}
use faststream_mq.Connection.Publish.{has_headers, encode_command, set_properties, publish_cleanup}
use faststream_mq.Connection.Request.{
  Attempt, Pending, request_failed, request_cleanup, reply_failed, wait_for_reply_sync,
  request_done,
}

module _ {P : State → Type 0} (env : Env) (harmless : Harmless env P) where
  pub cleanup_prepared_tls-Keeps :
      (tls : Option PreparedTls) → Keeps P (cleanup_prepared_tls env tls)
  unfolding cleanup_prepared_tls
  cleanup_prepared_tls-Keeps tls = search (keeps_rules, harmless_rules) depth 14

  pub prepare_tls_config-Keeps : (tls : Option MqTlsConfig) → Keeps P (prepare_tls_config env tls)
  unfolding prepare_tls_config
  prepare_tls_config-Keeps none = Keeps-pure none
  prepare_tls_config-Keeps (some tls) = search (keeps_rules, harmless_rules) depth 14

  pub prepare_once-Keeps : Keeps P (prepare_once env)
  unfolding prepare_once
  prepare_once-Keeps = search (keeps_rules, harmless_rules, prepare_tls_config-Keeps) depth 14

  pub build_tls_options-Keeps : Keeps P (build_tls_options env)
  unfolding build_tls_options
  build_tls_options-Keeps = search (keeps_rules, harmless_rules, prepare_once-Keeps) depth 14

  pub build_cno-Keeps : Keeps P (build_cno env)
  unfolding build_cno
  build_cno-Keeps = search (keeps_rules, harmless_rules) depth 14

  pub connect_qmgr-Keeps :
      (cno : Cno) (cd : Cd) (sco : Option Sco) → Keeps P (connect_qmgr env cno cd sco)
  unfolding connect_qmgr
  connect_qmgr-Keeps cno cd sco = search (keeps_rules, harmless_rules) depth 14

  pub connect_try-Keeps :
      (cno : Cno) (cd : Cd) (sco : Option Sco) → Keeps P (connect_try env cno cd sco)
  unfolding connect_try
  connect_try-Keeps cno cd sco = search (keeps_rules, harmless_rules, connect_qmgr-Keeps) depth 14

  pub connect_failed-Keeps : (e : Exc) → Keeps P (connect_failed env e)
  unfolding connect_failed
  connect_failed-Keeps e = search (keeps_rules, harmless_rules, cleanup_prepared_tls-Keeps) depth 14

  pub restore_tls_scope-Keeps : (old : Option Text) → Keeps P (restore_tls_scope env old)
  unfolding restore_tls_scope
  restore_tls_scope-Keeps old = search (keeps_rules, harmless_rules) depth 14

  pub guarded_connect-Keeps :
      (cno : Cno) (cd : Cd) (sco : Option Sco) → Keeps P (guarded_connect env cno cd sco)
  unfolding guarded_connect
  guarded_connect-Keeps cno cd sco =
      search
        (
          keeps_rules, harmless_rules, connect_try-Keeps, connect_failed-Keeps,
          restore_tls_scope-Keeps,
        )
        depth 14

  pub open_connection-Keeps : Keeps P (open_connection env)
  unfolding open_connection
  open_connection-Keeps =
      search
        (
          keeps_rules, harmless_rules, build_cno-Keeps, build_tls_options-Keeps,
          guarded_connect-Keeps,
        )
        depth 14

  pub connect_sync-Keeps : Keeps P (connect_sync env)
  unfolding connect_sync
  connect_sync-Keeps = search (keeps_rules, harmless_rules, open_connection-Keeps) depth 14

  pub safe_close_consumer_sync-Keeps : Keeps P (safe_close_consumer_sync env)
  unfolding safe_close_consumer_sync
  safe_close_consumer_sync-Keeps = search (keeps_rules, harmless_rules) depth 14

  pub safe_disconnect_qmgr_sync-Keeps : Keeps P (safe_disconnect_qmgr_sync env)
  unfolding safe_disconnect_qmgr_sync
  safe_disconnect_qmgr_sync-Keeps = search (keeps_rules, harmless_rules) depth 14

  pub open_consumer-Keeps : (name : Text) → Keeps P (open_consumer env name)
  unfolding open_consumer
  open_consumer-Keeps name =
      search (keeps_rules, harmless_rules, safe_close_consumer_sync-Keeps) depth 14

  pub recover_connection_sync-Keeps : (reopen : Bool) → Keeps P (recover_connection_sync env reopen)
  unfolding recover_connection_sync
  recover_connection_sync-Keeps reopen =
      search
        (
          keeps_rules, harmless_rules, safe_close_consumer_sync-Keeps,
          safe_disconnect_qmgr_sync-Keeps, connect_sync-Keeps, open_consumer-Keeps,
        )
        depth 14

  pub inquire_without_length-Keeps :
      (h : ℕ) (o : InquireOption) (e : Exc) → Keeps P (inquire_without_length env h o e)
  unfolding inquire_without_length
  inquire_without_length-Keeps h o (type_error) = search (keeps_rules, harmless_rules) depth 14
  inquire_without_length-Keeps h o e = Keeps-raise e

  pub inquire_property-Keeps :
      (h : ℕ) (o : InquireOption) (m : ℕ) → Keeps P (inquire_property env h o m)
  unfolding inquire_property
  inquire_property-Keeps h o m =
      search (keeps_rules, harmless_rules, inquire_without_length-Keeps) depth 14

  pub inquire_failed-Keeps : (h : ℕ) (e : Exc) → Keeps P (inquire_failed env h e)
  unfolding inquire_failed
  inquire_failed-Keeps h (mqmi_error reason len) =
      search (keeps_rules, harmless_rules, inquire_property-Keeps) depth 14
  inquire_failed-Keeps h e = Keeps-raise e

  pub inquire-Keeps : (h : ℕ) (o : InquireOption) (m : ℕ) → Keeps P (inquire env h o m)
  unfolding inquire
  inquire-Keeps h o m =
      search (keeps_rules, harmless_rules, inquire_property-Keeps, inquire_failed-Keeps) depth 14

  pub read_headers_from-Keeps :
      (fuel h max : ℕ) (o : InquireOption) (d : Dict Value)
      → Keeps P (read_headers_from env fuel h max o d)
  unfolding read_headers_from
  read_headers_from-Keeps zero h max o d = Keeps-raise _
  read_headers_from-Keeps (suc fuel) h max o d =
      search (keeps_rules, inquire-Keeps, read_headers_from-Keeps fuel) depth 14

  pub read_headers-Keeps : (fuel : ℕ) (h : ℕ) (max : ℕ) → Keeps P (read_headers env fuel h max)
  unfolding read_headers
  read_headers-Keeps fuel h max =
      search (keeps_rules, harmless_rules, read_headers_from-Keeps) depth 14

  pub encode_command-Keeps : (cmd : MqPublishCommand) → Keeps P (encode_command env cmd)
  unfolding encode_command
  encode_command-Keeps cmd = search (keeps_rules, harmless_rules) depth 14

  pub set_properties-Keeps : (h : ℕ) (d : Dict Value) → Keeps P (set_properties env h d)
  unfolding set_properties
  set_properties-Keeps h d = search (keeps_rules, harmless_rules) depth 14

  pub handle_properties-Keeps :
      (qmgr : ℕ) (headers : Dict Value)
      → Keeps
          (λ (sv : State × Option ℕ). P sv.0)
          (when (has_headers headers) (do
            handle ← on_state (native env (create_handle qmgr))
            assign (λ _. some handle)
            on_state (set_properties env handle headers)))
  handle_properties-Keeps qmgr headers = Keeps-when _ _ (
      Keeps-bind _ _ (Keeps-on_state _ (λ v. harmless.on_native (create_handle qmgr) refl)) (λ h.
        Keeps-bind _ _ (Keeps-assign _ (λ sv c. c))
          (λ u. Keeps-on_state _ (λ v. set_properties-Keeps h headers))))

  pub attempt_properties-Keeps :
      (qmgr : ℕ) (headers : Dict Value)
      → Keeps
          (λ (sv : State × Attempt). P sv.0)
          (when (has_headers headers) (do
            handle ← on_state (native env (create_handle qmgr))
            assign (λ v. record v { put_handle = some handle })
            on_state (set_properties env handle headers)))
  attempt_properties-Keeps qmgr headers = Keeps-when _ _ (
      Keeps-bind _ _ (Keeps-on_state _ (λ v. harmless.on_native (create_handle qmgr) refl)) (λ h.
        Keeps-bind _ _ (Keeps-assign _ (λ sv c. c))
          (λ u. Keeps-on_state _ (λ v. set_properties-Keeps h headers))))

  pub publish_cleanup-Keeps : (q : ℕ) (h : Option ℕ) → Keeps P (publish_cleanup env q h)
  unfolding publish_cleanup
  publish_cleanup-Keeps q h = search (keeps_rules, harmless_rules) depth 14

  pub request_failed-Keeps : (last : Bool) (e : Exc) → Keeps P (request_failed env last e)
  unfolding request_failed
  request_failed-Keeps last e =
      search (keeps_rules, harmless_rules, recover_connection_sync-Keeps) depth 14

  pub request_cleanup-Keeps : (v : Attempt) → Keeps P (request_cleanup env v)
  unfolding request_cleanup
  request_cleanup-Keeps v = search (keeps_rules, harmless_rules) depth 14

  pub reply_failed-Keeps : (h : ℕ) (e : Exc) → Keeps P (reply_failed env h e)
  unfolding reply_failed
  reply_failed-Keeps h (mqmi_error reason len) = search (keeps_rules, harmless_rules) depth 14
  reply_failed-Keeps h e = Keeps-raise e

  pub wait_for_reply_sync-Keeps :
      (fuel : ℕ) (p : Pending) (timeout : Duration)
      → Keeps P (wait_for_reply_sync env fuel p timeout)
  unfolding wait_for_reply_sync
  wait_for_reply_sync-Keeps fuel p timeout =
      search (keeps_rules, harmless_rules, read_headers-Keeps, reply_failed-Keeps) depth 14

  pub request_done-Keeps : (v : Option ℕ × Bool) → Keeps P (request_done env v)
  unfolding request_done
  request_done-Keeps v =
      search (keeps_rules, harmless_rules, recover_connection_sync-Keeps) depth 14
