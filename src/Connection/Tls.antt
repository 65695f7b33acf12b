-- ===== src/Connection/Tls.antt =====
-- helpers/tls.py, and how `AsyncMQConnection` turns the settings into connection options.
use faststream_mq.Base.{Text, Option, some, none, codes, ◌++◌}
use faststream_mq.Exec.{if_some, Exec, pure, gets, modify, for_some, ignore_errors, ◌>>=◌, ◌>>◌}
use faststream_mq.Native.{Env, make_tempdir, write_file, remove_tree, Cd, Sco}
use faststream_mq.Tls.{MqTlsConfig}
use faststream_mq.Connection.State.{State, PreparedTls, native, set_prepared, truthy}

-- `PreparedMQTLSConfig` of a key repository on disk
abbrev prepared_of : MqTlsConfig → Text → Option Text → PreparedTls
prepared_of tls repository tempdir = record {
  cipher_spec = tls.cipher_spec;
  key_repository = repository;
  keystore_password = tls.keystore_password;
  certificate_label = tls.certificate_label;
  peer_name = tls.peer_name;
  environment_scope = tls.environment_scope;
  tempdir = tempdir;
}

abbrev pub cd_of : Option PreparedTls → Cd
cd_of none = record { ssl_cipher_spec = none; ssl_peer_name = none; def_reconnect = none }
cd_of (some p) = record {
  ssl_cipher_spec = some p.cipher_spec;
  ssl_peer_name = truthy p.peer_name;
  def_reconnect = none;
}

abbrev pub sco_of : Option PreparedTls → Option Sco
sco_of none = none
sco_of (some p) = some (record {
  key_repository = p.key_repository;
  certificate_label = truthy p.certificate_label;
  key_repo_password = truthy p.keystore_password;
})

module _ (env : Env) where
  -- `prepare_tls_config`: a generated key store is written to a directory of its own
  unfoldable pub prepare_tls_config : Option MqTlsConfig → Exec State (Option PreparedTls)
  prepare_tls_config none = pure none
  prepare_tls_config (some tls) =
      if_some tls.keystore_bytes
        (λ bytes. do
          tempdir ← native env (make_tempdir (codes "faststream-mq-tls-"))
          let p12_file = tempdir ++ env.separator ++ codes "client.p12"
          native env (write_file p12_file bytes)
          pure (some (prepared_of tls p12_file (some tempdir))))
        (pure (some (prepared_of tls tls.keystore none)))

  -- `cleanup_prepared_tls`; `rmtree(ignore_errors=True)` raises nothing
  unfoldable pub cleanup_prepared_tls : Option PreparedTls → Exec State (Unit {0})
  cleanup_prepared_tls tls =
      for_some tls
        (λ p. for_some p.tempdir (λ tempdir. ignore_errors (native env (remove_tree tempdir))))

  -- `_prepare_tls_config`, which keeps what it prepared
  unfoldable pub prepare_once : Exec State (Option PreparedTls)
  prepare_once = do
    known ← gets (λ s. s.conn.prepared_tls)
    if_some known (λ p. pure (some p))
        (do
          tls ← gets (λ s. s.conn.connection_config.tls)
          p ← prepare_tls_config tls
          modify (set_prepared p)
          pure p)

  -- `_build_tls_options`
  unfoldable pub build_tls_options : Exec State (Cd × Option Sco)
  build_tls_options = do p ← prepare_once; pure (cd_of p, sco_of p)
