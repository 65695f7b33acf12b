-- ===== src/Tls.antt =====
-- tls.py: the TLS settings of a connection and the checks when they are made.
pub mod Pem
use faststream_mq.Base.{
  Text, Bytes, Bool, not, ◌&&◌, Option, some, none, codes, ◌++◌, is_empty, is_some, if◌then◌else◌,
}
use faststream_mq.Errors.{Result, ok, err, setup_error}

pub record MqTlsConfig : Type 0 where
  pub cipher_spec : Text
  pub keystore : Text
  pub peer_name : Option Text
  pub certificate_label : Option Text
  pub keystore_password : Option Text
  pub keystore_bytes : Option Bytes
  pub environment_scope : Option Text

-- `__post_init__`; `exists` is `Path.exists`
unfoldable pub new_tls_config : (Text → Bool) → MqTlsConfig → Result MqTlsConfig
new_tls_config exists c =
    if is_empty c.cipher_spec
    then err (setup_error (codes "`cipher_spec` is required for IBM MQ TLS."))
    else if is_empty c.keystore
    then err (setup_error (codes "`keystore` is required for IBM MQ TLS."))
    else if not (is_some c.keystore_bytes) && not (exists c.keystore)
    then err (setup_error (codes "`keystore` path does not exist: " ++ c.keystore))
    else ok c

unfoldable pub mq_tls_from_keystore :
    (Text → Bool) → Text → Text → Option Text → Option Text → Option Text → Result MqTlsConfig
unfolding new_tls_config
mq_tls_from_keystore exists cipher_spec keystore keystore_password certificate_label peer_name =
    new_tls_config exists (record {
      cipher_spec = cipher_spec;
      keystore = keystore;
      peer_name = peer_name;
      certificate_label = certificate_label;
      keystore_password = keystore_password;
      keystore_bytes = none;
      environment_scope = some (codes "CONNECTION");
    })

-- `use_ssl`, and whether an `ssl_context` is given
unfoldable pub validate_tls_configuration : Option MqTlsConfig → Bool → Bool → Result (Unit {0})
validate_tls_configuration tls use_ssl has_context =
    if has_context
    then err (
        setup_error (
          codes
            "`ssl_context` is not supported by IBM MQ. Use `tls=` with MQ-native TLS settings."))
    else if use_ssl && not (is_some tls)
    then err (
        setup_error (
          codes
            "IBM MQ TLS requires explicit `tls=` configuration. `security.use_ssl` alone is not enough."))
    else ok tt
