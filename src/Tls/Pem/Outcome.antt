-- ===== src/Tls/Pem/Outcome.antt =====
-- How `mq_tls_from_pem` ends.
use faststream_mq.Base.{◌≡◌, ◌⊎◌, false, some, Text, Bytes, codes}
use faststream_mq.Errors.{Exc, Result, ok, err, setup_error, is_exception}
use faststream_mq.Tls.{MqTlsConfig, new_tls_config}
use faststream_mq.Tls.Pem.{Crypto, PemArgs, build_pkcs12_try, given_or}

-- how a function of tls.py may end: with a value that satisfies `P`, with a `SetupError`, or with
-- what is no `Exception`
abbrev pub EndsWell : {A : Type 0} → (A → Type 0) → Result A → Type 0
EndsWell P r =
    ((v : _) × (r ≡ ok v) × P v)
    ⊎ ((t : Text) × (r ≡ err (setup_error t)))
    ⊎ ((e : Exc) × (r ≡ err e) × (is_exception e ≡ false))

module _ (crypto : Crypto) where
  -- the settings hold a key store of the PEM files, and the password that it was made with
  pub record IsGenerated (token : Text) (a : PemArgs crypto) (c : MqTlsConfig) : Type 0 where
    pub store : Bytes
    pub secret : Text
    pub stored : c.keystore_bytes ≡ some store
    pub password : c.keystore_password ≡ some secret
    pub chosen : secret ≡ given_or crypto a.keystore_password token
    pub made :
        build_pkcs12_try crypto a.client_cert a.client_key a.ca_cert
          (given_or crypto a.certificate_label (codes "faststream-mq-client"))
          secret
          a.client_key_password
        ≡ ok store
    pub scope : c.environment_scope ≡ some (codes "CONNECTION")
    pub checked : new_tls_config crypto.exists c ≡ ok c

  -- the key store is made with the password that was given, or else with the token
  abbrev MadeBy : Text → PemArgs crypto → Bytes → Type 0
  MadeBy token a b =
      build_pkcs12_try crypto a.client_cert a.client_key a.ca_cert
        (given_or crypto a.certificate_label (codes "faststream-mq-client"))
        (given_or crypto a.keystore_password token) a.client_key_password
      ≡ ok b
