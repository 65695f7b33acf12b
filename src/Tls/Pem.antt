-- ===== src/Tls/Pem.antt =====
-- The half of tls.py that makes a key store of PEM files.
pub mod Distinct
pub mod Outcome
pub mod Tests
use faststream_mq.Base.{
  ℕ, zero, suc, ◌+◌, Text, Bytes, Bool, true, false, Option, none, some, List, [], ◌∷◌, ◌++◌, codes,
  starts_with, drop, length, contains_text, decimal, is_empty, text_or, not, if◌then◌else◌, map,
}
use faststream_mq.Errors.{Exc, Result, ok, err, ◌>>=◌, setup_error, is_exception}
use faststream_mq.Tls.{MqTlsConfig, new_tls_config}

abbrev begin_marker : Bytes
begin_marker = codes "-----BEGIN CERTIFICATE-----"

abbrev end_marker : Bytes
end_marker = codes "-----END CERTIFICATE-----"

abbrev plus : ℕ → Option ℕ → Option ℕ
plus n none = none
plus n (some m) = some (n + m)

-- `.*?-----END CERTIFICATE-----`: the number of bytes to the end of the first marker
unfoldable find_end : Bytes → Option ℕ
unfolding starts_with
find_end [] = none
find_end (c ∷ s) =
    let later = plus 1 (find_end s) in
    if starts_with end_marker (c ∷ s) then some (length end_marker) else later

-- the length of the match that begins here
unfoldable match_at : Bytes → Option ℕ
unfolding starts_with find_end
match_at s =
    if starts_with begin_marker s
    then plus (length begin_marker) (find_end (drop (length begin_marker) s))
    else none

abbrev take : ℕ → Bytes → Bytes
take zero s = []
take (suc n) [] = []
take (suc n) (c ∷ s) = c ∷ take n s

-- the matches from here on; the counter is the number of bytes of a match still to be passed over
unfoldable blocks_from : ℕ → Bytes → List Bytes
unfolding match_at
blocks_from skip [] = []
blocks_from (suc n) (c ∷ s) = blocks_from n s
blocks_from zero (c ∷ s) =
    let next = blocks_from zero s in
    elim (match_at (c ∷ s)) [
      | none ↦ next
      | some zero ↦ next
      | some (suc k) ↦ take (suc k) (c ∷ s) ∷ blocks_from k s
    ]

-- `_extract_certificate_blocks`
unfoldable pub extract_certificate_blocks : Bytes → List Bytes
unfolding blocks_from
extract_certificate_blocks content = blocks_from zero content

-- The package `cryptography`, the files and the codecs. Certificates and keys are numbers.
pub record Crypto : Type 0 where
  pub exists : Text → Bool
  pub read_bytes : Text → Result Bytes
  pub load_certificate : Bytes → Result ℕ
  pub load_key : Bytes → Option Bytes → Result ℕ
  pub encode_utf8 : Text → Result Bytes
  pub encode_ascii : Text → Result Bytes
  pub serialize : Bytes → ℕ → ℕ → List (ℕ × Bytes) → Bytes → Result Bytes
  -- the name in a `FileNotFoundError`, and the text of an exception
  pub missing_file : Exc → Option Text
  pub text_of : Exc → Text

-- the blocks of the loop of `_load_distinct_certificates`, with its set `seen`
unfoldable pub distinct_from : List Bytes → List Bytes → List Bytes
distinct_from seen [] = []
distinct_from seen (block ∷ blocks) =
    let passed = distinct_from seen blocks in
    let taken = block ∷ distinct_from (block ∷ seen) blocks in
    if contains_text seen block then passed else taken

module _ (crypto : Crypto) where
  unfoldable pub load_all : List Bytes → Result (List ℕ)
  load_all [] = ok []
  load_all (block ∷ blocks) = do
    cert ← crypto.load_certificate block
    certs ← load_all blocks
    ok (cert ∷ certs)

  -- `_load_distinct_certificates`
  unfoldable pub load_distinct_certificates : Text → Result (List ℕ)
  unfolding extract_certificate_blocks distinct_from load_all
  load_distinct_certificates path = do
    data_of ← crypto.read_bytes path
    load_all (distinct_from [] (extract_certificate_blocks data_of))

  -- on the blocks of the file
  abbrev load_first : List Bytes → Text → Result ℕ
  load_first [] field_name =
      err (setup_error (codes "No certificate found in `" ++ field_name ++ codes "` PEM file."))
  load_first (block ∷ blocks) field_name = crypto.load_certificate block

  -- `_load_first_certificate`
  unfoldable pub load_first_certificate : Bytes → Text → Result ℕ
  unfolding extract_certificate_blocks
  load_first_certificate content field_name =
      load_first (extract_certificate_blocks content) field_name

  abbrev encode_password : Option Text → Result (Option Bytes)
  encode_password none = ok none
  encode_password (some password) = do encoded ← crypto.encode_utf8 password; ok (some encoded)

  -- the names `ca-cert-1`, `ca-cert-2` and so on
  unfoldable pub ca_entries : ℕ → List ℕ → Result (List (ℕ × Bytes))
  unfolding decimal
  ca_entries index [] = ok []
  ca_entries index (cert ∷ certs) = do
    name ← crypto.encode_ascii (codes "ca-cert-" ++ decimal index)
    entries ← ca_entries (suc index) certs
    ok ((cert, name) ∷ entries)

  -- the `try` of `_build_pkcs12`
  unfoldable pub build_pkcs12_try : Text → Text → Text → Text → Text → Option Text → Result Bytes
  unfolding load_first_certificate load_distinct_certificates ca_entries
  build_pkcs12_try client_cert client_key ca_cert label password key_password = do
    cert_data ← crypto.read_bytes client_cert
    key_data ← crypto.read_bytes client_key
    cert ← load_first_certificate cert_data (codes "client_cert")
    encoded ← encode_password key_password
    key ← crypto.load_key key_data encoded
    chain ← load_distinct_certificates ca_cert
    entries ← ca_entries 1 chain
    secret ← crypto.encode_ascii password
    name ← crypto.encode_ascii label
    crypto.serialize name key cert entries secret

  -- its two `except` clauses
  abbrev caught : Option Text → Exc → Result Bytes
  caught (some name) e = err (setup_error (codes "MQ TLS file not found: " ++ name))
  caught none e =
      if is_exception e
      then err (setup_error (codes "MQ TLS setup failed: " ++ crypto.text_of e))
      else err e

  abbrev setup_failed : Result Bytes → Result Bytes
  setup_failed (ok bytes) = ok bytes
  setup_failed (err e) = caught (crypto.missing_file e) e

  -- `_build_pkcs12`
  unfoldable pub build_pkcs12 : Text → Text → Text → Text → Text → Option Text → Result Bytes
  build_pkcs12 client_cert client_key ca_cert label password key_password =
      setup_failed (build_pkcs12_try client_cert client_key ca_cert label password key_password)

  -- `if not value: raise`
  abbrev require : Text → Text → Result (Unit {0})
  require value message = if is_empty value then err (setup_error message) else ok tt

  abbrev require_file : Text → Text → Result (Unit {0})
  require_file path name =
      if crypto.exists path
      then ok tt
      else err (setup_error (codes "`" ++ name ++ codes "` path does not exist: " ++ path))

  abbrev given_or : Option Text → Text → Text
  given_or none t = t
  given_or (some s) t = text_or s t

  -- the arguments of `mq_tls_from_pem`
  pub record PemArgs : Type 0 where
    pub cipher_spec : Text
    pub client_cert : Text
    pub client_key : Text
    pub ca_cert : Text
    pub keystore_password : Option Text
    pub certificate_label : Option Text
    pub client_key_password : Option Text
    pub peer_name : Option Text

  -- tests one after the other
  unfoldable pub all_checks : List (Result (Unit {0})) → Result (Unit {0})
  all_checks [] = ok tt
  all_checks (check ∷ checks) = check >>= λ u. all_checks checks

  -- the tests of `mq_tls_from_pem`
  unfoldable pub pem_checks : PemArgs → Result (Unit {0})
  pem_checks a = all_checks (
      require a.client_cert (codes "`client_cert` is required for IBM MQ PEM TLS.")
      ∷ require a.client_key (codes "`client_key` is required for IBM MQ PEM TLS.")
      ∷ require a.ca_cert (codes "`ca_cert` is required for IBM MQ PEM TLS.")
      ∷ require_file a.client_cert (codes "client_cert")
      ∷ require_file a.client_key (codes "client_key")
      ∷ require_file a.ca_cert (codes "ca_cert")
      ∷ [])

  -- its key store
  unfoldable pub pem_store : Text → PemArgs → Result Bytes
  unfolding build_pkcs12
  pem_store token a =
      build_pkcs12 a.client_cert a.client_key a.ca_cert
        (given_or a.certificate_label (codes "faststream-mq-client"))
        (given_or a.keystore_password token) a.client_key_password

  abbrev pem_config : Text → PemArgs → Bytes → MqTlsConfig
  pem_config token a bytes = record {
    cipher_spec = a.cipher_spec;
    keystore = codes "<generated-pkcs12>";
    peer_name = a.peer_name;
    certificate_label = a.certificate_label;
    keystore_password = some (given_or a.keystore_password token);
    keystore_bytes = some bytes;
    environment_scope = some (codes "CONNECTION");
  }

  -- `mq_tls_from_pem`, with the random token that it would draw
  unfoldable pub mq_tls_from_pem : Text → PemArgs → Result MqTlsConfig
  unfolding new_tls_config pem_checks pem_store
  mq_tls_from_pem token a = do
    u ← pem_checks a
    bytes ← pem_store token a
    new_tls_config crypto.exists (pem_config token a bytes)
