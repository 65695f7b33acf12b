-- ===== src/Tls/Pem/Tests.antt =====
-- The laws of PEM files, on a library whose certificates are the lengths of their blocks.
use faststream_mq.Base.{◌≡◌, refl, true, none, [], ◌∷◌, ◌++◌, codes, length, Bytes}
use faststream_mq.Errors.{ok}
use faststream_mq.Tls.Pem.{Crypto, PemArgs, extract_certificate_blocks}

abbrev block : Bytes
block = codes "-----BEGIN CERTIFICATE-----AAAA-----END CERTIFICATE-----"

two_blocks :
    extract_certificate_blocks (codes "bag " ++ block ++ codes " and " ++ block)
    ≡ block ∷ block ∷ []
unfolding extract_certificate_blocks
two_blocks = refl

abbrev crypto : Crypto
crypto = record {
  exists = λ path. true;
  read_bytes = λ path. ok block;
  load_certificate = λ b. ok (length b);
  load_key = λ b password. ok 1;
  encode_utf8 = λ t. ok t;
  encode_ascii = λ t. ok t;
  serialize = λ name key cert entries secret. ok name;
  missing_file = λ e. none;
  text_of = λ e. [];
}

abbrev pem_args : PemArgs crypto
pem_args = record {
  cipher_spec = codes "ANY_TLS12_OR_HIGHER";
  client_cert = codes "client.pem";
  client_key = codes "client.key";
  ca_cert = codes "ca.pem";
  keystore_password = none;
  certificate_label = none;
  client_key_password = none;
  peer_name = none;
}
