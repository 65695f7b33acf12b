-- ===== src/Ids/Tests.antt =====
-- The laws of helpers/ids.py on one identifier.
use faststream_mq.Base.{◌≡◌, refl, Text, Bytes, some, [], ◌∷◌, codes, length}
use faststream_mq.Errors.{ok, err, value_error}
use faststream_mq.Values.{str_value, bytes_value, bytearray_value}
use faststream_mq.Ids.{normalize_mq_id, mq_id_to_bytes, try_parse_mq_id, mq_id_error}
use faststream_mq.Ids.Hex.{to_hex, from_hex, IsBytes, from_hex-IsBytes}
use faststream_mq.Ids.Laws.{
  normalize_mq_id-canonical, try_parse_mq_id-roundtrip, try_parse_mq_id-normalize,
}

abbrev pub raw_id : Bytes
raw_id =
    65 ∷ 77 ∷ 81 ∷ 32 ∷ 81 ∷ 77 ∷ 49 ∷ 32 ∷ 32 ∷ 32 ∷ 32 ∷ 32 ∷ 255 ∷ 0 ∷ 171 ∷ 205 ∷ 16 ∷ 1 ∷ 2 ∷ 3
    ∷ 4 ∷ 5 ∷ 6 ∷ 250 ∷ []

abbrev field : Text
field = codes "message_id"

-- the same identifier, in capitals and with a space between its halves
abbrev typed_id : Text
typed_id = codes "414D5120514D312020202020 FF00ABCD10010203040506FA"

abbrev pub hex_id : Text
hex_id = codes "414d5120514d312020202020ff00abcd10010203040506fa"

normalize_typed : normalize_mq_id (some typed_id) field ≡ ok (some hex_id)
unfolding normalize_mq_id from_hex to_hex
normalize_typed = refl

try_parse_typed : try_parse_mq_id (str_value typed_id) ≡ some hex_id
unfolding try_parse_mq_id from_hex to_hex
try_parse_typed = refl

normalize_short :
    normalize_mq_id (some (codes "4142")) field ≡ err (value_error (mq_id_error field))
unfolding normalize_mq_id from_hex to_hex
normalize_short = refl

normalize_mq_id-canonical_example :
    (raw : Bytes) × (length raw ≡ 24)
    × (hex_id ≡ to_hex raw)
    × (length hex_id ≡ 48)
    × (normalize_mq_id (some hex_id) field ≡ ok (some hex_id))
    × (mq_id_to_bytes (some hex_id) field ≡ ok (some raw))
normalize_mq_id-canonical_example =
    normalize_mq_id-canonical (some typed_id) field field hex_id normalize_typed

pub raw_id-IsBytes : IsBytes raw_id
unfolding from_hex
raw_id-IsBytes = from_hex-IsBytes hex_id raw_id refl

try_parse_mq_id-roundtrip_example :
    (t : Text) × (try_parse_mq_id (bytes_value raw_id) ≡ some t)
    × (try_parse_mq_id (bytearray_value raw_id) ≡ some t)
    × (try_parse_mq_id (str_value t) ≡ some t)
    × (mq_id_to_bytes (some t) field ≡ ok (some raw_id))
try_parse_mq_id-roundtrip_example = try_parse_mq_id-roundtrip raw_id field raw_id-IsBytes refl refl

try_parse_mq_id-normalize_example : normalize_mq_id (some typed_id) field ≡ ok (some hex_id)
try_parse_mq_id-normalize_example = try_parse_mq_id-normalize typed_id field hex_id try_parse_typed
