-- ===== src/Ids.antt =====
-- helpers/ids.py: IBM MQ message and correlation identifiers, 24 bytes as 48 hex digits.
pub mod Hex
pub mod Laws
pub mod Tests
use Hex.{to_hex, from_hex}
use faststream_mq.Base.{
  ℕ, ◌*◌, Bool, true, false, not, ◌||◌, Option, none, some, List, [], ◌∷◌, ◌++◌, Text, Bytes, codes,
  length, ◌==◌, if◌then◌else◌,
}
use faststream_mq.Errors.{Exc, Result, ok, err, value_error, ◌>>=◌}
use faststream_mq.Values.{Value, none_value, str_value, bytes_value, bytearray_value}

-- MQ_ID_BYTES_LENGTH
abbrev pub mq_id_bytes_length : ℕ
mq_id_bytes_length = 24

-- `secrets.token_hex` of the given random bytes
unfoldable pub generate_mq_id : Bytes → Text
generate_mq_id random = to_hex random

-- the text names MQ_ID_HEX_LENGTH, 48
abbrev pub mq_id_error : Text → Text
mq_id_error field_name = codes "`" ++ field_name ++ codes "` must be a 48-character hex string."

-- the two guards after `bytes.fromhex`, which is `none` where it raises
abbrev checked_hex : Option Bytes → Text → Result (Option Text)
checked_hex none field_name = err (value_error (mq_id_error field_name))
checked_hex (some raw) field_name =
    if length raw == mq_id_bytes_length
    then ok (some (to_hex raw))
    else err (value_error (mq_id_error field_name))

unfoldable pub normalize_mq_id : Option Text → Text → Result (Option Text)
normalize_mq_id none field_name = ok none
normalize_mq_id (some []) field_name = ok none
normalize_mq_id (some (c ∷ s)) field_name = checked_hex (from_hex (c ∷ s)) field_name

-- `bytes.fromhex(normalized)`; it would raise on a text that is no hex
abbrev hex_to_bytes : Option Text → Text → Result (Option Bytes)
hex_to_bytes none field_name = ok none
hex_to_bytes (some s) field_name = elim (from_hex s) [
  | none ↦ err (value_error (mq_id_error field_name))
  | some raw ↦ ok (some raw)
]

unfoldable pub mq_id_to_bytes : Option Text → Text → Result (Option Bytes)
mq_id_to_bytes value field_name = do
  normalized ← normalize_mq_id value field_name
  hex_to_bytes normalized field_name

-- `any(raw)`
abbrev pub any_nonzero : Bytes → Bool
any_nonzero [] = false
any_nonzero (b ∷ bs) = not (b == 0) || any_nonzero bs

-- the last guard of `try_parse_mq_id`; an empty `raw` has the wrong length
abbrev checked_raw : Option Bytes → Option Text
checked_raw none = none
checked_raw (some raw) =
    if not (length raw == mq_id_bytes_length) || not (any_nonzero raw)
    then none
    else some (to_hex raw)

unfoldable pub try_parse_mq_id : Value → Option Text
try_parse_mq_id (str_value s) = checked_raw (from_hex s)
try_parse_mq_id (bytes_value b) = checked_raw (some b)
try_parse_mq_id (bytearray_value b) = checked_raw (some b)
try_parse_mq_id v = none
