-- ===== src/Headers.antt =====
-- helpers/client.py: the names under which headers travel as IBM MQ message properties, and the
-- headers that a published message carries.
pub mod RoundTrip
pub mod Defaults
pub mod Tests
use faststream_mq.Base.{
  Bool, true, false, Option, none, some, ◌++◌, Text, Dict, codes, starts_with, drop, replace,
  set_default, is_empty, if◌then◌else◌, ℕ,
}
use faststream_mq.Values.{
  Value, none_value, str_value, bytes_value, bool_value, int_value, float_value, bytearray_value,
  object_value,
}

-- the six characters by which a dash is spelled in a property name
abbrev pub dash_word : Text
dash_word = codes "_dash_"

unfoldable pub strip_property_prefix : Text → Text
unfolding starts_with
strip_property_prefix name = if starts_with (codes "usr.") name then drop 4 name else name

unfoldable pub property_name_from_header : Text → Text
unfolding replace
property_name_from_header name = codes "usr." ++ replace (codes "-") dash_word name

unfoldable pub header_name_from_property : Text → Text
unfolding replace
header_name_from_property name = replace dash_word (codes "-") name

-- `json.dumps` of a `bytearray` or another object is given: its text depends on the object.
unfoldable pub normalize_property_value : (Value → Text) → Value → Value
normalize_property_value dumps (bytearray_value b) = str_value (dumps (bytearray_value b))
normalize_property_value dumps (object_value o) = str_value (dumps (object_value o))
normalize_property_value dumps v = v

-- `if value: headers.setdefault(key, value)`
abbrev pub default_header : Text → Option Text → Dict Value → Dict Value
default_header key none headers = headers
default_header key (some v) headers =
    if is_empty v then headers else set_default key (str_value v) headers

-- `_headers_to_publish`, of `cmd.headers`, the content type and `cmd.message_type`
unfoldable pub headers_to_publish : Dict Value → Option Text → Option Text → Dict Value
unfolding set_default
headers_to_publish headers content_type message_type =
    default_header (codes "message_type") message_type
      (default_header (codes "content-type") content_type headers)
