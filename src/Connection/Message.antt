-- ===== src/Connection/Message.antt =====
-- message.py and the pure half of `__get_message_sync`: the raw message that is built from a body, a
-- descriptor and the headers.
use faststream_mq.Base.{
  ℕ, ◌/◌, Text, Bytes, Bool, true, false, Option, some, none, codes, Dict, lookup, remove, strip,
  or_else, ◌==◌, if◌then◌else◌, leb,
}
use faststream_mq.Errors.{Result, ok, err, value_error, ◌>>=◌}
use faststream_mq.Values.{
  ℤ, pos, negsuc, Value, none_value, str_value, bytes_value, bytearray_value,
}
use faststream_mq.Native.{Env, Codes, Descriptor}
use faststream_mq.Ids.{try_parse_mq_id}
use faststream_mq.Command.{Duration}

pub data AckStatus : Type 0 where
  acked nacked rejected : AckStatus

-- `connection` says whether the message belongs to its consumer's connection or to none.
pub record MqRawMessage : Type 0 where
  pub body : Bytes
  pub queue : Text
  pub headers : Dict Value
  pub reply_to : Text
  pub reply_to_qmgr : Text
  pub content_type : Option Value
  pub correlation_id : Option Text
  pub message_id : Option Text
  pub native_message_id : Option Bytes
  pub native_correlation_id : Option Bytes
  pub priority : Option ℤ
  pub persistence : Option Bool
  pub expiry : Option ℤ
  pub metadata : Option Descriptor
  pub connection : Bool
  pub settled : Option AckStatus
  pub settled_event : Bool

-- `_to_bytes`
unfoldable pub to_bytes : Option Value → Option Bytes
to_bytes none = none
to_bytes (some (bytes_value b)) = some b
to_bytes (some (bytearray_value b)) = some b
to_bytes (some v) = none

-- `_mq_str`; bytes that do not decode raise
unfoldable pub mq_str : Env → Value → Result Text
mq_str env (bytes_value b) = elim (env.decode b) [
  | none ↦ err (value_error (codes "invalid utf-8"))
  | some t ↦ ok (strip t)
]
mq_str env (str_value t) = ok (strip t)
mq_str env v = ok (codes "")

-- `getattr(md, name, b"")`
abbrev pub or_empty : Option Value → Value
or_empty none = bytes_value (codes "")
or_empty (some v) = v

-- `_decode_persistence`
unfoldable pub decode_persistence : Codes → Option ℕ → Option Bool
decode_persistence c none = none
decode_persistence c (some value) =
    if value == c.per_persistent
    then some true
    else if value == c.per_not_persistent
    then some false
    else none

-- `_to_wait_interval`: `int` cuts towards zero, and a wait takes a millisecond at least
unfoldable pub to_wait_interval : Duration → ℕ
to_wait_interval (pos microseconds) =
    let milliseconds = microseconds / 1000 in if leb 1 milliseconds then milliseconds else 1
to_wait_interval (negsuc n) = 1

abbrev or_none : Option Value → Value
or_none none = none_value
or_none (some v) = v

abbrev bytes_or_none : Option Bytes → Value
bytes_or_none none = none_value
bytes_or_none (some b) = bytes_value b

-- the message of `_build_raw_message`, once its two reply names are read
unfoldable pub raw_message :
    Env → Bytes → Descriptor → Dict Value → Text → Bool → Text → Text → MqRawMessage
unfolding decode_persistence to_bytes lookup remove
raw_message env body md headers queue_name connection reply_to reply_to_qmgr =
    let header_message_id = try_parse_mq_id (or_none (lookup (codes "message_id") headers)) in
    let without_id = remove (codes "message_id") headers in
    let header_correlation_id =
      try_parse_mq_id (or_none (lookup (codes "correlation_id") without_id)) in
    let rest = remove (codes "correlation_id") without_id in
    let native_message_id = to_bytes md.msg_id in
    let native_correlation_id = to_bytes md.correl_id in
    record {
      body = body;
      queue = queue_name;
      headers = rest;
      reply_to = reply_to;
      reply_to_qmgr = reply_to_qmgr;
      content_type = lookup (codes "content-type") rest;
      correlation_id =
          or_else (try_parse_mq_id (bytes_or_none native_correlation_id)) header_correlation_id;
      message_id = or_else (try_parse_mq_id (bytes_or_none native_message_id)) header_message_id;
      native_message_id = native_message_id;
      native_correlation_id = native_correlation_id;
      priority = md.priority;
      persistence = decode_persistence env.codes_of md.persistence;
      expiry = md.expiry;
      metadata = some md;
      connection = connection;
      settled = none;
      settled_event = false;
    }

-- `_build_raw_message`
unfoldable pub build_raw_message :
    Env → Bytes → Descriptor → Dict Value → Text → Bool → Result MqRawMessage
unfolding mq_str
build_raw_message env body md headers queue_name connection = do
  reply_to ← mq_str env (or_empty md.reply_to_q)
  reply_to_qmgr ← mq_str env (or_empty md.reply_to_qmgr)
  ok (raw_message env body md headers queue_name connection reply_to reply_to_qmgr)
