-- ===== src/Telemetry.antt =====
-- parser.py, opentelemetry/provider.py and prometheus/provider.py: the message that a handler gets,
-- and the attributes of the spans and metrics for it and for a command.
pub mod Conversation
pub mod Tests
use faststream_mq.Base.{ℕ, Text, Bytes, Option, none, some, [], ◌∷◌, codes, Dict, insert, length}
use faststream_mq.Values.{pos, Value, none_value, str_value, int_value}
use faststream_mq.Command.{MqPublishCommand}
use faststream_mq.Connection.Message.{MqRawMessage}
use faststream_mq.Broker.{either}

-- `MQMessage`; its two identifiers are those that it is given, also if they are missing
pub record MqMessage : Type 0 where
  pub raw_of : MqRawMessage
  pub body : Bytes
  pub headers : Dict Value
  pub reply_to : Text
  pub content_type : Option Value
  pub correlation_id : Option Text
  pub message_id : Option Text

-- `MQParser.parse_message`
unfoldable pub parse_message : MqRawMessage → MqMessage
parse_message raw = record {
  raw_of = raw;
  body = raw.body;
  headers = raw.headers;
  reply_to = raw.reply_to;
  content_type = raw.content_type;
  correlation_id = raw.correlation_id;
  message_id = raw.message_id;
}

abbrev text_or_none : Option Text → Value
text_or_none none = none_value
text_or_none (some t) = str_value t

-- MESSAGING_MESSAGE_CONVERSATION_ID
abbrev pub conversation_key : Text
conversation_key = codes "messaging.message.conversation_id"

-- `get_consume_attrs_from_message`; `publish_name` is the key that faststream names
unfoldable pub consume_attrs : Text → MqMessage → Dict Value
consume_attrs publish_name m =
    (codes "messaging.system", str_value (codes "ibm_mq"))
    ∷ (codes "messaging.destination.name", str_value m.raw_of.queue)
    ∷ (publish_name, str_value m.raw_of.queue)
    ∷ (codes "messaging.message.id", text_or_none m.message_id)
    ∷ (conversation_key, text_or_none (either m.correlation_id m.message_id))
    ∷ (codes "messaging.message.payload_size_bytes", int_value (pos (length m.body)))
    ∷ []

-- `if conversation_id is not None`
abbrev with_conversation : Option Text → Dict Value → Dict Value
with_conversation none attrs = attrs
with_conversation (some t) attrs = insert conversation_key (str_value t) attrs

-- `get_publish_attrs_from_cmd`
unfoldable pub publish_attrs : MqPublishCommand → Dict Value
unfolding insert
publish_attrs cmd = with_conversation (either cmd.correlation_id cmd.message_id) (
    (codes "messaging.system", str_value (codes "ibm_mq"))
    ∷ (codes "messaging.destination.name", str_value cmd.destination)
    ∷ [])

-- the attributes of `MQMetricsSettingsProvider.get_consume_attrs_from_message`
pub record ConsumeAttrs : Type 0 where
  pub destination_name : Text
  pub message_size : ℕ
  pub messages_count : ℕ

unfoldable pub metric_attrs : MqMessage → ConsumeAttrs
metric_attrs m = record {
  destination_name = m.raw_of.queue;
  message_size = length m.body;
  messages_count = 1;
}

-- `get_consume_destination_name`
abbrev consume_destination_name : MqMessage → Text
consume_destination_name m = m.raw_of.queue

-- `get_publish_destination_name`
abbrev publish_destination_name : MqPublishCommand → Text
publish_destination_name cmd = cmd.destination

-- `get_publish_destination_name_from_cmd` of the metrics
abbrev metric_destination_name : MqPublishCommand → Text
metric_destination_name cmd = cmd.destination
