-- ===== src/Telemetry/Tests.antt =====
-- The conversation of a publication and its message, on the samples of the connection.
use faststream_mq.Base.{ℕ, ◌≡◌, ◌≢◌, ap, length, arith, refl, true, some, [], codes, lookup}
use faststream_mq.Values.{str_value}
use faststream_mq.Ids.Tests.{raw_id, hex_id}
use faststream_mq.Command.{MqPublishCommand}
use faststream_mq.Connection.Tests.{
  sample_env, sample_command, received, received_message, received-built, hex_id-normal, sent-raw,
}
use faststream_mq.Telemetry.{parse_message, consume_attrs, publish_attrs, conversation_key}
use faststream_mq.Telemetry.Conversation.{publish_attrs-consume_attrs}

abbrev correlated : MqPublishCommand
correlated = record sample_command { correlation_id = some hex_id }

other_key : codes "messaging.destination_publish.name" ≢ conversation_key
other_key e = let k : ◌≡◌ {A = ℕ} 34 33 = ap length e in omega arith

publish_attrs-consume_attrs_example :
    (lookup conversation_key (publish_attrs correlated) ≡ some (str_value hex_id))
    × (lookup conversation_key (
          consume_attrs
            (codes "messaging.destination_publish.name")
            (parse_message received_message))
        ≡ some (str_value hex_id))
publish_attrs-consume_attrs_example =
    publish_attrs-consume_attrs sample_env correlated (codes "ping") received []
      (codes "DEV.QUEUE.1") (codes "messaging.destination_publish.name") true received_message
      hex_id (codes "correlation_id") raw_id refl hex_id-normal sent-raw refl refl received-built
      other_key
