-- ===== src/Telemetry/Conversation.antt =====
-- A publication and the consumption of its message are of one conversation.
use faststream_mq.Base.{
  ◌≡◌, ◌≢◌, refl, ap, ◌∙◌, Bool, true, Option, none, some, [], ◌∷◌, Text, Bytes, Dict, lookup,
  text_eq, eq_of_text_eq, arith, length, inl, inr, Bool-cases,
}
use faststream_mq.Values.{Value, str_value, bytes_value}
use faststream_mq.Errors.{ok}
use faststream_mq.Native.{Env, Descriptor}
use faststream_mq.Ids.{normalize_mq_id, any_nonzero}
use faststream_mq.Ids.Laws.{normalize_mq_id-canonical}
use faststream_mq.Command.{MqPublishCommand}
use faststream_mq.Connection.Message.{MqRawMessage, build_raw_message}
use faststream_mq.Connection.Publish.{correl_field}
use faststream_mq.Connection.Identity.{correlation_id-roundtrip}
use faststream_mq.Broker.{either}
use faststream_mq.Telemetry.{parse_message, consume_attrs, publish_attrs, conversation_key}

either-given : (t : Text) (o : Option Text) → length t ≡ 48 → either (some t) o ≡ some t
either-given [] o h = absurd (omega arith)
either-given (c ∷ t) o h = refl

-- the attribute of a publication
publish_attrs-conversation :
    (cmd : MqPublishCommand) (t : Text)
    → either cmd.correlation_id cmd.message_id ≡ some t
    → lookup conversation_key (publish_attrs cmd) ≡ some (str_value t)
unfolding publish_attrs lookup text_eq
publish_attrs-conversation cmd t h = simp h refl

-- the attribute of a message, unless faststream uses the same key for the destination
consume_attrs-conversation :
    (publish_name : Text) (m : MqRawMessage) (t : Text)
    → publish_name ≢ conversation_key
    → either m.correlation_id m.message_id ≡ some t
    → lookup conversation_key (consume_attrs publish_name (parse_message m)) ≡ some (str_value t)
unfolding consume_attrs parse_message lookup text_eq
consume_attrs-conversation publish_name m t d h =
    elim (Bool-cases (text_eq publish_name conversation_key)) [
      | inl y ↦ absurd (d (eq_of_text_eq _ _ y))
      | inr n ↦ simp (n, h)
    ]

-- Let a command have a normalised correlation identifier whose bytes are not all zero. The span of
-- its publication and the span of any message that is built from a descriptor with those bytes
-- have the same conversation, that identifier, provided that faststream does not name the
-- published destination by the key of the conversation.
pub publish_attrs-consume_attrs :
    (env : Env) (cmd : MqPublishCommand) (body : Bytes) (md : Descriptor) (headers : Dict Value)
    (queue publish_name : Text) (own : Bool) (m : MqRawMessage) (t f : Text) (raw : Bytes)
    → cmd.correlation_id ≡ some t
    → normalize_mq_id (some t) f ≡ ok (some t)
    → correl_field none (some t) ≡ ok (some (some raw))
    → any_nonzero raw ≡ true
    → md.correl_id ≡ some (bytes_value raw)
    → build_raw_message env body md headers queue own ≡ ok m
    → publish_name ≢ conversation_key
    → (lookup conversation_key (publish_attrs cmd) ≡ some (str_value t))
      × (lookup conversation_key (consume_attrs publish_name (parse_message m))
          ≡ some (str_value t))
publish_attrs-consume_attrs env cmd body md headers queue publish_name own m t f raw given normal
      sent nonzero e built d =
    let (read, native) =
      correlation_id-roundtrip env body md headers queue own m t f raw normal sent nonzero e
        built in
    let full : length t ≡ 48 = (normalize_mq_id-canonical (some t) f f t normal).3 in
    (
      publish_attrs-conversation cmd t
          (ap (λ o. either o cmd.message_id) given ∙ either-given t cmd.message_id full),
      consume_attrs-conversation publish_name m t d
          (ap (λ o. either o m.message_id) read ∙ either-given t m.message_id full),
    )
