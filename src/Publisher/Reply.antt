-- ===== src/Publisher/Reply.antt =====
-- The reply to a request that a handler answers: subscriber/usecase.py, publisher/fake.py and
-- `__publish_sync` of helpers/client.py.
use faststream_mq.Base.{◌≡◌, refl, ap, sym, ◌∙◌, some, Dict, Text, Bytes, Bool, true}
use faststream_mq.Errors.{ok, bind-ok, ok-injective}
use faststream_mq.Values.{Value, bytes_value}
use faststream_mq.Native.{Env, Descriptor}
use faststream_mq.Command.{MqPublishCommand, AnyCommand, from_cmd}
use faststream_mq.Connection.Message.{MqRawMessage, build_raw_message, raw_message, to_bytes}
use faststream_mq.Connection.Identity.{build_raw_message-ok}
use faststream_mq.Connection.Publish.{correl_field}
use faststream_mq.Publisher.{patch_command, make_response_publisher}

native_message_id-raw :
    (env : Env) (body : Bytes) (md : Descriptor) (headers : Dict Value) (queue : Text) (own : Bool)
    (m : MqRawMessage) (raw : Bytes)
    → md.msg_id ≡ some (bytes_value raw)
    → build_raw_message env body md headers queue own ≡ ok m
    → m.native_message_id ≡ some raw
unfolding raw_message to_bytes
native_message_id-raw env body md headers queue own m raw e h =
    let built = build_raw_message-ok env body md headers queue own m h in
    sym (ap (λ x. x.native_message_id) built.1) ∙ rw e refl

-- The command that answers a request which was received with the bytes `raw` as its MsgId goes to
-- the request's reply queue and reply queue manager, under syncpoint, with `raw` as its CorrelId,
-- whatever the handler's own command says of a destination or a correlation identifier.
pub patch_command-reply :
    (env : Env) (body : Bytes) (md : Descriptor) (headers : Dict Value) (queue : Text) (own : Bool)
    (m : MqRawMessage) (raw : Bytes) (base : AnyCommand → AnyCommand) (command : AnyCommand)
    (cmd : MqPublishCommand)
    → md.msg_id ≡ some (bytes_value raw)
    → build_raw_message env body md headers queue own ≡ ok m
    → patch_command base (make_response_publisher m) command ≡ ok cmd
    → (cmd.destination ≡ m.reply_to)
      × (cmd.reply_to_qmgr ≡ m.reply_to_qmgr)
      × (cmd.syncpoint ≡ true)
      × (correl_field cmd.native_correlation_id cmd.correlation_id ≡ ok (some (some raw)))
unfolding patch_command make_response_publisher
patch_command-reply env body md headers queue own m raw base command cmd e h p =
    let id = native_message_id-raw env body md headers queue own m raw e h in
    let made = bind-ok (from_cmd (base command)) _ cmd p in
    let same = ok-injective _ _ made.1 in
    (
      sym (ap (λ x. x.destination) same),
      sym (ap (λ x. x.reply_to_qmgr) same),
      sym (ap (λ x. x.syncpoint) same),
      rw (sym (ap (λ x. x.native_correlation_id) same) ∙ id) refl,
    )
