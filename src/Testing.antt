-- ===== src/Testing.antt =====
-- testing.py: the in-memory producer, which hands what is published to the broker's own subscribers.
pub mod Delivery
pub mod Messages
pub mod Marker
pub mod Tests
use faststream_mq.Base.{
  ℕ, Text, Bytes, Bool, true, false, Option, none, some, List, [], ◌∷◌, ◌++◌, Dict, text_eq, update,
  is_empty, codes, ◌==◌, if◌then◌else◌,
}
use faststream_mq.Errors.{Result, ok, err, ◌>>=◌, subscriber_not_found, not_implemented_error}
use faststream_mq.Exec.{Exec, pure, raise, lift, gets, modify, assert_some, ◌>>=◌ as ◌>>>=◌}
use faststream_mq.Values.{Value, str_value}
use faststream_mq.Ids.{normalize_mq_id, generate_mq_id}
use faststream_mq.Command.{MqPublishCommand, Duration}
use faststream_mq.Connection.Message.{MqRawMessage}
use faststream_mq.Publisher.{MqQueue, MqPublisher, routing, validate, plain_name}

-- a subscriber of the broker, as far as the producer looks at it: which one it is, the prefix and
-- the queue of its `routing`, and whether it has registered handlers
pub record TestSubscriber : Type 0 where
  pub identity : ℕ
  pub prefix : Text
  pub queue : MqQueue
  pub calls : Bool

-- `MQSubscriber.routing`
unfoldable pub subscriber_routing : TestSubscriber → Text
subscriber_routing h = h.prefix ++ h.queue.name

-- The state of an application under test, with the `_test_messages` of each subscriber; they are
-- `none` while the subscriber is not started.
pub record World (W : Type 0) : Type 0 where
  pub app : W
  pub test_messages : ℕ → Option (List MqRawMessage)

-- what the producer reads of the response of `process_message`
pub record HandlerResult : Type 0 where
  pub body : ℕ
  pub headers : Dict Value
  pub message_id : Option Text

-- `normalized_message_id or generate_mq_id()`
abbrev pub id_or : Option Text → Text → Text
id_or none t = t
id_or (some s) t = s

-- `{"content-type": content_type, **headers}`, if there is a content type
abbrev pub merged_headers : Option Text → Dict Value → Dict Value
merged_headers none headers = headers
merged_headers (some []) headers = headers
merged_headers (some (c ∷ t)) headers =
    update ((codes "content-type", str_value (c ∷ t)) ∷ []) headers

abbrev content_value : Option Text → Option Value
content_value none = none
content_value (some t) = some (str_value t)

-- the arguments of `build_message`
pub record Incoming : Type 0 where
  pub queue : Text
  pub message : ℕ
  pub headers : Dict Value
  pub correlation_id : Option Text
  pub reply_to : Text
  pub message_id : Option Text

-- its message, once the two identifiers are normalised
abbrev pub test_message :
    Bytes × Option Text → Bytes → Incoming → Option Text → Option Text → MqRawMessage
test_message encoded token a correlation_id message_id = record {
  body = encoded.0;
  queue = (validate (plain_name a.queue)).name;
  headers = merged_headers encoded.1 a.headers;
  reply_to = a.reply_to;
  reply_to_qmgr = [];
  content_type = content_value encoded.1;
  correlation_id = correlation_id;
  message_id = some (id_or message_id (generate_mq_id token));
  native_message_id = none;
  native_correlation_id = none;
  priority = none;
  persistence = none;
  expiry = none;
  metadata = none;
  connection = false;
  settled = none;
  settled_event = false;
}

-- `build_message`, with the encoded body and the bytes that `generate_mq_id` would draw
unfoldable pub build_message : Bytes × Option Text → Bytes → Incoming → Result MqRawMessage
unfolding normalize_mq_id
build_message encoded token a = do
  correlation_id ← normalize_mq_id a.correlation_id (codes "correlation_id")
  message_id ← normalize_mq_id a.message_id (codes "message_id")
  ok (test_message encoded token a correlation_id message_id)

-- faststream's `encode_message` and `process_message`, `secrets.token_hex` and `anyio.fail_after`
pub record Services (W : Type 0) : Type 0 where
  pub encode : ℕ → Result (Bytes × Option Text)
  pub token : Exec (World W) Bytes
  pub process_message : TestSubscriber → MqRawMessage → Exec (World W) HandlerResult
  pub fail_after : Duration → Exec (World W) MqRawMessage → Exec (World W) MqRawMessage

abbrev pub incoming_of : MqPublishCommand → Incoming
incoming_of cmd = record {
  queue = cmd.destination;
  message = cmd.body;
  headers = cmd.headers;
  correlation_id = cmd.correlation_id;
  reply_to = cmd.reply_to;
  message_id = cmd.message_id;
}

-- `handler.routing() == cmd.destination`
abbrev pub is_addressed : MqPublishCommand → TestSubscriber → Bool
is_addressed cmd h = text_eq (subscriber_routing h) cmd.destination

module _ {W : Type 0} (services : Services W) where
  unfoldable pub build : Incoming → Exec (World W) MqRawMessage
  unfolding ◌>>>=◌
  build a = lift (services.encode a.message) >>>= λ encoded.
      services.token >>>= λ token. lift (build_message encoded token a)

  -- `put_test_message` of a subscriber
  unfoldable pub put_test_message : TestSubscriber → MqRawMessage → Exec (World W) (Unit {0})
  put_test_message h msg = gets (λ w. w.test_messages h.identity) >>>= λ buffer.
      assert_some buffer >>>= λ messages. modify (λ w. record w {
        test_messages =
            λ i. if i == h.identity then some (messages ++ msg ∷ []) else w.test_messages i;
      })

  -- `_execute_handler`
  unfoldable pub execute_handler : MqRawMessage → TestSubscriber → Exec (World W) MqRawMessage
  execute_handler msg h = services.process_message h msg >>>= λ result. build (record {
    queue = msg.queue;
    message = result.body;
    headers = result.headers;
    correlation_id = msg.message_id;
    reply_to = [];
    message_id = result.message_id;
  })

  -- what happens to a message at a subscriber that it is addressed to
  unfoldable pub deliver : MqRawMessage → TestSubscriber → Exec (World W) (Unit {0})
  deliver msg h =
      if h.calls then (execute_handler msg h >>>= λ reply. pure tt) else put_test_message h msg

  -- the loop of `publish`, with its variable `called`
  unfoldable pub publish_loop :
      MqPublishCommand → MqRawMessage → List TestSubscriber → Bool → Exec (World W) Bool
  publish_loop cmd msg [] called = pure called
  publish_loop cmd msg (h ∷ hs) called =
      let reached = deliver msg h >>>= λ u. publish_loop cmd msg hs true in
      let passed = publish_loop cmd msg hs called in if is_addressed cmd h then reached else passed

  -- `FakeProducer.publish`
  unfoldable pub fake_publish : List TestSubscriber → MqPublishCommand → Exec (World W) (Unit {0})
  fake_publish subscribers cmd = build (incoming_of cmd) >>>= λ incoming.
      publish_loop cmd incoming subscribers false >>>= λ called.
      if called then pure tt else raise subscriber_not_found

  -- the loop of `request`
  unfoldable pub request_loop :
      MqPublishCommand → MqRawMessage → List TestSubscriber → Exec (World W) MqRawMessage
  request_loop cmd msg [] = raise subscriber_not_found
  request_loop cmd msg (h ∷ hs) =
      let passed = request_loop cmd msg hs in
      if is_addressed cmd h then services.fail_after cmd.timeout (execute_handler msg h) else passed

  -- `FakeProducer.request`
  unfoldable pub fake_request : List TestSubscriber → MqPublishCommand → Exec (World W) MqRawMessage
  fake_request subscribers cmd =
      build (incoming_of cmd) >>>= λ incoming. request_loop cmd incoming subscribers

-- `connect`, `disconnect` and `ping` of the fake producer, and its `publish_batch`
abbrev fake_connect : {S : Type 0} → Exec S (Unit {0})
fake_connect = pure tt

abbrev fake_ping : {S : Type 0} → Exec S Bool
fake_ping = pure true

abbrev fake_publish_batch : {S : Type 0} → MqPublishCommand → Exec S (Unit {0})
fake_publish_batch cmd = raise not_implemented_error

-- the first subscriber of the publisher's routing
unfoldable pub find_subscriber : Text → List TestSubscriber → Option TestSubscriber
find_subscriber name [] = none
find_subscriber name (h ∷ hs) =
    let later = find_subscriber name hs in
    if text_eq (subscriber_routing h) name then some h else later

-- the subscriber that was found, or a new one with the broker's prefix
abbrev found_or_new : Text → ℕ → Text → Option TestSubscriber → TestSubscriber × Bool
found_or_new broker_prefix fresh name (some h) = (h, true)
found_or_new broker_prefix fresh name none = (
  record {
    identity = fresh;
    prefix = broker_prefix;
    queue = validate (plain_name name);
    calls = false;
  },
  false,
)

-- `create_publisher_fake_subscriber`: a subscriber, and whether it is one of the broker's own
unfoldable pub create_publisher_fake_subscriber :
    Text → ℕ → List TestSubscriber → MqPublisher → TestSubscriber × Bool
create_publisher_fake_subscriber broker_prefix fresh subscribers p =
    found_or_new broker_prefix fresh (routing p none) (find_subscriber (routing p none) subscribers)
