-- ===== src/Testing/Tests.antt =====
-- The laws of the in-memory producer, on one application with two subscribers.
use mathlib.Core.List.{Memᴰ}
use faststream_mq.Base.{
  ◌⊎◌, ◌≢◌, true, ℕ, ◌≡◌, refl, subst, length, Bool, true, false, Option, none, some, List, [], ◌∷◌,
  Text, Bytes, codes, lookup, text_eq,
}
use faststream_mq.Errors.{ok}
use faststream_mq.Values.{Value, str_value}
use faststream_mq.Exec.{◌>>=◌}
use faststream_mq.Ids.{normalize_mq_id, generate_mq_id}
use faststream_mq.Ids.Hex.{IsBytes, to_hex, from_hex}
use faststream_mq.Ids.Tests.{raw_id, hex_id, raw_id-IsBytes}
use faststream_mq.Connection.Message.{MqRawMessage}
use faststream_mq.Connection.Tests.{sample_command}
use faststream_mq.Headers.{headers_to_publish}
use faststream_mq.Publisher.{routing}
use faststream_mq.Publisher.Tests.{orders}
use faststream_mq.Testing.{
  TestSubscriber, World, Services, HandlerResult, Incoming, incoming_of, build_message,
  test_message, subscriber_routing, build, execute_handler, fake_publish, fake_request,
  request_loop, create_publisher_fake_subscriber,
}
use faststream_mq.Testing.Delivery.{
  addressed, deliver_each, fake_publish-addressed, create_publisher_fake_subscriber-routing,
}
use faststream_mq.Testing.Messages.{
  new_key, no_keys, build_message-headers, fake_request-correlates,
}

abbrev pong : HandlerResult
pong = record { body = 9; headers = []; message_id = none }

abbrev services : Services ℕ
services = record {
  encode = λ body. ok (codes "text", some (codes "text/plain"));
  token = λ w. (ok raw_id, w);
  process_message = λ h msg w. (ok pong, w);
  fail_after = λ timeout m. m;
}

abbrev subscriber_of : ℕ → Bool → TestSubscriber
subscriber_of n calls = record {
  identity = n;
  prefix = codes "DEV.";
  queue = record { name = codes "QUEUE.1" };
  calls = calls;
}

abbrev subscribers : List TestSubscriber
subscribers = subscriber_of 0 true ∷ subscriber_of 1 false ∷ []

abbrev world : World ℕ
world = record { app = 0; test_messages = λ i. some [] }

fake_publish-addressed_example :
    fake_publish services subscribers sample_command world
    ≡ (build services (incoming_of sample_command) >>= λ incoming.
          deliver_each services incoming (addressed sample_command subscribers))
        world
fake_publish-addressed_example = fake_publish-addressed services subscribers sample_command world

create_publisher_fake_subscriber-routing_example :
    let (h, is_real) = create_publisher_fake_subscriber [] 2 subscribers orders in
    (subscriber_routing h ≡ routing orders none)
    × (((is_real ≡ true) × Memᴰ h subscribers)
        ⊎ ((is_real ≡ false)
            × ((g : TestSubscriber)
                → Memᴰ g subscribers
                → subscriber_routing g ≢ routing orders none)))
create_publisher_fake_subscriber-routing_example =
    create_publisher_fake_subscriber-routing 2 subscribers orders

abbrev tagged : Incoming
tagged = record {
  queue = codes "DEV.QUEUE.1";
  message = 7;
  headers = (codes "x-tenant", str_value (codes "t1")) ∷ [];
  correlation_id = none;
  reply_to = [];
  message_id = some hex_id;
}

abbrev encoded : Bytes × Option Text
encoded = (codes "text", some (codes "text/plain"))

tagged-built :
    build_message encoded raw_id tagged ≡ ok (test_message encoded raw_id tagged none (some hex_id))
unfolding build_message normalize_mq_id to_hex from_hex
tagged-built = refl

nothing : lookup {V = Value} (codes "x-tenant") [] ≡ none
unfolding lookup
nothing = refl

build_message-headers_example :
    lookup (codes "content-type") (test_message encoded raw_id tagged none (some hex_id)).headers
    ≡ lookup (codes "content-type") (headers_to_publish tagged.headers encoded.1 none)
build_message-headers_example =
    build_message-headers encoded raw_id tagged
      (test_message encoded raw_id tagged none (some hex_id)) (codes "content-type") tagged-built
      (new_key _ _ [] nothing no_keys)

drawn :
    (w v : World ℕ) (raw : Bytes) → services.token w ≡ (ok raw, v) → IsBytes raw × (length raw ≡ 24)
drawn w v raw h =
    let same : raw_id ≡ raw = cc in
    subst (λ x. IsBytes x × (length x ≡ 24)) same (raw_id-IsBytes, refl)

abbrev question : MqRawMessage
question = test_message encoded raw_id (incoming_of sample_command) none none

abbrev reply : MqRawMessage
reply =
    test_message encoded raw_id
      (record {
        queue = codes "DEV.QUEUE.1";
        message = 9;
        headers = [];
        correlation_id = some hex_id;
        reply_to = [];
        message_id = none;
      })
      (some hex_id) none

replied : fake_request services subscribers sample_command world ≡ (ok reply, world)
unfolding fake_request request_loop build build_message execute_handler ◌>>=◌ normalize_mq_id to_hex
    from_hex generate_mq_id subscriber_routing text_eq
replied = refl

fake_request-correlates_example :
    (incoming : MqRawMessage) × (u : World ℕ) × (h : TestSubscriber) × (build services
        (incoming_of sample_command)
        world
      ≡ (ok incoming, u))
    × (subscriber_routing h ≡ sample_command.destination)
    × (execute_handler services incoming h u ≡ (ok reply, world))
    × (reply.queue ≡ sample_command.destination)
    × (reply.correlation_id ≡ incoming.message_id)
fake_request-correlates_example =
    fake_request-correlates services drawn (λ timeout m r w v h. h) subscribers sample_command reply
      world world replied
