-- ===== src/Registration/Tests.antt =====
-- The laws of registration on an application that registers a subscriber and a publisher.
use faststream_mq.Base.{
  ◌↔◌, ℕ, suc, ◌≡◌, refl, codes, true, false, Option, none, some, List, [], ◌∷◌, update,
}
use faststream_mq.Errors.{ok, err, setup_error, ack_message, other_error}
use faststream_mq.Exec.{pure, modify, raise, ◌>>=◌}
use faststream_mq.Values.{pos, str_value}
use faststream_mq.Subscriber.{should_commit}
use faststream_mq.Ids.{normalize_mq_id}
use faststream_mq.Command.{MqPublishCommand, default_command}
use faststream_mq.Publisher.{Arguments, queue, plain_name, publish_command, type_or}
use faststream_mq.Broker.{broker_publish_command}
use faststream_mq.Testing.{is_addressed}
use faststream_mq.Registration.{
  Base, Object, SubscriberArgs, PublisherArgs, MqSubscriber, RegisteredPublisher, subscriber,
  publisher, publisher_at, create_subscriber, create_publisher, include_router, other_router,
  ack_policy_of,
}
use faststream_mq.Registration.Specification.{subscriber_schema, publisher_schema, publisher_name}
use faststream_mq.Registration.Addresses.{seen_as, registered-share_address}
use faststream_mq.Registration.Routes.{
  subscriber_with, publisher_with, publisher_keywords, new_route, route-registers,
}

-- an application that counts what is registered
abbrev counting : Base ℕ
counting = record {
  add_subscriber = λ s persistent. modify suc;
  add_publisher = λ p persistent. modify suc;
  add_call = λ s parser decoder dependencies. pure s;
  include = λ router a. modify suc;
}

abbrev orders_in : SubscriberArgs
orders_in = record {
  queue = plain_name (codes "ORDERS");
  ack_policy = none;
  dependencies = [];
  parser = none;
  decoder = none;
  middlewares = [];
  no_reply = false;
  wait_interval = pos 1000000;
  header_max_value_length = 64;
  title = none;
  description = none;
  include_in_schema = true;
}

abbrev orders_out : PublisherArgs
orders_out = record {
  queue = queue (record { name = codes "ORDERS" });
  headers = some ((codes "app", str_value (codes "shop")) ∷ []);
  reply_to = codes "REPLIES";
  reply_to_qmgr = [];
  priority = some (pos 4);
  persistence = some true;
  expiry = none;
  message_type = none;
  middlewares = [];
  title = none;
  description = none;
  schema = none;
  include_in_schema = true;
}

abbrev hello : Arguments
hello = record {
  message = 7;
  queue_name = none;
  headers = [];
  correlation_id = none;
  reply_to = [];
  reply_to_qmgr = [];
  priority = none;
  persistence = none;
  expiry = none;
  message_type = none;
  message_id = none;
}

abbrev sent_by_broker : MqPublishCommand
sent_by_broker = default_command 7 (codes "DEV.ORDERS")

abbrev sent_by_publisher : MqPublishCommand
sent_by_publisher = record (default_command 7 (codes "DEV.ORDERS")) {
  headers = (codes "app", str_value (codes "shop")) ∷ [];
  reply_to = codes "REPLIES";
  priority = some (pos 4);
  persistence = some true;
}

abbrev made_subscriber : MqSubscriber
made_subscriber = create_subscriber (record { name = codes "ORDERS" }) orders_in

abbrev made_publisher : RegisteredPublisher
made_publisher = create_publisher (record { name = codes "ORDERS" }) orders_out

counting-keeps :
    (s t : MqSubscriber) (parser decoder : Option Object) (deps : List Object) (x y : ℕ)
    → counting.add_call s parser decoder deps x ≡ (ok t, y)
    → t ≡ s
unfolding pure
counting-keeps s t parser decoder deps x y h = cc

subscriber_runs : subscriber counting true orders_in 0 ≡ (ok made_subscriber, 1)
unfolding subscriber ◌>>=◌ modify pure
subscriber_runs = refl

publisher_runs : publisher counting true orders_out 1 ≡ (ok made_publisher, 2)
unfolding publisher ◌>>=◌ modify pure
publisher_runs = refl

broker_sends :
    broker_publish_command (codes "DEV.") (plain_name (codes "ORDERS")) hello ≡ ok sent_by_broker
unfolding broker_publish_command normalize_mq_id
broker_sends = refl

publisher_sends :
    publish_command (publisher_at (codes "DEV.") made_publisher) hello ≡ ok sent_by_publisher
unfolding publish_command create_publisher normalize_mq_id update type_or
publisher_sends = refl

registered-share_address_example :
    let seen = seen_as (codes "DEV.") 3 true made_subscriber in
    let documented =
      subscriber_schema (codes "DEV.") made_subscriber.specification (codes "on_order") none 5 in
    ((is_addressed sent_by_broker seen ≡ true) ↔ (codes "DEV." ≡ codes "DEV."))
    × ((is_addressed sent_by_publisher seen ≡ true) ↔ (codes "DEV." ≡ codes "DEV."))
    × ((publisher_schema (codes "DEV.") made_publisher.specification 5).address
        ≡ sent_by_publisher.destination)
    × ((documented.address ≡ sent_by_publisher.destination) ↔ (codes "DEV." ≡ codes "DEV."))
registered-share_address_example =
    registered-share_address counting counting-keeps (codes "DEV.") (codes "DEV.") (codes "DEV.")
      true true orders_in orders_out made_subscriber made_publisher 0 1 1 2 subscriber_runs
      publisher_runs refl hello hello sent_by_broker sent_by_publisher broker_sends publisher_sends
      refl 3 true (codes "on_order") none 5

route-registers_example :
    (subscriber_with counting (new_route 1 [] orders_in).keywords 0
      ≡ subscriber counting true (record orders_in { middlewares = 4 ∷ [] }) 0)
    × (publisher_with counting (publisher_keywords orders_out) 0
        ≡ publisher counting true (record orders_out { middlewares = 4 ∷ [] }) 0)
route-registers_example = route-registers counting 1 [] orders_in orders_out (4 ∷ []) (4 ∷ []) 0

-- a subscriber that is registered without a policy backs a message out if its handler fails
unset_policy :
    (should_commit (ack_policy_of made_subscriber.config) (other_error 1) ≡ false)
    × (should_commit (ack_policy_of made_subscriber.config) ack_message ≡ true)
unfolding ack_policy_of create_subscriber should_commit
unset_policy = (refl, refl)

default_name :
    publisher_name (codes "DEV.") made_publisher.specification ≡ codes "DEV.ORDERS:Publisher"
unfolding publisher_name create_publisher
default_name = refl

foreign_router :
    include_router counting
      (other_router (codes "APIRouter"))
      (record { prefix = []; dependencies = []; middlewares = []; include_in_schema = none })
      0
    ≡ (
      err (
          setup_error (codes "Router must be an instance of MQRegistrator, got APIRouter instead")),
      0,
    )
unfolding include_router raise
foreign_router = refl
