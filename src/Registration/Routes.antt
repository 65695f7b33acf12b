-- ===== src/Registration/Routes.antt =====
-- broker/router.py and the methods of fastapi/fastapi.py that register: a router keeps the keyword
-- arguments of its subscribers and publishers, and registers them later with these.
use faststream_mq.Base.{
  ℕ, Text, [], ◌≡◌, refl, Bool, true, false, Option, none, some, List, ◌||◌, is_some, Dict,
  if◌then◌else◌,
}
use faststream_mq.Errors.{err, type_error}
use faststream_mq.Exec.{Exec, lift}
use faststream_mq.Values.{ℤ, pos, Value}
use faststream_mq.Command.{Duration}
use faststream_mq.Subscriber.{AckPolicy}
use faststream_mq.Publisher.{QueueName}
use faststream_mq.Registration.{
  Object, SubscriberArgs, PublisherArgs, Base, MqSubscriber, RegisteredPublisher, subscriber,
  publisher, create_subscriber, create_publisher,
}

-- the keywords of `MQRegistrator.subscriber` and `MQRegistrator.publisher`
pub data Keyword : Type 0 where
  queue middlewares title description include_in_schema persistent : Keyword
  headers reply_to reply_to_qmgr priority persistence expiry message_type schema : Keyword
  ack_policy dependencies parser decoder no_reply wait_interval header_max_value_length : Keyword

abbrev pub Argument : Keyword → Type 0
Argument queue = QueueName
Argument middlewares = List Object
Argument title = Option Text
Argument description = Option Text
Argument include_in_schema = Bool
Argument persistent = Bool
Argument headers = Option (Dict Value)
Argument reply_to = Text
Argument reply_to_qmgr = Text
Argument priority = Option ℤ
Argument persistence = Option Bool
Argument expiry = Option ℤ
Argument message_type = Option Text
Argument schema = Option Object
Argument ack_policy = Option AckPolicy
Argument dependencies = List Object
Argument parser = Option Object
Argument decoder = Option Object
Argument no_reply = Bool
Argument wait_interval = Duration
Argument header_max_value_length = ℕ

-- a dictionary of keyword arguments
abbrev pub Keywords : Type 0
Keywords = (k : Keyword) → Option (Argument k)

-- what `MQPublisher.__init__` of the router hands to `ArgsContainer`, and `publisher` of the
-- FastAPI router to that of its broker
unfoldable pub publisher_keywords : PublisherArgs → Keywords
publisher_keywords a queue = some a.queue
publisher_keywords a headers = some a.headers
publisher_keywords a reply_to = some a.reply_to
publisher_keywords a reply_to_qmgr = some a.reply_to_qmgr
publisher_keywords a priority = some a.priority
publisher_keywords a persistence = some a.persistence
publisher_keywords a expiry = some a.expiry
publisher_keywords a message_type = some a.message_type
publisher_keywords a middlewares = some a.middlewares
publisher_keywords a title = some a.title
publisher_keywords a description = some a.description
publisher_keywords a schema = some a.schema
publisher_keywords a include_in_schema = some a.include_in_schema
publisher_keywords a k = none

-- what `MQRoute.__init__` hands to `SubscriberRoute` beside the call and the publishers
unfoldable pub subscriber_keywords : SubscriberArgs → Keywords
subscriber_keywords a queue = some a.queue
subscriber_keywords a dependencies = some a.dependencies
subscriber_keywords a parser = some a.parser
subscriber_keywords a decoder = some a.decoder
subscriber_keywords a middlewares = some a.middlewares
subscriber_keywords a ack_policy = some a.ack_policy
subscriber_keywords a no_reply = some a.no_reply
subscriber_keywords a wait_interval = some a.wait_interval
subscriber_keywords a header_max_value_length = some a.header_max_value_length
subscriber_keywords a title = some a.title
subscriber_keywords a description = some a.description
subscriber_keywords a include_in_schema = some a.include_in_schema
subscriber_keywords a k = none

-- `MQRoute`
pub record MqRoute : Type 0 where
  pub call : Object
  pub publishers : List Keywords
  pub keywords : Keywords

-- `MQRoute.__init__`
abbrev pub new_route : Object → List Keywords → SubscriberArgs → MqRoute
new_route call publishers a = record {
  call = call;
  publishers = publishers;
  keywords = subscriber_keywords a;
}

-- what `MQRouter.__init__` makes of its arguments: the handlers and routers that it hands to
-- faststream, and the fields of its `MQBrokerConfig`
pub record MqRouter : Type 0 where
  pub handlers : List MqRoute
  pub routers : List Object
  pub prefix : Text
  pub include_in_schema : Bool
  pub broker_middlewares : List Object
  pub broker_dependencies : List Object
  pub broker_parser : Option Object
  pub broker_decoder : Option Object

-- the argument that was given, or the default of the signature
abbrev pub given_or_default {ℓ} : {A : Type ℓ} → Option A → A → A
given_or_default none default = default
given_or_default (some a) default = a

-- a keyword that `publisher` does not know
abbrev unknown_to_publisher : Keywords → Bool
unknown_to_publisher given =
    is_some (given ack_policy)
    || is_some (given dependencies)
    || is_some (given parser)
    || is_some (given decoder)
    || is_some (given no_reply)
    || is_some (given wait_interval)
    || is_some (given header_max_value_length)

-- a keyword that `subscriber` does not know
abbrev unknown_to_subscriber : Keywords → Bool
unknown_to_subscriber given =
    is_some (given headers)
    || is_some (given reply_to)
    || is_some (given reply_to_qmgr)
    || is_some (given priority)
    || is_some (given persistence)
    || is_some (given expiry)
    || is_some (given message_type)
    || is_some (given schema)

abbrev publisher_args_of : Keywords → QueueName → PublisherArgs
publisher_args_of given q = record {
  queue = q;
  headers = given_or_default (given headers) none;
  reply_to = given_or_default (given reply_to) [];
  reply_to_qmgr = given_or_default (given reply_to_qmgr) [];
  priority = given_or_default (given priority) none;
  persistence = given_or_default (given persistence) none;
  expiry = given_or_default (given expiry) none;
  message_type = given_or_default (given message_type) none;
  middlewares = given_or_default (given middlewares) [];
  title = given_or_default (given title) none;
  description = given_or_default (given description) none;
  schema = given_or_default (given schema) none;
  include_in_schema = given_or_default (given include_in_schema) true;
}

abbrev subscriber_args_of : Keywords → QueueName → SubscriberArgs
subscriber_args_of given q = record {
  queue = q;
  ack_policy = given_or_default (given ack_policy) none;
  dependencies = given_or_default (given dependencies) [];
  parser = given_or_default (given parser) none;
  decoder = given_or_default (given decoder) none;
  middlewares = given_or_default (given middlewares) [];
  no_reply = given_or_default (given no_reply) false;
  wait_interval = given_or_default (given wait_interval) (pos 1000000);
  header_max_value_length = given_or_default (given header_max_value_length) 64;
  title = given_or_default (given title) none;
  description = given_or_default (given description) none;
  include_in_schema = given_or_default (given include_in_schema) true;
}

module _ {S : Type 0} (base : Base S) where
  -- `publisher(**given)` of a registrator
  unfoldable pub publisher_with : Keywords → Exec S RegisteredPublisher
  publisher_with given =
      if unknown_to_publisher given then lift (err type_error) else elim (given queue) [
        | none ↦ lift (err type_error)
        | some q ↦
            publisher base (given_or_default (given persistent) true) (publisher_args_of given q)
      ]

  -- `subscriber(**given)` of a registrator
  unfoldable pub subscriber_with : Keywords → Exec S MqSubscriber
  subscriber_with given =
      if unknown_to_subscriber given then lift (err type_error) else elim (given queue) [
        | none ↦ lift (err type_error)
        | some q ↦
            subscriber base (given_or_default (given persistent) true) (subscriber_args_of given q)
      ]

  -- What a registrator registers with the keyword arguments that a route has kept is what it registers
  -- if it is called with the arguments of the route, in every state, and so for a publisher of a
  -- route. This holds for whatever middlewares it is called with: neither the subscriber nor the
  -- publisher depends on them.
  pub route-registers :
      (call : Object) (publishers : List Keywords) (a : SubscriberArgs) (b : PublisherArgs)
      (given given' : List Object) (x : S)
      → (subscriber_with (new_route call publishers a).keywords x
          ≡ subscriber base true (record a { middlewares = given }) x)
        × (publisher_with (publisher_keywords b) x
            ≡ publisher base true (record b { middlewares = given' }) x)
  unfolding subscriber_with publisher_with subscriber_keywords publisher_keywords subscriber
      publisher create_subscriber create_publisher
  route-registers call publishers a b given given' x = (refl, refl)
