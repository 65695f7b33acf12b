-- ===== src/Registration.antt =====
-- broker/registrator.py, with the factories and configurations of subscriber/ and publisher/: how an
-- application registers subscribers and publishers.
pub mod Specification
pub mod Addresses
pub mod Routes
pub mod Tests
use faststream_mq.Base.{ℕ, Text, codes, ◌++◌, Bool, Option, none, some, List, Dict}
use faststream_mq.Errors.{Exc, setup_error}
use faststream_mq.Exec.{Exec, raise, pure, ◌>>=◌, ◌>>◌}
use faststream_mq.Values.{ℤ, Value}
use faststream_mq.Command.{Duration}
use faststream_mq.Subscriber.{AckPolicy, nack_on_error}
use faststream_mq.Publisher.{MqQueue, QueueName, validate, MqPublisher}

-- an object that is only passed on, such as a dependency or a decoder, by its identity
abbrev pub Object : Type 0
Object = ℕ

-- the arguments of `MQRegistrator.subscriber`, less `persistent`; `none` is `EMPTY` for the policy
pub record SubscriberArgs : Type 0 where
  pub queue : QueueName
  pub ack_policy : Option AckPolicy
  pub dependencies : List Object
  pub parser : Option Object
  pub decoder : Option Object
  pub middlewares : List Object
  pub no_reply : Bool
  pub wait_interval : Duration
  pub header_max_value_length : ℕ
  pub title : Option Text
  pub description : Option Text
  pub include_in_schema : Bool

-- the arguments of `MQRegistrator.publisher`, less `persistent`
pub record PublisherArgs : Type 0 where
  pub queue : QueueName
  pub headers : Option (Dict Value)
  pub reply_to : Text
  pub reply_to_qmgr : Text
  pub priority : Option ℤ
  pub persistence : Option Bool
  pub expiry : Option ℤ
  pub message_type : Option Text
  pub middlewares : List Object
  pub title : Option Text
  pub description : Option Text
  pub schema : Option Object
  pub include_in_schema : Bool

-- `MQSubscriberConfig`
pub record MqSubscriberConfig : Type 0 where
  pub queue : MqQueue
  pub no_reply : Bool
  pub given_policy : Option AckPolicy
  pub wait_interval : Duration
  pub header_max_value_length : ℕ

-- `MQSubscriberSpecificationConfig`
pub record MqSubscriberSpecificationConfig : Type 0 where
  pub queue : MqQueue
  pub title : Option Text
  pub description : Option Text
  pub include_in_schema : Bool

-- a registered `MQSubscriber`; its `_outer_config` is the configuration of its registrator, whose
-- prefix may change, so what reads the prefix takes it as an argument
pub record MqSubscriber : Type 0 where
  pub config : MqSubscriberConfig
  pub specification : MqSubscriberSpecificationConfig

-- `MQPublisherConfig`
pub record MqPublisherConfig : Type 0 where
  pub queue : MqQueue
  pub headers : Dict Value
  pub reply_to : Text
  pub reply_to_qmgr : Text
  pub priority : Option ℤ
  pub persistence : Option Bool
  pub expiry : Option ℤ
  pub message_type : Option Text

-- `MQPublisherSpecificationConfig`
pub record MqPublisherSpecificationConfig : Type 0 where
  pub queue : MqQueue
  pub schema : Option Object
  pub title : Option Text
  pub description : Option Text
  pub include_in_schema : Bool

-- a registered `MQPublisher`
pub record RegisteredPublisher : Type 0 where
  pub config : MqPublisherConfig
  pub specification : MqPublisherSpecificationConfig

-- `MQSubscriberConfig.ack_policy`
unfoldable pub ack_policy_of : MqSubscriberConfig → AckPolicy
ack_policy_of c = elim c.given_policy [ none ↦ nack_on_error | some policy ↦ policy ]

-- `create_subscriber`; `queue` is the validated one
unfoldable pub create_subscriber : MqQueue → SubscriberArgs → MqSubscriber
create_subscriber queue a = record {
  config = record {
    queue = queue;
    no_reply = a.no_reply;
    given_policy = a.ack_policy;
    wait_interval = a.wait_interval;
    header_max_value_length = a.header_max_value_length;
  };
  specification = record {
    queue = queue;
    title = a.title;
    description = a.description;
    include_in_schema = a.include_in_schema;
  };
}

-- `headers or {}`
abbrev headers_or_empty : Option (Dict Value) → Dict Value
headers_or_empty none = List.[]
headers_or_empty (some d) = d

-- `create_publisher`; it leaves the middlewares aside
unfoldable pub create_publisher : MqQueue → PublisherArgs → RegisteredPublisher
create_publisher queue a = record {
  config = record {
    queue = queue;
    headers = headers_or_empty a.headers;
    reply_to = a.reply_to;
    reply_to_qmgr = a.reply_to_qmgr;
    priority = a.priority;
    persistence = a.persistence;
    expiry = a.expiry;
    message_type = a.message_type;
  };
  specification = record {
    queue = queue;
    schema = a.schema;
    title = a.title;
    description = a.description;
    include_in_schema = a.include_in_schema;
  };
}

-- `MQPublisher.__init__` on its configuration, while the prefix of the registrator is `prefix`
abbrev pub publisher_at : Text → RegisteredPublisher → MqPublisher
publisher_at prefix p = record {
  prefix = prefix;
  queue_of = p.config.queue;
  headers = p.config.headers;
  reply_to = p.config.reply_to;
  reply_to_qmgr = p.config.reply_to_qmgr;
  priority = p.config.priority;
  persistence = p.config.persistence;
  expiry = p.config.expiry;
  message_type = p.config.message_type;
}

-- the arguments of `include_router`
pub record IncludeArgs : Type 0 where
  pub prefix : Text
  pub dependencies : List Object
  pub middlewares : List Object
  pub include_in_schema : Option Bool

-- faststream's `Registrator` and `add_call` of its subscribers, on the state `S` of the application
pub record Base (S : Type 0) : Type 0 where
  pub add_subscriber : MqSubscriber → Bool → Exec S (Unit {0})
  pub add_publisher : RegisteredPublisher → Bool → Exec S (Unit {0})
  pub add_call : MqSubscriber → Option Object → Option Object → List Object → Exec S MqSubscriber
  pub include : Object → IncludeArgs → Exec S (Unit {0})

-- what `include_router` may be given: an `MQRegistrator`, or something else of a named type
pub data AnyRouter : Type 0 where
  mq_registrator : Object → AnyRouter
  other_router : Text → AnyRouter

module _ {S : Type 0} (base : Base S) where
  -- `MQRegistrator.subscriber`; it leaves the middlewares aside
  unfoldable pub subscriber : Bool → SubscriberArgs → Exec S MqSubscriber
  unfolding create_subscriber
  subscriber persistent a = do
    base.add_subscriber (create_subscriber (validate a.queue) a) persistent
    base.add_call (create_subscriber (validate a.queue) a) a.parser a.decoder a.dependencies

  -- `MQRegistrator.publisher`
  unfoldable pub publisher : Bool → PublisherArgs → Exec S RegisteredPublisher
  unfolding create_publisher
  publisher persistent a = do
    base.add_publisher (create_publisher (validate a.queue) a) persistent
    pure (create_publisher (validate a.queue) a)

  -- `MQRegistrator.include_router`
  unfoldable pub include_router : AnyRouter → IncludeArgs → Exec S (Unit {0})
  include_router (mq_registrator router) a = base.include router a
  include_router (other_router type_name) a = raise (
      setup_error (
        codes "Router must be an instance of MQRegistrator, got " ++ type_name ++ codes " instead"))
