-- ===== src/Publisher.antt =====
-- schemas.py, publisher/usecase.py and publisher/fake.py: the command that a publisher makes of its
-- arguments, of a handler's result and of a reply.
pub mod Paths
pub mod Reply
pub mod Tests
use faststream_mq.Base.{
  ℕ, Text, Bytes, Bool, true, Option, none, some, List, [], ◌∷◌, ◌++◌, Dict, update, text_or,
  or_else,
}
use faststream_mq.Errors.{Result, ok, err, ◌>>=◌}
use faststream_mq.Values.{ℤ, Value}
use faststream_mq.Command.{
  MqPublishCommand, new_publish_command, AnyCommand, default_command, from_cmd, Duration,
}
use faststream_mq.Connection.Message.{MqRawMessage}

-- `MQQueue`
pub record MqQueue : Type 0 where
  pub name : Text

-- what `MQQueue.validate` takes
pub data QueueName : Type 0 where
  queue : MqQueue → QueueName
  plain_name : Text → QueueName

abbrev pub validate : QueueName → MqQueue
validate (queue q) = q
validate (plain_name t) = record { name = t }

-- `MQPublisher`, with the prefix of the broker that it belongs to
pub record MqPublisher : Type 0 where
  pub prefix : Text
  pub queue_of : MqQueue
  pub headers : Dict Value
  pub reply_to : Text
  pub reply_to_qmgr : Text
  pub priority : Option ℤ
  pub persistence : Option Bool
  pub expiry : Option ℤ
  pub message_type : Option Text

-- `MQPublisher.routing`
unfoldable pub routing : MqPublisher → Option QueueName → Text
routing p none = p.prefix ++ p.queue_of.name
routing p (some q) = p.prefix ++ (validate q).name

-- `message_type or self.message_type`
unfoldable pub type_or : Option Text → Option Text → Option Text
type_or none u = u
type_or (some []) u = u
type_or (some (c ∷ t)) u = some (c ∷ t)

-- the arguments of `MQPublisher.publish`; those of `request` have no reply names, but a timeout
pub record Arguments : Type 0 where
  pub message : ℕ
  pub queue_name : Option QueueName
  pub headers : Dict Value
  pub correlation_id : Option Text
  pub reply_to : Text
  pub reply_to_qmgr : Text
  pub priority : Option ℤ
  pub persistence : Option Bool
  pub expiry : Option ℤ
  pub message_type : Option Text
  pub message_id : Option Text

-- the command of `MQPublisher.publish`
unfoldable pub publish_command : MqPublisher → Arguments → Result MqPublishCommand
unfolding new_publish_command routing
publish_command p a =
    new_publish_command (record (default_command a.message (routing p a.queue_name)) {
      headers = update p.headers a.headers;
      correlation_id = a.correlation_id;
      message_id = a.message_id;
      reply_to = text_or a.reply_to p.reply_to;
      reply_to_qmgr = text_or a.reply_to_qmgr p.reply_to_qmgr;
      priority = or_else a.priority p.priority;
      persistence = or_else a.persistence p.persistence;
      expiry = or_else a.expiry p.expiry;
      message_type = type_or a.message_type p.message_type;
    })

-- the command of `MQPublisher.request`
unfoldable pub request_command : MqPublisher → Arguments → Duration → Result MqPublishCommand
unfolding new_publish_command routing
request_command p a timeout =
    new_publish_command (record (default_command a.message (routing p a.queue_name)) {
      headers = update p.headers a.headers;
      correlation_id = a.correlation_id;
      message_id = a.message_id;
      priority = or_else a.priority p.priority;
      persistence = or_else a.persistence p.persistence;
      expiry = or_else a.expiry p.expiry;
      message_type = type_or a.message_type p.message_type;
      timeout = timeout;
    })

-- `cmd.add_headers(headers, override=False)` of faststream, on the headers of the command
module _ (add_headers : Dict Value → Dict Value → Dict Value) where
  -- the command of `MQPublisher._publish`, which publishes what a handler returned
  unfoldable pub decorated_command : MqPublisher → AnyCommand → Result MqPublishCommand
  unfolding from_cmd routing
  decorated_command p command = do
    real ← from_cmd command
    ok (record real {
      destination = routing p none;
      reply_to = text_or (real.reply_to) p.reply_to;
      reply_to_qmgr = text_or (real.reply_to_qmgr) p.reply_to_qmgr;
      priority = or_else (real.priority) p.priority;
      persistence = or_else (real.persistence) p.persistence;
      expiry = or_else (real.expiry) p.expiry;
      message_type = type_or (real.message_type) p.message_type;
      headers = add_headers p.headers (real.headers);
    })

-- `MQFakePublisher`
pub record MqFakePublisher : Type 0 where
  pub queue : Text
  pub reply_to_qmgr : Text
  pub native_correlation_id : Option Bytes

-- `FakePublisher.patch_command` of faststream is `base`.
unfoldable pub patch_command :
    (AnyCommand → AnyCommand) → MqFakePublisher → AnyCommand → Result MqPublishCommand
unfolding from_cmd
patch_command base p command = do
  real ← from_cmd (base command)
  ok (record real {
    destination = p.queue;
    reply_to_qmgr = p.reply_to_qmgr;
    native_correlation_id = p.native_correlation_id;
    syncpoint = true;
  })

-- `_make_response_publisher` of subscriber/usecase.py, less the producer that it picks
unfoldable pub make_response_publisher : MqRawMessage → MqFakePublisher
make_response_publisher raw = record {
  queue = raw.reply_to;
  reply_to_qmgr = raw.reply_to_qmgr;
  native_correlation_id = raw.native_message_id;
}
