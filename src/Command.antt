-- ===== src/Command.antt =====
-- response.py: the publish command, with its two identifiers normalised when it is built.
use faststream_mq.Base.{ℕ, Text, Bytes, Bool, false, Option, none, codes, Dict, []}
use faststream_mq.Errors.{Result, ok, ◌>>=◌}
use faststream_mq.Values.{ℤ, pos, Value}
use faststream_mq.Ids.{normalize_mq_id}

-- A duration in seconds, as a whole number of microseconds.
abbrev pub Duration : Type 0
Duration = ℤ

-- `body` stands for the message object by its identity.
pub record MqPublishCommand : Type 0 where
  pub body : ℕ
  pub destination : Text
  pub headers : Dict Value
  pub correlation_id : Option Text
  pub message_id : Option Text
  pub reply_to : Text
  pub reply_to_qmgr : Text
  pub priority : Option ℤ
  pub persistence : Option Bool
  pub expiry : Option ℤ
  pub message_type : Option Text
  pub timeout : Duration
  pub native_correlation_id : Option Bytes
  pub syncpoint : Bool

-- `MQPublishCommand.__init__` on its arguments
unfoldable pub new_publish_command : MqPublishCommand → Result MqPublishCommand
new_publish_command args = do
  correlation ← normalize_mq_id args.correlation_id (codes "correlation_id")
  message ← normalize_mq_id args.message_id (codes "message_id")
  ok (record args { correlation_id = correlation; message_id = message })

-- faststream's own `PublishCommand`
pub record PublishCommand : Type 0 where
  pub body : ℕ
  pub destination : Text
  pub headers : Dict Value
  pub correlation_id : Option Text
  pub reply_to : Text

pub data AnyCommand : Type 0 where
  mq_command : MqPublishCommand → AnyCommand
  plain_command : PublishCommand → AnyCommand

-- the keyword defaults of `MQPublishCommand.__init__`
abbrev pub default_command : ℕ → Text → MqPublishCommand
default_command body destination = record {
  body = body;
  destination = destination;
  headers = [];
  correlation_id = none;
  message_id = none;
  reply_to = [];
  reply_to_qmgr = [];
  priority = none;
  persistence = none;
  expiry = none;
  message_type = none;
  timeout = pos 5000000;
  native_correlation_id = none;
  syncpoint = false;
}

-- `MQPublishCommand.from_cmd`
unfoldable pub from_cmd : AnyCommand → Result MqPublishCommand
unfolding new_publish_command
from_cmd (mq_command cmd) = ok cmd
from_cmd (plain_command cmd) =
    new_publish_command (record (default_command cmd.body cmd.destination) {
      headers = cmd.headers;
      correlation_id = cmd.correlation_id;
      reply_to = cmd.reply_to;
    })

-- `MQResponse`
pub record MqResponse : Type 0 where
  pub body : ℕ
  pub headers : Dict Value
  pub correlation_id : Option Text
  pub message_id : Option Text
  pub reply_to : Text
  pub reply_to_qmgr : Text
  pub priority : Option ℤ
  pub persistence : Option Bool
  pub expiry : Option ℤ
  pub message_type : Option Text

-- `MQResponse.as_publish_command`
unfoldable pub as_publish_command : MqResponse → Result MqPublishCommand
unfolding new_publish_command
as_publish_command r = new_publish_command (record (default_command r.body []) {
  headers = r.headers;
  correlation_id = r.correlation_id;
  message_id = r.message_id;
  reply_to = r.reply_to;
  reply_to_qmgr = r.reply_to_qmgr;
  priority = r.priority;
  persistence = r.persistence;
  expiry = r.expiry;
  message_type = r.message_type;
})
