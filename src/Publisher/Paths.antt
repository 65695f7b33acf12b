-- ===== src/Publisher/Paths.antt =====
-- The two ways into a publisher: `publish`, and `_publish` for what a handler returned.
use faststream_mq.Base.{◌≡◌, refl, inl, inr, none, [], Dict, update, codes}
use faststream_mq.Errors.{Result-cases}
use faststream_mq.Values.{Value}
use faststream_mq.Ids.{normalize_mq_id}
use faststream_mq.Command.{new_publish_command, PublishCommand, plain_command, from_cmd}
use faststream_mq.Publisher.{
  MqPublisher, Arguments, publish_command, decorated_command, routing, type_or,
}

-- a handler's plain command, as arguments of `publish`
abbrev pub arguments_of : PublishCommand → Arguments
arguments_of cmd = record {
  message = cmd.body;
  queue_name = none;
  headers = cmd.headers;
  correlation_id = cmd.correlation_id;
  reply_to = cmd.reply_to;
  reply_to_qmgr = [];
  priority = none;
  persistence = none;
  expiry = none;
  message_type = none;
  message_id = none;
}

-- If faststream adds a publisher's headers to a command as `d | e` does, keeping the command's own,
-- what a publisher makes of a handler's plain command is what its `publish` makes of the same body,
-- headers, correlation identifier and reply queue: the same command, or the same exception.
pub decorated_command-publish :
    (add_headers : Dict Value → Dict Value → Dict Value) (p : MqPublisher) (cmd : PublishCommand)
    → ((h d : Dict Value) → add_headers h d ≡ update h d)
    → decorated_command add_headers p (plain_command cmd) ≡ publish_command p (arguments_of cmd)
unfolding decorated_command from_cmd publish_command new_publish_command normalize_mq_id routing
    type_or
decorated_command-publish add_headers p cmd merge =
    elim (Result-cases (normalize_mq_id cmd.correlation_id (codes "correlation_id"))) [
      | inl (c, r) ↦ rw (r, merge p.headers cmd.headers) refl
      | inr (e, r) ↦ rw r refl
    ]
