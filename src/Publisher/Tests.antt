-- ===== src/Publisher/Tests.antt =====
-- The laws of the publishers on one publisher and one request.
use faststream_mq.Base.{◌≡◌, refl, true, none, some, [], ◌∷◌, codes, update}
use faststream_mq.Errors.{ok}
use faststream_mq.Values.{pos, str_value}
use faststream_mq.Ids.Tests.{raw_id}
use faststream_mq.Command.{
  MqPublishCommand, PublishCommand, plain_command, mq_command, default_command,
}
use faststream_mq.Connection.Publish.{correl_field}
use faststream_mq.Connection.Tests.{sample_env, received, received_message, received-built}
use faststream_mq.Publisher.{
  MqPublisher, publish_command, decorated_command, patch_command, make_response_publisher,
}
use faststream_mq.Publisher.Paths.{arguments_of, decorated_command-publish}
use faststream_mq.Publisher.Reply.{patch_command-reply}

abbrev pub orders : MqPublisher
orders = record {
  prefix = codes "DEV.";
  queue_of = record { name = codes "ORDERS" };
  headers = (codes "x-tenant", str_value (codes "t1")) ∷ [];
  reply_to = codes "DEV.REPLIES";
  reply_to_qmgr = [];
  priority = some (pos 4);
  persistence = some true;
  expiry = none;
  message_type = none;
}

abbrev returned : PublishCommand
returned = record {
  body = 7;
  destination = [];
  headers = (codes "x-tenant", str_value (codes "t2")) ∷ [];
  correlation_id = none;
  reply_to = [];
}

decorated_command-publish_example :
    decorated_command update orders (plain_command returned)
    ≡ publish_command orders (arguments_of returned)
decorated_command-publish_example = decorated_command-publish update orders returned (λ h d. refl)

-- what the handler returned, and the reply that becomes of it
abbrev pub own_command : MqPublishCommand
own_command = default_command 7 (codes "ELSEWHERE")

abbrev pub reply_command : MqPublishCommand
reply_command = record own_command {
  destination = received_message.reply_to;
  reply_to_qmgr = received_message.reply_to_qmgr;
  native_correlation_id = received_message.native_message_id;
  syncpoint = true;
}

pub reply-made :
    patch_command (λ c. c) (make_response_publisher received_message) (mq_command own_command)
    ≡ ok reply_command
unfolding patch_command make_response_publisher
reply-made = refl

patch_command-reply_example :
    (reply_command.destination ≡ received_message.reply_to)
    × (reply_command.reply_to_qmgr ≡ received_message.reply_to_qmgr)
    × (reply_command.syncpoint ≡ true)
    × (correl_field reply_command.native_correlation_id reply_command.correlation_id
        ≡ ok (some (some raw_id)))
patch_command-reply_example =
    patch_command-reply sample_env (codes "ping") received [] (codes "DEV.QUEUE.1") true
      received_message raw_id (λ c. c) (mq_command own_command) reply_command refl received-built
      reply-made
