-- ===== src/Producer/Reply.antt =====
-- The reply to a message: the producer that `_make_response_publisher` of subscriber/usecase.py picks
-- for it, and what publishing it leaves to the settlement of the message.
use faststream_mq.Base.{if◌then◌else◌}
use faststream_mq.Exec.{Exec}
use faststream_mq.Native.{Env}
use faststream_mq.Command.{MqPublishCommand}
use faststream_mq.Connection.State.{State, Connection}
use faststream_mq.Connection.Message.{MqRawMessage}
use faststream_mq.Producer.{Producer, state_of, connection_publish, producer_publish}

-- the producer of the broker, and the connection that the message came from
pub record ReplySides : Type 0 where
  pub producer : Producer
  pub connection : Connection

-- `publish` of the producer that the response publisher of a message has
unfoldable pub publish_reply : Env → MqRawMessage → MqPublishCommand → Exec ReplySides (Unit {0})
publish_reply env raw cmd sides =
    if raw.connection
    then (let (r, s) = connection_publish env cmd (state_of sides.producer sides.connection) in
        (
          r,
          record {
            producer = record (sides.producer) { log = s.log; amq_tls_scope = s.amq_tls_scope };
            connection = s.conn;
          },
        ))
    else (let (r, p) = producer_publish env cmd sides.producer in
        (r, record { producer = p; connection = sides.connection }))
