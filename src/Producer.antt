-- ===== src/Producer.antt =====
-- publisher/producer.py: the producer, with one connection to publish on and one for requests.
pub mod Unconnected
pub mod Lifecycle
pub mod Reply
pub mod Tests
use faststream_mq.Base.{ℕ, Text, Bool, true, false, Option, none, some, List, []}
use faststream_mq.Errors.{not_implemented_error}
use faststream_mq.Exec.{
  Exec, pure, raise, gets, modify, assert_some, if_some, for_some, ◌>>=◌, ◌>>◌,
}
use faststream_mq.Native.{Env, Event}
use faststream_mq.Command.{MqPublishCommand}
use faststream_mq.Connection.State.{State, Connection, ConnectionConfig}
use faststream_mq.Connection.Connect.{connect}
use faststream_mq.Connection.Recover.{disconnect_connection}
use faststream_mq.Connection.Consume.{ping}
use faststream_mq.Connection.Message.{MqRawMessage}
use faststream_mq.Connection.Api.{async_publish, async_request}

-- The attributes of `AsyncMQFastProducerImpl`, with what its connections share: the calls made so
-- far, and the environment variable.
pub record Producer : Type 0 where
  pub publish_connection : Option Connection
  pub request_connection : Option Connection
  pub connection_config : Option ConnectionConfig
  pub log : List Event
  pub amq_tls_scope : Option Text

-- `AsyncMQConnection.__init__`
abbrev pub new_connection : ConnectionConfig → Connection
new_connection cfg = record {
  connection_config = cfg;
  executor = false;
  qmgr = none;
  consumer_queue = none;
  consumer_queue_name = [];
  prepared_tls = none;
}

abbrev pub state_of : Producer → Connection → State
state_of p c = record { conn = c; log = p.log; amq_tls_scope = p.amq_tls_scope }

abbrev pub set_publish : Option Connection → Producer → Producer
set_publish c p = record p { publish_connection = c }

abbrev pub set_request : Option Connection → Producer → Producer
set_request c p = record p { request_connection = c }

-- a method of the connection `c`, which `put_back` writes back
unfoldable pub on_connection :
    {A : Type 0}
    → Connection
    → (Option Connection → Producer → Producer)
    → Exec State A
    → Exec Producer A
on_connection c put_back m p =
    let (r, s) = m (state_of p c) in
    (r, put_back (some s.conn) (record p { log = s.log; amq_tls_scope = s.amq_tls_scope }))

-- `connection`
abbrev pub producer_connection : Producer → Option Connection
producer_connection p = p.publish_connection

module _ (env : Env) where
  -- `AsyncMQConnectionProducer.publish`, on its connection
  unfoldable pub connection_publish : MqPublishCommand → Exec State (Unit {0})
  connection_publish cmd = async_publish env cmd

  -- `AsyncMQConnectionProducer.request`
  unfoldable pub connection_request : ℕ → MqPublishCommand → Exec State MqRawMessage
  connection_request fuel cmd = async_request env fuel cmd

  -- `connect`
  unfoldable pub producer_connect : ConnectionConfig → Exec Producer (Unit {0})
  producer_connect cfg = do
    modify (λ p. record p {
      connection_config = some cfg;
      publish_connection = some (new_connection cfg);
      request_connection = none;
    })
    on_connection (new_connection cfg) set_publish (connect env)

  -- `disconnect`; the connections have executors of their own, and neither raises
  unfoldable pub producer_disconnect : Exec Producer (Unit {0})
  producer_disconnect = do
    publish ← gets (λ p. p.publish_connection)
    for_some publish (λ c. on_connection c set_publish (disconnect_connection env))
    request ← gets (λ p. p.request_connection)
    for_some request (λ c. on_connection c set_request (disconnect_connection env))
    modify (λ p. record p {
      publish_connection = none;
      request_connection = none;
      connection_config = none;
    })

  -- `ping`
  unfoldable pub producer_ping : Exec Producer Bool
  producer_ping = do
    publish ← gets (λ p. p.publish_connection)
    if_some publish (λ c. on_connection c set_publish (ping env)) (pure false)

  -- `publish`
  unfoldable pub producer_publish : MqPublishCommand → Exec Producer (Unit {0})
  producer_publish cmd = do
    publish ← gets (λ p. p.publish_connection)
    c ← assert_some publish
    on_connection c set_publish (async_publish env cmd)

  -- `_get_request_connection`
  unfoldable pub get_request_connection : Exec Producer Connection
  get_request_connection = do
    known ← gets (λ p. p.request_connection)
    if_some known pure (do
      config ← gets (λ p. p.connection_config)
      cfg ← assert_some config
      modify (set_request (some (new_connection cfg)))
      on_connection (new_connection cfg) set_request (connect env)
      made ← gets (λ p. p.request_connection)
      assert_some made)

  -- `request`
  unfoldable pub producer_request : ℕ → MqPublishCommand → Exec Producer MqRawMessage
  producer_request fuel cmd = do
    c ← get_request_connection
    on_connection c set_request (async_request env fuel cmd)

-- `publish_batch`, of both producers
unfoldable pub publish_batch : MqPublishCommand → Exec Producer (Unit {0})
publish_batch cmd = raise not_implemented_error

-- every method of `FakeMQFastProducer`, the producer of a broker's configuration that has no other
unfoldable pub not_implemented : {S A : Type 0} → Exec S A
not_implemented = raise not_implemented_error
