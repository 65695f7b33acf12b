-- ===== src/Broker/Lifecycle.antt =====
-- `start`, `stop` and `ping` of broker/broker.py, with `connect` and `disconnect` of
-- configs/broker.py; the state is the producer with the broker's own reference to a connection.
use faststream_mq.Base.{◌≡◌, refl, Bool, Option, none, inl, inr}
use faststream_mq.Errors.{err, ok, assertion_error}
use faststream_mq.Exec.{Exec, modify, ◌>>=◌, ◌>>◌}
use faststream_mq.Exec.Hoare.{run-cases}
use faststream_mq.Native.{Env}
use faststream_mq.Command.{MqPublishCommand}
use faststream_mq.Connection.State.{Connection, ConnectionConfig}
use faststream_mq.Producer.{
  Producer, producer_connect, producer_disconnect, producer_ping, producer_publish,
}
use faststream_mq.Producer.Lifecycle.{producer_disconnect-clears}

-- a broker that is in use
pub record RunningBroker : Type 0 where
  pub producer : Producer
  -- `_connection` of faststream's `BrokerUsecase`
  pub connection : Option Connection

-- a method of the producer of the configuration
unfoldable pub on_producer : {A : Type 0} → Exec Producer A → Exec RunningBroker A
on_producer m b = let (r, p) = m b.producer in (r, record b { producer = p })

-- `connect`, `start` and `stop` of faststream's `BrokerUsecase`
pub record BaseBroker : Type 0 where
  pub base_connect : Exec RunningBroker (Unit {0})
  pub base_start : Exec RunningBroker (Unit {0})
  pub base_stop : Exec RunningBroker (Unit {0})

module _ (env : Env) where
  -- `MQBrokerConfig.connect`
  unfoldable pub config_connect : ConnectionConfig → Exec RunningBroker (Unit {0})
  config_connect cfg = on_producer (producer_connect env cfg)

  -- `MQBrokerConfig.disconnect`
  unfoldable pub config_disconnect : Exec RunningBroker (Unit {0})
  config_disconnect = on_producer (producer_disconnect env)

  -- `start` of a broker
  unfoldable pub broker_start : BaseBroker → Exec RunningBroker (Unit {0})
  broker_start base = do base.base_connect; base.base_start

  -- `stop` of a broker
  unfoldable pub broker_stop : BaseBroker → Exec RunningBroker (Unit {0})
  broker_stop base = do
    base.base_stop
    config_disconnect
    modify (λ b. record b { connection = none })

  -- `ping` of a broker; the producer does without the time limit
  unfoldable pub broker_ping : Exec RunningBroker Bool
  broker_ping = on_producer (producer_ping env)

  -- a producer without a connection publishes nothing
  producer_publish-unconnected :
      (cmd : MqPublishCommand) (p : Producer)
      → p.publish_connection ≡ none
      → producer_publish env cmd p ≡ (err assertion_error, p)
  unfolding producer_publish ◌>>=◌
  producer_publish-unconnected cmd p idle = simp idle

  -- After a `stop` that faststream's part of it does not break off the broker has no connection,
  -- and what is published raises an `AssertionError` and is not sent.
  pub broker_stop-unconnected :
      (base : BaseBroker) (b c : RunningBroker) (cmd : MqPublishCommand)
      → base.base_stop b ≡ (ok tt, c)
      → let (r, after) = broker_stop base b in
        (r ≡ ok tt)
        × (after.connection ≡ none)
        × (after.producer.publish_connection ≡ none)
        × (after.producer.request_connection ≡ none)
        × (on_producer (producer_publish env cmd) after ≡ (err assertion_error, after))
  unfolding broker_stop config_disconnect on_producer ◌>>=◌ modify
  broker_stop-unconnected base b c cmd h =
      let cleared = producer_disconnect-clears env c.producer in
      elim (run-cases (producer_disconnect env) c.producer) [
        | inr (e, q, r) ↦ (let k = rw r at cleared in absurd cc)
        | inl (u, q, r) ↦
            let known = rw r at cleared in
            let idle = producer_publish-unconnected cmd q known.1 in
            simp (h, r, idle) (refl, refl, known.1, known.2, refl)
      ]
