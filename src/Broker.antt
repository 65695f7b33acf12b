-- ===== src/Broker.antt =====
-- security.py, configs/broker.py and broker/broker.py: the settings that a broker makes of its
-- arguments, the commands of its `publish` and `request`, and its connect with retries.
pub mod Address
pub mod Connecting
pub mod Lifecycle
pub mod Tests
use faststream_mq.Base.{
  ℕ, zero, suc, ◌+◌, ◌/◌, ◌%◌, Text, Bool, false, true, Option, none, some, List, [], ◌∷◌, ◌++◌,
  codes, ltb, is_some, ◌||◌, ◌==◌, if◌then◌else◌, text_or, decimal, or_else, Dict,
}
use faststream_mq.Errors.{Result, ok, err, ◌>>=◌, value_error, not_implemented_error}
use faststream_mq.Values.{pos, Value}
use faststream_mq.Tls.{MqTlsConfig, validate_tls_configuration}
use faststream_mq.Command.{MqPublishCommand, new_publish_command, default_command, Duration}
use faststream_mq.Connection.State.{ConnectionConfig, is_set}
use faststream_mq.Publisher.{MqQueue, QueueName, validate, Arguments}

-- faststream's security objects: `SASLPlaintext`, with whether it has an SSL context, or another
-- class
pub data Security : Type 0 where
  sasl_plaintext : (username password : Text) (use_ssl ssl_context : Bool) → Security
  other_security : Security

-- the dictionary of `parse_security`; what it does not hold is `none` or false
pub record SecurityArgs : Type 0 where
  pub username : Option Text
  pub password : Option Text
  pub use_ssl : Bool
  pub ssl_context : Bool

unfoldable pub parse_security : Option Security → Result SecurityArgs
parse_security none =
    ok (record { username = none; password = none; use_ssl = false; ssl_context = false })
parse_security (some (sasl_plaintext username password use_ssl ssl_context)) = ok (record {
  username = some username;
  password = some password;
  use_ssl = use_ssl;
  ssl_context = ssl_context;
})
parse_security (some other_security) = err not_implemented_error

-- the arguments of `MQBroker` that bear on its connections and its address in the specification
pub record BrokerArgs : Type 0 where
  pub queue_manager : Text
  pub channel : Option Text
  pub conn_name : Option Text
  pub host : Option Text
  pub port : Option ℕ
  pub ccdt_url : Option Text
  pub reconnect : Text
  pub username : Option Text
  pub password : Option Text
  pub tls : Option MqTlsConfig
  pub reply_model_queue : Text
  pub wait_interval : Duration
  pub security : Option Security
  pub specification_url : Option Text
  pub protocol : Option Text

-- what `MQBroker.__init__` hands to its configuration and its specification
pub record BrokerConfig : Type 0 where
  pub connection_config : ConnectionConfig
  pub specification_url : Text
  pub protocol : Text

-- `value or default`
abbrev pub some_or : Option Text → Text → Text
some_or none default = default
some_or (some t) default = text_or t default

-- `value or other`, where both may be missing
abbrev pub either : Option Text → Option Text → Option Text
either none other = other
either (some []) other = other
either (some (c ∷ t)) other = some (c ∷ t)

-- `port or 1414`
abbrev port_or_default : Option ℕ → ℕ
port_or_default none = 1414
port_or_default (some zero) = 1414
port_or_default (some (suc n)) = suc n

-- `f"{host}({port})"`, with the defaults
unfoldable pub address_of : Option Text → Option ℕ → Text
unfolding decimal
address_of host port =
    some_or host (codes "127.0.0.1") ++ codes "(" ++ decimal (port_or_default port) ++ codes ")"

-- the connection name: the one given, or the address
abbrev pub name_or_address : Option Text → Option Text → Option ℕ → Text
name_or_address none host port = address_of host port
name_or_address (some name) host port = name

-- the channel and the connection name
unfoldable pub resolve_address : BrokerArgs → Result (Option Text × Option Text)
resolve_address a = elim a.ccdt_url [
  | none ↦ ok (
    some (some_or a.channel (codes "DEV.APP.SVRCONN")),
    some (name_or_address a.conn_name a.host a.port),
  )
  | some url ↦
      if is_some a.conn_name || is_some a.host || is_some a.port
      then err
          (value_error (codes "`ccdt_url` cannot be combined with `conn_name`, `host`, or `port`."))
      else ok (a.channel, none)
]

-- `MQBroker.__init__`; the fields that it does not set have their defaults
unfoldable pub new_broker : BrokerArgs → Result BrokerConfig
unfolding parse_security validate_tls_configuration resolve_address
new_broker a = do
  security ← parse_security a.security
  checked ← validate_tls_configuration a.tls security.use_ssl security.ssl_context
  address ← resolve_address a
  ok (record {
    connection_config = record {
      queue_manager = a.queue_manager;
      channel = address.0;
      conn_name = address.1;
      username = either security.username a.username;
      password = either security.password a.password;
      tls = a.tls;
      reply_model_queue = a.reply_model_queue;
      wait_interval = a.wait_interval;
      ccdt_url = a.ccdt_url;
      reconnect_mode = a.reconnect;
      startup_retry_timeout = pos 60000000;
      startup_retry_interval = pos 2000000;
    };
    specification_url = some_or a.specification_url (
        codes "mq://"
        ++ a.queue_manager
        ++ codes "@"
        ++ some_or address.1 (some_or a.ccdt_url (codes "ccdt")));
    protocol = some_or a.protocol (codes "ibmmq");
  })

-- `MQQueue.add_prefix`
abbrev pub add_prefix : Text → MqQueue → MqQueue
add_prefix prefix q = record { name = prefix ++ q.name }

-- `MQQueue.validate(queue).add_prefix(prefix).routing()`
unfoldable pub broker_routing : Text → QueueName → Text
broker_routing prefix q = (add_prefix prefix (validate q)).name

-- the command of `MQBroker.publish`; a queue that is not given is `""`
unfoldable pub broker_publish_command : Text → QueueName → Arguments → Result MqPublishCommand
unfolding new_publish_command broker_routing
broker_publish_command prefix q a =
    new_publish_command (record (default_command a.message (broker_routing prefix q)) {
      headers = a.headers;
      correlation_id = a.correlation_id;
      reply_to = a.reply_to;
      reply_to_qmgr = a.reply_to_qmgr;
      priority = a.priority;
      persistence = a.persistence;
      expiry = a.expiry;
      message_type = a.message_type;
      message_id = a.message_id;
    })

-- the command of `MQBroker.request`
unfoldable pub broker_request_command :
    Text → QueueName → Arguments → Duration → Result MqPublishCommand
unfolding new_publish_command broker_routing
broker_request_command prefix q a timeout =
    new_publish_command (record (default_command a.message (broker_routing prefix q)) {
      headers = a.headers;
      correlation_id = a.correlation_id;
      priority = a.priority;
      persistence = a.persistence;
      expiry = a.expiry;
      message_type = a.message_type;
      message_id = a.message_id;
      timeout = timeout;
    })
