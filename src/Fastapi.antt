-- ===== src/Fastapi.antt =====
-- fastapi/fastapi.py: the router that builds an `MQBroker` and registers on it for FastAPI.
pub mod Settings
use faststream_mq.Base.{ℕ, Text, codes, Bool, true, Option, none, some, if◌then◌else◌}
use faststream_mq.Values.{pos}
use faststream_mq.Tls.{MqTlsConfig}
use faststream_mq.Command.{Duration}
use faststream_mq.Exec.{Exec}
use faststream_mq.Broker.{Security, BrokerArgs}
use faststream_mq.Registration.{Object, SubscriberArgs, PublisherArgs, Base, RegisteredPublisher}
use faststream_mq.Registration.Routes.{
  Keywords, given_or_default, subscriber_keywords, publisher_keywords, publisher_with,
}

-- the keywords of the router: those of the broker's connections and address, then those that are
-- only passed on
pub data Setting : Type 0 where
  channel conn_name host port ccdt_url reconnect username password tls reply_model_queue : Setting
  wait_interval security specification_url protocol : Setting
  graceful_timeout decoder parser middlewares specification protocol_version description : Setting
  specification_tags logger log_level setup_state schema_url context prefix tags dependencies :
      Setting
  default_response_class responses callbacks routes redirect_slashes default_app : Setting
  dependency_overrides_provider route_class on_startup on_shutdown lifespan deprecated : Setting
  include_in_schema generate_unique_id_function : Setting

-- the type of a setting; one that is only passed on is an object
abbrev pub SettingValue : Setting → Type 0
SettingValue channel = Option Text
SettingValue conn_name = Option Text
SettingValue host = Option Text
SettingValue port = Option ℕ
SettingValue ccdt_url = Option Text
SettingValue reconnect = Text
SettingValue username = Option Text
SettingValue password = Option Text
SettingValue tls = Option MqTlsConfig
SettingValue reply_model_queue = Text
SettingValue wait_interval = Duration
SettingValue security = Option Security
SettingValue specification_url = Option Text
SettingValue protocol = Option Text
SettingValue k = Object

abbrev pub Settings : Type 0
Settings = (k : Setting) → Option (SettingValue k)

-- the arguments of `MQRouter.__init__`; `default_app` is its `default`
pub record RouterArgs : Type 0 where
  pub queue_manager : Text
  pub channel : Option Text
  pub conn_name : Option Text
  pub host : Option Text
  pub port : Option ℕ
  pub ccdt_url : Option Text
  pub reconnect : Text
  pub username : Option Text
  pub password : Option Text
  pub tls : Option MqTlsConfig
  pub reply_model_queue : Text
  pub wait_interval : Duration
  pub security : Option Security
  pub specification_url : Option Text
  pub protocol : Option Text
  pub graceful_timeout : Object
  pub decoder : Object
  pub parser : Object
  pub middlewares : Object
  pub specification : Object
  pub protocol_version : Object
  pub description : Object
  pub specification_tags : Object
  pub logger : Object
  pub log_level : Object
  pub setup_state : Object
  pub schema_url : Object
  pub context : Object
  pub prefix : Object
  pub tags : Object
  pub dependencies : Object
  pub default_response_class : Object
  pub responses : Object
  pub callbacks : Object
  pub routes : Object
  pub redirect_slashes : Object
  pub default_app : Object
  pub dependency_overrides_provider : Object
  pub route_class : Object
  pub on_startup : Object
  pub on_shutdown : Object
  pub lifespan : Object
  pub deprecated : Object
  pub include_in_schema : Object
  pub generate_unique_id_function : Object

-- the keyword arguments that `MQRouter.__init__` hands to `StreamRouter.__init__`
unfoldable pub router_settings : RouterArgs → Settings
router_settings a channel = some a.channel
router_settings a conn_name = some a.conn_name
router_settings a host = some a.host
router_settings a port = some a.port
router_settings a ccdt_url = some a.ccdt_url
router_settings a reconnect = some a.reconnect
router_settings a username = some a.username
router_settings a password = some a.password
router_settings a tls = some a.tls
router_settings a reply_model_queue = some a.reply_model_queue
router_settings a wait_interval = some a.wait_interval
router_settings a security = some a.security
router_settings a specification_url = some a.specification_url
router_settings a protocol = some a.protocol
router_settings a graceful_timeout = some a.graceful_timeout
router_settings a decoder = some a.decoder
router_settings a parser = some a.parser
router_settings a middlewares = some a.middlewares
router_settings a specification = some a.specification
router_settings a protocol_version = some a.protocol_version
router_settings a description = some a.description
router_settings a specification_tags = some a.specification_tags
router_settings a logger = some a.logger
router_settings a log_level = some a.log_level
router_settings a setup_state = some a.setup_state
router_settings a schema_url = some a.schema_url
router_settings a context = some a.context
router_settings a prefix = some a.prefix
router_settings a tags = some a.tags
router_settings a dependencies = some a.dependencies
router_settings a default_response_class = some a.default_response_class
router_settings a responses = some a.responses
router_settings a callbacks = some a.callbacks
router_settings a routes = some a.routes
router_settings a redirect_slashes = some a.redirect_slashes
router_settings a default_app = some a.default_app
router_settings a dependency_overrides_provider = some a.dependency_overrides_provider
router_settings a route_class = some a.route_class
router_settings a on_startup = some a.on_startup
router_settings a on_shutdown = some a.on_shutdown
router_settings a lifespan = some a.lifespan
router_settings a deprecated = some a.deprecated
router_settings a include_in_schema = some a.include_in_schema
router_settings a generate_unique_id_function = some a.generate_unique_id_function

-- the arguments of `MQBroker(queue_manager, **given)`, with its defaults
unfoldable pub broker_args_of : Text → Settings → BrokerArgs
broker_args_of queue_manager given = record {
  queue_manager = queue_manager;
  channel = given_or_default (given channel) none;
  conn_name = given_or_default (given conn_name) none;
  host = given_or_default (given host) none;
  port = given_or_default (given port) none;
  ccdt_url = given_or_default (given ccdt_url) none;
  reconnect = given_or_default (given reconnect) (codes "disabled");
  username = given_or_default (given username) none;
  password = given_or_default (given password) none;
  tls = given_or_default (given tls) none;
  reply_model_queue = given_or_default (given reply_model_queue) (codes "DEV.APP.MODEL.QUEUE");
  wait_interval = given_or_default (given wait_interval) (pos 1000000);
  security = given_or_default (given security) none;
  specification_url = given_or_default (given specification_url) none;
  protocol = given_or_default (given protocol) none;
}

-- the same arguments, given to `MQBroker` directly
abbrev pub direct_args : RouterArgs → BrokerArgs
direct_args a = record {
  queue_manager = a.queue_manager;
  channel = a.channel;
  conn_name = a.conn_name;
  host = a.host;
  port = a.port;
  ccdt_url = a.ccdt_url;
  reconnect = a.reconnect;
  username = a.username;
  password = a.password;
  tls = a.tls;
  reply_model_queue = a.reply_model_queue;
  wait_interval = a.wait_interval;
  security = a.security;
  specification_url = a.specification_url;
  protocol = a.protocol;
}

-- the response settings of `MQRouter.subscriber`, which faststream reads
pub record ResponseArgs : Type 0 where
  pub response_model : Object
  pub response_model_include : Option Object
  pub response_model_exclude : Option Object
  pub response_model_by_alias : Bool
  pub response_model_exclude_unset : Bool
  pub response_model_exclude_defaults : Bool
  pub response_model_exclude_none : Bool

-- `MQRouter.subscriber`; `base` is that of `StreamRouter`, which registers the handler later
abbrev fastapi_subscriber :
    {A : Type 0} → (ResponseArgs → Keywords → A) → ResponseArgs → SubscriberArgs → A
fastapi_subscriber base response a = base response (subscriber_keywords a)

-- `MQRouter.publisher`, on the registrator of its broker
abbrev fastapi_publisher : {S : Type 0} → Base S → PublisherArgs → Exec S RegisteredPublisher
fastapi_publisher base a = publisher_with base (publisher_keywords a)
