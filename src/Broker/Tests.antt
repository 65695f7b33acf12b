-- ===== src/Broker/Tests.antt =====
-- The laws of a broker's settings and of its connect, on the samples of the connection.
use faststream_mq.Base.{decimal, ℕ, ◌*◌, ◌≡◌, ◌≢◌, ◌⊎◌, refl, none, some, [], codes, arith}
use faststream_mq.Errors.{Exc, ok, err, assertion_error}
use faststream_mq.Values.{pos}
use faststream_mq.Connection.State.{State, Connection}
use faststream_mq.Connection.Connect.{connect_sync, connect_qmgr}
use faststream_mq.Connection.Tests.{sample_env, sample_config, no_cno, no_cd, idle_state}
use faststream_mq.Producer.{Producer}
use faststream_mq.Broker.{BrokerArgs, BrokerConfig, new_broker, address_of}
use faststream_mq.Broker.Address.{HasAddress, new_broker-connects, new_broker-empty_url}
use faststream_mq.Broker.Connecting.{LastFailed, IsConnected, broker_connect, broker_connect-ends}

abbrev sample_args : BrokerArgs
sample_args = record {
  queue_manager = codes "QM1";
  channel = none;
  conn_name = none;
  host = some (codes "mq.example");
  port = none;
  ccdt_url = none;
  reconnect = codes "disabled";
  username = some (codes "app");
  password = some (codes "secret");
  tls = none;
  reply_model_queue = codes "DEV.APP.MODEL.QUEUE";
  wait_interval = pos 1000000;
  security = none;
  specification_url = none;
  protocol = none;
}

abbrev sample_broker : BrokerConfig
sample_broker = record {
  connection_config = record sample_config {
    channel = some (codes "DEV.APP.SVRCONN");
    conn_name = some (codes "mq.example(1414)");
    username = some (codes "app");
    password = some (codes "secret");
    startup_retry_timeout = pos 60000000;
    startup_retry_interval = pos 2000000;
  };
  specification_url = codes "mq://QM1@mq.example(1414)";
  protocol = codes "ibmmq";
}

sample-built : new_broker sample_args ≡ ok sample_broker
unfolding new_broker decimal address_of
sample-built = refl

new_broker-connects_example :
    HasAddress sample_broker.connection_config
    × ((connect_qmgr sample_env no_cno no_cd none (record idle_state {
      conn = record (idle_state.conn) { connection_config = sample_broker.connection_config };
    })).0
        ≢ err assertion_error)
new_broker-connects_example =
    new_broker-connects sample_args sample_broker sample_env no_cno no_cd none _ sample-built
      (λ e. cc) refl

abbrev table_args : BrokerArgs
table_args = record sample_args { ccdt_url = some []; host = none }

abbrev table_broker : BrokerConfig
table_broker = record {
  connection_config = record (sample_broker.connection_config) {
    channel = none;
    conn_name = none;
    ccdt_url = some [];
  };
  specification_url = codes "mq://QM1@ccdt";
  protocol = codes "ibmmq";
}

table-built : new_broker table_args ≡ ok table_broker
unfolding new_broker
table-built = refl

abbrev table_state : State
table_state = record idle_state {
  conn = record (idle_state.conn) { connection_config = table_broker.connection_config };
}

new_broker-empty_url_example :
    let (r, t) = connect_sync sample_env table_state in
    (e : Exc) × (r ≡ err e) × (t.conn.qmgr ≡ none)
new_broker-empty_url_example =
    new_broker-empty_url table_args table_broker sample_env table_state table-built refl refl refl

-- a clock that moves on by forty seconds between two attempts
abbrev slow_clock : ℕ → ℕ
slow_clock n = n * 40000000

abbrev new_producer : Producer
new_producer = record {
  publish_connection = none;
  request_connection = none;
  connection_config = none;
  log = [];
  amq_tls_scope = none;
}

broker_connect-ends_example :
    let (r, q) =
      broker_connect sample_env slow_clock sample_broker.connection_config 2 new_producer in
    ((c : Connection) × (r ≡ ok (some c))
      × (q.publish_connection ≡ some c)
      × IsConnected c
      × (q.request_connection ≡ none))
    ⊎ ((e : Exc) × (r ≡ err e)
        × LastFailed sample_env slow_clock sample_broker.connection_config new_producer e q)
broker_connect-ends_example =
    broker_connect-ends sample_env slow_clock sample_broker.connection_config 1 2 new_producer
      (omega arith) refl
