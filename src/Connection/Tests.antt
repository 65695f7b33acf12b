-- ===== src/Connection/Tests.antt =====
-- The laws of the connection against a library that answers each call in a fixed way: its first
-- commit fails with a broken connection, and everything else succeeds.
use faststream_mq.Base.{
  ℕ, ◌≡◌, refl, true, false, Bool, Option, some, none, List, [], ◌∷◌, codes, strip,
}
use faststream_mq.Errors.{ok}
use faststream_mq.Values.{pos, str_value, bytes_value}
use faststream_mq.Native.{
  Env, Event, Call, Answer, Reply, answered, failed, mqmi_fault, Codes, Descriptor, Cno, Cd,
  connect_with_options, connect_tcp_client, get_name, commit, backout, disconnect, open_queue,
  open_dynamic_queue, close_queue, get, put, create_handle, delete_handle, get_property,
  set_property, make_tempdir, write_file, remove_tree, sleep,
}
use faststream_mq.Ids.{normalize_mq_id, mq_id_to_bytes}
use faststream_mq.Ids.Hex.{to_hex, from_hex}
use faststream_mq.Ids.Tests.{raw_id, hex_id}
use faststream_mq.Command.{MqPublishCommand, default_command}
use faststream_mq.Connection.State.{State, ConnectionConfig, PreparedTls}
use faststream_mq.Connection.Connect.{connect, guarded_connect, wanted_scope}
use faststream_mq.Connection.Recover.{disconnect_connection, run_with_reconnect_sync}
use faststream_mq.Connection.Consume.{commit_once}
use faststream_mq.Connection.Publish.{publish_sync, correl_field}
use faststream_mq.Connection.Request.{request_sync}
use faststream_mq.Connection.Message.{MqRawMessage, raw_message, build_raw_message, mq_str}
use faststream_mq.Connection.Api.{on_executor, here, next, connect_step, publish_step}
use faststream_mq.Connection.AtMostOnce.{PutsOnce, request_sync-puts}
use faststream_mq.Connection.Running.Lifecycle.{
  IsSound, Reach-IsSound, disconnect_connection-clears,
}
use faststream_mq.Connection.Retry.{Retried, run_with_reconnect_sync-Retried}
use faststream_mq.Connection.Twice.{PutsTwiceAtMost}
use faststream_mq.Connection.Replay.{Replays, publish_sync-PutsTwiceAtMost}
use faststream_mq.Connection.Scope.{ScopeAfter, guarded_connect-scope}
use faststream_mq.Connection.Identity.{correlation_id-roundtrip}

abbrev pub received : Descriptor
received = record {
  msg_id = some (bytes_value raw_id);
  correl_id = some (bytes_value raw_id);
  reply_to_q = some (bytes_value (codes "REPLY.QUEUE "));
  reply_to_qmgr = none;
  priority = some (pos 4);
  persistence = some 1;
  expiry = none;
}

abbrev answers : List Event → (c : Call) → Reply (Answer c)
answers log (connect_with_options a) = answered 1
answers log (connect_tcp_client a) = answered 1
answers log (get_name q) = answered tt
answers [] (commit q) = failed (mqmi_fault 2009 0)
answers (e ∷ es) (commit q) = answered tt
answers log (backout q) = answered tt
answers log (disconnect q) = answered tt
answers log (open_queue q n m) = answered 2
answers log (open_dynamic_queue q n p) = answered (3, str_value (codes "FASTSTREAM.REPLY.1"))
answers log (close_queue q) = answered tt
answers log (get q o) = answered (codes "pong", received)
answers log (put q b d o) = answered (some raw_id)
answers log (create_handle q) = answered 4
answers log (delete_handle h) = answered tt
answers log (get_property h o m) = failed (mqmi_fault 2471 0)
answers log (set_property h t v) = answered tt
answers log (make_tempdir p) = answered p
answers log (write_file p b) = answered tt
answers log (remove_tree p) = answered tt
answers log (sleep ms) = answered tt

abbrev ibm_codes : Codes
ibm_codes = record {
  connection_broken = 2009;
  hconn_error = 2018;
  q_mgr_not_available = 2059;
  host_not_available = 2538;
  reconnecting = 2544;
  reconnected = 2545;
  reconnect_failed = 2548;
  call_interrupted = 2549;
  reconnect_q_mgr_reqd = 2555;
  reconnect_timed_out = 2556;
  ssl_initialization_error = some 2393;
  no_msg_available = 2033;
  property_not_available = 2471;
  property_value_too_big = 2469;
  per_persistent = 1;
  per_not_persistent = 0;
  cno_reconnect_as_def = 0;
  cno_reconnect_disabled = 33554432;
  cno_reconnect = 16777216;
  cno_reconnect_q_mgr = 67108864;
  rcn_disabled = 3;
  rcn_yes = 1;
  rcn_q_mgr = 2;
}

abbrev pub sample_env : Env
sample_env = record {
  answer = answers;
  codes_of = ibm_codes;
  available = true;
  encode = λ body. answered (codes "ping", some (codes "text/plain"));
  decode = λ b. some b;
  dumps = λ v. codes "{}";
  separator = codes "/";
}

abbrev pub sample_config : ConnectionConfig
sample_config = record {
  queue_manager = codes "QM1";
  channel = some (codes "DEV.APP.SVRCONN");
  conn_name = some (codes "localhost(1414)");
  username = none;
  password = none;
  tls = none;
  reply_model_queue = codes "DEV.APP.MODEL.QUEUE";
  wait_interval = pos 1000000;
  ccdt_url = none;
  reconnect_mode = codes "disabled";
  startup_retry_timeout = pos 0;
  startup_retry_interval = pos 1000000;
}

abbrev state_of : Bool → Option ℕ → Option PreparedTls → State
state_of executor qmgr prepared = record {
  conn = record {
    connection_config = sample_config;
    executor = executor;
    qmgr = qmgr;
    consumer_queue = none;
    consumer_queue_name = [];
    prepared_tls = prepared;
  };
  log = [];
  amq_tls_scope = some (codes "PROCESS");
}

abbrev pub idle_state : State
idle_state = state_of false none none

abbrev pub started_state : State
started_state = state_of true (some 1) none

abbrev pub sample_command : MqPublishCommand
sample_command = default_command 7 (codes "DEV.QUEUE.1")

idle-IsSound : IsSound idle_state
idle-IsSound = record { idle = λ e. (refl, refl, refl); attached = λ e. absurd cc }

started-IsSound : IsSound started_state
started-IsSound = record { idle = λ e. absurd cc; attached = λ e. refl }

request_sync-puts_example : PutsOnce 0 (request_sync sample_env 8 sample_command started_state)
request_sync-puts_example = request_sync-puts sample_env 8 sample_command started_state

Reach-IsSound_example :
    IsSound
      (on_executor (publish_sync sample_env sample_command) (connect sample_env idle_state).1).1
Reach-IsSound_example =
    Reach-IsSound idle-IsSound
      (next (next here (connect_step idle_state)) (publish_step sample_command _))

disconnect_connection-clears_example :
    let (r, s') = disconnect_connection sample_env started_state in
    (r ≡ ok tt)
    × (s'.conn.executor ≡ false)
    × (s'.conn.qmgr ≡ none)
    × (s'.conn.consumer_queue ≡ none)
    × (s'.conn.prepared_tls ≡ none)
disconnect_connection-clears_example =
    disconnect_connection-clears sample_env started_state started-IsSound

run_with_reconnect_sync-Retried_example :
    Retried sample_env false
      (commit_once sample_env)
      started_state
      (run_with_reconnect_sync sample_env false (commit_once sample_env) started_state)
run_with_reconnect_sync-Retried_example =
    run_with_reconnect_sync-Retried sample_env false (commit_once sample_env) started_state refl

abbrev scoped_tls : PreparedTls
scoped_tls = record {
  cipher_spec = codes "ANY_TLS12_OR_HIGHER";
  key_repository = codes "/keys/client";
  keystore_password = none;
  certificate_label = none;
  peer_name = none;
  environment_scope = some (codes "CONNECTION");
  tempdir = none;
}

abbrev scoped_state : State
scoped_state = state_of true none (some scoped_tls)

abbrev pub no_cd : Cd
no_cd = record { ssl_cipher_spec = none; ssl_peer_name = none; def_reconnect = none }

abbrev pub no_cno : Cno
no_cno = record { options = 0; ccdt_url = none }

guarded_connect-scope_example :
    ScopeAfter
      (wanted_scope scoped_state.conn.prepared_tls)
      scoped_state
      (guarded_connect sample_env no_cno no_cd none scoped_state)
guarded_connect-scope_example = guarded_connect-scope sample_env no_cno no_cd none scoped_state

abbrev pub received_message : MqRawMessage
received_message =
    raw_message sample_env (codes "ping") received [] (codes "DEV.QUEUE.1") true
      (codes "REPLY.QUEUE") []

pub received-built :
    build_raw_message sample_env (codes "ping") received [] (codes "DEV.QUEUE.1") true
    ≡ ok received_message
unfolding build_raw_message mq_str strip
received-built = refl

pub sent-raw : correl_field none (some hex_id) ≡ ok (some (some raw_id))
unfolding normalize_mq_id from_hex to_hex mq_id_to_bytes
sent-raw = refl

pub hex_id-normal : normalize_mq_id (some hex_id) (codes "correlation_id") ≡ ok (some hex_id)
unfolding normalize_mq_id from_hex to_hex
hex_id-normal = refl

correlation_id-roundtrip_example :
    (received_message.correlation_id ≡ some hex_id)
    × (received_message.native_correlation_id ≡ some raw_id)
correlation_id-roundtrip_example =
    correlation_id-roundtrip sample_env (codes "ping") received [] (codes "DEV.QUEUE.1") true
      received_message hex_id (codes "correlation_id") raw_id hex_id-normal sent-raw refl refl
      received-built

publish_sync-PutsTwiceAtMost_example :
    let (r, t) = publish_sync sample_env sample_command started_state in
    PutsTwiceAtMost 0 r t × Replays sample_env sample_command started_state r t
publish_sync-PutsTwiceAtMost_example =
    publish_sync-PutsTwiceAtMost sample_env sample_command started_state
