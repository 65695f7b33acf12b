-- ===== src/Producer/Tests.antt =====
-- A producer whose request connection is refused once, and what becomes of its requests.
use faststream_mq.Base.{◌≡◌, refl, true, none, some, List, [], codes, text_eq}
use faststream_mq.Errors.{ok, err, mqmi_error, assertion_error}
use faststream_mq.Native.{Env, Event, Call, Answer, Reply, failed, mqmi_fault, connect_tcp_client}
use faststream_mq.Connection.State.{Connection, load_ibmmq, native}
use faststream_mq.Connection.Tls.{
  build_tls_options, prepare_once, prepare_tls_config, cleanup_prepared_tls,
}
use faststream_mq.Connection.Reasons.{cno_reconnect_option, cd_reconnect_default}
use faststream_mq.Connection.Connect.{
  connect, connect_sync, open_connection, build_cno, guarded_connect, connect_try, connect_failed,
  restore_tls_scope, connect_qmgr,
}
use faststream_mq.Exec.{◌>>=◌, if_some, modify, finally, for_some}
use faststream_mq.Connection.Tests.{sample_env, sample_config, sample_command, started_state}
use faststream_mq.Producer.Reply.{ReplySides}
use faststream_mq.Producer.{
  Producer, new_connection, producer_request, producer_disconnect, get_request_connection,
  on_connection,
}
use faststream_mq.Producer.Lifecycle.{producer_disconnect-clears}
use faststream_mq.Producer.Unconnected.{producer_request-unconnected}

abbrev refuse : List Event → (c : Call) → Reply (Answer c)
refuse log (connect_tcp_client a) = failed (mqmi_fault 2538 0)
refuse log c = sample_env.answer log c

abbrev refusing_env : Env
refusing_env = record sample_env { answer = refuse }

abbrev connected : Producer
connected = record {
  publish_connection = some (new_connection sample_config);
  request_connection = none;
  connection_config = some sample_config;
  log = [];
  amq_tls_scope = none;
}

-- the connection that the refused connect leaves behind
abbrev refused : Connection
refused = record (new_connection sample_config) { executor = true }

abbrev after_refusal : Producer
after_refusal = record (producer_request refusing_env 8 sample_command connected).1 {
  request_connection = some refused;
}

refused_connection :
    producer_request refusing_env 8 sample_command connected
    ≡ (err (mqmi_error 2538 0), after_refusal)
unfolding producer_request ◌>>=◌ get_request_connection if_some modify on_connection connect
    connect_sync open_connection load_ibmmq build_cno cno_reconnect_option text_eq build_tls_options
    prepare_once prepare_tls_config guarded_connect finally connect_try connect_failed
    restore_tls_scope connect_qmgr for_some native cleanup_prepared_tls cd_reconnect_default
refused_connection = refl

-- the library answers now, but it is not asked
producer_request-unconnected_example :
    producer_request sample_env 8 sample_command after_refusal
    ≡ (err assertion_error, after_refusal)
producer_request-unconnected_example =
    producer_request-unconnected sample_env sample_command (codes "ping", some (codes "text/plain"))
      refl refl 8 after_refusal refused refl refl refl

producer_disconnect-clears_example :
    let (r, q) = producer_disconnect sample_env after_refusal in
    (r ≡ ok tt)
    × (q.publish_connection ≡ none)
    × (q.request_connection ≡ none)
    × (q.connection_config ≡ none)
producer_disconnect-clears_example = producer_disconnect-clears sample_env after_refusal

-- the message came from a connection of its own
abbrev two_sides : ReplySides
two_sides = record { producer = connected; connection = started_state.conn }
