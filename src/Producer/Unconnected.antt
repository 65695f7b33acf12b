-- ===== src/Producer/Unconnected.antt =====
-- A request connection that could not connect stays with the producer of publisher/producer.py.
use faststream_mq.Base.{
  ℕ, ◌≡◌, refl, Text, Bytes, Bool, true, false, Option, none, some, arith, Dict,
}
use faststream_mq.Values.{Value}
use faststream_mq.Headers.{headers_to_publish}
use faststream_mq.Errors.{err, assertion_error}
use faststream_mq.Exec.{
  if_some, for_some, when, ignore_errors, finally_with, on_state, assign, ◌>>=◌,
}
use faststream_mq.Native.{Env, answered}
use faststream_mq.Command.{MqPublishCommand}
use faststream_mq.Connection.State.{State, Connection, load_ibmmq}
use faststream_mq.Connection.Publish.{encode_command}
use faststream_mq.Connection.Reasons.{is_reconnectable}
use faststream_mq.Connection.Request.{
  request_sync, publish_request_sync, request_attempts, request_attempt, request_try,
  request_failed, request_cleanup, request_done,
}
use faststream_mq.Connection.Api.{on_executor}
use faststream_mq.Producer.{
  Producer, producer_request, get_request_connection, on_connection, state_of,
}

module _ (env : Env) (cmd : MqPublishCommand) (encoded : Bytes × Option Text)
    (loaded : env.available ≡ true) (encodes : env.encode cmd.body ≡ answered encoded) where
  request_attempt-unconnected :
      (last : Bool) (b : Bytes) (d : Dict Value) (s : State)
      → s.conn.qmgr ≡ none
      → request_attempt env last b d cmd s ≡ (err assertion_error, s)
  unfolding request_attempt request_try finally_with ◌>>=◌ on_state request_failed request_cleanup
      is_reconnectable for_some when ignore_errors
  request_attempt-unconnected last b d s q = ground arith

  request_attempts-unconnected :
      (b : Bytes) (d : Dict Value) (s : State)
      → s.conn.qmgr ≡ none
      → request_attempts env 2 b d cmd s ≡ (err assertion_error, s)
  unfolding request_attempts ◌>>=◌
  request_attempts-unconnected b d s q = rw (request_attempt-unconnected false b d s q) refl

  publish_request_sync-unconnected :
      (s : State) → s.conn.qmgr ≡ none → publish_request_sync env cmd s ≡ (err assertion_error, s)
  unfolding publish_request_sync encode_command load_ibmmq ◌>>=◌
  publish_request_sync-unconnected s q =
      let h =
        request_attempts-unconnected encoded.0
          (headers_to_publish cmd.headers encoded.1 cmd.message_type) s q in
      ground arith

  request_sync-unconnected :
      (fuel : ℕ) (s : State)
      → s.conn.qmgr ≡ none
      → request_sync env fuel cmd s ≡ (err assertion_error, s)
  unfolding request_sync load_ibmmq finally_with ◌>>=◌ on_state assign for_some when request_done
      is_reconnectable
  request_sync-unconnected fuel s q = let h = publish_request_sync-unconnected s q in ground arith

  -- Where the runtime can be loaded and the body encodes: as long as the producer has a request
  -- connection that was started but has no queue manager, as one has whose first connect failed,
  -- `request` raises an `AssertionError` and leaves everything as it was. It calls the library
  -- for nothing, so it does not try to connect again.
  pub producer_request-unconnected :
      (fuel : ℕ) (p : Producer) (c : Connection)
      → p.request_connection ≡ some c
      → c.executor ≡ true
      → c.qmgr ≡ none
      → producer_request env fuel cmd p ≡ (err assertion_error, p)
  unfolding producer_request get_request_connection on_connection on_executor if_some ◌>>=◌
  producer_request-unconnected fuel p c has started q =
      let h = request_sync-unconnected fuel (state_of p c) q in ground arith
