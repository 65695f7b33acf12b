-- ===== src/Connection/Publish.antt =====
-- The publishing half of `AsyncMQConnection`: `publish` and `request`.
use faststream_mq.Base.{ℕ, Text, Bytes, Bool, true, false, Option, some, none, codes, Dict, [], ◌∷◌}
use faststream_mq.Errors.{Result, ok, err}
use faststream_mq.Values.{Value}
use faststream_mq.Exec.{
  Exec, pure, lift, gets, assert_some, finally_with, on_state, assign, for_some, for_each, when,
  ◌>>=◌, ◌>>◌,
}
use faststream_mq.Native.{
  Env, Codes, PutDescriptor, open_queue, close_queue, put, create_handle, delete_handle,
  set_property, output,
}
use faststream_mq.Ids.{mq_id_to_bytes}
use faststream_mq.Headers.{headers_to_publish, property_name_from_header, normalize_property_value}
use faststream_mq.Command.{MqPublishCommand}
use faststream_mq.Connection.State.{State, native, load_ibmmq, result_of}
use faststream_mq.Connection.Recover.{run_with_reconnect_sync}
use faststream_mq.Connection.Consume.{has_consumer_name}

-- `if headers`
abbrev pub has_headers : Dict Value → Bool
has_headers [] = false
has_headers (entry ∷ rest) = true

abbrev given_text : Text → Option Text
given_text [] = none
given_text (c ∷ s) = some (c ∷ s)

abbrev pub persistence_code : Codes → Option Bool → Option ℕ
persistence_code c none = none
persistence_code c (some true) = some c.per_persistent
persistence_code c (some false) = some c.per_not_persistent

-- `if value is not None: md.F = mq_id_to_bytes(value, field_name=field)`
abbrev pub id_field : Option Text → Text → Result (Option (Option Bytes))
id_field none field = ok none
id_field (some t) field = elim (mq_id_to_bytes (some t) field) [
  | ok b ↦ ok (some b)
  | err e ↦ err e
]

-- the native identifier comes first
abbrev pub correl_field : Option Bytes → Option Text → Result (Option (Option Bytes))
correl_field (some b) t = ok (some (some b))
correl_field none t = id_field t (codes "correlation_id")

abbrev publish_md : Codes → MqPublishCommand → PutDescriptor
publish_md c cmd = record {
  reply_to_q = given_text cmd.reply_to;
  reply_to_qmgr = given_text cmd.reply_to_qmgr;
  priority = cmd.priority;
  persistence = persistence_code c cmd.persistence;
  expiry = cmd.expiry;
  msg_id = none;
  correl_id = none;
}

module _ (env : Env) where
  -- `encode_message` and `_headers_to_publish`
  unfoldable pub encode_command : MqPublishCommand → Exec State (Bytes × Dict Value)
  encode_command cmd = do
    encoded ← lift (result_of (env.encode cmd.body))
    pure (encoded.0, headers_to_publish cmd.headers encoded.1 cmd.message_type)

  -- `for key, value in headers.items(): msg_handle.properties.set(...)`
  unfoldable pub set_properties : ℕ → Dict Value → Exec State (Unit {0})
  set_properties handle headers = for_each headers (λ entry. native env (
      set_property handle (property_name_from_header entry.0)
        (normalize_property_value env.dumps entry.1)))

  -- the `try` of `__publish_sync`; its local variable is `msg_handle`
  unfoldable pub publish_try :
      ℕ → ℕ → Bytes → Dict Value → MqPublishCommand → Exec (State × Option ℕ) (Unit {0})
  publish_try qmgr queue body headers cmd = do
    message ← lift (id_field cmd.message_id (codes "message_id"))
    correlation ← lift (correl_field cmd.native_correlation_id cmd.correlation_id)
    let md = record (publish_md env.codes_of cmd) { msg_id = message; correl_id = correlation }
    when (has_headers headers) (do
      handle ← on_state (native env (create_handle qmgr))
      assign (λ _. some handle)
      on_state (set_properties handle headers))
    msg_handle ← gets (λ sv. sv.1)
    on_state (
        native env (
          put queue body md
            (record { syncpoint = cmd.syncpoint; original_msg_handle = msg_handle })))
    pure tt

  -- its `finally`
  unfoldable pub publish_cleanup : ℕ → Option ℕ → Exec State (Unit {0})
  publish_cleanup queue msg_handle = do
    native env (close_queue queue)
    for_some msg_handle (λ h. native env (delete_handle h))

  -- `__publish_sync`
  unfoldable pub publish_once : MqPublishCommand → Exec State (Unit {0})
  publish_once cmd = do
    load_ibmmq env
    q ← gets (λ s. s.conn.qmgr)
    qmgr ← assert_some q
    encoded ← encode_command cmd
    queue ← native env (open_queue qmgr cmd.destination output)
    finally_with none (publish_try qmgr queue encoded.0 encoded.1 cmd) (publish_cleanup queue)

  -- `_publish_sync`
  unfoldable pub publish_sync : MqPublishCommand → Exec State (Unit {0})
  publish_sync cmd = do
    reopen ← gets has_consumer_name
    run_with_reconnect_sync env reopen (publish_once cmd)
