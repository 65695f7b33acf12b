-- ===== src/Connection/Request.antt =====
-- `AsyncMQConnection.request`: publish once to the destination, wait for the reply on a dynamic queue.
use faststream_mq.Base.{
  ℕ, zero, suc, Text, Bytes, Bool, true, false, Option, some, none, codes, Dict, ◌==◌,
  if◌then◌else◌, ◌||◌, not,
}
use faststream_mq.Errors.{Exc, mqmi_error, timeout_error, runtime_error}
use faststream_mq.Values.{Value}
use faststream_mq.Exec.{
  if_some, Exec, pure, raise, lift, gets, assert_some, try_except, finally, finally_with, on_state,
  assign, for_some, ignore_errors, when, ◌>>=◌, ◌>>◌,
}
use faststream_mq.Native.{
  Env, Codes, PutDescriptor, GetOptions, Descriptor, open_queue, open_dynamic_queue, close_queue,
  get, put, create_handle, delete_handle, sleep, output,
}
use faststream_mq.Command.{MqPublishCommand, Duration}
use faststream_mq.Connection.State.{State, native, load_ibmmq}
use faststream_mq.Connection.Message.{MqRawMessage, mq_str, build_raw_message, to_wait_interval}
use faststream_mq.Connection.Reasons.{is_reconnectable}
use faststream_mq.Connection.Recover.{recover_connection_sync}
use faststream_mq.Connection.Consume.{read_headers}
use faststream_mq.Connection.Publish.{
  encode_command, set_properties, has_headers, id_field, persistence_code,
}

-- the local variables of one attempt of `_publish_request_sync`
pub record Attempt : Type 0 where
  pub reply_queue : Option ℕ
  pub queue : Option ℕ
  pub put_handle : Option ℕ
  pub request_published : Bool

-- the reply queue, its name, the request's native identifier
pub record Pending : Type 0 where
  pub reply_queue : ℕ
  pub reply_queue_name : Text
  pub request_message_id : Bytes

abbrev pub new_attempt : Attempt
new_attempt = record {
  reply_queue = none;
  queue = none;
  put_handle = none;
  request_published = false;
}

abbrev request_md : Codes → Text → Text → MqPublishCommand → PutDescriptor
request_md c reply_queue_name queue_manager cmd = record {
  reply_to_q = some reply_queue_name;
  reply_to_qmgr = some queue_manager;
  priority = cmd.priority;
  persistence = persistence_code c cmd.persistence;
  expiry = cmd.expiry;
  msg_id = none;
  correl_id = none;
}

module _ (env : Env) where
  -- the end of the `try` of an attempt: the message is put, and its identifier read
  unfoldable pub request_put :
      ℕ → Bytes → PutDescriptor → Option ℕ → ℕ → Text → Exec (State × Attempt) Pending
  request_put queue body md put_handle reply_queue reply_queue_name = do
    sent ← on_state (
        native env
          (put queue body md (record { syncpoint = false; original_msg_handle = put_handle })))
    request_message_id ← assert_some sent
    assign (λ v. record v { request_published = true })
    pure (record {
      reply_queue = reply_queue;
      reply_queue_name = reply_queue_name;
      request_message_id = request_message_id;
    })

  -- the `try` of one attempt
  unfoldable pub request_try :
      Bytes → Dict Value → MqPublishCommand → Exec (State × Attempt) Pending
  request_try body headers cmd = do
    q ← gets (λ sv. sv.0.conn.qmgr)
    qmgr ← assert_some q
    model ← gets (λ sv. sv.0.conn.connection_config.reply_model_queue)
    opened ← on_state (native env (open_dynamic_queue qmgr model (codes "FASTSTREAM.REPLY.*")))
    assign (λ v. record v { reply_queue = some opened.0 })
    reply_queue_name ← lift (mq_str env opened.1)
    queue ← on_state (native env (open_queue qmgr cmd.destination output))
    assign (λ v. record v { queue = some queue })
    manager ← gets (λ sv. sv.0.conn.connection_config.queue_manager)
    message ← lift (id_field cmd.message_id (codes "message_id"))
    correlation ← lift (id_field cmd.correlation_id (codes "correlation_id"))
    let md = record (request_md env.codes_of reply_queue_name manager cmd) {
      msg_id = message;
      correl_id = correlation;
    }
    when (has_headers headers) (do
      handle ← on_state (native env (create_handle qmgr))
      assign (λ v. record v { put_handle = some handle })
      on_state (set_properties env handle headers))
    put_handle ← gets (λ sv. sv.1.put_handle)
    request_put queue body md put_handle opened.0 reply_queue_name

  -- the `except mq.MQMIError` of an attempt; `none` is to go on with the next one
  unfoldable pub request_failed : Bool → Exc → Exec State (Option Pending)
  request_failed last e =
      if not (is_reconnectable env e) || last
      then raise e
      else (do recover_connection_sync env false; native env (sleep 200); pure none)

  -- the `finally` of an attempt
  unfoldable pub request_cleanup : Attempt → Exec State (Unit {0})
  request_cleanup v = do
    for_some v.queue (λ h. ignore_errors (native env (close_queue h)))
    for_some v.put_handle (λ h. native env (delete_handle h))
    when (not v.request_published)
        (for_some v.reply_queue (λ h. ignore_errors (native env (close_queue h))))

  -- one round of the loop
  unfoldable pub request_attempt :
      Bool → Bytes → Dict Value → MqPublishCommand → Exec State (Option Pending)
  request_attempt last body headers cmd =
      finally_with new_attempt
        (try_except (do sent ← request_try body headers cmd; pure (some sent))
          (λ e. on_state (request_failed last e)))
        request_cleanup

  -- `for attempt in range(2)`, with the attempts that are left
  unfoldable pub request_attempts : ℕ → Bytes → Dict Value → MqPublishCommand → Exec State Pending
  request_attempts zero body headers cmd =
      raise (runtime_error (codes "IBM MQ request publish retry exhausted."))
  request_attempts (suc left) body headers cmd = do
    sent ← request_attempt (left == 0) body headers cmd
    if_some sent pure (request_attempts left body headers cmd)

  -- `_publish_request_sync`
  unfoldable pub publish_request_sync : MqPublishCommand → Exec State Pending
  publish_request_sync cmd = do
    load_ibmmq env
    encoded ← encode_command env cmd
    request_attempts 2 encoded.0 encoded.1 cmd

  abbrev pub reply_options : Duration → ℕ → Bytes → GetOptions
  reply_options timeout handle correl_id = record {
    syncpoint = false;
    wait_interval = to_wait_interval timeout;
    msg_handle = handle;
    match_correl_id = some correl_id;
  }

  -- the `except mq.MQMIError` of the `get`
  unfoldable pub reply_failed : ℕ → Exc → Exec State (Bytes × Descriptor)
  reply_failed handle (mqmi_error reason data_length) = do
    native env (delete_handle handle)
    raise (
        if reason == env.codes_of.no_msg_available
        then timeout_error
        else mqmi_error reason data_length)
  reply_failed handle e = raise e

  -- `_wait_for_reply_sync`; the attempt that has just succeeded used `self._qmgr`, so there is
  -- one
  unfoldable pub wait_for_reply_sync : ℕ → Pending → Duration → Exec State MqRawMessage
  wait_for_reply_sync fuel p timeout = do
    load_ibmmq env
    q ← gets (λ s. s.conn.qmgr)
    qmgr ← assert_some q
    handle ← native env (create_handle qmgr)
    reply ←
        try_except
          (native env (get p.reply_queue (reply_options timeout handle p.request_message_id)))
          (reply_failed handle)
    headers ← finally (read_headers env fuel handle 64) (native env (delete_handle handle))
    lift (build_raw_message env reply.0 reply.1 headers p.reply_queue_name false)

  -- the locals of `_request_sync`: the reply queue, and `recover_after_error`
  abbrev note_error : Exc → Option ℕ × Bool → Option ℕ × Bool
  note_error e v = (v.0, if is_reconnectable env e then true else v.1)

  -- the `finally` of `_request_sync`
  unfoldable pub request_done : Option ℕ × Bool → Exec State (Unit {0})
  request_done v = do
    for_some v.0 (λ h. ignore_errors (native env (close_queue h)))
    when v.1 (recover_connection_sync env false)

  -- `_request_sync`
  unfoldable pub request_sync : ℕ → MqPublishCommand → Exec State MqRawMessage
  request_sync fuel cmd = do
    load_ibmmq env
    finally_with (none, false)
        (try_except
          (do
            p ← on_state (publish_request_sync cmd)
            assign (λ v. (some p.reply_queue, v.1))
            on_state (wait_for_reply_sync fuel p cmd.timeout))
          (λ e. do assign (note_error e); raise e))
        request_done
