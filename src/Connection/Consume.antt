-- ===== src/Connection/Consume.antt =====
-- The consuming half of `AsyncMQConnection`: the consumer's queue, `get_message` and the units of
-- work that end in a commit or a backout.
use faststream_mq.Base.{
  is_some, ℕ, zero, suc, Text, Bytes, Bool, true, false, Option, some, none, codes, Dict, insert,
  is_empty, not, ◌==◌, if◌then◌else◌, [],
}
use faststream_mq.Errors.{Exc, mqmi_error, type_error, runtime_error}
use faststream_mq.Values.{Value}
use faststream_mq.Exec.{
  if_some, Exec, pure, raise, lift, gets, modify, assert_some, try_except, finally, for_some, ◌>>=◌,
  ◌>>◌,
}
use faststream_mq.Native.{
  Env, Descriptor, InquireOption, inq_first, inq_next, inq_prop_under_cursor, get_property, get,
  get_name, commit, backout, close_queue, create_handle, delete_handle, GetOptions,
}
use faststream_mq.Headers.{strip_property_prefix, header_name_from_property}
use faststream_mq.Command.{Duration}
use faststream_mq.Connection.State.{State, native, load_ibmmq, set_consumer, set_consumer_name}
use faststream_mq.Connection.Message.{MqRawMessage, mq_str, build_raw_message, to_wait_interval}
use faststream_mq.Connection.Recover.{open_consumer, run_with_reconnect_sync}

-- `bool(self._consumer_queue_name)`
abbrev pub has_consumer_name : State → Bool
has_consumer_name s = not (is_empty s.conn.consumer_queue_name)

module _ (env : Env) where
  -- the `except TypeError` of `_get_property`: a library that knows no `max_value_length`
  unfoldable pub inquire_without_length : ℕ → InquireOption → Exc → Exec State (Value × Value)
  inquire_without_length handle options type_error = native env (get_property handle options none)
  inquire_without_length handle options e = raise e

  -- `_get_property`
  unfoldable pub inquire_property : ℕ → InquireOption → ℕ → Exec State (Value × Value)
  inquire_property handle options max_value_length =
      try_except (native env (get_property handle options (some max_value_length)))
        (inquire_without_length handle options)

  -- the `except` of one round of `_read_headers`; `none` is its `break`
  unfoldable pub inquire_failed : ℕ → Exc → Exec State (Option (Value × Value))
  inquire_failed handle (mqmi_error reason data_length) =
      if reason == env.codes_of.property_not_available
      then pure none
      else if reason == env.codes_of.property_value_too_big
      then (do
        property ← inquire_property handle inq_prop_under_cursor data_length
        lift (mq_str env property.1)
        pure (some property))
      else raise (mqmi_error reason data_length)
  inquire_failed handle e = raise e

  unfoldable pub inquire : ℕ → InquireOption → ℕ → Exec State (Option (Value × Value))
  inquire handle options max_value_length =
      try_except
        (do property ← inquire_property handle options max_value_length; pure (some property))
        (inquire_failed handle)

  -- The loop of `_read_headers`, on the headers read so far. The loop ends at the library's word that
  -- no property is left; a run that has not ended after `fuel` rounds raises.
  unfoldable pub read_headers_from :
      ℕ → ℕ → ℕ → InquireOption → Dict Value → Exec State (Dict Value)
  read_headers_from zero handle max options headers = raise (runtime_error (codes "out of fuel"))
  read_headers_from (suc fuel) handle max options headers = do
    found ← inquire handle options max
    if_some found
        (λ property. do
          name ← lift (mq_str env property.1)
          let header = header_name_from_property (strip_property_prefix name)
          read_headers_from fuel handle max inq_next (insert header property.0 headers))
        (pure headers)

  -- `_read_headers`
  unfoldable pub read_headers : ℕ → ℕ → ℕ → Exec State (Dict Value)
  read_headers fuel handle max = read_headers_from fuel handle max inq_first []

  -- `__ping_sync`
  unfoldable pub ping_once : Exec State Bool
  ping_once = do
    q ← gets (λ s. s.conn.qmgr)
    qmgr ← assert_some q
    native env (get_name qmgr)
    pure true

  -- `_ping_sync`
  unfoldable pub ping_sync : Exec State Bool
  ping_sync = do
    q ← gets (λ s. s.conn.qmgr)
    if is_some q then run_with_reconnect_sync env false ping_once else pure false

  -- `ping`: an exception is an answer too
  unfoldable pub ping : Exec State Bool
  ping = do
    running ← gets (λ s. s.conn.executor)
    if running then try_except ping_sync (λ e. pure false) else pure false

  -- `__commit_sync`
  unfoldable pub commit_once : Exec State (Unit {0})
  commit_once = do q ← gets (λ s. s.conn.qmgr); qmgr ← assert_some q; native env (commit qmgr)

  -- `_commit_sync`
  unfoldable pub commit_sync : Exec State (Unit {0})
  commit_sync = do reopen ← gets has_consumer_name; run_with_reconnect_sync env reopen commit_once

  -- `__backout_sync`
  unfoldable pub backout_once : Exec State (Unit {0})
  backout_once = do q ← gets (λ s. s.conn.qmgr); qmgr ← assert_some q; native env (backout qmgr)

  -- `_backout_sync`
  unfoldable pub backout_sync : Exec State (Unit {0})
  backout_sync = do reopen ← gets has_consumer_name; run_with_reconnect_sync env reopen backout_once

  -- `_start_consumer_sync`
  unfoldable pub start_consumer_sync : Text → Exec State (Unit {0})
  start_consumer_sync queue_name = do
    modify (set_consumer_name queue_name)
    run_with_reconnect_sync env true (open_consumer env queue_name)

  -- `_stop_consumer_sync`
  unfoldable pub stop_consumer_sync : Exec State (Unit {0})
  stop_consumer_sync = do
    queue ← gets (λ s. s.conn.consumer_queue)
    for_some queue (λ h. do
      native env (close_queue h)
      modify (set_consumer none)
      modify (set_consumer_name []))

  -- the `except mq.MQMIError` of the `get`; `none` is its `return None`
  unfoldable pub get_failed : ℕ → Exc → Exec State (Option (Bytes × Descriptor))
  get_failed handle (mqmi_error reason data_length) = do
    native env (delete_handle handle)
    if reason == env.codes_of.no_msg_available
        then pure none
        else raise (mqmi_error reason data_length)
  get_failed handle e = raise e

  abbrev consume_options : Duration → ℕ → GetOptions
  consume_options timeout handle = record {
    syncpoint = true;
    wait_interval = to_wait_interval timeout;
    msg_handle = handle;
    match_correl_id = none;
  }

  -- what `__get_message_sync` does with a message that has arrived
  unfoldable pub receive : ℕ → ℕ → ℕ → ℕ → Bytes → Descriptor → Exec State MqRawMessage
  receive fuel qmgr handle max body md = do
    headers ←
        finally
          (try_except (read_headers fuel handle max) (λ e. do native env (backout qmgr); raise e))
          (native env (delete_handle handle))
    queue_name ← gets (λ s. s.conn.consumer_queue_name)
    lift (build_raw_message env body md headers queue_name true)

  -- `__get_message_sync`
  unfoldable pub get_message_once : ℕ → Duration → ℕ → Exec State (Option MqRawMessage)
  get_message_once fuel timeout max = do
    load_ibmmq env
    q ← gets (λ s. s.conn.qmgr)
    qmgr ← assert_some q
    c ← gets (λ s. s.conn.consumer_queue)
    queue ← assert_some c
    handle ← native env (create_handle qmgr)
    got ←
        try_except
          (do
            message ← native env (get queue (consume_options timeout handle))
            pure (some message))
          (get_failed handle)
    if_some got
        (λ message. do raw ← receive fuel qmgr handle max message.0 message.1; pure (some raw))
        (pure none)

  -- `_get_message_sync`
  unfoldable pub get_message_sync : ℕ → Duration → ℕ → Exec State (Option MqRawMessage)
  get_message_sync fuel timeout max =
      run_with_reconnect_sync env true (get_message_once fuel timeout max)
