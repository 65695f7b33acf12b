-- ===== src/Connection/Running/Traffic.antt =====
-- Consuming and publishing keep a connection running.
use faststream_mq.Base.{ℕ, zero, suc, Text, Bytes, Bool, Option, Dict}
use faststream_mq.Values.{Value}
use faststream_mq.Errors.{Exc, mqmi_error, type_error}
use faststream_mq.Exec.Hoare.{Keeps, keeps_rules, Keeps-raise}
use faststream_mq.Native.{Env, InquireOption, Descriptor}
use faststream_mq.Command.{MqPublishCommand, Duration}
use faststream_mq.Connection.Consume.{
  inquire_without_length, inquire_property, inquire_failed, inquire, read_headers_from,
  read_headers, ping_once, ping_sync, commit_once, commit_sync, backout_once, backout_sync,
  start_consumer_sync, stop_consumer_sync, get_failed, receive, get_message_once, get_message_sync,
}
use faststream_mq.Connection.Publish.{encode_command, set_properties, publish_cleanup}
use faststream_mq.Connection.Request.{
  Attempt, Pending, request_failed, request_cleanup, reply_failed, wait_for_reply_sync,
  request_done,
}
use faststream_mq.Connection.Running.{IsRunning, running_rules}
use faststream_mq.Connection.Running.Link.{
  recover_connection_sync-IsRunning, run_with_reconnect_sync-IsRunning, open_consumer-IsRunning,
}

module _ (env : Env) where
  pub inquire_without_length-IsRunning :
      (h : ℕ) (o : InquireOption) (e : Exc) → Keeps IsRunning (inquire_without_length env h o e)
  unfolding inquire_without_length
  inquire_without_length-IsRunning h o (type_error) = search (keeps_rules, running_rules) depth 14
  inquire_without_length-IsRunning h o e = Keeps-raise e

  pub inquire_property-IsRunning :
      (h : ℕ) (o : InquireOption) (m : ℕ) → Keeps IsRunning (inquire_property env h o m)
  unfolding inquire_property
  inquire_property-IsRunning h o m =
      search (keeps_rules, running_rules, inquire_without_length-IsRunning) depth 14

  pub inquire_failed-IsRunning : (h : ℕ) (e : Exc) → Keeps IsRunning (inquire_failed env h e)
  unfolding inquire_failed
  inquire_failed-IsRunning h (mqmi_error reason len) =
      search (keeps_rules, running_rules, inquire_property-IsRunning) depth 14
  inquire_failed-IsRunning h e = Keeps-raise e

  pub inquire-IsRunning : (h : ℕ) (o : InquireOption) (m : ℕ) → Keeps IsRunning (inquire env h o m)
  unfolding inquire
  inquire-IsRunning h o m =
      search (keeps_rules, running_rules, inquire_property-IsRunning, inquire_failed-IsRunning)
        depth 14

  pub read_headers_from-IsRunning :
      (fuel h max : ℕ) (o : InquireOption) (d : Dict Value)
      → Keeps IsRunning (read_headers_from env fuel h max o d)
  unfolding read_headers_from
  read_headers_from-IsRunning zero h max o d = Keeps-raise _
  read_headers_from-IsRunning (suc fuel) h max o d =
      search (keeps_rules, inquire-IsRunning, read_headers_from-IsRunning fuel) depth 14

  pub read_headers-IsRunning :
      (fuel : ℕ) (h : ℕ) (max : ℕ) → Keeps IsRunning (read_headers env fuel h max)
  unfolding read_headers
  read_headers-IsRunning fuel h max =
      search (keeps_rules, running_rules, read_headers_from-IsRunning) depth 14

  pub ping_once-IsRunning : Keeps IsRunning (ping_once env)
  unfolding ping_once
  ping_once-IsRunning = search (keeps_rules, running_rules) depth 14

  pub ping_sync-IsRunning : Keeps IsRunning (ping_sync env)
  unfolding ping_sync
  ping_sync-IsRunning =
      search (keeps_rules, running_rules, run_with_reconnect_sync-IsRunning, ping_once-IsRunning)
        depth 14

  pub commit_once-IsRunning : Keeps IsRunning (commit_once env)
  unfolding commit_once
  commit_once-IsRunning = search (keeps_rules, running_rules) depth 14

  pub commit_sync-IsRunning : Keeps IsRunning (commit_sync env)
  unfolding commit_sync
  commit_sync-IsRunning =
      search (keeps_rules, running_rules, run_with_reconnect_sync-IsRunning, commit_once-IsRunning)
        depth 14

  pub backout_once-IsRunning : Keeps IsRunning (backout_once env)
  unfolding backout_once
  backout_once-IsRunning = search (keeps_rules, running_rules) depth 14

  pub backout_sync-IsRunning : Keeps IsRunning (backout_sync env)
  unfolding backout_sync
  backout_sync-IsRunning =
      search (keeps_rules, running_rules, run_with_reconnect_sync-IsRunning, backout_once-IsRunning)
        depth 14

  pub start_consumer_sync-IsRunning : (name : Text) → Keeps IsRunning (start_consumer_sync env name)
  unfolding start_consumer_sync
  start_consumer_sync-IsRunning name =
      search
        (keeps_rules, running_rules, run_with_reconnect_sync-IsRunning, open_consumer-IsRunning)
        depth 14

  pub stop_consumer_sync-IsRunning : Keeps IsRunning (stop_consumer_sync env)
  unfolding stop_consumer_sync
  stop_consumer_sync-IsRunning = search (keeps_rules, running_rules) depth 14

  pub get_failed-IsRunning : (h : ℕ) (e : Exc) → Keeps IsRunning (get_failed env h e)
  unfolding get_failed
  get_failed-IsRunning h (mqmi_error reason len) = search (keeps_rules, running_rules) depth 14
  get_failed-IsRunning h e = Keeps-raise e

  pub receive-IsRunning :
      (fuel : ℕ) (q : ℕ) (h : ℕ) (max : ℕ) (body : Bytes) (md : Descriptor)
      → Keeps IsRunning (receive env fuel q h max body md)
  unfolding receive
  receive-IsRunning fuel q h max body md =
      search (keeps_rules, running_rules, read_headers-IsRunning) depth 14

  pub get_message_once-IsRunning :
      (fuel : ℕ) (timeout : Duration) (max : ℕ)
      → Keeps IsRunning (get_message_once env fuel timeout max)
  unfolding get_message_once
  get_message_once-IsRunning fuel timeout max =
      search (keeps_rules, running_rules, get_failed-IsRunning, receive-IsRunning) depth 14

  pub get_message_sync-IsRunning :
      (fuel : ℕ) (timeout : Duration) (max : ℕ)
      → Keeps IsRunning (get_message_sync env fuel timeout max)
  unfolding get_message_sync
  get_message_sync-IsRunning fuel timeout max =
      search
        (keeps_rules, running_rules, run_with_reconnect_sync-IsRunning, get_message_once-IsRunning)
        depth 14

  pub encode_command-IsRunning : (cmd : MqPublishCommand) → Keeps IsRunning (encode_command env cmd)
  unfolding encode_command
  encode_command-IsRunning cmd = search (keeps_rules, running_rules) depth 14

  pub set_properties-IsRunning : (h : ℕ) (d : Dict Value) → Keeps IsRunning (set_properties env h d)
  unfolding set_properties
  set_properties-IsRunning h d = search (keeps_rules, running_rules) depth 14

  pub publish_cleanup-IsRunning : (q : ℕ) (h : Option ℕ) → Keeps IsRunning (publish_cleanup env q h)
  unfolding publish_cleanup
  publish_cleanup-IsRunning q h = search (keeps_rules, running_rules) depth 14

  pub request_failed-IsRunning :
      (last : Bool) (e : Exc) → Keeps IsRunning (request_failed env last e)
  unfolding request_failed
  request_failed-IsRunning last e =
      search (keeps_rules, running_rules, recover_connection_sync-IsRunning) depth 14

  pub request_cleanup-IsRunning : (v : Attempt) → Keeps IsRunning (request_cleanup env v)
  unfolding request_cleanup
  request_cleanup-IsRunning v = search (keeps_rules, running_rules) depth 14

  pub reply_failed-IsRunning : (h : ℕ) (e : Exc) → Keeps IsRunning (reply_failed env h e)
  unfolding reply_failed
  reply_failed-IsRunning h (mqmi_error reason len) = search (keeps_rules, running_rules) depth 14
  reply_failed-IsRunning h e = Keeps-raise e

  pub wait_for_reply_sync-IsRunning :
      (fuel : ℕ) (p : Pending) (timeout : Duration)
      → Keeps IsRunning (wait_for_reply_sync env fuel p timeout)
  unfolding wait_for_reply_sync
  wait_for_reply_sync-IsRunning fuel p timeout =
      search (keeps_rules, running_rules, read_headers-IsRunning, reply_failed-IsRunning) depth 14

  pub request_done-IsRunning : (v : Option ℕ × Bool) → Keeps IsRunning (request_done env v)
  unfolding request_done
  request_done-IsRunning v =
      search (keeps_rules, running_rules, recover_connection_sync-IsRunning) depth 14
