-- ===== src/Connection/State.antt =====
-- The attributes of `AsyncMQConnection`, the part of the process that it shares, and its calls of
-- the library.
use faststream_mq.Base.{
  ℕ, Text, Bool, false, Option, some, none, List, ◌∷◌, is_empty, not, if◌then◌else◌,
}
use faststream_mq.Errors.{Exc, Result, ok, err, mqmi_error, type_error, other_error, import_error}
use faststream_mq.Exec.{Exec}
use faststream_mq.Native.{
  Env, Event, event, Call, Answer, Reply, answered, failed, Fault, mqmi_fault, type_fault,
  other_fault,
}
use faststream_mq.Tls.{MqTlsConfig}
use faststream_mq.Command.{Duration}

-- `MQConnectionConfig`
pub record ConnectionConfig : Type 0 where
  pub queue_manager : Text
  pub channel : Option Text
  pub conn_name : Option Text
  pub username : Option Text
  pub password : Option Text
  pub tls : Option MqTlsConfig
  pub reply_model_queue : Text
  pub wait_interval : Duration
  pub ccdt_url : Option Text
  pub reconnect_mode : Text
  pub startup_retry_timeout : Duration
  pub startup_retry_interval : Duration

-- `PreparedMQTLSConfig`
pub record PreparedTls : Type 0 where
  pub cipher_spec : Text
  pub key_repository : Text
  pub keystore_password : Option Text
  pub certificate_label : Option Text
  pub peer_name : Option Text
  pub environment_scope : Option Text
  pub tempdir : Option Text

-- `executor` says whether there is one.
pub record Connection : Type 0 where
  pub connection_config : ConnectionConfig
  pub executor : Bool
  pub qmgr : Option ℕ
  pub consumer_queue : Option ℕ
  pub consumer_queue_name : Text
  pub prepared_tls : Option PreparedTls

-- A connection, the calls made so far (the latest first), and the process's environment variable
-- AMQ_TLS_ENVIRONMENT_SCOPE.
pub record State : Type 0 where
  pub conn : Connection
  pub log : List Event
  pub amq_tls_scope : Option Text

abbrev pub exc_of : Fault → Exc
exc_of (mqmi_fault reason data_length) = mqmi_error reason data_length
exc_of type_fault = type_error
exc_of (other_fault n) = other_error n

abbrev pub result_of : {A : Type 0} → Reply A → Result A
result_of (answered a) = ok a
result_of (failed f) = err (exc_of f)

-- one call of the library, kept in the log with its outcome
unfoldable pub native : (env : Env) (c : Call) → Exec State (Answer c)
native env c s = let r = env.answer s.log c in (result_of r, record s { log = event c r ∷ s.log })

-- `_load_ibmmq`
unfoldable pub load_ibmmq : Env → Exec State (Unit {0})
load_ibmmq env s = (if env.available then ok tt else err import_error, s)

abbrev pub set_qmgr : Option ℕ → State → State
set_qmgr q s = record s { conn = record (s.conn) { qmgr = q } }

abbrev pub set_consumer : Option ℕ → State → State
set_consumer q s = record s { conn = record (s.conn) { consumer_queue = q } }

abbrev pub set_consumer_name : Text → State → State
set_consumer_name n s = record s { conn = record (s.conn) { consumer_queue_name = n } }

abbrev pub set_prepared : Option PreparedTls → State → State
set_prepared p s = record s { conn = record (s.conn) { prepared_tls = p } }

abbrev pub set_executor : Bool → State → State
set_executor b s = record s { conn = record (s.conn) { executor = b } }

abbrev pub set_tls_scope : Option Text → State → State
set_tls_scope v s = record s { amq_tls_scope = v }

-- the truth value of an optional text
abbrev pub is_set : Option Text → Bool
is_set none = false
is_set (some t) = not (is_empty t)

-- `value or None`: an empty text is not passed on
abbrev pub truthy : Option Text → Option Text
truthy none = none
truthy (some t) = if is_empty t then none else some t
