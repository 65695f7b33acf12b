-- ===== src/Connection/Api.antt =====
-- The methods of `AsyncMQConnection` as its users call them. Each one runs on the executor, and all but
-- `connect`, `disconnect`, `ping` and `stop_consumer` insist that there is one.
use faststream_mq.Base.{ℕ, Text, Option, if◌then◌else◌}
use faststream_mq.Errors.{assertion_error}
use faststream_mq.Exec.{Exec, pure, raise, gets, ◌>>=◌}
use faststream_mq.Native.{Env}
use faststream_mq.Command.{MqPublishCommand, Duration}
use faststream_mq.Connection.State.{State}
use faststream_mq.Connection.Message.{MqRawMessage}
use faststream_mq.Connection.Connect.{connect}
use faststream_mq.Connection.Recover.{disconnect_connection}
use faststream_mq.Connection.Consume.{
  ping, commit_sync, backout_sync, start_consumer_sync, stop_consumer_sync, get_message_sync,
}
use faststream_mq.Connection.Publish.{publish_sync}
use faststream_mq.Connection.Request.{request_sync}

-- `assert self._executor is not None`, and the call
unfoldable pub on_executor : {A : Type 0} → Exec State A → Exec State A
on_executor m = do
  running ← gets (λ s. s.conn.executor)
  if running then m else raise assertion_error

-- `if self._executor is None: return`
unfoldable pub if_started : Exec State (Unit {0}) → Exec State (Unit {0})
if_started m = do running ← gets (λ s. s.conn.executor); if running then m else pure tt

module _ (env : Env) where
  -- `backout`
  abbrev pub async_backout : Exec State (Unit {0})
  async_backout = on_executor (backout_sync env)

  -- `start_consumer`
  abbrev pub async_start_consumer : Text → Exec State (Unit {0})
  async_start_consumer name = on_executor (start_consumer_sync env name)

  -- `get_message`
  abbrev pub async_get_message : ℕ → Duration → ℕ → Exec State (Option MqRawMessage)
  async_get_message fuel timeout max = on_executor (get_message_sync env fuel timeout max)

  -- `publish`
  abbrev pub async_publish : MqPublishCommand → Exec State (Unit {0})
  async_publish cmd = on_executor (publish_sync env cmd)

  -- `request`
  abbrev pub async_request : ℕ → MqPublishCommand → Exec State MqRawMessage
  async_request fuel cmd = on_executor (request_sync env fuel cmd)

-- Any method of the connection, called in any state, whether it returns or raises.
pub data Step (env : Env) : State → State → Type 0 where
  connect_step : (s : State) → Step env s (connect env s).1
  disconnect_step : (s : State) → Step env s (disconnect_connection env s).1
  ping_step : (s : State) → Step env s (ping env s).1
  commit_step : (s : State) → Step env s (on_executor (commit_sync env) s).1
  backout_step : (s : State) → Step env s (async_backout env s).1
  start_consumer_step : (name : Text) (s : State) → Step env s (async_start_consumer env name s).1
  stop_consumer_step : (s : State) → Step env s (if_started (stop_consumer_sync env) s).1
  get_message_step :
      (fuel : ℕ) (timeout : Duration) (max : ℕ) (s : State)
      → Step env s (async_get_message env fuel timeout max s).1
  publish_step : (cmd : MqPublishCommand) (s : State) → Step env s (async_publish env cmd s).1
  request_step :
      (fuel : ℕ) (cmd : MqPublishCommand) (s : State) → Step env s (async_request env fuel cmd s).1

pub data Reach (env : Env) (s : State) : State → Type 0 where
  here : Reach env s s
  next : {t u : State} → Reach env s t → Step env t u → Reach env s u
