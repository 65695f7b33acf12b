-- ===== src/Subscriber/Consumer.antt =====
-- subscriber/usecase.py: how a subscriber starts, takes messages one at a time, and stops.
pub mod Fetch
pub mod Direct
pub mod OneUnsettled
pub mod Stop
pub mod Loop
pub mod Tests
use faststream_mq.Base.{
  ℕ, suc, Bool, true, false, not, Option, none, some, List, [], ◌∷◌, ◌++◌, is_some, ◌==◌, ◌&&◌,
  ◌||◌, if◌then◌else◌, codes,
}
use faststream_mq.Errors.{
  Exc, Result, ok, err, assertion_error, runtime_error, stop_consume, system_exit, is_exception,
}
use faststream_mq.Exec.{
  Exec, pure, raise, gets, modify, when, if_some, assert_some, for_each, for_some, try_except,
  ◌>>=◌, ◌>>◌,
}
use faststream_mq.Connection.Message.{AckStatus, MqRawMessage}
use faststream_mq.Subscriber.{
  AckPolicy, manual, MqAcknowledger, StreamMessage, Session, settle_unresolved_message,
}

-- The attributes of a subscriber. `messages` is the store of the raw messages it has taken, by their
-- identity: `_direct_message` and the user's message are the same object. `world` is the state of
-- the connection and of the application.
pub record Consumer (S : Type 0) : Type 0 where
  pub world : S
  pub running : Bool
  pub consumer : Bool
  pub tasks : List ℕ
  pub test_messages : Option (List MqRawMessage)
  pub direct_message : Option ℕ
  pub messages : ℕ → MqRawMessage
  pub next : ℕ

-- what a subscriber calls: its connection, faststream's own `start`, `stop`, `process_message` and
-- `process_msg`, the tasks of asyncio, and `app.exit`
pub record Calls (S : Type 0) : Type 0 where
  pub acknowledger : MqAcknowledger S
  pub base : StreamMessage
  pub startup_connect : Exec S (Unit {0})
  pub get_message : Exec S (Option MqRawMessage)
  pub stop_consumer : Exec S (Unit {0})
  pub disconnect : Exec S (Unit {0})
  pub process_message : Exec (Session S) (Unit {0})
  pub process_msg : Exec (Session S) (Unit {0})
  -- `task.done()` and `task.cancel()`
  pub is_task_done : ℕ → S → Bool
  pub cancel_task : ℕ → S → S
  -- `asyncio.gather(*tasks, return_exceptions=True)` in a scope that is shielded
  pub join_tasks : List ℕ → Exec S (Unit {0})
  pub exit_app : Exec S (Unit {0})

-- what does not change of a subscriber
pub record Settings : Type 0 where
  pub calls : Bool
  pub is_test : Bool
  pub ack_policy : AckPolicy
  -- whether a settlement is interrupted while it waits
  pub cancelled : Bool

-- what the first two `except` clauses of `consume` catch
abbrev pub is_stop_consume : Exc → Bool
is_stop_consume stop_consume = true
is_stop_consume e = false

abbrev pub is_system_exit : Exc → Bool
is_system_exit system_exit = true
is_system_exit e = false

abbrev pub is_manual : AckPolicy → Bool
is_manual manual = true
is_manual policy = false

abbrev pub unsettled_error : Exc
unsettled_error = runtime_error (
    codes
      "IBM MQ manual settlement allows only one unsettled message per consumer connection. Settle the previous message before fetching another one.")

abbrev pub set_direct : {S : Type 0} → Option ℕ → Consumer S → Consumer S
set_direct m x = record x { direct_message = m }

abbrev set_consumer : {S : Type 0} → Bool → Consumer S → Consumer S
set_consumer b x = record x { consumer = b }

-- the message `n` of the store is `m`
abbrev pub stored : ℕ → MqRawMessage → (ℕ → MqRawMessage) → ℕ → MqRawMessage
stored n m messages i = if i == n then m else messages i

module _ {S : Type 0} where
  -- a call that bears on the connection and the application alone
  unfoldable pub on_world : {A : Type 0} → Exec S A → Exec (Consumer S) A
  on_world m x = let (r, w) = m x.world in (r, record x { world = w })

  -- a call that bears on the message `n` too
  unfoldable pub on_message : ℕ → Exec (Session S) (Unit {0}) → Exec (Consumer S) (Unit {0})
  on_message n m x =
      let (r, y) = m (record { broker = x.world; raw = x.messages n; committed = none }) in
      (r, record x { world = y.broker; messages = stored n y.raw x.messages })

  -- a new message object
  unfoldable pub new_message : MqRawMessage → Exec (Consumer S) ℕ
  new_message m x =
      (ok x.next, record x { messages = stored x.next m x.messages; next = suc x.next })

  -- `_ensure_no_unsettled_direct_message` on the status of the message that is there
  abbrev check_direct : Option AckStatus → Exec (Consumer S) (Unit {0})
  check_direct (some status) = modify (set_direct none)
  check_direct none = raise unsettled_error

  -- `_ensure_no_unsettled_direct_message`
  unfoldable pub ensure_no_unsettled_direct_message : Exec (Consumer S) (Unit {0})
  ensure_no_unsettled_direct_message x =
      for_some x.direct_message (λ n. check_direct (x.messages n).settled) x

module _ {S : Type 0} (c : Calls S) (cfg : Settings) where
  -- `_settle_unresolved_message` of the message `n`
  unfoldable pub settle_unresolved : ℕ → Exc → Exec (Consumer S) (Unit {0})
  settle_unresolved n e =
      on_message n (settle_unresolved_message c.acknowledger c.base cfg.cancelled cfg.ack_policy e)

  -- `self._test_messages.get()` in time: the first message, or none at the timeout
  abbrev take_test_message : List MqRawMessage → Exec (Consumer S) (Option ℕ)
  take_test_message [] = pure none
  take_test_message (m ∷ ms) = do
    modify (λ x. record x { test_messages = some ms })
    n ← new_message m
    pure (some n)

  abbrev keep_message : Option MqRawMessage → Exec (Consumer S) (Option ℕ)
  keep_message none = pure none
  keep_message (some m) = do n ← new_message m; pure (some n)

  -- the next message, from the connection or from the test buffer
  unfoldable pub fetch : Exec (Consumer S) (Option ℕ)
  fetch = do
    buffer ← gets (λ x. x.test_messages)
    if_some buffer take_test_message (do
      connected ← gets (λ x. x.consumer)
      raw ← (if connected then on_world c.get_message else raise assertion_error)
      keep_message raw)

  -- its `except Exception`
  abbrev process_failed : ℕ → Exc → Exec (Consumer S) (Unit {0})
  process_failed n e = if is_exception e then (do settle_unresolved n e; raise e) else raise e

  -- the `try` of `get_one` and of the iterator, on the message `n`
  unfoldable pub process_direct : ℕ → Exec (Consumer S) (Option ℕ)
  process_direct n = do
    try_except (on_message n c.process_msg) (process_failed n)
    when (is_manual cfg.ack_policy) (modify (set_direct (some n)))
    pure (some n)

  -- one round of the iterator: a message that it yields, or none where it goes on
  unfoldable pub iterate_once : Exec (Consumer S) (Option ℕ)
  iterate_once = do
    ensure_no_unsettled_direct_message
    fetched ← fetch
    if_some fetched process_direct (pure none)

  -- `get_one`
  unfoldable pub get_one : Exec (Consumer S) (Option ℕ)
  get_one = if cfg.calls then raise assertion_error else iterate_once

  -- `put_test_message`
  unfoldable pub put_message : MqRawMessage → Exec (Consumer S) (Unit {0})
  put_message m = do
    buffer ← gets (λ x. x.test_messages)
    ms ← assert_some buffer
    modify (λ x. record x { test_messages = some (ms ++ m ∷ []) })

  -- `if not task.done(): task.cancel()`
  unfoldable pub cancel_unfinished : ℕ → Exec S (Unit {0})
  cancel_unfinished task s =
      if c.is_task_done task s then (ok tt, s) else (ok tt, c.cancel_task task s)

  -- `if tasks`
  abbrev has_tasks : List ℕ → Bool
  has_tasks [] = false
  has_tasks (task ∷ tasks) = true

  -- `stop` after the tests for a test buffer, with its variable `tasks`
  unfoldable pub stop_connection : List ℕ → Exec (Consumer S) (Unit {0})
  stop_connection tasks = do
    on_world (for_each tasks cancel_unfinished)
    when (has_tasks tasks) (on_world (c.join_tasks tasks))
    modify (λ x. record x { tasks = [] })
    connected ← gets (λ x. x.consumer)
    when connected (do on_world c.stop_consumer; on_world c.disconnect; modify (set_consumer false))

  -- `stop`; `SubscriberUsecase.stop` sets `running` to false
  unfoldable pub stop : Exec (Consumer S) (Unit {0})
  stop = do
    tasks ← gets (λ x. x.tasks)
    modify (λ x. record x { running = false })
    modify (set_direct none)
    buffer ← gets (λ x. x.test_messages)
    if_some buffer (λ ms. modify (λ x. record x { test_messages = none })) (stop_connection tasks)

  -- `start`; `_post_start` sets `running`, and `fresh` is the task of `_consume_loop`
  unfoldable pub start : ℕ → Exec (Consumer S) (Unit {0})
  start fresh =
      if cfg.is_test
      then (do
        modify (λ x. record x { test_messages = some [] })
        modify (λ x. record x { running = true }))
      else (do
        modify (set_consumer true)
        on_world c.startup_connect
        modify (λ x. record x { running = true })
        when cfg.calls (modify (λ x. record x { tasks = fresh ∷ x.tasks })))

  -- what `consume` does with an exception of `process_message`
  unfoldable pub consume_failed : ℕ → Exc → Exec (Consumer S) (Unit {0})
  consume_failed n e =
      if is_stop_consume e
      then (do settle_unresolved n e; stop)
      else if is_system_exit e
      then (do settle_unresolved n e; stop; on_world c.exit_app)
      else if is_exception e
      then settle_unresolved n e
      else raise e

  -- `consume`
  unfoldable pub consume : ℕ → Exec (Consumer S) (Unit {0})
  consume n = do
    running ← gets (λ x. x.running)
    when running (try_except (on_message n c.process_message) (consume_failed n))
