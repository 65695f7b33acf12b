-- ===== src/Subscriber/Startup.antt =====
-- `_startup_connect_consumer` of subscriber/usecase.py: connecting is tried again until a deadline.
use faststream_mq.Base.{ℕ, suc, ◌+◌, ◌<◌, ◌≡◌, true, Option, some, Text}
use faststream_mq.Errors.{ok}
use faststream_mq.Exec.{Exec, ◌>>◌}
use faststream_mq.Exec.Deadline.{
  is_expired, HasEnded, retry_until, Recovers, retry_until-HasEnded, retry_until-Recovers,
}
use faststream_mq.Native.{Env}
use faststream_mq.Command.{Duration}
use faststream_mq.Connection.State.{State}
use faststream_mq.Connection.Reasons.{is_retryable_mq_exception}
use faststream_mq.Connection.Connect.{connect}
use faststream_mq.Connection.Recover.{disconnect_connection}
use faststream_mq.Connection.Consume.{start_consumer_sync}
use faststream_mq.Connection.Api.{on_executor}

module _ (env : Env) (clock : ℕ → ℕ) (timeout : Duration) (name : Text) where
  -- the `try` of the loop
  unfoldable pub startup_attempt : Exec State (Unit {0})
  startup_attempt = do connect env; on_executor (start_consumer_sync env name)

  -- the loop, from its attempt `n` on, with a disconnect before each further attempt;
  -- `anyio.sleep` between two attempts shows only in the readings of the clock
  unfoldable pub startup_connect_consumer : ℕ → ℕ → Exec State (Option (Unit {0}))
  startup_connect_consumer =
      retry_until (is_retryable_mq_exception env) clock timeout startup_attempt
        (disconnect_connection env)

  -- If the deadline has passed after attempt `n + k`, fuel for `k + 1` attempts is enough: the
  -- loop that goes on from attempt `n` returns or raises.
  pub startup_connect_consumer-terminates :
      (k fuel n : ℕ) (s : State)
      → k < fuel
      → is_expired timeout (clock 0) (clock (suc (n + k))) ≡ true
      → HasEnded (startup_connect_consumer fuel n s).0
  unfolding startup_connect_consumer
  startup_connect_consumer-terminates k fuel n s l d =
      retry_until-HasEnded _ clock timeout _ _ k fuel n s l d

  -- If `k` attempts fail with a reason that may pass, each of them before the deadline, and the next
  -- one succeeds, the loop returns with the state of that attempt, given fuel for more than `k`
  -- attempts.
  pub startup_connect_consumer-Recovers :
      (k fuel n : ℕ) (s t : State)
      → Recovers
          (is_retryable_mq_exception env)
          clock
          timeout
          startup_attempt
          (disconnect_connection env)
          k
          n
          s
          t
      → k < fuel
      → startup_connect_consumer fuel n s ≡ (ok (some tt), t)
  unfolding startup_connect_consumer
  startup_connect_consumer-Recovers k fuel n s t r l =
      retry_until-Recovers _ clock timeout _ _ fuel r l
