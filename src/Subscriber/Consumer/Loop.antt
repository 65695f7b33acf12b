-- ===== src/Subscriber/Consumer/Loop.antt =====
-- `_consume_loop` of subscriber/usecase.py as a state machine, between the steps of which other
-- tasks may settle messages and stop the subscriber.
pub mod Kept
pub mod Turn
pub mod InTurn
use faststream_mq.Base.{
  ℕ, ◌<◌, ◌≡◌, Bool, true, not, ◌&&◌, ◌||◌, Option, none, some, is_some, if◌then◌else◌,
}
use faststream_mq.Errors.{Exc, Result, ok, err, is_exception}
use faststream_mq.Exec.{Exec, pure, raise, gets, if_some, try_except, ◌>>=◌, ◌>>◌}
use faststream_mq.Connection.Message.{MqRawMessage}
use faststream_mq.Subscriber.Consumer.{
  Consumer, Calls, Settings, is_manual, on_world, new_message, stored, consume, stop,
}

-- where the loop is: before its test, in `get_message`, waiting for the message `n`, or at its end
pub data Phase : Type 0 where
  at_top fetching ended : Phase
  waiting : ℕ → Phase

abbrev pub phase_after : Result Phase → Phase
phase_after (ok p) = p
phase_after (err e) = ended

-- a message that nobody waits for any more
abbrev pub is_done : MqRawMessage → Bool
is_done m = is_some m.settled || m.settled_event

module _ {S : Type 0} (c : Calls S) (cfg : Settings) where
  -- the `try` around `get_message`: none where the loop breaks
  unfoldable pub receive_next : Exec (Consumer S) (Option (Option MqRawMessage))
  receive_next =
      try_except (do raw ← on_world c.get_message; pure (some raw))
        (λ e. do
          running ← gets (λ x. x.running)
          if is_exception e && not running then pure none else raise e)

  -- the rest of the loop's body, on the message `n`
  unfoldable pub take_message : ℕ → Exec (Consumer S) Phase
  take_message n = do
    consume c cfg n
    raw ← gets (λ x. x.messages n)
    pure (if is_manual cfg.ack_policy && not (is_some raw.settled) then waiting n else at_top)

  -- the loop's body, from `get_message` on
  unfoldable pub take_turn : Exec (Consumer S) Phase
  take_turn = do
    received ← receive_next
    if_some received (λ raw. if_some raw (λ m. do n ← new_message m; take_message n) (pure at_top))
        (pure ended)

  -- a step of the loop, or of another task
  pub data LoopStep : Phase × Consumer S → Phase × Consumer S → Type 0 where
    checked : (x : Consumer S) → LoopStep (at_top, x) ((if x.running then fetching else ended), x)
    turned :
        (x : Consumer S) → LoopStep (fetching, x) (phase_after (take_turn x).0, (take_turn x).1)
    woken :
        (n : ℕ) (x : Consumer S)
        → (x.messages n).settled_event ≡ true
        → LoopStep (waiting n, x) (at_top, x)
    -- a message changes in another task; what is done is not undone
    changed :
        (p : Phase) (n : ℕ) (m : MqRawMessage) (w : S) (x : Consumer S)
        → (is_done (x.messages n) ≡ true → is_done m ≡ true)
        → LoopStep (p, x) (p, record x { world = w; messages = stored n m x.messages })
    halted : (p : Phase) (x : Consumer S) → LoopStep (p, x) (p, (stop c cfg x).1)

  pub data LoopReach (t : Phase × Consumer S) : Phase × Consumer S → Type 0 where
    loop_here : LoopReach t t
    loop_next : {u v : Phase × Consumer S} → LoopReach t u → LoopStep u v → LoopReach t v
