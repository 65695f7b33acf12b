-- ===== src/Subscriber.antt =====
-- message.py and subscriber/usecase.py: how a message that was received under syncpoint is settled,
-- by its handler or on its behalf.
pub mod Settle
pub mod Once
pub mod Startup
pub mod Consumer
pub mod Tests
use faststream_mq.Base.{
  Bool, true, false, Option, none, some, if◌then◌else◌, is_some, ◌&&◌, ◌||◌, not,
}
use faststream_mq.Errors.{
  Exc, Result, ok, err, cancelled_error, ack_message, nack_message, reject_message, is_exception,
}
use faststream_mq.Exec.{Exec, pure, raise, gets, modify, when, finally, ◌>>=◌, ◌>>◌}
use faststream_mq.Connection.Message.{AckStatus, acked, nacked, MqRawMessage}

-- faststream's acknowledgement policies, as far as the package tells them apart
pub data AckPolicy : Type 0 where
  ack ack_first reject_on_error manual nack_on_error : AckPolicy

-- `MQAcknowledger`: what a message asks of the connection it came from
pub record MqAcknowledger (S : Type 0) : Type 0 where
  pub commit : Exec S (Unit {0})
  pub backout : Exec S (Unit {0})

-- `StreamMessage.ack` and `StreamMessage.nack` of faststream, on the attribute `committed`
pub record StreamMessage : Type 0 where
  pub ack : Option AckStatus → Option AckStatus
  pub nack : Option AckStatus → Option AckStatus

-- The state of the connection, the raw message, and the attribute `committed` of its `MQMessage`.
pub record Session (S : Type 0) : Type 0 where
  pub broker : S
  pub raw : MqRawMessage
  pub committed : Option AckStatus

abbrev pub set_settled : {S : Type 0} → Option AckStatus → Session S → Session S
set_settled v x = record x { raw = record (x.raw) { settled = v } }

abbrev pub set_event : {S : Type 0} → Session S → Session S
set_event x = record x { raw = record (x.raw) { settled_event = true } }

-- `_should_commit`
unfoldable pub should_commit : AckPolicy → Exc → Bool
should_commit policy ack_message = true
should_commit policy reject_message = true
should_commit policy nack_message = false
should_commit ack e = true
should_commit ack_first e = true
should_commit reject_on_error e = true
should_commit policy e = false

-- whether `except asyncio.CancelledError` catches it
abbrev pub is_cancelled : Exc → Bool
is_cancelled cancelled_error = true
is_cancelled e = false

-- after a cancellation `_wait_for_broker_settle` waits for the operation itself
abbrev settled_result : Result (Unit {0}) → Result (Unit {0}) → Result (Unit {0})
settled_result (err cancelled_error) r = r
settled_result waited r = waited

module _ {S : Type 0} where
  abbrev pub on_broker : Exec S (Unit {0}) → Exec (Session S) (Unit {0})
  on_broker m x = let (r, b) = m x.broker in (r, record x { broker = b })

  -- `asyncio.shield(operation)`: a task that is cancelled while it waits gets a `CancelledError`, and
  -- the operation runs on to its end
  unfoldable pub shielded : Bool → Exec S (Unit {0}) → Exec (Session S) (Unit {0})
  shielded cancelled operation x =
      let (r, x') = on_broker operation x in (if cancelled then err cancelled_error else r, x')

  -- `_wait_for_broker_settle`
  unfoldable pub wait_for_broker_settle : Bool → Exec S (Unit {0}) → Exec (Session S) (Unit {0})
  unfolding shielded
  wait_for_broker_settle cancelled operation x =
      let (r, x') = on_broker operation x in
      (settled_result (shielded cancelled operation x).0 r, x')

  module _ (acknowledger : MqAcknowledger S) (base : StreamMessage) (cancelled : Bool) where
    -- `if self.committed is None and self.raw_message.connection is not None`
    abbrev pub is_open : Session S → Bool
    is_open x = not (is_some x.committed) && x.raw.connection

    -- what `ack` and `nack` have in common: their calls of the connection and of the base class
    unfoldable pub settle_message :
        Exec S (Unit {0}) → (Option AckStatus → Option AckStatus) → Exec (Session S) (Unit {0})
    settle_message operation mark =
        finally
          (do
            unsettled ← gets is_open
            when unsettled (wait_for_broker_settle cancelled operation)
            modify (λ x. record x { committed = mark x.committed })
            modify (λ x. set_settled x.committed x))
          (modify set_event)

    -- `MQMessage.ack`
    unfoldable pub message_ack : Exec (Session S) (Unit {0})
    message_ack = settle_message acknowledger.commit base.ack

    -- `MQMessage.nack`
    unfoldable pub message_nack : Exec (Session S) (Unit {0})
    message_nack = settle_message acknowledger.backout base.nack

    -- `MQMessage.reject`
    unfoldable pub message_reject : Exec (Session S) (Unit {0})
    message_reject = message_ack

    -- the two `except` clauses of `_settle_unresolved_message`, less the line that it logs
    abbrev settle_failed : Result (Unit {0}) → Exec (Session S) (Unit {0})
    settle_failed (ok u) x = (ok u, x)
    settle_failed (err e) x =
        if is_cancelled e || is_exception e then (ok tt, set_event x) else (err e, x)

    -- one branch of its `try`
    abbrev pub settle_by : Exec S (Unit {0}) → AckStatus → Exec (Session S) (Unit {0})
    settle_by operation status = do
      shielded cancelled operation
      modify (set_settled (some status))
      modify set_event

    -- its `try`
    unfoldable pub settle_try : AckPolicy → Exc → Exec (Session S) (Unit {0})
    settle_try policy e =
        if should_commit policy e
        then settle_by acknowledger.commit acked
        else settle_by acknowledger.backout nacked

    -- `_settle_unresolved_message`
    unfoldable pub settle_unresolved_message : AckPolicy → Exc → Exec (Session S) (Unit {0})
    settle_unresolved_message policy e x =
        if not x.raw.connection || is_some x.raw.settled
        then (ok tt, x)
        else let (r, x') = settle_try policy e x in settle_failed r x'
