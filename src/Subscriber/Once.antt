-- ===== src/Subscriber/Once.antt =====
-- A message is settled once: what the methods of message.py and `_settle_unresolved_message` do to
-- a message that one of the methods has settled.
use faststream_mq.Base.{
  ◌≡◌, refl, ◌∙◌, Bool, Option, none, some, List, [], ◌∷◌, arith, Bool-cases, inl, inr,
  Option-cases,
}
use faststream_mq.Errors.{Exc, ok, Result-cases}
use faststream_mq.Exec.{Exec, modify, when, finally, ◌>>=◌}
use faststream_mq.Connection.Message.{AckStatus}
use faststream_mq.Subscriber.{
  AckPolicy, MqAcknowledger, StreamMessage, Session, settle_unresolved_message, message_ack,
  message_nack, message_reject, wait_for_broker_settle, settle_message, is_open,
}

-- the three methods of a message, and whether the caller is cancelled while it waits
pub data Method : Type 0 where
  ack_method nack_method reject_method : Bool → Method

-- anything that settles a message
pub data Settlement : Type 0 where
  by_method : Method → Settlement
  unresolved : Bool → AckPolicy → Exc → Settlement

module _ {S : Type 0} (a : MqAcknowledger S) (base : StreamMessage) where
  abbrev pub run_method : Method → Exec (Session S) (Unit {0})
  run_method (ack_method c) = message_ack a base c
  run_method (nack_method c) = message_nack a base c
  run_method (reject_method c) = message_reject a base c

  abbrev pub run_settlement : Settlement → Exec (Session S) (Unit {0})
  run_settlement (by_method m) = run_method m
  run_settlement (unresolved c policy e) = settle_unresolved_message a base c policy e

  -- one after another, whether they return or raise
  abbrev pub run_settlements : List Settlement → Session S → Session S
  run_settlements [] x = x
  run_settlements (m ∷ ms) x = run_settlements ms (run_settlement m x).1

-- The message has a status, and the raw message has the same one.
pub record IsSettled {S : Type 0} (v : AckStatus) (x : Session S) : Type 0 where
  pub committed : x.committed ≡ some v
  pub settled : x.raw.settled ≡ some v

module _ {S : Type 0} (a : MqAcknowledger S) (base : StreamMessage) (c : Bool)
    (operation : Exec S (Unit {0})) (mark : Option AckStatus → Option AckStatus) where
  -- on a settled message the methods of the base class decide alone
  settle_message-kept :
      (v : AckStatus) (x : Session S)
      → mark (some v) ≡ some v
      → IsSettled v x
      → ((settle_message a base c operation mark x).1.broker ≡ x.broker)
        × IsSettled v (settle_message a base c operation mark x).1
  unfolding settle_message finally ◌>>=◌ when modify
  settle_message-kept v x kept i =
      (ground arith, record { committed = ground arith; settled = ground arith })

  -- the methods of the base class give a status
  settle_message-ok :
      (v : AckStatus) (x y : Session S)
      → mark none ≡ some v
      → ((u : AckStatus) → mark (some u) ≡ some u)
      → settle_message a base c operation mark x ≡ (ok tt, y)
      → (u : AckStatus) × IsSettled u y
  unfolding settle_message finally ◌>>=◌ when modify wait_for_broker_settle
  settle_message-ok v x y first kept h = elim (Bool-cases (is_open a base c x)) [
    | inl o ↦ elim (Result-cases (wait_for_broker_settle c operation x).0) [
      | inl (u, r) ↦ (v, record { committed = ground arith; settled = ground arith })
      | inr (e, r) ↦ absurd ground arith
    ]
    | inr o ↦ elim (Option-cases x.committed) [
      | inl n ↦ (v, record { committed = ground arith; settled = ground arith })
      | inr (u, n) ↦
          (u, record { committed = ground (arith, kept u); settled = ground (arith, kept u) })
    ]
  ]

module _ {S : Type 0} (a : MqAcknowledger S) (base : StreamMessage) (v w : AckStatus)
    (ack_first : base.ack none ≡ some v) (nack_first : base.nack none ≡ some w)
    (ack_kept : (u : AckStatus) → base.ack (some u) ≡ some u)
    (nack_kept : (u : AckStatus) → base.nack (some u) ≡ some u) where
  settlement-kept :
      (m : Settlement) (u : AckStatus) (x : Session S)
      → IsSettled u x
      → ((run_settlement a base m x).1.broker ≡ x.broker)
        × IsSettled u (run_settlement a base m x).1
  unfolding message_ack message_nack message_reject settle_unresolved_message
  settlement-kept (by_method (ack_method c)) u x i =
      settle_message-kept a base c a.commit base.ack u x (ack_kept u) i
  settlement-kept (by_method (nack_method c)) u x i =
      settle_message-kept a base c a.backout base.nack u x (nack_kept u) i
  settlement-kept (by_method (reject_method c)) u x i =
      settle_message-kept a base c a.commit base.ack u x (ack_kept u) i
  settlement-kept (unresolved c policy e) u x i =
      (ground arith, record { committed = ground arith; settled = ground arith })

  settlements-kept :
      (ms : List Settlement) (u : AckStatus) (x : Session S)
      → IsSettled u x
      → ((run_settlements a base ms x).broker ≡ x.broker)
        × IsSettled u (run_settlements a base ms x)
  settlements-kept [] u x i = (refl, i)
  settlements-kept (m ∷ ms) u x i =
      let now = settlement-kept m u x i in
      let later = settlements-kept ms u _ now.1 in (later.0 ∙ now.0, later.1)

  method-settles :
      (m : Method) (x y : Session S)
      → run_method a base m x ≡ (ok tt, y)
      → (u : AckStatus) × IsSettled u y
  unfolding message_ack message_nack message_reject
  method-settles (ack_method c) x y h =
      settle_message-ok a base c a.commit base.ack v x y ack_first ack_kept h
  method-settles (nack_method c) x y h =
      settle_message-ok a base c a.backout base.nack w x y nack_first nack_kept h
  method-settles (reject_method c) x y h =
      settle_message-ok a base c a.commit base.ack v x y ack_first ack_kept h

  -- Where faststream's own `ack` and `nack` give a message without a status one and leave any other
  -- as it is: once `ack`, `nack` or `reject` of a message has returned, the raw message has a
  -- status, and that status and the state of the broker stay as they are whatever settlements
  -- follow, in any order, interrupted or not: nothing is committed or backed out again.
  pub settled-once :
      (m : Method) (ms : List Settlement) (x y : Session S)
      → run_method a base m x ≡ (ok tt, y)
      → ((run_settlements a base ms y).broker ≡ y.broker)
        × ((u : AckStatus) × (y.raw.settled ≡ some u)
            × ((run_settlements a base ms y).raw.settled ≡ some u))
  settled-once m ms x y h =
      let first = method-settles m x y h in
      let later = settlements-kept ms first.0 y first.1 in
      (later.0, (first.0, first.1.settled, later.1.settled))
