-- ===== src/Subscriber/Settle.antt =====
-- `_settle_unresolved_message` of subscriber/usecase.py, branch by branch.
use faststream_mq.Base.{
  ◌≡◌, refl, Bool, true, false, none, some, ◌||◌, arith, Bool-cases, inl, inr, if◌then◌else◌,
}
use faststream_mq.Errors.{Exc, Result, ok, err, is_exception}
use faststream_mq.Exec.{Exec, modify, ◌>>=◌}
use faststream_mq.Connection.Message.{AckStatus, acked, nacked}
use faststream_mq.Subscriber.{
  AckPolicy, MqAcknowledger, StreamMessage, Session, settle_unresolved_message, settle_try,
  shielded, should_commit, set_settled, set_event, is_cancelled,
}

-- the call that settles a message after an exception, and the status that it gets
abbrev pub settlement :
    {S : Type 0} → MqAcknowledger S → AckPolicy → Exc → Exec S (Unit {0}) × AckStatus
settlement a policy e = if should_commit policy e then (a.commit, acked) else (a.backout, nacked)

-- whether one of the two `except` clauses catches what the call raised
abbrev pub is_caught : Result (Unit {0}) → Bool
is_caught (ok u) = true
is_caught (err f) = is_cancelled f || is_exception f

-- the session at the end: the status is written only if the call was made and nothing broke in
abbrev pub settled_session :
    {S : Type 0} → Bool → Result (Unit {0}) → AckStatus → Session S → Session S
settled_session false (ok u) status x = set_event (set_settled (some status) x)
settled_session false (err f) status x = set_event x
settled_session true r status x = set_event x

module _ {S : Type 0} (a : MqAcknowledger S) (base : StreamMessage) (policy : AckPolicy) (e : Exc)
    (x : Session S) where
  settle_ran :
      (c : Bool) (r : Result (Unit {0})) (b : S)
      → x.raw.connection ≡ true
      → x.raw.settled ≡ none
      → (settlement a policy e).0 x.broker ≡ (r, b)
      → is_caught r ≡ true
      → settle_unresolved_message a base c policy e x
        ≡ (ok tt, settled_session c r (settlement a policy e).1 (record x { broker = b }))
  unfolding settle_unresolved_message settle_try shielded ◌>>=◌ modify
  settle_ran false (ok u) b con uns h k = elim (Bool-cases (should_commit policy e)) [
    | inl c ↦ ground arith
    | inr c ↦ ground arith
  ]
  settle_ran false (err f) b con uns h k = elim (Bool-cases (should_commit policy e)) [
    | inl c ↦ ground arith
    | inr c ↦ ground arith
  ]
  settle_ran true r b con uns h k = elim (Bool-cases (should_commit policy e)) [
    | inl c ↦ ground arith
    | inr c ↦ ground arith
  ]

  -- A message of a connection that nobody has settled, whose handler raised `e`, is committed or
  -- backed out once, as `should_commit` says of `e` and the policy. Nothing is raised if the call
  -- raises an `Exception` or is cancelled, and those who wait for the message are always woken; it
  -- gets its status only if the call succeeds and is not interrupted.
  pub settle_unresolved_message-settles :
      (c : Bool)
      → x.raw.connection ≡ true
      → x.raw.settled ≡ none
      → is_caught ((settlement a policy e).0 x.broker).0 ≡ true
      → let (r, b) = (settlement a policy e).0 x.broker in
        settle_unresolved_message a base c policy e x
        ≡ (ok tt, settled_session c r (settlement a policy e).1 (record x { broker = b }))
  settle_unresolved_message-settles c con uns k = settle_ran c _ _ con uns refl k
