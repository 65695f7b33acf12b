-- ===== src/Connection/AtMostOnce.antt =====
-- A request is never replayed: one call of `request` puts one message at most.
use faststream_mq.Base.{
  ℕ, zero, suc, ◌+◌, ◌≡◌, refl, ◌≤◌, arith, Bytes, Bool, Option, some, none, Dict, ◌==◌, not, ◌||◌,
  false,
}
use faststream_mq.Values.{Value}
use faststream_mq.Errors.{Exc, Result, ok, err, mqmi_error}
use faststream_mq.Exec.{if_some, pure}
use faststream_mq.Exec.Hoare.{
  Keeps, Ensures, Ensures-bind, Ensures-seq, Ensures-try_except, Ensures-finally_with,
  Ensures-on_state, Ensures-assign, Ensures-pure, Ensures-raise, Ensures-if,
}
use faststream_mq.Native.{Env}
use faststream_mq.Command.{MqPublishCommand}
use faststream_mq.Connection.State.{State}
use faststream_mq.Connection.Log.{Count, total, put_done, Keeps-sleep, Keeps-load}
use faststream_mq.Connection.Message.{MqRawMessage}
use faststream_mq.Connection.Posts.{
  TriedErr, Round, AtMostOne-Count, AtMostOne-Count-suc, AtMostOne-Round, Keeps-AtMostOne,
  Requested, AtMostOne-Requested,
}
use faststream_mq.Connection.Harmless.{counting}
use faststream_mq.Connection.Puts.{
  recover_connection_sync-Keeps, encode_command-Keeps, request_cleanup-Keeps,
  wait_for_reply_sync-Keeps, request_done-Keeps,
}
use faststream_mq.Connection.Reasons.{is_reconnectable}
use faststream_mq.Connection.Attempt.{request_try-Tried}
use faststream_mq.Connection.Request.{
  request_cleanup, Attempt, Pending, request_failed, request_attempt, request_attempts,
  publish_request_sync, request_sync, wait_for_reply_sync, request_done,
}

module _ (env : Env) (n : ℕ) where
  -- the handler goes on only where no message was put
  request_failed-Round :
      (last : Bool) (e : Exc) → Ensures (TriedErr n e) (request_failed env last e) (Round n)
  unfolding request_failed is_reconnectable
  request_failed-Round last (mqmi_error reason len) =
      Ensures-if (not (is_reconnectable env (mqmi_error reason len)) || last) _ _
        (λ b. Ensures-raise (mqmi_error reason len) (λ s c. AtMostOne-Count n s c))
        (λ b.
          Ensures-bind _ _ (recover_connection_sync-Keeps env (counting env n) false)
            (λ e s c. AtMostOne-Count n s c)
            (λ u.
              Ensures-bind _ _ (Keeps-sleep env 200 (λ r. refl)) (λ e s c. AtMostOne-Count n s c)
                (λ u. Ensures-pure none (λ s c. c))))
  request_failed-Round last e = Ensures-raise e (λ s c. c)

  request_attempt-Round :
      (last : Bool) (b : Bytes) (d : Dict Value) (cmd : MqPublishCommand)
      → Ensures (Count put_done n) (request_attempt env last b d cmd) (Round n)
  unfolding request_attempt
  request_attempt-Round last b d cmd =
      Ensures-finally_with {Q = Round n} _ _ _
        (Ensures-try_except {Q = λ r sv. OptTried r sv.0} _ _
          (Ensures-seq _ _ (request_try-Tried env n b d cmd) (λ e sv c. c)
            (λ p. Ensures-pure _ (λ sv c. c)))
          returned (λ e. Ensures-on_state _ (λ v. request_failed-Round last e)))
        cleanup (λ r s c. c) (λ r e s c. AtMostOne-Round n r s c)
    where
      OptTried : Result (Option Pending) → State → Type 0
      OptTried (ok (some p)) s = Count put_done (suc n) s
      OptTried (ok none) s = ⊥
      OptTried (err e) s = TriedErr n e s

      returned :
          (o : Option Pending) (sv : State × Attempt) → OptTried (ok o) sv.0 → Round n (ok o) sv.0
      returned (some p) sv c = c
      returned none sv c = absurd c

      cleanup :
          (v : Attempt) (r : Result (Option Pending)) → Keeps (Round n r) (request_cleanup env v)
      cleanup v (ok (some p)) = request_cleanup-Keeps env (counting env (suc n)) v
      cleanup v (ok none) = request_cleanup-Keeps env (counting env n) v
      cleanup v (err e) = Keeps-AtMostOne n _ (λ k. request_cleanup-Keeps env (counting env k) v)

  request_attempts-Requested :
      (left : ℕ) (b : Bytes) (d : Dict Value) (cmd : MqPublishCommand)
      → Ensures (Count put_done n) (request_attempts env left b d cmd) (Requested n)
  unfolding request_attempts if_some pure
  request_attempts-Requested zero b d cmd = Ensures-raise _ (AtMostOne-Count n)
  request_attempts-Requested (suc left) b d cmd =
      let again = request_attempts-Requested left b d cmd in
      Ensures-seq _ _ (request_attempt-Round (left == 0) b d cmd) (λ e s c. c) (go again)
    where
      go :
          Ensures (Count put_done n) (request_attempts env left b d cmd) (Requested n)
          → (o : Option Pending)
          → Ensures
              (Round n (ok o))
              (if_some o pure (request_attempts env left b d cmd))
              (Requested n)
      go again (some p) = record { at = λ s c. c }
      go again none = record { at = again.at }

  publish_request_sync-Requested :
      (cmd : MqPublishCommand)
      → Ensures (Count put_done n) (publish_request_sync env cmd) (Requested n)
  unfolding publish_request_sync
  publish_request_sync-Requested cmd =
      Ensures-bind _ _ (Keeps-load env) (λ e. AtMostOne-Count n)
        (λ u.
          Ensures-bind _ _ (encode_command-Keeps env (counting env n) cmd) (λ e. AtMostOne-Count n)
            (λ encoded. request_attempts-Requested 2 _ _ cmd))

  request_sync-Requested :
      (fuel : ℕ) (cmd : MqPublishCommand)
      → Ensures (Count put_done n) (request_sync env fuel cmd) (Requested n)
  unfolding request_sync
  request_sync-Requested fuel cmd =
      Ensures-bind _ _ (Keeps-load env) (λ e. AtMostOne-Count n)
        (λ u.
          Ensures-finally_with {Q = Requested n} _ _ _
            (Ensures-try_except {Q = λ r sv. Requested n r sv.0} _ _
              (Ensures-seq {Q = λ r sv. Requested n r sv.0} _ _
                (Ensures-on_state _ (λ v. publish_request_sync-Requested cmd)) (λ e sv c. c)
                (λ p. Ensures-assign _ _ (λ sv c. c) (Ensures-on_state _ (λ v. waited p))))
              (λ a sv c. c) (λ e. Ensures-assign _ _ (λ sv c. c) (Ensures-raise e (λ sv c. c))))
            done (λ r s c. c) (λ r e s c. AtMostOne-Requested n r s c))
    where
      waited :
          (p : Pending)
          → Ensures
              (Count put_done (suc n))
              (wait_for_reply_sync env fuel p cmd.timeout)
              (Requested n)
      waited p = record {
        at = λ s c.
            go (wait_for_reply_sync env fuel p cmd.timeout s).0 _
              ((wait_for_reply_sync-Keeps env (counting env (suc n)) fuel p cmd.timeout).at s c);
      }
        where
          go : (r : Result MqRawMessage) (s : State) → Count put_done (suc n) s → Requested n r s
          go (ok m) s c = c
          go (err e) s c = AtMostOne-Count-suc n s c

      done :
          (v : Option ℕ × Bool) (r : Result MqRawMessage)
          → Keeps (Requested n r) (request_done env v)
      done v (ok m) = request_done-Keeps env (counting env (suc n)) v
      done v (err e) = Keeps-AtMostOne n _ (λ k. request_done-Keeps env (counting env k) v)

-- one message more than `n` was put if the call returned, one more at most if it raised
abbrev pub PutsOnce : ℕ → Result MqRawMessage × State → Type 0
PutsOnce n (ok m, s) = total put_done s.log ≡ n + 1
PutsOnce n (err e, s) = total put_done s.log ≤ n + 1

Requested-PutsOnce :
    (n : ℕ) (r : Result MqRawMessage) (s : State) → Requested n r s → PutsOnce n (r, s)
Requested-PutsOnce n (ok m) s c = omega (arith, c.is)
Requested-PutsOnce n (err e) s c = omega (arith, c.upper)

-- However the library answers, `request` puts its message exactly once if it returns a reply, and
-- at most once if it raises: a request that was published is never replayed, also where the
-- connection breaks and is recovered in between.
pub request_sync-puts :
    (env : Env) (fuel : ℕ) (cmd : MqPublishCommand) (s : State)
    → PutsOnce (total put_done s.log) (request_sync env fuel cmd s)
request_sync-puts env fuel cmd s =
    Requested-PutsOnce _ _ _ ((request_sync-Requested env _ fuel cmd).at s (record { is = refl }))
