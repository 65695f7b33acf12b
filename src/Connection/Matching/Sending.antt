-- ===== src/Connection/Matching/Sending.antt =====
-- A request that was sent: what `publish_request_sync` leaves in the history.
use faststream_mq.Base.{
  ℕ, zero, suc, refl, ◌≤◌, length, Bytes, Bool, false, not, ◌||◌, ◌==◌, Option, none, some, Dict,
  List,
}
use faststream_mq.Errors.{Exc, Result, ok, err}
use faststream_mq.Values.{Value}
use faststream_mq.Exec.{pure, if_some}
use faststream_mq.Exec.Hoare.{
  Keeps, Ensures, Ensures-bind, Ensures-seq, Ensures-on_state, Ensures-pure, Ensures-raise,
  Ensures-if, Ensures-try_except, Ensures-finally_with,
}
use faststream_mq.Native.{Env, Event, sleep}
use faststream_mq.Command.{MqPublishCommand}
use faststream_mq.Connection.State.{State}
use faststream_mq.Connection.Harmless.{Harmless}
use faststream_mq.Connection.Reasons.{is_reconnectable}
use faststream_mq.Connection.Matched.{
  Sent-after, after-Harmless, Sent, lasting-Harmless, Sent-lasts,
}
use faststream_mq.Connection.Matching.{ResultIn, request_try-Sent}
use faststream_mq.Connection.Puts.{
  recover_connection_sync-Keeps, encode_command-Keeps, request_cleanup-Keeps,
}
use faststream_mq.Connection.Request.{
  Attempt, Pending, request_failed, request_attempt, request_attempts, publish_request_sync,
  request_cleanup,
}

-- what holds before a request, and where it raised
pub before : (env : Env) (n : ℕ) → Harmless env (λ s. n ≤ length s.log)
before env n = after-Harmless n env

module _ (env : Env) (n : ℕ) (cmd : MqPublishCommand) where
  abbrev SentOption : Option Pending → List Event → Type 0
  SentOption none log = n ≤ length log
  SentOption (some p) log = Sent n env cmd.destination p log

  request_failed-SentOption :
      (last : Bool) (e : Exc)
      → Ensures (λ s. n ≤ length s.log) (request_failed env last e) (ResultIn n SentOption)
  unfolding request_failed
  request_failed-SentOption last e =
      Ensures-if (not (is_reconnectable env e) || last) _ _ (λ b. Ensures-raise e (λ s c. c))
        (λ b.
          Ensures-bind _ _ (recover_connection_sync-Keeps env (before env n) false) (λ e s c. c)
            (λ u.
              Ensures-bind _ _ ((before env n).on_native (sleep 200) refl) (λ e s c. c)
                (λ u. Ensures-pure none (λ s c. c))))

  request_attempt-SentOption :
      (last : Bool) (b : Bytes) (d : Dict Value)
      → Ensures (λ s. n ≤ length s.log) (request_attempt env last b d cmd) (ResultIn n SentOption)
  unfolding request_attempt
  request_attempt-SentOption last b d =
      Ensures-finally_with {Q = ResultIn n SentOption} _ _ _
        (Ensures-try_except {Q = λ r sv. ResultIn n SentOption r sv.0} _ _
          (Ensures-seq {Q = λ r sv. ResultIn n (Sent n env cmd.destination) r sv.0} _ _
            (request_try-Sent env n b d cmd) (λ e sv c. c) (λ p. Ensures-pure _ (λ sv c. c)))
          (λ a sv c. c) (λ e. Ensures-on_state _ (λ v. request_failed-SentOption last e)))
        cleanup (λ r s c. c) raised
    where
      cleanup :
          (v : Attempt) (r : Result (Option Pending))
          → Keeps (ResultIn n SentOption r) (request_cleanup env v)
      cleanup v (ok (some p)) =
          request_cleanup-Keeps env
            (lasting-Harmless (Sent n env cmd.destination p) (Sent-lasts n env cmd.destination p)
              env)
            v
      cleanup v (ok none) = request_cleanup-Keeps env (before env n) v
      cleanup v (err e) = request_cleanup-Keeps env (before env n) v

      raised :
          (r : Result (Option Pending)) (e : Exc) (s : State)
          → ResultIn n SentOption r s
          → n ≤ length s.log
      raised (ok (some p)) e s c = Sent-after n env cmd.destination p s.log c
      raised (ok none) e s c = c
      raised (err e') e s c = c

  request_attempts-Sent :
      (left : ℕ) (b : Bytes) (d : Dict Value)
      → Ensures
          (λ s. n ≤ length s.log)
          (request_attempts env left b d cmd)
          (ResultIn n (Sent n env cmd.destination))
  unfolding request_attempts if_some pure
  request_attempts-Sent zero b d = Ensures-raise _ (λ s c. c)
  request_attempts-Sent (suc left) b d =
      Ensures-seq {Q = ResultIn n SentOption} _ _ (request_attempt-SentOption (left == 0) b d)
        (λ e s c. c) (go (request_attempts-Sent left b d))
    where
      go :
          Ensures
            (λ s. n ≤ length s.log)
            (request_attempts env left b d cmd)
            (ResultIn n (Sent n env cmd.destination))
          → (o : Option Pending)
          → Ensures
              (λ s. SentOption o s.log)
              (if_some o pure (request_attempts env left b d cmd))
              (ResultIn n (Sent n env cmd.destination))
      go again (some p) = record { at = λ s c. c }
      go again none = record { at = again.at }

  pub publish_request_sync-Sent :
      Ensures
        (λ s. n ≤ length s.log)
        (publish_request_sync env cmd)
        (ResultIn n (Sent n env cmd.destination))
  unfolding publish_request_sync
  publish_request_sync-Sent =
      Ensures-bind _ _ (before env n).on_load (λ e s c. c)
        (λ u.
          Ensures-bind _ _ (encode_command-Keeps env (before env n) cmd) (λ e s c. c)
            (λ encoded. request_attempts-Sent 2 encoded.0 encoded.1))
