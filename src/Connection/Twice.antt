-- ===== src/Connection/Twice.antt =====
-- How many messages a publication puts that `_run_with_reconnect_sync` may repeat once.
use faststream_mq.Base.{ℕ, suc, ◌+◌, ◌≤◌, ◌≡◌, refl, arith, Bytes, Dict, Option, some, none, Bool}
use faststream_mq.Values.{Value}
use faststream_mq.Errors.{Exc, Result, ok, err}
use faststream_mq.Exec.{pure, if_some, ◌>>◌}
use faststream_mq.Exec.Hoare.{
  Keeps, Ensures, Keeps-lift, Ensures-bind, Ensures-seq, Ensures-try_except, Ensures-finally_with,
  Ensures-if, Ensures-on_state, Ensures-assert_some, Ensures-pure, Ensures-raise, Ensures-gets,
}
use faststream_mq.Native.{Env, sleep}
use faststream_mq.Command.{MqPublishCommand}
use faststream_mq.Connection.State.{State, native}
use faststream_mq.Connection.Log.{Count, total, put_done, Keeps-load, Keeps-open_queue, Keeps-sleep}
use faststream_mq.Connection.Posts.{
  AtMostOne, AtMostOne-Count, AtMostOne-Count-suc, Keeps-AtMostOne, PutPost, Requested,
}
use faststream_mq.Connection.Harmless.{counting}
use faststream_mq.Connection.Puts.{
  handle_properties-Keeps, encode_command-Keeps, publish_cleanup-Keeps,
  recover_connection_sync-Keeps,
}
use faststream_mq.Connection.Attempt.{native_put-PutPost}
use faststream_mq.Connection.Publish.{publish_try, publish_cleanup, publish_once}
use faststream_mq.Connection.Reasons.{is_reconnectable}
use faststream_mq.Connection.Recover.{recover_connection_sync, run_with_reconnect_sync}

-- the bounds on the messages put, from `n` on, when a publication ends
pub record PutsTwiceAtMost (n : ℕ) (r : Result (Unit {0})) (s : State) : Type 0 where
  pub lower : n ≤ total put_done s.log
  pub upper : total put_done s.log ≤ n + 2
  pub once : r ≡ ok tt → n + 1 ≤ total put_done s.log

module _ (env : Env) (n : ℕ) where
  publish_try-PutPost :
      (qmgr queue : ℕ) (body : Bytes) (headers : Dict Value) (cmd : MqPublishCommand)
      → Ensures
          (λ sv. Count put_done n sv.0)
          (publish_try env qmgr queue body headers cmd)
          (λ r sv. PutPost n r sv.0)
  unfolding publish_try
  publish_try-PutPost qmgr queue body headers cmd =
      Ensures-bind _ _ (Keeps-lift _) (λ e sv c. c)
        (λ message.
          Ensures-bind _ _ (Keeps-lift _) (λ e sv c. c)
            (λ correlation.
              Ensures-bind _ _ (handle_properties-Keeps env (counting env n) qmgr headers)
                (λ e sv c. c)
                (λ u. Ensures-gets _ _ (λ h.
                  Ensures-seq {Q = λ r sv. PutPost n r sv.0} _ _
                    (Ensures-on_state _ (λ v. native_put-PutPost env n _ _ _ _)) (λ e sv c. c)
                    (λ sent. Ensures-pure tt (λ sv c. c))))))

  -- a clean-up that fails may follow a put
  pub publish_once-Requested :
      (cmd : MqPublishCommand) → Ensures (Count put_done n) (publish_once env cmd) (Requested n)
  unfolding publish_once
  publish_once-Requested cmd = Ensures-bind _ _ (Keeps-load env) raised (λ u. Ensures-gets _ _ (λ q.
      Ensures-assert_some q _ (λ s c. AtMostOne-Count n s c)
        (λ qmgr. Ensures-bind _ _ (encode_command-Keeps env (counting env n) cmd) raised (λ encoded.
          Ensures-bind _ _ (Keeps-open_queue env qmgr _ _ (λ r. refl)) raised (λ queue.
            Ensures-finally_with {Q = PutPost n} _ _ _ (publish_try-PutPost qmgr queue _ _ cmd)
              (λ w r. cleanup queue w r) ended broken)))))
    where
      raised : (e : Exc) (s : State) → Count put_done n s → AtMostOne n s
      raised e s c = AtMostOne-Count n s c

      cleanup :
          (queue : ℕ) (w : Option ℕ) (r : Result (Unit {0}))
          → Keeps (PutPost n r) (publish_cleanup env queue w)
      cleanup queue w (ok u) = publish_cleanup-Keeps env (counting env (suc n)) queue w
      cleanup queue w (err e) = publish_cleanup-Keeps env (counting env n) queue w

      ended : (r : Result (Unit {0})) (s : State) → PutPost n r s → Requested n r s
      ended (ok u) s c = c
      ended (err e) s c = AtMostOne-Count n s c

      broken : (r : Result (Unit {0})) (e : Exc) (s : State) → PutPost n r s → AtMostOne n s
      broken (ok u) e s c = AtMostOne-Count-suc n s c
      broken (err f) e s c = AtMostOne-Count n s c

abbrev AfterCall : {A : Type 0} → ℕ → Result (Option A) → State → Type 0
AfterCall n (ok (some a)) s = Count put_done (suc n) s
AfterCall n (ok none) s = AtMostOne n s
AfterCall n (err e) s = AtMostOne n s

module _ (env : Env) (n : ℕ) where
  Requested-PutsTwice :
      (r : Result (Unit {0})) (s : State) → Requested n r s → PutsTwiceAtMost n r s
  Requested-PutsTwice (ok tt) s c = record {
    lower = omega (arith, c.is);
    upper = omega (arith, c.is);
    once = λ e. omega (arith, c.is);
  }
  Requested-PutsTwice (err e) s c = record {
    lower = omega (arith, c.lower);
    upper = omega (arith, c.upper);
    once = λ h. absurd cc;
  }

  AtMostOne-PutsTwice : (e : Exc) (s : State) → AtMostOne n s → PutsTwiceAtMost n (err e) s
  AtMostOne-PutsTwice e s c = Requested-PutsTwice (err e) s c

  -- the second call starts after one message more at most
  second-PutsTwice :
      (cmd : MqPublishCommand) → Ensures (AtMostOne n) (publish_once env cmd) (PutsTwiceAtMost n)
  second-PutsTwice cmd = record {
    at = λ s c.
        let k = total put_done s.log in
        go k (publish_once env cmd s).0 (publish_once env cmd s).1 c.lower c.upper
          ((publish_once-Requested env k cmd).at s (record { is = refl }));
  }
    where
      go :
          (k : ℕ) (r : Result (Unit {0})) (t : State)
          → n ≤ k
          → k ≤ suc n
          → Requested k r t
          → PutsTwiceAtMost n r t
      go k (ok tt) t l u c = record {
        lower = omega (arith, c.is);
        upper = omega (arith, c.is);
        once = λ e. omega (arith, c.is);
      }
      go k (err e) t l u c = record {
        lower = omega (arith, c.lower);
        upper = omega (arith, c.upper);
        once = λ h. absurd cc;
      }

  after_call :
      (reopen : Bool) (cmd : MqPublishCommand) (a : Option (Unit {0}))
      → Ensures
          (AfterCall n (ok a))
          (if_some a pure
            (do recover_connection_sync env reopen; native env (sleep 200); publish_once env cmd))
          (PutsTwiceAtMost n)
  unfolding if_some
  after_call reopen cmd (some tt) = Ensures-pure tt (λ s c. Requested-PutsTwice (ok tt) s c)
  after_call reopen cmd none =
      Ensures-bind _ _
        (Keeps-AtMostOne n _ (λ k. recover_connection_sync-Keeps env (counting env k) reopen))
        (λ e. AtMostOne-PutsTwice e)
        (λ u.
          Ensures-bind _ _ (Keeps-AtMostOne n _ (λ k. Keeps-sleep env 200 (λ r. refl)))
            (λ e. AtMostOne-PutsTwice e) (λ u. second-PutsTwice cmd))

  pub run_with_reconnect_sync-PutsTwice :
      (reopen : Bool) (cmd : MqPublishCommand)
      → Ensures
          (Count put_done n)
          (run_with_reconnect_sync env reopen (publish_once env cmd))
          (PutsTwiceAtMost n)
  unfolding run_with_reconnect_sync
  run_with_reconnect_sync-PutsTwice reopen cmd =
      Ensures-bind _ _ (Keeps-load env) (λ e s c. AtMostOne-PutsTwice e s (AtMostOne-Count n s c))
        (λ u.
          Ensures-seq {Q = AfterCall n} _ _
            (Ensures-try_except {Q = AfterCall n} _ _
              (Ensures-seq {Q = Requested n} _ _ (publish_once-Requested env n cmd) (λ e s c. c)
                (λ a. Ensures-pure (some a) (λ s c. c)))
              returned
              (λ e.
                Ensures-if (is_reconnectable env e) _ _ (λ y. Ensures-pure none (λ s c. c))
                  (λ k. Ensures-raise e (λ s c. c))))
            (λ e s c. AtMostOne-PutsTwice e s c) (after_call reopen cmd))
    where
      returned : (a : Option (Unit {0})) (s : State) → AfterCall n (ok a) s → AfterCall n (ok a) s
      returned a s c = c
