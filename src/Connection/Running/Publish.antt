-- ===== src/Connection/Running/Publish.antt =====
-- Publishing and requesting keep a connection running.
use faststream_mq.Base.{◌==◌, ℕ, zero, suc, Text, Bytes, Bool, Option, some, Dict}
use faststream_mq.Values.{Value}
use faststream_mq.Exec.{when, ◌>>=◌, ◌>>◌, on_state, assign}
use faststream_mq.Exec.Hoare.{
  Keeps, keeps_rules, Keeps-raise, Keeps-pure, Keeps-bind, Keeps-gets, Keeps-when, Keeps-lift,
  Keeps-assert_some, Keeps-on_state, Keeps-assign, Keeps-finally_with, Keeps-try_except,
  Keeps-if_some,
}
use faststream_mq.Native.{Env, create_handle, PutDescriptor}
use faststream_mq.Command.{MqPublishCommand}
use faststream_mq.Connection.State.{State, native}
use faststream_mq.Connection.Publish.{
  has_headers, set_properties, publish_try, publish_once, publish_sync,
}
use faststream_mq.Connection.Request.{
  request_put, request_try, request_attempt, request_attempts, publish_request_sync, request_sync,
}
use faststream_mq.Connection.Running.{
  IsRunning, Keeps-load, Keeps-put, Keeps-create_handle, Keeps-open_queue, Keeps-open_dynamic_queue,
}
use faststream_mq.Connection.Running.Traffic.{
  encode_command-IsRunning, set_properties-IsRunning, publish_cleanup-IsRunning,
  request_failed-IsRunning, request_cleanup-IsRunning, wait_for_reply_sync-IsRunning,
  request_done-IsRunning,
}
use faststream_mq.Connection.Running.Link.{run_with_reconnect_sync-IsRunning}

module _ (env : Env) where
  -- the handle for the headers, kept in a local variable by `set`
  with_handle :
      {V : Type 0} (set : ℕ → V → V) (qmgr : ℕ) (d : Dict Value)
      → Keeps
          (λ (sv : State × V). IsRunning sv.0)
          (when (has_headers d) (do
            handle ← on_state (native env (create_handle qmgr))
            assign (set handle)
            on_state (set_properties env handle d)))
  with_handle set qmgr d = Keeps-when _ _ (
      Keeps-bind _ _ (Keeps-on_state _ (λ v. Keeps-create_handle env qmgr)) (λ h.
        Keeps-bind _ _ (Keeps-assign _ (λ sv r. r))
          (λ u. Keeps-on_state _ (λ v. set_properties-IsRunning env h d))))

  publish_try-IsRunning :
      (qmgr queue : ℕ) (b : Bytes) (d : Dict Value) (cmd : MqPublishCommand)
      → Keeps (λ sv. IsRunning sv.0) (publish_try env qmgr queue b d cmd)
  unfolding publish_try
  publish_try-IsRunning qmgr queue b d cmd = Keeps-bind _ _ (Keeps-lift _) (λ message.
      Keeps-bind _ _ (Keeps-lift _) (λ correlation.
        Keeps-bind _ _ (with_handle (λ handle _. some handle) qmgr d) (λ u.
          Keeps-bind _ _ (Keeps-gets _) (λ handle.
            Keeps-bind _ _ (Keeps-on_state _ (λ v. Keeps-put env queue b _ _))
              (λ sent. Keeps-pure tt)))))

  publish_once-IsRunning : (cmd : MqPublishCommand) → Keeps IsRunning (publish_once env cmd)
  unfolding publish_once
  publish_once-IsRunning cmd = Keeps-bind _ _ (Keeps-load env) (λ u.
      Keeps-bind _ _ (Keeps-gets _) (λ q. Keeps-bind _ _ (Keeps-assert_some q) (λ qmgr.
        Keeps-bind _ _ (encode_command-IsRunning env cmd) (λ encoded.
          Keeps-bind _ _ (Keeps-open_queue env qmgr _ _) (λ queue.
            Keeps-finally_with _ _ _ (publish_try-IsRunning qmgr queue _ _ cmd)
              (publish_cleanup-IsRunning env queue))))))

  pub publish_sync-IsRunning : (cmd : MqPublishCommand) → Keeps IsRunning (publish_sync env cmd)
  unfolding publish_sync
  publish_sync-IsRunning cmd =
      search (keeps_rules, run_with_reconnect_sync-IsRunning, publish_once-IsRunning)

  request_put-IsRunning :
      (q : ℕ) (b : Bytes) (md : PutDescriptor) (h : Option ℕ) (r : ℕ) (name : Text)
      → Keeps (λ sv. IsRunning sv.0) (request_put env q b md h r name)
  unfolding request_put
  request_put-IsRunning q b md h r name =
      Keeps-bind _ _ (Keeps-on_state _ (λ v. Keeps-put env q b md _)) (λ sent.
        Keeps-bind _ _ (Keeps-assert_some sent)
          (λ m. Keeps-bind _ _ (Keeps-assign _ (λ sv c. c)) (λ u. Keeps-pure _)))

  request_try-IsRunning :
      (b : Bytes) (d : Dict Value) (cmd : MqPublishCommand)
      → Keeps (λ sv. IsRunning sv.0) (request_try env b d cmd)
  unfolding request_try
  request_try-IsRunning b d cmd = Keeps-bind _ _ (Keeps-gets _) (λ q.
      Keeps-bind _ _ (Keeps-assert_some q) (λ qmgr. Keeps-bind _ _ (Keeps-gets _) (λ model.
        Keeps-bind _ _ (Keeps-on_state _ (λ v. Keeps-open_dynamic_queue env qmgr model _))
          (λ opened. Keeps-bind _ _ (Keeps-assign _ (λ sv c. c)) (λ u.
            Keeps-bind _ _ (Keeps-lift _) (λ name.
              Keeps-bind _ _ (Keeps-on_state _ (λ v. Keeps-open_queue env qmgr _ _)) (λ queue.
                Keeps-bind _ _ (Keeps-assign _ (λ sv c. c)) (λ u.
                  Keeps-bind _ _ (Keeps-gets _) (λ manager.
                    Keeps-bind _ _ (Keeps-lift _) (λ message.
                      Keeps-bind _ _ (Keeps-lift _) (λ correlation.
                        Keeps-bind _ _
                          (with_handle (λ handle v. record v { put_handle = some handle }) qmgr d)
                          (λ u.
                            Keeps-bind _ _ (Keeps-gets _)
                              (λ h. request_put-IsRunning _ _ _ _ _ _)))))))))))))

  request_attempt-IsRunning :
      (last : Bool) (b : Bytes) (d : Dict Value) (cmd : MqPublishCommand)
      → Keeps IsRunning (request_attempt env last b d cmd)
  unfolding request_attempt
  request_attempt-IsRunning last b d cmd =
      Keeps-finally_with _ _ _
        (Keeps-try_except _ _ (Keeps-bind _ _ (request_try-IsRunning b d cmd) (λ p. Keeps-pure _))
          (λ e. Keeps-on_state _ (λ v. request_failed-IsRunning env last e)))
        (request_cleanup-IsRunning env)

  request_attempts-IsRunning :
      (left : ℕ) (b : Bytes) (d : Dict Value) (cmd : MqPublishCommand)
      → Keeps IsRunning (request_attempts env left b d cmd)
  unfolding request_attempts
  request_attempts-IsRunning zero b d cmd = Keeps-raise _
  request_attempts-IsRunning (suc left) b d cmd =
      Keeps-bind _ _ (request_attempt-IsRunning (left == 0) b d cmd)
        (λ sent. Keeps-if_some sent _ _ Keeps-pure (request_attempts-IsRunning left b d cmd))

  publish_request_sync-IsRunning :
      (cmd : MqPublishCommand) → Keeps IsRunning (publish_request_sync env cmd)
  unfolding publish_request_sync
  publish_request_sync-IsRunning cmd =
      search (keeps_rules, Keeps-load, encode_command-IsRunning, request_attempts-IsRunning)

  pub request_sync-IsRunning :
      (fuel : ℕ) (cmd : MqPublishCommand) → Keeps IsRunning (request_sync env fuel cmd)
  unfolding request_sync
  request_sync-IsRunning fuel cmd = Keeps-bind _ _ (Keeps-load env) (λ u.
      Keeps-finally_with _ _ _
        (Keeps-try_except _ _
          (Keeps-bind _ _ (Keeps-on_state _ (λ v. publish_request_sync-IsRunning cmd)) (λ p.
            Keeps-bind _ _ (Keeps-assign _ (λ sv c. c))
              (λ u. Keeps-on_state _ (λ v. wait_for_reply_sync-IsRunning env fuel p _))))
          (λ e. Keeps-bind _ _ (Keeps-assign _ (λ sv c. c)) (λ u. Keeps-raise e)))
        (request_done-IsRunning env))
