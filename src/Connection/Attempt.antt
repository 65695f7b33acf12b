-- ===== src/Connection/Attempt.antt =====
-- One attempt of `request` puts its message in its last step or not at all.
use faststream_mq.Base.{◌∷◌, ℕ, refl, arith, Text, Bytes, Option, Dict}
use faststream_mq.Values.{Value}
use faststream_mq.Errors.{Exc}
use faststream_mq.Exec.Hoare.{
  Ensures, Keeps-on_state, Ensures-bind, Ensures-seq, Ensures-on_state, Ensures-assert_some,
  Ensures-assign, Ensures-pure, Ensures-gets, Keeps-assert_some, Keeps-lift,
}
use faststream_mq.Native.{Env, PutDescriptor, PutOptions, put, event, Reply, answered, failed}
use faststream_mq.Command.{MqPublishCommand}
use faststream_mq.Connection.State.{State, native, result_of}
use faststream_mq.Connection.Log.{Count, put_done, Keeps-open_queue, Keeps-open_dynamic_queue}
use faststream_mq.Connection.Posts.{TriedErr, Tried, Tried-raised, PutPost}
use faststream_mq.Connection.Harmless.{counting}
use faststream_mq.Connection.Puts.{attempt_properties-Keeps}
use faststream_mq.Connection.Request.{Attempt, request_put, request_try}

module _ (env : Env) (n : ℕ) where
  pub native_put-PutPost :
      (q : ℕ) (b : Bytes) (md : PutDescriptor) (o : PutOptions)
      → Ensures (Count put_done n) (native env (put q b md o)) (PutPost n)
  unfolding native
  native_put-PutPost q b md o = record { at = λ s c. go (env.answer s.log (put q b md o)) s c }
    where
      go :
          (r : Reply (Option Bytes)) (s : State)
          → Count put_done n s
          → PutPost n (result_of r) (record s { log = event (put q b md o) r ∷ s.log })
      go (answered m) s c = record { is = omega (arith, c.is) }
      go (failed f) s c = record { is = omega (arith, c.is) }

  request_put-Tried :
      (q : ℕ) (b : Bytes) (md : PutDescriptor) (h : Option ℕ) (r : ℕ) (name : Text)
      → Ensures
          (λ sv. Count put_done n sv.0)
          (request_put env q b md h r name)
          (λ r sv. Tried n r sv.0)
  unfolding request_put
  request_put-Tried q b md h r name =
      Ensures-seq {Q = λ r sv. PutPost n r sv.0} _ _
        (Ensures-on_state _ (λ v. native_put-PutPost q b md _)) (λ e sv c. Tried-raised n e sv.0 c)
        (λ sent.
          Ensures-assert_some sent _
            (λ sv c. record { lower = omega (arith, c.is); upper = omega (arith, c.is) })
            (λ m. Ensures-assign _ _ (λ sv c. c) (Ensures-pure _ (λ sv c. c))))

  pub request_try-Tried :
      (b : Bytes) (d : Dict Value) (cmd : MqPublishCommand)
      → Ensures (λ sv. Count put_done n sv.0) (request_try env b d cmd) (λ r sv. Tried n r sv.0)
  unfolding request_try
  request_try-Tried b d cmd = Ensures-gets _ _ (λ q.
      Ensures-bind _ _ (Keeps-assert_some _) raised (λ qmgr. Ensures-gets _ _ (λ model.
        Ensures-bind _ _
          (Keeps-on_state _ (λ v. Keeps-open_dynamic_queue env qmgr model _ (λ r. refl))) raised
          (λ opened.
            Ensures-assign _ _ (λ sv c. c)
              (Ensures-bind _ _ (Keeps-lift _) raised (λ name.
                Ensures-bind _ _ (Keeps-on_state _ (λ v. Keeps-open_queue env qmgr _ _ (λ r. refl)))
                  raised
                  (λ queue.
                    Ensures-assign _ _ (λ sv c. c)
                      (Ensures-gets _ _ (λ manager.
                        Ensures-bind _ _ (Keeps-lift _) raised (λ message.
                          Ensures-bind _ _ (Keeps-lift _) raised (λ correlation.
                            Ensures-bind _ _ (attempt_properties-Keeps env (counting env n) qmgr d)
                              raised
                              (λ u.
                                Ensures-gets _ _ (λ h. request_put-Tried _ _ _ _ _ _)))))))))))))
    where
      raised : (e : Exc) (sv : State × Attempt) → Count put_done n sv.0 → TriedErr n e sv.0
      raised e sv c = Tried-raised n e sv.0 c
