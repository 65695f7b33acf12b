-- ===== src/Connection/Matching.antt =====
-- The reply that `request` returns is the reply to its request.
pub mod Sending
pub mod Returned
pub mod Tests
use faststream_mq.Base.{
  ℕ, ◌≡◌, refl, ◌≤◌, arith, suc, length, Text, Bytes, Bool, false, Option, none, some, List, [],
  ◌∷◌, Dict, inl, inr, codes,
}
use faststream_mq.Errors.{Exc, Result, ok, err, assertion_error}
use faststream_mq.Values.{Value}
use faststream_mq.Exec.{Exec, lift, assert_some, ◌>>=◌}
use faststream_mq.Exec.Hoare.{
  Keeps, Ensures, Keeps-lift, Keeps-on_state, Ensures-bind, Ensures-seq, Ensures-on_state,
  Ensures-assert_some, Ensures-assign, Ensures-pure, Ensures-gets,
}
use faststream_mq.Native.{
  Env, Event, event, Call, Answer, Reply, answered, failed, open_dynamic_queue, open_queue, put,
  PutDescriptor, PutOptions, output,
}
use faststream_mq.Command.{MqPublishCommand}
use faststream_mq.Connection.State.{State, native, result_of}
use faststream_mq.Connection.Message.{mq_str}
use faststream_mq.Connection.Matched.{
  Opened-after, InLog, Opened, Sent, Matched, native-lasts, lasting-Harmless, Opened-lasts,
  Sent-lasts, Matched-lasts,
}
use faststream_mq.Connection.Puts.{attempt_properties-Keeps}
use faststream_mq.Connection.Request.{Attempt, Pending, request_put, request_try}

-- what is known of a value, and of an exception that the history has these calls at least
abbrev pub ResultIn {ℓ} : {A : Type ℓ} → ℕ → (A → List Event → Type 0) → Result A → State → Type 0
ResultIn n P (ok a) s = P a s.log
ResultIn n P (err e) s = n ≤ length s.log

module _ {S A B : Type 0} {P : S → Type 0} {R : Result B → S → Type 0} where
  -- a computation that succeeded did so with this value
  Ensures-lift :
      (r : Result A) (f : A → Exec S B)
      → ((e : Exc) (s : S) → P s → R (err e) s)
      → ((a : A) → r ≡ ok a → Ensures P (f a) R)
      → Ensures P (lift r >>= f) R
  unfolding ◌>>=◌
  Ensures-lift (ok a) f raised k = record { at = λ s h. (k a refl).at s h }
  Ensures-lift (err e) f raised k = record { at = λ s h. raised e s h }

  -- a value that is not `None` is this one
  Ensures-known :
      (o : Option A) (f : A → Exec S B)
      → ((e : Exc) (s : S) → P s → R (err e) s)
      → ((a : A) → o ≡ some a → Ensures P (f a) R)
      → Ensures P (assert_some o >>= f) R
  unfolding ◌>>=◌
  Ensures-known (some a) f raised k = record { at = λ s h. (k a refl).at s h }
  Ensures-known none f raised k = record { at = λ s h. raised assertion_error s h }

module _ (env : Env) (n : ℕ) where
  native-Opened :
      (qmgr : ℕ) (model : Text) (s : State)
      → n ≤ length s.log
      → let (r, t) = native env (open_dynamic_queue qmgr model (codes "FASTSTREAM.REPLY.*")) s in
        ResultIn n (λ (o : ℕ × Value) log. Opened n o.0 o.1 log) r t
  unfolding native
  native-Opened qmgr model s c =
      go (env.answer s.log (open_dynamic_queue qmgr model (codes "FASTSTREAM.REPLY.*")))
    where
      go :
          (a : Reply (ℕ × Value))
          → ResultIn n
              (λ (o : ℕ × Value) log. Opened n o.0 o.1 log)
              (result_of a)
              (record s {
                log = event (open_dynamic_queue qmgr model (codes "FASTSTREAM.REPLY.*")) a ∷ s.log;
              })
      go (answered (q, name)) = record { qmgr = qmgr; model = model; is_opened = inl (refl, c) }
      go (failed f) = omega (arith, c)

  -- a call that returned has its outcome in the history
  pub native-logged :
      (P : List Event → Type 0)
      → ((e : Event) (log : List Event) → P log → P (e ∷ log))
      → ((log : List Event) → P log → n ≤ length log)
      → (c : Call)
      → Ensures
          (λ s. P s.log)
          (native env c)
          (ResultIn n (λ a log. P log × InLog n (event c (answered a)) log))
  unfolding native
  native-logged P lasts after c = record { at = λ s h. go (env.answer s.log c) s h }
    where
      go :
          (a : Reply (Answer c)) (s : State)
          → P s.log
          → ResultIn n
              (λ a log. P log × InLog n (event c (answered a)) log)
              (result_of a)
              (record s { log = event c a ∷ s.log })
      go (answered a) s h = (lasts _ s.log h, inl (refl, after s.log h))
      go (failed f) s h = omega (arith, after s.log h)

  -- the reply queue and the destination are open
  abbrev Placed : ℕ → Value → ℕ → ℕ → Text → List Event → Type 0
  Placed q name queue qmgr destination log =
      Opened n q name log
      × InLog n (event (open_queue qmgr destination output) (answered queue)) log

  request_put-Sent :
      (qmgr : ℕ) (destination : Text) (queue : ℕ) (b : Bytes) (md : PutDescriptor) (h : Option ℕ)
      (q : ℕ) (reply_name : Text) (name : Value)
      → md.reply_to_q ≡ some reply_name
      → mq_str env name ≡ ok reply_name
      → Ensures
          (λ sv. Placed q name queue qmgr destination sv.0.log)
          (request_put env queue b md h q reply_name)
          (λ r sv. ResultIn n (Sent n env destination) r sv.0)
  unfolding request_put
  request_put-Sent qmgr destination queue b md h q reply_name name replies named =
      let o : PutOptions = record { syncpoint = false; original_msg_handle = h } in
      Ensures-seq
        {Q = λ r sv.
          ResultIn n
            (λ (sent : Option Bytes) log.
              Placed q name queue qmgr destination log
              × InLog n (event (put queue b md o) (answered sent)) log)
            r sv.0}
        _ _
        (Ensures-on_state _ (λ v.
          native-logged (Placed q name queue qmgr destination)
            (λ e log k. (Opened-lasts n q name e log k.0, inr k.1))
            (λ log k. Opened-after n q name log k.0) (put queue b md o)))
        (λ e sv k. k)
        (λ sent.
          Ensures-known sent _ (λ e sv k. Opened-after n q name sv.0.log k.0.0)
            (λ mid known.
              Ensures-assign _ _ (λ sv k. k)
                (Ensures-pure _ (λ sv k. record {
                  name = name;
                  opened = k.0.0;
                  named = named;
                  queue = queue;
                  qmgr = qmgr;
                  is_target = k.0.1;
                  body = b;
                  descriptor = md;
                  options = o;
                  replies_to = replies;
                  is_put = rw (← known) k.1;
                }))))

  pub request_try-Sent :
      (b : Bytes) (d : Dict Value) (cmd : MqPublishCommand)
      → Ensures
          (λ sv. n ≤ length sv.0.log)
          (request_try env b d cmd)
          (λ r sv. ResultIn n (Sent n env cmd.destination) r sv.0)
  unfolding request_try
  request_try-Sent b d cmd = Ensures-gets _ _ (λ q.
      Ensures-assert_some q _ (λ sv k. k)
        (λ qmgr. Ensures-gets _ _ (λ model.
          Ensures-seq {Q = λ r sv. ResultIn n (λ (o : ℕ × Value) log. Opened n o.0 o.1 log) r sv.0}
            _ _ (Ensures-on_state _ (λ v. record { at = λ s k. native-Opened qmgr model s k }))
            (λ e sv k. k)
            (λ opened.
              Ensures-assign _ _ (λ sv k. k)
                (Ensures-lift (mq_str env opened.1) _
                  (λ e sv k. Opened-after n opened.0 opened.1 sv.0.log k)
                  (λ reply_name named.
                    Ensures-seq
                      {Q = λ r sv.
                        ResultIn n
                          (λ (queue : ℕ) log.
                            Placed opened.0 opened.1 queue qmgr cmd.destination log)
                          r sv.0}
                      _ _
                      (Ensures-on_state _ (λ v.
                        native-logged (Opened n opened.0 opened.1)
                          (Opened-lasts n opened.0 opened.1) (Opened-after n opened.0 opened.1)
                          (open_queue qmgr cmd.destination output)))
                      (λ e sv k. k)
                      (λ queue.
                        let keeps =
                          lasting-Harmless (Placed opened.0 opened.1 queue qmgr cmd.destination)
                            (λ e log k. (Opened-lasts n opened.0 opened.1 e log k.0, inr k.1))
                            env in
                        Ensures-assign _ _ (λ sv k. k)
                          (Ensures-gets _ _ (λ manager.
                            Ensures-bind _ _ (Keeps-lift _)
                              (λ e sv k. Opened-after n opened.0 opened.1 sv.0.log k.0)
                              (λ message.
                                Ensures-bind _ _ (Keeps-lift _)
                                  (λ e sv k. Opened-after n opened.0 opened.1 sv.0.log k.0)
                                  (λ correlation.
                                    Ensures-bind _ _ (attempt_properties-Keeps env keeps qmgr d)
                                      (λ e sv k. Opened-after n opened.0 opened.1 sv.0.log k.0)
                                      (λ u. Ensures-gets _ _ (λ h.
                                        request_put-Sent qmgr cmd.destination queue b _ h opened.0
                                          reply_name opened.1 refl named)))))))))))))
