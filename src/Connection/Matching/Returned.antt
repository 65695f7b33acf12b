-- ===== src/Connection/Matching/Returned.antt =====
-- From a request that was sent to the reply that is returned.
use faststream_mq.Base.{
  ℕ, ◌≡◌, refl, ◌≤◌, arith, length, ap, sym, Text, Bytes, Bool, false, Option, Dict, inr, List, ◌∷◌,
}
use faststream_mq.Errors.{Exc, Result, ok, err, mqmi_error, bind-ok, ok-injective}
use faststream_mq.Values.{Value}
use faststream_mq.Exec.{lift, finally, ◌>>=◌}
use faststream_mq.Exec.Hoare.{
  Keeps, Ensures, Keeps-finally, Ensures-bind, Ensures-seq, Ensures-on_state, Ensures-assert_some,
  Ensures-assign, Ensures-raise, Ensures-gets, Ensures-try_except, Ensures-finally_with,
}
use faststream_mq.Native.{
  Env, Event, event, answered, get, create_handle, delete_handle, Descriptor,
}
use faststream_mq.Command.{MqPublishCommand, Duration}
use faststream_mq.Connection.State.{State, native}
use faststream_mq.Connection.Message.{
  MqRawMessage, mq_str, or_empty, build_raw_message, raw_message,
}
use faststream_mq.Connection.Consume.{read_headers}
use faststream_mq.Connection.Matched.{
  Sent-after, Matched-after, InLog, Sent, Matched, lasting-Harmless, Sent-lasts, Matched-lasts,
}
use faststream_mq.Connection.Matching.Sending.{before, publish_request_sync-Sent}
use faststream_mq.Connection.Matching.{native-logged, ResultIn}
use faststream_mq.Connection.Puts.{request_done-Keeps, read_headers-Keeps}
use faststream_mq.Connection.Request.{
  Pending, reply_failed, reply_options, wait_for_reply_sync, request_done, request_sync,
}

module _ (env : Env) (n : ℕ) (destination : Text) where
  -- the message that is built has this body and this queue
  built :
      (b : Bytes) (md : Descriptor) (d : Dict Value) (queue : Text) (m : MqRawMessage)
      → build_raw_message env b md d queue false ≡ ok m
      → (m.body ≡ b) × (m.queue ≡ queue)
  unfolding build_raw_message raw_message
  built b md d queue m h =
      let (reply_to, h1) = bind-ok (mq_str env (or_empty md.reply_to_q)) _ m h in
      let (reply_to_qmgr, h2) = bind-ok (mq_str env (or_empty md.reply_to_qmgr)) _ m h1 in
      let same : m ≡ raw_message env b md d queue false reply_to reply_to_qmgr =
        sym (ok-injective _ _ h2) in
      (ap (λ x. x.body) same, ap (λ x. x.queue) same)

  -- the reply was got for this request
  abbrev Got : Pending → Duration → ℕ → Bytes × Descriptor → List Event → Type 0
  Got p timeout handle reply log =
      Sent n env destination p log
      × InLog n
          (event (get p.reply_queue (reply_options env timeout handle p.request_message_id))
            (answered reply))
          log

  Got-lasts :
      (p : Pending) (timeout : Duration) (handle : ℕ) (reply : Bytes × Descriptor) (e : Event)
      (log : List Event)
      → Got p timeout handle reply log
      → Got p timeout handle reply (e ∷ log)
  Got-lasts p timeout handle reply e log g = (Sent-lasts n env destination p e log g.0, inr g.1)

  reply_failed-raises :
      (P : Bytes × Descriptor → List Event → Type 0) (handle : ℕ) (e : Exc)
      → Ensures (λ s. n ≤ length s.log) (reply_failed env handle e) (ResultIn n P)
  unfolding reply_failed
  reply_failed-raises P handle (mqmi_error reason len) =
      Ensures-bind _ _ ((before env n).on_native (delete_handle handle) refl) (λ e s c. c)
        (λ u. Ensures-raise _ (λ s c. c))
  reply_failed-raises P handle e = Ensures-raise e (λ s c. c)

  headers_read-Matched :
      (fuel : ℕ) (p : Pending) (timeout : Duration) (handle : ℕ) (reply : Bytes × Descriptor)
      → Ensures
          (λ s. Got p timeout handle reply s.log)
          (do
            headers ← finally (read_headers env fuel handle 64) (native env (delete_handle handle))
            lift (build_raw_message env reply.0 reply.1 headers p.reply_queue_name false))
          (ResultIn n (Matched n env destination))
  unfolding lift build_raw_message
  headers_read-Matched fuel p timeout handle reply =
      let stays =
        lasting-Harmless (Got p timeout handle reply) (Got-lasts p timeout handle reply) env in
      Ensures-bind _ _
        (Keeps-finally _ _ (read_headers-Keeps env stays fuel handle 64)
          (stays.on_native (delete_handle handle) refl))
        (λ e s c. Sent-after n env destination p s.log c.0)
        (λ headers. record {
          at = λ s c.
              go headers (build_raw_message env reply.0 reply.1 headers p.reply_queue_name false) s
                c refl;
        })
    where
      go :
          (headers : Dict Value) (r : Result MqRawMessage) (s : State)
          → Got p timeout handle reply s.log
          → build_raw_message env reply.0 reply.1 headers p.reply_queue_name false ≡ r
          → ResultIn n (Matched n env destination) r s
      go headers (err e) s c h = Sent-after n env destination p s.log c.0
      go headers (ok m) s c h =
          let (same_body, same_queue) = built reply.0 reply.1 headers p.reply_queue_name m h in
          record {
            pending = p;
            sent = c.0;
            options = reply_options env timeout handle p.request_message_id;
            descriptor = reply.1;
            by_identifier = refl;
            is_got = simp (same_body) c.1;
            on_queue = same_queue;
          }

  wait_for_reply_sync-Matched :
      (fuel : ℕ) (p : Pending) (timeout : Duration)
      → Ensures
          (λ s. Sent n env destination p s.log)
          (wait_for_reply_sync env fuel p timeout)
          (ResultIn n (Matched n env destination))
  unfolding wait_for_reply_sync
  wait_for_reply_sync-Matched fuel p timeout =
      let sent_stays =
        lasting-Harmless (Sent n env destination p) (Sent-lasts n env destination p) env in
      Ensures-bind _ _ sent_stays.on_load (λ e s c. Sent-after n env destination p s.log c)
        (λ u. Ensures-gets _ _ (λ q.
          Ensures-assert_some q _ (λ s c. Sent-after n env destination p s.log c)
            (λ qmgr.
              Ensures-bind _ _ (sent_stays.on_native (create_handle qmgr) refl)
                (λ e s c. Sent-after n env destination p s.log c)
                (λ handle.
                  Ensures-seq {Q = ResultIn n (Got p timeout handle)} _ _
                    (Ensures-try_except {Q = ResultIn n (Got p timeout handle)} _ _
                      (native-logged env n (Sent n env destination p)
                        (Sent-lasts n env destination p) (Sent-after n env destination p)
                        (get p.reply_queue (reply_options env timeout handle p.request_message_id)))
                      (λ a s c. c) (λ e. reply_failed-raises (Got p timeout handle) handle e))
                    (λ e s c. c) (λ reply. headers_read-Matched fuel p timeout handle reply)))))

-- the reply that is returned was got for the request
pub request_sync-replies :
    (env : Env) (n fuel : ℕ) (cmd : MqPublishCommand)
    → Ensures
        (λ s. n ≤ length s.log)
        (request_sync env fuel cmd)
        (ResultIn n (Matched n env cmd.destination))
unfolding request_sync
request_sync-replies env n fuel cmd =
    Ensures-bind _ _ (before env n).on_load (λ e s c. c)
      (λ u.
        Ensures-finally_with {Q = ResultIn n (Matched n env cmd.destination)} _ _ _
          (Ensures-try_except {Q = λ r sv. ResultIn n (Matched n env cmd.destination) r sv.0} _ _
            (Ensures-seq {Q = λ r sv. ResultIn n (Sent n env cmd.destination) r sv.0} _ _
              (Ensures-on_state _ (λ v. publish_request_sync-Sent env n cmd)) (λ e sv c. c)
              (λ p.
                Ensures-assign _ _ (λ sv c. c)
                  (Ensures-on_state _
                    (λ v. wait_for_reply_sync-Matched env n cmd.destination fuel p cmd.timeout))))
            (λ a sv c. c) (λ e. Ensures-assign _ _ (λ sv c. c) (Ensures-raise e (λ sv c. c))))
          done (λ r s c. c) raised)
  where
    done :
        (v : Option ℕ × Bool) (r : Result MqRawMessage)
        → Keeps (ResultIn n (Matched n env cmd.destination) r) (request_done env v)
    done v (ok m) =
        request_done-Keeps env
          (lasting-Harmless (Matched n env cmd.destination m)
            (Matched-lasts n env cmd.destination m) env)
          v
    done v (err e) = request_done-Keeps env (before env n) v

    raised :
        (r : Result MqRawMessage) (e : Exc) (s : State)
        → ResultIn n (Matched n env cmd.destination) r s
        → n ≤ length s.log
    raised (ok m) e s c = Matched-after n env cmd.destination m s.log c
    raised (err e') e s c = c

-- However the library answers, a reply that `request` returns belongs to its request: during the
-- call a dynamic queue was opened for the reply and a queue was opened with the destination of the
-- command, a message was put to the latter whose descriptor asks for the reply on the former, and
-- the body of the reply was got from the reply queue by the identifier that the library gave to the
-- message put; the reply bears the name of that queue. Where `request` raises, the history has
-- no fewer calls than before.
pub request_sync-Matched :
    (env : Env) (fuel : ℕ) (cmd : MqPublishCommand) (s : State)
    → let (r, t) = request_sync env fuel cmd s in
      ResultIn (length s.log) (Matched (length s.log) env cmd.destination) r t
request_sync-Matched env fuel cmd s =
    (request_sync-replies env (length s.log) fuel cmd).at s (omega arith)
