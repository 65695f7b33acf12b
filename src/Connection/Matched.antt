-- ===== src/Connection/Matched.antt =====
-- What the history says of a request that was sent and of the reply to it.
use faststream_mq.Base.{
  ℕ, ◌≡◌, sym, ◌≤◌, arith, length, subst, Text, Bytes, some, List, [], ◌∷◌, ◌⊎◌, inl, inr, codes,
}
use faststream_mq.Errors.{ok}
use faststream_mq.Values.{Value}
use faststream_mq.Exec.{modify}
use faststream_mq.Exec.Hoare.{Keeps}
use faststream_mq.Native.{
  Env, Event, event, Call, answered, open_dynamic_queue, open_queue, output, put, get,
  PutDescriptor, PutOptions, GetOptions, Descriptor,
}
use faststream_mq.Connection.State.{native, load_ibmmq}
use faststream_mq.Connection.Message.{MqRawMessage, mq_str}
use faststream_mq.Connection.Harmless.{Harmless}
use faststream_mq.Connection.Request.{Pending}

-- the call was made, with this outcome, after `n` calls or more
abbrev pub InLog : ℕ → Event → List Event → Type 0
InLog n e [] = ⊥
InLog n e (x ∷ log) = ((x ≡ e) × (n ≤ length log)) ⊎ InLog n e log

pub InLog-after : (n : ℕ) (e : Event) (log : List Event) → InLog n e log → n ≤ length log
InLog-after n e [] i = absurd i
InLog-after n e (x ∷ log) (inl i) = omega (arith, i.1)
InLog-after n e (x ∷ log) (inr i) = omega (arith, InLog-after n e log i)

-- What a history shows, a longer one shows too.
module _ (P : List Event → Type 0)
    (lasts : (e : Event) (log : List Event) → P log → P (e ∷ log)) where
  pub native-lasts : (env : Env) (c : Call) → Keeps (λ s. P s.log) (native env c)
  unfolding native
  native-lasts env c = record { at = λ s h. lasts _ s.log h }

  pub lasting-Harmless : (env : Env) → Harmless env (λ s. P s.log)
  unfolding load_ibmmq modify
  lasting-Harmless env = record {
    on_native = λ c h. native-lasts env c;
    on_load = record { at = λ s h. h };
    on_set = λ f same. record { at = λ s h. subst P (sym (same s)) h };
  }

-- a dynamic queue was opened for the reply: its handle and its name
pub record Opened (n : ℕ) (queue : ℕ) (name : Value) (log : List Event) : Type 0 where
  pub qmgr : ℕ
  pub model : Text
  pub is_opened :
      InLog n
        (event
          (open_dynamic_queue qmgr model (codes "FASTSTREAM.REPLY.*"))
          (answered (queue, name)))
        log

-- The request was put to a queue that was opened with the destination: its descriptor asks for the
-- reply on the dynamic queue, and the library gave it the identifier that is noted.
pub record Sent (n : ℕ) (env : Env) (destination : Text) (p : Pending) (log : List Event)
    : Type 0 where
  pub name : Value
  pub opened : Opened n p.reply_queue name log
  pub named : mq_str env name ≡ ok p.reply_queue_name
  pub queue : ℕ
  pub qmgr : ℕ
  pub is_target : InLog n (event (open_queue qmgr destination output) (answered queue)) log
  pub body : Bytes
  pub descriptor : PutDescriptor
  pub options : PutOptions
  pub replies_to : descriptor.reply_to_q ≡ some p.reply_queue_name
  pub is_put :
      InLog n (event (put queue body descriptor options) (answered (some p.request_message_id))) log

-- The reply was got from that queue, by the identifier of the request.
pub record Matched (n : ℕ) (env : Env) (destination : Text) (m : MqRawMessage) (log : List Event)
    : Type 0 where
  pub pending : Pending
  pub sent : Sent n env destination pending log
  pub options : GetOptions
  pub descriptor : Descriptor
  pub by_identifier : options.match_correl_id ≡ some pending.request_message_id
  pub is_got : InLog n (event (get pending.reply_queue options) (answered (m.body, descriptor))) log
  pub on_queue : m.queue ≡ pending.reply_queue_name

pub Opened-lasts :
    (n q : ℕ) (name : Value) (e : Event) (log : List Event)
    → Opened n q name log
    → Opened n q name (e ∷ log)
Opened-lasts n q name e log o = record {
  qmgr = o.qmgr;
  model = o.model;
  is_opened = inr o.is_opened;
}

pub Sent-lasts :
    (n : ℕ) (env : Env) (destination : Text) (p : Pending) (e : Event) (log : List Event)
    → Sent n env destination p log
    → Sent n env destination p (e ∷ log)
Sent-lasts n env destination p e log t = record {
  name = t.name;
  opened = Opened-lasts n p.reply_queue t.name e log t.opened;
  named = t.named;
  queue = t.queue;
  qmgr = t.qmgr;
  is_target = inr t.is_target;
  body = t.body;
  descriptor = t.descriptor;
  options = t.options;
  replies_to = t.replies_to;
  is_put = inr t.is_put;
}

pub Matched-lasts :
    (n : ℕ) (env : Env) (destination : Text) (m : MqRawMessage) (e : Event) (log : List Event)
    → Matched n env destination m log
    → Matched n env destination m (e ∷ log)
Matched-lasts n env destination m e log t = record {
  pending = t.pending;
  sent = Sent-lasts n env destination t.pending e log t.sent;
  options = t.options;
  descriptor = t.descriptor;
  by_identifier = t.by_identifier;
  is_got = inr t.is_got;
  on_queue = t.on_queue;
}

pub Opened-after :
    (n q : ℕ) (name : Value) (log : List Event) → Opened n q name log → n ≤ length log
Opened-after n q name log o = InLog-after n _ log o.is_opened

pub Sent-after :
    (n : ℕ) (env : Env) (destination : Text) (p : Pending) (log : List Event)
    → Sent n env destination p log
    → n ≤ length log
Sent-after n env destination p log t = InLog-after n _ log t.is_put

pub Matched-after :
    (n : ℕ) (env : Env) (destination : Text) (m : MqRawMessage) (log : List Event)
    → Matched n env destination m log
    → n ≤ length log
Matched-after n env destination m log t = InLog-after n _ log t.is_got

-- the history only grows
pub after-Harmless : (n : ℕ) (env : Env) → Harmless env (λ s. n ≤ length s.log)
after-Harmless n = lasting-Harmless (λ log. n ≤ length log) (λ e log h. omega (arith, h))
