-- ===== src/Connection/Identity.antt =====
-- The identifiers of a message that is published on one connection and read on another.
use faststream_mq.Base.{
  ◌≡◌, refl, ap, ◌∙◌, subst, codes, sym, Text, Bytes, Bool, true, none, some, Dict, length,
}
use faststream_mq.Errors.{ok, ◌>>=◌, bind-ok, ok-injective}
use faststream_mq.Values.{Value, bytes_value}
use faststream_mq.Native.{Env, Descriptor}
use faststream_mq.Ids.{normalize_mq_id, mq_id_to_bytes, any_nonzero}
use faststream_mq.Ids.Hex.{IsBytes, to_hex}
use faststream_mq.Ids.Laws.{IsMqId, normalize_mq_id-ok, mq_id_to_bytes-raw, try_parse_mq_id-raw}
use faststream_mq.Connection.Message.{
  MqRawMessage, to_bytes, raw_message, build_raw_message, mq_str, or_empty,
}
use faststream_mq.Connection.Publish.{correl_field}

-- a message that is built is the one that its two reply names make
pub build_raw_message-ok :
    (env : Env) (body : Bytes) (md : Descriptor) (headers : Dict Value) (queue : Text) (own : Bool)
    (m : MqRawMessage)
    → build_raw_message env body md headers queue own ≡ ok m
    → (r : Text × Text) × (raw_message env body md headers queue own r.0 r.1 ≡ m)
unfolding build_raw_message
build_raw_message-ok env body md headers queue own m h =
    let first =
      bind-ok (mq_str env (or_empty md.reply_to_q))
        (λ r.
          mq_str env (or_empty md.reply_to_qmgr)
          >>= (λ q. ok (raw_message env body md headers queue own r q)))
        m h in
    let second =
      bind-ok (mq_str env (or_empty md.reply_to_qmgr))
        (λ q. ok (raw_message env body md headers queue own first.0 q)) m first.1 in
    ((first.0, second.0), ok-injective _ _ second.1)

read_correlation :
    (md : Descriptor) (env : Env) (body : Bytes) (headers : Dict Value) (queue : Text) (own : Bool)
    (rt rq : Text) (raw : Bytes)
    → IsBytes raw
    → length raw ≡ 24
    → any_nonzero raw ≡ true
    → md.correl_id ≡ some (bytes_value raw)
    → ((raw_message env body md headers queue own rt rq).correlation_id ≡ some (to_hex raw))
      × ((raw_message env body md headers queue own rt rq).native_correlation_id ≡ some raw)
unfolding raw_message to_bytes
read_correlation md env body headers queue own rt rq raw b full nonzero e =
    (rw e (rw (try_parse_mq_id-raw raw full nonzero) refl), rw e refl)

-- the bytes that an identifier is published as
sent_bytes :
    (t : Text) (raw : Bytes) (i : IsMqId t)
    → correl_field none (some t) ≡ ok (some (some raw))
    → i.raw ≡ raw
sent_bytes t raw i sent =
    let spelled : mq_id_to_bytes (some t) (codes "correlation_id") ≡ ok (some i.raw) =
      rw i.spelled (mq_id_to_bytes-raw i.raw _ i.bytes i.full) in
    cc

-- A normalised correlation identifier that `__publish_sync` writes into a descriptor is, unless
-- all its bytes are zero, the correlation identifier of every raw message that is built from a
-- descriptor with those bytes, whatever its other fields and the headers are; the message's
-- native correlation identifier is those bytes.
pub correlation_id-roundtrip :
    (env : Env) (body : Bytes) (md : Descriptor) (headers : Dict Value) (queue : Text) (own : Bool)
    (m : MqRawMessage) (t f : Text) (raw : Bytes)
    → normalize_mq_id (some t) f ≡ ok (some t)
    → correl_field none (some t) ≡ ok (some (some raw))
    → any_nonzero raw ≡ true
    → md.correl_id ≡ some (bytes_value raw)
    → build_raw_message env body md headers queue own ≡ ok m
    → (m.correlation_id ≡ some t) × (m.native_correlation_id ≡ some raw)
correlation_id-roundtrip env body md headers queue own m t f raw normal sent nonzero e h =
    let i : IsMqId t = normalize_mq_id-ok (some t) f t normal in
    let same = sent_bytes t raw i sent in
    let built = build_raw_message-ok env body md headers queue own m h in
    let read =
      read_correlation md env body headers queue own built.0.0 built.0.1 raw
        (subst IsBytes same i.bytes) (rw (sym same) i.full) nonzero e in
    (
      sym (ap (λ x. x.correlation_id) built.1)
          ∙ read.0
          ∙ rw (sym same) (ap (λ x. some x) (sym i.spelled)),
      sym (ap (λ x. x.native_correlation_id) built.1) ∙ read.1,
    )
