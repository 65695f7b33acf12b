-- ===== src/Testing/Messages.antt =====
-- The messages that the in-memory producer makes: their headers, and the reply to a request.
use faststream_mq.Base.{
  ◌≡◌, refl, subst, length, sym, ap, ◌∙◌, Bool, true, false, Option, none, some, List, [], ◌∷◌,
  Text, Bytes, Dict, codes, text_eq, eq_of_text_eq, lookup, lookup-insert, insert, update, arith,
  if◌then◌else◌, inl, inr, Bool-cases,
}
use faststream_mq.Errors.{Result-cases, ok, ok-injective}
use faststream_mq.Values.{Value, str_value}
use faststream_mq.Exec.{Exec, raise, ◌>>=◌}
use faststream_mq.Exec.Hoare.{run-cases}
use faststream_mq.Ids.{normalize_mq_id, generate_mq_id}
use faststream_mq.Ids.Hex.{IsBytes}
use faststream_mq.Ids.Laws.{normalize_mq_id-canonical, generate_mq_id-normalize}
use faststream_mq.Command.{MqPublishCommand, Duration}
use faststream_mq.Connection.Message.{MqRawMessage}
use faststream_mq.Headers.{headers_to_publish}
use faststream_mq.Headers.Defaults.{first_some, lookup-default_header}
use faststream_mq.Testing.{
  TestSubscriber, World, Services, Incoming, is_addressed, incoming_of, id_or, build_message,
  test_message, merged_headers, build, execute_handler, request_loop, fake_request,
  subscriber_routing,
}

-- no key stands twice, as in any `dict`
pub data HasDistinctKeys : Dict Value → Type 0 where
  no_keys : HasDistinctKeys []
  new_key :
      (k : Text) (v : Value) (d : Dict Value)
      → lookup k d ≡ none
      → HasDistinctKeys d
      → HasDistinctKeys ((k, v) ∷ d)

-- in `{**d, **e}` the keys of `e` have the values that they have in `e`
lookup-update :
    (k : Text) (d e : Dict Value)
    → HasDistinctKeys e
    → lookup k (update d e) ≡ first_some (lookup k e) (lookup k d)
unfolding update lookup
lookup-update k d [] no_keys = refl
lookup-update k d ((j, v) ∷ e) (new_key _ _ _ n i) =
    lookup-update k (insert j v d) e i ∙ ground (arith, lookup-insert j k v d, eq_of_text_eq j k, n)

preferred :
    (b : Bool) (o : Option Value) (v : Value)
    → first_some o (if b then some v else none) ≡ (if b then first_some o (some v) else o)
preferred true none v = refl
preferred true (some w) v = refl
preferred false none v = refl
preferred false (some w) v = refl

lookup-merged_headers :
    (k : Text) (content_type : Option Text) (h : Dict Value)
    → HasDistinctKeys h
    → lookup k (merged_headers content_type h) ≡ lookup k (headers_to_publish h content_type none)
unfolding headers_to_publish lookup
lookup-merged_headers k none h i = refl
lookup-merged_headers k (some []) h i = refl
lookup-merged_headers k (some (c ∷ t)) h i =
    lookup-update k ((codes "content-type", str_value (c ∷ t)) ∷ []) h i
    ∙ preferred (text_eq (codes "content-type") k) (lookup k h) (str_value (c ∷ t))
    ∙ sym (lookup-default_header (codes "content-type") k (some (c ∷ t)) h)

build_message-ok :
    (encoded : Bytes × Option Text) (token : Bytes) (a : Incoming) (m : MqRawMessage)
    → build_message encoded token a ≡ ok m
    → (c i : Option Text) × (normalize_mq_id a.correlation_id (codes "correlation_id") ≡ ok c)
      × (normalize_mq_id a.message_id (codes "message_id") ≡ ok i)
      × (test_message encoded token a c i ≡ m)
unfolding build_message
build_message-ok encoded token a m h =
    elim (Result-cases (normalize_mq_id a.correlation_id (codes "correlation_id"))) [
      | inr (e, r) ↦ (let k = simp r at h in cc)
      | inl (c, r) ↦ elim (Result-cases (normalize_mq_id a.message_id (codes "message_id"))) [
        | inr (e, n) ↦ (let k = simp (r, n) at h in cc)
        | inl (i, n) ↦ (c, i, r, n, ok-injective _ _ (simp (r, n) at h))
      ]
    ]

-- A message of the in-memory producer has the headers that `publish` of a connection would send
-- for the same body without a message type: the caller's own, and the content type of the encoded
-- body where the caller gives none and it is not empty.
pub build_message-headers :
    (encoded : Bytes × Option Text) (token : Bytes) (a : Incoming) (m : MqRawMessage) (k : Text)
    → build_message encoded token a ≡ ok m
    → HasDistinctKeys a.headers
    → lookup k m.headers ≡ lookup k (headers_to_publish a.headers encoded.1 none)
build_message-headers encoded token a m k h i =
    let (c, d, r, n, same) = build_message-ok encoded token a m h in
    ap (λ x. lookup k x.headers) (sym same) ∙ lookup-merged_headers k encoded.1 a.headers i

id_or-normal :
    (i : Option Text) (f g : Text) (token : Bytes) (given : Option Text)
    → IsBytes token
    → length token ≡ 24
    → normalize_mq_id given f ≡ ok i
    → normalize_mq_id (some (id_or i (generate_mq_id token))) g
      ≡ ok (some (id_or i (generate_mq_id token)))
id_or-normal none f g token given bytes full h = (generate_mq_id-normalize token g bytes full).0
id_or-normal (some t) f g token given bytes full h = (normalize_mq_id-canonical given f g t h).4

module _ {W : Type 0} (services : Services W) where
  build-ok :
      (a : Incoming) (m : MqRawMessage) (w v : World W)
      → build services a w ≡ (ok m, v)
      → (encoded : Bytes × Option Text) × (token : Bytes) × (u : World W) × (services.token w
          ≡ (ok token, u))
        × (build_message encoded token a ≡ ok m)
  unfolding build ◌>>=◌
  build-ok a m w v h = elim (Result-cases (services.encode a.message)) [
    | inr (e, r) ↦ (let k = simp r at h in cc)
    | inl (encoded, r) ↦ elim (run-cases services.token w) [
      | inr (e, u, k) ↦ (let l = simp (r, k) at h in cc)
      | inl (token, u, k) ↦
          let built : build_message encoded token a ≡ ok m = (let l = simp (r, k) at h in cc) in
          (encoded, token, u, k, built)
    ]
  ]

  -- a message has the queue and the correlation identifier that it is built with
  build-ids :
      (a : Incoming) (m : MqRawMessage) (w v : World W)
      → build services a w ≡ (ok m, v)
      → (m.queue ≡ a.queue)
        × (normalize_mq_id a.correlation_id (codes "correlation_id") ≡ ok m.correlation_id)
  build-ids a m w v h =
      let (encoded, token, u, k, built) = build-ok a m w v h in
      let (c, d, n, o, same) = build_message-ok encoded token a m built in
      (ap (λ x. x.queue) (sym same), n ∙ ap (λ x. ok x.correlation_id) same)

  -- its own identifier is in normal form, whether it was given or is a new one
  build-message_id :
      ((w v : World W) (raw : Bytes)
        → services.token w ≡ (ok raw, v)
        → IsBytes raw × (length raw ≡ 24))
      → (a : Incoming) (m : MqRawMessage) (w v : World W) → build services a w ≡ (ok m, v)
      → normalize_mq_id m.message_id (codes "correlation_id") ≡ ok m.message_id
  build-message_id tokens a m w v h =
      let (encoded, token, u, k, built) = build-ok a m w v h in
      let (c, i, n, o, same) = build_message-ok encoded token a m built in
      let (bytes, full) = tokens w u token k in
      subst (λ x. normalize_mq_id x (codes "correlation_id") ≡ ok x) (ap (λ x. x.message_id) same)
        (id_or-normal i (codes "message_id") (codes "correlation_id") token a.message_id bytes full
          o)

  -- what a subscriber that is asked gives
  request_loop-ok :
      (cmd : MqPublishCommand) (msg : MqRawMessage) (hs : List TestSubscriber) (r : MqRawMessage)
      (w v : World W)
      → request_loop services cmd msg hs w ≡ (ok r, v)
      → (h : TestSubscriber) × (subscriber_routing h ≡ cmd.destination)
        × (services.fail_after cmd.timeout (execute_handler services msg h) w ≡ (ok r, v))
  unfolding request_loop raise
  request_loop-ok cmd msg [] r w v e = absurd cc
  request_loop-ok cmd msg (h ∷ hs) r w v e = elim (Bool-cases (is_addressed cmd h)) [
    | inl y ↦ (h, eq_of_text_eq _ _ y, simp y at e)
    | inr n ↦ request_loop-ok cmd msg hs r w v (simp n at e)
  ]

  execute_handler-ok :
      (msg r : MqRawMessage) (h : TestSubscriber) (w v : World W)
      → execute_handler services msg h w ≡ (ok r, v)
      → (r.queue ≡ msg.queue)
        × (normalize_mq_id msg.message_id (codes "correlation_id") ≡ ok r.correlation_id)
  unfolding execute_handler ◌>>=◌
  execute_handler-ok msg r h w v e = elim (run-cases (services.process_message h msg) w) [
    | inr (x, u, k) ↦ (let l = simp k at e in cc)
    | inl (result, u, k) ↦ build-ids _ r u v (simp k at e)
  ]

  -- Where random tokens are 24 bytes, and a block that ends in time under `fail_after` gives its
  -- own result: a `request` of the in-memory producer that returns a reply has asked one subscriber
  -- whose routing is the command's destination, with the message that it built of the command. The
  -- reply is on the queue of the command, and its correlation identifier is that message's
  -- identifier.
  pub fake_request-correlates :
      ((w v : World W) (raw : Bytes)
        → services.token w ≡ (ok raw, v)
        → IsBytes raw × (length raw ≡ 24))
      → ((timeout : Duration) (m : Exec (World W) MqRawMessage) (r : MqRawMessage) (w v : World W)
          → services.fail_after timeout m w ≡ (ok r, v)
          → m w ≡ (ok r, v))
      → (subscribers : List TestSubscriber) (cmd : MqPublishCommand) (r : MqRawMessage)
        (w v : World W)
      → fake_request services subscribers cmd w ≡ (ok r, v)
      → (incoming : MqRawMessage) × (u : World W) × (h : TestSubscriber) × (build services
            (incoming_of cmd)
            w
          ≡ (ok incoming, u))
        × (subscriber_routing h ≡ cmd.destination)
        × (execute_handler services incoming h u ≡ (ok r, v))
        × (r.queue ≡ cmd.destination)
        × (r.correlation_id ≡ incoming.message_id)
  unfolding fake_request ◌>>=◌
  fake_request-correlates tokens in_time subscribers cmd r w v e =
      elim (run-cases (build services (incoming_of cmd)) w) [
        | inr (x, u, k) ↦ (let l = simp k at e in cc)
        | inl (incoming, u, k) ↦
            let (h, addressed, asked) =
              request_loop-ok cmd incoming subscribers r u v (simp k at e) in
            let ran = in_time cmd.timeout (execute_handler services incoming h) r u v asked in
            let (queue, id) = execute_handler-ok incoming r h u v ran in
            let normal = build-message_id tokens (incoming_of cmd) incoming w u k in
            (
              incoming,
              u,
              h,
              k,
              addressed,
              ran,
              queue ∙ (build-ids (incoming_of cmd) incoming w u k).0,
              ok-injective _ _ (sym id ∙ normal),
            )
      ]
