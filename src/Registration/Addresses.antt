-- ===== src/Registration/Addresses.antt =====
-- One queue, registered for a subscriber and for a publisher: its address for the messages that are
-- sent, for the in-memory producer, and for the documentation.
use faststream_mq.Base.{
  ℕ, ◌≡◌, ap, sym, ◌∙◌, ◌++◌, inl, inr, Text, text_eq_refl, eq_of_text_eq, ◌↔◌, Bool, true, Option,
  none, List, codes,
}
use mathlib.Core.List.{append_cancel_right}
use faststream_mq.Errors.{ok, Result-cases, ok-injective}
use faststream_mq.Exec.{pure, ◌>>=◌}
use faststream_mq.Exec.Hoare.{run-cases}
use faststream_mq.Ids.{normalize_mq_id}
use faststream_mq.Command.{MqPublishCommand, new_publish_command}
use faststream_mq.Publisher.{Arguments, QueueName, publish_command, routing, validate}
use faststream_mq.Broker.{broker_publish_command, broker_routing}
use faststream_mq.Testing.{TestSubscriber, is_addressed, subscriber_routing}
use faststream_mq.Registration.{
  Base, Object, SubscriberArgs, PublisherArgs, MqSubscriber, RegisteredPublisher, subscriber,
  publisher, publisher_at, create_subscriber, create_publisher,
}
use faststream_mq.Registration.Specification.{subscriber_schema, publisher_schema}

-- a command is built for the destination it is given
new_publish_command-destination :
    (args cmd : MqPublishCommand)
    → new_publish_command args ≡ ok cmd
    → cmd.destination ≡ args.destination
unfolding new_publish_command
new_publish_command-destination args cmd h =
    elim (Result-cases (normalize_mq_id args.correlation_id (codes "correlation_id"))) [
      | inr (e, r) ↦ (let k = simp r at h in absurd cc)
      | inl (c, r) ↦ elim (Result-cases (normalize_mq_id args.message_id (codes "message_id"))) [
        | inr (e, q) ↦ (let k = simp (r, q) at h in absurd cc)
        | inl (m, q) ↦
            (let k = simp (r, q) at h in
              ap (λ (x : MqPublishCommand). x.destination) (sym (ok-injective _ _ k)))
      ]
    ]

broker_publish-destination :
    (prefix : Text) (q : QueueName) (m : Arguments) (cmd : MqPublishCommand)
    → broker_publish_command prefix q m ≡ ok cmd
    → cmd.destination ≡ prefix ++ (validate q).name
unfolding broker_publish_command broker_routing
broker_publish-destination prefix q m cmd h = new_publish_command-destination _ cmd h

publish-destination :
    (prefix : Text) (p : RegisteredPublisher) (n : Arguments) (cmd : MqPublishCommand)
    → publish_command (publisher_at prefix p) n ≡ ok cmd
    → n.queue_name ≡ none
    → cmd.destination ≡ prefix ++ p.config.queue.name
unfolding publish_command routing
publish-destination prefix p n cmd h own =
    new_publish_command-destination _ cmd h ∙ ap (routing (publisher_at prefix p)) own

-- the subscriber as the in-memory producer looks at it
abbrev pub seen_as : Text → ℕ → Bool → MqSubscriber → TestSubscriber
seen_as prefix identity calls s = record {
  identity = identity;
  prefix = prefix;
  queue = s.config.queue;
  calls = calls;
}

-- a command to a queue under one prefix, and a subscriber of that queue under another
addressed_iff :
    (prefix prefix' name : Text) (cmd : MqPublishCommand) (h : TestSubscriber)
    → cmd.destination ≡ prefix ++ name
    → subscriber_routing h ≡ prefix' ++ name
    → (is_addressed cmd h ≡ true) ↔ (prefix ≡ prefix')
addressed_iff prefix prefix' name cmd h d r = (
  (λ k. append_cancel_right prefix prefix' name (sym d ∙ sym (eq_of_text_eq _ _ k) ∙ r)),
  λ k. rw (r, d, k) (text_eq_refl (prefix' ++ name)),
)

module _ {S : Type 0} (base : Base S)
    (keeps : (s t : MqSubscriber) (parser decoder : Option Object) (deps : List Object) (x y : S)
      → base.add_call s parser decoder deps x ≡ (ok t, y)
      → t ≡ s) where
  -- what `subscriber` gives is what the factory made
  subscriber-created :
      (persistent : Bool) (a : SubscriberArgs) (s : MqSubscriber) (x y : S)
      → subscriber base persistent a x ≡ (ok s, y)
      → s ≡ create_subscriber (validate a.queue) a
  unfolding subscriber ◌>>=◌
  subscriber-created persistent a s x y h =
      let made = create_subscriber (validate a.queue) a in
      elim (run-cases (base.add_subscriber made persistent) x) [
        | inr (e, z, r) ↦ (let k = simp r at h in absurd cc)
        | inl (u, z, r) ↦ keeps made s a.parser a.decoder a.dependencies z y (simp r at h)
      ]

  publisher-created :
      (persistent : Bool) (b : PublisherArgs) (p : RegisteredPublisher) (x y : S)
      → publisher base persistent b x ≡ (ok p, y)
      → p ≡ create_publisher (validate b.queue) b
  unfolding publisher ◌>>=◌ pure
  publisher-created persistent b p x y h =
      let made = create_publisher (validate b.queue) b in
      elim (run-cases (base.add_publisher made persistent) x) [
        | inr (e, z, r) ↦ (let k = simp r at h in absurd cc)
        | inl (u, z, r) ↦ (let k = simp r at h in cc)
      ]

  -- Let a subscriber and a publisher be registered with the same queue, by its name or as an object,
  -- and let `add_call` of faststream return the subscriber that it is called on. The registrators of
  -- the two, and the broker, may have different prefixes. What the broker publishes to that queue is
  -- addressed to the subscriber exactly if the broker has the prefix of the subscriber, and what the
  -- publisher publishes to its own queue is exactly if it has that prefix. The documentation
  -- gives as the publisher's address where it publishes to, and that is the subscriber's address
  -- in the documentation exactly if the two have one prefix.
  pub registered-share_address :
      (of_broker of_subscriber of_publisher : Text) (persistent persistent' : Bool)
      (a : SubscriberArgs) (b : PublisherArgs) (s : MqSubscriber) (p : RegisteredPublisher)
      (x y x' y' : S)
      → subscriber base persistent a x ≡ (ok s, y)
      → publisher base persistent' b x' ≡ (ok p, y')
      → validate a.queue ≡ validate b.queue
      → (m n : Arguments) (sent own : MqPublishCommand)
      → broker_publish_command of_broker a.queue m ≡ ok sent
      → publish_command (publisher_at of_publisher p) n ≡ ok own
      → n.queue_name ≡ none
      → (identity : ℕ) (calls : Bool) (name : Text) (description : Option Text) (payload : Object)
      → let seen = seen_as of_subscriber identity calls s in
        let documented = subscriber_schema of_subscriber s.specification name description payload in
        ((is_addressed sent seen ≡ true) ↔ (of_broker ≡ of_subscriber))
        × ((is_addressed own seen ≡ true) ↔ (of_publisher ≡ of_subscriber))
        × ((publisher_schema of_publisher p.specification payload).address ≡ own.destination)
        × ((documented.address ≡ own.destination) ↔ (of_publisher ≡ of_subscriber))
  unfolding subscriber_schema publisher_schema subscriber_routing create_subscriber create_publisher
  registered-share_address of_broker of_subscriber of_publisher persistent persistent' a b s p x y
        x' y' hs hp same m n sent own hsent hown noqueue identity calls name description payload =
      let d = broker_publish-destination of_broker a.queue m sent hsent in
      let e = publish-destination of_publisher p n own hown noqueue in
      let made = subscriber-created persistent a s x y hs in
      let made' = publisher-created persistent' b p x' y' hp in
      let own_too : own.destination ≡ of_publisher ++ (validate a.queue).name = cc in
      let seen = seen_as of_subscriber identity calls s in
      let routed : subscriber_routing seen ≡ of_subscriber ++ (validate a.queue).name =
        ap (λ (t : MqSubscriber). of_subscriber ++ t.config.queue.name) made in
      let listed : (publisher_schema of_publisher p.specification payload).address
          ≡ own.destination =
        cc in
      let address : (subscriber_schema of_subscriber s.specification name description
            payload).address
          ≡ of_subscriber ++ (validate a.queue).name =
        cc in
      (
        addressed_iff of_broker of_subscriber _ sent seen d routed,
        addressed_iff of_publisher of_subscriber _ own seen own_too routed,
        listed,
        (
          (λ k. sym (append_cancel_right _ _ _ (sym address ∙ k ∙ own_too))),
          λ k. address ∙ ap (λ q. q ++ (validate a.queue).name) (sym k) ∙ sym own_too,
        ),
      )
