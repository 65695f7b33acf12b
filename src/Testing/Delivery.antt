-- ===== src/Testing/Delivery.antt =====
-- Whom the in-memory producer reaches with what is published.
use faststream_mq.Base.{
  ◌≡◌, refl, sym, ap, ◌∙◌, ◌≢◌, ◌⊎◌, true, false, none, some, List, [], ◌∷◌, Text, text_eq,
  text_eq_refl, eq_of_text_eq, if◌then◌else◌, inl, inr, Bool-cases, Option-cases, ℕ,
}
use mathlib.Core.List.{Memᴰ}
use mathlib.Core.List.Memᴰ
use faststream_mq.Errors.{subscriber_not_found}
use faststream_mq.Exec.{Exec, pure, raise, for_each, ◌>>=◌}
use faststream_mq.Exec.Hoare.{run-cases}
use faststream_mq.Command.{MqPublishCommand}
use faststream_mq.Connection.Message.{MqRawMessage}
use faststream_mq.Publisher.{MqPublisher, routing}
use faststream_mq.Testing.{
  TestSubscriber, World, Services, is_addressed, incoming_of, deliver, publish_loop, build,
  fake_publish, subscriber_routing, find_subscriber, create_publisher_fake_subscriber,
}

-- the subscribers that a command is addressed to, in the broker's order
abbrev pub addressed : MqPublishCommand → List TestSubscriber → List TestSubscriber
addressed cmd [] = []
addressed cmd (h ∷ hs) = if is_addressed cmd h then h ∷ addressed cmd hs else addressed cmd hs

module _ {W : Type 0} (services : Services W) where
  -- each of some subscribers gets the message, one after the other; there must be one
  abbrev pub deliver_each : MqRawMessage → List TestSubscriber → Exec (World W) (Unit {0})
  deliver_each msg [] = raise subscriber_not_found
  deliver_each msg (h ∷ hs) = for_each (h ∷ hs) (deliver services msg)

  publish_loop-addressed :
      (cmd : MqPublishCommand) (msg : MqRawMessage) (hs : List TestSubscriber) (w : World W)
      → publish_loop services cmd msg hs true w
        ≡ (for_each (addressed cmd hs) (deliver services msg) >>= λ u. pure true) w
  unfolding publish_loop for_each ◌>>=◌
  publish_loop-addressed cmd msg [] w = refl
  publish_loop-addressed cmd msg (h ∷ hs) w = elim (Bool-cases (is_addressed cmd h)) [
    | inr n ↦ simp n (publish_loop-addressed cmd msg hs w)
    | inl y ↦ elim (run-cases (deliver services msg h) w) [
      | inl (u, v, r) ↦ simp (y, r) (publish_loop-addressed cmd msg hs v)
      | inr (e, v, r) ↦ simp (y, r)
    ]
  ]

  deliver_loop :
      (cmd : MqPublishCommand) (msg : MqRawMessage) (hs : List TestSubscriber) (w : World W)
      → (publish_loop services cmd msg hs false >>= λ called.
            if called then pure tt else raise subscriber_not_found)
          w
        ≡ deliver_each msg (addressed cmd hs) w
  unfolding publish_loop for_each ◌>>=◌
  deliver_loop cmd msg [] w = refl
  deliver_loop cmd msg (h ∷ hs) w = elim (Bool-cases (is_addressed cmd h)) [
    | inr n ↦ simp n (deliver_loop cmd msg hs w)
    | inl y ↦ elim (run-cases (deliver services msg h) w) [
      | inr (e, v, r) ↦ simp (y, r)
      | inl (u, v, r) ↦
          let loop = publish_loop-addressed cmd msg hs v in
          elim (run-cases (for_each (addressed cmd hs) (deliver services msg)) v) [
            | inl (u, t, k) ↦ simp (y, r, loop, k)
            | inr (e, t, k) ↦ simp (y, r, loop, k)
          ]
    ]
  ]

  -- `publish` of the in-memory producer hands the message that it builds to each subscriber whose
  -- routing is the command's destination, in the order in which the broker has them, until one of
  -- them raises; it raises `SubscriberNotFound` itself where there is no such subscriber, and that
  -- after the message was built.
  pub fake_publish-addressed :
      (subscribers : List TestSubscriber) (cmd : MqPublishCommand) (w : World W)
      → fake_publish services subscribers cmd w
        ≡ (build services (incoming_of cmd) >>= λ incoming.
              deliver_each incoming (addressed cmd subscribers))
            w
  unfolding fake_publish ◌>>=◌
  fake_publish-addressed subscribers cmd w = elim (run-cases (build services (incoming_of cmd)) w) [
    | inl (msg, v, r) ↦ simp r (deliver_loop cmd msg subscribers v)
    | inr (e, v, r) ↦ simp r
  ]

find_subscriber-some :
    (name : Text) (hs : List TestSubscriber) (h : TestSubscriber)
    → find_subscriber name hs ≡ some h
    → subscriber_routing h ≡ name
unfolding find_subscriber
find_subscriber-some name [] h e = cc
find_subscriber-some name (g ∷ hs) h e = elim (Bool-cases (text_eq (subscriber_routing g) name)) [
  | inl y ↦
      (let k = simp y at e in
        let same : g ≡ h = cc in ap subscriber_routing (sym same) ∙ eq_of_text_eq _ _ y)
  | inr n ↦ find_subscriber-some name hs h (simp n at e)
]

-- what is found is one of the subscribers
find_subscriber-Mem :
    (name : Text) (hs : List TestSubscriber) (h : TestSubscriber)
    → find_subscriber name hs ≡ some h
    → Memᴰ h hs
unfolding find_subscriber
find_subscriber-Mem name [] h e = absurd cc
find_subscriber-Mem name (g ∷ hs) h e = elim (Bool-cases (text_eq (subscriber_routing g) name)) [
  | inl y ↦ (let k = simp y at e in let same : g ≡ h = cc in Memᴰ.head (sym same))
  | inr n ↦ Memᴰ.tail (find_subscriber-Mem name hs h (simp n at e))
]

-- where nothing is found, none of the subscribers has the routing
find_subscriber-none :
    (name : Text) (hs : List TestSubscriber) (g : TestSubscriber)
    → find_subscriber name hs ≡ none
    → Memᴰ g hs
    → subscriber_routing g ≢ name
unfolding find_subscriber
find_subscriber-none name [] g e i = absurd (Memᴰ.not-nil i)
find_subscriber-none name (h ∷ hs) g e i = elim (Bool-cases (text_eq (subscriber_routing h) name)) [
  | inl y ↦ (let k = simp y at e in absurd cc)
  | inr n ↦ elim (Memᴰ.cases_cons i) [
    | inl same ↦ (λ r.
        let found : text_eq (subscriber_routing h) name ≡ true =
          rw (ap subscriber_routing (sym same) ∙ r) (text_eq_refl name) in
        cc)
    | inr later ↦ find_subscriber-none name hs g (simp n at e) later
  ]
]

-- Let the broker have no prefix. The subscriber that stands for a publisher under test has the
-- publisher's routing. It is one of the broker's own, and is returned as such, or it is returned as
-- a new one, and then none of the broker's subscribers has that routing.
pub create_publisher_fake_subscriber-routing :
    (fresh : ℕ) (subscribers : List TestSubscriber) (p : MqPublisher)
    → let (h, is_real) = create_publisher_fake_subscriber [] fresh subscribers p in
      (subscriber_routing h ≡ routing p none)
      × (((is_real ≡ true) × Memᴰ h subscribers)
          ⊎ ((is_real ≡ false)
              × ((g : TestSubscriber)
                  → Memᴰ g subscribers
                  → subscriber_routing g ≢ routing p none)))
unfolding create_publisher_fake_subscriber subscriber_routing routing
create_publisher_fake_subscriber-routing fresh subscribers p =
    elim (Option-cases (find_subscriber (routing p none) subscribers)) [
      | inl n ↦ simp n (refl, inr (refl, λ g i. find_subscriber-none _ subscribers g n i))
      | inr (h, n) ↦ simp n (
        find_subscriber-some _ subscribers h n,
        inl (refl, find_subscriber-Mem _ subscribers h n),
      )
    ]
