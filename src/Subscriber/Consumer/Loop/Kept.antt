-- ===== src/Subscriber/Consumer/Loop/Kept.antt =====
-- What `consume` and `stop` leave of the store of messages.
use faststream_mq.Base.{ℕ, ◌≡◌, ◌≢◌, ap, ◌∙◌, arith}
use faststream_mq.Errors.{Exc, is_exception}
use faststream_mq.Exec.{Exec, modify}
use faststream_mq.Exec.Hoare.{
  Keeps, Keeps-bind, Keeps-modify, Keeps-if, Keeps-raise, Keeps-gets, Keeps-when, Keeps-try_except,
  keeps_rules,
}
use faststream_mq.Connection.Message.{MqRawMessage}
use faststream_mq.Subscriber.{Session}
use faststream_mq.Subscriber.Consumer.{
  Consumer, Calls, Settings, is_stop_consume, is_system_exit, on_world, on_message,
  settle_unresolved, consume, consume_failed, stop, stop_connection,
}

-- the store has `k` messages, of which `m` is `raw`
pub record Holds {S : Type 0} (k m : ℕ) (raw : MqRawMessage) (x : Consumer S) : Type 0 where
  pub next : x.next ≡ k
  pub held : x.messages m ≡ raw

module _ {S : Type 0} (c : Calls S) (cfg : Settings) (k m : ℕ) (raw : MqRawMessage) where
  Keeps-on_world : {A : Type 0} (o : Exec S A) → Keeps (Holds k m raw) (on_world o)
  unfolding on_world
  Keeps-on_world o = record { at = λ x h. record { next = h.next; held = h.held } }

  Keeps-on_message :
      (n : ℕ) (o : Exec (Session S) (Unit {0})) → m ≢ n → Keeps (Holds k m raw) (on_message n o)
  unfolding on_message
  Keeps-on_message n o d = record {
    at = λ x h. record { next = h.next; held = ground (arith, d, h.held) };
  }

  Keeps-attributes :
      (f : Consumer S → Consumer S)
      → ((x : Consumer S) → ((f x).next ≡ x.next) × ((f x).messages ≡ x.messages))
      → Keeps (Holds k m raw) (modify f)
  Keeps-attributes f same =
      Keeps-modify f
        (λ x h. record { next = (same x).0 ∙ h.next; held = ap (λ g. g m) (same x).1 ∙ h.held })

  pub stop-Holds : Keeps (Holds k m raw) (stop c cfg)
  unfolding stop stop_connection
  stop-Holds = search (keeps_rules, Keeps-on_world, Keeps-attributes) depth 14

  settle-Holds : (n : ℕ) (e : Exc) → m ≢ n → Keeps (Holds k m raw) (settle_unresolved c cfg n e)
  unfolding settle_unresolved
  settle-Holds n e d = Keeps-on_message n _ d

  consume_failed-Holds :
      (n : ℕ) (e : Exc) → m ≢ n → Keeps (Holds k m raw) (consume_failed c cfg n e)
  unfolding consume_failed
  consume_failed-Holds n e d =
      Keeps-if (is_stop_consume e) _ _ (Keeps-bind _ _ (settle-Holds n e d) (λ u. stop-Holds)) (
        Keeps-if (is_system_exit e) _ _
          (Keeps-bind _ _ (settle-Holds n e d)
            (λ u. Keeps-bind _ _ stop-Holds (λ u. Keeps-on_world c.exit_app)))
          (Keeps-if (is_exception e) _ _ (settle-Holds n e d) (Keeps-raise e)))

  pub consume-Holds : (n : ℕ) → m ≢ n → Keeps (Holds k m raw) (consume c cfg n)
  unfolding consume
  consume-Holds n d = Keeps-bind _ _ (Keeps-gets _) (λ running. Keeps-when running _ (
      Keeps-try_except _ _ (Keeps-on_message n c.process_message d)
        (λ e. consume_failed-Holds n e d)))
