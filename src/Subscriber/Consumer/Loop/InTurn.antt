-- ===== src/Subscriber/Consumer/Loop/InTurn.antt =====
-- Under the manual policy the loop takes a message only when it waits for none before.
use faststream_mq.Base.{
  ℕ, ◌≤◌, ◌<◌, ◌≡◌, ◌≢◌, refl, ap, ◌∙◌, subst, Bool, true, ltb, arith, ◌==◌, if◌then◌else◌, inl,
  inr, Bool-cases,
}
use faststream_mq.Connection.Message.{MqRawMessage}
use faststream_mq.Subscriber.Consumer.{Consumer, Calls, Settings, is_manual, stored, stop}
use faststream_mq.Subscriber.Consumer.Loop.{
  Phase, at_top, fetching, ended, waiting, is_done, LoopStep, checked, turned, woken, changed,
  halted, LoopReach, loop_here, loop_next,
}
use faststream_mq.Subscriber.Consumer.Loop.Kept.{stop-Holds}
use faststream_mq.Subscriber.Consumer.Loop.Turn.{IsLeft, IsTurn, take_turn-IsTurn}

-- every message from `k` on
record AreLeft {S : Type 0} (k : ℕ) (t : Phase × Consumer S) : Type 0 where
  left : (m : ℕ) → k ≤ m → m < t.1.next → IsLeft t.0 t.1 m

left-done :
    {S : Type 0} (p : Phase) (x : Consumer S) (m : ℕ)
    → p ≢ ended
    → p ≢ waiting m
    → IsLeft p x m
    → is_done (x.messages m) ≡ true
left-done p x m a b (inl e) = absurd (a e)
left-done p x m a b (inr (inl e)) = absurd (b e)
left-done p x m a b (inr (inr d)) = d

module _ {S : Type 0} (c : Calls S) (cfg : Settings) (k : ℕ) where
  changed-IsLeft :
      (p : Phase) (n m : ℕ) (raw : MqRawMessage) (w : S) (x : Consumer S)
      → (is_done (x.messages n) ≡ true → is_done raw ≡ true)
      → IsLeft p x m
      → IsLeft p (record x { world = w; messages = stored n raw x.messages }) m
  changed-IsLeft p n m raw w x more (inl e) = inl e
  changed-IsLeft p n m raw w x more (inr (inl e)) = inr (inl e)
  changed-IsLeft p n m raw w x more (inr (inr d)) = inr (inr (still n m raw x.messages more d))
    where
      still :
          (n m : ℕ) (raw : MqRawMessage) (messages : ℕ → MqRawMessage)
          → (is_done (messages n) ≡ true → is_done raw ≡ true)
          → is_done (messages m) ≡ true
          → is_done (stored n raw messages m) ≡ true
      still n m raw messages more d = elim (Bool-cases (m == n)) [
        | inr y ↦ simp y d
        | inl y ↦
            let same : m ≡ n = ground (arith, y) in
            simp y (more (subst (λ i. is_done (messages i) ≡ true) same d))
      ]

  stop-kept :
      (x : Consumer S) (m : ℕ)
      → ((stop c cfg x).1.next ≡ x.next) × ((stop c cfg x).1.messages m ≡ x.messages m)
  stop-kept x m =
      let h =
        (stop-Holds c cfg x.next m (x.messages m)).at x (record { next = refl; held = refl }) in
      (h.next, h.held)

  halted-IsLeft : (p : Phase) (x : Consumer S) (m : ℕ) → IsLeft p x m → IsLeft p (stop c cfg x).1 m
  halted-IsLeft p x m (inl e) = inl e
  halted-IsLeft p x m (inr (inl e)) = inr (inl e)
  halted-IsLeft p x m (inr (inr d)) = inr (inr (ap is_done (stop-kept x m).1 ∙ d))

  woken-IsLeft :
      (n m : ℕ) (x : Consumer S)
      → (x.messages n).settled_event ≡ true
      → IsLeft (waiting n) x m
      → IsLeft at_top x m
  woken-IsLeft n m x event (inl e) = absurd cc
  woken-IsLeft n m x event (inr (inl e)) =
      let same : n ≡ m = cc in
      let is_woken : is_done (x.messages n) ≡ true = ground (arith, event) in
      inr (inr (subst (λ i. is_done (x.messages i) ≡ true) same is_woken))
  woken-IsLeft n m x event (inr (inr d)) = inr (inr d)

  turned-IsLeft :
      (x y : Consumer S) (p : Phase) (m : ℕ)
      → IsTurn x p y
      → (m < x.next → IsLeft fetching x m)
      → m < y.next
      → IsLeft p y m
  turned-IsLeft x y p m turn before l = elim (Bool-cases (ltb m x.next)) [
    | inl y ↦
        let old : m < x.next = ground (arith, y) in
        inr (
          inr (
            ap is_done (turn.kept m old) ∙ left-done fetching x m (λ e. cc) (λ e. cc) (before old)))
    | inr n ↦ let new : x.next ≤ m = ground (arith, n) in turn.taken m new l
  ]

  checked-IsLeft :
      (running : Bool) (x : Consumer S) (m : ℕ)
      → IsLeft at_top x m
      → IsLeft (if running then fetching else ended) x m
  checked-IsLeft running x m h = inr (inr (left-done at_top x m (λ e. cc) (λ e. cc) h))

  step-AreLeft :
      is_manual cfg.ack_policy ≡ true
      → {t u : Phase × Consumer S} → LoopStep c cfg t u
      → AreLeft k t
      → AreLeft k u
  step-AreLeft manual (checked x) i = record {
    left = λ m l u. checked-IsLeft x.running x m (i.left m l u);
  }
  step-AreLeft manual (turned x) i = record {
    left = λ m l u. turned-IsLeft x _ _ m (take_turn-IsTurn c cfg manual x) (λ o. i.left m l o) u;
  }
  step-AreLeft manual (woken n x event) i = record {
    left = λ m l u. woken-IsLeft n m x event (i.left m l u);
  }
  step-AreLeft manual (changed p n raw w x more) i = record {
    left = λ m l u. changed-IsLeft p n m raw w x more (i.left m l u);
  }
  step-AreLeft manual (halted p x) i = record {
    left = λ m l u. halted-IsLeft p x m (i.left m l (let e = (stop-kept x m).0 in omega arith));
  }

  reach-AreLeft :
      is_manual cfg.ack_policy ≡ true
      → {t u : Phase × Consumer S} → LoopReach c cfg t u
      → AreLeft k t
      → AreLeft k u
  reach-AreLeft manual loop_here i = i
  reach-AreLeft manual (loop_next r step) i = step-AreLeft manual step (reach-AreLeft manual r i)

-- Under the manual policy, and where other tasks may settle messages and stop the subscriber between
-- any two steps of `_consume_loop`: whenever the loop is about to take a message from the
-- connection, each message that it has taken before has its status, or its waiters were woken.
pub reach-in_turn :
    {S : Type 0} (c : Calls S) (cfg : Settings) (x y : Consumer S) (m : ℕ)
    → is_manual cfg.ack_policy ≡ true
    → LoopReach c cfg (at_top, x) (fetching, y)
    → x.next ≤ m
    → m < y.next
    → is_done (y.messages m) ≡ true
reach-in_turn c cfg x y m manual r l u =
    let i = reach-AreLeft c cfg x.next manual r (record { left = λ n h k. absurd (omega arith) }) in
    left-done fetching y m (λ e. cc) (λ e. cc) (i.left m l u)
