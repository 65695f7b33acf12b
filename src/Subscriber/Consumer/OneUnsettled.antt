-- ===== src/Subscriber/Consumer/OneUnsettled.antt =====
-- A subscriber that is read by `get_one` and by its iterator under the manual policy: one message
-- at most is handed out and not settled.
use faststream_mq.Base.{
  ℕ, ◌≡◌, refl, sym, ap, ◌∙◌, true, Option, none, some, List, [], ◌∷◌, arith, ◌==◌, inl, inr,
  Bool-cases, Option-cases,
}
use mathlib.Core.List.{Memᴰ}
use mathlib.Core.List.Memᴰ
use faststream_mq.Errors.{Result, ok, err}
use faststream_mq.Exec.{raise, modify, ◌>>=◌, assert_some, when}
use faststream_mq.Connection.Message.{AckStatus, MqRawMessage}
use faststream_mq.Subscriber.Consumer.{
  Consumer, Calls, Settings, is_manual, iterate_once, get_one, put_message, start, stop, stored,
  on_world,
}
use faststream_mq.Subscriber.Consumer.Fetch.{status, IsGuarded}
use faststream_mq.Subscriber.Consumer.Direct.{IsRound, iterate_once-IsRound}

-- the messages handed out since the last stop, with the subscriber
abbrev pub Trace : Type 0 → Type 0
Trace S = List ℕ × Consumer S

abbrev pub handed_after : Result (Option ℕ) → List ℕ → List ℕ
handed_after (ok (some n)) hs = n ∷ hs
handed_after (ok none) hs = hs
handed_after (err e) hs = hs

-- the message `n` gets a status, whatever else happens to the world
abbrev pub settled_by_user : {S : Type 0} → ℕ → AckStatus → S → Consumer S → Consumer S
settled_by_user n v w x = record x {
  world = w;
  messages = stored n (record (x.messages n) { settled = some v }) x.messages;
}

module _ {S : Type 0} (c : Calls S) (cfg : Settings) where
  -- what may happen to a subscriber, whether it returns or raises
  pub data Step : Trace S → Trace S → Type 0 where
    iterated :
        (hs : List ℕ) (x : Consumer S)
        → Step (hs, x) (handed_after (iterate_once c cfg x).0 hs, (iterate_once c cfg x).1)
    asked :
        (hs : List ℕ) (x : Consumer S)
        → Step (hs, x) (handed_after (get_one c cfg x).0 hs, (get_one c cfg x).1)
    settled :
        (n : ℕ) (v : AckStatus) (w : S) (hs : List ℕ) (x : Consumer S)
        → Step (hs, x) (hs, settled_by_user n v w x)
    buffered :
        (m : MqRawMessage) (hs : List ℕ) (x : Consumer S)
        → Step (hs, x) (hs, (put_message c cfg m x).1)
    started : (task : ℕ) (hs : List ℕ) (x : Consumer S) → Step (hs, x) (hs, (start c cfg task x).1)
    stopped : (hs : List ℕ) (x : Consumer S) → Step (hs, x) ([], (stop c cfg x).1)

  pub data Reach (t : Trace S) : Trace S → Type 0 where
    here : Reach t t
    next : {u v : Trace S} → Reach t u → Step u v → Reach t v

  -- every message that was handed out is settled or is the direct message
  pub record IsSafe (t : Trace S) : Type 0 where
    pub guarded : (m : ℕ) → Memᴰ m t.0 → IsGuarded t.1 m

  round-IsGuarded :
      (x y : Consumer S) (r : Result (Option ℕ)) (m : ℕ)
      → IsRound c cfg x r y
      → IsGuarded x m
      → IsGuarded y m
  round-IsGuarded x y r m round i = elim round.passed [
    | inl same ↦ rw same i
    | inr let_through ↦ record {
      known = let l = round.known in let k = i.known in omega arith;
      guarded = λ e. absurd (
          let unsettled = sym (ap (λ z. z.settled) (round.kept m i.known)) ∙ e in
          let_through m (i.guarded unsettled) unsettled);
    }
  ]

  round-IsSafe :
      (hs : List ℕ) (x y : Consumer S) (r : Result (Option ℕ))
      → IsRound c cfg x r y
      → IsSafe (hs, x)
      → IsSafe (handed_after r hs, y)
  round-IsSafe hs x y (err e) round i = record {
    guarded = λ m h. round-IsGuarded x y _ m round (i.guarded m h);
  }
  round-IsSafe hs x y (ok none) round i = record {
    guarded = λ m h. round-IsGuarded x y _ m round (i.guarded m h);
  }
  round-IsSafe hs x y (ok (some n)) round i = record {
    guarded = λ m h. elim (Memᴰ.cases_cons h) [
      | inr h' ↦ round-IsGuarded x y _ m round (i.guarded m h')
      | inl e ↦
          let (known, direct) = round.fresh n refl in
          rw e (record { known = known; guarded = λ u. direct })
    ];
  }

  -- what neither touches the store nor the direct message
  record IsSame (x y : Consumer S) : Type 0 where
    messages : y.messages ≡ x.messages
    next : y.next ≡ x.next
    direct : y.direct_message ≡ x.direct_message

  same-IsSafe : (hs : List ℕ) (x y : Consumer S) → IsSame x y → IsSafe (hs, x) → IsSafe (hs, y)
  same-IsSafe hs x y same i = record {
    guarded = λ m h.
        let g = i.guarded m h in
        record {
          known = let k = g.known in let e = same.next in omega arith;
          guarded = λ u. same.direct ∙ g.guarded (sym (ap (λ f. (f m).settled) same.messages) ∙ u);
        };
  }

  put_message-IsSame : (m : MqRawMessage) (x : Consumer S) → IsSame x (put_message c cfg m x).1
  unfolding put_message ◌>>=◌ assert_some modify
  put_message-IsSame m x = elim (Option-cases x.test_messages) [
    | inl n ↦ record {
      messages = ground (arith, n);
      next = ground (arith, n);
      direct = ground (arith, n);
    }
    | inr (ms, n) ↦ record {
      messages = ground (arith, n);
      next = ground (arith, n);
      direct = ground (arith, n);
    }
  ]

  start-IsSame : (task : ℕ) (x : Consumer S) → IsSame x (start c cfg task x).1
  unfolding start ◌>>=◌ modify on_world when
  start-IsSame task x = record {
    messages = ground arith;
    next = ground arith;
    direct = ground arith;
  }

  still_unsettled :
      (n m : ℕ) (v : AckStatus) (messages : ℕ → MqRawMessage)
      → (stored n (record (messages n) { settled = some v }) messages m).settled ≡ none
      → (messages m).settled ≡ none
  still_unsettled n m v messages u = elim (Bool-cases (m == n)) [
    | inl y ↦ absurd (let k = simp y at u in cc)
    | inr k ↦ simp k at u
  ]

  settled-IsGuarded :
      (n m : ℕ) (v : AckStatus) (w : S) (x : Consumer S)
      → IsGuarded x m
      → IsGuarded (settled_by_user n v w x) m
  settled-IsGuarded n m v w x i = record {
    known = i.known;
    guarded = λ u. i.guarded (still_unsettled n m v x.messages u);
  }

  get_one-IsSafe :
      is_manual cfg.ack_policy ≡ true
      → (hs : List ℕ) (x : Consumer S) → IsSafe (hs, x)
      → IsSafe (handed_after (get_one c cfg x).0 hs, (get_one c cfg x).1)
  unfolding get_one raise
  get_one-IsSafe manual hs x i = elim (Bool-cases cfg.calls) [
    | inl y ↦ simp y i
    | inr n ↦ simp n (round-IsSafe hs x _ _ (iterate_once-IsRound c cfg manual x) i)
  ]

  Step-IsSafe : is_manual cfg.ack_policy ≡ true → {t u : Trace S} → Step t u → IsSafe t → IsSafe u
  Step-IsSafe manual (iterated hs x) i =
      round-IsSafe hs x _ _ (iterate_once-IsRound c cfg manual x) i
  Step-IsSafe manual (asked hs x) i = get_one-IsSafe manual hs x i
  Step-IsSafe manual (settled n v w hs x) i = record {
    guarded = λ m h. settled-IsGuarded n m v w x (i.guarded m h);
  }
  Step-IsSafe manual (buffered m hs x) i = same-IsSafe hs x _ (put_message-IsSame m x) i
  Step-IsSafe manual (started task hs x) i = same-IsSafe hs x _ (start-IsSame task x) i
  Step-IsSafe manual (stopped hs x) i = record { guarded = λ m h. absurd (Memᴰ.not-nil h) }

  Reach-IsSafe : is_manual cfg.ack_policy ≡ true → {t u : Trace S} → Reach t u → IsSafe t → IsSafe u
  Reach-IsSafe manual here i = i
  Reach-IsSafe manual (next r step) i = Step-IsSafe manual step (Reach-IsSafe manual r i)

  -- Under the manual policy, after any sequence of rounds of `get_one` and of the iterator,
  -- settlements by the user, test messages, starts and stops, whether they return or raise: of the
  -- messages that were handed out since the last stop at most one is not settled, and that one is
  -- the direct message of the subscriber.
  pub Reach-one_unsettled :
      is_manual cfg.ack_policy ≡ true
      → (x y : Consumer S) (hs : List ℕ) (m n : ℕ) → Reach ([], x) (hs, y)
      → Memᴰ m hs
      → Memᴰ n hs
      → status y m ≡ none
      → status y n ≡ none
      → (m ≡ n) × (y.direct_message ≡ some m)
  Reach-one_unsettled manual x y hs m n r hm hn um un =
      let i = Reach-IsSafe manual r (record { guarded = λ k h. absurd (Memᴰ.not-nil h) }) in
      let first = (i.guarded m hm).guarded um in
      let second = (i.guarded n hn).guarded un in
      (let same : some m ≡ some n = sym first ∙ second in cc, first)
