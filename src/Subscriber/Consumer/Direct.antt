-- ===== src/Subscriber/Consumer/Direct.antt =====
-- Messages that are taken by `get_one` and by the iterator, one unsettled message at a time.
use faststream_mq.Base.{
  ℕ, ◌≤◌, ◌<◌, ◌≡◌, ◌≢◌, refl, sym, ap, ◌∙◌, true, Option, none, some, arith, ◌⊎◌, inl, inr,
  Bool-cases,
}
use faststream_mq.Errors.{Result, ok, is_exception}
use faststream_mq.Exec.{modify, when, if_some, try_except, ◌>>=◌}
use faststream_mq.Exec.Hoare.{run-cases}
use faststream_mq.Subscriber.{settle_unresolved_message}
use faststream_mq.Subscriber.Consumer.{
  Consumer, Calls, Settings, is_manual, ensure_no_unsettled_direct_message, fetch, process_direct,
  iterate_once, on_message, stored, settle_unresolved,
}
use faststream_mq.Subscriber.Consumer.Fetch.{
  status, IsPassed, ensure-IsPassed, ensure-refused, IsFetched, fetch-IsFetched,
}

module _ {S : Type 0} (c : Calls S) (cfg : Settings) where
  -- what the processing of the message `n` leaves alone; under the manual policy the message that it
  -- gives is the direct one
  record IsProcessed (n : ℕ) (x : Consumer S) (r : Result (Option ℕ)) (y : Consumer S)
      : Type 0 where
    next : y.next ≡ x.next
    pub kept : (m : ℕ) → m ≢ n → y.messages m ≡ x.messages m
    given : (m : ℕ) → r ≡ ok (some m) → (m ≡ n) × (y.direct_message ≡ some n)

  process_direct-IsProcessed :
      is_manual cfg.ack_policy ≡ true
      → (n : ℕ) (x : Consumer S)
      → IsProcessed n x (process_direct c cfg n x).0 (process_direct c cfg n x).1
  unfolding process_direct try_except ◌>>=◌ on_message settle_unresolved when modify
  process_direct-IsProcessed manual n x =
      elim (run-cases c.process_msg
        (record { broker = x.world; raw = x.messages n; committed = none })) [
          | inl (u, s, r) ↦
              simp (r, manual)
                (record { next = refl; kept = λ m d. ground arith; given = λ m e. ground arith })
          | inr (e, s, r) ↦ elim (Bool-cases (is_exception e)) [
            | inr k ↦
                simp (r, k)
                  (record { next = refl; kept = λ m d. ground arith; given = λ m e. absurd cc })
            | inl k ↦
                simp (r, k)
                  (elim (run-cases
                    (settle_unresolved_message c.acknowledger c.base cfg.cancelled cfg.ack_policy e)
                    (record {
                      broker = s.broker;
                      raw = stored n s.raw x.messages n;
                      committed = none;
                    })) [
                      | inl (u, t, h) ↦ simp h (record {
                        next = refl;
                        kept = λ m d. ground arith;
                        given = λ m e. absurd cc;
                      })
                      | inr (f, t, h) ↦ simp h (record {
                        next = refl;
                        kept = λ m d. ground arith;
                        given = λ m e. absurd cc;
                      })
                    ])
          ]
        ]

  -- one round: either the guard refuses and nothing happens, or the direct message was settled and
  -- whatever is given is a new message, which is the direct one
  pub record IsRound (x : Consumer S) (r : Result (Option ℕ)) (y : Consumer S) : Type 0 where
    pub known : x.next ≤ y.next
    pub kept : (m : ℕ) → m < x.next → y.messages m ≡ x.messages m
    pub fresh : (n : ℕ) → r ≡ ok (some n) → (n < y.next) × (y.direct_message ≡ some n)
    pub passed : (y ≡ x) ⊎ ((n : ℕ) → x.direct_message ≡ some n → status x n ≢ none)

  refused-IsRound :
      (x y : Consumer S) (t : Result (Option ℕ))
      → y ≡ x
      → ((n : ℕ) → t ≢ ok (some n))
      → IsRound x t y
  refused-IsRound x y t same nothing = record {
    known = rw same (omega arith);
    kept = λ m l. ap (λ z. z.messages m) same;
    fresh = λ n e. absurd (nothing n e);
    passed = inl same;
  }

  -- a round that gives nothing
  quiet-IsRound :
      (x y z : Consumer S) (r t : Result (Option ℕ))
      → IsPassed x y
      → IsFetched c cfg y r z
      → ((n : ℕ) → t ≢ ok (some n))
      → IsRound x t z
  quiet-IsRound x y z r t p f nothing = record {
    known = let l = f.known in let e = p.next in omega arith;
    kept = λ m l. f.kept m (let e = p.next in omega arith) ∙ ap (λ g. g m) p.messages;
    fresh = λ n e. absurd (nothing n e);
    passed = inr p.settled;
  }

  -- a round that processes a message
  busy-IsRound :
      (x y z w : Consumer S) (n : ℕ) (t : Result (Option ℕ))
      → IsPassed x y
      → IsFetched c cfg y (ok (some n)) z
      → IsProcessed n z t w
      → IsRound x t w
  busy-IsRound x y z w n t p f q =
      let (new, after) = f.given n refl in
      let before = p.next in
      let same = q.next in
      record {
        known = omega arith;
        kept =
            λ m l. q.kept m (λ e. omega arith) ∙ f.kept m (omega arith) ∙ ap (λ g. g m) p.messages;
        fresh = λ m e.
            let (is_new, direct) = q.given m e in
            (omega arith, direct ∙ ap (λ i. some i) (sym is_new));
        passed = inr p.settled;
      }

  pub iterate_once-IsRound :
      is_manual cfg.ack_policy ≡ true
      → (x : Consumer S) → IsRound x (iterate_once c cfg x).0 (iterate_once c cfg x).1
  unfolding iterate_once if_some ◌>>=◌
  iterate_once-IsRound manual x = elim (run-cases ensure_no_unsettled_direct_message x) [
    | inr (e, y, r) ↦ simp r (refused-IsRound x y _ (ensure-refused x y e r) (λ n h. cc))
    | inl (u, y, r) ↦ elim (run-cases (fetch c cfg) y) [
      | inr (e, z, k) ↦
          simp (r, k)
            (quiet-IsRound x y z _ _ (ensure-IsPassed x y r) (rw k at (fetch-IsFetched c cfg y))
              (λ n h. cc))
      | inl (none, z, k) ↦
          simp (r, k)
            (quiet-IsRound x y z _ _ (ensure-IsPassed x y r) (rw k at (fetch-IsFetched c cfg y))
              (λ n h. cc))
      | inl (some n, z, k) ↦
          simp (r, k)
            (busy-IsRound x y z _ n _ (ensure-IsPassed x y r) (rw k at (fetch-IsFetched c cfg y))
              (process_direct-IsProcessed manual n z))
    ]
  ]
