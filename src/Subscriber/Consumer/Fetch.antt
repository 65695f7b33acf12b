-- ===== src/Subscriber/Consumer/Fetch.antt =====
-- What the guard lets through, and what a fetch leaves of the store of messages.
use faststream_mq.Base.{
  ℕ, suc, ◌≤◌, ◌<◌, ◌≡◌, ◌≢◌, refl, ap, ◌∙◌, Option, none, some, [], ◌∷◌, arith, ◌⊎◌, inl, inr,
  Bool-cases, Option-cases,
}
use faststream_mq.Errors.{Exc, Result, ok, err}
use faststream_mq.Exec.{raise, modify, if_some, for_some, ◌>>=◌}
use faststream_mq.Exec.Hoare.{run-cases}
use faststream_mq.Connection.Message.{AckStatus, MqRawMessage}
use faststream_mq.Subscriber.Consumer.{
  Consumer, Calls, Settings, ensure_no_unsettled_direct_message, fetch, on_world, new_message,
  stored, unsettled_error,
}

-- the status of the message `n`
abbrev pub status : {S : Type 0} → Consumer S → ℕ → Option AckStatus
status x n = (x.messages n).settled

-- A message that was handed out is one of the store, and it is settled or it is the direct message.
pub record IsGuarded {S : Type 0} (x : Consumer S) (n : ℕ) : Type 0 where
  pub known : n < x.next
  pub guarded : status x n ≡ none → x.direct_message ≡ some n

module _ {S : Type 0} where
  -- the guard lets through what has no unsettled direct message, and keeps the store
  pub record IsPassed (x y : Consumer S) : Type 0 where
    pub messages : y.messages ≡ x.messages
    pub next : y.next ≡ x.next
    pub settled : (n : ℕ) → x.direct_message ≡ some n → status x n ≢ none

  ensure-cases :
      (x : Consumer S)
      → let (r, y) = ensure_no_unsettled_direct_message x in
        ((r ≡ ok tt) × IsPassed x y) ⊎ ((e : Exc) × (r ≡ err e) × (y ≡ x))
  unfolding ensure_no_unsettled_direct_message for_some modify raise
  ensure-cases x = elim (Option-cases x.direct_message) [
    | inl n ↦
        inl (
          ground arith,
          record { messages = ground arith; next = ground arith; settled = λ m e. cc },
        )
    | inr (m, n) ↦ elim (Option-cases (status x m)) [
      | inl u ↦ inr (unsettled_error, ground arith, ground arith)
      | inr (v, u) ↦ inl (
        ground arith,
        record {
          messages = ground arith;
          next = ground arith;
          settled = λ k e f. ground (arith, e, n, f, u);
        },
      )
    ]
  ]

  pub ensure-IsPassed :
      (x y : Consumer S) → ensure_no_unsettled_direct_message x ≡ (ok tt, y) → IsPassed x y
  ensure-IsPassed x y h = elim (ensure-cases x) [
    | inl (r, p) ↦ rw h at p
    | inr (e, r, same) ↦ absurd (let k = simp h at r in cc)
  ]

  pub ensure-refused :
      (x y : Consumer S) (f : Exc) → ensure_no_unsettled_direct_message x ≡ (err f, y) → y ≡ x
  ensure-refused x y f h = elim (ensure-cases x) [
    | inl (r, p) ↦ absurd (let k = simp h at r in cc)
    | inr (e, r, same) ↦ rw h at same
  ]

module _ {S : Type 0} (c : Calls S) (cfg : Settings) where
  -- what a fetch leaves alone, and what it gives
  pub record IsFetched (x : Consumer S) (r : Result (Option ℕ)) (y : Consumer S) : Type 0 where
    pub known : x.next ≤ y.next
    pub kept : (m : ℕ) → m < x.next → y.messages m ≡ x.messages m
    pub given : (n : ℕ) → r ≡ ok (some n) → (n ≡ x.next) × (y.next ≡ suc n)

  no_message :
      (x y : Consumer S) (r : Result (Option ℕ))
      → y.messages ≡ x.messages
      → y.next ≡ x.next
      → ((n : ℕ) → r ≢ ok (some n))
      → IsFetched x r y
  no_message x y r messages next none_given = record {
    known = omega arith;
    kept = λ m l. ap (λ f. f m) messages;
    given = λ n e. absurd (none_given n e);
  }

  one_message :
      (x y : Consumer S) (raw : MqRawMessage)
      → y.messages ≡ stored x.next raw x.messages
      → y.next ≡ suc x.next
      → IsFetched x (ok (some x.next)) y
  one_message x y raw messages next = record {
    known = omega arith;
    kept = λ m l. ap (λ f. f m) messages ∙ ground arith;
    given = λ n e. ground arith;
  }

  pub fetch-IsFetched : (x : Consumer S) → IsFetched x (fetch c cfg x).0 (fetch c cfg x).1
  unfolding fetch if_some ◌>>=◌ on_world new_message modify
  fetch-IsFetched x = elim (Option-cases x.test_messages) [
    | inr ([], b) ↦ simp b (no_message x x _ refl refl (λ n e. cc))
    | inr (m ∷ ms, b) ↦ simp b (one_message x _ m refl refl)
    | inl b ↦ elim (Bool-cases x.consumer) [
      | inr n ↦ simp (b, n) (no_message x x _ refl refl (λ n e. cc))
      | inl y ↦ elim (run-cases c.get_message x.world) [
        | inr (e, w, r) ↦ simp (b, y, r) (no_message x _ _ refl refl (λ n e. cc))
        | inl (none, w, r) ↦ simp (b, y, r) (no_message x _ _ refl refl (λ n e. cc))
        | inl (some m, w, r) ↦ simp (b, y, r) (one_message x _ m refl refl)
      ]
    ]
  ]
