-- ===== src/Subscriber/Consumer/Loop/Turn.antt =====
-- One turn of the loop, from `get_message` on.
use faststream_mq.Base.{
  ℕ, suc, ◌≤◌, ◌<◌, ◌≡◌, ◌≢◌, refl, ap, ◌∙◌, subst, true, not, ◌&&◌, none, some, arith, is_some,
  ◌⊎◌, inl, inr, Bool-cases,
}
use faststream_mq.Errors.{is_exception}
use faststream_mq.Exec.{if_some, try_except, ◌>>=◌}
use faststream_mq.Exec.Hoare.{run-cases}
use faststream_mq.Subscriber.Consumer.{
  Consumer, Calls, Settings, is_manual, on_world, new_message, consume,
}
use faststream_mq.Subscriber.Consumer.Loop.{
  Phase, at_top, ended, waiting, phase_after, is_done, receive_next, take_message, take_turn,
}
use faststream_mq.Subscriber.Consumer.Loop.Kept.{consume-Holds}

-- a message that is taken is done, or waited for, unless the loop has ended
abbrev pub IsLeft : {S : Type 0} → Phase → Consumer S → ℕ → Type 0
IsLeft p y m = (p ≡ ended) ⊎ (p ≡ waiting m) ⊎ (is_done (y.messages m) ≡ true)

-- the end of a turn on the messages from `k` on: each one it has taken is done, or waited for,
-- unless the loop has ended
pub record IsTurn {S : Type 0} (x : Consumer S) (p : Phase) (y : Consumer S) : Type 0 where
  pub known : x.next ≤ y.next
  pub kept : (m : ℕ) → m < x.next → y.messages m ≡ x.messages m
  pub taken : (m : ℕ) → x.next ≤ m → m < y.next → IsLeft p y m

module _ {S : Type 0} (c : Calls S) (cfg : Settings) where
  -- a turn that takes nothing
  idle-IsTurn :
      (x y : Consumer S) (p : Phase) → y.next ≡ x.next → y.messages ≡ x.messages → IsTurn x p y
  idle-IsTurn x y p next same = record {
    known = omega arith;
    kept = λ m l. ap (λ f. f m) same;
    taken = λ m l u. absurd (omega arith);
  }

  consume-kept :
      (n m : ℕ) (x : Consumer S)
      → m ≢ n
      → ((consume c cfg n x).1.next ≡ x.next) × ((consume c cfg n x).1.messages m ≡ x.messages m)
  consume-kept n m x d =
      let h =
        (consume-Holds c cfg x.next m (x.messages m) n d).at x
          (record { next = refl; held = refl }) in
      (h.next, h.held)

  take_message-phase :
      is_manual cfg.ack_policy ≡ true
      → (n : ℕ) (x : Consumer S)
      → let (r, y) = take_message c cfg n x in
        (y ≡ (consume c cfg n x).1) × IsLeft (phase_after r) y n
  unfolding take_message ◌>>=◌
  take_message-phase manual n x = elim (run-cases (consume c cfg n) x) [
    | inr (e, y, r) ↦ simp r (refl, inl refl)
    | inl (u, y, r) ↦ elim (Bool-cases (is_some (y.messages n).settled)) [
      | inl s ↦ simp (r, manual, s) (refl, inr (inr refl))
      | inr s ↦ simp (r, manual, s) (refl, inr (inl refl))
    ]
  ]

  take_message-IsTurn :
      is_manual cfg.ack_policy ≡ true
      → (x z : Consumer S) → z.next ≡ suc x.next
      → ((m : ℕ) → m < x.next → z.messages m ≡ x.messages m)
      → IsTurn x (phase_after (take_message c cfg x.next z).0) (take_message c cfg x.next z).1
  take_message-IsTurn manual x z next before =
      let (same, phase) = take_message-phase manual x.next z in
      let after = (consume-kept x.next (suc x.next) z (λ e. omega arith)).0 in
      let after_next : (take_message c cfg x.next z).1.next ≡ suc x.next =
        ap (λ y. y.next) same ∙ after ∙ next in
      record {
        known = omega arith;
        kept = λ m l.
            ap (λ y. y.messages m) same
            ∙ (consume-kept x.next m z (λ e. omega arith)).1
            ∙ before m l;
        taken = λ m l u.
            let here : x.next ≡ m = omega arith in
            subst
              (IsLeft (phase_after (take_message c cfg x.next z).0) (take_message c cfg x.next z).1)
              here phase;
      }

  pub take_turn-IsTurn :
      is_manual cfg.ack_policy ≡ true
      → (x : Consumer S) → IsTurn x (phase_after (take_turn c cfg x).0) (take_turn c cfg x).1
  unfolding take_turn receive_next ◌>>=◌ if_some try_except on_world new_message
  take_turn-IsTurn manual x = elim (run-cases c.get_message x.world) [
    | inr (e, w, r) ↦ elim (Bool-cases (is_exception e && not x.running)) [
      | inl y ↦ simp (r, y) (idle-IsTurn x _ ended refl refl)
      | inr n ↦ simp (r, n) (idle-IsTurn x _ ended refl refl)
    ]
    | inl (none, w, r) ↦ simp r (idle-IsTurn x _ at_top refl refl)
    | inl (some raw, w, r) ↦ simp r (take_message-IsTurn manual x _ refl (λ m l. ground arith))
  ]
