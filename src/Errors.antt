-- ===== src/Errors.antt =====
-- Python exceptions as values: what the package raises itself, what its handlers tell apart, and
-- the results of calls that may raise.
use faststream_mq.Base.{ℕ, ◌≡◌, refl, ◌⊎◌, inl, inr, Text, Bool, true, false}

pub data Exc : Type 0 where
  -- `mq.MQMIError`, with its `reason` and its `data_length`
  mqmi_error : ℕ → ℕ → Exc
  value_error runtime_error setup_error : Text → Exc
  import_error assertion_error type_error timeout_error not_implemented_error : Exc
  -- what a handler raises to settle its message by hand, and to end the consumer
  ack_message nack_message reject_message stop_consume : Exc
  -- no subclasses of `Exception`
  cancelled_error system_exit : Exc
  -- faststream's `SubscriberNotFound`
  subscriber_not_found : Exc
  -- any other exception
  other_error : ℕ → Exc

pub data Result {ℓ} (A : Type ℓ) : Type ℓ where
  ok : A → Result A
  err : Exc → Result A

infixl 5 ◌>>=◌
abbrev pub ◌>>=◌ {ℓ κ} : {A : Type ℓ} {B : Type κ} → Result A → (A → Result B) → Result B
ok a >>= f = f a
err e >>= f = err e

-- whether `except Exception` catches it
abbrev pub is_exception : Exc → Bool
is_exception cancelled_error = false
is_exception system_exit = false
is_exception e = true

pub Result-cases {ℓ} :
    {A : Type ℓ} → (r : Result A) → ((a : A) × (r ≡ ok a)) ⊎ ((e : Exc) × (r ≡ err e))
Result-cases (ok a) = inl (a, refl)
Result-cases (err e) = inr (e, refl)

pub ok-injective {ℓ} : {A : Type ℓ} → (a b : A) → ok a ≡ ok b → a ≡ b
ok-injective a b h = cc

-- a bind that succeeds does so for a value of its first half
pub bind-ok {ℓ κ} :
    {A : Type ℓ} {B : Type κ}
    → (r : Result A) (f : A → Result B) (b : B) → r >>= f ≡ ok b
    → (a : A) × (f a ≡ ok b)
bind-ok (ok a) f b h = (a, h)
bind-ok (err e) f b h = absurd cc
