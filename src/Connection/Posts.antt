-- ===== src/Connection/Posts.antt =====
-- What is known of the messages put, for each way that a part of `request` may end.
use faststream_mq.Base.{ℕ, suc, refl, ◌≤◌, arith, Option, some, none}
use faststream_mq.Errors.{Exc, Result, ok, err, mqmi_error}
use faststream_mq.Exec.{Exec}
use faststream_mq.Exec.Hoare.{Keeps}
use faststream_mq.Connection.State.{State}
use faststream_mq.Connection.Log.{Count, total, put_done}

-- one message more than `n`, or none more
pub record AtMostOne (n : ℕ) (s : State) : Type 0 where
  pub lower : n ≤ total put_done s.log
  pub upper : total put_done s.log ≤ suc n

-- How an attempt ends: a returned one has put its message, one that fails with an `MQMIError` has
-- put none.
abbrev pub TriedErr : ℕ → Exc → State → Type 0
TriedErr n (mqmi_error reason len) s = Count put_done n s
TriedErr n e s = AtMostOne n s

abbrev pub Tried : {A : Type 0} → ℕ → Result A → State → Type 0
Tried n (ok a) s = Count put_done (suc n) s
Tried n (err e) s = TriedErr n e s

pub Tried-raised : (n : ℕ) (e : Exc) (s : State) → Count put_done n s → TriedErr n e s
Tried-raised n (mqmi_error reason len) s h = h
Tried-raised n _ s h = record { lower = omega (arith, h.is); upper = omega (arith, h.is) }

-- How a round of the loop ends: `some` is the request that was put, `none` is to try again.
abbrev pub Round : {A : Type 0} → ℕ → Result (Option A) → State → Type 0
Round n (ok (some a)) s = Count put_done (suc n) s
Round n (ok none) s = Count put_done n s
Round n (err e) s = AtMostOne n s

pub AtMostOne-Count : (n : ℕ) (s : State) → Count put_done n s → AtMostOne n s
AtMostOne-Count n s c = record { lower = omega (arith, c.is); upper = omega (arith, c.is) }

pub AtMostOne-Count-suc : (n : ℕ) (s : State) → Count put_done (suc n) s → AtMostOne n s
AtMostOne-Count-suc n s c = record { lower = omega (arith, c.is); upper = omega (arith, c.is) }

pub AtMostOne-TriedErr : (n : ℕ) (e : Exc) (s : State) → TriedErr n e s → AtMostOne n s
AtMostOne-TriedErr n (mqmi_error reason len) s h = AtMostOne-Count n s h
AtMostOne-TriedErr n _ s h = h

pub AtMostOne-Round :
    {A : Type 0} (n : ℕ) (r : Result (Option A)) (s : State) → Round n r s → AtMostOne n s
AtMostOne-Round n (ok (some a)) s c = AtMostOne-Count-suc n s c
AtMostOne-Round n (ok none) s c = AtMostOne-Count n s c
AtMostOne-Round n (err e) s c = c

-- A method that puts nothing keeps the bound.
pub Keeps-AtMostOne :
    {A : Type 0} (n : ℕ) (m : Exec State A)
    → ((k : ℕ) → Keeps (Count put_done k) m)
    → Keeps (AtMostOne n) m
Keeps-AtMostOne n m km = record {
  at = λ s h.
      let c = (km (total put_done s.log)).at s (record { is = refl }) in
      record { lower = omega (arith, c.is, h.lower); upper = omega (arith, c.is, h.upper) };
}

-- How `request` ends: one message was put if it returns, and one at most if it raises.
abbrev pub Requested : {A : Type 0} → ℕ → Result A → State → Type 0
Requested n (ok a) s = Count put_done (suc n) s
Requested n (err e) s = AtMostOne n s

pub AtMostOne-Requested :
    {A : Type 0} (n : ℕ) (r : Result A) (s : State) → Requested n r s → AtMostOne n s
AtMostOne-Requested n (ok a) s c = AtMostOne-Count-suc n s c
AtMostOne-Requested n (err e) s c = c

abbrev pub PutPost : {A : Type 0} → ℕ → Result A → State → Type 0
PutPost n (ok a) s = Count put_done (suc n) s
PutPost n (err e) s = Count put_done n s
