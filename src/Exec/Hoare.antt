-- ===== src/Exec/Hoare.antt =====
-- Rules for methods: what a method keeps, whether it returns or raises, and what it ensures of its
-- result. One rule for each way to build a method.
use faststream_mq.Base.{
  ◌≡◌, refl, ap, ◌⊎◌, inl, inr, Bool, true, false, Option, some, none, List, [], ◌∷◌, if◌then◌else◌,
}
use faststream_mq.Errors.{Exc, Result, ok, err, assertion_error, Result-cases}
use faststream_mq.Exec.{
  if_some, Exec, pure, raise, lift, gets, assert_some, try_except, ◌>>=◌, finally, modify, when,
  for_some, ignore_errors, for_each, on_state, assign, finally_with, catch, continue, after,
}

-- how a method ends
pub run-cases {ℓ} :
    {S A : Type ℓ} (m : Exec S A) (s : S)
    → ((a : A) × (t : S) × (m s ≡ (ok a, t))) ⊎ ((e : Exc) × (t : S) × (m s ≡ (err e, t)))
run-cases m s = elim (Result-cases (m s).0) [
  | inl (a, r) ↦ inl (a, (m s).1, ap (λ x. (x, (m s).1)) r)
  | inr (e, r) ↦ inr (e, (m s).1, ap (λ x. (x, (m s).1)) r)
]

-- what holds of a state before the method holds of the state after it, however it ends
pub record Keeps {ℓ} {S A : Type ℓ} (P : S → Type ℓ) (method : Exec S A) : Type ℓ where
  pub at : (before : S) → P before → P (method before).1

-- from a state in `P` the result and the state after it are in `R`
pub record Ensures {ℓ} {S A : Type ℓ} (P : S → Type ℓ) (m : Exec S A) (R : Result A → S → Type ℓ)
    : Type ℓ where
  pub at : (s : S) → P s → R (m s).0 (m s).1

-- the rules for what does not change the state at all
module _ {ℓ} {S A : Type ℓ} {P : S → Type ℓ} where
  pub Keeps-assert_some : (o : Option A) → Keeps P (assert_some o)
  unfolding assert_some
  Keeps-assert_some (some a) = record { at = λ t held. held }
  Keeps-assert_some none = record { at = λ t held. held }

  pub Keeps-gets : (read : S → A) → Keeps P (gets read)
  unfolding gets
  Keeps-gets read = record { at = λ t held. held }

  pub Keeps-pure : (value : A) → Keeps P (pure value)
  unfolding pure
  Keeps-pure value = record { at = λ t held. held }

  pub Keeps-lift : (result : Result A) → Keeps P (lift result)
  unfolding lift
  Keeps-lift result = record { at = λ t held. held }

  pub Keeps-raise : (e : Exc) → Keeps P (raise {A = A} e)
  unfolding raise
  Keeps-raise e = record { at = λ t held. held }

module _ {ℓ} {S A : Type ℓ} {P : S → Type ℓ} where
  pub Keeps-if : (b : Bool) (m n : Exec S A) → Keeps P m → Keeps P n → Keeps P (if b then m else n)
  Keeps-if true m n km kn = km
  Keeps-if false m n km kn = kn

  Keeps-catch :
      (r : Result A) (handler : Exc → Exec S A)
      → ((e : Exc) → Keeps P (handler e))
      → Keeps P (catch r handler)
  Keeps-catch (ok a) handler kh = record { at = λ s h. h }
  Keeps-catch (err e) handler kh = kh e

  pub Keeps-try_except :
      (m : Exec S A) (handler : Exc → Exec S A)
      → Keeps P m
      → ((e : Exc) → Keeps P (handler e))
      → Keeps P (try_except m handler)
  unfolding try_except
  Keeps-try_except m handler km kh = record {
    at = λ s h. let (r, s') = m s in (Keeps-catch r handler kh).at s' (km.at s h);
  }

module _ {ℓ} {S A B : Type ℓ} {P : S → Type ℓ} where
  Keeps-continue :
      (r : Result A) (f : A → Exec S B) → ((a : A) → Keeps P (f a)) → Keeps P (continue r f)
  Keeps-continue (ok a) f kf = kf a
  Keeps-continue (err e) f kf = record { at = λ s h. h }

  pub Keeps-bind :
      (first : Exec S A) (rest : A → Exec S B)
      → Keeps P first
      → ((a : A) → Keeps P (rest a))
      → Keeps P (first >>= rest)
  unfolding ◌>>=◌
  Keeps-bind first rest kept later = record {
    at = λ t held. let (r, t') = first t in (Keeps-continue r rest later).at t' (kept.at t held);
  }

  pub Keeps-finally : (m : Exec S A) (n : Exec S B) → Keeps P m → Keeps P n → Keeps P (finally m n)
  unfolding finally
  Keeps-finally m n km kn = record { at = λ s h. kn.at (m s).1 (km.at s h) }

module _ {ℓ} {S A B : Type ℓ} {P : S → Type ℓ} where
  pub Keeps-if_some :
      (o : Option A) (f : A → Exec S B) (m : Exec S B)
      → ((a : A) → Keeps P (f a))
      → Keeps P m
      → Keeps P (if_some o f m)
  unfolding if_some
  Keeps-if_some none f m kf km = km
  Keeps-if_some (some a) f m kf km = kf a

module _ {ℓ} {S : Type ℓ} {P : S → Type ℓ} where
  pub Keeps-modify : (f : S → S) → ((s : S) → P s → P (f s)) → Keeps P (modify f)
  unfolding modify
  Keeps-modify f kf = record { at = kf }

  pub Keeps-when : (b : Bool) (m : Exec S (Unit {ℓ})) → Keeps P m → Keeps P (when b m)
  unfolding when
  Keeps-when true m km = km
  Keeps-when false m km = Keeps-pure tt

  pub Keeps-for_some :
      {A : Type ℓ} (o : Option A) (f : A → Exec S (Unit {ℓ}))
      → ((a : A) → Keeps P (f a))
      → Keeps P (for_some o f)
  unfolding for_some
  Keeps-for_some none f kf = Keeps-pure tt
  Keeps-for_some (some a) f kf = kf a

  pub Keeps-ignore_errors : (m : Exec S (Unit {ℓ})) → Keeps P m → Keeps P (ignore_errors m)
  unfolding ignore_errors
  Keeps-ignore_errors m km = Keeps-try_except m _ km (λ e. Keeps-pure tt)

  pub Keeps-for_each :
      {A : Type ℓ} (xs : List A) (f : A → Exec S (Unit {ℓ}))
      → ((a : A) → Keeps P (f a))
      → Keeps P (for_each xs f)
  unfolding for_each
  Keeps-for_each [] f kf = Keeps-pure tt
  Keeps-for_each (x ∷ xs) f kf = Keeps-bind (f x) _ (kf x) (λ u. Keeps-for_each xs f kf)

-- Methods with a local variable.
module _ {ℓ} {S V A : Type ℓ} {P : S × V → Type ℓ} where
  pub Keeps-on_state : (m : Exec S A) → ((v : V) → Keeps (λ s. P (s, v)) m) → Keeps P (on_state m)
  unfolding on_state
  Keeps-on_state m km = record { at = λ sv h. (km sv.1).at sv.0 h }

module _ {ℓ} {S V : Type ℓ} {P : S × V → Type ℓ} where
  pub Keeps-assign : (f : V → V) → ((sv : S × V) → P sv → P (sv.0, f sv.1)) → Keeps P (assign f)
  unfolding assign
  Keeps-assign f kf = record { at = kf }

module _ {ℓ} {S V A : Type ℓ} {P : S → Type ℓ} where
  pub Keeps-finally_with :
      (v : V) (m : Exec (S × V) A) (cleanup : V → Exec S (Unit {ℓ}))
      → Keeps (λ (sv : S × V). P sv.0) m
      → ((w : V) → Keeps P (cleanup w))
      → Keeps P (finally_with v m cleanup)
  unfolding finally_with
  Keeps-finally_with v m cleanup km kc = record {
    at = λ s h. (kc (m (s, v)).1.1).at (m (s, v)).1.0 (km.at (s, v) h);
  }

pub ruleset keeps_rules = (
  Keeps-pure, Keeps-raise, Keeps-lift, Keeps-gets, Keeps-assert_some, Keeps-if, Keeps-if_some,
  Keeps-try_except, Keeps-bind, Keeps-finally, Keeps-when, Keeps-for_some, Keeps-ignore_errors,
  Keeps-for_each,
)

module _ {ℓ} {S A B : Type ℓ} {P : S → Type ℓ} {R : Result B → S → Type ℓ} where
  -- a first part that keeps `P`, and may raise
  pub Ensures-bind :
      (m : Exec S A) (f : A → Exec S B)
      → Keeps P m
      → ((e : Exc) (s : S) → P s → R (err e) s)
      → ((a : A) → Ensures P (f a) R)
      → Ensures P (m >>= f) R
  unfolding ◌>>=◌
  Ensures-bind m f km raised kf = record { at = λ s h. let (r, s') = m s in go r s' (km.at s h) }
    where
      go : (r : Result A) (s : S) → P s → R (continue r f s).0 (continue r f s).1
      go (ok a) s h = (kf a).at s h
      go (err e) s h = raised e s h

module _ {ℓ} {S A B : Type ℓ} {P : S → Type ℓ} {Q : Result A → S → Type ℓ}
    {R : Result B → S → Type ℓ} where
  pub Ensures-seq :
      (m : Exec S A) (f : A → Exec S B)
      → Ensures P m Q
      → ((e : Exc) (s : S) → Q (err e) s → R (err e) s)
      → ((a : A) → Ensures (Q (ok a)) (f a) R)
      → Ensures P (m >>= f) R
  unfolding ◌>>=◌
  Ensures-seq m f em raised kf = record { at = λ s h. let (r, s') = m s in go r s' (em.at s h) }
    where
      go : (r : Result A) (s : S) → Q r s → R (continue r f s).0 (continue r f s).1
      go (ok a) s h = (kf a).at s h
      go (err e) s h = raised e s h

module _ {ℓ} {S A : Type ℓ} {P : S → Type ℓ} {Q R : Result A → S → Type ℓ} where
  pub Ensures-try_except :
      (m : Exec S A) (handler : Exc → Exec S A)
      → Ensures P m Q
      → ((a : A) (s : S) → Q (ok a) s → R (ok a) s)
      → ((e : Exc) → Ensures (Q (err e)) (handler e) R)
      → Ensures P (try_except m handler) R
  unfolding try_except
  Ensures-try_except m handler em returned kh = record {
    at = λ s h. let (r, s') = m s in go r s' (em.at s h);
  }
    where
      go : (r : Result A) (s : S) → Q r s → R (catch r handler s).0 (catch r handler s).1
      go (ok a) s h = returned a s h
      go (err e) s h = (kh e).at s h

  pub Ensures-weaken :
      (m : Exec S A) → Ensures P m Q → ((r : Result A) (s : S) → Q r s → R r s) → Ensures P m R
  Ensures-weaken m em w = record { at = λ s h. w (m s).0 (m s).1 (em.at s h) }

module _ {ℓ} {S V A : Type ℓ} {P : S → Type ℓ} {Q R : Result A → S → Type ℓ} where
  -- the clean-up keeps what is known of each result, and may raise in its place
  pub Ensures-finally_with :
      (v : V) (m : Exec (S × V) A) (cleanup : V → Exec S (Unit {ℓ}))
      → Ensures (λ (sv : S × V). P sv.0) m (λ r sv. Q r sv.0)
      → ((w : V) (r : Result A) → Keeps (Q r) (cleanup w))
      → ((r : Result A) (s : S) → Q r s → R r s)
      → ((r : Result A) (e : Exc) (s : S) → Q r s → R (err e) s)
      → Ensures P (finally_with v m cleanup) R
  unfolding finally_with
  Ensures-finally_with v m cleanup em kc same raised = record {
    at = λ s h.
        let (r, sv) = m (s, v) in
        let (r', s') = cleanup sv.1 sv.0 in go r r' s' ((kc sv.1 r).at sv.0 (em.at (s, v) h));
  }
    where
      go : (r : Result A) (r' : Result (Unit {ℓ})) (s : S) → Q r s → R (after r r') s
      go r (ok u) s h = same r s h
      go r (err e) s h = raised r e s h

module _ {ℓ} {S V A : Type ℓ} {P : S × V → Type ℓ} {R : Result A → S × V → Type ℓ} where
  pub Ensures-on_state :
      (m : Exec S A)
      → ((v : V) → Ensures (λ s. P (s, v)) m (λ r s. R r (s, v)))
      → Ensures P (on_state m) R
  unfolding on_state
  Ensures-on_state m em = record { at = λ sv h. (em sv.1).at sv.0 h }

module _ {ℓ} {S A : Type ℓ} {P : S → Type ℓ} {R : Result A → S → Type ℓ} where
  pub Ensures-pure : (a : A) → ((s : S) → P s → R (ok a) s) → Ensures P (pure a) R
  unfolding pure
  Ensures-pure a k = record { at = k }

  pub Ensures-raise : (e : Exc) → ((s : S) → P s → R (err e) s) → Ensures P (raise e) R
  unfolding raise
  Ensures-raise e k = record { at = k }

  pub Ensures-if :
      (b : Bool) (m n : Exec S A)
      → (b ≡ true → Ensures P m R)
      → (b ≡ false → Ensures P n R)
      → Ensures P (if b then m else n) R
  Ensures-if true m n em en = em refl
  Ensures-if false m n em en = en refl

module _ {ℓ} {S A B : Type ℓ} {P : S → Type ℓ} {R : Result B → S → Type ℓ} where
  pub Ensures-assert_some :
      (o : Option A) (f : A → Exec S B)
      → ((s : S) → P s → R (err assertion_error) s)
      → ((a : A) → Ensures P (f a) R)
      → Ensures P (assert_some o >>= f) R
  unfolding ◌>>=◌
  Ensures-assert_some none f raised kf = record { at = raised }
  Ensures-assert_some (some a) f raised kf = record { at = λ s h. (kf a).at s h }

  pub Ensures-gets :
      (g : S → A) (f : A → Exec S B) → ((a : A) → Ensures P (f a) R) → Ensures P (gets g >>= f) R
  unfolding ◌>>=◌
  Ensures-gets g f kf = record { at = λ s h. (kf (g s)).at s h }

  pub Ensures-if_some :
      (o : Option A) (f : A → Exec S B) (m : Exec S B)
      → ((a : A) → Ensures P (f a) R)
      → Ensures P m R
      → Ensures P (if_some o f m) R
  unfolding if_some
  Ensures-if_some none f m ef em = em
  Ensures-if_some (some a) f m ef em = ef a

module _ {ℓ} {S V B : Type ℓ} {P : S × V → Type ℓ} {R : Result B → S × V → Type ℓ} where
  pub Ensures-assign :
      (g : V → V) (f : Unit {ℓ} → Exec (S × V) B)
      → ((sv : S × V) → P sv → P (sv.0, g sv.1))
      → Ensures P (f tt) R
      → Ensures P (assign g >>= f) R
  unfolding ◌>>=◌ assign
  Ensures-assign g f keep ef = record { at = λ sv h. ef.at (sv.0, g sv.1) (keep sv h) }
