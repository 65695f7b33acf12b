-- ===== src/Exec.antt =====
-- Python methods that change state and may raise. What was written before a raise stays written,
-- so the state comes back beside the exception too.
pub mod Hoare
pub mod Deadline
use faststream_mq.Base.{Bool, true, false, Option, none, some, List, [], ◌∷◌}
use faststream_mq.Errors.{Exc, Result, ok, err, assertion_error}

abbrev pub Exec {ℓ} : Type ℓ → Type ℓ → Type ℓ
Exec S A = S → Result A × S

module _ {ℓ} {S A : Type ℓ} where
  unfoldable pub gets : (S → A) → Exec S A
  gets read s = (ok (read s), s)

  unfoldable pub pure : A → Exec S A
  pure a s = (ok a, s)

  unfoldable pub raise : Exc → Exec S A
  raise e s = (err e, s)

  unfoldable pub lift : Result A → Exec S A
  lift r s = (r, s)

  -- `assert value is not None`, with the value
  unfoldable pub assert_some : Option A → Exec S A
  assert_some none s = (err assertion_error, s)
  assert_some (some a) s = (ok a, s)

  abbrev catch : Result A → (Exc → Exec S A) → Exec S A
  catch (ok a) handler s = (ok a, s)
  catch (err e) handler s = handler e s

  -- `try: m  except Exception as e: handler(e)`; where `m` may raise what is no `Exception`, the
  -- handler tests it
  unfoldable pub try_except : Exec S A → (Exc → Exec S A) → Exec S A
  unfolding raise
  try_except m handler s = let (r, s') = m s in catch r handler s'

abbrev after {ℓ} : {A B : Type ℓ} → Result A → Result B → Result A
after r (ok b) = r
after r (err e) = err e

module _ {ℓ} {S A B : Type ℓ} where
  abbrev continue : Result A → (A → Exec S B) → Exec S B
  continue (ok a) f s = f a s
  continue (err e) f s = (err e, s)

  infixl 5 ◌>>=◌ ◌>>◌
  -- opening this opens every way to build a method
  unfoldable pub ◌>>=◌ : Exec S A → (A → Exec S B) → Exec S B
  unfolding pure raise lift gets assert_some try_except
  ◌>>=◌ m f s = let (r, s') = m s in continue r f s'

  abbrev pub ◌>>◌ : Exec S A → Exec S B → Exec S B
  m >> n = m >>= λ _. n

  -- `try: m  finally: cleanup`: an exception of the clean-up replaces the result
  unfoldable pub finally : Exec S A → Exec S B → Exec S A
  finally m cleanup s = let (r, s') = m s in let (r', s'') = cleanup s' in (after r r', s'')

module _ {ℓ} {S A B : Type ℓ} where
  -- `if value is not None: f(value)  else: m`
  unfoldable pub if_some : Option A → (A → Exec S B) → Exec S B → Exec S B
  if_some none f m = m
  if_some (some a) f m = f a

module _ {ℓ} {S : Type ℓ} where
  unfoldable pub modify : (S → S) → Exec S (Unit {ℓ})
  modify f s = (ok tt, f s)

  -- `if test: m`
  unfoldable pub when : Bool → Exec S (Unit {ℓ}) → Exec S (Unit {ℓ})
  unfolding pure
  when true m = m
  when false m = pure tt

  -- `if value is not None: f(value)`
  unfoldable pub for_some : {A : Type ℓ} → Option A → (A → Exec S (Unit {ℓ})) → Exec S (Unit {ℓ})
  unfolding pure
  for_some none f = pure tt
  for_some (some a) f = f a

  -- `try: m  except Exception: pass`
  unfoldable pub ignore_errors : Exec S (Unit {ℓ}) → Exec S (Unit {ℓ})
  unfolding try_except pure
  ignore_errors m = try_except m (λ e. pure tt)

  -- `for x in xs: f(x)`
  unfoldable pub for_each : {A : Type ℓ} → List A → (A → Exec S (Unit {ℓ})) → Exec S (Unit {ℓ})
  unfolding ◌>>=◌
  for_each [] f = pure tt
  for_each (x ∷ xs) f = f x >>= λ _. for_each xs f

-- A method with a local variable that its clean-up reads: `v` is the variable's first value.
module _ {ℓ} {S V A : Type ℓ} where
  unfoldable pub on_state : Exec S A → Exec (S × V) A
  on_state m sv = let (r, s') = m sv.0 in (r, (s', sv.1))

  -- `try: m  finally: cleanup(v)`
  unfoldable pub finally_with : V → Exec (S × V) A → (V → Exec S (Unit {ℓ})) → Exec S A
  finally_with v m cleanup s =
      let (r, sv) = m (s, v) in let (r', s'') = cleanup sv.1 sv.0 in (after r r', s'')

module _ {ℓ} {S V : Type ℓ} where
  -- an assignment to the local variable
  unfoldable pub assign : (V → V) → Exec (S × V) (Unit {ℓ})
  assign f sv = (ok tt, (sv.0, f sv.1))
