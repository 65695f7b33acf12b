-- ===== src/Connection/Properties/Reading.antt =====
-- The loop of `_read_headers` on properties that the library serves one after another.
use faststream_mq.Base.{
  ℕ, zero, suc, ◌<◌, ◌≡◌, refl, ◌∙◌, ap, Text, false, Option, none, some, List, [], ◌∷◌, Dict,
  lookup, insert, lookup-insert, or_else, text_eq_iff, length, arith, inl, inr,
}
use faststream_mq.Errors.{Result, ok}
use faststream_mq.Exec.Hoare.{run-cases}
use faststream_mq.Values.{Value}
use faststream_mq.Exec.{pure, lift, if_some, ◌>>=◌}
use faststream_mq.Native.{
  Env, Event, answered, failed, mqmi_fault, InquireOption, inq_first, inq_next, get_property,
}
use faststream_mq.Headers.{property_name_from_header, normalize_property_value}
use faststream_mq.Headers.RoundTrip.{is_ambiguous, header_name-roundtrip}
use faststream_mq.Connection.State.{State}
use faststream_mq.Connection.Message.{mq_str}
use faststream_mq.Connection.Consume.{inquire, read_headers_from, read_headers}
use faststream_mq.Connection.Properties.{
  Serves, no_more, found, found_long, found_without_length, asked, inquire-found, inquire-no_more,
  inquire-found_long, inquire-without_length,
}

-- the headers that are read, one after another, into a dictionary
abbrev pub read_into : (Value → Text) → Dict Value → Dict Value → Dict Value
read_into dumps [] d = d
read_into dumps ((k, v) ∷ e) d = read_into dumps e (insert k (normalize_property_value dumps v) d)

-- no name is spelled like another name's property
abbrev pub AllPlain : Dict Value → Type 0
AllPlain [] = Unit {0}
AllPlain ((k, v) ∷ e) = (is_ambiguous k ≡ false) × AllPlain e

-- as in a dictionary, no name occurs twice
abbrev pub IsDistinct : Dict Value → Type 0
IsDistinct [] = Unit {0}
IsDistinct ((k, v) ∷ e) = (lookup k e ≡ none) × IsDistinct e

-- `_normalize_property_value`, of a value that may be missing
abbrev pub normalized : (Value → Text) → Option Value → Option Value
normalized dumps none = none
normalized dumps (some v) = some (normalize_property_value dumps v)

lookup-read_into :
    (dumps : Value → Text) (j : Text) (e d : Dict Value)
    → IsDistinct e
    → lookup j (read_into dumps e d) ≡ or_else (normalized dumps (lookup j e)) (lookup j d)
unfolding lookup
lookup-read_into dumps j [] d h = refl
lookup-read_into dumps j ((k, v) ∷ e) d h = ground (
  arith,
  lookup-read_into dumps j e (insert k (normalize_property_value dumps v) d) h.1,
  lookup-insert k j (normalize_property_value dumps v) d,
  text_eq_iff k j,
)

pub arrived :
    (dumps : Value → Text) (e : Dict Value) (j : Text)
    → IsDistinct e
    → lookup j (read_into dumps e []) ≡ normalized dumps (lookup j e)
unfolding lookup
arrived dumps e j h = lookup-read_into dumps j e [] h ∙ or_else_none (normalized dumps (lookup j e))
  where
    or_else_none : (o : Option Value) → or_else o none ≡ o
    or_else_none none = refl
    or_else_none (some v) = refl

module _ (env : Env) (h max : ℕ) where
  -- a round that finds a property
  round-found :
      (fuel : ℕ) (o : InquireOption) (k : Text) (v name : Value) (d : Dict Value) (s t : State)
      → is_ambiguous k ≡ false
      → mq_str env name ≡ ok (property_name_from_header k)
      → inquire env h o max s ≡ (ok (some (v, name)), t)
      → read_headers_from env (suc fuel) h max o d s
        ≡ read_headers_from env fuel h max inq_next (insert k v d) t
  unfolding read_headers_from if_some ◌>>=◌ lift
  round-found fuel o k v name d s t plain named e =
      simp (e, named, (header_name-roundtrip k).1 plain)

  -- the round that finds none
  last_round :
      (fuel : ℕ) (o : InquireOption) (d : Dict Value) (s : State) (n : ℕ)
      → env.answer s.log (get_property h o (some max))
        ≡ failed (mqmi_fault env.codes_of.property_not_available n)
      → (read_headers_from env (suc fuel) h max o d s).0 ≡ ok d
  unfolding read_headers_from if_some ◌>>=◌ pure
  last_round fuel o d s n e = elim (run-cases (inquire env h o max) s) [
    | inl (a, t, r) ↦
        let ended : a ≡ none = ground (arith, r, inquire-no_more env h max o s n e) in
        simp (r, ended)
    | inr (f, t, r) ↦ (let k = rw r at (inquire-no_more env h max o s n e) in absurd cc)
  ]

  infixr 5 ◌◁◌
  abbrev ◌◁◌ :
      {r : Result (Dict Value)} {m n : Result (Dict Value) × State} → m ≡ n → n.0 ≡ r → m.0 ≡ r
  p ◁ q = ap (λ (x : Result (Dict Value) × State). x.0) p ∙ q

  read_headers_from-served :
      (fuel : ℕ) (o : InquireOption) (e d : Dict Value) (s : State) (log : List Event)
      → Serves env h max o e log
      → length e < fuel
      → AllPlain e
      → (read_headers_from env fuel h max o d (record s { log = log })).0
        ≡ ok (read_into env.dumps e d)
  read_headers_from-served zero o e d s log served l plain = absurd (omega arith)
  read_headers_from-served (suc fuel) o _ d s log (no_more _ _ n fails) l plain =
      last_round fuel o d (record s { log = log }) n fails
  read_headers_from-served (suc fuel) o _ d s log (found _ _ k v name rest named e served) l plain =
      let value = normalize_property_value env.dumps v in
      let p : Value × Value = (value, name) in
      round-found fuel o k value name d (record s { log = log }) _ plain.0 named
        (inquire-found env h max o (record s { log = log }) p e)
      ◁ read_headers_from-served fuel inq_next rest (insert k value d) s
          (asked h o (some max) (answered p) log) served (omega arith) plain.1
  read_headers_from-served (suc fuel) o _ d s log
        (found_long _ _ k v name len rest other named e f served) l plain =
      let value = normalize_property_value env.dumps v in
      let p : Value × Value = (value, name) in
      round-found fuel o k value name d (record s { log = log }) _ plain.0 named
        (inquire-found_long env h max o (record s { log = log }) p len _ other named e f)
      ◁ read_headers_from-served fuel inq_next rest (insert k value d) s _ served (omega arith)
          plain.1
  read_headers_from-served (suc fuel) o _ d s log
        (found_without_length _ _ k v name rest named e f served) l plain =
      let value = normalize_property_value env.dumps v in
      let p : Value × Value = (value, name) in
      round-found fuel o k value name d (record s { log = log }) _ plain.0 named
        (inquire-without_length env h max o (record s { log = log }) p e f)
      ◁ read_headers_from-served fuel inq_next rest (insert k value d) s _ served (omega arith)
          plain.1

pub read_headers-served :
    (env : Env) (h max fuel : ℕ) (e : Dict Value) (s : State)
    → Serves env h max inq_first e s.log
    → length e < fuel
    → AllPlain e
    → (t : State) × (read_headers env fuel h max s ≡ (ok (read_into env.dumps e []), t))
unfolding read_headers
read_headers-served env h max fuel e s served l plain =
    let r = read_headers_from-served env h max fuel inq_first e [] s s.log served l plain in
    let m = read_headers_from env fuel h max inq_first [] s in
    (m.1, ap (λ (x : Result (Dict Value)). (x, m.1)) r)
