-- ===== src/Connection/Properties.antt =====
-- Headers on their way through IBM MQ: the properties that a publication sets on its message handle,
-- and what `_read_headers` makes of them at the other end.
pub mod Reading
use faststream_mq.Base.{
  ℕ, ◌≡◌, refl, Text, false, true, Option, none, some, List, [], ◌∷◌, Dict, ◌==◌, ==_iff,
}
use faststream_mq.Errors.{ok}
use faststream_mq.Values.{Value}
use faststream_mq.Exec.{pure, raise, lift, try_except, ◌>>=◌}
use faststream_mq.Native.{
  Env, Event, event, Reply, answered, failed, mqmi_fault, type_fault, InquireOption, inq_next,
  inq_prop_under_cursor, get_property,
}
use faststream_mq.Headers.{property_name_from_header, normalize_property_value}
use faststream_mq.Connection.State.{State, native}
use faststream_mq.Connection.Message.{mq_str}
use faststream_mq.Connection.Consume.{
  inquire, inquire_property, inquire_failed, inquire_without_length,
}

-- an inquiry about the next property, and the history after it
abbrev pub asked : ℕ → InquireOption → Option ℕ → Reply (Value × Value) → List Event → List Event
asked h o max r log = event (get_property h o max) r ∷ log

-- The library serves the properties of some headers, in this order, to inquiries on the handle `h`
-- with the length `max`, from the history `log` on. Each is found at once, or under the cursor
-- after a value that was too long, or by a library that does not know the length. Its name is a
-- text or bytes, and may be padded.
pub data Serves (env : Env) (h max : ℕ) : InquireOption → Dict Value → List Event → Type 0 where
  no_more :
      (o : InquireOption) (log : List Event) (n : ℕ)
      → env.answer log (get_property h o (some max))
        ≡ failed (mqmi_fault env.codes_of.property_not_available n)
      → Serves env h max o [] log
  found :
      (o : InquireOption) (log : List Event) (k : Text) (v name : Value) (rest : Dict Value)
      → mq_str env name ≡ ok (property_name_from_header k)
      → env.answer log (get_property h o (some max))
        ≡ answered (normalize_property_value env.dumps v, name)
      → Serves env h max inq_next rest
          (asked h o (some max) (answered (normalize_property_value env.dumps v, name)) log)
      → Serves env h max o ((k, v) ∷ rest) log
  found_long :
      (o : InquireOption) (log : List Event) (k : Text) (v name : Value) (len : ℕ)
      (rest : Dict Value)
      → (env.codes_of.property_value_too_big == env.codes_of.property_not_available) ≡ false
      → mq_str env name ≡ ok (property_name_from_header k)
      → env.answer log (get_property h o (some max))
        ≡ failed (mqmi_fault env.codes_of.property_value_too_big len)
      → env.answer
          (asked h o (some max) (failed (mqmi_fault env.codes_of.property_value_too_big len)) log)
          (get_property h inq_prop_under_cursor (some len))
        ≡ answered (normalize_property_value env.dumps v, name)
      → Serves env h max inq_next rest (
          asked h inq_prop_under_cursor
            (some len)
            (answered (normalize_property_value env.dumps v, name))
            (asked h o
              (some max)
              (failed (mqmi_fault env.codes_of.property_value_too_big len))
              log))
      → Serves env h max o ((k, v) ∷ rest) log
  found_without_length :
      (o : InquireOption) (log : List Event) (k : Text) (v name : Value) (rest : Dict Value)
      → mq_str env name ≡ ok (property_name_from_header k)
      → env.answer log (get_property h o (some max)) ≡ failed type_fault
      → env.answer (asked h o (some max) (failed type_fault) log) (get_property h o none)
        ≡ answered (normalize_property_value env.dumps v, name)
      → Serves env h max inq_next rest (
          asked h o none
            (answered (normalize_property_value env.dumps v, name))
            (asked h o (some max) (failed type_fault) log))
      → Serves env h max o ((k, v) ∷ rest) log

module _ (env : Env) (h max : ℕ) where
  pub inquire-found :
      (o : InquireOption) (s : State) (p : Value × Value)
      → env.answer s.log (get_property h o (some max)) ≡ answered p
      → inquire env h o max s
        ≡ (ok (some p), record s { log = asked h o (some max) (answered p) s.log })
  unfolding inquire inquire_property native try_except ◌>>=◌ pure
  inquire-found o s p e = simp e

  pub inquire-no_more :
      (o : InquireOption) (s : State) (n : ℕ)
      → env.answer s.log (get_property h o (some max))
        ≡ failed (mqmi_fault env.codes_of.property_not_available n)
      → (inquire env h o max s).0 ≡ ok none
  unfolding inquire inquire_property inquire_failed inquire_without_length native try_except ◌>>=◌
      pure raise
  inquire-no_more o s n e =
      let code = env.codes_of.property_not_available in
      let same : (code == code) ≡ true = (==_iff code code).1 refl in simp (e, same)

  pub inquire-found_long :
      (o : InquireOption) (s : State) (p : Value × Value) (len : ℕ) (t : Text)
      → let too_big = failed (mqmi_fault env.codes_of.property_value_too_big len) in
        (env.codes_of.property_value_too_big == env.codes_of.property_not_available) ≡ false
        → mq_str env p.1 ≡ ok t
        → env.answer s.log (get_property h o (some max)) ≡ too_big
        → env.answer
            (asked h o (some max) too_big s.log)
            (get_property h inq_prop_under_cursor (some len))
          ≡ answered p
        → inquire env h o max s ≡ (
          ok (some p),
          record s {
            log =
                asked h inq_prop_under_cursor
                  (some len)
                  (answered p)
                  (asked h o (some max) too_big s.log);
          },
        )
  unfolding inquire inquire_property inquire_failed inquire_without_length native try_except ◌>>=◌
      pure raise lift
  inquire-found_long o s p len t other named e f =
      let code = env.codes_of.property_value_too_big in
      let same : (code == code) ≡ true = (==_iff code code).1 refl in
      simp (e, other, same, f, named)

  pub inquire-without_length :
      (o : InquireOption) (s : State) (p : Value × Value)
      → env.answer s.log (get_property h o (some max)) ≡ failed type_fault
      → env.answer (asked h o (some max) (failed type_fault) s.log) (get_property h o none)
        ≡ answered p
      → inquire env h o max s ≡ (
        ok (some p),
        record s {
          log = asked h o none (answered p) (asked h o (some max) (failed type_fault) s.log);
        },
      )
  unfolding inquire inquire_property inquire_failed inquire_without_length native try_except ◌>>=◌
      pure raise
  inquire-without_length o s p e f = simp (e, f)
