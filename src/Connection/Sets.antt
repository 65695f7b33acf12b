-- ===== src/Connection/Sets.antt =====
-- The properties that a publication sets: one for each header, in order, under its spelled name.
use faststream_mq.Base.{◌≡◌, refl, ℕ, Dict, Text, List, [], ◌∷◌, inl, inr, ◌⊎◌, arith}
use faststream_mq.Errors.{Exc, ok, err}
use faststream_mq.Values.{Value}
use faststream_mq.Exec.{for_each, ◌>>=◌}
use faststream_mq.Native.{Env, Event, event, Reply, answered, failed, Fault, set_property}
use faststream_mq.Headers.{property_name_from_header, normalize_property_value}
use faststream_mq.Connection.State.{State, native, exc_of}
use faststream_mq.Connection.Publish.{set_properties}

-- the history after the properties of some headers were set
abbrev pub set_calls : (Value → Text) → ℕ → Dict Value → List Event → List Event
set_calls dumps h [] log = log
set_calls dumps h ((k, v) ∷ e) log = set_calls dumps h e (
    event (set_property h (property_name_from_header k) (normalize_property_value dumps v))
      (answered tt)
    ∷ log)

Reply-cases :
    {A : Type 0} → (r : Reply A) → ((a : A) × (r ≡ answered a)) ⊎ ((f : Fault) × (r ≡ failed f))
Reply-cases (answered a) = inl (a, refl)
Reply-cases (failed f) = inr (f, refl)

set_property-cases :
    (env : Env) (h : ℕ) (name : Text) (v : Value) (s : State)
    → (native env (set_property h name v) s
        ≡ (ok tt, record s { log = event (set_property h name v) (answered tt) ∷ s.log }))
      ⊎ ((x : Exc) × (t : State) × (native env (set_property h name v) s ≡ (err x, t)))
unfolding native
set_property-cases env h name v s = elim (Reply-cases (env.answer s.log (set_property h name v))) [
  | inl (u, a) ↦ inl (simp a)
  | inr (f, a) ↦
      inr (exc_of f, record s { log = event (set_property h name v) (failed f) ∷ s.log }, simp a)
]

pub set_properties-sets :
    (env : Env) (h : ℕ) (e : Dict Value) (s t : State)
    → set_properties env h e s ≡ (ok tt, t)
    → t.log ≡ set_calls env.dumps h e s.log
unfolding set_properties for_each ◌>>=◌
set_properties-sets env h [] s t r = ground (arith, r)
set_properties-sets env h ((k, v) ∷ e) s t r =
    elim (set_property-cases env h (property_name_from_header k)
      (normalize_property_value env.dumps v) s) [
        | inl a ↦ set_properties-sets env h e _ t (simp a at r)
        | inr (x, u, a) ↦ (let c = simp a at r in absurd cc)
      ]
