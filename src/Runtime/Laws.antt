-- ===== src/Runtime/Laws.antt =====
-- The answers of runtime.py agree with one another.
use faststream_mq.Base.{
  ◌≡◌, refl, ap, subst, true, false, Option, none, some, [], ◌∷◌, arith, Text, codes, text_or,
  strip, lstrip, is_space, Bool-cases, inl, inr, Option-cases, ◌↔◌, contains_text, text_eq,
}
use faststream_mq.Errors.{ok}
use faststream_mq.Runtime.{
  Host, normalise_platform_value, normalise_system, given_or, is_mq_supported_platform,
  get_mq_platform_warning, get_mq_runtime_status, is_mq_runtime_available,
  ensure_mq_runtime_available,
}

text_or-text_or :
    (t d : Text) → text_or (text_or t (codes "unknown")) d ≡ text_or t (codes "unknown")
text_or-text_or [] d = refl
text_or-text_or (c ∷ t) d = refl

module _ (host : Host)
    (lower_strip : (t : Text) → host.lower (strip (host.lower (strip t))) ≡ host.lower (strip t))
    (lower_unknown : host.lower (codes "unknown") ≡ codes "unknown")
    (lower_windows : host.lower (codes "windows") ≡ codes "windows") where
  strip-unknown : strip (codes "unknown") ≡ codes "unknown"
  unfolding strip lstrip is_space
  strip-unknown = refl

  strip-windows : strip (codes "windows") ≡ codes "windows"
  unfolding strip lstrip is_space
  strip-windows = refl

  normalise-of :
      (t l : Text)
      → host.lower (strip t) ≡ l
      → normalise_platform_value host (text_or l (codes "unknown")) ≡ text_or l (codes "unknown")
  unfolding normalise_platform_value
  normalise-of t [] e = rw (strip-unknown, lower_unknown) refl
  normalise-of t (c ∷ l) e =
      ap (λ x. text_or x (codes "unknown"))
        (subst (λ x. host.lower (strip x) ≡ x) e (lower_strip t))

  normalise_platform_value-idempotent :
      (t : Text)
      → normalise_platform_value host (normalise_platform_value host t)
        ≡ normalise_platform_value host t
  unfolding normalise_platform_value
  normalise_platform_value-idempotent t = normalise-of t (host.lower (strip t)) refl

  normalise-windows : normalise_system host (codes "windows") ≡ codes "windows"
  unfolding normalise_system normalise_platform_value contains_text text_eq
  normalise-windows = rw (strip-windows, lower_windows) refl

  normalise_system-idempotent :
      (t : Text) → normalise_system host (normalise_system host t) ≡ normalise_system host t
  unfolding normalise_system
  normalise_system-idempotent t =
      elim (Bool-cases (
        contains_text (codes "win32" ∷ codes "cygwin" ∷ codes "msys" ∷ [])
          (normalise_platform_value host t))) [
            | inl w ↦ rw w normalise-windows
            | inr n ↦ rw (n, normalise_platform_value-idempotent t, n) refl
          ]

  -- no normalised name is empty, so the default is not asked for again
  given_or-value :
      (t d : Text)
      → given_or (some (normalise_platform_value host t)) d ≡ normalise_platform_value host t
  unfolding normalise_platform_value
  given_or-value t d = text_or-text_or (host.lower (strip t)) d

  given_or-system :
      (t d : Text) → given_or (some (normalise_system host t)) d ≡ normalise_system host t
  unfolding normalise_system
  given_or-system t d =
      elim (Bool-cases (
        contains_text (codes "win32" ∷ codes "cygwin" ∷ codes "msys" ∷ [])
          (normalise_platform_value host t))) [
            | inl w ↦ rw w refl
            | inr n ↦ rw n (given_or-value t d)
          ]

  is_mq_supported_platform-normalised :
      (system machine : Option Text)
      → is_mq_supported_platform host
          (some (normalise_system host (given_or system host.system)))
          (some (normalise_platform_value host (given_or machine host.machine)))
        ≡ is_mq_supported_platform host system machine
  unfolding is_mq_supported_platform
  is_mq_supported_platform-normalised system machine =
      rw
        (
          given_or-system _ host.system,
          given_or-value _ host.machine,
          normalise_system-idempotent _,
          normalise_platform_value-idempotent _,
        )
        refl

  supported-warning :
      (system machine : Option Text)
      → is_mq_supported_platform host system machine ≡ true
      → get_mq_platform_warning host system machine ≡ none
  unfolding get_mq_platform_warning
  supported-warning system machine h =
      rw (is_mq_supported_platform-normalised system machine, h) refl

  unsupported-warning :
      (system machine : Option Text)
      → is_mq_supported_platform host system machine ≡ false
      → (w : Text) × (get_mq_platform_warning host system machine ≡ some w)
  unfolding get_mq_platform_warning
  unsupported-warning system machine h =
      elim (Option-cases (get_mq_platform_warning host system machine)) [
        | inl n ↦
            let same = is_mq_supported_platform-normalised system machine in absurd (ground arith)
        | inr w ↦ w
      ]

  -- For a `str.lower` that changes nothing more on its own stripped results, nor on `unknown` and
  -- `windows`: a platform is warned about exactly when it is not supported, although both names are
  -- normalised twice; the runtime is available exactly when the platform is supported and the
  -- library can be imported; and `ensure_mq_runtime_available` returns exactly when it is available.
  pub ensure_mq_runtime_available_iff :
      (system machine : Option Text)
      → ((get_mq_platform_warning host system machine ≡ none)
          ↔ (is_mq_supported_platform host system machine ≡ true))
        × ((ensure_mq_runtime_available host system machine ≡ ok tt)
            ↔ (is_mq_runtime_available host system machine ≡ true))
        × ((is_mq_runtime_available host system machine ≡ true) ↔ (
            (is_mq_supported_platform host system machine ≡ true) × (host.import_failure ≡ none)))
  unfolding get_mq_runtime_status is_mq_runtime_available ensure_mq_runtime_available
  ensure_mq_runtime_available_iff system machine =
      elim (Bool-cases (is_mq_supported_platform host system machine)) [
        | inl p ↦
            let w = supported-warning system machine p in
            elim (Option-cases host.import_failure) [
              | inl i ↦ (((λ h. p), (λ h. w)), ground arith, ground arith)
              | inr (e, i) ↦ (((λ h. p), (λ h. w)), ground arith, ground arith)
            ]
        | inr p ↦
            let w = unsupported-warning system machine p in
            ((λ h. absurd cc, λ h. absurd cc), ground arith, ground arith)
      ]
