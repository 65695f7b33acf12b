-- ===== src/Runtime.antt =====
-- runtime.py: on which platforms the IBM MQ client library can run, and whether it does here.
pub mod Laws
pub mod Tests
use faststream_mq.Base.{
  ℕ, Text, Bool, true, false, Option, none, some, List, [], ◌∷◌, ◌++◌, codes, is_empty, text_eq,
  text_or, strip, ◌&&◌, ◌||◌, not, if◌then◌else◌, contains_text, is_some,
}
use faststream_mq.Errors.{Result, ok, err, runtime_error}

-- `platform.system()` and `platform.machine()`, `str.lower`, and the outcome of importing `ibmmq`:
-- nothing, or the text of the exception.
pub record Host : Type 0 where
  pub system : Text
  pub machine : Text
  pub lower : Text → Text
  pub import_failure : Option Text

-- `MQRuntimeStatus`
pub record MqRuntimeStatus : Type 0 where
  pub supported_platform : Bool
  pub ibmmq_installed : Bool
  pub reason : Option Text

-- `MQRuntimeStatus.available`
abbrev pub available : MqRuntimeStatus → Bool
available status = status.supported_platform && status.ibmmq_installed

-- `value or default`
abbrev given_or : Option Text → Text → Text
given_or none default = default
given_or (some t) default = text_or t default

-- `_SUPPORTED_NATIVE_CLIENT_PLATFORMS`
abbrev pub supported_platforms : List (Text × List Text)
supported_platforms =
    (codes "linux", codes "x86_64" ∷ codes "amd64" ∷ [])
    ∷ (codes "windows", codes "x86_64" ∷ codes "amd64" ∷ [])
    ∷ []

module _ (host : Host) where
  -- `_normalise_platform_value`
  unfoldable pub normalise_platform_value : Text → Text
  normalise_platform_value value = text_or (host.lower (strip value)) (codes "unknown")

  -- `_normalise_system`
  unfoldable pub normalise_system : Text → Text
  unfolding normalise_platform_value
  normalise_system value =
      let normalised = normalise_platform_value value in
      if contains_text (codes "win32" ∷ codes "cygwin" ∷ codes "msys" ∷ []) normalised
      then codes "windows"
      else normalised

  -- `any(... for ... in platforms)`
  abbrev any_platform : List (Text × List Text) → Text → Text → Bool
  any_platform [] system machine = false
  any_platform ((s, ms) ∷ rest) system machine =
      (text_eq system s && contains_text ms machine) || any_platform rest system machine

  -- `is_mq_supported_platform`
  unfoldable pub is_mq_supported_platform : Option Text → Option Text → Bool
  unfolding normalise_system normalise_platform_value
  is_mq_supported_platform system machine =
      any_platform supported_platforms (normalise_system (given_or system host.system))
        (normalise_platform_value (given_or machine host.machine))

  -- `get_mq_platform_warning`
  unfoldable pub get_mq_platform_warning : Option Text → Option Text → Option Text
  unfolding is_mq_supported_platform
  get_mq_platform_warning system machine =
      let resolved_system = normalise_system (given_or system host.system) in
      let resolved_machine = normalise_platform_value (given_or machine host.machine) in
      if is_mq_supported_platform (some resolved_system) (some resolved_machine)
      then none
      else some (
          codes
            "IBM MQ native client support requires an IBM redistributable C client for the current platform. IBM MQ 9.4 provides native redistributable C clients for linux/x86_64 and windows/x64. Current platform: "
          ++ resolved_system
          ++ codes "/"
          ++ resolved_machine
          ++ codes ".")

  abbrev import_status : Option Text → MqRuntimeStatus
  import_status none = record { supported_platform = true; ibmmq_installed = true; reason = none }
  import_status (some e) = record {
    supported_platform = true;
    ibmmq_installed = false;
    reason = some (
        codes
          "IBM MQ Python runtime is unavailable. Missing module or unloadable module: ibmmq. Import failed: "
        ++ e
        ++ codes
            ". Install faststream-mq on a supported MQ client platform with the IBM MQ native client libraries available.");
  }

  -- `get_mq_runtime_status`
  unfoldable pub get_mq_runtime_status : Option Text → Option Text → MqRuntimeStatus
  unfolding get_mq_platform_warning
  get_mq_runtime_status system machine = elim (get_mq_platform_warning system machine) [
    | none ↦ import_status host.import_failure
    | some warning ↦ record {
      supported_platform = false;
      ibmmq_installed = false;
      reason = some warning;
    }
  ]

  -- `is_mq_runtime_available`
  unfoldable pub is_mq_runtime_available : Option Text → Option Text → Bool
  is_mq_runtime_available system machine = available (get_mq_runtime_status system machine)

  -- `ensure_mq_runtime_available`, with the text `None` of a reason that is missing
  unfoldable pub ensure_mq_runtime_available : Option Text → Option Text → Result (Unit {0})
  ensure_mq_runtime_available system machine =
      let status = get_mq_runtime_status system machine in
      if not (available status)
      then err (runtime_error (elim (status.reason) [ none ↦ codes "None" | some t ↦ t ]))
      else ok tt
