-- ===== src/Runtime/Tests.antt =====
-- The law of runtime.py on a host whose names `str.lower` is tabulated for.
use faststream_mq.Base.{
  ◌≡◌, refl, ◌↔◌, true, false, Bool, none, ◌||◌, Text, codes, text_eq, strip, lstrip, is_space,
  if◌then◌else◌,
}
use faststream_mq.Errors.{ok}
use faststream_mq.Runtime.{
  Host, get_mq_platform_warning, is_mq_supported_platform, ensure_mq_runtime_available,
  is_mq_runtime_available,
}
use faststream_mq.Runtime.Laws.{ensure_mq_runtime_available_iff}

-- the names that the tests use, in lower case; any other text is read as an unknown one
abbrev lower_of : Bool → Bool → Text
lower_of windows intel =
    if windows then codes "windows" else if intel then codes "x86_64" else codes "unknown"

abbrev tabulated_lower : Text → Text
tabulated_lower t =
    lower_of (text_eq t (codes "Windows") || text_eq t (codes "windows"))
      (text_eq t (codes "X86_64") || text_eq t (codes "x86_64"))

abbrev windows_host : Host
windows_host = record {
  system = codes "Windows";
  machine = codes "x86_64";
  lower = tabulated_lower;
  import_failure = none;
}

lower_of-kept : (w i : Bool) → tabulated_lower (strip (lower_of w i)) ≡ lower_of w i
unfolding text_eq strip lstrip is_space
lower_of-kept true i = refl
lower_of-kept false true = refl
lower_of-kept false false = refl

lower-windows : tabulated_lower (codes "windows") ≡ codes "windows"
unfolding text_eq
lower-windows = refl

lower-unknown : tabulated_lower (codes "unknown") ≡ codes "unknown"
unfolding text_eq
lower-unknown = refl

ensure_mq_runtime_available_iff_example :
    ((get_mq_platform_warning windows_host none none ≡ none)
      ↔ (is_mq_supported_platform windows_host none none ≡ true))
    × ((ensure_mq_runtime_available windows_host none none ≡ ok tt)
        ↔ (is_mq_runtime_available windows_host none none ≡ true))
    × ((is_mq_runtime_available windows_host none none ≡ true) ↔ (
        (is_mq_supported_platform windows_host none none ≡ true)
        × (windows_host.import_failure ≡ none)))
ensure_mq_runtime_available_iff_example =
    ensure_mq_runtime_available_iff windows_host (λ t. lower_of-kept _ _) lower-unknown
      lower-windows none none
