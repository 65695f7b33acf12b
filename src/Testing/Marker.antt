-- ===== src/Testing/Marker.antt =====
-- `require_mq_runtime` of testing.py, which skips a test where there is no runtime.
use faststream_mq.Base.{
  ◌≡◌, ◌↔◌, Text, codes, Bool, true, not, Option, none, some, text_or, arith, inl, inr, Bool-cases,
}
use faststream_mq.Errors.{ok}
use faststream_mq.Runtime.{Host, available, get_mq_runtime_status, ensure_mq_runtime_available}

-- the arguments of `pytest.mark.skipif`
pub record SkipIf : Type 0 where
  pub condition : Bool
  pub reason : Text

-- `status.reason or "requires IBM MQ runtime"`
abbrev skip_reason : Option Text → Text
skip_reason none = codes "requires IBM MQ runtime"
skip_reason (some t) = text_or t (codes "requires IBM MQ runtime")

-- `_RequireMQRuntime.__call__`
unfoldable pub require_mq_runtime : Host → SkipIf
require_mq_runtime host =
    let status = get_mq_runtime_status host none none in
    record { condition = not (available status); reason = skip_reason (status.reason) }

-- a test runs exactly where the runtime may be used
pub require_mq_runtime_iff :
    (host : Host)
    → ((require_mq_runtime host).condition ≡ not true)
      ↔ (ensure_mq_runtime_available host none none ≡ ok tt)
unfolding require_mq_runtime ensure_mq_runtime_available
require_mq_runtime_iff host = elim (Bool-cases (available (get_mq_runtime_status host none none))) [
  | inl y ↦ ground arith
  | inr n ↦ ground arith
]
