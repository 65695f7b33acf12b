-- ===== src/Connection/Reasons.antt =====
-- helpers/client.py: which failures are worth a new connection, and the reconnect modes.
use faststream_mq.Base.{
  ℕ, zero, suc, Text, Bool, false, Option, some, none, codes, contains, List, [], ◌∷◌,
  if◌then◌else◌, ◌++◌, text_eq,
}
use faststream_mq.Errors.{Exc, Result, ok, err, mqmi_error, value_error}
use faststream_mq.Native.{Env, Codes}

-- `_is_reconnectable_reason`
abbrev reconnectable_reasons : Codes → List ℕ
reconnectable_reasons c =
    c.connection_broken
    ∷ c.hconn_error
    ∷ c.q_mgr_not_available
    ∷ c.host_not_available
    ∷ c.reconnecting
    ∷ c.reconnected
    ∷ c.reconnect_failed
    ∷ c.call_interrupted
    ∷ c.reconnect_q_mgr_reqd
    ∷ c.reconnect_timed_out
    ∷ elim c.ssl_initialization_error [ none ↦ [] | some zero ↦ [] | some (suc n) ↦ suc n ∷ [] ]

unfoldable pub is_reconnectable_reason : Codes → ℕ → Bool
is_reconnectable_reason c reason = contains (reconnectable_reasons c) reason

-- `is_retryable_mq_exception`; only an `MQMIError` has a numeric reason
-- whether `_run_with_reconnect_sync` goes on after the exception of the first call
unfoldable pub is_reconnectable : Env → Exc → Bool
unfolding is_reconnectable_reason
is_reconnectable env (mqmi_error reason data_length) = is_reconnectable_reason env.codes_of reason
is_reconnectable env e = false

unfoldable pub is_retryable_mq_exception : Env → Exc → Bool
unfolding is_reconnectable_reason
is_retryable_mq_exception env (mqmi_error reason data_length) =
    if env.available then is_reconnectable_reason env.codes_of reason else false
is_retryable_mq_exception env e = false

abbrev unknown_mode : {A : Type 0} → Text → Result A
unknown_mode mode = err (value_error (codes "Unknown MQ reconnect mode: " ++ mode))

-- `_cno_reconnect_option`
unfoldable pub cno_reconnect_option : Codes → Text → Result ℕ
cno_reconnect_option c mode =
    if text_eq mode (codes "as_def")
    then ok c.cno_reconnect_as_def
    else if text_eq mode (codes "disabled")
    then ok c.cno_reconnect_disabled
    else if text_eq mode (codes "reconnect")
    then ok c.cno_reconnect
    else if text_eq mode (codes "qmgr")
    then ok c.cno_reconnect_q_mgr
    else unknown_mode mode

-- `_cd_reconnect_default`
unfoldable pub cd_reconnect_default : Codes → Text → Result (Option ℕ)
cd_reconnect_default c mode =
    if text_eq mode (codes "as_def")
    then ok none
    else if text_eq mode (codes "disabled")
    then ok (some c.rcn_disabled)
    else if text_eq mode (codes "reconnect")
    then ok (some c.rcn_yes)
    else if text_eq mode (codes "qmgr")
    then ok (some c.rcn_q_mgr)
    else unknown_mode mode
