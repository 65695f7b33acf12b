-- ===== src/Connection/Matching/Tests.antt =====
-- A request against a library that answers each of its calls.
use faststream_mq.Connection.Request.{request_sync}
use faststream_mq.Connection.Matched.{Matched}
use faststream_mq.Connection.Matching.{ResultIn}
use faststream_mq.Connection.Matching.Returned.{request_sync-Matched}
use faststream_mq.Connection.Tests.{sample_env, sample_command, started_state}

request_sync-Matched_example :
    let (r, t) = request_sync sample_env 8 sample_command started_state in
    ResultIn 0 (Matched 0 sample_env sample_command.destination) r t
request_sync-Matched_example = request_sync-Matched sample_env 8 sample_command started_state
