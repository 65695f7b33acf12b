-- ===== src/Connection.antt =====
-- helpers/client.py and helpers/tls.py: `AsyncMQConnection`, the one place that talks to IBM MQ.
-- Every method runs on the connection's single worker thread, so the methods of one connection
-- never overlap.
pub mod State
pub mod Tls
pub mod Reasons
pub mod Connect
pub mod Recover
pub mod Message
pub mod Consume
pub mod Publish
pub mod Request
pub mod Log
pub mod Harmless
pub mod Puts
pub mod Posts
pub mod Attempt
pub mod AtMostOnce
pub mod Twice
pub mod Replay
pub mod Syncpoint
pub mod Matched
pub mod Matching
pub mod Properties
pub mod Travel
pub mod Sets
pub mod Api
pub mod Running
pub mod Scope
pub mod Unaddressed
pub mod Retry
pub mod Identity
pub mod Tests
