-- ===== src/Lib.antt =====
-- The core of faststream-mq, a FastStream broker for IBM MQ: the connection client, the message
-- identifiers and headers, the subscribers, the commands of publishers, the producer, the broker
-- with its settings and its life cycle, the registration of subscribers and publishers, the
-- in-memory producer for tests, the checks of the runtime, and the script that waits for queue
-- managers.
--
-- The program's parts, and where they are modelled
-- * faststream_mq/helpers/client.py is `Connection`. `State` has the attributes of
--   `AsyncMQConnection` and the call of the library; `Tls`, `Connect` and `Recover` connect,
--   disconnect and recover; `Consume` has the consumer, `get_message`, `commit` and `backout`;
--   `Publish` and `Request` have `publish` and `request`; `Message` builds the raw message;
--   `Reasons` sorts the reason codes; `Api` lists the methods as steps; `Properties`, `Sets` and
--   `Travel` follow the headers from a publication to its receiver, `Harmless` and `Puts` tell the
--   methods that put and settle nothing, and `Matched` and `Matching` relate a reply to its
--   request, `Twice` and `Replay` say when a publication is made again, and `Unaddressed` is
--   about settings that name no queue manager. A method `_name_sync` is
--   `name_sync` here, the `__name_sync` that it retries is `name_once`, and the body of a `try`, an
--   `except` or a `finally` that is more than a line is a definition of its own. The functions on
--   headers are in `Headers`.
-- * faststream_mq/helpers/ids.py is `Ids`, faststream_mq/tls.py is `Tls`, with its PEM files in
--   `Tls/Pem`, and faststream_mq/helpers/tls.py is `Connection/Tls`.
-- * faststream_mq/response.py is `Command`.
-- * faststream_mq/message.py and faststream_mq/subscriber/usecase.py are `Subscriber`: the
--   settlement of a message, `Startup`, which connects with retries, and `Consumer`, which has
--   `start`, `stop`, `consume`, `get_one`, a round of the iterator and the consume loop. The
--   response publisher is in `Publisher`.
-- * faststream_mq/publisher/usecase.py, publisher/fake.py and schemas.py are `Publisher`.
-- * faststream_mq/publisher/producer.py is `Producer`: two connections that share the log, and the
--   producer of one connection, which `Producer/Reply` has for the reply to a message.
-- * faststream_mq/broker/broker.py, configs/broker.py and security.py are `Broker`: the settings that
--   a broker makes of its arguments, the commands of `publish` and `request`, `_connect`, and
--   `start`, `stop` and `ping` in `Broker/Lifecycle`.
-- * faststream_mq/broker/registrator.py with the factories, configurations and specifications of
--   subscriber/ and publisher/ is `Registration`; broker/router.py is `Registration/Routes`.
-- * faststream_mq/fastapi/fastapi.py is `Fastapi`, and broker/logging.py is `Logging`.
-- * faststream_mq/testing.py is `Testing`: `build_message`, the in-memory producer, and the
--   subscriber that stands for a publisher.
-- * faststream_mq/parser.py, opentelemetry/provider.py and prometheus/provider.py are `Telemetry`.
-- * faststream_mq/runtime.py is `Runtime`, and scripts/wait-mq-ready.py is `Ready`.
-- How they interact: a subscriber settles its message through the connection that it was read from
-- (`MQAcknowledger`), a publisher's command is sent by `publish` or `request` of a connection, and
-- a reply takes its correlation identifier from the message it answers. A broker connects its
-- producer, and its settings are those of every connection; the in-memory producer hands the same
-- commands to the subscribers of the broker. What is registered with a queue meets there: the
-- routing of its subscriber is the destination of its publishers.
--
-- How the code is read
-- * `Exec` is a method: it takes a state, and gives a result or an exception (`Errors`) with the
--   state after it; what was written before an exception stays written. `Exec/Hoare` has the rules
--   by which invariants pass through methods.
-- * The client library `ibmmq`, the file system and `time.sleep` are `Native`: a call is a value, and
--   an environment answers it from the history of the calls before it, with a result or an
--   exception. Nothing else is assumed of it, so a theorem about every environment holds for
--   every fault at every call. The history is the log of the state.
-- * Texts and bytes are lists of code points and byte values, dictionaries are association lists
--   in insertion order (`Base`), durations are whole microseconds.
-- * `json.dumps`, the codec of bytes, `encode_message` and the classes of faststream are parameters.
--
-- * The tasks of asyncio are numbers; `done`, `cancel` and the waiting of `gather` are parameters, and
--   `IsTaskLib` of `Subscriber/Consumer/Stop` states what asyncio documents of them. `stop` is shown to
--   end where none of the subscriber's own tasks runs it, since a task cannot wait for itself.
--
-- Fuel and bounds
-- * `read_headers` reads properties until the library says that there are no more. One round more
--   than there are properties is enough; if the fuel runs out an exception is raised that no
--   code handles, and the theorems about `request` and the life cycle hold for every fuel.
-- * The start-up loop of a subscriber and `_connect` of a broker are `Exec/Deadline`, a loop that
--   tries a method again until a deadline. Its fuel is the number of attempts: one more than the
--   number of attempts after which the deadline has passed is enough. A clock is a function that
--   gives the time of each reading, and the pause between two attempts shows in these only.
-- * The wait of the script for a queue manager has one round of fuel more than there are intervals in
--   its timeout, which is enough if the clock goes on by the time that is slept.
-- * `request` tries to publish twice at most, as the code does, so it needs no fuel.
-- * A subscriber names its messages by numbers: the message that the user holds and
--   `_direct_message` are the same object, so there is a store of messages. Its consume loop is a
--   state machine, and other tasks may make steps between those of the loop. One iteration of the
--   iterator is `iterate_once`, so no fuel is needed. In the in-memory producer the loops run over
--   the list of subscribers.
--
-- Not modelled: the threads of the executor (one worker runs the methods of a connection one after
-- the other), two tasks that call `get_one` of one subscriber at a time, the wrapper of message
-- handles for OpenTelemetry, the constructors of the two middlewares, and what faststream does
-- with what it is handed: middlewares, the dispatch to handlers, the list of what is registered, the
-- names and payloads of the documentation. Certificates, keys and key stores are left to the package
-- cryptography.
pub mod Base
pub mod Errors
pub mod Values
pub mod Ids
pub mod Headers
pub mod Exec
pub mod Native
pub mod Tls
pub mod Command
pub mod Connection
pub mod Subscriber
pub mod Publisher
pub mod Producer
pub mod Registration
pub mod Logging
pub mod Broker
pub mod Fastapi
pub mod Telemetry
pub mod Testing
pub mod Runtime
pub mod Ready
