-- ===== src/Logging.antt =====
-- broker/logging.py, with the log context of subscriber/usecase.py: how wide the column of the queue
-- is in the log of a broker.
use faststream_mq.Base.{
  ℕ, ◌≤◌, ◌≡◌, refl, Text, codes, ◌++◌, decimal, Option, none, some, List, [], ◌∷◌, Dict, lookup,
  length, leb, if◌then◌else◌, arith, text_eq,
}
use faststream_mq.Publisher.{MqQueue}

-- the arguments of faststream's `get_broker_logger` that the package sets
pub record LoggerArgs : Type 0 where
  pub name : Text
  pub default_context : Dict Text
  pub message_id_ln : ℕ
  pub fmt : Text

-- `MQParamsStorage`, with the logger that was made, by the arguments that it was made with
pub record MqParamsStorage : Type 0 where
  pub max_queue_len : ℕ
  pub logger : Option LoggerArgs

abbrev pub new_storage : MqParamsStorage
new_storage = record { max_queue_len = 5; logger = none }

abbrev max : ℕ → ℕ → ℕ
max m n = if leb n m then m else n

-- `params.get("queue", "")`
abbrev queue_param : Dict Text → Text
queue_param params = elim (lookup (codes "queue") params) [ none ↦ [] | some name ↦ name ]

-- `register_subscriber`
unfoldable pub register_subscriber : Dict Text → MqParamsStorage → MqParamsStorage
register_subscriber params s = record s {
  max_queue_len = max s.max_queue_len (length (queue_param params));
}

-- the format of a line: the time and the level, the queue, the identifier and the message
abbrev line_format : ℕ → ℕ → Text
line_format queue_len id_len =
    codes "%(asctime)s %(levelname)-8s - "
    ++ codes "%(queue)-"
    ++ decimal queue_len
    ++ codes "s | "
    ++ codes "%(message_id)-"
    ++ decimal id_len
    ++ codes "s - %(message)s"

abbrev logger_args : ℕ → LoggerArgs
logger_args queue_len = record {
  name = codes "mq";
  default_context = (codes "queue", []) ∷ [];
  message_id_ln = 10;
  fmt = line_format queue_len 10;
}

-- `get_logger`
unfoldable pub get_logger : MqParamsStorage → LoggerArgs × MqParamsStorage
get_logger s = elim s.logger [
  | some known ↦ (known, s)
  | none ↦ (logger_args s.max_queue_len, record s { logger = some (logger_args s.max_queue_len) })
]

-- `build_log_context` of a subscriber, on the message's identifier, if there is a message
unfoldable pub build_log_context : Option Text → MqQueue → Dict Text
build_log_context message_id queue =
    (codes "queue", queue.name)
    ∷ (codes "message_id", elim message_id [ none ↦ [] | some id ↦ id ])
    ∷ []

-- the storage after some subscribers have registered with their log contexts
abbrev pub register_all : List MqQueue → MqParamsStorage → MqParamsStorage
register_all [] s = s
register_all (q ∷ qs) s = register_all qs (register_subscriber (build_log_context none q) s)

abbrev pub AllFit : List MqQueue → ℕ → Type 0
AllFit [] n = Unit {0}
AllFit (q ∷ qs) n = (length q.name ≤ n) × AllFit qs n

register_grows :
    (q : MqQueue) (s : MqParamsStorage)
    → let t = register_subscriber (build_log_context none q) s in
      (s.max_queue_len ≤ t.max_queue_len) × (length q.name ≤ t.max_queue_len)
unfolding register_subscriber build_log_context lookup text_eq
register_grows q s = ground arith

register_all-grows :
    (qs : List MqQueue) (s : MqParamsStorage) → s.max_queue_len ≤ (register_all qs s).max_queue_len
register_all-grows [] s = omega arith
register_all-grows (q ∷ qs) s =
    let t = register_subscriber (build_log_context none q) s in
    omega (arith, (register_grows q s).0, register_all-grows qs t)

-- The column of the queue in a logger that is made after subscribers have registered is as wide as
-- the longest of their queue names at least.
pub register_all-AllFit :
    (qs : List MqQueue) (s : MqParamsStorage) → AllFit qs (register_all qs s).max_queue_len
register_all-AllFit [] s = tt
register_all-AllFit (q ∷ qs) s =
    let t = register_subscriber (build_log_context none q) s in
    (omega (arith, (register_grows q s).1, register_all-grows qs t), register_all-AllFit qs t)

-- a first logger, and the same logger after a subscriber with a longer name
widths :
    ((get_logger (register_all (record { name = codes "DEV.QUEUE.1" } ∷ []) new_storage)).0
      ≡ logger_args 11)
    × ((get_logger
          (register_all (record { name = codes "DEV.QUEUE.1" } ∷ []) (get_logger new_storage).1)).0
        ≡ logger_args 5)
unfolding get_logger register_subscriber build_log_context lookup text_eq decimal
widths = (refl, refl)
