-- ===== src/Native.antt =====
-- What the package calls and does not implement: the IBM MQ client library `ibmmq` and its C
-- client, the file system and the clock. Each call is a value, and an environment answers it from
-- the history of the calls before it: nothing is assumed of an answer but its type.
use faststream_mq.Base.{ℕ, Text, Bytes, Bool, Option, List}
use faststream_mq.Values.{ℤ, Value}

-- `mq.CD`, as far as the package sets it; an attribute not set is `none`
pub record Cd : Type 0 where
  pub ssl_cipher_spec : Option Text
  pub ssl_peer_name : Option Text
  pub def_reconnect : Option ℕ

-- `mq.SCO`
pub record Sco : Type 0 where
  pub key_repository : Text
  pub certificate_label : Option Text
  pub key_repo_password : Option Text

-- `mq.CNO`
pub record Cno : Type 0 where
  pub options : ℕ
  pub ccdt_url : Option Text

-- the arguments of `connect_with_options`; `none` for a keyword that is not passed
pub record CcdtArgs : Type 0 where
  pub queue_manager : Text
  pub cno : Cno
  pub user : Option Text
  pub password : Option Text
  pub cd : Option Cd
  pub sco : Option Sco

-- the arguments of `connect_tcp_client`
pub record TcpArgs : Type 0 where
  pub queue_manager : Text
  pub cd : Cd
  pub channel : Text
  pub conn_name : Text
  pub user : Option Text
  pub password : Option Text
  pub cno : Cno
  pub sco : Option Sco

-- `mq.MD` as a `get` fills it; `none` for a missing attribute
pub record Descriptor : Type 0 where
  pub msg_id : Option Value
  pub correl_id : Option Value
  pub reply_to_q : Option Value
  pub reply_to_qmgr : Option Value
  pub priority : Option ℤ
  pub persistence : Option ℕ
  pub expiry : Option ℤ

-- `mq.MD` as a `put` is given it; `none` for an attribute that is not set, and an identifier that
-- is set to `None` is `some none`
pub record PutDescriptor : Type 0 where
  pub reply_to_q : Option Text
  pub reply_to_qmgr : Option Text
  pub priority : Option ℤ
  pub persistence : Option ℕ
  pub expiry : Option ℤ
  pub msg_id : Option (Option Bytes)
  pub correl_id : Option (Option Bytes)

-- `mq.PMO`
pub record PutOptions : Type 0 where
  pub syncpoint : Bool
  pub original_msg_handle : Option ℕ

-- `mq.GMO`, with the correlation identifier to match
pub record GetOptions : Type 0 where
  pub syncpoint : Bool
  pub wait_interval : ℕ
  pub msg_handle : ℕ
  pub match_correl_id : Option Bytes

pub data OpenMode : Type 0 where
  input_as_q_def input_exclusive output : OpenMode

pub data InquireOption : Type 0 where
  inq_first inq_next inq_prop_under_cursor : InquireOption

pub data Call : Type 0 where
  connect_with_options : CcdtArgs → Call
  connect_tcp_client : TcpArgs → Call
  -- on a queue manager
  get_name commit backout disconnect : ℕ → Call
  -- a queue manager, the queue's name, the mode
  open_queue : ℕ → Text → OpenMode → Call
  -- a queue manager, the model queue, the pattern of the dynamic queue's name
  open_dynamic_queue : ℕ → Text → Text → Call
  close_queue : ℕ → Call
  get : ℕ → GetOptions → Call
  put : ℕ → Bytes → PutDescriptor → PutOptions → Call
  -- `mq.MessageHandle(qmgr)` and `handle.dlt()`
  create_handle delete_handle : ℕ → Call
  -- `max_value_length` is `none` where it is not passed
  get_property : ℕ → InquireOption → Option ℕ → Call
  set_property : ℕ → Text → Value → Call
  -- `tempfile.mkdtemp`, `Path.write_bytes`, `shutil.rmtree`
  make_tempdir : Text → Call
  write_file : Text → Bytes → Call
  remove_tree : Text → Call
  -- `time.sleep`, in milliseconds
  sleep : ℕ → Call

-- what a call returns: a handle, a message with its descriptor, a value with its property's name,
-- the `MsgId` that a `put` leaves in its descriptor, a path
abbrev pub Answer : Call → Type 0
Answer (connect_with_options a) = ℕ
Answer (connect_tcp_client a) = ℕ
Answer (open_queue q n m) = ℕ
Answer (open_dynamic_queue q n p) = ℕ × Value
Answer (get q o) = Bytes × Descriptor
Answer (put q b d o) = Option Bytes
Answer (create_handle q) = ℕ
Answer (get_property h o m) = Value × Value
Answer (make_tempdir p) = Text
Answer c = Unit

-- `mq.MQMIError` with its reason and data length, `TypeError`, or another `Exception`
pub data Fault : Type 0 where
  mqmi_fault : ℕ → ℕ → Fault
  type_fault : Fault
  other_fault : ℕ → Fault

pub data Reply (A : Type 0) : Type 0 where
  answered : A → Reply A
  failed : Fault → Reply A

-- a call that was made, with its outcome
pub data Event : Type 0 where
  event : (c : Call) → Reply (Answer c) → Event

-- the constants of `mq.CMQC` and `mq.CMQXC` that the package names
pub record Codes : Type 0 where
  pub connection_broken : ℕ
  pub hconn_error : ℕ
  pub q_mgr_not_available : ℕ
  pub host_not_available : ℕ
  pub reconnecting : ℕ
  pub reconnected : ℕ
  pub reconnect_failed : ℕ
  pub call_interrupted : ℕ
  pub reconnect_q_mgr_reqd : ℕ
  pub reconnect_timed_out : ℕ
  pub ssl_initialization_error : Option ℕ
  pub no_msg_available : ℕ
  pub property_not_available : ℕ
  pub property_value_too_big : ℕ
  pub per_persistent : ℕ
  pub per_not_persistent : ℕ
  pub cno_reconnect_as_def : ℕ
  pub cno_reconnect_disabled : ℕ
  pub cno_reconnect : ℕ
  pub cno_reconnect_q_mgr : ℕ
  pub rcn_disabled : ℕ
  pub rcn_yes : ℕ
  pub rcn_q_mgr : ℕ

-- The environment. `available` says whether `_load_ibmmq` finds a usable runtime; `encode` is
-- faststream's `encode_message` of a body, by its identity, under the serializer in use; `decode` is
-- `bytes.decode`, which may raise; `dumps` is `json.dumps`; `separator` joins paths.
pub record Env : Type 0 where
  pub answer : List Event → (c : Call) → Reply (Answer c)
  pub codes_of : Codes
  pub available : Bool
  pub encode : ℕ → Reply (Bytes × Option Text)
  pub decode : Bytes → Option Text
  pub dumps : Value → Text
  pub separator : Text
