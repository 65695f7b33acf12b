-- ===== src/Connection/Running.antt =====
-- A running connection: it has an executor, and its consumer's queue is open only while it is
-- connected to a queue manager. A call of the library does not change that.
pub mod Link
pub mod Traffic
pub mod Publish
pub mod Lifecycle
use faststream_mq.Base.{ℕ, ◌≡◌, refl, Text, Bytes, true, Option, none, some, is_some}
use faststream_mq.Values.{Value}
use faststream_mq.Exec.{modify}
use faststream_mq.Exec.Hoare.{Keeps, Keeps-modify}
use faststream_mq.Native.{
  Env, Call, put, open_queue, open_dynamic_queue, close_queue, create_handle, delete_handle,
  connect_with_options, connect_tcp_client, CcdtArgs, TcpArgs, get_name, commit, backout,
  disconnect, OpenMode, get, GetOptions, PutDescriptor, PutOptions, get_property, InquireOption,
  set_property, make_tempdir, write_file, remove_tree, sleep,
}
use faststream_mq.Connection.State.{
  State, Connection, PreparedTls, native, load_ibmmq, set_qmgr, set_consumer, set_consumer_name,
  set_prepared, set_tls_scope,
}

abbrev pub Attached : Connection → Type 0
Attached c = is_some c.consumer_queue ≡ true → is_some c.qmgr ≡ true

pub record IsRunning (s : State) : Type 0 where
  pub started : s.conn.executor ≡ true
  pub attached : Attached s.conn

pub Keeps-native : (env : Env) (c : Call) → Keeps IsRunning (native env c)
unfolding native
Keeps-native env c = record { at = λ s h. record { started = h.started; attached = h.attached } }

pub Keeps-load : (env : Env) → Keeps IsRunning (load_ibmmq env)
unfolding load_ibmmq
Keeps-load env = record { at = λ s h. h }

pub Keeps-set_qmgr-some : (q : ℕ) → Keeps IsRunning (modify (set_qmgr (some q)))
Keeps-set_qmgr-some q = Keeps-modify _ (λ s h. record { started = h.started; attached = λ e. refl })

pub Keeps-set_consumer-none : Keeps IsRunning (modify (set_consumer none))
Keeps-set_consumer-none = Keeps-modify _ (λ s h. record { started = h.started; attached = λ e. cc })

pub Keeps-set_consumer_name : (n : Text) → Keeps IsRunning (modify (set_consumer_name n))
Keeps-set_consumer_name n =
    Keeps-modify _ (λ s h. record { started = h.started; attached = h.attached })

pub Keeps-set_prepared : (p : Option PreparedTls) → Keeps IsRunning (modify (set_prepared p))
Keeps-set_prepared p = Keeps-modify _ (λ s h. record { started = h.started; attached = h.attached })

pub Keeps-set_tls_scope : (v : Option Text) → Keeps IsRunning (modify (set_tls_scope v))
Keeps-set_tls_scope v =
    Keeps-modify _ (λ s h. record { started = h.started; attached = h.attached })

-- the rule for each kind of call, whose result type is computed
module _ (env : Env) where
  pub Keeps-connect_with_options :
      (a : CcdtArgs) → Keeps IsRunning (native env (connect_with_options a))
  Keeps-connect_with_options a = Keeps-native env (connect_with_options a)

  pub Keeps-connect_tcp_client : (a : TcpArgs) → Keeps IsRunning (native env (connect_tcp_client a))
  Keeps-connect_tcp_client a = Keeps-native env (connect_tcp_client a)

  pub Keeps-get_name : (q : ℕ) → Keeps IsRunning (native env (get_name q))
  Keeps-get_name q = Keeps-native env (get_name q)

  pub Keeps-commit : (q : ℕ) → Keeps IsRunning (native env (commit q))
  Keeps-commit q = Keeps-native env (commit q)

  pub Keeps-backout : (q : ℕ) → Keeps IsRunning (native env (backout q))
  Keeps-backout q = Keeps-native env (backout q)

  pub Keeps-disconnect : (q : ℕ) → Keeps IsRunning (native env (disconnect q))
  Keeps-disconnect q = Keeps-native env (disconnect q)

  pub Keeps-open_queue :
      (q : ℕ) (t : Text) (m : OpenMode) → Keeps IsRunning (native env (open_queue q t m))
  Keeps-open_queue q t m = Keeps-native env (open_queue q t m)

  pub Keeps-open_dynamic_queue :
      (q : ℕ) (t p : Text) → Keeps IsRunning (native env (open_dynamic_queue q t p))
  Keeps-open_dynamic_queue q t p = Keeps-native env (open_dynamic_queue q t p)

  pub Keeps-close_queue : (q : ℕ) → Keeps IsRunning (native env (close_queue q))
  Keeps-close_queue q = Keeps-native env (close_queue q)

  pub Keeps-get : (q : ℕ) (o : GetOptions) → Keeps IsRunning (native env (get q o))
  Keeps-get q o = Keeps-native env (get q o)

  pub Keeps-put :
      (q : ℕ) (b : Bytes) (d : PutDescriptor) (o : PutOptions)
      → Keeps IsRunning (native env (put q b d o))
  Keeps-put q b d o = Keeps-native env (put q b d o)

  pub Keeps-create_handle : (q : ℕ) → Keeps IsRunning (native env (create_handle q))
  Keeps-create_handle q = Keeps-native env (create_handle q)

  pub Keeps-delete_handle : (q : ℕ) → Keeps IsRunning (native env (delete_handle q))
  Keeps-delete_handle q = Keeps-native env (delete_handle q)

  pub Keeps-get_property :
      (h : ℕ) (i : InquireOption) (m : Option ℕ) → Keeps IsRunning (native env (get_property h i m))
  Keeps-get_property h i m = Keeps-native env (get_property h i m)

  pub Keeps-set_property :
      (h : ℕ) (t : Text) (v : Value) → Keeps IsRunning (native env (set_property h t v))
  Keeps-set_property h t v = Keeps-native env (set_property h t v)

  pub Keeps-make_tempdir : (t : Text) → Keeps IsRunning (native env (make_tempdir t))
  Keeps-make_tempdir t = Keeps-native env (make_tempdir t)

  pub Keeps-write_file : (t : Text) (b : Bytes) → Keeps IsRunning (native env (write_file t b))
  Keeps-write_file t b = Keeps-native env (write_file t b)

  pub Keeps-remove_tree : (t : Text) → Keeps IsRunning (native env (remove_tree t))
  Keeps-remove_tree t = Keeps-native env (remove_tree t)

  pub Keeps-sleep : (ms : ℕ) → Keeps IsRunning (native env (sleep ms))
  Keeps-sleep ms = Keeps-native env (sleep ms)

pub ruleset running_rules = (
  Keeps-load, Keeps-set_qmgr-some, Keeps-set_consumer-none, Keeps-set_consumer_name,
  Keeps-set_prepared, Keeps-set_tls_scope, Keeps-connect_with_options, Keeps-connect_tcp_client,
  Keeps-get_name, Keeps-commit, Keeps-backout, Keeps-disconnect, Keeps-open_queue,
  Keeps-open_dynamic_queue, Keeps-close_queue, Keeps-get, Keeps-put, Keeps-create_handle,
  Keeps-delete_handle, Keeps-get_property, Keeps-set_property, Keeps-make_tempdir, Keeps-write_file,
  Keeps-remove_tree, Keeps-sleep,
)
