-- ===== src/Connection/Harmless.antt =====
-- What every call of the library keeps, but a put, a commit and a backout.
use faststream_mq.Base.{Bytes, ℕ, ◌≡◌, refl, Text, Bool, true, false, Option}
use faststream_mq.Values.{Value}
use faststream_mq.Exec.{modify}
use faststream_mq.Exec.Hoare.{Keeps}
use faststream_mq.Native.{
  Env, Call, Answer, event, Reply, put, commit, backout, PutOptions, CcdtArgs, TcpArgs, OpenMode,
  GetOptions, InquireOption, connect_with_options, connect_tcp_client, get_name, disconnect,
  open_queue, open_dynamic_queue, close_queue, get, create_handle, delete_handle, get_property,
  set_property, make_tempdir, write_file, remove_tree, sleep,
}
use faststream_mq.Connection.State.{State, native, load_ibmmq}
use faststream_mq.Connection.Log.{Count, weigh, Keeps-native, Keeps-load, Keeps-set}

abbrev pub is_harmless : Call → Bool
is_harmless (put q b d o) = false
is_harmless (commit q) = false
is_harmless (backout q) = false
is_harmless c = true

-- a property of the history that no harmless call changes
pub record Harmless (env : Env) (P : State → Type 0) : Type 0 where
  pub on_native : (c : Call) → is_harmless c ≡ true → Keeps P (native env c)
  pub on_load : Keeps P (load_ibmmq env)
  pub on_set : (f : State → State) → ((s : State) → (f s).log ≡ s.log) → Keeps P (modify f)

-- the rule for each kind of call, whose result type is computed
module _ {P : State → Type 0} {env : Env} (harmless : Harmless env P) where
  pub harmless-load : Keeps P (load_ibmmq env)
  harmless-load = harmless.on_load

  pub harmless-set : (f : State → State) → ((s : State) → (f s).log ≡ s.log) → Keeps P (modify f)
  harmless-set = harmless.on_set

  pub harmless-connect_with_options : (a : CcdtArgs) → Keeps P (native env (connect_with_options a))
  harmless-connect_with_options a = harmless.on_native (connect_with_options a) refl

  pub harmless-connect_tcp_client : (a : TcpArgs) → Keeps P (native env (connect_tcp_client a))
  harmless-connect_tcp_client a = harmless.on_native (connect_tcp_client a) refl

  pub harmless-get_name : (q : ℕ) → Keeps P (native env (get_name q))
  harmless-get_name q = harmless.on_native (get_name q) refl

  pub harmless-disconnect : (q : ℕ) → Keeps P (native env (disconnect q))
  harmless-disconnect q = harmless.on_native (disconnect q) refl

  pub harmless-open_queue :
      (q : ℕ) (t : Text) (m : OpenMode) → Keeps P (native env (open_queue q t m))
  harmless-open_queue q t m = harmless.on_native (open_queue q t m) refl

  pub harmless-open_dynamic_queue :
      (q : ℕ) (t p : Text) → Keeps P (native env (open_dynamic_queue q t p))
  harmless-open_dynamic_queue q t p = harmless.on_native (open_dynamic_queue q t p) refl

  pub harmless-close_queue : (q : ℕ) → Keeps P (native env (close_queue q))
  harmless-close_queue q = harmless.on_native (close_queue q) refl

  pub harmless-get : (q : ℕ) (o : GetOptions) → Keeps P (native env (get q o))
  harmless-get q o = harmless.on_native (get q o) refl

  pub harmless-create_handle : (q : ℕ) → Keeps P (native env (create_handle q))
  harmless-create_handle q = harmless.on_native (create_handle q) refl

  pub harmless-delete_handle : (q : ℕ) → Keeps P (native env (delete_handle q))
  harmless-delete_handle q = harmless.on_native (delete_handle q) refl

  pub harmless-get_property :
      (h : ℕ) (i : InquireOption) (m : Option ℕ) → Keeps P (native env (get_property h i m))
  harmless-get_property h i m = harmless.on_native (get_property h i m) refl

  pub harmless-set_property :
      (h : ℕ) (t : Text) (v : Value) → Keeps P (native env (set_property h t v))
  harmless-set_property h t v = harmless.on_native (set_property h t v) refl

  pub harmless-make_tempdir : (t : Text) → Keeps P (native env (make_tempdir t))
  harmless-make_tempdir t = harmless.on_native (make_tempdir t) refl

  pub harmless-write_file : (t : Text) (b : Bytes) → Keeps P (native env (write_file t b))
  harmless-write_file t b = harmless.on_native (write_file t b) refl

  pub harmless-remove_tree : (t : Text) → Keeps P (native env (remove_tree t))
  harmless-remove_tree t = harmless.on_native (remove_tree t) refl

  pub harmless-sleep : (ms : ℕ) → Keeps P (native env (sleep ms))
  harmless-sleep ms = harmless.on_native (sleep ms) refl

pub ruleset harmless_rules = (
  harmless-load, harmless-set, harmless-connect_with_options, harmless-connect_tcp_client,
  harmless-get_name, harmless-disconnect, harmless-open_queue, harmless-open_dynamic_queue,
  harmless-close_queue, harmless-get, harmless-create_handle, harmless-delete_handle,
  harmless-get_property, harmless-set_property, harmless-make_tempdir, harmless-write_file,
  harmless-remove_tree, harmless-sleep,
)

weightless :
    (of_put : PutOptions → Reply (Option Bytes) → ℕ) (of_commit : ℕ) (c : Call)
    (r : Reply (Answer c))
    → is_harmless c ≡ true
    → weigh of_put of_commit (event c r) ≡ 0
weightless of_put of_commit (put q b d o) r h = absurd cc
weightless of_put of_commit (commit q) r h = absurd cc
weightless of_put of_commit c r h = refl

-- the weight of the puts and commits is such a property
pub counting :
    {of_put : PutOptions → Reply (Option Bytes) → ℕ} {of_commit : ℕ} (env : Env) (n : ℕ)
    → Harmless env (Count (weigh of_put of_commit) n)
counting {of_put = of_put} {of_commit = of_commit} env n = record {
  on_native = λ c h. Keeps-native env c (λ r. weightless of_put of_commit c r h);
  on_load = Keeps-load env;
  on_set = Keeps-set;
}
