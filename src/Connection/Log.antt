-- ===== src/Connection/Log.antt =====
-- Counting the calls of the library, and the rule for a call that is not counted.
use faststream_mq.Base.{Bytes, ℕ, ◌+◌, ◌≡◌, ap, ◌∙◌, List, [], ◌∷◌, arith, Text, Option}
use faststream_mq.Values.{Value}
use faststream_mq.Exec.{modify}
use faststream_mq.Exec.Hoare.{Keeps, Keeps-modify}
use faststream_mq.Native.{
  Env, Event, event, Call, Answer, Reply, answered, failed, put, open_queue, open_dynamic_queue,
  close_queue, create_handle, delete_handle, connect_with_options, connect_tcp_client, CcdtArgs,
  TcpArgs, get_name, commit, backout, disconnect, OpenMode, get, GetOptions, PutDescriptor,
  PutOptions, get_property, InquireOption, set_property, make_tempdir, write_file, remove_tree,
  sleep,
}
use faststream_mq.Connection.State.{State, native, load_ibmmq}

-- the sum of a weight over the log
abbrev pub total : (Event → ℕ) → List Event → ℕ
total w [] = 0
total w (e ∷ es) = w e + total w es

-- a weight that puts and commits have, and no other calls
abbrev pub weigh : (PutOptions → Reply (Option Bytes) → ℕ) → ℕ → Event → ℕ
weigh of_put of_commit (event (put q b d o) r) = of_put o r
weigh of_put of_commit (event (commit q) r) = of_commit
weigh of_put of_commit e = 0

abbrev if_answered : PutOptions → Reply (Option Bytes) → ℕ
if_answered o (answered m) = 1
if_answered o (failed fault) = 0

-- a message that was put
abbrev pub put_done : Event → ℕ
put_done = weigh if_answered 0

-- the calls of the log weigh `n` in all
pub record Count (w : Event → ℕ) (n : ℕ) (s : State) : Type 0 where
  pub is : total w s.log ≡ n

module _ {w : Event → ℕ} {n : ℕ} where
  pub Keeps-native :
      (env : Env) (c : Call)
      → ((r : Reply (Answer c)) → w (event c r) ≡ 0)
      → Keeps (Count w n) (native env c)
  unfolding native
  Keeps-native env c weightless = record {
    at = λ s h. record { is = omega (arith, weightless (env.answer s.log c), h.is) };
  }

  pub Keeps-load : (env : Env) → Keeps (Count w n) (load_ibmmq env)
  unfolding load_ibmmq
  Keeps-load env = record { at = λ s h. h }

  -- what writes attributes makes no call
  pub Keeps-set :
      (f : State → State) → ((s : State) → (f s).log ≡ s.log) → Keeps (Count w n) (modify f)
  Keeps-set f same = Keeps-modify f (λ s h. record { is = ap (total w) (same s) ∙ h.is })

-- the rule for each kind of call, whose result type is computed
module _ {w : Event → ℕ} {n : ℕ} (env : Env) where
  pub Keeps-connect_with_options :
      (a : CcdtArgs)
      → ((r : Reply (Answer (connect_with_options a))) → w (event (connect_with_options a) r) ≡ 0)
      → Keeps (Count w n) (native env (connect_with_options a))
  Keeps-connect_with_options a = Keeps-native env (connect_with_options a)

  pub Keeps-connect_tcp_client :
      (a : TcpArgs)
      → ((r : Reply (Answer (connect_tcp_client a))) → w (event (connect_tcp_client a) r) ≡ 0)
      → Keeps (Count w n) (native env (connect_tcp_client a))
  Keeps-connect_tcp_client a = Keeps-native env (connect_tcp_client a)

  pub Keeps-get_name :
      (q : ℕ)
      → ((r : Reply (Answer (get_name q))) → w (event (get_name q) r) ≡ 0)
      → Keeps (Count w n) (native env (get_name q))
  Keeps-get_name q = Keeps-native env (get_name q)

  pub Keeps-commit :
      (q : ℕ)
      → ((r : Reply (Answer (commit q))) → w (event (commit q) r) ≡ 0)
      → Keeps (Count w n) (native env (commit q))
  Keeps-commit q = Keeps-native env (commit q)

  pub Keeps-backout :
      (q : ℕ)
      → ((r : Reply (Answer (backout q))) → w (event (backout q) r) ≡ 0)
      → Keeps (Count w n) (native env (backout q))
  Keeps-backout q = Keeps-native env (backout q)

  pub Keeps-disconnect :
      (q : ℕ)
      → ((r : Reply (Answer (disconnect q))) → w (event (disconnect q) r) ≡ 0)
      → Keeps (Count w n) (native env (disconnect q))
  Keeps-disconnect q = Keeps-native env (disconnect q)

  pub Keeps-open_queue :
      (q : ℕ) (t : Text) (m : OpenMode)
      → ((r : Reply (Answer (open_queue q t m))) → w (event (open_queue q t m) r) ≡ 0)
      → Keeps (Count w n) (native env (open_queue q t m))
  Keeps-open_queue q t m = Keeps-native env (open_queue q t m)

  pub Keeps-open_dynamic_queue :
      (q : ℕ) (t p : Text)
      → ((r : Reply (Answer (open_dynamic_queue q t p)))
          → w (event (open_dynamic_queue q t p) r) ≡ 0)
      → Keeps (Count w n) (native env (open_dynamic_queue q t p))
  Keeps-open_dynamic_queue q t p = Keeps-native env (open_dynamic_queue q t p)

  pub Keeps-close_queue :
      (q : ℕ)
      → ((r : Reply (Answer (close_queue q))) → w (event (close_queue q) r) ≡ 0)
      → Keeps (Count w n) (native env (close_queue q))
  Keeps-close_queue q = Keeps-native env (close_queue q)

  pub Keeps-get :
      (q : ℕ) (o : GetOptions)
      → ((r : Reply (Answer (get q o))) → w (event (get q o) r) ≡ 0)
      → Keeps (Count w n) (native env (get q o))
  Keeps-get q o = Keeps-native env (get q o)

  pub Keeps-put :
      (q : ℕ) (b : Bytes) (d : PutDescriptor) (o : PutOptions)
      → ((r : Reply (Answer (put q b d o))) → w (event (put q b d o) r) ≡ 0)
      → Keeps (Count w n) (native env (put q b d o))
  Keeps-put q b d o = Keeps-native env (put q b d o)

  pub Keeps-create_handle :
      (q : ℕ)
      → ((r : Reply (Answer (create_handle q))) → w (event (create_handle q) r) ≡ 0)
      → Keeps (Count w n) (native env (create_handle q))
  Keeps-create_handle q = Keeps-native env (create_handle q)

  pub Keeps-delete_handle :
      (q : ℕ)
      → ((r : Reply (Answer (delete_handle q))) → w (event (delete_handle q) r) ≡ 0)
      → Keeps (Count w n) (native env (delete_handle q))
  Keeps-delete_handle q = Keeps-native env (delete_handle q)

  pub Keeps-get_property :
      (h : ℕ) (i : InquireOption) (m : Option ℕ)
      → ((r : Reply (Answer (get_property h i m))) → w (event (get_property h i m) r) ≡ 0)
      → Keeps (Count w n) (native env (get_property h i m))
  Keeps-get_property h i m = Keeps-native env (get_property h i m)

  pub Keeps-set_property :
      (h : ℕ) (t : Text) (v : Value)
      → ((r : Reply (Answer (set_property h t v))) → w (event (set_property h t v) r) ≡ 0)
      → Keeps (Count w n) (native env (set_property h t v))
  Keeps-set_property h t v = Keeps-native env (set_property h t v)

  pub Keeps-make_tempdir :
      (t : Text)
      → ((r : Reply (Answer (make_tempdir t))) → w (event (make_tempdir t) r) ≡ 0)
      → Keeps (Count w n) (native env (make_tempdir t))
  Keeps-make_tempdir t = Keeps-native env (make_tempdir t)

  pub Keeps-write_file :
      (t : Text) (b : Bytes)
      → ((r : Reply (Answer (write_file t b))) → w (event (write_file t b) r) ≡ 0)
      → Keeps (Count w n) (native env (write_file t b))
  Keeps-write_file t b = Keeps-native env (write_file t b)

  pub Keeps-remove_tree :
      (t : Text)
      → ((r : Reply (Answer (remove_tree t))) → w (event (remove_tree t) r) ≡ 0)
      → Keeps (Count w n) (native env (remove_tree t))
  Keeps-remove_tree t = Keeps-native env (remove_tree t)

  pub Keeps-sleep :
      (ms : ℕ)
      → ((r : Reply (Answer (sleep ms))) → w (event (sleep ms) r) ≡ 0)
      → Keeps (Count w n) (native env (sleep ms))
  Keeps-sleep ms = Keeps-native env (sleep ms)

pub ruleset native_rules = (
  Keeps-load, Keeps-set, Keeps-connect_with_options, Keeps-connect_tcp_client, Keeps-get_name,
  Keeps-commit, Keeps-backout, Keeps-disconnect, Keeps-open_queue, Keeps-open_dynamic_queue,
  Keeps-close_queue, Keeps-get, Keeps-put, Keeps-create_handle, Keeps-delete_handle,
  Keeps-get_property, Keeps-set_property, Keeps-make_tempdir, Keeps-write_file, Keeps-remove_tree,
  Keeps-sleep,
)
