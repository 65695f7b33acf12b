-- ===== src/Connection/Scope.antt =====
-- The process's AMQ_TLS_ENVIRONMENT_SCOPE around a connect.
use faststream_mq.Base.{ℕ, ◌≡◌, refl, Text, Option, none, some, arith, is_some, true}
use faststream_mq.Errors.{Result, ok, err}
use faststream_mq.Exec.{modify, ◌>>=◌, ◌>>◌, finally, try_except, for_some, ignore_errors, lift}
use faststream_mq.Native.{Env, Cno, Cd, Sco}
use faststream_mq.Connection.State.{State, PreparedTls, native, set_qmgr, set_tls_scope}
use faststream_mq.Connection.Tls.{cleanup_prepared_tls}
use faststream_mq.Connection.Connect.{
  connect_qmgr, connect_try, connect_failed, restore_tls_scope, guarded_connect, wanted_scope,
}

connect_qmgr-frame :
    (env : Env) (cno : Cno) (cd : Cd) (sco : Option Sco) (s : State)
    → let s' = (connect_qmgr env cno cd sco s).1 in
      (s'.conn ≡ s.conn) × (s'.amq_tls_scope ≡ s.amq_tls_scope)
unfolding connect_qmgr ◌>>=◌ native
connect_qmgr-frame env cno cd sco s = ground arith

cleanup_prepared_tls-frame :
    (env : Env) (p : Option PreparedTls) (s : State)
    → let (r, s') = cleanup_prepared_tls env p s in
      (r ≡ ok tt) × (s'.conn ≡ s.conn) × (s'.amq_tls_scope ≡ s.amq_tls_scope)
unfolding cleanup_prepared_tls ◌>>=◌ native for_some ignore_errors
cleanup_prepared_tls-frame env p s = ground arith

-- the value that the variable is left with
abbrev pub left_scope : Option Text → Option Text → Option Text
left_scope (some v) old = some v
left_scope none old = old

abbrev pub ScopeAfter : Option Text → State → Result (Unit {0}) × State → Type 0
ScopeAfter wanted s (ok u, s') =
    (s'.amq_tls_scope ≡ s.amq_tls_scope) × (is_some s'.conn.qmgr ≡ true)
ScopeAfter wanted s (err e, s') =
    (s'.amq_tls_scope ≡ left_scope wanted s.amq_tls_scope)
    × (s'.conn.qmgr ≡ s.conn.qmgr)
    × (s'.conn.prepared_tls ≡ none)

after_connect :
    (env : Env) (wanted : Option Text) (s : State) (r : Result ℕ) (t : State)
    → wanted_scope s.conn.prepared_tls ≡ wanted
    → t.conn ≡ s.conn
    → t.amq_tls_scope ≡ left_scope wanted s.amq_tls_scope
    → ScopeAfter wanted s (
        finally
          (try_except (do handle ← lift r; modify (set_qmgr (some handle))) (connect_failed env))
          (restore_tls_scope env s.amq_tls_scope)
          t)
unfolding connect_failed restore_tls_scope ◌>>=◌ finally for_some modify
after_connect env none s (ok h) t asked same scope = ground (arith, asked)
after_connect env (some v) s (ok h) t asked same scope = ground (arith, asked)
after_connect env wanted s (err e) t asked same scope =
    ground (arith, cleanup_prepared_tls-frame env t.conn.prepared_tls t)

-- A connect that succeeds leaves the environment variable as it was, and a queue manager. One that
-- fails forgets the prepared TLS settings first, and so leaves the variable at the scope that they
-- asked for: it is restored only where they asked for none.
pub guarded_connect-scope :
    (env : Env) (cno : Cno) (cd : Cd) (sco : Option Sco) (s : State)
    → ScopeAfter (wanted_scope s.conn.prepared_tls) s (guarded_connect env cno cd sco s)
unfolding guarded_connect connect_try connect_failed restore_tls_scope ◌>>=◌ finally for_some modify
guarded_connect-scope env cno cd sco s = go (wanted_scope s.conn.prepared_tls) refl
  where
    go :
        (o : Option Text)
        → wanted_scope s.conn.prepared_tls ≡ o
        → ScopeAfter o s (
            finally
              (try_except
                (do
                  for_some o (λ v. modify (set_tls_scope (some v)))
                  handle ← connect_qmgr env cno cd sco
                  modify (set_qmgr (some handle)))
                (connect_failed env))
              (restore_tls_scope env s.amq_tls_scope)
              s)
    go none asked =
        let (r, t) = connect_qmgr env cno cd sco s in
        let (same, scope) = connect_qmgr-frame env cno cd sco s in
        after_connect env none s r t asked same scope
    go (some v) asked =
        let s' = set_tls_scope (some v) s in
        let (r, t) = connect_qmgr env cno cd sco s' in
        let (same, scope) = connect_qmgr-frame env cno cd sco s' in
        after_connect env (some v) s r t asked same scope
