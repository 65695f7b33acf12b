-- ===== src/Connection/Unaddressed.antt =====
-- `_connect_sync` with settings that name no queue manager: an empty URL, and no connection name.
use faststream_mq.Base.{Text, Bytes, ◌≡◌, Option, none, some, [], inl, inr, Option-cases}
use faststream_mq.Tls.{MqTlsConfig}
use faststream_mq.Errors.{Exc, Result, ok, err, assertion_error}
use faststream_mq.Exec.{Exec, modify, finally, ◌>>=◌}
use faststream_mq.Exec.Hoare.{
  Keeps, Ensures, keeps_rules, Keeps-pure, Keeps-for_some, Ensures-raise, Ensures-try_except,
  Ensures-bind, Ensures-seq, Ensures-gets, run-cases,
}
use faststream_mq.Native.{Env, Call, make_tempdir, write_file, remove_tree, Cno, Cd, Sco}
use faststream_mq.Connection.State.{
  State, ConnectionConfig, PreparedTls, native, load_ibmmq, set_prepared, set_tls_scope,
}
use faststream_mq.Connection.Tls.{
  cleanup_prepared_tls, prepare_tls_config, prepare_once, build_tls_options,
}
use faststream_mq.Connection.Connect.{
  build_cno, connect_qmgr, connect_try, connect_failed, restore_tls_scope, guarded_connect,
  open_connection, connect_sync,
}

-- the settings neither have a URL of a table nor a connection name
pub record IsUnaddressed (cfg : ConnectionConfig) : Type 0 where
  pub empty_url : cfg.ccdt_url ≡ some []
  pub unnamed : cfg.conn_name ≡ none

-- no queue manager, and no settings that name one
pub record IsUnlinked (s : State) : Type 0 where
  pub unaddressed : IsUnaddressed s.conn.connection_config
  pub unlinked : s.conn.qmgr ≡ none

-- the method raised, and there is still no queue manager
abbrev pub Raised : {A : Type 0} → Result A → State → Type 0
Raised (ok a) s = ⊥
Raised (err e) s = IsUnlinked s

module _ (env : Env) where
  connect_qmgr-asserts :
      (cno : Cno) (cd : Cd) (sco : Option Sco) (s : State)
      → IsUnlinked s
      → connect_qmgr env cno cd sco s ≡ (err assertion_error, s)
  unfolding connect_qmgr ◌>>=◌
  connect_qmgr-asserts cno cd sco s i = elim (Option-cases s.conn.connection_config.channel) [
    | inl n ↦ simp (i.unaddressed.empty_url, i.unaddressed.unnamed, n)
    | inr (c, n) ↦ simp (i.unaddressed.empty_url, i.unaddressed.unnamed, n)
  ]

  native-IsUnlinked : (c : Call) → Keeps IsUnlinked (native env c)
  unfolding native
  native-IsUnlinked c = record {
    at = λ s h. record { unaddressed = h.unaddressed; unlinked = h.unlinked };
  }

  make_tempdir-IsUnlinked : (p : Text) → Keeps IsUnlinked (native env (make_tempdir p))
  make_tempdir-IsUnlinked p = native-IsUnlinked (make_tempdir p)

  write_file-IsUnlinked : (p : Text) (b : Bytes) → Keeps IsUnlinked (native env (write_file p b))
  write_file-IsUnlinked p b = native-IsUnlinked (write_file p b)

  remove_tree-IsUnlinked : (p : Text) → Keeps IsUnlinked (native env (remove_tree p))
  remove_tree-IsUnlinked p = native-IsUnlinked (remove_tree p)

  load-IsUnlinked : Keeps IsUnlinked (load_ibmmq env)
  unfolding load_ibmmq
  load-IsUnlinked = record { at = λ s h. h }

  set_prepared-IsUnlinked : (p : Option PreparedTls) → Keeps IsUnlinked (modify (set_prepared p))
  unfolding modify
  set_prepared-IsUnlinked p = record {
    at = λ s h. record { unaddressed = h.unaddressed; unlinked = h.unlinked };
  }

  set_tls_scope-IsUnlinked : (v : Option Text) → Keeps IsUnlinked (modify (set_tls_scope v))
  unfolding modify
  set_tls_scope-IsUnlinked v = record {
    at = λ s h. record { unaddressed = h.unaddressed; unlinked = h.unlinked };
  }

  build_cno-IsUnlinked : Keeps IsUnlinked (build_cno env)
  unfolding build_cno
  build_cno-IsUnlinked = search (keeps_rules) depth 14

  prepare_tls_config-IsUnlinked :
      (tls : Option MqTlsConfig) → Keeps IsUnlinked (prepare_tls_config env tls)
  unfolding prepare_tls_config
  prepare_tls_config-IsUnlinked none = Keeps-pure none
  prepare_tls_config-IsUnlinked (some tls) =
      search (keeps_rules, make_tempdir-IsUnlinked, write_file-IsUnlinked) depth 14

  prepare_once-IsUnlinked : Keeps IsUnlinked (prepare_once env)
  unfolding prepare_once
  prepare_once-IsUnlinked =
      search (keeps_rules, set_prepared-IsUnlinked, prepare_tls_config-IsUnlinked) depth 14

  build_tls_options-IsUnlinked : Keeps IsUnlinked (build_tls_options env)
  unfolding build_tls_options
  build_tls_options-IsUnlinked = search (keeps_rules, prepare_once-IsUnlinked) depth 14

  cleanup_prepared_tls-IsUnlinked :
      (tls : Option PreparedTls) → Keeps IsUnlinked (cleanup_prepared_tls env tls)
  unfolding cleanup_prepared_tls
  cleanup_prepared_tls-IsUnlinked tls = search (keeps_rules, remove_tree-IsUnlinked) depth 14

  restore_tls_scope-IsUnlinked : (old : Option Text) → Keeps IsUnlinked (restore_tls_scope env old)
  unfolding restore_tls_scope
  restore_tls_scope-IsUnlinked old = search (keeps_rules, set_tls_scope-IsUnlinked) depth 14

  connect_try-Raised :
      (cno : Cno) (cd : Cd) (sco : Option Sco)
      → Ensures IsUnlinked (connect_try env cno cd sco) Raised
  unfolding connect_try
  connect_try-Raised cno cd sco = Ensures-gets _ _ (λ scope.
      Ensures-bind _ _ (Keeps-for_some scope _ (λ v. set_tls_scope-IsUnlinked (some v)))
        (λ e s h. h)
        (λ u.
          Ensures-seq {Q = Raised} _ _
            (record { at = λ s h. rw (connect_qmgr-asserts cno cd sco s h) h }) (λ e s h. h)
            (λ handle. record { at = λ s h. absurd h })))

  connect_failed-Raised : (e : Exc) → Ensures IsUnlinked (connect_failed env e) Raised
  unfolding connect_failed
  connect_failed-Raised e = Ensures-gets _ _ (λ p.
      Ensures-bind _ _ (cleanup_prepared_tls-IsUnlinked p) (λ e s h. h)
        (λ u.
          Ensures-bind _ _ (set_prepared-IsUnlinked none) (λ e s h. h)
            (λ u. Ensures-raise e (λ s h. h))))

  finally-Raised :
      {A B : Type 0} (m : Exec State A) (n : Exec State B)
      → Ensures IsUnlinked m Raised
      → Keeps IsUnlinked n
      → Ensures IsUnlinked (finally m n) Raised
  unfolding finally
  finally-Raised m n em kn = record {
    at = λ s h. elim (run-cases m s) [
      | inl (a, t, r) ↦ absurd (simp r at (em.at s h))
      | inr (e, t, r) ↦
          let i : IsUnlinked t = simp r at (em.at s h) in
          elim (run-cases n t) [
            | inl (b, u, q) ↦ simp (r, q) (simp q at (kn.at t i))
            | inr (f, u, q) ↦ simp (r, q) (simp q at (kn.at t i))
          ]
    ];
  }

  guarded_connect-Raised :
      (cno : Cno) (cd : Cd) (sco : Option Sco)
      → Ensures IsUnlinked (guarded_connect env cno cd sco) Raised
  unfolding guarded_connect
  guarded_connect-Raised cno cd sco = Ensures-gets _ _ (λ old.
      finally-Raised _ _
        (Ensures-try_except {Q = Raised} _ _ (connect_try-Raised cno cd sco) (λ a s h. absurd h)
          (λ e. connect_failed-Raised e))
        (restore_tls_scope-IsUnlinked old))

  open_connection-Raised : Ensures IsUnlinked (open_connection env) Raised
  unfolding open_connection
  open_connection-Raised =
      Ensures-bind _ _ load-IsUnlinked (λ e s h. h)
        (λ u.
          Ensures-bind _ _ build_cno-IsUnlinked (λ e s h. h)
            (λ cno.
              Ensures-bind _ _ build_tls_options-IsUnlinked (λ e s h. h)
                (λ options. guarded_connect-Raised cno options.0 options.1)))

  -- a connect with such settings raises, and leaves no queue manager
  pub connect_sync-Raised : Ensures IsUnlinked (connect_sync env) Raised
  unfolding connect_sync ◌>>=◌
  connect_sync-Raised = record { at = λ s h. simp h.unlinked (open_connection-Raised.at s h) }
