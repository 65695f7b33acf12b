-- ===== src/Connection/Syncpoint.antt =====
-- What a publication under syncpoint leaves to a later commit.
use faststream_mq.Base.{ℕ, ◌≡◌, refl, Bytes, Dict, Option, true, if◌then◌else◌}
use faststream_mq.Values.{Value}
use faststream_mq.Exec.Hoare.{
  Keeps, keeps_rules, Keeps-bind, Keeps-lift, Keeps-gets, Keeps-on_state, Keeps-pure,
  Keeps-assert_some, Keeps-finally_with,
}
use faststream_mq.Native.{Env, Event, PutDescriptor, PutOptions, Reply, put}
use faststream_mq.Command.{MqPublishCommand}
use faststream_mq.Connection.State.{State, native}
use faststream_mq.Connection.Log.{
  Count, weigh, native_rules, Keeps-put, Keeps-load, Keeps-open_queue,
}
use faststream_mq.Connection.Harmless.{counting}
use faststream_mq.Connection.Puts.{
  handle_properties-Keeps, encode_command-Keeps, publish_cleanup-Keeps,
  recover_connection_sync-Keeps,
}
use faststream_mq.Connection.Publish.{publish_try, publish_once, publish_sync}
use faststream_mq.Connection.Recover.{run_with_reconnect_sync}

abbrev outside_syncpoint : PutOptions → Reply (Option Bytes) → ℕ
outside_syncpoint o r = if o.syncpoint then 0 else 1

-- a call that makes something permanent: a commit, or a put outside syncpoint, also one that fails
abbrev pub permanent : Event → ℕ
permanent = weigh outside_syncpoint 1

module _ (env : Env) (n : ℕ) (cmd : MqPublishCommand) (synced : cmd.syncpoint ≡ true) where
  put-Count :
      (q : ℕ) (b : Bytes) (d : PutDescriptor) (h : Option ℕ)
      → Keeps
          (Count permanent n)
          (native env (put q b d (record { syncpoint = cmd.syncpoint; original_msg_handle = h })))
  put-Count q b d h =
      Keeps-put env q b d (record { syncpoint = cmd.syncpoint; original_msg_handle = h })
        (λ r. rw synced)

  publish_try-Count :
      (qmgr queue : ℕ) (body : Bytes) (headers : Dict Value)
      → Keeps
          (λ (sv : State × Option ℕ). Count permanent n sv.0)
          (publish_try env qmgr queue body headers cmd)
  unfolding publish_try
  publish_try-Count qmgr queue body headers = Keeps-bind _ _ (Keeps-lift _) (λ message.
      Keeps-bind _ _ (Keeps-lift _) (λ correlation.
        Keeps-bind _ _ (handle_properties-Keeps env (counting env n) qmgr headers) (λ u.
          Keeps-bind _ _ (Keeps-gets _) (λ h.
            Keeps-bind _ _ (Keeps-on_state _ (λ v. put-Count queue body _ _))
              (λ sent. Keeps-pure tt)))))

  publish_once-Count : Keeps (Count permanent n) (publish_once env cmd)
  unfolding publish_once
  publish_once-Count = Keeps-bind _ _ (Keeps-load env) (λ u. Keeps-bind _ _ (Keeps-gets _) (λ q.
      Keeps-bind _ _ (Keeps-assert_some q) (λ qmgr.
        Keeps-bind _ _ (encode_command-Keeps env (counting env n) cmd) (λ encoded.
          Keeps-bind _ _ (Keeps-open_queue env qmgr _ _ (λ r. refl)) (λ queue.
            Keeps-finally_with _ _ _ (publish_try-Count qmgr queue _ _)
              (λ v. publish_cleanup-Keeps env (counting env n) queue v))))))

  -- a publication under syncpoint commits nothing, and puts nothing outside syncpoint
  pub publish_sync-Count : Keeps (Count permanent n) (publish_sync env cmd)
  unfolding publish_sync run_with_reconnect_sync
  publish_sync-Count =
      search
        (
          keeps_rules,
          native_rules,
          publish_once-Count,
          recover_connection_sync-Keeps env (counting env n),
        )
        depth 14
