-- ===== src/Ready.antt =====
-- scripts/wait-mq-ready.py: waits until every queue manager that is named accepts connections.
pub mod Waiting
pub mod Tests
use faststream_mq.Base.{
  ℕ, zero, suc, ◌+◌, ◌≤◌, Text, codes, ◌++◌, decimal, Bool, Option, none, some, List, [], ◌∷◌, ltb,
  if◌then◌else◌,
}
use faststream_mq.Errors.{Exc, is_exception, timeout_error}
use faststream_mq.Exec.{
  Exec, pure, raise, gets, modify, finally, try_except, if_some, when, ◌>>=◌, ◌>>◌,
}

-- `MQEndpoint`
pub record MqEndpoint : Type 0 where
  pub name : Text
  pub queue_manager : Text
  pub channel : Text
  pub conn_name : Text
  pub username : Text
  pub password : Text

-- The library, the clock and the terminal, on a state `W` of all that is outside the script. The
-- clock counts microseconds; `print` and `sleep` do not raise.
pub record Outside (W : Type 0) : Type 0 where
  -- `_load_ibmmq()` and `mq.QueueManager(None)`
  pub new_queue_manager : Exec W ℕ
  pub connect_tcp_client : ℕ → MqEndpoint → Exec W (Unit {0})
  pub get_name : ℕ → Exec W (Unit {0})
  -- `getattr(qmgr, "is_connected", False)`
  pub is_connected : ℕ → W → Bool
  pub disconnect : ℕ → Exec W (Unit {0})
  pub now : W → ℕ
  pub sleep : ℕ → W → W
  pub print_ready : MqEndpoint → W → W
  pub print_not_ready : MqEndpoint → Exc → W → W

module _ {W : Type 0} (outside : Outside W) where
  -- `_probe`
  unfoldable pub probe : MqEndpoint → Exec W (Unit {0})
  probe endpoint = do
    qmgr ← outside.new_queue_manager
    finally (do outside.connect_tcp_client qmgr endpoint; outside.get_name qmgr)
        (do connected ← gets (outside.is_connected qmgr); when connected (outside.disconnect qmgr))

  -- the `try` of the loop
  unfoldable pub probe_try : MqEndpoint → Exec W (Option (Unit {0}))
  probe_try endpoint = do probe endpoint; modify (outside.print_ready endpoint); pure (some tt)

  -- its `except Exception`; `again` is the next round
  unfoldable pub probe_failed :
      MqEndpoint → ℕ → Exec W (Option (Unit {0})) → Exc → Exec W (Option (Unit {0}))
  probe_failed endpoint interval again e =
      if is_exception e
      then (do modify (outside.print_not_ready endpoint e); modify (outside.sleep interval); again)
      else raise e

  -- The loop of `_wait_for_endpoint`. It gives nothing if the fuel is short.
  unfoldable pub wait_until : ℕ → MqEndpoint → ℕ → ℕ → Exec W (Option (Unit {0}))
  wait_until zero endpoint deadline interval = pure none
  wait_until (suc fuel) endpoint deadline interval =
      let round =
        try_except (probe_try endpoint)
          (probe_failed endpoint interval (wait_until fuel endpoint deadline interval)) in
      gets outside.now >>= λ now. if ltb now deadline then round else raise timeout_error

  -- `_wait_for_endpoint`; a negative timeout is as good as zero
  unfoldable pub wait_for_endpoint : ℕ → ℕ → ℕ → MqEndpoint → Exec W (Option (Unit {0}))
  wait_for_endpoint fuel timeout interval endpoint = do
    start ← gets outside.now
    wait_until fuel endpoint (start + timeout) interval

  -- the loop of `main`
  unfoldable pub wait_for_all : ℕ → ℕ → ℕ → List MqEndpoint → Exec W (Option (Unit {0}))
  wait_for_all fuel timeout interval [] = pure (some tt)
  wait_for_all fuel timeout interval (endpoint ∷ endpoints) =
      wait_for_endpoint fuel timeout interval endpoint >>= λ ended.
      if_some ended (λ u. wait_for_all fuel timeout interval endpoints) (pure none)

-- what `main` reads from the command line
pub record ReadyArgs : Type 0 where
  pub queue_manager : Text
  pub channel : Text
  pub username : Text
  pub password : Text
  pub timeout : ℕ
  pub interval : ℕ
  pub conn_names : List Text

-- the endpoints from the index on, `enumerate(args.conn_names, start=index)`
unfoldable pub endpoints_from : ℕ → ReadyArgs → List Text → List MqEndpoint
endpoints_from index a [] = []
endpoints_from index a (conn_name ∷ rest) =
    record {
      name = codes "mq-" ++ decimal index;
      queue_manager = a.queue_manager;
      channel = a.channel;
      conn_name = conn_name;
      username = a.username;
      password = a.password;
    }
    ∷ endpoints_from (suc index) a rest

-- `main`, less the parsing of the command line
unfoldable pub ready_main : {W : Type 0} → Outside W → ℕ → ReadyArgs → Exec W (Option (Unit {0}))
ready_main outside fuel a =
    wait_for_all outside fuel a.timeout a.interval (endpoints_from 1 a a.conn_names)
