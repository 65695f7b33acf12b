-- ===== src/Ready/Tests.antt =====
-- Waiting for a queue manager that accepts connections after three seconds.
use faststream_mq.Base.{ℕ, ◌+◌, ◌≤◌, ◌≡◌, refl, codes, some, [], ◌∷◌, ltb, arith, if◌then◌else◌}
use faststream_mq.Errors.{ok, err, mqmi_error, timeout_error}
use faststream_mq.Exec.{Exec, pure, modify, finally, if_some, when, ◌>>=◌}
use faststream_mq.Exec.Hoare.{Keeps, Keeps-pure}
use faststream_mq.Ready.{
  Outside, ReadyArgs, ready_main, endpoints_from, wait_for_all, wait_for_endpoint, wait_until,
  probe, probe_try, probe_failed,
}
use faststream_mq.Ready.Waiting.{IsClock, AllWaited, ready_main-AllWaited}

-- the world is the time
connect_after : ℕ → Exec ℕ (Unit {0})
connect_after ready w = if ltb w ready then (err (mqmi_error 2059 0), w) else (ok tt, w)

abbrev starting : Outside ℕ
starting = record {
  new_queue_manager = pure 1;
  connect_tcp_client = λ q endpoint. connect_after 3000000;
  get_name = λ q. pure tt;
  is_connected = λ q w. ltb 3000000 w;
  disconnect = λ q. pure tt;
  now = λ w. w;
  sleep = λ n w. w + n;
  print_ready = λ endpoint w. w;
  print_not_ready = λ endpoint e w. w;
}

connect_after-forward : (t ready : ℕ) → Keeps (λ w. t ≤ w) (connect_after ready)
unfolding connect_after
connect_after-forward t ready = record { at = λ w h. ground arith }

starting-IsClock : IsClock starting
starting-IsClock = record {
  after_new = λ t. Keeps-pure 1;
  after_connect = λ t q endpoint. connect_after-forward t 3000000;
  after_get_name = λ t q. Keeps-pure tt;
  after_disconnect = λ t q. Keeps-pure tt;
  after_ready = λ endpoint w. omega arith;
  after_not_ready = λ endpoint e w. omega arith;
  after_sleep = λ n w. omega arith;
}

abbrev two_names : ReadyArgs
two_names = record {
  queue_manager = codes "QM1";
  channel = codes "DEV.ADMIN.SVRCONN";
  username = codes "admin";
  password = codes "password";
  timeout = 10000000;
  interval = 2000000;
  conn_names = codes "127.0.0.1(1414)" ∷ codes "127.0.0.1(1415)" ∷ [];
}

ready_main-AllWaited_example :
    let (r, v) = ready_main starting 6 two_names 0 in
    AllWaited starting 2000000 10000000 (endpoints_from 1 two_names two_names.conn_names) 0 r v
ready_main-AllWaited_example =
    ready_main-AllWaited starting 5 two_names 0 starting-IsClock (omega arith)

-- the third probe of the first queue manager succeeds, and the first of the second
becomes_ready : ready_main starting 6 two_names 0 ≡ (ok (some tt), 4000000)
unfolding ready_main endpoints_from wait_for_all wait_for_endpoint wait_until probe probe_try
    probe_failed connect_after ◌>>=◌ finally when modify if_some
becomes_ready = refl

-- with a shorter timeout the script gives up
gives_up :
    ready_main starting 6 (record two_names { timeout = 2500000 }) 0 ≡ (err timeout_error, 4000000)
unfolding ready_main endpoints_from wait_for_all wait_for_endpoint wait_until probe probe_try
    probe_failed connect_after ◌>>=◌ finally when modify if_some
gives_up = refl
