-- ===== src/Fastapi/Settings.antt =====
-- The broker that a FastAPI router builds.
use faststream_mq.Base.{◌≡◌, Bool, true, false, refl}
use faststream_mq.Broker.{new_broker}
use faststream_mq.Fastapi.{
  Setting, Settings, RouterArgs, router_settings, broker_args_of, direct_args, channel, conn_name,
  host, port, ccdt_url, reconnect, username, password, tls, reply_model_queue, wait_interval,
  security, specification_url, protocol,
}

-- the settings of a broker's connections and of its address
abbrev pub of_connection : Setting → Bool
of_connection channel = true
of_connection conn_name = true
of_connection host = true
of_connection port = true
of_connection ccdt_url = true
of_connection reconnect = true
of_connection username = true
of_connection password = true
of_connection tls = true
of_connection reply_model_queue = true
of_connection wait_interval = true
of_connection security = true
of_connection specification_url = true
of_connection protocol = true
of_connection k = false

-- If faststream hands the settings of the connections on as they are, the broker that a router builds
-- has the settings, or fails with the exception, of a broker built with the same arguments.
pub router_settings-broker :
    (handed_on : Settings → Settings) (a : RouterArgs)
    → ((given : Settings) (k : Setting) → of_connection k ≡ true → handed_on given k ≡ given k)
    → new_broker (broker_args_of a.queue_manager (handed_on (router_settings a)))
      ≡ new_broker (direct_args a)
unfolding router_settings broker_args_of
router_settings-broker handed_on a keeps =
    let g = router_settings a in
    rw
      (
        keeps g channel refl,
        keeps g conn_name refl,
        keeps g host refl,
        keeps g port refl,
        keeps g ccdt_url refl,
        keeps g reconnect refl,
        keeps g username refl,
        keeps g password refl,
        keeps g tls refl,
        keeps g reply_model_queue refl,
        keeps g wait_interval refl,
        keeps g security refl,
        keeps g specification_url refl,
        keeps g protocol refl,
      )
      refl
