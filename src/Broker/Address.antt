-- ===== src/Broker/Address.antt =====
-- The address that a broker gives its connections, and the two ways of `_connect_sync` to use it.
use faststream_mq.Base.{
  ◌≡◌, ◌≢◌, refl, subst, sym, ap, ◌∙◌, Option, none, some, [], ◌∷◌, Text, codes, arith, inl, inr,
  Option-cases,
}
use faststream_mq.Errors.{Exc, Result-cases, ok, err, ok-injective, assertion_error}
use faststream_mq.Exec.{◌>>=◌ as ◌>>>=◌}
use faststream_mq.Native.{
  Env, Cno, Cd, Sco, Codes, Call, connect_with_options, connect_tcp_client, Answer, Reply, answered,
  failed, mqmi_fault, type_fault, other_fault,
}
use faststream_mq.Connection.State.{State, ConnectionConfig, native, result_of}
use faststream_mq.Exec.Hoare.{run-cases}
use faststream_mq.Connection.Unaddressed.{IsUnlinked, connect_sync-Raised}
use faststream_mq.Connection.Connect.{connect_sync, connect_qmgr}
use faststream_mq.Connection.Reasons.{cd_reconnect_default}
use faststream_mq.Broker.{
  BrokerArgs, BrokerConfig, resolve_address, new_broker, some_or, name_or_address,
}

-- A configuration names a channel and a connection, or the URL of a channel definition table; never
-- both.
pub data HasAddress (c : ConnectionConfig) : Type 0 where
  by_name :
      (channel name : Text)
      → c.ccdt_url ≡ none
      → c.channel ≡ some channel
      → c.conn_name ≡ some name
      → HasAddress c
  by_table : (url : Text) → c.ccdt_url ≡ some url → c.conn_name ≡ none → HasAddress c

resolve_address-name :
    (a : BrokerArgs) → a.ccdt_url ≡ none → (c n : Text) × (resolve_address a ≡ ok (some c, some n))
unfolding resolve_address
resolve_address-name a h = (
  some_or a.channel (codes "DEV.APP.SVRCONN"),
  name_or_address a.conn_name a.host a.port,
  rw h refl,
)

resolve_address-table :
    (a : BrokerArgs) (url : Text) (r : Option Text × Option Text)
    → a.ccdt_url ≡ some url
    → resolve_address a ≡ ok r
    → r.1 ≡ none
unfolding resolve_address
resolve_address-table a url r h e = ground arith

-- what a broker that is built has resolved
new_broker-resolved :
    (a : BrokerArgs) (b : BrokerConfig)
    → new_broker a ≡ ok b
    → (r : Option Text × Option Text) × (resolve_address a ≡ ok r)
      × (b.connection_config.channel ≡ r.0)
      × (b.connection_config.conn_name ≡ r.1)
      × (b.connection_config.ccdt_url ≡ a.ccdt_url)
unfolding new_broker
new_broker-resolved a b h = elim (Result-cases (resolve_address a)) [
  | inl (r, e) ↦ (r, e, ground arith, ground arith, ground arith)
  | inr (x, e) ↦ absurd (ground arith)
]

new_broker-HasAddress :
    (a : BrokerArgs) (b : BrokerConfig) → new_broker a ≡ ok b → HasAddress b.connection_config
new_broker-HasAddress a b h =
    let (r, e, channel, name, url) = new_broker-resolved a b h in
    elim (Option-cases a.ccdt_url) [
      | inl n ↦
          let (c, m, e') = resolve_address-name a n in
          let same = ok-injective _ _ (sym e ∙ e') in
          by_name c m (url ∙ n) (channel ∙ ap (λ x. x.0) same) (name ∙ ap (λ x. x.1) same)
      | inr (u, n) ↦ by_table u (url ∙ n) (name ∙ resolve_address-table a u r n e)
    ]

-- no failure of the library is an `AssertionError`
native-not_assertion : (env : Env) (c : Call) (s : State) → (native env c s).0 ≢ err assertion_error
unfolding native
native-not_assertion env c s = go (env.answer s.log c)
  where
    go : (r : Reply (Answer c)) → result_of r ≢ err assertion_error
    go (answered v) e = cc
    go (failed (mqmi_fault reason len)) e = cc
    go (failed type_fault) e = cc
    go (failed (other_fault n)) e = cc

cd_reconnect_default-not_assertion :
    (c : Codes) (mode : Text) → cd_reconnect_default c mode ≢ err assertion_error
unfolding cd_reconnect_default
cd_reconnect_default-not_assertion c mode e = ground arith

connect_qmgr-named :
    (env : Env) (cno : Cno) (cd : Cd) (sco : Option Sco) (s : State) (c n : Text)
    → s.conn.connection_config.ccdt_url ≡ none
    → s.conn.connection_config.channel ≡ some c
    → s.conn.connection_config.conn_name ≡ some n
    → (connect_qmgr env cno cd sco s).0 ≢ err assertion_error
unfolding connect_qmgr ◌>>>=◌
connect_qmgr-named env cno cd sco s c n hu hc hn =
    elim (Result-cases
      (cd_reconnect_default env.codes_of s.conn.connection_config.reconnect_mode)) [
        | inl (d, r) ↦ simp (hu, hc, hn, r) (native-not_assertion env (connect_tcp_client _) s)
        | inr (x, r) ↦
            simp (hu, hc, hn, r)
              (λ e.
                cd_reconnect_default-not_assertion env.codes_of
                  s.conn.connection_config.reconnect_mode
                  (let same : x ≡ assertion_error = cc in r ∙ ap (λ y. err y) same))
      ]

-- the address is there when `_connect_sync` asserts it, unless the table's URL is empty
connect_qmgr-addressed :
    (env : Env) (cno : Cno) (cd : Cd) (sco : Option Sco) (s : State)
    → HasAddress s.conn.connection_config
    → s.conn.connection_config.ccdt_url ≢ some []
    → (connect_qmgr env cno cd sco s).0 ≢ err assertion_error
unfolding connect_qmgr ◌>>>=◌
connect_qmgr-addressed env cno cd sco s (by_name c n hu hc hn) ne =
    connect_qmgr-named env cno cd sco s c n hu hc hn
connect_qmgr-addressed env cno cd sco s (by_table [] hu hn) ne = absurd (ne hu)
connect_qmgr-addressed env cno cd sco s (by_table (x ∷ url) hu hn) ne =
    simp hu (native-not_assertion env (connect_with_options _) s)

-- A broker that is built has for its connections either a channel and a connection name or the URL
-- of a channel definition table. With these settings the two assertions of `_connect_sync` on the
-- channel and the connection name never fail, however the library answers, unless the URL is the
-- empty text.
pub new_broker-connects :
    (a : BrokerArgs) (b : BrokerConfig) (env : Env) (cno : Cno) (cd : Cd) (sco : Option Sco)
    (s : State)
    → new_broker a ≡ ok b
    → a.ccdt_url ≢ some []
    → s.conn.connection_config ≡ b.connection_config
    → HasAddress b.connection_config × ((connect_qmgr env cno cd sco s).0 ≢ err assertion_error)
new_broker-connects a b env cno cd sco s h ne same =
    let address = new_broker-HasAddress a b h in
    let url = (new_broker-resolved a b h).4 in
    (
      address,
      connect_qmgr-addressed env cno cd sco s (subst HasAddress (sym same) address)
          (λ e. ne (sym url ∙ ap (λ c. c.ccdt_url) (sym same) ∙ e)),
    )

-- A broker that was built with the empty text as its table's URL never connects: with its settings
-- `_connect_sync` on a connection without a queue manager raises and leaves it without one, however
-- the library answers.
pub new_broker-empty_url :
    (a : BrokerArgs) (b : BrokerConfig) (env : Env) (s : State)
    → new_broker a ≡ ok b
    → a.ccdt_url ≡ some []
    → s.conn.connection_config ≡ b.connection_config
    → s.conn.qmgr ≡ none
    → let (r, t) = connect_sync env s in (e : Exc) × (r ≡ err e) × (t.conn.qmgr ≡ none)
new_broker-empty_url a b env s h empty same idle =
    let (r, e, channel, name, url) = new_broker-resolved a b h in
    let unlinked : IsUnlinked s = record {
      unaddressed = record {
        empty_url = ap (λ c. c.ccdt_url) same ∙ url ∙ empty;
        unnamed = ap (λ c. c.conn_name) same ∙ name ∙ resolve_address-table a [] r empty e;
      };
      unlinked = idle;
    } in
    elim (run-cases (connect_sync env) s) [
      | inl (v, t, q) ↦ absurd (simp q at ((connect_sync-Raised env).at s unlinked))
      | inr (f, t, q) ↦
          let left : IsUnlinked t = simp q at ((connect_sync-Raised env).at s unlinked) in
          (f, simp q, simp q left.unlinked)
    ]
