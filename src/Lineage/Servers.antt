-- ===== src/Lineage/Servers.antt =====
-- mssql/replication/main.py: the pool of connections and what is read from and dropped on a server.
pub mod Keeps
pub mod Places
use dockerize_and_ansible.Base.{
  String, Bool, true, false, not, Option, none, some, List, [], ◌∷◌, contains, if◌then◌else◌,
  string_eq,
}
use dockerize_and_ansible.Base.Dict
use dockerize_and_ansible.Base.Effect.{
  Exception, connection_error, type_error, Outcome, M, pure, throw, gets, modify, try_except, ◌>>=◌,
  ◌>>◌,
}
use dockerize_and_ansible.Lineage.State
use dockerize_and_ansible.Lineage.State.{
  Credential, Config, Signature, signature_eq, Connection, Shipping, Subscription, Query,
  help_distributor, select_log_shipping, select_replication, drop_subscription,
  cleanup_subscription, Env, State, ask,
}

abbrev pub signature : Config → Signature
signature config = record { server = config.server; database = config.database }

-- `config['server'] = server`
abbrev pub at_server : String → Config → Config
at_server server config = record config { server = server }

-- `CONNECTION_POOL[signature] = conn`
unfoldable pub store_connection : Connection → M State Connection
store_connection conn = do
  modify (λ s. record s { pool = Dict.put s.pool conn.place conn })
  pure conn

abbrev pub or_open : Option Connection → M State Connection → M State Connection
or_open (some conn) open_new = pure conn
or_open none open_new = open_new

-- `subscriber not in config["blacklist"]`; without a list that is a TypeError.
abbrev pub if_blacklisted : Option (List String) → String → M State (Unit {0}) → M State (Unit {0})
if_blacklisted none subscriber drop = throw type_error
if_blacklisted (some blacklist) subscriber drop =
    if not (contains blacklist subscriber) then pure tt else drop

module _ (env : Env) where
  unfoldable pub login : Signature → Credential → M State Connection
  login place c = do
    ask (State.connect place c) (env.connect place c)
    store_connection (record { place = place; user = c.user })

  -- The credentials in order; once all have failed, a ConnectionError.
  unfoldable pub try_credentials : Signature → List Credential → M State Connection
  try_credentials place [] = throw connection_error
  try_credentials place (c ∷ cs) =
      let rest = try_credentials place cs in try_except (login place c) (λ e. rest)

  unfoldable pub connect_sql_server : Config → M State Connection
  connect_sql_server config = do
    found ← gets (λ s. Dict.get s.pool (signature config))
    or_open found (try_credentials (signature config) config.credentials)

  -- Errors of the three queries count as no answer.
  unfoldable pub get_sql_server_distributor : Connection → M State (Option String)
  get_sql_server_distributor conn =
      try_except (ask (State.execute conn help_distributor) (env.distributor conn)) (λ e. pure none)

  unfoldable pub get_log_shipping_info : Connection → M State (List Shipping)
  get_log_shipping_info conn =
      try_except (ask (State.execute conn select_log_shipping) (env.log_shipping conn))
        (λ e. pure [])

  unfoldable pub get_replication_info : Connection → M State (List Subscription)
  get_replication_info conn =
      try_except (ask (State.execute conn select_replication) (env.replication conn)) (λ e. pure [])

  -- One statement on a server, and its commit.
  unfoldable pub run_at : Config → Query → M State (Unit {0})
  run_at config query = do
    conn ← connect_sql_server config
    ask (State.execute conn query) (env.execute conn query)
    ask (State.commit conn) (env.commit conn)

  -- Both handlers only log. The server that the call leaves in the configuration is set anew before
  -- the next connection, and is not kept here.
  unfoldable pub drop_both : Subscription → Config → M State (Unit {0})
  drop_both sub config =
      try_except
        (do
          run_at (at_server sub.publisher config) (drop_subscription sub)
          run_at (at_server sub.subscriber config) (cleanup_subscription sub))
        (λ e. pure tt)

  unfoldable pub drop_inactive_subscription : Subscription → Config → M State (Unit {0})
  drop_inactive_subscription sub config =
      if_blacklisted config.blacklist sub.subscriber (drop_both sub config)
