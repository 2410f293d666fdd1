-- ===== src/Lineage/Servers/Keeps.antt =====
-- What the steps on one server keep: any invariant that does not read the log of calls and that the
-- pool of connections leaves true.
use dockerize_and_ansible.Base.{String, Option, none, some, List, [], ◌∷◌, ◌++◌}
use dockerize_and_ansible.Base.Dict
use dockerize_and_ansible.Base.Effect.{Outcome, M, ◌>>=◌}
use dockerize_and_ansible.Base.Effect.Keeps.{
  Keeps, Keeps-pure, Keeps-throw, Keeps-try_except, keeps_rules,
}
use dockerize_and_ansible.Lineage.State.{
  Config, Credential, Signature, signature_eq, Connection, Subscription, Query, Env, State, Event,
  History, ask,
}
use dockerize_and_ansible.Lineage.Servers.{
  if_blacklisted, store_connection, or_open, login, try_credentials, connect_sql_server,
  get_sql_server_distributor, get_log_shipping_info, get_replication_info, run_at, drop_both,
  drop_inactive_subscription,
}

pub record IsStable (P : State → Type 0) : Type 0 where
  pub calls : (s : State) (e : Event) → P s → P (record s { trace = s.trace ++ e ∷ [] })
  pub pools :
      (s : State) (conn : Connection)
      → P s
      → P (record s { pool = Dict.put s.pool conn.place conn })

module _ {P : State → Type 0} (stable : IsStable P) where
  pub ask-Keeps : {A : Type 0} (e : Event) (answer : History → Outcome A) → Keeps P (ask e answer)
  unfolding ask
  ask-Keeps e answer = record { at = λ s h. stable.calls s e h }

  store-Keeps : (conn : Connection) → Keeps P (store_connection conn)
  unfolding store_connection ◌>>=◌
  store-Keeps conn = record { at = λ s h. stable.pools s conn h }

module _ {P : State → Type 0} (stable : IsStable P) (env : Env) where
  login-Keeps : (place : Signature) (c : Credential) → Keeps P (login env place c)
  unfolding login
  login-Keeps place c = search (keeps_rules, ask-Keeps, store-Keeps, stable)

  try_credentials-Keeps :
      (place : Signature) (cs : List Credential) → Keeps P (try_credentials env place cs)
  unfolding try_credentials
  try_credentials-Keeps place [] = Keeps-throw _
  try_credentials-Keeps place (c ∷ cs) =
      Keeps-try_except _ _ (login-Keeps place c) (λ e. try_credentials-Keeps place cs)

  or_open-Keeps :
      (o : Option Connection) (m : M State Connection) → Keeps P m → Keeps P (or_open o m)
  or_open-Keeps none m k = k
  or_open-Keeps (some c) m k = Keeps-pure c

  pub connect-Keeps : (config : Config) → Keeps P (connect_sql_server env config)
  unfolding connect_sql_server
  connect-Keeps config = search (keeps_rules, or_open-Keeps, try_credentials-Keeps)

  pub distributor-Keeps : (conn : Connection) → Keeps P (get_sql_server_distributor env conn)
  unfolding get_sql_server_distributor
  distributor-Keeps conn = search (keeps_rules, ask-Keeps, stable)

  pub log_shipping-Keeps : (conn : Connection) → Keeps P (get_log_shipping_info env conn)
  unfolding get_log_shipping_info
  log_shipping-Keeps conn = search (keeps_rules, ask-Keeps, stable)

  pub replication-Keeps : (conn : Connection) → Keeps P (get_replication_info env conn)
  unfolding get_replication_info
  replication-Keeps conn = search (keeps_rules, ask-Keeps, stable)

  run_at-Keeps : (config : Config) (query : Query) → Keeps P (run_at env config query)
  unfolding run_at
  run_at-Keeps config query = search (keeps_rules, connect-Keeps, ask-Keeps, stable)

  drop_both-Keeps : (sub : Subscription) (config : Config) → Keeps P (drop_both env sub config)
  unfolding drop_both
  drop_both-Keeps sub config = search (keeps_rules, run_at-Keeps)

  if_blacklisted-Keeps :
      (blacklist : Option (List String)) (subscriber : String) (drop : M State (Unit {0}))
      → Keeps P drop
      → Keeps P (if_blacklisted blacklist subscriber drop)
  if_blacklisted-Keeps none subscriber drop k = Keeps-throw _
  if_blacklisted-Keeps (some _) subscriber drop k = search (keeps_rules, k)

  pub drop_inactive-Keeps :
      (sub : Subscription) (config : Config) → Keeps P (drop_inactive_subscription env sub config)
  unfolding drop_inactive_subscription
  drop_inactive-Keeps sub config = if_blacklisted-Keeps _ _ _ (drop_both-Keeps sub config)
