-- ===== src/Cdc/Connection/Laws.antt =====
-- The pool of kafka/cdc/src/main.py: what a lookup returns, which accounts are tried, and what the
-- pool holds under a key.
use dockerize_and_ansible.Base.{
  String, ◌≡◌, refl, ◌∙◌, ap, inl, inr, Option, none, some, Option-cases, List, [], ◌∷◌, ◌++◌,
  arith, ==_refl, if◌then◌else◌, option_eq, string_eq, triple_eq,
}
use dockerize_and_ansible.Base.Dict
use dockerize_and_ansible.Base.Dict.{get-put}
use dockerize_and_ansible.Base.Effect.{Outcome, return, raise, ◌>>=◌}
use dockerize_and_ansible.Base.Effect.Keeps.{Keeps, keeps_rules}
use dockerize_and_ansible.Cdc.State.{
  Datasource, Login, Connection, mssql, postgres, Env, State, Event, mssql_connect, History, DbKey,
  ask,
}
use dockerize_and_ansible.Cdc.Connection.Keeps.{or_open-Keeps}
use dockerize_and_ansible.Cdc.Connection.{
  db_key, login_as, store_connection, has_reserved, mssql_login, original_login, open_sqlserver,
  get_sqlserver_connection, open_postgres, get_postgres_connection,
}

-- Logins tried in order, each recorded, until one succeeds; the last failure is the result.
pub try_logins : Env → DbKey → List Login → Login → State → Outcome Connection × State
try_logins env key [] last s = elim (env.mssql_connect last s.trace) [
  | return _ ↦ (
    return (mssql last),
    record {
      connections = Dict.put s.connections key (mssql last);
      trace = s.trace ++ mssql_connect last ∷ [];
    },
  )
  | raise e ↦ (raise e, record s { trace = s.trace ++ mssql_connect last ∷ [] })
]
try_logins env key (first ∷ more) last s =
    let rest =
      try_logins env key more last (record s { trace = s.trace ++ mssql_connect first ∷ [] }) in
    elim (env.mssql_connect first s.trace) [
      | return _ ↦ (
        return (mssql first),
        record {
          connections = Dict.put s.connections key (mssql first);
          trace = s.trace ++ mssql_connect first ∷ [];
        },
      )
      | raise e ↦ rest
    ]

-- The accounts before the data source's own.
abbrev pub reserved_logins : Env → Datasource → List Login
reserved_logins env db =
    if has_reserved env then login_as db env.reserved_user env.reserved_password ∷ [] else []

module _ (env : Env) (db : Datasource) (s : State) where
  -- Where the pool lacks the key, the reserved account is tried first if both its variables are
  -- set, then the data source's own; the first that succeeds is pooled and returned, a failure
  -- pools nothing, and the last failure is raised.
  pub get_sqlserver_connection-try_logins :
      Dict.get s.connections (db_key db) ≡ none
      → get_sqlserver_connection env db s
        ≡ try_logins env (db_key db) (reserved_logins env db) (login_as db db.user db.password) s
  unfolding ◌>>=◌ get_sqlserver_connection open_sqlserver original_login mssql_login
      store_connection ask try_logins
  get_sqlserver_connection-try_logins fresh = rw fresh (ground arith)

  open_sqlserver-pooled :
      (conn : Connection)
      → (open_sqlserver env db s).0 ≡ return conn
      → Dict.get (open_sqlserver env db s).1.connections (db_key db) ≡ some conn
  unfolding ◌>>=◌ open_sqlserver original_login mssql_login store_connection ask
  open_sqlserver-pooled conn ok =
      ground (arith, get-put s.connections (db_key db) (db_key db) conn, ==_refl (db_key db))

-- What the program gets for a key it keeps: a second lookup under the same key, for whatever data
-- source and from whatever of the two functions, returns the same connection, calls nothing and
-- changes nothing.
module _ (env : Env) (db db' : Datasource) (s : State) (same : db_key db' ≡ db_key db) where
  get_sqlserver_connection-pooled :
      (conn : Connection)
      → (get_sqlserver_connection env db s).0 ≡ return conn
      → Dict.get (get_sqlserver_connection env db s).1.connections (db_key db) ≡ some conn
  unfolding ◌>>=◌ get_sqlserver_connection
  get_sqlserver_connection-pooled conn ok =
      elim (Option-cases (Dict.get s.connections (db_key db))) [
        | inl fresh ↦ rw fresh (open_sqlserver-pooled env db s conn (rw fresh at ok))
        | inr (old, found) ↦ ground arith
      ]

  -- A lookup that succeeded is remembered: any later lookup under the same key, by either function
  -- and for whatever account, returns that connection, makes no call and leaves the state alone.
  pub get_connection-remembered :
      (conn : Connection)
      → (get_sqlserver_connection env db s).0 ≡ return conn
      → let after = (get_sqlserver_connection env db s).1 in
        (get_sqlserver_connection env db' after ≡ (return conn, after))
        × (get_postgres_connection env db' after ≡ (return conn, after))
  get_connection-remembered conn ok =
      let after = (get_sqlserver_connection env db s).1 in
      let pooled : Dict.get after.connections (db_key db') ≡ some conn =
        ap (Dict.get after.connections) same ∙ get_sqlserver_connection-pooled conn ok in
      (
        unfold ◌>>=◌ get_sqlserver_connection in rw pooled refl,
        unfold ◌>>=◌ get_postgres_connection in rw pooled refl,
      )

-- The place that a connection was opened to.
abbrev pub target : Connection → DbKey
target (mssql l) = (l.server, l.port, l.database)
target (postgres l) = (l.server, l.port, l.database)

-- Every pooled connection leads to the place that its key names.
pub record IsFaithful (s : State) : Type 0 where
  pub at_key :
      (key : DbKey) (conn : Connection) → Dict.get s.connections key ≡ some conn → target conn ≡ key

ask-IsFaithful :
    {A : Type 0} (e : Event) (answer : History → Outcome A) → Keeps IsFaithful (ask e answer)
unfolding ask
ask-IsFaithful e answer = record { at = λ s h. record { at_key = h.at_key } }

store_connection-IsFaithful :
    (key : DbKey) (conn : Connection)
    → target conn ≡ key
    → Keeps IsFaithful (store_connection key conn)
unfolding ◌>>=◌ store_connection
store_connection-IsFaithful key conn e = record {
  at = λ s h. record {
    at_key = λ j c p. ground (arith, get-put s.connections key j conn, h.at_key j c);
  };
}

ruleset faithful_rules = (keeps_rules, or_open-Keeps, ask-IsFaithful, store_connection-IsFaithful)

module _ (env : Env) (db : Datasource) where
  mssql_login-IsFaithful :
      (user password : Option String) → Keeps IsFaithful (mssql_login env db user password)
  unfolding mssql_login
  mssql_login-IsFaithful user password = search faithful_rules

  open_sqlserver-IsFaithful : Keeps IsFaithful (open_sqlserver env db)
  unfolding open_sqlserver original_login
  open_sqlserver-IsFaithful = search (faithful_rules, mssql_login-IsFaithful)

  open_postgres-IsFaithful : Keeps IsFaithful (open_postgres env db)
  unfolding open_postgres
  open_postgres-IsFaithful = search faithful_rules

  -- Both functions keep the pool faithful, whether they return a connection or raise.
  pub get_connection-IsFaithful :
      Keeps IsFaithful (get_sqlserver_connection env db)
      × Keeps IsFaithful (get_postgres_connection env db)
  unfolding get_sqlserver_connection get_postgres_connection
  get_connection-IsFaithful = (
    search (faithful_rules, open_sqlserver-IsFaithful),
    search (faithful_rules, open_postgres-IsFaithful),
  )
