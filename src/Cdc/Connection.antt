-- ===== src/Cdc/Connection.antt =====
-- kafka/cdc/src/main.py: the pool of database connections.
pub mod Keeps
pub mod Laws
use dockerize_and_ansible.Base.{
  String, Bool, true, false, ◌&&◌, Option, none, some, if◌then◌else◌, option_eq, string_eq,
  triple_eq,
}
use dockerize_and_ansible.Base.Dict
use dockerize_and_ansible.Base.Text.{is_nonempty}
use dockerize_and_ansible.Base.Effect.{
  Outcome, return, raise, M, pure, throw, gets, modify, try_except, ◌>>=◌, ◌>>◌,
}
use dockerize_and_ansible.Cdc.State
use dockerize_and_ansible.Cdc.State.{Datasource, Login, Connection, Env, State, DbKey, ask}

-- `if value:` on an optional text
abbrev pub is_set : Option String → Bool
is_set none = false
is_set (some s) = is_nonempty s

abbrev pub db_key : Datasource → DbKey
db_key db = (db.hostname, db.port, db.database)

-- The login of a data source, by the given account.
abbrev pub login_as : Datasource → Option String → Option String → Login
login_as db user password = record {
  server = db.hostname;
  port = db.port;
  database = db.database;
  user = user;
  password = password;
}

-- `connections[db_key] = conn`, and the lookup after it
unfoldable pub store_connection : DbKey → Connection → M State Connection
store_connection key conn = do
  modify (λ s. record s { connections = Dict.put s.connections key conn })
  pure conn

abbrev pub or_open : Option Connection → M State Connection → M State Connection
or_open (some conn) open_new = pure conn
or_open none open_new = open_new

module _ (env : Env) where
  unfoldable pub mssql_login : Datasource → Option String → Option String → M State Connection
  mssql_login db user password = do
    let login = login_as db user password
    ask (State.mssql_connect login) (env.mssql_connect login)
    store_connection (db_key db) (State.mssql login)

  -- The account of the data source; its failure is raised again.
  unfoldable pub original_login : Datasource → M State Connection
  original_login db = mssql_login db db.user db.password

  abbrev pub has_reserved : Bool
  has_reserved = is_set env.reserved_user && is_set env.reserved_password

  -- The reserved account first, if there is one; its failure is only a warning.
  unfoldable pub open_sqlserver : Datasource → M State Connection
  open_sqlserver db =
      if has_reserved
      then try_except (mssql_login db env.reserved_user env.reserved_password)
          (λ e. original_login db)
      else original_login db

  unfoldable pub get_sqlserver_connection : Datasource → M State Connection
  get_sqlserver_connection db = do
    found ← gets (λ s. Dict.get s.connections (db_key db))
    or_open found (open_sqlserver db)

  -- The connection stands in the pool before it is set to commit by itself.
  unfoldable pub open_postgres : Datasource → M State Connection
  open_postgres db = do
    let login = login_as db db.user db.password
    ask (State.postgres_connect login) (env.postgres_connect login)
    conn ← store_connection (db_key db) (State.postgres login)
    ask (State.set_autocommit login) (env.set_autocommit login)
    pure conn

  unfoldable pub get_postgres_connection : Datasource → M State Connection
  get_postgres_connection db = do
    found ← gets (λ s. Dict.get s.connections (db_key db))
    or_open found (open_postgres db)
