-- ===== src/Cdc/Connection/Keeps.antt =====
-- The parts that every statement over `connections` and rows is made of, for any invariant.
use dockerize_and_ansible.Base.{String, Option, none, some}
use dockerize_and_ansible.Base.Effect.{M}
use dockerize_and_ansible.Base.Effect.Keeps.{Keeps, keeps_rules}
use dockerize_and_ansible.Cdc.State.{
  Connection, Cell, Row, Env, State, Datasource, Login, DbKey, postgres_connect, set_autocommit,
  ask, or_key_error, column,
}
use dockerize_and_ansible.Cdc.Connection.{
  or_open, store_connection, open_postgres, get_postgres_connection,
}

pub or_open-Keeps :
    {P : State → Type 0} (o : Option Connection) (m : M State Connection)
    → Keeps P m
    → Keeps P (or_open o m)
or_open-Keeps none m k = k
or_open-Keeps (some c) m k = search keeps_rules

module _ {P : State → Type 0} where
  or_key_error-Keeps : (o : Option Cell) → Keeps P (or_key_error o)
  or_key_error-Keeps none = search keeps_rules
  or_key_error-Keeps (some c) = search keeps_rules

  pub column-Keeps : (row : Row) (name : String) → Keeps P (column row name)
  unfolding column
  column-Keeps row name = or_key_error-Keeps _

-- An invariant that logging in, pooling and setting the mode keep is kept by the whole lookup.
module _ {P : State → Type 0} (env : Env) (db : Datasource)
    (logins : (l : Login) → Keeps P (ask (postgres_connect l) (env.postgres_connect l)))
    (pools : (key : DbKey) (conn : Connection) → Keeps P (store_connection key conn))
    (sets : (l : Login) → Keeps P (ask (set_autocommit l) (env.set_autocommit l))) where
  open_postgres-Keeps : Keeps P (open_postgres env db)
  unfolding open_postgres
  open_postgres-Keeps = search (keeps_rules, logins, pools, sets)

  pub get_postgres_connection-Keeps : Keeps P (get_postgres_connection env db)
  unfolding get_postgres_connection
  get_postgres_connection-Keeps = search (keeps_rules, or_open-Keeps, open_postgres-Keeps)
