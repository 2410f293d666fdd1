-- ===== src/Cdc/SqlServer/Effects.antt =====
-- What the inspection of SQL Server sources does to the outside.
use dockerize_and_ansible.Base.{String, true, Option, none, some, List, [], ◌∷◌, All, All-append}
use dockerize_and_ansible.Base.Effect.{Outcome, ◌>>=◌}
use dockerize_and_ansible.Base.Effect.Keeps.{Keeps, Keeps-pure, Keeps-bind, keeps_rules}
use dockerize_and_ansible.Cdc.State
use dockerize_and_ansible.Cdc.State.{
  Datasource, Login, Connection, mssql, postgres, Query, Env, State, Event, History, DbKey, ask,
  run, column, Cell, Row, fetch_one, enable_table, disable_table, drop_slot,
}
use dockerize_and_ansible.Cdc.Connection.{
  store_connection, mssql_login, original_login, open_sqlserver, get_sqlserver_connection,
}
use dockerize_and_ansible.Cdc.Connection.Keeps.{or_open-Keeps, column-Keeps}
use dockerize_and_ansible.Cdc.SqlServer.{
  field, with_schema, tracked_names, is_positive, check_sqlserver_cdc, job_is_running, is_published,
  check_sqlserver_cdc_agent_job, restart_sqlserver_cdc_agent_job, is_sqlserver_alwayson,
  is_sqlserver_alwayson_primary, get_sqlserver_alwayson_primary, check_sqlserver_alwayson_status,
  apply_sqlserver_cdc_changes, repair_sqlserver, switch_to_primary, check_and_repair_one,
  check_and_repair_sqlserver_datasource,
}

-- Statements that leave the CDC of tables and the replication slots as they are. Starting a
-- capture job is one.
abbrev pub IsMild : Query → Type 0
IsMild (enable_table _ _) = ⊥
IsMild (disable_table _ _) = ⊥
IsMild (drop_slot _) = ⊥
IsMild _ = Unit

-- Logins, cursors, and mild statements to a SQL Server; nothing else, no commit and no call of Kafka Connect.
abbrev pub IsInspection : Event → Type 0
IsInspection (State.mssql_connect _) = Unit
IsInspection (State.open_cursor _) = Unit
IsInspection (State.execute _ query) = IsMild query
IsInspection _ = ⊥

pub record Inspects (s : State) : Type 0 where
  pub calls : All IsInspection s.trace

ask-Inspects :
    {A : Type 0} (e : Event) (answer : History → Outcome A)
    → IsInspection e
    → Keeps Inspects (ask e answer)
unfolding ask
ask-Inspects e answer ok = record {
  at = λ s h. record { calls = All-append IsInspection s.trace (e ∷ []) h.calls (ok, tt) };
}

store-Inspects : (key : DbKey) (conn : Connection) → Keeps Inspects (store_connection key conn)
unfolding ◌>>=◌ store_connection
store-Inspects key conn = record { at = λ s h. record { calls = h.calls } }

run-Inspects :
    (env : Env) (conn : Connection) (query : Query)
    → IsMild query
    → Keeps Inspects (run env conn query)
unfolding run
run-Inspects env conn query ok = ask-Inspects (State.execute conn query) _ ok

mssql_login-Inspects :
    (env : Env) (db : Datasource) (user password : Option String)
    → Keeps Inspects (mssql_login env db user password)
unfolding mssql_login
mssql_login-Inspects env db user password = search (keeps_rules, store-Inspects, ask-Inspects, tt)

get-Inspects : (env : Env) (db : Datasource) → Keeps Inspects (get_sqlserver_connection env db)
unfolding get_sqlserver_connection open_sqlserver original_login
get-Inspects env db = search (keeps_rules, or_open-Keeps, mssql_login-Inspects)

module _ {P : State → Type 0} where
  field-Keeps : (row : Option Row) (name : String) → Keeps P (field row name)
  field-Keeps none name = search keeps_rules
  field-Keeps (some row) name = column-Keeps row name

  with_schema-Keeps : (c : Cell) → Keeps P (with_schema c)
  with_schema-Keeps (State.text t) = search keeps_rules
  with_schema-Keeps _ = search keeps_rules

  is_positive-Keeps : (c : Cell) → Keeps P (is_positive c)
  is_positive-Keeps (State.number n) = search keeps_rules
  is_positive-Keeps (State.boolean b) = search keeps_rules
  is_positive-Keeps _ = search keeps_rules

  tracked_names-Keeps : (rows : List Row) → Keeps P (tracked_names rows)
  unfolding tracked_names
  tracked_names-Keeps [] = search keeps_rules
  tracked_names-Keeps (row ∷ rows) =
      Keeps-bind (column row "name") _ (column-Keeps row "name") λ cell.
        Keeps-bind (with_schema cell) _ (with_schema-Keeps cell)
          λ name. Keeps-bind (tracked_names rows) _ (tracked_names-Keeps rows) λ names. Keeps-pure _

ruleset inspects_rules = (
  keeps_rules, field-Keeps, column-Keeps, is_positive-Keeps, tracked_names-Keeps, get-Inspects,
  run-Inspects, tt,
)

job_is_running-Inspects : (job : Option Row) → Keeps Inspects (job_is_running job)
unfolding job_is_running
job_is_running-Inspects job = search inspects_rules depth 20

is_published-Inspects : (job : Option Row) → Keeps Inspects (is_published job)
unfolding is_published
is_published-Inspects job = search inspects_rules depth 20

module _ (env : Env) (db : Datasource) where
  check_sqlserver_cdc-Inspects : Keeps Inspects (check_sqlserver_cdc env db)
  unfolding check_sqlserver_cdc
  check_sqlserver_cdc-Inspects = search inspects_rules depth 20

  agent_job-Inspects : Keeps Inspects (check_sqlserver_cdc_agent_job env db)
  unfolding check_sqlserver_cdc_agent_job
  agent_job-Inspects =
      search (inspects_rules, ask-Inspects, job_is_running-Inspects, is_published-Inspects) depth 20

  restart-Inspects : Keeps Inspects (restart_sqlserver_cdc_agent_job env db)
  unfolding restart_sqlserver_cdc_agent_job
  restart-Inspects = search inspects_rules depth 20

  is_alwayson-Inspects : Keeps Inspects (is_sqlserver_alwayson env db)
  unfolding is_sqlserver_alwayson
  is_alwayson-Inspects = search inspects_rules depth 20

  is_primary-Inspects : Keeps Inspects (is_sqlserver_alwayson_primary env db)
  unfolding is_sqlserver_alwayson_primary
  is_primary-Inspects = search inspects_rules depth 20

  get_primary-Inspects : Keeps Inspects (get_sqlserver_alwayson_primary env db)
  unfolding get_sqlserver_alwayson_primary
  get_primary-Inspects = search inspects_rules depth 20

  status-Inspects : Keeps Inspects (check_sqlserver_alwayson_status env db)
  unfolding check_sqlserver_alwayson_status
  status-Inspects = search inspects_rules depth 20

  -- In a dry run the loops over the tables do nothing.
  apply_dry-Inspects :
      (enable disable : List String)
      → Keeps Inspects (apply_sqlserver_cdc_changes env db enable disable true)
  unfolding apply_sqlserver_cdc_changes
  apply_dry-Inspects enable disable = search inspects_rules depth 20

ruleset round_rules = (
  keeps_rules, check_sqlserver_cdc-Inspects, agent_job-Inspects, restart-Inspects,
  is_alwayson-Inspects, is_primary-Inspects, get_primary-Inspects, status-Inspects,
  apply_dry-Inspects,
)

module _ (env : Env) where
  repair-Inspects :
      (enable disable : List String) (db : Datasource)
      → Keeps Inspects (repair_sqlserver env enable disable db)
  unfolding repair_sqlserver
  repair-Inspects enable disable db = search round_rules depth 20

  switch-Inspects : (db : Datasource) → Keeps Inspects (switch_to_primary env db)
  unfolding switch_to_primary
  switch-Inspects db = search round_rules depth 20

  check_and_repair_one-Inspects : (db : Datasource) → Keeps Inspects (check_and_repair_one env db)
  unfolding check_and_repair_one
  check_and_repair_one-Inspects db = search (round_rules, repair-Inspects, switch-Inspects) depth 20

  -- Whatever the databases answer, and wherever it stops, the inspection of SQL Server sources
  -- makes no calls but logins, cursors and mild statements, if none were made before: it enables and
  -- disables CDC of no table, drops no slot, commits nothing and leaves Kafka Connect alone.
  pub check_and_repair_sqlserver_datasource-Inspects :
      (dbs : List Datasource) → Keeps Inspects (check_and_repair_sqlserver_datasource env dbs)
  unfolding check_and_repair_sqlserver_datasource
  check_and_repair_sqlserver_datasource-Inspects dbs =
      search (keeps_rules, check_and_repair_one-Inspects)
