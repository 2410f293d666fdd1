-- ===== src/Cdc/SqlServer.antt =====
-- kafka/cdc/src/main.py: the checks of a SQL Server source and the statements that repair it.
pub mod Tables
pub mod Effects
pub mod Apply
pub mod Converges
use dockerize_and_ansible.Base.{
  String, ◌<>◌, Bool, true, false, not, ◌&&◌, ◌||◌, Option, none, some, List, [], ◌∷◌, contains,
  update, minus, if◌then◌else◌, ◌==◌, string_eq, nat_eq, ltb,
}
use dockerize_and_ansible.Base.Text.{split, last}
use dockerize_and_ansible.Base.Effect.{
  Outcome, return, raise, type_error, M, pure, throw, try_except, ◌>>=◌, ◌>>◌, for_each, map_each,
}
use dockerize_and_ansible.Cdc.State.{
  Datasource, Connection, Query, select_cdc_enabled, select_tracked_tables, help_job_activity,
  select_is_published, start_capture_job, count_availability_groups, select_is_primary,
  select_primary_replica, select_replica_state, enable_table, disable_table, Cell, null, number,
  text, boolean, Row, Event, Env, State, ask, run, column, fetch_one,
}
use dockerize_and_ansible.Cdc.State
use dockerize_and_ansible.Cdc.Connection.{get_sqlserver_connection}

-- `row[name]` on what `fetchone` gave: `None[name]` is a TypeError.
abbrev pub field : Option Row → String → M State Cell
field none name = throw type_error
field (some row) name = column row name

-- `if row:`, false for no row and for a row without columns
abbrev pub is_row : Option Row → Bool
is_row none = false
is_row (some []) = false
is_row (some (_ ∷ _)) = true

abbrev pub is_null : Cell → Bool
is_null null = true
is_null _ = false

-- `cell == n`, for a number; `True == 1` in Python.
abbrev pub is_one : Cell → Bool
is_one (number n) = n == 1
is_one (boolean b) = b
is_one _ = false

-- `cell > 0`
abbrev pub is_positive : Cell → M State Bool
is_positive (number n) = pure (ltb 0 n)
is_positive (boolean b) = pure b
is_positive _ = throw type_error

-- `"dbo." + cell`
abbrev pub with_schema : Cell → M State String
with_schema (text name) = pure ("dbo." <> name)
with_schema _ = throw type_error

-- `{"dbo." + row['name'] for row in rows}`, the names in the order of the rows
unfoldable pub tracked_names : List Row → M State (List String)
tracked_names [] = pure []
tracked_names (row ∷ rows) = do
  name ← with_schema (← column row "name")
  names ← tracked_names rows
  pure (name ∷ names)

-- The two set differences of `check_sqlserver_cdc`: the tables whose CDC is to be enabled, and
-- those whose CDC is to be disabled.
unfoldable pub compare_tables : List String → List String → List String × List String
compare_tables synced_tables cdc_tables =
    (minus synced_tables cdc_tables, minus cdc_tables synced_tables)

-- `job_status and start is not None and stop is None`
unfoldable pub job_is_running : Option Row → M State Bool
job_is_running job =
    if is_row job
    then (do
      start ← field job "start_execution_date"
      if is_null start
          then pure false
          else (do stop ← field job "stop_execution_date"; pure (is_null stop)))
    else pure false

-- `repl_status and repl_status['IsPublished'] == 1`
unfoldable pub is_published : Option Row → M State Bool
is_published status =
    if is_row status
    then (do published ← field status "IsPublished"; pure (is_one published))
    else pure false

-- A host name in a column; the column holds a text or NULL.
abbrev pub host_of : Cell → Option String
host_of (text host) = some host
host_of _ = none

-- `status and status[…] != "SYNCHRONIZING"`
abbrev pub is_synchronizing : Cell → Bool
is_synchronizing (text state) = state == "SYNCHRONIZING"
is_synchronizing _ = false

-- One statement and its commit; a failure is only an error line.
unfoldable pub apply_statement : Env → Connection → Query → M State (Unit {0})
apply_statement env conn query =
    try_except (do run env conn query; ask (State.commit conn) (env.commit conn)) (λ e. pure tt)

-- `table.split(".")[-1]`
abbrev pub table_name : String → String
table_name table = last (split "." table)

module _ (env : Env) (db : Datasource) where
  unfoldable pub check_sqlserver_cdc : M State (Bool × List String × List String)
  check_sqlserver_cdc =
      try_except
        (do
          conn ← get_sqlserver_connection env db
          enabled ← run env conn (select_cdc_enabled db.database)
          (if is_row (fetch_one enabled)
              then field (fetch_one enabled) "is_cdc_enabled"
              else pure null)
          rows ← run env conn select_tracked_tables
          names ← tracked_names rows
          let result = compare_tables (update [] db.tables) (update [] names)
          pure (true, result.0, result.1))
        (λ e. pure (false, [], []))

  -- The connection and the cursor are made outside the `try`, and the handler sends a query of its
  -- own: all of them may raise.
  unfoldable pub check_sqlserver_cdc_agent_job : M State Bool
  check_sqlserver_cdc_agent_job = do
    conn ← get_sqlserver_connection env db
    ask (State.open_cursor conn) (env.open_cursor conn)
    try_except
        (do rows ← run env conn (help_job_activity db.database); job_is_running (fetch_one rows))
        (λ e. do
          rows ← run env conn (select_is_published db.database)
          is_published (fetch_one rows))

  unfoldable pub restart_sqlserver_cdc_agent_job : M State (Unit {0})
  restart_sqlserver_cdc_agent_job =
      try_except
        (do
          conn ← get_sqlserver_connection env db
          run env conn (start_capture_job db.database)
          pure tt)
        (λ e. pure tt)

  unfoldable pub is_sqlserver_alwayson : M State Bool
  is_sqlserver_alwayson =
      try_except
        (do
          conn ← get_sqlserver_connection env db
          rows ← run env conn count_availability_groups
          groups ← field (fetch_one rows) "is_alwayson"
          is_positive groups)
        (λ e. pure false)

  unfoldable pub is_sqlserver_alwayson_primary : M State Bool
  is_sqlserver_alwayson_primary =
      try_except
        (do
          conn ← get_sqlserver_connection env db
          rows ← run env conn (select_is_primary db.database)
          (if is_row (fetch_one rows)
              then (do
                primary ← field (fetch_one rows) "is_primary"
                pure (is_one primary || is_null primary))
              else pure false))
        (λ e. pure false)

  -- The data source with the host name of the primary replica, if there is one.
  unfoldable pub get_sqlserver_alwayson_primary : M State Datasource
  get_sqlserver_alwayson_primary =
      try_except
        (do
          conn ← get_sqlserver_connection env db
          rows ← run env conn select_primary_replica
          (if is_row (fetch_one rows)
              then (do
                primary ← field (fetch_one rows) "primary_replica"
                pure (record db { hostname = host_of primary }))
              else pure db))
        (λ e. pure db)

  unfoldable pub check_sqlserver_alwayson_status : M State Bool
  check_sqlserver_alwayson_status =
      try_except
        (do
          conn ← get_sqlserver_connection env db
          rows ← run env conn (select_replica_state db.database)
          (if is_row (fetch_one rows)
              then (do
                state ← field (fetch_one rows) "synchronization_state_desc"
                pure (is_synchronizing state))
              else pure true))
        (λ e. pure false)

  unfoldable pub apply_sqlserver_cdc_changes : List String → List String → Bool → M State (Unit {0})
  apply_sqlserver_cdc_changes enable_tables disable_tables dry_run =
      try_except
        (do
          conn ← get_sqlserver_connection env db
          for_each enable_tables λ table.
              if not dry_run
              then apply_statement env conn (enable_table db.database (table_name table))
              else pure tt
          for_each disable_tables λ table.
              if not dry_run
              then apply_statement env conn (disable_table db.database (table_name table))
              else pure tt)
        (λ e. pure tt)

module _ (env : Env) where
  -- What remains of the round for a data source once the AlwaysOn part has passed.
  unfoldable pub repair_sqlserver : List String → List String → Datasource → M State Datasource
  repair_sqlserver need_enable need_disable db = do
    running ← check_sqlserver_cdc_agent_job env db
    if running then pure tt else restart_sqlserver_cdc_agent_job env db
    apply_sqlserver_cdc_changes env db need_enable need_disable true
    pure db

  -- The secondary role is left for the primary one; what was given is changed in place.
  unfoldable pub switch_to_primary : Datasource → M State Datasource
  switch_to_primary db = do
    primary ← is_sqlserver_alwayson_primary env db
    if primary then pure db else get_sqlserver_alwayson_primary env db

  unfoldable pub check_and_repair_one : Datasource → M State Datasource
  check_and_repair_one db = do
    (success, need_enable, need_disable) ← check_sqlserver_cdc env db
    if not success then pure db else (do
      alwayson ← is_sqlserver_alwayson env db
      if not alwayson then repair_sqlserver need_enable need_disable db else (do
        synchronous ← check_sqlserver_alwayson_status env db
        if not synchronous then pure db else (do
          current ← switch_to_primary db
          repair_sqlserver need_enable need_disable current)))

  -- The data sources are objects: what the loop changes in them, their owner sees afterwards.
  unfoldable pub check_and_repair_sqlserver_datasource : List Datasource → M State (List Datasource)
  check_and_repair_sqlserver_datasource dbs = map_each dbs check_and_repair_one
