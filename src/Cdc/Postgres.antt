-- ===== src/Cdc/Postgres.antt =====
-- kafka/cdc/src/main.py: the replication slots of PostgreSQL sources, and their repair.
pub mod Laws
pub mod Restarts
use dockerize_and_ansible.Base.{
  ℕ, String, Bool, true, false, not, ◌&&◌, ◌||◌, Option, none, some, List, [], ◌∷◌, any, ◌==◌,
  if◌then◌else◌, nat_eq, string_eq, option_eq,
}
use dockerize_and_ansible.Base.Text.{includes}
use dockerize_and_ansible.Base.Effect.{M, pure, try_except, ◌>>=◌, ◌>>◌, for_each, map_each}
use dockerize_and_ansible.Cdc.State
use dockerize_and_ansible.Cdc.State.{
  Datasource, Cell, boolean, Row, Task, select_slot_active, drop_slot, Env, State, run, fetch_one,
}
use dockerize_and_ansible.Cdc.Connection.{is_set, get_postgres_connection}
use dockerize_and_ansible.Cdc.Restart.{
  get_kafka_connect_tasks_status, restart_kafka_connect_tasks, has_failed,
}
use dockerize_and_ansible.Cdc.Lag.{is_alive}

-- `result and result[0] is True`
abbrev pub is_active : Option Row → Bool
is_active (some ((name, boolean b) ∷ cells)) = b
is_active _ = false

unfoldable pub check_postgres_replication_slot : Env → Datasource → M State Bool
check_postgres_replication_slot env db =
    try_except
      (do
        conn ← get_postgres_connection env db
        rows ← run env conn (select_slot_active db.replication_slot)
        pure (is_active (fetch_one rows)))
      (λ e. pure false)

abbrev pub non_recoverable_keywords : List String
non_recoverable_keywords = "ERROR: unexpected duplicate for tablespace 0, relfilenode" ∷ []

-- A task without a trace has the trace "".
unfoldable pub should_drop_postgres_replication_slot : Option String → Bool
should_drop_postgres_replication_slot none = false
should_drop_postgres_replication_slot (some trace) =
    any (λ keyword. includes trace keyword) non_recoverable_keywords

unfoldable pub drop_postgres_replication_slot : Env → Datasource → M State (Unit {0})
drop_postgres_replication_slot env db =
    try_except
      (do
        conn ← get_postgres_connection env db
        run env conn (drop_slot db.replication_slot)
        pure tt)
      (λ e. pure tt)

-- A failed task that only a new slot can cure; and a task that a restart may cure.
abbrev pub needs_recreate : Task → Bool
needs_recreate task = has_failed task && should_drop_postgres_replication_slot task.trace

abbrev pub needs_restart : Task → Bool
needs_restart task =
    if has_failed task
    then not (should_drop_postgres_replication_slot task.trace)
    else is_alive task

-- The loop over the tasks of one connector. Neither flag is reset between tasks.
unfoldable pub repair_tasks :
    Env → Datasource → String → Bool → Bool → List Task → M State (Unit {0})
repair_tasks env db connector restart_needed recreate_needed [] = pure tt
repair_tasks env db connector restart_needed recreate_needed (task ∷ tasks) =
    let restart = restart_needed || needs_restart task in
    let recreate = recreate_needed || needs_recreate task in
    do
      if recreate then drop_postgres_replication_slot env db else pure tt
      if restart then (do restart_kafka_connect_tasks env connector task.id; pure tt) else pure tt
      repair_tasks env db connector restart recreate tasks

abbrev pub repair_listed : Env → Datasource → String → Option (List Task) → M State (Unit {0})
repair_listed env db connector none = pure tt
repair_listed env db connector (some tasks) = repair_tasks env db connector false false tasks

unfoldable pub repair_connector : Env → Datasource → String → M State (Unit {0})
repair_connector env db connector = do
  status ← get_kafka_connect_tasks_status env connector
  repair_listed env db connector status

-- A slot that is not named is `debezium`.
abbrev pub with_slot : Datasource → Datasource
with_slot db =
    if is_set db.replication_slot then db else record db { replication_slot = some "debezium" }

unfoldable pub check_and_repair_slot : Env → Datasource → M State Datasource
check_and_repair_slot env given = do
  let db = with_slot given
  active ← check_postgres_replication_slot env db
  if active then pure tt else for_each db.connectors (repair_connector env db)
  pure db

unfoldable pub check_and_repair_postgres_datasource :
    Env → List Datasource → M State (List Datasource)
check_and_repair_postgres_datasource env dbs = map_each dbs (check_and_repair_slot env)
