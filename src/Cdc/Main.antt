-- ===== src/Cdc/Main.antt =====
-- kafka/cdc/src/main.py: `main`, which runs the parts in turn.
use dockerize_and_ansible.Base.{String, some, List, keep, ◌==◌, option_eq, string_eq}
use dockerize_and_ansible.Base.Effect.{M, pure, try_except, ◌>>=◌, ◌>>◌}
use dockerize_and_ansible.Cdc.State.{Datasource, Env, State}
use dockerize_and_ansible.Cdc.Connectors.{
  Files, sqlserver_driver, postgres_driver, get_debezium_sqlserver_connectors,
}
use dockerize_and_ansible.Cdc.SqlServer.{check_and_repair_sqlserver_datasource}
use dockerize_and_ansible.Cdc.Topics.{check_and_repair_kafka_topics}
use dockerize_and_ansible.Cdc.Sync.{check_sqlserver2kafka_sync}
use dockerize_and_ansible.Cdc.Restart.{check_and_restart_kafka_connect_failed_tasks}
use dockerize_and_ansible.Cdc.Lag.{check_kafka2postgres_sync}
use dockerize_and_ansible.Cdc.Postgres.{check_and_repair_postgres_datasource}

-- What `method.upper()` may be.
pub data Method : Type 0 where
  kafka seatunnel unsupported : Method

abbrev of_driver : String → List Datasource → List Datasource
of_driver driver ds = keep (λ d. d.driver == some driver) ds

module _ (env : Env) where
  -- The other methods do nothing yet.
  unfoldable pub check_sqlserver2postgres_sync : List Datasource → Method → M State (Unit {0})
  check_sqlserver2postgres_sync ds kafka = do
    check_sqlserver2kafka_sync env 3 ds
    check_and_restart_kafka_connect_failed_tasks env
    check_kafka2postgres_sync env
    pure tt
  check_sqlserver2postgres_sync ds seatunnel = pure tt
  check_sqlserver2postgres_sync ds unsupported = pure tt

  -- `check_postgres2kafka_sync`, which ends the run, is empty.
  unfoldable pub main : Files → M State (Unit {0})
  main files =
      try_except
        (do
          ds ← get_debezium_sqlserver_connectors files env
          sqlds ← check_and_repair_sqlserver_datasource env (of_driver sqlserver_driver ds)
          check_and_repair_kafka_topics env sqlds
          check_sqlserver2postgres_sync sqlds kafka
          check_and_repair_postgres_datasource env (of_driver postgres_driver ds)
          pure tt)
        (λ e. pure tt)
