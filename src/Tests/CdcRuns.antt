-- ===== src/Tests/CdcRuns.antt =====
-- kafka/cdc/src/main.py at a small pipeline: one SQL Server source, one connector.
use dockerize_and_ansible.Base.{
  String, ◌≡◌, refl, false, none, some, List, [], ◌∷◌, flat, ◌==◌, string_eq, option_eq, nat_eq,
  triple_eq, if◌then◌else◌, arith,
}
use dockerize_and_ansible.Base.Dict
use dockerize_and_ansible.Base.Effect.{return, raise, other_exception, ◌>>=◌}
use dockerize_and_ansible.Base.Effect.Keeps.{Keeps}
use dockerize_and_ansible.Cdc.State
use dockerize_and_ansible.Cdc.State.{
  Datasource, Login, Connection, mssql, Query, Row, Task, Response, Group, Connector, Env, State,
  History, DbKey, enable_table, disable_table,
}
use dockerize_and_ansible.Cdc.Connection.{
  db_key, login_as, get_sqlserver_connection, get_postgres_connection,
}
use dockerize_and_ansible.Cdc.Connection.Laws
use dockerize_and_ansible.Cdc.Connection.Laws.{try_logins, reserved_logins, IsFaithful}
use dockerize_and_ansible.Cdc.SqlServer.{check_and_repair_sqlserver_datasource}
use dockerize_and_ansible.Cdc.SqlServer.Effects.{
  Inspects, check_and_repair_sqlserver_datasource-Inspects,
}
use dockerize_and_ansible.Cdc.Restart.{check_and_restart_kafka_connect_failed_tasks}
use dockerize_and_ansible.Cdc.Restart.Posts.{AnswersRestarts, Posts}
use dockerize_and_ansible.Cdc.Restart.Laws.{
  restarts_of, check_and_restart_kafka_connect_failed_tasks-Posts,
}
use dockerize_and_ansible.Cdc.Lag.{
  high_lag_groups, sets_restart_needed, restart_tasks, check_kafka2postgres_sync, connector_of,
}
use dockerize_and_ansible.Cdc.Lag.Laws.{
  from_first, all_of, restarts_for, restart_tasks-Posts, check_kafka2postgres_sync-Posts,
}
use dockerize_and_ansible.Cdc.Postgres.{
  needs_restart, needs_recreate, repair_tasks, check_and_repair_postgres_datasource,
}
use dockerize_and_ansible.Cdc.Postgres.Laws.{
  NoDrop, ListsNoFatal, check_and_repair_postgres_datasource-NoDrop,
}
use dockerize_and_ansible.Cdc.Postgres.Restarts.{repair_tasks-Posts}

abbrev pub source : Datasource
source = record {
  driver = some "sqlserver";
  database = some "mes";
  hostname = some "db1";
  port = none;
  user = some "cdc";
  password = some "secret";
  tables = "dbo.orders" ∷ "dbo.lines" ∷ [];
  topics = "mes.dbo.orders" ∷ "mes.dbo.lines" ∷ [];
  active_topics = "mes.dbo.orders" ∷ [];
  connectors = "mes-sink" ∷ [];
  replication_slot = some "mes_slot";
}

abbrev running : Task
running = record { id = 0; state = some "RUNNING"; trace = none }

abbrev failed : Task
failed = record { id = 1; state = some "FAILED"; trace = some "java.net.SocketTimeoutException" }

abbrev broken : Task
broken = record { id = 2; state = some "FAILED"; trace = none }

abbrev statuses : Dict.Dict String (List Task)
statuses = ("mes-sink", running ∷ failed ∷ broken ∷ []) ∷ []

abbrev lagging : List Group
lagging = (record { group_id = "connect-mes-sink"; summed_lags = 3 ∷ 500 ∷ [] }) ∷ []

abbrev first_topic : List String → String
first_topic [] = ""
first_topic (topic ∷ topics) = topic

abbrev pub empty : State
empty = record { connections = []; trace = [] }

-- The reserved account is refused; statements return no rows.
abbrev pub env : Env
env = record {
  reserved_user = some "reserved";
  reserved_password = some "pw";
  mssql_connect = λ l h. if l.user == some "reserved" then raise other_exception else return tt;
  postgres_connect = λ l h. return tt;
  execute = λ conn query h. return [];
  commit = λ conn h. return tt;
  open_cursor = λ conn h. return tt;
  set_autocommit = λ login h. return tt;
  connectors = λ h. return (record { status_code = 200; body = [] });
  connectors_status = λ h. return (record { status_code = 200; body = statuses });
  connector_topics = λ name h. return (record { status_code = 404; body = [] });
  connector_status = λ name h. return (record { status_code = 200; body = running ∷ failed ∷ [] });
  post_restart = λ name id h. return (record { status_code = 204; body = tt });
  consumer_groups = λ h. return (record { status_code = 200; body = lagging });
  topics = λ h. return (record { status_code = 200; body = [] });
  choose = λ topics h. first_topic topics;
  partitions = λ topic h. return (0 ∷ []);
  watermarks = λ topic partition h. return (0, 5);
  poll = λ topic partition offset h. return (some 1700000000000);
}

own_login : Connection
own_login = mssql (login_as source (some "cdc") (some "secret"))

abbrev connected : Connection
connected = mssql (login_as source (some "cdc") (some "secret"))

abbrev after_login : State
after_login = record {
  connections = (db_key source, connected) ∷ [];
  trace =
      State.mssql_connect (login_as source (some "reserved") (some "pw"))
      ∷ State.mssql_connect (login_as source (some "cdc") (some "secret"))
      ∷ [];
}

-- The reserved account fails, the own one succeeds.
second_account : get_sqlserver_connection env source empty ≡ (return connected, after_login)
unfolding get_sqlserver_connection dockerize_and_ansible.Cdc.Connection.open_sqlserver
    dockerize_and_ansible.Cdc.Connection.original_login
    dockerize_and_ansible.Cdc.Connection.mssql_login
    dockerize_and_ansible.Cdc.Connection.store_connection State.ask ◌>>=◌ Dict.get Dict.put
    option_eq string_eq triple_eq
second_account = refl

get_sqlserver_connection-try_logins_example :
    get_sqlserver_connection env source empty
    ≡ try_logins env
        (db_key source)
        (reserved_logins env source)
        (login_as source source.user source.password)
        empty
unfolding Dict.get
get_sqlserver_connection-try_logins_example =
    Laws.get_sqlserver_connection-try_logins env source empty refl

get_connection-IsFaithful_example :
    Keeps IsFaithful (get_sqlserver_connection env source)
    × Keeps IsFaithful (get_postgres_connection env source)
get_connection-IsFaithful_example = Laws.get_connection-IsFaithful env source

check_and_repair_sqlserver_datasource-Inspects_example :
    Keeps Inspects (check_and_repair_sqlserver_datasource env (source ∷ []))
check_and_repair_sqlserver_datasource-Inspects_example =
    check_and_repair_sqlserver_datasource-Inspects env (source ∷ [])

answers : AnswersRestarts env
answers name id h = (record { status_code = 204; body = tt }, refl)

check_and_restart_kafka_connect_failed_tasks-Posts_example :
    Posts (check_and_restart_kafka_connect_failed_tasks env) empty (flat restarts_of statuses)
check_and_restart_kafka_connect_failed_tasks-Posts_example =
    check_and_restart_kafka_connect_failed_tasks-Posts env empty
      (record { status_code = 200; body = statuses }) answers refl refl

-- The second failure forbids a restart, and is restarted for the task before it.
restart_tasks-Posts_example :
    Posts
      (restart_tasks env "mes-sink" false (running ∷ broken ∷ []))
      empty
      (all_of "mes-sink" (from_first sets_restart_needed (running ∷ broken ∷ [])))
restart_tasks-Posts_example =
    restart_tasks-Posts env answers "mes-sink" (running ∷ broken ∷ []) empty

check_kafka2postgres_sync-Posts_example : Posts (check_kafka2postgres_sync env) empty (
    flat
      (λ id.
        restarts_for (connector_of id) (record { status_code = 200; body = running ∷ failed ∷ [] }))
      (high_lag_groups lagging))
check_kafka2postgres_sync-Posts_example =
    check_kafka2postgres_sync-Posts env answers
      (λ name. record { status_code = 200; body = running ∷ failed ∷ [] }) (λ name h. refl) empty
      (record { status_code = 200; body = lagging }) refl refl

no_fatal : ListsNoFatal env
unfolding dockerize_and_ansible.Cdc.Postgres.should_drop_postgres_replication_slot option_eq
    string_eq
no_fatal name h r answered = ground arith

check_and_repair_postgres_datasource-NoDrop_example :
    Keeps NoDrop (check_and_repair_postgres_datasource env (source ∷ []))
check_and_repair_postgres_datasource-NoDrop_example =
    check_and_repair_postgres_datasource-NoDrop env no_fatal (source ∷ [])

repair_tasks-Posts_example :
    Posts
      (repair_tasks env source "mes-sink" false false (running ∷ broken ∷ []))
      empty
      (all_of "mes-sink" (from_first needs_restart (running ∷ broken ∷ [])))
repair_tasks-Posts_example =
    repair_tasks-Posts env answers source "mes-sink" (running ∷ broken ∷ []) empty
