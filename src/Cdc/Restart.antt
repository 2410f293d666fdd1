-- ===== src/Cdc/Restart.antt =====
-- kafka/cdc/src/main.py: the status of Kafka Connect tasks, and which failed tasks are restarted.
pub mod Posts
pub mod Laws
use dockerize_and_ansible.Base.{
  ℕ, String, Bool, true, false, not, ◌||◌, Option, none, some, List, [], ◌∷◌, ◌++◌, any, contains,
  ◌==◌, if◌then◌else◌, nat_eq, string_eq, option_eq,
}
use dockerize_and_ansible.Base.Dict.{Dict}
use dockerize_and_ansible.Base.Text.{includes, is_nonempty}
use dockerize_and_ansible.Base.Effect.{
  Exception, request_exception, M, pure, throw, try_except, ◌>>=◌, ◌>>◌, for_each,
}
use dockerize_and_ansible.Cdc.State
use dockerize_and_ansible.Cdc.State.{Task, Response, Env, State, ask}

-- `except requests.RequestException`: any other exception passes on.
abbrev pub on_request_exception : {A : Type 0} → A → Exception → M State A
on_request_exception a request_exception = pure a
on_request_exception a e = throw e

-- The tasks of a connector, `None` if the status cannot be had.
unfoldable pub get_kafka_connect_tasks_status : Env → String → M State (Option (List Task))
get_kafka_connect_tasks_status env connector_name =
    try_except
      (do
        response ←
            ask (State.get_connector_status connector_name) (env.connector_status connector_name)
        pure (if response.status_code == 200 then some response.body else none))
      (on_request_exception none)

unfoldable pub restart_kafka_connect_tasks : Env → String → ℕ → M State Bool
restart_kafka_connect_tasks env connector_name task_id = do
  response ←
      ask (State.post_restart connector_name task_id) (env.post_restart connector_name task_id)
  pure (contains (200 ∷ 204 ∷ []) response.status_code)

abbrev pub non_restartable_errors : List String
non_restartable_errors =
    "configured with 'delete.enabled=false' and 'pk.mode=none' and therefore requires records with a non-null Struct value and non-null Struct schema"
    ∷ "You will need to rewrite or cast the expression"
    ∷ "io.confluent.connect.jdbc.sink.TableAlterOrCreateException"
    ∷ "org.postgresql.util.PSQLException: ERROR: value too long for type character varying" ∷ []

-- Whether a task that failed with this trace may be restarted.
unfoldable pub check_kafka_connect_failed_tasks : Option String → Bool
check_kafka_connect_failed_tasks none = true
check_kafka_connect_failed_tasks (some trace) =
    if not (is_nonempty trace)
    then true
    else not (any (λ error. includes trace error) non_restartable_errors)

abbrev pub has_failed : Task → Bool
has_failed task = task.state == some "FAILED"

-- A failed task, with its connector.
pub record FailedTask : Type 0 where
  pub connector : String
  pub id : ℕ
  pub trace : Option String

unfoldable pub failed_of : String → List Task → List FailedTask
failed_of name [] = []
failed_of name (task ∷ tasks) =
    let rest = failed_of name tasks in
    if has_failed task
    then (record { connector = name; id = task.id; trace = task.trace }) ∷ rest
    else rest

unfoldable pub failed_tasks : Dict String (List Task) → List FailedTask
failed_tasks [] = []
failed_tasks ((name, tasks) ∷ more) = failed_of name tasks ++ failed_tasks more

unfoldable pub restart_failed : Env → FailedTask → M State (Unit {0})
restart_failed env task =
    if not (check_kafka_connect_failed_tasks task.trace)
    then pure tt
    else (do restart_kafka_connect_tasks env task.connector task.id; pure tt)

unfoldable pub check_and_restart_kafka_connect_failed_tasks : Env → M State Bool
check_and_restart_kafka_connect_failed_tasks env = do
  response ← ask State.get_connectors_status env.connectors_status
  if not (response.status_code == 200)
      then pure false
      else (do for_each (failed_tasks response.body) (restart_failed env); pure true)
