-- ===== src/Cdc/Lag.antt =====
-- kafka/cdc/src/main.py: consumer groups that lag behind, and the restart of their connectors.
pub mod Laws
use dockerize_and_ansible.Base.{
  ℕ, String, Bool, true, false, not, ◌&&◌, ◌||◌, Option, none, some, List, [], ◌∷◌, any, contains,
  ◌==◌, if◌then◌else◌, nat_eq, string_eq, option_eq, ltb, starts_with,
}
use dockerize_and_ansible.Base.Text.{remove_prefix}
use dockerize_and_ansible.Base.Effect.{M, pure, ◌>>=◌, ◌>>◌, for_each}
use dockerize_and_ansible.Cdc.State
use dockerize_and_ansible.Cdc.State.{Task, Response, Group, Env, State, ask}
use dockerize_and_ansible.Cdc.Restart.{
  get_kafka_connect_tasks_status, restart_kafka_connect_tasks, check_kafka_connect_failed_tasks,
  has_failed,
}

-- The groups of JDBC connectors, each once for its entry, with a topic whose summed lag is above
-- 200.
unfoldable pub high_lag_groups : List Group → List String
high_lag_groups [] = []
high_lag_groups (group ∷ groups) =
    let rest = high_lag_groups groups in
    if not (starts_with group.group_id "connect-")
    then rest
    else if any (λ lag. ltb 200 lag) group.summed_lags
    then group.group_id ∷ rest
    else rest

unfoldable pub get_kafka_lag_consumer_groups_v2 : Env → M State (List String)
get_kafka_lag_consumer_groups_v2 env = do
  response ← ask State.get_consumer_groups env.consumer_groups
  pure (if not (response.status_code == 200) then [] else high_lag_groups response.body)

-- `task_state in ["RUNNING", "UNASSIGNED"]`
abbrev pub is_alive : Task → Bool
is_alive task = contains (some "RUNNING" ∷ some "UNASSIGNED" ∷ []) task.state

-- Whether this task sets `restart_needed`.
unfoldable pub sets_restart_needed : Task → Bool
sets_restart_needed task =
    if has_failed task then check_kafka_connect_failed_tasks task.trace else is_alive task

-- The loop over the tasks of one connector. `restart_needed` is not reset between tasks.
unfoldable pub restart_tasks : Env → String → Bool → List Task → M State (Unit {0})
restart_tasks env name restart_needed [] = pure tt
restart_tasks env name restart_needed (task ∷ tasks) =
    let needed = restart_needed || sets_restart_needed task in
    do
      if needed then (do restart_kafka_connect_tasks env name task.id; pure tt) else pure tt
      restart_tasks env name needed tasks

abbrev pub restart_listed : Env → String → Option (List Task) → M State (Unit {0})
restart_listed env name none = pure tt
restart_listed env name (some tasks) = restart_tasks env name false tasks

-- The groups here begin with `connect-`, so that `replace("connect-", "", 1)` drops the prefix.
abbrev pub connector_of : String → String
connector_of group_id = remove_prefix "connect-" group_id

unfoldable pub restart_lagging : Env → String → M State (Unit {0})
restart_lagging env group_id = do
  status ← get_kafka_connect_tasks_status env (connector_of group_id)
  restart_listed env (connector_of group_id) status

unfoldable pub check_kafka2postgres_sync : Env → M State Bool
check_kafka2postgres_sync env = do
  groups ← get_kafka_lag_consumer_groups_v2 env
  for_each groups (restart_lagging env)
  pure true
