-- ===== src/Cdc/Postgres/Laws.antt =====
-- When a replication slot is dropped, and which tasks are restarted for it.
use dockerize_and_ansible.Base.{
  ℕ, String, ◌≡◌, refl, ◌∙◌, Bool, false, ◌||◌, Option, none, some, List, [], ◌∷◌, arith, any, All,
  All-append, nat_eq, option_eq, string_eq, inl, inr,
}
use dockerize_and_ansible.Base.Effect.{
  Exception, request_exception, Outcome, return, ◌>>=◌, Outcome-cases,
}
use dockerize_and_ansible.Base.Effect.Keeps.{
  Keeps, Keeps-pure, Keeps-throw, Keeps-bind, Keeps-bind_known, keeps_rules,
}
use dockerize_and_ansible.Cdc.State
use dockerize_and_ansible.Cdc.State.{
  Datasource, Connection, DbKey, Query, drop_slot, Task, Response, Env, State, Event, History, ask,
  run,
}
use dockerize_and_ansible.Cdc.Connection.{store_connection, get_postgres_connection}
use dockerize_and_ansible.Cdc.Connection.Keeps.{get_postgres_connection-Keeps}
use dockerize_and_ansible.Cdc.Restart.{
  on_request_exception, restart_kafka_connect_tasks, get_kafka_connect_tasks_status,
}
use dockerize_and_ansible.Cdc.Postgres.{
  check_postgres_replication_slot, needs_recreate, needs_restart, repair_tasks, repair_listed,
  repair_connector, check_and_repair_slot, check_and_repair_postgres_datasource,
}

-- `drop_slot` is not among the statements sent.
abbrev pub IsOther : Query → Type 0
IsOther (drop_slot slot) = ⊥
IsOther _ = Unit

abbrev pub IsNoDrop : Event → Type 0
IsNoDrop (State.execute conn query) = IsOther query
IsNoDrop _ = Unit

pub record NoDrop (s : State) : Type 0 where
  pub calls : All IsNoDrop s.trace

ask-NoDrop :
    {A : Type 0} (e : Event) (answer : History → Outcome A)
    → IsNoDrop e
    → Keeps NoDrop (ask e answer)
unfolding ask
ask-NoDrop e answer ok = record {
  at = λ s h. record { calls = All-append IsNoDrop s.trace (e ∷ []) h.calls (ok, tt) };
}

run-NoDrop :
    (env : Env) (conn : Connection) (query : Query)
    → IsOther query
    → Keeps NoDrop (run env conn query)
unfolding run
run-NoDrop env conn query ok = ask-NoDrop (State.execute conn query) _ ok

store-NoDrop : (key : DbKey) (conn : Connection) → Keeps NoDrop (store_connection key conn)
unfolding ◌>>=◌ store_connection
store-NoDrop key conn = record { at = λ s h. record { calls = h.calls } }

module _ (env : Env) (db : Datasource) where
  get-NoDrop : Keeps NoDrop (get_postgres_connection env db)
  get-NoDrop =
      get_postgres_connection-Keeps env db (λ l. ask-NoDrop _ _ tt) store-NoDrop
        (λ l. ask-NoDrop _ _ tt)

  check_slot-NoDrop : Keeps NoDrop (check_postgres_replication_slot env db)
  unfolding check_postgres_replication_slot
  check_slot-NoDrop = search (keeps_rules, get-NoDrop, run-NoDrop, tt) depth 20

  restart-NoDrop : (name : String) (id : ℕ) → Keeps NoDrop (restart_kafka_connect_tasks env name id)
  unfolding restart_kafka_connect_tasks
  restart-NoDrop name id = search (keeps_rules, ask-NoDrop, tt)

  -- As long as no task failed in a way that only a new slot cures, the slot is not dropped.
  repair_tasks-NoDrop :
      (connector : String) (restart : Bool) (tasks : List Task)
      → any needs_recreate tasks ≡ false
      → Keeps NoDrop (repair_tasks env db connector restart false tasks)
  unfolding repair_tasks
  repair_tasks-NoDrop connector restart [] none_fatal = Keeps-pure tt
  repair_tasks-NoDrop connector restart (t ∷ tasks) none_fatal =
      let curable : needs_recreate t ≡ false = ground arith in
      rw curable (
        Keeps-bind _ _ (Keeps-pure tt) λ _.
          Keeps-bind _ _ (search (keeps_rules, restart-NoDrop))
            λ _. repair_tasks-NoDrop connector (restart || needs_restart t) tasks (ground arith))

-- No status that Kafka Connect gives lists a task that only a new slot cures.
abbrev pub ListsNoFatal : Env → Type 0
ListsNoFatal env =
    (name : String) (h : History) (r : Response (List Task))
    → env.connector_status name h ≡ return r
    → any needs_recreate r.body ≡ false

on_request_exception-Keeps :
    {P : State → Type 0} {A : Type 0} (a : A) (e : Exception) → Keeps P (on_request_exception a e)
on_request_exception-Keeps a request_exception = Keeps-pure _
on_request_exception-Keeps a _ = Keeps-throw _

module _ (env : Env) (curable : ListsNoFatal env) where
  status-NoDrop : (name : String) → Keeps NoDrop (get_kafka_connect_tasks_status env name)
  unfolding get_kafka_connect_tasks_status
  status-NoDrop name = search (keeps_rules, ask-NoDrop, on_request_exception-Keeps, tt)

  status_known :
      (name : String) (s : State) (tasks : List Task)
      → (get_kafka_connect_tasks_status env name s).0 ≡ return (some tasks)
      → any needs_recreate tasks ≡ false
  unfolding get_kafka_connect_tasks_status ◌>>=◌ ask
  status_known name s tasks e = elim (Outcome-cases (env.connector_status name s.trace)) [
    | inl (r, answered) ↦ ground (arith, curable name s.trace r answered)
    | inr (x, failed) ↦ ground arith
  ]

  repair_connector-NoDrop :
      (db : Datasource) (connector : String) → Keeps NoDrop (repair_connector env db connector)
  unfolding repair_connector
  repair_connector-NoDrop db connector =
      Keeps-bind_known _ _ (status-NoDrop connector)
        (λ s o known. listed o (λ tasks e. status_known connector s tasks (known ∙ rw e)))
    where
      listed :
          (o : Option (List Task))
          → ((tasks : List Task) → o ≡ some tasks → any needs_recreate tasks ≡ false)
          → Keeps NoDrop (repair_listed env db connector o)
      listed none h = Keeps-pure tt
      listed (some tasks) h = repair_tasks-NoDrop env db connector false tasks (h tasks refl)

  -- If no status that Kafka Connect gives lists a task that failed with an error which only a new
  -- slot cures, the repair of PostgreSQL sources drops no slot, whatever else happens.
  pub check_and_repair_postgres_datasource-NoDrop :
      (dbs : List Datasource) → Keeps NoDrop (check_and_repair_postgres_datasource env dbs)
  unfolding check_and_repair_postgres_datasource check_and_repair_slot
  check_and_repair_postgres_datasource-NoDrop dbs =
      search (keeps_rules, check_slot-NoDrop, repair_connector-NoDrop) depth 20
