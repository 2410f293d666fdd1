-- ===== src/Cdc/Postgres/Restarts.antt =====
-- Which tasks are restarted when a replication slot is inactive.
use mathlib.Core.Path.{subst}
use dockerize_and_ansible.Base.{
  ℕ, String, ◌≡◌, refl, ◌∙◌, Bool, true, false, ◌||◌, List, [], ◌∷◌, ◌++◌, append-nil,
  if◌then◌else◌, Bool-cases, inl, inr,
}
use dockerize_and_ansible.Base.Effect.{Outcome, return, M, pure, ◌>>=◌, ◌>>◌, try_except-returns}
use dockerize_and_ansible.Base.Effect.Keeps.{Keeps, keeps_rules}
use dockerize_and_ansible.Cdc.State.{
  Datasource, Connection, DbKey, Query, Task, Env, State, Event, History, ask, run,
}
use dockerize_and_ansible.Cdc.Connection.{store_connection, get_postgres_connection}
use dockerize_and_ansible.Cdc.Connection.Keeps.{get_postgres_connection-Keeps}
use dockerize_and_ansible.Cdc.Restart.{restart_kafka_connect_tasks}
use dockerize_and_ansible.Base.Effect.Emits.{Emits-pure, Emits-bind, Emits-then}
use dockerize_and_ansible.Cdc.Restart.Posts.{
  posts, posts-silent, AnswersRestarts, Posts, Posts-restart,
}
use dockerize_and_ansible.Cdc.Lag.Laws.{from_first, all_of}
use dockerize_and_ansible.Cdc.Postgres.{
  drop_postgres_replication_slot, needs_recreate, needs_restart, repair_tasks,
}

-- The restarts posted so far are these.
record HasPosted (xs : List (String × ℕ)) (s : State) : Type 0 where
  so_far : posts s.trace ≡ xs

module _ {xs : List (String × ℕ)} where
  ask-HasPosted :
      {A : Type 0} (e : Event) (answer : History → Outcome A)
      → posts (e ∷ []) ≡ []
      → Keeps (HasPosted xs) (ask e answer)
  unfolding ask
  ask-HasPosted e answer silent = record {
    at = λ s h. record { so_far = posts-silent s.trace e silent ∙ h.so_far };
  }

  run-HasPosted :
      (env : Env) (conn : Connection) (query : Query) → Keeps (HasPosted xs) (run env conn query)
  unfolding run
  run-HasPosted env conn query = ask-HasPosted _ _ refl

  store-HasPosted :
      (key : DbKey) (conn : Connection) → Keeps (HasPosted xs) (store_connection key conn)
  unfolding ◌>>=◌ store_connection
  store-HasPosted key conn = record { at = λ s h. record { so_far = h.so_far } }

  get-HasPosted :
      (env : Env) (db : Datasource) → Keeps (HasPosted xs) (get_postgres_connection env db)
  get-HasPosted env db =
      get_postgres_connection-Keeps env db (λ l. ask-HasPosted _ _ refl) store-HasPosted
        (λ l. ask-HasPosted _ _ refl)

  drop-HasPosted :
      (env : Env) (db : Datasource) → Keeps (HasPosted xs) (drop_postgres_replication_slot env db)
  unfolding drop_postgres_replication_slot
  drop-HasPosted env db = search (keeps_rules, get-HasPosted, run-HasPosted) depth 20

-- Dropping a slot returns, and restarts nothing.
Posts-drop :
    (env : Env) (db : Datasource) (s : State) → Posts (drop_postgres_replication_slot env db) s []
Posts-drop env db s =
    let drop = drop_postgres_replication_slot env db in
    let (done, returned) : (b : Unit {0}) × ((drop s).0 ≡ return b) =
      unfold drop_postgres_replication_slot in try_except-returns _ tt s in
    record {
      final = (drop s).1;
      result = done;
      ran = λ i. (returned i, (drop s).1);
      sent = ((drop-HasPosted env db).at s (record { so_far = refl })).so_far ∙ rw append-nil;
    }

module _ (env : Env) (answers : AnswersRestarts env) (db : Datasource) (connector : String) where
  abbrev drop_if : Bool → M State (Unit {0})
  drop_if b = if b then drop_postgres_replication_slot env db else pure tt

  Posts-drop_if : (b : Bool) (s : State) → Posts (drop_if b) s []
  Posts-drop_if true s = Posts-drop env db s
  Posts-drop_if false s = Emits-pure tt s

  abbrev restart_if : Bool → ℕ → M State (Unit {0})
  restart_if b id =
      if b then (do restart_kafka_connect_tasks env connector id; pure tt) else pure tt

  Posts-restart_if :
      (b : Bool) (id : ℕ) (s : State)
      → Posts (restart_if b id) s (if b then (connector, id) ∷ [] else [])
  Posts-restart_if true id s = Emits-then _ tt s _ (Posts-restart env connector id s answers)
  Posts-restart_if false id s = Emits-pure tt s

  -- What is restarted once `restart_needed` has this value.
  abbrev remaining : Bool → List Task → List Task
  remaining needed tasks = if needed then tasks else from_first needs_restart tasks

  remaining-cons :
      (restart : Bool) (t : Task) (tasks : List Task)
      → (if restart || needs_restart t then (connector, t.id) ∷ [] else [])
          ++ all_of connector (remaining (restart || needs_restart t) tasks)
        ≡ all_of connector (remaining restart (t ∷ tasks))
  remaining-cons true t tasks = refl
  remaining-cons false t tasks = elim (Bool-cases (needs_restart t)) [
    | inl needs ↦ rw needs
    | inr passes ↦ rw passes
  ]

  repair_tasks-from :
      (tasks : List Task) (restart recreate : Bool) (s : State)
      → Posts
          (repair_tasks env db connector restart recreate tasks)
          s
          (all_of connector (remaining restart tasks))
  unfolding repair_tasks
  repair_tasks-from [] true recreate s = Emits-pure tt s
  repair_tasks-from [] false recreate s = Emits-pure tt s
  repair_tasks-from (t ∷ tasks) restart recreate s =
      let p = Posts-drop_if (recreate || needs_recreate t) s in
      let q = Posts-restart_if (restart || needs_restart t) t.id p.final in
      let r =
        repair_tasks-from tasks (restart || needs_restart t) (recreate || needs_recreate t)
          q.final in
      subst (Posts _ s) (remaining-cons restart t tasks)
        (Emits-bind _ _ s [] _ p (Emits-bind _ _ p.final _ _ q r))

  -- If Kafka Connect answers restarts, the repair of a connector restarts its tasks from the first
  -- on that runs, waits, or failed with an error that a new slot need not cure, whether or not the
  -- slot is dropped on the way. A task behind it is restarted whatever its state.
  pub repair_tasks-Posts :
      (tasks : List Task) (s : State)
      → Posts
          (repair_tasks env db connector false false tasks)
          s
          (all_of connector (from_first needs_restart tasks))
  repair_tasks-Posts tasks s = repair_tasks-from tasks false false s
