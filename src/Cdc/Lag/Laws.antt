-- ===== src/Cdc/Lag/Laws.antt =====
-- Which groups count as lagging, and which tasks are restarted for them.
use dockerize_and_ansible.Base.{
  ℕ, String, ◌≡◌, refl, Bool, true, false, ◌&&◌, none, some, List, [], ◌∷◌, ◌++◌, arith, map, any,
  contains, flat, if◌then◌else◌, ◌==◌, ==_refl, nat_eq, option_eq, string_eq, ltb, starts_with,
  Bool-cases, inl, inr,
}
use dockerize_and_ansible.Base.Effect.{return, ◌>>=◌}
use dockerize_and_ansible.Cdc.State
use dockerize_and_ansible.Cdc.State.{Task, Response, Group, Env, State, History, ask}
use dockerize_and_ansible.Cdc.Restart.{get_kafka_connect_tasks_status}
use dockerize_and_ansible.Base.Effect.Emits.{
  Emits-pure, Emits-bind, Emits-then, Emits-step, Emits-for_each,
}
use dockerize_and_ansible.Cdc.Restart.Posts.{AnswersRestarts, Posts, posts-silent, Posts-restart}
use dockerize_and_ansible.Cdc.Lag.{
  high_lag_groups, get_kafka_lag_consumer_groups_v2, sets_restart_needed, restart_tasks,
  connector_of, restart_lagging, check_kafka2postgres_sync,
}

-- A group is reported exactly if an entry of its name is a JDBC connector's and has a topic whose
-- lag is above 200.
pub contains-high_lag_groups :
    (groups : List Group) (id : String)
    → contains (high_lag_groups groups) id
      ≡ any
          (λ g.
            id == g.group_id
            && (starts_with g.group_id "connect-" && any (λ lag. ltb 200 lag) g.summed_lags))
          groups
unfolding high_lag_groups
contains-high_lag_groups [] id = refl
contains-high_lag_groups (g ∷ groups) id = ground (arith, contains-high_lag_groups groups id)

-- The tasks from the first that passes the test on.
abbrev pub from_first {ℓ} : {A : Type ℓ} → (A → Bool) → List A → List A
from_first p [] = []
from_first p (x ∷ xs) = if p x then x ∷ xs else from_first p xs

abbrev pub all_of : String → List Task → List (String × ℕ)
all_of name tasks = map (λ t. (name, t.id)) tasks

module _ (env : Env) (answers : AnswersRestarts env) (name : String) where
  restart_tasks-needed :
      (tasks : List Task) (s : State)
      → Posts (restart_tasks env name true tasks) s (all_of name tasks)
  unfolding restart_tasks
  restart_tasks-needed [] s = Emits-pure tt s
  restart_tasks-needed (t ∷ tasks) s =
      let p = Emits-then _ tt s _ (Posts-restart env name t.id s answers) in
      Emits-bind _ _ s ((name, t.id) ∷ []) _ p (restart_tasks-needed tasks p.final)

  -- If Kafka Connect answers restarts, the loop over the tasks of one connector returns, and the restarted tasks are all from the first on that runs, waits, or failed
  -- with a curable error. A task behind it is restarted whatever its state, also one that failed
  -- with an error that forbids a restart.
  pub restart_tasks-Posts :
      (tasks : List Task) (s : State)
      → Posts
          (restart_tasks env name false tasks)
          s
          (all_of name (from_first sets_restart_needed tasks))
  unfolding restart_tasks
  restart_tasks-Posts [] s = Emits-pure tt s
  restart_tasks-Posts (t ∷ tasks) s = elim (Bool-cases (sets_restart_needed t)) [
    | inl needs ↦ rw needs (
        let p = Emits-then _ tt s _ (Posts-restart env name t.id s answers) in
        Emits-bind _ _ s ((name, t.id) ∷ []) _ p (restart_tasks-needed tasks p.final))
    | inr passes ↦
        rw passes
          (let p = Emits-pure tt s in Emits-bind _ _ s [] _ p (restart_tasks-Posts tasks p.final))
  ]

-- The restarts that a connector's status leads to.
abbrev pub restarts_for : String → Response (List Task) → List (String × ℕ)
restarts_for name r =
    if r.status_code == 200 then all_of name (from_first sets_restart_needed r.body) else []

module _ (env : Env) (answers : AnswersRestarts env) (listed : String → Response (List Task))
    (stable : (name : String) (h : History)
      → env.connector_status name h ≡ return (listed name)) where
  status_lem :
      (name : String) (s : State)
      → get_kafka_connect_tasks_status env name s ≡ (
        return (if (listed name).status_code == 200 then some (listed name).body else none),
        record s { trace = s.trace ++ State.get_connector_status name ∷ [] },
      )
  unfolding get_kafka_connect_tasks_status ◌>>=◌ ask
  status_lem name s = rw (stable name s.trace)

  restart_lagging-Posts :
      (id : String) (s : State)
      → Posts (restart_lagging env id) s (restarts_for (connector_of id) (listed (connector_of id)))
  unfolding restart_lagging
  restart_lagging-Posts id s =
      let name = connector_of id in
      Emits-step _ _ _ (status_lem name s)
        (posts-silent s.trace (State.get_connector_status name) refl)
        (elim (Bool-cases ((listed name).status_code == 200)) [
          | inl ok ↦ rw ok (restart_tasks-Posts env answers name (listed name).body _)
          | inr refused ↦ rw refused (Emits-pure tt _)
        ])

  groups_lem :
      (s : State) (r : Response (List Group))
      → env.consumer_groups s.trace ≡ return r
      → r.status_code ≡ 200
      → get_kafka_lag_consumer_groups_v2 env s ≡ (
        return (high_lag_groups r.body),
        record s { trace = s.trace ++ State.get_consumer_groups ∷ [] },
      )
  unfolding get_kafka_lag_consumer_groups_v2 ◌>>=◌ ask
  groups_lem s r grouped ok = rw (grouped, ok, ==_refl)

  -- Where Kafka Connect gives each connector's status, the same at every call, answers restarts,
  -- and the groups can be had, the check returns and posts, group by group, the restarts of its
  -- connector's tasks from the first that runs, waits or failed curably; it skips a connector
  -- whose status is refused.
  pub check_kafka2postgres_sync-Posts :
      (s : State) (r : Response (List Group))
      → env.consumer_groups s.trace ≡ return r
      → r.status_code ≡ 200
      → Posts (check_kafka2postgres_sync env) s (
          flat
            (λ id. restarts_for (connector_of id) (listed (connector_of id)))
            (high_lag_groups r.body))
  unfolding check_kafka2postgres_sync
  check_kafka2postgres_sync-Posts s r grouped ok =
      Emits-step _ _ _ (groups_lem s r grouped ok)
        (posts-silent s.trace State.get_consumer_groups refl)
        (Emits-then _ true _ _
          (Emits-for_each (restart_lagging env) _ restart_lagging-Posts (high_lag_groups r.body) _))
