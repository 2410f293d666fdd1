-- ===== src/Cdc/Restart/Laws.antt =====
-- Which tasks `check_and_restart_kafka_connect_failed_tasks` restarts.
use dockerize_and_ansible.Base.{
  ℕ, String, ◌≡◌, refl, true, ◌&&◌, List, [], ◌∷◌, arith, map, keep, flat, flat-append,
  if◌then◌else◌, nat_eq, option_eq, string_eq, Bool-cases, inl, inr, ==_refl,
}
use mathlib.Core.Path.{subst}
use dockerize_and_ansible.Base.Dict.{Dict}
use dockerize_and_ansible.Base.Effect.{return}
use dockerize_and_ansible.Cdc.State
use dockerize_and_ansible.Cdc.State.{Task, Response, Env, State, ask}
use dockerize_and_ansible.Cdc.Restart.{
  check_kafka_connect_failed_tasks, has_failed, FailedTask, failed_of, failed_tasks, restart_failed,
  check_and_restart_kafka_connect_failed_tasks,
}
use dockerize_and_ansible.Base.Effect.Emits.{Emits-pure, Emits-then, Emits-for_each}
use dockerize_and_ansible.Cdc.Restart.Posts.{AnswersRestarts, Posts, Posts-ask, Posts-restart}

-- The tasks of a connector that have failed with an error that a restart may cure.
abbrev pub curable : List Task → List Task
curable tasks = keep (λ t. has_failed t && check_kafka_connect_failed_tasks t.trace) tasks

abbrev pub restarts_of : String × List Task → List (String × ℕ)
restarts_of (name, tasks) = map (λ t. (name, t.id)) (curable tasks)

abbrev restart_of : FailedTask → List (String × ℕ)
restart_of task =
    if check_kafka_connect_failed_tasks task.trace then (task.connector, task.id) ∷ [] else []

restart_failed-Posts :
    (env : Env)
    → AnswersRestarts env
    → (task : FailedTask) (s : State) → Posts (restart_failed env task) s (restart_of task)
unfolding restart_failed
restart_failed-Posts env answers task s =
    elim (Bool-cases (check_kafka_connect_failed_tasks task.trace)) [
      | inl curable ↦
          rw curable (Emits-then _ tt s _ (Posts-restart env task.connector task.id s answers))
      | inr critical ↦ rw critical (Emits-pure tt s)
    ]

failed_of-restarts :
    (name : String) (tasks : List Task)
    → flat restart_of (failed_of name tasks) ≡ restarts_of (name, tasks)
unfolding failed_of
failed_of-restarts name [] = refl
failed_of-restarts name (t ∷ tasks) = ground (arith, failed_of-restarts name tasks)

failed_tasks-restarts :
    (connectors : Dict String (List Task))
    → flat restart_of (failed_tasks connectors) ≡ flat restarts_of connectors
unfolding failed_tasks
failed_tasks-restarts [] = refl
failed_tasks-restarts ((name, tasks) ∷ more) =
    rw (flat-append, failed_of-restarts name tasks, failed_tasks-restarts more)

-- Where Kafka Connect gives the status of the connectors and answers restarts, the function
-- returns, and posts exactly one restart for every failed task with a curable error, in the order
-- of the connectors and their tasks; no other task is restarted.
pub check_and_restart_kafka_connect_failed_tasks-Posts :
    (env : Env) (s : State) (r : Response (Dict String (List Task)))
    → AnswersRestarts env
    → env.connectors_status s.trace ≡ return r
    → r.status_code ≡ 200
    → Posts (check_and_restart_kafka_connect_failed_tasks env) s (flat restarts_of r.body)
unfolding check_and_restart_kafka_connect_failed_tasks
check_and_restart_kafka_connect_failed_tasks-Posts env s r answers listed ok =
    Posts-ask State.get_connectors_status env.connectors_status _ s r _ listed refl (
      rw (ok, ==_refl)
        (subst (Posts _ _) (failed_tasks-restarts r.body) (
          Emits-then _ true _ _ (
            Emits-for_each (restart_failed env) restart_of (restart_failed-Posts env answers) _
              _))))
