-- ===== src/Tests/MetricRuns.antt =====
-- kafka/cdc/src/metrics.py at its own two functions.
use dockerize_and_ansible.Base.{◌≡◌, refl, some, [], ◌∷◌, length, string_eq}
use dockerize_and_ansible.Base.Dict
use dockerize_and_ansible.Base.Dict.{Dict}
use dockerize_and_ansible.Base.Effect.{return, raise, key_error, throw, try_except, pure, ◌>>=◌}
use dockerize_and_ansible.Metrics.{
  Labels, flag, seconds, Event, Env, State, ask, try_finally, now, set_gauge, measured, monitor,
  bound_params, restart, restart_kafka, restart_zookeeper, push_metrics, main,
}
use dockerize_and_ansible.Metrics.Transparent.{notes, monitor-notes}

-- A clock that runs by one with every call.
abbrev ticking : Env
ticking = record {
  time = length;
  set = λ gauge labels value h. return tt;
  push_to_gateway = λ h. return tt;
}

abbrev node : Labels
node = ("node_name", "node-1") ∷ []

abbrev zero_calls : State
zero_calls = record { trace = [] }

whole_run :
    (main ticking zero_calls).1.trace
    ≡ Event.time
      ∷ Event.sleep 2
      ∷ Event.set "kafka_restart_success" node (flag 1)
      ∷ Event.time
      ∷ Event.set "kafka_restart_duration_seconds" node (seconds 3 0)
      ∷ Event.time
      ∷ Event.sleep 1
      ∷ Event.set "zookeeper_restart_success" node (flag 1)
      ∷ Event.time
      ∷ Event.set "zookeeper_restart_duration_seconds" node (seconds 8 5)
      ∷ Event.push_to_gateway
      ∷ []
unfolding main restart_kafka restart_zookeeper push_metrics monitor measured now set_gauge ask
    restart try_finally throw try_except pure ◌>>=◌ Dict.get Dict.get_or string_eq
whole_run = refl

monitor-notes_example :
    monitor ticking "kafka_restart"
      ("node_name" ∷ [])
      "params"
      (bound_params node)
      (restart 2 [])
      zero_calls
    ≡ (raise key_error, record { trace = notes ticking "kafka_restart" node 0 0 (Event.time ∷ []) })
unfolding restart throw Dict.get Dict.get_or string_eq
monitor-notes_example =
    monitor-notes ticking (λ gauge labels value h. refl) "kafka_restart" ("node_name" ∷ []) "params"
      (bound_params node) (("params", record { shown = "{...}"; items = some node }) ∷ []) node
      (restart 2 []) zero_calls refl refl
