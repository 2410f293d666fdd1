-- ===== src/Metrics/Transparent.antt =====
-- What the decorator of kafka/cdc/src/metrics.py adds to a call.
use dockerize_and_ansible.Base.{ℕ, String, ◌<>◌, ◌≡◌, List, [], ◌∷◌, ◌++◌, inl, inr}
use dockerize_and_ansible.Base.Dict.{Dict}
use dockerize_and_ansible.Base.Effect.{
  Outcome, return, raise, M, pure, throw, try_except, ◌>>=◌, Outcome-cases,
}
use dockerize_and_ansible.Metrics
use dockerize_and_ansible.Metrics.{
  Argument, Labels, Value, flag, seconds, Event, History, Env, State, ask, lift, or_raised,
  try_finally, labels_of, now, set_gauge, measured, monitor,
}

-- 1 for a call that returned, 0 for one that raised.
abbrev pub success : {A : Type 0} → Outcome A → ℕ
success (return a) = 1
success (raise e) = 0

-- The calls behind the one that is measured: the outcome, a reading of the clock, and the time.
abbrev pub notes : Env → (task_name : String) → Labels → (start outcome : ℕ) → History → History
notes env task_name labels start outcome h =
    let h' = h ++ Metrics.set (task_name <> "_success") labels (flag outcome) ∷ [] in
    (h' ++ Metrics.time ∷ [])
    ++ Metrics.set (task_name <> "_duration_seconds") labels (seconds (env.time h') start) ∷ []

-- The measured call, which stands behind a reading of the clock.
abbrev pub called : {A : Type 0} → M State A → State → Outcome A × State
called func s = func (record { trace = s.trace ++ Metrics.time ∷ [] })

module _ (env : Env)
    (sets : (gauge : String) (labels : Labels) (value : Value) (h : History)
      → env.set gauge labels value h ≡ return tt)
    {A : Type 0} (task_name : String) (label_keys : List String) (dict_arg_name : String) where
  measured-notes :
      (labels : Labels) (start : ℕ) (func : M State A) (s : State)
      → measured env task_name label_keys dict_arg_name labels start func s ≡ (
        (func s).0,
        record { trace = notes env task_name labels start (success (func s).0) (func s).1.trace },
      )
  unfolding measured try_finally set_gauge now ask pure throw try_except ◌>>=◌
  measured-notes labels start func s = elim (Outcome-cases (func s).0) [
    | inl (a, done) ↦ rw (done, sets, sets)
    | inr (e, failed) ↦ rw (failed, sets, sets)
  ]

  -- Where arguments and labels are known and gauges can be set, a decorated call has the outcome of the
  -- call itself, a value or an exception, and does what the call does, between a reading of the clock
  -- and these: the gauge for success gets 1 or 0, and that for the duration both readings.
  pub monitor-notes :
      (binding : Outcome (Dict String Argument)) (bound : Dict String Argument) (labels : Labels)
      (func : M State A) (s : State)
      → binding ≡ return bound
      → labels_of label_keys dict_arg_name bound ≡ return labels
      → monitor env task_name label_keys dict_arg_name binding func s ≡ (
        (called func s).0,
        record {
          trace =
              notes env task_name labels
                (env.time s.trace)
                (success (called func s).0)
                (called func s).1.trace;
        },
      )
  unfolding monitor now ask ◌>>=◌
  monitor-notes binding bound labels func s known labelled =
      rw (known, labelled)
        (measured-notes labels (env.time s.trace) func
          (record { trace = s.trace ++ Metrics.time ∷ [] }))
