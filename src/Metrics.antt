-- ===== src/Metrics.antt =====
-- kafka/cdc/src/metrics.py: the decorator `monitor`, which measures the calls of a function, and the
-- two functions that it decorates there. Gauges are prometheus_client's: setting one is a call.
pub mod Transparent
use dockerize_and_ansible.Base.{
  ℕ, String, ◌<>◌, Bool, true, false, Option, none, some, List, [], ◌∷◌, ◌++◌, map, if◌then◌else◌,
  string_eq,
}
use dockerize_and_ansible.Base.Dict
use dockerize_and_ansible.Base.Dict.{Dict}
use dockerize_and_ansible.Base.Text.{is_nonempty}
use dockerize_and_ansible.Base.Effect.{
  Exception, key_error, other_exception, Outcome, return, raise, M, pure, throw, gets, try_except,
  ◌>>=◌, ◌>>◌,
}

-- An argument of a call: its `str`, and its items, with the `str` of each value, if it is a dict.
pub record Argument : Type 0 where
  pub shown : String
  pub items : Option (Dict String String)

abbrev pub Labels : Type 0
Labels = Dict String String

-- What a gauge is set to; `seconds` keeps both readings of the clock, of which the later comes first.
pub data Value : Type 0 where
  flag : ℕ → Value
  seconds : (later earlier : ℕ) → Value

pub data Event : Type 0 where
  time : Event
  sleep : ℕ → Event
  set : (gauge : String) → Labels → Value → Event
  push_to_gateway : Event

abbrev pub History : Type 0
History = List Event

pub record Env : Type 0 where
  pub time : History → ℕ
  pub set : (gauge : String) → Labels → Value → History → Outcome (Unit {0})
  pub push_to_gateway : History → Outcome (Unit {0})

pub record State : Type 0 where
  pub trace : History

unfoldable pub ask : {A : Type 0} → Event → (History → Outcome A) → M State A
ask e answer s = (answer s.trace, record { trace = s.trace ++ e ∷ [] })

abbrev pub lift : {A : Type 0} → Outcome A → M State A
lift r s = (r, s)

-- `try: body` / `finally: cleanup`: an exception of the clean-up takes the place of what was there.
abbrev pub or_raised : {A : Type 0} → Outcome A → Outcome (Unit {0}) → Outcome A
or_raised result (return _) = result
or_raised result (raise e) = raise e

unfoldable pub try_finally : {A : Type 0} → M State A → M State (Unit {0}) → M State A
try_finally body cleanup s =
    let (result, t) = body s in let (cleaned, u) = cleanup t in (or_raised result cleaned, u)

-- `d.get(k, '')` for each of the names
abbrev pub labels_from : List String → Dict String String → Labels
labels_from label_keys d = map (λ k. (k, Dict.get_or d k "")) label_keys

-- Another argument than a dict has no method `get`.
abbrev pub items_of : Option Argument → Outcome (Dict String String)
items_of none = return []
items_of (some argument) = elim argument.items [
  | none ↦ raise other_exception
  | some items ↦ return items
]

abbrev pub with_items : List String → Outcome (Dict String String) → Outcome Labels
with_items label_keys (return items) = return (labels_from label_keys items)
with_items label_keys (raise e) = raise e

-- `bound` holds the arguments by name.
abbrev pub labels_of :
    List String → (dict_arg_name : String) → (bound : Dict String Argument) → Outcome Labels
labels_of label_keys dict_arg_name bound =
    if is_nonempty dict_arg_name
    then with_items label_keys (items_of (Dict.get bound dict_arg_name))
    else return (labels_from label_keys (map (λ (name, argument). (name, argument.shown)) bound))

-- `params['node_name']` and the wait.
unfoldable pub restart : ℕ → Dict String String → M State (Unit {0})
restart wait params = elim (Dict.get params "node_name") [
  | none ↦ throw key_error
  | some name ↦ ask (Event.sleep wait) (λ h. return tt)
]

-- A call with one argument, named `params`, that is a dict.
abbrev pub bound_params : Dict String String → Outcome (Dict String Argument)
bound_params params = return (("params", record { shown = "{...}"; items = some params }) ∷ [])

module _ (env : Env) where
  unfoldable pub now : M State ℕ
  now = ask Event.time (λ h. return (env.time h))

  unfoldable pub set_gauge : String → Labels → Value → M State (Unit {0})
  set_gauge gauge labels value = ask (Event.set gauge labels value) (env.set gauge labels value)

  module _ {A : Type 0} (task_name : String) (label_keys : List String)
      (dict_arg_name : String) where
    -- The body of `wrapper`, with the labels and the start known.
    unfoldable pub measured : Labels → ℕ → M State A → M State A
    measured labels start func =
        try_finally
          (try_except
            (do result ← func; set_gauge (task_name <> "_success") labels (flag 1); pure result)
            (λ e. do set_gauge (task_name <> "_success") labels (flag 0); throw e))
          (do end ← now; set_gauge (task_name <> "_duration_seconds") labels (seconds end start))

    -- The decorated function. What `sig.bind` makes of a call is given, with the call itself.
    unfoldable pub monitor : Outcome (Dict String Argument) → M State A → M State A
    monitor binding func = do
      bound ← lift binding
      labels ← lift (labels_of label_keys dict_arg_name bound)
      start ← now
      measured labels start func

  unfoldable pub restart_kafka : Dict String String → M State (Unit {0})
  restart_kafka params =
      monitor "kafka_restart" ("node_name" ∷ []) "params" (bound_params params) (restart 2 params)

  unfoldable pub restart_zookeeper : Dict String String → M State (Unit {0})
  restart_zookeeper params =
      monitor "zookeeper_restart" ("node_name" ∷ []) "params" (bound_params params)
        (restart 1 params)

  unfoldable pub push_metrics : M State (Unit {0})
  push_metrics = ask Event.push_to_gateway env.push_to_gateway

  unfoldable pub main : M State (Unit {0})
  main = do
    restart_kafka (("node_name", "node-1") ∷ [])
    restart_zookeeper (("node_name", "node-1") ∷ [])
    push_metrics
