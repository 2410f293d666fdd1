-- ===== src/Tests/TopicRuns.antt =====
-- kafka/cdc/src/main.py: topics, change times and references to secrets.
use dockerize_and_ansible.Base.{
  ℕ, ◌+◌, ◌-◌, ◌*◌, String, ◌<>◌, ◌≡◌, refl, Bool, true, false, ◌&&◌, not, Option, none, some, List,
  [], ◌∷◌, ◌++◌, map, flat, contains, any, minus, length, starts_with, ltb, keep, ◌==◌, string_eq,
  option_eq, nat_eq, triple_eq, ==_refl, if◌then◌else◌, arith,
}
use dockerize_and_ansible.Base.Dict
use dockerize_and_ansible.Base.Text.{is_nonempty}
use dockerize_and_ansible.Base.Effect.{Outcome, return, ◌>>=◌}
use dockerize_and_ansible.Cdc.State.{
  Datasource, Connection, mssql, Query, select_time_offset, select_latest_change, Cell, zoned,
  naive, Row, Env, State, History,
}
use dockerize_and_ansible.Cdc.Connection.{db_key, login_as}
use dockerize_and_ansible.Cdc.Restart.{check_kafka_connect_failed_tasks}
use dockerize_and_ansible.Cdc.Topics.{Audit, audit_topics}
use dockerize_and_ansible.Cdc.Topics.Differences.{shares_prefix, audit_topics-members}
use dockerize_and_ansible.Cdc.Sync.{is_empty, extract_table_name_from_topic, pick_topic}
use dockerize_and_ansible.Cdc.Sync.Retries.{rows_of, IsSteady, change, Picks}
use dockerize_and_ansible.Cdc.Sync.Retries.Runs.{pick_topic-Picks}
use dockerize_and_ansible.Cdc.Connectors.{
  extract_file_and_key, replace_group, replacement_py, Files, resolve_placeholders, load_properties,
  default_properties_file,
}
use dockerize_and_ansible.Cdc.Connectors.Placeholders.{reference, resolve_placeholders-reference}
use dockerize_and_ansible.Tests.CdcRuns.{source, env}

abbrev known : List String
known = "mes.dbo.old" ∷ []

abbrev expected : List String
expected = "mes.dbo.orders" ∷ []

abbrev active : List String
active = []

audit_topics-members_example :
    let report : Audit = audit_topics known expected active in
    (contains report.missing "mes.dbo.old"
      ≡ (contains expected "mes.dbo.old" && not (contains known "mes.dbo.old")))
    × (contains report.deprecated "mes.dbo.old" ≡ (
        contains known "mes.dbo.old"
        && (not (contains expected "mes.dbo.old") && shares_prefix expected "mes.dbo.old")))
    × (contains report.inactive "mes.dbo.old"
        ≡ (contains expected "mes.dbo.old" && not (contains active "mes.dbo.old")))
audit_topics-members_example = audit_topics-members known expected active "mes.dbo.old"

abbrev files : Files
files = record {
  path_exists = λ path. path == "/secrets";
  read_file = λ path. return "MES_HOST=db1";
  parse_properties = λ text. return (("MES_HOST", "db1") ∷ []);
  re_sub = λ regex replacement s. return s;
}

resolve_placeholders-reference_example :
    resolve_placeholders files (reference "/secrets" "MES_HOST" "")
    ≡ Dict.get_or
        (load_properties files
          (if files.path_exists "/secrets" then "/secrets" else default_properties_file))
        "MES_HOST"
        ("<MISSING: " <> "MES_HOST" <> ">")
unfolding dockerize_and_ansible.Base.Text.has_char nat_eq
resolve_placeholders-reference_example =
    resolve_placeholders-reference files "/secrets" "MES_HOST" "" (refl, refl) (refl, refl) refl
      refl

-- The table `orders` has no change; that of the other topic has one.
abbrev two_topics : Datasource
two_topics = record source { active_topics = "mes.dbo.orders" ∷ "mes.dbo.lines" ∷ [] }

abbrev latest : String → Outcome (Option Cell)
latest table = if table == "orders" then return none else return (some (naive 1700000000000))

abbrev answers : Query → Outcome (List Row)
answers select_time_offset = return ((("server_local_time", zoned 0 1920) ∷ []) ∷ [])
answers (select_latest_change table) = rows_of (latest table)
answers _ = return []

abbrev steady_env : Env
steady_env = record env { execute = λ conn query h. answers query }

abbrev login : Connection
login = mssql (login_as source (some "cdc") (some "secret"))

abbrev pooled : State
pooled = record { connections = (db_key source, login) ∷ []; trace = [] }

first_is_chosen :
    (topics : List String) (h : History)
    → is_empty topics ≡ false
    → contains topics (env.choose topics h) ≡ true
first_is_chosen [] h nonempty = absurd (ground arith)
first_is_chosen (topic ∷ topics) h nonempty = rw (==_refl topic)

steady : IsSteady steady_env login 1920 latest
steady = record {
  chooses = first_is_chosen;
  clock = λ h. 0;
  zone = λ h. refl;
  changes = λ table h. refl;
}

pick_topic-Picks_example : Picks steady_env (change 1920 latest) 3 two_topics pooled
unfolding Dict.get string_eq option_eq triple_eq
pick_topic-Picks_example =
    pick_topic-Picks steady_env login 1920 latest steady 3 two_topics pooled refl

-- The topic without a change is given up, and the other one is picked.
second_topic :
    (pick_topic steady_env 3 two_topics pooled).0
    ≡ return (
      record source { active_topics = "mes.dbo.lines" ∷ [] },
      some ("mes.dbo.lines", 1700000000000 + 1440 * 60000 - 1920 * 60000),
    )
unfolding pick_topic ◌>>=◌ dockerize_and_ansible.Cdc.State.ask
    dockerize_and_ansible.Cdc.Sync.get_sqlserver_ct_time
    dockerize_and_ansible.Cdc.Connection.get_sqlserver_connection Dict.get triple_eq option_eq
    string_eq dockerize_and_ansible.Cdc.State.run dockerize_and_ansible.Cdc.State.column
    extract_table_name_from_topic
second_topic = refl

-- Only the first closing brace counts, and what follows it is cut off.
references :
    (extract_file_and_key "${file:/secrets:KEY}:x}" ≡ some ("/secrets", "KEY"))
    × (extract_file_and_key "db1" ≡ none)
unfolding extract_file_and_key nat_eq
references = (refl, refl)

java_groups : replacement_py "$1.$2$$3" ≡ "\\1.\\2$$3"
unfolding replace_group nat_eq
java_groups = refl

last_part :
    (extract_table_name_from_topic "mes.dbo.orders" ≡ "orders")
    × (extract_table_name_from_topic "dbo.x" ≡ "dbo.x")
unfolding extract_table_name_from_topic nat_eq
last_part = (refl, refl)

critical :
    check_kafka_connect_failed_tasks
      (some "io.confluent.connect.jdbc.sink.TableAlterOrCreateException: x")
    ≡ false
unfolding check_kafka_connect_failed_tasks
critical = refl
