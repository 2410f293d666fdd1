-- ===== src/Vacuum.antt =====
-- gpdb/cron/vacuum_analyse.py: tables with dead tuples are vacuumed within a maintenance window.
pub mod Levels
pub mod Laws
use dockerize_and_ansible.Base.{
  ℕ, String, ◌<>◌, Bool, true, false, ◌||◌, ◌&&◌, Option, none, some, List, [], ◌∷◌, ◌++◌, ◌==◌,
  if◌then◌else◌, string_eq, nat_eq, ltb,
}
use dockerize_and_ansible.Base.Dict
use dockerize_and_ansible.Base.Dict.{Dict}
use dockerize_and_ansible.Base.Text.{includes, is_nonempty}
use dockerize_and_ansible.Base.Effect.{
  Exception, type_error, other_exception, Outcome, return, M, pure, throw, gets, modify, try_except,
  ◌>>=◌, ◌>>◌, for_each,
}
use Prim.Native.Char.{Char, code}
use Prim.Native.String as Text

-- The level of a connection: what it is opened with, or `ISOLATION_LEVEL_AUTOCOMMIT`.
pub data Isolation : Type 0 where
  normal autocommit : Isolation

-- A row of the query for tables with dead tuples, by the columns that are read.
pub record BloatTable : Type 0 where
  pub schema : String
  pub name : String
  pub operation : String

pub data Event : Type 0 where
  read_clock : Event
  connect : String → Event
  select_version : Event
  select_gpdb_bloat : Event
  select_postgre_bloat : Event
  set_level : Isolation → Event
  execute : Isolation → (cmd schema table : String) → Event

abbrev pub History : Type 0
History = List Event

pub record Env : Type 0 where
  -- `datetime.now().strftime("%H:%M")`
  pub now : History → String
  pub connect : String → History → Outcome (Unit {0})
  pub version : History → Outcome String
  pub gpdb_bloat : History → Outcome (List BloatTable)
  pub postgre_bloat : History → Outcome (List BloatTable)
  pub set_level : Isolation → History → Outcome (Unit {0})
  pub execute : Isolation → String → String → String → History → Outcome (Unit {0})
  -- `str.lower`
  pub lower : String → String

pub record State : Type 0 where
  pub isolation : Isolation
  pub trace : History

unfoldable pub ask : {A : Type 0} → Event → (History → Outcome A) → M State A
ask e answer s = (answer s.trace, record s { trace = s.trace ++ e ∷ [] })

-- `s < t` on texts, by code points.
unfoldable pub text_ltb : String → String → Bool
unfolding nat_eq
text_ltb s Text.[] = false
text_ltb Text.[] (Text.◌∷◌ d t) = true
text_ltb (Text.◌∷◌ c s) (Text.◌∷◌ d t) =
    ltb (code c) (code d) || ((code c == code d) && text_ltb s t)

-- The commands of a schema, by operation; and by schema, and by type of server.
abbrev pub Commands : Type 0
Commands = Dict String (Dict String (List String))

abbrev pub gpdb_commands : Commands
gpdb_commands =
    (
      "default",
      ("vacuum_full", "VACUUM FULL" ∷ "REINDEX TABLE" ∷ "ANALYZE" ∷ [])
          ∷ ("vacuum", "VACUUM ANALYZE" ∷ [])
          ∷ [],
    )
    ∷ (
      "pg_catalog",
      ("vacuum_full", "REINDEX TABLE" ∷ "VACUUM FULL ANALYZE" ∷ [])
          ∷ ("vacuum", "REINDEX TABLE" ∷ "VACUUM ANALYZE" ∷ [])
          ∷ [],
    )
    ∷ []

abbrev pub postgre_commands : Commands
postgre_commands =
    ("default", ("vacuum_full", "VACUUM FULL ANALYZE" ∷ []) ∷ ("vacuum", []) ∷ []) ∷ []

pub data ServerType : Type 0 where
  gpdb postgre : ServerType

abbrev pub commands : ServerType → Commands
commands gpdb = gpdb_commands
commands postgre = postgre_commands

-- `cmds.get(…).get(tbl_operation.lower())`; `none` is Python's None, for an operation that is not listed.
unfoldable pub commands_for : ServerType → (schema operation : String) → Option (List String)
unfolding Dict.get Dict.has
commands_for server schema operation =
    let name = if Dict.has (commands server) schema then schema else "default" in
    elim (Dict.get (commands server) name) [ none ↦ none | some cmds ↦ Dict.get cmds operation ]

pub record Window : Type 0 where
  pub start_time : String
  pub end_time : String

-- `maintain_window.get(…) if … is not None else …`
unfoldable pub window_of : Dict String String → Window
unfolding Dict.get_or
window_of w = record {
  start_time = Dict.get_or w "start_time" "00:00";
  end_time = Dict.get_or w "end_time" "23:59";
}

-- `try: body finally: cleanup`; what the cleanup raises takes the place of what the body raised.
unfoldable pub finally_do : {A : Type 0} → M State A → M State (Unit {0}) → M State A
finally_do body cleanup = do
  result ← try_except body (λ e. do cleanup; throw e)
  cleanup
  pure result

-- `for cmd in cmds`; going through None is a TypeError.
abbrev pub each_command : Option (List String) → (String → M State (Unit {0})) → M State (Unit {0})
each_command none body = throw type_error
each_command (some cmds) body = for_each cmds body

abbrev pub with_isolation : Isolation → State → State
with_isolation level s = record s { isolation = level }

module _ (env : Env) where
  unfoldable pub get_server_type : M State ServerType
  get_server_type = do
    version ← ask select_version env.version
    pure (if includes version "Greenplum Database" then gpdb else postgre)

  -- `Vaccum(dsn)`: a new connection has the normal level.
  unfoldable pub open_connection : String → M State ServerType
  open_connection dsn = do
    ask (connect dsn) (env.connect dsn)
    modify (with_isolation normal)
    get_server_type

  unfoldable pub get_bloat_tables : ServerType → M State (List BloatTable)
  get_bloat_tables gpdb = ask select_gpdb_bloat env.gpdb_bloat
  get_bloat_tables postgre = ask select_postgre_bloat env.postgre_bloat

  -- The statement is the command and the table; the time that follows as an SQL comment is left out.
  unfoldable pub run_command : (schema table cmd : String) → M State (Unit {0})
  run_command schema table cmd = do
    level ← gets (λ (s : State). s.isolation)
    ask (execute level cmd schema table) (env.execute level cmd schema table)

  -- `self.conn.set_isolation_level(level)`; where it raises, the level stays as it was.
  unfoldable pub set_isolation_level : Isolation → M State (Unit {0})
  set_isolation_level level = do
    ask (set_level level) (env.set_level level)
    modify (with_isolation level)

  unfoldable pub execute_commands :
      (schema table : String) → Option (List String) → M State (Unit {0})
  execute_commands schema table cmds = do
    isolation_level ← gets (λ (s : State). s.isolation)
    finally_do (do set_isolation_level autocommit; each_command cmds (run_command schema table))
        (set_isolation_level isolation_level)

  -- `a or b`, with a reading of the clock in each
  unfoldable pub is_outside_window : Window → M State Bool
  is_outside_window w = do
    now ← ask read_clock (λ h. return (env.now h))
    if text_ltb now w.start_time
        then pure true
        else (do now' ← ask read_clock (λ h. return (env.now h)); pure (text_ltb w.end_time now'))

  unfoldable pub vacuum_table : Window → ServerType → BloatTable → M State (Unit {0})
  vacuum_table w server t = if t.operation == "" then pure tt else (do
    outside ← is_outside_window w
    if outside
        then pure tt
        else (try_except
            (execute_commands t.schema t.name
              (commands_for server t.schema (env.lower t.operation)))
            (λ e. pure tt)))

  unfoldable pub vacuum_database : Window → String → M State (Unit {0})
  vacuum_database w dsn = do
    outside ← is_outside_window w
    if outside
        then pure tt
        else (try_except
            (do
              server ← open_connection dsn
              tables ← get_bloat_tables server
              for_each tables (vacuum_table w server))
            (λ e. pure tt))

  unfoldable pub vacuum_main : List String → Dict String String → M State (Unit {0})
  vacuum_main dsns maintain_window = for_each dsns (vacuum_database (window_of maintain_window))
