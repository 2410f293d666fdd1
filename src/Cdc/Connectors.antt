-- ===== src/Cdc/Connectors.antt =====
-- kafka/cdc/src/main.py: the data sources, gathered from the connectors of Kafka Connect.
pub mod Placeholders
use dockerize_and_ansible.Base.{
  ℕ, String, ◌<>◌, Bool, true, false, not, ◌||◌, Option, none, some, List, [], ◌∷◌, map, keep, flat,
  add, update, ◌==◌, if◌then◌else◌, string_eq, nat_eq, triple_eq, option_eq, starts_with,
}
use dockerize_and_ansible.Base.Dict
use dockerize_and_ansible.Base.Dict.{Dict}
use dockerize_and_ansible.Base.Text.{same, is_nonempty, includes, split, strip, remove_prefix}
use dockerize_and_ansible.Base.Effect.{
  Exception, key_error, other_exception, Outcome, return, raise, M, pure, throw, ◌>>=◌, ◌>>◌,
}
use dockerize_and_ansible.Cdc.State
use dockerize_and_ansible.Cdc.State.{
  Datasource, Config, Connector, Response, DbKey, Env, State, ask,
}
use dockerize_and_ansible.Cdc.Connection.{is_set}
use Prim.Native.Char.{Char}
use Prim.Native.String as Text

-- The files of secrets, with the parsers that are not the program's own.
pub record Files : Type 0 where
  pub path_exists : String → Bool
  pub read_file : String → Outcome String
  -- `ConfigParser.read_string` under a section line, and the values of that section
  pub parse_properties : String → Outcome Config
  -- `re.sub(regex, replacement, s)`
  pub re_sub : (regex replacement s : String) → Outcome String

abbrev pub sqlserver_driver : String
sqlserver_driver = "io.debezium.connector.sqlserver.SqlServerConnector"

abbrev pub postgres_driver : String
postgres_driver = "io.debezium.connector.postgresql.PostgresConnector"

abbrev pub default_properties_file : String
default_properties_file = "connect-credentials.properties"

abbrev after_char : Char → Option (String × String) → Option (String × String)
after_char c none = none
after_char c (some (t, rest)) = some (Text.◌∷◌ c t, rest)

-- `(.*?)` and the character that follows it in the pattern: the text before the first of these, and
-- the text after it. The dot does not match the end of a line.
unfoldable pub up_to : Char → String → Option (String × String)
up_to c Text.[] = none
up_to c (Text.◌∷◌ d s) =
    let rest = up_to c s in
    if same d c then some ("", s) else if same d "\n" then none else after_char d rest

-- `re.match(r"\${file:(.*?):(.*?)}", value)` and its groups
unfoldable pub extract_file_and_key : String → Option (String × String)
unfolding up_to remove_prefix
extract_file_and_key value =
    if starts_with value "${file:"
    then (elim (up_to ":" (remove_prefix "${file:" value)) [
      | none ↦ none
      | some (path, more) ↦ elim (up_to "}" more) [
        | none ↦ none
        | some (key, rest) ↦ some (path, key)
      ]
    ])
    else none

-- An error while reading or parsing counts as an empty file.
unfoldable pub load_properties : Files → String → Config
load_properties files path = elim (files.read_file path) [
  | raise e ↦ []
  | return text ↦ elim (files.parse_properties ("[DEFAULT]\n" <> text)) [
    | raise e ↦ []
    | return config ↦ config
  ]
]

abbrev pub file_of : Files → String → String
file_of files path =
    if is_nonempty path
    then (if files.path_exists path then path else default_properties_file)
    else path

-- The text for the parts of a reference; a part that is empty counts as none.
abbrev pub replaced : Files → String → Option (String × String) → String
replaced files value none = value
replaced files value (some (path, key)) =
    if not (is_nonempty path) || not (is_nonempty key)
    then value
    else Dict.get_or (load_properties files (file_of files path)) key ("<MISSING: " <> key <> ">")

unfoldable pub resolve_placeholders : Files → String → String
unfolding Dict.get_or
resolve_placeholders files value = replaced files value (extract_file_and_key value)

-- `a or b`
abbrev or_else : Option String → Option String → Option String
or_else a b = if is_set a then a else b

-- A value in an f-string.
abbrev shown : Option String → String
shown none = "None"
shown (some s) = s

abbrev as_list : Option String → List String
as_list a = elim a [ none ↦ [] | some s ↦ if is_nonempty s then s ∷ [] else [] ]

-- `s.replace("$" + d, u)`, where the flag tells that a dollar came just before
unfoldable pub replace_group : Char → String → Bool → String → String
replace_group d u dollar Text.[] = if dollar then "$" else ""
replace_group d u dollar (Text.◌∷◌ c s) =
    let rest = replace_group d u (same c "$") s in
    if dollar
    then (if same c d
        then u <> rest
        else if same c "$"
        then "$" <> rest
        else "$" <> Text.◌∷◌ c rest)
    else (if same c "$" then rest else Text.◌∷◌ c rest)

abbrev pub replacement_py : String → String
replacement_py s = replace_group "2" "\\2" false (replace_group "1" "\\1" false s)

abbrev map_outcome : {A B : Type 0} → (A → Outcome B) → List A → Outcome (List B)
map_outcome f [] = return []
map_outcome f (x ∷ xs) =
    let rest = map_outcome f xs in
    elim (f x) [
      | raise e ↦ raise e
      | return y ↦ elim rest [ raise e ↦ raise e | return ys ↦ return (y ∷ ys) ]
    ]

module _ (files : Files) where
  -- The topics by the rule of the rerouting transform. An absent replacement has no `replace`.
  unfoldable pub rerouted_topics :
      Config → (topic_prefix : Option String) → List String → Outcome (List String)
  unfolding Dict.get
  rerouted_topics config topic_prefix tables =
      let regex = Dict.get config "transforms.Reroute.topic.regex" in
      let dbname = Dict.get config "database.names" in
      let raw_topic : String → String = λ table.
        if is_set dbname
        then shown topic_prefix <> "." <> shown dbname <> "." <> table
        else shown topic_prefix <> "." <> table in
      elim (Dict.get config "transforms.Reroute.topic.replacement") [
        | none ↦ raise other_exception
        | some replacement ↦
            if is_set regex
            then (if is_nonempty (replacement_py replacement)
                then map_outcome
                    (λ table.
                      files.re_sub (shown regex) (replacement_py replacement) (raw_topic table))
                    tables
                else return [])
            else return []
      ]

  abbrev included_tables : Config → List String
  included_tables config =
      keep is_nonempty (map strip (split "," (Dict.get_or config "table.include.list" "")))

  -- The topics, as a set. The warning about a missing transform reads the name of the connector.
  unfoldable pub get_kafka_connect_all_topics : Config → Outcome (List String)
  unfolding Dict.get Dict.get_or Dict.has split strip update
  get_kafka_connect_all_topics config =
      let topic_prefix =
        or_else (Dict.get config "topic.prefix") (Dict.get config "database.server.name") in
      let schema_topic =
        or_else (Dict.get config "schema.history.internal.kafka.topic")
          (Dict.get config "database.history.kafka.topic") in
      let topics = update (as_list topic_prefix) (as_list schema_topic) in
      let tables = included_tables config in
      if Dict.get_or config "transforms" "" == "Reroute"
      then (elim (rerouted_topics config topic_prefix tables) [
        | raise e ↦ raise e
        | return more ↦ return (update topics more)
      ])
      else if Dict.has config "name"
      then return (update topics (map (λ t. shown topic_prefix <> "." <> t) tables))
      else raise key_error

  abbrev lift : {A : Type 0} → Outcome A → M State A
  lift r s = (r, s)

  module _ (env : Env) where
    unfoldable pub get_kafka_connect_active_topics : Config → M State (List String)
    get_kafka_connect_active_topics config =
        let name = Dict.get config "name" in
        do
          response ←
              ask (State.get_connector_topics (shown name)) (env.connector_topics (shown name))
          if not (response.status_code == 200)
              then pure []
              else pure (
                  keep (λ t. includes t ".dbo.")
                    (elim name [ none ↦ [] | some name ↦ Dict.get_or response.body name [] ]))

    -- The entry of a database that no connector has named before.
    abbrev new_datasource : String → Config → Datasource
    new_datasource driver config = record {
      driver = some driver;
      database = or_else (Dict.get config "database.names") (Dict.get config "database.dbname");
      hostname = Dict.get config "database.hostname";
      port = Dict.get config "database.port";
      user = Dict.get config "database.user";
      password = Dict.get config "database.password";
      tables = [];
      topics = [];
      active_topics = [];
      connectors = [];
      replication_slot = none;
    }

    -- `db_key`, in the order of this function.
    abbrev group_key : Datasource → DbKey
    group_key db = (db.database, db.hostname, db.port)

    abbrev entry_or_new : Option Datasource → Datasource → Datasource
    entry_or_new none new = new
    entry_or_new (some db) new = db

    abbrev is_debezium : Option String → Bool
    is_debezium driver = driver == some sqlserver_driver || driver == some postgres_driver

    abbrev resolved : Config → Config
    resolved config = map (λ (k, v). (k, resolve_placeholders files v)) config

    -- What a connector that is not paused adds to the entry of its database.
    unfoldable pub extend_datasource : String → Config → Datasource → M State Datasource
    extend_datasource connector config db = do
      topics ← lift (get_kafka_connect_all_topics config)
      active_topics ← get_kafka_connect_active_topics config
      pure (record db {
        tables = update db.tables (split "," (Dict.get_or config "table.include.list" ""));
        topics = update db.topics topics;
        active_topics = update db.active_topics active_topics;
        connectors = add db.connectors connector;
      })

    unfoldable pub add_connector :
        Dict DbKey Datasource → String → Connector → M State (Dict DbKey Datasource)
    add_connector db_dict connector details =
        let driver = Dict.get details.config "connector.class" in
        if not (is_debezium driver)
        then pure db_dict
        else (let config = resolved details.config in
            let new = new_datasource (shown driver) config in
            let key = group_key new in
            let db = entry_or_new (Dict.get db_dict key) new in
            if details.state == "PAUSED" then pure (Dict.put db_dict key db) else (do
              extended ← extend_datasource connector config db
              pure (Dict.put db_dict key extended)))

    unfoldable pub add_connectors :
        Dict DbKey Datasource → Dict String Connector → M State (Dict DbKey Datasource)
    add_connectors db_dict [] = pure db_dict
    add_connectors db_dict ((connector, details) ∷ more) = do
      db_dict' ← add_connector db_dict connector details
      add_connectors db_dict' more

    unfoldable pub get_debezium_sqlserver_connectors : M State (List Datasource)
    get_debezium_sqlserver_connectors = do
      response ← ask State.get_connectors env.connectors
      if not (response.status_code == 200)
          then pure []
          else (do db_dict ← add_connectors [] response.body; pure (map (λ (key, db). db) db_dict))
