-- ===== src/Cdc/State.antt =====
-- The state of kafka/cdc/src/main.py and what it asks of the outside. Databases, Kafka Connect,
-- Kafka and the file system are an `Env`: each answers from the call and from the calls made
-- before it, so that an answer may change over time and after an effect.
use dockerize_and_ansible.Base.{
  ℕ, String, Bool, Option, none, some, List, [], ◌∷◌, ◌++◌, option_eq, string_eq, triple_eq,
}
use dockerize_and_ansible.Base.Dict
use dockerize_and_ansible.Base.Dict.{Dict}
use dockerize_and_ansible.Base.Effect.{Outcome, M, pure, throw, key_error}

-- One entry of `db_dict`. A text that the connector's configuration may lack is an `Option`;
-- the port `none` is the default, the number 1433.
pub record Datasource : Type 0 where
  pub driver : Option String
  pub database : Option String
  pub hostname : Option String
  pub port : Option String
  pub user : Option String
  pub password : Option String
  pub tables : List String
  pub topics : List String
  pub active_topics : List String
  pub connectors : List String
  pub replication_slot : Option String

-- The arguments of `pymssql.connect` and `psycopg2.connect`.
pub record Login : Type 0 where
  pub server : Option String
  pub port : Option String
  pub database : Option String
  pub user : Option String
  pub password : Option String

-- An open connection, by the login that opened it.
pub data Connection : Type 0 where
  mssql : Login → Connection
  postgres : Login → Connection

-- The statements that the program sends. The name of a database or a slot is a parameter.
pub data Query : Type 0 where
  select_cdc_enabled : Option String → Query
  select_tracked_tables : Query
  help_job_activity : Option String → Query
  select_is_published : Option String → Query
  start_capture_job : Option String → Query
  count_availability_groups : Query
  select_is_primary : Option String → Query
  select_primary_replica : Query
  select_replica_state : Option String → Query
  enable_table : Option String → String → Query
  disable_table : Option String → String → Query
  select_time_offset : Query
  select_latest_change : String → Query
  select_slot_active : Option String → Query
  drop_slot : Option String → Query

pub data Cell : Type 0 where
  null : Cell
  number : ℕ → Cell
  text : String → Cell
  boolean : Bool → Cell
  -- A time of the server in milliseconds of its own clock; with its zone, given as the minutes by
  -- which that clock is ahead of UTC plus the minutes of a day, or without.
  zoned : (local offset : ℕ) → Cell
  naive : (local : ℕ) → Cell

abbrev pub Row : Type 0
Row = Dict String Cell

pub record Task : Type 0 where
  pub id : ℕ
  pub state : Option String
  pub trace : Option String

-- `response.status_code`, and what `response.json()` holds for the call.
pub record Response (A : Type 0) : Type 0 where
  pub status_code : ℕ
  pub body : A

abbrev pub Config : Type 0
Config = Dict String String

pub record Connector : Type 0 where
  pub config : Config
  pub state : String

pub record Group : Type 0 where
  pub group_id : String
  pub summed_lags : List ℕ

-- The calls that leave the program.
pub data Event : Type 0 where
  mssql_connect : Login → Event
  postgres_connect : Login → Event
  execute : Connection → Query → Event
  commit : Connection → Event
  open_cursor : Connection → Event
  set_autocommit : Login → Event
  get_connectors : Event
  get_connectors_status : Event
  get_connector_topics : String → Event
  get_connector_status : String → Event
  post_restart : String → ℕ → Event
  get_consumer_groups : Event
  get_topics : Event
  choose : List String → Event
  list_partitions : String → Event
  watermark : String → ℕ → Event
  poll : String → ℕ → ℕ → Event

abbrev pub History : Type 0
History = List Event

pub record Env : Type 0 where
  pub reserved_user : Option String
  pub reserved_password : Option String
  pub mssql_connect : Login → History → Outcome (Unit {0})
  pub postgres_connect : Login → History → Outcome (Unit {0})
  pub execute : Connection → Query → History → Outcome (List Row)
  pub commit : Connection → History → Outcome (Unit {0})
  -- `conn.cursor()`, where it does not stand in one `try` block with the statement that follows.
  pub open_cursor : Connection → History → Outcome (Unit {0})
  -- `conn.autocommit = True`
  pub set_autocommit : Login → History → Outcome (Unit {0})
  pub connectors : History → Outcome (Response (Dict String Connector))
  pub connectors_status : History → Outcome (Response (Dict String (List Task)))
  pub connector_topics : String → History → Outcome (Response (Dict String (List String)))
  pub connector_status : String → History → Outcome (Response (List Task))
  pub post_restart : String → ℕ → History → Outcome (Response (Unit {0}))
  pub consumer_groups : History → Outcome (Response (List Group))
  pub topics : History → Outcome (Response (List String))
  -- `random.choice`
  pub choose : List String → History → String
  -- The partitions of a topic; an error that the metadata hold for it is raised.
  pub partitions : String → History → Outcome (List ℕ)
  pub watermarks : String → ℕ → History → Outcome (ℕ × ℕ)
  -- The time stamp of the message at an offset, unless none comes or it is an error.
  pub poll : String → ℕ → ℕ → History → Outcome (Option ℕ)

-- `connections`, which both kinds of database share, under (hostname, port, database).
abbrev pub DbKey : Type 0
DbKey = Option String × Option String × Option String

pub record State : Type 0 where
  pub connections : Dict DbKey Connection
  pub trace : History

-- A call to the outside: it is recorded, and answered from the calls before it.
unfoldable pub ask : {A : Type 0} → Event → (History → Outcome A) → M State A
ask e answer s = (answer s.trace, record s { trace = s.trace ++ e ∷ [] })

-- `cursor.execute(query)` and the rows that the cursor then holds
unfoldable pub run : Env → Connection → Query → M State (List Row)
run env conn query = ask (execute conn query) (env.execute conn query)

abbrev pub or_key_error : Option Cell → M State Cell
or_key_error none = throw key_error
or_key_error (some cell) = pure cell

-- `row[name]`
unfoldable pub column : Row → String → M State Cell
column row name = or_key_error (Dict.get row name)

-- `cursor.fetchone()`, where an empty row counts as no row in a test
abbrev pub fetch_one : List Row → Option Row
fetch_one [] = none
fetch_one (row ∷ rows) = some row
