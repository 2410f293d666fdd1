-- ===== src/Lineage/State.antt =====
-- The state of mssql/replication/main.py and what it asks of the outside: SQL servers, the graph
-- database, and the data frames of pandas.
use dockerize_and_ansible.Base.{
  ℕ, String, ap, Bool, false, Option, List, [], ◌∷◌, ◌++◌, Eq, string_eq,
}
use dockerize_and_ansible.Base.Dict.{Dict}
use dockerize_and_ansible.Base.Effect.{Exception, Outcome, M}
use mathlib.Core.Logic.{dite}

pub record Credential : Type 0 where
  pub user : Option String
  pub password : Option String

-- The part of the configuration for SQL Server. `database` stays the same throughout.
pub record Config : Type 0 where
  pub server : String
  pub database : String
  pub credentials : List Credential
  pub blacklist : Option (List String)

-- The key of the pool of connections.
pub record Signature : Type 0 where
  pub server : String
  pub database : String

signature_dec : Discrete Signature
signature_dec x y =
    dite (string_eq.dec x.server y.server)
      (λ p.
        dite (string_eq.dec x.database y.database)
          (λ q. yes (λ i. record { server = p i; database = q i }))
          (λ n. no (λ e. n (ap (λ t. t.database) e))))
      (λ n. no (λ e. n (ap (λ t. t.server) e)))

instance unfoldable pub signature_eq : Eq Signature
unfolding signature_dec
signature_eq = record { dec = signature_dec }

-- An open connection, by the place and the user that it was opened for.
pub record Connection : Type 0 where
  pub place : Signature
  pub user : Option String

-- A row of `get_log_shipping_info`.
pub record Shipping : Type 0 where
  pub primary_server : String
  pub primary_database : String
  pub secondary_server : String
  pub secondary_database : String
  pub status : String

-- Where a subscription comes from and where it leads: the columns of `groupby`.
pub record Pair : Type 0 where
  pub publisher : String
  pub publisher_db : String
  pub subscriber : String
  pub subscriber_db : String

-- A row of `get_replication_info`.
pub record Subscription : Type 0 where
  pub pair : Pair
  pub open pair use *
  pub publication : String
  pub publication_type : String
  pub description : String
  pub src_table : String
  pub subscription_type : String
  pub dst_table : String
  pub sync_status : String

-- A value that an edge of the graph carries.
pub data Value : Type 0 where
  text : String → Value
  count : ℕ → Value

-- The parameters of the MERGE statement.
pub record Edge : Type 0 where
  pub s_server : String
  pub s_db : String
  pub t_server : String
  pub t_db : String
  pub ltype : String
  pub extra_props : Dict String Value

-- The statements sent to SQL servers.
pub data Query : Type 0 where
  help_distributor : Query
  select_log_shipping : Query
  select_replication : Query
  drop_subscription : Subscription → Query
  cleanup_subscription : Subscription → Query

pub data Event : Type 0 where
  connect : Signature → Credential → Event
  execute : Connection → Query → Event
  commit : Connection → Event
  load_config : Event
  open_graph : Event
  merge : Edge → Event
  close_graph : Event

abbrev pub History : Type 0
History = List Event

pub record Env : Type 0 where
  -- The file, parsed, with its entry for SQL Server.
  pub load_config : History → Outcome Config
  pub connect : Signature → Credential → History → Outcome (Unit {0})
  -- The first column of the first row, `none` if there is no row or a NULL.
  pub distributor : Connection → History → Outcome (Option String)
  pub log_shipping : Connection → History → Outcome (List Shipping)
  pub replication : Connection → History → Outcome (List Subscription)
  -- A statement that changes something.
  pub execute : Connection → Query → History → Outcome (Unit {0})
  pub commit : Connection → History → Outcome (Unit {0})
  pub open_graph : History → Outcome (Unit {0})
  pub merge : Edge → History → Outcome (Unit {0})
  pub close_graph : History → Outcome (Unit {0})
  -- `df.groupby([...])`, `series.value_counts().to_dict()`, `json.dumps` and `str.upper`
  pub group_by : List Subscription → List (Pair × List Subscription)
  pub value_counts : List String → Dict String ℕ
  pub dumps : List Subscription → String
  pub upper : String → String

-- What `visited_servers` holds for a server.
pub data Visit : Type 0 where
  connected : Connection → Visit
  unreachable : Exception → Visit

pub record State : Type 0 where
  -- `CONNECTION_POOL`
  pub pool : Dict Signature Connection
  pub visited : Dict String Visit
  pub trace : History
  -- Whether the fuel of the traversal ran out.
  pub out_of_fuel : Bool

-- The state of a process that starts, after some calls.
abbrev pub untouched : History → State
untouched h = record { pool = []; visited = []; trace = h; out_of_fuel = false }

unfoldable pub ask : {A : Type 0} → Event → (History → Outcome A) → M State A
ask e answer s = (answer s.trace, record s { trace = s.trace ++ e ∷ [] })
