-- ===== src/Partition/State.antt =====
-- The state of gpdb/cron/archive_partition.py and what it asks of the outside: the database, the
-- clock, and the text form of time stamps. Naive time stamps are seconds.
use dockerize_and_ansible.Base.{ℕ, String, ◌≡◌, List, [], ◌∷◌, ◌++◌}
use dockerize_and_ansible.Base.Text.{strip_of}
use dockerize_and_ansible.Base.Effect.{Outcome, return, M}

-- A row of `pg_partitions`, one for each partitioned table.
pub record Table : Type 0 where
  pub schemaname : String
  pub tablename : String

-- What the checks read of a subpartition; `precreate_subpartition` returns just this.
pub record Range : Type 0 where
  pub table : Table
  pub partitionrangestart : String
  pub partitionrangeend : String

pub record Subpartition : Type 0 where
  pub range : Range
  pub open range use *
  pub partitiontablename : String
  pub tablespace : String

pub data Order : Type 0 where
  ascending descending : Order

-- The calls that leave the program. The name of a split partition is its table's, an underscore
-- and the day on which it starts.
pub data Event : Type 0 where
  connect : Event
  read_clock : Event
  select_tables : Event
  select_subpartitions : Table → Order → Event
  select_first_row : Subpartition → Event
  drop_rank : Table → ℕ → Event
  set_tablespace : Subpartition → String → Event
  split_default : Table → (from until : ℕ) → (name : String) → Event
  commit : Event

abbrev pub History : Type 0
History = List Event

pub record Env : Type 0 where
  pub connect : History → Outcome (Unit {0})
  pub now : History → ℕ
  pub tables : History → Outcome (List Table)
  pub subpartitions : Table → Order → History → Outcome (List Subpartition)
  -- `cur.rowcount` after `select * … limit 1`
  pub rowcount : Subpartition → History → Outcome ℕ
  pub drop_rank : Table → ℕ → History → Outcome (Unit {0})
  pub set_tablespace : Subpartition → String → History → Outcome (Unit {0})
  pub split_default : Table → ℕ → ℕ → String → History → Outcome (Unit {0})
  pub commit : History → Outcome (Unit {0})
  -- `datetime.strptime(s, "%Y-%m-%d %H:%M:%S")`, and `strftime` with that format and with "%Y%m%d"
  pub strptime : String → Outcome ℕ
  pub strftime : ℕ → String
  pub strftime_day : ℕ → String

-- `s.strip("::timestamp without time zone").strip("'")`
abbrev pub trimmed : String → String
trimmed s = strip_of "'" (strip_of "::timestamp without time zone" s)

-- What the program relies on: a formatted time stamp begins and ends with a digit, which neither
-- `strip` takes off, and parsing gives it back.
pub record FormatsTime (env : Env) : Type 0 where
  pub trimmed-strftime : (t : ℕ) → trimmed (env.strftime t) ≡ env.strftime t
  pub strptime-strftime : (t : ℕ) → env.strptime (env.strftime t) ≡ return t

-- `PartitionManager`: the connection has no state of its own here.
pub record State : Type 0 where
  pub trace : History

unfoldable pub ask : {A : Type 0} → Event → (History → Outcome A) → M State A
ask e answer s = (answer s.trace, record { trace = s.trace ++ e ∷ [] })
