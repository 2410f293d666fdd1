-- ===== src/Partition/Manager.antt =====
-- The methods of `PartitionManager` in gpdb/cron/archive_partition.py.
use dockerize_and_ansible.Base.{
  ℕ, ◌+◌, ◌-◌, ◌*◌, String, ◌<>◌, Bool, true, false, not, List, [], ◌∷◌, keep, ◌==◌, if◌then◌else◌,
  nat_eq, string_eq, ltb,
}
use dockerize_and_ansible.Base.Dict
use dockerize_and_ansible.Base.Dict.{Dict}
use dockerize_and_ansible.Base.Effect.{Outcome, return, M, pure, ◌>>=◌, ◌>>◌}
use dockerize_and_ansible.Partition.State
use dockerize_and_ansible.Partition.State.{
  Table, Range, Subpartition, Order, Env, State, History, ask, trimmed,
}

-- Days of grace by `schema.table`.
abbrev pub Whitelist : Type 0
Whitelist = Dict String ℕ

abbrev pub full_name : Table → String
full_name t = t.schemaname <> "." <> t.tablename

abbrev pub is_empty_whitelist : Whitelist → Bool
is_empty_whitelist [] = true
is_empty_whitelist (_ ∷ _) = false

-- One day in seconds.
abbrev pub day : ℕ
day = 86400

-- The bounds of a range: its start and its end.
pub record Bounds : Type 0 where
  pub start : ℕ
  pub end : ℕ

-- `partitionrangeend - datetime.now() > 20 * partitionrangeinterval`, with what is subtracted
-- moved to the other side; and the same with `<`
abbrev pub beyond_20_intervals : Bounds → ℕ → Bool
beyond_20_intervals b now = ltb (now + 20 * b.end) (b.end + 20 * b.start)

abbrev pub within_20_intervals : Bounds → ℕ → Bool
within_20_intervals b now = ltb (b.end + 20 * b.start) (now + 20 * b.end)

abbrev pub cold_tablespace : String
cold_tablespace = "tbs_hdd01"

-- A call that reads and changes no state.
abbrev pub lift : {A : Type 0} → Outcome A → M State A
lift r s = (r, s)

module _ (env : Env) where
  unfoldable pub get_now : M State ℕ
  get_now = ask State.read_clock (λ h. return (env.now h))

  -- A bound of a range, as a time stamp; a text that is none is a ValueError.
  unfoldable pub read_bound : String → M State ℕ
  read_bound s = lift (env.strptime (trimmed s))

  unfoldable pub read_bounds : Range → M State Bounds
  read_bounds p = do
    start ← read_bound p.partitionrangestart
    end ← read_bound p.partitionrangeend
    pure (record { start = start; end = end })

  unfoldable pub get_partition_tables : Whitelist → M State (List Table)
  get_partition_tables whitelist = do
    tables ← ask State.select_tables env.tables
    pure (
        if is_empty_whitelist whitelist
        then tables
        else keep (λ t. Dict.has whitelist (full_name t)) tables)

  unfoldable pub get_partition_table_subpartitions : Table → Order → M State (List Subpartition)
  get_partition_table_subpartitions table sort =
      ask (State.select_subpartitions table sort) (env.subpartitions table sort)

  unfoldable pub check_subpartition_isempty : Subpartition → M State Bool
  check_subpartition_isempty p = do
    rows ← ask (State.select_first_row p) (env.rowcount p)
    pure (rows == 0)

  unfoldable pub drop_subpartition : Subpartition → ℕ → M State Bool
  drop_subpartition p rank = do
    ask (State.drop_rank p.table rank) (env.drop_rank p.table rank)
    pure true

  unfoldable pub commit_tx : M State (Unit {0})
  commit_tx = ask State.commit env.commit

  unfoldable pub check_subpartition_canarchive : Whitelist → Subpartition → M State Bool
  check_subpartition_canarchive whitelist p = do
    end ← read_bound p.partitionrangeend
    let threadhold = Dict.get_or whitelist (full_name p.table) 180
    now ← get_now
    pure (ltb (end + threadhold * day) now)

  unfoldable pub migrate_subpartition_tablespace : Subpartition → M State Bool
  migrate_subpartition_tablespace p = if p.tablespace == cold_tablespace then pure true else (do
    ask (State.set_tablespace p cold_tablespace) (env.set_tablespace p cold_tablespace)
    pure true)

  -- `a or b`, with a reading of the clock in each
  unfoldable pub check_subpartition_needclean : Range → M State Bool
  check_subpartition_needclean p = do
    b ← read_bounds p
    now ← get_now
    if beyond_20_intervals b now
        then pure true
        else (do now' ← get_now; pure (ltb (now' + 365 * day) b.end))

  -- `a and b`
  unfoldable pub check_subpartition_needprecreate : Range → M State Bool
  check_subpartition_needprecreate p = do
    b ← read_bounds p
    now ← get_now
    if not (within_20_intervals b now)
        then pure false
        else (do now' ← get_now; pure (ltb b.end (now' + 365 * day)))

  -- The range that follows: as long as this one, from its end on.
  abbrev pub next_range : Range → Bounds → Range
  next_range p b = record {
    table = p.table;
    partitionrangestart = env.strftime b.end;
    partitionrangeend = env.strftime (b.end + b.end - b.start);
  }

  unfoldable pub precreate_subpartition : Range → M State Range
  precreate_subpartition p = do
    b ← read_bounds p
    let until = b.end + b.end - b.start
    let name = p.table.tablename <> "_" <> env.strftime_day b.end
    ask (State.split_default p.table b.end until name) (env.split_default p.table b.end until name)
    pure (next_range p b)
