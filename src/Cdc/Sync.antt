-- ===== src/Cdc/Sync.antt =====
-- kafka/cdc/src/main.py: the latest change in SQL Server against the latest message in Kafka.
pub mod Retries
use dockerize_and_ansible.Base.{
  ℕ, zero, suc, ◌+◌, ◌-◌, ◌*◌, String, Bool, true, false, not, ◌||◌, Option, none, some, List, [],
  ◌∷◌, keep, length, ◌==◌, if◌then◌else◌, string_eq, nat_eq, ltb,
}
use dockerize_and_ansible.Base.Text.{split, last}
use dockerize_and_ansible.Base.Effect.{
  Exception, type_error, other_exception, Outcome, return, M, pure, throw, try_except, ◌>>=◌, ◌>>◌,
  map_each,
}
use dockerize_and_ansible.Cdc.State
use dockerize_and_ansible.Cdc.State.{
  Datasource, Cell, zoned, naive, select_time_offset, select_latest_change, Env, State, ask, run,
  column, fetch_one,
}
use dockerize_and_ansible.Cdc.Connection.{get_sqlserver_connection}
use dockerize_and_ansible.Cdc.SqlServer.{field, is_row}

unfoldable pub extract_table_name_from_topic : String → String
unfolding split
extract_table_name_from_topic topic =
    let parts = split "." topic in if ltb 2 (length parts) then last parts else topic

-- `server_local_time.utcoffset()`
abbrev pub offset_of : Cell → M State ℕ
offset_of (zoned local offset) = pure offset
offset_of _ = throw other_exception

-- The time of a change without a zone, read in the zone of the server, in milliseconds of UTC.
abbrev pub to_utc : ℕ → Cell → M State ℕ
to_utc offset (naive local) = pure (local + 1440 * 60000 - offset * 60000)
to_utc offset _ = throw other_exception

-- A time, where 0 stands for None too: `if not time:` does not tell them apart.
abbrev pub time_or_0 : Option ℕ → ℕ
time_or_0 none = 0
time_or_0 (some t) = t

abbrev pub later : Option ℕ → Option ℕ → Option ℕ
later latest none = latest
later none (some t) = some t
later (some best) (some t) = if ltb best t then some t else some best

abbrev pub is_empty : List String → Bool
is_empty [] = true
is_empty (_ ∷ _) = false

abbrev pub without_topic : String → Datasource → Datasource
without_topic topic db = record db { active_topics = keep (λ t. not (t == topic)) db.active_topics }

-- What is logged for a data source.
pub data Verdict : Type 0 where
  no_active_topics no_change_time : Verdict
  no_message above_threshold within_threshold : String → Verdict

-- What the report for a data source says.
abbrev compared : Datasource → String → ℕ → Option ℕ → Datasource × Verdict
compared db topic ct_time kafka_time =
    let time = time_or_0 kafka_time in
    (
      db,
      if time == 0
          then no_message topic
          else if ltb (ct_time + 60000) time
          then above_threshold topic
          else within_threshold topic,
    )

module _ (env : Env) where
  unfoldable pub get_sqlserver_ct_time : Datasource → String → M State (Option ℕ)
  get_sqlserver_ct_time db table_name =
      try_except
        (do
          conn ← get_sqlserver_connection env db
          times ← run env conn select_time_offset
          server_local_time ← field (fetch_one times) "server_local_time"
          utcoffset ← offset_of server_local_time
          changes ← run env conn (select_latest_change table_name)
          if not (is_row (fetch_one changes)) then pure none else (do
            latest_lsn_time ← field (fetch_one changes) "latest_lsn_time"
            time ← to_utc utcoffset latest_lsn_time
            pure (some time)))
        (λ e. pure none)

  unfoldable pub latest_message : String → Option ℕ → List ℕ → M State (Option ℕ)
  latest_message topic latest [] = pure latest
  latest_message topic latest (partition ∷ partitions) = do
    (low, high) ← ask (State.watermark topic partition) (env.watermarks topic partition)
    if high == 0 || high == low then latest_message topic latest partitions else (do
      message ← ask (State.poll topic partition (high - 1)) (env.poll topic partition (high - 1))
      latest_message topic (later latest message) partitions)

  unfoldable pub get_kafka_ct_time : String → M State (Option ℕ)
  get_kafka_ct_time topic =
      try_except
        (do
          partitions ← ask (State.list_partitions topic) (env.partitions topic)
          latest_message topic none partitions)
        (λ e. pure none)

  -- The retries, with the number that is left. A topic without changes leaves the set for good.
  unfoldable pub pick_topic : ℕ → Datasource → M State (Datasource × Option (String × ℕ))
  pick_topic zero db = pure (db, none)
  pick_topic (suc retries) db = if is_empty db.active_topics then pure (db, none) else (do
    topic ← ask (State.choose db.active_topics) (λ h. return (env.choose db.active_topics h))
    time ← get_sqlserver_ct_time db (extract_table_name_from_topic topic)
    let ct_time = time_or_0 time
    (if ct_time == 0
        then pick_topic retries (without_topic topic db)
        else pure (db, some (topic, ct_time))))

  unfoldable pub compare_times : Datasource → Option (String × ℕ) → M State (Datasource × Verdict)
  compare_times db none = pure (db, no_change_time)
  compare_times db (some (topic, ct_time)) = do
    kafka_time ← get_kafka_ct_time topic
    pure (compared db topic ct_time kafka_time)

  unfoldable pub check_sync : ℕ → Datasource → M State (Datasource × Verdict)
  check_sync max_retries db =
      if is_empty db.active_topics
      then pure (db, no_active_topics)
      else (do (db', picked) ← pick_topic max_retries db; compare_times db' picked)

  unfoldable pub check_sqlserver2kafka_sync :
      ℕ → List Datasource → M State (List (Datasource × Verdict))
  check_sqlserver2kafka_sync max_retries [] = pure []
  check_sqlserver2kafka_sync max_retries (db ∷ ds) = do
    checked ← check_sync max_retries db
    more ← check_sqlserver2kafka_sync max_retries ds
    pure (checked ∷ more)
