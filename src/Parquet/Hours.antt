-- ===== src/Parquet/Hours.antt =====
-- parquet/diff-parquet/main.py: how many rows of a file fall into each hour.
pub mod Counts
use dockerize_and_ansible.Base.{
  ℕ, ◌+◌, ◌-◌, String, Option, none, some, List, [], ◌∷◌, if◌then◌else◌, string_eq, option_eq, ltb,
}
use dockerize_and_ansible.Base.Dict
use dockerize_and_ansible.Base.Dict.{Dict}
use dockerize_and_ansible.Base.Effect.{
  other_exception, Outcome, return, raise, M, pure, try_except, ◌>>=◌, ◌>>◌,
}
use dockerize_and_ansible.Parquet.State
use dockerize_and_ansible.Parquet.State.{
  Stamp, Counter, Event, Env, State, ask, lift, null, text, naive, aware, other,
}
use dockerize_and_ansible.Parquet.Times.{as_some, get_tsms_from_filename, parse_tsms}

-- `counter[k] += v` on a defaultdict
unfoldable pub bump : Counter → String → ℕ → Counter
bump counter k v = Dict.put counter k (Dict.get_or counter k 0 + v)

-- `for k, v in items: counter[k] += v`
unfoldable pub add_items : Counter → Counter → Counter
add_items counter [] = counter
add_items counter ((k, v) ∷ items) = add_items (bump counter k v) items

unfoldable pub merge_all : Counter → List Counter → Counter
merge_all merged [] = merged
merge_all merged (counter ∷ counters) = merge_all (add_items merged counter) counters

unfoldable pub merge_counters : List Counter → Counter
merge_counters counters = merge_all [] counters

abbrev pub one_hour : ℕ
one_hour = 3600000

-- `dt - timedelta(hours=1)`: an OverflowError before year 1
abbrev pub hour_before : ℕ → Outcome ℕ
hour_before dt = if ltb dt one_hour then raise other_exception else return (dt - one_hour)

-- One element for each worker, as `pool.map` returns them; an exception of one is the exception of all.
abbrev pub cons_counter : Outcome Counter → Outcome (List Counter) → Outcome (List Counter)
cons_counter (return counter) (return counters) = return (counter ∷ counters)
cons_counter (return counter) (raise e) = raise e
cons_counter (raise e) counters = raise e

module _ (env : Env) where
  -- `value.is_valid is False` is passed over.
  unfoldable pub read_stamp : Stamp → Outcome (Option ℕ)
  read_stamp null = return none
  read_stamp (text s) = as_some (parse_tsms env (text s))
  read_stamp (naive t) = as_some (parse_tsms env (naive t))
  read_stamp (aware t) = as_some (parse_tsms env (aware t))
  read_stamp other = as_some (parse_tsms env other)

  abbrev pub bump_hour : Counter → Option ℕ → Counter
  bump_hour counter none = counter
  bump_hour counter (some ts) = bump counter (env.hour_key ts) 1

  -- One row group, with the counter so far.
  unfoldable pub batch_process_tsms : List Stamp → Counter → Outcome Counter
  batch_process_tsms [] local_counter = return local_counter
  batch_process_tsms (value ∷ column) local_counter = elim (read_stamp value) [
    | raise e ↦ raise e
    | return ts ↦ batch_process_tsms column (bump_hour local_counter ts)
  ]

  -- `pool.map(batch_process_tsms, batches)`
  unfoldable pub process_all : List (List Stamp) → Outcome (List Counter)
  process_all [] = return []
  process_all (batch ∷ batches) = cons_counter (batch_process_tsms batch []) (process_all batches)

  abbrev pub merged : Outcome (List Counter) → Outcome Counter
  merged (return counters) = return (merge_counters counters)
  merged (raise e) = raise e

  unfoldable pub extract_hour_distribution_by_tsms : String → M State Counter
  extract_hour_distribution_by_tsms file_path =
      try_except
        (do
          batches ← ask (Event.read_groups file_path) (env.read_groups file_path)
          lift (merged (process_all batches)))
        (λ e. pure [])

  unfoldable pub count_rows : String → Option ℕ → M State Counter
  count_rows parquet_path none = pure []
  count_rows parquet_path (some dt) = do
    dt_adjusted ← lift (hour_before dt)
    num_rows ← ask (Event.read_num_rows parquet_path) (env.read_num_rows parquet_path)
    pure ((env.hour_key dt_adjusted, num_rows) ∷ [])

  unfoldable pub extract_hour_distribution_by_row_count : String → M State Counter
  extract_hour_distribution_by_row_count parquet_path = do
    dt ← lift (get_tsms_from_filename env (env.basename parquet_path))
    count_rows parquet_path dt
