-- ===== src/Parquet/Bucket.antt =====
-- parquet/diff-parquet/main.py: the loop over the bucket, with the cache of its files.
pub mod Cache
use dockerize_and_ansible.Base.{
  String, ◌<>◌, Bool, true, false, not, ◌&&◌, Option, none, some, contains, ◌==◌, if◌then◌else◌,
  string_eq, option_eq, starts_with,
}
use dockerize_and_ansible.Base.Dict
use dockerize_and_ansible.Base.Dict.{Dict}
use dockerize_and_ansible.Base.Effect.{M, pure, gets, modify, try_except, ◌>>=◌, ◌>>◌, for_each}
use dockerize_and_ansible.Parquet.State
use dockerize_and_ansible.Parquet.State.{Object, Counter, Event, Env, State, ask}
use dockerize_and_ansible.Parquet.Times.{is_within_time_range}
use dockerize_and_ansible.Parquet.Hours.{
  add_items, extract_hour_distribution_by_tsms, extract_hour_distribution_by_row_count,
}

-- `os.path.join(LOCAL_CACHE_DIR, object_name)`
abbrev pub local_path : String → String
local_path object_name =
    if starts_with object_name "/" then object_name else "./cache/" <> object_name

module _ (env : Env) where
  abbrev pub is_file_changed : Dict String String → Object → Bool
  is_file_changed etag_map obj = not (Dict.get etag_map obj.object_name == some obj.etag)

  -- Whether there is a local copy to read, after it was fetched where needed.
  unfoldable pub ensure_local : Object → String → M State Bool
  ensure_local obj path = do
    file_exists ← ask (Event.prepare path) (env.prepare path)
    changed ← gets (λ (s : State). is_file_changed s.etag_map obj)
    if not changed && file_exists then pure true else (do
      fetched ← ask (Event.fetch obj.object_name path) (env.fetch obj.object_name path)
      if fetched
          then (do
            modify (λ (s : State). record s {
              etag_map = Dict.put s.etag_map obj.object_name obj.etag;
            })
            pure true)
          else pure false)

  -- `none` where an exception skips the object
  unfoldable pub stats_of : String → M State (Option Counter)
  stats_of path =
      try_except
        (do
          names ← ask (Event.read_names path) (env.read_names path)
          stats ←
              (if contains names "tsms"
                then extract_hour_distribution_by_tsms env path
                else extract_hour_distribution_by_row_count env path)
          pure (some stats))
        (λ e. pure none)

  abbrev pub add_stats : Option Counter → M State (Unit {0})
  add_stats none = pure tt
  add_stats (some stats) =
      modify (λ (s : State). record s { total_stats = add_items s.total_stats stats })

  -- The body of the loop over the bucket.
  unfoldable pub process_object : Object → M State (Unit {0})
  process_object obj = do
    within ← is_within_time_range env obj.object_name
    if not within then pure tt else (do
      available ← ensure_local obj (local_path obj.object_name)
      if not available
          then pure tt
          else (do stats ← stats_of (local_path obj.object_name); add_stats stats))

  unfoldable pub main : M State (Unit {0})
  main = do
    objects ← ask Event.list_objects env.list_objects
    for_each objects process_object
    etag_map ← gets (λ (s : State). s.etag_map)
    ask (Event.save etag_map) (env.save etag_map)
