-- ===== src/Tests/ParquetRuns.antt =====
-- parquet/diff-parquet/main.py at a file of two row groups.
use dockerize_and_ansible.Base.{
  String, ◌≡◌, refl, true, false, none, List, [], ◌∷◌, flat, if◌then◌else◌, ltb, string_eq, nat_eq,
  option_eq,
}
use dockerize_and_ansible.Base.Dict
use dockerize_and_ansible.Base.Dict.{Dict}
use dockerize_and_ansible.Base.Effect.{
  return, raise, other_exception, for_each, pure, gets, modify, try_except, ◌>>=◌,
}
use dockerize_and_ansible.Base.Effect.Keeps.{Keeps}
use dockerize_and_ansible.Base.Text.{strip, lstrip, rstrip, is_space, split}
use dockerize_and_ansible.Parquet.Bucket.Cache.{IsNoted, main-IsNoted}
use dockerize_and_ansible.Parquet.State.{Stamp, null, naive, aware, Counter, Env, State, ask}
use dockerize_and_ansible.Parquet.Times.{
  overlaps, parse_tsms, is_within_time_range, get_tsms_via_s3select, first_piece, two_parts,
}
use dockerize_and_ansible.Parquet.Hours.{
  read_stamp, process_all, batch_process_tsms, bump, add_items, merge_all, merge_counters,
  extract_hour_distribution_by_tsms,
}
use dockerize_and_ansible.Parquet.Bucket.{process_object, ensure_local, stats_of, main}
use dockerize_and_ansible.Parquet.Hours.Counts.{
  occurrences, extract_hour_distribution_by_tsms-occurrences,
}

abbrev groups : List (List Stamp)
groups = (aware 5 ∷ null ∷ naive 12 ∷ []) ∷ (aware 7 ∷ []) ∷ []

-- Hours of ten milliseconds; one file, with times from 5 to 12.
abbrev parquet_env : Env
parquet_env = record {
  start_time = 0;
  end_time = 9;
  strptime = λ s. raise other_exception;
  localize = λ t. t;
  fromtimestamp = λ s. return 5;
  find_date = λ name. none;
  find_millis = λ name. none;
  hour_key = λ t. if ltb t 10 then "first" else "second";
  basename = λ path. path;
  list_objects = λ h. return ((record { object_name = "a.parquet"; etag = "v1" }) ∷ []);
  select = λ name h. return ("5,5" ∷ []);
  prepare = λ path h. return false;
  fetch = λ name path h. return true;
  read_names = λ path h. return ("tsms" ∷ []);
  read_groups = λ path h. return groups;
  read_num_rows = λ path h. return 4;
  save = λ etag_map h. return tt;
}

abbrev at_start : State
at_start = record { etag_map = []; total_stats = []; trace = [] }

extract_hour_distribution_by_tsms-occurrences_example :
    (stats : Counter) × ((extract_hour_distribution_by_tsms parquet_env "a" at_start).0
      ≡ return stats)
    × ((k : String)
        → Dict.get_or stats k 0 ≡ occurrences parquet_env k (flat (λ batch. batch) groups))
unfolding read_stamp parse_tsms
extract_hour_distribution_by_tsms-occurrences_example =
    extract_hour_distribution_by_tsms-occurrences parquet_env "a" groups at_start refl refl

main-IsNoted_example : Keeps (IsNoted parquet_env []) (main parquet_env)
main-IsNoted_example = main-IsNoted parquet_env []

-- The whole run, and what is noted at its end.
whole_run :
    ((main parquet_env at_start).1.total_stats ≡ ("first", 2) ∷ ("second", 1) ∷ [])
    × ((main parquet_env at_start).1.etag_map ≡ ("a.parquet", "v1") ∷ [])
unfolding main process_object ensure_local stats_of is_within_time_range get_tsms_via_s3select
    first_piece two_parts strip lstrip rstrip is_space split overlaps ask for_each pure gets modify
    try_except ◌>>=◌ extract_hour_distribution_by_tsms process_all batch_process_tsms read_stamp
    parse_tsms bump add_items merge_all merge_counters Dict.put Dict.get Dict.get_or string_eq
    nat_eq option_eq
whole_run = (refl, refl)
