-- ===== src/Parquet/Bucket/Cache.antt =====
-- Which etags parquet/diff-parquet/main.py notes.
use dockerize_and_ansible.Base.{
  ℕ, String, ◌≡◌, refl, ◌∙◌, ap, ◌⊎◌, inl, inr, true, false, Option, none, some, [], ◌∷◌, ◌++◌,
  append_assoc, ◌==◌, if◌then◌else◌, string_eq, arith, Bool-cases,
}
use dockerize_and_ansible.Base.Dict
use dockerize_and_ansible.Base.Dict.{Dict, get-put}
use dockerize_and_ansible.Base.Effect.{Outcome, return, pure, modify, ◌>>=◌, ◌>>◌, Outcome-cases}
use dockerize_and_ansible.Base.Effect.Keeps.{Keeps, Keeps-pure, keeps_rules}
use dockerize_and_ansible.Parquet.State.{Object, Counter, Event, History, Env, State, ask, lift}
use dockerize_and_ansible.Parquet.Bucket.{
  local_path, ensure_local, stats_of, add_stats, process_object, main,
}
use dockerize_and_ansible.Parquet.Times.{
  is_within_time_range, is_within_time_range_by_name, get_tsms_via_s3select,
}
use dockerize_and_ansible.Parquet.Hours.{
  extract_hour_distribution_by_tsms, extract_hour_distribution_by_row_count, count_rows,
}
use mathlib.Core.Path.{subst}

-- A call that brought the object here stands among the calls.
abbrev pub Fetched : Env → String → History → Type 0
Fetched env name h =
    (earlier later : History) × (h ≡ earlier ++ Event.fetch name (local_path name) ∷ later)
    × (env.fetch name (local_path name) earlier ≡ return true)

-- Every etag that is noted was noted before, or its object was brought here since.
abbrev pub IsNoted : Env → Dict String String → State → Type 0
IsNoted env before s =
    (name tag : String)
    → Dict.get s.etag_map name ≡ some tag
    → (Dict.get before name ≡ some tag) ⊎ Fetched env name s.trace

Fetched-more :
    (env : Env) (name : String) (h k : History) → Fetched env name h → Fetched env name (h ++ k)
Fetched-more env name h k (earlier, later, split, fetched) = (
  earlier,
  later ++ k,
  ap (λ t. t ++ k) split ∙ append_assoc earlier (Event.fetch name (local_path name) ∷ later) k,
  fetched,
)

module _ (env : Env) (before : Dict String String) where
  ask-Keeps :
      {A : Type 0} (e : Event) (answer : History → Outcome A)
      → Keeps (IsNoted env before) (ask e answer)
  unfolding ask
  ask-Keeps e answer = record {
    at = λ s h name tag found. elim (h name tag found) [
      | inl early ↦ inl early
      | inr fetched ↦ inr (Fetched-more env name s.trace (e ∷ []) fetched)
    ];
  }

  lift-Keeps : {A : Type 0} (r : Outcome A) → Keeps (IsNoted env before) (lift r)
  lift-Keeps r = record { at = λ s h. h }

  add_stats-Keeps : (o : Option Counter) → Keeps (IsNoted env before) (add_stats env o)
  unfolding modify
  add_stats-Keeps none = Keeps-pure _
  add_stats-Keeps (some stats) = record { at = λ s h. h }

  range-Keeps : (name : String) → Keeps (IsNoted env before) (is_within_time_range env name)
  unfolding is_within_time_range is_within_time_range_by_name get_tsms_via_s3select
  range-Keeps name = search (keeps_rules, ask-Keeps, lift-Keeps) depth 20

  by_tsms-Keeps :
      (path : String) → Keeps (IsNoted env before) (extract_hour_distribution_by_tsms env path)
  unfolding extract_hour_distribution_by_tsms
  by_tsms-Keeps path = search (keeps_rules, ask-Keeps, lift-Keeps) depth 20

  count_rows-Keeps :
      (path : String) (dt : Option ℕ) → Keeps (IsNoted env before) (count_rows env path dt)
  unfolding count_rows
  count_rows-Keeps path none = Keeps-pure _
  count_rows-Keeps path (some dt) = search (keeps_rules, ask-Keeps, lift-Keeps) depth 20

  by_rows-Keeps :
      (path : String) → Keeps (IsNoted env before) (extract_hour_distribution_by_row_count env path)
  unfolding extract_hour_distribution_by_row_count
  by_rows-Keeps path = search (keeps_rules, count_rows-Keeps, lift-Keeps) depth 20

  stats_of-Keeps : (path : String) → Keeps (IsNoted env before) (stats_of env path)
  unfolding stats_of
  stats_of-Keeps path = search (keeps_rules, ask-Keeps, by_tsms-Keeps, by_rows-Keeps) depth 20

  fetch-Keeps :
      (obj : Object)
      → Keeps (IsNoted env before) (do
        fetched ←
            ask
              (Event.fetch obj.object_name (local_path obj.object_name))
              (env.fetch obj.object_name (local_path obj.object_name))
        if fetched
            then (do
              modify (λ (s : State). record s {
                etag_map = Dict.put s.etag_map obj.object_name obj.etag;
              })
              pure true)
            else pure false)
  unfolding ask modify pure ◌>>=◌
  fetch-Keeps obj = record {
    at = λ s h.
        let path = local_path obj.object_name in
        let asked =
          (ask-Keeps (Event.fetch obj.object_name path) (env.fetch obj.object_name path)).at s h in
        elim (Outcome-cases (env.fetch obj.object_name path s.trace)) [
          | inr (e, failed) ↦ rw failed asked
          | inl (answer, ok) ↦ elim (Bool-cases answer) [
            | inr missing ↦ rw (ok, missing) asked
            | inl here ↦
                rw (ok, here)
                  λ name tag found. elim (Bool-cases (obj.object_name == name)) [
                    | inr different ↦
                        asked name tag
                          (ground (arith, get-put s.etag_map obj.object_name name obj.etag))
                    | inl same ↦
                        let brought : Fetched env obj.object_name
                            (s.trace ++ Event.fetch obj.object_name path ∷ []) =
                          (s.trace, [], refl, ok ∙ ap return here) in
                        let at : obj.object_name ≡ name = ground arith in
                        inr (
                          subst
                            (λ n. Fetched env n (s.trace ++ Event.fetch obj.object_name path ∷ []))
                            at brought)
                  ]
          ]
        ];
  }

  local-Keeps :
      (obj : Object)
      → Keeps (IsNoted env before) (ensure_local env obj (local_path obj.object_name))
  unfolding ensure_local
  local-Keeps obj = search (keeps_rules, ask-Keeps, fetch-Keeps) depth 20

  process_object-Keeps : (obj : Object) → Keeps (IsNoted env before) (process_object env obj)
  unfolding process_object
  process_object-Keeps obj =
      search (keeps_rules, range-Keeps, local-Keeps, stats_of-Keeps, add_stats-Keeps) depth 20

  -- Whatever the bucket and the files answer, and also if the run ends early: every etag that is
  -- noted then was noted before, or its object was brought here in the run.
  pub main-IsNoted : Keeps (IsNoted env before) (main env)
  unfolding main
  main-IsNoted = search (keeps_rules, ask-Keeps, process_object-Keeps) depth 20
