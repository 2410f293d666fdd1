-- ===== src/Parquet/Times.antt =====
-- parquet/diff-parquet/main.py: the times of a file, and whether it is within the range.
pub mod Ranges
use dockerize_and_ansible.Base.{
  ℕ, String, Bool, false, not, ◌&&◌, ◌||◌, Option, none, some, List, [], ◌∷◌, if◌then◌else◌,
  string_eq, option_eq, ltb, leb,
}
use dockerize_and_ansible.Base.Dict
use dockerize_and_ansible.Base.Text.{is_nonempty, strip, split}
use dockerize_and_ansible.Base.Effect.{
  other_exception, Outcome, return, raise, M, pure, try_except, ◌>>=◌, ◌>>◌,
}
use dockerize_and_ansible.Parquet.State
use dockerize_and_ansible.Parquet.State.{
  Stamp, Event, Env, State, ask, lift, null, text, naive, aware, other,
}

abbrev pub as_some : Outcome ℕ → Outcome (Option ℕ)
as_some (return t) = return (some t)
as_some (raise e) = raise e

-- `first_ts, last_ts` of the first piece that is not blank, which must have two parts
abbrev pub pair_of : Outcome ℕ → Outcome ℕ → Outcome (Option (ℕ × ℕ))
pair_of (return first) (return last) = return (some (first, last))
pair_of (return first) (raise e) = raise e
pair_of (raise e) last = raise e

module _ (env : Env) where
  abbrev pub localized : Outcome ℕ → Outcome ℕ
  localized (return naive_time) = return (env.localize naive_time)
  localized (raise e) = raise e

  abbrev pub by_millis : Option String → Outcome (Option ℕ)
  by_millis none = return none
  by_millis (some millis) = as_some (env.fromtimestamp millis)

  abbrev pub by_date : Option String → Outcome (Option ℕ) → Outcome (Option ℕ)
  by_date none otherwise = otherwise
  by_date (some date) otherwise = as_some (localized (env.strptime date))

  unfoldable pub get_tsms_from_filename : String → Outcome (Option ℕ)
  get_tsms_from_filename name = by_date (env.find_date name) (by_millis (env.find_millis name))

  -- Not called on a null.
  unfoldable pub parse_tsms : Stamp → Outcome ℕ
  parse_tsms (text s) = localized (env.strptime s)
  parse_tsms (naive t) = return (env.localize t)
  parse_tsms (aware t) = return t
  parse_tsms null = raise other_exception
  parse_tsms other = raise other_exception

  unfoldable pub two_parts : List String → Outcome (Option (ℕ × ℕ))
  two_parts (first ∷ last ∷ []) = pair_of (env.fromtimestamp first) (env.fromtimestamp last)
  two_parts parts = raise other_exception

  unfoldable pub first_piece : List String → Outcome (Option (ℕ × ℕ))
  unfolding strip split
  first_piece [] = return none
  first_piece (data_piece ∷ pieces) =
      let rest = first_piece pieces in
      if is_nonempty (strip data_piece) then two_parts (split "," (strip data_piece)) else rest

  unfoldable pub get_tsms_via_s3select : String → M State (Option (ℕ × ℕ))
  get_tsms_via_s3select object_name = do
    pieces ← ask (Event.select object_name) (env.select object_name)
    lift (first_piece pieces)

  unfoldable pub overlaps : Option (ℕ × ℕ) → Bool
  overlaps none = false
  overlaps (some (first_ts, last_ts)) =
      not (ltb last_ts env.start_time || ltb env.end_time first_ts)

  abbrev pub is_within : Option ℕ → Bool
  is_within none = false
  is_within (some dt) = leb env.start_time dt && leb dt env.end_time

  unfoldable pub is_within_time_range_by_name : String → M State Bool
  is_within_time_range_by_name obj_name = do
    dt ← lift (get_tsms_from_filename obj_name)
    pure (is_within dt)

  unfoldable pub is_within_time_range : String → M State Bool
  is_within_time_range obj_name =
      try_except (do range ← get_tsms_via_s3select obj_name; pure (overlaps range))
        (λ e. is_within_time_range_by_name obj_name)
