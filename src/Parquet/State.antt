-- ===== src/Parquet/State.antt =====
-- The state of parquet/diff-parquet/main.py and what it asks of the outside: the bucket, the local
-- files, and the libraries for times. A time is a number of milliseconds from the start of year 1.
use dockerize_and_ansible.Base.{ℕ, String, Bool, Option, List, [], ◌∷◌, ◌++◌, string_eq, option_eq}
use dockerize_and_ansible.Base.Dict.{Dict}
use dockerize_and_ansible.Base.Effect.{Outcome, M}

-- A value of the column `tsms`; `naive` has no time zone.
pub data Stamp : Type 0 where
  null : Stamp
  text : String → Stamp
  naive aware : ℕ → Stamp
  other : Stamp

pub record Object : Type 0 where
  pub object_name : String
  pub etag : String

abbrev pub Counter : Type 0
Counter = Dict String ℕ

pub data Event : Type 0 where
  list_objects : Event
  select : (object_name : String) → Event
  prepare : (path : String) → Event
  fetch : (object_name path : String) → Event
  read_names : (path : String) → Event
  read_groups : (path : String) → Event
  read_num_rows : (path : String) → Event
  save : Dict String String → Event

abbrev pub History : Type 0
History = List Event

pub record Env : Type 0 where
  pub start_time : ℕ
  pub end_time : ℕ
  -- `datetime.strptime` with the format of the program, `localize` of the time zone, and
  -- `datetime.fromtimestamp(int(s) / 1000.0)`
  pub strptime : String → Outcome ℕ
  pub localize : ℕ → ℕ
  pub fromtimestamp : String → Outcome ℕ
  -- The groups of the two regular expressions for file names.
  pub find_date : String → Option String
  pub find_millis : String → Option String
  -- `strftime("%Y%m%d%H00")` in the local time zone
  pub hour_key : ℕ → String
  pub basename : String → String
  pub list_objects : History → Outcome (List Object)
  -- The decoded pieces of the answer.
  pub select : String → History → Outcome (List String)
  -- `makedirs` and then `exists`
  pub prepare : (path : String) → History → Outcome Bool
  -- `false` for an S3Error
  pub fetch : (object_name path : String) → History → Outcome Bool
  pub read_names : (path : String) → History → Outcome (List String)
  pub read_groups : (path : String) → History → Outcome (List (List Stamp))
  pub read_num_rows : (path : String) → History → Outcome ℕ
  pub save : Dict String String → History → Outcome (Unit {0})

pub record State : Type 0 where
  pub etag_map : Dict String String
  pub total_stats : Counter
  pub trace : History

unfoldable pub ask : {A : Type 0} → Event → (History → Outcome A) → M State A
ask e answer s = (answer s.trace, record s { trace = s.trace ++ e ∷ [] })

abbrev pub lift : {A : Type 0} → Outcome A → M State A
lift r s = (r, s)
