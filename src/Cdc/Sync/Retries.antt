-- ===== src/Cdc/Sync/Retries.antt =====
-- What the retries of `check_sqlserver2kafka_sync` promise, for a database that is steady.
pub mod Runs
use dockerize_and_ansible.Base.{
  ℕ, zero, suc, ◌+◌, ◌-◌, ◌*◌, ◌≤◌, ◌<◌, String, ◌≡◌, ◌≢◌, refl, ◌∙◌, sym, ap, Bool, true, false,
  not, ◌&&◌, ◌||◌, Option, none, some, List, [], ◌∷◌, ◌++◌, Distinct, length, keep, arith, contains,
  contains-keep, ◌==◌, ==_refl, string_eq, nat_eq, option_eq, triple_eq, if◌then◌else◌, Bool-cases,
  ◌⊎◌, inl, inr,
}
use mathlib.Core.Path.{subst}
use dockerize_and_ansible.Base.Dict
use dockerize_and_ansible.Base.Effect.{
  Outcome, return, raise, pure, throw, gets, try_except, ◌>>=◌, bind-of_return,
}
use dockerize_and_ansible.Cdc.State
use dockerize_and_ansible.Cdc.State.{
  Datasource, Connection, Query, select_time_offset, select_latest_change, Cell, null, number, text,
  boolean, zoned, naive, Row, Env, State, Event, History, ask, run, column,
}
use dockerize_and_ansible.Cdc.Connection.{db_key, get_sqlserver_connection}
use dockerize_and_ansible.Cdc.Sync.{
  extract_table_name_from_topic, time_or_0, is_empty, get_sqlserver_ct_time, without_topic,
  pick_topic,
}

-- How often a topic was chosen.
abbrev pub choices : History → ℕ
choices [] = 0
choices (State.choose topics ∷ h) = suc (choices h)
choices (_ ∷ h) = choices h

pub choices-append : (g h : History) → choices (g ++ h) ≡ choices g + choices h
choices-append [] h = omega arith
choices-append (State.choose topics ∷ g) h = omega (arith, choices-append g h)
choices-append (_ ∷ g) h = choices-append g h

-- The rows for the latest change of a table: an error, no row, or one with a cell.
abbrev pub rows_of : Outcome (Option Cell) → Outcome (List Row)
rows_of (raise e) = raise e
rows_of (return none) = return []
rows_of (return (some cell)) = return ((("latest_lsn_time", cell) ∷ []) ∷ [])

-- The time that such an answer tells: only one without a zone is read, in the zone of the server.
abbrev pub time_of : ℕ → Outcome (Option Cell) → Option ℕ
time_of offset (return (some (naive local))) = some (local + 1440 * 60000 - offset * 60000)
time_of offset _ = none

-- A choice is one of the topics that there are; the database keeps its zone, and always answers for
-- a table in the same way.
pub record IsSteady (env : Env) (conn : Connection) (offset : ℕ)
    (latest : String → Outcome (Option Cell)) : Type 0 where
  pub chooses :
      (topics : List String) (h : History)
      → is_empty topics ≡ false
      → contains topics (env.choose topics h) ≡ true
  pub clock : History → ℕ
  pub zone :
      (h : History)
      → env.execute conn select_time_offset h
        ≡ return ((("server_local_time", zoned (clock h) offset) ∷ []) ∷ [])
  pub changes :
      (table : String) (h : History)
      → env.execute conn (select_latest_change table) h ≡ rows_of (latest table)

-- The time of the latest change of the table of a topic; 0 where none can be told.
abbrev pub change : ℕ → (String → Outcome (Option Cell)) → String → ℕ
change offset latest topic =
    time_or_0 (time_of offset (latest (extract_table_name_from_topic topic)))

abbrev pub is_some : Option (String × ℕ) → Bool
is_some none = false
is_some (some _) = true

-- How the retries end, with the topics that are left: with a topic that is left and has a change,
-- before the retries are used up, or else without a retry or a topic that is left.
abbrev pub Ends : (String → ℕ) → ℕ → List String → List String → Option (String × ℕ) → Type 0
Ends change_of retries tried left none = (length tried ≡ retries) ⊎ (left ≡ [])
Ends change_of retries tried left (some (topic, time)) =
    (contains left topic ≡ true) × (time ≡ change_of topic) × (time ≢ 0) × (length tried < retries)

abbrev pub only_untried : List String → Datasource → Datasource
only_untried tried db = record db {
  active_topics = keep (λ t. not (contains tried t)) db.active_topics;
}

-- What the retries have done, with the topics that they tried in vain.
pub record Picks (env : Env) (change_of : String → ℕ) (retries : ℕ) (db : Datasource) (s : State)
    : Type 0 where
  pub final : State
  pub picked : Option (String × ℕ)
  pub tried : List String
  pub ran : pick_topic env retries db s ≡ (return (only_untried tried db, picked), final)
  pub distinct : Distinct tried
  pub unchanged :
      (t : String)
      → contains tried t ≡ true
      → (contains db.active_topics t ≡ true) × (change_of t ≡ 0)
  pub ends : Ends change_of retries tried (only_untried tried db).active_topics picked
  pub chosen :
      choices final.trace ≡ choices s.trace + (length tried + (if is_some picked then 1 else 0))
  pub finds :
      (t : String)
      → contains db.active_topics t ≡ true
      → change_of t ≢ 0
      → length db.active_topics ≤ retries
      → is_some picked ≡ true

pub is_empty_nil : (xs : List String) → is_empty xs ≡ true → xs ≡ []
is_empty_nil [] h = refl
is_empty_nil (x ∷ xs) h = absurd (ground arith)

length-keep : (p : String → Bool) (xs : List String) → length (keep p xs) ≤ length xs
length-keep p [] = omega arith
length-keep p (x ∷ xs) = ground (arith, length-keep p xs)

-- Without one of its items, a list is shorter.
pub length-without :
    (x : String) (xs : List String)
    → contains xs x ≡ true
    → length (keep (λ t. not (t == x)) xs) < length xs
length-without x [] h = absurd (ground arith)
length-without x (y ∷ xs) h = elim (Bool-cases (x == y)) [
  | inl same ↦ ground (arith, same, length-keep (λ t. not (t == x)) xs)
  | inr differ ↦ ground (arith, differ, h, length-without x xs (ground (arith, h, differ)))
]

pub contains-nonempty : (xs : List String) (t : String) → contains xs t ≡ true → 0 < length xs
contains-nonempty [] t h = absurd (ground arith)
contains-nonempty (x ∷ xs) t h = omega arith

pub keep_all : (xs : List String) → keep (λ t. not false) xs ≡ xs
keep_all [] = refl
keep_all (x ∷ xs) = ap (◌∷◌ x) (keep_all xs)

pub keep_twice :
    (topic : String) (tried xs : List String)
    → keep (λ t. not (contains tried t)) (keep (λ t. not (t == topic)) xs)
      ≡ keep (λ t. not (contains (topic ∷ tried) t)) xs
keep_twice topic tried [] = refl
keep_twice topic tried (x ∷ xs) = elim (Bool-cases (x == topic)) [
  | inl same ↦ rw same (keep_twice topic tried xs)
  | inr differ ↦
      rw differ (ap (λ l. if not (contains tried x) then x ∷ l else l) (keep_twice topic tried xs))
]
