-- ===== src/Tests/PartitionRuns.antt =====
-- gpdb/cron/archive_partition.py at one table.
use dockerize_and_ansible.Base.{
  ℕ, zero, suc, String, ◌≡◌, refl, ◌∙◌, sym, ap, Bool, true, false, ◌&&◌, List, [], ◌∷◌, arith,
  leading, flat, length, ◌==◌, string_eq, nat_eq, if◌then◌else◌,
}
use dockerize_and_ansible.Base.Dict
use dockerize_and_ansible.Base.Text.{strip_of, lstrip, rstrip, has_char}
use dockerize_and_ansible.Base.Effect.{Outcome, return, raise, other_exception}
use dockerize_and_ansible.Base.Effect.Emits.{Emits}
use dockerize_and_ansible.Partition.State.{Table, Subpartition, Env, State, FormatsTime, trimmed}
use dockerize_and_ansible.Partition.Manager.{Whitelist, Bounds}
use dockerize_and_ansible.Partition.Jobs.{
  migrate_leading, drop_newest, drop_oldest, partition_governance,
}
use dockerize_and_ansible.Partition.Jobs.Precreate.{IsSteady, Reaches, precreate_ahead-Reaches}
use dockerize_and_ansible.Partition.Jobs.Migrate
use dockerize_and_ansible.Partition.Jobs.Migrate.{move_of, moves, is_old, migrate_leading-Emits}
use dockerize_and_ansible.Partition.Jobs.Clean
use dockerize_and_ansible.Partition.Jobs.Clean.{
  drops, ranked, drop_of, behind, leaves, without_newest, without_oldest, is_removable, is_empty,
  aborted, drop_newest-leaves, drop_oldest-leaves, partition_governance-aborts,
}
use Prim.Native.Char.{Char}
use Prim.Native.String as Text

abbrev logs : Table
logs = record { schemaname = "spi"; tablename = "logs" }

-- Time stamps are written as so many strokes, which is all that the theorems ask of their form.
unfoldable strokes : ℕ → String
strokes zero = ""
strokes (suc n) = Text.◌∷◌ "|" (strokes n)

unfoldable count : String → ℕ
count Text.[] = 0
count (Text.◌∷◌ c s) = suc (count s)

count-strokes : (n : ℕ) → count (strokes n) ≡ n
unfolding strokes count
count-strokes zero = refl
count-strokes (suc n) = omega (arith, count-strokes n)

module _ (p : Char → Bool) (other : p "|" ≡ false) where
  lstrip-strokes : (n : ℕ) → lstrip p (strokes n) ≡ strokes n
  unfolding lstrip strokes
  lstrip-strokes zero = refl
  lstrip-strokes (suc n) = rw other

  rstrip-strokes : (n : ℕ) → rstrip p (strokes n) ≡ strokes n
  unfolding rstrip strokes
  rstrip-strokes zero = refl
  rstrip-strokes (suc n) = rw (rstrip-strokes n) (rw other (ground arith))

strip-strokes :
    (cs : String) → has_char "|" cs ≡ false → (n : ℕ) → strip_of cs (strokes n) ≡ strokes n
unfolding strip_of
strip-strokes cs other n =
    rw (rstrip-strokes (λ c. has_char c cs) other n, lstrip-strokes (λ c. has_char c cs) other n)

trimmed-strokes : (n : ℕ) → trimmed (strokes n) ≡ strokes n
unfolding has_char nat_eq
trimmed-strokes n =
    rw (strip-strokes "::timestamp without time zone" refl n, strip-strokes "'" refl n)

-- Another text is no time stamp.
unfoldable is_stamp : String → Bool
is_stamp Text.[] = true
is_stamp (Text.◌∷◌ c s) = has_char c "|" && is_stamp s

strokes-is_stamp : (n : ℕ) → is_stamp (strokes n) ≡ true
unfolding strokes is_stamp has_char nat_eq
strokes-is_stamp zero = refl
strokes-is_stamp (suc n) = strokes-is_stamp n

abbrev read : String → Outcome ℕ
read s = if is_stamp s then return (count s) else raise other_exception

read-strokes : (n : ℕ) → read (strokes n) ≡ return n
read-strokes n = rw (strokes-is_stamp n, count-strokes n)

read_garbage : read "MAXVALUE" ≡ raise other_exception
unfolding is_stamp has_char nat_eq
read_garbage = refl

abbrev part : String → ℕ → ℕ → Subpartition
part name start end = record {
  range = record {
    table = logs;
    partitionrangestart = strokes start;
    partitionrangeend = strokes end;
  };
  partitiontablename = name;
  tablespace = "pg_default";
}

abbrev rows : Subpartition → ℕ
rows p = if p.partitiontablename == "full" then 7 else 0

-- The clock stands at 100.
abbrev env : Env
env = record {
  connect = λ h. return tt;
  now = λ h. 100;
  tables = λ h. return (logs ∷ []);
  subpartitions = λ t order h. return [];
  rowcount = λ p h. return (rows p);
  drop_rank = λ t k h. return tt;
  set_tablespace = λ p name h. return tt;
  split_default = λ t from until name h. return tt;
  commit = λ h. return tt;
  strptime = read;
  strftime = strokes;
  strftime_day = λ t. "day";
}

abbrev start : State
start = record { trace = [] }

formats : FormatsTime env
formats = record { trimmed-strftime = trimmed-strokes; strptime-strftime = read-strokes }

steady : IsSteady env 100 100
steady = record {
  from_earliest = λ h. omega arith;
  to_latest = λ h. omega arith;
  splits_off = λ t from until name h. refl;
}

newest : Subpartition
newest = part "p" 0 10

reads : (n : ℕ) → env.strptime (trimmed (strokes n)) ≡ return n
reads n = rw (trimmed-strokes n) (read-strokes n)

precreate_ahead-Ahead_example : Reaches env 100 100 (part "p" 0 10).range 0 10 30 start
precreate_ahead-Ahead_example =
    precreate_ahead-Reaches env formats steady 29 (part "p" 0 10).range 0 10 start
      (reads 0, reads 10) (omega arith)

abbrev bounds_of : Subpartition → Bounds
bounds_of p = record {
  start = count (trimmed p.partitionrangestart);
  end = count (trimmed p.partitionrangeend);
}

reads_bound : (n : ℕ) → env.strptime (trimmed (strokes n)) ≡ return (count (trimmed (strokes n)))
reads_bound n = rw (trimmed-strokes n) (read-strokes n ∙ sym (ap return (count-strokes n)))

abbrev whitelist : Whitelist
whitelist = ("spi.logs", 0) ∷ []

migrating : Migrate.IsCalm env 100
migrating = record { stopped = λ h. refl; moved = λ p name h. refl; committed = λ h. refl }

abbrev parts : List Subpartition
parts = part "a" 0 10 ∷ part "full" 10 20 ∷ []

migrate_leading-Emits_example :
    Emits
      (λ (t : State). moves t.trace)
      (migrate_leading env whitelist parts)
      start
      (flat move_of (leading (is_old whitelist 100 (λ p. (bounds_of p).end)) parts))
migrate_leading-Emits_example =
    migrate_leading-Emits env migrating (λ p. (bounds_of p).end) whitelist parts
      (reads_bound 10, (reads_bound 20, tt)) start

cleaning : Clean.IsCalm env 100 rows
cleaning = record { stopped = λ h. refl; counted = λ p h. refl; dropped = λ t k h. refl }

drop_newest-leaves_example :
    Emits
      (λ (t : State). drops t.trace)
      (drop_newest env (length parts) parts)
      start
      (flat drop_of (leading (is_removable env cleaning bounds_of) (ranked parts)))
    × (leaves without_newest
          (flat drop_of (leading (is_removable env cleaning bounds_of) (ranked parts)))
          parts
        ≡ behind (λ p. is_removable env cleaning bounds_of (p, 0)) parts)
drop_newest-leaves_example =
    drop_newest-leaves env cleaning bounds_of parts
      ((reads_bound 0, reads_bound 10), ((reads_bound 10, reads_bound 20), tt)) start

drop_oldest-leaves_example :
    Emits
      (λ (t : State). drops t.trace)
      (drop_oldest env parts)
      start
      (flat (λ p. drop_of (p, 1)) (leading (is_empty env cleaning) parts))
    × (leaves without_oldest
          (flat (λ p. drop_of (p, 1)) (leading (is_empty env cleaning) parts))
          parts
        ≡ behind (is_empty env cleaning) parts)
drop_oldest-leaves_example = drop_oldest-leaves env cleaning parts start

partition_governance-aborts_example :
    partition_governance env 5 whitelist start ≡ (return tt, record { trace = aborted [] logs })
unfolding Dict.has string_eq
partition_governance-aborts_example =
    partition_governance-aborts env 5 whitelist logs [] (logs ∷ []) start refl (λ h. refl)
      (λ h. refl) refl (λ h. refl)
