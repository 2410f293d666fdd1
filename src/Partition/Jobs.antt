-- ===== src/Partition/Jobs.antt =====
-- `partition_migrate` and `partition_governance` of gpdb/cron/archive_partition.py.
pub mod Precreate
pub mod Migrate
pub mod Clean
use dockerize_and_ansible.Base.{
  ℕ, zero, suc, ◌+◌, ◌-◌, String, Bool, true, false, not, Option, none, some, List, [], ◌∷◌, length,
  if◌then◌else◌,
}
use dockerize_and_ansible.Base.Effect.{
  Exception, other_exception, Outcome, return, M, pure, throw, try_except, ◌>>=◌, ◌>>◌, for_each,
}
use dockerize_and_ansible.Partition.State
use dockerize_and_ansible.Partition.State.{
  Table, Range, Subpartition, ascending, descending, Env, State, ask,
}
use dockerize_and_ansible.Partition.Manager.{
  Whitelist, is_empty_whitelist, get_partition_tables, get_partition_table_subpartitions,
  check_subpartition_isempty, drop_subpartition, commit_tx, check_subpartition_canarchive,
  migrate_subpartition_tablespace, check_subpartition_needclean, check_subpartition_needprecreate,
  precreate_subpartition,
}

module _ (env : Env) where
  -- The loop over a table's subpartitions, oldest first, up to the first that is not to be moved.
  -- Each move is committed by itself. The rank that the source counts along is used by nothing.
  unfoldable pub migrate_leading : Whitelist → List Subpartition → M State (Unit {0})
  migrate_leading whitelist [] = pure tt
  migrate_leading whitelist (p ∷ ps) =
      let rest = migrate_leading whitelist ps in
      do
        archive ← check_subpartition_canarchive env whitelist p
        if not archive
            then pure tt
            else (do migrate_subpartition_tablespace env p; commit_tx env; rest)

  unfoldable pub migrate_table : Whitelist → Table → M State (Unit {0})
  migrate_table whitelist table = do
    subpartitions ← get_partition_table_subpartitions env table ascending
    migrate_leading whitelist subpartitions

  -- `try: …` / `except (Exception, psycopg2.Error)`
  unfoldable pub with_manager : M State (Unit {0}) → M State (Unit {0})
  with_manager body = try_except (do ask State.connect env.connect; body) (λ e. pure tt)

  unfoldable pub partition_migrate : Whitelist → M State (Unit {0})
  partition_migrate whitelist =
      if is_empty_whitelist whitelist
      then pure tt
      else with_manager (do
        tables ← get_partition_tables env whitelist
        for_each tables (migrate_table whitelist))

  -- Newest first: what reaches too far ahead and holds no row is dropped, by its rank, up to the
  -- first that is not.
  unfoldable pub drop_newest : ℕ → List Subpartition → M State (Unit {0})
  drop_newest part_rank [] = pure tt
  drop_newest part_rank (p ∷ ps) =
      let rest = drop_newest (part_rank - 1) ps in
      do
        clean ← check_subpartition_needclean env p.range
        if not clean then pure tt else (do
          empty ← check_subpartition_isempty env p
          if not empty then pure tt else (do drop_subpartition env p part_rank; rest))

  -- `subpartitions[0]`
  abbrev pub first_of_list : List Subpartition → M State Range
  first_of_list [] = throw other_exception
  first_of_list (p ∷ ps) = pure p.range

  -- The `while` loop, with fuel; `none` means that the fuel ran out.
  unfoldable pub precreate_ahead : ℕ → Range → M State (Option Range)
  precreate_ahead zero latest = pure none
  precreate_ahead (suc fuel) latest = do
    needed ← check_subpartition_needprecreate env latest
    if not needed
        then pure (some latest)
        else (do next ← precreate_subpartition env latest; precreate_ahead fuel next)

  -- Oldest first: what holds no row is dropped, as the first in rank, up to the first that does.
  unfoldable pub drop_oldest : List Subpartition → M State (Unit {0})
  drop_oldest [] = pure tt
  drop_oldest (p ∷ ps) =
      let rest = drop_oldest ps in
      do
        empty ← check_subpartition_isempty env p
        if not empty then pure tt else (do drop_subpartition env p 1; rest)

  unfoldable pub govern_table : ℕ → Table → M State (Unit {0})
  govern_table fuel table = do
    newest ← get_partition_table_subpartitions env table descending
    drop_newest (length newest) newest
    latest ← first_of_list newest
    precreate_ahead fuel latest
    oldest ← get_partition_table_subpartitions env table ascending
    drop_oldest oldest
    commit_tx env

  unfoldable pub partition_governance : ℕ → Whitelist → M State (Unit {0})
  partition_governance fuel whitelist =
      if is_empty_whitelist whitelist
      then pure tt
      else with_manager
          (do tables ← get_partition_tables env whitelist; for_each tables (govern_table fuel))
