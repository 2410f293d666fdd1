-- ===== src/Cleanup.antt =====
-- postgres/script/delete_table.py: old rows are deleted in batches, then the table is tidied up.
pub mod Laws
use dockerize_and_ansible.Base.{
  ℕ, zero, suc, ◌+◌, String, Bool, true, false, Option, none, some, List, [], ◌∷◌, ◌++◌,
  if◌then◌else◌, ltb,
}
use dockerize_and_ansible.Base.Effect.{Outcome, return, M, pure, try_except, ◌>>=◌, ◌>>◌, for_each}

pub record Table : Type 0 where
  pub relname : String
  pub condition : String
  pub relispartition : Bool

pub record Database : Type 0 where
  pub dsn : String
  pub tables : List Table

-- The statements of the module; `delete_batch` is the DELETE with its LIMIT.
pub data Statement : Type 0 where
  set_timeout : ℕ → Statement
  delete_batch : Table → Statement
  vacuum_analyse : Table → Statement
  reindex : Table → Statement

pub data Event : Type 0 where
  connect : String → Event
  execute : Statement → Event
  close : Event

abbrev pub History : Type 0
History = List Event

-- `execute` answers with `cur.rowcount`.
pub record Env : Type 0 where
  pub connect : String → History → Outcome (Unit {0})
  pub execute : Statement → History → Outcome ℕ

pub record State : Type 0 where
  pub trace : History

unfoldable pub ask : {A : Type 0} → Event → (History → Outcome A) → M State A
ask e answer s = (answer s.trace, record { trace = s.trace ++ e ∷ [] })

-- The LIMIT of a batch.
abbrev pub batch : ℕ
batch = 100000

module _ (env : Env) where
  unfoldable pub run : Statement → M State ℕ
  run statement = ask (execute statement) (env.execute statement)

  -- The `while True` loop, with fuel; `none` means that the fuel ran out. The counters, which are
  -- only logged, are its result.
  unfoldable pub delete_loop : ℕ → Table → (counter_num counter_size : ℕ) → M State (Option (ℕ × ℕ))
  delete_loop zero tbl counter_num counter_size = pure none
  delete_loop (suc fuel) tbl counter_num counter_size = do
    rowcount ← run (delete_batch tbl)
    let num = counter_num + 1
    let size = counter_size + rowcount
    if ltb rowcount batch then pure (some (num, size)) else delete_loop fuel tbl num size

  unfoldable pub delete_table : ℕ → Table → M State (Option (ℕ × ℕ))
  delete_table fuel tbl = do run (set_timeout 60000); delete_loop fuel tbl 0 0

  unfoldable pub vacuum_table : Table → M State Bool
  vacuum_table tbl = do run (set_timeout 1800000); run (vacuum_analyse tbl); pure true

  unfoldable pub reindex_table : Table → M State Bool
  reindex_table tbl = do run (set_timeout 600000); run (reindex tbl); pure true

  -- `drop_partition` does nothing but return True.
  unfoldable pub clean_table : ℕ → Table → M State (Unit {0})
  clean_table fuel tbl = if tbl.relispartition then pure tt else (do
    try_except (do delete_table fuel tbl; pure tt) (λ e. pure tt)
    vacuum_table tbl
    reindex_table tbl
    pure tt)

  -- The connection works in autocommit mode from the start, so that there are no commits.
  unfoldable pub clean_database : ℕ → Database → M State (Unit {0})
  clean_database fuel db =
      try_except
        (do
          ask (connect db.dsn) (env.connect db.dsn)
          for_each db.tables (clean_table fuel)
          ask close (λ h. return tt))
        (λ e. pure tt)

  unfoldable pub clean_main : ℕ → List Database → M State (Unit {0})
  clean_main fuel db_archive = for_each db_archive (clean_database fuel)
