-- ===== src/Vacuum/Laws.antt =====
-- What a run of the vacuum job sends, and in which mode.
use dockerize_and_ansible.Base.{String, List, string_eq}
use dockerize_and_ansible.Base.Dict.{Dict}
use dockerize_and_ansible.Base.Effect.Ensures.{Ensures-Keeps, Keeps-Ensures, Ensures-bind}
use dockerize_and_ansible.Base.Effect.Keeps.{Keeps, keeps_rules, Keeps-for_each}
use dockerize_and_ansible.Vacuum.{
  BloatTable, Env, ServerType, gpdb, postgre, Window, window_of, get_server_type, open_connection,
  get_bloat_tables, is_outside_window, vacuum_table, vacuum_database, vacuum_main,
}
use dockerize_and_ansible.Vacuum.Levels.{
  IsSafe, fresh-Safe, connects, ask-Safe, execute_commands-Safe,
}

module _ (env : Env) where
  is_outside-Safe : (w : Window) → Keeps (IsSafe env) (is_outside_window env w)
  unfolding is_outside_window
  is_outside-Safe w = search (keeps_rules, ask-Safe, tt) depth 20

  server-Safe : Keeps (IsSafe env) (get_server_type env)
  unfolding get_server_type
  server-Safe = search (keeps_rules, ask-Safe, tt) depth 20

  open-Safe : (dsn : String) → Keeps (IsSafe env) (open_connection env dsn)
  unfolding open_connection
  open-Safe dsn = Keeps-Ensures _ (
      Ensures-bind _ _ (connects env dsn)
        (λ _. Ensures-bind _ _ (fresh-Safe env) (λ _. Ensures-Keeps _ server-Safe)))

  bloat-Safe : (server : ServerType) → Keeps (IsSafe env) (get_bloat_tables env server)
  unfolding get_bloat_tables
  bloat-Safe gpdb = ask-Safe env _ _ tt
  bloat-Safe postgre = ask-Safe env _ _ tt

  table-Safe :
      (w : Window) (server : ServerType) (t : BloatTable)
      → Keeps (IsSafe env) (vacuum_table env w server t)
  unfolding vacuum_table
  table-Safe w server t = search (keeps_rules, is_outside-Safe, execute_commands-Safe) depth 20

  database-Safe : (w : Window) (dsn : String) → Keeps (IsSafe env) (vacuum_database env w dsn)
  unfolding vacuum_database
  database-Safe w dsn =
      search (keeps_rules, is_outside-Safe, open-Safe, bloat-Safe, table-Safe) depth 20

  -- Whatever the databases and the clock answer, and wherever a command or the setting of a level
  -- fails: if the connection is at the normal level before the run, the one in use is after it,
  -- unless a call that was to set this level on it raised; and every command of the log was sent at
  -- the autocommit level, if those before were.
  pub vacuum_main-Safe :
      (dsns : List String) (w : Dict String String) → Keeps (IsSafe env) (vacuum_main env dsns w)
  unfolding vacuum_main
  vacuum_main-Safe dsns w = Keeps-for_each dsns _ (database-Safe (window_of w))
