-- ===== src/Cdc/SqlServer/Converges.antt =====
-- `check_sqlserver_cdc`, and `apply_sqlserver_cdc_changes` with the dry run turned off on what it
-- found.
use dockerize_and_ansible.Base.{
  String, ◌≡◌, refl, true, false, some, List, [], ◌∷◌, ◌++◌, All, map, update, contains, string_eq,
  triple_eq, option_eq,
}
use dockerize_and_ansible.Base.Dict
use dockerize_and_ansible.Base.Effect.{return, pure, gets, ◌>>=◌, try_except}
use dockerize_and_ansible.Cdc.State
use dockerize_and_ansible.Cdc.State.{
  Datasource, Connection, Query, enable_table, disable_table, select_cdc_enabled,
  select_tracked_tables, Cell, text, Row, Env, State, History, run, ask, column,
}
use dockerize_and_ansible.Cdc.Connection.{db_key, get_sqlserver_connection}
use dockerize_and_ansible.Cdc.SqlServer.{
  compare_tables, table_name, tracked_names, check_sqlserver_cdc, apply_sqlserver_cdc_changes,
}
use dockerize_and_ansible.Cdc.SqlServer.Apply.{queries, apply_sqlserver_cdc_changes-queries}
use dockerize_and_ansible.Cdc.SqlServer.Tables.{
  dbo, tracked_after, IsNeeded, InSchema, enabling, disabling, map-InSchema, to_enable, to_disable,
  statements-covers, statements-IsNeeded,
}

-- The names of the tables that are tracked, as the database lists them.
abbrev pub named : String → Row
named name = ("name", text name) ∷ []

tracked_names_lem :
    (names : List String) (s : State)
    → tracked_names (map named names) s ≡ (return (map dbo names), s)
unfolding tracked_names column ◌>>=◌ pure Dict.get string_eq
tracked_names_lem [] s = refl
tracked_names_lem (name ∷ names) s = rw (tracked_names_lem names s)

-- A connection that is pooled is used.
pooled_lem :
    (env : Env) (db : Datasource) (conn : Connection) (s : State)
    → Dict.get s.connections (db_key db) ≡ some conn
    → get_sqlserver_connection env db s ≡ (return conn, s)
unfolding get_sqlserver_connection gets pure ◌>>=◌
pooled_lem env db conn s pooled = rw pooled

-- What a check and the changes that it finds come to, for a list of tracked tables: the statements
-- sent for the changes are all needed, and carried out, they leave just the tables to synchronise.
pub record Converges (env : Env) (db : Datasource) (tracked : List String) (s : State)
    : Type 0 where
  pub enable : List String
  pub disable : List String
  pub checked : State
  pub applied : State
  pub compared : check_sqlserver_cdc env db s ≡ (return (true, enable, disable), checked)
  pub ran : apply_sqlserver_cdc_changes env db enable disable false checked ≡ (return tt, applied)
  pub sent : List Query
  pub queried : queries applied.trace ≡ queries checked.trace ++ sent
  pub needed : All (IsNeeded db tracked) sent
  pub covers : (t : String) → contains (tracked_after sent tracked) t ≡ contains db.tables t

module _ (env : Env) (db : Datasource) (conn : Connection) (enabled : Cell) (names : List String)
    (s : State) (pooled : Dict.get s.connections (db_key db) ≡ some conn)
    (flagged : env.execute conn (select_cdc_enabled db.database) s.trace
      ≡ return ((("is_cdc_enabled", enabled) ∷ []) ∷ []))
    (listed : env.execute conn select_tracked_tables
        (s.trace ++ State.execute conn (select_cdc_enabled db.database) ∷ [])
      ≡ return (map named names)) where
  abbrev after_check : State
  after_check = record s {
    trace =
        (s.trace ++ State.execute conn (select_cdc_enabled db.database) ∷ [])
        ++ State.execute conn select_tracked_tables ∷ [];
  }

  check_lem : check_sqlserver_cdc env db s ≡ (
    return (
      true,
      (compare_tables (update [] db.tables) (update [] (map dbo names))).0,
      (compare_tables (update [] db.tables) (update [] (map dbo names))).1,
    ),
    after_check,
  )
  unfolding check_sqlserver_cdc run ask column pure try_except ◌>>=◌ Dict.get string_eq
  check_lem =
      rw (pooled_lem env db conn s pooled, flagged, listed, tracked_names_lem names after_check)

-- Over a connection in the pool, where the database tells its flag and the names of its tracked
-- tables, and all tables concerned stand in the schema `dbo` under names without a dot of their own:
-- `check_sqlserver_cdc` succeeds, and `apply_sqlserver_cdc_changes`, given what it found and with
-- the dry run turned off, returns and sends only statements that are needed, whatever comes of each.
-- A database that carries them all out then tracks just the tables to be synchronised.
pub check_sqlserver_cdc-Converges :
    (env : Env) (db : Datasource) (conn : Connection) (enabled : Cell) (names : List String)
    (s : State)
    → Dict.get s.connections (db_key db) ≡ some conn
    → env.execute conn (select_cdc_enabled db.database) s.trace
      ≡ return ((("is_cdc_enabled", enabled) ∷ []) ∷ [])
    → env.execute conn select_tracked_tables
        (s.trace ++ State.execute conn (select_cdc_enabled db.database) ∷ [])
      ≡ return (map named names)
    → InSchema db.tables
    → ((n : String) → contains names n ≡ true → table_name (dbo n) ≡ n)
    → Converges env db (map dbo names) s
unfolding compare_tables
check_sqlserver_cdc-Converges env db conn enabled names s pooled flagged listed synced plain =
    let tracked = map dbo names in
    let checked = after_check env db conn enabled names s pooled flagged listed in
    let tracked_in = map-InSchema names plain in
    let enable = to_enable db tracked synced tracked_in in
    let disable = to_disable db tracked synced tracked_in in
    let (applied, ran, sent) =
      apply_sqlserver_cdc_changes-queries env db enable disable checked checked conn
        (pooled_lem env db conn checked pooled) in
    record {
      enable = enable;
      disable = disable;
      checked = checked;
      applied = applied;
      compared = check_lem env db conn enabled names s pooled flagged listed;
      ran = ran;
      sent = enabling db enable ++ disabling db disable;
      queried = sent;
      needed = statements-IsNeeded db tracked synced tracked_in;
      covers = statements-covers db tracked synced tracked_in;
    }
