-- ===== src/Tests/TableRuns.antt =====
-- kafka/cdc/src/main.py at a database that tracks one of two tables, and one too many.
use dockerize_and_ansible.Base.{
  String, ◌≡◌, refl, sym, true, some, List, [], ◌∷◌, map, contains, arith, ◌==◌, string_eq, nat_eq,
  option_eq, triple_eq, Bool-cases, inl, inr,
}
use mathlib.Core.Path.{subst}
use dockerize_and_ansible.Base.Dict
use dockerize_and_ansible.Base.Text.{split}
use dockerize_and_ansible.Base.Effect.{return}
use dockerize_and_ansible.Cdc.State.{
  Connection, mssql, Query, select_cdc_enabled, select_tracked_tables, Row, boolean, Env, State,
}
use dockerize_and_ansible.Cdc.Connection.{db_key, login_as}
use dockerize_and_ansible.Cdc.SqlServer.{table_name}
use dockerize_and_ansible.Cdc.SqlServer.Tables.{dbo, InSchema}
use dockerize_and_ansible.Cdc.SqlServer.Converges.{named, Converges, check_sqlserver_cdc-Converges}
use dockerize_and_ansible.Tests.CdcRuns.{source, env}

abbrev names : List String
names = "orders" ∷ "old" ∷ []

abbrev answers : Query → List Row
answers (select_cdc_enabled database) = (("is_cdc_enabled", boolean true) ∷ []) ∷ []
answers select_tracked_tables = map named names
answers _ = []

abbrev tracking : Env
tracking = record env { execute = λ conn query h. return (answers query) }

abbrev login : Connection
login = mssql (login_as source (some "cdc") (some "secret"))

abbrev pooled : State
pooled = record { connections = (db_key source, login) ∷ []; trace = [] }

in_schema :
    (dbo (table_name "dbo.orders") ≡ "dbo.orders") × (dbo (table_name "dbo.lines") ≡ "dbo.lines")
unfolding nat_eq split
in_schema = (refl, refl)

plain_names : (table_name (dbo "orders") ≡ "orders") × (table_name (dbo "old") ≡ "old")
unfolding nat_eq split
plain_names = (refl, refl)

synced : InSchema source.tables
synced x there = elim (Bool-cases (x == "dbo.orders")) [
  | inl same ↦ subst (λ y. dbo (table_name y) ≡ y) (sym (ground (arith, same))) in_schema.0
  | inr differ ↦
      subst (λ y. dbo (table_name y) ≡ y) (sym (ground (arith, there, differ))) in_schema.1
]

plain : (n : String) → contains names n ≡ true → table_name (dbo n) ≡ n
plain n there = elim (Bool-cases (n == "orders")) [
  | inl same ↦ subst (λ y. table_name (dbo y) ≡ y) (sym (ground (arith, same))) plain_names.0
  | inr differ ↦
      subst (λ y. table_name (dbo y) ≡ y) (sym (ground (arith, there, differ))) plain_names.1
]

check_sqlserver_cdc-Converges_example : Converges tracking source (map dbo names) pooled
unfolding Dict.get string_eq option_eq triple_eq
check_sqlserver_cdc-Converges_example =
    check_sqlserver_cdc-Converges tracking source login (boolean true) names pooled refl refl refl
      synced plain
