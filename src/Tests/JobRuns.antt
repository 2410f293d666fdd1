-- ===== src/Tests/JobRuns.antt =====
-- gpdb/cron/vacuum_analyse.py, postgres/script/delete_table.py and kafka/cdc/src/sanitization.py at one
-- table or configuration each.
use dockerize_and_ansible.Base.{
  ℕ, ◌-◌, ◌≡◌, refl, true, false, [], ◌∷◌, ◌++◌, min, arith, string_eq,
}
use dockerize_and_ansible.Base.Dict
use dockerize_and_ansible.Base.Effect.{return}
use dockerize_and_ansible.Base.Effect.Keeps.{Keeps}
use dockerize_and_ansible.Base.{String, some, nat_eq, List, ◌<>◌}
use dockerize_and_ansible.Sanitization.Parse.{Line, parse_line, parse_credentials}
use dockerize_and_ansible.Sanitization.Parse.Reading.{last_key, read_all}
use dockerize_and_ansible.Sanitization.Parse.Replaces.{parse_credentials-replace_config}
use dockerize_and_ansible.Sanitization.Parse.Shares.{parse_credentials-shares}
use dockerize_and_ansible.Sanitization.{Mapping}
use dockerize_and_ansible.Base.Dict.{Dict}
use dockerize_and_ansible.Base.Text.{
  cut, has_char, strip, lstrip, rstrip, is_space, before_last, after_last,
}
use dockerize_and_ansible.Sanitization.{Config, reference_to, replace_config}
use dockerize_and_ansible.Sanitization.Laws.{Fields, replace_config-sanitizes}
use dockerize_and_ansible.Vacuum
use dockerize_and_ansible.Vacuum.{
  normal, gpdb, commands_for, execute_commands, vacuum_main, text_ltb,
}
use dockerize_and_ansible.Vacuum.Levels.{IsSafe}
use dockerize_and_ansible.Vacuum.Laws.{vacuum_main-Safe}
use dockerize_and_ansible.Cleanup
use dockerize_and_ansible.Cleanup.{Table, delete_batch}
use dockerize_and_ansible.Cleanup.Laws.{Shrinks, Deleted, delete_loop-Deleted}

abbrev vacuum_env : Vacuum.Env
vacuum_env = record {
  now = λ h. "01:30";
  connect = λ dsn h. return tt;
  version = λ h. return "PostgreSQL 9.4 (Greenplum Database 6.1)";
  gpdb_bloat = λ h. return ((record { schema = "dw"; name = "facts"; operation = "VACUUM" }) ∷ []);
  postgre_bloat = λ h. return [];
  set_level = λ level h. return tt;
  execute = λ level cmd schema table h. return tt;
  lower = λ s. "vacuum";
}

abbrev idle : Vacuum.State
idle = record { isolation = normal; trace = [] }

vacuum_main-Safe_example : Keeps (IsSafe vacuum_env) (vacuum_main vacuum_env ("dsn" ∷ []) [])
vacuum_main-Safe_example = vacuum_main-Safe vacuum_env ("dsn" ∷ []) []

-- The window is compared as text.
window_texts : (text_ltb "01:30" "02:00" ≡ true) × (text_ltb "9:00" "10:00" ≡ false)
unfolding text_ltb
window_texts = (refl, refl)

abbrev old_rows : Table
old_rows = record { relname = "public.cdc"; condition = "cdt < now()"; relispartition = false }

-- The rows that are left after a history of batches, of 250000 in all.
abbrev rows_after : Cleanup.History → ℕ → ℕ
rows_after [] n = n
rows_after (_ ∷ h) n = rows_after h (n - min 100000 n)

rows_after-append :
    (h : Cleanup.History) (e : Cleanup.Event) (n : ℕ)
    → rows_after (h ++ e ∷ []) n ≡ rows_after h n - min 100000 (rows_after h n)
rows_after-append [] e n = refl
rows_after-append (_ ∷ h) e n = rows_after-append h e (n - min 100000 n)

abbrev cleanup_env : Cleanup.Env
cleanup_env = record {
  connect = λ dsn h. return tt;
  execute = λ statement h. return (min 100000 (rows_after h 250000));
}

shrinks : Shrinks cleanup_env old_rows (λ h. rows_after h 250000)
shrinks = record { takes = λ h. refl; leaves = λ h. rows_after-append h _ 250000 }

delete_loop-Deleted_example :
    Deleted cleanup_env old_rows (λ h. rows_after h 250000) 3 0 0 (record { trace = [] })
delete_loop-Deleted_example =
    delete_loop-Deleted cleanup_env old_rows shrinks 3 0 0 (record { trace = [] }) (omega arith)

abbrev credentials : Dict.Dict String String
credentials =
    ("HOSTNAME", "MES_HOSTNAME")
    ∷ ("PORT", "MES_PORT")
    ∷ ("USER", "MES_USER")
    ∷ ("PASSWORD", "MES_PASSWORD")
    ∷ []

abbrev mes_config : Config
mes_config =
    ("name", "mes-source") ∷ ("database.hostname", "db1") ∷ ("database.password", "secret") ∷ []

credentials-Fields : Fields credentials "MES_HOSTNAME" "MES_PORT" "MES_USER" "MES_PASSWORD"
unfolding Dict.get string_eq
credentials-Fields = record {
  has_host = refl;
  has_port = refl;
  has_user = refl;
  has_password = refl;
}

replace_config-sanitizes_example :
    (config' : Config) × (replace_config mes_config (("db1", credentials) ∷ [])
      ≡ return (config', true))
    × (Dict.get config' "database.hostname" ≡ some (reference_to "MES_HOSTNAME"))
    × (Dict.get config' "database.port" ≡ some (reference_to "MES_PORT"))
    × (Dict.get config' "database.user" ≡ some (reference_to "MES_USER"))
    × (Dict.get config' "database.password" ≡ some (reference_to "MES_PASSWORD"))
    × (replace_config config' (("db1", credentials) ∷ []) ≡ return (config', false))
unfolding Dict.get string_eq
replace_config-sanitizes_example =
    replace_config-sanitizes mes_config (("db1", credentials) ∷ []) credentials "db1" "MES_HOSTNAME"
      "MES_PORT" "MES_USER" "MES_PASSWORD" refl refl refl credentials-Fields

abbrev secret_lines : List String
secret_lines =
    "# databases" ∷ "ERP_DB_HOSTNAME=10.0.0.1 " ∷ "" ∷ "ERP_DB_PORT = 1433" ∷ "ERP_DB_USER=sa"
    ∷ "ERP_DB_PASSWORD=a=b" ∷ []

abbrev erp_line : (field value : String) → Line
erp_line field value = record {
  key = "ERP_DB_" <> field;
  prefix = "ERP_DB";
  field = field;
  value = value;
}

secret_lines-read :
    read_all secret_lines
    ≡ return (
        erp_line "HOSTNAME" "10.0.0.1"
        ∷ erp_line "PORT" "1433"
        ∷ erp_line "USER" "sa"
        ∷ erp_line "PASSWORD" "a=b"
        ∷ [])
unfolding read_all parse_line strip lstrip rstrip is_space cut has_char before_last after_last
    nat_eq
secret_lines-read = refl

parse_credentials-shares_example :
    (mapping : Mapping) × (entry : Dict String String) × (parse_credentials
        (λ path. return secret_lines)
        "file"
      ≡ return mapping)
    × (Dict.get mapping "ERP_DB" ≡ some entry)
    × (Dict.get mapping "10.0.0.1" ≡ some entry)
    × (Dict.get entry "PASSWORD" ≡ some "ERP_DB_PASSWORD")
unfolding string_eq last_key
parse_credentials-shares_example =
    parse_credentials-shares (λ path. return secret_lines) "file" secret_lines _ "ERP_DB" "10.0.0.1"
      refl secret_lines-read (refl, (refl, (refl, (refl, tt)))) refl "PASSWORD" refl

parse_credentials-replace_config_example :
    (mapping : Mapping) × (config' : Config) × (parse_credentials
        (λ path. return secret_lines)
        "file"
      ≡ return mapping)
    × (replace_config (("database.hostname", "10.0.0.1") ∷ []) mapping ≡ return (config', true))
    × (Dict.get config' "database.hostname" ≡ some (reference_to "ERP_DB_HOSTNAME"))
    × (Dict.get config' "database.port" ≡ some (reference_to "ERP_DB_PORT"))
    × (Dict.get config' "database.user" ≡ some (reference_to "ERP_DB_USER"))
    × (Dict.get config' "database.password" ≡ some (reference_to "ERP_DB_PASSWORD"))
unfolding string_eq last_key Dict.get
parse_credentials-replace_config_example =
    parse_credentials-replace_config (λ path. return secret_lines) "file" secret_lines _ "ERP_DB"
      "10.0.0.1" "ERP_DB_HOSTNAME" "ERP_DB_PORT" "ERP_DB_USER" "ERP_DB_PASSWORD"
      (("database.hostname", "10.0.0.1") ∷ []) refl secret_lines-read
      (refl, (refl, (refl, (refl, tt)))) refl refl refl refl refl refl refl
