-- ===== src/Sanitization/Parse/Replaces.antt =====
-- From the file of secrets to the configuration of a connector.
use dockerize_and_ansible.Base.{
  String, ◌≡◌, refl, ◌∙◌, true, false, none, some, List, All, any, string_eq,
}
use dockerize_and_ansible.Base.Dict
use dockerize_and_ansible.Base.Dict.{Dict}
use dockerize_and_ansible.Base.Effect.{Outcome, return}
use dockerize_and_ansible.Sanitization.{Config, Mapping, reference_to, is_reference, replace_config}
use dockerize_and_ansible.Sanitization.Laws.{Fields, replace_config-sanitizes}
use dockerize_and_ansible.Sanitization.Parse.{Line, parse_credentials}
use dockerize_and_ansible.Sanitization.Parse.Reading.{last_key, is_apart, names_host, read_all}
use dockerize_and_ansible.Sanitization.Parse.Shares.{shared_entry}

-- A file whose lines can be read and have a prefix with all four fields, the host name apart from
-- other prefixes: the configuration of a connector with that host, written out, is to be updated, and
-- gets references to the keys that the file has for the prefix last.
pub parse_credentials-replace_config :
    (read : String → Outcome (List String)) (path : String) (lines : List String) (ls : List Line)
    (prefix hostname host port user password : String) (config : Config)
    → read path ≡ return lines
    → read_all lines ≡ return ls
    → All (λ l. is_apart prefix hostname l ≡ true) ls
    → any (names_host prefix) ls ≡ true
    → last_key prefix "HOSTNAME" ls none ≡ some host
    → last_key prefix "PORT" ls none ≡ some port
    → last_key prefix "USER" ls none ≡ some user
    → last_key prefix "PASSWORD" ls none ≡ some password
    → Dict.get config "database.hostname" ≡ some hostname
    → is_reference (some hostname) ≡ false
    → (mapping : Mapping) × (config' : Config) × (parse_credentials read path ≡ return mapping)
      × (replace_config config mapping ≡ return (config', true))
      × (Dict.get config' "database.hostname" ≡ some (reference_to host))
      × (Dict.get config' "database.port" ≡ some (reference_to port))
      × (Dict.get config' "database.user" ≡ some (reference_to user))
      × (Dict.get config' "database.password" ≡ some (reference_to password))
unfolding string_eq
parse_credentials-replace_config read path lines ls prefix hostname host port user password config
      opened readable apart named h p u w found plain =
    let shared = shared_entry read path lines ls prefix hostname opened readable apart named in
    let fields : Fields shared.entry host port user password = record {
      has_host = shared.keys "HOSTNAME" refl ∙ h;
      has_port = shared.keys "PORT" refl ∙ p;
      has_user = shared.keys "USER" refl ∙ u;
      has_password = shared.keys "PASSWORD" refl ∙ w;
    } in
    let (config', replaced, at_host, at_port, at_user, at_password, again) =
      replace_config-sanitizes config shared.mapping shared.entry hostname host port user password
        found plain shared.at_host fields in
    (shared.mapping, config', shared.parsed, replaced, at_host, at_port, at_user, at_password)
