-- ===== src/Sanitization/Laws.antt =====
-- What the sanitization writes, and that kafka/cdc/src/main.py reads it back.
use dockerize_and_ansible.Base.{
  String, ◌<>◌, ◌≡◌, refl, ◌∙◌, sym, ap, true, false, ◌&&◌, some, if◌then◌else◌, string_eq, nat_eq,
  starts_with,
}
use dockerize_and_ansible.Base.Dict
use dockerize_and_ansible.Base.Dict.{Dict, get-put}
use dockerize_and_ansible.Base.Text.{is_nonempty, has_char}
use dockerize_and_ansible.Base.Effect.{return}
use dockerize_and_ansible.Cdc.Connectors.{extract_file_and_key}
use dockerize_and_ansible.Cdc.Connectors.Placeholders.{Lacks, extract_file_and_key-reference}
use dockerize_and_ansible.Sanitization.{
  Config, Mapping, secrets, reference_to, is_reference, put_keys, as_updated, put_references,
  replaced, entry_of, replace_config,
}
use Prim.Native.String as Text
use Prim.Native.String.append
use text.Mathlib.TextLemmas
use text.Mathlib.TextPositions.{starts_with-append}

-- The four fields of a database in the file of secrets.
pub record Fields (entry : Dict String String) (host port user password : String) : Type 0 where
  pub has_host : Dict.get entry "HOSTNAME" ≡ some host
  pub has_port : Dict.get entry "PORT" ≡ some port
  pub has_user : Dict.get entry "USER" ≡ some user
  pub has_password : Dict.get entry "PASSWORD" ≡ some password

-- The configuration with four references in place of what stood there.
abbrev pub sanitized : Config → (host port user password : String) → Config
sanitized config host port user password =
    Dict.put
      (Dict.put
        (Dict.put (Dict.put config "database.hostname" (reference_to host)) "database.port"
          (reference_to port))
        "database.user" (reference_to user))
      "database.password" (reference_to password)

reference_to-is_reference : (key : String) → is_reference (some (reference_to key)) ≡ true
reference_to-is_reference key =
    ap (λ t. is_nonempty t && starts_with t ("${file:" <> secrets))
      (sym (TextLemmas.append_assoc "${file:" secrets (":" <> (key <> "}"))))
    ∙ rw (starts_with-append ("${file:" <> secrets) (":" <> (key <> "}"))) (
        ap (λ t. is_nonempty t && true)
          (append.cons "$" "{file:/etc/kafka-connect/secrets/connect-credentials.properties"
            (":" <> (key <> "}"))))

module _ (config : Config) (host port user password : String) where
  sanitized-get :
      (Dict.get (sanitized config host port user password) "database.hostname"
        ≡ some (reference_to host))
      × (Dict.get (sanitized config host port user password) "database.port"
          ≡ some (reference_to port))
      × (Dict.get (sanitized config host port user password) "database.user"
          ≡ some (reference_to user))
      × (Dict.get (sanitized config host port user password) "database.password"
          ≡ some (reference_to password))
  unfolding string_eq
  sanitized-get = (
    rw (get-put, get-put, get-put, get-put),
    rw (get-put, get-put, get-put),
    rw (get-put, get-put),
    rw get-put,
  )

put_references_lem :
    (entry : Dict String String) (config : Config) (host port user password : String)
    → Fields entry host port user password
    → put_references entry config ≡ return (sanitized config host port user password)
unfolding put_references
put_references_lem entry config host port user password f =
    λ i. put_keys (f.has_host i) (f.has_port i) (f.has_user i) (f.has_password i) config

replace_config-of_reference :
    (config : Config) (mapping : Mapping) (key : String)
    → Dict.get config "database.hostname" ≡ some (reference_to key)
    → replace_config config mapping ≡ return (config, false)
unfolding replace_config
replace_config-of_reference config mapping key found =
    (λ i.
      if is_reference (found i)
      then return (config, false)
      else replaced config (entry_of mapping (found i)))
    ∙ rw (reference_to-is_reference key)

-- A configuration whose host is no reference yet and is mapped to an entry with all four fields gets
-- the four references, and is to be updated; and sanitizing the result changes nothing any more.
pub replace_config-sanitizes :
    (config : Config) (mapping : Mapping) (entry : Dict String String)
    (hostname host port user password : String)
    → Dict.get config "database.hostname" ≡ some hostname
    → is_reference (some hostname) ≡ false
    → Dict.get mapping hostname ≡ some entry
    → Fields entry host port user password
    → (config' : Config) × (replace_config config mapping ≡ return (config', true))
      × (Dict.get config' "database.hostname" ≡ some (reference_to host))
      × (Dict.get config' "database.port" ≡ some (reference_to port))
      × (Dict.get config' "database.user" ≡ some (reference_to user))
      × (Dict.get config' "database.password" ≡ some (reference_to password))
      × (replace_config config' mapping ≡ return (config', false))
unfolding replace_config
replace_config-sanitizes config mapping entry hostname host port user password found plain mapped
      fields =
    let config' = sanitized config host port user password in
    let (h, p, u, w) = sanitized-get config host port user password in
    (
      config',
      (λ i.
            if is_reference (found i)
            then return (config, false)
            else replaced config (entry_of mapping (found i)))
          ∙ rw (plain, mapped)
              (ap as_updated (put_references_lem entry config host port user password fields)),
      h,
      p,
      u,
      w,
      unfold replace_config in replace_config-of_reference config' mapping host h,
    )

-- What the sanitization writes for a key is taken apart by the other program into the file of secrets
-- and that key, if the key holds no closing brace and no end of line.
pub extract_file_and_key-reference_to :
    (key : String) → Lacks "}" key → extract_file_and_key (reference_to key) ≡ some (secrets, key)
unfolding has_char nat_eq
extract_file_and_key-reference_to key lacks =
    ap (λ t. extract_file_and_key ("${file:" <> (secrets <> t)))
      (append.cons ":" "" (key <> "}") ∙ ap (Text.◌∷◌ ":") (append.nil (key <> "}")))
    ∙ extract_file_and_key-reference secrets key "" (refl, refl) lacks
