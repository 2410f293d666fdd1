-- ===== src/Sanitization.antt =====
-- kafka/cdc/src/sanitization.py: the credentials in the configurations of connectors are replaced by
-- references to a file of secrets, by the mapping that `Parse` reads from such a file.
pub mod Laws
pub mod Parse
use dockerize_and_ansible.Base.{
  ℕ, String, ◌<>◌, Bool, true, false, not, ◌&&◌, ◌||◌, Option, none, some, List, [], ◌∷◌, ◌++◌,
  ◌==◌, if◌then◌else◌, string_eq, leb, ltb, starts_with,
}
use dockerize_and_ansible.Base.Dict
use dockerize_and_ansible.Base.Dict.{Dict}
use dockerize_and_ansible.Base.Text.{is_nonempty}
use dockerize_and_ansible.Base.Effect.{
  Exception, key_error, request_exception, Outcome, return, raise, M, pure, throw, try_except,
  ◌>>=◌, ◌>>◌,
}

abbrev pub Config : Type 0
Config = Dict String String

-- Under a prefix and under a host name: the names of the properties, by field.
abbrev pub Mapping : Type 0
Mapping = Dict String (Dict String String)

pub record Connector : Type 0 where
  pub state : String
  pub config : Config

pub data Event : Type 0 where
  fetch : Event
  update : String → Config → Event

abbrev pub History : Type 0
History = List Event

-- Answers with the status code of the response.
pub record Env : Type 0 where
  pub fetch : History → Outcome (ℕ × Dict String Connector)
  pub update : String → Config → History → Outcome ℕ

pub record State : Type 0 where
  pub trace : History

unfoldable pub ask : {A : Type 0} → Event → (History → Outcome A) → M State A
ask e answer s = (answer s.trace, record { trace = s.trace ++ e ∷ [] })

abbrev pub secrets : String
secrets = "/etc/kafka-connect/secrets/connect-credentials.properties"

abbrev pub reference_to : String → String
reference_to key = "${file:" <> (secrets <> (":" <> (key <> "}")))

abbrev pub is_reference : Option String → Bool
is_reference none = false
is_reference (some hostname) = is_nonempty hostname && starts_with hostname ("${file:" <> secrets)

-- `config[name] = f"${{file:…:{entry[field]}}}"`, by what the entry has under the field; a field that
-- is not there is a KeyError.
abbrev pub put_reference : (name : String) → (key : Option String) → Config → Outcome Config
put_reference name none config = raise key_error
put_reference name (some key) config = return (Dict.put config name (reference_to key))

abbrev pub then_put : Outcome Config → (Config → Outcome Config) → Outcome Config
then_put (return config) f = f config
then_put (raise e) f = raise e

abbrev pub put_keys : (host port user password : Option String) → Config → Outcome Config
put_keys host port user password config =
    then_put
      (then_put
        (then_put (put_reference "database.hostname" host config)
          (put_reference "database.port" port))
        (put_reference "database.user" user))
      (put_reference "database.password" password)

unfoldable pub put_references : Dict String String → Config → Outcome Config
put_references entry config =
    put_keys (Dict.get entry "HOSTNAME") (Dict.get entry "PORT") (Dict.get entry "USER")
      (Dict.get entry "PASSWORD") config

abbrev pub as_updated : Outcome Config → Outcome (Config × Bool)
as_updated (return config) = return (config, true)
as_updated (raise e) = raise e

abbrev pub entry_of : Mapping → Option String → Option (Dict String String)
entry_of mapping none = none
entry_of mapping (some hostname) = Dict.get mapping hostname

abbrev pub replaced : Config → Option (Dict String String) → Outcome (Config × Bool)
replaced config none = return (config, false)
replaced config (some entry) = as_updated (put_references entry config)

unfoldable pub replace_config : Config → Mapping → Outcome (Config × Bool)
unfolding Dict.get
replace_config config mapping =
    let hostname_key = Dict.get config "database.hostname" in
    if is_reference hostname_key
    then return (config, false)
    else replaced config (entry_of mapping hostname_key)

abbrev pub lift : {A : Type 0} → Outcome A → M State A
lift r s = (r, s)

module _ (env : Env) where
  -- `response.raise_for_status()` stands before the body is read.
  unfoldable pub fetch_connectors : M State (Dict String Connector)
  fetch_connectors = do
    (status, connectors) ← ask fetch env.fetch
    if leb 400 status && ltb status 600 then throw request_exception else pure connectors

  -- Whatever the status says is only logged.
  unfoldable pub update_connector : String → Config → M State (Unit {0})
  update_connector name new_config = do
    ask (update name new_config) (env.update name new_config)
    pure tt

  unfoldable pub process_all : Mapping → Dict String Connector → M State (Unit {0})
  process_all mapping [] = pure tt
  process_all mapping ((name, details) ∷ more) =
      let rest = process_all mapping more in
      if details.state == "PAUSED" || not (Dict.has details.config "database.hostname")
      then rest
      else (do
        (new_config, updated) ← lift (replace_config details.config mapping)
        if updated then update_connector name new_config else pure tt
        rest)

  unfoldable pub process_connectors : Mapping → M State (Unit {0})
  process_connectors mapping =
      try_except (do connectors ← fetch_connectors; process_all mapping connectors) (λ e. pure tt)
