-- ===== src/Sanitization/Parse.antt =====
-- kafka/cdc/src/sanitization.py: `parse_credentials`, which reads the file of secrets. Its dict of
-- dicts shares entries between names, so a name leads to the address of an entry here.
pub mod Reading
pub mod Tracks
pub mod Shares
pub mod Replaces
use dockerize_and_ansible.Base.{
  ℕ, zero, suc, String, Bool, true, false, not, ◌&&◌, ◌||◌, Option, none, some, List, [], ◌∷◌, map,
  ◌==◌, if◌then◌else◌, string_eq, nat_eq, starts_with, contains,
}
use dockerize_and_ansible.Base.Dict
use dockerize_and_ansible.Base.Dict.{Dict}
use dockerize_and_ansible.Base.Text.{cut, is_nonempty, has_char, before_last, after_last, strip}
use dockerize_and_ansible.Base.Effect.{Exception, other_exception, Outcome, return, raise, M, ◌>>=◌}
use dockerize_and_ansible.Sanitization.{Mapping, Env, State, lift, process_connectors}
use Prim.Native.Char.{Char}
use Prim.Native.String as Text

-- A line that is neither empty nor a comment.
pub record Line : Type 0 where
  pub key : String
  pub prefix : String
  pub field : String
  pub value : String

-- What two names are unpacked from. Another number of parts is a ValueError.
abbrev pub named : (key value : String) → Outcome (Option Line)
named key value =
    if has_char "_" key
    then return (
        some (record {
          key = key;
          prefix = before_last "_" key;
          field = after_last "_" key;
          value = value;
        }))
    else raise other_exception

abbrev pub parts : Option (String × String) → Outcome (Option Line)
parts none = raise other_exception
parts (some (key, value)) = named (strip key) (strip value)

unfoldable pub parse_line : String → Outcome (Option Line)
parse_line line =
    let stripped = strip line in
    if not (is_nonempty stripped) || starts_with stripped "#"
    then return none
    else parts (cut "=" stripped)

-- `mapping`: a new entry is put at the address `fresh`.
pub record Parsed : Type 0 where
  pub names : Dict String ℕ
  pub entries : Dict ℕ (Dict String String)
  pub fresh : ℕ

abbrev pub nothing_parsed : Parsed
nothing_parsed = record { names = []; entries = []; fresh = 0 }

-- `if prefix not in mapping: mapping[prefix] = {}`
unfoldable pub ensure : String → Parsed → Parsed
ensure prefix m = if Dict.has m.names prefix then m else record {
  names = Dict.put m.names prefix m.fresh;
  entries = Dict.put m.entries m.fresh [];
  fresh = suc m.fresh;
}

-- The entry at an address; all addresses in use have one.
unfoldable pub entry_at : Parsed → ℕ → Dict String String
entry_at m a = Dict.get_or m.entries a []

-- `mapping[prefix][field] = key`, after `ensure`
abbrev put_at : Parsed → Option ℕ → (field key : String) → Parsed
put_at m none field key = m
put_at m (some a) field key = record m {
  entries = Dict.put m.entries a (Dict.put (entry_at m a) field key);
}

unfoldable pub put_field : Line → Parsed → Parsed
put_field l m = put_at m (Dict.get m.names l.prefix) l.field l.key

-- `mapping[value] = mapping[prefix]`, after `ensure`
abbrev bind : Parsed → String → Option ℕ → Parsed
bind m value none = m
bind m value (some a) = record m { names = Dict.put m.names value a }

unfoldable pub copy_reference : Line → Parsed → Parsed
copy_reference l m = bind m l.value (Dict.get m.names l.prefix)

abbrev pub is_field : String → Bool
is_field field = contains ("HOSTNAME" ∷ "PORT" ∷ "USER" ∷ "PASSWORD" ∷ []) field

unfoldable pub note : Line → Parsed → Parsed
note l m =
    let with_field = if is_field l.field then put_field l (ensure l.prefix m) else m in
    if l.field == "HOSTNAME" then copy_reference l with_field else with_field

abbrev pub note_some : Option Line → Parsed → Parsed
note_some none m = m
note_some (some l) m = note l m

unfoldable pub parse_lines : List String → Parsed → Outcome Parsed
parse_lines [] m = return m
parse_lines (line ∷ lines) m = elim (parse_line line) [
  | raise e ↦ raise e
  | return l ↦ parse_lines lines (note_some l m)
]

-- The mapping as it is read later: what stands under a name.
abbrev pub mapping_of : Parsed → Mapping
mapping_of m = map (λ (name, a). (name, entry_at m a)) m.names

abbrev pub as_mapping : Outcome Parsed → Outcome Mapping
as_mapping (return m) = return (mapping_of m)
as_mapping (raise e) = raise e

abbrev pub parse_file : Outcome (List String) → Outcome Mapping
parse_file (return lines) = as_mapping (parse_lines lines nothing_parsed)
parse_file (raise e) = raise e

-- `read` gives the lines of the file at a path.
unfoldable pub parse_credentials :
    (read : String → Outcome (List String)) → String → Outcome Mapping
parse_credentials read file_path = parse_file (read file_path)

abbrev pub default_properties_file : String
default_properties_file = "connect-credentials.properties"

-- The main block.
unfoldable pub main : Env → (read : String → Outcome (List String)) → M State (Unit {0})
main env read = do
  mapping ← lift (parse_credentials read default_properties_file)
  process_connectors env mapping
