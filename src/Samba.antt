-- ===== src/Samba.antt =====
-- samba/test/src: what both clients of a Samba server share. Local files, the server and the
-- package `smb` are seen through calls, each answered from the call and from the calls made before
-- it.
pub mod Checks
pub mod Server
pub mod Script
pub mod Chunks
pub mod Requests
pub mod Answers
pub mod Fetches
pub mod Routes
use dockerize_and_ansible.Base.{
  ℕ, String, ◌<>◌, Bool, true, false, not, ◌&&◌, ◌||◌, Option, none, some, List, [], ◌∷◌, ◌++◌,
  keep, map, ◌==◌, nat_eq, string_eq, if◌then◌else◌, starts_with,
}
use dockerize_and_ansible.Base.Dict
use dockerize_and_ansible.Base.Dict.{Dict}
use dockerize_and_ansible.Base.Text.{is_nonempty}
use dockerize_and_ansible.Base.Effect.{
  type_error, other_exception, Outcome, M, pure, throw, ◌>>=◌, ◌>>◌,
}
use Prim.Native.Char.{code}
use Prim.Native.String

-- A value of a request or of a configuration. Negative numbers and fractions are `other`, and so
-- are None, lists and mappings.
pub data Value : Type 0 where
  text : String → Value
  number : ℕ → Value
  boolean : Bool → Value
  other : Value

-- The arguments of SMBConnection, with the address and the port of `connect`, if one is given.
pub record Login : Type 0 where
  pub username : Value
  pub password : Value
  pub my_name : Value
  pub remote_name : Value
  pub remote_ip : Value
  pub port : Option Value

pub record Entry : Type 0 where
  pub filename : String
  pub is_directory : Bool

-- What is given to `retrieveFileFromOffset` as `file_obj`: an open local file, or a number.
pub data Target : Type 0 where
  local : String → Target
  offset_instead : ℕ → Target

-- The arguments of `retrieveFileFromOffset`, in their order; without `max_length` it reads on.
pub record Retrieval : Type 0 where
  pub share : Value
  pub path : String
  pub file_obj : Target
  pub offset : ℕ
  pub max_length : Option ℕ

-- What `retrieveFileFromOffset` returns: attributes and a count of bytes, or something to be read.
pub data Reply : Type 0 where
  attributes_and_count : ℕ → Reply
  readable : List ℕ → Reply

pub data Event : Type 0 where
  load_config make_dirs close : Event
  connect : Login → Event
  list_path : (share path : Value) → Event
  get_attributes : Value → String → Event
  open_file : String → Event
  retrieve : Retrieval → Event
  write : String → List ℕ → Event

abbrev pub History : Type 0
History = List Event

-- `smb_conf` of main2.py
pub record Config : Type 0 where
  pub login : Login
  pub share_name : Value
  pub remote_path : Value
  pub file_name : Value

-- A retrieval and a write also answer with the bytes that reached the file, whether they raise or
-- not.
pub record Env : Type 0 where
  pub load_config : History → Outcome Config
  -- Whether the server accepted the login.
  pub connect : Login → History → Outcome Bool
  pub list_path : (share path : Value) → History → Outcome (List Entry)
  pub file_size : Value → String → History → Outcome ℕ
  pub make_dirs : History → Outcome (Unit {0})
  pub open_file : String → History → Outcome (Unit {0})
  pub retrieve : Retrieval → History → List ℕ × Outcome Reply
  pub write : String → List ℕ → History → List ℕ × Outcome (Unit {0})
  pub close : History → Outcome (Unit {0})

-- The local files by their bytes.
pub record State : Type 0 where
  pub files : Dict String (List ℕ)
  pub trace : History

unfoldable pub ask : {A : Type 0} → Event → (History → Outcome A) → M State A
ask e answer s = (answer s.trace, record s { trace = s.trace ++ e ∷ [] })

-- `open(path, 'wb')`; that the file is closed in the end is left out.
unfoldable pub open_local : Env → String → M State (Unit {0})
open_local env path = do
  ask (open_file path) (env.open_file path)
  λ s. pure tt (record s { files = Dict.put s.files path [] })

abbrev pub append_to : String → List ℕ → State → State
append_to path bytes s = record s {
  files = Dict.put s.files path (Dict.get_or s.files path [] ++ bytes);
}

abbrev received : Target → List ℕ → State → State
received (local path) bytes s = append_to path bytes s
received (offset_instead _) bytes s = s

-- `conn.retrieveFileFromOffset(...)`
unfoldable pub retrieve_file_from_offset : Env → Retrieval → M State Reply
retrieve_file_from_offset env r s =
    let (bytes, outcome) = env.retrieve r s.trace in
    (outcome, received r.file_obj bytes (record s { trace = s.trace ++ retrieve r ∷ [] }))

-- `f.write(bytes)`
unfoldable pub write_local : Env → String → List ℕ → M State (Unit {0})
write_local env path bytes s =
    let (reached, outcome) = env.write path bytes s.trace in
    (outcome, append_to path reached (record s { trace = s.trace ++ write path bytes ∷ [] }))

-- `_, written_bytes = reply`
abbrev pub written_bytes : Reply → M State ℕ
written_bytes (attributes_and_count n) = pure n
written_bytes (readable bytes) = throw type_error

-- `reply.read()`
abbrev pub read_all : Reply → M State (List ℕ)
read_all (attributes_and_count n) = throw other_exception
read_all (readable bytes) = pure bytes

abbrev ends_in_slash : String → Bool
ends_in_slash String.[] = false
ends_in_slash (String.◌∷◌ c String.[]) = code c == 47
ends_in_slash (String.◌∷◌ c (String.◌∷◌ d s)) = ends_in_slash (String.◌∷◌ d s)

-- `os.path.join(a, b)` on Linux
unfoldable pub join : String → String → String
unfolding nat_eq
join a b =
    if starts_with b "/"
    then b
    else if ends_in_slash a || not (is_nonempty a)
    then a <> b
    else a <> ("/" <> b)

-- `s.replace('\\', '/')`
unfoldable pub to_slashes : String → String
unfolding nat_eq
to_slashes String.[] = ""
to_slashes (String.◌∷◌ c s) = String.◌∷◌ (if code c == 92 then "/" else c) (to_slashes s)

abbrev pub as_text : Value → M State String
as_text (text s) = pure s
as_text _ = throw type_error

-- `[f.filename for f in entries if not f.isDirectory and not f.filename.startswith('.')]`
abbrev pub file_list : List Entry → List String
file_list entries =
    map (λ f. f.filename)
      (keep (λ f. not f.is_directory && not (starts_with f.filename ".")) entries)

-- The default of `chunk_size`.
abbrev pub default_chunk_size : ℕ
default_chunk_size = 4194304
