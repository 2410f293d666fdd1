-- ===== src/Tests/SambaRuns.antt =====
-- samba/test/src: a server that gives one byte for each read, and requests of both routes.
use dockerize_and_ansible.Base.{
  ℕ, zero, suc, ◌<◌, String, ◌≡◌, refl, ◌⊎◌, true, false, Option, none, some, List, [], ◌∷◌, ◌++◌,
  All, length, arith, ◌-◌, ◌&&◌, leb, if◌then◌else◌, nat_eq, string_eq,
}
use dockerize_and_ansible.Base.Dict.{get, get_or, put}
use dockerize_and_ansible.Base.Effect.{
  other_exception, Outcome, return, raise, M, pure, throw, ◌>>=◌, try_except,
}
use dockerize_and_ansible.Base.Effect.Returns.{Returned}
use dockerize_and_ansible.Base.Text.{split}
use dockerize_and_ansible.Samba
use dockerize_and_ansible.Samba.{
  Value, text, number, other, Login, Entry, Target, local, offset_instead, Retrieval, Reply,
  attributes_and_count, Config, State, Env, History, join, to_slashes, ask,
  retrieve_file_from_offset,
}
use dockerize_and_ansible.Samba.Checks.{
  Data, Request, download_successful, Response, respond, decimal, is_octet, is_valid_ip, is_valid,
  check_fields, validate_json, drop_newline, field,
}
use dockerize_and_ansible.Samba.Server.{
  connect_smb, connect_fields, download_smb_file_route, download_smb_file, login_of, connect_to_smb,
  download_file_optimized, copy_chunks,
}
use dockerize_and_ansible.Samba.Chunks.{Reads, Serves, Fetched}
use dockerize_and_ansible.Samba.Fetches.{Ready, main-Serves}
use dockerize_and_ansible.Samba.Requests.{Handled, IsRefusal, Accepted, validate_json-Handled}
use dockerize_and_ansible.Samba.Routes.{
  IsPair, ReturnsPairs, IsEmptyDownload, download_smb_file_route-IsEmptyDownload,
}
use dockerize_and_ansible.Samba.Answers.{
  answer_to, calls_for, login_in, share_in, connect_smb-answers,
}
use Prim.Native.Char.{Char, code}

abbrev rest_from : List ℕ → ℕ → List ℕ
rest_from bytes zero = bytes
rest_from [] (suc n) = []
rest_from (x ∷ bytes) (suc n) = rest_from bytes n

rest_from-append : (got rest : List ℕ) → rest_from (got ++ rest) (length got) ≡ rest
rest_from-append [] rest = refl
rest_from-append (x ∷ got) rest = rest_from-append got rest

abbrev first_byte : List ℕ → List ℕ × Outcome Reply
first_byte [] = ([], return (attributes_and_count 0))
first_byte (x ∷ bytes) = (x ∷ [], return (attributes_and_count 1))

abbrev greeting : List ℕ
greeting = 72 ∷ 105 ∷ 33 ∷ []

-- A call with a number in the place of the file raises.
abbrev reply_to : Target → ℕ → List ℕ × Outcome Reply
reply_to (local _) offset = first_byte (rest_from greeting offset)
reply_to (offset_instead _) offset = ([], raise other_exception)

abbrev login : Login
login = record {
  username = text "u";
  password = text "p";
  my_name = text "me";
  remote_name = text "srv";
  remote_ip = text "10.0.0.7";
  port = none;
}

abbrev config : Config
config = record {
  login = login;
  share_name = text "share";
  remote_path = text "in";
  file_name = other;
}

abbrev entries : List Entry
entries =
    record { filename = "old"; is_directory = true }
    ∷ record { filename = ".tmp"; is_directory = false }
    ∷ record { filename = "a.txt"; is_directory = false }
    ∷ []

abbrev server : ℕ → Env
server size = record {
  load_config = λ h. return config;
  connect = λ login h. return true;
  list_path = λ share path h. return entries;
  file_size = λ share path h. return size;
  make_dirs = λ h. return tt;
  open_file = λ path h. return tt;
  retrieve = λ r h. reply_to r.file_obj r.offset;
  write = λ path bytes h. (bytes, return tt);
  close = λ h. return tt;
}

abbrev nothing_yet : State
nothing_yet = record { files = []; trace = [] }

answers :
    (got : List ℕ) (x : ℕ) (more : List ℕ)
    → greeting ≡ got ++ x ∷ more
    → first_byte (rest_from greeting (length got)) ≡ (x ∷ [], return (attributes_and_count 1))
answers got x more e = rw (e, rest_from-append got (x ∷ more)) refl

reads :
    (size : ℕ) (share : Value) (path name : String) (h : History) (got rest : List ℕ) (limit : ℕ)
    → greeting ≡ got ++ rest
    → 0 < length rest
    → 0 < limit
    → Reads (server size) share path name (length got) limit h rest
reads size share path name h got [] limit e some_rest some_limit = absurd (omega arith)
reads size share path name h got (x ∷ more) limit e some_rest some_limit = record {
  piece = x ∷ [];
  behind = more;
  split = refl;
  some_bytes = omega arith;
  in_limit = omega arith;
  answer = answers got x more e;
}

serves :
    (size : ℕ) (share : Value) (path name : String) → Serves (server size) share path name greeting
serves size share path name = record {
  opens = λ h. refl;
  reads = reads size share path name;
  at_end = λ h limit. refl;
}

ready : Ready (server 3) config "a.txt" []
ready = record {
  configured = λ h. refl;
  accepts = λ h. refl;
  entries = entries;
  lists = λ h. refl;
  visible = refl;
}

main-Serves_example :
    (s' : State) × (Samba.Script.main (server 3) 4 nothing_yet ≡ (return (some tt), s'))
    × Fetched "a.txt" greeting nothing_yet s'
main-Serves_example =
    main-Serves (server 3) config "a.txt" [] "in" "a.txt" greeting nothing_yet ready refl refl
      (λ h. refl) (serves 3 (text "share") _ "a.txt")

-- The digits of ASCII.
abbrev digit : Char → Option ℕ
digit c = let n = code c in if leb 48 n && leb n 57 then some (n - 48) else none

ips :
    (is_valid_ip digit "10.0.0.255" ≡ true)
    × (is_valid_ip digit "10.0.0.256" ≡ false)
    × (is_valid_ip digit "10.0.0" ≡ false)
    × (is_valid_ip digit "10.0.0.7\n" ≡ true)
unfolding is_valid_ip is_octet decimal drop_newline split nat_eq
ips = (refl, refl, refl, refl)

abbrev values : Data
values =
    ("username", text "u")
    ∷ ("password", text "p")
    ∷ ("my_name", text "me")
    ∷ ("remote_name", text "srv")
    ∷ ("remote_ip", text "10.0.0.7")
    ∷ ("share_name", text "share")
    ∷ ("remote_path", text "in")
    ∷ ("file_name", text "a.txt")
    ∷ []

abbrev request : Request
request = record { is_json = true; json = return values }

abbrev connect_some : Data → M State (Option Response)
connect_some values = do response ← connect_smb (server 3) values; pure (some response)

abbrev unreachable_ip : Request
unreachable_ip = record { is_json = true; json = return (put values "remote_ip" (text "10.0.0")) }

first-IsPair : (bytes : List ℕ) → Returned IsPair (first_byte bytes).1
first-IsPair [] = tt
first-IsPair (x ∷ bytes) = tt

pairs_of : (file_obj : Target) (offset : ℕ) → Returned IsPair (reply_to file_obj offset).1
pairs_of (local name) offset = first-IsPair (rest_from greeting offset)
pairs_of (offset_instead n) offset = tt

documented : (size : ℕ) → ReturnsPairs (server size)
documented size = record { pairs = λ r h. pairs_of r.file_obj r.offset }

-- A file of no bytes is the only one whose download is reported.
empty_file :
    (download_smb_file_route (server 0) digit 1 request nothing_yet).0
    ≡ return (some (respond 200 (download_successful "a.txt" 0 "downloads/a.txt")))
unfolding download_smb_file_route validate_json ◌>>=◌ check_fields get string_eq is_valid
    is_valid_ip drop_newline is_octet decimal download_smb_file login_of field connect_to_smb ask
    download_file_optimized Samba.open_local get_or put pure throw try_except nat_eq split
    copy_chunks join retrieve_file_from_offset to_slashes
empty_file = refl

download_smb_file_route-IsEmptyDownload_example :
    IsEmptyDownload (some (respond 200 (download_successful "a.txt" 0 "downloads/a.txt")))
download_smb_file_route-IsEmptyDownload_example =
    download_smb_file_route-IsEmptyDownload (server 0) digit 0 request nothing_yet
      (some (respond 200 (download_successful "a.txt" 0 "downloads/a.txt"))) (documented 0)
      empty_file

validate_json-Handled_example :
    ((h : Handled digit connect_fields unreachable_ip) × (validate_json digit connect_fields
          connect_some unreachable_ip nothing_yet
        ≡ connect_some h.values nothing_yet))
    ⊎ ((o : Outcome (Option Response)) × (validate_json digit connect_fields connect_some
            unreachable_ip nothing_yet
          ≡ (o, nothing_yet))
        × IsRefusal o)
validate_json-Handled_example =
    validate_json-Handled digit connect_fields connect_some unreachable_ip nothing_yet

fields_Accepted : All (Accepted digit values) connect_fields
unfolding get string_eq is_valid_ip is_octet decimal drop_newline split nat_eq
fields_Accepted = (
  record { value = text "u"; found = refl; accepted = refl },
  (
    record { value = text "p"; found = refl; accepted = refl },
    (
      record { value = text "me"; found = refl; accepted = refl },
      (
        record { value = text "srv"; found = refl; accepted = refl },
        (
          record { value = text "10.0.0.7"; found = refl; accepted = refl },
          (record { value = text "share"; found = refl; accepted = refl }, tt),
        ),
      ),
    ),
  ),
)

connect_smb-answers_example : connect_smb (server 3) values nothing_yet ≡ (
  return (answer_to (return true) (return entries)),
  record {
    files = [];
    trace = calls_for (login_in fields_Accepted) (share_in fields_Accepted) (return true);
  },
)
connect_smb-answers_example =
    connect_smb-answers (server 3) digit values nothing_yet fields_Accepted (λ h. refl)
