-- ===== src/Samba/Server.antt =====
-- samba/test/src/main.py: the calls of the server and both routes.
use dockerize_and_ansible.Base.{
  ℕ, zero, suc, ◌+◌, ◌-◌, min, String, Bool, true, false, not, Option, none, some, List, [], ◌∷◌,
  nat_eq, string_eq, if◌then◌else◌, ltb,
}
use dockerize_and_ansible.Base.Dict
use dockerize_and_ansible.Base.Dict.{Dict}
use dockerize_and_ansible.Base.Effect.{M, pure, try_except, ◌>>=◌, ◌>>◌}
use dockerize_and_ansible.Samba.{
  Value, text, number, Login, offset_instead, Retrieval, State, Env, ask, open_local,
  retrieve_file_from_offset, write_local, read_all, join, to_slashes, as_text, file_list, connect,
  list_path, get_attributes, make_dirs, close, default_chunk_size,
}
use Prim.Native.Char.{Char}
use dockerize_and_ansible.Samba.Checks.{
  Data, connection_failed, download_failed, connection_successful, download_successful, Request,
  Response, respond, field, validate_json,
}

abbrev pub Downloaded : Type 0
Downloaded = String × ℕ × String

-- Where the program tells a server's connection from None.
unfoldable pub connect_to_smb : Env → Login → M State Bool
connect_to_smb env login =
    try_except (do ask (connect login) (env.connect login); pure true) (λ e. pure false)

unfoldable pub list_smb_files : Env → Value → M State (List String)
list_smb_files env share_name =
    try_except
      (do
        entries ← ask (list_path share_name (text "/")) (env.list_path share_name (text "/"))
        pure (file_list entries))
      (λ e. pure [])

-- The third argument of `retrieveFileFromOffset` is the file to write to; this call gives it the
-- offset, and the size as the offset.
abbrev pub chunk : Value → String → ℕ → ℕ → Retrieval
chunk share_name remote_file_path offset read_size = record {
  share = share_name;
  path = remote_file_path;
  file_obj = offset_instead offset;
  offset = read_size;
  max_length = none;
}

-- The `while` loop, with fuel; `none` means that the fuel ran out.
unfoldable pub copy_chunks :
    Env
    → (chunk_size : ℕ) → Value
    → String
    → String
    → (file_size : ℕ) → (fuel offset : ℕ) → M State (Option (Unit {0}))
copy_chunks env chunk_size share_name path local_path file_size zero offset = pure none
copy_chunks env chunk_size share_name path local_path file_size (suc fuel) offset =
    if not (ltb offset file_size) then pure (some tt) else (do
      let read_size = min chunk_size (file_size - offset)
      reply ← retrieve_file_from_offset env (chunk share_name path offset read_size)
      bytes ← read_all reply
      write_local env local_path bytes
      copy_chunks env chunk_size share_name path local_path file_size fuel (offset + read_size))

abbrev pub downloaded : String → ℕ → String → Option (Unit {0}) → Option (Option Downloaded)
downloaded file_name file_size local_path none = none
downloaded file_name file_size local_path (some _) = some (some (file_name, file_size, local_path))

-- `none` means that the fuel ran out, and `some none` is None.
unfoldable pub download_file_optimized :
    Env → ℕ → ℕ → Value → Value → Value → M State (Option (Option Downloaded))
download_file_optimized env fuel chunk_size share_name remote_path file_name =
    try_except
      (do
        directory ← as_text remote_path
        name ← as_text file_name
        let path = to_slashes (join directory name)
        file_size ← ask (get_attributes share_name path) (env.file_size share_name path)
        let local_path = join "downloads" name
        ask make_dirs env.make_dirs
        open_local env local_path
        copied ← copy_chunks env chunk_size share_name path local_path file_size fuel 0
        pure (downloaded name file_size local_path copied))
      (λ e. pure (some none))

unfoldable pub login_of : Data → M State Login
login_of values = do
  username ← field values "username"
  password ← field values "password"
  my_name ← field values "my_name"
  remote_name ← field values "remote_name"
  remote_ip ← field values "remote_ip"
  pure (record {
    username = username;
    password = password;
    my_name = my_name;
    remote_name = remote_name;
    remote_ip = remote_ip;
    port = some (Dict.get_or values "port" (number 139));
  })

unfoldable pub connect_smb : Env → Data → M State Response
connect_smb env values = do
  login ← login_of values
  conn ← connect_to_smb env login
  if not conn then pure (respond 500 connection_failed) else (do
    share_name ← field values "share_name"
    files ← list_smb_files env share_name
    ask close env.close
    pure (respond 200 (connection_successful files)))

abbrev pub download_response : Option Downloaded → Response
download_response none = respond 500 download_failed
download_response (some (file_name, size, local_path)) =
    respond 200 (download_successful file_name size local_path)

abbrev pub respond_once_done : Option (Option Downloaded) → Option Response
respond_once_done none = none
respond_once_done (some result) = some (download_response result)

-- `none` means that the fuel of the download ran out.
unfoldable pub download_smb_file : Env → ℕ → Data → M State (Option Response)
download_smb_file env fuel values = do
  login ← login_of values
  conn ← connect_to_smb env login
  if not conn then pure (some (respond 500 connection_failed)) else (do
    share_name ← field values "share_name"
    remote_path ← field values "remote_path"
    file_name ← field values "file_name"
    result ← download_file_optimized env fuel default_chunk_size share_name remote_path file_name
    ask close env.close
    pure (respond_once_done result))

abbrev pub connect_fields : List String
connect_fields =
    "username" ∷ "password" ∷ "my_name" ∷ "remote_name" ∷ "remote_ip" ∷ "share_name" ∷ []

abbrev pub download_fields : List String
download_fields =
    "username" ∷ "password" ∷ "my_name" ∷ "remote_name" ∷ "remote_ip" ∷ "share_name" ∷ "remote_path"
    ∷ "file_name" ∷ []

-- `/api/connect-smb` and `/api/download-smb-file`
unfoldable pub connect_smb_route : Env → (Char → Option ℕ) → Request → M State (Option Response)
connect_smb_route env digit =
    validate_json digit connect_fields
      (λ values. do response ← connect_smb env values; pure (some response))

unfoldable pub download_smb_file_route :
    Env → (Char → Option ℕ) → ℕ → Request → M State (Option Response)
download_smb_file_route env digit fuel =
    validate_json digit download_fields (download_smb_file env fuel)
