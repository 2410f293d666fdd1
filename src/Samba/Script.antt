-- ===== src/Samba/Script.antt =====
-- samba/test/src/main2.py: the script, which lets the package write to the local file and counts
-- the bytes by what the package says.
use dockerize_and_ansible.Base.{
  ℕ, zero, suc, ◌+◌, ◌-◌, min, String, Bool, false, not, Option, none, some, List, [], ◌∷◌,
  if◌then◌else◌, ltb,
}
use dockerize_and_ansible.Base.Text.{is_nonempty}
use dockerize_and_ansible.Base.Effect.{M, pure, try_except, ◌>>=◌, ◌>>◌}
use dockerize_and_ansible.Samba.{
  Value, text, number, boolean, other, local, Retrieval, Config, State, Env, ask, open_local,
  retrieve_file_from_offset, written_bytes, join, to_slashes, as_text, file_list, load_config,
  connect, list_path, get_attributes, default_chunk_size,
}

abbrev pub chunk : Value → String → String → ℕ → ℕ → Retrieval
chunk share_name remote_file_path file_name offset read_size = record {
  share = share_name;
  path = remote_file_path;
  file_obj = local file_name;
  offset = offset;
  max_length = some read_size;
}

-- The `while` loop, with fuel; `none` means that the fuel ran out.
unfoldable pub copy_chunks :
    Env
    → (chunk_size : ℕ) → Value
    → String
    → String
    → (file_size : ℕ) → (fuel offset : ℕ) → M State (Option (Unit {0}))
copy_chunks env chunk_size share_name path file_name file_size zero offset = pure none
copy_chunks env chunk_size share_name path file_name file_size (suc fuel) offset =
    if not (ltb offset file_size) then pure (some tt) else (do
      let read_size = min chunk_size (file_size - offset)
      reply ← retrieve_file_from_offset env (chunk share_name path file_name offset read_size)
      written ← written_bytes reply
      copy_chunks env chunk_size share_name path file_name file_size fuel (offset + written))

unfoldable pub download_file_optimized :
    Env → ℕ → ℕ → Value → Value → String → M State (Option (Unit {0}))
download_file_optimized env fuel chunk_size share_name remote_path file_name = do
  directory ← as_text remote_path
  let path = to_slashes (join directory file_name)
  file_size ← ask (get_attributes share_name path) (env.file_size share_name path)
  open_local env file_name
  copy_chunks env chunk_size share_name path file_name file_size fuel 0

-- `not file_name`; the values that are `other` are taken to be None.
abbrev named : Value → Bool
named (text name) = is_nonempty name
named (number n) = ltb 0 n
named (boolean b) = b
named other = false

-- `file_list[0]`, where nothing is configured.
abbrev pub chosen : Value → String → Value
chosen file_name first = if named file_name then file_name else text first

abbrev pub download_from : Env → ℕ → Config → List String → M State (Option (Unit {0}))
download_from env fuel config [] = pure (some tt)
download_from env fuel config (first ∷ _) = do
  name ← as_text (chosen config.file_name first)
  download_file_optimized env fuel default_chunk_size config.share_name config.remote_path name

-- `none` means that the fuel of the download ran out.
unfoldable pub main : Env → ℕ → M State (Option (Unit {0}))
main env fuel = do
  config ← ask load_config env.load_config
  connected ← ask (connect config.login) (env.connect config.login)
  if not connected
      then pure (some tt)
      else try_except
          (do
            entries ←
                ask (list_path config.share_name config.remote_path)
                  (env.list_path config.share_name config.remote_path)
            download_from env fuel config (file_list entries))
          (λ e. pure (some tt))
