-- ===== src/Samba/Routes.antt =====
-- samba/test/src/main.py: what the download route can report.
use dockerize_and_ansible.Base.{
  ℕ, suc, String, ◌≡◌, inl, inr, true, not, Option, none, some, List, [], ◌∷◌, arith, ltb,
  Option-cases, string_eq,
}
use dockerize_and_ansible.Base.Dict
use dockerize_and_ansible.Base.Effect.{return, M, pure}
use dockerize_and_ansible.Base.Effect.Returns.{
  Returned, Returns, Returns-value, Returns-pure, Returns-throw, Returns-if, Returns-bind,
  Returns-bind_known, returns_rules,
}
use dockerize_and_ansible.Samba.{
  Value, Reply, attributes_and_count, readable, read_all, Retrieval, State, Env, History,
  retrieve_file_from_offset, default_chunk_size,
}
use dockerize_and_ansible.Samba.Checks.{
  Data, Request, or_respond, lift, Message, must_be_json, download_successful, Response, respond,
  check_fields, validate_json,
}
use dockerize_and_ansible.Samba.Server.{
  downloaded, respond_once_done, Downloaded, chunk, copy_chunks, download_file_optimized,
  download_smb_file, download_fields, download_smb_file_route,
}
use Prim.Native.Char.{Char}

abbrev pub IsPair : Reply → Type 0
IsPair (attributes_and_count n) = Unit
IsPair (readable bytes) = ⊥

-- As the package documents it, `retrieveFileFromOffset` returns the attributes of the file and a
-- count, if it returns.
pub record ReturnsPairs (env : Env) : Type 0 where
  pub pairs : (r : Retrieval) (h : History) → Returned IsPair (env.retrieve r h).1

-- A response that reports a download reports an empty file.
abbrev pub IsEmptyMessage : Message → Type 0
IsEmptyMessage (download_successful _ size _) = size ≡ 0
IsEmptyMessage _ = Unit

-- The fuel does not run out either.
abbrev pub IsEmptyDownload : Option Response → Type 0
IsEmptyDownload none = ⊥
IsEmptyDownload (some response) = IsEmptyMessage response.message

-- A response of the decorator, if there is one.
abbrev IsEarly : Option Response → Type 0
IsEarly none = Unit
IsEarly (some response) = IsEmptyMessage response.message

abbrev IsEmptyResult : Option (Option Downloaded) → Type 0
IsEmptyResult none = ⊥
IsEmptyResult (some none) = Unit
IsEmptyResult (some (some (_, size, _))) = size ≡ 0

module _ (env : Env) (documented : ReturnsPairs env) where
  abbrev OnlyEmpty : ℕ → Option (Unit {0}) → Type 0
  OnlyEmpty file_size none = ⊥
  OnlyEmpty file_size (some _) = file_size ≡ 0

  retrieve-Returns : (r : Retrieval) → Returns IsPair (retrieve_file_from_offset env r)
  unfolding retrieve_file_from_offset
  retrieve-Returns r = record { at = λ s. documented.pairs r s.trace }

  -- A pair has no `read`.
  read_all-Returns : (reply : Reply) → IsPair reply → Returns (λ (_ : List ℕ). ⊥) (read_all reply)
  read_all-Returns (attributes_and_count n) pair = Returns-throw _
  read_all-Returns (readable bytes) pair = absurd pair

  none_left : (size : ℕ) → not (ltb 0 size) ≡ true → size ≡ 0
  none_left size e = ground arith

  copy_chunks-Returns :
      (chunk_size : ℕ) (share : Value) (path local_path : String) (file_size fuel : ℕ)
      → Returns
          (OnlyEmpty file_size)
          (copy_chunks env chunk_size share path local_path file_size (suc fuel) 0)
  unfolding copy_chunks
  copy_chunks-Returns chunk_size share path local_path file_size fuel =
      Returns-if _ _ _ (λ e. Returns-pure (some tt) (none_left file_size e))
        (λ e. Returns-bind_known _ _ (retrieve-Returns (chunk share path 0 _)) (λ reply pair.
          Returns-bind_known _ _ (read_all-Returns reply pair) (λ bytes never. absurd never)))

  downloaded-IsEmptyResult :
      (name : String) (file_size : ℕ) (local_path : String) (copied : Option (Unit {0}))
      → OnlyEmpty file_size copied
      → IsEmptyResult (downloaded name file_size local_path copied)
  downloaded-IsEmptyResult name file_size local_path none h = h
  downloaded-IsEmptyResult name file_size local_path (some _) h = h

  download_file_optimized-Returns :
      (fuel : ℕ) (share remote_path name : Value)
      → Returns IsEmptyResult
          (download_file_optimized env (suc fuel) default_chunk_size share remote_path name)
  unfolding download_file_optimized
  download_file_optimized-Returns fuel share remote_path name =
      search
        (
          returns_rules,
          Returns-bind_known _ _ (copy_chunks-Returns _ _ _ _ _ _),
          downloaded-IsEmptyResult,
        )
        depth 20

  once_done-IsEmptyDownload :
      (result : Option (Option Downloaded))
      → IsEmptyResult result
      → IsEmptyDownload (respond_once_done result)
  once_done-IsEmptyDownload none h = h
  once_done-IsEmptyDownload (some none) h = tt
  once_done-IsEmptyDownload (some (some _)) h = h

  download_smb_file-Returns :
      (fuel : ℕ) (values : Data) → Returns IsEmptyDownload (download_smb_file env (suc fuel) values)
  unfolding download_smb_file
  download_smb_file-Returns fuel values =
      search
        (
          Returns-if,
          Returns-pure,
          Returns-bind_known _ _ (download_file_optimized-Returns _ _ _ _),
          Returns-bind,
          once_done-IsEmptyDownload,
        )
        depth 20

-- What is answered without the handler reports no download.
check_fields-Returns :
    (digit : Char → Option ℕ) (values : Data) (names : List String)
    → Returns IsEarly (check_fields digit values names)
unfolding check_fields
check_fields-Returns digit values [] = Returns-pure none tt
check_fields-Returns digit values (name ∷ names) = elim (Option-cases (Dict.get values name)) [
  | inl missing ↦ rw (missing, check_fields) (Returns-pure _ tt)
  | inr (value, found) ↦
      rw (found, check_fields)
        (Returns-bind _ _ (λ valid.
          Returns-if valid _ _ (λ _. check_fields-Returns digit values names)
            (λ _. Returns-pure _ tt)))
]

or_respond-Returns :
    (early : Option Response) (rest : M State (Option Response))
    → IsEarly early
    → Returns IsEmptyDownload rest
    → Returns IsEmptyDownload (or_respond early rest)
or_respond-Returns none rest h k = k
or_respond-Returns (some response) rest h k = Returns-pure _ h

validate_json-Returns :
    (digit : Char → Option ℕ) (names : List String) (func : Data → M State (Option Response))
    (request : Request)
    → ((values : Data) → Returns IsEmptyDownload (func values))
    → Returns IsEmptyDownload (validate_json digit names func request)
unfolding validate_json
validate_json-Returns digit names func request handled =
    Returns-if (not request.is_json) (pure (some (respond 400 must_be_json))) _
      (λ _. Returns-pure _ tt)
      (λ _. Returns-bind (lift request.json) _ (λ values.
        Returns-bind_known _ _ (check_fields-Returns digit values names)
          (λ early h. or_respond-Returns early _ h (handled values))))

-- If `retrieveFileFromOffset` returns a pair whenever it returns, as the package documents it, the
-- download route answers, unless it raises, with a response that reports no download of a file that
-- is not empty, whatever the request and the server and with any fuel above 0: the loop reads from
-- what the call returns, and a pair cannot be read from.
pub download_smb_file_route-IsEmptyDownload :
    (env : Env) (digit : Char → Option ℕ) (fuel : ℕ) (request : Request) (s : State)
    (answer : Option Response)
    → ReturnsPairs env
    → (download_smb_file_route env digit (suc fuel) request s).0 ≡ return answer
    → IsEmptyDownload answer
unfolding download_smb_file_route
download_smb_file_route-IsEmptyDownload env digit fuel request s answer documented ran =
    Returns-value (download_smb_file_route env digit (suc fuel) request) s answer
      (validate_json-Returns digit download_fields _ request
        (download_smb_file-Returns env documented fuel))
      ran
