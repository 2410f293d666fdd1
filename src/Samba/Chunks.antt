-- ===== src/Samba/Chunks.antt =====
-- samba/test/src/main2.py: what the loop over chunks leaves in the local file.
pub mod Endless
use dockerize_and_ansible.Base.{
  ℕ, zero, suc, ◌+◌, ◌-◌, ◌≤◌, ◌<◌, min, String, ◌≡◌, refl, sym, ◌∙◌, ap, true, false, none, some,
  List, [], ◌∷◌, ◌++◌, append_assoc, append-nil, length, length-append, arith, ltb, ◌==◌, string_eq,
}
use dockerize_and_ansible.Base.Dict.{get, get_or, put, get-put, get_or-put}
use dockerize_and_ansible.Base.Effect.{return, pure, ◌>>=◌}
use dockerize_and_ansible.Samba
use dockerize_and_ansible.Samba.{
  Value, text, Reply, attributes_and_count, State, Env, History, ask, open_local, append_to,
  retrieve_file_from_offset, written_bytes, join, to_slashes, get_attributes, open_file,
}
use dockerize_and_ansible.Samba.Script.{chunk, copy_chunks, download_file_optimized}

-- A read that writes some bytes of what is left into the local file, at most as many as it may.
pub record Reads (env : Env) (share : Value) (path name : String) (offset limit : ℕ) (h : History)
    (rest : List ℕ) : Type 0 where
  pub piece : List ℕ
  pub behind : List ℕ
  pub split : rest ≡ piece ++ behind
  pub some_bytes : 0 < length piece
  pub in_limit : length piece ≤ limit
  pub answer :
      env.retrieve (chunk share path name offset limit) h
      ≡ (piece, return (attributes_and_count (length piece)))

-- A server that has `content` under the path and reads it as the package documents: a read before
-- its end writes at least one byte, maybe fewer than it was asked for, and a read at its end writes
-- none.
pub record Serves (env : Env) (share : Value) (path name : String) (content : List ℕ) : Type 0 where
  pub opens : (h : History) → env.open_file name h ≡ return tt
  pub reads :
      (h : History) (got rest : List ℕ) (limit : ℕ)
      → content ≡ got ++ rest
      → 0 < length rest
      → 0 < limit
      → Reads env share path name (length got) limit h rest
  pub at_end :
      (h : History) (limit : ℕ)
      → env.retrieve (chunk share path name (length content) limit) h
        ≡ ([], return (attributes_and_count 0))

-- The local file holds what was fetched, and all other files are as they were.
pub record Fetched (name : String) (content : List ℕ) (s s' : State) : Type 0 where
  pub whole : get_or s'.files name [] ≡ content
  pub others : (other : String) → (name == other) ≡ false → get s'.files other ≡ get s.files other

module _ (env : Env) (share : Value) (path name : String) (chunk_size : ℕ)
    (chunked : 0 < chunk_size) {content : List ℕ}
    (serves : Serves env share path name content) where
  abbrev pub step : State → ℕ → ℕ → List ℕ → State
  step s offset limit piece =
      append_to name piece
        (record s { trace = s.trace ++ Samba.retrieve (chunk share path name offset limit) ∷ [] })

  record Copied (fuel offset : ℕ) (s : State) : Type 0 where
    final : State
    ran :
        copy_chunks env chunk_size share path name (length content) fuel offset s
        ≡ (return (some tt), final)
    fetched : Fetched name content s final

  step-whole :
      (s : State) (offset limit : ℕ) (got piece : List ℕ)
      → get_or s.files name [] ≡ got
      → get_or (step s offset limit piece).files name [] ≡ got ++ piece
  unfolding get_or
  step-whole s offset limit got piece h =
      get_or-put s.files name (get_or s.files name [] ++ piece) [] ∙ ap (λ g. g ++ piece) h

  step-others :
      (s : State) (offset limit : ℕ) (piece : List ℕ) (other : String)
      → (name == other) ≡ false
      → get (step s offset limit piece).files other ≡ get s.files other
  step-others s offset limit piece other differs =
      get-put s.files name other (get_or s.files name [] ++ piece) ∙ rw differs

  -- A round that fetches, and the rounds behind it.
  pub round :
      (file_size fuel offset : ℕ) (s : State) (piece : List ℕ)
      → offset < file_size
      → env.retrieve (chunk share path name offset (min chunk_size (file_size - offset))) s.trace
        ≡ (piece, return (attributes_and_count (length piece)))
      → copy_chunks env chunk_size share path name file_size (suc fuel) offset s
        ≡ copy_chunks env chunk_size share path name file_size fuel
            (offset + length piece)
            (step s offset (min chunk_size (file_size - offset)) piece)
  unfolding copy_chunks retrieve_file_from_offset ◌>>=◌
  round file_size fuel offset s piece short answer =
      let test : ltb offset file_size ≡ true = ground arith in rw (copy_chunks, test, answer)

  stops :
      (fuel file_size offset : ℕ) (s : State)
      → file_size ≤ offset
      → copy_chunks env chunk_size share path name file_size (suc fuel) offset s
        ≡ (return (some tt), s)
  unfolding copy_chunks ◌>>=◌
  stops fuel file_size offset s past =
      let test : ltb offset file_size ≡ false = ground arith in rw (copy_chunks, test)

  pub length_of :
      (got rest : List ℕ) → content ≡ got ++ rest → length content ≡ length got + length rest
  length_of got rest e = ap length e ∙ length-append got rest

  copies :
      (fuel : ℕ) (s : State) (got rest : List ℕ)
      → content ≡ got ++ rest
      → length rest < fuel
      → get_or s.files name [] ≡ got
      → Copied fuel (length got) s
  copies zero s got rest e enough held = absurd (omega arith)
  copies (suc fuel) s got [] e enough held = record {
    final = s;
    ran = stops fuel (length content) (length got) s (omega (arith, length_of got [] e));
    fetched = record {
      whole = held ∙ sym (append-nil got) ∙ sym e;
      others = λ other differs. refl;
    };
  }
  copies (suc fuel) s got (x ∷ rest) e enough held =
      let limit = min chunk_size (length content - length got) in
      let r =
        serves.reads s.trace got (x ∷ rest) limit e (omega arith)
          (omega (arith, length_of got (x ∷ rest) e)) in
      let more =
        copies fuel (step s (length got) limit r.piece) (got ++ r.piece) r.behind
          (e ∙ ap (λ l. got ++ l) r.split ∙ sym (append_assoc got r.piece r.behind))
          (omega (arith, ap length r.split, length-append r.piece r.behind, r.some_bytes))
          (step-whole s (length got) limit got r.piece held) in
      record {
        final = more.final;
        ran =
            round (length content) fuel (length got) s r.piece
              (omega (arith, length_of got (x ∷ rest) e)) r.answer
            ∙ rw (sym (length-append got r.piece)) more.ran;
        fetched = record {
          whole = more.fetched.whole;
          others = λ other differs.
              more.fetched.others other differs
              ∙ step-others s (length got) limit r.piece other differs;
        };
      }

-- A script whose server serves a file fetches all of it, however short the reads are, with one
-- round of fuel more than the file has bytes: it returns, the local file then holds the bytes of
-- the file, and all other local files are as before.
pub download_file_optimized-Serves :
    (env : Env) (share : Value) (remote_path name : String) (chunk_size : ℕ) (content : List ℕ)
    → 0 < chunk_size
    → ((h : History)
        → env.file_size share (to_slashes (join remote_path name)) h ≡ return (length content))
    → Serves env share (to_slashes (join remote_path name)) name content
    → (s : State)
    → (s' : State) × (download_file_optimized env
          (suc (length content))
          chunk_size
          share
          (text remote_path)
          name
          s
        ≡ (return (some tt), s'))
      × Fetched name content s s'
unfolding download_file_optimized open_local ask ◌>>=◌
download_file_optimized-Serves env share remote_path name chunk_size content chunked sized serves
      s =
    let path = to_slashes (join remote_path name) in
    let opened : State = record {
      files = put s.files name [];
      trace = (s.trace ++ get_attributes share path ∷ []) ++ open_file name ∷ [];
    } in
    let copied =
      copies env share path name chunk_size chunked serves (suc (length content)) opened [] content
        refl (omega arith) (get_or-put s.files name [] []) in
    (
      copied.final,
      rw (sized s.trace, serves.opens (s.trace ++ get_attributes share path ∷ [])) copied.ran,
      record {
        whole = copied.fetched.whole;
        others = λ other differs.
            copied.fetched.others other differs ∙ get-put s.files name other [] ∙ rw differs;
      },
    )
