-- ===== src/Samba/Chunks/Endless.antt =====
-- samba/test/src/main2.py: a loop that does not end.
use dockerize_and_ansible.Base.{
  ℕ, zero, suc, ◌+◌, ◌-◌, ◌<◌, min, String, ◌≡◌, refl, sym, ◌∙◌, ap, none, List, [], ◌∷◌, ◌++◌,
  append_assoc, append-nil, length, length-append, arith, string_eq,
}
use dockerize_and_ansible.Base.Effect.{return, pure}
use dockerize_and_ansible.Samba.{Value, State, Env}
use dockerize_and_ansible.Samba.Script.{copy_chunks}
use dockerize_and_ansible.Samba.Chunks.{Serves, step, round, length_of}

module _ (env : Env) (share : Value) (path name : String) (chunk_size : ℕ)
    (chunked : 0 < chunk_size) {content : List ℕ}
    (serves : Serves env share path name content) where
  endless :
      (file_size fuel : ℕ) (s : State) (got rest : List ℕ)
      → content ≡ got ++ rest
      → length content < file_size
      → (copy_chunks env chunk_size share path name file_size fuel (length got) s).0 ≡ return none
  unfolding copy_chunks pure
  endless file_size zero s got rest e longer = refl
  endless file_size (suc fuel) s got [] e longer =
      let limit = min chunk_size (file_size - length got) in
      let whole : content ≡ got = e ∙ append-nil got in
      let none_more : length got + 0 ≡ length got = omega arith in
      rw
        (
          round env share path name chunk_size chunked serves file_size fuel (length got) s []
              (omega (arith, ap length whole))
              (rw (ap length (sym whole)) (serves.at_end s.trace _)),
          none_more,
        )
        (endless file_size fuel
          (step env share path name chunk_size chunked serves s (length got) limit []) got [] e
          longer)
  endless file_size (suc fuel) s got (x ∷ rest) e longer =
      let limit = min chunk_size (file_size - length got) in
      let r =
        serves.reads s.trace got (x ∷ rest) limit e (omega arith) (
          omega
            (arith, length_of env share path name chunk_size chunked serves got (x ∷ rest) e)) in
      rw
        (
          round env share path name chunk_size chunked serves file_size fuel (length got) s r.piece
              (omega
                (arith, length_of env share path name chunk_size chunked serves got (x ∷ rest) e))
              r.answer,
          sym (length-append got r.piece),
        )
        (endless file_size fuel
          (step env share path name chunk_size chunked serves s (length got) limit r.piece)
          (got ++ r.piece) r.behind
          (e ∙ ap (λ l. got ++ l) r.split ∙ sym (append_assoc got r.piece r.behind)) longer)

-- A server whose file became shorter than it has said keeps the script in its loop: however many
-- rounds it is given, it has not ended.
pub copy_chunks-endless :
    (env : Env) (share : Value) (path name : String) (chunk_size : ℕ) (content : List ℕ)
    (file_size : ℕ)
    → 0 < chunk_size
    → Serves env share path name content
    → length content < file_size
    → (fuel : ℕ) (s : State)
    → (copy_chunks env chunk_size share path name file_size fuel 0 s).0 ≡ return none
copy_chunks-endless env share path name chunk_size content file_size chunked serves longer fuel s =
    endless env share path name chunk_size chunked serves file_size fuel s [] content refl longer
