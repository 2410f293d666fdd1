-- ===== src/Samba/Fetches.antt =====
-- samba/test/src/main2.py: a whole run of the script.
use dockerize_and_ansible.Base.{
  ℕ, suc, String, ◌≡◌, ◌∙◌, ap, true, some, List, [], ◌∷◌, ◌++◌, length, arith,
}
use dockerize_and_ansible.Base.Effect.{Outcome, return, ◌>>=◌, bind-of_return, try_except-of_return}
use dockerize_and_ansible.Samba
use dockerize_and_ansible.Samba.{
  Value, text, Entry, Config, Event, State, Env, History, ask, file_list, join, to_slashes,
  default_chunk_size,
}
use dockerize_and_ansible.Samba.Script.{chosen, download_from, download_file_optimized, main}
use dockerize_and_ansible.Samba.Chunks.{Serves, Fetched, download_file_optimized-Serves}

-- The configuration, a server that accepts its login, and the files that it lists.
pub record Ready (env : Env) (config : Config) (first : String) (more : List String) : Type 0 where
  pub configured : (h : History) → env.load_config h ≡ return config
  pub accepts : (h : History) → env.connect config.login h ≡ return true
  pub entries : List Entry
  pub lists : (h : History) → env.list_path config.share_name config.remote_path h ≡ return entries
  pub visible : file_list entries ≡ first ∷ more

abbrev after : State → Event → State
after s e = record s { trace = s.trace ++ e ∷ [] }

asked :
    {A : Type 0} (e : Event) (answer : History → Outcome A) (s : State) {a : A}
    → answer s.trace ≡ return a
    → ask e answer s ≡ (return a, after s e)
unfolding ask
asked e answer s answered = ap (λ o. (o, after s e)) answered

from_first :
    (env : Env) (config : Config) (first : String) (more : List String) (remote_path name : String)
    (content : List ℕ) (t t' : State)
    → config.remote_path ≡ text remote_path
    → chosen config.file_name first ≡ text name
    → download_file_optimized env
        (suc (length content))
        default_chunk_size
        config.share_name
        (text remote_path)
        name
        t
      ≡ (return (some tt), t')
    → download_from env (suc (length content)) config (first ∷ more) t ≡ (return (some tt), t')
unfolding ◌>>=◌
from_first env config first more remote_path name content t t' placed named ran =
    rw (named, placed) ran

-- A run of the script against a server that accepts its login and lists some visible file fetches
-- the whole file that is configured or else the first one listed, if the server serves it, however
-- short its reads are: it returns, the local file then holds the bytes of that file, and all other
-- local files are as before. One round of fuel more than the file has bytes is enough.
pub main-Serves :
    (env : Env) (config : Config) (first : String) (more : List String) (remote_path name : String)
    (content : List ℕ) (s : State)
    → Ready env config first more
    → config.remote_path ≡ text remote_path
    → chosen config.file_name first ≡ text name
    → ((h : History)
        → env.file_size config.share_name (to_slashes (join remote_path name)) h
          ≡ return (length content))
    → Serves env config.share_name (to_slashes (join remote_path name)) name content
    → (s' : State) × (main env (suc (length content)) s ≡ (return (some tt), s'))
      × Fetched name content s s'
unfolding main
main-Serves env config first more remote_path name content s ready placed named sized serves =
    let s1 = after s Samba.load_config in
    let s2 = after s1 (Samba.connect config.login) in
    let s3 = after s2 (Samba.list_path config.share_name config.remote_path) in
    let (s', ran, fetched) =
      download_file_optimized-Serves env config.share_name remote_path name default_chunk_size
        content (omega arith) sized serves s3 in
    (
      s',
      bind-of_return (ask Samba.load_config env.load_config) _
            (asked _ _ s (ready.configured s.trace))
          ∙ bind-of_return (ask (Samba.connect config.login) (env.connect config.login)) _
              (asked _ _ s1 (ready.accepts s1.trace))
          ∙ try_except-of_return _ _ (
              bind-of_return
                (ask (Samba.list_path config.share_name config.remote_path)
                  (env.list_path config.share_name config.remote_path))
                _ (asked _ _ s2 (ready.lists s2.trace))
              ∙ rw ready.visible (
                  from_first env config first more remote_path name content s3 s' placed named
                    ran)),
      record { whole = fetched.whole; others = fetched.others },
    )
