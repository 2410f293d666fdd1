-- ===== src/Samba/Answers.antt =====
-- samba/test/src/main.py: what the connection route answers, and that it closes what it opened.
use dockerize_and_ansible.Base.{
  ℕ, String, ◌≡◌, refl, ◌∙◌, ap, inl, inr, Bool, true, false, Option, some, List, [], ◌∷◌, ◌++◌,
  append_assoc, All, string_eq,
}
use dockerize_and_ansible.Base.Dict
use dockerize_and_ansible.Base.Effect.{
  Outcome, return, raise, pure, try_except, bind-of_return, ◌>>=◌, Outcome-cases,
}
use dockerize_and_ansible.Samba.{
  Value, text, number, Login, Entry, Event, State, Env, History, ask, file_list, connect, list_path,
  close,
}
use dockerize_and_ansible.Samba.Checks.{
  Data, connection_failed, connection_successful, Response, respond, field,
}
use dockerize_and_ansible.Samba.Server.{
  connect_to_smb, login_of, list_smb_files, connect_smb, connect_fields,
}
use dockerize_and_ansible.Samba.Requests.{Accepted}
use Prim.Native.Char.{Char}

-- `list_smb_files`, by how the call went.
abbrev pub listed_or_none : Outcome (List Entry) → List String
listed_or_none (return entries) = file_list entries
listed_or_none (raise e) = []

abbrev is_reached : Outcome Bool → Bool
is_reached (return accepted) = true
is_reached (raise e) = false

-- By the outcome of `connect` and of the listing. Whether the server accepted the login, which is
-- what `connect` returns, makes no difference.
abbrev pub answer_to : Outcome Bool → Outcome (List Entry) → Response
answer_to (raise e) listed = respond 500 connection_failed
answer_to (return accepted) listed = respond 200 (connection_successful (listed_or_none listed))

abbrev pub calls_for : Login → Value → Outcome Bool → List Event
calls_for login share (raise e) = connect login ∷ []
calls_for login share (return accepted) = connect login ∷ list_path share (text "/") ∷ close ∷ []

field_found :
    {digit : Char → Option ℕ} {values : Data} {name : String} (a : Accepted digit values name)
    (s : State)
    → field values name s ≡ (return a.value, s)
unfolding field pure
field_found {values = values} {name = name} a s = rw (a.found, field) refl

module _ {digit : Char → Option ℕ} {values : Data}
    (all : All (Accepted digit values) connect_fields) where
  abbrev pub login_in : Login
  login_in = record {
    username = all.0.value;
    password = all.1.0.value;
    my_name = all.1.1.0.value;
    remote_name = all.1.1.1.0.value;
    remote_ip = all.1.1.1.1.0.value;
    port = some (Dict.get_or values "port" (number 139));
  }

  abbrev pub share_in : Value
  share_in = all.1.1.1.1.1.0.value

  login_of-all : (s : State) → login_of values s ≡ (return login_in, s)
  unfolding login_of pure
  login_of-all s =
      bind-of_return (field values "username") _ (field_found all.0 s)
      ∙ bind-of_return (field values "password") _ (field_found all.1.0 s)
      ∙ bind-of_return (field values "my_name") _ (field_found all.1.1.0 s)
      ∙ bind-of_return (field values "remote_name") _ (field_found all.1.1.1.0 s)
      ∙ bind-of_return (field values "remote_ip") _ (field_found all.1.1.1.1.0 s)

abbrev after : State → Event → State
after s e = record s { trace = s.trace ++ e ∷ [] }

module _ (env : Env) where
  connect_reached :
      (login : Login) (s : State) (o : Outcome Bool)
      → env.connect login s.trace ≡ o
      → connect_to_smb env login s ≡ (return (is_reached o), after s (connect login))
  unfolding connect_to_smb try_except ask pure ◌>>=◌
  connect_reached login s (return accepted) e = rw (e, connect_to_smb) refl
  connect_reached login s (raise x) e = rw (e, connect_to_smb) refl

  list_listed :
      (share : Value) (s : State) (o : Outcome (List Entry))
      → env.list_path share (text "/") s.trace ≡ o
      → list_smb_files env share s
        ≡ (return (listed_or_none o), after s (list_path share (text "/")))
  unfolding list_smb_files try_except ask pure ◌>>=◌
  list_listed share s (return entries) e = rw (e, list_smb_files) refl
  list_listed share s (raise x) e = rw (e, list_smb_files) refl

-- A request that has what it needs is answered by how connecting and listing went: with the code
-- 500 if connecting raises, and otherwise, also if the server refused the login, with the code 200
-- and the visible files, or none if listing raises. If closing works, a connection that was opened
-- is closed at the end, and nothing else is called.
pub connect_smb-answers :
    (env : Env) (digit : Char → Option ℕ) (values : Data) (s : State)
    → (all : All (Accepted digit values) connect_fields) → ((h : History) → env.close h ≡ return tt)
    → let login = login_in all in
      let reached = env.connect login s.trace in
      connect_smb env values s ≡ (
        return (
            answer_to reached
              (env.list_path (share_in all) (text "/") (s.trace ++ connect login ∷ []))),
        record s { trace = s.trace ++ calls_for login (share_in all) reached },
      )
unfolding connect_smb ask pure ◌>>=◌
connect_smb-answers env digit values s all closes =
    let login = login_in all in
    let share = share_in all in
    let opened = after s (connect login) in
    let listed = env.list_path share (text "/") opened.trace in
    elim (Outcome-cases (env.connect login s.trace)) [
      | inr (e, failed) ↦
          rw (connect_smb, login_of-all all s, failed)
            (bind-of_return (connect_to_smb env login) _
              (connect_reached env login s (raise e) failed))
      | inl (accepted, reached) ↦
          rw (connect_smb, login_of-all all s, reached)
            (bind-of_return (connect_to_smb env login) _
                (connect_reached env login s (return accepted) reached)
              ∙ bind-of_return (field values "share_name") _ (field_found all.1.1.1.1.1.0 opened)
              ∙ bind-of_return (list_smb_files env share) _
                  (list_listed env share opened listed refl)
              ∙ rw (closes (after opened (list_path share (text "/"))).trace, ask)
                  (ap
                    (λ calls. (
                      return (respond 200 (connection_successful (listed_or_none listed))),
                      record s { trace = calls },
                    ))
                    (append_assoc (s.trace ++ connect login ∷ []) (list_path share (text "/") ∷ [])
                        (close ∷ [])
                      ∙ append_assoc s.trace (connect login ∷ [])
                          (list_path share (text "/") ∷ close ∷ []))))
    ]
