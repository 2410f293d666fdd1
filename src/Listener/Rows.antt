-- ===== src/Listener/Rows.antt =====
-- mssql/test/ag_listener/main.py: which rows a worker has inserted for good, and not deleted.
use dockerize_and_ansible.Base.{
  String, ◌≡◌, refl, ◌∙◌, Bool, true, false, ◌||◌, [], ◌∷◌, ◌++◌, any, ◌==◌, ==_refl, string_eq,
  arith, ◌⊎◌, inl, inr, Bool-cases,
}
use mathlib.Core.Path.{subst}
use dockerize_and_ansible.Base.Effect.{return}
use dockerize_and_ansible.Listener.{
  Env, Event, History, select_1, select_any, insert, select, update, delete, connect, close_conn,
  open_cursor, close_cursor, fetchone, commit, new_uuid, random_choice, execute, sleep,
}
use dockerize_and_ansible.Listener.Keeps.{IsOwn}

abbrev pub is_insert : String → Event → Bool
is_insert id (execute (insert row)) = id == row
is_insert id _ = false

abbrev pub is_delete : String → Event → Bool
is_delete id (execute (delete row)) = id == row
is_delete id _ = false

unfoldable pub inserted : String → History → Bool
inserted id h = any (is_insert id) h

unfoldable pub deleted : String → History → Bool
deleted id h = any (is_delete id) h

-- The statement that inserts a row returned, and so did the commit that was called next.
pub data Committed (env : Env) (id : String) : History → Type 0 where
  now :
      (h : History)
      → env.execute (insert id) h ≡ return tt
      → env.commit (h ++ execute (insert id) ∷ []) ≡ return tt
      → Committed env id ((h ++ execute (insert id) ∷ []) ++ commit ∷ [])
  before : {h : History} (e : Event) → Committed env id h → Committed env id (h ++ e ∷ [])

-- A row whose insertion was committed, and for which no statement that deletes it was sent.
abbrev pub Live : Env → History → String → Type 0
Live env h id = Committed env id h × (deleted id h ≡ false)

-- An id is sent for insertion once; only live rows are read by their id or updated; only rows whose
-- insertion was committed are deleted.
abbrev pub Allowed : Env → History → Event → Type 0
Allowed env h (execute (insert id)) = inserted id h ≡ false
Allowed env h (execute (select id)) = Live env h id
Allowed env h (execute (update id)) = Live env h id
Allowed env h (execute (delete id)) = Committed env id h
Allowed env h _ = Unit

pub data Proper (env : Env) : History → Type 0 where
  start : Proper env []
  next : {h : History} (e : Event) → Proper env h → Allowed env h e → Proper env (h ++ e ∷ [])

any-append : (p : Event → Bool) (h g : History) → any p (h ++ g) ≡ (any p h || any p g)
any-append p [] g = refl
any-append p (e ∷ h) g = ground (arith, any-append p h g)

pub inserted-then :
    (id : String) (h : History) (e : Event)
    → inserted id (h ++ e ∷ []) ≡ (inserted id h || is_insert id e)
unfolding inserted
inserted-then id h e = ground (arith, any-append (is_insert id) h (e ∷ []))

pub deleted-then :
    (id : String) (h : History) (e : Event)
    → deleted id (h ++ e ∷ []) ≡ (deleted id h || is_delete id e)
unfolding deleted
deleted-then id h e = ground (arith, any-append (is_delete id) h (e ∷ []))

pub Committed-inserted :
    (env : Env) (id : String) (h : History) → Committed env id h → inserted id h ≡ true
Committed-inserted env id _ (now h returned kept) =
    inserted-then id (h ++ execute (insert id) ∷ []) commit
    ∙ ground (arith, inserted-then id h (execute (insert id)), ==_refl id)
Committed-inserted env id _ (before {h} e c) =
    ground (arith, inserted-then id h e, Committed-inserted env id h c)

-- A call that deletes nothing keeps rows live.
pub Live-then :
    (env : Env) (id : String) (h : History) (e : Event)
    → is_delete id e ≡ false
    → Live env h id
    → Live env (h ++ e ∷ []) id
Live-then env id h e quiet (is_in, is_out) =
    (before e is_in, ground (arith, deleted-then id h e, quiet, is_out))

pub own_Allowed : (env : Env) (h : History) (e : Event) → IsOwn e → Allowed env h e
own_Allowed env h (sleep seconds) own = tt
own_Allowed env h connect own = tt
own_Allowed env h close_conn own = tt
own_Allowed env h open_cursor own = tt
own_Allowed env h close_cursor own = tt
own_Allowed env h fetchone own = tt
own_Allowed env h commit own = tt
own_Allowed env h new_uuid own = tt
own_Allowed env h random_choice own = tt
own_Allowed env h (execute select_1) own = tt
own_Allowed env h (execute select_any) own = absurd own
own_Allowed env h (execute (insert id)) own = absurd own
own_Allowed env h (execute (select id)) own = absurd own
own_Allowed env h (execute (update id)) own = absurd own
own_Allowed env h (execute (delete id)) own = absurd own

-- A call deletes no row, or it is the statement that deletes one.
Event-cases :
    (e : Event)
    → ((id : String) → is_delete id e ≡ false) ⊎ ((row : String) × (e ≡ execute (delete row)))
Event-cases (sleep seconds) = inl (λ id. refl)
Event-cases connect = inl (λ id. refl)
Event-cases close_conn = inl (λ id. refl)
Event-cases open_cursor = inl (λ id. refl)
Event-cases close_cursor = inl (λ id. refl)
Event-cases fetchone = inl (λ id. refl)
Event-cases commit = inl (λ id. refl)
Event-cases new_uuid = inl (λ id. refl)
Event-cases random_choice = inl (λ id. refl)
Event-cases (execute select_1) = inl (λ id. refl)
Event-cases (execute select_any) = inl (λ id. refl)
Event-cases (execute (insert row)) = inl (λ id. refl)
Event-cases (execute (select row)) = inl (λ id. refl)
Event-cases (execute (update row)) = inl (λ id. refl)
Event-cases (execute (delete row)) = inr (row, refl)

pub own_is_delete : (id : String) (e : Event) → IsOwn e → is_delete id e ≡ false
own_is_delete id e own = elim (Event-cases e) [
  | inl quiet ↦ quiet id
  | inr (row, is) ↦ absurd (subst IsOwn is own)
]

other_row :
    (id row : String) (h : History)
    → inserted row h ≡ true
    → inserted id h ≡ false
    → (id == row) ≡ false
other_row id row h there new = elim (Bool-cases (id == row)) [
  | inr differ ↦ differ
  | inl same ↦ absurd (ground (arith, same))
]

Allowed-deletes :
    (env : Env) (id : String) (h : History) (e : Event)
    → Allowed env h e
    → inserted id h ≡ false
    → is_delete id e ≡ false
Allowed-deletes env id h e ok new = elim (Event-cases e) [
  | inl quiet ↦ quiet id
  | inr (row, is) ↦
      rw is (other_row id row h (Committed-inserted env row h (subst (Allowed env h) is ok)) new)
]

-- A row that was not sent for insertion was not deleted either.
pub Proper-deleted :
    (env : Env) (id : String) (h : History)
    → Proper env h
    → inserted id h ≡ false
    → deleted id h ≡ false
unfolding deleted
Proper-deleted env id _ start new = refl
Proper-deleted env id _ (next {h} e p ok) new =
    let absent : inserted id h ≡ false = ground (arith, inserted-then id h e) in
    deleted-then id h e
    ∙ ground (arith, Proper-deleted env id h p absent, Allowed-deletes env id h e ok absent)
