-- ===== src/Listener/Owned/Creates.antt =====
-- mssql/test/ag_listener/main.py: a create yields the id of a new row, whose insertion
-- was committed.
use dockerize_and_ansible.Base.{
  String, ◌≡◌, refl, ◌∙◌, sym, false, List, [], ◌∷◌, ◌++◌, All, contains, ◌==◌, string_eq, arith,
  Bool-cases, inl, inr,
}
use mathlib.Core.Path.{subst}
use dockerize_and_ansible.Base.Effect.{Outcome, return, raise}
use dockerize_and_ansible.Base.Effect.Ensures.{
  Post, Ensures, Ensures-pure, Ensures-throw, Ensures-Keeps, Ensures-try_except, Ensures-bind,
}
use dockerize_and_ansible.Listener.{
  Event, History, State, Env, execute, insert, commit, close_cursor, ask, draw, new_uuid,
}
use dockerize_and_ansible.Listener.Keeps.{IsStable, ask-Keeps}
use dockerize_and_ansible.Listener.Client.{run, with_cursor, do_create}
use dockerize_and_ansible.Listener.Rows.{
  inserted, deleted, Committed, now, Committed-inserted, Live, inserted-then, deleted-then,
  Proper-deleted,
}
use dockerize_and_ansible.Listener.Owned.{Owned, IsFresh, Owned-IsStable, Live-own, sends_insert}

-- What a call leads to, where its answer is a value and where it raises.
answered_Post :
    {A : Type 0} (E : State → Type 0) (Q : A → State → Type 0) (o : Outcome A) (s : State)
    → ((a : A) → o ≡ return a → Q a s)
    → E s
    → Post Q E o s
answered_Post E Q (return a) s answered failed = answered a refl
answered_Post E Q (raise e) s answered failed = failed

abbrev then_called : State → Event → State
then_called s e = record s { trace = s.trace ++ e ∷ [] }

asks :
    {A : Type 0} {P E : State → Type 0} {Q : A → State → Type 0} (e : Event)
    (answer : History → Outcome A)
    → ((s : State) (a : A) → P s → answer s.trace ≡ return a → Q a (then_called s e))
    → ((s : State) → P s → E (then_called s e))
    → Ensures P (ask e answer) Q E
unfolding ask
asks {E = E} {Q = Q} e answer answered failed = record {
  at = λ s h.
      answered_Post E Q (answer s.trace) (then_called s e) (λ a. answered s a h) (failed s h);
}

module _ (env : Env) where
  -- A live row that is not held.
  abbrev pub NewRow : String → State → Type 0
  NewRow id s = Owned env s × Live env s.trace id × (contains s.last_ids id ≡ false)

  NewRow-IsStable : (id : String) → IsStable (NewRow id)
  NewRow-IsStable id = record {
    calls = λ s e own h. ((Owned-IsStable env).calls s e own h.0, Live-own env id s e own h.1, h.2);
    conns = λ s b h. ((Owned-IsStable env).conns s b h.0, h.1, h.2);
  }

  -- A row that was not sent for insertion is not held.
  not_held :
      (id : String) (h : History) (ids : List String)
      → All (Live env h) ids
      → inserted id h ≡ false
      → contains ids id ≡ false
  not_held id h [] live new = refl
  not_held id h (x ∷ ids) live new = elim (Bool-cases (id == x)) [
    | inl same ↦ absurd (ground (arith, same, new, Committed-inserted env x h live.0.0))
    | inr differ ↦ ground (arith, differ, not_held id h ids live.1 new)
  ]

  -- The last call inserted the row, and returned.
  record Inserted (id : String) (s : State) : Type 0 where
    owned : Owned env s
    undeleted : deleted id s.trace ≡ false
    absent : contains s.last_ids id ≡ false
    earlier : History
    last_call : s.trace ≡ earlier ++ execute (insert id) ∷ []
    returned : env.execute (insert id) earlier ≡ return tt

  inserts :
      (id : String) (s : State)
      → Owned env s × (inserted id s.trace ≡ false)
      → env.execute (insert id) s.trace ≡ return tt
      → Inserted id (then_called s (execute (insert id)))
  inserts id s (h, new) returned = record {
    owned = sends_insert env id s new h;
    undeleted =
        deleted-then id s.trace (execute (insert id))
        ∙ ground (arith, Proper-deleted env id s.trace h.proper new);
    absent = not_held id s.trace s.last_ids h.live new;
    earlier = s.trace;
    last_call = refl;
    returned = returned;
  }

  commits :
      (id : String) (s : State)
      → Inserted id s
      → env.commit s.trace ≡ return tt
      → NewRow id (then_called s commit)
  commits id s h kept =
      let at_last : env.commit (h.earlier ++ execute (insert id) ∷ []) ≡ return tt =
        subst (λ t. env.commit t ≡ return tt) h.last_call kept in
      (
        (Owned-IsStable env).calls s commit tt h.owned,
        (
          subst (λ t. Committed env id (t ++ commit ∷ [])) (sym h.last_call)
              (now h.earlier h.returned at_last),
          deleted-then id s.trace commit ∙ ground (arith, h.undeleted),
        ),
        h.absent,
      )

  module _ (fresh : IsFresh env) where
    Fresh : String → State → Type 0
    Fresh id s = Owned env s × (inserted id s.trace ≡ false)

    draws_new : Ensures (Owned env) (draw new_uuid env.uuid) Fresh (Owned env)
    unfolding draw ask Fresh
    draws_new = record {
      at = λ s h. (
        (Owned-IsStable env).calls s new_uuid tt h,
        ground (arith, inserted-then (env.uuid s.trace) s.trace new_uuid, fresh.fresh s.trace),
      );
    }

    -- Where the statement raises, its row is not claimed.
    inserts_new :
        (id : String) → Ensures (Fresh id) (run env (insert id)) (λ a. Inserted id) (Owned env)
    unfolding run Fresh
    inserts_new id =
        asks _ _ (λ s a h returned. inserts id s h returned) (λ s h. sends_insert env id s h.1 h.0)

    commits_new :
        (id : String) → Ensures (Inserted id) (ask commit env.commit) (λ a. NewRow id) (Owned env)
    commits_new id =
        asks _ _ (λ s a h kept. commits id s h kept)
          (λ s h. (Owned-IsStable env).calls s commit tt h.owned)

    closes_new :
        (id : String)
        → Ensures (NewRow id) (ask close_cursor env.close_cursor) (λ a. NewRow id) (Owned env)
    closes_new id =
        asks _ _ (λ s a h closed. (NewRow-IsStable id).calls s close_cursor tt h)
          (λ s h. (Owned-IsStable env).calls s close_cursor tt h.0)

    pub creates_new : Ensures (Owned env) (do_create env) NewRow (Owned env)
    unfolding do_create with_cursor
    creates_new = Ensures-bind _ _ (Ensures-Keeps _ (ask-Keeps (Owned-IsStable env) _ _ tt)) (λ _.
        Ensures-bind _ _
          (Ensures-try_except _ _
            (Ensures-bind _ _ draws_new (λ id.
              Ensures-bind _ _ (inserts_new id)
                (λ _. Ensures-bind _ _ (commits_new id) (λ _. Ensures-pure id (λ s h. h)))))
            (λ e.
              Ensures-bind _ _ (Ensures-Keeps _ (ask-Keeps (Owned-IsStable env) _ _ tt))
                (λ _. Ensures-throw e (λ s h. h))))
          (λ id. Ensures-bind _ _ (closes_new id) (λ _. Ensures-pure id (λ s h. h))))
