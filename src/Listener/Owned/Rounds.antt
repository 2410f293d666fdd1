-- ===== src/Listener/Owned/Rounds.antt =====
-- mssql/test/ag_listener/main.py: every round of a worker keeps to its own rows.
use dockerize_and_ansible.Base.{
  ℕ, String, ◌≡◌, refl, false, Option, none, some, List, [], string_eq, Bool-cases, inl, inr,
}
use mathlib.Core.Path.{subst}
use dockerize_and_ansible.Base.Text.{is_nonempty}
use dockerize_and_ansible.Base.Effect.{M, pure, gets, ◌>>=◌}
use dockerize_and_ansible.Base.Effect.Keeps.{Keeps}
use dockerize_and_ansible.Base.Effect.Ensures.{
  Ensures, Ensures-pure, Ensures-gets, Ensures-if, Ensures-Keeps, Keeps-Ensures, Ensures-weaken,
  Ensures-bind,
}
use dockerize_and_ansible.Listener.{
  Op, create, read, update_one, delete_one, State, Env, random_choice, draw, ask, put_ids,
}
use dockerize_and_ansible.Listener.Keeps.{
  IsStable, Allows, run_with_retry-Keeps, do_read-Keeps, do_update-Keeps, do_delete-Keeps,
}
use dockerize_and_ansible.Listener.Rounds.{worker_main-Keeps}
use dockerize_and_ansible.Listener.Results.{AtEnd, run_with_retry-Ensures}
use dockerize_and_ansible.Listener.Client.{do_create, do_read, select_for}
use dockerize_and_ansible.Listener.Worker.{
  max_retries, without_item, item, is_empty, done, run, draw_index, note_id, create_row, read_row,
  on_item, update_row, delete_row, perform, worker_main,
}
use dockerize_and_ansible.Listener.Rows.{start}
use dockerize_and_ansible.Listener.Owned.{
  Owned, IsFresh, Owned-IsStable, Owned-sleep, Focused, Focused-IsStable, Dropped, Dropped-IsStable,
  updates-Allows, selects-Allows, any-Allows, Focused-any, deletes-Allows,
}
use dockerize_and_ansible.Listener.Owned.Creates.{NewRow, creates_new}
use dockerize_and_ansible.Listener.Owned.Ids.{item-Live, item-dropped, notes, pops}

put-Ensures :
    {P : State → Type 0} {Q : Unit {0} → State → Type 0} {E : State → Type 0} (ids : List String)
    → ((s : State) → P s → Q tt (record s { last_ids = ids }))
    → Ensures P (put_ids ids) Q E
unfolding put_ids
put-Ensures ids h = record { at = h }

module _ (env : Env) (fuel : ℕ) where
  note-Ensures :
      (cid : Option String)
      → Ensures
          (AtEnd (Owned env) (NewRow env) cid)
          (note_id env fuel cid)
          (λ o. Owned env)
          (Owned env)
  unfolding note_id
  note-Ensures none = Ensures-pure none (λ s h. h)
  note-Ensures (some id) =
      Ensures-if (is_nonempty id) _ _
        (λ _.
          Ensures-bind {R = λ ids s. NewRow env id s × (ids ≡ s.last_ids)} _ _
            (Ensures-gets (λ s. s.last_ids) (λ s h. (h, refl)))
            (λ ids.
              Ensures-bind _ _
                (put-Ensures {Q = λ _. (Owned env)} _ (λ s h. rw h.1 (notes env id s h.0)))
                (λ _. Ensures-pure (some tt) (λ s h. h))))
        (λ _. Ensures-pure (some tt) (λ s h. h.0))

  Keeps-run :
      {A : Type 0} {P : State → Type 0} (fn : M State A)
      → IsStable P
      → Keeps P fn
      → Keeps P (run env fuel fn)
  Keeps-run fn stable k = run_with_retry-Keeps stable env fn k max_retries fuel

  -- A run of an operation on a row of which more is known, after which just the invariant is
  -- claimed.
  on_row :
      {A : Type 0} {P : State → Type 0} (fn : M State A)
      → IsStable P
      → Keeps P fn
      → ((s : State) → P s → Owned env s)
      → Ensures P (do r ← run env fuel fn; pure (done r)) (λ o. Owned env) (Owned env)
  on_row fn stable k owned =
      Ensures-bind _ _
        (Ensures-weaken _ (Ensures-Keeps _ (Keeps-run fn stable k)) (λ a. owned) owned)
        (λ r. Ensures-pure (done r) (λ s h. h))

  on_item-Ensures :
      {P : String → State → Type 0} {R : State → Type 0}
      (body : String → M State (Option (Unit {0}))) (o : Option String)
      → ((id : String) → Ensures (P id) (body id) (λ a. Owned env) (Owned env))
      → ((s : State) → R s → Owned env s)
      → ((id : String) (s : State) → o ≡ some id → R s → P id s)
      → Ensures R (on_item env fuel body o) (λ a. Owned env) (Owned env)
  unfolding on_item
  on_item-Ensures body none each owned given = Ensures-pure (some tt) owned
  on_item-Ensures body (some id) each owned given = record {
    at = λ s r. (each id).at s (given id s refl r);
  }

  select_for-Allows : (id : String) → Allows (Focused env id) (select_for env (some id))
  select_for-Allows id = elim (Bool-cases (is_nonempty id)) [
    | inl named ↦ rw named (selects-Allows env id)
    | inr unnamed ↦ rw unnamed (Focused-any env id)
  ]

  reads_row :
      (sid : Option String)
      → Ensures
          (AtEnd (Owned env) (Focused env) sid)
          (do row ← run env fuel (do_read env sid); pure (done row))
          (λ o. Owned env)
          (Owned env)
  reads_row none =
      on_row _ (Owned-IsStable env) (do_read-Keeps (Owned-IsStable env) env none (any-Allows env))
        (λ s h. h)
  reads_row (some id) =
      on_row _ (Focused-IsStable env id)
        (do_read-Keeps (Focused-IsStable env id) env (some id) (select_for-Allows id)) (λ s h. h.0)

  -- The ids that were read from the state are still there.
  Held : List String → State → Type 0
  Held ids s = Owned env s × (ids ≡ s.last_ids)

  looks : Ensures (Owned env) (gets (λ (s : State). s.last_ids)) Held (Owned env)
  unfolding Held
  looks = Ensures-gets (λ s. s.last_ids) (λ s h. (h, refl))

  draws_index :
      (ids : List String) → Ensures (Held ids) (draw_index env fuel ids) (λ i. Held ids) (Owned env)
  unfolding Held draw ask
  draws_index ids = record { at = λ s h. ((Owned-IsStable env).calls s random_choice tt h.0, h.1) }

  draws_coin :
      (ids : List String)
      → Ensures (Held ids) (draw random_choice env.use_known_id) (λ known. Held ids) (Owned env)
  unfolding Held draw ask
  draws_coin ids = record { at = λ s h. ((Owned-IsStable env).calls s random_choice tt h.0, h.1) }

  held_Owned : (ids : List String) (s : State) → Held ids s → Owned env s
  unfolding Held
  held_Owned ids s h = h.0

  focuses :
      (ids : List String) (i : ℕ) (id : String) (s : State)
      → item ids i ≡ some id
      → Held ids s
      → Focused env id s
  unfolding Held
  focuses ids i id s e (h, now) =
      (h, item-Live env s.trace s.last_ids i id h.live (subst (λ l. item l i ≡ some id) now e))

  picks :
      (ids : List String) (i : ℕ) (o : Option String) (s : State)
      → item ids i ≡ o
      → Held ids s
      → AtEnd (Owned env) (Focused env) o s
  picks ids i none s e h = held_Owned ids s h
  picks ids i (some id) s e h = focuses ids i id s e h

  updates : Ensures (Owned env) (update_row env fuel) (λ o. Owned env) (Owned env)
  unfolding update_row
  updates = Ensures-bind _ _ looks (λ ids.
      Ensures-if (is_empty ids) (pure (some tt)) _ (λ _. Ensures-pure (some tt) (held_Owned ids))
        (λ _. Ensures-bind _ _ (draws_index ids) (λ i.
          on_item-Ensures {P = (Focused env)} _ (item ids i)
            (λ id.
              on_row _ (Focused-IsStable env id)
                (do_update-Keeps (Focused-IsStable env id) env id (updates-Allows env id))
                (λ s h. h.0))
            (held_Owned ids) (λ id s e h. focuses ids i id s e h))))

  -- What was taken from the list, if it was there.
  Popped : List String → ℕ → State → Type 0
  Popped ids i s = Owned env s × ((id : String) → item ids i ≡ some id → Dropped env id s)

  takes :
      (ids : List String) (i : ℕ)
      → Ensures (Held ids) (put_ids (without_item ids i)) (λ a. Popped ids i) (Owned env)
  unfolding Held Popped
  takes ids i = put-Ensures _ (λ s h.
      let owned : Owned env (record s { last_ids = without_item ids i }) =
        rw h.1 (pops env i s h.0) in
      (
        owned,
        λ id e.
            (owned, (focuses ids i id s e h).1.0, item-dropped ids i id (rw h.1 h.0.distinct) e),
      ))

  deletes : Ensures (Owned env) (delete_row env fuel) (λ o. Owned env) (Owned env)
  unfolding delete_row Popped
  deletes = Ensures-bind _ _ looks (λ ids.
      Ensures-if (is_empty ids) (pure (some tt)) _ (λ _. Ensures-pure (some tt) (held_Owned ids))
        (λ _. Ensures-bind _ _ (draws_index ids) (λ i. Ensures-bind _ _ (takes ids i) (λ _.
          on_item-Ensures {P = (Dropped env)} _ (item ids i)
            (λ id.
              on_row _ (Dropped-IsStable env id)
                (do_delete-Keeps (Dropped-IsStable env id) env id (deletes-Allows env id))
                (λ s h. h.0))
            (λ s h. h.0) (λ id s e h. h.1 id e)))))

  reads : Ensures (Owned env) (read_row env fuel) (λ o. Owned env) (Owned env)
  unfolding read_row
  reads = Ensures-bind _ _ looks (λ ids.
      Ensures-bind {R = λ known. Held ids} _ _
        (Ensures-if (is_empty ids) (pure false) (draw random_choice env.use_known_id)
          (λ _. Ensures-pure false (λ s h. h)) (λ _. draws_coin ids))
        (λ known.
          Ensures-bind {R = AtEnd (Owned env) (Focused env)} _ _
            (Ensures-if known (do i ← draw_index env fuel ids; pure (item ids i)) (pure none)
              (λ _.
                Ensures-bind _ _ (draws_index ids)
                  (λ i. Ensures-pure (item ids i) (λ s h. picks ids i (item ids i) s refl h)))
              (λ _. Ensures-pure none (held_Owned ids)))
            reads_row))

  module _ (fresh : IsFresh env) where
    creates : Ensures (Owned env) (create_row env fuel) (λ o. Owned env) (Owned env)
    unfolding create_row
    creates =
        Ensures-bind _ _
          (run_with_retry-Ensures (Owned-IsStable env) env (do_create env) (creates_new env fresh)
            max_retries fuel)
          note-Ensures

    performs : (op : Op) → Keeps (Owned env) (perform env fuel op)
    unfolding perform
    performs create = Keeps-Ensures _ creates
    performs read = Keeps-Ensures _ reads
    performs update_one = Keeps-Ensures _ updates
    performs delete_one = Keeps-Ensures _ deletes

-- A worker that starts with no ids and no calls, whose generator never draws an id twice, keeps to
-- its own rows in any number of rounds, whatever the server answers and however often an operation
-- is repeated. In the order of the calls, no id is sent for insertion a second time; a row is read by
-- its id or updated only after its INSERT and the commit that follows it both returned, and before
-- any statement that deletes it was sent; and a row is deleted only after its INSERT and that commit
-- returned. And the ids that the worker holds at the end are those of different rows whose INSERT and
-- commit returned and for which no deletion was sent.
pub worker_main-Owned :
    (env : Env) (fuel rounds : ℕ) (s : State)
    → IsFresh env
    → s.trace ≡ []
    → s.last_ids ≡ []
    → Owned env (worker_main env fuel rounds s).1
worker_main-Owned env fuel rounds s fresh no_calls no_ids =
    (worker_main-Keeps (Owned-IsStable env) env fuel (performs env fuel fresh) (Owned-sleep env)
        rounds).at
      s (record { proper = rw no_calls start; live = rw no_ids tt; distinct = rw no_ids tt })
