-- ===== src/Listener/Rounds.antt =====
-- mssql/test/ag_listener/main.py: what the rounds of a worker keep, for any invariant of its calls
-- and of the ids that it holds.
use dockerize_and_ansible.Base.{ℕ, zero, suc, String, Option, none, some, List, [], ◌∷◌, ◌++◌}
use dockerize_and_ansible.Base.Effect.{M, gets, ◌>>=◌}
use dockerize_and_ansible.Base.Effect.Keeps.{Keeps, Keeps-pure, Keeps-if, Keeps-bind, keeps_rules}
use dockerize_and_ansible.Listener.{
  sleep, Statement, Op, create, read, update_one, delete_one, State, Env, ask, draw, put_ids,
  sleep_for,
}
use dockerize_and_ansible.Listener.Keeps.{
  IsStable, Allows, draw-Keeps, run_with_retry-Keeps, do_create-Keeps, do_read-Keeps,
  do_update-Keeps, do_delete-Keeps,
}
use dockerize_and_ansible.Listener.Worker.{
  last_500, without_item, run, draw_index, note_id, create_row, read_row, on_item, update_row,
  delete_row, perform, then_wait, worker_round, next_round, worker_main,
}

-- An invariant that says of the ids that they are `Good`, and else leaves them open.
pub record HoldsIds (P : State → Type 0) (Good : List String → Type 0) : Type 0 where
  pub stable : IsStable P
  pub allows : (q : Statement) → Allows P q
  pub reads : (s : State) → P s → Good s.last_ids
  pub writes : (s : State) (ids : List String) → Good ids → P s → P (record s { last_ids = ids })
  pub notes : (ids : List String) (cid : String) → Good ids → Good (last_500 (ids ++ cid ∷ []))
  pub pops : (ids : List String) (i : ℕ) → Good ids → Good (without_item ids i)

module _ {P : State → Type 0} {Good : List String → Type 0} (holds : HoldsIds P Good) where
  put_ids-Keeps : (ids : List String) → Good ids → Keeps P (put_ids ids)
  unfolding put_ids
  put_ids-Keeps ids good = record { at = λ s h. holds.writes s ids good h }

  -- What follows a look at the ids may use that they are good.
  with_ids :
      {A : Type 0} (f : List String → M State A)
      → ((ids : List String) → Good ids → Keeps P (f ids))
      → Keeps P (gets (λ (s : State). s.last_ids) >>= f)
  unfolding gets ◌>>=◌
  with_ids f k = record { at = λ s h. (k s.last_ids (holds.reads s h)).at s h }

  module _ (env : Env) (fuel : ℕ) where
    run-Keeps : {A : Type 0} (fn : M State A) → Keeps P fn → Keeps P (run env fuel fn)
    run-Keeps fn kept = run_with_retry-Keeps holds.stable env fn kept _ fuel

    note_id-Keeps : (cid : Option String) → Keeps P (note_id env fuel cid)
    unfolding note_id
    note_id-Keeps none = Keeps-pure none
    note_id-Keeps (some cid) =
        search (with_ids, Keeps-if, Keeps-bind, Keeps-pure, put_ids-Keeps, holds.notes) depth 20

    create_row-Keeps : Keeps P (create_row env fuel)
    unfolding create_row
    create_row-Keeps =
        Keeps-bind _ _ (run-Keeps _ (do_create-Keeps holds.stable env (λ id. holds.allows _)))
          note_id-Keeps

    draw_index-Keeps : (ids : List String) → Keeps P (draw_index env fuel ids)
    draw_index-Keeps ids = draw-Keeps holds.stable _ _ tt

    read_row-Keeps : Keeps P (read_row env fuel)
    unfolding read_row
    read_row-Keeps =
        search
          (
            keeps_rules,
            draw-Keeps,
            holds.stable,
            run-Keeps,
            do_read-Keeps holds.stable env,
            holds.allows,
          )
          depth 20

    on_item-Keeps :
        (body : String → M State (Option (Unit {0}))) (o : Option String)
        → ((id : String) → Keeps P (body id))
        → Keeps P (on_item env fuel body o)
    unfolding on_item
    on_item-Keeps body none k = Keeps-pure _
    on_item-Keeps body (some id) k = k id

    update_row-Keeps : Keeps P (update_row env fuel)
    unfolding update_row
    update_row-Keeps =
        search
          (
            keeps_rules,
            on_item-Keeps,
            draw_index-Keeps,
            run-Keeps,
            do_update-Keeps holds.stable env,
            holds.allows,
          )
          depth 20

    delete_row-Keeps : Keeps P (delete_row env fuel)
    unfolding delete_row
    delete_row-Keeps =
        search
          (
            with_ids,
            Keeps-if,
            Keeps-bind,
            Keeps-pure,
            put_ids-Keeps,
            holds.pops,
            draw_index-Keeps,
            on_item-Keeps,
            run-Keeps,
            do_delete-Keeps holds.stable env,
            holds.allows,
          )
          depth 20

    pub perform-Keeps : (op : Op) → Keeps P (perform env fuel op)
    unfolding perform
    perform-Keeps create = create_row-Keeps
    perform-Keeps read = read_row-Keeps
    perform-Keeps update_one = update_row-Keeps
    perform-Keeps delete_one = delete_row-Keeps

-- With waits between the rounds that keep the invariant too.
module _ {P : State → Type 0} (stable : IsStable P) (env : Env) (fuel : ℕ)
    (performs : (op : Op) → Keeps P (perform env fuel op))
    (waits : (s : State) (seconds : ℕ)
      → P s
      → P (record s { trace = s.trace ++ sleep seconds ∷ [] })) where
  sleep_for-Keeps : (seconds : ℕ) → Keeps P (sleep_for seconds)
  unfolding draw ask
  sleep_for-Keeps seconds = record { at = λ s h. waits s seconds h }

  then_wait-Keeps : (finished : Option (Unit {0})) → Keeps P (then_wait env fuel finished)
  then_wait-Keeps none = Keeps-pure _
  then_wait-Keeps (some _) = search (keeps_rules, sleep_for-Keeps) depth 20

  worker_round-Keeps : Keeps P (worker_round env fuel)
  unfolding worker_round
  worker_round-Keeps =
      search (keeps_rules, draw-Keeps, stable, performs, then_wait-Keeps, sleep_for-Keeps) depth 20

  next_round-Keeps :
      (more : M State (Option (Unit {0}))) (finished : Option (Unit {0}))
      → Keeps P more
      → Keeps P (next_round env fuel more finished)
  next_round-Keeps more none k = Keeps-pure _
  next_round-Keeps more (some _) k = k

  pub worker_main-Keeps : (rounds : ℕ) → Keeps P (worker_main env fuel rounds)
  unfolding worker_main
  worker_main-Keeps zero = Keeps-pure _
  worker_main-Keeps (suc rounds) =
      Keeps-bind _ _ worker_round-Keeps
        (λ finished. next_round-Keeps _ finished (worker_main-Keeps rounds))
