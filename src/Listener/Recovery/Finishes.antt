-- ===== src/Listener/Recovery/Finishes.antt =====
-- mssql/test/ag_listener/main.py: the rounds of a worker against a server that answers again for
-- good.
use dockerize_and_ansible.Base.{
  ℕ, zero, suc, String, ◌≡◌, refl, false, Option, none, some, List, length, if◌then◌else◌,
}
use mathlib.Core.Option.{none-ne-some}
use dockerize_and_ansible.Base.Effect.{M, pure, ◌>>=◌}
use dockerize_and_ansible.Base.Effect.Total.{
  Total, Total-pure, Total-gets, Total-if, Total-try, Total-bind,
}
use dockerize_and_ansible.Listener.{
  random_choice, Op, create, read, update_one, delete_one, State, Env, draw,
}
use dockerize_and_ansible.Listener.Keeps.{
  do_create-Keeps, do_read-Keeps, do_update-Keeps, do_delete-Keeps,
}
use dockerize_and_ansible.Listener.Worker.{
  is_empty, draw_index, item, create_row, read_row, update_row, delete_row, perform, then_wait,
  worker_round, next_round, worker_main,
}
use dockerize_and_ansible.Listener.Recovery.{After-IsStable, After-Allows}
use dockerize_and_ansible.Listener.Recovery.Operations.{
  Recovers, Finishes, puts, draws, pauses, create-Works, read-Works, update-Works, delete-Works,
  repeats, finish, on_items, notes,
}

if_any :
    (ids : List String) (m : M State (Option (Unit {0})))
    → Finishes m
    → Finishes (if is_empty ids then pure (some tt) else m)
if_any ids m finishes =
    Total-if (is_empty ids) (pure (some tt)) m (λ _. Total-pure (some tt) (λ s h. refl))
      (λ _. finishes)

module _ (env : Env) (calls : ℕ) (recovers : Recovers env calls) where
  creates : Finishes (create_row env (suc calls))
  unfolding create_row
  creates =
      Total-bind _ _
        (repeats env calls recovers _
          (λ n. do_create-Keeps (After-IsStable n) env (λ id. After-Allows n _))
          (create-Works env calls recovers))
        (λ cid. notes env calls recovers cid)

  reads : Finishes (read_row env (suc calls))
  unfolding read_row
  reads = Total-bind _ _ (Total-gets _ (λ s h. h)) (λ ids.
      Total-bind _ _
        (Total-if (is_empty ids) (pure false) (draw random_choice env.use_known_id)
          (λ _. Total-pure false (λ s h. tt)) (λ _. draws env.use_known_id))
        (λ known.
          Total-bind _ _
            (Total-if known (do i ← draw_index env (suc calls) ids; pure (item ids i)) (pure none)
              (λ _. Total-bind _ _ (draws _) (λ i. Total-pure (item ids i) (λ s h. tt)))
              (λ _. Total-pure none (λ s h. tt)))
            (λ sid.
              Total-bind _ _
                (repeats env calls recovers _
                  (λ n. do_read-Keeps (After-IsStable n) env sid (After-Allows n _))
                  (read-Works env calls recovers sid))
                (finish env calls recovers))))

  updates : Finishes (update_row env (suc calls))
  unfolding update_row
  updates = Total-bind _ _ (Total-gets _ (λ s h. h)) (λ ids. if_any ids _ (
      Total-bind _ _ (draws (env.choose_index (length ids))) (λ i.
        on_items env calls recovers _ (item ids i) (λ id.
          Total-bind _ _
            (repeats env calls recovers _
              (λ n. do_update-Keeps (After-IsStable n) env id (After-Allows n _))
              (update-Works env calls recovers id))
            (finish env calls recovers)))))

  deletes : Finishes (delete_row env (suc calls))
  unfolding delete_row
  deletes = Total-bind _ _ (Total-gets _ (λ s h. h)) (λ ids. if_any ids _ (
      Total-bind _ _ (draws (env.choose_index (length ids))) (λ i. Total-bind _ _ (puts _) (λ _.
        on_items env calls recovers _ (item ids i) (λ id.
          Total-bind _ _
            (repeats env calls recovers _
              (λ n. do_delete-Keeps (After-IsStable n) env id (After-Allows n _))
              (delete-Works env calls recovers id))
            (finish env calls recovers))))))

  performs : (op : Op) → Finishes (perform env (suc calls) op)
  unfolding perform
  performs create = creates
  performs read = reads
  performs update_one = updates
  performs delete_one = deletes

  then_waits :
      (finished : Option (Unit {0}))
      → Total (λ s. finished ≡ some tt) (then_wait env (suc calls) finished) (λ o s. o ≡ some tt)
  then_waits none = record { at = λ s h. absurd (none-ne-some tt h) }
  then_waits (some _) =
      Total-bind _ _ (Total-gets _ (λ s h. tt))
        (λ seconds. Total-bind _ _ (pauses seconds) (λ _. Total-pure (some tt) (λ s h. refl)))

  rounds_finish : Finishes (worker_round env (suc calls))
  unfolding worker_round
  rounds_finish =
      Total-try _ _
        (Total-bind _ _ (draws env.choose_op) (λ op. Total-bind _ _ (performs op) then_waits))

  next_rounds :
      (more : M State (Option (Unit {0}))) (finished : Option (Unit {0}))
      → Finishes more
      → Total
          (λ s. finished ≡ some tt)
          (next_round env (suc calls) more finished)
          (λ o s. o ≡ some tt)
  next_rounds more none k = record { at = λ s h. absurd (none-ne-some tt h) }
  next_rounds more (some _) k = record { at = λ s h. k.at s tt }

  -- Against a server of which no call raises any more after so many calls, every round of a worker
  -- ends, from whatever state it starts, with fuel for as many rounds of each retry loop and one
  -- more: no operation is repeated for ever.
  pub worker_main-Finishes : (rounds : ℕ) → Finishes (worker_main env (suc calls) rounds)
  unfolding worker_main
  worker_main-Finishes zero = Total-pure (some tt) (λ s h. refl)
  worker_main-Finishes (suc rounds) =
      Total-bind _ _ rounds_finish
        (λ finished. next_rounds _ finished (worker_main-Finishes rounds))
