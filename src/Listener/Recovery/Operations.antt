-- ===== src/Listener/Recovery/Operations.antt =====
-- mssql/test/ag_listener/main.py: the operations of a worker against a server that answers again
-- for good.
use dockerize_and_ansible.Base.{
  ℕ, suc, ◌≤◌, String, ◌≡◌, refl, Option, none, some, List, length, arith,
}
use dockerize_and_ansible.Base.Text.{is_nonempty}
use dockerize_and_ansible.Base.Effect.{return, M, pure}
use dockerize_and_ansible.Base.Effect.Keeps.{Keeps}
use dockerize_and_ansible.Base.Effect.Total.{
  Total, Total-pure, Total-gets, Total-if, Total-weaken, Total-try, Total-bind,
}
use dockerize_and_ansible.Listener
use dockerize_and_ansible.Listener.{
  random_choice, Statement, Op, create, read, update_one, delete_one, State, Env, History, ask,
  draw, put_ids, sleep_for,
}
use dockerize_and_ansible.Listener.Client.{
  run, with_cursor, do_create, do_read, do_update, do_delete,
}
use dockerize_and_ansible.Listener.Worker
use dockerize_and_ansible.Listener.Worker.{
  max_retries, done, item, is_empty, draw_index, note_id, create_row, read_row, on_item, update_row,
  delete_row, perform, then_wait, worker_round, next_round, worker_main,
}
use dockerize_and_ansible.Listener.Recovery.{Accepts, After, Total-draw, Total-ask}
use dockerize_and_ansible.Listener.Recovery.Retries.{IsResult, run_with_retry-IsResult}

-- From so many calls on, no call raises.
pub record Recovers (env : Env) (calls : ℕ) : Type 0 where
  pub accepts : Accepts env calls
  pub opens : (h : History) → calls ≤ length h → env.open_cursor h ≡ return tt
  pub closes : (h : History) → calls ≤ length h → env.close_cursor h ≡ return tt
  pub executes : (q : Statement) (h : History) → calls ≤ length h → env.execute q h ≡ return tt
  pub fetches :
      (h : History) → calls ≤ length h → (row : Option String) × (env.fetchone h ≡ return row)
  pub commits : (h : History) → calls ≤ length h → env.commit h ≡ return tt

abbrev Works : {A : Type 0} → ℕ → M State A → Type 0
Works calls fn = Total (After calls) fn (λ a s. After calls s)

-- A statement of a worker that does not run out of fuel.
abbrev pub Finishes : M State (Option (Unit {0})) → Type 0
Finishes m = Total (λ s. Unit) m (λ o s. o ≡ some tt)

pub puts : (ids : List String) → Total (λ s. Unit) (put_ids ids) (λ a s. Unit)
unfolding put_ids
puts ids = record {
  at = λ s h. record { value = tt; final = record s { last_ids = ids }; ran = refl; holds = tt };
}

pub draws : {A : Type 0} (f : History → A) → Total (λ s. Unit) (draw random_choice f) (λ a s. Unit)
unfolding draw ask
draws f = record { at = λ s h. record { value = f s.trace; final = _; ran = refl; holds = tt } }

pub pauses : (seconds : ℕ) → Total (λ s. Unit) (sleep_for seconds) (λ a s. Unit)
unfolding draw ask
pauses seconds = record { at = λ s h. record { value = tt; final = _; ran = refl; holds = tt } }

module _ (env : Env) (calls : ℕ) (recovers : Recovers env calls) where
  runs : (q : Statement) → Works calls (run env q)
  unfolding run
  runs q = Total-ask _ _ (λ h late. (tt, recovers.executes q h late))

  cursors : {A : Type 0} (body : M State A) → Works calls body → Works calls (with_cursor env body)
  unfolding with_cursor
  cursors body works = Total-bind _ _ (Total-ask _ _ (λ h late. (tt, recovers.opens h late))) (λ _.
      Total-bind _ _ (Total-try _ _ works) (λ result.
        Total-bind _ _ (Total-ask _ _ (λ h late. (tt, recovers.closes h late)))
          (λ _. Total-pure result (λ s h. h))))

  commits_work : Works calls (ask Listener.commit env.commit)
  commits_work = Total-ask _ _ (λ h late. (tt, recovers.commits h late))

  pub create-Works : Works calls (do_create env)
  unfolding do_create
  create-Works = cursors _ (
      Total-bind _ _ (Total-weaken _ (Total-draw _ _) (λ a s h. omega (arith, h))) (λ new_id.
        Total-bind _ _ (runs _)
          (λ _. Total-bind _ _ commits_work (λ _. Total-pure new_id (λ s h. h)))))

  pub read-Works : (sample_id : Option String) → Works calls (do_read env sample_id)
  unfolding do_read
  read-Works sample_id = cursors _ (Total-bind _ _ (runs _) (λ _. Total-ask _ _ recovers.fetches))

  pub update-Works : (target_id : String) → Works calls (do_update env target_id)
  unfolding do_update
  update-Works target_id =
      cursors _
        (Total-bind _ _ (runs _) (λ _. Total-bind _ _ commits_work (λ _. Total-gets _ (λ s h. h))))

  pub delete-Works : (target_id : String) → Works calls (do_delete env target_id)
  unfolding do_delete
  delete-Works target_id =
      cursors _
        (Total-bind _ _ (runs _) (λ _. Total-bind _ _ commits_work (λ _. Total-gets _ (λ s h. h))))

  pub repeats :
      {A : Type 0} (fn : M State A)
      → ((n : ℕ) → Keeps (After n) fn)
      → Works calls fn
      → Total (λ s. Unit) (Worker.run env (suc calls) fn) (λ o s. IsResult o)
  repeats fn grows works =
      run_with_retry-IsResult env calls recovers.accepts max_retries fn
        (record { grows = grows; works = Total-weaken _ works (λ a s h. tt) })

  pub finish :
      {A : Type 0} (o : Option A)
      → Total (λ s. IsResult o) (pure (done o)) (λ (b : Option (Unit {0})) (s : State). b ≡ some tt)
  finish none = record { at = λ s h. absurd h }
  finish (some a) = Total-pure (some tt) (λ s h. refl)

  pub on_items :
      (body : String → M State (Option (Unit {0}))) (o : Option String)
      → ((id : String) → Finishes (body id))
      → Finishes (on_item env (suc calls) body o)
  unfolding on_item
  on_items body none k = Total-pure (some tt) (λ s h. refl)
  on_items body (some id) k = k id

  pub notes :
      (cid : Option String)
      → Total (λ s. IsResult cid) (note_id env (suc calls) cid) (λ o s. o ≡ some tt)
  unfolding note_id
  notes none = record { at = λ s h. absurd h }
  notes (some cid) =
      Total-if (is_nonempty cid) _ _
        (λ _.
          Total-bind _ _ (Total-gets _ (λ s h. h))
            (λ ids. Total-bind _ _ (puts _) (λ _. Total-pure (some tt) (λ s h. refl))))
        (λ _. Total-pure (some tt) (λ s h. refl))
