-- ===== src/Tests/ListenerRuns.antt =====
-- mssql/test/ag_listener/main.py: a server that is away for the first calls, and a worker that
-- creates rows, updates and deletes them.
use dockerize_and_ansible.Base.{
  ℕ, zero, suc, ◌<◌, String, ◌≡◌, refl, ◌∙◌, ap, true, false, none, [], ◌∷◌, length, arith, any,
  ◌==◌, string_eq, if◌then◌else◌, leb, Bool-cases, inl, inr,
}
use dockerize_and_ansible.Base.Effect.{connection_error, return, raise, try_except, ◌>>=◌}
use dockerize_and_ansible.Base.Effect.Keeps.{Keeps}
use dockerize_and_ansible.Listener.{
  insert, select_1, select_any, select, update, delete, Event, execute, connect, close_conn,
  open_cursor, close_cursor, fetchone, commit, new_uuid, random_choice, sleep, History, Op, create,
  update_one, delete_one, Env, State, ask, draw, put_conn,
}
use dockerize_and_ansible.Listener.Rows.{inserted, is_insert}
use dockerize_and_ansible.Listener.Owned.{Owned, IsFresh}
use dockerize_and_ansible.Listener.Owned.Rounds.{worker_main-Owned}
use dockerize_and_ansible.Listener.Recovery.Operations.{Recovers, Finishes}
use dockerize_and_ansible.Listener.Recovery.Finishes.{worker_main-Finishes}
use dockerize_and_ansible.Listener.Waits.{AllBrief, perform-AllBrief}
use dockerize_and_ansible.Listener.Client.{connect_loop, open_conn}
use dockerize_and_ansible.Listener.Worker.{perform, worker_main}
use Prim.Native.String.{count}
use text.Mathlib.TextLemmas.{length-nil, length-cons}
use Prim.Native.Nat.{max}

-- Ids of so many letters; a new one is longer than all that were inserted.
stars : ℕ → String
stars zero = ""
stars (suc n) = String.◌∷◌ "*" (stars n)

abbrev id_size : Event → ℕ
id_size (execute (insert id)) = count id
id_size _ = 0

longest : History → ℕ
longest [] = 0
longest (e ∷ h) = max (id_size e) (longest h)

count-stars : (n : ℕ) → count (stars n) ≡ n
unfolding stars
count-stars zero = length-nil
count-stars (suc n) = length-cons "*" (stars n) ∙ ap suc (count-stars n)

other_id : (n : ℕ) (row : String) → count row < n → (stars n == row) ≡ false
other_id n row short = elim (Bool-cases (stars n == row)) [
  | inr differ ↦ differ
  | inl same ↦
      let is : stars n ≡ row = ground (arith, same) in
      absurd (omega (arith, ap count is, count-stars n))
]

other_insert : (n : ℕ) (e : Event) → id_size e < n → is_insert (stars n) e ≡ false
other_insert n (execute (insert row)) short = other_id n row short
other_insert n (execute select_1) short = refl
other_insert n (execute select_any) short = refl
other_insert n (execute (select row)) short = refl
other_insert n (execute (update row)) short = refl
other_insert n (execute (delete row)) short = refl
other_insert n connect short = refl
other_insert n close_conn short = refl
other_insert n open_cursor short = refl
other_insert n close_cursor short = refl
other_insert n fetchone short = refl
other_insert n commit short = refl
other_insert n new_uuid short = refl
other_insert n random_choice short = refl
other_insert n (sleep seconds) short = refl

longer : (n : ℕ) (h : History) → longest h < n → any (is_insert (stars n)) h ≡ false
unfolding longest
longer n [] more = refl
longer n (e ∷ h) more =
    let here : id_size e < n = omega (arith, more) in
    let there : longest h < n = omega (arith, more) in
    ground (arith, other_insert n e here, longer n h there)

-- Three operations in turn.
abbrev nth_op : ℕ → Op
nth_op zero = create
nth_op (suc zero) = update_one
nth_op (suc (suc zero)) = delete_one
nth_op (suc (suc (suc n))) = nth_op n

abbrev env : Env
env = record {
  connect = λ h. if leb 3 (length h) then return tt else raise connection_error;
  close_conn = λ h. return tt;
  open_cursor = λ h. return tt;
  close_cursor = λ h. return tt;
  execute = λ q h. return tt;
  fetchone = λ h. return none;
  commit = λ h. return tt;
  rowcount = λ h. 1;
  uuid = λ h. stars (suc (longest h));
  choose_op = λ h. nth_op (length h);
  choose_index = λ n h. 0;
  use_known_id = λ h. true;
  interval = λ h. 1;
}

fresh : IsFresh env
unfolding inserted
fresh = record { fresh = λ h. longer (suc (longest h)) h (omega arith) }

abbrev new_worker : State
new_worker = record { conn = false; last_ids = []; trace = [] }

worker_main-Owned_example : Owned env (worker_main env 4 6 new_worker).1
worker_main-Owned_example = worker_main-Owned env 4 6 new_worker fresh refl refl

recovers : Recovers env 3
recovers = record {
  accepts = record {
    connects = λ h late. let test : leb 3 (length h) ≡ true = ground (arith, late) in rw test refl;
  };
  opens = λ h late. refl;
  closes = λ h late. refl;
  executes = λ q h late. refl;
  fetches = λ h late. (none, refl);
  commits = λ h late. refl;
}

worker_main-Finishes_example : Finishes (worker_main env 4 6)
worker_main-Finishes_example = worker_main-Finishes env 3 recovers 6

perform-AllBrief_example : Keeps AllBrief (perform env 4 create)
perform-AllBrief_example = perform-AllBrief env 4 create

-- Two refusals and the waits after them.
reconnects :
    (connect_loop env 5 4 0 new_worker).1.trace
    ≡ connect ∷ sleep 2 ∷ connect ∷ sleep 4 ∷ connect ∷ []
unfolding connect_loop open_conn ask draw put_conn try_except ◌>>=◌
reconnects = refl
