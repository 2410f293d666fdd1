-- ===== src/Listener/Waits.antt =====
-- mssql/test/ag_listener/main.py: bounds on the waits and on the ids that a worker holds.
use dockerize_and_ansible.Base.{
  ℕ, zero, suc, ◌-◌, ◌≤◌, String, ◌≡◌, List, [], ◌∷◌, ◌++◌, length, All, All-append, arith,
}
use dockerize_and_ansible.Base.Effect.Keeps.{Keeps}
use dockerize_and_ansible.Listener.{
  Event, sleep, connect, close_conn, open_cursor, close_cursor, fetchone, commit, new_uuid,
  random_choice, execute, Op, State, Env,
}
use dockerize_and_ansible.Listener.Keeps.{IsBrief, IsOwn}
use dockerize_and_ansible.Listener.Rounds.{HoldsIds, perform-Keeps, worker_main-Keeps}
use dockerize_and_ansible.Listener.Worker.{
  last_500, without_first, without_item, most_ids, perform, worker_main,
}

abbrev pub AllBrief : State → Type 0
AllBrief s = All IsBrief s.trace

own_IsBrief : (e : Event) → IsOwn e → IsBrief e
own_IsBrief (sleep seconds) own = own
own_IsBrief connect own = tt
own_IsBrief close_conn own = tt
own_IsBrief open_cursor own = tt
own_IsBrief close_cursor own = tt
own_IsBrief fetchone own = tt
own_IsBrief commit own = tt
own_IsBrief new_uuid own = tt
own_IsBrief random_choice own = tt
own_IsBrief (execute q) own = tt

briefs : HoldsIds AllBrief (λ ids. Unit)
briefs = record {
  stable = record {
    calls = λ s e own h. All-append IsBrief s.trace (e ∷ []) h (own_IsBrief e own, tt);
    conns = λ s b h. h;
  };
  allows = λ q. record { sends = λ s h. All-append IsBrief s.trace (execute q ∷ []) h (tt, tt) };
  reads = λ s h. tt;
  writes = λ s ids good h. h;
  notes = λ ids cid good. tt;
  pops = λ ids i good. tt;
}

-- All waits of the client, while it connects and while it repeats an operation of a worker, are
-- between 2 and 30 seconds, whatever the server answers and however often it fails.
pub perform-AllBrief : (env : Env) (fuel : ℕ) (op : Op) → Keeps AllBrief (perform env fuel op)
perform-AllBrief env fuel op = perform-Keeps briefs env fuel op

length-without_first : (n : ℕ) (ids : List String) → length (without_first n ids) ≡ length ids - n
length-without_first zero ids = omega arith
length-without_first (suc n) [] = omega arith
length-without_first (suc n) (x ∷ ids) = omega (arith, length-without_first n ids)

length-without_item : (ids : List String) (i : ℕ) → length (without_item ids i) ≤ length ids
length-without_item [] i = omega arith
length-without_item (x ∷ ids) zero = omega arith
length-without_item (x ∷ ids) (suc i) = omega (arith, length-without_item ids i)

length-last_500 : (ids : List String) → length (last_500 ids) ≤ most_ids
unfolding last_500
length-last_500 ids = omega (arith, length-without_first (length ids - most_ids) ids)

abbrev pub FewIds : State → Type 0
FewIds s = length s.last_ids ≤ most_ids

few : HoldsIds FewIds (λ ids. length ids ≤ most_ids)
few = record {
  stable = record { calls = λ s e brief h. h; conns = λ s b h. h };
  allows = λ q. record { sends = λ s h. h };
  reads = λ s h. h;
  writes = λ s ids good h. good;
  notes = λ ids cid good. length-last_500 (ids ++ cid ∷ []);
  pops = λ ids i good. omega (arith, length-without_item ids i);
}

-- A worker that starts with at most 500 ids has no more than 500 after any number of rounds.
pub worker_main-FewIds : (env : Env) (fuel rounds : ℕ) → Keeps FewIds (worker_main env fuel rounds)
worker_main-FewIds env fuel rounds =
    worker_main-Keeps few.stable env fuel (perform-Keeps few env fuel) (λ s seconds h. h) rounds
