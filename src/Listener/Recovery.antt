-- ===== src/Listener/Recovery.antt =====
-- mssql/test/ag_listener/main.py: once the server answers again for good, the operation that was
-- repeated all the time is done.
pub mod Retries
pub mod Operations
pub mod Finishes
use dockerize_and_ansible.Base.{
  ℕ, zero, suc, ◌+◌, ◌≤◌, String, ◌≡◌, refl, ◌∙◌, Bool, true, false, not, Option, none, some, List,
  [], ◌∷◌, ◌++◌, length, length-append, arith, leb, if◌then◌else◌, ◌⊎◌, inl, inr,
}
use dockerize_and_ansible.Base.Effect.{
  Exception, Outcome, return, raise, M, pure, throw, gets, try_except, Outcome-cases, ◌>>=◌, ◌>>◌,
}
use dockerize_and_ansible.Base.Effect.Keeps.{Keeps, Keeps-pure, Keeps-bind}
use dockerize_and_ansible.Base.Effect.Total.{
  Returning, Total, Total-pure, Total-gets, Total-if, Total-weaken, Total-try, Total-caught,
  Total-bind,
}
use dockerize_and_ansible.Listener.{
  Event, execute, Statement, State, Env, History, ask, draw, put_conn, sleep_for,
}
use dockerize_and_ansible.Listener.Keeps.{
  IsOwn, IsStable, Allows, ask-Keeps, open_conn-Keeps, close-Keeps, probe-Keeps,
}
use dockerize_and_ansible.Listener.Client.{
  backoff, Round, done, failed, out_of_fuel, open_conn, connect_loop, close, probe, ensure_conn,
  once_connected, attempt_once, after_round, retry_loop, run_with_retry,
}

-- From so many calls on, the server takes connections.
pub record Accepts (env : Env) (calls : ℕ) : Type 0 where
  pub connects : (h : History) → calls ≤ length h → env.connect h ≡ return tt

abbrev pub After : ℕ → State → Type 0
After n s = n ≤ length s.trace

pub After-IsStable : (n : ℕ) → IsStable (After n)
After-IsStable n = record {
  calls = λ s e own h. omega (arith, h, length-append s.trace (e ∷ []));
  conns = λ s b h. h;
}

pub After-Allows : (n : ℕ) (q : Statement) → Allows (After n) q
After-Allows n q = record {
  sends = λ s h. omega (arith, h, length-append s.trace (execute q ∷ []));
}

module _ {n : ℕ} where
  pub Total-draw :
      {A : Type 0} (e : Event) (answer : History → A)
      → Total (After n) (draw e answer) (λ a s. After (suc n) s)
  unfolding draw ask
  Total-draw e answer = record {
    at = λ s h. record {
      value = answer s.trace;
      final = record s { trace = s.trace ++ e ∷ [] };
      ran = refl;
      holds = omega (arith, h, length-append s.trace (e ∷ []));
    };
  }

  pub Total-ask :
      {A : Type 0} (e : Event) (answer : History → Outcome A)
      → ((h : History) → n ≤ length h → (a : A) × (answer h ≡ return a))
      → Total (After n) (ask e answer) (λ a s. After n s)
  unfolding ask
  Total-ask e answer answers = record {
    at = λ s h.
        let (a, answered) = answers s.trace h in
        record {
          value = a;
          final = record s { trace = s.trace ++ e ∷ [] };
          ran = rw answered refl;
          holds = omega (arith, h, length-append s.trace (e ∷ []));
        };
  }

  Total-put_conn : (b : Bool) → Total (After n) (put_conn b) (λ a s. After n s)
  unfolding put_conn
  Total-put_conn b = record {
    at = λ s h. record { value = tt; final = record s { conn = b }; ran = refl; holds = h };
  }

clash : {b : Bool} → b ≡ false → b ≡ true → ⊥
clash off on = ground (arith, off, on)

module _ (env : Env) (calls : ℕ) (accepts : Accepts env calls) (max_retries : ℕ) where
  abbrev tries_to_open : M State Bool
  tries_to_open = try_except (do open_conn env; pure true) (λ e. pure false)

  opens :
      {n : ℕ}
      → calls ≤ n
      → Total (After n) tries_to_open (λ connected s. (connected ≡ true) × After n s)
  unfolding open_conn
  opens late = Total-try _ _ (
      Total-bind _ _
        (Total-bind _ _
          (Total-ask _ _ (λ h later. (tt, accepts.connects h (omega (arith, late, later)))))
          (λ _. Total-put_conn true))
        (λ _. Total-pure true (λ s h. (refl, h))))

  tries : (n : ℕ) → Total (After n) tries_to_open (λ connected s. After n s)
  tries n =
      Total-caught _ false
        (Keeps-bind _ _ (open_conn-Keeps (After-IsStable n) env) (λ _. Keeps-pure true))

  -- With a round for each call that may still fail, and one more.
  connects :
      (fuel n attempt : ℕ)
      → calls ≤ fuel + n
      → Total
          (After n)
          (connect_loop env max_retries (suc fuel) attempt)
          (λ connected s. (connected ≡ some tt) × After n s)
  unfolding connect_loop
  connects zero n attempt late = Total-bind _ _ (opens (omega (arith, late))) (λ connected.
      Total-if connected _ _ (λ _. Total-pure (some tt) (λ s h. (refl, h.1)))
        (λ off. record { at = λ s h. absurd (clash off h.0) }))
  connects (suc fuel) n attempt late = Total-bind _ _ (tries n) (λ connected.
      Total-if connected _ _ (λ _. Total-pure (some tt) (λ s h. (refl, h)))
        (λ _. Total-bind _ _ (Total-draw _ _) (λ _.
          Total-weaken _ (connects fuel (suc n) _ (omega (arith, late)))
            (λ a s h. (h.0, omega (arith, h.1))))))

  pub closes : (n : ℕ) → Total (After n) (close env) (λ a s. After n s)
  unfolding close
  closes n = Total-bind _ _ (Total-gets _ (λ s h. h)) (λ conn.
      Total-if (not conn) _ _ (λ _. Total-pure tt (λ s h. h))
        (λ _.
          Total-bind _ _ (Total-caught _ tt (ask-Keeps (After-IsStable n) _ _ tt))
            (λ _. Total-put_conn false)))

  pub ensures :
      (fuel n : ℕ)
      → calls ≤ fuel + n
      → Total
          (After n)
          (ensure_conn env max_retries (suc fuel))
          (λ connected s. (connected ≡ some tt) × After n s)
  unfolding ensure_conn
  ensures fuel n late = Total-bind _ _ (Total-gets _ (λ s h. h)) (λ conn.
      Total-if (not conn) _ _ (λ _. connects fuel n 0 late)
        (λ _.
          Total-bind _ _
            (Total-caught _ false
              (Keeps-bind _ _ (probe-Keeps (After-IsStable n) env) (λ _. Keeps-pure true)))
            (λ alive.
              Total-if alive _ _ (λ _. Total-pure (some tt) (λ s h. (refl, h)))
                (λ _. Total-bind _ _ (closes n) (λ _. connects fuel n 0 late)))))
