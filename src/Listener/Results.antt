-- ===== src/Listener/Results.antt =====
-- mssql/test/ag_listener/main.py: what holds of the result of run_with_retry where it holds of the
-- result of the operation.
use dockerize_and_ansible.Base.{ℕ, zero, suc, ◌+◌, Option, none, some, leb}
use dockerize_and_ansible.Base.Effect.{M}
use dockerize_and_ansible.Base.Effect.Ensures.{
  Ensures, Ensures-pure, Ensures-if, Ensures-Keeps, Ensures-try_except, Ensures-bind,
}
use dockerize_and_ansible.Listener.{State, Env, sleep_for}
use dockerize_and_ansible.Listener.Client.{
  backoff, Round, done, failed, out_of_fuel, once_connected, attempt_once, after_round, retry_loop,
  run_with_retry,
}
use dockerize_and_ansible.Listener.Keeps.{
  IsStable, draw-Keeps, backoff-IsOwn, half_a_minute, ensure_conn-Keeps, close-Keeps,
}

module _ {A : Type 0} (P : State → Type 0) (Q : A → State → Type 0) where
  abbrev AtRound : Round A → State → Type 0
  AtRound (done a) s = Q a s
  AtRound failed s = P s
  AtRound out_of_fuel s = P s

  abbrev pub AtEnd : Option A → State → Type 0
  AtEnd none s = P s
  AtEnd (some a) s = Q a s

module _ {A : Type 0} {P : State → Type 0} {Q : A → State → Type 0} (stable : IsStable P)
    (env : Env) (fn : M State A) (ensures : Ensures P fn Q P) where
  once-Ensures :
      (connected : Option (Unit {0})) → Ensures P (once_connected env fn connected) (AtRound P Q) P
  once-Ensures none = Ensures-pure out_of_fuel (λ s h. h)
  once-Ensures (some _) = Ensures-bind _ _ ensures (λ a. Ensures-pure (done a) (λ s h. h))

  attempt-Ensures :
      (max_retries fuel : ℕ) → Ensures P (attempt_once env max_retries fuel fn) (AtRound P Q) P
  unfolding attempt_once
  attempt-Ensures max_retries fuel =
      Ensures-try_except _ _
        (Ensures-bind _ _ (Ensures-Keeps _ (ensure_conn-Keeps stable env max_retries fuel))
          once-Ensures)
        (λ e. Ensures-pure failed (λ s h. h))

  after-Ensures :
      (max_retries : ℕ) (retry : ℕ → M State (Option A)) (attempt : ℕ) (round : Round A)
      → ((attempt' : ℕ) → Ensures P (retry attempt') (AtEnd P Q) P)
      → Ensures (AtRound P Q round) (after_round env max_retries retry attempt round) (AtEnd P Q) P
  unfolding after_round
  after-Ensures max_retries retry attempt (done a) again = Ensures-pure (some a) (λ s h. h)
  after-Ensures max_retries retry attempt out_of_fuel again = Ensures-pure none (λ s h. h)
  after-Ensures max_retries retry attempt failed again =
      Ensures-bind _ _ (Ensures-Keeps _ (close-Keeps stable env)) (λ _.
        Ensures-bind _ _
          (Ensures-Keeps (sleep_for (backoff (attempt + 1)))
            (draw-Keeps stable _ _ (backoff-IsOwn attempt)))
          (λ _.
            Ensures-if (leb max_retries (attempt + 1)) _ _
              (λ _.
                Ensures-bind _ _
                  (Ensures-Keeps (sleep_for 30) (draw-Keeps stable _ _ half_a_minute))
                  (λ _. again 0))
              (λ _. again (attempt + 1))))

  retry-Ensures :
      (max_retries connect_fuel fuel attempt : ℕ)
      → Ensures P (retry_loop env max_retries connect_fuel fuel fn attempt) (AtEnd P Q) P
  unfolding retry_loop
  retry-Ensures max_retries connect_fuel zero attempt = Ensures-pure none (λ s h. h)
  retry-Ensures max_retries connect_fuel (suc fuel) attempt =
      Ensures-bind _ _ (attempt-Ensures max_retries connect_fuel) (λ round.
        after-Ensures max_retries _ attempt round (retry-Ensures max_retries connect_fuel fuel))

  pub run_with_retry-Ensures :
      (max_retries fuel : ℕ) → Ensures P (run_with_retry env max_retries fuel fn) (AtEnd P Q) P
  unfolding run_with_retry
  run_with_retry-Ensures max_retries fuel = retry-Ensures max_retries fuel fuel 0
