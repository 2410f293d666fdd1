-- ===== src/Listener/Recovery/Retries.antt =====
-- mssql/test/ag_listener/main.py: run_with_retry, once the server answers again for good.
use dockerize_and_ansible.Base.{
  ℕ, zero, suc, ◌+◌, ◌≤◌, refl, Option, none, some, arith, leb, inl, inr,
}
use dockerize_and_ansible.Base.Effect.{M, pure, try_except, Outcome-cases, ◌>>=◌}
use dockerize_and_ansible.Base.Effect.Keeps.{Keeps}
use dockerize_and_ansible.Base.Effect.Total.{Total, Total-pure, Total-if, Total-bind}
use dockerize_and_ansible.Listener.{State, Env}
use dockerize_and_ansible.Listener.Client.{
  Round, done, failed, out_of_fuel, attempt_once, after_round, retry_loop, run_with_retry,
}
use dockerize_and_ansible.Listener.Recovery.{Accepts, After, Total-draw, closes, ensures}

-- A result, with nothing known of the value.
abbrev pub IsResult : {A : Type 0} → Option A → Type 0
IsResult none = ⊥
IsResult (some _) = Unit

abbrev IsOver : {A : Type 0} → Round A → Type 0
IsOver out_of_fuel = ⊥
IsOver _ = Unit

abbrev IsDone : {A : Type 0} → Round A → Type 0
IsDone (done _) = Unit
IsDone _ = ⊥

-- An operation that loses no call from the log and that works once the server answers.
pub record Settles {A : Type 0} (calls : ℕ) (fn : M State A) : Type 0 where
  pub grows : (n : ℕ) → Keeps (After n) fn
  pub works : Total (After calls) fn (λ a s. Unit)

module _ (env : Env) (calls : ℕ) (accepts : Accepts env calls) (max_retries : ℕ) {A : Type 0}
    (fn : M State A) (settles : Settles calls fn) where
  attempts :
      (fuel n : ℕ)
      → calls ≤ fuel + n
      → Total
          (After n)
          (attempt_once env max_retries (suc fuel) fn)
          (λ round s. IsOver round × After n s)
  unfolding attempt_once try_except pure ◌>>=◌
  attempts fuel n late = record {
    at = λ s p.
        let r = (ensures env calls accepts max_retries fuel n late).at s p in
        elim (Outcome-cases (fn r.final).0) [
          | inl (a, e) ↦ record {
            value = done a;
            final = (fn r.final).1;
            ran = rw (attempt_once, r.ran, r.holds.0, e) refl;
            holds = (tt, (settles.grows n).at r.final r.holds.1);
          }
          | inr (x, e) ↦ record {
            value = failed;
            final = (fn r.final).1;
            ran = rw (attempt_once, r.ran, r.holds.0, e) refl;
            holds = (tt, (settles.grows n).at r.final r.holds.1);
          }
        ];
  }

  settled :
      (fuel n : ℕ)
      → calls ≤ n
      → Total
          (After n)
          (attempt_once env max_retries (suc fuel) fn)
          (λ round s. IsDone round × After n s)
  unfolding attempt_once try_except pure ◌>>=◌
  settled fuel n late = record {
    at = λ s p.
        let r = (ensures env calls accepts max_retries fuel n (omega (arith, late))).at s p in
        let w = settles.works.at r.final (omega (arith, late, r.holds.1)) in
        record {
          value = done w.value;
          final = (fn r.final).1;
          ran = rw (attempt_once, r.ran, r.holds.0, w.ran) refl;
          holds = (tt, (settles.grows n).at r.final r.holds.1);
        };
  }

  after-IsDone :
      (n : ℕ) (retry : ℕ → M State (Option A)) (attempt : ℕ) (round : Round A)
      → Total
          (λ s. IsDone round × After n s)
          (after_round env max_retries retry attempt round)
          (λ o s. IsResult o)
  unfolding after_round
  after-IsDone n retry attempt (done a) = Total-pure (some a) (λ s h. tt)
  after-IsDone n retry attempt failed = record { at = λ s h. absurd h.0 }
  after-IsDone n retry attempt out_of_fuel = record { at = λ s h. absurd h.0 }

  after-IsOver :
      (n : ℕ) (retry : ℕ → M State (Option A)) (attempt : ℕ) (round : Round A)
      → ((m attempt' : ℕ) → suc n ≤ m → Total (After m) (retry attempt') (λ o s. IsResult o))
      → Total
          (λ s. IsOver round × After n s)
          (after_round env max_retries retry attempt round)
          (λ o s. IsResult o)
  unfolding after_round
  after-IsOver n retry attempt (done a) again = Total-pure (some a) (λ s h. tt)
  after-IsOver n retry attempt out_of_fuel again = record { at = λ s h. absurd h.0 }
  after-IsOver n retry attempt failed again =
      Total-bind _ _ (record { at = λ s h. (closes env calls accepts max_retries n).at s h.1 })
        (λ _. Total-bind _ _ (Total-draw _ _) (λ _.
          Total-if (leb max_retries (attempt + 1)) _ _
            (λ _. Total-bind _ _ (Total-draw _ _) (λ _. again _ 0 (omega arith)))
            (λ _. again (suc n) _ (omega arith))))

  retries :
      (connect_fuel fuel n attempt : ℕ)
      → calls ≤ connect_fuel + n
      → calls ≤ fuel + n
      → Total
          (After n)
          (retry_loop env max_retries (suc connect_fuel) (suc fuel) fn attempt)
          (λ o s. IsResult o)
  unfolding retry_loop
  retries connect_fuel zero n attempt enough late =
      Total-bind _ _ (settled connect_fuel n (omega (arith, late)))
        (λ round. after-IsDone n _ attempt round)
  retries connect_fuel (suc fuel) n attempt enough late =
      Total-bind _ _ (attempts connect_fuel n enough) (λ round.
        after-IsOver n _ attempt round (λ m attempt' later.
          retries connect_fuel fuel m attempt' (omega (arith, enough, later))
            (omega (arith, late, later))))

  -- Once the server takes connections and the operation works, for good, after so many calls,
  -- `run_with_retry` returns a result of the operation, from whatever state, with fuel for as many
  -- rounds and one more.
  pub run_with_retry-IsResult :
      Total (λ s. Unit) (run_with_retry env max_retries (suc calls) fn) (λ o s. IsResult o)
  unfolding run_with_retry
  run_with_retry-IsResult = record {
    at = λ s h. (retries calls calls 0 0 (omega arith) (omega arith)).at s (omega arith);
  }
