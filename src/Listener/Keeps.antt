-- ===== src/Listener/Keeps.antt =====
-- mssql/test/ag_listener/main.py: what the client keeps, for any invariant that calls and brief
-- waits leave true.
use dockerize_and_ansible.Base.{
  ℕ, zero, suc, ◌+◌, ◌≤◌, String, ◌≡◌, Option, none, some, [], ◌∷◌, ◌++◌, arith,
}
use dockerize_and_ansible.Base.Effect.{Outcome, M}
use dockerize_and_ansible.Base.Effect.Keeps.{
  Keeps, Keeps-pure, Keeps-throw, Keeps-bind, Keeps-try_except, keeps_rules,
}
use dockerize_and_ansible.Listener.{
  Event, sleep, Statement, State, Env, History, ask, draw, put_conn, execute, select_1, insert,
  update, delete,
}
use dockerize_and_ansible.Listener.Client.{
  backoff, Round, done, failed, out_of_fuel, run, with_cursor, open_conn, connect_loop, close,
  probe, ensure_conn, once_connected, attempt_once, after_round, retry_loop, run_with_retry,
  do_create, select_for, do_read, do_update, do_delete,
}
use Prim.Native.Nat.{◌^◌}
use native.Mathlib.Nat.{two-pow-succ, one-le-pow}

-- A wait between two and thirty seconds, or another call.
abbrev pub IsBrief : Event → Type 0
IsBrief (sleep seconds) = (2 ≤ seconds) × (seconds ≤ 30)
IsBrief _ = Unit

-- A call that the client makes by itself: no statement but `SELECT 1`.
abbrev pub IsOwn : Event → Type 0
IsOwn (sleep seconds) = (2 ≤ seconds) × (seconds ≤ 30)
IsOwn (execute select_1) = Unit
IsOwn (execute _) = ⊥
IsOwn _ = Unit

-- An invariant of the client's own calls.
pub record IsStable (P : State → Type 0) : Type 0 where
  pub calls : (s : State) (e : Event) → IsOwn e → P s → P (record s { trace = s.trace ++ e ∷ [] })
  pub conns : (s : State) (b : _) → P s → P (record s { conn = b })

-- A statement of an operation leaves it true.
pub record Allows (P : State → Type 0) (q : Statement) : Type 0 where
  pub sends : (s : State) → P s → P (record s { trace = s.trace ++ execute q ∷ [] })

two_power : (n : ℕ) → 2 ≤ 2 ^ (n + 1)
two_power n =
    let next : n + 1 ≡ suc n = omega arith in
    let double : 2 ^ suc n ≡ 2 ^ n + 2 ^ n = two-pow-succ n in
    let above : 1 ≤ 2 ^ n = one-le-pow n 2 (omega arith) in rw next (omega (arith, double, above))

pub backoff-IsOwn : (attempt : ℕ) → IsOwn (sleep (backoff (attempt + 1)))
backoff-IsOwn attempt = (omega (arith, two_power attempt), omega arith)

pub half_a_minute : IsOwn (sleep 30)
half_a_minute = (omega arith, omega arith)

module _ {P : State → Type 0} (stable : IsStable P) where
  pub ask-Keeps :
      {A : Type 0} (e : Event) (answer : History → Outcome A) → IsOwn e → Keeps P (ask e answer)
  unfolding ask
  ask-Keeps e answer brief = record { at = λ s h. stable.calls s e brief h }

  pub draw-Keeps :
      {A : Type 0} (e : Event) (answer : History → A) → IsOwn e → Keeps P (draw e answer)
  unfolding draw
  draw-Keeps e answer brief = ask-Keeps e _ brief

  put_conn-Keeps : (b : _) → Keeps P (put_conn b)
  unfolding put_conn
  put_conn-Keeps b = record { at = λ s h. stable.conns s b h }

module _ {P : State → Type 0} (stable : IsStable P) (env : Env) where
  pub run-Keeps : (statement : Statement) → Allows P statement → Keeps P (run env statement)
  unfolding run ask
  run-Keeps statement allows = record { at = λ s h. allows.sends s h }

  probes : Allows P select_1
  probes = record { sends = λ s h. stable.calls s (execute select_1) tt h }

  pub with_cursor-Keeps :
      {A : Type 0} (body : M State A) → Keeps P body → Keeps P (with_cursor env body)
  unfolding with_cursor
  with_cursor-Keeps body kept = Keeps-bind _ _ (ask-Keeps stable _ _ tt) (λ _.
      Keeps-bind _ _
        (Keeps-try_except _ _ kept
          (λ e. Keeps-bind _ _ (ask-Keeps stable _ _ tt) (λ _. Keeps-throw e)))
        (λ result. Keeps-bind _ _ (ask-Keeps stable _ _ tt) (λ _. Keeps-pure result)))

  pub open_conn-Keeps : Keeps P (open_conn env)
  unfolding open_conn
  open_conn-Keeps = search (keeps_rules, ask-Keeps, put_conn-Keeps, stable) depth 20

  pub connect_loop-Keeps :
      (max_retries fuel attempt : ℕ) → Keeps P (connect_loop env max_retries fuel attempt)
  unfolding connect_loop
  connect_loop-Keeps max_retries zero attempt = Keeps-pure none
  connect_loop-Keeps max_retries (suc fuel) attempt =
      search
        (
          keeps_rules,
          open_conn-Keeps,
          draw-Keeps,
          stable,
          backoff-IsOwn attempt,
          connect_loop-Keeps max_retries fuel,
        )
        depth 20

  pub close-Keeps : Keeps P (close env)
  unfolding close
  close-Keeps = search (keeps_rules, ask-Keeps, put_conn-Keeps, stable) depth 20

  pub probe-Keeps : Keeps P (probe env)
  unfolding probe
  probe-Keeps =
      search (keeps_rules, with_cursor-Keeps, run-Keeps, probes, ask-Keeps, stable) depth 20

  pub ensure_conn-Keeps : (max_retries fuel : ℕ) → Keeps P (ensure_conn env max_retries fuel)
  unfolding ensure_conn
  ensure_conn-Keeps max_retries fuel =
      search (keeps_rules, probe-Keeps, close-Keeps, connect_loop-Keeps) depth 20

  module _ {A : Type 0} (fn : M State A) (kept : Keeps P fn) where
    once_connected-Keeps :
        (connected : Option (Unit {0})) → Keeps P (once_connected env fn connected)
    once_connected-Keeps none = Keeps-pure _
    once_connected-Keeps (some _) = search (keeps_rules, kept)

    attempt_once-Keeps : (max_retries fuel : ℕ) → Keeps P (attempt_once env max_retries fuel fn)
    unfolding attempt_once
    attempt_once-Keeps max_retries fuel =
        search (keeps_rules, ensure_conn-Keeps, once_connected-Keeps)

    after_round-Keeps :
        (max_retries : ℕ) (retry : ℕ → M State (Option A)) (attempt : ℕ) (round : Round A)
        → ((attempt' : ℕ) → Keeps P (retry attempt'))
        → Keeps P (after_round env max_retries retry attempt round)
    unfolding after_round
    after_round-Keeps max_retries retry attempt (done result) k = Keeps-pure _
    after_round-Keeps max_retries retry attempt out_of_fuel k = Keeps-pure _
    after_round-Keeps max_retries retry attempt failed k =
        search
          (keeps_rules, close-Keeps, draw-Keeps, stable, backoff-IsOwn attempt, half_a_minute, k)
          depth 20

    retry_loop-Keeps :
        (max_retries connect_fuel fuel attempt : ℕ)
        → Keeps P (retry_loop env max_retries connect_fuel fuel fn attempt)
    unfolding retry_loop
    retry_loop-Keeps max_retries connect_fuel zero attempt = Keeps-pure none
    retry_loop-Keeps max_retries connect_fuel (suc fuel) attempt =
        Keeps-bind _ _ (attempt_once-Keeps max_retries connect_fuel) (λ round.
          after_round-Keeps max_retries _ attempt round
            (retry_loop-Keeps max_retries connect_fuel fuel))

    pub run_with_retry-Keeps :
        (max_retries fuel : ℕ) → Keeps P (run_with_retry env max_retries fuel fn)
    unfolding run_with_retry
    run_with_retry-Keeps max_retries fuel = retry_loop-Keeps max_retries fuel fuel 0

  pub do_create-Keeps : ((id : String) → Allows P (insert id)) → Keeps P (do_create env)
  unfolding do_create
  do_create-Keeps inserts =
      search (keeps_rules, with_cursor-Keeps, run-Keeps, inserts, ask-Keeps, draw-Keeps, stable)
        depth 20

  pub do_read-Keeps :
      (sample_id : Option String)
      → Allows P (select_for env sample_id)
      → Keeps P (do_read env sample_id)
  unfolding do_read
  do_read-Keeps sample_id selects =
      search (keeps_rules, with_cursor-Keeps, run-Keeps, ask-Keeps, stable) depth 20

  pub do_update-Keeps : (id : String) → Allows P (update id) → Keeps P (do_update env id)
  unfolding do_update
  do_update-Keeps id updates =
      search (keeps_rules, with_cursor-Keeps, run-Keeps, ask-Keeps, stable) depth 20

  pub do_delete-Keeps : (id : String) → Allows P (delete id) → Keeps P (do_delete env id)
  unfolding do_delete
  do_delete-Keeps id deletes =
      search (keeps_rules, with_cursor-Keeps, run-Keeps, ask-Keeps, stable) depth 20
