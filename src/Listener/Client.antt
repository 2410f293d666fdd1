-- ===== src/Listener/Client.antt =====
-- mssql/test/ag_listener/main.py: class SqlClient and the four operations on a cursor.
use dockerize_and_ansible.Base.{
  ℕ, zero, suc, ◌+◌, min, String, true, false, not, Option, none, some, if◌then◌else◌, leb,
}
use dockerize_and_ansible.Base.Text.{is_nonempty}
use dockerize_and_ansible.Base.Effect.{M, pure, throw, gets, try_except, ◌>>=◌, ◌>>◌}
use dockerize_and_ansible.Listener.{
  select_1, select_any, insert, select, update, delete, connect, close_conn, open_cursor,
  close_cursor, fetchone, commit, new_uuid, execute, Statement, State, Env, ask, draw, put_conn,
  sleep_for,
}
use Prim.Native.Nat.{◌^◌}

-- `min(10, 2 ** attempt)`
abbrev pub backoff : ℕ → ℕ
backoff attempt = min 10 (2 ^ attempt)

-- What a round of a retry loop comes to.
pub data Round (A : Type 0) : Type 0 where
  done : A → Round A
  failed : Round A
  out_of_fuel : Round A

abbrev pub of_option : {A : Type 0} → Option A → Round A
of_option none = out_of_fuel
of_option (some a) = done a

module _ (env : Env) where
  unfoldable pub run : Statement → M State (Unit {0})
  run statement = ask (execute statement) (env.execute statement)

  -- `with conn.cursor() as cur: body`
  unfoldable pub with_cursor : {A : Type 0} → M State A → M State A
  with_cursor body = do
    ask open_cursor env.open_cursor
    result ← try_except body (λ e. do ask close_cursor env.close_cursor; throw e)
    ask close_cursor env.close_cursor
    pure result

  unfoldable pub open_conn : M State (Unit {0})
  open_conn = do ask connect env.connect; put_conn true

  -- The loop of `connect`, with fuel; `none` means that the fuel ran out.
  unfoldable pub connect_loop : ℕ → ℕ → ℕ → M State (Option (Unit {0}))
  connect_loop max_retries zero attempt = pure none
  connect_loop max_retries (suc fuel) attempt = do
    connected ← try_except (do open_conn; pure true) (λ e. pure false)
    if connected then pure (some tt) else (do
      let attempt = attempt + 1
      sleep_for (backoff attempt)
      connect_loop max_retries fuel (if leb max_retries attempt then 0 else attempt))

  unfoldable pub close : M State (Unit {0})
  close = do
    conn ← gets (λ s. s.conn)
    if not conn
        then pure tt
        else (do try_except (ask close_conn env.close_conn) (λ e. pure tt); put_conn false)

  unfoldable pub probe : M State (Unit {0})
  probe = with_cursor (do run select_1; ask fetchone env.fetchone; pure tt)

  unfoldable pub ensure_conn : ℕ → ℕ → M State (Option (Unit {0}))
  ensure_conn max_retries fuel = do
    conn ← gets (λ s. s.conn)
    if not conn then connect_loop max_retries fuel 0 else (do
      alive ← try_except (do probe; pure true) (λ e. pure false)
      if alive then pure (some tt) else (do close; connect_loop max_retries fuel 0))

  abbrev pub once_connected : {A : Type 0} → M State A → Option (Unit {0}) → M State (Round A)
  once_connected fn none = pure out_of_fuel
  once_connected fn (some _) = do result ← fn; pure (done result)

  -- The body of the `try` block; a failure is handled behind it.
  unfoldable pub attempt_once : {A : Type 0} → ℕ → ℕ → M State A → M State (Round A)
  attempt_once max_retries fuel fn =
      try_except (do connected ← ensure_conn max_retries fuel; once_connected fn connected)
        (λ e. pure failed)

  -- What follows a round, with the loop as `retry`.
  unfoldable pub after_round :
      {A : Type 0} → ℕ → (ℕ → M State (Option A)) → ℕ → Round A → M State (Option A)
  after_round max_retries retry attempt (done result) = pure (some result)
  after_round max_retries retry attempt out_of_fuel = pure none
  after_round max_retries retry attempt failed = do
    let attempt = attempt + 1
    close
    sleep_for (backoff attempt)
    if leb max_retries attempt then (do sleep_for 30; retry 0) else retry attempt

  -- The loop of `run_with_retry`, with fuel for itself and for each loop of `connect` in it.
  unfoldable pub retry_loop : {A : Type 0} → ℕ → ℕ → ℕ → M State A → ℕ → M State (Option A)
  retry_loop max_retries connect_fuel zero fn attempt = pure none
  retry_loop max_retries connect_fuel (suc fuel) fn attempt = do
    round ← attempt_once max_retries connect_fuel fn
    after_round max_retries (retry_loop max_retries connect_fuel fuel fn) attempt round

  unfoldable pub run_with_retry : {A : Type 0} → ℕ → ℕ → M State A → M State (Option A)
  run_with_retry max_retries fuel fn = retry_loop max_retries fuel fuel fn 0

  unfoldable pub do_create : M State String
  do_create =
      with_cursor (do
        new_id ← draw new_uuid env.uuid
        run (insert new_id)
        ask commit env.commit
        pure new_id)

  abbrev pub select_for : Option String → Statement
  select_for none = select_any
  select_for (some id) = if is_nonempty id then select id else select_any

  unfoldable pub do_read : Option String → M State (Option String)
  do_read sample_id = with_cursor (do run (select_for sample_id); ask fetchone env.fetchone)

  unfoldable pub do_update : String → M State ℕ
  do_update target_id =
      with_cursor
        (do run (update target_id); ask commit env.commit; gets (λ s. env.rowcount s.trace))

  unfoldable pub do_delete : String → M State ℕ
  do_delete target_id =
      with_cursor
        (do run (delete target_id); ask commit env.commit; gets (λ s. env.rowcount s.trace))
