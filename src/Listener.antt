-- ===== src/Listener.antt =====
-- mssql/test/ag_listener/main.py: a worker sends creates, reads, updates and deletes through the
-- listener of an availability group, over a connection that it opens again whenever it is lost.
pub mod Client
pub mod Worker
pub mod Keeps
pub mod Rounds
pub mod Rows
pub mod Results
pub mod Owned
pub mod Waits
pub mod Recovery
use dockerize_and_ansible.Base.{
  ℕ, String, Bool, true, false, Option, none, some, List, [], ◌∷◌, ◌++◌,
}
use dockerize_and_ansible.Base.Effect.{Exception, Outcome, return, M, pure, ◌>>=◌, ◌>>◌}

pub data Statement : Type 0 where
  select_1 select_any : Statement
  insert select update delete : String → Statement

-- `random_choice` stands for each draw of the generator.
pub data Event : Type 0 where
  connect close_conn open_cursor close_cursor fetchone commit new_uuid random_choice : Event
  execute : Statement → Event
  sleep : ℕ → Event

abbrev pub History : Type 0
History = List Event

pub data Op : Type 0 where
  create read update_one delete_one : Op

-- The server, the package `pymssql` and the generators of the standard library. An index that is
-- drawn for a list is given the list's length; a wait is in seconds, rounded up.
pub record Env : Type 0 where
  pub connect : History → Outcome (Unit {0})
  pub close_conn : History → Outcome (Unit {0})
  pub open_cursor : History → Outcome (Unit {0})
  pub close_cursor : History → Outcome (Unit {0})
  pub execute : Statement → History → Outcome (Unit {0})
  -- The id of the row, if there is one.
  pub fetchone : History → Outcome (Option String)
  pub commit : History → Outcome (Unit {0})
  pub rowcount : History → ℕ
  pub uuid : History → String
  pub choose_op : History → Op
  pub choose_index : ℕ → History → ℕ
  pub use_known_id : History → Bool
  pub interval : History → ℕ

-- A worker with its client: whether `conn` is a connection, and `last_ids`.
pub record State : Type 0 where
  pub conn : Bool
  pub last_ids : List String
  pub trace : History

unfoldable pub ask : {A : Type 0} → Event → (History → Outcome A) → M State A
ask e answer s = (answer s.trace, record s { trace = s.trace ++ e ∷ [] })

-- A draw, or a wait: it cannot fail.
unfoldable pub draw : {A : Type 0} → Event → (History → A) → M State A
unfolding ask
draw e answer = ask e (λ h. return (answer h))

unfoldable pub put_conn : Bool → M State (Unit {0})
put_conn b s = (return tt, record s { conn = b })

unfoldable pub put_ids : List String → M State (Unit {0})
put_ids ids s = (return tt, record s { last_ids = ids })

abbrev pub sleep_for : ℕ → M State (Unit {0})
sleep_for n = draw (sleep n) (λ h. tt)
