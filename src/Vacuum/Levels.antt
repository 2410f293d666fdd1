-- ===== src/Vacuum/Levels.antt =====
-- The level of the connection while a table is vacuumed, and after it.
use dockerize_and_ansible.Base.{
  String, ◌≡◌, refl, sym, ◌⊎◌, inl, inr, Option, none, some, List, [], ◌∷◌, ◌++◌, All, All-append,
  string_eq,
}
use mathlib.Core.Path.{subst}
use dockerize_and_ansible.Base.Effect.{Exception, Outcome, return, raise, modify, and_then, ◌>>=◌}
use dockerize_and_ansible.Base.Effect.Ensures.{
  Post, Ensures, Ensures-pure, Ensures-throw, Ensures-gets, Ensures-Keeps, Keeps-Ensures,
  Ensures-weaken, Ensures-try_except, Ensures-bind,
}
use dockerize_and_ansible.Base.Effect.Keeps.{Keeps, Keeps-throw, Keeps-for_each}
use dockerize_and_ansible.Vacuum
use dockerize_and_ansible.Vacuum.{
  Isolation, normal, autocommit, BloatTable, Event, History, Env, State, ask, ServerType, gpdb,
  postgre, Window, window_of, finally_do, each_command, with_isolation, get_server_type,
  open_connection, get_bloat_tables, run_command, set_isolation_level, execute_commands,
  is_outside_window, vacuum_table, vacuum_database, vacuum_main, commands_for,
}

-- A command is sent at the autocommit level.
abbrev pub IsAutocommit : Event → Type 0
IsAutocommit (Vacuum.execute level cmd schema table) = level ≡ autocommit
IsAutocommit _ = Unit

-- A call that opens no new connection.
abbrev pub Stays : Env → History → Event → Type 0
Stays env h (Vacuum.connect dsn) = (e : Exception) × (env.connect dsn h ≡ raise e)
Stays env h _ = Unit

-- A call that was to set the normal level of the connection in use raised.
pub data Lost (env : Env) : History → Type 0 where
  now :
      (h : History) (e : Exception)
      → env.set_level normal h ≡ raise e
      → Lost env (h ++ Vacuum.set_level normal ∷ [])
  before : {h : History} (e : Event) → Stays env h e → Lost env h → Lost env (h ++ e ∷ [])

-- The connection is at the normal level, unless a call that was to set it there raised; and all commands
-- were sent at the autocommit level.
pub record IsSafe (env : Env) (s : State) : Type 0 where
  pub restored : (s.isolation ≡ normal) ⊎ Lost env s.trace
  pub sent_safely : All IsAutocommit s.trace

-- A call that is neither a command nor a login.
abbrev IsCalm : Event → Type 0
IsCalm (Vacuum.connect dsn) = ⊥
IsCalm (Vacuum.execute level cmd schema table) = ⊥
IsCalm _ = Unit

-- While the commands of a table run, after which the given level is set again.
record IsWithin (env : Env) (level : Isolation) (s : State) : Type 0 where
  from : (level ≡ normal) ⊎ Lost env s.trace
  sent : All IsAutocommit s.trace

abbrev IsReady : Env → Isolation → State → Type 0
IsReady env level s = IsWithin env level s × (s.isolation ≡ autocommit)

abbrev then_called : State → Event → State
then_called s e = record s { trace = s.trace ++ e ∷ [] }

module _ (env : Env) where
  or_before :
      {X : Type 0} (h : History) (e : Event)
      → Stays env h e
      → X ⊎ Lost env h
      → X ⊎ Lost env (h ++ e ∷ [])
  or_before h e stays (inl x) = inl x
  or_before h e stays (inr lost) = inr (before e stays lost)

  IsCalm-Stays : (h : History) (e : Event) → IsCalm e → Stays env h e
  IsCalm-Stays h Vacuum.read_clock calm = tt
  IsCalm-Stays h (Vacuum.connect dsn) calm = absurd calm
  IsCalm-Stays h Vacuum.select_version calm = tt
  IsCalm-Stays h Vacuum.select_gpdb_bloat calm = tt
  IsCalm-Stays h Vacuum.select_postgre_bloat calm = tt
  IsCalm-Stays h (Vacuum.set_level level) calm = tt
  IsCalm-Stays h (Vacuum.execute level cmd schema table) calm = absurd calm

  IsCalm-IsAutocommit : (e : Event) → IsCalm e → IsAutocommit e
  IsCalm-IsAutocommit Vacuum.read_clock calm = tt
  IsCalm-IsAutocommit (Vacuum.connect dsn) calm = tt
  IsCalm-IsAutocommit Vacuum.select_version calm = tt
  IsCalm-IsAutocommit Vacuum.select_gpdb_bloat calm = tt
  IsCalm-IsAutocommit Vacuum.select_postgre_bloat calm = tt
  IsCalm-IsAutocommit (Vacuum.set_level level) calm = tt
  IsCalm-IsAutocommit (Vacuum.execute level cmd schema table) calm = absurd calm

  all_then :
      (h : History) (e : Event)
      → IsAutocommit e
      → All IsAutocommit h
      → All IsAutocommit (h ++ e ∷ [])
  all_then h e ok sent = All-append IsAutocommit h (e ∷ []) sent (ok, tt)

  pub fresh-Safe :
      Ensures
        (λ (s : State). All IsAutocommit s.trace)
        (modify (with_isolation normal))
        (λ a. IsSafe env)
        (IsSafe env)
  unfolding modify
  fresh-Safe = record { at = λ s h. record { restored = inl refl; sent_safely = h } }

  connect_Post :
      (dsn : String) (s : State) (o : Outcome (Unit {0}))
      → IsSafe env s
      → env.connect dsn s.trace ≡ o
      → Post
          (λ (a : Unit {0}) (t : State). All IsAutocommit t.trace)
          (IsSafe env)
          o
          (then_called s (Vacuum.connect dsn))
  connect_Post dsn s (return a) h answer = all_then s.trace (Vacuum.connect dsn) tt h.sent_safely
  connect_Post dsn s (raise e) h answer = record {
    restored = or_before s.trace (Vacuum.connect dsn) (e, answer) h.restored;
    sent_safely = all_then s.trace (Vacuum.connect dsn) tt h.sent_safely;
  }

  -- Where a connection is opened, no level is known before it is read; else nothing changes.
  pub connects :
      (dsn : String)
      → Ensures
          (IsSafe env)
          (ask (Vacuum.connect dsn) (env.connect dsn))
          (λ a (s : State). All IsAutocommit s.trace)
          (IsSafe env)
  unfolding ask
  connects dsn = record { at = λ s h. connect_Post dsn s (env.connect dsn s.trace) h refl }

  pub ask-Safe :
      {A : Type 0} (e : Event) (answer : History → Outcome A)
      → IsCalm e
      → Keeps (IsSafe env) (ask e answer)
  unfolding ask
  ask-Safe e answer ok = record {
    at = λ s h. record {
      restored = or_before s.trace e (IsCalm-Stays s.trace e ok) h.restored;
      sent_safely = all_then s.trace e (IsCalm-IsAutocommit e ok) h.sent_safely;
    };
  }

  IsWithin-then :
      (level : Isolation) (s : State) (e : Event)
      → IsAutocommit e
      → Stays env s.trace e
      → IsWithin env level s
      → IsWithin env level (then_called s e)
  IsWithin-then level s e ok stays h = record {
    from = or_before s.trace e stays h.from;
    sent = all_then s.trace e ok h.sent;
  }

  run_command-Ready :
      (level : Isolation) (schema table cmd : String)
      → Keeps (IsReady env level) (run_command env schema table cmd)
  unfolding run_command ask ◌>>=◌
  run_command-Ready level schema table cmd = record {
    at = λ s h.
        (IsWithin-then level s (Vacuum.execute s.isolation cmd schema table) h.1 tt h.0, h.1);
  }

  each_command-Ready :
      (level : Isolation) (schema table : String) (cmds : Option (List String))
      → Keeps (IsReady env level) (each_command cmds (run_command env schema table))
  each_command-Ready level schema table none = Keeps-throw _
  each_command-Ready level schema table (some cmds) =
      Keeps-for_each cmds _ (run_command-Ready level schema table)

  set_Post :
      (Q : Unit {0} → State → Type 0) (E : State → Type 0) (level : Isolation) (s : State)
      (o : Outcome (Unit {0}))
      → (o ≡ return tt → Q tt (record s { isolation = level }))
      → ((e : Exception) → o ≡ raise e → E s)
      → Post Q E
          (and_then o (λ _. modify (with_isolation level)) s).0
          (and_then o (λ _. modify (with_isolation level)) s).1
  unfolding modify
  set_Post Q E level s (return a) set failed = set refl
  set_Post Q E level s (raise e) set failed = failed e refl

  sets :
      {P E : State → Type 0} {Q : Unit {0} → State → Type 0} (level : Isolation)
      → ((s : State)
          → P s
          → Q tt (record (then_called s (Vacuum.set_level level)) { isolation = level }))
      → ((s : State) (e : Exception)
          → P s
          → env.set_level level s.trace ≡ raise e
          → E (then_called s (Vacuum.set_level level)))
      → Ensures P (set_isolation_level env level) Q E
  unfolding set_isolation_level ask ◌>>=◌
  sets {E = E} {Q = Q} level set failed = record {
    at = λ s h.
        set_Post Q E level (then_called s (Vacuum.set_level level)) (env.set_level level s.trace)
          (λ _. set s h) (λ e. failed s e h);
  }

  -- The level is set again, or the call that was to do it raised.
  restored_or_lost :
      (level : Isolation) (s : State) (e : Exception)
      → env.set_level level s.trace ≡ raise e
      → (level ≡ normal) ⊎ Lost env s.trace
      → Lost env (s.trace ++ Vacuum.set_level level ∷ [])
  restored_or_lost level s e raised (inl is) =
      subst (λ l. Lost env (s.trace ++ Vacuum.set_level l ∷ [])) (sym is)
        (now s.trace e (subst (λ l. env.set_level l s.trace ≡ raise e) is raised))
  restored_or_lost level s e raised (inr lost) = before (Vacuum.set_level level) tt lost

  sets_back :
      (level : Isolation)
      → Ensures (IsWithin env level) (set_isolation_level env level) (λ a. IsSafe env) (IsSafe env)
  sets_back level =
      sets level
        (λ s h. record {
          restored = or_before s.trace (Vacuum.set_level level) tt h.from;
          sent_safely = all_then s.trace (Vacuum.set_level level) tt h.sent;
        })
        (λ s e h raised. record {
          restored = inr (restored_or_lost level s e raised h.from);
          sent_safely = all_then s.trace (Vacuum.set_level level) tt h.sent;
        })

  sets_autocommit :
      (level : Isolation)
      → Ensures
          (IsWithin env level)
          (set_isolation_level env autocommit)
          (λ a. IsReady env level)
          (IsWithin env level)
  sets_autocommit level =
      sets autocommit
        (λ s h. (
          IsWithin-then level (with_isolation autocommit s) (Vacuum.set_level autocommit) tt tt
              (record { from = h.from; sent = h.sent }),
          refl,
        ))
        (λ s e h raised. IsWithin-then level s (Vacuum.set_level autocommit) tt tt h)

  pub execute_commands-Safe :
      (schema table : String) (cmds : Option (List String))
      → Keeps (IsSafe env) (execute_commands env schema table cmds)
  unfolding execute_commands finally_do
  execute_commands-Safe schema table cmds = Keeps-Ensures _ (
      Ensures-bind {R = IsWithin env} _ _
        (Ensures-gets (λ (s : State). s.isolation)
          (λ s h. record { from = h.restored; sent = h.sent_safely }))
        (λ level.
          Ensures-bind {R = λ a. IsWithin env level} _ _
            (Ensures-try_except {F = IsWithin env level} _ _
              (Ensures-bind _ _ (sets_autocommit level) (λ _.
                Ensures-weaken _ (Ensures-Keeps _ (each_command-Ready level schema table cmds))
                  (λ a s h. h.0) (λ s h. h.0)))
              (λ e. Ensures-bind _ _ (sets_back level) (λ _. Ensures-throw e (λ s h. h))))
            (λ a. Ensures-bind _ _ (sets_back level) (λ _. Ensures-pure a (λ s h. h)))))
