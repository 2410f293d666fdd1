-- ===== src/Listener/Owned.antt =====
-- mssql/test/ag_listener/main.py: the ids that a worker holds are those of rows whose insertion was
-- committed and that it did not delete.
pub mod Ids
pub mod Creates
pub mod Rounds
use dockerize_and_ansible.Base.{
  ℕ, zero, suc, ◌-◌, String, ◌≡◌, refl, ◌∙◌, sym, ap, Bool, true, false, ◌||◌, not, Option, none,
  some, List, [], ◌∷◌, ◌++◌, All, Distinct, contains, contains-append, ◌==◌, string_eq, arith,
  length, if◌then◌else◌,
}
use dockerize_and_ansible.Base.Effect.{
  Exception, Outcome, return, M, pure, throw, try_except, ◌>>=◌, ◌>>◌,
}
use dockerize_and_ansible.Base.Effect.Keeps.{Keeps}
use dockerize_and_ansible.Base.Effect.Ensures.{
  Ensures, Ensures-pure, Ensures-throw, Ensures-Keeps, Ensures-both, Ensures-weaken,
  Ensures-try_except, Ensures-bind,
}
use dockerize_and_ansible.Listener
use dockerize_and_ansible.Listener.{
  Statement, Event, History, State, Env, sleep, execute, select_any, insert, select, update, delete,
  ask, draw, new_uuid,
}
use dockerize_and_ansible.Listener.Keeps.{IsOwn, IsStable, Allows, ask-Keeps}
use dockerize_and_ansible.Listener.Client.{run, with_cursor, do_create}
use dockerize_and_ansible.Listener.Rows.{
  is_insert, is_delete, inserted, deleted, Committed, before, Live, Allowed, Proper, start, next,
  inserted-then, deleted-then, Live-then, own_Allowed, own_is_delete, Proper-deleted,
}

-- The calls so far are proper, and the ids are those of different rows, all live.
pub record Owned (env : Env) (s : State) : Type 0 where
  pub proper : Proper env s.trace
  pub live : All (Live env s.trace) s.last_ids
  pub distinct : Distinct s.last_ids

-- No id that a worker generates was sent for insertion before.
pub record IsFresh (env : Env) : Type 0 where
  pub fresh : (h : History) → inserted (env.uuid h) h ≡ false

module _ (env : Env) where
  All-Live :
      (h : History) (e : Event) (ids : List String)
      → All (λ id. is_delete id e ≡ false) ids
      → All (Live env h) ids
      → All (Live env (h ++ e ∷ [])) ids
  All-Live h e [] quiet live = tt
  All-Live h e (id ∷ ids) quiet live =
      (Live-then env id h e quiet.0 live.0, All-Live h e ids quiet.1 live.1)

  none_deleted : (e : Event) (ids : List String) → IsOwn e → All (λ id. is_delete id e ≡ false) ids
  none_deleted e [] own = tt
  none_deleted e (id ∷ ids) own = (own_is_delete id e own, none_deleted e ids own)

  -- A proper call that deletes none of the rows that are held.
  Owned-then :
      (s : State) (e : Event)
      → Allowed env s.trace e
      → All (λ id. is_delete id e ≡ false) s.last_ids
      → Owned env s
      → Owned env (record s { trace = s.trace ++ e ∷ [] })
  Owned-then s e ok quiet h = record {
    proper = next e h.proper ok;
    live = All-Live s.trace e s.last_ids quiet h.live;
    distinct = h.distinct;
  }

  Owned-own :
      (s : State) (e : Event)
      → IsOwn e
      → Owned env s
      → Owned env (record s { trace = s.trace ++ e ∷ [] })
  Owned-own s e own h =
      Owned-then s e (own_Allowed env s.trace e own) (none_deleted e s.last_ids own) h

  pub Owned-IsStable : IsStable (Owned env)
  Owned-IsStable = record {
    calls = Owned-own;
    conns = λ s b h. record { proper = h.proper; live = h.live; distinct = h.distinct };
  }

  -- Also a live row, which need not be held.
  abbrev pub Focused : String → State → Type 0
  Focused id s = Owned env s × Live env s.trace id

  pub Focused-IsStable : (id : String) → IsStable (Focused id)
  Focused-IsStable id = record {
    calls = λ s e own h.
        (Owned-own s e own h.0, Live-then env id s.trace e (own_is_delete id e own) h.1);
    conns = λ s b h. (Owned-IsStable.conns s b h.0, h.1);
  }

  -- A row whose insertion was committed and that is not held.
  abbrev pub Dropped : String → State → Type 0
  Dropped id s = Owned env s × Committed env id s.trace × (contains s.last_ids id ≡ false)

  pub Dropped-IsStable : (id : String) → IsStable (Dropped id)
  Dropped-IsStable id = record {
    calls = λ s e own h. (Owned-own s e own h.0, before e h.1, h.2);
    conns = λ s b h. (Owned-IsStable.conns s b h.0, h.1, h.2);
  }

  all_none :
      (e : Event) (ids : List String)
      → ((id : String) → is_delete id e ≡ false)
      → All (λ id. is_delete id e ≡ false) ids
  all_none e [] quiet = tt
  all_none e (id ∷ ids) quiet = (quiet id, all_none e ids quiet)

  pub updates-Allows : (id : String) → Allows (Focused id) (update id)
  updates-Allows id = record {
    sends = λ s h. (
      Owned-then s (execute (update id)) h.1
          (all_none (execute (update id)) s.last_ids (λ row. refl)) h.0,
      Live-then env id s.trace (execute (update id)) refl h.1,
    );
  }

  pub selects-Allows : (id : String) → Allows (Focused id) (select id)
  selects-Allows id = record {
    sends = λ s h. (
      Owned-then s (execute (select id)) h.1
          (all_none (execute (select id)) s.last_ids (λ row. refl)) h.0,
      Live-then env id s.trace (execute (select id)) refl h.1,
    );
  }

  pub any-Allows : Allows (Owned env) select_any
  any-Allows = record {
    sends = λ s h.
        Owned-then s (execute select_any) tt
          (all_none (execute select_any) s.last_ids (λ row. refl)) h;
  }

  pub Focused-any : (id : String) → Allows (Focused id) select_any
  Focused-any id = record {
    sends = λ s h. (any-Allows.sends s h.0, Live-then env id s.trace (execute select_any) refl h.1);
  }

  not_among :
      (row : String) (ids : List String)
      → contains ids row ≡ false
      → All (λ id. is_delete id (execute (delete row)) ≡ false) ids
  not_among row [] h = tt
  not_among row (id ∷ ids) h = (ground (arith, h), not_among row ids (ground (arith, h)))

  pub deletes-Allows : (id : String) → Allows (Dropped id) (delete id)
  deletes-Allows id = record {
    sends = λ s h. (
      Owned-then s (execute (delete id)) h.1 (not_among id s.last_ids h.2) h.0,
      before (execute (delete id)) h.1,
      h.2,
    );
  }

  pub Live-own :
      (id : String) (s : State) (e : Event)
      → IsOwn e
      → Live env s.trace id
      → Live env (s.trace ++ e ∷ []) id
  Live-own id s e own = Live-then env id s.trace e (own_is_delete id e own)

  pub sends_insert :
      (id : String) (s : State)
      → inserted id s.trace ≡ false
      → Owned env s
      → Owned env (record s { trace = s.trace ++ execute (insert id) ∷ [] })
  sends_insert id s new h =
      Owned-then s (execute (insert id)) new
        (all_none (execute (insert id)) s.last_ids (λ row. refl)) h

  pub Owned-sleep :
      (s : State) (seconds : ℕ)
      → Owned env s
      → Owned env (record s { trace = s.trace ++ sleep seconds ∷ [] })
  Owned-sleep s seconds h =
      Owned-then s (sleep seconds) tt (all_none (sleep seconds) s.last_ids (λ row. refl)) h
