-- ===== src/Partition/Jobs/Migrate.antt =====
-- Which partitions `partition_migrate` moves.
use dockerize_and_ansible.Base.{
  ℕ, ◌+◌, ◌*◌, String, ◌≡◌, refl, ◌∙◌, ap, Bool, true, List, [], ◌∷◌, ◌++◌, All, append-nil,
  append_assoc, ltb, leading, flat, ◌==◌, if◌then◌else◌, string_eq, Bool-cases, inl, inr,
}
use dockerize_and_ansible.Base.Dict
use dockerize_and_ansible.Base.Effect.{return, M, ◌>>=◌}
use dockerize_and_ansible.Base.Effect.Emits.{Emits, Emits-pure, Emits-bind, Emits-step}
use dockerize_and_ansible.Partition.State
use dockerize_and_ansible.Partition.State.{Subpartition, Env, State, Event, History, ask, trimmed}
use dockerize_and_ansible.Partition.Manager.{
  Whitelist, full_name, day, cold_tablespace, get_now, read_bound, commit_tx,
  check_subpartition_canarchive, migrate_subpartition_tablespace,
}
use dockerize_and_ansible.Partition.Jobs.{migrate_leading}

-- The moves and the commits, in order.
abbrev pub moves : History → List Event
moves [] = []
moves (State.set_tablespace p name ∷ h) = State.set_tablespace p name ∷ moves h
moves (State.commit ∷ h) = State.commit ∷ moves h
moves (_ ∷ h) = moves h

moves-append : (g h : History) → moves (g ++ h) ≡ moves g ++ moves h
moves-append [] h = refl
moves-append (State.set_tablespace p name ∷ g) h =
    ap (◌∷◌ (State.set_tablespace p name)) (moves-append g h)
moves-append (State.commit ∷ g) h = ap (◌∷◌ State.commit) (moves-append g h)
moves-append (_ ∷ g) h = moves-append g h

-- The clock shows one time throughout, and the database does what it is asked to.
pub record IsCalm (env : Env) (now : ℕ) : Type 0 where
  pub stopped : (h : History) → env.now h ≡ now
  pub moved :
      (p : Subpartition) (name : String) (h : History) → env.set_tablespace p name h ≡ return tt
  pub committed : (h : History) → env.commit h ≡ return tt

-- The text of the end of the range of a partition is a time stamp.
abbrev pub IsReadable : Env → (Subpartition → ℕ) → Subpartition → Type 0
IsReadable env end_of p = env.strptime (trimmed p.partitionrangeend) ≡ return (end_of p)

-- A partition is old once its end lies more than the days of grace of its table behind.
abbrev pub is_old : Whitelist → ℕ → (Subpartition → ℕ) → Subpartition → Bool
is_old whitelist now end_of p =
    ltb (end_of p + Dict.get_or whitelist (full_name p.table) 180 * day) now

-- Its move, unless it stands in the cold tablespace, and a commit either way.
abbrev pub move_of : Subpartition → List Event
move_of p =
    (if p.tablespace == cold_tablespace then [] else State.set_tablespace p cold_tablespace ∷ [])
    ++ State.commit ∷ []

module _ (env : Env) {now : ℕ} (calm : IsCalm env now) (end_of : Subpartition → ℕ) where
  abbrev Moves : {A : Type 0} → M State A → State → List Event → Type 0
  Moves m s expected = Emits (λ t. moves t.trace) m s expected

  canarchive_lem :
      (whitelist : Whitelist) (p : Subpartition)
      → IsReadable env end_of p
      → (s : State)
      → check_subpartition_canarchive env whitelist p s ≡ (
        return (is_old whitelist now end_of p),
        record { trace = s.trace ++ State.read_clock ∷ [] },
      )
  unfolding check_subpartition_canarchive read_bound get_now ask ◌>>=◌
  canarchive_lem whitelist p readable s = rw (readable, calm.stopped s.trace)

  migrate-Moves :
      (p : Subpartition) (s : State)
      → Moves (migrate_subpartition_tablespace env p) s (
          if p.tablespace == cold_tablespace
          then []
          else State.set_tablespace p cold_tablespace ∷ [])
  unfolding migrate_subpartition_tablespace ask ◌>>=◌
  migrate-Moves p s = elim (Bool-cases (p.tablespace == cold_tablespace)) [
    | inl cold ↦ rw cold (Emits-pure true s)
    | inr warm ↦ rw warm (record {
      final = record { trace = s.trace ++ State.set_tablespace p cold_tablespace ∷ [] };
      result = true;
      ran = rw (calm.moved p cold_tablespace s.trace);
      sent = moves-append s.trace _;
    })
  ]

  commit-Moves : (s : State) → Moves (commit_tx env) s (State.commit ∷ [])
  unfolding commit_tx ask
  commit-Moves s = record {
    final = record { trace = s.trace ++ State.commit ∷ [] };
    result = tt;
    ran = rw (calm.committed s.trace);
    sent = moves-append s.trace _;
  }

  -- With the clock stopped and a database that obeys, the loop returns, where the ends of the
  -- ranges of its partitions can be read, and moves exactly the leading run of old partitions, each
  -- once and in order, leaving out those that are cold already, with a commit after every
  -- partition; nothing behind the first that is not old is touched.
  pub migrate_leading-Emits :
      (whitelist : Whitelist) (ps : List Subpartition)
      → All (IsReadable env end_of) ps
      → (s : State)
      → Emits
          (λ (t : State). moves t.trace)
          (migrate_leading env whitelist ps)
          s
          (flat move_of (leading (is_old whitelist now end_of) ps))
  unfolding migrate_leading
  migrate_leading-Emits whitelist [] readable s = Emits-pure tt s
  migrate_leading-Emits whitelist (p ∷ ps) readable s =
      Emits-step _ _ _ (canarchive_lem whitelist p readable.0 s)
        (moves-append s.trace _ ∙ append-nil _)
        (elim (Bool-cases (is_old whitelist now end_of p)) [
          | inr young ↦ rw young (Emits-pure tt _)
          | inl old ↦
              rw (old, append_assoc)
                (let q = migrate-Moves p _ in
                  let r = commit-Moves q.final in
                  Emits-bind _ _ _ _ _ q (
                    Emits-bind _ _ _ _ _ r (migrate_leading-Emits whitelist ps readable.1 r.final)))
        ])
