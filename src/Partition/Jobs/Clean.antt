-- ===== src/Partition/Jobs/Clean.antt =====
-- Which partitions `partition_governance` drops, and what stops it.
use dockerize_and_ansible.Base.{
  ℕ, zero, suc, ◌+◌, ◌-◌, ◌*◌, ◌≡◌, refl, ◌∙◌, ap, Bool, true, false, ◌&&◌, ◌||◌, List, [], ◌∷◌,
  ◌++◌, All, append-nil, append_assoc, arith, ltb, length, leading, flat, keep, ◌==◌, ==_refl,
  if◌then◌else◌, nat_eq, string_eq, Bool-cases, inl, inr,
}
use dockerize_and_ansible.Base.Dict
use dockerize_and_ansible.Base.Effect.{return, M, ◌>>=◌, for_each}
use dockerize_and_ansible.Base.Effect.Emits.{Emits, Emits-pure, Emits-bind, Emits-step}
use dockerize_and_ansible.Partition.State
use dockerize_and_ansible.Partition.State.{
  Table, Range, Subpartition, descending, Env, State, Event, History, ask, trimmed,
}
use dockerize_and_ansible.Partition.Manager.{
  Whitelist, Bounds, full_name, is_empty_whitelist, day, beyond_20_intervals, get_now, read_bound,
  read_bounds, get_partition_tables, get_partition_table_subpartitions, check_subpartition_isempty,
  drop_subpartition, check_subpartition_needclean,
}
use dockerize_and_ansible.Partition.Jobs.{
  drop_newest, drop_oldest, govern_table, with_manager, partition_governance,
}

-- The drops, in order.
abbrev pub drops : History → List Event
drops [] = []
drops (State.drop_rank t k ∷ h) = State.drop_rank t k ∷ drops h
drops (_ ∷ h) = drops h

drops-append : (g h : History) → drops (g ++ h) ≡ drops g ++ drops h
drops-append [] h = refl
drops-append (State.drop_rank t k ∷ g) h = ap (◌∷◌ (State.drop_rank t k)) (drops-append g h)
drops-append (_ ∷ g) h = drops-append g h

-- The clock shows one time throughout, each partition has one number of rows, and the database
-- drops what it is asked to.
pub record IsCalm (env : Env) (now : ℕ) (rows : Subpartition → ℕ) : Type 0 where
  pub stopped : (h : History) → env.now h ≡ now
  pub counted : (p : Subpartition) (h : History) → env.rowcount p h ≡ return (rows p)
  pub dropped : (t : Table) (k : ℕ) (h : History) → env.drop_rank t k h ≡ return tt

-- The texts of the range of a partition are time stamps.
abbrev pub IsReadable : Env → (Subpartition → Bounds) → Subpartition → Type 0
IsReadable env bounds p =
    (env.strptime (trimmed p.partitionrangestart) ≡ return (bounds p).start)
    × (env.strptime (trimmed p.partitionrangeend) ≡ return (bounds p).end)

-- A range reaches too far ahead: by more than twenty of its lengths, or by more than a year.
abbrev pub is_ahead : ℕ → Bounds → Bool
is_ahead now b = beyond_20_intervals b now || ltb (now + 365 * day) b.end

-- The partitions of a table, newest first, with their ranks by age: the oldest has the rank 1.
abbrev pub ranked : List Subpartition → List (Subpartition × ℕ)
ranked [] = []
ranked (p ∷ ps) = (p, suc (length ps)) ∷ ranked ps

abbrev pub drop_of : Subpartition × ℕ → List Event
drop_of (p, k) = State.drop_rank p.table k ∷ []

-- What follows the leading run.
abbrev pub behind : {A : Type 0} → (A → Bool) → List A → List A
behind f [] = []
behind f (x ∷ xs) = if f x then behind f xs else x ∷ xs

-- A table, newest first, without the partition of a rank; and oldest first.
abbrev pub without_newest : ℕ → List Subpartition → List Subpartition
without_newest k [] = []
without_newest k (p ∷ ps) = if k == suc (length ps) then ps else p ∷ without_newest k ps

abbrev pub without_oldest : ℕ → List Subpartition → List Subpartition
without_oldest k [] = []
without_oldest zero (p ∷ ps) = p ∷ ps
without_oldest (suc zero) (p ∷ ps) = ps
without_oldest (suc (suc k)) (p ∷ ps) = p ∷ without_oldest (suc k) ps

-- What the drops leave of a table.
abbrev pub leaves :
    (ℕ → List Subpartition → List Subpartition) → List Event → List Subpartition → List Subpartition
leaves without [] ps = ps
leaves without (State.drop_rank t k ∷ es) ps = leaves without es (without k ps)
leaves without (_ ∷ es) ps = leaves without es ps

module _ (env : Env) {now : ℕ} {rows : Subpartition → ℕ} (calm : IsCalm env now rows) where
  abbrev pub is_empty : Subpartition → Bool
  is_empty p = rows p == 0

  abbrev Drops : {A : Type 0} → M State A → State → List Event → Type 0
  Drops m s expected = Emits (λ (t : State). drops t.trace) m s expected

  abbrev after : State → Event → State
  after s e = record { trace = s.trace ++ e ∷ [] }

  unread : (s : State) → drops (after s State.read_clock).trace ≡ drops s.trace
  unread s = drops-append s.trace _ ∙ append-nil _

  isempty_lem :
      (p : Subpartition) (s : State)
      → check_subpartition_isempty env p s
        ≡ (return (is_empty p), after s (State.select_first_row p))
  unfolding check_subpartition_isempty ask ◌>>=◌
  isempty_lem p s = rw (calm.counted p s.trace)

  drop-Drops :
      (p : Subpartition) (k : ℕ) (s : State)
      → Drops (drop_subpartition env p k) s (State.drop_rank p.table k ∷ [])
  unfolding drop_subpartition ask ◌>>=◌
  drop-Drops p k s = record {
    final = after s (State.drop_rank p.table k);
    result = true;
    ran = rw (calm.dropped p.table k s.trace);
    sent = drops-append s.trace _;
  }

  drop_oldest-Drops :
      (ps : List Subpartition) (s : State)
      → Drops (drop_oldest env ps) s (flat (λ p. drop_of (p, 1)) (leading is_empty ps))
  unfolding drop_oldest
  drop_oldest-Drops [] s = Emits-pure tt s
  drop_oldest-Drops (p ∷ ps) s =
      Emits-step _ _ _ (isempty_lem p s) (drops-append s.trace _ ∙ append-nil _)
        (elim (Bool-cases (is_empty p)) [
          | inr full ↦ rw full (Emits-pure tt _)
          | inl empty ↦
              rw empty
                (let q = drop-Drops p 1 _ in Emits-bind _ _ _ _ _ q (drop_oldest-Drops ps q.final))
        ])

  leaves-oldest :
      (ps : List Subpartition)
      → leaves without_oldest (flat (λ p. drop_of (p, 1)) (leading is_empty ps)) ps
        ≡ behind is_empty ps
  leaves-oldest [] = refl
  leaves-oldest (p ∷ ps) = elim (Bool-cases (is_empty p)) [
    | inr full ↦ rw full
    | inl empty ↦ rw empty (leaves-oldest ps)
  ]

  -- With the clock stopped, a steady number of rows in each partition and a database that obeys,
  -- the loop over the oldest partitions returns and drops as many times the partition of rank 1 as
  -- the list has empty partitions before the first that holds a row, which leaves the table from
  -- that one on. Whether a partition lies ahead is not asked, and no range is read: of a table
  -- without rows nothing is left.
  pub drop_oldest-leaves :
      (ps : List Subpartition) (s : State)
      → Emits
          (λ (t : State). drops t.trace)
          (drop_oldest env ps)
          s
          (flat (λ p. drop_of (p, 1)) (leading is_empty ps))
        × (leaves without_oldest (flat (λ p. drop_of (p, 1)) (leading is_empty ps)) ps
            ≡ behind is_empty ps)
  drop_oldest-leaves ps s = (drop_oldest-Drops ps s, leaves-oldest ps)

  module _ (bounds : Subpartition → Bounds) where
    abbrev pub is_removable : Subpartition × ℕ → Bool
    is_removable (p, _) = is_ahead now (bounds p) && is_empty p

    -- The state after the check: the second reading is taken only if the first is not conclusive.
    abbrev checked : Subpartition → State → State
    checked p s =
        if beyond_20_intervals (bounds p) now
        then after s State.read_clock
        else after (after s State.read_clock) State.read_clock

    needclean_lem :
        (p : Subpartition)
        → IsReadable env bounds p
        → (s : State)
        → check_subpartition_needclean env p.range s
          ≡ (return (is_ahead now (bounds p)), checked p s)
    unfolding check_subpartition_needclean read_bounds read_bound get_now ask ◌>>=◌
    needclean_lem p (start, end) s = elim (Bool-cases (beyond_20_intervals (bounds p) now)) [
      | inl far ↦ rw (start, end, calm.stopped, far)
      | inr near ↦ rw (start, end, calm.stopped, near, calm.stopped)
    ]

    checked-silent : (p : Subpartition) (s : State) → drops (checked p s).trace ≡ drops s.trace
    checked-silent p s = elim (Bool-cases (beyond_20_intervals (bounds p) now)) [
      | inl far ↦ rw far (unread s)
      | inr near ↦ rw near (unread (after s State.read_clock) ∙ unread s)
    ]

    drop_newest-Drops :
        (ps : List Subpartition)
        → All (IsReadable env bounds) ps
        → (s : State)
        → Drops (drop_newest env (length ps) ps) s (flat drop_of (leading is_removable (ranked ps)))
    unfolding drop_newest
    drop_newest-Drops [] readable s = Emits-pure tt s
    drop_newest-Drops (p ∷ ps) readable s =
        Emits-step _ _ _ (needclean_lem p readable.0 s) (checked-silent p s)
          (elim (Bool-cases (is_ahead now (bounds p))) [
            | inr near ↦ rw near (Emits-pure tt _)
            | inl ahead ↦ rw ahead (
                Emits-step _ _ _ (isempty_lem p _)
                  (drops-append (checked p s).trace _ ∙ append-nil _)
                  (elim (Bool-cases (is_empty p)) [
                    | inr full ↦ rw full (Emits-pure tt _)
                    | inl empty ↦ rw empty (
                        let before : suc (length ps) - 1 ≡ length ps = omega arith in
                        let q = drop-Drops p (suc (length ps)) _ in
                        Emits-bind _ _ _ _ _ q
                          (rw before (drop_newest-Drops ps readable.1 q.final)))
                  ]))
          ])

    leaves-newest :
        (ps : List Subpartition)
        → leaves without_newest (flat drop_of (leading is_removable (ranked ps))) ps
          ≡ behind (λ p. is_removable (p, 0)) ps
    leaves-newest [] = refl
    leaves-newest (p ∷ ps) = elim (Bool-cases (is_removable (p, 0))) [
      | inr kept ↦ rw kept
      | inl gone ↦ rw (gone, ==_refl (suc (length ps))) (leaves-newest ps)
    ]

    -- With the clock stopped, a steady number of rows in each partition and a database that obeys,
    -- the loop over the newest partitions, begun with their number as the rank, returns, where the
    -- ranges of these partitions can be read. It drops exactly the leading run of partitions that
    -- reach too far ahead and hold no row, each under the rank that it has by age, so that what the
    -- drops leave of the table is what follows that run: no drop takes away another partition than
    -- the one checked.
    pub drop_newest-leaves :
        (ps : List Subpartition)
        → All (IsReadable env bounds) ps
        → (s : State)
        → Emits
            (λ (t : State). drops t.trace)
            (drop_newest env (length ps) ps)
            s
            (flat drop_of (leading is_removable (ranked ps)))
          × (leaves without_newest (flat drop_of (leading is_removable (ranked ps))) ps
              ≡ behind (λ p. is_removable (p, 0)) ps)
    drop_newest-leaves ps readable s = (drop_newest-Drops ps readable s, leaves-newest ps)

-- The run up to a table whose list of subpartitions is empty.
abbrev pub aborted : History → Table → History
aborted h t =
    h ++ State.connect ∷ State.select_tables ∷ State.select_subpartitions t descending ∷ []

-- If the first of the tables to govern has no subpartition, for a whitelist that is not empty and a
-- database that connects and lists them, the run ends there: `subpartitions[0]` raises, the handler
-- swallows it, and neither is another table looked at nor anything committed.
pub partition_governance-aborts :
    (env : Env) (fuel : ℕ) (whitelist : Whitelist) (t : Table) (ts listed : List Table) (s : State)
    → is_empty_whitelist whitelist ≡ false
    → ((h : History) → env.connect h ≡ return tt)
    → ((h : History) → env.tables h ≡ return listed)
    → keep (λ t. Dict.has whitelist (full_name t)) listed ≡ t ∷ ts
    → ((h : History) → env.subpartitions t descending h ≡ return [])
    → partition_governance env fuel whitelist s ≡ (return tt, record { trace = aborted s.trace t })
unfolding partition_governance with_manager get_partition_tables govern_table
    get_partition_table_subpartitions drop_newest for_each ask ◌>>=◌
partition_governance-aborts env fuel whitelist t ts listed s some connected tables kept none =
    rw (some, connected, tables, kept, none, append_assoc, append_assoc)
