-- ===== src/Partition/Jobs/Precreate.antt =====
-- The loop that creates partitions ahead of time: it ends, and what it has created then.
use dockerize_and_ansible.Base.{
  ℕ, zero, suc, ◌+◌, ◌-◌, ◌*◌, ◌≤◌, ◌<◌, String, ◌<>◌, ◌≡◌, refl, ◌∙◌, ap, ◌⊎◌, inl, inr, Bool,
  true, false, some, List, [], ◌∷◌, ◌++◌, append_assoc, append-nil, arith, ltb, Bool-cases,
  if◌then◌else◌,
}
use dockerize_and_ansible.Base.Effect.{Outcome, return, pure, ◌>>=◌, bind-of_return}
use dockerize_and_ansible.Partition.State
use dockerize_and_ansible.Partition.State.{
  Table, Range, Env, State, Event, History, FormatsTime, ask, trimmed,
}
use dockerize_and_ansible.Partition.Manager.{
  Bounds, day, within_20_intervals, get_now, read_bound, read_bounds,
  check_subpartition_needprecreate, next_range, precreate_subpartition,
}
use dockerize_and_ansible.Partition.Jobs.{precreate_ahead}

-- The ranges that were split off, in order, with their tables.
abbrev pub splits : History → List (Table × ℕ × ℕ)
splits [] = []
splits (State.split_default table from until name ∷ h) = (table, from, until) ∷ splits h
splits (_ ∷ h) = splits h

splits-append : (g h : History) → splits (g ++ h) ≡ splits g ++ splits h
splits-append [] h = refl
splits-append (State.split_default table from until name ∷ g) h =
    ap (◌∷◌ (table, from, until)) (splits-append g h)
splits-append (_ ∷ g) h = splits-append g h

splits-silent : (h : History) (e : Event) → splits (e ∷ []) ≡ [] → splits (h ++ e ∷ []) ≡ splits h
splits-silent h e silent = rw (splits-append, silent, append-nil)

-- `count` ranges of length `i` from `from` on, without gap or overlap.
abbrev pub consecutive : Table → ℕ → ℕ → ℕ → List (Table × ℕ × ℕ)
consecutive table from i zero = []
consecutive table from i (suc count) =
    (table, from, from + i) ∷ consecutive table (from + i) i count

-- The texts of a range stand for its bounds.
abbrev pub Reads : Env → Range → ℕ → ℕ → Type 0
Reads env p start end =
    (env.strptime (trimmed p.partitionrangestart) ≡ return start)
    × (env.strptime (trimmed p.partitionrangeend) ≡ return end)

-- The clock stays between two readings, and the database splits off what it is asked to.
pub record IsSteady (env : Env) (earliest latest : ℕ) : Type 0 where
  pub from_earliest : (h : History) → earliest ≤ env.now h
  pub to_latest : (h : History) → env.now h ≤ latest
  pub splits_off :
      (t : Table) (from until : ℕ) (name : String) (h : History)
      → env.split_default t from until name h ≡ return tt

abbrev tick : State → State
tick s = record { trace = s.trace ++ State.read_clock ∷ [] }

-- The check as a function of the bounds and the two readings of the clock.
abbrev answer : Env → Bounds → State → Outcome Bool × State
answer env b s =
    if within_20_intervals b (env.now s.trace)
    then (return (ltb b.end (env.now (tick s).trace + 365 * day)), tick (tick s))
    else (return false, tick s)

abbrev next_name : Env → Range → ℕ → String
next_name env p b = p.table.tablename <> "_" <> env.strftime_day b

module _ (env : Env) (p : Range) {a b : ℕ} (reads : Reads env p a b) (s : State) where
  need-eq-answer :
      check_subpartition_needprecreate env p s ≡ answer env (record { start = a; end = b }) s
  unfolding check_subpartition_needprecreate read_bounds read_bound get_now ask ◌>>=◌
  need-eq-answer = rw (reads.0, reads.1) (ground arith)

  precreate_lem :
      env.split_default p.table b (b + b - a) (next_name env p b) s.trace ≡ return tt
      → precreate_subpartition env p s ≡ (
        return (next_range env p (record { start = a; end = b })),
        record {
          trace = s.trace ++ State.split_default p.table b (b + b - a) (next_name env p b) ∷ [];
        },
      )
  unfolding precreate_subpartition read_bounds read_bound ask ◌>>=◌
  precreate_lem done = rw (reads.0, reads.1, done)

-- Either another range is needed, and then this one ends less than twenty of its lengths after the
-- latest time; or it is far enough ahead of the earliest.
data Answered (env : Env) (earliest latest a i : ℕ) (p : Range) (s : State) : Type 0 where
  needed :
      (s' : State)
      → check_subpartition_needprecreate env p s ≡ (return true, s')
      → splits s'.trace ≡ splits s.trace
      → a + i < latest + 20 * i
      → Answered env earliest latest a i p s
  enough :
      (s' : State)
      → check_subpartition_needprecreate env p s ≡ (return false, s')
      → splits s'.trace ≡ splits s.trace
      → (earliest + 20 * i ≤ a + i) ⊎ (earliest + 365 * day ≤ a + i)
      → Answered env earliest latest a i p s

module _ (env : Env) {earliest latest : ℕ} (steady : IsSteady env earliest latest) where
  once : (s : State) → splits (tick s).trace ≡ splits s.trace
  once s = splits-silent s.trace State.read_clock refl

  answered :
      (p : Range) (a i : ℕ) (s : State)
      → Reads env p a (a + i)
      → Answered env earliest latest a i p s
  answered p a i s reads =
      let b : Bounds = record { start = a; end = a + i } in
      let now = env.now s.trace in
      let now' = env.now (tick s).trace in
      let closed = need-eq-answer env p reads s in
      let low = steady.from_earliest s.trace in
      let high = steady.to_latest s.trace in
      let low' = steady.from_earliest (tick s).trace in
      elim (Bool-cases (within_20_intervals b now)) [
        | inr far ↦ enough (tick s) (closed ∙ rw far) (once s) (inl (ground arith))
        | inl near ↦ elim (Bool-cases (ltb (a + i) (now' + 365 * day))) [
          | inl soon ↦
              needed (tick (tick s)) (closed ∙ rw near (rw soon)) (once (tick s) ∙ once s)
                (ground arith)
          | inr late ↦
              enough (tick (tick s)) (closed ∙ rw near (rw late)) (once (tick s) ∙ once s)
                (inr (ground arith))
        ]
      ]

-- What the loop has done when it ends.
pub record Reaches (env : Env) (earliest latest : ℕ) (p : Range) (a i fuel : ℕ) (s : State)
    : Type 0 where
  pub count : ℕ
  pub last : Range
  pub final : State
  pub ran : precreate_ahead env fuel p s ≡ (return (some last), final)
  pub reads : Reads env last (a + count * i) (a + count * i + i)
  pub created : splits final.trace ≡ splits s.trace ++ consecutive p.table (a + i) i count
  pub far_enough :
      (earliest + 20 * i ≤ a + count * i + i) ⊎ (earliest + 365 * day ≤ a + count * i + i)

module _ (env : Env) (times : FormatsTime env) {earliest latest : ℕ}
    (steady : IsSteady env earliest latest) where
  next-Reads :
      (p : Range) (a i : ℕ)
      → Reads env (next_range env p (record { start = a; end = a + i })) (a + i) (a + i + i)
  next-Reads p a i =
      let e : a + i + (a + i) - a ≡ a + i + i = omega arith in
      (
        rw times.trimmed-strftime (times.strptime-strftime (a + i)),
        rw times.trimmed-strftime (times.strptime-strftime _ ∙ rw e),
      )

  Reaches-done :
      (fuel : ℕ) (p : Range) (a i : ℕ) (s s' : State)
      → Reads env p a (a + i)
      → check_subpartition_needprecreate env p s ≡ (return false, s')
      → splits s'.trace ≡ splits s.trace
      → (earliest + 20 * i ≤ a + i) ⊎ (earliest + 365 * day ≤ a + i)
      → Reaches env earliest latest p a i (suc fuel) s
  unfolding precreate_ahead pure
  Reaches-done fuel p a i s s' reads closed silent far =
      let e : a + 0 * i ≡ a = omega arith in
      record {
        count = 0;
        last = p;
        final = s';
        ran = bind-of_return _ _ closed;
        reads = rw e reads;
        created = silent ∙ rw append-nil;
        far_enough = rw e far;
      }

  Reaches-more :
      (fuel : ℕ) (p : Range) (a i : ℕ) (s s' : State)
      → Reads env p a (a + i)
      → check_subpartition_needprecreate env p s ≡ (return true, s')
      → splits s'.trace ≡ splits s.trace
      → ((t : State)
          → Reaches env earliest latest
              (next_range env p (record { start = a; end = a + i }))
              (a + i)
              i
              fuel
              t)
      → Reaches env earliest latest p a i (suc fuel) s
  unfolding precreate_ahead
  Reaches-more fuel p a i s s' reads closed silent ih =
      let name = next_name env p (a + i) in
      let made = precreate_lem env p reads s' (steady.splits_off p.table (a + i) _ name s'.trace) in
      let t : State = record {
        trace = s'.trace ++ State.split_default p.table (a + i) (a + i + (a + i) - a) name ∷ [];
      } in
      let more = ih t in
      let until : a + i + (a + i) - a ≡ a + i + i = omega arith in
      let e : a + i + more.count * i ≡ a + suc more.count * i = omega arith in
      record {
        count = suc more.count;
        last = more.last;
        final = more.final;
        ran = bind-of_return _ _ closed ∙ bind-of_return _ _ made ∙ more.ran;
        reads = rw (← e) more.reads;
        created =
            more.created
            ∙ ap (λ xs. xs ++ consecutive p.table (a + i + i) i more.count)
                (splits-append s'.trace _ ∙ (λ j. silent j ++ (p.table, a + i, until j) ∷ []))
            ∙ append_assoc (splits s.trace) _ _;
        far_enough = rw (← e) more.far_enough;
      }

  -- Under a clock between two readings, in a database that splits off what it is asked to, the loop
  -- from a range that begins at `a` and has the length `i` ends with the fuel that the latest
  -- reading calls for: one round more than the lengths by which the range falls short of twenty
  -- lengths after it. It has split
  -- off just consecutive ranges of that length, the first from the end of the given one on, and the
  -- last of them, or the given one if there are none, ends at least twenty lengths or a year after
  -- the earliest reading.
  pub precreate_ahead-Reaches :
      (fuel : ℕ) (p : Range) (a i : ℕ) (s : State)
      → Reads env p a (a + i)
      → latest + 20 * i ≤ a + i + fuel * i
      → Reaches env earliest latest p a i (suc fuel) s
  precreate_ahead-Reaches zero p a i s reads h = elim (answered env steady p a i s reads) [
    | needed s' closed silent near ↦ absurd (omega arith)
    | enough s' closed silent far ↦ Reaches-done zero p a i s s' reads closed silent far
  ]
  precreate_ahead-Reaches (suc fuel) p a i s reads h = elim (answered env steady p a i s reads) [
    | needed s' closed silent near ↦
        Reaches-more (suc fuel) p a i s s' reads closed silent
          (λ t. precreate_ahead-Reaches fuel _ (a + i) i t (next-Reads p a i) (omega arith))
    | enough s' closed silent far ↦ Reaches-done (suc fuel) p a i s s' reads closed silent far
  ]
