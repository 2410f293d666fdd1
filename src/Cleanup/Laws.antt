-- ===== src/Cleanup/Laws.antt =====
-- The loop that deletes in batches: it ends, and nothing that it was to delete is left.
use dockerize_and_ansible.Base.{
  ℕ, zero, suc, ◌+◌, ◌-◌, ◌*◌, ◌≤◌, ◌<◌, ◌≡◌, refl, ◌∙◌, sym, ap, true, false, some, [], ◌∷◌, ◌++◌,
  append_assoc, arith, ltb, min, Bool-cases, inl, inr,
}
use dockerize_and_ansible.Base.Effect.{return, ◌>>=◌}
use dockerize_and_ansible.Cleanup
use dockerize_and_ansible.Cleanup.{
  Table, Event, History, Env, State, ask, batch, run, delete_loop, delete_batch,
}

-- A table of which `rows` tells how many rows fit its condition: a batch takes as many of them as
-- its limit allows, and says how many it took.
pub record Shrinks (env : Env) (tbl : Table) (rows : History → ℕ) : Type 0 where
  pub takes : (h : History) → env.execute (delete_batch tbl) h ≡ return (min batch (rows h))
  pub leaves :
      (h : History)
      → rows (h ++ Cleanup.execute (delete_batch tbl) ∷ []) ≡ rows h - min batch (rows h)

abbrev pub batches : Table → ℕ → History
batches tbl zero = []
batches tbl (suc n) = Cleanup.execute (delete_batch tbl) ∷ batches tbl n

-- What the loop has done when it ends.
pub record Deleted (env : Env) (tbl : Table) (rows : History → ℕ) (fuel num size : ℕ) (s : State)
    : Type 0 where
  pub count : ℕ
  pub ran : delete_loop env fuel tbl num size s ≡ (
    return (some (num + suc count, size + rows s.trace)),
    record { trace = s.trace ++ batches tbl (suc count) },
  )
  pub needed : count * batch ≤ rows s.trace
  pub no_more : rows s.trace < suc count * batch
  pub emptied : rows (s.trace ++ batches tbl (suc count)) ≡ 0

module _ (env : Env) (tbl : Table) {rows : History → ℕ} (shrinks : Shrinks env tbl rows) where
  abbrev next : State → State
  next s = record { trace = s.trace ++ Cleanup.execute (delete_batch tbl) ∷ [] }

  rejoin :
      (s : State) (n : ℕ)
      → s.trace ++ batches tbl (suc (suc n)) ≡ (next s).trace ++ batches tbl (suc n)
  rejoin s n =
      sym (append_assoc s.trace (Cleanup.execute (delete_batch tbl) ∷ []) (batches tbl (suc n)))

  Deleted-last :
      (fuel num size : ℕ) (s : State)
      → rows s.trace < batch
      → Deleted env tbl rows (suc fuel) num size s
  unfolding delete_loop run ask ◌>>=◌
  Deleted-last fuel num size s few =
      let all : min batch (rows s.trace) ≡ rows s.trace = omega arith in
      let test : ltb (rows s.trace) batch ≡ true = ground arith in
      record {
        count = 0;
        ran = rw (shrinks.takes s.trace, all, test);
        needed = omega arith;
        no_more = omega arith;
        emptied = shrinks.leaves s.trace ∙ omega arith;
      }

  Deleted-more :
      (fuel num size : ℕ) (s : State)
      → batch ≤ rows s.trace
      → Deleted env tbl rows fuel (num + 1) (size + batch) (next s)
      → Deleted env tbl rows (suc fuel) num size s
  unfolding delete_loop run ask ◌>>=◌
  Deleted-more fuel num size s many more =
      let full : min batch (rows s.trace) ≡ batch = omega arith in
      let test : ltb batch batch ≡ false = refl in
      let left : rows (next s).trace ≡ rows s.trace - batch = shrinks.leaves s.trace ∙ rw full in
      let fewer = more.needed in
      let fewer' = more.no_more in
      let n : num + 1 + suc more.count ≡ num + suc (suc more.count) = omega arith in
      let z : size + batch + rows (next s).trace ≡ size + rows s.trace = omega arith in
      record {
        count = suc more.count;
        ran = rw (shrinks.takes s.trace, full) (more.ran ∙ rw (n, z, rejoin s more.count));
        needed = omega arith;
        no_more = omega arith;
        emptied = ap rows (rejoin s more.count) ∙ more.emptied;
      }

  -- On a table of which each batch takes what its limit allows, the loop ends with any fuel above
  -- the number of full batches. It has sent one statement more than there are full batches, its
  -- counters give the number of statements and of all rows that fitted the condition, and no such
  -- row is left.
  pub delete_loop-Deleted :
      (fuel num size : ℕ) (s : State)
      → rows s.trace < fuel * batch
      → Deleted env tbl rows fuel num size s
  delete_loop-Deleted zero num size s h = absurd (omega arith)
  delete_loop-Deleted (suc fuel) num size s h = elim (Bool-cases (ltb (rows s.trace) batch)) [
    | inl few ↦ Deleted-last fuel num size s (ground arith)
    | inr many ↦
        let full : batch ≤ rows s.trace = ground arith in
        let left : rows (next s).trace ≡ rows s.trace - min batch (rows s.trace) =
          shrinks.leaves s.trace in
        Deleted-more fuel num size s full (delete_loop-Deleted fuel _ _ (next s) (omega arith))
  ]
