-- ===== src/Parquet/Times/Ranges.antt =====
-- Which files of parquet/diff-parquet/main.py count as within the range of time.
use dockerize_and_ansible.Base.{ℕ, ◌≤◌, ◌≡◌, ◌↔◌, true, some, ltb, arith, Bool-cases, inl, inr}
use dockerize_and_ansible.Parquet.State.{Env}
use dockerize_and_ansible.Parquet.Times.{overlaps}

-- Two times of a file, in their order, overlap a range of time that is not empty just if some time
-- lies in both.
pub overlaps_iff :
    (env : Env) (first_ts last_ts : ℕ)
    → first_ts ≤ last_ts
    → env.start_time ≤ env.end_time
    → (overlaps env (some (first_ts, last_ts)) ≡ true)
      ↔ ((t : ℕ) × (first_ts ≤ t) × (t ≤ last_ts) × (env.start_time ≤ t) × (t ≤ env.end_time))
unfolding overlaps
overlaps_iff env first_ts last_ts ordered range = (
  λ meets. elim (Bool-cases (ltb first_ts env.start_time)) [
    | inl early ↦ (env.start_time, ground arith, ground arith, ground arith, ground arith)
    | inr late ↦ (first_ts, ground arith, ground arith, ground arith, ground arith)
  ],
  λ (t, p, q, r, u). ground (arith, p, q, r, u),
)
