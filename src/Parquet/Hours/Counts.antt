-- ===== src/Parquet/Hours/Counts.antt =====
-- How parquet/diff-parquet/main.py counts rows by hour.
use dockerize_and_ansible.Base.{
  ℕ, ◌+◌, String, ◌≡◌, refl, ap, Bool, true, false, Option, none, some, List, [], ◌∷◌, ◌++◌, flat,
  every, ◌==◌, if◌then◌else◌, string_eq, arith, Bool-cases, inl, inr,
}
use dockerize_and_ansible.Base.Dict
use dockerize_and_ansible.Base.Dict.{Dict, get-put}
use dockerize_and_ansible.Base.Effect.{Outcome, return, raise, try_except, ◌>>=◌, Outcome-cases}
use dockerize_and_ansible.Parquet.State.{Stamp, Counter, Env, State, ask}
use dockerize_and_ansible.Parquet.Hours.{
  bump, add_items, merge_all, merge_counters, read_stamp, bump_hour, batch_process_tsms,
  process_all, extract_hour_distribution_by_tsms,
}

-- What a counter holds under a key, over all its items.
unfoldable pub count_of : String → Counter → ℕ
count_of k [] = 0
count_of k ((j, v) ∷ items) = (if j == k then v else 0) + count_of k items

bump-count_of :
    (counter : Counter) (h k : String) (v : ℕ)
    → count_of k (bump counter h v) ≡ count_of k counter + (if h == k then v else 0)
unfolding bump count_of Dict.put Dict.get_or Dict.get
bump-count_of [] h k v = ground arith
bump-count_of ((j, w) ∷ counter) h k v = ground (arith, bump-count_of counter h k v)

bump-get :
    (counter : Counter) (h k : String) (v : ℕ)
    → Dict.get_or (bump counter h v) k 0 ≡ Dict.get_or counter k 0 + (if h == k then v else 0)
unfolding bump Dict.get_or
bump-get counter h k v = ground (arith, get-put counter h k (Dict.get_or counter h 0 + v))

add_items-get :
    (counter items : Counter) (k : String)
    → Dict.get_or (add_items counter items) k 0 ≡ Dict.get_or counter k 0 + count_of k items
unfolding add_items count_of
add_items-get counter [] k = omega arith
add_items-get counter ((h, v) ∷ items) k =
    omega (arith, add_items-get (bump counter h v) items k, bump-get counter h k v)

every-append :
    {A : Type 0} (p : A → Bool) (xs ys : List A)
    → every p (xs ++ ys) ≡ true
    → (every p xs ≡ true) × (every p ys ≡ true)
every-append p [] ys ok = (refl, ok)
every-append p (x ∷ xs) ys ok = elim (Bool-cases (p x)) [
  | inl holds ↦
      let (here, there) = every-append p xs ys (ground (arith, holds)) in
      (ground (arith, holds, here), there)
  | inr fails ↦ absurd (ground (arith, fails))
]

abbrev pub as_number : Bool → ℕ
as_number b = if b then 1 else 0

module _ (env : Env) where
  abbrev was_read : Outcome (Option ℕ) → Bool
  was_read (return ts) = true
  was_read (raise e) = false

  -- A null is passed over; any other value must be a time.
  abbrev pub is_readable : Stamp → Bool
  is_readable stamp = was_read (read_stamp env stamp)

  abbrev is_at : String → Option ℕ → Bool
  is_at k none = false
  is_at k (some ts) = env.hour_key ts == k

  abbrev read_at : String → Outcome (Option ℕ) → Bool
  read_at k (return ts) = is_at k ts
  read_at k (raise e) = false

  abbrev pub falls_in : String → Stamp → Bool
  falls_in k stamp = read_at k (read_stamp env stamp)

  -- How many values of a column fall into an hour.
  unfoldable pub occurrences : String → List Stamp → ℕ
  occurrences k [] = 0
  occurrences k (stamp ∷ stamps) = as_number (falls_in k stamp) + occurrences k stamps

  occurrences-append :
      (k : String) (xs ys : List Stamp)
      → occurrences k (xs ++ ys) ≡ occurrences k xs + occurrences k ys
  unfolding occurrences
  occurrences-append k [] ys = omega arith
  occurrences-append k (x ∷ xs) ys = omega (arith, occurrences-append k xs ys)

  bump_hour-count_of :
      (counter : Counter) (ts : Option ℕ) (k : String)
      → count_of k (bump_hour env counter ts) ≡ count_of k counter + as_number (is_at k ts)
  bump_hour-count_of counter none k = omega arith
  bump_hour-count_of counter (some ts) k = bump-count_of counter (env.hour_key ts) k 1

  batch-occurrences :
      (column : List Stamp) (counter : Counter)
      → every is_readable column ≡ true
      → (counter' : Counter) × (batch_process_tsms env column counter ≡ return counter')
        × ((k : String) → count_of k counter' ≡ count_of k counter + occurrences k column)
  unfolding batch_process_tsms occurrences
  batch-occurrences [] counter ok = (counter, refl, λ k. omega arith)
  batch-occurrences (stamp ∷ column) counter ok = elim (Outcome-cases (read_stamp env stamp)) [
    | inr (e, failed) ↦
        let unread : is_readable stamp ≡ false = ap was_read failed in
        absurd (ground (arith, unread))
    | inl (ts, read) ↦
        let known : is_readable stamp ≡ true = ap was_read read in
        let (counter', returned, counts) =
          batch-occurrences column (bump_hour env counter ts) (ground (arith, known)) in
        (
          counter',
          rw (read, batch_process_tsms) returned,
          λ k.
              let here : as_number (falls_in k stamp) ≡ as_number (is_at k ts) =
                ap (λ o. as_number (read_at k o)) read in
              omega (arith, counts k, bump_hour-count_of counter ts k, here),
        )
  ]

  sum_of : String → List Counter → ℕ
  sum_of k [] = 0
  sum_of k (counter ∷ counters) = count_of k counter + sum_of k counters

  merge_all-get :
      (merged : Counter) (counters : List Counter) (k : String)
      → Dict.get_or (merge_all merged counters) k 0 ≡ Dict.get_or merged k 0 + sum_of k counters
  unfolding merge_all sum_of
  merge_all-get merged [] k = omega arith
  merge_all-get merged (counter ∷ counters) k =
      omega
        (arith, merge_all-get (add_items merged counter) counters k, add_items-get merged counter k)

  process_all-occurrences :
      (batches : List (List Stamp))
      → every is_readable (flat (λ batch. batch) batches) ≡ true
      → (counters : List Counter) × (process_all env batches ≡ return counters)
        × ((k : String) → sum_of k counters ≡ occurrences k (flat (λ batch. batch) batches))
  unfolding process_all sum_of occurrences count_of
  process_all-occurrences [] ok = ([], refl, λ k. refl)
  process_all-occurrences (batch ∷ batches) ok =
      let (here, there) = every-append is_readable batch (flat (λ b. b) batches) ok in
      let (counter, returned, counts) = batch-occurrences batch [] here in
      let (counters, all_returned, all_counts) = process_all-occurrences batches there in
      (
        counter ∷ counters,
        rw (returned, all_returned),
        λ k.
            omega
              (arith, counts k, all_counts k, occurrences-append k batch (flat (λ b. b) batches)),
      )

  -- If every value of the column can be read, the counts that the workers make of the row groups of a
  -- file and that are merged hold under each hour how many values of the file fall into it: how the
  -- rows are split into groups does not matter.
  pub extract_hour_distribution_by_tsms-occurrences :
      (file_path : String) (batches : List (List Stamp)) (s : State)
      → env.read_groups file_path s.trace ≡ return batches
      → every is_readable (flat (λ batch. batch) batches) ≡ true
      → (stats : Counter) × ((extract_hour_distribution_by_tsms env file_path s).0 ≡ return stats)
        × ((k : String) → Dict.get_or stats k 0 ≡ occurrences k (flat (λ batch. batch) batches))
  unfolding extract_hour_distribution_by_tsms ask merge_counters try_except ◌>>=◌ Dict.get_or
      Dict.get
  extract_hour_distribution_by_tsms-occurrences file_path batches s answered ok =
      let (counters, returned, counts) = process_all-occurrences batches ok in
      (
        merge_counters counters,
        rw (answered, returned),
        λ k. omega (arith, merge_all-get [] counters k, counts k),
      )
