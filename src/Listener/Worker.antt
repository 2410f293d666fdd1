-- ===== src/Listener/Worker.antt =====
-- mssql/test/ag_listener/main.py: worker_main. An index that is drawn for a list stands in it. The
-- interrupt from the keyboard that ends the loop is left out.
use dockerize_and_ansible.Base.{
  ℕ, zero, suc, ◌-◌, String, Bool, true, false, Option, none, some, List, [], ◌∷◌, ◌++◌,
  if◌then◌else◌, length,
}
use dockerize_and_ansible.Base.Text.{is_nonempty}
use dockerize_and_ansible.Base.Effect.{M, pure, gets, try_except, ◌>>=◌, ◌>>◌}
use dockerize_and_ansible.Listener.{
  random_choice, Op, create, read, update_one, delete_one, State, Env, draw, put_ids, sleep_for,
}
use dockerize_and_ansible.Listener.Client.{run_with_retry, do_create, do_read, do_update, do_delete}

-- The default of `max_retries`.
abbrev pub max_retries : ℕ
max_retries = 5

abbrev pub most_ids : ℕ
most_ids = 500

abbrev pub without_first : ℕ → List String → List String
without_first zero ids = ids
without_first (suc n) [] = []
without_first (suc n) (_ ∷ ids) = without_first n ids

-- `ids[-500:]`
unfoldable pub last_500 : List String → List String
last_500 ids = without_first (length ids - most_ids) ids

-- `ids[i]`, and `ids.pop(i)` with what is left
abbrev pub item : List String → ℕ → Option String
item [] i = none
item (x ∷ ids) zero = some x
item (x ∷ ids) (suc i) = item ids i

abbrev pub without_item : List String → ℕ → List String
without_item [] i = []
without_item (x ∷ ids) zero = ids
without_item (x ∷ ids) (suc i) = x ∷ without_item ids i

abbrev pub is_empty : List String → Bool
is_empty [] = true
is_empty (_ ∷ _) = false

-- `none` means that the fuel of the retries ran out.
abbrev pub done : {A : Type 0} → Option A → Option (Unit {0})
done none = none
done (some _) = some tt

module _ (env : Env) (fuel : ℕ) where
  abbrev pub run : {A : Type 0} → M State A → M State (Option A)
  run fn = run_with_retry env max_retries fuel fn

  -- `rnd.randrange(len(ids))`, and `rnd.choice(ids)` by it
  abbrev pub draw_index : List String → M State ℕ
  draw_index ids = draw random_choice (env.choose_index (length ids))

  unfoldable pub note_id : Option String → M State (Option (Unit {0}))
  note_id none = pure none
  note_id (some cid) =
      if is_nonempty cid
      then (do
        last_ids ← gets (λ s. s.last_ids)
        put_ids (last_500 (last_ids ++ cid ∷ []))
        pure (some tt))
      else pure (some tt)

  unfoldable pub create_row : M State (Option (Unit {0}))
  create_row = do cid ← run (do_create env); note_id cid

  unfoldable pub read_row : M State (Option (Unit {0}))
  read_row = do
    last_ids ← gets (λ s. s.last_ids)
    known ← if is_empty last_ids then pure false else draw random_choice env.use_known_id
    sid ← if known then (do i ← draw_index last_ids; pure (item last_ids i)) else pure none
    row ← run (do_read env sid)
    pure (done row)

  unfoldable pub on_item :
      (String → M State (Option (Unit {0}))) → Option String → M State (Option (Unit {0}))
  on_item body none = pure (some tt)
  on_item body (some id) = body id

  unfoldable pub update_row : M State (Option (Unit {0}))
  update_row = do
    last_ids ← gets (λ s. s.last_ids)
    if is_empty last_ids then pure (some tt) else (do
      i ← draw_index last_ids
      on_item (λ id. do affected ← run (do_update env id); pure (done affected)) (item last_ids i))

  -- The id leaves the list before the row is deleted.
  unfoldable pub delete_row : M State (Option (Unit {0}))
  delete_row = do
    last_ids ← gets (λ s. s.last_ids)
    if is_empty last_ids then pure (some tt) else (do
      i ← draw_index last_ids
      put_ids (without_item last_ids i)
      on_item (λ id. do affected ← run (do_delete env id); pure (done affected)) (item last_ids i))

  unfoldable pub perform : Op → M State (Option (Unit {0}))
  perform create = create_row
  perform read = read_row
  perform update_one = update_row
  perform delete_one = delete_row

  abbrev pub then_wait : Option (Unit {0}) → M State (Option (Unit {0}))
  then_wait none = pure none
  then_wait (some _) = do
    seconds ← gets (λ s. env.interval s.trace)
    sleep_for seconds
    pure (some tt)

  -- A round of the endless loop.
  unfoldable pub worker_round : M State (Option (Unit {0}))
  worker_round =
      try_except
        (do op ← draw random_choice env.choose_op; finished ← perform op; then_wait finished)
        (λ e. do sleep_for 1; pure (some tt))

  abbrev pub next_round :
      M State (Option (Unit {0})) → Option (Unit {0}) → M State (Option (Unit {0}))
  next_round more none = pure none
  next_round more (some _) = more

  -- So many rounds of `worker_main`.
  unfoldable pub worker_main : ℕ → M State (Option (Unit {0}))
  worker_main zero = pure (some tt)
  worker_main (suc rounds) = do finished ← worker_round; next_round (worker_main rounds) finished
