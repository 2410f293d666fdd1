-- ===== src/Download/Progress.antt =====
-- minio/downloader/main.py: the threads do not block each other, and every run ends.
use dockerize_and_ansible.Base.{
  ℕ, suc, ◌+◌, ◌*◌, ◌<◌, ◌≤◌, String, ◌≡◌, refl, sym, ap, ◌⊎◌, inl, inr, true, false, Option, List,
  [], ◌∷◌, ◌++◌, length, arith, Bool-cases,
}
use dockerize_and_ansible.Download.{
  Phase, preparing, fetching, waiting, holding, loaded, stored, Shared, ThreadStep, prepared,
  unprepared, fetched, acquired, read, written, released, Thread, State, moved, Step, start, move,
  Steps, done, more, submitted,
}
use dockerize_and_ansible.Download.Threads.{sum_by, sum_by-append, holds, taken}
use dockerize_and_ansible.Download.Counts.{Consistent, steps-Consistent}
use mathlib.Core.Path.{subst}

-- How many steps a thread has left, at most.
abbrev left : Phase → ℕ
left preparing = 6
left fetching = 5
left (waiting ok) = 4
left (holding ok) = 3
left (loaded ok n) = 2
left stored = 1

abbrev left_in : State → ℕ
left_in s = 7 * length s.queue + sum_by left s.running

unfoldable pub count_steps : {max_workers : ℕ} {s t : State} → Steps max_workers s t → ℕ
count_steps done = 0
count_steps (more steps step) = suc (count_steps steps)

thread-less :
    {phase : Phase} {phase' : Option Phase} {c c' : Shared} (object_name : String)
    → ThreadStep phase c phase' c'
    → sum_by left (moved object_name phase') < left phase
unfolding sum_by
thread-less object_name prepared = omega arith
thread-less object_name unprepared = omega arith
thread-less object_name (fetched ok) = omega arith
thread-less object_name (acquired free) = omega arith
thread-less object_name read = omega arith
thread-less object_name written = omega arith
thread-less object_name released = omega arith

step-less : (max_workers : ℕ) (s t : State) → Step max_workers s t → left_in t < left_in s
unfolding sum_by
step-less max_workers s t (start room) = omega arith
step-less max_workers s t (move before after object_name {phase = phase} {phase' = phase'} step) =
    let old =
      sum_by-append left before (record { object_name = object_name; phase = phase } ∷ after) in
    let new = sum_by-append left before (moved object_name phase' ++ after) in
    let inner = sum_by-append left (moved object_name phase') after in
    omega (arith, old, new, inner, thread-less object_name step)

steps-bounded :
    (max_workers : ℕ) (s t : State) (run : Steps max_workers s t)
    → left_in t + count_steps run ≤ left_in s
unfolding count_steps
steps-bounded max_workers s t done = omega arith
steps-bounded max_workers s t (more {t = u} steps step) =
    omega (arith, steps-bounded max_workers s u steps, step-less max_workers u t step)

holds_cases : (phase : Phase) → (holds phase ≡ 1) ⊎ (holds phase ≡ 0)
holds_cases preparing = inr refl
holds_cases fetching = inr refl
holds_cases (waiting ok) = inr refl
holds_cases (holding ok) = inl refl
holds_cases (loaded ok n) = inl refl
holds_cases stored = inl refl

-- A thread in the block with the lock, found among the others.
find_holder :
    (ts : List Thread)
    → 1 ≤ sum_by holds ts
    → (before : List Thread) × (after : List Thread) × (t : Thread) × (ts ≡ before ++ t ∷ after)
      × (holds t.phase ≡ 1)
unfolding sum_by
find_holder [] some_one = absurd (omega (arith, some_one))
find_holder (t ∷ ts) some_one = elim (holds_cases t.phase) [
  | inl one ↦ ([], ts, t, refl, one)
  | inr none_here ↦
      let (before, after, holder, split, one) =
        find_holder ts (omega (arith, some_one, none_here)) in
      (t ∷ before, after, holder, ap (λ us. t ∷ us) split, one)
]

abbrev pub IsFinished : State → Type 0
IsFinished s = (s.queue ≡ []) × (s.running ≡ [])

abbrev pub CanStep : ℕ → State → Type 0
CanStep max_workers s = (t : State) × Step max_workers s t

holder_steps :
    (phase : Phase) (c : Shared)
    → holds phase ≡ 1
    → (phase' : Option Phase) × (c' : Shared) × ThreadStep phase c phase' c'
holder_steps preparing c h = absurd (omega (arith, h))
holder_steps fetching c h = absurd (omega (arith, h))
holder_steps (waiting ok) c h = absurd (omega (arith, h))
holder_steps (holding ok) c h = (_, _, read)
holder_steps (loaded ok n) c h = (_, _, written)
holder_steps stored c h = (_, _, released)

free_steps :
    (phase : Phase) (c : Shared)
    → c.locked ≡ false
    → (phase' : Option Phase) × (c' : Shared) × ThreadStep phase c phase' c'
free_steps preparing c free = (_, _, prepared)
free_steps fetching c free = (_, _, fetched true)
free_steps (waiting ok) c free = (_, _, acquired free)
free_steps (holding ok) c free = (_, _, read)
free_steps (loaded ok n) c free = (_, _, written)
free_steps stored c free = (_, _, released)

-- The first of some threads can move if the lock is free, else the one that has it.
some_step :
    (max_workers : ℕ) (queue : List String) (t : Thread) (ts : List Thread) (c : Shared)
    → sum_by holds (t ∷ ts) ≡ taken c.locked
    → CanStep max_workers (record { queue = queue; running = t ∷ ts; shared = c })
some_step max_workers queue t ts c lock = elim (Bool-cases c.locked) [
  | inr free ↦
      let (phase', c', step) = free_steps t.phase c free in (_, move [] ts t.object_name step)
  | inl locked ↦
      let one : taken c.locked ≡ 1 = ap taken locked in
      let (before, after, holder, split, holding_it) =
        find_holder (t ∷ ts) (omega (arith, lock, one)) in
      let (phase', c', step) = holder_steps holder.phase c holding_it in
      subst
        (λ running. CanStep max_workers (record { queue = queue; running = running; shared = c }))
        (sym split) (_, move before after holder.object_name step)
]

ends_or_goes_on :
    (max_workers total : ℕ) (queue : List String) (running : List Thread) (c : Shared)
    → 0 < max_workers
    → Consistent max_workers total (record { queue = queue; running = running; shared = c })
    → IsFinished (record { queue = queue; running = running; shared = c })
      ⊎ CanStep max_workers (record { queue = queue; running = running; shared = c })
ends_or_goes_on max_workers total [] [] c some_worker h = inl (refl, refl)
ends_or_goes_on max_workers total (object_name ∷ queue) [] c some_worker h =
    inr (_, start some_worker)
ends_or_goes_on max_workers total queue (t ∷ ts) c some_worker h =
    inr (some_step max_workers queue t ts c h.exclusive)

-- With a worker, every run has at most seven steps for each object, and where it cannot go on, no
-- object and no thread is left: the threads never wait for each other for ever.
pub steps-end :
    (max_workers : ℕ) (object_names : List String) (s : State)
    → 0 < max_workers
    → (run : Steps max_workers (submitted object_names) s)
    → (count_steps run ≤ 7 * length object_names) × (IsFinished s ⊎ CanStep max_workers s)
unfolding submitted sum_by
steps-end max_workers object_names s some_worker run = (
  omega (arith, steps-bounded max_workers (submitted object_names) s run),
  ends_or_goes_on max_workers (length object_names) s.queue s.running s.shared some_worker
      (steps-Consistent max_workers object_names s run),
)
