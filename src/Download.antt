-- ===== src/Download.antt =====
-- minio/downloader/main.py: objects are downloaded by a pool of threads, which count successes and
-- failures under a lock. A thread stands between two steps of `download_object`.
pub mod Threads
pub mod Counts
pub mod Progress
use dockerize_and_ansible.Base.{
  ℕ, suc, ◌+◌, ◌<◌, String, ◌≡◌, Bool, true, false, Option, none, some, List, [], ◌∷◌, ◌++◌, length,
}

-- Where a thread is: before `makedirs`, before `fget_object`, before `with counter_lock` with the
-- outcome of the download, in the block with the lock before its counter is read, after it was
-- read, and after it was written.
pub data Phase : Type 0 where
  preparing fetching : Phase
  waiting : (ok : Bool) → Phase
  holding : (ok : Bool) → Phase
  loaded : (ok : Bool) → (count : ℕ) → Phase
  stored : Phase

-- The global variables, and how many tasks ended by an exception of `makedirs`, which stands outside
-- the `try` block: the executor keeps it in a future that nothing reads.
pub record Shared : Type 0 where
  pub success_count : ℕ
  pub failure_count : ℕ
  pub lost : ℕ
  pub locked : Bool

-- `success_count` for a download that worked, `failure_count` for one that did not.
abbrev pub counter : Bool → Shared → ℕ
counter true c = c.success_count
counter false c = c.failure_count

abbrev pub put_counter : Bool → ℕ → Shared → Shared
put_counter true n c = record c { success_count = n }
put_counter false n c = record c { failure_count = n }

-- One step of a thread, `none` at its end. The outcomes of `makedirs` and `fget_object` are open.
pub data ThreadStep : Phase → Shared → Option Phase → Shared → Type 0 where
  prepared : {c : Shared} → ThreadStep preparing c (some fetching) c
  unprepared : {c : Shared} → ThreadStep preparing c none (record c { lost = suc c.lost })
  fetched : {c : Shared} (ok : Bool) → ThreadStep fetching c (some (waiting ok)) c
  acquired :
      {c : Shared} {ok : Bool}
      → c.locked ≡ false
      → ThreadStep (waiting ok) c (some (holding ok)) (record c { locked = true })
  read : {c : Shared} {ok : Bool} → ThreadStep (holding ok) c (some (loaded ok (counter ok c))) c
  written :
      {c : Shared} {ok : Bool} {n : ℕ}
      → ThreadStep (loaded ok n) c (some stored) (put_counter ok (suc n) c)
  released : {c : Shared} → ThreadStep stored c none (record c { locked = false })

pub record Thread : Type 0 where
  pub object_name : String
  pub phase : Phase

pub record State : Type 0 where
  -- What was submitted and not started.
  pub queue : List String
  pub running : List Thread
  pub shared : Shared

abbrev pub moved : String → Option Phase → List Thread
moved object_name none = []
moved object_name (some phase) = record { object_name = object_name; phase = phase } ∷ []

-- A step of the program: a free worker takes the next object, or any of the threads moves.
pub data Step (max_workers : ℕ) : State → State → Type 0 where
  start :
      {object_name : String} {queue : List String} {running : List Thread} {c : Shared}
      → length running < max_workers
      → Step max_workers
          (record { queue = object_name ∷ queue; running = running; shared = c })
          (record {
            queue = queue;
            running = record { object_name = object_name; phase = preparing } ∷ running;
            shared = c;
          })
  move :
      {queue : List String} (before after : List Thread) (object_name : String) {phase : Phase}
      {phase' : Option Phase} {c c' : Shared}
      → ThreadStep phase c phase' c'
      → Step max_workers
          (record {
            queue = queue;
            running = before ++ record { object_name = object_name; phase = phase } ∷ after;
            shared = c;
          })
          (record {
            queue = queue;
            running = before ++ (moved object_name phase' ++ after);
            shared = c';
          })

pub data Steps (max_workers : ℕ) : State → State → Type 0 where
  done : {s : State} → Steps max_workers s s
  more : {s t u : State} → Steps max_workers s t → Step max_workers t u → Steps max_workers s u

-- All objects of `batch_download` submitted.
unfoldable pub submitted : List String → State
submitted object_names = record {
  queue = object_names;
  running = [];
  shared = record { success_count = 0; failure_count = 0; lost = 0; locked = false };
}
