-- ===== src/Download/Counts.antt =====
-- minio/downloader/main.py: what the counters hold, in whatever order the threads run.
use dockerize_and_ansible.Base.{
  ℕ, suc, ◌+◌, ◌<◌, ◌≤◌, String, ◌≡◌, refl, ◌∙◌, ap, Bool, true, false, Option, List, ◌∷◌, ◌++◌,
  length, arith,
}
use dockerize_and_ansible.Download.{
  Phase, preparing, fetching, waiting, holding, loaded, stored, Shared, counter, put_counter,
  ThreadStep, prepared, unprepared, fetched, acquired, read, written, released, Thread, State,
  moved, Step, start, move, Steps, done, more, submitted,
}
use dockerize_and_ansible.Download.Threads.{
  sum_by, sum_by-append, pending, holds, taken, CurrentPhase, Current, Current-append, Current-join,
  Current-free, Current-same, length-append, taken-≤,
}

-- Every object is counted, lost, or still to be counted; the lock is taken just by the thread in its
-- block, if any; and no more threads run than there are workers.
pub record Consistent (max_workers total : ℕ) (s : State) : Type 0 where
  pub counted :
      s.shared.success_count
        + s.shared.failure_count
        + s.shared.lost
        + sum_by pending s.running
        + length s.queue
      ≡ total
  pub exclusive : sum_by holds s.running ≡ taken s.shared.locked
  pub current : Current s.shared s.running
  pub bounded : length s.running ≤ max_workers

put_counter_sum :
    (c : Shared) (ok : Bool) (n : ℕ)
    → n ≡ counter ok c
    → let c' = put_counter ok (suc n) c in
      (c'.success_count + c'.failure_count ≡ suc (c.success_count + c.failure_count))
      × ((c'.lost ≡ c.lost) × (c.locked ≡ c'.locked))
put_counter_sum c true n e = (omega (arith, e), (refl, refl))
put_counter_sum c false n e = (omega (arith, e), (refl, refl))

module _ (max_workers total : ℕ) (queue : List String) (before after : List Thread)
    (object_name : String) where
  abbrev at : Phase → Thread
  at phase = record { object_name = object_name; phase = phase }

  abbrev here : Phase → Shared → State
  here phase c = record { queue = queue; running = before ++ at phase ∷ after; shared = c }

  abbrev gone : Shared → State
  gone c = record { queue = queue; running = before ++ after; shared = c }

  sums :
      (f : Phase → ℕ) (phase : Phase)
      → sum_by f (before ++ at phase ∷ after) ≡ sum_by f before + (f phase + sum_by f after)
  unfolding sum_by
  sums f phase = sum_by-append f before (at phase ∷ after)

  lengths :
      (phase : Phase) → length (before ++ at phase ∷ after) ≡ length before + suc (length after)
  lengths phase = length-append before (at phase ∷ after)

  -- To another phase of the same standing, with the same counters.
  stays :
      (c c' : Shared) (phase phase' : Phase)
      → c.success_count ≡ c'.success_count
      → c.failure_count ≡ c'.failure_count
      → c.lost ≡ c'.lost
      → pending phase ≡ pending phase'
      → holds phase' + taken c.locked ≡ holds phase + taken c'.locked
      → CurrentPhase c' phase'
      → Consistent max_workers total (here phase c)
      → Consistent max_workers total (here phase' c')
  unfolding Current
  stays c c' phase phase' s f l pends lock new h =
      let (p, (old, q)) = Current-append c before (at phase ∷ after) h.current in
      record {
        counted = omega (arith, h.counted, sums pending phase, sums pending phase', s, f, l, pends);
        exclusive = omega (arith, h.exclusive, sums holds phase, sums holds phase', lock);
        current =
            Current-join c' before (at phase' ∷ after) (Current-same c c' before s f p)
              (new, Current-same c c' after s f q);
        bounded = omega (arith, h.bounded, lengths phase, lengths phase');
      }

  -- To its end, with the same counters.
  ends :
      (c c' : Shared) (phase : Phase)
      → c.success_count ≡ c'.success_count
      → c.failure_count ≡ c'.failure_count
      → c.lost + pending phase ≡ c'.lost
      → taken c.locked ≡ holds phase + taken c'.locked
      → Consistent max_workers total (here phase c)
      → Consistent max_workers total (gone c')
  unfolding Current
  ends c c' phase s f l lock h =
      let (p, (old, q)) = Current-append c before (at phase ∷ after) h.current in
      record {
        counted =
            omega
              (arith, h.counted, sums pending phase, sum_by-append pending before after, s, f, l);
        exclusive =
            omega (arith, h.exclusive, sums holds phase, sum_by-append holds before after, lock);
        current =
            Current-join c' before after (Current-same c c' before s f p)
              (Current-same c c' after s f q);
        bounded = omega (arith, h.bounded, lengths phase, length-append before after);
      }

  writes :
      (c : Shared) (ok : Bool) (n : ℕ)
      → Consistent max_workers total (here (loaded ok n) c)
      → Consistent max_workers total (here stored (put_counter ok (suc n) c))
  unfolding Current
  writes c ok n h =
      let (p, (read_is, q)) = Current-append c before (at (loaded ok n) ∷ after) h.current in
      let alone = sums holds (loaded ok n) in
      let one = taken-≤ c.locked in
      let (sum_is, (lost_is, locked_is)) = put_counter_sum c ok n read_is in
      let free : (sum_by holds before ≡ 0) × (sum_by holds after ≡ 0) =
        (omega (arith, h.exclusive, alone, one), omega (arith, h.exclusive, alone, one)) in
      record {
        counted =
            omega
              (arith, h.counted, sums pending (loaded ok n), sums pending stored, sum_is, lost_is);
        exclusive = sums holds stored ∙ omega (arith, h.exclusive, alone) ∙ ap taken locked_is;
        current =
            Current-join (put_counter ok (suc n) c) before (at stored ∷ after)
              (Current-free _ before free.0) (tt, Current-free _ after free.1);
        bounded = omega (arith, h.bounded, lengths (loaded ok n), lengths stored);
      }

  thread-Consistent :
      {phase : Phase} {phase' : Option Phase} {c c' : Shared}
      → ThreadStep phase c phase' c'
      → Consistent max_workers total (here phase c)
      → Consistent max_workers total (record {
        queue = queue;
        running = before ++ (moved object_name phase' ++ after);
        shared = c';
      })
  thread-Consistent {c = c} prepared h = stays c c preparing fetching refl refl refl refl refl tt h
  thread-Consistent {c = c} unprepared h =
      ends c (record c { lost = suc c.lost }) preparing refl refl (omega arith) (omega arith) h
  thread-Consistent {c = c} (fetched ok) h =
      stays c c fetching (waiting ok) refl refl refl refl refl tt h
  thread-Consistent {c = c} (acquired {ok = ok} free) h =
      let now : taken c.locked ≡ 0 = ap taken free in
      stays c (record c { locked = true }) (waiting ok) (holding ok) refl refl refl refl
        (omega (arith, now)) tt h
  thread-Consistent {c = c} (read {ok = ok}) h =
      stays c c (holding ok) (loaded ok (counter ok c)) refl refl refl refl refl refl h
  thread-Consistent {c = c} (written {ok = ok} {n = n}) h = writes c ok n h
  thread-Consistent {c = c} released h =
      ends c (record c { locked = false }) stored refl refl (omega arith)
        (omega (arith, h.exclusive, sums holds stored, taken-≤ c.locked)) h

start-Consistent :
    (max_workers total : ℕ) (object_name : String) (queue : List String) (running : List Thread)
    (c : Shared)
    → length running < max_workers
    → Consistent max_workers total
        (record { queue = object_name ∷ queue; running = running; shared = c })
    → Consistent max_workers total (record {
      queue = queue;
      running = record { object_name = object_name; phase = preparing } ∷ running;
      shared = c;
    })
unfolding sum_by Current
start-Consistent max_workers total object_name queue running c room h = record {
  counted = omega (arith, h.counted);
  exclusive = omega (arith, h.exclusive);
  current = (tt, h.current);
  bounded = omega (arith, room);
}

step-Consistent :
    (max_workers total : ℕ) (s t : State)
    → Step max_workers s t
    → Consistent max_workers total s
    → Consistent max_workers total t
step-Consistent max_workers total s t (start room) h =
    start-Consistent max_workers total _ _ _ _ room h
step-Consistent max_workers total s t (move {queue} before after object_name step) h =
    thread-Consistent max_workers total queue before after object_name step h

-- In whatever order the threads run: each object that was submitted is counted once, lost, or still to
-- be counted; at most one thread is in the block with the lock, and then the lock is taken; what it
-- has read is what the counter holds; and there are no more threads than workers.
pub steps-Consistent :
    (max_workers : ℕ) (object_names : List String) (s : State)
    → Steps max_workers (submitted object_names) s
    → Consistent max_workers (length object_names) s
unfolding submitted sum_by Current
steps-Consistent max_workers object_names s done = record {
  counted = omega arith;
  exclusive = refl;
  current = tt;
  bounded = omega arith;
}
steps-Consistent max_workers object_names s (more {t = t} steps step) =
    step-Consistent max_workers (length object_names) t s step
      (steps-Consistent max_workers object_names t steps)
