-- ===== src/Tests/DownloadRuns.antt =====
-- minio/downloader/main.py with two threads, one of which waits for the lock that the other has.
use dockerize_and_ansible.Base.{◌≤◌, String, refl, ◌⊎◌, true, false, List, [], ◌∷◌, arith}
use dockerize_and_ansible.Download.{
  preparing, waiting, loaded, prepared, fetched, acquired, read, State, start, move, Steps, done,
  more, submitted,
}
use dockerize_and_ansible.Download.Counts.{Consistent, steps-Consistent}
use dockerize_and_ansible.Download.Progress.{count_steps, IsFinished, CanStep, steps-end}

abbrev two_objects : List String
two_objects = "a.jpg" ∷ "b.jpg" ∷ []

-- The first download has worked and is about to write; the second has failed and waits.
abbrev contended : State
contended = record {
  queue = [];
  running =
      record { object_name = "b.jpg"; phase = waiting false }
      ∷ record { object_name = "a.jpg"; phase = loaded true 0 }
      ∷ [];
  shared = record { success_count = 0; failure_count = 0; lost = 0; locked = true };
}

abbrev contended_run : Steps 2 (submitted two_objects) contended
unfolding submitted
contended_run =
    more
      (more
        (more
          (more
            (more
              (more (more (more done (start (omega arith))) (start (omega arith))) (
                move (record { object_name = "b.jpg"; phase = preparing } ∷ []) [] "a.jpg"
                  prepared))
              (move (record { object_name = "b.jpg"; phase = preparing } ∷ []) [] "a.jpg"
                (fetched true)))
            (move [] (record { object_name = "a.jpg"; phase = waiting true } ∷ []) "b.jpg"
              prepared))
          (move [] (record { object_name = "a.jpg"; phase = waiting true } ∷ []) "b.jpg"
            (fetched false)))
        (move (record { object_name = "b.jpg"; phase = waiting false } ∷ []) [] "a.jpg"
          (acquired refl)))
      (move (record { object_name = "b.jpg"; phase = waiting false } ∷ []) [] "a.jpg" read)

steps-Consistent_example : Consistent 2 2 contended
steps-Consistent_example = steps-Consistent 2 two_objects contended contended_run

steps-end_example : (count_steps contended_run ≤ 14) × (IsFinished contended ⊎ CanStep 2 contended)
steps-end_example = steps-end 2 two_objects contended (omega arith) contended_run
