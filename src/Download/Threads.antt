-- ===== src/Download/Threads.antt =====
-- Numbers and facts over a list of threads.
use dockerize_and_ansible.Base.{
  ℕ, ◌+◌, ◌≤◌, ◌≡◌, ◌∙◌, Bool, true, false, List, [], ◌∷◌, ◌++◌, length, arith,
}
use dockerize_and_ansible.Download.{
  Phase, preparing, fetching, waiting, holding, loaded, stored, Shared, counter, Thread,
}

-- The sum of a number over the threads.
unfoldable pub sum_by : (Phase → ℕ) → List Thread → ℕ
sum_by f [] = 0
sum_by f (t ∷ ts) = f t.phase + sum_by f ts

pub sum_by-append :
    (f : Phase → ℕ) (xs ys : List Thread) → sum_by f (xs ++ ys) ≡ sum_by f xs + sum_by f ys
unfolding sum_by
sum_by-append f [] ys = omega arith
sum_by-append f (x ∷ xs) ys = omega (arith, sum_by-append f xs ys)

-- 1 for a thread that has not counted its object.
abbrev pub pending : Phase → ℕ
pending stored = 0
pending phase = 1

-- 1 for a thread in the block with the lock.
abbrev pub holds : Phase → ℕ
holds preparing = 0
holds fetching = 0
holds (waiting ok) = 0
holds (holding ok) = 1
holds (loaded ok n) = 1
holds stored = 1

abbrev pub taken : Bool → ℕ
taken true = 1
taken false = 0

-- What a thread has read is what the counter still holds.
abbrev pub CurrentPhase : Shared → Phase → Type 0
CurrentPhase c (loaded ok n) = n ≡ counter ok c
CurrentPhase c phase = Unit

unfoldable pub Current : Shared → List Thread → Type 0
Current c [] = Unit
Current c (t ∷ ts) = CurrentPhase c t.phase × Current c ts

pub Current-append :
    (c : Shared) (xs ys : List Thread) → Current c (xs ++ ys) → Current c xs × Current c ys
unfolding Current
Current-append c [] ys h = (tt, h)
Current-append c (x ∷ xs) ys (here, rest) =
    let (p, q) = Current-append c xs ys rest in ((here, p), q)

pub Current-join :
    (c : Shared) (xs ys : List Thread) → Current c xs → Current c ys → Current c (xs ++ ys)
unfolding Current
Current-join c [] ys p q = q
Current-join c (x ∷ xs) ys (here, p) q = (here, Current-join c xs ys p q)

CurrentPhase-free : (c c' : Shared) (phase : Phase) → holds phase ≡ 0 → CurrentPhase c' phase
CurrentPhase-free c c' preparing free = tt
CurrentPhase-free c c' fetching free = tt
CurrentPhase-free c c' (waiting ok) free = tt
CurrentPhase-free c c' (holding ok) free = tt
CurrentPhase-free c c' (loaded ok n) free = absurd (omega (arith, free))
CurrentPhase-free c c' stored free = tt

-- Threads outside the block have read nothing.
pub Current-free : (c : Shared) (ts : List Thread) → sum_by holds ts ≡ 0 → Current c ts
unfolding sum_by Current
Current-free c [] free = tt
Current-free c (t ∷ ts) free =
    (CurrentPhase-free c c t.phase (omega (arith, free)), Current-free c ts (omega (arith, free)))

-- A step that leaves both counters alone.
CurrentPhase-same :
    (c c' : Shared) (phase : Phase)
    → c.success_count ≡ c'.success_count
    → c.failure_count ≡ c'.failure_count
    → CurrentPhase c phase
    → CurrentPhase c' phase
CurrentPhase-same c c' preparing p q h = tt
CurrentPhase-same c c' fetching p q h = tt
CurrentPhase-same c c' (waiting ok) p q h = tt
CurrentPhase-same c c' (holding ok) p q h = tt
CurrentPhase-same c c' (loaded true n) p q h = h ∙ p
CurrentPhase-same c c' (loaded false n) p q h = h ∙ q
CurrentPhase-same c c' stored p q h = tt

pub Current-same :
    (c c' : Shared) (ts : List Thread)
    → c.success_count ≡ c'.success_count
    → c.failure_count ≡ c'.failure_count
    → Current c ts
    → Current c' ts
unfolding Current
Current-same c c' [] p q h = tt
Current-same c c' (t ∷ ts) p q (here, rest) =
    (CurrentPhase-same c c' t.phase p q here, Current-same c c' ts p q rest)

pub length-append : (xs ys : List Thread) → length (xs ++ ys) ≡ length xs + length ys
length-append [] ys = omega arith
length-append (x ∷ xs) ys = omega (arith, length-append xs ys)

pub taken-≤ : (b : Bool) → taken b ≤ 1
taken-≤ true = omega arith
taken-≤ false = omega arith
