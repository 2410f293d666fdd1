-- ===== src/Listener/Owned/Ids.antt =====
-- mssql/test/ag_listener/main.py: adding to and taking from the ids of a worker's rows.
use dockerize_and_ansible.Base.{
  ℕ, zero, suc, ◌-◌, String, ◌≡◌, refl, true, false, some, List, [], ◌∷◌, ◌++◌, All, All-append,
  Distinct, Distinct-more, contains, ◌==◌, ==_refl, string_eq, arith, length, Bool-cases, inl, inr,
}
use mathlib.Core.Path.{subst}
use mathlib.Core.Option.{none-ne-some, some-injective}
use dockerize_and_ansible.Listener.{Env, State, History}
use dockerize_and_ansible.Listener.Worker.{most_ids, last_500, without_first, without_item, item}
use dockerize_and_ansible.Listener.Rows.{Live}
use dockerize_and_ansible.Listener.Owned.{Owned}
use dockerize_and_ansible.Listener.Owned.Creates.{NewRow}

-- Different live rows.
abbrev Rows : Env → History → List String → Type 0
Rows env h ids = All (Live env h) ids × Distinct ids

one_more :
    (env : Env) (h : History) (ids : List String) (id : String)
    → Rows env h ids
    → Live env h id
    → contains ids id ≡ false
    → Rows env h (ids ++ id ∷ [])
one_more env h ids id (live, distinct) new absent =
    (All-append (Live env h) ids (id ∷ []) live (new, tt), Distinct-more ids id distinct absent)

without_first-Rows :
    (env : Env) (h : History) (n : ℕ) (ids : List String)
    → Rows env h ids
    → Rows env h (without_first n ids)
without_first-Rows env h zero ids r = r
without_first-Rows env h (suc n) [] r = r
without_first-Rows env h (suc n) (x ∷ ids) (live, distinct) =
    without_first-Rows env h n ids (live.1, distinct.1)

last_500-Rows :
    (env : Env) (h : History) (ids : List String) → Rows env h ids → Rows env h (last_500 ids)
unfolding last_500
last_500-Rows env h ids r = without_first-Rows env h (length ids - most_ids) ids r

-- What is left when an item is taken out, and the item.
without_item-contains :
    (ids : List String) (i : ℕ) (row : String)
    → contains ids row ≡ false
    → contains (without_item ids i) row ≡ false
without_item-contains [] i row h = refl
without_item-contains (x ∷ ids) zero row h = ground (arith, h)
without_item-contains (x ∷ ids) (suc i) row h =
    ground (arith, h, without_item-contains ids i row (ground (arith, h)))

without_item-Rows :
    (env : Env) (h : History) (ids : List String) (i : ℕ)
    → Rows env h ids
    → Rows env h (without_item ids i)
without_item-Rows env h [] i r = r
without_item-Rows env h (x ∷ ids) zero (live, distinct) = (live.1, distinct.1)
without_item-Rows env h (x ∷ ids) (suc i) (live, distinct) =
    let (live', distinct') = without_item-Rows env h ids i (live.1, distinct.1) in
    ((live.0, live'), (without_item-contains ids i x distinct.0, distinct'))

-- The item at a place, if there is one, has the property of all.
pub item-Live :
    (env : Env) (h : History) (ids : List String) (i : ℕ) (id : String)
    → All (Live env h) ids
    → item ids i ≡ some id
    → Live env h id
item-Live env h [] i id live e = absurd (none-ne-some id e)
item-Live env h (x ∷ ids) zero id live e = subst (Live env h) (some-injective x id e) live.0
item-Live env h (x ∷ ids) (suc i) id live e = item-Live env h ids i id live.1 e

pub item-contains :
    (ids : List String) (i : ℕ) (id : String) → item ids i ≡ some id → contains ids id ≡ true
item-contains [] i id e = absurd (none-ne-some id e)
item-contains (x ∷ ids) zero id e = rw (some-injective x id e) (ground (arith, ==_refl id))
item-contains (x ∷ ids) (suc i) id e = ground (arith, item-contains ids i id e)

pub item-dropped :
    (ids : List String) (i : ℕ) (id : String)
    → Distinct ids
    → item ids i ≡ some id
    → contains (without_item ids i) id ≡ false
item-dropped [] i id distinct e = refl
item-dropped (x ∷ ids) zero id distinct e =
    subst (λ row. contains ids row ≡ false) (some-injective x id e) distinct.0
item-dropped (x ∷ ids) (suc i) id distinct e = elim (Bool-cases (id == x)) [
  | inl same ↦ absurd (ground (arith, same, item-contains ids i id e, distinct.0))
  | inr differ ↦ ground (arith, differ, item-dropped ids i id distinct.1 e)
]

-- A new row is held from now on, and the oldest may be let go.
pub notes :
    (env : Env) (id : String) (s : State)
    → NewRow env id s
    → Owned env (record s { last_ids = last_500 (s.last_ids ++ id ∷ []) })
notes env id s (h, new, absent) =
    let (live, distinct) =
      last_500-Rows env s.trace _
        (one_more env s.trace s.last_ids id (h.live, h.distinct) new absent) in
    record { proper = h.proper; live = live; distinct = distinct }

pub pops :
    (env : Env) (i : ℕ) (s : State)
    → Owned env s
    → Owned env (record s { last_ids = without_item s.last_ids i })
pops env i s h =
    let (live, distinct) = without_item-Rows env s.trace s.last_ids i (h.live, h.distinct) in
    record { proper = h.proper; live = live; distinct = distinct }
