-- ===== src/Lineage/Traversal/Within.antt =====
-- The invariant of the traversal, and that marking a server keeps it.
use dockerize_and_ansible.Base.{
  ℕ, ◌≤◌, ◌<◌, String, ◌≡◌, inl, inr, true, false, not, List, [], ◌∷◌, keep, length, contains, ◌==◌,
  string_eq, arith, Bool-cases,
}
use mathlib.Core.Path.{subst}
use dockerize_and_ansible.Base.Dict
use dockerize_and_ansible.Base.Dict.{Dict, has-put, get-put}
use dockerize_and_ansible.Base.Effect.{Exception, connection_error, modify}
use dockerize_and_ansible.Base.Effect.Keeps.{Keeps, Keeps-pure}
use dockerize_and_ansible.Lineage.State.{Config, signature_eq, Env, Visit, State}
use dockerize_and_ansible.Lineage.Servers.Keeps.{IsStable}
use dockerize_and_ansible.Lineage.Traversal.{mark, on_failure}
use dockerize_and_ansible.Lineage.Servers.Places.{IsFaithful}
use dockerize_and_ansible.Lineage.Traversal.Reachable.{Role, Reaches}

-- The servers of a list that were not visited.
abbrev pub unvisited : List String → Dict String Visit → ℕ
unvisited servers visited = length (keep (λ s. not (Dict.has visited s)) servers)

unvisited-put :
    (servers : List String) (visited : Dict String Visit) (server : String) (visit : Visit)
    → unvisited servers (Dict.put visited server visit) ≤ unvisited servers visited
unvisited-put [] visited server visit = omega arith
unvisited-put (s ∷ servers) visited server visit =
    ground (arith, unvisited-put servers visited server visit, has-put visited server visit s)

pub unvisited-put_new :
    (servers : List String) (visited : Dict String Visit) (server : String) (visit : Visit)
    → contains servers server ≡ true
    → Dict.has visited server ≡ false
    → unvisited servers (Dict.put visited server visit) < unvisited servers visited
unvisited-put_new [] visited server visit listed new = cc
unvisited-put_new (s ∷ servers) visited server visit listed new = ground (
  arith,
  unvisited-put servers visited server visit,
  unvisited-put_new servers visited server visit,
  has-put visited server visit s,
)

-- The traversal from `root` within its fuel: the pool is faithful, only servers that can be reached
-- were visited, and fewer than `n` servers of the list are left.
pub record Within (env : Env) (database root : String) (servers : List String) (n : ℕ) (s : State)
    : Type 0 where
  pub faithful : IsFaithful s.pool
  pub only_reached :
      (server : String)
      → Dict.has s.visited server ≡ true
      → (role : Role) × Reaches env database root role server
  pub fueled : s.out_of_fuel ≡ false
  pub left : unvisited servers s.visited < n

module _ (env : Env) (config : Config) (root : String) (servers : List String) where
  abbrev pub P : ℕ → State → Type 0
  P n s = Within env config.database root servers n s

  abbrev Found : String → Type 0
  Found server = (role : Role) × Reaches env config.database root role server

  pub P-IsStable : (n : ℕ) → IsStable (P n)
  P-IsStable n = record {
    calls = λ s e h. record {
      faithful = h.faithful;
      only_reached = h.only_reached;
      fueled = h.fueled;
      left = h.left;
    };
    pools = λ s conn h. record {
      faithful =
          λ place c found. ground (arith, get-put s.pool conn.place place conn, h.faithful place c);
      only_reached = h.only_reached;
      fueled = h.fueled;
      left = h.left;
    };
  }

  pub P-marked :
      (n : ℕ) (server : String) (visit : Visit) (s : State) (m : ℕ)
      → P n s
      → Found server
      → unvisited servers (Dict.put s.visited server visit) < m
      → P m (record s { visited = Dict.put s.visited server visit })
  P-marked n server visit s m h found fewer = record {
    faithful = h.faithful;
    only_reached = λ other seen. elim (Bool-cases (server == other)) [
      | inl same ↦ subst Found (ground arith) found
      | inr different ↦ h.only_reached other (ground (arith, has-put s.visited server visit other))
    ];
    fueled = h.fueled;
    left = fewer;
  }

  pub mark-Within :
      (n : ℕ) (server : String) (visit : Visit) → Found server → Keeps (P n) (mark server visit)
  unfolding mark modify
  mark-Within n server visit found = record {
    at = λ s h.
        P-marked n server visit s n h found
          (omega (arith, unvisited-put servers s.visited server visit, h.left));
  }

  pub on_failure-Within :
      (n : ℕ) (server : String) (e : Exception) → Found server → Keeps (P n) (on_failure server e)
  unfolding on_failure
  on_failure-Within n server connection_error found = mark-Within n server _ found
  on_failure-Within n server _ found = Keeps-pure _
