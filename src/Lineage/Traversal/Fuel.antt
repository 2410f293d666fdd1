-- ===== src/Lineage/Traversal/Fuel.antt =====
-- How much fuel the traversal takes, and what it visits.
use dockerize_and_ansible.Base.{
  ℕ, zero, suc, String, ◌≡◌, inl, inr, true, false, List, contains, string_eq, arith, Bool-cases,
}
use dockerize_and_ansible.Base.Dict
use dockerize_and_ansible.Base.Dict.{Dict, has-put, get-put}
use dockerize_and_ansible.Base.Effect.{M, pure, gets, modify, try_except, ◌>>=◌, Outcome-cases}
use dockerize_and_ansible.Base.Effect.Keeps.{Keeps}
use dockerize_and_ansible.Lineage.State.{Config, signature_eq, Env, connected, State}
use dockerize_and_ansible.Lineage.Servers.{at_server, connect_sql_server}
use dockerize_and_ansible.Lineage.Servers.Keeps.{IsStable, connect-Keeps}
use dockerize_and_ansible.Lineage.Traversal.{mark, visit_server, traverse_lineage}
use dockerize_and_ansible.Lineage.Servers.Places.{connect-place}
use dockerize_and_ansible.Lineage.Traversal.Within.{
  unvisited-put_new, P, P-IsStable, P-marked, on_failure-Within,
}
use dockerize_and_ansible.Lineage.Traversal.Onwards.{after_mark-Within}
use dockerize_and_ansible.Lineage.Traversal.Reachable.{Role, origin, Reaches}

module _ (env : Env) (config : Config) (root : String) (servers : List String) where
  -- Before the server is marked.
  pub record Fresh (n : ℕ) (server : String) (s : State) : Type 0 where
    pub within : P env config root servers (suc n) s
    pub unseen : Dict.has s.visited server ≡ false

  pub Fresh-IsStable : (n : ℕ) (server : String) → IsStable (Fresh n server)
  Fresh-IsStable n server = record {
    calls = λ s e h. record {
      within = (P-IsStable env config root servers (suc n)).calls s e h.within;
      unseen = h.unseen;
    };
    pools = λ s conn h. record {
      within = (P-IsStable env config root servers (suc n)).pools s conn h.within;
      unseen = h.unseen;
    };
  }

  P-suc : (n : ℕ) (s : State) → P env config root servers n s → P env config root servers (suc n) s
  P-suc n s h = record {
    faithful = h.faithful;
    only_reached = h.only_reached;
    fueled = h.fueled;
    left = omega (arith, h.left);
  }

  module _
      (listed : (role : Role) (server : String)
        → Reaches env config.database root role server
        → contains servers server ≡ true) where
    visit-Within :
        (n : ℕ) (next : String → M State (Unit {0}))
        → ((server : String)
            → Reaches env config.database root origin server
            → Keeps (P env config root servers n) (next server))
        → (server : String) → Reaches env config.database root origin server
        → (s : State) → Fresh n server s
        → P env config root servers (suc n) (visit_server env next config server s).1
    unfolding visit_server mark modify ◌>>=◌
    visit-Within n next follows server reached s fresh =
        let connect = connect_sql_server env (at_server server config) in
        let after =
          (connect-Keeps (Fresh-IsStable n server) env (at_server server config)).at s fresh in
        elim (Outcome-cases (connect s).0) [
          | inr (x, failed) ↦ rw failed after.within
          | inl (conn, made) ↦
              let t = (connect s).1 in
              let leads =
                connect-place env (at_server server config) s conn fresh.within.faithful made in
              let fewer =
                unvisited-put_new servers t.visited server (connected conn)
                  (listed origin server reached) after.unseen in
              let marked =
                P-marked env config root servers (suc n) server (connected conn) t n after.within
                  (origin, reached) (omega (arith, fewer, after.within.left)) in
              rw made (
                P-suc n _ (
                  (after_mark-Within env config root servers n next follows server conn reached
                      leads).at
                    _ marked))
        ]

    -- If a list holds every server that can be reached from the first one, the traversal of a server
    -- that can be reached, with fuel for more than the servers of the list that are not visited, does
    -- not run out of it, whatever the servers answer and wherever an error stops a visit. It marks
    -- only servers that can be reached, and the pool keeps leading where its keys say.
    pub traverse_lineage-Within :
        (fuel : ℕ) (server : String)
        → Reaches env config.database root origin server
        → Keeps (P env config root servers fuel) (traverse_lineage env fuel config server)
    unfolding traverse_lineage try_except gets pure ◌>>=◌
    traverse_lineage-Within zero server reached = record {
      at = λ s h. absurd (omega (arith, h.left));
    }
    traverse_lineage-Within (suc fuel) server reached = record {
      at = λ s h. elim (Bool-cases (Dict.has s.visited server)) [
        | inl seen ↦ rw seen h
        | inr unseen ↦
            let visit = visit_server env (traverse_lineage env fuel config) config server in
            let done =
              visit-Within fuel (traverse_lineage env fuel config) (traverse_lineage-Within fuel)
                server reached s (record { within = h; unseen = unseen }) in
            rw unseen (elim (Outcome-cases (visit s).0) [
              | inl (r, ok) ↦ rw ok done
              | inr (e, failed) ↦ rw failed (
                  (on_failure-Within env config root servers (suc fuel) server e
                      (origin, reached)).at
                    (visit s).1 done)
            ])
      ];
    }
