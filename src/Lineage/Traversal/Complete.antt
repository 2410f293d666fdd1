-- ===== src/Lineage/Traversal/Complete.antt =====
-- A traversal where every login succeeds, the answers do not change, and each publisher is its own
-- distributor.
use dockerize_and_ansible.Base.{
  ℕ, zero, suc, ◌<◌, String, ◌≡◌, refl, sym, ap, ◌↔◌, true, List, [], ◌∷◌, length, contains,
  string_eq, arith, Bool-cases, inl, inr,
}
use dockerize_and_ansible.Base.Dict
use dockerize_and_ansible.Base.Dict.{Dict, has-put}
use dockerize_and_ansible.Base.Effect.{return, pure, gets, ◌>>=◌, try_except-of_return}
use dockerize_and_ansible.Lineage.State.{
  Config, signature_eq, Env, Visit, State, untouched, History,
}
use dockerize_and_ansible.Lineage.Traversal.{on_failure, visit_server, traverse_lineage}
use dockerize_and_ansible.Lineage.Traversal.Reachable.{Role, origin, distributor, Reaches}
use dockerize_and_ansible.Lineage.Traversal.Linked.{
  World, IsSteady, Linked, here, onwards, Means, Reaches-Linked,
}
use dockerize_and_ansible.Lineage.Traversal.Within.{P, unvisited}
use dockerize_and_ansible.Lineage.Traversal.Fuel.{traverse_lineage-Within}
use mathlib.Core.Path.{subst}
use dockerize_and_ansible.Lineage.Traversal.Runs.{IsClean, IsIn, Covers, Covers-refl, Runs, kept}
use dockerize_and_ansible.Lineage.Traversal.Reachable.{start}
use dockerize_and_ansible.Lineage.Traversal.Visits.{visit-Runs}

module _ (env : Env) (config : Config) (w : World) (steady : IsSteady env config w) (root : String)
    (servers : List String)
    (listed : (role : Role) (server : String)
      → Reaches env config.database root role server
      → contains servers server ≡ true) where
  traverse-Runs :
      (fuel : ℕ) (server : String)
      → Reaches env config.database root origin server
      → (s : State) → P env config root servers fuel s
      → Runs env w (traverse_lineage env fuel config server) s (λ _ v. IsIn server v)
  unfolding traverse_lineage gets pure ◌>>=◌
  traverse-Runs zero server reached s h = absurd (omega (arith, h.left))
  traverse-Runs (suc fuel) server reached s h = elim (Bool-cases (Dict.has s.visited server)) [
    | inl seen ↦ record {
      result = tt;
      final = s;
      ran = rw seen;
      covers = Covers-refl env w s.visited;
      post = seen;
    }
    | inr unseen ↦
        let p =
          visit-Runs env config w steady root servers fuel (traverse_lineage env fuel config)
            (traverse_lineage-Within env config root servers listed fuel) (traverse-Runs fuel)
            server reached s (record { within = h; unseen = unseen })
            (listed origin server reached) in
        record {
          result = p.result;
          final = p.final;
          ran = rw unseen (
              try_except-of_return
                (visit_server env (traverse_lineage env fuel config) config server)
                (on_failure server) p.ran);
          covers = p.covers;
          post = p.post;
        }
  ]

  -- What is linked to a visited server was visited.
  Linked-visited :
      (visited : Dict String Visit)
      → Covers env w [] visited
      → IsIn root visited
      → (b : String) → Linked env w root b
      → IsIn b visited
  unfolding Dict.has
  Linked-visited visited covers at_root b here = at_root
  Linked-visited visited covers at_root b (onwards {a} walk link) =
      covers.done a b (Linked-visited visited covers at_root a walk) refl link

  role_gone : (b : String) (role : Role) → Means env w root role b → Linked env w root b
  role_gone b origin linked = linked
  role_gone b distributor (linked, publisher) = linked

unvisited_all : (servers : List String) → unvisited servers [] ≡ length servers
unfolding Dict.has
unvisited_all [] = refl
unvisited_all (s ∷ servers) = ap suc (unvisited_all servers)

-- A whole traversal from the first server.
pub record Whole (env : Env) (config : Config) (w : World) (fuel : ℕ) (h : History) : Type 0 where
  pub final : State
  pub ran : traverse_lineage env fuel config config.server (untouched h) ≡ (return tt, final)
  pub clean : IsClean final.visited
  pub linked : (b : String) → (Dict.has final.visited b ≡ true) ↔ Linked env w config.server b

module _ (env : Env) (config : Config) (w : World) (steady : IsSteady env config w)
    (servers : List String)
    (listed : (role : Role) (server : String)
      → Reaches env config.database config.server role server
      → contains servers server ≡ true) where
  pub traversal-Whole :
      (fuel : ℕ) → length servers < fuel → (h : History) → Whole env config w fuel h
  unfolding Dict.has Dict.get
  traversal-Whole fuel enough h =
      let first : P env config config.server servers fuel (untouched h) = record {
        faithful = λ place conn found. absurd (ground arith);
        only_reached = λ server seen. absurd (ground arith);
        fueled = refl;
        left = omega (arith, unvisited_all servers, enough);
      } in
      let p =
        traverse-Runs env config w steady config.server servers listed fuel config.server start
          (untouched h) first in
      let done =
        kept env w (P env config config.server servers fuel)
          (traverse_lineage-Within env config config.server servers listed fuel config.server start)
          first p in
      record {
        final = p.final;
        ran = p.ran;
        clean = p.covers.clean refl;
        linked = λ b. (
          (λ seen.
              let (role, reached) = done.only_reached b seen in
              role_gone env config w steady config.server servers listed b role
                (Reaches-Linked env config w steady config.server reached)),
          Linked-visited env config w steady config.server servers listed p.final.visited p.covers
              p.post b,
        );
      }

-- Where there is a credential, every login succeeds, every server always answers with what it
-- holds, every publisher is its own distributor, no other server has one and no row makes no group,
-- a traversal of the first server that starts with nothing visited returns, and visits the servers
-- that can be walked to along the links, and no others. The list must hold every server that the
-- answers can lead to, and the fuel must be for more than its length.
pub traverse_lineage-Linked :
    (env : Env) (config : Config) (w : World)
    → IsSteady env config w
    → (servers : List String)
    → ((role : Role) (server : String)
        → Reaches env config.database config.server role server
        → contains servers server ≡ true)
    → (fuel : ℕ) → length servers < fuel
    → (h : History) → (b : String)
    → ((traverse_lineage env fuel config config.server (untouched h)).0 ≡ return tt)
      × ((Dict.has (traverse_lineage env fuel config config.server (untouched h)).1.visited b
            ≡ true)
          ↔ Linked env w config.server b)
traverse_lineage-Linked env config w steady servers listed fuel enough h b =
    let whole = traversal-Whole env config w steady servers listed fuel enough h in
    (
      ap (λ r. r.0) whole.ran,
      subst (λ r. (Dict.has r.1.visited b ≡ true) ↔ Linked env w config.server b) (sym whole.ran)
          (whole.linked b),
    )
