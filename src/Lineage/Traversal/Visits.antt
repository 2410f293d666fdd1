-- ===== src/Lineage/Traversal/Visits.antt =====
-- A visit to a server where all are steady (`IsSteady`): it returns with all its links followed.
use dockerize_and_ansible.Base.{
  ℕ, suc, String, ◌≡◌, ◌∙◌, sym, ap, true, List, contains, ◌==◌, ◌||◌, string_eq, arith, ==_refl,
  Bool-cases, inl, inr,
}
use dockerize_and_ansible.Base.Dict
use dockerize_and_ansible.Base.Dict.{Dict, has-put}
use dockerize_and_ansible.Base.Effect.{return, M, modify, ◌>>=◌, ◌>>◌, bind-of_return}
use dockerize_and_ansible.Base.Effect.Keeps.{Keeps}
use dockerize_and_ansible.Lineage.State.{
  Config, signature_eq, Connection, Shipping, Pair, Subscription, Env, Visit, connected, State,
}
use dockerize_and_ansible.Lineage.Servers.{
  at_server, connect_sql_server, get_sql_server_distributor, get_log_shipping_info,
}
use dockerize_and_ansible.Lineage.Servers.Keeps.{
  connect-Keeps, distributor-Keeps, log_shipping-Keeps,
}
use dockerize_and_ansible.Lineage.Traversal.{
  mark, follow_shipping, visit_distributor, if_distributor, visit_server,
}
use dockerize_and_ansible.Lineage.Traversal.Reachable.{origin, Reaches, All-members}
use dockerize_and_ansible.Lineage.Traversal.Linked.{
  World, IsSteady, Link, by_shipping, by_replication,
}
use dockerize_and_ansible.Lineage.Traversal.Within.{P, P-IsStable, P-marked, unvisited-put_new}
use dockerize_and_ansible.Lineage.Traversal.Onwards.{shipping-Within}
use dockerize_and_ansible.Lineage.Traversal.Fuel.{Fresh, Fresh-IsStable}
use mathlib.Core.Path.{subst}
use mathlib.Core.List.{Memᴰ}
use dockerize_and_ansible.Lineage.Traversal.Runs.{
  IsClean, put-IsClean, IsIn, Covers, Covers-trans, Runs, Runs-bind, kept, Runs-post,
}
use dockerize_and_ansible.Lineage.Traversal.Quiet.{shipping-Runs, distributor-Runs, connect-Runs}
use dockerize_and_ansible.Lineage.Traversal.Reachable.{LeadsTo, ships}
use dockerize_and_ansible.Lineage.Traversal.Followed.{follow_shipping-Runs, if_distributor-Runs}

module _ (env : Env) (config : Config) (w : World) (steady : IsSteady env config w) (root : String)
    (servers : List String) (n : ℕ) (next : String → M State (Unit {0}))
    (keeps : (server : String)
      → Reaches env config.database root origin server
      → Keeps (P env config root servers n) (next server))
    (run : (server : String)
      → Reaches env config.database root origin server
      → (s : State) → P env config root servers n s
      → Runs env w (next server) s (λ _ v. IsIn server v)) where
  -- After a visit all links of the server lead to visited servers.
  followed :
      (server : String) (u v : Dict String Visit)
      → ((row : Shipping) → Memᴰ row (w.shipped server) → IsIn row.secondary_server u)
      → Covers env w u v
      → ((group : Pair × List Subscription)
          → w.is_publisher server ≡ true
          → Memᴰ group (env.group_by (w.subscriptions server))
          → IsIn group.0.subscriber v)
      → (b : String) → Link env w server b
      → IsIn b v
  followed server u v shipped later replicated b (by_shipping row member) =
      later.grows row.secondary_server (shipped row member)
  followed server u v shipped later replicated b (by_replication group publisher member) =
      replicated group publisher member

  module _ (server : String) (reached : Reaches env config.database root origin server) where
    after_mark-Runs :
        (conn : Connection)
        → LeadsTo conn server config.database
        → (s : State) → P env config root servers n s
        → IsIn server s.visited
        → Runs env w
            (do
              shipped ← get_log_shipping_info env conn
              follow_shipping env next shipped
              found ← get_sql_server_distributor env conn
              if_distributor found (visit_distributor env next config))
            s
            (λ _ v. (b : String) → Link env w server b → IsIn b v)
    after_mark-Runs conn leads s h already =
        let Kept = P env config root servers n in
        let stable = P-IsStable env config root servers n in
        let p = shipping-Runs env config w steady conn s in
        let hp = kept env w Kept (log_shipping-Keeps stable env conn) h p in
        let rows_are : p.result ≡ w.shipped server =
          p.post.0 ∙ ap (λ t. w.shipped t.server) leads in
        let reached_by : (row : Shipping)
            → Memᴰ row p.result
            → Reaches env config.database root origin row.secondary_server =
          λ row member.
            ships conn s.trace p.result row reached leads
              (steady.shipping conn s.trace ∙ ap return (sym p.post.0)) member in
        let q =
          follow_shipping-Runs env config w steady root servers n next keeps run p.result reached_by
            p.final hp in
        let hq =
          kept env w Kept
            (shipping-Within env config root servers n next keeps p.result
              (All-members _ _ reached_by))
            hp q in
        let r = distributor-Runs env config w steady conn q.final in
        let hr = kept env w Kept (distributor-Keeps stable env conn) hq r in
        let before =
          r.covers.grows server (q.covers.grows server (p.covers.grows server already)) in
        let last =
          if_distributor-Runs env config w steady root servers n next keeps run server conn reached
            leads r.result r.post.0 r.final hr before in
        Runs-bind env w _ _ s p (
          Runs-bind env w _ _ p.final q (
            Runs-bind env w _ _ q.final r (
              Runs-post env w _ r.final last (
                followed server q.final.visited last.final.visited
                  (λ row member. q.post row (subst (Memᴰ row) (sym rows_are) member))
                  (Covers-trans env w q.final.visited r.final.visited last.final.visited r.covers
                    last.covers)))))

    pub visit-Runs :
        (s : State)
        → Fresh env config root servers n server s
        → contains servers server ≡ true
        → Runs env w (visit_server env next config server) s (λ _ v. IsIn server v)
    unfolding visit_server mark modify ◌>>=◌
    visit-Runs s fresh listed =
        let place = at_server server config in
        let p = connect-Runs env config w steady server s fresh.within.faithful in
        let after =
          kept env w (Fresh env config root servers n server)
            (connect-Keeps (Fresh-IsStable env config root servers n server) env place) fresh p in
        let conn = p.result in
        let t = p.final in
        let now = Dict.put t.visited server (connected conn) in
        let fewer =
          unvisited-put_new servers t.visited server (connected conn) listed after.unseen in
        let marked =
          P-marked env config root servers (suc n) server (connected conn) t n after.within
            (origin, reached) (omega (arith, fewer, after.within.left)) in
        let present : (other : String)
            → Dict.has now other ≡ (server == other || Dict.has t.visited other) =
          has-put t.visited server (connected conn) in
        let this : IsIn server now = ground (arith, present server, ==_refl server) in
        let rest = after_mark-Runs conn p.post.0 (record t { visited = now }) marked this in
        let was : (other : String) → Dict.has t.visited other ≡ Dict.has s.visited other =
          λ other. ap (λ v. Dict.has v other) p.post.1 in
        record {
          result = rest.result;
          final = rest.final;
          ran = bind-of_return (connect_sql_server env place) _ p.ran ∙ rest.ran;
          covers = record {
            grows =
                λ other before. rest.covers.grows other (ground (arith, present other, was other));
            done = λ a b found new link. elim (Bool-cases (server == a)) [
              | inl this_one ↦ rest.post b (subst (λ x. Link env w x b) (ground arith) link)
              | inr another ↦ rest.covers.done a b found (ground (arith, present a, was a)) link
            ];
            clean = λ h.
                rest.covers.clean
                  (put-IsClean t.visited server conn (subst IsClean (sym p.post.1) h));
          };
          post = rest.covers.grows server this;
        }
