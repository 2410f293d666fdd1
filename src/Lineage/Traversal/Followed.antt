-- ===== src/Lineage/Traversal/Followed.antt =====
-- What the loops over linked servers and the visit of a distributor do where the servers are steady
-- (`IsSteady`).
use dockerize_and_ansible.Base.{
  ℕ, String, ◌≡◌, refl, ◌∙◌, sym, ap, true, Option, none, some, List, [], ◌∷◌, if◌then◌else◌,
  string_eq, arith,
}
use dockerize_and_ansible.Base.Dict
use dockerize_and_ansible.Base.Dict.{Dict, has-put}
use dockerize_and_ansible.Base.Effect.{return, M, pure, modify, ◌>>◌}
use dockerize_and_ansible.Base.Effect.Keeps.{Keeps, Keeps-bind}
use dockerize_and_ansible.Lineage.State.{
  Config, signature_eq, Connection, Shipping, Pair, Subscription, Env, connected, State,
}
use dockerize_and_ansible.Lineage.Servers.{at_server}
use dockerize_and_ansible.Lineage.Servers.Keeps.{connect-Keeps, replication-Keeps}
use dockerize_and_ansible.Lineage.Traversal.{
  mark, drop_listed, follow_shipping, follow_replication, if_rows, visit_distributor,
  if_distributor,
}
use dockerize_and_ansible.Lineage.Traversal.Keeps.{create_lineage-Keeps, drop_listed-Keeps}
use dockerize_and_ansible.Lineage.Traversal.Reachable.{origin, distributor, Reaches}
use dockerize_and_ansible.Lineage.Traversal.Linked.{World, IsSteady, publisher_known}
use dockerize_and_ansible.Lineage.Traversal.Within.{P, P-IsStable, mark-Within}
use mathlib.Core.Path.{subst}
use mathlib.Core.List.{Memᴰ}
use mathlib.Core.List.Memᴰ
use dockerize_and_ansible.Lineage.Traversal.Runs.{
  put-IsClean, IsIn, Covers-refl, Runs, Runs-bind, Runs-for_each, kept, Runs-post,
}
use dockerize_and_ansible.Lineage.Traversal.Quiet.{
  create-Runs, drop_listed-Runs, replication-Runs, connect-Runs,
}
use dockerize_and_ansible.Lineage.Traversal.Reachable.{LeadsTo, distributes, publishes}

module _ (env : Env) (config : Config) (w : World) (steady : IsSteady env config w) (root : String)
    (servers : List String) (n : ℕ) (next : String → M State (Unit {0}))
    (keeps : (server : String)
      → Reaches env config.database root origin server
      → Keeps (P env config root servers n) (next server))
    (run : (server : String)
      → Reaches env config.database root origin server
      → (s : State) → P env config root servers n s
      → Runs env w (next server) s (λ _ v. IsIn server v)) where
  pub follow_shipping-Runs :
      (rows : List Shipping)
      → ((row : Shipping)
          → Memᴰ row rows
          → Reaches env config.database root origin row.secondary_server)
      → (s : State) → P env config root servers n s
      → Runs env w
          (follow_shipping env next rows)
          s
          (λ _ v. (row : Shipping) → Memᴰ row rows → IsIn row.secondary_server v)
  unfolding follow_shipping
  follow_shipping-Runs rows reached s h =
      Runs-for_each env w rows _ (λ row. row.secondary_server) (P env config root servers n)
        (λ row member.
          Keeps-bind _ _ (create_lineage-Keeps (P-IsStable env config root servers n) env _)
            (λ _. keeps _ (reached row member)))
        (λ row member t h.
          let p = create-Runs env config w steady _ t in
          Runs-bind env w _ _ t p (
            run _ (reached row member) p.final (
              kept env w (P env config root servers n)
                (create_lineage-Keeps (P-IsStable env config root servers n) env _) h p)))
        s h

  follow_replication-Runs :
      (groups : List (Pair × List Subscription))
      → ((group : Pair × List Subscription)
          → Memᴰ group groups
          → Reaches env config.database root origin group.0.subscriber)
      → (s : State) → P env config root servers n s
      → Runs env w (follow_replication env next groups) s (λ _ v.
        (group : Pair × List Subscription) → Memᴰ group groups → IsIn group.0.subscriber v)
  unfolding follow_replication
  follow_replication-Runs groups reached s h =
      Runs-for_each env w groups _ (λ group. group.0.subscriber) (P env config root servers n)
        (λ group member.
          Keeps-bind _ _ (create_lineage-Keeps (P-IsStable env config root servers n) env _)
            (λ _. keeps _ (reached group member)))
        (λ group member t h.
          let p = create-Runs env config w steady _ t in
          Runs-bind env w _ _ t p (
            run _ (reached group member) p.final (
              kept env w (P env config root servers n)
                (create_lineage-Keeps (P-IsStable env config root servers n) env _) h p)))
        s h

  -- A server that is marked again is not forgotten.
  mark_again-Runs :
      (server : String) (conn : Connection) (s : State)
      → IsIn server s.visited
      → Runs env w (mark server (connected conn)) s (λ _ v. IsIn server v)
  unfolding mark modify
  mark_again-Runs server conn s already =
      let same : (other : String)
          → Dict.has (Dict.put s.visited server (connected conn)) other ≡ Dict.has s.visited other =
        λ other. ground (arith, has-put s.visited server (connected conn) other) in
      record {
        result = tt;
        final = record s { visited = Dict.put s.visited server (connected conn) };
        ran = refl;
        covers = record {
          grows = λ other before. same other ∙ before;
          done = λ a b found new link. absurd (ground (arith, same a));
          clean = put-IsClean s.visited server conn;
        };
        post = same server ∙ already;
      }

  module _ (server : String) (reached : Reaches env config.database root distributor server)
      (publisher : w.is_publisher server ≡ true) where
    rows-Runs :
        (conn : Connection) (rows : List Subscription)
        → LeadsTo conn server config.database
        → rows ≡ w.subscriptions conn.place.server
        → (s : State) → P env config root servers n s
        → Runs env w
            (if_rows rows
              (do drop_listed env config rows; follow_replication env next (env.group_by rows)))
            s
            (λ _ v.
              (group : Pair × List Subscription)
              → Memᴰ group (env.group_by rows)
              → IsIn group.0.subscriber v)
    unfolding pure
    rows-Runs conn [] leads e s h = record {
      result = tt;
      final = s;
      ran = refl;
      covers = Covers-refl env w s.visited;
      post = λ group member. absurd (Memᴰ.not-nil (subst (Memᴰ group) steady.no_groups member));
    }
    rows-Runs conn (r ∷ rows) leads e s h =
        let p = drop_listed-Runs env config w steady (r ∷ rows) s in
        Runs-bind env w _ _ s p (
          follow_replication-Runs (env.group_by (r ∷ rows))
            (λ group member.
              publishes conn s.trace (r ∷ rows) group reached leads
                (steady.replicating conn s.trace ∙ ap return (sym e)) member)
            p.final
            (kept env w (P env config root servers n)
              (drop_listed-Keeps (P-IsStable env config root servers n) env config (r ∷ rows)) h p))

    distributor_visit-Runs :
        (s : State)
        → P env config root servers n s
        → IsIn server s.visited
        → Runs env w (visit_distributor env next config server) s (λ _ v.
          (group : Pair × List Subscription)
          → Memᴰ group (env.group_by (w.subscriptions server))
          → IsIn group.0.subscriber v)
    unfolding visit_distributor
    distributor_visit-Runs s h already =
        let Kept = P env config root servers n in
        let stable = P-IsStable env config root servers n in
        let place = at_server server config in
        let p = connect-Runs env config w steady server s h.faithful in
        let leads = p.post.0 in
        let hp = kept env w Kept (connect-Keeps stable env place) h p in
        let q =
          mark_again-Runs server p.result p.final (subst (IsIn server) (sym p.post.1) already) in
        let hq =
          kept env w Kept
            (mark-Within env config root servers n server (connected p.result)
              (distributor, reached))
            hp q in
        let r = replication-Runs env config w steady p.result q.final in
        let hr = kept env w Kept (replication-Keeps stable env p.result) hq r in
        let last = rows-Runs p.result r.result leads r.post.0 r.final hr in
        let same : r.result ≡ w.subscriptions server =
          r.post.0 ∙ ap (λ t. w.subscriptions t.server) leads in
        Runs-bind env w _ _ s p (
          Runs-bind env w _ _ p.final q (
            Runs-bind env w _ _ q.final r (
              Runs-post env w _ r.final last (λ all group member.
                all group (subst (λ t. Memᴰ group (env.group_by t)) (sym same) member)))))

  pub if_distributor-Runs :
      (server : String) (conn : Connection)
      → Reaches env config.database root origin server
      → LeadsTo conn server config.database
      → (o : Option String)
      → o ≡ (if w.is_publisher conn.place.server then some conn.place.server else none)
      → (s : State) → P env config root servers n s
      → IsIn server s.visited
      → Runs env w (if_distributor o (visit_distributor env next config)) s (λ _ v.
        (group : Pair × List Subscription)
        → w.is_publisher server ≡ true
        → Memᴰ group (env.group_by (w.subscriptions server))
        → IsIn group.0.subscriber v)
  unfolding pure
  if_distributor-Runs server conn reached leads none e s h already = record {
    result = tt;
    final = s;
    ran = refl;
    covers = Covers-refl env w s.visited;
    post = λ group publisher member. let at = ap (λ p. p.server) leads in absurd (ground arith);
  }
  if_distributor-Runs server conn reached leads (some name) e s h already =
      let (same, publishing) = publisher_known w conn.place.server name (sym e) in
      let at : server ≡ name = sym (ap (λ p. p.server) leads) ∙ same in
      let publisher : w.is_publisher name ≡ true = ap w.is_publisher (sym same) ∙ publishing in
      let found =
        distributes conn s.trace name reached leads
          (steady.distributing conn s.trace ∙ ap return (sym e)) in
      Runs-post env w _ s
        (distributor_visit-Runs name found publisher s h (subst (λ t. IsIn t s.visited) at already))
        (λ all group yes_it_is member.
          all group (subst (λ t. Memᴰ group (env.group_by (w.subscriptions t))) at member))
