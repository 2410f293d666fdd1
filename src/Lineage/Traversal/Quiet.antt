-- ===== src/Lineage/Traversal/Quiet.antt =====
-- Where the servers are steady (`IsSteady`), the calls between the visits return and visit nothing.
use dockerize_and_ansible.Base.{
  String, ◌≡◌, refl, ◌∙◌, sym, ap, Option, none, some, List, [], ◌∷◌, keep, contains, if◌then◌else◌,
  string_eq, Bool-cases, Option-cases, inl, inr,
}
use dockerize_and_ansible.Base.Dict
use dockerize_and_ansible.Base.Dict.{Dict, has-put}
use dockerize_and_ansible.Base.Effect.{
  return, M, pure, try_except, ◌>>=◌, for_each, try_except-returns,
}
use dockerize_and_ansible.Lineage.State.{
  Config, signature_eq, Connection, Subscription, Edge, Env, Visit, State, ask,
}
use dockerize_and_ansible.Lineage.Servers.{
  signature, at_server, store_connection, login, try_credentials, connect_sql_server,
  get_sql_server_distributor, get_log_shipping_info, get_replication_info, if_blacklisted,
  drop_both, drop_inactive_subscription,
}
use dockerize_and_ansible.Lineage.Servers.Keeps.{
  IsStable, connect-Keeps, distributor-Keeps, log_shipping-Keeps, replication-Keeps,
}
use dockerize_and_ansible.Lineage.Traversal.{is_inactive, create_lineage, if_some, drop_listed}
use dockerize_and_ansible.Lineage.Traversal.Keeps.{create_lineage-Keeps, drop_listed-Keeps}
use dockerize_and_ansible.Lineage.Traversal.Linked.{World, IsSteady}
use dockerize_and_ansible.Lineage.Servers.Places.{IsFaithful, connect-place}
use dockerize_and_ansible.Lineage.Traversal.Runs.{Runs, Runs-silent, Runs-post}

for_each-returns :
    {A : Type 0} (xs : List A) (body : A → M State (Unit {0}))
    → ((x : A) (s : State) → (body x s).0 ≡ return tt)
    → (s : State) → (for_each xs body s).0 ≡ return tt
unfolding for_each pure ◌>>=◌
for_each-returns [] body round s = refl
for_each-returns (x ∷ xs) body round s =
    rw (round x s) (for_each-returns xs body round (body x s).1)

-- Which server was visited does not depend on calls and pool.
same-IsStable : (v : Dict String Visit) → IsStable (λ s. s.visited ≡ v)
same-IsStable v = record { calls = λ s e h. h; pools = λ s conn h. h }

module _ (env : Env) (config : Config) (w : World) (steady : IsSteady env config w) where
  connect-returns :
      (server : String) (s : State)
      → (conn : Connection) × ((connect_sql_server env (at_server server config) s).0 ≡ return conn)
  unfolding connect_sql_server try_credentials try_except login store_connection ask ◌>>=◌
  connect-returns server s =
      elim (Option-cases (Dict.get s.pool (signature (at_server server config)))) [
        | inr (conn, present) ↦ (conn, rw present)
        | inl absent ↦ (
          record { place = signature (at_server server config); user = steady.first.user },
          rw (absent, steady.has_credential, steady.logins),
        )
      ]

  drop_both-returns : (sub : Subscription) (s : State) → (drop_both env sub config s).0 ≡ return tt
  unfolding drop_both
  drop_both-returns sub s = (try_except-returns _ tt s).1

  if_blacklisted-returns :
      (blacklist : List String) (sub : Subscription) (s : State)
      → (if_blacklisted (some blacklist) sub.subscriber (drop_both env sub config) s).0 ≡ return tt
  unfolding pure
  if_blacklisted-returns blacklist sub s = elim (Bool-cases (contains blacklist sub.subscriber)) [
    | inl listed ↦ rw listed (drop_both-returns sub s)
    | inr spared ↦ rw spared
  ]

  by_blacklist :
      (o : Option (List String)) (rows : List Subscription) (s : State)
      → (if_some o
          (for_each rows (λ sub. if_blacklisted o sub.subscriber (drop_both env sub config)))
          s).0
        ≡ return tt
  unfolding pure
  by_blacklist none rows s = refl
  by_blacklist (some blacklist) rows s =
      for_each-returns rows _ (if_blacklisted-returns blacklist) s

  drop_listed-returns :
      (rows : List Subscription) (s : State) → (drop_listed env config rows s).0 ≡ return tt
  unfolding drop_listed drop_inactive_subscription
  drop_listed-returns rows s = by_blacklist config.blacklist (keep is_inactive rows) s

module _ (env : Env) (config : Config) (w : World) (steady : IsSteady env config w) where
  pub create-Runs :
      (edge : Edge) (s : State)
      → Runs env w (create_lineage env edge) s (λ a v. (a ≡ tt) × (v ≡ s.visited))
  create-Runs edge s =
      Runs-silent env w _ s tt (create_lineage-Keeps (same-IsStable s.visited) env edge)
        (unfold create_lineage in (try_except-returns _ tt s).1)

  pub drop_listed-Runs :
      (rows : List Subscription) (s : State)
      → Runs env w (drop_listed env config rows) s (λ a v. (a ≡ tt) × (v ≡ s.visited))
  drop_listed-Runs rows s =
      Runs-silent env w _ s tt (drop_listed-Keeps (same-IsStable s.visited) env config rows)
        (drop_listed-returns env config w steady rows s)

  pub shipping-Runs :
      (conn : Connection) (s : State)
      → Runs env w
          (get_log_shipping_info env conn)
          s
          (λ rows v. (rows ≡ w.shipped conn.place.server) × (v ≡ s.visited))
  unfolding get_log_shipping_info try_except ask
  shipping-Runs conn s =
      Runs-silent env w _ s (w.shipped conn.place.server)
        (unfold get_log_shipping_info in log_shipping-Keeps (same-IsStable s.visited) env conn)
        (rw (steady.shipping conn s.trace))

  pub distributor-Runs :
      (conn : Connection) (s : State)
      → Runs env w (get_sql_server_distributor env conn) s (λ o v.
        (o ≡ (if w.is_publisher conn.place.server then some conn.place.server else none))
        × (v ≡ s.visited))
  unfolding get_sql_server_distributor try_except ask
  distributor-Runs conn s =
      Runs-silent env w _ s
        (if w.is_publisher conn.place.server then some conn.place.server else none)
        (distributor-Keeps (same-IsStable s.visited) env conn)
        (rw (steady.distributing conn s.trace))

  pub replication-Runs :
      (conn : Connection) (s : State)
      → Runs env w
          (get_replication_info env conn)
          s
          (λ rows v. (rows ≡ w.subscriptions conn.place.server) × (v ≡ s.visited))
  unfolding get_replication_info try_except ask
  replication-Runs conn s =
      Runs-silent env w _ s (w.subscriptions conn.place.server)
        (replication-Keeps (same-IsStable s.visited) env conn)
        (rw (steady.replicating conn s.trace))

  -- A connection to the server that is asked for.
  pub connect-Runs :
      (server : String) (s : State)
      → IsFaithful s.pool
      → Runs env w (connect_sql_server env (at_server server config)) s (λ conn v.
        (conn.place ≡ record { server = server; database = config.database }) × (v ≡ s.visited))
  connect-Runs server s faithful =
      let (conn, returned) = connect-returns env config w steady server s in
      let p =
        Runs-silent env w _ s conn
          (connect-Keeps (same-IsStable s.visited) env (at_server server config)) returned in
      Runs-post env w _ s p (λ (same, still). (
        connect-place env (at_server server config) s p.result faithful
            (returned ∙ ap return (sym same)),
        still,
      ))
