-- ===== src/Lineage/Traversal/Onwards.antt =====
-- Every step of a visit keeps the invariant of the traversal, if the traversal of the next servers does.
use dockerize_and_ansible.Base.{
  ℕ, String, ◌≡◌, refl, inl, inr, Option, none, some, List, [], ◌∷◌, All, string_eq, arith,
}
use dockerize_and_ansible.Base.Effect.{return, M, pure, try_except, ◌>>=◌, ◌>>◌, Outcome-cases}
use dockerize_and_ansible.Base.Effect.Keeps.{
  Keeps, Keeps-pure, Keeps-bind, Keeps-bind_known, Keeps-bind_at, Keeps-for_each-All,
}
use dockerize_and_ansible.Lineage.State.{
  Config, signature_eq, Connection, Shipping, Pair, Subscription, Env, State, ask,
}
use dockerize_and_ansible.Lineage.Servers.{
  at_server, get_sql_server_distributor, get_log_shipping_info, get_replication_info,
}
use dockerize_and_ansible.Lineage.Servers.Keeps.{
  connect-Keeps, distributor-Keeps, log_shipping-Keeps, replication-Keeps,
}
use dockerize_and_ansible.Lineage.Traversal.{
  drop_listed, follow_shipping, follow_replication, if_rows, visit_distributor, if_distributor,
}
use dockerize_and_ansible.Lineage.Servers.Places.{connect-place}
use dockerize_and_ansible.Lineage.Traversal.Keeps.{create_lineage-Keeps, drop_listed-Keeps}
use dockerize_and_ansible.Lineage.Traversal.Reachable.{
  origin, distributor, LeadsTo, Reaches, ships, distributes, publishes, All-members,
}
use dockerize_and_ansible.Lineage.Traversal.Within.{P, P-IsStable, mark-Within}

module _ (env : Env) (config : Config) (root : String) (servers : List String) where
  module _ (n : ℕ) where
    module _ (next : String → M State (Unit {0}))
        (follows : (server : String)
          → Reaches env config.database root origin server
          → Keeps (P env config root servers n) (next server)) where
      pub shipping-Within :
          (rows : List Shipping)
          → All (λ row. Reaches env config.database root origin row.secondary_server) rows
          → Keeps (P env config root servers n) (follow_shipping env next rows)
      unfolding follow_shipping
      shipping-Within rows all = Keeps-for_each-All rows _ all (λ row reached.
          Keeps-bind _ _ (create_lineage-Keeps (P-IsStable env config root servers n) env _)
            (λ _. follows row.secondary_server reached))

      publishing-Within :
          (groups : List (Pair × List Subscription))
          → All (λ group. Reaches env config.database root origin group.0.subscriber) groups
          → Keeps (P env config root servers n) (follow_replication env next groups)
      unfolding follow_replication
      publishing-Within groups all = Keeps-for_each-All groups _ all (λ group reached.
          Keeps-bind _ _ (create_lineage-Keeps (P-IsStable env config root servers n) env _)
            (λ _. follows group.0.subscriber reached))

      if_rows-Within :
          (rows : List Subscription) (m : M State (Unit {0}))
          → Keeps (P env config root servers n) m
          → Keeps (P env config root servers n) (if_rows rows m)
      if_rows-Within [] m k = Keeps-pure _
      if_rows-Within (_ ∷ _) m k = k

      groups-All :
          (server : String) (conn : Connection) (s : State) (rows : List Subscription)
          → Reaches env config.database root distributor server
          → LeadsTo conn server config.database
          → (get_replication_info env conn s).0 ≡ return rows
          → Keeps (P env config root servers n) (
              if_rows rows
                (do drop_listed env config rows; follow_replication env next (env.group_by rows)))
      unfolding get_replication_info try_except ask pure
      groups-All server conn s rows reached leads e =
          elim (Outcome-cases (env.replication conn s.trace)) [
            | inr (x, failed) ↦ let none : rows ≡ [] = ground arith in rw none (Keeps-pure tt)
            | inl (rows', answered) ↦
                let same : env.replication conn s.trace ≡ return rows = ground arith in
                if_rows-Within rows _ (
                  Keeps-bind _ _
                    (drop_listed-Keeps (P-IsStable env config root servers n) env config rows)
                    λ _. publishing-Within (env.group_by rows) (
                      All-members _ _ (λ group member.
                        publishes conn s.trace rows group reached leads same member)))
          ]

      pub distributor-Within :
          (server : String)
          → Reaches env config.database root distributor server
          → Keeps (P env config root servers n) (visit_distributor env next config server)
      unfolding visit_distributor
      distributor-Within server reached =
          Keeps-bind_at _ _ (connect-Keeps (P-IsStable env config root servers n) env _)
            λ s conn h e.
              let leads = connect-place env (at_server server config) s conn h.faithful e in
              Keeps-bind _ _ (mark-Within env config root servers n server _ (distributor, reached))
                λ _.
                  Keeps-bind_known _ _
                    (replication-Keeps (P-IsStable env config root servers n) env conn)
                    (λ t rows known. groups-All server conn t rows reached leads known)

      if_distributor-Within :
          (o : Option String)
          → ((name : String) → o ≡ some name → Reaches env config.database root distributor name)
          → Keeps
              (P env config root servers n)
              (if_distributor o (visit_distributor env next config))
      if_distributor-Within none reached = Keeps-pure _
      if_distributor-Within (some name) reached = distributor-Within name (reached name refl)

      distributor_known :
          (server : String) (conn : Connection) (s : State) (o : Option String)
          → Reaches env config.database root origin server
          → LeadsTo conn server config.database
          → (get_sql_server_distributor env conn s).0 ≡ return o
          → (name : String) → o ≡ some name
          → Reaches env config.database root distributor name
      unfolding get_sql_server_distributor try_except ask pure
      distributor_known server conn s o reached leads e name named =
          elim (Outcome-cases (env.distributor conn s.trace)) [
            | inr (x, failed) ↦ absurd (ground arith)
            | inl (answer, answered) ↦ distributes conn s.trace name reached leads (ground arith)
          ]

      shipped_known :
          (server : String) (conn : Connection) (s : State) (rows : List Shipping)
          → Reaches env config.database root origin server
          → LeadsTo conn server config.database
          → (get_log_shipping_info env conn s).0 ≡ return rows
          → Keeps (P env config root servers n) (follow_shipping env next rows)
      unfolding get_log_shipping_info try_except ask pure
      shipped_known server conn s rows reached leads e =
          elim (Outcome-cases (env.log_shipping conn s.trace)) [
            | inr (x, failed) ↦
                let none : rows ≡ [] = ground arith in rw none (shipping-Within [] tt)
            | inl (rows', answered) ↦
                let same : env.log_shipping conn s.trace ≡ return rows = ground arith in
                shipping-Within rows (
                  All-members _ _
                    (λ row member. ships conn s.trace rows row reached leads same member))
          ]

      pub after_mark-Within :
          (server : String) (conn : Connection)
          → Reaches env config.database root origin server
          → LeadsTo conn server config.database
          → Keeps (P env config root servers n) (do
            shipped ← get_log_shipping_info env conn
            follow_shipping env next shipped
            found ← get_sql_server_distributor env conn
            if_distributor found (visit_distributor env next config))
      after_mark-Within server conn reached leads =
          Keeps-bind_known _ _ (log_shipping-Keeps (P-IsStable env config root servers n) env conn)
            λ s shipped known.
              Keeps-bind _ _ (shipped_known server conn s shipped reached leads known) λ _.
                Keeps-bind_known _ _
                  (distributor-Keeps (P-IsStable env config root servers n) env conn)
                  (λ t o named.
                    if_distributor-Within o (distributor_known server conn t o reached leads named))
