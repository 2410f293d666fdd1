-- ===== src/Lineage/Traversal.antt =====
-- mssql/replication/main.py: the traversal from server to server, the graph that it writes, and the
-- report at its end.
pub mod Linked
pub mod Within
pub mod Onwards
pub mod Fuel
pub mod Runs
pub mod Quiet
pub mod Followed
pub mod Visits
pub mod Complete
pub mod Reported
pub mod Reachable
pub mod Keeps
use dockerize_and_ansible.Base.{
  ℕ, zero, suc, String, Bool, true, false, not, ◌&&◌, ◌||◌, Option, none, some, List, [], ◌∷◌, ◌++◌,
  map, keep, ◌==◌, if◌then◌else◌, string_eq, leb, any, every,
}
use dockerize_and_ansible.Base.Dict
use dockerize_and_ansible.Base.Dict.{Dict}
use dockerize_and_ansible.Base.Effect.{
  Exception, connection_error, other_exception, Outcome, M, pure, throw, gets, modify, try_except,
  ◌>>=◌, ◌>>◌, for_each,
}
use dockerize_and_ansible.Lineage.State
use dockerize_and_ansible.Lineage.State.{
  Config, Connection, Shipping, Pair, Subscription, Value, text, count, Edge, Env, Visit, connected,
  unreachable, State, ask,
}
use dockerize_and_ansible.Lineage.Servers.{
  at_server, connect_sql_server, get_sql_server_distributor, get_log_shipping_info,
  get_replication_info, drop_inactive_subscription,
}

-- `visited_servers[server] = visit`
unfoldable pub mark : String → Visit → M State (Unit {0})
mark server visit = modify (λ s. record s { visited = Dict.put s.visited server visit })

-- `except ConnectionError` and `except Exception`
unfoldable pub on_failure : String → Exception → M State (Unit {0})
on_failure server connection_error = mark server (unreachable connection_error)
on_failure server _ = pure tt

abbrev pub is_inactive : Subscription → Bool
is_inactive sub = sub.sync_status == "inactive"

-- `if x is not None`
abbrev pub if_some : Option (List String) → M State (Unit {0}) → M State (Unit {0})
if_some none body = pure tt
if_some (some _) body = body

-- `if df.empty: return`
abbrev pub if_rows : List Subscription → M State (Unit {0}) → M State (Unit {0})
if_rows [] rest = pure tt
if_rows (_ ∷ _) rest = rest

abbrev pub if_distributor : Option String → (String → M State (Unit {0})) → M State (Unit {0})
if_distributor none visit = pure tt
if_distributor (some distributor) visit = visit distributor

abbrev pub is_unreachable : Visit → Bool
is_unreachable (connected conn) = false
is_unreachable (unreachable e) = true

-- What is logged at the end: the servers that were processed, and those that were not.
pub record Report : Type 0 where
  pub processed : List String
  pub failed : List String

unfoldable pub report : Dict String Visit → Report
report visited = record {
  processed =
      map (λ (server, visit). server)
        (keep (λ (server, visit). not (is_unreachable visit)) visited);
  failed = map (λ (server, visit). server) (keep (λ (server, visit). is_unreachable visit) visited);
}

module _ (env : Env) where
  -- `create_lineage` with `_create_and_link`; an error is only logged. The two types of edges there
  -- are pass the test on identifiers.
  unfoldable pub create_lineage : Edge → M State (Unit {0})
  create_lineage edge =
      let shown = record edge {
        s_server = env.upper edge.s_server;
        t_server = env.upper edge.t_server;
      } in
      try_except (ask (State.merge shown) (env.merge shown)) (λ e. pure tt)

  abbrev pub shipping_edge : Shipping → Edge
  shipping_edge row = record {
    s_server = row.primary_server;
    s_db = row.primary_database;
    t_server = row.secondary_server;
    t_db = row.secondary_database;
    ltype = "logshipping";
    extra_props = ("status", text row.status) ∷ [];
  }

  -- The edge of a group, with the number of its rows in each status.
  abbrev pub replication_edge : Pair → List Subscription → Edge
  replication_edge pair group = record {
    s_server = pair.publisher;
    s_db = pair.publisher_db;
    t_server = pair.subscriber;
    t_db = pair.subscriber_db;
    ltype = "replication";
    extra_props =
        ("tables", text (env.dumps group))
        ∷ map (λ (status, n). (status, count n))
            (env.value_counts (map (λ sub. sub.sync_status) group));
  }

  -- What is done for a server, with the traversal of the next ones given. `none` is Python's None.
  unfoldable pub drop_listed : Config → List Subscription → M State (Unit {0})
  drop_listed config rows =
      if_some config.blacklist
        (for_each (keep is_inactive rows) (λ sub. drop_inactive_subscription env sub config))

  unfoldable pub follow_shipping :
      (String → M State (Unit {0})) → List Shipping → M State (Unit {0})
  follow_shipping next rows =
      for_each rows λ row. do create_lineage (shipping_edge row); next row.secondary_server

  unfoldable pub follow_replication :
      (String → M State (Unit {0})) → List (Pair × List Subscription) → M State (Unit {0})
  follow_replication next groups =
      for_each groups
        λ (pair, group). do create_lineage (replication_edge pair group); next pair.subscriber

  unfoldable pub visit_distributor :
      (String → M State (Unit {0})) → Config → String → M State (Unit {0})
  visit_distributor next config distributor = do
    conn ← connect_sql_server env (at_server distributor config)
    mark distributor (connected conn)
    rows ← get_replication_info env conn
    if_rows rows (do drop_listed config rows; follow_replication next (env.group_by rows))

  unfoldable pub visit_server : (String → M State (Unit {0})) → Config → String → M State (Unit {0})
  visit_server next config server = do
    conn ← connect_sql_server env (at_server server config)
    mark server (connected conn)
    shipped ← get_log_shipping_info env conn
    follow_shipping next shipped
    distributor ← get_sql_server_distributor env conn
    if_distributor distributor (visit_distributor next config)

  -- `traverse_lineage`, with fuel for the depth of the recursion.
  unfoldable pub traverse_lineage : ℕ → Config → String → M State (Unit {0})
  traverse_lineage zero config server = modify (λ s. record s { out_of_fuel = true })
  traverse_lineage (suc fuel) config server = do
    seen ← gets (λ s. Dict.has s.visited server)
    if seen
        then pure tt
        else (try_except (visit_server (traverse_lineage fuel config) config server)
            (on_failure server))

  -- `none` if an error ended the run.
  unfoldable pub main : ℕ → M State (Option Report)
  main fuel =
      try_except
        (do
          config ← ask State.load_config env.load_config
          ask State.open_graph env.open_graph
          traverse_lineage fuel config config.server
          ask State.close_graph env.close_graph
          visited ← gets (λ (s : State). s.visited)
          pure (some (report visited)))
        (λ e. pure none)
