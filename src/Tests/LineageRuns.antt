-- ===== src/Tests/LineageRuns.antt =====
-- mssql/replication/main.py at a few servers that ship logs and publish in circles.
use dockerize_and_ansible.Base.{
  String, ◌≡◌, refl, ap, ◌↔◌, true, Option, none, some, List, [], ◌∷◌, map, contains, ◌==◌,
  if◌then◌else◌, string_eq, arith, inl, inr,
}
use dockerize_and_ansible.Base.Dict
use dockerize_and_ansible.Base.Effect.{
  return, raise, Outcome, connection_error, try_except, for_each, gets, modify, pure, throw, ◌>>=◌,
}
use dockerize_and_ansible.Base.Effect.Keeps.{Keeps}
use dockerize_and_ansible.Lineage.State.{
  Config, Shipping, Subscription, Env, signature_eq, ask, untouched,
}
use dockerize_and_ansible.Lineage.Traversal.{
  Report, mark, on_failure, create_lineage, drop_listed, follow_shipping, follow_replication,
  visit_distributor, visit_server, traverse_lineage, report, main,
}
use dockerize_and_ansible.Lineage.Servers.{
  connect_sql_server, try_credentials, login, store_connection, get_log_shipping_info,
  get_sql_server_distributor, get_replication_info,
}
use dockerize_and_ansible.Lineage.Traversal.Reachable.{Role, origin, distributor, Reaches, start}
use dockerize_and_ansible.Lineage.Traversal.Linked.{
  World, IsSteady, Link, by_shipping, by_replication, Linked, here, onwards, Reaches-Linked,
}
use dockerize_and_ansible.Lineage.Traversal.Within.{P}
use dockerize_and_ansible.Lineage.Traversal.Fuel.{traverse_lineage-Within}
use dockerize_and_ansible.Lineage.Traversal.Complete.{traverse_lineage-Linked}
use dockerize_and_ansible.Lineage.Traversal.Reported.{main-Linked}
use mathlib.Core.List.{Memᴰ}
use mathlib.Core.List.Memᴰ

abbrev config : Config
config = record {
  server = "erp";
  database = "msdb";
  credentials = (record { user = some "sa"; password = some "secret" }) ∷ [];
  blacklist = none;
}

abbrev ships_to : String → Shipping
ships_to server = record {
  primary_server = "erp";
  primary_database = "orders";
  secondary_server = server;
  secondary_database = "orders";
  status = "Active";
}

abbrev subscribes : String → String → Subscription
subscribes server status = record {
  pair = record {
    publisher = "erp";
    publisher_db = "orders";
    subscriber = server;
    subscriber_db = "report";
  };
  publication = "daily";
  publication_type = "transactional";
  description = "";
  src_table = "dbo.order";
  subscription_type = "push";
  dst_table = "dbo.order";
  sync_status = status;
}

-- Servers that hold what `w` says, where all logins succeed.
abbrev env_of : World → Env
env_of w = record {
  load_config = λ h. return config;
  connect = λ place c h. return tt;
  distributor =
      λ conn h. return (if w.is_publisher conn.place.server then some conn.place.server else none);
  log_shipping = λ conn h. return (w.shipped conn.place.server);
  replication = λ conn h. return (w.subscriptions conn.place.server);
  execute = λ conn query h. return tt;
  commit = λ conn h. return tt;
  open_graph = λ h. return tt;
  merge = λ edge h. return tt;
  close_graph = λ h. return tt;
  group_by = map (λ sub. (sub.pair, sub ∷ []));
  value_counts = map (λ status. (status, 1));
  dumps = λ rows. "[]";
  upper = λ s. s;
}

-- Every server ships its logs to a standby, the standby to itself, and publishes to a report server.
abbrev circle : World
circle = record {
  shipped = λ server. ships_to "standby" ∷ [];
  is_publisher = λ server. true;
  subscriptions = λ server. subscribes "report" "active" ∷ [];
}

circle-IsSteady : IsSteady (env_of circle) config circle
circle-IsSteady = record {
  first = record { user = some "sa"; password = some "secret" };
  others = [];
  has_credential = refl;
  logins = λ place c h. refl;
  shipping = λ conn h. refl;
  distributing = λ conn h. refl;
  replicating = λ conn h. refl;
  no_groups = refl;
}

abbrev servers : List String
servers = "erp" ∷ "standby" ∷ "report" ∷ []

only_member : {A : Type 0} {x y : A} → Memᴰ x (y ∷ []) → x ≡ y
only_member member = elim (Memᴰ.cases_cons member) [
  | inl e ↦ e
  | inr later ↦ absurd (Memᴰ.not-nil later)
]

circle-links : (a b : String) → Link (env_of circle) circle a b → contains servers b ≡ true
unfolding string_eq
circle-links a b (by_shipping row member) =
    ap (λ row. contains servers row.secondary_server) (only_member member)
circle-links a b (by_replication group publisher member) =
    ap (λ group. contains servers group.0.subscriber) (only_member member)

circle-walks : (b : String) → Linked (env_of circle) circle "erp" b → contains servers b ≡ true
unfolding string_eq
circle-walks b here = refl
circle-walks b (onwards {a} walk link) = circle-links a b link

circle-listed :
    (role : Role) (server : String)
    → Reaches (env_of circle) "msdb" "erp" role server
    → contains servers server ≡ true
circle-listed origin server reached =
    circle-walks server (Reaches-Linked (env_of circle) config circle circle-IsSteady "erp" reached)
circle-listed distributor server reached =
    circle-walks server
      (Reaches-Linked (env_of circle) config circle circle-IsSteady "erp" reached).0

traverse_lineage-Within_example :
    Keeps
      (P (env_of circle) config "erp" servers 4)
      (traverse_lineage (env_of circle) 4 config "erp")
traverse_lineage-Within_example =
    traverse_lineage-Within (env_of circle) config "erp" servers circle-listed 4 "erp" start

traverse_lineage-Linked_example :
    ((traverse_lineage (env_of circle) 4 config "erp" (untouched [])).0 ≡ return tt)
    × ((Dict.has (traverse_lineage (env_of circle) 4 config "erp" (untouched [])).1.visited "report"
          ≡ true)
        ↔ Linked (env_of circle) circle "erp" "report")
traverse_lineage-Linked_example =
    traverse_lineage-Linked (env_of circle) config circle circle-IsSteady servers circle-listed 4
      (omega arith) [] "report"

main-Linked_example :
    (r : Report) × ((main (env_of circle) 4 (untouched [])).0 ≡ return (some r))
    × (r.failed ≡ [])
    × ((contains r.processed "report" ≡ true) ↔ Linked (env_of circle) circle "erp" "report")
main-Linked_example =
    main-Linked (env_of circle) config circle circle-IsSteady servers circle-listed 4 (omega arith)
      (λ h. refl) (λ h. refl) (λ h. refl) [] "report"

-- A report server that is its own and the publisher's distributor, and ships logs of its own.
abbrev remote : Env
remote =
    let base = env_of circle in
    record base {
      distributor = λ conn h. return (some "report");
      log_shipping =
          λ conn h. return (if conn.place.server == "report" then ships_to "archive" ∷ [] else []);
    }

abbrev reported : Outcome (Option Report) → Option Report
reported (return r) = r
reported (raise e) = none

-- The publisher's turn marks the report server as visited, so the archive behind it is never found.
distributor_hides_archive :
    reported (main remote 5 (untouched [])).0
    ≡ some (record { processed = "erp" ∷ "report" ∷ []; failed = [] })
unfolding main try_except ◌>>=◌ ask traverse_lineage Dict.has visit_server connect_sql_server
    Dict.get try_credentials login store_connection mark get_log_shipping_info follow_shipping
    for_each string_eq get_sql_server_distributor Dict.put gets modify pure throw
    get_replication_info signature_eq create_lineage drop_listed follow_replication on_failure
    report visit_distributor
distributor_hides_archive = refl

-- The same run with its distributor down.
abbrev lost_distributor : Env
lost_distributor =
    let base = remote in
    record base {
      connect = λ place c h. if place.server == "report" then raise connection_error else return tt;
    }

-- The report then counts the publisher itself as not reached.
publisher_reported_lost :
    reported (main lost_distributor 5 (untouched [])).0
    ≡ some (record { processed = []; failed = "erp" ∷ [] })
unfolding main try_except ◌>>=◌ ask traverse_lineage Dict.has visit_server connect_sql_server
    Dict.get try_credentials login store_connection mark get_log_shipping_info follow_shipping
    for_each string_eq get_sql_server_distributor Dict.put gets modify pure throw
    get_replication_info signature_eq create_lineage drop_listed follow_replication on_failure
    report visit_distributor
publisher_reported_lost = refl
