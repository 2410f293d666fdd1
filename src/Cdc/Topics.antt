-- ===== src/Cdc/Topics.antt =====
-- kafka/cdc/src/main.py: the topics that a source should have against those that Kafka has.
pub mod Differences
use dockerize_and_ansible.Base.{
  ℕ, ◌-◌, String, ◌<>◌, Bool, true, false, not, ◌&&◌, ◌||◌, Option, none, some, List, [], ◌∷◌, map,
  any, keep, contains, update, minus, length, ◌==◌, if◌then◌else◌, string_eq, leb, ltb, starts_with,
}
use dockerize_and_ansible.Base.Text.{has_char, before_last}
use dockerize_and_ansible.Base.Effect.{
  Exception, request_exception, M, pure, throw, try_except, ◌>>=◌, ◌>>◌,
}
use dockerize_and_ansible.Cdc.State
use dockerize_and_ansible.Cdc.State.{Datasource, Response, Env, State, ask}
use dockerize_and_ansible.Cdc.Restart.{on_request_exception}

-- `response.raise_for_status()`
abbrev pub raise_for_status : {A : Type 0} → Response A → M State (Unit {0})
raise_for_status r =
    if leb 400 r.status_code && ltb r.status_code 600 then throw request_exception else pure tt

-- The names of Kafka's topics, as a set.
unfoldable pub get_kafka_topics_v2 : Env → M State (List String)
get_kafka_topics_v2 env =
    try_except
      (do
        response ← ask State.get_topics env.topics
        raise_for_status response
        pure (update [] response.body))
      (on_request_exception [])

-- `t.rsplit('.', 1)[0] + '.'`
abbrev pub prefix_of : String → String
prefix_of t = before_last "." t <> "."

abbrev pub prefixes : List String → List String
prefixes expected = update [] (map prefix_of (keep (has_char ".") expected))

abbrev pub exact_matches : List String → List String
exact_matches expected = keep (λ t. not (has_char "." t)) expected

abbrev pub matches : List String → String → Bool
matches expected t =
    any (λ prefix. starts_with t prefix) (prefixes expected) || contains (exact_matches expected) t

-- What is logged for a data source: the topics without a table (A - B), those that Kafka lacks
-- (B - A), those without traffic (B - C), and the count of active ones of all expected.
pub record Audit : Type 0 where
  pub deprecated : List String
  pub missing : List String
  pub inactive : List String
  pub active : ℕ
  pub expected : ℕ

unfoldable pub audit_topics : List String → List String → List String → Audit
audit_topics all_topics expected_topics active_topics =
    let matching = keep (matches expected_topics) all_topics in
    let inactive_topics = minus expected_topics active_topics in
    record {
      deprecated = minus matching expected_topics;
      missing = minus expected_topics matching;
      inactive = inactive_topics;
      active = length expected_topics - length inactive_topics;
      expected = length expected_topics;
    }

-- The loop over the data sources, which an empty set of topics ends before it begins.
abbrev pub audit_all : List String → List Datasource → List Audit
audit_all [] dbs = []
audit_all (topic ∷ topics) dbs =
    map (λ db. audit_topics (topic ∷ topics) (update [] db.topics) (update [] db.active_topics)) dbs

unfoldable pub check_and_repair_kafka_topics : Env → List Datasource → M State (List Audit)
check_and_repair_kafka_topics env dbs = do
  all_topics ← get_kafka_topics_v2 env
  pure (audit_all all_topics dbs)
