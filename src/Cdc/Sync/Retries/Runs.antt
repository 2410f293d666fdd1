-- ===== src/Cdc/Sync/Retries/Runs.antt =====
-- The retries of `check_sqlserver2kafka_sync`, run.
use dockerize_and_ansible.Base.{
  ℕ, zero, suc, ◌+◌, String, ◌≡◌, ◌≢◌, refl, ◌∙◌, sym, ap, true, false, not, Option, none, some,
  List, [], ◌∷◌, ◌++◌, arith, contains, contains-keep, ◌==◌, ==_refl, string_eq, nat_eq, option_eq,
  triple_eq, Bool-cases, ◌⊎◌, inl, inr,
}
use mathlib.Core.Path.{subst}
use dockerize_and_ansible.Base.Dict
use dockerize_and_ansible.Base.Effect.{
  Outcome, return, raise, pure, gets, try_except, ◌>>=◌, bind-of_return,
}
use dockerize_and_ansible.Cdc.State
use dockerize_and_ansible.Cdc.State.{
  Datasource, Connection, Query, select_time_offset, select_latest_change, Cell, null, number, text,
  boolean, zoned, naive, Row, Env, State, Event, History, ask, run, column,
}
use dockerize_and_ansible.Cdc.Connection.{db_key, get_sqlserver_connection}
use dockerize_and_ansible.Cdc.Sync.{
  extract_table_name_from_topic, is_empty, get_sqlserver_ct_time, without_topic, pick_topic,
}
use dockerize_and_ansible.Cdc.Sync.Retries.{
  choices, choices-append, rows_of, time_of, IsSteady, change, Ends, Picks, is_empty_nil,
  length-without, contains-nonempty, keep_all, keep_twice,
}

module _ (env : Env) (conn : Connection) (offset : ℕ) (latest : String → Outcome (Option Cell))
    (steady : IsSteady env conn offset latest) where
  abbrev asked_zone : State → State
  asked_zone s = record s { trace = s.trace ++ State.execute conn select_time_offset ∷ [] }

  abbrev looked : String → State → State
  looked table s = record s {
    trace = (asked_zone s).trace ++ State.execute conn (select_latest_change table) ∷ [];
  }

  -- What a look at a table comes to, by the answer for it.
  look_lem :
      (db : Datasource) (table : String) (s : State) (o : Outcome (Option Cell))
      → Dict.get s.connections (db_key db) ≡ some conn
      → env.execute conn (select_latest_change table) (asked_zone s).trace ≡ rows_of o
      → get_sqlserver_ct_time env db table s ≡ (return (time_of offset o), looked table s)
  unfolding get_sqlserver_ct_time get_sqlserver_connection gets try_except run ask column pure ◌>>=◌
      Dict.get string_eq
  look_lem db table s (raise e) pooled answer = rw (pooled, steady.zone s.trace, answer)
  look_lem db table s (return none) pooled answer = rw (pooled, steady.zone s.trace, answer)
  look_lem db table s (return (some null)) pooled answer = rw (pooled, steady.zone s.trace, answer)
  look_lem db table s (return (some (number n))) pooled answer =
      rw (pooled, steady.zone s.trace, answer)
  look_lem db table s (return (some (text t))) pooled answer =
      rw (pooled, steady.zone s.trace, answer)
  look_lem db table s (return (some (boolean b))) pooled answer =
      rw (pooled, steady.zone s.trace, answer)
  look_lem db table s (return (some (zoned local o))) pooled answer =
      rw (pooled, steady.zone s.trace, answer)
  look_lem db table s (return (some (naive local))) pooled answer =
      rw (pooled, steady.zone s.trace, answer)

  abbrev chosen_state : Datasource → State → State
  chosen_state db s = record s { trace = s.trace ++ State.choose db.active_topics ∷ [] }

  -- The state after a choice and a look at the table of the topic.
  abbrev after_look : Datasource → State → State
  after_look db s =
      looked (extract_table_name_from_topic (env.choose db.active_topics s.trace))
        (chosen_state db s)

  chosen_lem :
      (db : Datasource) (s : State)
      → ask (State.choose db.active_topics) (λ h. return (env.choose db.active_topics h)) s
        ≡ (return (env.choose db.active_topics s.trace), chosen_state db s)
  unfolding ask
  chosen_lem db s = refl

  look-choices :
      (db : Datasource) (s : State) → choices (after_look db s).trace ≡ choices s.trace + 1
  look-choices db s =
      choices-append (asked_zone (chosen_state db s)).trace _
      ∙ ground (
        arith,
        choices-append (chosen_state db s).trace (State.execute conn select_time_offset ∷ []),
        choices-append s.trace (State.choose db.active_topics ∷ []),
      )

  abbrev change_of : String → ℕ
  change_of = change offset latest

  untried :
      (topic : String) (tried : List String)
      → ¬ (contains tried topic ≡ true)
      → contains tried topic ≡ false
  untried topic tried h = elim (Bool-cases (contains tried topic)) [
    | inl there ↦ absurd (h there)
    | inr absent ↦ absent
  ]

  still_there :
      (topic t : String) (db : Datasource)
      → contains db.active_topics t ≡ true
      → ¬ (topic ≡ t)
      → contains (without_topic topic db).active_topics t ≡ true
  still_there topic t db there other = elim (Bool-cases (t == topic)) [
    | inl same ↦ absurd (other (ground (arith, same)))
    | inr differ ↦
        ground (arith, contains-keep (λ u. not (u == topic)) db.active_topics t, there, differ)
  ]

  later-Ends :
      (retries : ℕ) (topic : String) (tried left : List String) (picked : Option (String × ℕ))
      → Ends change_of retries tried left picked
      → Ends change_of (suc retries) (topic ∷ tried) left picked
  later-Ends retries topic tried left none (inl used_up) = inl (ap suc used_up)
  later-Ends retries topic tried left none (inr no_topics) = inr no_topics
  later-Ends retries topic tried left (some (t, time)) (there, at, changed, early) =
      (there, at, changed, omega (arith, early))

  -- Without a topic or a retry, nothing is chosen.
  stops :
      (retries : ℕ) (db : Datasource) (s : State)
      → pick_topic env retries db s ≡ (return (db, none), s)
      → (retries ≡ 0) ⊎ (db.active_topics ≡ [])
      → Picks env change_of retries db s
  stops retries db s ran over =
      let same = sym (keep_all db.active_topics) in
      record {
        final = s;
        picked = none;
        tried = [];
        ran = ran ∙ ap (λ l. (return (record db { active_topics = l }, none), s)) same;
        distinct = tt;
        unchanged = λ t there. absurd (ground arith);
        ends = elim over [
          | inl used_up ↦ inl (sym used_up)
          | inr no_topics ↦ inr (keep_all db.active_topics ∙ no_topics)
        ];
        chosen = omega arith;
        finds = λ t there changed enough. absurd (elim over [
          | inl used_up ↦ omega (arith, contains-nonempty db.active_topics t there, used_up, enough)
          | inr no_topics ↦
              let clash : true ≡ false = sym there ∙ ap (λ l. contains l t) no_topics in
              ground (arith, clash)
        ]);
      }

  -- The topic that was chosen has a change.
  picks :
      (retries : ℕ) (db : Datasource) (s : State)
      → pick_topic env (suc retries) db s ≡ (
        return (
          db,
          some (
            env.choose db.active_topics s.trace,
            change_of (env.choose db.active_topics s.trace),
          ),
        ),
        after_look db s,
      )
      → contains db.active_topics (env.choose db.active_topics s.trace) ≡ true
      → change_of (env.choose db.active_topics s.trace) ≢ 0
      → Picks env change_of (suc retries) db s
  picks retries db s ran active changed =
      let topic = env.choose db.active_topics s.trace in
      let same = sym (keep_all db.active_topics) in
      record {
        final = after_look db s;
        picked = some (topic, change_of topic);
        tried = [];
        ran =
            ran
            ∙ ap
                (λ l. (
                  return (record db { active_topics = l }, some (topic, change_of topic)),
                  after_look db s,
                ))
                same;
        distinct = tt;
        unchanged = λ t there. absurd (ground arith);
        ends = (subst (λ l. contains l topic ≡ true) same active, refl, changed, omega arith);
        chosen = omega (arith, look-choices db s);
        finds = λ t there other enough. refl;
      }

  -- The topic that was chosen has none: it is taken out, and the rest goes on without it.
  goes_on :
      (retries : ℕ) (db : Datasource) (s : State)
      → let topic = env.choose db.active_topics s.trace in
        pick_topic env (suc retries) db s
          ≡ pick_topic env retries (without_topic topic db) (after_look db s)
        → contains db.active_topics (env.choose db.active_topics s.trace) ≡ true
        → change_of (env.choose db.active_topics s.trace) ≡ 0
        → Picks env change_of retries
            (without_topic (env.choose db.active_topics s.trace) db)
            (after_look db s)
        → Picks env change_of (suc retries) db s
  goes_on retries db s ran active missing more =
      let topic = env.choose db.active_topics s.trace in
      let rest = without_topic topic db in
      let is_kept = contains-keep (λ u. not (u == topic)) db.active_topics in
      let left = keep_twice topic more.tried db.active_topics in
      record {
        final = more.final;
        picked = more.picked;
        tried = topic ∷ more.tried;
        ran =
            ran
            ∙ more.ran
            ∙ ap (λ l. (return (record db { active_topics = l }, more.picked), more.final)) left;
        distinct = (
          untried topic more.tried (λ there.
              let (there', none_left) = more.unchanged topic there in
              ground (arith, there', is_kept topic, ==_refl topic)),
          more.distinct,
        );
        unchanged = λ t there. elim (Bool-cases (t == topic)) [
          | inl same ↦
              let is : topic ≡ t = ground (arith, same) in
              subst (λ u. (contains db.active_topics u ≡ true) × (change_of u ≡ 0)) is
                (active, missing)
          | inr differ ↦
              let (there', none_left) = more.unchanged t (ground (arith, there, differ)) in
              (ground (arith, there', is_kept t), none_left)
        ];
        ends =
            later-Ends retries topic more.tried _ more.picked
              (subst (λ l. Ends change_of retries more.tried l more.picked) left more.ends);
        chosen = omega (arith, more.chosen, look-choices db s);
        finds = λ t there changed enough.
            more.finds t
              (still_there topic t db there
                (λ same. changed (subst (λ u. change_of u ≡ 0) same missing)))
              changed (omega (arith, length-without topic db.active_topics active, enough));
      }

  -- Over a connection in the pool, for choices among the topics that there are and a database that
  -- keeps its zone and always answers for a table in the same way, be it with a time, with no row or
  -- with an error: the retries try in vain just topics that were active and for whose table no time
  -- but 0 can be told, each once, and take exactly these out of the set. Then they end with a topic
  -- that is left and its time, which is not 0, before the retries are used up; or with none, when
  -- they are used up or no topic is left. They choose one topic for each that was tried and one for
  -- that which is picked. With as many retries as there are topics, a change of one is always found.
  pub pick_topic-Picks :
      (retries : ℕ) (db : Datasource) (s : State)
      → Dict.get s.connections (db_key db) ≡ some conn
      → Picks env change_of retries db s
  unfolding pick_topic pure
  pick_topic-Picks zero db s pooled = stops zero db s refl (inl refl)
  pick_topic-Picks (suc retries) db s pooled = elim (Bool-cases (is_empty db.active_topics)) [
    | inl none_left ↦
        stops (suc retries) db s (rw none_left) (inr (is_empty_nil db.active_topics none_left))
    | inr some_left ↦
        let topic = env.choose db.active_topics s.trace in
        let active = steady.chooses db.active_topics s.trace some_left in
        let seen =
          look_lem db (extract_table_name_from_topic topic) (chosen_state db s)
            (latest (extract_table_name_from_topic topic)) pooled (steady.changes _ _) in
        elim (Bool-cases (change_of topic == 0)) [
          | inl missing ↦
              goes_on retries db s
                (rw some_left
                  (bind-of_return _ _ (chosen_lem db s) ∙ bind-of_return _ _ seen ∙ rw missing))
                active (ground (arith, missing))
                (pick_topic-Picks retries (without_topic topic db) (after_look db s) pooled)
          | inr found ↦
              picks retries db s
                (rw some_left
                  (bind-of_return _ _ (chosen_lem db s) ∙ bind-of_return _ _ seen ∙ rw found))
                active (ground (arith, found))
        ]
  ]
