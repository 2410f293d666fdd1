-- ===== src/Cdc/SqlServer/Apply.antt =====
-- `apply_sqlserver_cdc_changes` with the dry run turned off.
use dockerize_and_ansible.Base.{
  String, ◌≡◌, refl, ◌∙◌, ap, false, List, [], ◌∷◌, ◌++◌, arith, map, append_assoc, append-nil,
}
use dockerize_and_ansible.Base.Effect.{
  return, pure, ◌>>=◌, for_each, bind-of_return, try_except-of_return,
}
use dockerize_and_ansible.Cdc.State
use dockerize_and_ansible.Cdc.State.{
  Datasource, Connection, Query, enable_table, disable_table, Env, State, Event, History, ask, run,
}
use dockerize_and_ansible.Cdc.Connection.{get_sqlserver_connection}
use dockerize_and_ansible.Cdc.SqlServer.{apply_statement, table_name, apply_sqlserver_cdc_changes}

-- The statements sent, in order.
abbrev pub queries : History → List Query
queries [] = []
queries (State.execute conn query ∷ h) = query ∷ queries h
queries (_ ∷ h) = queries h

queries-append : (g h : History) → queries (g ++ h) ≡ queries g ++ queries h
queries-append [] h = refl
queries-append (State.execute conn query ∷ g) h = ap (◌∷◌ query) (queries-append g h)
queries-append (_ ∷ g) h = queries-append g h

module _ (env : Env) (conn : Connection) where
  -- A statement never stops the loop, and is sent once whatever comes of it.
  apply_statement_lem :
      (query : Query) (s : State)
      → ((apply_statement env conn query s).0 ≡ return tt)
        × (queries (apply_statement env conn query s).1.trace ≡ queries s.trace ++ query ∷ [])
  unfolding ◌>>=◌ apply_statement run ask
  apply_statement_lem query s = ground (
    arith,
    queries-append s.trace (State.execute conn query ∷ []),
    queries-append (s.trace ++ State.execute conn query ∷ []) (State.commit conn ∷ []),
    append-nil (queries s.trace ++ query ∷ []),
  )

  for_each-apply_statement :
      (statement : String → Query) (tables : List String) (s : State)
      → (s' : State) × (for_each tables (λ t. apply_statement env conn (statement t)) s
          ≡ (return tt, s'))
        × (queries s'.trace ≡ queries s.trace ++ map statement tables)
  unfolding for_each pure
  for_each-apply_statement statement [] s = (s, refl, rw append-nil)
  for_each-apply_statement statement (t ∷ tables) s =
      let first = apply_statement env conn (statement t) in
      let (returned, sent) = apply_statement_lem (statement t) s in
      let (s', rest, all) = for_each-apply_statement statement tables (first s).1 in
      (
        s',
        bind-of_return _ _ (λ i. (returned i, (first s).1)) ∙ rest,
        all ∙ rw sent (append_assoc (queries s.trace) (statement t ∷ []) _),
      )

-- Once a connection is there, every table of both lists gets its statement, enabling ones first
-- and in order, also after statements that failed, and the function returns.
pub apply_sqlserver_cdc_changes-queries :
    (env : Env) (db : Datasource) (enable disable : List String) (s t : State) (conn : Connection)
    → get_sqlserver_connection env db s ≡ (return conn, t)
    → (s' : State) × (apply_sqlserver_cdc_changes env db enable disable false s ≡ (return tt, s'))
      × (queries s'.trace
          ≡ queries t.trace
            ++ (map (λ x. enable_table db.database (table_name x)) enable
                ++ map (λ x. disable_table db.database (table_name x)) disable))
unfolding apply_sqlserver_cdc_changes
apply_sqlserver_cdc_changes-queries env db enable disable s t conn connected =
    let (s₁, ran₁, sent₁) = for_each-apply_statement env conn _ enable t in
    let (s₂, ran₂, sent₂) = for_each-apply_statement env conn _ disable s₁ in
    (
      s₂,
      try_except-of_return _ _ (bind-of_return _ _ connected ∙ bind-of_return _ _ ran₁ ∙ ran₂),
      sent₂ ∙ rw sent₁ (append_assoc (queries t.trace) _ _),
    )
