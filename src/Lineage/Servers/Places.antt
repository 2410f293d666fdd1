-- ===== src/Lineage/Servers/Places.antt =====
-- Connections lead to the place that they were asked for.
use dockerize_and_ansible.Base.{
  ◌≡◌, refl, ◌∙◌, inl, inr, Option, none, some, List, [], ◌∷◌, string_eq, arith,
}
use dockerize_and_ansible.Base.Dict
use dockerize_and_ansible.Base.Dict.{Dict, has-put, get-put}
use dockerize_and_ansible.Base.Effect.{return, throw, try_except, ◌>>=◌, Outcome-cases}
use dockerize_and_ansible.Lineage.State.{
  Config, Credential, Signature, signature_eq, Connection, Env, State, ask,
}
use dockerize_and_ansible.Lineage.Servers.{
  signature, store_connection, login, try_credentials, connect_sql_server,
}

-- A pool in which every connection leads to the place that its key names.
abbrev pub IsFaithful : Dict Signature Connection → Type 0
IsFaithful pool =
    (place : Signature) (conn : Connection) → Dict.get pool place ≡ some conn → conn.place ≡ place

module _ (env : Env) where
  login-place :
      (place : Signature) (c : Credential) (s : State) (conn : Connection)
      → (login env place c s).0 ≡ return conn
      → conn.place ≡ place
  unfolding login store_connection ask ◌>>=◌
  login-place place c s conn e = elim (Outcome-cases (env.connect place c s.trace)) [
    | inl (_, ok) ↦ ground arith
    | inr (x, failed) ↦ ground arith
  ]

  try_credentials-place :
      (place : Signature) (cs : List Credential) (s : State) (conn : Connection)
      → (try_credentials env place cs s).0 ≡ return conn
      → conn.place ≡ place
  unfolding try_credentials try_except throw
  try_credentials-place place [] s conn e = ground arith
  try_credentials-place place (c ∷ cs) s conn e = elim (Outcome-cases (login env place c s).0) [
    | inl (first, ok) ↦ login-place place c s conn (ok ∙ (rw ok at e))
    | inr (x, failed) ↦ try_credentials-place place cs (login env place c s).1 conn (rw failed at e)
  ]

  -- A connection that was pooled or opened leads to the database on the server of the configuration.
  pub connect-place :
      (config : Config) (s : State) (conn : Connection)
      → IsFaithful s.pool
      → (connect_sql_server env config s).0 ≡ return conn
      → conn.place ≡ signature config
  unfolding connect_sql_server ◌>>=◌
  connect-place config s conn faithful e = pooled (Dict.get s.pool (signature config)) refl
    where
      pooled :
          (o : Option Connection)
          → Dict.get s.pool (signature config) ≡ o
          → conn.place ≡ signature config
      pooled none absent =
          try_credentials-place (signature config) config.credentials s conn (rw absent at e)
      pooled (some found) present = faithful (signature config) conn (ground arith)
