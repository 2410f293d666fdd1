-- ===== src/Lineage/Traversal/Linked.antt =====
-- The links between servers that do not change, and how the steps of `Reachable` read there.
use dockerize_and_ansible.Base.{
  String, ◌≡◌, ◌∙◌, sym, ap, Bool, true, none, some, List, [], ◌∷◌, arith, if◌then◌else◌,
  Bool-cases, inl, inr,
}
use dockerize_and_ansible.Base.Effect.{return}
use dockerize_and_ansible.Lineage.State.{
  Config, Credential, Signature, Connection, Shipping, Pair, Subscription, Env, History,
}
use dockerize_and_ansible.Lineage.Traversal.Reachable.{
  Role, origin, distributor, Reaches, start, ships, distributes, publishes,
}
use mathlib.Core.Path.{subst}
use mathlib.Core.List.{Memᴰ}

-- What the servers hold.
pub record World : Type 0 where
  pub shipped : String → List Shipping
  pub is_publisher : String → Bool
  pub subscriptions : String → List Subscription

-- There is a credential, every login succeeds, every server answers with what it holds, whenever it
-- is asked, a publisher is its own distributor and another server has none. No row makes no group.
pub record IsSteady (env : Env) (config : Config) (w : World) : Type 0 where
  pub first : Credential
  pub others : List Credential
  pub has_credential : config.credentials ≡ first ∷ others
  pub logins :
      (place : Signature) (c : Credential) (h : History) → env.connect place c h ≡ return tt
  pub shipping :
      (conn : Connection) (h : History)
      → env.log_shipping conn h ≡ return (w.shipped conn.place.server)
  pub distributing :
      (conn : Connection) (h : History)
      → env.distributor conn h
        ≡ return (if w.is_publisher conn.place.server then some conn.place.server else none)
  pub replicating :
      (conn : Connection) (h : History)
      → env.replication conn h ≡ return (w.subscriptions conn.place.server)
  pub no_groups : env.group_by [] ≡ []

pub data Link (env : Env) (w : World) : String → String → Type 0 where
  by_shipping :
      {a : String} (row : Shipping) → Memᴰ row (w.shipped a) → Link env w a row.secondary_server
  by_replication :
      {a : String} (group : Pair × List Subscription)
      → w.is_publisher a ≡ true
      → Memᴰ group (env.group_by (w.subscriptions a))
      → Link env w a group.0.subscriber

-- The walks from `root`.
pub data Linked (env : Env) (w : World) (root : String) : String → Type 0 where
  here : Linked env w root root
  onwards : {a b : String} → Linked env w root a → Link env w a b → Linked env w root b

abbrev pub Means : Env → World → String → Role → String → Type 0
Means env w root origin server = Linked env w root server
Means env w root distributor server = Linked env w root server × (w.is_publisher server ≡ true)

return-injective : {A : Type 0} {a b : A} → return a ≡ return b → a ≡ b
return-injective {a = a} e = ap (λ o. elim o [ return x ↦ x | _ ↦ a ]) e

pub publisher_known :
    (w : World) (server name : String)
    → (if w.is_publisher server then some server else none) ≡ some name
    → (server ≡ name) × (w.is_publisher server ≡ true)
publisher_known w server name e = elim (Bool-cases (w.is_publisher server)) [
  | inl yes_it_is ↦ ground arith
  | inr no_it_is_not ↦ absurd (ground arith)
]

module _ (env : Env) (config : Config) (w : World) (steady : IsSteady env config w)
    (root : String) where
  pub Reaches-Linked :
      {role : Role} {server : String}
      → Reaches env config.database root role server
      → Means env w root role server
  Reaches-Linked start = here
  Reaches-Linked (ships {server} conn h rows row reached leads answered member) =
      let at : conn.place.server ≡ server = ap (λ p. p.server) leads in
      let same : rows ≡ w.shipped server =
        return-injective (sym answered ∙ steady.shipping conn h) ∙ ap w.shipped at in
      onwards (Reaches-Linked reached) (by_shipping row (subst (Memᴰ row) same member))
  Reaches-Linked (distributes {server} conn h name reached leads answered) =
      let at : conn.place.server ≡ server = ap (λ p. p.server) leads in
      let (same, publisher) =
        publisher_known w conn.place.server name
          (return-injective (sym (steady.distributing conn h) ∙ answered)) in
      (
        subst (Linked env w root) (sym at ∙ same) (Reaches-Linked reached),
        ap w.is_publisher (sym same) ∙ publisher,
      )
  Reaches-Linked (publishes {server} conn h rows group reached leads answered member) =
      let at : conn.place.server ≡ server = ap (λ p. p.server) leads in
      let same : rows ≡ w.subscriptions server =
        return-injective (sym answered ∙ steady.replicating conn h) ∙ ap w.subscriptions at in
      let (linked, publisher) = Reaches-Linked reached in
      onwards linked
        (by_replication group publisher (subst (λ t. Memᴰ group (env.group_by t)) same member))
