-- ===== src/Lineage/Traversal/Reachable.antt =====
-- Which servers can be reached from the first one, by what the servers answer.
use dockerize_and_ansible.Base.{String, ◌≡◌, refl, some, List, [], ◌∷◌, All}
use dockerize_and_ansible.Base.Effect.{return}
use dockerize_and_ansible.Lineage.State.{Connection, Shipping, Pair, Subscription, Env, History}
use mathlib.Core.List.{Memᴰ}

-- A server is visited as an origin of logs and publications, or as the distributor of one.
pub data Role : Type 0 where
  origin distributor : Role

-- A connection to the database of the configuration on a server.
abbrev pub LeadsTo : Connection → String → String → Type 0
LeadsTo conn server database = conn.place ≡ record { server = server; database = database }

-- The steps from server to server: the first one, the targets of log shipping, the distributor of an
-- origin, and the subscribers that a distributor knows of.
pub data Reaches (env : Env) (database root : String) : Role → String → Type 0 where
  start : Reaches env database root origin root
  ships :
      {server : String} (conn : Connection) (h : History) (rows : List Shipping) (row : Shipping)
      → Reaches env database root origin server
      → LeadsTo conn server database
      → env.log_shipping conn h ≡ return rows
      → Memᴰ row rows
      → Reaches env database root origin row.secondary_server
  distributes :
      {server : String} (conn : Connection) (h : History) (name : String)
      → Reaches env database root origin server
      → LeadsTo conn server database
      → env.distributor conn h ≡ return (some name)
      → Reaches env database root distributor name
  publishes :
      {server : String} (conn : Connection) (h : History) (rows : List Subscription)
      (group : Pair × List Subscription)
      → Reaches env database root distributor server
      → LeadsTo conn server database
      → env.replication conn h ≡ return rows
      → Memᴰ group (env.group_by rows)
      → Reaches env database root origin group.0.subscriber

-- What holds of every member holds of all.
pub All-members {ℓ κ} :
    {A : Type ℓ} (P : A → Type κ) (xs : List A) → ((x : A) → Memᴰ x xs → P x) → All P xs
All-members P [] h = tt
All-members P (x ∷ xs) h = (h x (Memᴰ.head refl), All-members P xs (λ y m. h y (Memᴰ.tail m)))
