-- ===== src/Lineage/Traversal/Keeps.antt =====
-- What writing an edge and dropping subscriptions keep: any stable invariant.
use dockerize_and_ansible.Base.{String, Option, none, some, List}
use dockerize_and_ansible.Base.Effect.{M}
use dockerize_and_ansible.Base.Effect.Keeps.{Keeps, Keeps-pure, Keeps-for_each, keeps_rules}
use dockerize_and_ansible.Lineage.State.{Config, Subscription, Edge, Env, State}
use dockerize_and_ansible.Lineage.Servers.Keeps.{IsStable, ask-Keeps, drop_inactive-Keeps}
use dockerize_and_ansible.Lineage.Traversal.{create_lineage, if_some, drop_listed}

module _ {P : State → Type 0} (stable : IsStable P) (env : Env) where
  pub create_lineage-Keeps : (edge : Edge) → Keeps P (create_lineage env edge)
  unfolding create_lineage
  create_lineage-Keeps edge = search (keeps_rules, ask-Keeps, stable)

  if_some-Keeps :
      (o : Option (List String)) (m : M State (Unit {0})) → Keeps P m → Keeps P (if_some o m)
  if_some-Keeps none m k = Keeps-pure _
  if_some-Keeps (some _) m k = k

  pub drop_listed-Keeps :
      (config : Config) (rows : List Subscription) → Keeps P (drop_listed env config rows)
  unfolding drop_listed
  drop_listed-Keeps config rows =
      if_some-Keeps _ _ (Keeps-for_each _ _ (λ sub. drop_inactive-Keeps stable env sub config))
