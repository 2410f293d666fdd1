-- ===== src/Lineage/Traversal/Reported.antt =====
-- What a whole run reports where every login succeeds, the answers do not change, and each publisher
-- is its own distributor.
use dockerize_and_ansible.Base.{
  ℕ, ◌<◌, String, ◌≡◌, refl, sym, ◌↔◌, true, some, List, [], ◌∷◌, ◌++◌, contains, length, string_eq,
  arith, Bool-cases, inl, inr,
}
use dockerize_and_ansible.Base.Dict
use dockerize_and_ansible.Base.Dict.{Dict}
use dockerize_and_ansible.Base.Effect.{return, pure, gets, try_except, ◌>>=◌}
use dockerize_and_ansible.Lineage.State
use dockerize_and_ansible.Lineage.State.{Config, Env, Visit, State, untouched, History, ask}
use dockerize_and_ansible.Lineage.Traversal.{is_unreachable, Report, report, main}
use dockerize_and_ansible.Lineage.Traversal.Reachable.{Role, Reaches}
use dockerize_and_ansible.Lineage.Traversal.Linked.{World, IsSteady, Linked}
use dockerize_and_ansible.Lineage.Traversal.Runs.{IsClean}
use dockerize_and_ansible.Lineage.Traversal.Complete.{traversal-Whole}
use mathlib.Core.Path.{subst}

report-of_clean :
    (visited : Dict String Visit) (b : String)
    → IsClean visited
    → ((report visited).failed ≡ []) × (contains (report visited).processed b ≡ Dict.has visited b)
unfolding report Dict.has
report-of_clean [] b h = (refl, refl)
report-of_clean ((server, visit) ∷ visited) b h = elim (Bool-cases (is_unreachable visit)) [
  | inl failed ↦ absurd (ground (arith, failed))
  | inr reached ↦
      let (none_failed, processed) = report-of_clean visited b (ground (arith, reached, h)) in
      (rw reached none_failed, rw reached (ground (arith, processed)))
]

-- Where there is a credential, every login succeeds, every server always answers with what it
-- holds, every publisher is its own distributor, no other server has one, no row makes no group, and
-- the configuration and the graph database can be opened and closed, a whole run reports as
-- processed the servers that can be walked to from the first one, and no others, and none as
-- unreachable. The list must hold every server that the answers can lead to, and the fuel must be
-- for more than its length.
pub main-Linked :
    (env : Env) (config : Config) (w : World)
    → IsSteady env config w
    → (servers : List String)
    → ((role : Role) (server : String)
        → Reaches env config.database config.server role server
        → contains servers server ≡ true)
    → (fuel : ℕ) → length servers < fuel
    → ((h : History) → env.load_config h ≡ return config)
    → ((h : History) → env.open_graph h ≡ return tt)
    → ((h : History) → env.close_graph h ≡ return tt)
    → (h : History) → (b : String)
    → (r : Report) × ((main env fuel (untouched h)).0 ≡ return (some r))
      × (r.failed ≡ [])
      × ((contains r.processed b ≡ true) ↔ Linked env w config.server b)
unfolding main try_except ◌>>=◌ ask gets pure
main-Linked env config w steady servers listed fuel enough loads opens closes h b =
    let h' = (h ++ State.load_config ∷ []) ++ State.open_graph ∷ [] in
    let whole = traversal-Whole env config w steady servers listed fuel enough h' in
    let (none_failed, processed) = report-of_clean whole.final.visited b whole.clean in
    (
      report whole.final.visited,
      rw (loads, opens, whole.ran, closes),
      none_failed,
      subst (λ t. (t ≡ true) ↔ Linked env w config.server b) (sym processed) (whole.linked b),
    )
