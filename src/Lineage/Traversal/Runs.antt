-- ===== src/Lineage/Traversal/Runs.antt =====
-- Statements of the traversal that return, with the servers whose links they follow to the end.
use dockerize_and_ansible.Base.{
  every, not, String, ◌≡◌, refl, ◌∙◌, sym, true, false, List, [], ◌∷◌, string_eq, arith, Bool-cases,
  inl, inr,
}
use dockerize_and_ansible.Base.Dict
use dockerize_and_ansible.Base.Dict.{Dict, has-put}
use dockerize_and_ansible.Base.Effect.{return, M, pure, ◌>>=◌, for_each, bind-of_return}
use dockerize_and_ansible.Base.Effect.Keeps.{Keeps}
use dockerize_and_ansible.Lineage.Traversal.{is_unreachable}
use dockerize_and_ansible.Lineage.State.{signature_eq, Connection, connected, Env, Visit, State}
use dockerize_and_ansible.Lineage.Traversal.Linked.{World, Link}
use mathlib.Core.Path.{subst}
use mathlib.Core.List.{Memᴰ}
use mathlib.Core.List.Memᴰ

abbrev pub IsIn : String → Dict String Visit → Type 0
IsIn server visited = Dict.has visited server ≡ true

-- No server was noted as unreachable.
abbrev pub IsClean : Dict String Visit → Type 0
IsClean visited = every (λ (server, visit). not (is_unreachable visit)) visited ≡ true

pub put-IsClean :
    (visited : Dict String Visit) (server : String) (conn : Connection)
    → IsClean visited
    → IsClean (Dict.put visited server (connected conn))
unfolding Dict.put
put-IsClean [] server conn h = refl
put-IsClean ((other, visit) ∷ visited) server conn h =
    ground (arith, put-IsClean visited server conn)

module _ (env : Env) (w : World) where
  -- From one dict of visits to a later one: nothing is forgotten, of every server that is new all links
  -- lead to visited servers, and no failure is added.
  pub record Covers (v v' : Dict String Visit) : Type 0 where
    pub grows : (server : String) → IsIn server v → IsIn server v'
    pub done : (a b : String) → IsIn a v' → Dict.has v a ≡ false → Link env w a b → IsIn b v'
    pub clean : IsClean v → IsClean v'

  pub Covers-refl : (v : Dict String Visit) → Covers v v
  Covers-refl v = record {
    grows = λ server h. h;
    done = λ a b old new link. absurd (ground arith);
    clean = λ h. h;
  }

  pub Covers-trans : (u v t : Dict String Visit) → Covers u v → Covers v t → Covers u t
  Covers-trans u v t p q = record {
    grows = λ server h. q.grows server (p.grows server h);
    done = λ a b found new link. elim (Bool-cases (Dict.has v a)) [
      | inl early ↦ q.grows b (p.done a b early new link)
      | inr late ↦ q.done a b found late link
    ];
    clean = λ h. q.clean (p.clean h);
  }

  -- A statement that returns, with what it covers and what holds then.
  pub record Runs {A : Type 0} (m : M State A) (s : State) (Post : A → Dict String Visit → Type 0)
      : Type 0 where
    pub result : A
    pub final : State
    pub ran : m s ≡ (return result, final)
    pub covers : Covers s.visited final.visited
    pub post : Post result final.visited

  pub Runs-bind :
      {A B : Type 0} (m : M State A) (f : A → M State B) (s : State)
      {P : A → Dict String Visit → Type 0} {Q : B → Dict String Visit → Type 0}
      → (p : Runs m s P) → Runs (f p.result) p.final Q
      → Runs (m >>= f) s Q
  Runs-bind m f s p q = record {
    result = q.result;
    final = q.final;
    ran = bind-of_return m f p.ran ∙ q.ran;
    covers = Covers-trans s.visited p.final.visited q.final.visited p.covers q.covers;
    post = q.post;
  }

  -- A statement that returns and visits nothing.
  pub Runs-silent :
      {A : Type 0} (m : M State A) (s : State) (a : A)
      → Keeps (λ t. t.visited ≡ s.visited) m
      → (m s).0 ≡ return a
      → Runs m s (λ b v. (b ≡ a) × (v ≡ s.visited))
  Runs-silent m s a quiet returned =
      let same : (m s).1.visited ≡ s.visited = quiet.at s refl in
      record {
        result = a;
        final = (m s).1;
        ran = λ i. (returned i, (m s).1);
        covers = subst (Covers s.visited) (sym same) (Covers-refl s.visited);
        post = (refl, same);
      }

  -- A loop in which each round visits the server of its element.
  pub Runs-for_each :
      {A : Type 0} (xs : List A) (body : A → M State (Unit {0})) (target : A → String)
      (Inv : State → Type 0)
      → ((x : A) → Memᴰ x xs → Keeps Inv (body x))
      → ((x : A) → Memᴰ x xs → (s : State) → Inv s → Runs (body x) s (λ _ v. IsIn (target x) v))
      → (s : State) → Inv s
      → Runs (for_each xs body) s (λ _ v. (x : A) → Memᴰ x xs → IsIn (target x) v)
  unfolding for_each pure
  Runs-for_each [] body target Inv keeps round s h = record {
    result = tt;
    final = s;
    ran = refl;
    covers = Covers-refl s.visited;
    post = λ x member. absurd (Memᴰ.not-nil member);
  }
  Runs-for_each (x ∷ xs) body target Inv keeps round s h =
      let p = round x (Memᴰ.head refl) s h in
      let h' : Inv p.final = subst (λ r. Inv r.1) p.ran ((keeps x (Memᴰ.head refl)).at s h) in
      let q =
        Runs-for_each xs body target Inv (λ y m. keeps y (Memᴰ.tail m))
          (λ y m. round y (Memᴰ.tail m)) p.final h' in
      record {
        result = tt;
        final = q.final;
        ran = bind-of_return (body x) _ p.ran ∙ q.ran;
        covers = Covers-trans s.visited p.final.visited q.final.visited p.covers q.covers;
        post = λ y member. elim (Memᴰ.cases_cons member) [
          | inl e ↦
              subst (λ z. IsIn (target z) q.final.visited) (sym e)
                (q.covers.grows (target x) p.post)
          | inr later ↦ q.post y later
        ];
      }

  -- What a statement keeps holds where it returns.
  pub kept :
      {A : Type 0} {m : M State A} {s : State} {Post : A → Dict String Visit → Type 0}
      (Inv : State → Type 0)
      → Keeps Inv m
      → Inv s
      → (p : Runs m s Post) → Inv p.final
  kept Inv keeps h p = subst (λ r. Inv r.1) p.ran (keeps.at _ h)

  pub Runs-post :
      {A : Type 0} (m : M State A) (s : State) {P Q : A → Dict String Visit → Type 0}
      → (p : Runs m s P) → (P p.result p.final.visited → Q p.result p.final.visited)
      → Runs m s Q
  Runs-post m s p f = record {
    result = p.result;
    final = p.final;
    ran = p.ran;
    covers = p.covers;
    post = f p.post;
  }
