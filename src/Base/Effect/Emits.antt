-- ===== src/Base/Effect/Emits.antt =====
-- Statements that return, and the entries by which they lengthen a log that the state holds: one
-- rule for each way to build a statement.
use mathlib.Core.Path.{◌≡◌, refl, ◌∙◌}
use mathlib.Core.List.{List, [], ◌∷◌, ◌++◌, append_assoc, append-nil}
use dockerize_and_ansible.Base.Lists.{flat}
use dockerize_and_ansible.Base.Effect.{return, M, pure, ◌>>=◌, for_each, bind-of_return}

pub record Emits {S A X : Type 0} (log : S → List X) (m : M S A) (s : S) (expected : List X)
    : Type 0 where
  pub final : S
  pub result : A
  pub ran : m s ≡ (return result, final)
  pub sent : log final ≡ log s ++ expected

module _ {S X : Type 0} {log : S → List X} where
  pub Emits-pure : {A : Type 0} (a : A) (s : S) → Emits log (pure a) s []
  unfolding pure
  Emits-pure a s = record { final = s; result = a; ran = refl; sent = rw append-nil }

  pub Emits-bind :
      {A B : Type 0} (m : M S A) (f : A → M S B) (s : S) (xs ys : List X)
      → (p : Emits log m s xs) → Emits log (f p.result) p.final ys
      → Emits log (m >>= f) s (xs ++ ys)
  Emits-bind m f s xs ys p q = record {
    final = q.final;
    result = q.result;
    ran = bind-of_return m f p.ran ∙ q.ran;
    sent = q.sent ∙ rw p.sent (append_assoc (log s) xs ys);
  }

  -- A last step that only returns.
  pub Emits-then :
      {A B : Type 0} (m : M S A) (b : B) (s : S) (xs : List X)
      → Emits log m s xs
      → Emits log (m >>= λ _. pure b) s xs
  unfolding pure
  Emits-then m b s xs p = record {
    final = p.final;
    result = b;
    ran = bind-of_return m _ p.ran;
    sent = p.sent;
  }

  -- A first step whose result is known and that leaves the log alone.
  pub Emits-step :
      {A B : Type 0} (m : M S A) (f : A → M S B) {s s' : S} {a : A} (ys : List X)
      → m s ≡ (return a, s')
      → log s' ≡ log s
      → Emits log (f a) s' ys
      → Emits log (m >>= f) s ys
  Emits-step m f ys ran silent p = record {
    final = p.final;
    result = p.result;
    ran = bind-of_return m f ran ∙ p.ran;
    sent = p.sent ∙ rw silent;
  }

  -- A loop emits what its rounds emit.
  pub Emits-for_each :
      {A : Type 0} (body : A → M S (Unit {0})) (expected : A → List X)
      → ((x : A) (s : S) → Emits log (body x) s (expected x))
      → (xs : List A) (s : S) → Emits log (for_each xs body) s (flat expected xs)
  unfolding for_each
  Emits-for_each body expected round [] s = Emits-pure tt s
  Emits-for_each body expected round (x ∷ xs) s =
      let p = round x s in
      Emits-bind (body x) _ s (expected x) (flat expected xs) p
        (Emits-for_each body expected round xs p.final)
