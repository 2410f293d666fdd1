-- ===== src/Base/Effect/Total.antt =====
-- Statements that return from every state of some kind, and what then holds of the value and of the
-- state: one rule for each way to build a statement.
use dockerize_and_ansible.Base.Equality.{if◌then◌else◌}
use mathlib.Core.Path.{◌≡◌, refl, ◌∙◌}
use mathlib.Core.Bool.{Bool, true, false}
use mathlib.Core.Logic.{inl, inr}
use dockerize_and_ansible.Base.Effect.{
  Exception, return, M, pure, gets, try_except, Outcome-cases, ◌>>=◌, bind-of_return,
  try_except-of_return,
}
use dockerize_and_ansible.Base.Effect.Keeps.{Keeps}

-- What a run comes to.
pub record Returning {S A : Type 0} (Q : A → S → Type 0) (m : M S A) (s : S) : Type 0 where
  pub value : A
  pub final : S
  pub ran : m s ≡ (return value, final)
  pub holds : Q value final

pub record Total {S A : Type 0} (P : S → Type 0) (m : M S A) (Q : A → S → Type 0) : Type 0 where
  pub at : (s : S) → P s → Returning Q m s

module _ {S A : Type 0} {P : S → Type 0} where
  pub Total-pure : {Q : A → S → Type 0} (a : A) → ((s : S) → P s → Q a s) → Total P (pure a) Q
  unfolding pure
  Total-pure a h = record { at = λ s p. record { value = a; final = s; ran = refl; holds = h s p } }

  pub Total-gets :
      {Q : A → S → Type 0} (f : S → A) → ((s : S) → P s → Q (f s) s) → Total P (gets f) Q
  unfolding gets
  Total-gets f h = record {
    at = λ s p. record { value = f s; final = s; ran = refl; holds = h s p };
  }

  pub Total-if :
      {Q : A → S → Type 0} (test : Bool) (m n : M S A)
      → (test ≡ true → Total P m Q)
      → (test ≡ false → Total P n Q)
      → Total P (if test then m else n) Q
  Total-if true m n taken other = taken refl
  Total-if false m n taken other = other refl

  pub Total-weaken :
      {Q R : A → S → Type 0} (m : M S A)
      → Total P m Q
      → ((a : A) (s : S) → Q a s → R a s)
      → Total P m R
  Total-weaken m total weaker = record {
    at = λ s p.
        let r = total.at s p in
        record {
          value = r.value;
          final = r.final;
          ran = r.ran;
          holds = weaker r.value r.final r.holds;
        };
  }

  pub Total-try :
      {Q : A → S → Type 0} (m : M S A) (f : Exception → M S A)
      → Total P m Q
      → Total P (try_except m f) Q
  Total-try m f total = record {
    at = λ s p.
        let r = total.at s p in
        record {
          value = r.value;
          final = r.final;
          ran = try_except-of_return m f r.ran;
          holds = r.holds;
        };
  }

  -- With a handler that returns, whatever the body does.
  pub Total-caught :
      (m : M S A) (a : A) → Keeps P m → Total P (try_except m (λ e. pure a)) (λ b s. P s)
  unfolding try_except pure
  Total-caught m a kept = record {
    at = λ s p. elim (Outcome-cases (m s).0) [
      | inl (b, e) ↦ record {
        value = b;
        final = (m s).1;
        ran = rw (try_except, e) refl;
        holds = kept.at s p;
      }
      | inr (x, e) ↦ record {
        value = a;
        final = (m s).1;
        ran = rw (try_except, e) refl;
        holds = kept.at s p;
      }
    ];
  }

module _ {S A B : Type 0} {P : S → Type 0} where
  pub Total-bind :
      {R : A → S → Type 0} {Q : B → S → Type 0} (m : M S A) (f : A → M S B)
      → Total P m R
      → ((a : A) → Total (R a) (f a) Q)
      → Total P (m >>= f) Q
  Total-bind m f first rest = record {
    at = λ s p.
        let r = first.at s p in
        let t = (rest r.value).at r.final r.holds in
        record {
          value = t.value;
          final = t.final;
          ran = bind-of_return m f r.ran ∙ t.ran;
          holds = t.holds;
        };
  }
