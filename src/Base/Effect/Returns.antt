-- ===== src/Base/Effect/Returns.antt =====
-- What holds of every value that a statement returns, in whatever state it starts: one rule for each
-- way to build a statement.
use dockerize_and_ansible.Base.Equality.{if◌then◌else◌}
use mathlib.Core.Path.{◌≡◌, refl, subst}
use mathlib.Core.Bool.{Bool, true, false}
use mathlib.Core.Logic.{inl, inr}
use dockerize_and_ansible.Base.Effect.{
  Exception, Outcome, return, raise, M, pure, throw, handle, try_except, Outcome-cases, ◌>>=◌,
}

abbrev pub Returned : {A : Type 0} → (A → Type 0) → Outcome A → Type 0
Returned P (return a) = P a
Returned P (raise e) = Unit

pub record Returns {S A : Type 0} (P : A → Type 0) (m : M S A) : Type 0 where
  pub at : (s : S) → Returned P (m s).0

module _ {S A : Type 0} {P : A → Type 0} where
  pub Returns-value : (m : M S A) (s : S) (a : A) → Returns P m → (m s).0 ≡ return a → P a
  Returns-value m s a h e = subst (Returned P) e (h.at s)

  pub Returns-pure : (a : A) → P a → Returns P (pure {S = S} a)
  unfolding pure
  Returns-pure a h = record { at = λ s. h }

  pub Returns-throw : (e : Exception) → Returns P (throw {S = S} e)
  unfolding throw
  Returns-throw e = record { at = λ s. tt }

  pub Returns-if :
      (test : Bool) (m n : M S A)
      → (test ≡ true → Returns P m)
      → (test ≡ false → Returns P n)
      → Returns P (if test then m else n)
  Returns-if true m n taken other = taken refl
  Returns-if false m n taken other = other refl

  Returns-handle :
      (o : Outcome A) (f : Exception → M S A) (s : S)
      → Returned P o
      → ((e : Exception) → Returns P (f e))
      → Returned P (handle o f s).0
  Returns-handle (return a) f s h k = h
  Returns-handle (raise e) f s h k = (k e).at s

  pub Returns-try_except :
      (m : M S A) (f : Exception → M S A)
      → Returns P m
      → ((e : Exception) → Returns P (f e))
      → Returns P (try_except m f)
  unfolding try_except
  Returns-try_except m f h k = record {
    at = λ s. let (o, s') = m s in Returns-handle o f s' (h.at s) k;
  }

-- What follows may use what holds of the first value, which nothing may be known of.
module _ {S A B : Type 0} {P : B → Type 0} where
  pub Returns-bind_known :
      {Q : A → Type 0} (m : M S A) (f : A → M S B)
      → Returns Q m
      → ((a : A) → Q a → Returns P (f a))
      → Returns P (m >>= f)
  unfolding ◌>>=◌
  Returns-bind_known m f h k = record {
    at = λ s. elim (Outcome-cases (m s).0) [
      | inl (a, e) ↦ rw e ((k a (Returns-value m s a h e)).at (m s).1)
      | inr (x, e) ↦ rw e tt
    ];
  }

  pub Returns-bind : (m : M S A) (f : A → M S B) → ((a : A) → Returns P (f a)) → Returns P (m >>= f)
  unfolding ◌>>=◌
  Returns-bind m f k = record {
    at = λ s. elim (Outcome-cases (m s).0) [
      | inl (a, e) ↦ rw e ((k a).at (m s).1)
      | inr (x, e) ↦ rw e tt
    ];
  }

pub ruleset returns_rules =
    (Returns-pure, Returns-throw, Returns-if, Returns-try_except, Returns-bind)
