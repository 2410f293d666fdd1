-- ===== src/Base/Effect/Ensures.antt =====
-- What holds of the value and of the state where a statement returns, and of the state where it
-- raises: one rule for each way to build a statement.
use dockerize_and_ansible.Base.Equality.{if◌then◌else◌}
use mathlib.Core.Path.{◌≡◌, refl}
use mathlib.Core.Bool.{Bool, true, false}
use dockerize_and_ansible.Base.Effect.{
  Exception, Outcome, return, raise, M, pure, throw, gets, handle, try_except, and_then, ◌>>=◌,
}
use dockerize_and_ansible.Base.Effect.Keeps.{Keeps}

abbrev pub Post : {S A : Type 0} → (A → S → Type 0) → (S → Type 0) → Outcome A → S → Type 0
Post Q E (return a) s = Q a s
Post Q E (raise e) s = E s

pub record Ensures {S A : Type 0} (P : S → Type 0) (m : M S A) (Q : A → S → Type 0) (E : S → Type 0)
    : Type 0 where
  pub at : (s : S) → P s → Post Q E (m s).0 (m s).1

module _ {S A : Type 0} {P E : S → Type 0} {Q : A → S → Type 0} where
  pub Ensures-pure : (a : A) → ((s : S) → P s → Q a s) → Ensures P (pure a) Q E
  unfolding pure
  Ensures-pure a h = record { at = h }

  pub Ensures-throw : (e : Exception) → ((s : S) → P s → E s) → Ensures P (throw e) Q E
  unfolding throw
  Ensures-throw e h = record { at = h }

  pub Ensures-gets : (f : S → A) → ((s : S) → P s → Q (f s) s) → Ensures P (gets f) Q E
  unfolding gets
  Ensures-gets f h = record { at = h }

  pub Ensures-if :
      (test : Bool) (m n : M S A)
      → (test ≡ true → Ensures P m Q E)
      → (test ≡ false → Ensures P n Q E)
      → Ensures P (if test then m else n) Q E
  Ensures-if true m n taken other = taken refl
  Ensures-if false m n taken other = other refl

  pub Ensures-given : (m : M S A) → ((s : S) → P s → Ensures P m Q E) → Ensures P m Q E
  Ensures-given m k = record { at = λ s p. (k s p).at s p }

handle_Post :
    {S A : Type 0} {E F : S → Type 0} {Q : A → S → Type 0} (o : Outcome A) (f : Exception → M S A)
    (s : S)
    → ((e : Exception) → Ensures F (f e) Q E)
    → Post Q F o s
    → Post Q E (handle o f s).0 (handle o f s).1
handle_Post (return a) f s k h = h
handle_Post (raise e) f s k h = (k e).at s h

and_then_Post :
    {S A B : Type 0} {E : S → Type 0} {R : A → S → Type 0} {Q : B → S → Type 0} (o : Outcome A)
    (f : A → M S B) (s : S)
    → ((a : A) → Ensures (R a) (f a) Q E)
    → Post R E o s
    → Post Q E (and_then o f s).0 (and_then o f s).1
and_then_Post (return a) f s k h = (k a).at s h
and_then_Post (raise e) f s k h = h

kept_Post :
    {S A : Type 0} (P : S → Type 0) (o : Outcome A) (s : S) → P s → Post (λ (a : A). P) P o s
kept_Post P (return a) s h = h
kept_Post P (raise e) s h = h

end_Post : {S A : Type 0} (P : S → Type 0) (o : Outcome A) (s : S) → Post (λ (a : A). P) P o s → P s
end_Post P (return a) s h = h
end_Post P (raise e) s h = h

weaker_Post :
    {S A : Type 0} {Q R : A → S → Type 0} {E F : S → Type 0} (o : Outcome A) (s : S)
    → ((a : A) (t : S) → Q a t → R a t)
    → ((t : S) → E t → F t)
    → Post Q E o s
    → Post R F o s
weaker_Post (return a) s k l h = k a s h
weaker_Post (raise e) s k l h = l s h

module _ {S A : Type 0} {P : S → Type 0} where
  pub Ensures-Keeps : (m : M S A) → Keeps P m → Ensures P m (λ a. P) P
  Ensures-Keeps m k = record { at = λ s h. kept_Post P (m s).0 (m s).1 (k.at s h) }

  -- A statement that leads from one kind of state to another, whether it returns or raises.
  pub Ensures-both :
      {R : S → Type 0} (m : M S A) → ((s : S) → P s → R (m s).1) → Ensures P m (λ a. R) R
  Ensures-both {R = R} m h = record { at = λ s p. kept_Post R (m s).0 (m s).1 (h s p) }

  pub Keeps-Ensures : (m : M S A) → Ensures P m (λ a. P) P → Keeps P m
  Keeps-Ensures m h = record { at = λ s p. end_Post P (m s).0 (m s).1 (h.at s p) }

  pub Ensures-weaken :
      {Q R : A → S → Type 0} {E F : S → Type 0} (m : M S A)
      → Ensures P m Q E
      → ((a : A) (t : S) → Q a t → R a t)
      → ((t : S) → E t → F t)
      → Ensures P m R F
  Ensures-weaken m h k l = record { at = λ s p. weaker_Post (m s).0 (m s).1 k l (h.at s p) }

  pub Ensures-try_except :
      {Q : A → S → Type 0} {E F : S → Type 0} (m : M S A) (f : Exception → M S A)
      → Ensures P m Q F
      → ((e : Exception) → Ensures F (f e) Q E)
      → Ensures P (try_except m f) Q E
  unfolding try_except
  Ensures-try_except m f h k = record { at = λ s p. handle_Post (m s).0 f (m s).1 k (h.at s p) }

  pub Ensures-bind :
      {B : Type 0} {R : A → S → Type 0} {Q : B → S → Type 0} {E : S → Type 0} (m : M S A)
      (f : A → M S B)
      → Ensures P m R E
      → ((a : A) → Ensures (R a) (f a) Q E)
      → Ensures P (m >>= f) Q E
  unfolding ◌>>=◌
  Ensures-bind m f first rest = record {
    at = λ s p. and_then_Post (m s).0 f (m s).1 rest (first.at s p);
  }
