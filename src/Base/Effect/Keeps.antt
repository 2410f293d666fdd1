-- ===== src/Base/Effect/Keeps.antt =====
-- What a statement keeps true of the state, whether it returns or raises: one rule for each way
-- to build a statement, so that `search` proves a whole `do` block.
use dockerize_and_ansible.Base.Equality.{if◌then◌else◌}
use dockerize_and_ansible.Base.Lists.{All}
use mathlib.Core.Path.{◌≡◌, refl}
use mathlib.Core.Bool.{Bool, true, false}
use mathlib.Core.Logic.{inl, inr}
use mathlib.Core.List.{List, [], ◌∷◌}
use dockerize_and_ansible.Base.Effect.{
  Exception, Outcome, return, raise, M, pure, throw, gets, handle, try_except, and_then,
  Outcome-cases, ◌>>=◌, for_each, map_each,
}

pub record Keeps {S A : Type 0} (P : S → Type 0) (m : M S A) : Type 0 where
  pub at : (s : S) → P s → P (m s).1

module _ {S A : Type 0} {P : S → Type 0} where
  pub Keeps-pure : (result : A) → Keeps P (pure result)
  unfolding pure
  Keeps-pure result = record { at = λ before holds. holds }

  pub Keeps-throw : (e : Exception) → Keeps P (throw {A = A} e)
  unfolding throw
  Keeps-throw e = record { at = λ before holds. holds }

  pub Keeps-gets : (field : S → A) → Keeps P (gets field)
  unfolding gets
  Keeps-gets field = record { at = λ before holds. holds }

  -- Each branch may use the outcome of the test.
  pub Keeps-if :
      (test : Bool) (body otherwise : M S A)
      → (test ≡ true → Keeps P body)
      → (test ≡ false → Keeps P otherwise)
      → Keeps P (if test then body else otherwise)
  Keeps-if true body otherwise taken other = taken refl
  Keeps-if false body otherwise taken other = other refl

  pub Keeps-handle :
      (r : Outcome A) (f : Exception → M S A)
      → ((e : Exception) → Keeps P (f e))
      → Keeps P (handle r f)
  Keeps-handle (return a) f k = record { at = λ s h. h }
  Keeps-handle (raise e) f k = record { at = (k e).at }

  pub Keeps-try_except :
      (m : M S A) (f : Exception → M S A)
      → Keeps P m
      → ((e : Exception) → Keeps P (f e))
      → Keeps P (try_except m f)
  unfolding try_except
  Keeps-try_except m f km kf = record {
    at = λ s h. let (r, s') = m s in (Keeps-handle r f kf).at s' (km.at s h);
  }

module _ {S A B : Type 0} {P : S → Type 0} where
  Keeps-and_then :
      (r : Outcome A) (f : A → M S B) → ((a : A) → Keeps P (f a)) → Keeps P (and_then r f)
  Keeps-and_then (return a) f k = record { at = (k a).at }
  Keeps-and_then (raise e) f k = record { at = λ s h. h }

  -- The rest of the block may use how its value came about.
  pub Keeps-bind_known :
      (m : M S A) (f : A → M S B)
      → Keeps P m
      → ((s : S) (a : A) → (m s).0 ≡ return a → Keeps P (f a))
      → Keeps P (m >>= f)
  unfolding ◌>>=◌
  Keeps-bind_known m f km kf = record {
    at = λ s h. elim (Outcome-cases (m s).0) [
      | inl (a, e) ↦ rw e ((kf s a e).at (m s).1 (km.at s h))
      | inr (x, e) ↦ rw e (km.at s h)
    ];
  }

  -- The rest of the block may use what held before its value came about.
  pub Keeps-bind_at :
      (m : M S A) (f : A → M S B)
      → Keeps P m
      → ((s : S) (a : A) → P s → (m s).0 ≡ return a → Keeps P (f a))
      → Keeps P (m >>= f)
  unfolding ◌>>=◌
  Keeps-bind_at m f km kf = record {
    at = λ s h. elim (Outcome-cases (m s).0) [
      | inl (a, e) ↦ rw e ((kf s a h e).at (m s).1 (km.at s h))
      | inr (x, e) ↦ rw e (km.at s h)
    ];
  }

  pub Keeps-bind :
      (first : M S A) (rest : A → M S B)
      → Keeps P first
      → ((result : A) → Keeps P (rest result))
      → Keeps P (first >>= rest)
  unfolding ◌>>=◌
  Keeps-bind first rest kept_first kept_rest = record {
    at = λ before holds.
        let (outcome, between) = first before in
        (Keeps-and_then outcome rest kept_rest).at between (kept_first.at before holds);
  }

module _ {S A : Type 0} {P : S → Type 0} where
  pub Keeps-for_each :
      (xs : List A) (body : A → M S (Unit {0}))
      → ((x : A) → Keeps P (body x))
      → Keeps P (for_each xs body)
  unfolding for_each
  Keeps-for_each [] body k = Keeps-pure tt
  Keeps-for_each (x ∷ xs) body k =
      Keeps-bind (body x) (λ _. for_each xs body) (k x) (λ _. Keeps-for_each xs body k)

  -- A loop over elements that have something in common.
  pub Keeps-for_each-All {κ} :
      {Ok : A → Type κ} (xs : List A) (body : A → M S (Unit {0}))
      → All Ok xs
      → ((x : A) → Ok x → Keeps P (body x))
      → Keeps P (for_each xs body)
  unfolding for_each
  Keeps-for_each-All [] body all k = Keeps-pure tt
  Keeps-for_each-All (x ∷ xs) body all k =
      Keeps-bind (body x) (λ _. for_each xs body) (k x all.0)
        (λ _. Keeps-for_each-All xs body all.1 k)

  pub Keeps-map_each :
      (xs : List A) (body : A → M S A) → ((x : A) → Keeps P (body x)) → Keeps P (map_each xs body)
  unfolding map_each
  Keeps-map_each [] body k = Keeps-pure []
  Keeps-map_each (x ∷ xs) body k =
      Keeps-bind (body x) _ (k x)
        (λ x'. Keeps-bind (map_each xs body) _ (Keeps-map_each xs body k) (λ xs'. Keeps-pure _))

pub ruleset keeps_rules = (
  Keeps-pure, Keeps-throw, Keeps-gets, Keeps-if, Keeps-try_except, Keeps-bind, Keeps-for_each,
  Keeps-map_each,
)
