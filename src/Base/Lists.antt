-- ===== src/Base/Lists.antt =====
-- Lists measured by native numbers, filtered by Boolean tests, and Python sets kept as lists.
use Prim.Native.Nat.{ℕ, suc, ◌+◌}
use mathlib.Core.Path.{◌≡◌, refl, sym}
use mathlib.Core.Bool.{Bool, true, false, not, ◌&&◌, ◌||◌}
use mathlib.Core.List.{List, [], ◌∷◌, ◌++◌, append_assoc}
use native.Mathlib.Omega.{arith}
use dockerize_and_ansible.Base.Equality.{Eq, ◌==◌, contains, if◌then◌else◌}

module _ {ℓ} {A : Type ℓ} where
  abbrev pub length : List A → ℕ
  length [] = 0
  length (x ∷ xs) = suc (length xs)

  pub length-append : (xs ys : List A) → length (xs ++ ys) ≡ length xs + length ys
  length-append [] ys = omega arith
  length-append (x ∷ xs) ys = omega (arith, length-append xs ys)

  abbrev pub All {κ} : (A → Type κ) → List A → Type κ
  All P [] = Unit
  All P (x ∷ xs) = P x × All P xs

  pub All-append {κ} : (P : A → Type κ) (xs ys : List A) → All P xs → All P ys → All P (xs ++ ys)
  All-append P [] ys h k = k
  All-append P (x ∷ xs) ys h k = (h.0, All-append P xs ys h.1 k)

  -- `[x for x in xs if p(x)]`
  abbrev pub keep : (A → Bool) → List A → List A
  keep p [] = []
  keep p (x ∷ xs) = let rest = keep p xs in if p x then x ∷ rest else rest

  -- The elements before the first that fails the test: a loop with `break`.
  abbrev pub leading : (A → Bool) → List A → List A
  leading p [] = []
  leading p (x ∷ xs) = let rest = leading p xs in if p x then x ∷ rest else []

  -- `[y for x in xs for y in f(x)]`
  abbrev pub flat {κ} : {B : Type κ} → (A → List B) → List A → List B
  flat f [] = []
  flat f (x ∷ xs) = f x ++ flat f xs

  pub flat-append {κ} :
      {B : Type κ} (f : A → List B) (xs ys : List A) → flat f (xs ++ ys) ≡ flat f xs ++ flat f ys
  flat-append f [] ys = refl
  flat-append f (x ∷ xs) ys =
      rw (flat-append f xs ys) (sym (append_assoc (f x) (flat f xs) (flat f ys)))

  -- `any(p(x) for x in xs)`
  abbrev pub any : (A → Bool) → List A → Bool
  any p [] = false
  any p (x ∷ xs) = p x || any p xs

  -- `all(p(x) for x in xs)`
  abbrev pub every : (A → Bool) → List A → Bool
  every p [] = true
  every p (x ∷ xs) = p x && every p xs

module _ {ℓ} {A : Type ℓ} ⦃e : Eq A⦄ where
  -- A set is a list in which no element stands twice; its order is left open by the program.
  abbrev pub Distinct : List A → Type 0
  Distinct [] = Unit
  Distinct (x ∷ xs) = (contains xs x ≡ false) × Distinct xs

  -- `s.add(x)`
  unfoldable pub add : List A → A → List A
  add s x = if contains s x then s else s ++ x ∷ []

  -- `s.update(xs)`, and `set(xs)` from the empty set
  unfoldable pub update : List A → List A → List A
  unfolding add
  update s [] = s
  update s (x ∷ xs) = update (add s x) xs

  -- `s - t`
  abbrev pub minus : List A → List A → List A
  minus s t = keep (λ x. not (contains t x)) s

  pub contains-append :
      (xs ys : List A) (x : A) → contains (xs ++ ys) x ≡ (contains xs x || contains ys x)
  contains-append [] ys x = refl
  contains-append (_ ∷ xs) ys x = ground (arith, contains-append xs ys x)

  pub contains-add : (s : List A) (x y : A) → contains (add s x) y ≡ (contains s y || y == x)
  unfolding add
  contains-add s x y = ground (arith, contains-append s (x ∷ []) y)

  pub contains-update :
      (s xs : List A) (y : A) → contains (update s xs) y ≡ (contains s y || contains xs y)
  unfolding update
  contains-update s [] y = ground arith
  contains-update s (x ∷ xs) y = ground (arith, contains-update (add s x) xs y, contains-add s x y)

  pub contains-keep :
      (p : A → Bool) (xs : List A) (x : A) → contains (keep p xs) x ≡ (contains xs x && p x)
  contains-keep p [] x = refl
  contains-keep p (y ∷ xs) x = ground (arith, contains-keep p xs x)

  pub Distinct-more :
      (s : List A) (x : A) → Distinct s → contains s x ≡ false → Distinct (s ++ x ∷ [])
  Distinct-more [] x distinct absent = (refl, tt)
  Distinct-more (y ∷ s) x distinct absent = (
    ground (arith, contains-append s (x ∷ []) y, distinct.0, absent),
    Distinct-more s x distinct.1 (ground (arith, absent)),
  )
