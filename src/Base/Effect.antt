-- ===== src/Base/Effect.antt =====
-- Statements that change a state and may raise: what ran before an exception stays done.
pub mod Keeps
pub mod Emits
pub mod Returns
pub mod Ensures
pub mod Total
use mathlib.Core.Path.{◌≡◌, refl}
use mathlib.Core.Logic.{◌⊎◌, inl, inr}
use mathlib.Core.List.{List, [], ◌∷◌}

-- What the programs' handlers tell apart.
pub data Exception : Type 0 where
  request_exception connection_error key_error type_error other_exception : Exception

pub data Outcome (A : Type 0) : Type 0 where
  return : A → Outcome A
  raise : Exception → Outcome A

abbrev pub M : Type 0 → Type 0 → Type 0
M S A = S → Outcome A × S

module _ {S A : Type 0} where
  unfoldable pub pure : A → M S A
  pure a s = (return a, s)

  unfoldable pub throw : Exception → M S A
  throw e s = (raise e, s)

  unfoldable pub gets : (S → A) → M S A
  gets f s = (return (f s), s)

  abbrev handle : Outcome A → (Exception → M S A) → M S A
  handle (return a) handler s = (return a, s)
  handle (raise e) handler s = handler e s

  -- `try: body` / `except Exception as e: handler`
  unfoldable pub try_except : M S A → (Exception → M S A) → M S A
  try_except body handler s = let (result, s') = body s in handle result handler s'

module _ {S : Type 0} where
  unfoldable pub modify : (S → S) → M S (Unit {0})
  modify f s = (return tt, f s)

module _ {S A B : Type 0} where
  abbrev pub and_then : Outcome A → (A → M S B) → M S B
  and_then (return a) f s = f a s
  and_then (raise e) f s = (raise e, s)

  infixl 5 ◌>>=◌ ◌>>◌
  -- Opening this opens the other statements too.
  unfoldable pub ◌>>=◌ : M S A → (A → M S B) → M S B
  unfolding pure throw gets try_except modify
  ◌>>=◌ m f s = let (result, s') = m s in and_then result f s'

  abbrev pub ◌>>◌ : M S A → M S B → M S B
  m >> n = m >>= λ _. n

pub Outcome-cases :
    {A : Type 0} (o : Outcome A) → ((a : A) × (o ≡ return a)) ⊎ ((e : Exception) × (o ≡ raise e))
Outcome-cases (return a) = inl (a, refl)
Outcome-cases (raise e) = inr (e, refl)

module _ {S A : Type 0} where
  -- A step that returned, and what follows it.
  pub bind-of_return :
      {B : Type 0} (m : M S A) (f : A → M S B) {s s' : S} {a : A}
      → m s ≡ (return a, s')
      → (m >>= f) s ≡ f a s'
  unfolding ◌>>=◌
  bind-of_return m f e = rw (e, ◌>>=◌)

  pub try_except-of_return :
      (m : M S A) (f : Exception → M S A) {s s' : S} {a : A}
      → m s ≡ (return a, s')
      → try_except m f s ≡ (return a, s')
  unfolding try_except
  try_except-of_return m f e = rw (e, try_except)

  -- With a handler that returns, so does the whole.
  pub try_except-returns :
      (m : M S A) (a : A) (s : S) → (b : A) × ((try_except m (λ e. pure a) s).0 ≡ return b)
  unfolding try_except pure
  try_except-returns m a s = elim (Outcome-cases (m s).0) [
    | inl (b, e) ↦ (b, rw (e, try_except))
    | inr (x, e) ↦ (a, rw (e, try_except))
  ]

module _ {S A : Type 0} where
  -- `for x in xs: body(x)`; a `continue` ends the body.
  unfoldable pub for_each : List A → (A → M S (Unit {0})) → M S (Unit {0})
  for_each [] body = pure tt
  for_each (x ∷ xs) body = body x >> for_each xs body

  -- A loop whose body may change the object that it visits.
  unfoldable pub map_each : List A → (A → M S A) → M S (List A)
  map_each [] body = pure []
  map_each (x ∷ xs) body = do x' ← body x; xs' ← map_each xs body; pure (x' ∷ xs')
