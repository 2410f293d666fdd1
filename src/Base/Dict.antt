-- ===== src/Base/Dict.antt =====
-- Python dicts, as association lists in insertion order.
use dockerize_and_ansible.Base.Equality.{Eq, ◌==◌, ==_refl, if◌then◌else◌}
use mathlib.Core.Path.{◌≡◌, refl}
use mathlib.Core.Bool.{Bool, true, false, ◌||◌}
use mathlib.Core.Option.{Option, none, some}
use mathlib.Core.List.{List, [], ◌∷◌}
use mathlib.Core.Logic.{inl, inr}
use dockerize_and_ansible.Base.Tests.{Bool-cases}
use native.Mathlib.Omega.{arith}

abbrev pub Dict {ℓ κ} : Type ℓ → Type κ → Type (ℓ ⊔ κ)
Dict K V = List (K × V)

module _ {ℓ κ} {K : Type ℓ} {V : Type κ} ⦃e : Eq K⦄ where
  -- `d.get(k)`
  unfoldable pub get : Dict K V → K → Option V
  get [] k = none
  get ((j, v) ∷ d) k = if j == k then some v else get d k

  -- `k in d`
  unfoldable pub has : Dict K V → K → Bool
  has [] k = false
  has ((j, v) ∷ d) k = j == k || has d k

  -- `d[k] = v`: an old key keeps its place.
  unfoldable pub put : Dict K V → K → V → Dict K V
  put [] k v = (k, v) ∷ []
  put ((j, w) ∷ d) k v = if j == k then (k, v) ∷ d else (j, w) ∷ put d k v

  -- `d.get(k, default)`
  unfoldable pub get_or : Dict K V → K → V → V
  unfolding get
  get_or d k default = elim (get d k) [ none ↦ default | some v ↦ v ]

  pub get-put :
      (d : Dict K V) (key asked : K) (value : V)
      → get (put d key value) asked ≡ (if key == asked then some value else get d asked)
  unfolding get put
  get-put [] key asked value = refl
  get-put ((i, w) ∷ d) key asked value = ground (arith, get-put d key asked value)

  pub get_or-put :
      (d : Dict K V) (key : K) (value default : V) → get_or (put d key value) key default ≡ value
  unfolding get_or
  get_or-put d key value default = rw (get_or, get-put d key key value, ==_refl key)

  pub has-put :
      (d : Dict K V) (key : K) (value : V) (asked : K)
      → has (put d key value) asked ≡ (key == asked || has d asked)
  unfolding has put
  has-put [] key value asked = refl
  has-put ((i, w) ∷ d) key value asked = ground (arith, has-put d key value asked)

  pub has-get : (d : Dict K V) (k : K) → has d k ≡ false → get d k ≡ none
  unfolding has get
  has-get [] k h = refl
  has-get ((j, v) ∷ d) k h = ground (arith, has-get d k)

  pub has-true-get : (d : Dict K V) (k : K) → has d k ≡ true → (v : V) × (get d k ≡ some v)
  unfolding has get
  has-true-get [] k h = cc
  has-true-get ((j, v) ∷ d) k h = elim (Bool-cases (j == k)) [
    | inl here ↦ (v, ground (arith, here))
    | inr there ↦
        let (w, found) = has-true-get d k (ground (arith, there)) in
        (w, ground (arith, there, found))
  ]
