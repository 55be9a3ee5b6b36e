-- ===== src/Prelude/Dict.antt =====
-- A Python dictionary: its items in the order of insertion, a new value written in place.
use mathlib.Core.Path.{◌≡◌, refl, subst}
use mathlib.Core.Logic.{◌⊎◌, inl, inr}
use mathlib.Core.Bool.{Bool, true, false}
use mathlib.Core.Option.{Option, none, some}
use mathlib.Core.List.{List, [], ◌∷◌}
use native.Mathlib.Omega.{arith}
use uwo_shared_platform.Prelude.Tests.{if◌then◌else◌, is_some, Bool-cases}
use uwo_shared_platform.Prelude.Keys.{Eq, ◌==◌}

abbrev pub Dict {ℓ κ} : Type ℓ → Type κ → Type (ℓ ⊔ κ)
Dict K V = List (K × V)

module _ {ℓ κ} {K : Type ℓ} {V : Type κ} ⦃e : Eq K⦄ where
  -- `d.get(k)`
  unfoldable pub get : Dict K V → K → Option V
  get [] k = none
  get ((j, v) ∷ d) k = if j == k then some v else get d k

  -- `d[k] = v`
  unfoldable pub set : Dict K V → K → V → Dict K V
  set [] k v = (k, v) ∷ []
  set ((j, w) ∷ d) k v = if j == k then (j, v) ∷ d else (j, w) ∷ set d k v

  -- `del d[k]`; a key stands once
  unfoldable pub delete : Dict K V → K → Dict K V
  delete [] k = []
  delete ((j, v) ∷ d) k = let rest = delete d k in if j == k then rest else (j, v) ∷ rest

  -- `k in d`
  abbrev pub contains : Dict K V → K → Bool
  contains d k = is_some (get d k)

  pub get-set :
      (d : Dict K V) (k j : K) (v : V) → get (set d k v) j ≡ (if k == j then some v else get d j)
  unfolding get set
  get-set [] k j v = refl
  get-set ((i, w) ∷ d) k j v =
      ground (arith, e.beq_iff i k, e.beq_iff i j, e.beq_iff k j, get-set d k j v)

  pub get-delete :
      (d : Dict K V) (k j : K) → get (delete d k) j ≡ (if k == j then none else get d j)
  unfolding get delete
  get-delete [] k j = ground arith
  get-delete ((i, w) ∷ d) k j =
      ground (arith, e.beq_iff i k, e.beq_iff i j, e.beq_iff k j, get-delete d k j)

  pub get-set_self : (d : Dict K V) (k : K) (v : V) → get (set d k v) k ≡ some v
  get-set_self d k v = ground (arith, get-set d k k v, e.beq_iff k k)

  -- A write is read back under its key, and leaves the other keys.
  pub get-set_cases :
      (d : Dict K V) (k j : K) (v : V)
      → ((k ≡ j) × (get (set d k v) j ≡ some v)) ⊎ (get (set d k v) j ≡ get d j)
  get-set_cases d k j v = elim (Bool-cases (k == j)) [
    | inl same ↦ inl ((e.beq_iff k j).0 same, ground (arith, get-set d k j v))
    | inr other ↦ inr (ground (arith, get-set d k j v))
  ]

  -- A write under a new key leaves every item that is there.
  pub get-set_kept :
      (d : Dict K V) (k j : K) (v : V) {u : V}
      → get d k ≡ none
      → get d j ≡ some u
      → get (set d k v) j ≡ some u
  get-set_kept d k j v new found = ground (arith, get-set d k j v, e.beq_iff k j)

  -- a key that was not there is written and taken out again
  pub delete-set : (d : Dict K V) (k : K) (v : V) → get d k ≡ none → delete (set d k v) k ≡ d
  unfolding get set delete
  delete-set [] k v h = ground (arith, e.beq_iff k k)
  delete-set ((j, w) ∷ d) k v h = ground (arith, h, delete-set d k v)

  pub contains-set_self : (d : Dict K V) (k : K) (v : V) → contains (set d k v) k ≡ true
  contains-set_self d k v = ground (arith, get-set_self d k v)

  pub contains-set :
      (d : Dict K V) (k j : K) (v : V) → contains d j ≡ true → contains (set d k v) j ≡ true
  contains-set d k j v h = elim (get-set_cases d k j v) [
    | inl (same, written) ↦ ground (arith, written)
    | inr kept ↦ ground (arith, kept, h)
  ]

  -- a write under a key that is there adds no key
  pub contains-set_old :
      (d : Dict K V) (k j : K) (v : V)
      → contains d k ≡ true
      → contains (set d k v) j ≡ true
      → contains d j ≡ true
  contains-set_old d k j v old h = elim (get-set_cases d k j v) [
    | inl (same, written) ↦ subst (λ i. contains d i ≡ true) same old
    | inr kept ↦ ground (arith, kept, h)
  ]

  pub contains-set_cases :
      (d : Dict K V) (k j : K) (v : V)
      → contains (set d k v) j ≡ true
      → (k ≡ j) ⊎ (contains d j ≡ true)
  contains-set_cases d k j v h = elim (get-set_cases d k j v) [
    | inl (same, written) ↦ inl same
    | inr kept ↦ inr (ground (arith, kept, h))
  ]

  pub contains-some : (d : Dict K V) (k : K) {v : V} → get d k ≡ some v → contains d k ≡ true
  contains-some d k h = ground (arith, h)

  pub not_contained : (d : Dict K V) (k : K) → contains d k ≡ false → get d k ≡ none
  not_contained d k h = ground arith

-- `list(d)`
abbrev pub keys {ℓ κ} : {K : Type ℓ} {V : Type κ} → Dict K V → List K
keys [] = []
keys ((k, v) ∷ d) = k ∷ keys d

-- `d.values()`
abbrev pub values {ℓ κ} : {K : Type ℓ} {V : Type κ} → Dict K V → List V
values [] = []
values ((k, v) ∷ d) = v ∷ values d
