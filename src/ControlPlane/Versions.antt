-- ===== src/ControlPlane/Versions.antt =====
-- Optimistic versions: a table whose items carry a version changes only so that no version goes
-- back, and that a version names one content.
use uwo_shared_platform.Prelude.{◌≡◌, ◌≢◌, refl, sym, ap, ◌∙◌, Option, none, some, arith, inl, inr}
use uwo_shared_platform.Prelude.Int.{ℤ, pos, ◌+ℤ◌, ◌≤ℤ◌, +ℤ_parts, eq_of_parts}
use uwo_shared_platform.Prelude.Keys.{Eq}
use uwo_shared_platform.Prelude.Dict.{Dict, get, set, get-set_cases, get-set_kept}

pub some-inj {ℓ} : {A : Type ℓ} {a b : A} → some a ≡ some b → a ≡ b
some-inj h = cc

pub none-ne-some {ℓ} : {A : Type ℓ} {a : A} → none ≢ some a
none-ne-some h = cc

module _ {K V : Type 0} (version : V → ℤ) where
  -- from the items that one lookup finds to those of a later one
  abbrev pub Versioned : (K → Option V) → (K → Option V) → Type 0
  Versioned before after =
      (k : K) (x : V)
      → before k ≡ some x
      → (y : V) × (after k ≡ some y) × (version x ≤ℤ version y) × (version x ≡ version y → x ≡ y)

  pub Versioned-refl : (f : K → Option V) → Versioned f f
  Versioned-refl f k x h = (x, h, omega arith, λ _. refl)

  pub Versioned-trans : (f g h : K → Option V) → Versioned f g → Versioned g h → Versioned f h
  Versioned-trans f g h fg gh k x found =
      let (y, found_y, xy, same_y) = fg k x found in
      let (z, found_z, yz, same_z) = gh k y found_y in
      (
        z,
        found_z,
        omega (arith, xy, yz),
        λ same.
            let first = eq_of_parts (version x) (version y) (ground (arith, xy, yz, same)) in
            let second = eq_of_parts (version y) (version z) (ground (arith, xy, yz, same)) in
            same_y first ∙ same_z second,
      )

  module _ ⦃e : Eq K⦄ where
    -- a write over an item with a lower version
    pub Versioned-set :
        (d : Dict K V) (k : K) (old new : V)
        → get d k ≡ some old
        → version new ≡ version old +ℤ pos 1
        → Versioned (get d) (get (set d k new))
    Versioned-set d k old new found next j x h = elim (get-set_cases d k j new) [
      | inl (same, written) ↦
          let replaced : old ≡ x = some-inj (sym found ∙ ap (get d) same ∙ h) in
          (
            new,
            written,
            ground (arith, +ℤ_parts (version old) (pos 1), replaced, next),
            λ equal. absurd (ground (arith, +ℤ_parts (version old) (pos 1), replaced, next, equal)),
          )
      | inr kept ↦ (x, kept ∙ h, omega arith, λ _. refl)
    ]

    -- a write under a new key
    pub Versioned-new :
        (d : Dict K V) (k : K) (new : V) → get d k ≡ none → Versioned (get d) (get (set d k new))
    Versioned-new d k new fresh j x h = (x, get-set_kept d k j new fresh h, omega arith, λ _. refl)
