-- ===== src/Prelude/Keys.antt =====
-- Equality tests of dictionary keys: texts, and the tuples that the repositories use as keys.
use Prim.Native.String.{String}
use mathlib.Core.Path.{◌≡◌, ap, refl}
use mathlib.Core.Logic.{◌↔◌, ◌≢◌}
use mathlib.Core.Bool.{Bool, true, false, ◌&&◌}
use native.Mathlib.Omega.{arith}
use text.Mathlib.Text.{◌==◌ as str_eq}
use text.Mathlib.TextEquality.{eq_iff}
use uwo_shared_platform.Prelude.Int.{ℤ, ◌==ℤ◌, ==ℤ_iff}

pub record Eq {ℓ} (A : Type ℓ) : Type ℓ where
  pub beq : A → A → Bool
  pub beq_iff : (x y : A) → (beq x y ≡ true) ↔ (x ≡ y)

infix 50 ◌==◌
module _ {ℓ} {A : Type ℓ} ⦃e : Eq A⦄ where
  abbrev pub ◌==◌ : A → A → Bool
  ◌==◌ x y = e.beq x y

instance abbrev pub int_eq : Eq ℤ
int_eq = record { beq = ◌==ℤ◌; beq_iff = ==ℤ_iff }

instance abbrev pub string_eq : Eq String
string_eq = record { beq = str_eq; beq_iff = eq_iff }

module _ {ℓ κ} {A : Type ℓ} {B : Type κ} ⦃e : Eq A⦄ ⦃f : Eq B⦄ where
  abbrev pair_beq : A × B → A × B → Bool
  pair_beq (a, b) (c, d) = (a == c) && (b == d)

  pub pair_beq_iff : (p q : A × B) → (pair_beq p q ≡ true) ↔ (p ≡ q)
  pair_beq_iff (a, b) (c, d) = (
    λ h. ground (arith, e.beq_iff a c, f.beq_iff b d),
    λ h.
        ground (
          arith,
          e.beq_iff a c,
          f.beq_iff b d,
          ap (λ (p : A × B). p.0) h,
          ap (λ (p : A × B). p.1) h,
        ),
  )

  instance abbrev pub pair_eq : Eq (A × B)
  pair_eq = record { beq = pair_beq; beq_iff = pair_beq_iff }

-- The same as a decision, for types whose equality is derived from that of their parts.
pub false-ne-true : false ≢ true
false-ne-true h = cc

abbrev decided {ℓ} : {P : Type ℓ} (b : Bool) → (b ≡ true) ↔ P → Dec P
decided true h = yes (h.0 refl)
decided false h = no (λ p. false-ne-true (h.1 p))

unfoldable pub Eq-discrete {ℓ} : {A : Type ℓ} → Eq A → Discrete A
Eq-discrete e x y = decided (e.beq x y) (e.beq_iff x y)

abbrev decides {ℓ} : {P : Type ℓ} → Dec P → Bool
decides (yes _) = true
decides (no _) = false

pub decides_iff {ℓ} : {P : Type ℓ} (d : Dec P) → (decides d ≡ true) ↔ P
decides_iff (yes p) = (λ _. p, λ _. refl)
decides_iff (no n) = (λ h. cc, λ p. absurd (n p))

-- `==` of a frozen dataclass
abbrev pub derived_eq {ℓ} : {A : Type ℓ} → Discrete A → Eq A
derived_eq d = record { beq = λ x y. decides (d x y); beq_iff = λ x y. decides_iff (d x y) }
