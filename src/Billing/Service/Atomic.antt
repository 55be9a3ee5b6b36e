-- ===== src/Billing/Service/Atomic.antt =====
-- An operation that raises leaves every repository as it found it.
use uwo_shared_platform.Prelude.{
  ◌≡◌, ◌≢◌, refl, Bool, true, false, Option, none, some, arith, inl, inr, if◌then◌else◌,
}
use uwo_shared_platform.Errors.{Error, Result, err, Result-cases}
use uwo_shared_platform.Billing.World.{World}
use uwo_shared_platform.Billing.UnitOfWork.{transaction}
use uwo_shared_platform.Billing.Action.{Act, ◌>>=◌, or_raise}

-- the repositories stay as they are
pub record Keeps {ℓ} {A : Type ℓ} (m : Act A) : Type ℓ where
  pub at : (w : World) → (m w).1.db ≡ w.db

-- the repositories stay as they are if the action raises
pub record RollsBack {ℓ} {A : Type ℓ} (m : Act A) : Type ℓ where
  pub at : (w : World) (e : Error) → (m w).0 ≡ err e → (m w).1.db ≡ w.db

module _ {ℓ} {A : Type ℓ} where
  -- `return`, `raise`, `gets`, `raise_when`, `authorize`, `construct` and every pure call
  pub Keeps-read : (f : World → Result A) → Keeps (λ w. (f w, w))
  Keeps-read f = record { at = λ w. refl }

  pub Keeps-or_raise : (o : Option A) (x : Error) → Keeps (or_raise o x)
  Keeps-or_raise none x = record { at = λ w. refl }
  Keeps-or_raise (some a) x = record { at = λ w. refl }

  pub RollsBack-Keeps : (m : Act A) → Keeps m → RollsBack m
  RollsBack-Keeps m k = record { at = λ w e h. k.at w }

  pub RollsBack-if :
      (b : Bool) (m n : Act A) → RollsBack m → RollsBack n → RollsBack (if b then m else n)
  RollsBack-if true m n km kn = km
  RollsBack-if false m n km kn = kn

  -- Whatever the body does, a raise puts the snapshot back.
  pub RollsBack-transaction : (body : Act A) → RollsBack (transaction body)
  unfolding transaction
  RollsBack-transaction body = record { at = λ w e h. ground arith }

module _ {ℓ κ} {A : Type ℓ} {B : Type κ} where
  pub Keeps-bind : (m : Act A) (f : A → Act B) → Keeps m → ((a : A) → Keeps (f a)) → Keeps (m >>= f)
  unfolding ◌>>=◌
  Keeps-bind m f km kf = record {
    at = λ w. elim (Result-cases (m w).0) [
      | inl (a, done) ↦ ground (arith, km.at w, (kf a).at (m w).1)
      | inr (x, raised) ↦ ground (arith, km.at w)
    ];
  }

  -- What comes before keeps the repositories, and the rest rolls back.
  pub RollsBack-bind :
      (m : Act A) (f : A → Act B) → Keeps m → ((a : A) → RollsBack (f a)) → RollsBack (m >>= f)
  unfolding ◌>>=◌
  RollsBack-bind m f km kf = record {
    at = λ w e h. elim (Result-cases (m w).0) [
      | inl (a, done) ↦ ground (arith, km.at w, (kf a).at (m w).1 e)
      | inr (x, raised) ↦ ground (arith, km.at w)
    ];
  }

-- an action that does not raise
pub record Returns {ℓ} {A : Type ℓ} (m : Act A) : Type ℓ where
  pub at : (w : World) (e : Error) → (m w).0 ≢ err e

module _ {ℓ κ} {A : Type ℓ} {B : Type κ} where
  -- What rolls back may be followed by what cannot raise.
  pub RollsBack-bind-Returns :
      (m : Act A) (f : A → Act B) → RollsBack m → ((a : A) → Returns (f a)) → RollsBack (m >>= f)
  unfolding ◌>>=◌
  RollsBack-bind-Returns m f km kf = record {
    at = λ w e h. elim (Result-cases (m w).0) [
      | inl (a, done) ↦ absurd ((kf a).at (m w).1 e (ground arith))
      | inr (x, raised) ↦ ground (arith, km.at w e)
    ];
  }

pub ruleset keeps_rules = (Keeps-read, Keeps-or_raise, Keeps-bind)
