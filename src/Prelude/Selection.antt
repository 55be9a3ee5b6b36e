-- ===== src/Prelude/Selection.antt =====
-- What a search or a filter of a list returns, said by relations in place of the functions that compute it.
use Prim.Native.String.{String}
use mathlib.Core.Path.{◌≡◌, subst}
use mathlib.Core.Logic.{◌↔◌, inl, inr}
use mathlib.Core.Bool.{Bool, true, false}
use mathlib.Core.Option.{some}
use mathlib.Core.List.{List, [], ◌∷◌, Memᴰ}
use mathlib.Core.List.Memᴰ
use native.Mathlib.Omega.{arith}
use uwo_shared_platform.Prelude.Tests.{Bool-cases}
use uwo_shared_platform.Prelude.Lists.{any, find}
use uwo_shared_platform.Prelude.Keys.{string_eq, ◌==◌}

fails-passes : {b : Bool} → b ≡ true → b ≡ false → ⊥
fails-passes t f = cc

module _ {ℓ κ} {A : Type ℓ} where
  -- The first item of a list for which P holds.
  pub data IsFirst (P : A → Type κ) : List A → A → Type (ℓ ⊔ κ) where
    here : {x : A} {xs : List A} → P x → IsFirst P (x ∷ xs) x
    later : {x a : A} {xs : List A} → ¬ P x → IsFirst P xs a → IsFirst P (x ∷ xs) a

  -- The second list holds the items of the first for which P holds, all of them, in their order.
  pub data Selects (P : A → Type κ) : List A → List A → Type (ℓ ⊔ κ) where
    done : Selects P [] []
    kept : {x : A} {xs ys : List A} → P x → Selects P xs ys → Selects P (x ∷ xs) (x ∷ ys)
    dropped : {x : A} {xs ys : List A} → ¬ P x → Selects P xs ys → Selects P (x ∷ xs) ys

  pub find-IsFirst :
      (P : A → Type κ) (p : A → Bool)
      → ((x : A) → (p x ≡ true) ↔ P x)
      → (xs : List A) {a : A} → find p xs ≡ some a
      → IsFirst P xs a
  find-IsFirst P p tests [] h = absurd (cc h)
  find-IsFirst P p tests (x ∷ xs) {a} h = elim (Bool-cases (p x)) [
    | inl passes ↦
        let same : x ≡ a = ground arith in
        subst (IsFirst P (x ∷ xs)) same (here ((tests x).0 passes))
    | inr fails ↦
        later (λ holds. fails-passes ((tests x).1 holds) fails)
          (find-IsFirst P p tests xs (ground arith))
  ]

-- `x in xs`, of texts
pub any-Mem : (x : String) (xs : List String) → (any (λ y. x == y) xs ≡ true) ↔ Memᴰ x xs
any-Mem x [] = (λ h. absurd (cc h), λ m. absurd (Memᴰ.not-nil m))
any-Mem x (y ∷ ys) = (
  λ h. elim (Bool-cases (x == y)) [
    | inl same ↦ Memᴰ.head ((string_eq.beq_iff x y).0 same)
    | inr other ↦ Memᴰ.tail ((any-Mem x ys).0 (ground arith))
  ],
  λ m. elim (Memᴰ.cases_cons m) [
    | inl same ↦ ground (arith, string_eq.beq_iff x y)
    | inr rest ↦ ground (arith, (any-Mem x ys).1 rest, Bool-cases (x == y))
  ],
)
