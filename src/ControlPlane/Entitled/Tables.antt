-- ===== src/ControlPlane/Entitled/Tables.antt =====
-- What `RepositoryEntitlementLookup.authorize` reads of the tables of `InMemoryEntitlementRepository`.
use uwo_shared_platform.Prelude.{
  String, ◌≡◌, refl, Bool, true, false, ◌||◌, some, List, [], ◌∷◌, map, any, arith, All, inl, inr,
  Bool-cases, if◌then◌else◌, sym, ap, ◌∙◌,
}
use uwo_shared_platform.Prelude.Keys.{Eq, string_eq, ◌==◌}
use uwo_shared_platform.Prelude.Dict.{Dict, get, set, delete, values}
use uwo_shared_platform.Prelude.Int.{ℤ}
use uwo_shared_platform.Errors.{Code, ok, err, authorization_denied}
use uwo_shared_platform.Contracts.Domain.{Product, Tenant, is_suspended, product_value}
use uwo_shared_platform.ControlPlane.Entitlements.{
  ProductEntitlement, ModelEntitlement, authorize, get_effective_entitlements,
}
use uwo_shared_platform.ControlPlane.World.{EntitlementStore, product_eq}
use uwo_shared_platform.ControlPlane.Repositories.Items.{snapshot_of}
use uwo_shared_platform.Prelude.Sorting.{insert_by, sorted_by}

module _ {A : Type 0} (key : A → String) (p : A → Bool) where
  any-insert_by : (x : A) (xs : List A) → any p (insert_by key x xs) ≡ (p x || any p xs)
  unfolding insert_by
  any-insert_by x [] = refl
  any-insert_by x (y ∷ ys) = ground (arith, any-insert_by x ys)

  -- sorting keeps what is there
  any-sorted_by : (xs : List A) → any p (sorted_by key xs) ≡ any p xs
  unfolding sorted_by
  any-sorted_by [] = refl
  any-sorted_by (x ∷ xs) = ground (arith, any-insert_by x (sorted_by key xs), any-sorted_by xs)

any-map :
    {A : Type 0} (f : A → String) (x : String) (xs : List A)
    → any (λ y. x == y) (map f xs) ≡ any (λ a. x == f a) xs
any-map f x [] = refl
any-map f x (a ∷ xs) = ground (arith, any-map f x xs)

module _ {K V : Type 0} ⦃e : Eq K⦄ (p : V → Bool) where
  pub any-values-set :
      (d : Dict K V) (k : K) (v : V) → p v ≡ true → any p (values (set d k v)) ≡ true
  unfolding set
  any-values-set [] k v holds = ground arith
  any-values-set ((j, w) ∷ d) k v holds = ground (arith, any-values-set d k v holds)

  -- a deleted key takes with it all that p names, if p names items of that key alone
  pub any-values-delete :
      (d : Dict K V) (k : K)
      → All (λ (i : K × V). p i.1 ≡ true → i.0 ≡ k) d
      → any p (values (delete d k)) ≡ false
  unfolding delete
  any-values-delete [] k own = refl
  any-values-delete ((j, w) ∷ d) k (mine, own) =
      ground (arith, any-values-delete d k own, mine, e.beq_iff j k)

abbrev pub names_product : Product → ProductEntitlement → Bool
names_product product e = product_value product == product_value e.product

abbrev pub names_model : String → ModelEntitlement → Bool
names_model model e = model == e.model

-- What a stored tenant may use is what its tables name.
pub authorize-tables :
    (tenants : Dict String Tenant) (s : EntitlementStore) (t : String) (product : Product)
    (model : String) {x : Tenant} {v : ℤ} {ps : Dict Product ProductEntitlement}
    {ms : Dict String ModelEntitlement}
    → get tenants t ≡ some x
    → is_suspended x.status ≡ false
    → get s.versions t ≡ some v
    → get s.products t ≡ some ps
    → get s.models t ≡ some ms
    → authorize tenants (snapshot_of s) t product model ≡ (
        if any (names_product product) (values ps)
        then (if any (names_model model) (values ms)
            then ok tt
            else err (authorization_denied Code.model_not_entitled))
        else err (authorization_denied Code.product_not_entitled))
unfolding authorize get_effective_entitlements snapshot_of
authorize-tables tenants s t product model {ps = ps} {ms = ms} known active versioned products
      models =
    ground (
      arith,
      any-map (λ (e : ProductEntitlement). product_value e.product) (product_value product)
          (sorted_by (λ (e : ProductEntitlement). product_value e.product) (values ps)),
      any-sorted_by (λ (e : ProductEntitlement). product_value e.product) (names_product product)
          (values ps),
      any-map (λ (e : ModelEntitlement). e.model) model
          (sorted_by (λ (e : ModelEntitlement). e.model) (values ms)),
      any-sorted_by (λ (e : ModelEntitlement). e.model) (names_model model) (values ms),
    )

-- the product of a value; what `product_value` does not give has no meaning here
abbrev product_of : String → Product
product_of s =
    if s == "aisa"
    then Product.aisa
    else if s == "ai-mall"
    then Product.ai_mall
    else if s == "aisa-connect"
    then Product.aisa_connect
    else if s == "ai-legal-professional"
    then Product.ai_legal_professional
    else if s == "ai-ads"
    then Product.ai_ads
    else Product.ai_cashflow

product_of-value : (p : Product) → product_of (product_value p) ≡ p
unfolding product_value
product_of-value Product.aisa = refl
product_of-value Product.ai_mall = refl
product_of-value Product.aisa_connect = refl
product_of-value Product.ai_legal_professional = refl
product_of-value Product.ai_ads = refl
product_of-value Product.ai_cashflow = refl

product_value-injective : (p q : Product) → product_value p ≡ product_value q → p ≡ q
product_value-injective p q same =
    sym (product_of-value p) ∙ (ap product_of same ∙ product_of-value q)

-- Every entitlement of a table stands under its own product.
abbrev IsKeyed : Dict Product ProductEntitlement → Type 0
IsKeyed d = All (λ (i : Product × ProductEntitlement). i.1.product ≡ i.0) d

-- A table of products that grants and revocations make of the empty one.
pub data Arises : Dict Product ProductEntitlement → Type 0 where
  empty : Arises []
  grants :
      {d : Dict Product ProductEntitlement}
      → Arises d
      → (e : ProductEntitlement) → Arises (set d e.product e)
  revokes :
      {d : Dict Product ProductEntitlement}
      → Arises d
      → (product : Product) → Arises (delete d product)

IsKeyed-set :
    (d : Dict Product ProductEntitlement) (e : ProductEntitlement)
    → IsKeyed d
    → IsKeyed (set d e.product e)
unfolding set
IsKeyed-set [] e keyed = (refl, tt)
IsKeyed-set ((k, f) ∷ d) e (own, keyed) = elim (Bool-cases (k == e.product)) [
  | inl same ↦ rw same (sym ((product_eq.beq_iff k e.product).0 same), keyed)
  | inr other ↦ rw other (own, IsKeyed-set d e keyed)
]

IsKeyed-delete :
    (d : Dict Product ProductEntitlement) (product : Product)
    → IsKeyed d
    → IsKeyed (delete d product)
unfolding delete
IsKeyed-delete [] product keyed = tt
IsKeyed-delete ((k, f) ∷ d) product (own, keyed) =
    let rest = IsKeyed-delete d product keyed in
    elim (Bool-cases (k == product)) [ inl same ↦ rw same rest | inr other ↦ rw other (own, rest) ]

pub Arises-IsKeyed : {d : Dict Product ProductEntitlement} → Arises d → IsKeyed d
Arises-IsKeyed empty = tt
Arises-IsKeyed (grants {d = d} a e) = IsKeyed-set d e (Arises-IsKeyed a)
Arises-IsKeyed (revokes {d = d} a product) = IsKeyed-delete d product (Arises-IsKeyed a)

pub named-own :
    (product : Product) (d : Dict Product ProductEntitlement)
    → IsKeyed d
    → All (λ (i : Product × ProductEntitlement). names_product product i.1 ≡ true → i.0 ≡ product) d
named-own product [] keyed = tt
named-own product ((k, e) ∷ d) (own, keyed) = (
  λ named.
      sym own
      ∙ sym (
          product_value-injective product e.product
            ((string_eq.beq_iff (product_value product) (product_value e.product)).0 named)),
  named-own product d keyed,
)
