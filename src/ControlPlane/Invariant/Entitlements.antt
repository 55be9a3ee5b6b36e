-- ===== src/ControlPlane/Invariant/Entitlements.antt =====
-- How the operations on entitlements end.
use uwo_shared_platform.Prelude.{
  String, ◌+◌, ◌≡◌, refl, sym, subst, Bool, true, false, Option, none, some, inl, inr, arith,
}
use uwo_shared_platform.Prelude.Int.{ℤ, pos, ◌+ℤ◌}
use uwo_shared_platform.Prelude.Keys.{Eq, string_eq, pair_eq}
use uwo_shared_platform.Prelude.Dict.{Dict, get, set, delete, contains, contains-set_self}
use uwo_shared_platform.Errors.{ok, Result-cases}
use uwo_shared_platform.Env.{Env}
use uwo_shared_platform.Contracts.Domain.{Product, VerifiedSubjectIdentity}
use uwo_shared_platform.ControlPlane.{Directory}
use uwo_shared_platform.ControlPlane.Entitlements.{
  EntitlementSnapshot, ModelEntitlement, ProductEntitlement,
}
use uwo_shared_platform.ControlPlane.World.{
  Db, IdempotencyRecord, IdempotencyResult, IdempotencyScope, World, product_eq,
}
use uwo_shared_platform.ControlPlane.Action.{Act, continue, ◌>>=◌}
use uwo_shared_platform.ControlPlane.Ends.{
  Ends, Ending, Ends-assoc, Ends-bind, Ends-clock, Ends-commit, Ends-construct, Ends-contract,
  Ends-gets, Ends-lift, Ends-raise_when, Ends-transaction, Ends-write,
}
use uwo_shared_platform.ControlPlane.Repositories.Items.{granted, revoked, snapshot_of}
use uwo_shared_platform.ControlPlane.Repositories.Entitlements
use uwo_shared_platform.ControlPlane.Repositories.Entitlements.{with_models, with_products}
use uwo_shared_platform.ControlPlane.Service.Entitlements.{
  grant, grant_model, grant_new, grant_product, revoke_model, revoke_product,
}
use uwo_shared_platform.ControlPlane.Invariant.{Follows, Follows-refl, IsCoherent}
use uwo_shared_platform.ControlPlane.Invariant.Rules.{
  Ends-audited, Ends-done, Ends-if, Ends-put, Ends-replay, Ends-require, Ends-scope_of, Settles,
}
use uwo_shared_platform.ControlPlane.Invariant.Writes.{Follows-idempotency, Follows-trans}
use uwo_shared_platform.ControlPlane.Invariant.Aggregates.{Follows-models, Follows-products}

module _ {K V : Type 0} ⦃e : Eq K⦄ where
  -- what a grant has read and what it writes
  pub granted-ok :
      (version : Option ℤ) (items : Option (Dict K V)) (key : K) (item : ℤ → V) (valid : V → Bool)
      (v : ℤ) {r : V × (Dict K V × ℤ)}
      → granted version items key item valid v ≡ ok r
      → (u : ℤ) × (d : Dict K V) × (version ≡ some u)
        × (items ≡ some d)
        × (u ≡ v)
        × (contains d key ≡ false)
        × (r ≡ (item (u +ℤ pos 1), (set d key (item (u +ℤ pos 1)), u +ℤ pos 1)))
  unfolding granted
  granted-ok none items key item valid v h = absurd (ground arith)
  granted-ok (some u) none key item valid v h = absurd (ground arith)
  granted-ok (some u) (some d) key item valid v h =
      (u, d, refl, refl, ground arith, ground arith, ground arith)

  -- what a revocation has read and what it writes
  pub revoked-ok :
      (version : Option ℤ) (items : Option (Dict K V)) (key : K) (v : ℤ) {r : Dict K V × ℤ}
      → revoked version items key v ≡ ok r
      → (u : ℤ) × (d : Dict K V) × (version ≡ some u)
        × (items ≡ some d)
        × (u ≡ v)
        × (contains d key ≡ true)
        × (r ≡ (delete d key, u +ℤ pos 1))
  unfolding revoked
  revoked-ok none items key v h = absurd (ground arith)
  revoked-ok (some u) none key v h = absurd (ground arith)
  revoked-ok (some u) (some d) key v h =
      (u, d, refl, refl, ground arith, ground arith, ground arith)

-- The snapshot of a tenant that is versioned does not fail.
pub snapshot_of-coherent :
    (db : Db)
    → IsCoherent db
    → (t : String) → contains db.entitlements.versions t ≡ true
    → (r : EntitlementSnapshot) × (snapshot_of db.entitlements t ≡ ok r)
unfolding snapshot_of
snapshot_of-coherent db h t there = elim (Result-cases (snapshot_of db.entitlements t)) [
  | inl done ↦ done
  | inr (x, failed) ↦
      absurd (ground (arith, there, h.has_products t there, h.has_models t there, failed))
]

module _ {B : Type 0} {P : B → World → Type 0} {E : Db → Type 0} {w : World} where
  -- a read that does not fail
  Ends-snapshot :
      (t : String) (f : EntitlementSnapshot → Act B) {r : EntitlementSnapshot}
      → snapshot_of w.db.entitlements t ≡ ok r
      → ((r : EntitlementSnapshot) → Ends P E (f r) w)
      → Ends P E (Entitlements.snapshot t >>= f) w
  unfolding ◌>>=◌
  Ends-snapshot t f {r = r} done k = record {
    holds = subst (λ x. Ending P E (continue x f w)) (sym done) (k r).holds;
  }

module _ {B : Type 0} {P : B → World → Type 0} {E : Db → Type 0} {w : World} where
  Ends-revoke_product :
      (h : IsCoherent w.db) (t : String) (product : Product) (v : ℤ)
      (f : EntitlementSnapshot → Act B)
      → E w.db
      → ((r : EntitlementSnapshot) (w' : World) → Follows w.db w'.db → Ends P E (f r) w')
      → Ends P E (Entitlements.revoke_product t product v >>= f) w
  unfolding Entitlements.revoke_product
  Ends-revoke_product h t product v f e k = Ends-assoc _ _ _ (
      Ends-gets _ _ (
        Ends-assoc _ _ _ (
          Ends-lift _ _ e (λ r taken.
            let (u, d, now, _, _, _, same) =
              revoked-ok (get w.db.entitlements.versions t) (get w.db.entitlements.products t)
                product v taken in
            let after : Follows w.db
                (record w.db { entitlements = with_products w.db.entitlements t r }) =
              subst
                (λ q.
                  Follows w.db (record w.db { entitlements = with_products w.db.entitlements t q }))
                (sym same) (Follows-products w.db h t (delete d product) u now) in
            Ends-assoc _ _ _ (
              Ends-write _ _ (
                Ends-snapshot t f
                  (snapshot_of-coherent _ after.coherent t
                    (contains-set_self w.db.entitlements.versions t r.1)).1
                  (λ s. k s _ after)))))))

  Ends-revoke_model :
      (h : IsCoherent w.db) (t model : String) (v : ℤ) (f : EntitlementSnapshot → Act B)
      → E w.db
      → ((r : EntitlementSnapshot) (w' : World) → Follows w.db w'.db → Ends P E (f r) w')
      → Ends P E (Entitlements.revoke_model t model v >>= f) w
  unfolding Entitlements.revoke_model
  Ends-revoke_model h t model v f e k = Ends-assoc _ _ _ (
      Ends-gets _ _ (
        Ends-assoc _ _ _ (
          Ends-lift _ _ e (λ r taken.
            let (u, d, now, _, _, _, same) =
              revoked-ok (get w.db.entitlements.versions t) (get w.db.entitlements.models t) model v
                taken in
            let after : Follows w.db
                (record w.db { entitlements = with_models w.db.entitlements t r }) =
              subst
                (λ q.
                  Follows w.db (record w.db { entitlements = with_models w.db.entitlements t q }))
                (sym same) (Follows-models w.db h t (delete d model) u now) in
            Ends-assoc _ _ _ (
              Ends-write _ _ (
                Ends-snapshot t f
                  (snapshot_of-coherent _ after.coherent t
                    (contains-set_self w.db.entitlements.versions t r.1)).1
                  (λ s. k s _ after)))))))

module _ ⦃env : Env⦄ (w : World) (h : IsCoherent w.db) where
  -- a grant of the repository, which may fail with nothing written
  Ends-grant_product :
      (item : ProductEntitlement) (v : ℤ)
      → Ends (λ _ w'. Follows w.db w'.db) (λ _. Unit) (Entitlements.grant_product item v) w
  unfolding Entitlements.grant_product
  Ends-grant_product item v = Ends-gets _ _ (
      Ends-lift _ _ tt (λ r taken.
        let (u, d, now, _, _, _, same) = granted-ok _ _ item.product _ _ v taken in
        Ends-write _ _ (
          Ends-done _ (
            subst
              (λ (q : ProductEntitlement × (Dict Product ProductEntitlement × ℤ)).
                Follows w.db (record w.db {
                  entitlements = with_products w.db.entitlements item.tenant_id q.1;
                }))
              (sym same) (Follows-products w.db h item.tenant_id _ u now)))))

  Ends-grant_model :
      (item : ModelEntitlement) (v : ℤ)
      → Ends (λ _ w'. Follows w.db w'.db) (λ _. Unit) (Entitlements.grant_model item v) w
  unfolding Entitlements.grant_model
  Ends-grant_model item v = Ends-gets _ _ (
      Ends-lift _ _ tt (λ r taken.
        let (u, d, now, _, _, _, same) = granted-ok _ _ item.model _ _ v taken in
        Ends-write _ _ (
          Ends-done _ (
            subst
              (λ (q : ModelEntitlement × (Dict String ModelEntitlement × ℤ)).
                Follows w.db
                  (record w.db { entitlements = with_models w.db.entitlements item.tenant_id q.1 }))
              (sym same) (Follows-models w.db h item.tenant_id _ u now)))))

module _ {A : Type 0} (valid : A → Bool) (stored_as : A → IdempotencyResult)
    (as_class : IdempotencyResult → Option A) where
  Ends-grant_new :
      (w : World) (h : IsCoherent w.db) (scope : IdempotencyScope)
      (key request_fingerprint : String) (mutation : Act A)
      → Ends (λ _ w'. Follows w.db w'.db) (λ _. Unit) mutation (record w { committed = false })
      → (existing : Option IdempotencyRecord)
      → Ends
          (λ _ w'. (w'.committed ≡ true) × Follows w.db w'.db)
          (λ _. Unit)
          (grant_new valid stored_as as_class scope key request_fingerprint mutation existing)
          (record w { committed = false })
  Ends-grant_new w h scope key request_fingerprint mutation m (some existing) =
      Ends-replay _ _ _ _ tt (λ a _ _. Ends-commit _ (Ends-done _ (refl, Follows-refl w.db h)))
  Ends-grant_new w h scope key request_fingerprint mutation m none =
      Ends-bind (λ _ w'. Follows w.db w'.db) _ _ m
        (λ stored w' after. Ends-construct _ _ _ tt (λ _. Ends-construct _ _ _ tt (λ _.
          Ends-put _ _ (λ _. tt)
            (λ fresh. Ends-commit _ (
              Ends-done _ (
                refl,
                Follows-trans w.db w'.db _ after
                    (λ coherent. Follows-idempotency _ coherent _ fresh),
              ))))))

  Settles-grant :
      (w : World) (h : IsCoherent w.db) (scope : IdempotencyScope)
      (key request_fingerprint : String) (mutation : Act A)
      → Ends (λ _ w'. Follows w.db w'.db) (λ _. Unit) mutation (record w { committed = false })
      → Settles (grant valid stored_as as_class scope key request_fingerprint mutation) w
  unfolding grant
  Settles-grant w h scope key request_fingerprint mutation m =
      Ends-transaction (λ _ d. Follows w.db d) _
        (Ends-gets _ _ (Ends-grant_new w h scope key request_fingerprint mutation m _))

module _ ⦃env : Env⦄ (w : World) (h : IsCoherent w.db) (fixed : Directory)
    (i : VerifiedSubjectIdentity) where
  pub Settles-revoke_product :
      (t : String) (product : Product) (v : ℤ) (request_id : String)
      → Settles (revoke_product fixed i t product v request_id) w
  unfolding revoke_product
  Settles-revoke_product t product v request_id = Ends-require fixed i t _ _ _ refl (
      Ends-revoke_product h t product v _ refl
        (λ r w' after. Ends-audited (λ _ d. Follows w.db d) _ _ after))

  pub Settles-revoke_model :
      (t model : String) (v : ℤ) (request_id : String)
      → Settles (revoke_model fixed i t model v request_id) w
  unfolding revoke_model
  Settles-revoke_model t model v request_id = Ends-require fixed i t _ _ _ refl (
      Ends-revoke_model h t model v _ refl
        (λ r w' after. Ends-audited (λ _ d. Follows w.db d) _ _ after))

  pub Settles-grant_product :
      (t : String) (product : Product) (v : ℤ) (key request_id : String)
      → Settles (grant_product fixed i t product v key request_id) w
  unfolding grant_product
  Settles-grant_product t product v key request_id = Ends-require fixed i t _ _ _ refl (
      Ends-raise_when _ _ _ refl (λ _. Ends-clock _ (
        Ends-contract _ _ _ refl (λ _. Ends-scope_of _ _ _ _ refl (λ scope.
          Ends-bind (λ _ w'. Follows w.db w'.db) _ _
            (Settles-grant _ _ _ (record w { ticks = w.ticks + 1 }) h scope key _ _
              (Ends-grant_product _ h _ v))
            (λ a w' q.
              Ends-if _ _ _ (Ends-done _ q) (Ends-audited (λ _ d. Follows w.db d) _ _ q)))))))

  pub Settles-grant_model :
      (t model : String) (v : ℤ) (key request_id : String)
      → Settles (grant_model fixed i t model v key request_id) w
  unfolding grant_model
  Settles-grant_model t model v key request_id = Ends-require fixed i t _ _ _ refl (
      Ends-raise_when _ _ _ refl (λ _. Ends-clock _ (
        Ends-contract _ _ _ refl (λ _. Ends-scope_of _ _ _ _ refl (λ scope.
          Ends-bind (λ _ w'. Follows w.db w'.db) _ _
            (Settles-grant _ _ _ (record w { ticks = w.ticks + 1 }) h scope key _ _
              (Ends-grant_model _ h _ v))
            (λ a w' q.
              Ends-if _ _ _ (Ends-done _ q) (Ends-audited (λ _ d. Follows w.db d) _ _ q)))))))
