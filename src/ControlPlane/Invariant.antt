-- ===== src/ControlPlane/Invariant.antt =====
-- What every call of `PlatformControlPlane` keeps of the repositories, and how they may change.
pub mod Writes
pub mod Aggregates
pub mod Rules
pub mod Tenants
pub mod Members
pub mod Entitlements
pub mod Calls
use uwo_shared_platform.Prelude.{String, ◌≡◌, refl, true, Option, none, some, is_some}
use uwo_shared_platform.Prelude.Int.{ℤ, pos}
use uwo_shared_platform.Prelude.Keys.{string_eq, pair_eq}
use uwo_shared_platform.Prelude.Dict.{Dict, get, contains}
use uwo_shared_platform.Contracts.Domain.{Product, Tenant, TenantMembership}
use uwo_shared_platform.ControlPlane.Entitlements.{ModelEntitlement, ProductEntitlement}
use uwo_shared_platform.ControlPlane.World.{
  Db, EntitlementStore, IdempotencyKey, IdempotencyRecord, PolicyDocument,
}
use uwo_shared_platform.ControlPlane.Versions.{Versioned, Versioned-refl, Versioned-trans}

-- the version of a tenant's entitlements, and the entitlements
abbrev pub Aggregate : Type 0
Aggregate = ℤ × (Option (Dict Product ProductEntitlement) × Option (Dict String ModelEntitlement))

abbrev pub aggregate : Option ℤ → EntitlementStore → String → Option Aggregate
aggregate none s t = none
aggregate (some v) s t = some (v, (get s.products t, get s.models t))

abbrev pub aggregate_of : EntitlementStore → String → Option Aggregate
aggregate_of s t = aggregate (get s.versions t) s t

-- A tenant is stored under its identifier and a membership under its tenant and subject. A tenant was provisioned whole: with its entitlements and
-- its policy. A versioned set of entitlements has its two tables.
pub record IsCoherent (db : Db) : Type 0 where
  pub named : (t : String) (x : Tenant) → get db.tenants t ≡ some x → x.tenant_id ≡ t
  pub seated :
      (k : String × String) (m : TenantMembership)
      → get db.memberships k ≡ some m
      → (m.tenant_id, m.subject) ≡ k
  pub entitled :
      (t : String) → contains db.tenants t ≡ true → contains db.entitlements.versions t ≡ true
  pub governed : (t : String) → contains db.tenants t ≡ true → contains db.policies t ≡ true
  pub has_products :
      (t : String)
      → contains db.entitlements.versions t ≡ true
      → contains db.entitlements.products t ≡ true
  pub has_models :
      (t : String)
      → contains db.entitlements.versions t ≡ true
      → contains db.entitlements.models t ≡ true

-- From one content of the repositories to a later one: tenants, memberships and entitlements keep
-- their content for as long as they keep their version, and no version goes back; policies and
-- idempotency records stay.
pub record Grows (before after : Db) : Type 0 where
  pub tenants : Versioned (λ (x : Tenant). x.version) (get before.tenants) (get after.tenants)
  pub memberships :
      Versioned
        (λ (x : TenantMembership). x.version)
        (get before.memberships)
        (get after.memberships)
  pub entitlements :
      Versioned
        (λ (x : Aggregate). x.0)
        (aggregate_of before.entitlements)
        (aggregate_of after.entitlements)
  pub policies :
      Versioned (λ (x : PolicyDocument). pos 0) (get before.policies) (get after.policies)
  pub idempotency :
      Versioned (λ (x : IdempotencyRecord). pos 0) (get before.idempotency) (get after.idempotency)

pub Grows-refl : (db : Db) → Grows db db
Grows-refl db = record {
  tenants = Versioned-refl _ _;
  memberships = Versioned-refl _ _;
  entitlements = Versioned-refl _ _;
  policies = Versioned-refl _ _;
  idempotency = Versioned-refl _ _;
}

pub Grows-trans : (a b c : Db) → Grows a b → Grows b c → Grows a c
Grows-trans a b c ab bc = record {
  tenants = Versioned-trans _ _ _ _ ab.tenants bc.tenants;
  memberships = Versioned-trans _ _ _ _ ab.memberships bc.memberships;
  entitlements = Versioned-trans _ _ _ _ ab.entitlements bc.entitlements;
  policies = Versioned-trans _ _ _ _ ab.policies bc.policies;
  idempotency = Versioned-trans _ _ _ _ ab.idempotency bc.idempotency;
}

-- the repositories a call may leave, from those it started with
pub record Follows (before after : Db) : Type 0 where
  pub coherent : IsCoherent after
  pub grows : Grows before after

pub Follows-refl : (db : Db) → IsCoherent db → Follows db db
Follows-refl db h = record { coherent = h; grows = Grows-refl db }
