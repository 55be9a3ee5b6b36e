-- ===== src/ControlPlane/Invariant/Tenants.antt =====
-- How the operations on tenants end.
use uwo_shared_platform.Prelude.{
  String, ◌+◌, ◌≡◌, refl, sym, subst, true, false, Option, none, some, [],
}
use uwo_shared_platform.Prelude.Int.{ℤ, pos}
use uwo_shared_platform.Prelude.Keys.{string_eq, pair_eq}
use uwo_shared_platform.Prelude.Dict.{get, set, not_contained}
use uwo_shared_platform.Errors.{Result, ok, err}
use uwo_shared_platform.Env.{Env}
use uwo_shared_platform.Contracts.Domain.{Tenant, TenantStatus, VerifiedSubjectIdentity}
use uwo_shared_platform.DataServices.Events.{PlatformEvent, event_eq}
use uwo_shared_platform.ControlPlane.{Directory}
use uwo_shared_platform.ControlPlane.World.{
  ControlPlaneAuditEvent, Db, IdempotencyRecord, PolicyDocument, World,
}
use uwo_shared_platform.ControlPlane.Action.{Act, emit, ◌>>=◌}
use uwo_shared_platform.ControlPlane.Ends.{
  Ends, Ending, Ends-assoc, Ends-bind, Ends-clock, Ends-commit, Ends-construct, Ends-contract,
  Ends-gets, Ends-or_raise, Ends-raise_when, Ends-return, Ends-transaction, Ends-trigger,
  Ends-write,
}
use uwo_shared_platform.ControlPlane.Repositories.Tenants
use uwo_shared_platform.ControlPlane.Repositories.Policies
use uwo_shared_platform.ControlPlane.Repositories.Entitlements
use uwo_shared_platform.ControlPlane.Service.Tenants.{
  create_tenant, on_failure, provision, report, set_tenant_status, write_status,
}
use uwo_shared_platform.ControlPlane.Invariant.{Follows, Follows-refl, IsCoherent}
use uwo_shared_platform.ControlPlane.Invariant.Rules.{
  Ends-audited, Ends-done, Ends-enqueue, Ends-if, Ends-platform_only, Ends-put, Ends-replay,
  Ends-require_status, Ends-scope_of, Ends-update, Settles,
}
use uwo_shared_platform.ControlPlane.Invariant.Writes.{
  Follows-idempotency, Follows-outbox, Follows-tenant, Follows-trans,
}
use uwo_shared_platform.ControlPlane.Invariant.Aggregates.{Follows-provision}

module _ ⦃env : Env⦄ where
  Ends-write_status :
      (w : World) (h : IsCoherent w.db) (t : String) (status : TenantStatus) (v : ℤ)
      (timestamp : String) (event : PlatformEvent)
      → Ends
          (λ _ w'. (w'.committed ≡ true) × Follows w.db w'.db)
          (λ _. Unit)
          (write_status t status v timestamp event)
          (record w { committed = false })
  unfolding write_status
  Ends-write_status w h t status v timestamp event = Ends-gets _ _ (
      Ends-or_raise _ _ _ tt (λ current found. Ends-construct _ _ _ tt (λ _.
        Ends-update _ _ _ tt (λ _ _ _.
          Ends-enqueue _ _ (λ _. tt)
            (λ r _. Ends-commit _ (
              Ends-done _ (
                refl,
                Follows-trans w.db _ _ (Follows-tenant w.db h current _ (stored current found) refl)
                    (λ coherent. Follows-outbox _ coherent r.1),
              )))))))
    where
      stored :
          (current : Tenant)
          → get w.db.tenants t ≡ some current
          → get w.db.tenants current.tenant_id ≡ some current
      stored current found =
          subst (λ id. get w.db.tenants id ≡ some current) (sym (h.named t current found)) found

  pub Settles-set_tenant_status :
      (w : World) (h : IsCoherent w.db) (fixed : Directory) (i : VerifiedSubjectIdentity)
      (t : String) (status : TenantStatus) (v : ℤ) (request_id : String)
      → Settles (set_tenant_status fixed i t status v request_id) w
  unfolding set_tenant_status
  Settles-set_tenant_status w h fixed i t status v request_id = Ends-gets _ _ (
      Ends-or_raise _ _ _ refl (λ current found.
        Ends-require_status fixed i t current.status _ refl (
          Ends-raise_when _ _ _ refl (λ _. Ends-clock _ (
            Ends-construct _ _ _ refl (λ _.
              Ends-bind (λ _ w'. Follows w.db w'.db) _ _
                (Ends-transaction (λ _ d. Follows w.db d) _
                  (Ends-write_status (record w { ticks = w.ticks + 1 }) h _ _ _ _ _))
                (λ a w' q. Ends-audited (λ _ d. Follows w.db d) _ _ q)))))))

  module _ {A : Type 0} where
    reported :
        (P : A → World → Type 0) (E : Db → Type 0) (event : ControlPlaneAuditEvent)
        (r : Result A × World)
        → Ending P E r
        → Ending P E (report event r.0 r.1)
    unfolding emit
    reported P E event (ok a, w) h = h
    reported P E event (err e, w) h = h

    pub Ends-on_failure :
        {P : A → World → Type 0} {E : Db → Type 0} (event : ControlPlaneAuditEvent) (m : Act A)
        {w : World}
        → Ends P E m w
        → Ends P E (on_failure event m) w
    unfolding on_failure
    Ends-on_failure {P = P} {E = E} event m {w = w} h = record {
      holds = reported P E event (m w) h.holds;
    }

  module _ {B : Type 0} {P : B → World → Type 0} {E : Db → Type 0} {w : World} where
    pub Ends-create :
        (t : Tenant) (f : Tenant → Act B)
        → ((d : Db) → E d)
        → (get w.db.tenants t.tenant_id ≡ none
            → Ends P E (f t) (record w { db = Tenants.store t w.db }))
        → Ends P E (Tenants.create t >>= f) w
    unfolding Tenants.create
    Ends-create t f e k = Ends-assoc _ _ _ (
        Ends-gets _ _ (
          Ends-assoc _ _ _ (
            Ends-raise_when _ _ _ (e _) (λ fresh. Ends-assoc _ _ _ (
              Ends-write _ _ (
                Ends-assoc _ _ _ (
                  Ends-trigger _ _ (e _)
                    (Ends-return _ _ (k (not_contained w.db.tenants _ fresh))))))))))

    pub Ends-create_initial :
        (p : PolicyDocument) (f : PolicyDocument → Act B)
        → ((d : Db) → E d)
        → (get w.db.policies p.tenant_id ≡ none
            → Ends P E (f p) (record w { db = Policies.store p w.db }))
        → Ends P E (Policies.create_initial p >>= f) w
    unfolding Policies.create_initial
    Ends-create_initial p f e k = Ends-assoc _ _ _ (
        Ends-gets _ _ (
          Ends-assoc _ _ _ (
            Ends-raise_when _ _ _ (e _) (λ fresh. Ends-assoc _ _ _ (
              Ends-write _ _ (
                Ends-assoc _ _ _ (
                  Ends-trigger _ _ (e _)
                    (Ends-return _ _ (k (not_contained w.db.policies _ fresh))))))))))

    pub Ends-initialize :
        (t : String) (f : Unit {0} → Act B)
        → ((d : Db) → E d)
        → (get w.db.entitlements.versions t ≡ none
            → Ends P E (f tt) (record w {
              db = record w.db {
                entitlements = record {
                  products = set w.db.entitlements.products t [];
                  models = set w.db.entitlements.models t [];
                  versions = set w.db.entitlements.versions t (pos 1);
                };
              };
            }))
        → Ends P E (Entitlements.initialize t >>= f) w
    unfolding Entitlements.initialize
    Ends-initialize t f e k = Ends-assoc _ _ _ (
        Ends-gets _ _ (
          Ends-assoc _ _ _ (
            Ends-raise_when _ _ _ (e _) (λ fresh. Ends-assoc _ _ _ (
              Ends-write _ _
                (Ends-trigger _ _ (e _) (k (not_contained w.db.entitlements.versions _ fresh))))))))

  Ends-provision :
      (w : World) (h : IsCoherent w.db) (t : Tenant) (p : PolicyDocument) (r : IdempotencyRecord)
      → p.tenant_id ≡ t.tenant_id
      → (existing : Option IdempotencyRecord)
      → Ends
          (λ _ w'. (w'.committed ≡ true) × Follows w.db w'.db)
          (λ _. Unit)
          (provision t p r existing)
          (record w { committed = false })
  unfolding provision Tenants.store Policies.store
  Ends-provision w h t p r same (some existing) =
      Ends-replay _ _ _ _ tt (λ a _ _. Ends-commit _ (Ends-done _ (refl, Follows-refl w.db h)))
  Ends-provision w h t p r same none =
      Ends-create _ _ (λ _. tt)
        (λ no_tenant.
          Ends-initialize _ _ (λ _. tt)
            (λ no_version.
              Ends-create_initial _ _ (λ _. tt)
                (λ no_policy. Ends-construct _ _ _ tt (λ _. Ends-construct _ _ _ tt (λ _.
                  Ends-put _ _ (λ _. tt)
                    (λ fresh. Ends-commit _ (
                      Ends-done _ (
                        refl,
                        Follows-trans w.db _ _
                            (Follows-provision w.db h t p same no_tenant no_version no_policy)
                            (λ coherent. Follows-idempotency _ coherent _ fresh),
                      ))))))))

  pub Settles-create_tenant :
      (w : World) (h : IsCoherent w.db) (fixed : Directory) (i : VerifiedSubjectIdentity)
      (t name region key request_id : String)
      → Settles (create_tenant fixed i t name region key request_id) w
  unfolding create_tenant
  Settles-create_tenant w h fixed i t name region key request_id =
      Ends-platform_only fixed i _ refl (
        Ends-raise_when _ _ _ refl (λ _. Ends-clock _ (
          Ends-contract _ _ _ refl (λ _. Ends-contract _ _ _ refl (λ _.
            Ends-scope_of _ _ _ _ refl (λ scope.
              Ends-bind (λ _ w'. Follows w.db w'.db) _ _
                (Ends-on_failure _ _ (
                  Ends-transaction (λ _ d. Follows w.db d) _
                    (Ends-gets _ _
                      (Ends-provision (record w { ticks = w.ticks + 1 }) h _ _ _ refl _))))
                (λ a w' q.
                  Ends-if _ _ _ (Ends-done _ q) (Ends-audited (λ _ d. Follows w.db d) _ _ q))))))))
