-- ===== src/ControlPlane/Invariant/Rules.antt =====
-- Rules for the calls that the operations of the control plane share.
use uwo_shared_platform.Prelude.{
  String, ◌≡◌, refl, Bool, true, false, not, if◌then◌else◌, Option, none, some, arith,
}
use uwo_shared_platform.Prelude.Int.{ℤ, ◌==ℤ◌}
use uwo_shared_platform.Prelude.Keys.{string_eq, pair_eq, ◌==◌}
use uwo_shared_platform.Prelude.Dict.{Dict, get, not_contained}
use uwo_shared_platform.Env.{Env}
use uwo_shared_platform.Contracts.Domain.{Tenant, TenantStatus, VerifiedSubjectIdentity}
use uwo_shared_platform.Errors.{ok}
use uwo_shared_platform.DataServices.Outbox
use uwo_shared_platform.DataServices.Outbox.{OutboxRecord}
use uwo_shared_platform.DataServices.Events.{pending_record, PlatformEvent, event_eq}
use uwo_shared_platform.ControlPlane.{Directory}
use uwo_shared_platform.ControlPlane.Authorization.{Permission}
use uwo_shared_platform.ControlPlane.World.{
  ControlPlaneAuditEvent, Db, IdempotencyRecord, IdempotencyResult, IdempotencyScope, World,
  record_key,
}
use uwo_shared_platform.ControlPlane.Action.{Act, return, emit, ◌>>=◌}
use uwo_shared_platform.ControlPlane.Ends.{
  Ends, Ends-assoc, Ends-construct, Ends-gets, Ends-lift, Ends-or_raise, Ends-raise_when,
  Ends-reads, Ends-return, Ends-trigger, Ends-write,
}
use uwo_shared_platform.ControlPlane.Repositories.Tenants
use uwo_shared_platform.ControlPlane.Repositories.Idempotency
use uwo_shared_platform.ControlPlane.Service.Common.{
  of_class, platform_only, replay, require, scope_of,
}
use uwo_shared_platform.ControlPlane.Service.Tenants.{enqueue, require_status}
use uwo_shared_platform.ControlPlane.Invariant.{Follows}

-- A call that returns leaves repositories that follow those before it, and one that raises leaves
-- them as they were.
abbrev pub Settles : {A : Type 0} → Act A → World → Type 0
Settles m w = Ends (λ _ w'. Follows w.db w'.db) (λ d. d ≡ w.db) m w

pub Ends-done :
    {A : Type 0} {P : A → World → Type 0} {E : Db → Type 0} (a : A) {w : World}
    → P a w
    → Ends P E (return a) w
Ends-done a p = record { holds = p }

module _ {B : Type 0} {P : B → World → Type 0} {E : Db → Type 0} {w : World} where
  pub Ends-update :
      (t : Tenant) (v : ℤ) (f : Tenant → Act B)
      → E w.db
      → ((current : Tenant)
          → get w.db.tenants t.tenant_id ≡ some current
          → not (current.version ==ℤ v) ≡ false
          → Ends P E (f t) (record w { db = Tenants.store t w.db }))
      → Ends P E (Tenants.update t v >>= f) w
  unfolding Tenants.update
  Ends-update t v f e k = Ends-assoc _ _ _ (
      Ends-gets _ _ (
        Ends-assoc _ _ _ (
          Ends-or_raise _ _ _ e (λ current found. Ends-assoc _ _ _ (
            Ends-raise_when _ _ _ e (λ fresh.
              Ends-assoc _ _ _ (Ends-write _ _ (Ends-return _ _ (k current found fresh)))))))))

  module _ (fixed : Directory) where
    pub Ends-require :
        (i : VerifiedSubjectIdentity) (t : String) (p : Permission) (b : Bool)
        (f : Unit {0} → Act B)
        → E w.db
        → Ends P E (f tt) w
        → Ends P E (require fixed i t p b >>= f) w
    unfolding require
    Ends-require i t p b f e h = Ends-reads _ _ e (λ _ _. h)

    pub Ends-platform_only :
        (i : VerifiedSubjectIdentity) (f : Unit {0} → Act B)
        → E w.db
        → Ends P E (f tt) w
        → Ends P E (platform_only fixed i >>= f) w
    unfolding platform_only
    Ends-platform_only i f e h = Ends-reads _ _ e (λ _ _. h)

    pub Ends-require_status :
        ⦃env : Env⦄ (i : VerifiedSubjectIdentity) (t : String) (status : TenantStatus)
        (f : Unit {0} → Act B)
        → E w.db
        → Ends P E (f tt) w
        → Ends P E (require_status fixed i t status >>= f) w
    Ends-require_status i t TenantStatus.active f e h = Ends-require i t _ _ f e h
    Ends-require_status i t TenantStatus.suspended f e h = Ends-platform_only i f e h

  module _ ⦃env : Env⦄ where
    pub Ends-enqueue :
        (event : PlatformEvent) (f : Unit {0} → Act B)
        → ((d : Db) → E d)
        → ((r : OutboxRecord PlatformEvent × Dict String (OutboxRecord PlatformEvent))
            → Outbox.enqueue env.is_alnum (pending_record event) w.db.outbox ≡ ok r
            → Ends P E (f tt) (record w { db = record w.db { outbox = r.1 } }))
        → Ends P E (enqueue event >>= f) w
    unfolding enqueue
    Ends-enqueue event f e k = Ends-assoc _ _ _ (
        Ends-construct _ _ _ (e _) (λ _. Ends-assoc _ _ _ (
          Ends-gets _ _
            (Ends-assoc _ _ _ (Ends-lift _ _ (e _) (λ r taken. Ends-write _ _ (k r taken)))))))

module _ {A B : Type 0} {P : B → World → Type 0} {E : Db → Type 0} {w : World} where
  Ends-of_class :
      (o : Option A) (f : A → Act B)
      → E w.db
      → ((a : A) → o ≡ some a → Ends P E (f a) w)
      → Ends P E (of_class o >>= f) w
  unfolding ◌>>=◌
  Ends-of_class none f e k = record { holds = e }
  Ends-of_class (some a) f e k = record { holds = (k a refl).holds }

  pub Ends-replay :
      (r : IdempotencyRecord) (request_fingerprint : String)
      (as_class : IdempotencyResult → Option A) (f : A → Act B)
      → E w.db
      → ((a : A)
          → (r.request_fingerprint == request_fingerprint) ≡ true
          → as_class r.original_result ≡ some a
          → Ends P E (f a) w)
      → Ends P E (replay r request_fingerprint as_class >>= f) w
  unfolding replay
  Ends-replay r request_fingerprint as_class f e k = Ends-assoc _ _ _ (
      Ends-raise_when _ _ _ e (λ same.
        Ends-of_class (as_class r.original_result) _ e
          (λ a found. k a (of_not (r.request_fingerprint == request_fingerprint) same) found)))
    where
      of_not : (b : Bool) → not b ≡ false → b ≡ true
      of_not b h = ground arith

module _ {A : Type 0} {P : A → World → Type 0} {E : Db → Type 0} {w : World} where
  pub Ends-if :
      (b : Bool) (m k : Act A) → Ends P E m w → Ends P E k w → Ends P E (if b then m else k) w
  Ends-if true m k dm dk = dm
  Ends-if false m k dm dk = dk

module _ {B : Type 0} {P : B → World → Type 0} {E : Db → Type 0} {w : World} where
  pub Ends-scope_of :
      (operation t : String) (i : VerifiedSubjectIdentity) (f : IdempotencyScope → Act B)
      → E w.db
      → ((scope : IdempotencyScope) → Ends P E (f scope) w)
      → Ends P E (scope_of operation t i >>= f) w
  unfolding scope_of
  Ends-scope_of operation t i f e k = Ends-construct _ _ _ e (λ _. k _)

  pub Ends-put :
      (r : IdempotencyRecord) (f : IdempotencyRecord → Act B)
      → ((d : Db) → E d)
      → (get w.db.idempotency (record_key r.scope r.key) ≡ none
          → Ends P E (f r) (record w { db = Idempotency.store r w.db }))
      → Ends P E (Idempotency.put r >>= f) w
  unfolding Idempotency.put
  Ends-put r f e k = Ends-assoc _ _ _ (
      Ends-gets _ _ (
        Ends-assoc _ _ _ (
          Ends-raise_when _ _ _ (e _) (λ fresh. Ends-assoc _ _ _ (
            Ends-write _ _ (
              Ends-assoc _ _ _ (
                Ends-trigger _ _ (e _)
                  (Ends-return _ _ (k (not_contained w.db.idempotency _ fresh))))))))))

module _ ⦃env : Env⦄ {A : Type 0} (P : A → Db → Type 0) {E : Db → Type 0} where
  -- the audit event is written last, and the repositories stay
  pub Ends-audited :
      (event : ControlPlaneAuditEvent) (a : A) {w : World}
      → P a w.db
      → Ends (λ a v. P a v.db) E (emit event >>= λ _. return a) w
  unfolding ◌>>=◌ emit
  Ends-audited event a p = record { holds = p }
