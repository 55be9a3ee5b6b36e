-- ===== src/ControlPlane/StatusChange.antt =====
-- What `set_tenant_status` has done once it returns.
use uwo_shared_platform.Prelude.{
  String, ◌+◌, ◌≡◌, refl, sym, ap, ◌∙◌, subst, true, false, not, some, arith, inl, inr,
  Option-cases,
}
use uwo_shared_platform.Prelude.Int.{ℤ, ◌==ℤ◌, ==ℤ_iff}
use uwo_shared_platform.Prelude.Keys.{string_eq}
use uwo_shared_platform.Prelude.Dict.{Dict, get, set, get-set_self}
use uwo_shared_platform.Errors.{ok}
use uwo_shared_platform.Env.{Env}
use uwo_shared_platform.Contracts.Domain.{Tenant, TenantStatus, VerifiedSubjectIdentity}
use uwo_shared_platform.DataServices.Outbox
use uwo_shared_platform.DataServices.Outbox.{OutboxRecord}
use uwo_shared_platform.DataServices.Events.{PlatformEvent, event_eq, pending_record}
use uwo_shared_platform.ControlPlane.{Directory}
use uwo_shared_platform.ControlPlane.World.{Db, World}
use uwo_shared_platform.ControlPlane.Ends.{
  Ends, Ending, Ends-bind, Ends-clock, Ends-commit, Ends-construct, Ends-forget, Ends-gets,
  Ends-or_raise, Ends-raise_when, Ends-transaction,
}
use uwo_shared_platform.ControlPlane.Repositories.Tenants
use uwo_shared_platform.ControlPlane.Service.Tenants.{
  set_tenant_status, status_event, with_status, write_status,
}
use uwo_shared_platform.ControlPlane.Versions.{some-inj}
use uwo_shared_platform.ControlPlane.Invariant.{IsCoherent}
use uwo_shared_platform.ControlPlane.Invariant.Rules.{
  Ends-audited, Ends-done, Ends-enqueue, Ends-require_status, Ends-update,
}

-- An outbox holds, under the name of an event's record, a record of that event.
abbrev pub Announces :
    ⦃env : Env⦄ → Dict String (OutboxRecord PlatformEvent) → PlatformEvent → Type 0
Announces o event =
    (r : OutboxRecord PlatformEvent) × (get o (pending_record event).record_id ≡ some r)
    × (r.event ≡ event)

module _ ⦃env : Env⦄ where
  enqueue-Announces :
      (event : PlatformEvent) (o : Dict String (OutboxRecord PlatformEvent))
      {r : OutboxRecord PlatformEvent × Dict String (OutboxRecord PlatformEvent)}
      → Outbox.enqueue env.is_alnum (pending_record event) o ≡ ok r
      → Announces r.1 event
  unfolding Outbox.enqueue
  enqueue-Announces event o {r = r} h =
      elim (Option-cases (get o (pending_record event).record_id)) [
        | inl new ↦ (
          pending_record event,
          ground (
            arith,
            h,
            new,
            get-set_self o (pending_record event).record_id (pending_record event),
          ),
          refl,
        )
        | inr (existing, found) ↦ (
          existing,
          ground (arith, h, found),
          (event_eq.beq_iff existing.event event).0 (ground (arith, h, found)),
        )
      ]

  -- a tenant before and after a change of its status, and the event of the change
  pub record IsChanged (t : String) (status : TenantStatus) (v : ℤ) (request_id : String)
      (before : Db) (r : Tenant) (after : Db) : Type 0 where
    pub old : Tenant
    pub was : get before.tenants t ≡ some old
    pub expected : old.version ≡ v
    pub at : String
    pub result : r ≡ with_status old status at
    pub now : get after.tenants t ≡ some r
    pub announced : Announces after.outbox (status_event old status t request_id at)

  same_version : (a v : ℤ) → not (a ==ℤ v) ≡ false → a ≡ v
  same_version a v h = (==ℤ_iff a v).0 (ground (arith, h))

  write_status-IsChanged :
      (w : World) (h : IsCoherent w.db) (t : String) (status : TenantStatus) (v : ℤ)
      (timestamp request_id : String) (current : Tenant)
      → get w.db.tenants t ≡ some current
      → Ends
          (λ r w'. (w'.committed ≡ true) × IsChanged t status v request_id w.db r w'.db)
          (λ _. Unit)
          (write_status t status v timestamp (status_event current status t request_id timestamp))
          (record w { committed = false })
  unfolding write_status Tenants.store
  write_status-IsChanged w h t status v timestamp request_id current was = Ends-gets _ _ (
      Ends-or_raise _ _ _ tt (λ read found. Ends-construct _ _ _ tt (λ _.
        Ends-update _ _ _ tt (λ stored there fresh.
          let named : read.tenant_id ≡ t = h.named t read found in
          let same : read ≡ current = some-inj (sym found ∙ was) in
          let version : read.version ≡ v =
            subst (λ (x : Tenant). x.version ≡ v)
              (some-inj (sym there ∙ ap (get w.db.tenants) named ∙ found))
              (same_version stored.version v fresh) in
          Ends-enqueue _ _ (λ _. tt)
            (λ r taken. Ends-commit _ (
              Ends-done _ (
                refl,
                record {
                  old = read;
                  was = found;
                  expected = version;
                  at = timestamp;
                  result = refl;
                  now =
                      ap (get (set w.db.tenants read.tenant_id (with_status read status timestamp)))
                        (sym named)
                      ∙ get-set_self w.db.tenants read.tenant_id
                          (with_status read status timestamp);
                  announced =
                      subst (λ x. Announces r.1 (status_event x status t request_id timestamp))
                        (sym same) (enqueue-Announces _ w.db.outbox taken);
                },
              )))))))

  set_tenant_status-Changes :
      (fixed : Directory) (w : World) (h : IsCoherent w.db) (i : VerifiedSubjectIdentity)
      (t : String) (status : TenantStatus) (v : ℤ) (request_id : String)
      → Ends
          (λ r w'. IsChanged t status v request_id w.db r w'.db)
          (λ _. Unit)
          (set_tenant_status fixed i t status v request_id)
          w
  unfolding set_tenant_status
  set_tenant_status-Changes fixed w h i t status v request_id = Ends-gets _ _ (
      Ends-or_raise _ _ _ tt (λ current found. Ends-require_status fixed i t current.status _ tt (
        Ends-raise_when _ _ _ tt (λ _. Ends-clock _ (
          Ends-construct _ _ _ tt (λ _.
            Ends-bind (λ r w'. IsChanged t status v request_id w.db r w'.db) _ _
              (Ends-forget _ _ (
                Ends-transaction (IsChanged t status v request_id w.db) _ (
                  write_status-IsChanged (record w { ticks = w.ticks + 1 }) h t status v _
                    request_id current found)))
              (λ a w' q. Ends-audited (IsChanged t status v request_id w.db) _ _ q)))))))

  -- Where `set_tenant_status` on coherent repositories returns a tenant, the tenant was stored under
  -- the version that was asked for; it is stored as it was but with the new status, the next version
  -- and a new time; and the outbox holds a record of the event of the change, in the region of the
  -- tenant.
  pub set_tenant_status-IsChanged :
      (fixed : Directory) (w : World) (i : VerifiedSubjectIdentity) (t : String)
      (status : TenantStatus) (v : ℤ) (request_id : String) {r : Tenant} {w' : World}
      → IsCoherent w.db
      → set_tenant_status fixed i t status v request_id w ≡ (ok r, w')
      → IsChanged t status v request_id w.db r w'.db
  set_tenant_status-IsChanged fixed w i t status v request_id h returned =
      subst (Ending (λ r w'. IsChanged t status v request_id w.db r w'.db) (λ _. Unit)) returned
        (set_tenant_status-Changes fixed w h i t status v request_id).holds
