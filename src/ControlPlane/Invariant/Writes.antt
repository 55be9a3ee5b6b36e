-- ===== src/ControlPlane/Invariant/Writes.antt =====
-- The single writes of the repositories: each leaves them coherent and lets no version go back.
use uwo_shared_platform.Prelude.{String, ◌≡◌, sym, ◌∙◌, subst, true, none, some, inl, inr}
use uwo_shared_platform.Prelude.Int.{pos, ◌+ℤ◌}
use uwo_shared_platform.Prelude.Keys.{string_eq, pair_eq}
use uwo_shared_platform.Prelude.Dict.{
  Dict, get, set, contains, contains-set_old, contains-some, get-set_cases,
}
use uwo_shared_platform.Contracts.Domain.{Tenant, TenantMembership}
use uwo_shared_platform.DataServices.Outbox.{OutboxRecord}
use uwo_shared_platform.DataServices.Events.{PlatformEvent}
use uwo_shared_platform.ControlPlane.World.{Db, IdempotencyRecord, record_key}
use uwo_shared_platform.ControlPlane.Versions.{
  Versioned, Versioned-new, Versioned-refl, Versioned-set, some-inj,
}
use uwo_shared_platform.ControlPlane.Repositories.Tenants
use uwo_shared_platform.ControlPlane.Repositories.Memberships
use uwo_shared_platform.ControlPlane.Repositories.Idempotency
use uwo_shared_platform.ControlPlane.Invariant.{Follows, IsCoherent, Grows-trans}

pub Follows-trans : (a b c : Db) → Follows a b → (IsCoherent b → Follows b c) → Follows a c
Follows-trans a b c ab next =
    let bc = next ab.coherent in
    record { coherent = bc.coherent; grows = Grows-trans a b c ab.grows bc.grows }

module _ (db : Db) (h : IsCoherent db) where
  pub Follows-outbox :
      (o : Dict String (OutboxRecord PlatformEvent)) → Follows db (record db { outbox = o })
  Follows-outbox o = record {
    coherent = record {
      named = h.named;
      seated = h.seated;
      entitled = h.entitled;
      governed = h.governed;
      has_products = h.has_products;
      has_models = h.has_models;
    };
    grows = record {
      tenants = Versioned-refl _ _;
      memberships = Versioned-refl _ _;
      entitlements = Versioned-refl _ _;
      policies = Versioned-refl _ _;
      idempotency = Versioned-refl _ _;
    };
  }

  pub Follows-tenant :
      (old new : Tenant)
      → get db.tenants new.tenant_id ≡ some old
      → new.version ≡ old.version +ℤ pos 1
      → Follows db (Tenants.store new db)
  unfolding Tenants.store
  Follows-tenant old new found next =
      let there = contains-some db.tenants new.tenant_id found in
      let back : (t : String)
          → contains (set db.tenants new.tenant_id new) t ≡ true
          → contains db.tenants t ≡ true =
        λ t w. contains-set_old db.tenants new.tenant_id t new there w in
      record {
        coherent = record {
          named = λ t x w. elim (get-set_cases db.tenants new.tenant_id t new) [
            | inl (same, written) ↦
                subst (λ (y : Tenant). y.tenant_id ≡ t) (some-inj (sym written ∙ w)) same
            | inr kept ↦ h.named t x (sym kept ∙ w)
          ];
          seated = h.seated;
          entitled = λ t w. h.entitled t (back t w);
          governed = λ t w. h.governed t (back t w);
          has_products = h.has_products;
          has_models = h.has_models;
        };
        grows = record {
          tenants = Versioned-set _ db.tenants new.tenant_id old new found next;
          memberships = Versioned-refl _ _;
          entitlements = Versioned-refl _ _;
          policies = Versioned-refl _ _;
          idempotency = Versioned-refl _ _;
        };
      }

  seat :
      (new : TenantMembership)
      → Versioned
          (λ (x : TenantMembership). x.version)
          (get db.memberships)
          (get (set db.memberships (new.tenant_id, new.subject) new))
      → Follows db (record db { memberships = set db.memberships (new.tenant_id, new.subject) new })
  seat new v = record {
    coherent = record {
      named = h.named;
      seated = λ k m w. elim (get-set_cases db.memberships (new.tenant_id, new.subject) k new) [
        | inl (same, written) ↦
            subst (λ (y : TenantMembership). (y.tenant_id, y.subject) ≡ k)
              (some-inj (sym written ∙ w)) same
        | inr kept ↦ h.seated k m (sym kept ∙ w)
      ];
      entitled = h.entitled;
      governed = h.governed;
      has_products = h.has_products;
      has_models = h.has_models;
    };
    grows = record {
      tenants = Versioned-refl _ _;
      memberships = v;
      entitlements = Versioned-refl _ _;
      policies = Versioned-refl _ _;
      idempotency = Versioned-refl _ _;
    };
  }

  pub Follows-membership :
      (old new : TenantMembership)
      → get db.memberships (new.tenant_id, new.subject) ≡ some old
      → new.version ≡ old.version +ℤ pos 1
      → Follows db (Memberships.store new db)
  unfolding Memberships.store
  Follows-membership old new found next =
      seat new (Versioned-set _ db.memberships _ old new found next)

  pub Follows-new_membership :
      (new : TenantMembership)
      → get db.memberships (new.tenant_id, new.subject) ≡ none
      → Follows db (Memberships.store new db)
  unfolding Memberships.store
  Follows-new_membership new fresh = seat new (Versioned-new _ db.memberships _ new fresh)

  pub Follows-idempotency :
      (r : IdempotencyRecord)
      → get db.idempotency (record_key r.scope r.key) ≡ none
      → Follows db (Idempotency.store r db)
  unfolding Idempotency.store
  Follows-idempotency r fresh = record {
    coherent = record {
      named = h.named;
      seated = h.seated;
      entitled = h.entitled;
      governed = h.governed;
      has_products = h.has_products;
      has_models = h.has_models;
    };
    grows = record {
      tenants = Versioned-refl _ _;
      memberships = Versioned-refl _ _;
      entitlements = Versioned-refl _ _;
      policies = Versioned-refl _ _;
      idempotency = Versioned-new _ db.idempotency _ r fresh;
    };
  }
