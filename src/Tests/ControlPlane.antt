-- ===== src/Tests/ControlPlane.antt =====
-- The theorems on the control plane at its inputs: a new tenant is provisioned, and entitled.
use uwo_shared_platform.Prelude.{
  String, ◌≡◌, refl, ap, subst, Bool, true, false, none, some, List, [], ◌∷◌, arith,
}
use uwo_shared_platform.Prelude.Int.{ℤ, pos, ◌+ℤ◌}
use uwo_shared_platform.Prelude.Dict.{Dict, get, set}
use uwo_shared_platform.Errors.{Result, ok, err, repository_integrity}
use uwo_shared_platform.Contracts.Domain.{Product, Tenant, TenantStatus, VerifiedSubjectIdentity}
use uwo_shared_platform.Env.{is_utc}
use uwo_shared_platform.ControlPlane.Service.Tenants.{
  create_tenant, new_tenant, result_of, set_tenant_status, with_status,
}
use uwo_shared_platform.Contracts.Text.{is_identifier}
use uwo_shared_platform.ControlPlane.Checks.{product_entitlement_valid}
use uwo_shared_platform.ControlPlane.Ends.{Ending}
use uwo_shared_platform.ControlPlane.Entitlements.{ProductEntitlement}
use uwo_shared_platform.ControlPlane.Invariant.Tenants.{Settles-create_tenant}
use uwo_shared_platform.ControlPlane.Repositories.Items.{granted, revoked}
use uwo_shared_platform.ControlPlane.RoundTrip.{revoked-granted}
use uwo_shared_platform.ControlPlane.StatusChange.{IsChanged, set_tenant_status-IsChanged}
use uwo_shared_platform.ControlPlane.Replay.{create_tenant-again}
use uwo_shared_platform.ControlPlane.World.{CreateResult, Db, FailurePoint, World, product_eq}
use uwo_shared_platform.ControlPlane.Service.Call.{Call, perform, perform_all}
use uwo_shared_platform.ControlPlane.Invariant.{Follows, Grows, IsCoherent}
use uwo_shared_platform.ControlPlane.Invariant.Calls.{
  perform_all-Grows, perform_all-IsCoherent, perform_atomic,
}
use uwo_shared_platform.Tests.World.{admin, directory, test_env}

abbrev nothing : Db
nothing = record {
  tenants = [];
  memberships = [];
  entitlements = record { products = []; models = []; versions = [] };
  policies = [];
  idempotency = [];
  outbox = [];
}

abbrev fresh : World
fresh = record { db = nothing; failing = none; committed = false; ticks = 0; audit = [] }

-- the last write of the provisioning fails
abbrev failing_last : World
failing_last = record fresh { failing = some FailurePoint.idempotency_persistence }

nothing-IsCoherent : IsCoherent nothing
unfolding get
nothing-IsCoherent = record {
  named = λ t x h. absurd cc;
  seated = λ k m h. absurd cc;
  entitled = λ t h. absurd cc;
  governed = λ t h. absurd cc;
  has_products = λ t h. absurd cc;
  has_models = λ t h. absurd cc;
}

abbrev provisioning : Call
provisioning = Call.create_tenant "t9" "Ninth" "eu" "key" "r1"

provisioning_fails :
    (perform ⦃env = test_env⦄ directory admin provisioning failing_last).0
    ≡ err repository_integrity
unfolding uwo_shared_platform.ControlPlane.Service.Call.perform
    uwo_shared_platform.ControlPlane.Action.◌>>=◌ uwo_shared_platform.ControlPlane.Action.trigger
    uwo_shared_platform.ControlPlane.Action.transaction uwo_shared_platform.ControlPlane.Action.emit
    uwo_shared_platform.ControlPlane.Service.Tenants.create_tenant
    uwo_shared_platform.ControlPlane.Service.Tenants.provision
    uwo_shared_platform.ControlPlane.Service.Tenants.on_failure
    uwo_shared_platform.ControlPlane.Service.Common.platform_only
    uwo_shared_platform.ControlPlane.Service.Common.scope_of
    uwo_shared_platform.ControlPlane.Authorization.require_platform_admin
    uwo_shared_platform.Contracts.Text.is_key uwo_shared_platform.Contracts.Text.is_text
    uwo_shared_platform.Contracts.Text.is_identifier uwo_shared_platform.Env.is_utc
    uwo_shared_platform.ControlPlane.Checks.tenant_valid
    uwo_shared_platform.ControlPlane.Checks.policy_valid
    uwo_shared_platform.ControlPlane.Repositories.Tenants.create
    uwo_shared_platform.ControlPlane.Repositories.Tenants.store
    uwo_shared_platform.ControlPlane.Repositories.Entitlements.initialize
    uwo_shared_platform.ControlPlane.Repositories.Policies.create_initial
    uwo_shared_platform.ControlPlane.Repositories.Policies.store
    uwo_shared_platform.ControlPlane.Repositories.Idempotency.put
    uwo_shared_platform.ControlPlane.Repositories.Idempotency.store
    uwo_shared_platform.Prelude.Dict.get uwo_shared_platform.Prelude.Dict.set
provisioning_fails = refl

perform_atomic_example :
    (perform ⦃env = test_env⦄ directory admin provisioning failing_last).1.db ≡ nothing
perform_atomic_example =
    perform_atomic ⦃env = test_env⦄ directory failing_last admin provisioning nothing-IsCoherent
      provisioning_fails

abbrev calls : List (VerifiedSubjectIdentity × Call)
calls =
    (admin, provisioning)
    ∷ (admin, Call.grant_product "t9" Product.aisa (pos 1) "key2" "r2")
    ∷ (admin, Call.set_tenant_status "t9" TenantStatus.suspended (pos 1) "r3")
    ∷ []

perform_all-Grows_example : Grows nothing (perform_all ⦃env = test_env⦄ directory calls fresh).db
perform_all-Grows_example =
    perform_all-Grows ⦃env = test_env⦄ directory calls fresh nothing-IsCoherent

perform_all-IsCoherent_example : IsCoherent (perform_all ⦃env = test_env⦄ directory calls fresh).db
perform_all-IsCoherent_example =
    perform_all-IsCoherent ⦃env = test_env⦄ directory calls fresh nothing-IsCoherent

abbrev provision : World → Result CreateResult × World
provision = create_tenant ⦃env = test_env⦄ directory admin "t9" "Ninth" "eu" "key" "r1"

abbrev ninth : CreateResult
ninth = result_of (new_tenant "t9" "Ninth" "eu" "TT") true

provisions : (provision fresh).0 ≡ ok ninth
unfolding uwo_shared_platform.ControlPlane.Service.Call.perform
    uwo_shared_platform.ControlPlane.Action.◌>>=◌ uwo_shared_platform.ControlPlane.Action.trigger
    uwo_shared_platform.ControlPlane.Action.transaction uwo_shared_platform.ControlPlane.Action.emit
    uwo_shared_platform.ControlPlane.Service.Tenants.create_tenant
    uwo_shared_platform.ControlPlane.Service.Tenants.provision
    uwo_shared_platform.ControlPlane.Service.Tenants.on_failure
    uwo_shared_platform.ControlPlane.Service.Common.platform_only
    uwo_shared_platform.ControlPlane.Service.Common.scope_of
    uwo_shared_platform.ControlPlane.Authorization.require_platform_admin
    uwo_shared_platform.Contracts.Text.is_key uwo_shared_platform.Contracts.Text.is_text
    uwo_shared_platform.Contracts.Text.is_identifier uwo_shared_platform.Env.is_utc
    uwo_shared_platform.ControlPlane.Checks.tenant_valid
    uwo_shared_platform.ControlPlane.Checks.policy_valid
    uwo_shared_platform.ControlPlane.Repositories.Tenants.create
    uwo_shared_platform.ControlPlane.Repositories.Tenants.store
    uwo_shared_platform.ControlPlane.Repositories.Entitlements.initialize
    uwo_shared_platform.ControlPlane.Repositories.Policies.create_initial
    uwo_shared_platform.ControlPlane.Repositories.Policies.store
    uwo_shared_platform.ControlPlane.Repositories.Idempotency.put
    uwo_shared_platform.ControlPlane.Repositories.Idempotency.store
    uwo_shared_platform.Prelude.Dict.get uwo_shared_platform.Prelude.Dict.set
provisions = refl

time_is_utc : is_utc ⦃env = test_env⦄ "TT" ≡ true
unfolding is_utc
time_is_utc = refl

create_tenant-again_example :
    ((create_tenant ⦃env = test_env⦄ directory admin "t9" "Ninth" "eu" "key" "r4"
        (perform_all ⦃env = test_env⦄ directory calls (provision fresh).1)).0
      ≡ ok (result_of ninth.tenant false))
    × ((create_tenant ⦃env = test_env⦄ directory admin "t9" "Ninth" "eu" "key" "r4"
          (perform_all ⦃env = test_env⦄ directory calls (provision fresh).1)).1.db
        ≡ (perform_all ⦃env = test_env⦄ directory calls (provision fresh).1).db)
create_tenant-again_example =
    create_tenant-again ⦃env = test_env⦄ directory admin "t9" "Ninth" "eu" "key" fresh "r1"
      nothing-IsCoherent (ap (λ r. (r, (provision fresh).1)) provisions) refl calls "r4" time_is_utc

abbrev suspend : World → Result Tenant × World
suspend =
    set_tenant_status ⦃env = test_env⦄ directory admin "t9" TenantStatus.suspended (pos 1) "r3"

abbrev suspended : Tenant
suspended = with_status ninth.tenant TenantStatus.suspended "TT"

suspends : (suspend (provision fresh).1).0 ≡ ok suspended
unfolding uwo_shared_platform.ControlPlane.Service.Call.perform
    uwo_shared_platform.ControlPlane.Action.◌>>=◌ uwo_shared_platform.ControlPlane.Action.trigger
    uwo_shared_platform.ControlPlane.Action.transaction uwo_shared_platform.ControlPlane.Action.emit
    uwo_shared_platform.ControlPlane.Service.Tenants.create_tenant
    uwo_shared_platform.ControlPlane.Service.Tenants.provision
    uwo_shared_platform.ControlPlane.Service.Tenants.on_failure
    uwo_shared_platform.ControlPlane.Service.Common.platform_only
    uwo_shared_platform.ControlPlane.Service.Common.scope_of
    uwo_shared_platform.ControlPlane.Authorization.require_platform_admin
    uwo_shared_platform.Contracts.Text.is_key uwo_shared_platform.Contracts.Text.is_text
    uwo_shared_platform.Contracts.Text.is_identifier uwo_shared_platform.Env.is_utc
    uwo_shared_platform.ControlPlane.Checks.tenant_valid
    uwo_shared_platform.ControlPlane.Checks.policy_valid
    uwo_shared_platform.ControlPlane.Repositories.Tenants.create
    uwo_shared_platform.ControlPlane.Repositories.Tenants.store
    uwo_shared_platform.ControlPlane.Repositories.Entitlements.initialize
    uwo_shared_platform.ControlPlane.Repositories.Policies.create_initial
    uwo_shared_platform.ControlPlane.Repositories.Policies.store
    uwo_shared_platform.ControlPlane.Repositories.Idempotency.put
    uwo_shared_platform.ControlPlane.Repositories.Idempotency.store
    uwo_shared_platform.Prelude.Dict.get uwo_shared_platform.Prelude.Dict.set
    uwo_shared_platform.ControlPlane.Service.Tenants.set_tenant_status
    uwo_shared_platform.ControlPlane.Service.Tenants.write_status
    uwo_shared_platform.ControlPlane.Service.Tenants.enqueue
    uwo_shared_platform.ControlPlane.Service.Common.require
    uwo_shared_platform.ControlPlane.Authorization.require
    uwo_shared_platform.ControlPlane.Repositories.Tenants.update
    uwo_shared_platform.DataServices.Events.event_valid
    uwo_shared_platform.DataServices.Events.attributes_valid
    uwo_shared_platform.DataServices.Events.deterministic_id
    uwo_shared_platform.DataServices.Events.event_id_of
    uwo_shared_platform.DataServices.Events.platform_event
    uwo_shared_platform.DataServices.Outbox.enqueue
    uwo_shared_platform.DataServices.Outbox.record_valid
    uwo_shared_platform.DataServices.Outbox.stable uwo_shared_platform.Contracts.Text.is_substring
    ◌+ℤ◌
suspends = refl

provisioned-IsCoherent : IsCoherent (provision fresh).1.db
provisioned-IsCoherent =
    (subst (Ending (λ _ w. Follows nothing w.db) (λ d. d ≡ nothing))
      (ap (λ r. (r, (provision fresh).1)) provisions)
      (Settles-create_tenant ⦃env = test_env⦄ fresh nothing-IsCoherent directory admin "t9" "Ninth"
        "eu" "key" "r1").holds).coherent

set_tenant_status-IsChanged_example :
    IsChanged ⦃env = test_env⦄ "t9" TenantStatus.suspended
      (pos 1)
      "r3"
      (provision fresh).1.db
      suspended
      (suspend (provision fresh).1).1.db
set_tenant_status-IsChanged_example =
    set_tenant_status-IsChanged ⦃env = test_env⦄ directory (provision fresh).1 admin "t9"
      TenantStatus.suspended (pos 1) "r3" provisioned-IsCoherent
      (ap (λ r. (r, (suspend (provision fresh).1).1)) suspends)

-- a grant of a product at version 1
abbrev first_grant : ℤ → ProductEntitlement
first_grant v = record {
  entitlement_id = "product:t9:aisa";
  tenant_id = "t9";
  product = Product.aisa;
  granted_at = "TT";
  granted_by = "admin";
  version = v;
}

abbrev all_valid : ProductEntitlement → Bool
all_valid = product_entitlement_valid ⦃env = test_env⦄

grants :
    granted (some (pos 1)) (some []) Product.aisa first_grant all_valid (pos 1)
    ≡ ok (first_grant (pos 2), ((Product.aisa, first_grant (pos 2)) ∷ [], pos 2))
unfolding granted get set product_entitlement_valid is_utc is_identifier ◌+ℤ◌
grants = refl

revoked-granted_example :
    (d : Dict Product ProductEntitlement) × (some [] ≡ some d)
    × (revoked (some (pos 2)) (some ((Product.aisa, first_grant (pos 2)) ∷ [])) Product.aisa (pos 2)
        ≡ ok (d, pos 2 +ℤ pos 1))
revoked-granted_example =
    revoked-granted (some (pos 1)) (some []) Product.aisa first_grant all_valid (pos 1) grants
