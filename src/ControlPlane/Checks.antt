-- ===== src/ControlPlane/Checks.antt =====
-- packages/contracts/domain.py: what `__post_init__` of the identity, role and entitlement contracts
-- tests. A failed test is a ValueError, so the tests of a class are one Boolean.
use uwo_shared_platform.Prelude.{String, Bool, true, false, not, ◌&&◌, List, [], ◌∷◌, all}
use uwo_shared_platform.Prelude.Int.{ℤ, pos, leb_ℤ}
use uwo_shared_platform.Prelude.Keys.{string_eq, ◌==◌}
use uwo_shared_platform.Env.{Env, is_utc}
use uwo_shared_platform.Contracts.Text.{is_identifier, is_text}
use uwo_shared_platform.Contracts.Domain.{Tenant, TenantMembership}
use uwo_shared_platform.ControlPlane.Authorization.{update_set}
use uwo_shared_platform.ControlPlane.Entitlements.{ProductEntitlement, ModelEntitlement}
use uwo_shared_platform.ControlPlane.World.{IdempotencyRecord, IdempotencyScope, PolicyDocument}

abbrev is_version : ℤ → Bool
is_version v = leb_ℤ (pos 1) v

abbrev pub same_texts : List String → List String → Bool
same_texts [] [] = true
same_texts (x ∷ xs) (y ∷ ys) = x == y && same_texts xs ys
same_texts _ _ = false

-- `tuple(sorted(set(xs))) == xs`
unfoldable pub is_sorted_set : List String → Bool
is_sorted_set xs = same_texts (update_set xs []) xs

-- the tests of `IdempotencyScope` and of `IdempotencyRecord`
abbrev pub scope_valid : IdempotencyScope → Bool
scope_valid s = not (s.operation == "") && not (s.tenant_id == "") && not (s.actor_subject == "")

abbrev pub idempotency_valid : IdempotencyRecord → Bool
idempotency_valid r = not (r.key == "") && not (r.request_fingerprint == "")

module _ ⦃env : Env⦄ where
  unfoldable pub tenant_valid : Tenant → Bool
  tenant_valid t =
      is_identifier t.tenant_id
      && is_identifier t.region
      && is_utc t.created_at
      && is_utc t.updated_at
      && is_version t.version
      && is_text t.name

  unfoldable pub membership_valid : TenantMembership → Bool
  membership_valid m =
      is_identifier m.membership_id
      && is_identifier m.tenant_id
      && is_identifier m.subject
      && is_utc m.created_at
      && is_utc m.updated_at
      && is_version m.version
      && is_sorted_set m.role_ids
      && all is_identifier m.role_ids

  unfoldable pub product_entitlement_valid : ProductEntitlement → Bool
  product_entitlement_valid e =
      is_identifier e.entitlement_id
      && is_identifier e.tenant_id
      && is_identifier e.granted_by
      && is_utc e.granted_at
      && is_version e.version

  unfoldable pub model_entitlement_valid : ModelEntitlement → Bool
  model_entitlement_valid e =
      is_identifier e.entitlement_id
      && is_identifier e.tenant_id
      && is_identifier e.model
      && is_identifier e.granted_by
      && is_utc e.granted_at
      && is_version e.version

  -- a policy of scalars passes `freeze_json`
  unfoldable pub policy_valid : PolicyDocument → Bool
  policy_valid d =
      is_identifier d.tenant_id
      && is_identifier d.created_by
      && is_utc d.created_at
      && is_version d.policy_version
