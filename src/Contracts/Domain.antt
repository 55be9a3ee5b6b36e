-- ===== src/Contracts/Domain.antt =====
-- packages/contracts/catalog.py and domain.py: products, tenants, identities, memberships, roles.
use uwo_shared_platform.Prelude.{String, Bool, true, false, List}
use uwo_shared_platform.Prelude.Int.{ℤ}

pub data Product : Type 0 where
  aisa ai_mall aisa_connect ai_legal_professional ai_ads ai_cashflow : Product

-- `product.value`
unfoldable pub product_value : Product → String
product_value Product.aisa = "aisa"
product_value Product.ai_mall = "ai-mall"
product_value Product.aisa_connect = "aisa-connect"
product_value Product.ai_legal_professional = "ai-legal-professional"
product_value Product.ai_ads = "ai-ads"
product_value Product.ai_cashflow = "ai-cashflow"

pub data TenantStatus : Type 0 where
  active suspended : TenantStatus

abbrev pub is_suspended : TenantStatus → Bool
is_suspended TenantStatus.active = false
is_suspended TenantStatus.suspended = true

pub data MembershipStatus : Type 0 where
  active suspended : MembershipStatus

abbrev pub is_active_membership : MembershipStatus → Bool
is_active_membership MembershipStatus.active = true
is_active_membership MembershipStatus.suspended = false

pub record Tenant : Type 0 where
  pub tenant_id : String
  pub name : String
  pub status : TenantStatus
  pub region : String
  pub created_at : String
  pub updated_at : String
  pub version : ℤ

pub record VerifiedSubjectIdentity : Type 0 where
  pub subject : String
  pub tenant_id : String
  pub verified_at : String

pub record TenantMembership : Type 0 where
  pub membership_id : String
  pub tenant_id : String
  pub subject : String
  pub status : MembershipStatus
  pub role_ids : List String
  pub created_at : String
  pub updated_at : String
  pub version : ℤ

pub record Role : Type 0 where
  pub role_id : String
  pub name : String
  pub permission_ids : List String
  pub created_at : String
  pub version : ℤ
