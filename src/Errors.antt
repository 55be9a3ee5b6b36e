-- ===== src/Errors.antt =====
-- The errors that the control plane and the billing service raise
-- (services/platform_billing/errors.py, services/platform_control_plane/errors.py), as values.
-- Messages are left out: callers and handlers read the class and the code.
use uwo_shared_platform.Prelude.{◌≡◌, refl, ◌⊎◌, inl, inr, Bool, true, false}

-- the `code` of a `BillingServiceError` or of a control-plane error
pub data Code : Type 0 where
  invalid_idempotency_key invalid_amount invalid_expiry invalid_pagination invalid_usage : Code
  invalid_cursor invalid_ledger_version invalid_reserved_balance : Code
  invalid_reservation_transition : Code
  idempotency_conflict stale_version status_unchanged insufficient_balance : Code
  reservation_expired capture_exceeds_reservation : Code
  billing_account_closed billing_account_suspended billing_account_active : Code
  billing_account_exists ledger_entry_exists reservation_exists usage_event_exists : Code
  rate_card_exists ambiguous_rate_card : Code
  unknown_billing_account unknown_tenant unknown_reservation unknown_usage_event : Code
  unknown_rate_card unknown_rate unknown_subject unknown_role : Code
  tenant_suspended deprovisioned_subject billing_executor_required platform_admin_required : Code
  product_not_entitled model_not_entitled service_executor_required : Code
  outbox_conflict unknown_outbox_record outbox_terminal outbox_already_claimed retry_not_due : Code
  outbox_attempts_exhausted outbox_claim_required outbox_lease_expired : Code
  invalid_outbox_transition outbox_attempts_available : Code
  membership_inactive tenant_isolation_violation permission_denied : Code
  tenant_exists membership_exists entitlement_aggregate_exists entitlement_exists : Code
  policy_exists unknown_membership unknown_entitlement unknown_policy invalid_request : Code
  role_assignment_exists role_assignment_missing : Code

-- The exceptions by class. `value_error` is a plain ValueError, as a contract raises it.
pub data Error : Type 0 where
  value_error type_error key_error overflow_error repository_integrity : Error
  authorization_denied resource_not_found conflict invalid_request payment_required : Code → Error

pub data Result {ℓ} (A : Type ℓ) : Type ℓ where
  ok : A → Result A
  err : Error → Result A

-- `if b: raise e`
abbrev pub raise_if : Bool → Error → Result (Unit {0})
raise_if true e = err e
raise_if false e = ok tt

-- A frozen dataclass: the value, if its `__post_init__` accepts it.
abbrev pub make {ℓ} : {A : Type ℓ} → Bool → A → Result A
make true a = ok a
make false a = err value_error

infixl 10 ◌>>=◌ ◌>>◌
module _ {ℓ κ} {A : Type ℓ} {B : Type κ} where
  abbrev pub ◌>>=◌ : Result A → (A → Result B) → Result B
  ◌>>=◌ (err e) next = err e
  ◌>>=◌ (ok a) next = next a

module _ {ℓ} {B : Type ℓ} where
  abbrev pub ◌>>◌ : Result (Unit {0}) → Result B → Result B
  ◌>>◌ first second = ◌>>=◌ first (λ _. second)

abbrev pub IsOk {ℓ} : {A : Type ℓ} → Result A → Type 0
IsOk (ok _) = Unit
IsOk (err _) = ⊥

pub Result-cases {ℓ} :
    {A : Type ℓ} (r : Result A) → ((a : A) × (r ≡ ok a)) ⊎ ((e : Error) × (r ≡ err e))
Result-cases (ok a) = inl (a, refl)
Result-cases (err e) = inr (e, refl)
