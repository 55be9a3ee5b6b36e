-- ===== src/Billing/Service/Reads.antt =====
-- `read_account`, `read_balance`, `read_usage`, `list_ledger` and `active_rate_card`.
use uwo_shared_platform.Prelude.{String, ◌||◌, Option, none, some, if◌then◌else◌}
use uwo_shared_platform.Prelude.Int.{ℤ, pos, pos_part, ltb_ℤ}
use uwo_shared_platform.Prelude.Keys.{string_eq, ◌==◌}
use uwo_shared_platform.Errors.{Code, invalid_request, resource_not_found}
use uwo_shared_platform.Env.{Env}
use uwo_shared_platform.Contracts.Domain.{VerifiedSubjectIdentity}
use uwo_shared_platform.Contracts.Billing.{
  BillingAccount, CreditBalance, RateCardVersion, UsageEvent,
}
use uwo_shared_platform.Billing.World.{LedgerPage}
use uwo_shared_platform.Billing.Ledger.{balance, list_page}
use uwo_shared_platform.Billing.RateCards
use uwo_shared_platform.Billing.Usage
use uwo_shared_platform.Billing.Authorizer.{require_read}
use uwo_shared_platform.Billing.Service.Common.{authorize, account_of}
use uwo_shared_platform.Billing.Action.{Act, return, or_raise, raise_when, read_clock, ◌>>=◌, ◌>>◌}

-- the event, if it is of the tenant
abbrev of_tenant : Option UsageEvent → String → Option UsageEvent
of_tenant none tenant_id = none
of_tenant (some u) tenant_id = if u.tenant_id == tenant_id then some u else none

module _ (identity : VerifiedSubjectIdentity) (tenant_id : String) where
  unfoldable pub read_account : Act BillingAccount
  read_account = do authorize (λ d. require_read d identity tenant_id); account_of tenant_id

  unfoldable pub read_usage : String → Act UsageEvent
  read_usage usage_event_id = do
    authorize (λ d. require_read d identity tenant_id)
    found ← Usage.get usage_event_id
    or_raise (of_tenant found tenant_id) (resource_not_found Code.unknown_usage_event)

  unfoldable pub list_ledger : ℤ → Option String → Act LedgerPage
  list_ledger limit cursor = do
    authorize (λ d. require_read d identity tenant_id)
    raise_when (ltb_ℤ limit (pos 1) || ltb_ℤ (pos 100) limit)
        (invalid_request Code.invalid_pagination)
    account ← account_of tenant_id
    (λ w. (list_page w.db.ledger account.account_id (pos_part limit) cursor, w))

module _ ⦃env : Env⦄ (identity : VerifiedSubjectIdentity) (tenant_id : String) where
  unfoldable pub read_balance : Act CreditBalance
  read_balance = do
    authorize (λ d. require_read d identity tenant_id)
    account ← account_of tenant_id
    now ← read_clock
    (λ w. (balance w.db.accounts w.db.ledger account.account_id tenant_id now, w))

  unfoldable pub active_rate_card : Act RateCardVersion
  active_rate_card = do
    authorize (λ d. require_read d identity tenant_id)
    now ← read_clock
    card ← (λ w. (RateCards.active_at w.db.rate_cards now, w))
    return (record {
      rate_card_id = card.rate_card_id;
      version = card.version;
      effective_at = card.effective_at;
    })
