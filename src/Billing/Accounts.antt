-- ===== src/Billing/Accounts.antt =====
-- `InMemoryBillingAccountRepository`.
use uwo_shared_platform.Prelude.{String, not, ◌||◌, Option, none, some, if◌then◌else◌}
use uwo_shared_platform.Prelude.Int.{ℤ, ◌==ℤ◌}
use uwo_shared_platform.Prelude.Keys.{string_eq, ◌==◌}
use uwo_shared_platform.Prelude.Dict.{get, set, contains}
use uwo_shared_platform.Errors.{Code, conflict, resource_not_found}
use uwo_shared_platform.Contracts.Billing.{BillingAccount}
use uwo_shared_platform.Billing.World
use uwo_shared_platform.Billing.World.{Db, FailurePoint}
use uwo_shared_platform.Billing.Action.{
  Act, return, gets, raise_when, or_raise, write_db, trigger, ◌>>=◌, ◌>>◌,
}

unfoldable pub get_by_tenant : World.Accounts → String → Option BillingAccount
get_by_tenant a tenant_id = elim (get a.tenant_index tenant_id) [
  | none ↦ none
  | some account_id ↦ if account_id == "" then none else get a.items account_id
]

-- the dictionary writes of `create` and of `update`
unfoldable pub insert : World.Accounts → BillingAccount → World.Accounts
insert t a = record {
  items = set t.items a.account_id a;
  tenant_index = set t.tenant_index a.tenant_id a.account_id;
}

unfoldable pub replace : World.Accounts → BillingAccount → World.Accounts
replace t a = record t { items = set t.items a.account_id a }

unfoldable pub create : BillingAccount → Act BillingAccount
unfolding insert
create a = do
  t ← gets (λ w. w.db.accounts)
  raise_when (contains t.items a.account_id || contains t.tenant_index a.tenant_id)
      (conflict Code.billing_account_exists)
  write_db (λ db. record db { accounts = insert db.accounts a })
  trigger FailurePoint.account_write
  return a

unfoldable pub update : BillingAccount → ℤ → Act BillingAccount
unfolding replace
update a expected_version = do
  found ← gets (λ w. get w.db.accounts.items a.account_id)
  current ← or_raise found (resource_not_found Code.unknown_billing_account)
  raise_when (not (current.version ==ℤ expected_version)) (conflict Code.stale_version)
  write_db (λ db. record db { accounts = replace db.accounts a })
  trigger FailurePoint.account_write
  return a
