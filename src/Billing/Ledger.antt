-- ===== src/Billing/Ledger.antt =====
-- `InMemoryLedgerRepository`: a balance is derived from the entries of its account, and an entry is appended on top of the derived balance.
pub mod Append
pub mod Derivation
pub mod Refinement
use uwo_shared_platform.Prelude.{
  ℕ, zero, suc, ◌+◌, String, Bool, true, false, not, ◌&&◌, ◌||◌, Option, none, some, List, [], ◌∷◌,
  ◌++◌, any, length, take, drop, last?, ltb, is_none, if◌then◌else◌,
}
use uwo_shared_platform.Prelude.Int.{ℤ, pos, ◌+ℤ◌, ltb_ℤ, ◌==ℤ◌}
use uwo_shared_platform.Prelude.Keys.{string_eq, ◌==◌}
use uwo_shared_platform.Prelude.Dict.{Dict, get, set, contains}
use uwo_shared_platform.Errors
use uwo_shared_platform.Errors.{
  Code, Error, Result, ok, err, key_error, repository_integrity, conflict, raise_if, make, ◌>>=◌,
  ◌>>◌,
}
use uwo_shared_platform.Env.{Env}
use uwo_shared_platform.Contracts.Billing.{BillingAccount, CreditBalance, LedgerEntry}
use uwo_shared_platform.Contracts.Checks.{entry_valid, balance_valid}
use uwo_shared_platform.Billing.Accounts.{get_by_tenant}
use uwo_shared_platform.Billing.World.{Accounts, Ledger, LedgerPage}

-- `account is None or account.account_id != account_id`, negated
abbrev pub owns : Option BillingAccount → String → Bool
owns none account_id = false
owns (some a) account_id = a.account_id == account_id

-- available, reserved, version
abbrev pub Totals : Type 0
Totals = ℤ × ℤ × ℤ

-- `self._account_entries.get(account_id, [])`
abbrev pub entries_of : Ledger → String → List String
entries_of l account_id = elim (get l.account_entries account_id) [ none ↦ [] | some ids ↦ ids ]

abbrev pub item_of : Dict String LedgerEntry → String → Result LedgerEntry
item_of items id = elim (get items id) [ none ↦ err key_error | some e ↦ ok e ]

module _ ⦃env : Env⦄ where
  -- one round of the loop of `balance`
  unfoldable pub add_entry : String → String → LedgerEntry → Totals → Result Totals
  add_entry account_id tenant_id e (available, reserved, version) = do
    raise_if (not (entry_valid e)) repository_integrity
    raise_if (not (e.account_id == account_id) || not (e.tenant_id == tenant_id))
        repository_integrity
    raise_if (not (e.version ==ℤ version +ℤ pos 1)) repository_integrity
    ok (
      available +ℤ e.available_delta_microunits,
      reserved +ℤ e.reserved_delta_microunits,
      e.version,
    )

  unfoldable pub add_entries :
      Dict String LedgerEntry → String → String → List String → Totals → Result Totals
  add_entries items account_id tenant_id [] totals = ok totals
  add_entries items account_id tenant_id (id ∷ ids) totals = do
    e ← item_of items id
    totals' ← add_entry account_id tenant_id e totals
    add_entries items account_id tenant_id ids totals'

  -- the tests after the loop
  unfoldable pub derived : String → String → String → Totals → Result CreditBalance
  derived account_id tenant_id as_of (available, reserved, version) =
      let balance : CreditBalance = record {
        account_id = account_id;
        tenant_id = tenant_id;
        available_microunits = available;
        reserved_microunits = reserved;
        version = version;
        as_of = as_of;
      } in
      do
        raise_if (ltb_ℤ available (pos 0) || ltb_ℤ reserved (pos 0)) repository_integrity
        make (balance_valid balance) balance

  unfoldable pub balance : Accounts → Ledger → String → String → String → Result CreditBalance
  unfolding derived
  balance accounts l account_id tenant_id as_of = do
    raise_if (not (owns (get_by_tenant accounts tenant_id) account_id)) repository_integrity
    totals ←
        add_entries l.items account_id tenant_id (entries_of l account_id) (pos 0, pos 0, pos 1)
    derived account_id tenant_id as_of totals

  -- everything that `append` tests before it writes; the result is the balance that it returns
  unfoldable pub accept : Accounts → Ledger → LedgerEntry → ℤ → Result CreditBalance
  accept accounts l e expected_version = do
    raise_if (not (entry_valid e)) repository_integrity
    raise_if (not (owns (get_by_tenant accounts e.tenant_id) e.account_id)) repository_integrity
    raise_if (contains l.items e.entry_id) (conflict Code.ledger_entry_exists)
    current ← balance accounts l e.account_id e.tenant_id e.created_at
    raise_if (not (current.version ==ℤ expected_version)) (conflict Code.stale_version)
    raise_if (not (e.version ==ℤ current.version +ℤ pos 1)) (conflict Code.invalid_ledger_version)
    let available = current.available_microunits +ℤ e.available_delta_microunits
    let reserved = current.reserved_microunits +ℤ e.reserved_delta_microunits
    raise_if (ltb_ℤ available (pos 0)) (conflict Code.insufficient_balance)
    raise_if (ltb_ℤ reserved (pos 0)) (conflict Code.invalid_reserved_balance)
    ok (record {
      account_id = e.account_id;
      tenant_id = e.tenant_id;
      available_microunits = available;
      reserved_microunits = reserved;
      version = e.version;
      as_of = e.created_at;
    })

-- the two writes of `append`
unfoldable pub write : Ledger → LedgerEntry → Ledger
write l e = record {
  items = set l.items e.entry_id e;
  account_entries =
      set l.account_entries e.account_id (entries_of l e.account_id ++ e.entry_id ∷ []);
}

-- `ids.index(cursor) + 1`, or `none` if the cursor is not there
unfoldable pub position_after : List String → String → Option ℕ
position_after [] cursor = none
position_after (id ∷ ids) cursor =
    if id == cursor
    then some 1
    else elim (position_after ids cursor) [ none ↦ none | some n ↦ some (suc n) ]

unfoldable pub start_of : List String → Option String → Result ℕ
unfolding position_after
start_of ids none = ok 0
start_of ids (some cursor) = elim (position_after ids cursor) [
  | none ↦ err (conflict Code.invalid_cursor)
  | some n ↦ ok n
]

unfoldable pub items_of : Dict String LedgerEntry → List String → Result (List LedgerEntry)
items_of items [] = ok []
items_of items (id ∷ ids) = do e ← item_of items id; es ← items_of items ids; ok (e ∷ es)

-- `InMemoryLedgerRepository.list`; the service has checked that the limit is between 1 and 100
unfoldable pub list_page : Ledger → String → ℕ → Option String → Result LedgerPage
list_page l account_id limit cursor = do
  let ids = entries_of l account_id
  start ← start_of ids cursor
  let selected = take limit (drop start ids)
  items ← items_of l.items selected
  ok (record {
    items = items;
    next_cursor = if ltb (start + limit) (length ids) then last? selected else none;
  })
