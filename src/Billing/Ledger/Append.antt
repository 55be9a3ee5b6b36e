-- ===== src/Billing/Ledger/Append.antt =====
-- `InMemoryLedgerRepository.append`: all its tests come before its writes.
use uwo_shared_platform.Prelude.Int.{ℤ}
use uwo_shared_platform.Env.{Env}
use uwo_shared_platform.Contracts.Billing.{CreditBalance, LedgerEntry}
use uwo_shared_platform.Contracts.Checks.{balance_valid}
use uwo_shared_platform.Billing.World.{FailurePoint}
use uwo_shared_platform.Billing.Action.{Act, construct, write_db, trigger, ◌>>=◌, ◌>>◌}
use uwo_shared_platform.Billing.Ledger.{accept, write}

module _ ⦃env : Env⦄ where
  unfoldable pub append : LedgerEntry → ℤ → Act CreditBalance
  append e expected_version = do
    b ← (λ w. (accept w.db.accounts w.db.ledger e expected_version, w))
    write_db (λ db. record db { ledger = write db.ledger e })
    trigger FailurePoint.ledger_write
    construct (balance_valid b) b
