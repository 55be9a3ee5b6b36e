-- ===== src/Tests/Witnesses.antt =====
-- The theorems of the billing service at the runs of `Runs`.
use uwo_shared_platform.Prelude.{
  ◌≡◌, ◌≢◌, refl, ◌&&◌, true, false, none, some, List, [], ◌∷◌, ◌++◌, arith, inl,
}
use uwo_shared_platform.Prelude.Int.{pos, negsuc}
use uwo_shared_platform.Prelude.Keys.{string_eq}
use uwo_shared_platform.Prelude.Dict.{get}
use uwo_shared_platform.Errors.{Error, ok, make}
use uwo_shared_platform.Env.{is_utc}
use uwo_shared_platform.Contracts.Text.{is_identifier}
use uwo_shared_platform.Contracts.Billing.{CreditBalance, LedgerEntry, LedgerEntryType}
use uwo_shared_platform.Billing.World.{World, FailurePoint}
use uwo_shared_platform.Billing.Accounts.{get_by_tenant}
use uwo_shared_platform.Billing.Ledger.{balance}
use uwo_shared_platform.Billing.Ledger.Append.{append}
use uwo_shared_platform.Billing.Ledger.Refinement.{balance-append, balance-append_ne}
use uwo_shared_platform.Billing.Service.Call.{Call, perform}
use uwo_shared_platform.Billing.Service.Rollback.{perform-rollback}
use uwo_shared_platform.Billing.Service.Credits.{credit_mutation, replayed_credit}
use uwo_shared_platform.Billing.Service.Reserve.{replayed_reservation}
use uwo_shared_platform.Billing.Service.Capture.{replayed_capture}
use uwo_shared_platform.Billing.Service.Release.{replayed_release}
use uwo_shared_platform.Billing.Service.GatewayReserve.{reserve_for_gateway}
use uwo_shared_platform.Billing.Service.GatewayCapture.{capture_for_gateway}
use uwo_shared_platform.Billing.Service.GatewayRelease.{release_for_gateway}
use uwo_shared_platform.Billing.Service.Repeats.Calls.{
  reserve_for_gateway-again, capture_for_gateway-again, release_for_gateway-again,
  credit_mutation-again,
}
use uwo_shared_platform.Billing.Invariant.History.{Extends, perform-Extends}
use uwo_shared_platform.Billing.Invariant.Reserved.{AllValid, perform-AllValid}
use uwo_shared_platform.Billing.Invariant.Balanced.{IsBalance}
use uwo_shared_platform.Billing.Invariant.Reachable.{Reaches, balance-intact}
use uwo_shared_platform.Tests.World.{admin, executor, start, request, report, test_env}
use uwo_shared_platform.Tests.Runs.{
  account, with_account, with_credit, with_reservation, granted, reserved, settled, released,
}

reserve_for_gateway-again_example :
    let v = record with_credit {
      db = (reserve_for_gateway executor "t1" request (pos 60) "k3" with_credit).1.db;
    } in
    ((reserve_for_gateway executor "t1" request (pos 60) "k3" v).0
      ≡ ok (replayed_reservation reserved))
    × ((reserve_for_gateway executor "t1" request (pos 60) "k3" v).1.db ≡ v.db)
unfolding uwo_shared_platform.Billing.Accounts.get_by_tenant
    uwo_shared_platform.Billing.Action.◌>>=◌ uwo_shared_platform.Billing.Action.trigger
    uwo_shared_platform.Billing.Authorizer.require_executor
    uwo_shared_platform.Billing.Idempotency.find uwo_shared_platform.Billing.Idempotency.put
    uwo_shared_platform.Billing.Ledger.add_entry uwo_shared_platform.Billing.Ledger.add_entries
    uwo_shared_platform.Billing.Ledger.balance uwo_shared_platform.Billing.Ledger.accept
    uwo_shared_platform.Billing.Ledger.Append.append uwo_shared_platform.Billing.Reservations.create
    uwo_shared_platform.Billing.Service.Common.make_scope
    uwo_shared_platform.Billing.Service.Common.active_account
    uwo_shared_platform.Billing.Service.Common.or_replay
    uwo_shared_platform.Billing.Service.Common.make_id
    uwo_shared_platform.Billing.Service.Common.guarded
    uwo_shared_platform.Billing.Service.Common.or_payment_required
    uwo_shared_platform.Billing.Service.GatewayReserve.reserve_for_gateway
    uwo_shared_platform.Billing.Service.Reserve.reservation_for
    uwo_shared_platform.Billing.Service.Reserve.reserve_entry
    uwo_shared_platform.Billing.UnitOfWork.transaction
    uwo_shared_platform.Contracts.Checks.balance_valid
    uwo_shared_platform.Contracts.Checks.reservation_valid
    uwo_shared_platform.Contracts.Checks.entry_valid
    uwo_shared_platform.Contracts.Text.is_identifier uwo_shared_platform.Contracts.Text.is_key
    uwo_shared_platform.Env.is_utc uwo_shared_platform.Env.iso_le
    uwo_shared_platform.Prelude.Dict.get uwo_shared_platform.Prelude.Int.◌+ℤ◌
    uwo_shared_platform.Prelude.Int.neg
reserve_for_gateway-again_example =
    reserve_for_gateway-again executor "t1" request (pos 60) "k3" with_credit {r = reserved} refl
      (record with_credit {
        db = (reserve_for_gateway executor "t1" request (pos 60) "k3" with_credit).1.db;
      })
      refl refl

capture_for_gateway-again_example :
    let v = record with_reservation {
      db =
          (capture_for_gateway executor "t1" "reservation:t1:r1" report "k4" "q4"
            with_reservation).1.db;
    } in
    ((capture_for_gateway executor "t1" "reservation:t1:r1" report "k4" "q4" v).0
      ≡ ok (replayed_capture settled))
    × ((capture_for_gateway executor "t1" "reservation:t1:r1" report "k4" "q4" v).1.db ≡ v.db)
unfolding uwo_shared_platform.Billing.Accounts.get_by_tenant
    uwo_shared_platform.Billing.Action.◌>>=◌ uwo_shared_platform.Billing.Action.trigger
    uwo_shared_platform.Billing.Authorizer.require_executor
    uwo_shared_platform.Billing.Idempotency.find uwo_shared_platform.Billing.Idempotency.put
    uwo_shared_platform.Billing.Ledger.add_entry uwo_shared_platform.Billing.Ledger.add_entries
    uwo_shared_platform.Billing.Ledger.balance uwo_shared_platform.Billing.Ledger.accept
    uwo_shared_platform.Billing.Ledger.write uwo_shared_platform.Billing.Ledger.Append.append
    uwo_shared_platform.Billing.Pricing.round_up_ratio uwo_shared_platform.Billing.Pricing.has_key
    uwo_shared_platform.Billing.Pricing.price_of
    uwo_shared_platform.Billing.Pricing.calculate_charge
    uwo_shared_platform.Billing.RateCards.active_at uwo_shared_platform.Billing.Reservations.update
    uwo_shared_platform.Billing.Service.Capture.usage_of
    uwo_shared_platform.Billing.Service.Capture.capture_entry
    uwo_shared_platform.Billing.Service.Common.make_scope
    uwo_shared_platform.Billing.Service.Common.active_account
    uwo_shared_platform.Billing.Service.Common.or_replay
    uwo_shared_platform.Billing.Service.Common.make_id
    uwo_shared_platform.Billing.Service.Common.guarded
    uwo_shared_platform.Billing.Service.GatewayCapture.capture_for_gateway
    uwo_shared_platform.Billing.Service.Release.release_entry
    uwo_shared_platform.Billing.UnitOfWork.transaction uwo_shared_platform.Billing.Usage.append
    uwo_shared_platform.Contracts.Checks.balance_valid
    uwo_shared_platform.Contracts.Checks.reservation_valid
    uwo_shared_platform.Contracts.Checks.usage_valid
    uwo_shared_platform.Contracts.Checks.entry_valid
    uwo_shared_platform.Contracts.Checks.charge_valid
    uwo_shared_platform.Contracts.Domain.product_value
    uwo_shared_platform.Contracts.Text.is_identifier uwo_shared_platform.Contracts.Text.is_key
    uwo_shared_platform.Env.is_utc uwo_shared_platform.Env.iso_le
    uwo_shared_platform.Prelude.Dict.get uwo_shared_platform.Prelude.Dict.set
    uwo_shared_platform.Prelude.Int.◌+ℤ◌ uwo_shared_platform.Prelude.Int.◌-ℤ◌
    uwo_shared_platform.Prelude.Int.◌*ℤ◌ uwo_shared_platform.Prelude.Int.neg
capture_for_gateway-again_example =
    capture_for_gateway-again executor "t1" "reservation:t1:r1" report "k4" "q4" with_reservation
      {r = settled} refl
      (record with_reservation {
        db =
            (capture_for_gateway executor "t1" "reservation:t1:r1" report "k4" "q4"
              with_reservation).1.db;
      })
      refl refl

release_for_gateway-again_example :
    let v = record with_reservation {
      db = (release_for_gateway executor "t1" "reservation:t1:r1" "k4" "q4" with_reservation).1.db;
    } in
    ((release_for_gateway executor "t1" "reservation:t1:r1" "k4" "q4" v).0
      ≡ ok (replayed_release released))
    × ((release_for_gateway executor "t1" "reservation:t1:r1" "k4" "q4" v).1.db ≡ v.db)
unfolding uwo_shared_platform.Billing.Accounts.get_by_tenant
    uwo_shared_platform.Billing.Action.◌>>=◌ uwo_shared_platform.Billing.Action.trigger
    uwo_shared_platform.Billing.Authorizer.require_executor
    uwo_shared_platform.Billing.Idempotency.find uwo_shared_platform.Billing.Idempotency.put
    uwo_shared_platform.Billing.Ledger.add_entry uwo_shared_platform.Billing.Ledger.add_entries
    uwo_shared_platform.Billing.Ledger.balance uwo_shared_platform.Billing.Ledger.accept
    uwo_shared_platform.Billing.Ledger.Append.append uwo_shared_platform.Billing.Reservations.update
    uwo_shared_platform.Billing.Service.Common.make_scope
    uwo_shared_platform.Billing.Service.Common.active_account
    uwo_shared_platform.Billing.Service.Common.or_replay
    uwo_shared_platform.Billing.Service.Common.make_id
    uwo_shared_platform.Billing.Service.Common.guarded
    uwo_shared_platform.Billing.Service.GatewayRelease.release_for_gateway
    uwo_shared_platform.Billing.Service.Release.release_entry
    uwo_shared_platform.Billing.UnitOfWork.transaction
    uwo_shared_platform.Contracts.Checks.balance_valid
    uwo_shared_platform.Contracts.Checks.reservation_valid
    uwo_shared_platform.Contracts.Checks.entry_valid
    uwo_shared_platform.Contracts.Text.is_identifier uwo_shared_platform.Contracts.Text.is_key
    uwo_shared_platform.Env.is_utc uwo_shared_platform.Prelude.Dict.get
    uwo_shared_platform.Prelude.Int.◌+ℤ◌ uwo_shared_platform.Prelude.Int.◌-ℤ◌
    uwo_shared_platform.Prelude.Int.neg
release_for_gateway-again_example =
    release_for_gateway-again executor "t1" "reservation:t1:r1" "k4" "q4" with_reservation
      {r = released} refl
      (record with_reservation {
        db =
            (release_for_gateway executor "t1" "reservation:t1:r1" "k4" "q4" with_reservation).1.db;
      })
      refl refl

credit_mutation-again_example :
    let v = record with_account {
      db =
          (credit_mutation admin "t1"
            (pos 1000)
            (pos 1)
            "k2"
            "q2"
            "billing.credit.grant"
            LedgerEntryType.credit_grant
            with_account).1.db;
    } in
    ((credit_mutation admin "t1"
        (pos 1000)
        (pos 1)
        "k2"
        "q2"
        "billing.credit.grant"
        LedgerEntryType.credit_grant
        v).0
      ≡ ok (replayed_credit granted))
    × ((credit_mutation admin "t1"
          (pos 1000)
          (pos 1)
          "k2"
          "q2"
          "billing.credit.grant"
          LedgerEntryType.credit_grant
          v).1.db
        ≡ v.db)
unfolding uwo_shared_platform.Billing.Accounts.get_by_tenant
    uwo_shared_platform.Billing.Action.◌>>=◌ uwo_shared_platform.Billing.Action.trigger
    uwo_shared_platform.Billing.Idempotency.find uwo_shared_platform.Billing.Idempotency.put
    uwo_shared_platform.Billing.Ledger.add_entries uwo_shared_platform.Billing.Ledger.balance
    uwo_shared_platform.Billing.Ledger.accept uwo_shared_platform.Billing.Ledger.Append.append
    uwo_shared_platform.Billing.Service.Common.make_scope
    uwo_shared_platform.Billing.Service.Common.active_account
    uwo_shared_platform.Billing.Service.Common.or_replay
    uwo_shared_platform.Billing.Service.Common.unless_replayed
    uwo_shared_platform.Billing.Service.Common.make_id
    uwo_shared_platform.Billing.Service.Common.guarded
    uwo_shared_platform.Billing.Service.Credits.credit_new
    uwo_shared_platform.Billing.Service.Credits.credit_mutation
    uwo_shared_platform.Billing.UnitOfWork.transaction
    uwo_shared_platform.Contracts.Checks.balance_valid
    uwo_shared_platform.Contracts.Checks.entry_valid
    uwo_shared_platform.Contracts.Text.is_identifier uwo_shared_platform.Contracts.Text.is_key
    uwo_shared_platform.ControlPlane.Authorization.require_platform_admin
    uwo_shared_platform.Env.is_utc uwo_shared_platform.Prelude.Dict.get
    uwo_shared_platform.Prelude.Int.◌+ℤ◌ uwo_shared_platform.Prelude.Int.abs
credit_mutation-again_example =
    credit_mutation-again admin "t1" (pos 1000) (pos 1) "k2" "q2" "billing.credit.grant"
      LedgerEntryType.credit_grant with_account {r = granted} refl
      (record with_account {
        db =
            (credit_mutation admin "t1" (pos 1000) (pos 1) "k2" "q2" "billing.credit.grant"
              LedgerEntryType.credit_grant with_account).1.db;
      })
      refl refl

-- the grant whose last write fails
abbrev failing_grant : Call
failing_grant = Call.grant_credits "t1" (pos 1000) (pos 1) "k2" "q2"

abbrev about_to_fail : World
about_to_fail = record with_account { failing = some FailurePoint.idempotency_write }

perform-rollback_example : (perform admin failing_grant about_to_fail).1.db ≡ about_to_fail.db
unfolding uwo_shared_platform.Billing.Accounts.get_by_tenant
    uwo_shared_platform.Billing.Action.◌>>=◌ uwo_shared_platform.Billing.Action.trigger
    uwo_shared_platform.Billing.Idempotency.find uwo_shared_platform.Billing.Idempotency.put
    uwo_shared_platform.Billing.Ledger.add_entries uwo_shared_platform.Billing.Ledger.balance
    uwo_shared_platform.Billing.Ledger.accept uwo_shared_platform.Billing.Ledger.Append.append
    uwo_shared_platform.Billing.Service.Call.perform
    uwo_shared_platform.Billing.Service.Common.make_scope
    uwo_shared_platform.Billing.Service.Common.active_account
    uwo_shared_platform.Billing.Service.Common.or_replay
    uwo_shared_platform.Billing.Service.Common.unless_replayed
    uwo_shared_platform.Billing.Service.Common.make_id
    uwo_shared_platform.Billing.Service.Common.guarded
    uwo_shared_platform.Billing.Service.Credits.credit_new
    uwo_shared_platform.Billing.Service.Credits.credit_mutation
    uwo_shared_platform.Billing.Service.Credits.grant_credits
    uwo_shared_platform.Billing.UnitOfWork.transaction
    uwo_shared_platform.Contracts.Checks.balance_valid
    uwo_shared_platform.Contracts.Checks.entry_valid
    uwo_shared_platform.Contracts.Text.is_identifier uwo_shared_platform.Contracts.Text.is_key
    uwo_shared_platform.ControlPlane.Authorization.require_platform_admin
    uwo_shared_platform.Env.is_utc uwo_shared_platform.Prelude.Dict.get
    uwo_shared_platform.Prelude.Int.◌+ℤ◌ uwo_shared_platform.Prelude.Int.abs
perform-rollback_example =
    perform-rollback admin failing_grant about_to_fail {e = Error.repository_integrity} refl

balance-append_example :
    let w = (append granted.ledger_entry (pos 1) with_account).1 in
    balance w.db.accounts w.db.ledger "billing:t1" "t1" "TT" ≡ ok granted.balance
unfolding uwo_shared_platform.Billing.Accounts.get_by_tenant
    uwo_shared_platform.Billing.Action.◌>>=◌ uwo_shared_platform.Billing.Action.trigger
    uwo_shared_platform.Billing.Ledger.add_entries uwo_shared_platform.Billing.Ledger.balance
    uwo_shared_platform.Billing.Ledger.accept uwo_shared_platform.Billing.Ledger.Append.append
    uwo_shared_platform.Contracts.Checks.balance_valid
    uwo_shared_platform.Contracts.Checks.entry_valid
    uwo_shared_platform.Contracts.Text.is_identifier uwo_shared_platform.Env.is_utc
    uwo_shared_platform.Prelude.Dict.get uwo_shared_platform.Prelude.Int.◌+ℤ◌
balance-append_example =
    balance-append granted.ledger_entry (pos 1) with_account {b = granted.balance}
      {w' = (append granted.ledger_entry (pos 1) with_account).1} refl

abbrev other_entry : LedgerEntry
other_entry = record granted.ledger_entry {
  entry_id = "e2";
  account_id = "billing:t2";
  tenant_id = "t2";
}

two_accounts : "billing:t1" ≢ other_entry.account_id
two_accounts same = ground (arith, string_eq.beq_iff "billing:t1" "billing:t2")

balance-append_ne_example :
    let w = (append other_entry (pos 1) with_credit).1 in
    balance w.db.accounts w.db.ledger "billing:t1" "t1" "TT" ≡ ok granted.balance
unfolding uwo_shared_platform.Billing.Accounts.get_by_tenant
    uwo_shared_platform.Billing.Ledger.add_entry uwo_shared_platform.Billing.Ledger.add_entries
    uwo_shared_platform.Billing.Ledger.balance uwo_shared_platform.Contracts.Checks.balance_valid
    uwo_shared_platform.Contracts.Checks.entry_valid
    uwo_shared_platform.Contracts.Text.is_identifier uwo_shared_platform.Env.is_utc
    uwo_shared_platform.Prelude.Dict.get uwo_shared_platform.Prelude.Int.◌+ℤ◌
balance-append_ne_example =
    balance-append_ne other_entry (pos 1) "billing:t1" "t1" "TT" with_credit {b = granted.balance}
      two_accounts refl

perform-Extends_example :
    Extends with_account.db.ledger (perform admin failing_grant with_account).1.db.ledger
perform-Extends_example = perform-Extends admin failing_grant with_account

none_reserved : AllValid with_credit.db
unfolding get
none_reserved id r found = absurd (ground arith)

perform-AllValid_example :
    AllValid
      (perform executor (Call.reserve_for_gateway "t1" request (pos 60) "k3") with_credit).1.db
perform-AllValid_example =
    perform-AllValid executor (Call.reserve_for_gateway "t1" request (pos 60) "k3") with_credit
      none_reserved

abbrev opened : World
opened = (perform admin (Call.create_account "t1" "k1" "q1" (pos 0)) start).1

abbrev two_calls : World
two_calls = (perform admin failing_grant opened).1

two_calls-Reaches : Reaches start two_calls
two_calls-Reaches =
    Reaches.call (Reaches.call Reaches.here admin (Call.create_account "t1" "k1" "q1" (pos 0)))
      admin failing_grant

balance-intact_example :
    (b : CreditBalance) × IsBalance "billing:t1" "t1" "TT" b
    × (balance two_calls.db.accounts two_calls.db.ledger "billing:t1" "t1" "TT"
        ≡ make (is_identifier "billing:t1" && is_identifier "t1" && is_utc "TT") b)
unfolding uwo_shared_platform.Billing.Accounts.get_by_tenant
    uwo_shared_platform.Billing.Accounts.create uwo_shared_platform.Billing.Action.◌>>=◌
    uwo_shared_platform.Billing.Action.trigger uwo_shared_platform.Billing.Idempotency.find
    uwo_shared_platform.Billing.Idempotency.put uwo_shared_platform.Billing.Ledger.add_entries
    uwo_shared_platform.Billing.Ledger.balance uwo_shared_platform.Billing.Ledger.accept
    uwo_shared_platform.Billing.Ledger.Append.append
    uwo_shared_platform.Billing.Service.Accounts.create_account
    uwo_shared_platform.Billing.Service.Call.perform
    uwo_shared_platform.Billing.Service.Common.make_scope
    uwo_shared_platform.Billing.Service.Common.active_account
    uwo_shared_platform.Billing.Service.Common.or_replay
    uwo_shared_platform.Billing.Service.Common.unless_replayed
    uwo_shared_platform.Billing.Service.Common.make_id
    uwo_shared_platform.Billing.Service.Common.guarded
    uwo_shared_platform.Billing.Service.Credits.credit_new
    uwo_shared_platform.Billing.Service.Credits.credit_mutation
    uwo_shared_platform.Billing.Service.Credits.grant_credits
    uwo_shared_platform.Billing.UnitOfWork.transaction
    uwo_shared_platform.Contracts.Checks.account_valid
    uwo_shared_platform.Contracts.Checks.balance_valid
    uwo_shared_platform.Contracts.Checks.entry_valid
    uwo_shared_platform.Contracts.Text.is_identifier uwo_shared_platform.Contracts.Text.is_key
    uwo_shared_platform.ControlPlane.Authorization.require_platform_admin
    uwo_shared_platform.Env.is_utc uwo_shared_platform.Prelude.Dict.get
    uwo_shared_platform.Prelude.Dict.set uwo_shared_platform.Prelude.Int.◌+ℤ◌
    uwo_shared_platform.Prelude.Int.abs
balance-intact_example =
    balance-intact {w = start} {v = two_calls} "t1" "TT" {a = account} refl refl two_calls-Reaches
      refl

-- The failure of the account's write is injected.
abbrev about_to_fail_write : World
about_to_fail_write = record with_account { failing = some FailurePoint.account_write }
