-- ===== src/Billing/Service/Preserves/Calls.antt =====
-- Each operation of the service preserves what the writes of the repositories preserve.
use uwo_shared_platform.Prelude.{String, ◌≡◌, Bool, true, false}
use uwo_shared_platform.Prelude.Int.{ℤ}
use uwo_shared_platform.Env.{Env}
use uwo_shared_platform.Contracts.Domain.{VerifiedSubjectIdentity}
use uwo_shared_platform.Contracts.Billing.{
  BillingAccount, ChargeCalculation, CreditBalance, CreditReservation, LedgerEntry, LedgerEntryType,
  UsageEvent,
}
use uwo_shared_platform.Contracts.Checks.{reservation_valid}
use uwo_shared_platform.Billing.Accounts
use uwo_shared_platform.Billing.Idempotency
use uwo_shared_platform.Billing.Ledger.Append
use uwo_shared_platform.Billing.Reservations
use uwo_shared_platform.Billing.Usage
use uwo_shared_platform.Billing.World.{Db, IdempotencyRecord, IdempotencyScope}
use uwo_shared_platform.Billing.Action.{Act}
use uwo_shared_platform.Billing.Service.Common.{account_of, active_account, make_scope}
use uwo_shared_platform.Billing.Service.Accounts.{create_account, create_mutation}
use uwo_shared_platform.Billing.Service.Credits.{
  credit_new, credit_mutation_body, credit_mutation, grant_credits, adjust_credits, refund,
}
use uwo_shared_platform.Billing.Service.Reserve.{
  ReservationRequest, reserve, reserve_new, reserve_mutation,
}
use uwo_shared_platform.Billing.Service.Capture.{
  UsageReport, capture, capture_new, capture_mutation, authorize_capture,
}
use uwo_shared_platform.Billing.Service.Release.{release, release_new, release_mutation}
use uwo_shared_platform.Billing.Service.GatewayReserve.{reserve_for_gateway, gateway_reserve_body}
use uwo_shared_platform.Billing.Service.GatewayCapture.{
  capture_for_gateway, gateway_capture_body, settle_mutation, release_unused,
}
use uwo_shared_platform.Billing.Service.GatewayRelease.{release_for_gateway, gateway_release_body}
use uwo_shared_platform.Billing.Service.Call.{Call, drop_result, perform}
use uwo_shared_platform.Billing.Service.Preserves.{
  Preserves, Stable, Preserves-read, Preserves-or_raise, Preserves-if, Preserves-start,
  Preserves-emit, Preserves-read_clock, Preserves-bind, Preserves-construct, Preserves-guarded,
  Preserves-or_replay, Preserves-paid, Preserves-unless_replayed, Preserves-finish,
}

module _ (P : Db → Type 0) where
  Preserves-make_scope :
      (op t : String) (i : VerifiedSubjectIdentity) → Preserves P (make_scope op t i)
  unfolding make_scope
  Preserves-make_scope op t i = Preserves-read P _

  ruleset read_rules = (
    Preserves-read, Preserves-or_raise, Preserves-bind, Preserves-start, Preserves-emit,
    Preserves-read_clock, Preserves-make_scope,
  )

  Preserves-account_of : (t : String) → Preserves P (account_of t)
  unfolding account_of
  Preserves-account_of t = search read_rules

  Preserves-active_account : (t : String) → Preserves P (active_account t)
  unfolding active_account
  Preserves-active_account t = search (read_rules, Preserves-account_of) depth 8

  module _ ⦃env : Env⦄ (k : Stable P) where
    account_create : (a : BillingAccount) → Preserves P (Accounts.create a)
    account_create a = k.account_create a

    reservation_create :
        (r : CreditReservation) → reservation_valid r ≡ true → Preserves P (Reservations.create r)
    reservation_create r h = k.reservation_create r h

    reservation_update :
        (r : CreditReservation) (v : ℤ)
        → reservation_valid r ≡ true
        → Preserves P (Reservations.update r v)
    reservation_update r v h = k.reservation_update r v h

    usage_append : (u : UsageEvent) → Preserves P (Usage.append u)
    usage_append u = k.usage_append u

    ledger_append : (e : LedgerEntry) (v : ℤ) → Preserves P (Append.append e v)
    ledger_append e v = k.ledger_append e v

    record_put : (r : IdempotencyRecord) → Preserves P (Idempotency.put r)
    record_put r = k.record_put r

    ruleset write_rules = (
      account_create, reservation_create, reservation_update, usage_append, ledger_append,
      record_put,
    )

    ruleset call_rules = (
      read_rules, write_rules, Preserves-construct, Preserves-account_of, Preserves-active_account,
      Preserves-guarded, Preserves-or_replay, Preserves-paid, Preserves-unless_replayed,
      Preserves-finish,
    )

    Preserves-create_account :
        (i : VerifiedSubjectIdentity) (t : String) (key request_id : String) (v : ℤ)
        → Preserves P (create_account i t key request_id v)
    unfolding create_account create_mutation
    Preserves-create_account i t key request_id v = search call_rules depth 40

    Preserves-credit_new :
        (i : VerifiedSubjectIdentity) (t : String) (delta v : ℤ) (key request_id op : String)
        (ty : LedgerEntryType) (s : IdempotencyScope) (print : String)
        → Preserves P (credit_new i t delta v key request_id op ty s print)
    unfolding credit_new credit_mutation_body
    Preserves-credit_new i t delta v key request_id op ty s print = search call_rules depth 40

    Preserves-reserve_new :
        (i : VerifiedSubjectIdentity) (t : String) (q : ReservationRequest) (expires : String)
        (v : ℤ) (key : String) (s : IdempotencyScope) (print : String)
        → Preserves P (reserve_new i t q expires v key s print)
    unfolding reserve_new reserve_mutation
    Preserves-reserve_new i t q expires v key s print = search call_rules depth 40

    Preserves-credit_mutation :
        (i : VerifiedSubjectIdentity) (t : String) (delta v : ℤ) (key request_id op : String)
        (ty : LedgerEntryType)
        → Preserves P (credit_mutation i t delta v key request_id op ty)
    unfolding credit_mutation
    Preserves-credit_mutation i t delta v key request_id op ty =
        search (call_rules, Preserves-credit_new) depth 40

    Preserves-grant_credits :
        (i : VerifiedSubjectIdentity) (t : String) (amount v : ℤ) (key request_id : String)
        → Preserves P (grant_credits i t amount v key request_id)
    unfolding grant_credits
    Preserves-grant_credits i t amount v key request_id =
        search (call_rules, Preserves-credit_mutation) depth 40

    Preserves-adjust_credits :
        (i : VerifiedSubjectIdentity) (t : String) (amount v : ℤ) (key request_id : String)
        → Preserves P (adjust_credits i t amount v key request_id)
    unfolding adjust_credits
    Preserves-adjust_credits i t amount v key request_id =
        search (call_rules, Preserves-credit_mutation) depth 40

    Preserves-refund :
        (i : VerifiedSubjectIdentity) (t : String) (amount v : ℤ) (key request_id : String)
        → Preserves P (refund i t amount v key request_id)
    unfolding refund
    Preserves-refund i t amount v key request_id =
        search (call_rules, Preserves-credit_mutation) depth 40

    Preserves-reserve :
        (i : VerifiedSubjectIdentity) (t : String) (q : ReservationRequest) (expires : String)
        (v : ℤ) (key : String)
        → Preserves P (reserve i t q expires v key)
    unfolding reserve
    Preserves-reserve i t q expires v key = search (call_rules, Preserves-reserve_new) depth 40

    Preserves-capture_mutation :
        (s : IdempotencyScope) (key print : String) (updated : CreditReservation) (rv : ℤ)
        (u : UsageEvent) (e : LedgerEntry) (bv : ℤ) (c : ChargeCalculation)
        → reservation_valid updated ≡ true
        → Preserves P (capture_mutation s key print updated rv u e bv c)
    unfolding capture_mutation
    Preserves-capture_mutation s key print updated rv u e bv c valid = search call_rules depth 40

    Preserves-capture_new :
        (i : VerifiedSubjectIdentity) (id : String) (r : CreditReservation) (u : UsageReport)
        (rv bv : ℤ) (key request_id : String) (override : Bool) (s : IdempotencyScope)
        (print : String)
        → Preserves P (capture_new i id r u rv bv key request_id override s print)
    unfolding capture_new
    Preserves-capture_new i id r u rv bv key request_id override s print =
        search (call_rules, Preserves-capture_mutation) depth 40

    Preserves-authorize_capture :
        (i : VerifiedSubjectIdentity) (t : String) (override : Bool)
        → Preserves P (authorize_capture i t override)
    Preserves-authorize_capture i t true = search read_rules
    Preserves-authorize_capture i t false = search read_rules

    Preserves-capture :
        (i : VerifiedSubjectIdentity) (id : String) (u : UsageReport) (rv bv : ℤ)
        (key request_id : String) (override : Bool)
        → Preserves P (capture i id u rv bv key request_id override)
    unfolding capture
    Preserves-capture i id u rv bv key request_id override =
        search (call_rules, Preserves-capture_new, Preserves-authorize_capture) depth 40

    Preserves-release_new :
        (i : VerifiedSubjectIdentity) (id : String) (r : CreditReservation) (rv bv : ℤ)
        (key request_id : String) (s : IdempotencyScope) (print : String)
        → Preserves P (release_new i id r rv bv key request_id s print)
    unfolding release_new release_mutation
    Preserves-release_new i id r rv bv key request_id s print = search (call_rules) depth 40

    Preserves-release :
        (i : VerifiedSubjectIdentity) (id : String) (rv bv : ℤ) (key request_id : String)
        → Preserves P (release i id rv bv key request_id)
    unfolding release
    Preserves-release i id rv bv key request_id =
        search (call_rules, Preserves-release_new) depth 40

    Preserves-reserve_for_gateway :
        (i : VerifiedSubjectIdentity) (t : String) (q : ReservationRequest) (seconds : ℤ)
        (key : String)
        → Preserves P (reserve_for_gateway i t q seconds key)
    unfolding reserve_for_gateway gateway_reserve_body reserve_mutation
    Preserves-reserve_for_gateway i t q seconds key = search (call_rules) depth 40

    Preserves-release_unused :
        (i : VerifiedSubjectIdentity) (t : String) (account : BillingAccount)
        (r : CreditReservation) (id usage_id : String) (unused : ℤ) (now : String)
        (b : CreditBalance)
        → Preserves P (release_unused i t account r id usage_id unused now b)
    unfolding release_unused
    Preserves-release_unused i t account r id usage_id unused now b =
        search (call_rules, Preserves-if) depth 40

    Preserves-settle_mutation :
        (i : VerifiedSubjectIdentity) (t : String) (s : IdempotencyScope) (key print : String)
        (account : BillingAccount) (r : CreditReservation) (id : String)
        (updated : CreditReservation) (u : UsageEvent) (e : LedgerEntry) (bv : ℤ)
        (c : ChargeCalculation) (now : String)
        → reservation_valid updated ≡ true
        → Preserves P (settle_mutation i t s key print account r id updated u e bv c now)
    unfolding settle_mutation
    Preserves-settle_mutation i t s key print account r id updated u e bv c now valid =
        search (call_rules, Preserves-release_unused) depth 40

    Preserves-gateway_capture_body :
        (i : VerifiedSubjectIdentity) (t : String) (id : String) (u : UsageReport)
        (s : IdempotencyScope) (key print : String)
        → Preserves P (gateway_capture_body i t id u s key print)
    unfolding gateway_capture_body
    Preserves-gateway_capture_body i t id u s key print =
        search (call_rules, Preserves-settle_mutation) depth 40

    Preserves-capture_for_gateway :
        (i : VerifiedSubjectIdentity) (t : String) (id : String) (u : UsageReport)
        (key request_id : String)
        → Preserves P (capture_for_gateway i t id u key request_id)
    unfolding capture_for_gateway
    Preserves-capture_for_gateway i t id u key request_id =
        search (call_rules, Preserves-gateway_capture_body) depth 40

    Preserves-release_for_gateway :
        (i : VerifiedSubjectIdentity) (t : String) (id key request_id : String)
        → Preserves P (release_for_gateway i t id key request_id)
    unfolding release_for_gateway gateway_release_body release_mutation
    Preserves-release_for_gateway i t id key request_id = search (call_rules) depth 40

    Preserves-drop_result : {A : Type 0} (m : Act A) → Preserves P m → Preserves P (drop_result m)
    Preserves-drop_result m h = Preserves-bind P m _ h (λ _. record { at = λ w p. p })

    pub Preserves-perform : (i : VerifiedSubjectIdentity) (c : Call) → Preserves P (perform i c)
    unfolding perform
    Preserves-perform i (Call.create_account t key request_id v) =
        Preserves-drop_result _ (Preserves-create_account i t key request_id v)
    Preserves-perform i (Call.grant_credits t n v key request_id) =
        Preserves-drop_result _ (Preserves-grant_credits i t n v key request_id)
    Preserves-perform i (Call.adjust_credits t n v key request_id) =
        Preserves-drop_result _ (Preserves-adjust_credits i t n v key request_id)
    Preserves-perform i (Call.refund t n v key request_id) =
        Preserves-drop_result _ (Preserves-refund i t n v key request_id)
    Preserves-perform i (Call.reserve t q expires_at v key) =
        Preserves-drop_result _ (Preserves-reserve i t q expires_at v key)
    Preserves-perform i (Call.capture id u rv bv key request_id override) =
        Preserves-drop_result _ (Preserves-capture i id u rv bv key request_id override)
    Preserves-perform i (Call.release id rv bv key request_id) =
        Preserves-drop_result _ (Preserves-release i id rv bv key request_id)
    Preserves-perform i (Call.reserve_for_gateway t q seconds key) =
        Preserves-drop_result _ (Preserves-reserve_for_gateway i t q seconds key)
    Preserves-perform i (Call.capture_for_gateway t id u key request_id) =
        Preserves-drop_result _ (Preserves-capture_for_gateway i t id u key request_id)
    Preserves-perform i (Call.release_for_gateway t id key request_id) =
        Preserves-drop_result _ (Preserves-release_for_gateway i t id key request_id)
