-- ===== src/Billing/Service/Credits.antt =====
-- `grant_credits`, `adjust_credits` and `refund`, over `_credit_mutation`.
use Prim.Native.String.{◌++◌}
use uwo_shared_platform.Prelude.{String, true, false, ◌&&◌, Option, none, some, [], ◌∷◌}
use uwo_shared_platform.Prelude.Int.{ℤ, pos, ◌+ℤ◌, abs, ltb_ℤ, ◌==ℤ◌}
use uwo_shared_platform.Errors.{Code, conflict, invalid_request}
use uwo_shared_platform.Env.{Env, Json}
use uwo_shared_platform.Contracts.Domain.{VerifiedSubjectIdentity}
use uwo_shared_platform.Contracts.Billing.{LedgerEntry, LedgerEntryType}
use uwo_shared_platform.Contracts.Checks.{entry_valid}
use uwo_shared_platform.Billing.World.{
  AuditEventType, Outcome, CreditMutationResult, IdempotencyResult, IdempotencyScope,
}
use uwo_shared_platform.Billing.Ledger.Append.{append}
use uwo_shared_platform.Billing.Idempotency
use uwo_shared_platform.Billing.Authorizer.{require_platform_admin}
use uwo_shared_platform.Billing.Service.Common.{
  check_key, check_positive, authorize, make_scope, account_of, is_closed, start_mutation, event,
  or_replay, unless_replayed, guarded, fingerprint, make_id, finish,
}
use uwo_shared_platform.Billing.Action.{
  Act, return, raise_when, construct, read_clock, emit, ◌>>=◌, ◌>>◌,
}

abbrev pub pick_credit : IdempotencyResult → Option CreditMutationResult
pick_credit (IdempotencyResult.credit_result r) = some r
pick_credit _ = none

-- `replace(replay, created=False)`
abbrev pub replayed_credit : CreditMutationResult → CreditMutationResult
replayed_credit r = record r { created = false }

-- `f"billing.{entry_type.value}"`
abbrev pub credit_event : LedgerEntryType → AuditEventType
credit_event LedgerEntryType.credit_grant = AuditEventType.credit_grant
credit_event LedgerEntryType.credit_adjustment = AuditEventType.credit_adjustment
credit_event LedgerEntryType.usage_reservation = AuditEventType.usage_reservation
credit_event LedgerEntryType.usage_capture = AuditEventType.usage_capture
credit_event LedgerEntryType.reservation_release = AuditEventType.reservation_release
credit_event LedgerEntryType.refund = AuditEventType.refund

module _ ⦃env : Env⦄ where
  unfoldable pub credit_mutation_body :
      IdempotencyScope → String → String → LedgerEntry → ℤ → Act CreditMutationResult
  credit_mutation_body scope key print entry expected_version = do
    start_mutation
    balance ← append entry expected_version
    let result : CreditMutationResult = record {
      balance = balance;
      ledger_entry = entry;
      created = true;
    }
    _ ← Idempotency.put (record {
      scope = scope;
      key = key;
      request_fingerprint = print;
      original_result = IdempotencyResult.credit_result result;
    })
    return result

  module _ (identity : VerifiedSubjectIdentity) (tenant_id : String) where
    -- what comes behind the early replay
    unfoldable pub credit_new :
        ℤ
        → ℤ
        → String
        → String
        → String
        → LedgerEntryType
        → IdempotencyScope
        → String
        → Act CreditMutationResult
    unfolding credit_mutation_body
    credit_new delta expected_version idempotency_key request_id operation entry_type scope print =
        do
          account ← account_of tenant_id
          raise_when (is_closed account.status && ltb_ℤ delta (pos 0))
              (conflict Code.billing_account_closed)
          timestamp ← read_clock
          let e : LedgerEntry = record {
            entry_id = make_id "ledger" (
                operation ++ ":" ++ tenant_id ++ ":" ++ identity.subject ++ ":" ++ idempotency_key);
            account_id = account.account_id;
            tenant_id = tenant_id;
            entry_type = entry_type;
            amount_microunits = abs delta;
            available_delta_microunits = delta;
            reserved_delta_microunits = pos 0;
            reference_id = make_id "credit" idempotency_key;
            created_at = timestamp;
            created_by = identity.subject;
            version = expected_version +ℤ pos 1;
          }
          entry ← construct (entry_valid e) e
          attempt ← guarded request_id identity tenant_id (
              or_replay pick_credit replayed_credit scope idempotency_key print
                (credit_mutation_body scope idempotency_key print entry expected_version))
          finish
              (λ r.
                emit
                  (record (event (credit_event entry_type) request_id Outcome.succeeded identity
                    tenant_id) {
                      account_id = some account.account_id;
                      ledger_entry_id = some entry.entry_id;
                    }))
              attempt

    unfoldable pub credit_mutation :
        ℤ → ℤ → String → String → String → LedgerEntryType → Act CreditMutationResult
    credit_mutation delta expected_version idempotency_key request_id operation entry_type = do
      authorize (λ d. require_platform_admin d identity)
      check_key idempotency_key
      raise_when (delta ==ℤ pos 0) (invalid_request Code.invalid_amount)
      scope ← make_scope operation tenant_id identity
      let print = fingerprint (
          ("tenant_id", Json.text tenant_id)
          ∷ ("delta", Json.number delta)
          ∷ ("expected_version", Json.number expected_version)
          ∷ [])
      unless_replayed pick_credit replayed_credit scope idempotency_key print (
          credit_new delta expected_version idempotency_key request_id operation entry_type scope
            print)

    unfoldable pub grant_credits : ℤ → ℤ → String → String → Act CreditMutationResult
    grant_credits amount expected_version idempotency_key request_id = do
      check_positive amount
      credit_mutation amount expected_version idempotency_key request_id "billing.credit.grant"
          LedgerEntryType.credit_grant

    unfoldable pub adjust_credits : ℤ → ℤ → String → String → Act CreditMutationResult
    adjust_credits delta expected_version idempotency_key request_id =
        credit_mutation delta expected_version idempotency_key request_id "billing.credit.adjust"
          LedgerEntryType.credit_adjustment

    unfoldable pub refund : ℤ → ℤ → String → String → Act CreditMutationResult
    refund amount expected_version idempotency_key request_id = do
      check_positive amount
      credit_mutation amount expected_version idempotency_key request_id "billing.credit.refund"
          LedgerEntryType.refund
