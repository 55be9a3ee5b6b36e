-- ===== src/Tests/Outbox.antt =====
-- The theorems on the lease of an outbox record, at a record that is claimed.
use uwo_shared_platform.Prelude.{ℕ, ◌+◌, String, ◌≡◌, refl, Bool, true, false, none, some, [], ◌∷◌}
use uwo_shared_platform.Prelude.Int.{pos}
use uwo_shared_platform.Prelude.Keys.{string_eq}
use uwo_shared_platform.Prelude.Dict.{Dict, get, set}
use uwo_shared_platform.Errors.{Code, ok, err, conflict}
use uwo_shared_platform.Env.{parse_iso}
use uwo_shared_platform.DataServices.Outbox.{
  OutboxRecord, OutboxStatus, claim, acknowledge, claimed_record, unleased_record, stable,
  parse_utc, has_active_lease, is_not_due, plus_seconds, store, record_valid,
}
use uwo_shared_platform.DataServices.Outbox.Delivery.{delivered, dispatch-delivered}
use uwo_shared_platform.DataServices.Outbox.Dispatch.{dispatch}
use uwo_shared_platform.DataServices.Outbox.Lease.{IsInTime, acknowledge-claim, claim-claim}
use uwo_shared_platform.Tests.World.{test_env}

abbrev is_alnum : ℕ → Bool
is_alnum c = true

abbrev waiting : OutboxRecord String
waiting = record {
  record_id = "r";
  event = "e";
  status = OutboxStatus.pending;
  attempts = 0;
  next_attempt_at = none;
  version = 1;
  lease_owner = none;
  lease_expires_at = none;
  max_attempts = 5;
}

abbrev outbox : Dict String (OutboxRecord String)
outbox = ("r", waiting) ∷ []

abbrev leased : OutboxRecord String
leased = claimed_record waiting "w" "TTTTTTTT"

abbrev leased_outbox : Dict String (OutboxRecord String)
leased_outbox = ("r", leased) ∷ []

claim_runs : claim is_alnum "r" "w" "T" (pos 30) none outbox ≡ ok (leased, leased_outbox)
unfolding claim stable parse_utc parse_iso get has_active_lease is_not_due plus_seconds store
    record_valid set
claim_runs = refl

acknowledge-claim_example :
    acknowledge is_alnum "r" "w" leased.version (some "TT") leased_outbox
    ≡ ok (
      unleased_record leased OutboxStatus.accepted none,
      set leased_outbox "r" (unleased_record leased OutboxStatus.accepted none),
    )
unfolding parse_utc parse_iso
acknowledge-claim_example = acknowledge-claim is_alnum "r" "w" "T" (pos 30) none outbox claim_runs (
    IsInTime.before (record { instant = pos 2; utc_offset = some (pos 0) })
      (record { instant = pos 8; utc_offset = some (pos 0) }) refl refl refl)

claim-claim_example :
    claim is_alnum "r" "v" "TT" (pos 30) none leased_outbox
    ≡ err (conflict Code.outbox_already_claimed)
unfolding stable parse_utc parse_iso
claim-claim_example =
    claim-claim is_alnum "r" "w" "T" (pos 30) none outbox "v" "TT" (pos 30)
      {instant = record { instant = pos 2; utc_offset = some (pos 0) }}
      {expiry = record { instant = pos 8; utc_offset = some (pos 0) }} claim_runs refl refl refl
      refl refl

-- a publisher that raises, and counts how often it is called
abbrev failing : String → ℕ → Bool × ℕ
failing event n = (false, n + 1)

dispatch-delivered_example : dispatch is_alnum failing "w" (pos 30) "r" "T" "TT" outbox 0 ≡ (
  ok (delivered is_alnum false "TT" leased),
  (set leased_outbox "r" (delivered is_alnum false "TT" leased), 1),
)
unfolding parse_utc parse_iso
dispatch-delivered_example =
    dispatch-delivered is_alnum failing "w" (pos 30) "r" "T" "TT" outbox 0
      {instant = record { instant = pos 1; utc_offset = some (pos 0) }}
      {expiry = record { instant = pos 8; utc_offset = some (pos 0) }}
      {due = record { instant = pos 2; utc_offset = some (pos 0) }} claim_runs refl refl refl refl
