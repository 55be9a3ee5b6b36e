-- ===== src/DataServices/Outbox/Dispatch.antt =====
-- services/data_service_common.py: the reads and `transition` of `InMemoryOutbox`,
-- `OutboxEventRecorder`, `record_event_safely`, and `OutboxDispatcher` over a publisher that may
-- raise. What the publisher keeps is a state of its own.
use uwo_shared_platform.Prelude.{
  ℕ, String, Bool, true, false, not, ◌&&◌, ◌||◌, Option, none, some, List, [], ◌∷◌, eqb,
  if◌then◌else◌,
}
use uwo_shared_platform.Prelude.Int.{ℤ, leb_ℤ}
use uwo_shared_platform.Prelude.Keys.{Eq, string_eq}
use uwo_shared_platform.Prelude.Dict.{Dict, get, values}
use uwo_shared_platform.Prelude.Sorting.{sorted_by}
use uwo_shared_platform.Errors.{
  Code, Result, ok, err, conflict, resource_not_found, raise_if, ◌>>=◌, ◌>>◌,
}
use uwo_shared_platform.Env.{Env, Moment}
use uwo_shared_platform.DataServices.Outbox.{
  OutboxStatus, OutboxRecord, acknowledge, claim, is_claimed, is_dead_lettered, is_none, is_pending,
  is_terminal, or_empty, parse_utc, require_claim, retry, store, unleased_record,
}

abbrev pub same_status : OutboxStatus → OutboxStatus → Bool
same_status OutboxStatus.pending OutboxStatus.pending = true
same_status OutboxStatus.claimed OutboxStatus.claimed = true
same_status OutboxStatus.accepted OutboxStatus.accepted = true
same_status OutboxStatus.cancelled OutboxStatus.cancelled = true
same_status OutboxStatus.dead_lettered OutboxStatus.dead_lettered = true
same_status _ _ = false

module _ {E : Type 0} where
  -- `tuple(item for item in records if item.status is PENDING)`
  unfoldable pub pending_of : List (OutboxRecord E) → List (OutboxRecord E)
  pending_of [] = []
  pending_of (r ∷ rs) = let rest = pending_of rs in if is_pending r.status then r ∷ rest else rest

  unfoldable pub pending : Dict String (OutboxRecord E) → List (OutboxRecord E)
  pending o = pending_of (values o)

  abbrev known : Option (OutboxRecord E) → Result (OutboxRecord E)
  known none = err (resource_not_found Code.unknown_outbox_record)
  known (some r) = ok r

abbrev is_by : ⦃env : Env⦄ → Option String → Moment → Result Bool
is_by none instant = ok true
is_by (some s) instant = do at ← parse_utc s; ok (leb_ℤ at.instant instant.instant)

module _ ⦃env : Env⦄ {E : Type 0} where
  -- the lease of a claimed record has ended
  abbrev is_expired : OutboxRecord E → Moment → Result Bool
  is_expired r instant =
      if is_claimed r.status then is_by (some (or_empty r.lease_expires_at)) instant else ok false

  unfoldable pub eligible_of : List (OutboxRecord E) → Moment → Result (List (OutboxRecord E))
  eligible_of [] instant = ok []
  eligible_of (r ∷ rs) instant = do
    due ← is_by r.next_attempt_at instant
    expired ← is_expired r instant
    rest ← eligible_of rs instant
    ok (if (is_pending r.status && due) || expired then r ∷ rest else rest)

  unfoldable pub eligible : String → Dict String (OutboxRecord E) → Result (List (OutboxRecord E))
  eligible now o = do
    instant ← parse_utc now
    found ← eligible_of (values o) instant
    ok (sorted_by (λ (r : OutboxRecord E). r.record_id) found)

module _ ⦃env : Env⦄ (is_alnum : ℕ → Bool) {E : Type 0} ⦃eq : Eq E⦄ where
  -- `if lease_owner is not None: self._require_claim(…)`
  abbrev owner_claim : OutboxRecord E → Option String → ℕ → Option String → Result (Unit {0})
  owner_claim current none expected_version now = ok tt
  owner_claim current (some owner) expected_version now =
      require_claim current owner expected_version now

  unfoldable pub transition :
      String
      → OutboxStatus
      → ℕ
      → Option String
      → Option String
      → Option String
      → Dict String (OutboxRecord E)
      → Result (OutboxRecord E × Dict String (OutboxRecord E))
  transition record_id status expected_version next_attempt_at lease_owner now o = do
    current ← known (get o record_id)
    if is_terminal current.status
        then (if same_status current.status status
            then ok (current, o)
            else err (conflict Code.outbox_terminal))
        else do
          raise_if (not (eqb current.version expected_version)) (conflict Code.stale_version)
          raise_if
              (not (is_claimed current.status)
                || not (is_dead_lettered status)
                || not (is_none next_attempt_at))
              (conflict Code.invalid_outbox_transition)
          owner_claim current lease_owner expected_version now
          store is_alnum o record_id (unleased_record current status next_attempt_at)

  -- `publish` of a publisher with a state: whether it returned, and its state then
  module _ {S : Type 0} (publish : E → S → Bool × S) (owner : String) (lease_seconds : ℤ) where
    abbrev pub kept :
        Result (OutboxRecord E × Dict String (OutboxRecord E))
        → Dict String (OutboxRecord E)
        → S
        → Result (OutboxRecord E) × (Dict String (OutboxRecord E) × S)
    kept (ok (r, o)) before s = (ok r, (o, s))
    kept (err e) before s = (err e, (before, s))

    abbrev pub settle :
        Bool
        → OutboxRecord E
        → String
        → String
        → String
        → Dict String (OutboxRecord E)
        → Result (OutboxRecord E × Dict String (OutboxRecord E))
    settle true claimed record_id now retry_at o =
        acknowledge is_alnum record_id owner claimed.version (some now) o
    settle false claimed record_id now retry_at o =
        retry is_alnum record_id owner claimed.version retry_at (some now) o

    abbrev pub deliver :
        Result (OutboxRecord E × Dict String (OutboxRecord E))
        → String
        → String
        → String
        → Dict String (OutboxRecord E)
        → S
        → Result (OutboxRecord E) × (Dict String (OutboxRecord E) × S)
    deliver (err e) record_id now retry_at before s = (err e, (before, s))
    deliver (ok (claimed, o)) record_id now retry_at before s =
        let (published, s') = publish claimed.event s in
        kept (settle published claimed record_id now retry_at o) o s'

    -- `OutboxDispatcher.dispatch`
    unfoldable pub dispatch :
        String
        → String
        → String
        → Dict String (OutboxRecord E)
        → S
        → Result (OutboxRecord E) × (Dict String (OutboxRecord E) × S)
    dispatch record_id now retry_at o s =
        deliver (claim is_alnum record_id owner now lease_seconds none o) record_id now retry_at o s
