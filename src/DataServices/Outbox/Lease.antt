-- ===== src/DataServices/Outbox/Lease.antt =====
-- The lease of an outbox record: `InMemoryOutbox.claim`, `acknowledge` and `_require_claim` of
-- services/data_service_common.py.
use uwo_shared_platform.Prelude.{
  ℕ, ◌<◌, String, ◌≡◌, refl, Bool, true, false, Option, none, some, arith, inl, inr, Option-cases,
}
use uwo_shared_platform.Prelude.Int.{ℤ, pos, leb_ℤ}
use uwo_shared_platform.Prelude.Keys.{Eq, string_eq}
use uwo_shared_platform.Prelude.Dict.{Dict, get, set, get-set_self}
use uwo_shared_platform.Errors.{Code, Result-cases, ok, err, conflict}
use uwo_shared_platform.Env.{Env, Moment}
use uwo_shared_platform.DataServices.Outbox.{
  OutboxStatus, OutboxRecord, claim, acknowledge, require_claim, has_active_lease, is_not_due,
  store, lease_ended, record_valid, claimed_record, unleased_record, stable, parse_utc,
  plus_seconds, or_empty,
}

module _ ⦃env : Env⦄ (is_alnum : ℕ → Bool) {E : Type 0} ⦃eq : Eq E⦄ where
  -- what a claim that returns has found and written
  pub claim_lem :
      (record_id owner now : String) (seconds : ℤ) (expected : Option ℕ)
      (o : Dict String (OutboxRecord E)) {c : OutboxRecord E} {o' : Dict String (OutboxRecord E)}
      → claim is_alnum record_id owner now seconds expected o ≡ ok (c, o')
      → (current : OutboxRecord E) × (expires : String) × (get o record_id ≡ some current)
        × (c ≡ claimed_record current owner expires)
        × (o' ≡ set o record_id c)
        × (record_valid is_alnum c ≡ true)
        × (current.attempts < current.max_attempts)
  unfolding claim store
  claim_lem record_id owner now seconds expected o returns = elim (Result-cases (parse_utc now)) [
    | inr (x, refused) ↦ absurd (ground arith)
    | inl (instant, parsed) ↦ elim (Option-cases (get o record_id)) [
      | inl unknown ↦ absurd (ground arith)
      | inr (current, found) ↦ elim (Result-cases (has_active_lease current instant)) [
        | inr (x, refused) ↦ absurd (ground arith)
        | inl (active, leased) ↦ elim (Result-cases (is_not_due current instant)) [
          | inr (x, refused) ↦ absurd (ground arith)
          | inl (early, due) ↦ elim (Result-cases (plus_seconds instant seconds)) [
            | inr (x, refused) ↦ absurd (ground arith)
            | inl (expires, ends) ↦
                (current, expires, found, ground arith, ground arith, ground arith, ground arith)
          ]
        ]
      ]
    ]
  ]

  unleased_valid :
      (r : OutboxRecord E) (owner expires : String)
      → record_valid is_alnum (claimed_record r owner expires) ≡ true
      → record_valid is_alnum
          (unleased_record (claimed_record r owner expires) OutboxStatus.accepted none)
        ≡ true
  unfolding record_valid
  unleased_valid r owner expires h = ground arith

  -- An acknowledgement is in time if it gives no time, or one before the lease of the record ends.
  pub data IsInTime (c : OutboxRecord E) : Option String → Type 0 where
    untimed : IsInTime c none
    before :
        {now : String} (instant expiry : Moment)
        → parse_utc now ≡ ok instant
        → parse_utc (or_empty c.lease_expires_at) ≡ ok expiry
        → leb_ℤ expiry.instant instant.instant ≡ false
        → IsInTime c (some now)

  not-ended :
      (c : OutboxRecord E) {at : Option String} → IsInTime c at → lease_ended c at ≡ ok false
  not-ended c untimed = refl
  not-ended c (before instant expiry reads ends lasts) = ground arith

  -- After a claim that returns, acknowledging with the claim's owner and version, without a time or
  -- at one before the lease ends, returns the record as accepted, without a lease and at the next
  -- version, and stores it.
  pub acknowledge-claim :
      (record_id owner now : String) (seconds : ℤ) (expected : Option ℕ)
      (o : Dict String (OutboxRecord E)) {c : OutboxRecord E} {o' : Dict String (OutboxRecord E)}
      {at : Option String}
      → claim is_alnum record_id owner now seconds expected o ≡ ok (c, o')
      → IsInTime c at
      → acknowledge is_alnum record_id owner c.version at o'
        ≡ ok (
          unleased_record c OutboxStatus.accepted none,
          set o' record_id (unleased_record c OutboxStatus.accepted none),
        )
  unfolding acknowledge require_claim store
  acknowledge-claim record_id owner now seconds expected o {c = c} returns in_time =
      let (current, expires, found, written, stored, valid, bound) =
        claim_lem record_id owner now seconds expected o returns in
      let kept = unleased_valid current owner expires in
      let stands = get-set_self o record_id (claimed_record current owner expires) in
      let same = string_eq.beq_iff owner owner in
      ground (arith, kept, stands, same, not-ended c in_time)

  -- After a claim that returns, a claim of the record before the lease ends, under a stable name, for
  -- a positive number of seconds and for no version in particular, raises that the record is already
  -- claimed.
  pub claim-claim :
      (record_id owner now : String) (seconds : ℤ) (expected : Option ℕ)
      (o : Dict String (OutboxRecord E)) {c : OutboxRecord E} {o' : Dict String (OutboxRecord E)}
      (rival later_now : String) (rival_seconds : ℤ) {instant expiry : Moment}
      → claim is_alnum record_id owner now seconds expected o ≡ ok (c, o')
      → stable is_alnum rival ≡ true
      → parse_utc later_now ≡ ok instant
      → leb_ℤ rival_seconds (pos 0) ≡ false
      → parse_utc (or_empty c.lease_expires_at) ≡ ok expiry
      → leb_ℤ expiry.instant instant.instant ≡ false
      → claim is_alnum record_id rival later_now rival_seconds none o'
        ≡ err (conflict Code.outbox_already_claimed)
  unfolding claim has_active_lease
  claim-claim record_id owner now seconds expected o rival later_now n returns safe reads positive
        ends lasts =
      let (current, expires, found, written, stored, valid, bound) =
        claim_lem record_id owner now seconds expected o returns in
      ground (arith, get-set_self o record_id (claimed_record current owner expires))
