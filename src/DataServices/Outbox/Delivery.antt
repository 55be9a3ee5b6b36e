-- ===== src/DataServices/Outbox/Delivery.antt =====
-- What `OutboxDispatcher.dispatch` of services/data_service_common.py makes of a record.
use uwo_shared_platform.Prelude.{
  ℕ, String, ◌≡◌, ap, subst, ◌∙◌, Bool, true, false, none, some, leb, arith, if◌then◌else◌,
}
use uwo_shared_platform.Prelude.Int.{ℤ, leb_ℤ}
use uwo_shared_platform.Prelude.Keys.{Eq, string_eq}
use uwo_shared_platform.Prelude.Dict.{Dict, get, set, get-set_self}
use uwo_shared_platform.Errors.{ok}
use uwo_shared_platform.Env.{Env, Moment}
use uwo_shared_platform.DataServices.Outbox.{
  OutboxStatus, OutboxRecord, acknowledge, claim, claimed_record, or_empty, parse_utc, record_valid,
  require_claim, retry, store, unleased_record,
}
use uwo_shared_platform.DataServices.Outbox.Lease.{claim_lem}
use uwo_shared_platform.DataServices.Outbox.Dispatch.{deliver, dispatch, kept, settle}

module _ ⦃env : Env⦄ (is_alnum : ℕ → Bool) {E : Type 0} ⦃eq : Eq E⦄ where
  -- what a delivery makes of a claimed record
  abbrev pub delivered : Bool → String → OutboxRecord E → OutboxRecord E
  delivered true retry_at c = unleased_record c OutboxStatus.accepted none
  delivered false retry_at c =
      if leb c.max_attempts c.attempts
      then unleased_record c OutboxStatus.dead_lettered none
      else unleased_record c OutboxStatus.pending (some retry_at)

  unleased_valid :
      (r : OutboxRecord E) (owner expires retry_at : String) (b : Bool) {due : Moment}
      → record_valid is_alnum (claimed_record r owner expires) ≡ true
      → parse_utc retry_at ≡ ok due
      → record_valid is_alnum (delivered b retry_at (claimed_record r owner expires)) ≡ true
  unfolding record_valid
  unleased_valid r owner expires retry_at true h reads = ground arith
  unleased_valid r owner expires retry_at false h reads = ground arith

  -- a claim that returns has stored the record, and what a delivery makes of it is valid
  claimed-delivered :
      (owner : String) (seconds : ℤ) (b : Bool) (record_id now retry_at : String)
      (o : Dict String (OutboxRecord E)) {c : OutboxRecord E} {o' : Dict String (OutboxRecord E)}
      {due : Moment}
      → claim is_alnum record_id owner now seconds none o ≡ ok (c, o')
      → parse_utc retry_at ≡ ok due
      → (current : OutboxRecord E) × (expires : String) × (c ≡ claimed_record current owner expires)
        × (get o' record_id ≡ some (claimed_record current owner expires))
        × (record_valid is_alnum (delivered b retry_at (claimed_record current owner expires))
            ≡ true)
  claimed-delivered owner seconds b record_id now retry_at o returns due =
      let (current, expires, found, written, stored, valid, bound) =
        claim_lem is_alnum record_id owner now seconds none o returns in
      (
        current,
        expires,
        written,
        ground (
          arith,
          written,
          stored,
          get-set_self o record_id (claimed_record current owner expires),
        ),
        unleased_valid current owner expires retry_at b
            (subst (λ r. record_valid is_alnum r ≡ true) written valid) due,
      )

  settle-claim :
      {S : Type 0} (publish : E → S → Bool × S) (owner : String) (seconds : ℤ) (b : Bool)
      (record_id now retry_at : String) (o : Dict String (OutboxRecord E)) {c : OutboxRecord E}
      {o' : Dict String (OutboxRecord E)} {instant expiry due : Moment}
      → claim is_alnum record_id owner now seconds none o ≡ ok (c, o')
      → parse_utc now ≡ ok instant
      → parse_utc (or_empty c.lease_expires_at) ≡ ok expiry
      → leb_ℤ expiry.instant instant.instant ≡ false
      → parse_utc retry_at ≡ ok due
      → settle is_alnum publish owner seconds b c record_id now retry_at o'
        ≡ ok (delivered b retry_at c, set o' record_id (delivered b retry_at c))
  unfolding acknowledge retry require_claim store
  settle-claim publish owner seconds true record_id now retry_at o returns reads ends lasts due =
      let (current, expires, written, stored, fits) =
        claimed-delivered owner seconds true record_id now retry_at o returns due in
      ground (arith, string_eq.beq_iff owner owner)
  settle-claim publish owner seconds false record_id now retry_at o returns reads ends lasts due =
      let (current, expires, written, stored, fits) =
        claimed-delivered owner seconds false record_id now retry_at o returns due in
      ground (arith, string_eq.beq_iff owner owner)

  -- A dispatch whose claim returns with a lease that ends after the time of the dispatch, and whose
  -- time to retry is in UTC, returns, whatever the publisher does. If the publisher returns, then the
  -- record is accepted; if it raises, then the record is pending until the time to retry, or
  -- dead-lettered where its attempts are used up. That record is the one that is stored.
  pub dispatch-delivered :
      {S : Type 0} (publish : E → S → Bool × S) (owner : String) (seconds : ℤ)
      (record_id now retry_at : String) (o : Dict String (OutboxRecord E)) (s : S)
      {c : OutboxRecord E} {o' : Dict String (OutboxRecord E)} {instant expiry due : Moment}
      → claim is_alnum record_id owner now seconds none o ≡ ok (c, o')
      → parse_utc now ≡ ok instant
      → parse_utc (or_empty c.lease_expires_at) ≡ ok expiry
      → leb_ℤ expiry.instant instant.instant ≡ false
      → parse_utc retry_at ≡ ok due
      → dispatch is_alnum publish owner seconds record_id now retry_at o s ≡ (
        ok (delivered (publish c.event s).0 retry_at c),
        (set o' record_id (delivered (publish c.event s).0 retry_at c), (publish c.event s).1),
      )
  unfolding dispatch
  dispatch-delivered publish owner seconds record_id now retry_at o s {c = c} {o' = o'} returns
        reads ends lasts due =
      ap (λ r. deliver is_alnum publish owner seconds r record_id now retry_at o s) returns
      ∙ ap (λ r. kept is_alnum publish owner seconds r o' (publish c.event s).1)
          (settle-claim publish owner seconds (publish c.event s).0 record_id now retry_at o returns
            reads ends lasts due)
