-- ===== src/DataServices/Outbox.antt =====
-- `OutboxStatus`, `OutboxRecord` and `InMemoryOutbox` of services/data_service_common.py. An
-- operation that raises has written nothing, so it returns the outbox with its record only. The
-- event and its equality are parameters, and so is `str.isalnum`. Counts are natural numbers, as the
-- tests of the record demand.
pub mod Lease
pub mod Dispatch
pub mod Delivery
use uwo_shared_platform.Prelude.{
  ℕ, ◌+◌, ◌≤◌, String, ◌≡◌, Bool, true, false, not, ◌&&◌, ◌||◌, Option, none, some, List, all, leb,
  eqb, length, arith, inl, inr, Option-cases, if◌then◌else◌,
}
use uwo_shared_platform.Prelude.Int.{ℤ, pos, leb_ℤ, ◌==ℤ◌}
use uwo_shared_platform.Prelude.Keys.{Eq, ◌==◌, string_eq}
use uwo_shared_platform.Prelude.Dict.{Dict, get, set}
use uwo_shared_platform.Errors.{
  Code, Result, ok, err, value_error, overflow_error, resource_not_found, conflict, raise_if, make,
  ◌>>=◌, ◌>>◌,
}
use uwo_shared_platform.Contracts.Text.{codes}
use uwo_shared_platform.Env.{Env, Moment, parse_iso}

pub data OutboxStatus : Type 0 where
  pending claimed accepted cancelled dead_lettered : OutboxStatus

-- `TERMINAL_OUTBOX_STATUSES`
abbrev pub is_terminal : OutboxStatus → Bool
is_terminal OutboxStatus.pending = false
is_terminal OutboxStatus.claimed = false
is_terminal OutboxStatus.accepted = true
is_terminal OutboxStatus.cancelled = true
is_terminal OutboxStatus.dead_lettered = true

abbrev pub is_claimed : OutboxStatus → Bool
is_claimed OutboxStatus.claimed = true
is_claimed _ = false

abbrev pub is_pending : OutboxStatus → Bool
is_pending OutboxStatus.pending = true
is_pending _ = false

abbrev pub is_accepted : OutboxStatus → Bool
is_accepted OutboxStatus.accepted = true
is_accepted _ = false

abbrev pub is_dead_lettered : OutboxStatus → Bool
is_dead_lettered OutboxStatus.dead_lettered = true
is_dead_lettered _ = false

pub record OutboxRecord (E : Type 0) : Type 0 where
  pub record_id : String
  pub event : E
  pub status : OutboxStatus
  pub attempts : ℕ
  pub next_attempt_at : Option String
  pub version : ℕ
  pub lease_owner : Option String
  pub lease_expires_at : Option String
  pub max_attempts : ℕ

abbrev pub is_none : Option String → Bool
is_none none = true
is_none (some _) = false

-- `value or ""`
abbrev pub or_empty : Option String → String
or_empty none = ""
or_empty (some s) = s

-- `owner == value`, where `owner` may be None
abbrev pub is_owner : Option String → String → Bool
is_owner none s = false
is_owner (some t) s = t == s

-- `expected is not None and version != expected`
abbrev pub is_stale : Option ℕ → ℕ → Bool
is_stale none version = false
is_stale (some expected) version = not (eqb version expected)

abbrev later : Moment → Moment → Bool
later a b = not (leb_ℤ a.instant b.instant)

abbrev has_zero_offset : Option ℤ → Bool
has_zero_offset none = false
has_zero_offset (some o) = o ==ℤ pos 0

module _ ⦃env : Env⦄ where
  -- `_parse_utc`
  unfoldable pub parse_utc : String → Result Moment
  parse_utc s = do parsed ← parse_iso s; make (has_zero_offset parsed.utc_offset) parsed

  abbrev pub utc_or_none : Option String → Bool
  utc_or_none none = true
  utc_or_none (some s) = elim (parse_utc s) [ ok _ ↦ true | err _ ↦ false ]

  unfoldable pub plus_seconds : Moment → ℤ → Result String
  plus_seconds m n = elim (env.plus_seconds m n) [ none ↦ err overflow_error | some s ↦ ok s ]

  abbrev is_before : Option String → Moment → Result Bool
  is_before none instant = ok false
  is_before (some s) instant = do due ← parse_utc s; ok (later due instant)

module _ ⦃env : Env⦄ {E : Type 0} where
  -- the status is CLAIMED and the lease ends after the moment
  unfoldable pub has_active_lease : OutboxRecord E → Moment → Result Bool
  has_active_lease r instant =
      if is_claimed r.status
      then ◌>>=◌ (parse_utc (or_empty r.lease_expires_at)) (λ expires. ok (later expires instant))
      else ok false

  -- the status is PENDING and the next attempt is after the moment
  unfoldable pub is_not_due : OutboxRecord E → Moment → Result Bool
  is_not_due r instant =
      if is_pending r.status then is_before r.next_attempt_at instant else ok false

  abbrev pub lease_ended : OutboxRecord E → Option String → Result Bool
  lease_ended current none = ok false
  lease_ended current (some now) = do
    expires ← parse_utc (or_empty current.lease_expires_at)
    instant ← parse_utc now
    ok (leb_ℤ expires.instant instant.instant)

  -- `_require_claim`
  unfoldable pub require_claim : OutboxRecord E → String → ℕ → Option String → Result (Unit {0})
  require_claim current lease_owner expected_version now = do
    raise_if (not (is_claimed current.status) || not (is_owner current.lease_owner lease_owner))
        (conflict Code.outbox_claim_required)
    raise_if (not (eqb current.version expected_version)) (conflict Code.stale_version)
    ended ← lease_ended current now
    raise_if ended (conflict Code.outbox_lease_expired)

module _ (is_alnum : ℕ → Bool) where
  -- `_stable`
  unfoldable pub stable : String → Bool
  stable s =
      not (eqb (length (codes s)) 0)
      && leb (length (codes s)) 256
      && all (λ c. is_alnum c || eqb c b'.' || eqb c b'_' || eqb c b':' || eqb c b'@' || eqb c b'-')
          (codes s)

module _ {E : Type 0} where
  abbrev record_or_raise : Option (OutboxRecord E) → Result (OutboxRecord E)
  record_or_raise none = err (resource_not_found Code.unknown_outbox_record)
  record_or_raise (some r) = ok r

  abbrev pub claimed_record : OutboxRecord E → String → String → OutboxRecord E
  claimed_record current owner expires = record {
    record_id = current.record_id;
    event = current.event;
    status = OutboxStatus.claimed;
    attempts = current.attempts + 1;
    next_attempt_at = none;
    version = current.version + 1;
    lease_owner = some owner;
    lease_expires_at = some expires;
    max_attempts = current.max_attempts;
  }

  -- the record without a lease, in a new status
  abbrev pub unleased_record : OutboxRecord E → OutboxStatus → Option String → OutboxRecord E
  unleased_record current status next_attempt_at = record {
    record_id = current.record_id;
    event = current.event;
    status = status;
    attempts = current.attempts;
    next_attempt_at = next_attempt_at;
    version = current.version + 1;
    lease_owner = none;
    lease_expires_at = none;
    max_attempts = current.max_attempts;
  }

module _ ⦃env : Env⦄ (is_alnum : ℕ → Bool) {E : Type 0} ⦃eq : Eq E⦄ where
  -- the tests of `OutboxRecord.__post_init__` after those of the types
  unfoldable pub record_valid : OutboxRecord E → Bool
  record_valid r =
      stable is_alnum r.record_id
      && leb 1 r.version
      && leb 1 r.max_attempts
      && utc_or_none r.next_attempt_at
      && utc_or_none r.lease_expires_at
      && not (is_claimed r.status && (is_none r.lease_owner || is_none r.lease_expires_at))
      && not (
          not (is_claimed r.status)
          && (not (is_none r.lease_owner) || not (is_none r.lease_expires_at)))

  -- `replace` runs the tests of the record, then the record is stored
  unfoldable pub store :
      Dict String (OutboxRecord E)
      → String
      → OutboxRecord E
      → Result (OutboxRecord E × Dict String (OutboxRecord E))
  store o record_id r = do updated ← make (record_valid r) r; ok (updated, set o record_id updated)

  unfoldable pub claim :
      String
      → String
      → String
      → ℤ
      → Option ℕ
      → Dict String (OutboxRecord E)
      → Result (OutboxRecord E × Dict String (OutboxRecord E))
  claim record_id lease_owner now lease_seconds expected_version o = do
    raise_if (not (stable is_alnum lease_owner)) value_error
    instant ← parse_utc now
    raise_if (leb_ℤ lease_seconds (pos 0)) value_error
    current ← record_or_raise (get o record_id)
    raise_if (is_terminal current.status) (conflict Code.outbox_terminal)
    raise_if (is_stale expected_version current.version) (conflict Code.stale_version)
    active ← has_active_lease current instant
    raise_if active (conflict Code.outbox_already_claimed)
    early ← is_not_due current instant
    raise_if early (conflict Code.retry_not_due)
    raise_if (leb current.max_attempts current.attempts) (conflict Code.outbox_attempts_exhausted)
    expires ← plus_seconds instant lease_seconds
    store o record_id (claimed_record current lease_owner expires)

  unfoldable pub acknowledge :
      String
      → String
      → ℕ
      → Option String
      → Dict String (OutboxRecord E)
      → Result (OutboxRecord E × Dict String (OutboxRecord E))
  acknowledge record_id lease_owner expected_version now o = do
    current ← record_or_raise (get o record_id)
    if is_accepted current.status then ok (current, o) else do
      require_claim current lease_owner expected_version now
      store o record_id (unleased_record current OutboxStatus.accepted current.next_attempt_at)

  unfoldable pub retry :
      String
      → String
      → ℕ
      → String
      → Option String
      → Dict String (OutboxRecord E)
      → Result (OutboxRecord E × Dict String (OutboxRecord E))
  retry record_id lease_owner expected_version next_attempt_at now o = do
    due ← parse_utc next_attempt_at
    current ← record_or_raise (get o record_id)
    require_claim current lease_owner expected_version now
    if leb current.max_attempts current.attempts
        then store o record_id (unleased_record current OutboxStatus.dead_lettered none)
        else store o record_id (unleased_record current OutboxStatus.pending (some next_attempt_at))

  unfoldable pub cancel :
      String → Dict String (OutboxRecord E) → Result (OutboxRecord E × Dict String (OutboxRecord E))
  cancel record_id o = do
    current ← record_or_raise (get o record_id)
    if is_terminal current.status
        then ok (current, o)
        else store o record_id (unleased_record current OutboxStatus.cancelled none)

  unfoldable pub enqueue :
      OutboxRecord E
      → Dict String (OutboxRecord E)
      → Result (OutboxRecord E × Dict String (OutboxRecord E))
  enqueue r o = elim (get o r.record_id) [
    | none ↦ ok (r, set o r.record_id r)
    | some existing ↦
        if existing.event == r.event then ok (existing, o) else err (conflict Code.outbox_conflict)
  ]

  unfoldable pub reconcile_dead_letter :
      String
      → ℕ
      → String
      → Dict String (OutboxRecord E)
      → Result (OutboxRecord E × Dict String (OutboxRecord E))
  reconcile_dead_letter record_id expected_version now o = do
    instant ← parse_utc now
    current ← record_or_raise (get o record_id)
    if is_dead_lettered current.status then ok (current, o) else do
      raise_if (is_terminal current.status) (conflict Code.outbox_terminal)
      raise_if (not (eqb current.version expected_version)) (conflict Code.stale_version)
      raise_if (not (leb current.max_attempts current.attempts))
          (conflict Code.outbox_attempts_available)
      active ← has_active_lease current instant
      raise_if active (conflict Code.outbox_already_claimed)
      early ← is_not_due current instant
      raise_if early (conflict Code.retry_not_due)
      store o record_id (unleased_record current OutboxStatus.dead_lettered none)
