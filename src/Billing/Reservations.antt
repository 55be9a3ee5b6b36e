-- ===== src/Billing/Reservations.antt =====
-- `InMemoryReservationRepository`.
use uwo_shared_platform.Prelude.{String, not, Option}
use uwo_shared_platform.Prelude.Int.{ℤ, ◌==ℤ◌}
use uwo_shared_platform.Prelude.Keys.{string_eq}
use uwo_shared_platform.Prelude.Dict
use uwo_shared_platform.Errors.{Code, conflict, resource_not_found}
use uwo_shared_platform.Contracts.Billing.{CreditReservation}
use uwo_shared_platform.Billing.World.{Db, FailurePoint}
use uwo_shared_platform.Billing.Action.{
  Act, return, gets, raise_when, or_raise, write_db, trigger, ◌>>=◌, ◌>>◌,
}

-- `self._items[reservation.reservation_id] = reservation`
unfoldable pub put : CreditReservation → Db → Db
put r db = record db { reservations = Dict.set db.reservations r.reservation_id r }

unfoldable pub create : CreditReservation → Act CreditReservation
unfolding put
create r = do
  raise_when (← gets (λ w. Dict.contains w.db.reservations r.reservation_id))
      (conflict Code.reservation_exists)
  write_db (put r)
  trigger FailurePoint.reservation_write
  return r

abbrev pub get : String → Act (Option CreditReservation)
get reservation_id = gets (λ w. Dict.get w.db.reservations reservation_id)

unfoldable pub update : CreditReservation → ℤ → Act CreditReservation
unfolding put
update r expected_version = do
  found ← gets (λ w. Dict.get w.db.reservations r.reservation_id)
  current ← or_raise found (resource_not_found Code.unknown_reservation)
  raise_when (not (current.version ==ℤ expected_version)) (conflict Code.stale_version)
  write_db (put r)
  trigger FailurePoint.reservation_write
  return r
