-- ===== src/Billing/Invariant/Reserved.antt =====
-- The reservations that the service stores: each passes the tests of its contract, under its own
-- name, and what an operation takes out of one is what the ledger books.
use uwo_shared_platform.Prelude.{
  String, ◌≡◌, ◌⊎◌, true, some, arith, inl, inr, Bool-cases, Option-cases, subst, sym,
}
use uwo_shared_platform.Prelude.Int.{ℤ, pos, ◌-ℤ◌, ◌==ℤ◌, eq_of_parts, int_laws}
use uwo_shared_platform.Prelude.Keys.{string_eq, int_eq, pair_eq, ◌==◌}
use uwo_shared_platform.Prelude.Dict.{get, get-set}
use uwo_shared_platform.Env.{Env}
use uwo_shared_platform.Contracts.Domain.{VerifiedSubjectIdentity}
use uwo_shared_platform.Contracts.Billing.{CreditReservation}
use uwo_shared_platform.Contracts.Checks.{reservation_valid}
use uwo_shared_platform.Billing.World.{World, Db}
use uwo_shared_platform.Billing.Accounts
use uwo_shared_platform.Billing.Action.{trigger, ◌>>=◌}
use uwo_shared_platform.Billing.Idempotency
use uwo_shared_platform.Billing.Ledger.Append
use uwo_shared_platform.Billing.Reservations
use uwo_shared_platform.Billing.Reservations.{put}
use uwo_shared_platform.Billing.Usage
use uwo_shared_platform.Billing.Service.Capture.{remaining, captured_reservation}
use uwo_shared_platform.Billing.Service.Release.{released_reservation}
use uwo_shared_platform.Billing.Service.GatewayCapture.{settled_reservation}
use uwo_shared_platform.Billing.Service.Call.{Call, perform}
use uwo_shared_platform.Billing.Service.Preserves.{Stable}
use uwo_shared_platform.Billing.Service.Preserves.Calls.{Preserves-perform}

-- A capture takes the charge out of what remains of a reservation, and a settlement or a release
-- leaves nothing of it.
pub remaining-settled :
    (r : CreditReservation) (charge : ℤ) (now : String)
    → (remaining (captured_reservation r charge now) ≡ remaining r -ℤ charge)
      × (remaining (settled_reservation r charge now) ≡ pos 0)
      × (remaining (released_reservation r now) ≡ pos 0)
unfolding remaining captured_reservation settled_reservation released_reservation
remaining-settled r charge now = (
  eq_of_parts _ _ (omega int_laws),
  eq_of_parts _ _ (omega int_laws),
  eq_of_parts _ _ (omega int_laws),
)

create-db :
    (r : CreditReservation) (w : World)
    → ((Reservations.create r w).1.db ≡ w.db) ⊎ ((Reservations.create r w).1.db ≡ put r w.db)
unfolding Reservations.create trigger ◌>>=◌
create-db r w = elim (Option-cases (get w.db.reservations r.reservation_id)) [
  | inl new ↦ inr (ground arith)
  | inr (x, found) ↦ inl (ground arith)
]

update-db :
    (r : CreditReservation) (v : ℤ) (w : World)
    → ((Reservations.update r v w).1.db ≡ w.db) ⊎ ((Reservations.update r v w).1.db ≡ put r w.db)
unfolding Reservations.update trigger ◌>>=◌
update-db r v w = elim (Option-cases (get w.db.reservations r.reservation_id)) [
  | inl missing ↦ inl (ground arith)
  | inr (x, found) ↦ elim (Bool-cases (x.version ==ℤ v)) [
    | inl current ↦ inr (ground arith)
    | inr stale ↦ inl (ground arith)
  ]
]

module _ ⦃env : Env⦄ where
  -- what is stored under a name is a reservation of that name that its contract accepts
  abbrev pub AllValid : Db → Type 0
  AllValid db =
      (id : String) (r : CreditReservation)
      → get db.reservations id ≡ some r
      → (reservation_valid r ≡ true) × (r.reservation_id ≡ id)

  AllValid-put :
      (r : CreditReservation) (db : Db)
      → reservation_valid r ≡ true
      → AllValid db
      → AllValid (put r db)
  unfolding put
  AllValid-put r db valid k id x found = elim (Bool-cases (r.reservation_id == id)) [
    | inl here ↦
        let same : x ≡ r = ground (arith, get-set db.reservations r.reservation_id id r) in
        ground (arith, string_eq.beq_iff r.reservation_id id)
    | inr other ↦ k id x (ground (arith, get-set db.reservations r.reservation_id id r))
  ]

  stored :
      (r : CreditReservation) (d d' : Db)
      → reservation_valid r ≡ true
      → (d' ≡ d) ⊎ (d' ≡ put r d)
      → AllValid d
      → AllValid d'
  stored r d d' valid (inl same) k = subst AllValid (sym same) k
  stored r d d' valid (inr written) k = subst AllValid (sym written) (AllValid-put r d valid k)

  others : (d d' : Db) → d'.reservations ≡ d.reservations → AllValid d → AllValid d'
  others d d' same k id r h = k id r (ground arith)

  AllValid-Stable : Stable AllValid
  unfolding Accounts.create Append.append Usage.append Idempotency.put trigger ◌>>=◌
  AllValid-Stable = record {
    account_create =
        λ a. record { at = λ w p. others w.db (Accounts.create a w).1.db (ground arith) p };
    reservation_create = λ r valid. record { at = λ w p. stored r w.db _ valid (create-db r w) p };
    reservation_update =
        λ r v valid. record { at = λ w p. stored r w.db _ valid (update-db r v w) p };
    usage_append = λ u. record { at = λ w p. others w.db (Usage.append u w).1.db (ground arith) p };
    ledger_append =
        λ e v. record { at = λ w p. others w.db (Append.append e v w).1.db (ground arith) p };
    record_put =
        λ r. record { at = λ w p. others w.db (Idempotency.put r w).1.db (ground arith) p };
  }

  -- If every stored reservation passes the tests of its contract, so that what is captured and what
  -- is released of it is no more than the estimate, then so it does after any call, of any outcome.
  pub perform-AllValid :
      (i : VerifiedSubjectIdentity) (c : Call) (w : World)
      → AllValid w.db
      → AllValid (perform i c w).1.db
  perform-AllValid i c w k = (Preserves-perform AllValid AllValid-Stable i c).at w k
