-- ===== src/Billing/Service/Repeats/Calls.antt =====
-- The operations whose repeated call the idempotency records answer.
use uwo_shared_platform.Prelude.{String, ◌≡◌, refl, true, false}
use uwo_shared_platform.Prelude.Int.{ℤ}
use uwo_shared_platform.Errors.{ok}
use uwo_shared_platform.Env.{Env}
use uwo_shared_platform.Contracts.Domain.{VerifiedSubjectIdentity}
use uwo_shared_platform.Contracts.Billing.{LedgerEntryType}
use uwo_shared_platform.Billing.World.{
  World, IdempotencyScope, IdempotencyResult, CreditMutationResult, ReservationMutationResult,
  CaptureMutationResult, ReleaseMutationResult,
}
use uwo_shared_platform.Billing.Authorizer.{require_executor, require_platform_admin}
use uwo_shared_platform.Billing.Action.{◌>>=◌, return}
use uwo_shared_platform.Billing.Idempotency
use uwo_shared_platform.Billing.Service.Common.{make_scope}
use uwo_shared_platform.Billing.Service.Credits.{
  credit_mutation_body, credit_new, credit_mutation, pick_credit, replayed_credit,
}
use uwo_shared_platform.Billing.Service.Reserve.{
  ReservationRequest, reserve_mutation, pick_reservation, replayed_reservation,
}
use uwo_shared_platform.Billing.Service.Capture.{UsageReport, pick_capture, replayed_capture}
use uwo_shared_platform.Billing.Service.Release.{release_mutation, pick_release, replayed_release}
use uwo_shared_platform.Billing.Service.GatewayReserve.{gateway_reserve_body, reserve_for_gateway}
use uwo_shared_platform.Billing.Service.GatewayCapture.{
  settle_mutation, gateway_capture_body, capture_for_gateway,
}
use uwo_shared_platform.Billing.Service.GatewayRelease.{gateway_release_body, release_for_gateway}
use uwo_shared_platform.Billing.Service.Repeats.{
  Repeats, Records, Records-bind, Records-put, Records-finish, RecordsAttempt-guarded,
  Repeats-guarded, Repeats-paid, Repeats-unless_replayed, Repeats-pure, Repeats-authorize,
}

module _ (s : IdempotencyScope) (key print : String) where
  Records-put_reservation :
      (r : ReservationMutationResult)
      → Records replayed_reservation pick_reservation replayed_reservation s key print (
          Idempotency.put (record {
            scope = s;
            key = key;
            request_fingerprint = print;
            original_result = IdempotencyResult.reservation_result r;
          })
          >>= λ _. return r)
  Records-put_reservation r = Records-put _ _ _ s key print _ r r refl refl

  Records-put_capture :
      (r : CaptureMutationResult)
      → Records replayed_capture pick_capture replayed_capture s key print (
          Idempotency.put (record {
            scope = s;
            key = key;
            request_fingerprint = print;
            original_result = IdempotencyResult.capture_result r;
          })
          >>= λ _. return r)
  Records-put_capture r = Records-put _ _ _ s key print _ r r refl refl

  Records-put_release :
      (r : ReleaseMutationResult)
      → Records replayed_release pick_release replayed_release s key print (
          Idempotency.put (record {
            scope = s;
            key = key;
            request_fingerprint = print;
            original_result = IdempotencyResult.release_result r;
          })
          >>= λ _. return r)
  Records-put_release r = Records-put _ _ _ s key print _ r r refl refl

  Records-put_credit :
      (r : CreditMutationResult)
      → Records replayed_credit pick_credit replayed_credit s key print (
          Idempotency.put (record {
            scope = s;
            key = key;
            request_fingerprint = print;
            original_result = IdempotencyResult.credit_result r;
          })
          >>= λ _. return r)
  Records-put_credit r = Records-put _ _ _ s key print _ r r refl refl

module _ ⦃env : Env⦄ where
  Records-gateway_reserve :
      (i : VerifiedSubjectIdentity) (t : String) (q : ReservationRequest) (seconds : ℤ)
      (s : IdempotencyScope) (key print : String)
      → Records replayed_reservation pick_reservation replayed_reservation s key print
          (gateway_reserve_body i t q seconds s key print)
  unfolding gateway_reserve_body reserve_mutation
  Records-gateway_reserve i t q seconds s key print =
      search (Records-bind, Records-put_reservation) depth 40

  Repeats-reserve_for_gateway :
      (i : VerifiedSubjectIdentity) (t : String) (q : ReservationRequest) (seconds : ℤ)
      (key : String)
      → Repeats replayed_reservation (reserve_for_gateway i t q seconds key)
  unfolding reserve_for_gateway make_scope
  Repeats-reserve_for_gateway i t q seconds key =
      Repeats-authorize _ _
        (λ _.
          Repeats-pure _ _
            (λ _.
              Repeats-pure _ _
                (λ _.
                  Repeats-pure _ _
                    (λ _.
                      Repeats-pure _ _
                        (λ scope.
                          Repeats-paid _ _ _ scope key _ (λ b. refl) _ _ _ _ _
                            (Records-gateway_reserve i t q seconds scope key _)
                            (λ a w. (refl, refl)) _)
                        _)
                    _)
                _)
            _)
        (λ d. require_executor d i t false)

  -- A gateway reservation that has returned, made again on the database it left and under the same
  -- directory, returns the same result, shown as not created, and leaves the database.
  pub reserve_for_gateway-again :
      (i : VerifiedSubjectIdentity) (t : String) (q : ReservationRequest) (seconds : ℤ)
      (key : String) (w : World) {r : ReservationMutationResult} {w' : World}
      → reserve_for_gateway i t q seconds key w ≡ (ok r, w')
      → (v : World) → v.db ≡ w'.db
      → v.directory ≡ w.directory
      → ((reserve_for_gateway i t q seconds key v).0 ≡ ok (replayed_reservation r))
        × ((reserve_for_gateway i t q seconds key v).1.db ≡ v.db)
  reserve_for_gateway-again i t q seconds key w {r} {w'} h =
      (Repeats-reserve_for_gateway i t q seconds key).at w r w' h

  Records-gateway_capture :
      (i : VerifiedSubjectIdentity) (t : String) (id : String) (u : UsageReport)
      (s : IdempotencyScope) (key print : String)
      → Records replayed_capture pick_capture replayed_capture s key print
          (gateway_capture_body i t id u s key print)
  unfolding gateway_capture_body settle_mutation
  Records-gateway_capture i t id u s key print = search (Records-bind, Records-put_capture) depth 40

  Repeats-capture_for_gateway :
      (i : VerifiedSubjectIdentity) (t : String) (id : String) (u : UsageReport)
      (key request_id : String)
      → Repeats replayed_capture (capture_for_gateway i t id u key request_id)
  unfolding capture_for_gateway make_scope
  Repeats-capture_for_gateway i t id u key request_id =
      Repeats-pure _ _
        (λ _.
          Repeats-authorize _ _
            (λ _.
              Repeats-pure _ _
                (λ scope.
                  Repeats-guarded _ _ _ scope key _ (λ b. refl) _ _ _ _ _
                    (Records-gateway_capture i t id u scope key _) (λ a w. (refl, refl)))
                _)
            (λ d. require_executor d i t false))
        _

  -- A settlement that has returned, made again on the database it left and under the same
  -- directory, returns the same result, shown as not created, and leaves the database: no usage is
  -- charged twice.
  pub capture_for_gateway-again :
      (i : VerifiedSubjectIdentity) (t : String) (id : String) (u : UsageReport)
      (key request_id : String) (w : World) {r : CaptureMutationResult} {w' : World}
      → capture_for_gateway i t id u key request_id w ≡ (ok r, w')
      → (v : World) → v.db ≡ w'.db
      → v.directory ≡ w.directory
      → ((capture_for_gateway i t id u key request_id v).0 ≡ ok (replayed_capture r))
        × ((capture_for_gateway i t id u key request_id v).1.db ≡ v.db)
  capture_for_gateway-again i t id u key request_id w {r} {w'} h =
      (Repeats-capture_for_gateway i t id u key request_id).at w r w' h

  Records-gateway_release :
      (i : VerifiedSubjectIdentity) (t : String) (id : String) (s : IdempotencyScope)
      (key print : String)
      → Records replayed_release pick_release replayed_release s key print
          (gateway_release_body i t id s key print)
  unfolding gateway_release_body release_mutation
  Records-gateway_release i t id s key print = search (Records-bind, Records-put_release) depth 40

  Repeats-release_for_gateway :
      (i : VerifiedSubjectIdentity) (t : String) (id key request_id : String)
      → Repeats replayed_release (release_for_gateway i t id key request_id)
  unfolding release_for_gateway make_scope
  Repeats-release_for_gateway i t id key request_id =
      Repeats-pure _ _
        (λ _.
          Repeats-authorize _ _
            (λ _.
              Repeats-pure _ _
                (λ scope.
                  Repeats-guarded _ _ _ scope key _ (λ b. refl) _ _ _ _ _
                    (Records-gateway_release i t id scope key _) (λ a w. (refl, refl)))
                _)
            (λ d. require_executor d i t true))
        _

  -- A gateway release that has returned, made again on the database it left and under the same
  -- directory, returns the same result, shown as not created, and leaves the database.
  pub release_for_gateway-again :
      (i : VerifiedSubjectIdentity) (t : String) (id key request_id : String) (w : World)
      {r : ReleaseMutationResult} {w' : World}
      → release_for_gateway i t id key request_id w ≡ (ok r, w')
      → (v : World) → v.db ≡ w'.db
      → v.directory ≡ w.directory
      → ((release_for_gateway i t id key request_id v).0 ≡ ok (replayed_release r))
        × ((release_for_gateway i t id key request_id v).1.db ≡ v.db)
  release_for_gateway-again i t id key request_id w {r} {w'} h =
      (Repeats-release_for_gateway i t id key request_id).at w r w' h

  Records-credit_new :
      (i : VerifiedSubjectIdentity) (t : String) (delta v : ℤ) (key request_id op : String)
      (ty : LedgerEntryType) (s : IdempotencyScope) (print : String)
      → Records replayed_credit pick_credit replayed_credit s key print
          (credit_new i t delta v key request_id op ty s print)
  unfolding credit_new credit_mutation_body
  Records-credit_new i t delta v key request_id op ty s print =
      Records-bind _ _ _ _ _ _ _ _ (λ account. Records-bind _ _ _ _ _ _ _ _ (λ _.
        Records-bind _ _ _ _ _ _ _ _ (λ now. Records-bind _ _ _ _ _ _ _ _ (λ entry.
          Records-finish _ _ _ _ _ _ (λ b. refl) _ _
            (RecordsAttempt-guarded _ _ _ s key print (λ b. refl) _ _ _ _
              (search (Records-bind, Records-put_credit) depth 20))
            (λ a w. (refl, refl))))))

  Repeats-credit_mutation :
      (i : VerifiedSubjectIdentity) (t : String) (delta v : ℤ) (key request_id op : String)
      (ty : LedgerEntryType)
      → Repeats replayed_credit (credit_mutation i t delta v key request_id op ty)
  unfolding credit_mutation make_scope
  Repeats-credit_mutation i t delta v key request_id op ty =
      Repeats-authorize _ _
        (λ _.
          Repeats-pure _ _
            (λ _.
              Repeats-pure _ _
                (λ _.
                  Repeats-pure _ _
                    (λ scope.
                      Repeats-unless_replayed _ _ _ scope key _ (λ b. refl) _
                        (Records-credit_new i t delta v key request_id op ty scope _))
                    _)
                _)
            _)
        (λ d. require_platform_admin d i)

  -- A grant, an adjustment or a refund that has returned, made again on the database it left and
  -- under the same directory, returns the same result, shown as not created, and leaves the
  -- database: no credit is given twice.
  pub credit_mutation-again :
      (i : VerifiedSubjectIdentity) (t : String) (delta v : ℤ) (key request_id op : String)
      (ty : LedgerEntryType) (w : World) {r : CreditMutationResult} {w' : World}
      → credit_mutation i t delta v key request_id op ty w ≡ (ok r, w')
      → (u : World) → u.db ≡ w'.db
      → u.directory ≡ w.directory
      → ((credit_mutation i t delta v key request_id op ty u).0 ≡ ok (replayed_credit r))
        × ((credit_mutation i t delta v key request_id op ty u).1.db ≡ u.db)
  credit_mutation-again i t delta v key request_id op ty w {r} {w'} h =
      (Repeats-credit_mutation i t delta v key request_id op ty).at w r w' h
