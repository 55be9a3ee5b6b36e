-- ===== src/Billing/Service/Repeats.antt =====
-- A call that has returned is recorded under its idempotency key: called again, it returns the
-- recorded result and changes no repository.
pub mod Calls
use uwo_shared_platform.Prelude.{
  String, ◌≡◌, refl, Bool, true, false, Option, none, some, arith, inl, inr, Option-cases, ap,
  subst, sym, ◌∙◌,
}
use uwo_shared_platform.Prelude.Keys.{string_eq, pair_eq}
use uwo_shared_platform.Prelude.Dict.{get, set, get-set_self}
use uwo_shared_platform.Errors.{Error, Result, ok, err, Result-cases}
use uwo_shared_platform.Env.{Env}
use uwo_shared_platform.Contracts.Domain.{VerifiedSubjectIdentity}
use uwo_shared_platform.ControlPlane.{Directory}
use uwo_shared_platform.Billing.World.{
  World, Db, BillingAuditEvent, IdempotencyRecord, IdempotencyResult, IdempotencyScope, record_key,
}
use uwo_shared_platform.Billing.Idempotency
use uwo_shared_platform.Billing.Idempotency.{find, store}
use uwo_shared_platform.Billing.UnitOfWork.{transaction}
use uwo_shared_platform.Billing.Action.{Act, return, raise_when, trigger, emit, ◌>>=◌, ◌>>◌}
use uwo_shared_platform.Billing.Service.Common.{
  Attempt, replayed, fresh, guarded, or_replay, unless_replayed, early_replay, or_payment_required,
  make_scope, authorize, finish, replay,
}

put-find :
    (r : IdempotencyRecord) (w : World) {r' : IdempotencyRecord}
    → (Idempotency.put r w).0 ≡ ok r'
    → find (Idempotency.put r w).1.db r.scope r.key ≡ some r
unfolding Idempotency.put store find trigger ◌>>=◌
put-find r w h = ground (arith, get-set_self w.db.idempotency (record_key r.scope r.key) r)

-- what follows a mutation neither raises nor writes to a repository
abbrev pub Quiet : {A : Type 0} → (A → Act (Unit {0})) → Type 0
Quiet {A = A} f = (a : A) (w : World) → ((f a w).0 ≡ ok tt) × ((f a w).1.db ≡ w.db)

-- The same call on the database that it left, under the same directory, returns what it returned,
-- as `mark` shows a replay, and leaves the database.
pub record Repeats {A : Type 0} (mark : A → A) (m : Act A) : Type 0 where
  pub at :
      (w : World) (a : A) (w' : World)
      → m w ≡ (ok a, w')
      → (v : World) → v.db ≡ w'.db
      → v.directory ≡ w.directory
      → ((m v).0 ≡ ok (mark a)) × ((m v).1.db ≡ v.db)

module _ {A B : Type 0} (mark : A → A) (pick : IdempotencyResult → Option B) (again : B → A)
    (s : IdempotencyScope) (key print : String) where
  -- the database has the record of a call that returned `a`
  pub record HasRecord (db : Db) (a : A) : Type 0 where
    pub stored : IdempotencyRecord
    pub result : B
    pub found : find db s key ≡ some stored
    pub replays : replay pick stored print ≡ ok result
    pub same : again result ≡ mark a

  -- where the action returns, its result is recorded
  pub record Records (m : Act A) : Type 0 where
    pub at : (w : World) (a : A) (w' : World) → m w ≡ (ok a, w') → HasRecord w'.db a

  abbrev pub attempted : Attempt A → A
  attempted (replayed a) = a
  attempted (fresh a) = a

  pub record RecordsAttempt (m : Act (Attempt A)) : Type 0 where
    pub at :
        (w : World) (t : Attempt A) (w' : World) → m w ≡ (ok t, w') → HasRecord w'.db (attempted t)

  pub Records-bind :
      {C : Type 0} (m : Act C) (f : C → Act A) → ((c : C) → Records (f c)) → Records (m >>= f)
  unfolding ◌>>=◌
  Records-bind m f k = record {
    at = λ w a w' h. elim (Result-cases (m w).0) [
      | inl (c, done) ↦ (k c).at (m w).1 a w' (ground arith)
      | inr (x, raised) ↦ absurd (ground arith)
    ];
  }

  pub Records-put :
      (o : IdempotencyResult) (b : B) (a : A)
      → pick o ≡ some b
      → again b ≡ mark a
      → Records (
          Idempotency.put
            (record { scope = s; key = key; request_fingerprint = print; original_result = o })
          >>= λ _. return a)
  unfolding ◌>>=◌ replay
  Records-put o b a picked same = record {
    at = λ w a' w' h.
        let r : IdempotencyRecord = record {
          scope = s;
          key = key;
          request_fingerprint = print;
          original_result = o;
        } in
        elim (Result-cases (Idempotency.put r w).0) [
          | inl (r', done) ↦ record {
            stored = r;
            result = b;
            found = ground (arith, put-find r w done);
            replays = ground (arith, string_eq.beq_iff print print);
            same = ground arith;
          }
          | inr (x, raised) ↦ absurd (ground arith)
        ];
  }

  module _ (marked : (b : B) → mark (again b) ≡ again b) where
    -- the transaction of an operation, and its handlers
    pub RecordsAttempt-guarded :
        ⦃env : Env⦄ (request_id : String) (i : VerifiedSubjectIdentity) (t : String) (m : Act A)
        → Records m
        → RecordsAttempt (guarded request_id i t (or_replay pick again s key print m))
    unfolding guarded transaction or_replay ◌>>=◌
    RecordsAttempt-guarded request_id i t m k = record {
      at = λ w t w' h.
          let w₀ = record w { mutation_started = false; committed = false } in
          elim (Option-cases (find w.db s key)) [
            | inr (r, found) ↦ elim (Result-cases (replay pick r print)) [
              | inl (b, replays) ↦ record {
                stored = r;
                result = b;
                found = ground arith;
                replays = replays;
                same = ground (arith, marked b);
              }
              | inr (x, raised) ↦ absurd (ground arith)
            ]
            | inl missing ↦ elim (Result-cases (m w₀).0) [
              | inl (a, done) ↦
                  let kept = k.at w₀ a (m w₀).1 (ground arith) in
                  record {
                    stored = kept.stored;
                    result = kept.result;
                    found = ground (arith, kept.found);
                    replays = kept.replays;
                    same = ground (arith, kept.same);
                  }
              | inr (x, raised) ↦ absurd (ground arith)
            ]
          ];
    }

    pub RecordsAttempt-paid :
        ⦃env : Env⦄ (denial : BillingAuditEvent) (m : Act (Attempt A))
        → RecordsAttempt m
        → RecordsAttempt (or_payment_required denial m)
    unfolding or_payment_required ◌>>=◌
    RecordsAttempt-paid denial m k = record {
      at = λ w t w' h. elim (Result-cases (m w).0) [
        | inl (t', done) ↦ k.at w t w' (ground arith)
        | inr (x, raised) ↦ absurd (ground arith)
      ];
    }

    -- the audit event leaves the database
    pub Records-finish :
        (m : Act (Attempt A)) (f : A → Act (Unit {0}))
        → RecordsAttempt m
        → Quiet f
        → Records (m >>= finish f)
    unfolding ◌>>=◌
    Records-finish m f k quiet = record {
      at = λ w a w' h. elim (Result-cases (m w).0) [
        | inl (replayed a', done) ↦
            let kept = k.at w (replayed a') (m w).1 (ground arith) in
            record {
              stored = kept.stored;
              result = kept.result;
              found = ground (arith, kept.found);
              replays = kept.replays;
              same = ground (arith, kept.same);
            }
        | inl (fresh a', done) ↦
            let kept = k.at w (fresh a') (m w).1 (ground arith) in
            record {
              stored = kept.stored;
              result = kept.result;
              found = ground (arith, kept.found, quiet a' (m w).1);
              replays = kept.replays;
              same = ground (arith, kept.same, quiet a' (m w).1);
            }
        | inr (x, raised) ↦ absurd (ground arith)
      ];
    }

    -- a recorded call goes no further than its record
    guarded-recorded :
        ⦃env : Env⦄ (request_id : String) (i : VerifiedSubjectIdentity) (t : String) (m : Act A)
        (a : A) (v : World)
        → HasRecord v.db a
        → guarded request_id i t (or_replay pick again s key print m) v
          ≡ (ok (replayed (mark a)), record v { mutation_started = false; committed = true })
    unfolding guarded transaction or_replay ◌>>=◌
    guarded-recorded request_id i t m a v k = ground (arith, k.found, k.replays, k.same)

    HasRecord-resp : (d d' : Db) (a : A) → d' ≡ d → HasRecord d a → HasRecord d' a
    HasRecord-resp d d' a same k = subst (λ x. HasRecord x a) (sym same) k

    module _ ⦃env : Env⦄ (request_id : String) (i : VerifiedSubjectIdentity) (t : String)
        (m : Act A) (f : A → Act (Unit {0})) (k : Records m) (quiet : Quiet f) where
      pub Repeats-guarded :
          Repeats mark (guarded request_id i t (or_replay pick again s key print m) >>= finish f)
      unfolding ◌>>=◌
      Repeats-guarded = record {
        at = λ w a w' h v same _.
            let kept =
              (Records-finish _ f (RecordsAttempt-guarded request_id i t m k) quiet).at w a w' h in
            ground (
              arith,
              guarded-recorded request_id i t m a v (HasRecord-resp w'.db v.db a same kept),
            );
      }

      pub Repeats-paid :
          (denial : BillingAuditEvent)
          → Repeats mark (
              or_payment_required denial
                (guarded request_id i t (or_replay pick again s key print m))
              >>= finish f)
      unfolding ◌>>=◌ or_payment_required
      Repeats-paid denial = record {
        at = λ w a w' h v same _.
            let kept =
              (Records-finish _ f
                  (RecordsAttempt-paid denial _ (RecordsAttempt-guarded request_id i t m k))
                  quiet).at
                w a w' h in
            ground (
              arith,
              guarded-recorded request_id i t m a v (HasRecord-resp w'.db v.db a same kept),
            );
      }

    -- the early replay finds the record of the call, or of an earlier one
    Records-unless_replayed :
        (rest : Act A) → Records rest → Records (unless_replayed pick again s key print rest)
    unfolding unless_replayed transaction ◌>>=◌ replay
    Records-unless_replayed rest k = record {
      at = λ w a w' h. elim (Option-cases (find w.db s key)) [
        | inr (r, found) ↦ elim (Result-cases (replay pick r print)) [
          | inl (b, replays) ↦ record {
            stored = r;
            result = b;
            found = ground arith;
            replays = replays;
            same = ground (arith, marked b);
          }
          | inr (x, raised) ↦ absurd (ground arith)
        ]
        | inl missing ↦ k.at (record w { committed = true }) a w' (ground arith)
      ];
    }

    pub Repeats-unless_replayed :
        (rest : Act A) → Records rest → Repeats mark (unless_replayed pick again s key print rest)
    unfolding unless_replayed transaction ◌>>=◌
    Repeats-unless_replayed rest k = record {
      at = λ w a w' h v same _.
          let kept =
            HasRecord-resp w'.db v.db a same ((Records-unless_replayed rest k).at w a w' h) in
          ground (arith, kept.found, kept.replays, kept.same);
    }

module _ {A C : Type 0} (mark : A → A) (f : C → Act A) (k : (c : C) → Repeats mark (f c)) where
  -- what comes before reads the arguments and the directory alone
  pub Repeats-pure : (r : Result C) → Repeats mark ((λ w. (r, w)) >>= f)
  unfolding ◌>>=◌
  Repeats-pure (ok c) = record { at = λ w a w' h v same known. (k c).at w a w' h v same known }
  Repeats-pure (err x) = record { at = λ w a w' h v same known. absurd (ground arith) }

  pub Repeats-authorize :
      (t : Directory → Result C) → Repeats mark ((λ w. (t w.directory, w)) >>= f)
  unfolding ◌>>=◌
  Repeats-authorize t = record {
    at = λ w a w' h v same known. elim (Result-cases (t w.directory)) [
      | inl (c, done) ↦
          let again : t v.directory ≡ ok c = ap t known ∙ done in
          ground (arith, (k c).at w a w' (ground arith) v same known)
      | inr (x, raised) ↦ absurd (ground arith)
    ];
  }
