-- ===== src/Billing/Service/Status.antt =====
-- How `set_account_status` of services/platform_billing/service.py ends. It writes outside a unit of work.
use uwo_shared_platform.Prelude.{
  String, ◌≡◌, ◌⊎◌, true, false, some, inl, inr, arith, Bool-cases, Option-cases,
}
use uwo_shared_platform.Prelude.Int.{ℤ, pos, ◌+ℤ◌, ◌==ℤ◌, ==ℤ_iff}
use uwo_shared_platform.Prelude.Keys.{string_eq}
use uwo_shared_platform.Prelude.Dict.{get}
use uwo_shared_platform.Errors.{
  Code, Error, Result, ok, err, repository_integrity, resource_not_found, conflict, value_error,
  Result-cases,
}
use uwo_shared_platform.Env.{Env}
use uwo_shared_platform.Contracts.Domain.{VerifiedSubjectIdentity}
use uwo_shared_platform.Contracts.Billing.{BillingAccount, BillingAccountStatus}
use uwo_shared_platform.Contracts.Checks.{account_valid}
use uwo_shared_platform.Billing.World.{World, FailurePoint}
use uwo_shared_platform.Billing.Action.{armed, trigger, ◌>>=◌}
use uwo_shared_platform.Billing.Accounts as AccountRepository
use uwo_shared_platform.Billing.Accounts.{get_by_tenant, replace}
use uwo_shared_platform.Billing.Authorizer.{require_platform_admin}
use uwo_shared_platform.Billing.Service.Accounts.{set_account_status, same_status}
use uwo_shared_platform.Billing.Service.Common.{account_of, is_closed}

-- the account with its new status, at a time
abbrev pub restated : BillingAccount → BillingAccountStatus → String → BillingAccount
restated a status timestamp = record a {
  status = status;
  updated_at = timestamp;
  version = a.version +ℤ pos 1;
}

module _ ⦃env : Env⦄ where
  -- A platform administrator may give the tenant's account the status: it is not closed and of another
  -- status, and an account of the version expected stands under its identifier.
  pub record IsChangeable (i : VerifiedSubjectIdentity) (tenant : String)
      (status : BillingAccountStatus) (v : ℤ) (w : World) : Type 0 where
    pub account : BillingAccount
    pub current : BillingAccount
    pub allowed : require_platform_admin w.directory i ≡ ok tt
    pub found : get_by_tenant w.db.accounts tenant ≡ some account
    pub stored : get w.db.accounts.items account.account_id ≡ some current
    pub expected : current.version ≡ v
    pub was_open : is_closed account.status ≡ false
    pub differs : same_status account.status status ≡ false
    pub valid : account_valid (restated account status (env.clock w.ticks)) ≡ true

  -- the result and the repositories of a change of status of a changeable account
  pub record IsRestated (status : BillingAccountStatus) (a : BillingAccount) (w : World)
      (r : Result BillingAccount × World) : Type 0 where
    pub put :
        r.1.db
        ≡ record w.db { accounts = replace w.db.accounts (restated a status (env.clock w.ticks)) }
    pub returns :
        ((armed w.failing FailurePoint.account_write ≡ false)
          × (r.0 ≡ ok (restated a status (env.clock w.ticks))))
        ⊎ ((armed w.failing FailurePoint.account_write ≡ true) × (r.0 ≡ err repository_integrity))

  IsChangeable-restates :
      (i : VerifiedSubjectIdentity) (t : String) (s : BillingAccountStatus) (v : ℤ)
      (request_id : String) (w : World) (k : IsChangeable i t s v w)
      → IsRestated s k.account w (set_account_status i t s v request_id w)
  unfolding set_account_status account_of AccountRepository.update trigger ◌>>=◌
  IsChangeable-restates i t s v request_id w k =
      let fresh = (==ℤ_iff k.current.version v).1 k.expected in
      record {
        put = ground (arith, fresh, k.allowed, k.found, k.stored, k.was_open, k.differs, k.valid);
        returns = elim (Bool-cases (armed w.failing FailurePoint.account_write)) [
          | inl fails ↦ inr (
            fails,
            ground (arith, fresh, k.allowed, k.found, k.stored, k.was_open, k.differs, k.valid),
          )
          | inr passes ↦ inl (
            passes,
            ground (arith, fresh, k.allowed, k.found, k.stored, k.was_open, k.differs, k.valid),
          )
        ];
      }

  -- A change of status that is none: the account is not changeable, and the call raises and writes
  -- nothing.
  abbrev pub IsRefused :
      VerifiedSubjectIdentity
      → String
      → BillingAccountStatus
      → ℤ
      → World
      → Result BillingAccount × World
      → Type 0
  IsRefused i t s v w r =
      (¬ IsChangeable i t s v w) × ((e : Error) × (r.0 ≡ err e)) × (r.1.db ≡ w.db)

  -- both ends
  abbrev pub Ends :
      VerifiedSubjectIdentity
      → String
      → BillingAccountStatus
      → ℤ
      → World
      → Result BillingAccount × World
      → Type 0
  Ends i t s v w r =
      ((k : IsChangeable i t s v w) × IsRestated s k.account w r) ⊎ IsRefused i t s v w r

  Ends-found :
      (i : VerifiedSubjectIdentity) (t : String) (s : BillingAccountStatus) (v : ℤ)
      (request_id : String) (w : World) (a : BillingAccount)
      → require_platform_admin w.directory i ≡ ok tt
      → get_by_tenant w.db.accounts t ≡ some a
      → Ends i t s v w (set_account_status i t s v request_id w)
  unfolding set_account_status account_of AccountRepository.update trigger ◌>>=◌
  Ends-found i t s v request_id w a allowed found = elim (Bool-cases (is_closed a.status)) [
    | inl closed ↦ inr (
      λ k. absurd (ground (arith, k.found, k.was_open)),
      (conflict Code.billing_account_closed, ground arith),
      ground arith,
    )
    | inr opened ↦ elim (Bool-cases (same_status a.status s)) [
      | inl same ↦ inr (
        λ k. absurd (ground (arith, k.found, k.differs)),
        (conflict Code.status_unchanged, ground arith),
        ground arith,
      )
      | inr changed ↦ elim (Bool-cases (account_valid (restated a s (env.clock w.ticks)))) [
        | inr invalid ↦ inr (
          λ k. absurd (ground (arith, k.found, k.valid)),
          (value_error, ground arith),
          ground arith,
        )
        | inl valid ↦ elim (Option-cases (get w.db.accounts.items a.account_id)) [
          | inl unknown ↦ inr (
            λ k. absurd (ground (arith, k.found, k.stored)),
            (resource_not_found Code.unknown_billing_account, ground arith),
            ground arith,
          )
          | inr (c, stored) ↦ elim (Bool-cases (c.version ==ℤ v)) [
            | inr stale ↦ inr (
              λ k. absurd (ground (arith, k.found, k.stored, k.expected, ==ℤ_iff c.version v)),
              (conflict Code.stale_version, ground arith),
              ground arith,
            )
            | inl fresh ↦
                let k : IsChangeable i t s v w = record {
                  account = a;
                  current = c;
                  allowed = allowed;
                  found = found;
                  stored = stored;
                  expected = (==ℤ_iff c.version v).0 fresh;
                  was_open = opened;
                  differs = changed;
                  valid = valid;
                } in
                inl (k, IsChangeable-restates i t s v request_id w k)
          ]
        ]
      ]
    ]
  ]

  pub set_account_status-Ends :
      (i : VerifiedSubjectIdentity) (t : String) (s : BillingAccountStatus) (v : ℤ)
      (request_id : String) (w : World)
      → Ends i t s v w (set_account_status i t s v request_id w)
  unfolding set_account_status account_of ◌>>=◌
  set_account_status-Ends i t s v request_id w =
      elim (Result-cases (require_platform_admin w.directory i)) [
        | inr (x, refused) ↦
            inr (λ k. absurd (ground (arith, k.allowed)), (x, ground arith), ground arith)
        | inl (u, allowed) ↦ elim (Option-cases (get_by_tenant w.db.accounts t)) [
          | inl missing ↦ inr (
            λ k. absurd (ground (arith, k.found)),
            (resource_not_found Code.unknown_billing_account, ground arith),
            ground arith,
          )
          | inr (a, found) ↦ Ends-found i t s v request_id w a allowed found
        ]
      ]
