-- ===== src/Billing/Invariant/Reachable.antt =====
-- Every database that the service reaches from one without accounts and entries is sound.
use uwo_shared_platform.Prelude.{
  String, ◌≡◌, refl, some, [], arith, inl, inr, Bool-cases, Option-cases, sym, subst, ◌&&◌,
}
use uwo_shared_platform.Prelude.Int.{ℤ}
use uwo_shared_platform.Prelude.Keys.{string_eq, ◌==◌}
use uwo_shared_platform.Prelude.Dict.{get, get-set}
use uwo_shared_platform.Errors.{make}
use uwo_shared_platform.Env.{Env, is_utc}
use uwo_shared_platform.Contracts.Domain.{VerifiedSubjectIdentity}
use uwo_shared_platform.Contracts.Billing.{BillingAccount, BillingAccountStatus, CreditBalance}
use uwo_shared_platform.Contracts.Text.{is_identifier}
use uwo_shared_platform.Billing.World.{World, Accounts, Ledger}
use uwo_shared_platform.Billing.Accounts.{get_by_tenant, replace}
use uwo_shared_platform.Billing.Ledger.{balance}
use uwo_shared_platform.Billing.Service.Accounts.{set_account_status}
use uwo_shared_platform.Billing.Service.Status.{restated, set_account_status-Ends}
use uwo_shared_platform.Billing.Service.Call.{Call, perform}
use uwo_shared_platform.Billing.Service.Preserves.Calls.{Preserves-perform}
use uwo_shared_platform.Billing.Invariant.Writes.{OnLedger, OnLedger-Stable}
use uwo_shared_platform.Billing.Invariant.Balanced.{IsBalance, Sound-balance}
use uwo_shared_platform.Billing.Invariant.Sound.{Sound, Sound-write, Sound-insert}

Sound-replace :
    ⦃env : Env⦄ (t : Accounts) (l : Ledger) (tenant : String) (a b : BillingAccount)
    → get_by_tenant t tenant ≡ some a
    → b.account_id ≡ a.account_id
    → b.tenant_id ≡ a.tenant_id
    → Sound t l
    → Sound (replace t b) l
unfolding get_by_tenant replace
Sound-replace t l tenant a b found names owner k = elim (Option-cases (get t.tenant_index tenant)) [
  | inl missing ↦ absurd (ground arith)
  | inr (j, indexed) ↦
      let mine = k.keyed tenant j indexed in
      record {
        keyed = λ s id h.
            let o = k.keyed s id h in
            elim (Bool-cases (b.account_id == id)) [
              | inl here ↦ record {
                account = b;
                found = ground (arith, get-set t.items b.account_id id b);
                names = (string_eq.beq_iff b.account_id id).0 here;
                owner = ground (
                  arith,
                  mine.found,
                  mine.names,
                  mine.owner,
                  o.found,
                  o.owner,
                  string_eq.beq_iff b.account_id id,
                );
              }
              | inr other ↦ record {
                account = o.account;
                found = ground (arith, get-set t.items b.account_id id b, o.found);
                names = o.names;
                owner = o.owner;
              }
            ];
        untouched =
            λ id missing. k.untouched id (ground (arith, get-set t.items b.account_id id b));
        sums = k.sums;
      }
]

module _ ⦃env : Env⦄ where
  -- The worlds that the service can bring about: by its calls, in any order and whatever they return,
  -- and by any change outside the repositories.
  pub data Reaches (w : World) : World → Type 0 where
    here : Reaches w w
    call :
        {v : World}
        → Reaches w v
        → (i : VerifiedSubjectIdentity) (c : Call) → Reaches w (perform i c v).1
    status :
        {v : World}
        → Reaches w v
        → (i : VerifiedSubjectIdentity) (t : String) (s : BillingAccountStatus) (n : ℤ)
          (request_id : String)
        → Reaches w (set_account_status i t s n request_id v).1
    outside : {v : World} → Reaches w v → (u : World) → u.db ≡ v.db → Reaches w u

  Reaches-Sound :
      {w v : World}
      → Reaches w v
      → Sound w.db.accounts w.db.ledger
      → Sound v.db.accounts v.db.ledger
  Reaches-Sound here k = k
  Reaches-Sound (call {v = v} r i c) k =
      (Preserves-perform (OnLedger Sound) (OnLedger-Stable Sound Sound-insert Sound-write) i c).at v
        (Reaches-Sound r k)
  Reaches-Sound (status {v = v} r i t s n request_id) k =
      let before = Reaches-Sound r k in
      elim (set_account_status-Ends i t s n request_id v) [
        | inr (none_changeable, raises, same) ↦ subst (OnLedger Sound) (sym same) before
        | inl (k, ends) ↦ subst (OnLedger Sound) (sym ends.put) (
            Sound-replace v.db.accounts v.db.ledger t k.account
              (restated k.account s (env.clock v.ticks)) k.found refl refl before)
      ]
  Reaches-Sound (outside {v = v} r u same) k = subst (OnLedger Sound) (sym same) (Reaches-Sound r k)

  -- In a database without accounts and ledger entries there is nothing to sum up.
  Sound-empty :
      (t : Accounts) (l : Ledger) → t.tenant_index ≡ [] → l.account_entries ≡ [] → Sound t l
  unfolding get
  Sound-empty t l no_tenant no_entry = record {
    keyed = λ tenant id h. absurd (ground arith);
    untouched = λ id missing. ground arith;
    sums = λ tenant id h. absurd (ground arith);
  }

  -- From a database without accounts and ledger entries no sequence of calls leads to one in which
  -- the balance of a tenant's account cannot be derived: for identifiers and a time that the contract
  -- of a balance accepts it is returned, is of the account and the tenant at the time, and has no
  -- negative part; for others the value error of the contract is raised, and no error else.
  pub balance-intact :
      {w v : World} (tenant as_of : String) {a : BillingAccount}
      → w.db.accounts.tenant_index ≡ []
      → w.db.ledger.account_entries ≡ []
      → Reaches w v
      → get_by_tenant v.db.accounts tenant ≡ some a
      → (b : CreditBalance) × IsBalance a.account_id tenant as_of b
        × (balance v.db.accounts v.db.ledger a.account_id tenant as_of
            ≡ make (is_identifier a.account_id && is_identifier tenant && is_utc as_of) b)
  balance-intact {w} {v} tenant as_of no_tenant no_entry r found =
      Sound-balance v.db.accounts v.db.ledger tenant as_of
        (Reaches-Sound r (Sound-empty w.db.accounts w.db.ledger no_tenant no_entry)) found
