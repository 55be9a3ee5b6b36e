-- ===== src/Billing/Invariant/Balanced.antt =====
-- In a sound database the balance of a tenant's account can be derived: `balance` of
-- `InMemoryLedgerRepository`.
use uwo_shared_platform.Prelude.{
  String, ◌≡◌, refl, true, false, some, List, [], ◌∷◌, ◌&&◌, arith, inl, inr, Option-cases, ◌∙◌,
}
use uwo_shared_platform.Prelude.Int.{pos, ◌≤ℤ◌, ltb_ℤ, +ℤ_parts}
use uwo_shared_platform.Prelude.Keys.{string_eq}
use uwo_shared_platform.Prelude.Dict.{Dict, get}
use uwo_shared_platform.Errors.{ok, make, Result-cases}
use uwo_shared_platform.Env.{Env, is_utc}
use uwo_shared_platform.Contracts.Text.{is_identifier}
use uwo_shared_platform.Contracts.Billing.{BillingAccount, CreditBalance, LedgerEntry}
use uwo_shared_platform.Contracts.Checks.{balance_valid}
use uwo_shared_platform.Billing.World.{Accounts, Ledger}
use uwo_shared_platform.Billing.Accounts.{get_by_tenant}
use uwo_shared_platform.Billing.Ledger.{
  Totals, balance, derived, add_entries, add_entry, item_of, entries_of, owns,
}
use uwo_shared_platform.Billing.Invariant.Sound.{Sound}

module _ ⦃env : Env⦄ where
  add_entry-version :
      (id tenant : String) (e : LedgerEntry) (totals : Totals) {s : Totals}
      → add_entry id tenant e totals ≡ ok s
      → pos 1 ≤ℤ totals.2
      → pos 1 ≤ℤ s.2
  unfolding add_entry
  add_entry-version id tenant e totals h positive = ground (arith, +ℤ_parts totals.2 (pos 1))

  -- the version of a sum is positive
  add_entries-version :
      (items : Dict String LedgerEntry) (id tenant : String) (ids : List String) (totals : Totals)
      {s : Totals}
      → add_entries items id tenant ids totals ≡ ok s
      → pos 1 ≤ℤ totals.2
      → pos 1 ≤ℤ s.2
  unfolding add_entries
  add_entries-version items id tenant [] totals h positive = ground arith
  add_entries-version items id tenant (e ∷ ids) totals {s} h positive =
      elim (Result-cases (item_of items e)) [
        | inr (x, missing) ↦ absurd (ground arith)
        | inl (entry, found) ↦ elim (Result-cases (add_entry id tenant entry totals)) [
          | inr (x, refused) ↦ absurd (ground arith)
          | inl (next, added) ↦
              add_entries-version items id tenant ids next {s = s} (ground arith)
                (add_entry-version id tenant entry totals added positive)
        ]
      ]

  derived-returns :
      (id tenant as_of : String) (s : Totals)
      → ltb_ℤ s.0 (pos 0) ≡ false
      → ltb_ℤ s.1 (pos 0) ≡ false
      → pos 1 ≤ℤ s.2
      → derived id tenant as_of s
        ≡ make (is_identifier id && is_identifier tenant && is_utc as_of) (record {
          account_id = id;
          tenant_id = tenant;
          available_microunits = s.0;
          reserved_microunits = s.1;
          version = s.2;
          as_of = as_of;
        })
  unfolding derived balance_valid
  derived-returns id tenant as_of s available reserved version = ground arith

  balance-derived :
      (t : Accounts) (l : Ledger) (id tenant as_of : String) {s : Totals}
      → owns (get_by_tenant t tenant) id ≡ true
      → add_entries l.items id tenant (entries_of l id) (pos 0, pos 0, pos 1) ≡ ok s
      → balance t l id tenant as_of ≡ derived id tenant as_of s
  unfolding balance derived
  balance-derived t l id tenant as_of owned added = rw owned (rw added refl)

  -- what the balance of a tenant's account is
  pub record IsBalance (account_id tenant as_of : String) (b : CreditBalance) : Type 0 where
    pub account_is : b.account_id ≡ account_id
    pub tenant_is : b.tenant_id ≡ tenant
    pub time_is : b.as_of ≡ as_of
    pub available_fits : pos 0 ≤ℤ b.available_microunits
    pub reserved_fits : pos 0 ≤ℤ b.reserved_microunits

  pub Sound-balance :
      (t : Accounts) (l : Ledger) (tenant as_of : String) {a : BillingAccount}
      → Sound t l
      → get_by_tenant t tenant ≡ some a
      → (b : CreditBalance) × IsBalance a.account_id tenant as_of b
        × (balance t l a.account_id tenant as_of
            ≡ make (is_identifier a.account_id && is_identifier tenant && is_utc as_of) b)
  unfolding get_by_tenant
  Sound-balance t l tenant as_of {a} k found = elim (Option-cases (get t.tenant_index tenant)) [
    | inl missing ↦ absurd (ground arith)
    | inr (j, indexed) ↦
        let o = k.keyed tenant j indexed in
        let s = k.sums tenant j indexed in
        let names : a.account_id ≡ j = ground (arith, o.found, o.names) in
        let version =
          add_entries-version l.items j tenant (entries_of l j) (pos 0, pos 0, pos 1) s.added
            (omega arith) in
        let returns =
          derived-returns a.account_id tenant as_of s.totals s.available_fits s.reserved_fits
            version in
        let b : CreditBalance = record {
          account_id = a.account_id;
          tenant_id = tenant;
          available_microunits = s.totals.0;
          reserved_microunits = s.totals.1;
          version = s.totals.2;
          as_of = as_of;
        } in
        (
          b,
          record {
            account_is = refl;
            tenant_is = refl;
            time_is = refl;
            available_fits = ground (arith, s.available_fits);
            reserved_fits = ground (arith, s.reserved_fits);
          },
          balance-derived t l a.account_id tenant as_of {s = s.totals}
                (ground (arith, string_eq.beq_iff a.account_id a.account_id)) (rw names s.added)
              ∙ returns,
        )
  ]
