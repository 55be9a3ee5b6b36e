-- ===== src/Billing/Invariant/Sound.antt =====
-- The ledger of every account that the service has opened can be summed up: its entries stand, they
-- are the account's, their versions count up, and neither sum is negative.
use uwo_shared_platform.Prelude.{
  String, ◌≡◌, refl, ◌≢◌, true, false, none, some, [], arith, inl, inr, Bool-cases, Option-cases,
  sym, ◌∙◌, ap, subst,
}
use uwo_shared_platform.Prelude.Int.{ℤ, pos, ltb_ℤ}
use uwo_shared_platform.Prelude.Keys.{string_eq, ◌==◌}
use uwo_shared_platform.Prelude.Dict.{get, get-set, get-set_self, get-set_kept}
use uwo_shared_platform.Errors.{ok}
use uwo_shared_platform.Env.{Env}
use uwo_shared_platform.Contracts.Billing.{BillingAccount, CreditBalance, LedgerEntry}
use uwo_shared_platform.Billing.World.{Accounts, Ledger}
use uwo_shared_platform.Billing.Accounts.{get_by_tenant, insert}
use uwo_shared_platform.Billing.Ledger.{Totals, accept, write, entries_of, add_entries, owns}
use uwo_shared_platform.Billing.Ledger.Derivation.{
  accept-Accepted, add_entries-set, balance-Derived,
}
use uwo_shared_platform.Billing.Ledger.Refinement.{entries_of-write_ne, add_entries-write}

module _ ⦃env : Env⦄ where
  pub record SumsUp (l : Ledger) (id tenant : String) : Type 0 where
    pub totals : Totals
    pub added : add_entries l.items id tenant (entries_of l id) (pos 0, pos 0, pos 1) ≡ ok totals
    pub available_fits : ltb_ℤ totals.0 (pos 0) ≡ false
    pub reserved_fits : ltb_ℤ totals.1 (pos 0) ≡ false

  pub record Opened (t : Accounts) (tenant id : String) : Type 0 where
    pub account : BillingAccount
    pub found : get t.items id ≡ some account
    pub names : account.account_id ≡ id
    pub owner : account.tenant_id ≡ tenant

  pub record Sound (t : Accounts) (l : Ledger) : Type 0 where
    pub keyed : (tenant id : String) → get t.tenant_index tenant ≡ some id → Opened t tenant id
    pub untouched : (id : String) → get t.items id ≡ none → entries_of l id ≡ []
    pub sums : (tenant id : String) → get t.tenant_index tenant ≡ some id → SumsUp l id tenant

  -- the account that a balance or an append finds is the one of the index
  owns-index :
      (t : Accounts) (l : Ledger) (tenant id : String)
      → Sound t l
      → owns (get_by_tenant t tenant) id ≡ true
      → get t.tenant_index tenant ≡ some id
  unfolding get_by_tenant
  owns-index t l tenant id k h = elim (Option-cases (get t.tenant_index tenant)) [
    | inl missing ↦ absurd (ground arith)
    | inr (j, indexed) ↦
        let o = k.keyed tenant j indexed in
        ground (arith, o.found, o.names, string_eq.beq_iff o.account.account_id id)
  ]

  one_tenant :
      (t : Accounts) (l : Ledger) (s u id : String)
      → Sound t l
      → get t.tenant_index s ≡ some id
      → get t.tenant_index u ≡ some id
      → s ≡ u
  one_tenant t l s u id k h g =
      let o = k.keyed s id h in
      let o' = k.keyed u id g in ground (arith, o.found, o'.found, o.owner, o'.owner)

  add_entries-write_ne :
      (l : Ledger) (e : LedgerEntry) (id tenant : String) {s : Totals}
      → get l.items e.entry_id ≡ none
      → id ≢ e.account_id
      → add_entries l.items id tenant (entries_of l id) (pos 0, pos 0, pos 1) ≡ ok s
      → add_entries (write l e).items id tenant (entries_of (write l e) id) (pos 0, pos 0, pos 1)
        ≡ ok s
  unfolding write
  add_entries-write_ne l e id tenant new ne h =
      rw (entries_of-write_ne l e id ne)
        (add_entries-set l.items id tenant (entries_of l id) (pos 0, pos 0, pos 1) e new h)

  sum_of_none :
      (l : Ledger) (id tenant : String)
      → entries_of l id ≡ []
      → add_entries l.items id tenant (entries_of l id) (pos 0, pos 0, pos 1)
        ≡ ok (pos 0, pos 0, pos 1)
  unfolding add_entries
  sum_of_none l id tenant empty = rw empty refl

  pub Sound-write :
      (e : LedgerEntry) (v : ℤ) (t : Accounts) (l : Ledger) (b : CreditBalance)
      → accept t l e v ≡ ok b
      → Sound t l
      → Sound t (write l e)
  Sound-write e v t l b h k =
      let (c, accepted) = accept-Accepted t l e v h in
      let its =
        owns-index t l e.tenant_id e.account_id k
          (balance-Derived t l e.account_id e.tenant_id e.created_at accepted.current).owned in
      record {
        keyed = k.keyed;
        untouched = λ id missing.
            entries_of-write_ne l e id
              (λ same. ground (arith, missing, (k.keyed e.tenant_id e.account_id its).found))
            ∙ k.untouched id missing;
        sums = λ tenant id indexed. elim (Bool-cases (id == e.account_id)) [
          | inl here ↦
              let here' = (string_eq.beq_iff id e.account_id).0 here in
              let owner =
                one_tenant t l tenant e.tenant_id e.account_id k (indexed ∙ ap some here') its in
              let base : SumsUp (write l e) e.account_id e.tenant_id = record {
                totals = (b.available_microunits, b.reserved_microunits, b.version);
                added = add_entries-write t l e v c b accepted;
                available_fits = accepted.available_fits;
                reserved_fits = accepted.reserved_fits;
              } in
              subst (λ x. SumsUp (write l e) x tenant) (sym here')
                (subst (SumsUp (write l e) e.account_id) (sym owner) base)
          | inr other ↦
              let old = k.sums tenant id indexed in
              record {
                totals = old.totals;
                added =
                    add_entries-write_ne l e id tenant accepted.is_new
                      (λ same. ground (arith, string_eq.beq_iff id e.account_id)) old.added;
                available_fits = old.available_fits;
                reserved_fits = old.reserved_fits;
              }
        ];
      }

  pub Sound-insert :
      (a : BillingAccount) (t : Accounts) (l : Ledger)
      → get t.items a.account_id ≡ none
      → get t.tenant_index a.tenant_id ≡ none
      → Sound t l
      → Sound (insert t a) l
  unfolding insert
  Sound-insert a t l new free k = record {
    keyed = λ tenant id indexed. elim (Bool-cases (a.tenant_id == tenant)) [
      | inl here ↦ record {
        account = a;
        found = ground (
          arith,
          get-set_self t.items a.account_id a,
          get-set t.tenant_index a.tenant_id tenant a.account_id,
        );
        names = ground (arith, get-set t.tenant_index a.tenant_id tenant a.account_id);
        owner = (string_eq.beq_iff a.tenant_id tenant).0 here;
      }
      | inr other ↦
          let o =
            k.keyed tenant id
              (ground (arith, get-set t.tenant_index a.tenant_id tenant a.account_id)) in
          record {
            account = o.account;
            found = get-set_kept t.items a.account_id id a new o.found;
            names = o.names;
            owner = o.owner;
          }
    ];
    untouched = λ id missing. k.untouched id (ground (arith, get-set t.items a.account_id id a));
    sums = λ tenant id indexed. elim (Bool-cases (a.tenant_id == tenant)) [
      | inl here ↦ record {
        totals = (pos 0, pos 0, pos 1);
        added = sum_of_none l id tenant (
            k.untouched id
              (ground (arith, get-set t.tenant_index a.tenant_id tenant a.account_id)));
        available_fits = refl;
        reserved_fits = refl;
      }
      | inr other ↦
          k.sums tenant id (ground (arith, get-set t.tenant_index a.tenant_id tenant a.account_id))
    ];
  }
