-- ===== src/Billing/Ledger/Derivation.antt =====
-- The balance that `append` computes on top of the old one is the balance that the ledger derives
-- from all its entries behind the write.
use uwo_shared_platform.Prelude.{
  String, ◌≡◌, refl, true, false, none, List, [], ◌∷◌, ◌++◌, inl, inr, arith, Option-cases,
}
use uwo_shared_platform.Prelude.Int.{ℤ, pos, ◌+ℤ◌, ltb_ℤ, ==ℤ_iff}
use uwo_shared_platform.Prelude.Keys.{string_eq}
use uwo_shared_platform.Prelude.Dict.{Dict, get, set, get-set_kept}
use uwo_shared_platform.Errors.{ok, ◌>>=◌, Result-cases}
use uwo_shared_platform.Env.{Env}
use uwo_shared_platform.Contracts.Billing.{CreditBalance, LedgerEntry}
use uwo_shared_platform.Contracts.Checks.{entry_valid, balance_valid}
use uwo_shared_platform.Billing.World.{Accounts, Ledger}
use uwo_shared_platform.Billing.Accounts.{get_by_tenant}
use uwo_shared_platform.Billing.Ledger.{
  Totals, entries_of, add_entry, add_entries, balance, accept, owns,
}

module _ ⦃env : Env⦄ where
  -- The entries of two lists are added up one after the other.
  pub add_entries-append :
      (items : Dict String LedgerEntry) (a t : String) (ids more : List String) (s : Totals)
      → add_entries items a t (ids ++ more) s
        ≡ (add_entries items a t ids s >>= add_entries items a t more)
  unfolding add_entries
  add_entries-append items a t [] more s = refl
  add_entries-append items a t (id ∷ ids) more s = elim (Option-cases (get items id)) [
    | inl missing ↦ ground arith
    | inr (e, found) ↦ elim (Result-cases (add_entry a t e s)) [
      | inl (s', added) ↦ ground (arith, add_entries-append items a t ids more s')
      | inr (x, refused) ↦ ground arith
    ]
  ]

  -- An entry under a new name changes no sum that could be formed.
  pub add_entries-set :
      (items : Dict String LedgerEntry) (a t : String) (ids : List String) (s : Totals)
      {s' : Totals} (e : LedgerEntry)
      → get items e.entry_id ≡ none
      → add_entries items a t ids s ≡ ok s'
      → add_entries (set items e.entry_id e) a t ids s ≡ ok s'
  unfolding add_entries
  add_entries-set items a t [] s e new h = h
  add_entries-set items a t (id ∷ ids) s {s'} e new h = elim (Option-cases (get items id)) [
    | inl missing ↦ ground arith
    | inr (f, found) ↦ elim (Result-cases (add_entry a t f s)) [
      | inl (s₁, added) ↦ ground (
        arith,
        get-set_kept items e.entry_id id e new found,
        add_entries-set items a t ids s₁ {s' = s'} e new,
      )
      | inr (x, refused) ↦ ground arith
    ]
  ]

  -- what a derived balance was formed from
  pub record Derived (accounts : Accounts) (l : Ledger) (a t : String) (b : CreditBalance)
      : Type 0 where
    pub owned : owns (get_by_tenant accounts t) a ≡ true
    pub added :
        add_entries l.items a t (entries_of l a) (pos 0, pos 0, pos 1)
        ≡ ok (b.available_microunits, b.reserved_microunits, b.version)
    pub available_fits : ltb_ℤ b.available_microunits (pos 0) ≡ false
    pub reserved_fits : ltb_ℤ b.reserved_microunits (pos 0) ≡ false
    pub account : b.account_id ≡ a
    pub tenant : b.tenant_id ≡ t
    pub valid : balance_valid b ≡ true

  pub balance-Derived :
      (accounts : Accounts) (l : Ledger) (a t as_of : String) {b : CreditBalance}
      → balance accounts l a t as_of ≡ ok b
      → Derived accounts l a t b
  unfolding balance
  balance-Derived accounts l a t as_of h =
      elim (Result-cases (add_entries l.items a t (entries_of l a) (pos 0, pos 0, pos 1))) [
        | inl (s, added) ↦ ground arith
        | inr (x, refused) ↦ ground arith
      ]

  -- what `append` has found where it writes
  pub record Accepted (accounts : Accounts) (l : Ledger) (e : LedgerEntry) (v : ℤ)
      (c b : CreditBalance) : Type 0 where
    pub entry_fits : entry_valid e ≡ true
    pub is_new : get l.items e.entry_id ≡ none
    pub current : balance accounts l e.account_id e.tenant_id e.created_at ≡ ok c
    pub version_expected : c.version ≡ v
    pub next_version : e.version ≡ c.version +ℤ pos 1
    pub available : b.available_microunits ≡ c.available_microunits +ℤ e.available_delta_microunits
    pub reserved : b.reserved_microunits ≡ c.reserved_microunits +ℤ e.reserved_delta_microunits
    pub available_fits : ltb_ℤ b.available_microunits (pos 0) ≡ false
    pub reserved_fits : ltb_ℤ b.reserved_microunits (pos 0) ≡ false
    pub version : b.version ≡ e.version
    pub account : b.account_id ≡ e.account_id
    pub tenant : b.tenant_id ≡ e.tenant_id
    pub as_of : b.as_of ≡ e.created_at

  pub accept-Accepted :
      (accounts : Accounts) (l : Ledger) (e : LedgerEntry) (v : ℤ) {b : CreditBalance}
      → accept accounts l e v ≡ ok b
      → (c : CreditBalance) × Accepted accounts l e v c b
  unfolding accept
  accept-Accepted accounts l e v h =
      elim (Result-cases (balance accounts l e.account_id e.tenant_id e.created_at)) [
        | inl (c, found) ↦
            (c, ground (arith, ==ℤ_iff c.version v, ==ℤ_iff e.version (c.version +ℤ pos 1)))
        | inr (x, refused) ↦ absurd (ground arith)
      ]
