-- ===== src/Billing/Ledger/Refinement.antt =====
-- `append` refines the derivation: the balance that it returns is the one that the ledger derives
-- behind the write, and no other account's balance moves.
use uwo_shared_platform.Prelude.{String, ◌≡◌, ◌≢◌, none, [], ◌∷◌, ◌++◌, inl, inr, arith}
use uwo_shared_platform.Prelude.Int.{ℤ, pos, ◌+ℤ◌, ==ℤ_iff}
use uwo_shared_platform.Prelude.Keys.{string_eq}
use uwo_shared_platform.Prelude.Dict.{get, set, get-set, get-set_self}
use uwo_shared_platform.Errors.{ok, make, Result-cases}
use uwo_shared_platform.Env.{Env}
use uwo_shared_platform.Contracts.Billing.{CreditBalance, LedgerEntry}
use uwo_shared_platform.Contracts.Checks.{balance_valid}
use uwo_shared_platform.Billing.World.{World, Accounts, Ledger}
use uwo_shared_platform.Billing.Action.{trigger, ◌>>=◌}
use uwo_shared_platform.Billing.Ledger.{entries_of, add_entry, add_entries, balance, accept, write}
use uwo_shared_platform.Billing.Ledger.Append.{append}
use uwo_shared_platform.Billing.Ledger.Derivation.{
  add_entries-append, add_entries-set, balance-Derived, Accepted, accept-Accepted,
}

pub entries_of-write :
    (l : Ledger) (e : LedgerEntry)
    → entries_of (write l e) e.account_id ≡ entries_of l e.account_id ++ e.entry_id ∷ []
unfolding write
entries_of-write l e = ground (
  arith,
  get-set_self l.account_entries e.account_id (entries_of l e.account_id ++ e.entry_id ∷ []),
)

pub entries_of-write_ne :
    (l : Ledger) (e : LedgerEntry) (a : String)
    → a ≢ e.account_id
    → entries_of (write l e) a ≡ entries_of l a
unfolding write
entries_of-write_ne l e a ne = ground (
  arith,
  get-set l.account_entries e.account_id a (entries_of l e.account_id ++ e.entry_id ∷ []),
  string_eq.beq_iff e.account_id a,
)

module _ ⦃env : Env⦄ where
  -- an accepted entry is the next one of its account
  add_entry-Accepted :
      (accounts : Accounts) (l : Ledger) (e : LedgerEntry) (v : ℤ) (c b : CreditBalance)
      → Accepted accounts l e v c b
      → add_entry e.account_id e.tenant_id e
          (c.available_microunits, c.reserved_microunits, c.version)
        ≡ ok (b.available_microunits, b.reserved_microunits, b.version)
  unfolding add_entry
  add_entry-Accepted accounts l e v c b h = ground (
    arith,
    string_eq.beq_iff e.account_id e.account_id,
    string_eq.beq_iff e.tenant_id e.tenant_id,
    ==ℤ_iff e.version (c.version +ℤ pos 1),
  )

  add_entries-last :
      (accounts : Accounts) (l : Ledger) (e : LedgerEntry) (v : ℤ) (c b : CreditBalance)
      → Accepted accounts l e v c b
      → add_entries
          (set l.items e.entry_id e)
          e.account_id
          e.tenant_id
          (e.entry_id ∷ [])
          (c.available_microunits, c.reserved_microunits, c.version)
        ≡ ok (b.available_microunits, b.reserved_microunits, b.version)
  unfolding add_entries
  add_entries-last accounts l e v c b h =
      ground (arith, get-set_self l.items e.entry_id e, add_entry-Accepted accounts l e v c b h)

  -- behind the write the entries of the account add up to the balance that was returned
  pub add_entries-write :
      (accounts : Accounts) (l : Ledger) (e : LedgerEntry) (v : ℤ) (c b : CreditBalance)
      → Accepted accounts l e v c b
      → add_entries
          (write l e).items
          e.account_id
          e.tenant_id
          (entries_of (write l e) e.account_id)
          (pos 0, pos 0, pos 1)
        ≡ ok (b.available_microunits, b.reserved_microunits, b.version)
  unfolding write
  add_entries-write accounts l e v c b h =
      let before = balance-Derived accounts l e.account_id e.tenant_id e.created_at h.current in
      rw (entries_of-write l e) (
        rw add_entries-append (
          ground (
            arith,
            add_entries-set l.items e.account_id e.tenant_id (entries_of l e.account_id)
                (pos 0, pos 0, pos 1) e h.is_new before.added,
            add_entries-last accounts l e v c b h,
          )))

  balance-write :
      (accounts : Accounts) (l : Ledger) (e : LedgerEntry) (v : ℤ) {b : CreditBalance}
      → accept accounts l e v ≡ ok b
      → balance accounts (write l e) e.account_id e.tenant_id e.created_at
        ≡ make (balance_valid b) b
  unfolding balance
  balance-write accounts l e v {b} h =
      let (c, accepted) = accept-Accepted accounts l e v h in
      let before =
        balance-Derived accounts l e.account_id e.tenant_id e.created_at accepted.current in
      ground (arith, accepted, before, add_entries-write accounts l e v c b accepted)

  balance-write_ne :
      (accounts : Accounts) (l : Ledger) (e : LedgerEntry) (a t as_of : String) {b : CreditBalance}
      → a ≢ e.account_id
      → get l.items e.entry_id ≡ none
      → balance accounts l a t as_of ≡ ok b
      → balance accounts (write l e) a t as_of ≡ ok b
  unfolding balance write
  balance-write_ne accounts l e a t as_of ne new h =
      elim (Result-cases (add_entries l.items a t (entries_of l a) (pos 0, pos 0, pos 1))) [
        | inl (s, added) ↦ ground (
          arith,
          entries_of-write_ne l e a ne,
          add_entries-set l.items a t (entries_of l a) (pos 0, pos 0, pos 1) e new added,
        )
        | inr (x, refused) ↦ ground arith
      ]

  -- The balance that a successful append returns is the balance that the ledger then derives for the
  -- account, from all its entries.
  pub balance-append :
      (e : LedgerEntry) (v : ℤ) (w : World) {b : CreditBalance} {w' : World}
      → append e v w ≡ (ok b, w')
      → balance w'.db.accounts w'.db.ledger e.account_id e.tenant_id e.created_at ≡ ok b
  unfolding append trigger ◌>>=◌
  balance-append e v w h = elim (Result-cases (accept w.db.accounts w.db.ledger e v)) [
    | inl (b, accepted) ↦ ground (arith, balance-write w.db.accounts w.db.ledger e v accepted)
    | inr (x, refused) ↦ absurd (ground arith)
  ]

  -- An append, whether it returns or raises, leaves the balance that the ledger derives for any
  -- other account that has one.
  pub balance-append_ne :
      (e : LedgerEntry) (v : ℤ) (a t as_of : String) (w : World) {b : CreditBalance}
      → a ≢ e.account_id
      → balance w.db.accounts w.db.ledger a t as_of ≡ ok b
      → let w' = (append e v w).1 in balance w'.db.accounts w'.db.ledger a t as_of ≡ ok b
  unfolding append trigger ◌>>=◌
  balance-append_ne e v a t as_of w ne h =
      elim (Result-cases (accept w.db.accounts w.db.ledger e v)) [
        | inl (b, accepted) ↦
            let (c, found) = accept-Accepted w.db.accounts w.db.ledger e v accepted in
            ground (arith, balance-write_ne w.db.accounts w.db.ledger e a t as_of ne found.is_new h)
        | inr (x, refused) ↦ ground arith
      ]
