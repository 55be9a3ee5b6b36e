-- ===== src/Billing/Invariant/Writes.antt =====
-- What each write of a repository does to the accounts and to the ledger.
use uwo_shared_platform.Prelude.{◌≡◌, ◌⊎◌, inl, inr, none, arith, subst, sym, Option-cases}
use uwo_shared_platform.Prelude.Int.{ℤ}
use uwo_shared_platform.Prelude.Keys.{string_eq, int_eq, pair_eq}
use uwo_shared_platform.Prelude.Dict.{get}
use uwo_shared_platform.Errors.{ok, Result-cases}
use uwo_shared_platform.Env.{Env}
use uwo_shared_platform.Contracts.Billing.{BillingAccount, CreditBalance, LedgerEntry}
use uwo_shared_platform.Billing.World.{World, Db, Accounts, Ledger}
use uwo_shared_platform.Billing.Accounts as AccountRepository
use uwo_shared_platform.Billing.Accounts.{insert}
use uwo_shared_platform.Billing.Idempotency
use uwo_shared_platform.Billing.Ledger.{accept, write}
use uwo_shared_platform.Billing.Ledger.Append
use uwo_shared_platform.Billing.Reservations
use uwo_shared_platform.Billing.Usage
use uwo_shared_platform.Billing.Action.{trigger, ◌>>=◌}
use uwo_shared_platform.Billing.Service.Preserves.{Stable}

-- what an append leaves: the ledger as it was, or an accepted entry written
append-ledger :
    ⦃env : Env⦄ (e : LedgerEntry) (v : ℤ) (w : World)
    → let db = (Append.append e v w).1.db in
      (db ≡ w.db)
      ⊎ ((b : CreditBalance) × (accept w.db.accounts w.db.ledger e v ≡ ok b)
          × (db ≡ record w.db { ledger = write w.db.ledger e }))
unfolding Append.append trigger ◌>>=◌
append-ledger e v w = elim (Result-cases (accept w.db.accounts w.db.ledger e v)) [
  | inl (b, accepted) ↦ inr (b, accepted, ground arith)
  | inr (x, refused) ↦ inl (ground arith)
]

create-accounts :
    (a : BillingAccount) (w : World)
    → let db = (AccountRepository.create a w).1.db in
      (db ≡ w.db)
      ⊎ ((get w.db.accounts.items a.account_id ≡ none)
          × (get w.db.accounts.tenant_index a.tenant_id ≡ none)
          × (db ≡ record w.db { accounts = insert w.db.accounts a }))
unfolding AccountRepository.create trigger ◌>>=◌
create-accounts a w = elim (Option-cases (get w.db.accounts.items a.account_id)) [
  | inr (x, found) ↦ inl (ground arith)
  | inl new ↦ elim (Option-cases (get w.db.accounts.tenant_index a.tenant_id)) [
    | inr (x, found) ↦ inl (ground arith)
    | inl free ↦ inr (new, free, ground arith)
  ]
]

module _ (P : Accounts → Ledger → Type 0) where
  -- a property of the accounts and the ledger, of a whole database
  abbrev pub OnLedger : Db → Type 0
  OnLedger db = P db.accounts db.ledger

  moved : (a a' : Accounts) (l l' : Ledger) → a' ≡ a → l' ≡ l → P a l → P a' l'
  moved a a' l l' p q h = subst (λ x. P x l') (sym p) (subst (λ x. P a x) (sym q) h)

  -- The other repositories leave it.
  pub OnLedger-Stable :
      ⦃env : Env⦄
      → ((a : BillingAccount) (t : Accounts) (l : Ledger)
          → get t.items a.account_id ≡ none
          → get t.tenant_index a.tenant_id ≡ none
          → P t l
          → P (insert t a) l)
      → ((e : LedgerEntry) (v : ℤ) (t : Accounts) (l : Ledger) (b : CreditBalance)
          → accept t l e v ≡ ok b
          → P t l
          → P t (write l e))
      → Stable OnLedger
  unfolding Reservations.create Reservations.update Usage.append Idempotency.put trigger ◌>>=◌
  OnLedger-Stable inserted written = record {
    account_create = λ a. record {
      at = λ w p. elim (create-accounts a w) [
        | inl same ↦ subst OnLedger (sym same) p
        | inr (new, free, put) ↦
            subst OnLedger (sym put) (inserted a w.db.accounts w.db.ledger new free p)
      ];
    };
    ledger_append = λ e v. record {
      at = λ w p. elim (append-ledger e v w) [
        | inl same ↦ subst OnLedger (sym same) p
        | inr (b, accepted, put) ↦
            subst OnLedger (sym put) (written e v w.db.accounts w.db.ledger b accepted p)
      ];
    };
    reservation_create =
        λ r _. record { at = λ w p. moved _ _ _ _ (ground arith) (ground arith) p };
    reservation_update =
        λ r v _. record { at = λ w p. moved _ _ _ _ (ground arith) (ground arith) p };
    usage_append = λ u. record { at = λ w p. moved _ _ _ _ (ground arith) (ground arith) p };
    record_put = λ r. record { at = λ w p. moved _ _ _ _ (ground arith) (ground arith) p };
  }
