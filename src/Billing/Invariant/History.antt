-- ===== src/Billing/Invariant/History.antt =====
-- The ledger is a history: no call of the service changes an entry or the order of an account's
-- entries; it can only add some behind them.
use mathlib.Core.List.{append-nil, append_assoc}
use uwo_shared_platform.Prelude.{
  String, ◌≡◌, none, some, List, [], ◌∷◌, ◌++◌, arith, inl, inr, Bool-cases, sym, ◌∙◌, ap,
}
use uwo_shared_platform.Prelude.Int.{ℤ}
use uwo_shared_platform.Prelude.Keys.{string_eq, ◌==◌}
use uwo_shared_platform.Prelude.Dict.{get, get-set_kept}
use uwo_shared_platform.Errors.{ok}
use uwo_shared_platform.Env.{Env}
use uwo_shared_platform.Contracts.Domain.{VerifiedSubjectIdentity}
use uwo_shared_platform.Contracts.Billing.{CreditBalance, LedgerEntry}
use uwo_shared_platform.Billing.World.{World, Accounts, Ledger}
use uwo_shared_platform.Billing.Ledger.{accept, write, entries_of}
use uwo_shared_platform.Billing.Ledger.Derivation.{accept-Accepted}
use uwo_shared_platform.Billing.Ledger.Refinement.{entries_of-write, entries_of-write_ne}
use uwo_shared_platform.Billing.Service.Call.{Call, perform}
use uwo_shared_platform.Billing.Service.Preserves.Calls.{Preserves-perform}
use uwo_shared_platform.Billing.Invariant.Writes.{OnLedger, OnLedger-Stable}

pub get-write :
    (l : Ledger) (e : LedgerEntry) (id : String) {x : LedgerEntry}
    → get l.items e.entry_id ≡ none
    → get l.items id ≡ some x
    → get (write l e).items id ≡ some x
unfolding write
get-write l e id new found = get-set_kept l.items e.entry_id id e new found

pub record Extends (l l' : Ledger) : Type 0 where
  pub kept : (id : String) (e : LedgerEntry) → get l.items id ≡ some e → get l'.items id ≡ some e
  pub grown : (a : String) → (added : List String) × (entries_of l' a ≡ entries_of l a ++ added)

Extends-refl : (l : Ledger) → Extends l l
Extends-refl l = record { kept = λ id e h. h; grown = λ a. ([], sym (append-nil (entries_of l a))) }

module _ ⦃env : Env⦄ where
  Extends-write :
      (e : LedgerEntry) (v : ℤ) (t : Accounts) (l l' : Ledger) (b : CreditBalance)
      → accept t l' e v ≡ ok b
      → Extends l l'
      → Extends l (write l' e)
  Extends-write e v t l l' b h k = record {
    kept = λ id x found.
        let (c, accepted) = accept-Accepted t l' e v h in
        get-write l' e id accepted.is_new (k.kept id x found);
    grown = λ a.
        let (added, same) = k.grown a in
        elim (Bool-cases (a == e.account_id)) [
          | inl here ↦
              let its = (string_eq.beq_iff a e.account_id).0 here in
              (
                added ++ e.entry_id ∷ [],
                (ap (λ x. entries_of (write l' e) x) its ∙ entries_of-write l' e)
                    ∙ (ap (λ x. entries_of l' x ++ e.entry_id ∷ []) (sym its)
                        ∙ (ap (λ x. x ++ e.entry_id ∷ []) same
                            ∙ append_assoc (entries_of l a) added (e.entry_id ∷ []))),
              )
          | inr other ↦ (
            added,
            entries_of-write_ne l' e a (λ its. ground (arith, string_eq.beq_iff a e.account_id))
                ∙ same,
          )
        ];
  }

  -- After any call, of any outcome, every ledger entry stands as it was, and each account's list of
  -- entries is the old one with some, or none, behind it.
  pub perform-Extends :
      (i : VerifiedSubjectIdentity) (c : Call) (w : World)
      → Extends w.db.ledger (perform i c w).1.db.ledger
  perform-Extends i c w =
      (Preserves-perform (OnLedger (λ t l. Extends w.db.ledger l))
          (OnLedger-Stable (λ t l. Extends w.db.ledger l) (λ a t l _ _ p. p)
            (λ e v t l b h p. Extends-write e v t w.db.ledger l b h p))
          i c).at
        w (Extends-refl w.db.ledger)
