-- ===== src/Billing/UnitOfWork.antt =====
-- `InMemoryBillingUnitOfWork`: the snapshot at the entry comes back unless the body commits and
-- does not raise. The locks are held for the whole body, so a body runs with no other step between.
use uwo_shared_platform.Prelude.{Bool, true, false, ◌||◌, not, if◌then◌else◌}
use uwo_shared_platform.Errors.{Result, ok, err}
use uwo_shared_platform.Billing.Action.{Act}

-- `commit`
abbrev pub commit : Act (Unit {0})
commit w = (ok tt, record w { committed = true })

-- `exc_type is not None`
abbrev raised {ℓ} : {A : Type ℓ} → Result A → Bool
raised (ok _) = false
raised (err _) = true

-- `__enter__`, the body, and `__exit__`
unfoldable pub transaction {ℓ} : {A : Type ℓ} → Act A → Act A
transaction body w =
    let (r, w') = body (record w { committed = false }) in
    (r, if raised r || not w'.committed then record w' { db = w.db } else w')
