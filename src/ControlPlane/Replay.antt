-- ===== src/ControlPlane/Replay.antt =====
-- The replay of `create_tenant`, under its idempotency key, after any calls.
use uwo_shared_platform.Prelude.{
  String, ◌+◌, ◌≡◌, refl, sym, ap, ◌∙◌, subst, Bool, true, false, not, Option, none, some, arith,
  List,
}
use uwo_shared_platform.Prelude.Keys.{string_eq, pair_eq, false-ne-true}
use uwo_shared_platform.Prelude.Dict.{get, get-set_self}
use uwo_shared_platform.Errors.{Result, ok, err}
use uwo_shared_platform.Env.{Env, is_utc}
use uwo_shared_platform.Contracts.Text.{is_key}
use uwo_shared_platform.Contracts.Domain.{Tenant, VerifiedSubjectIdentity}
use uwo_shared_platform.ControlPlane.{Directory}
use uwo_shared_platform.ControlPlane.Authorization
use uwo_shared_platform.ControlPlane.Checks.{policy_valid, scope_valid, tenant_valid}
use uwo_shared_platform.ControlPlane.World.{
  CreateResult, Db, IdempotencyRecord, IdempotencyResult, PolicyDocument, World, record_key,
}
use uwo_shared_platform.ControlPlane.Ends.{
  Ends, Ending, Ends-assoc, Ends-bind, Ends-construct_passed, Ends-contract_passed,
  Ends-raise_when_passed, Ends-reads_passed, Ends-transaction_passed, Ends-clock, Ends-commit,
  Ends-construct, Ends-contract, Ends-forget, Ends-gets, Ends-raise_when, Ends-reads, Ends-return,
  Ends-transaction,
}
use uwo_shared_platform.ControlPlane.Repositories.Idempotency
use uwo_shared_platform.ControlPlane.Service.Common.{
  fingerprint, platform_only, record_of, replay, scope_fields, scope_of,
}
use uwo_shared_platform.ControlPlane.Service.Tenants.{
  create_tenant, new_policy, new_tenant, provision, provisioning_fields, result_of,
}
use uwo_shared_platform.ControlPlane.Invariant.Rules.{
  Ends-audited, Ends-done, Ends-if, Ends-put, Ends-replay,
}
use uwo_shared_platform.ControlPlane.Invariant.Tenants.{
  Ends-create, Ends-create_initial, Ends-initialize, Ends-on_failure, Settles-create_tenant,
}
use uwo_shared_platform.ControlPlane.Invariant.{Follows, Grows, IsCoherent}
use uwo_shared_platform.ControlPlane.Invariant.Calls.{perform_all-Grows}
use uwo_shared_platform.ControlPlane.Service.Call.{Call, perform_all}

module _ ⦃env : Env⦄ (fixed : Directory) (i : VerifiedSubjectIdentity)
    (t name region key : String) where
  -- the record that a provisioning leaves
  abbrev pub provisioned_record : Tenant → IdempotencyRecord
  provisioned_record tenant =
      record_of (scope_fields "tenant.create" t i) key
        (fingerprint (provisioning_fields t name region)) (IdempotencyResult.tenant_result tenant)

  -- What a provisioning that returned has shown of its arguments, and what it has stored.
  pub record IsProvisioned (tenant : Tenant) (d : Db) : Type 0 where
    pub at : String
    pub admitted : Authorization.require_platform_admin fixed i ≡ ok tt
    pub has_key : is_key key ≡ true
    pub has_tenant : tenant_valid (new_tenant t name region at) ≡ true
    pub has_policy : policy_valid (new_policy t i.subject at) ≡ true
    pub has_scope : scope_valid (scope_fields "tenant.create" t i) ≡ true
    pub stored :
        get d.idempotency (record_key (scope_fields "tenant.create" t i) key)
        ≡ some (provisioned_record tenant)

  abbrev Provisions : CreateResult → Db → Type 0
  Provisions r d = r.created ≡ true → IsProvisioned r.tenant d

  provision-stored :
      (w : World) (p : PolicyDocument) (tenant : Tenant) (existing : Option IdempotencyRecord)
      → ((d : Db)
          → get d.idempotency (record_key (scope_fields "tenant.create" t i) key)
            ≡ some (provisioned_record tenant)
          → IsProvisioned tenant d)
      → Ends
          (λ r w'. (w'.committed ≡ true) × Provisions r w'.db)
          (λ _. Unit)
          (provision tenant p (provisioned_record tenant) existing)
          (record w { committed = false })
  unfolding provision Idempotency.store
  provision-stored w p tenant (some existing) k =
      Ends-replay _ _ _ _ tt
        (λ a _ _. Ends-commit _ (Ends-done _ (refl, λ new. absurd (false-ne-true new))))
  provision-stored w p tenant none k =
      Ends-create _ _ (λ _. tt)
        (λ _.
          Ends-initialize _ _ (λ _. tt)
            (λ _.
              Ends-create_initial _ _ (λ _. tt)
                (λ _. Ends-construct _ _ _ tt (λ _. Ends-construct _ _ _ tt (λ _.
                  Ends-put _ _ (λ _. tt)
                    (λ _. Ends-commit _ (Ends-done _ (refl, λ _. k _ (get-set_self _ _ _)))))))))

  of_not : (b : Bool) → not b ≡ false → b ≡ true
  of_not b h = ground arith

  create_tenant-Provisions :
      (w : World) (request_id : String)
      → Ends
          (λ r w'. Provisions r w'.db)
          (λ _. Unit)
          (create_tenant fixed i t name region key request_id)
          w
  unfolding create_tenant platform_only scope_of Authorization.require_platform_admin
  create_tenant-Provisions w request_id = Ends-reads _ _ tt (λ _ admitted.
      Ends-raise_when _ _ _ tt (λ keyed. Ends-clock _ (
        Ends-contract _ _ _ tt (λ tenant. Ends-contract _ _ _ tt (λ policy.
          Ends-construct _ _ _ tt (λ scope.
            Ends-bind (λ r w'. Provisions r w'.db) _ _
              (Ends-on_failure _ _ (
                Ends-forget _ _ (
                  Ends-transaction Provisions _ (
                    Ends-gets _ _ (
                      provision-stored (record w { ticks = w.ticks + 1 }) _ _ _
                        (λ d found. record {
                          at = env.clock w.ticks;
                          admitted = admitted;
                          has_key = of_not (is_key key) keyed;
                          has_tenant = tenant;
                          has_policy = policy;
                          has_scope = scope;
                          stored = found;
                        }))))))
              (λ a w' q. Ends-if _ _ _ (Ends-done _ q) (Ends-audited Provisions _ _ q))))))))

  abbrev Replays : Tenant → Db → CreateResult → Db → Type 0
  Replays tenant d r d' = (r ≡ result_of tenant false) × (d' ≡ d)

  replays :
      (w : World) (tenant new : Tenant) (p : PolicyDocument)
      → Ends
          (λ r w'. (w'.committed ≡ true) × Replays tenant w.db r w'.db)
          (λ _. ⊥)
          (provision new p (provisioned_record new) (some (provisioned_record tenant)))
          (record w { committed = false })
  unfolding provision replay
  replays w tenant new p = Ends-assoc _ _ _ (
      Ends-raise_when_passed _ _ _
        (not_of (
          (string_eq.beq_iff (fingerprint (provisioning_fields t name region))
              (fingerprint (provisioning_fields t name region))).1
            refl))
        (Ends-return _ _ (Ends-commit _ (Ends-done _ (refl, (refl, refl))))))
    where
      not_of : {b : Bool} → b ≡ true → not b ≡ false
      not_of h = ap not h

  tenant_valid-at :
      (at now : String)
      → is_utc now ≡ true
      → tenant_valid (new_tenant t name region at) ≡ true
      → tenant_valid (new_tenant t name region now) ≡ true
  unfolding tenant_valid
  tenant_valid-at at now utc h = ground arith

  policy_valid-at :
      (at now : String)
      → is_utc now ≡ true
      → policy_valid (new_policy t i.subject at) ≡ true
      → policy_valid (new_policy t i.subject now) ≡ true
  unfolding policy_valid
  policy_valid-at at now utc h = ground arith

  create_tenant-Replays :
      (w : World) (tenant : Tenant) (request_id : String)
      → IsProvisioned tenant w.db
      → is_utc (env.clock w.ticks) ≡ true
      → Ends
          (λ r w'. Replays tenant w.db r w'.db)
          (λ _. ⊥)
          (create_tenant fixed i t name region key request_id)
          w
  unfolding create_tenant platform_only scope_of Authorization.require_platform_admin
  create_tenant-Replays w tenant request_id h utc = Ends-reads_passed _ _ _ h.admitted (
      Ends-raise_when_passed _ _ _ (ap not h.has_key) (
        Ends-clock _ (
          Ends-contract_passed _ _ _ (tenant_valid-at h.at _ utc h.has_tenant) (
            Ends-contract_passed _ _ _ (policy_valid-at h.at _ utc h.has_policy) (
              Ends-construct_passed _ _ _ h.has_scope (
                Ends-bind (λ r w'. Replays tenant w.db r w'.db) _ _
                  (Ends-on_failure _ _ (
                    Ends-transaction_passed (Replays tenant w.db) _ (
                      Ends-gets _ _ (
                        subst
                          (λ existing.
                            Ends (λ r w'. (w'.committed ≡ true) × Replays tenant w.db r w'.db)
                              (λ _. ⊥)
                              (provision (new_tenant t name region (env.clock w.ticks))
                                (new_policy t i.subject (env.clock w.ticks))
                                (provisioned_record (new_tenant t name region (env.clock w.ticks)))
                                existing)
                              (record w { ticks = w.ticks + 1; committed = false }))
                          (sym h.stored) (replays (record w { ticks = w.ticks + 1 }) tenant _ _)))))
                  (λ a w' q.
                    Ends-if _ _ _ (Ends-done _ q) (Ends-audited (Replays tenant w.db) _ _ q))))))))

  IsProvisioned-Grows :
      (tenant : Tenant) (before after : Db)
      → Grows before after
      → IsProvisioned tenant before
      → IsProvisioned tenant after
  IsProvisioned-Grows tenant before after grows h =
      let (r, found, _, same) = grows.idempotency _ _ h.stored in
      record {
        at = h.at;
        admitted = h.admitted;
        has_key = h.has_key;
        has_tenant = h.has_tenant;
        has_policy = h.has_policy;
        has_scope = h.has_scope;
        stored = found ∙ ap some (sym (same refl));
      }

  answered :
      (tenant : Tenant) (d : Db) (r : Result CreateResult × World)
      → Ending (λ a w. Replays tenant d a w.db) (λ _. ⊥) r
      → (r.0 ≡ ok (result_of tenant false)) × (r.1.db ≡ d)
  answered tenant d (ok a, w) h = (ap ok h.0, h.1)
  answered tenant d (err e, w) h = absurd h

  -- Where `create_tenant` on coherent repositories has returned a tenant that it created, then after
  -- any calls by any callers the same call, of the same caller under the same idempotency key, under
  -- whatever request identifier, returns that tenant, as not created, and changes no repository. The
  -- clock must read a UTC time then; nothing else can make the call raise.
  pub create_tenant-again :
      (w : World) (request_id : String) {r : CreateResult} {w' : World}
      → IsCoherent w.db
      → create_tenant fixed i t name region key request_id w ≡ (ok r, w')
      → r.created ≡ true
      → (cs : List (VerifiedSubjectIdentity × Call)) (request_id' : String)
      → is_utc (env.clock (perform_all fixed cs w').ticks) ≡ true
      → ((create_tenant fixed i t name region key request_id' (perform_all fixed cs w')).0
          ≡ ok (result_of r.tenant false))
        × ((create_tenant fixed i t name region key request_id' (perform_all fixed cs w')).1.db
            ≡ (perform_all fixed cs w').db)
  create_tenant-again w request_id {r = r} {w' = w'} coherent returned created cs request_id' utc =
      let first : IsProvisioned r.tenant w'.db =
        subst (Ending (λ a v. Provisions a v.db) (λ _. Unit)) returned
          (create_tenant-Provisions w request_id).holds created in
      let after : Follows w.db w'.db =
        subst (Ending (λ _ v. Follows w.db v.db) (λ d. d ≡ w.db)) returned
          (Settles-create_tenant w coherent fixed i t name region key request_id).holds in
      answered r.tenant (perform_all fixed cs w').db _
        (create_tenant-Replays (perform_all fixed cs w') r.tenant request_id'
          (IsProvisioned-Grows r.tenant w'.db _ (perform_all-Grows fixed cs w' after.coherent)
            first)
          utc).holds
