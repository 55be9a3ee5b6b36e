-- ===== src/ControlPlane/Invariant/Aggregates.antt =====
-- The writes of `InMemoryEntitlementRepository`, and of the provisioning of a tenant.
use uwo_shared_platform.Prelude.{
  String, ◌≡◌, refl, sym, ap, ◌∙◌, subst, true, false, Option, none, some, [], inl, inr, arith,
  Bool-cases, if◌then◌else◌,
}
use uwo_shared_platform.Prelude.Int.{ℤ, pos, ◌+ℤ◌, +ℤ_parts}
use uwo_shared_platform.Prelude.Keys.{string_eq, ◌==◌}
use uwo_shared_platform.Prelude.Dict.{
  Dict, get, set, contains, contains-set, contains-set_self, contains-some, contains-set_cases,
  get-set, get-set_cases,
}
use uwo_shared_platform.Contracts.Domain.{Product, Tenant}
use uwo_shared_platform.ControlPlane.Entitlements.{ModelEntitlement, ProductEntitlement}
use uwo_shared_platform.ControlPlane.World.{Db, EntitlementStore, PolicyDocument}
use uwo_shared_platform.ControlPlane.Versions.{
  Versioned, Versioned-new, Versioned-refl, none-ne-some, some-inj,
}
use uwo_shared_platform.ControlPlane.Repositories.Entitlements.{with_models, with_products}
use uwo_shared_platform.ControlPlane.Invariant.{
  Aggregate, Follows, IsCoherent, aggregate, aggregate_of,
}

-- A store in which one tenant has its next version, or its first, and the others are as they were.
pub record Advances (s : EntitlementStore) (t : String) (v : ℤ) (s' : EntitlementStore)
    : Type 0 where
  pub versions : (j : String) → get s'.versions j ≡ (if t == j then some v else get s.versions j)
  pub products : (j : String) → (t == j) ≡ false → get s'.products j ≡ get s.products j
  pub models : (j : String) → (t == j) ≡ false → get s'.models j ≡ get s.models j
  pub older : (u : ℤ) → get s.versions t ≡ some u → v ≡ u +ℤ pos 1

module _ (s : EntitlementStore) (t : String) (v : ℤ) (s' : EntitlementStore)
    (h : Advances s t v s') where
  same_tables :
      (j : String) → (t == j) ≡ false → (o : Option ℤ) → aggregate o s' j ≡ aggregate o s j
  same_tables j other none = refl
  same_tables j other (some u) =
      ap (λ p. some (u, (p, get s'.models j))) (h.products j other)
      ∙ ap (λ m. some (u, (get s.products j, m))) (h.models j other)

  same_aggregate : (j : String) → (t == j) ≡ false → aggregate_of s' j ≡ aggregate_of s j
  same_aggregate j other =
      let versions : get s'.versions j ≡ get s.versions j = ground (arith, h.versions j, other) in
      ap (λ o. aggregate o s' j) versions ∙ same_tables j other (get s.versions j)

  next_aggregate :
      (j : String) (x : Aggregate) → aggregate_of s j ≡ some x → get s.versions j ≡ some x.0
  next_aggregate j x found = of_version (get s.versions j) refl found
    where
      of_version :
          (o : Option ℤ)
          → get s.versions j ≡ o
          → aggregate o s j ≡ some x
          → get s.versions j ≡ some x.0
      of_version none e w = absurd (cc)
      of_version (some u) e w = e ∙ ap some (ap (λ (y : Aggregate). y.0) (some-inj w))

  pub Advances-Versioned : Versioned (λ (x : Aggregate). x.0) (aggregate_of s) (aggregate_of s')
  Advances-Versioned j x found = elim (Bool-cases (t == j)) [
    | inl same ↦
        let e : t ≡ j = (string_eq.beq_iff t j).0 same in
        let now : get s'.versions j ≡ some v = ground (arith, h.versions j, same) in
        let was : get s.versions t ≡ some x.0 =
          subst (λ i. get s.versions i ≡ some x.0) (sym e) (next_aggregate j x found) in
        let next = h.older x.0 was in
        (
          (v, (get s'.products j, get s'.models j)),
          ap (λ o. aggregate o s' j) now,
          ground (arith, +ℤ_parts x.0 (pos 1), next),
          λ equal. absurd (ground (arith, +ℤ_parts x.0 (pos 1), next, equal)),
        )
    | inr other ↦ (x, same_aggregate j other ∙ found, omega arith, λ _. refl)
  ]

module _ (s : EntitlementStore) (t : String) where
  set_next :
      {V : Type 0} (d : Dict String V) (v : V) (j : String)
      → (t == j) ≡ false
      → get (set d t v) j ≡ get d j
  set_next d v j other = ground (arith, get-set d t j v, other)

  next_only :
      (u : ℤ)
      → get s.versions t ≡ some u
      → (w : ℤ) → get s.versions t ≡ some w
      → u +ℤ pos 1 ≡ w +ℤ pos 1
  next_only u now w found = ap (λ x. x +ℤ pos 1) (some-inj (sym now ∙ found))

  pub with_products-Advances :
      (d : Dict Product ProductEntitlement) (u : ℤ)
      → get s.versions t ≡ some u
      → Advances s t (u +ℤ pos 1) (with_products s t (d, u +ℤ pos 1))
  with_products-Advances d u now = record {
    versions = λ j. get-set s.versions t j (u +ℤ pos 1);
    products = λ j other. set_next s.products d j other;
    models = λ j other. refl;
    older = next_only u now;
  }

  pub with_models-Advances :
      (d : Dict String ModelEntitlement) (u : ℤ)
      → get s.versions t ≡ some u
      → Advances s t (u +ℤ pos 1) (with_models s t (d, u +ℤ pos 1))
  with_models-Advances d u now = record {
    versions = λ j. get-set s.versions t j (u +ℤ pos 1);
    products = λ j other. refl;
    models = λ j other. set_next s.models d j other;
    older = next_only u now;
  }

module _ (db : Db) (h : IsCoherent db) where
  -- an advanced set of entitlements that has its tables
  pub Follows-entitlements :
      (s' : EntitlementStore) (t : String) (v : ℤ)
      → Advances db.entitlements t v s'
      → contains db.entitlements.versions t ≡ true
      → ((j : String) → contains db.entitlements.products j ≡ true → contains s'.products j ≡ true)
      → ((j : String) → contains db.entitlements.models j ≡ true → contains s'.models j ≡ true)
      → Follows db (record db { entitlements = s' })
  Follows-entitlements s' t v a there products models =
      let back : (j : String)
          → contains s'.versions j ≡ true
          → contains db.entitlements.versions j ≡ true =
        λ j w. elim (Bool-cases (t == j)) [
          | inl same ↦
              subst (λ i. contains db.entitlements.versions i ≡ true)
                ((string_eq.beq_iff t j).0 same) there
          | inr other ↦ ground (arith, a.versions j, other, w)
        ] in
      let on : (j : String)
          → contains db.entitlements.versions j ≡ true
          → contains s'.versions j ≡ true =
        λ j w. ground (arith, a.versions j, w) in
      record {
        coherent = record {
          named = h.named;
          seated = h.seated;
          entitled = λ j w. on j (h.entitled j w);
          governed = h.governed;
          has_products = λ j w. products j (h.has_products j (back j w));
          has_models = λ j w. models j (h.has_models j (back j w));
        };
        grows = record {
          tenants = Versioned-refl _ _;
          memberships = Versioned-refl _ _;
          entitlements = Advances-Versioned db.entitlements t v s' a;
          policies = Versioned-refl _ _;
          idempotency = Versioned-refl _ _;
        };
      }

  pub Follows-products :
      (t : String) (d : Dict Product ProductEntitlement) (u : ℤ)
      → get db.entitlements.versions t ≡ some u
      → Follows db (record db { entitlements = with_products db.entitlements t (d, u +ℤ pos 1) })
  Follows-products t d u now =
      Follows-entitlements (with_products db.entitlements t (d, u +ℤ pos 1)) t (u +ℤ pos 1)
        (with_products-Advances db.entitlements t d u now)
        (contains-some db.entitlements.versions t now)
        (λ j. contains-set db.entitlements.products t j d) (λ j w. w)

  pub Follows-models :
      (t : String) (d : Dict String ModelEntitlement) (u : ℤ)
      → get db.entitlements.versions t ≡ some u
      → Follows db (record db { entitlements = with_models db.entitlements t (d, u +ℤ pos 1) })
  Follows-models t d u now =
      Follows-entitlements (with_models db.entitlements t (d, u +ℤ pos 1)) t (u +ℤ pos 1)
        (with_models-Advances db.entitlements t d u now)
        (contains-some db.entitlements.versions t now) (λ j w. w)
        (λ j. contains-set db.entitlements.models t j d)

  -- A tenant that is new to three repositories is provisioned in all three.
  pub Follows-provision :
      (t : Tenant) (p : PolicyDocument)
      → p.tenant_id ≡ t.tenant_id
      → get db.tenants t.tenant_id ≡ none
      → get db.entitlements.versions t.tenant_id ≡ none
      → get db.policies p.tenant_id ≡ none
      → Follows db (record db {
        tenants = set db.tenants t.tenant_id t;
        entitlements = record {
          products = set db.entitlements.products t.tenant_id [];
          models = set db.entitlements.models t.tenant_id [];
          versions = set db.entitlements.versions t.tenant_id (pos 1);
        };
        policies = set db.policies p.tenant_id p;
      })
  Follows-provision t p same no_tenant no_version no_policy =
      let id = t.tenant_id in
      let s = db.entitlements in
      record {
        coherent = record {
          named = λ j x w. elim (get-set_cases db.tenants id j t) [
            | inl (e, written) ↦
                subst (λ (y : Tenant). y.tenant_id ≡ j) (some-inj (sym written ∙ w)) e
            | inr kept ↦ h.named j x (sym kept ∙ w)
          ];
          seated = h.seated;
          entitled = λ j w. elim (contains-set_cases db.tenants id j t w) [
            | inl e ↦
                subst (λ i. contains (set s.versions id (pos 1)) i ≡ true) e
                  (contains-set_self s.versions id (pos 1))
            | inr old ↦ contains-set s.versions id j (pos 1) (h.entitled j old)
          ];
          governed = λ j w. elim (contains-set_cases db.tenants id j t w) [
            | inl e ↦
                subst (λ i. contains (set db.policies p.tenant_id p) i ≡ true) (same ∙ e)
                  (contains-set_self db.policies p.tenant_id p)
            | inr old ↦ contains-set db.policies p.tenant_id j p (h.governed j old)
          ];
          has_products = λ j w. elim (contains-set_cases s.versions id j (pos 1) w) [
            | inl e ↦
                subst (λ i. contains (set s.products id []) i ≡ true) e
                  (contains-set_self s.products id [])
            | inr old ↦ contains-set s.products id j [] (h.has_products j old)
          ];
          has_models = λ j w. elim (contains-set_cases s.versions id j (pos 1) w) [
            | inl e ↦
                subst (λ i. contains (set s.models id []) i ≡ true) e
                  (contains-set_self s.models id [])
            | inr old ↦ contains-set s.models id j [] (h.has_models j old)
          ];
        };
        grows = record {
          tenants = Versioned-new _ db.tenants id t no_tenant;
          memberships = Versioned-refl _ _;
          entitlements =
              Advances-Versioned s id (pos 1)
                (record {
                  products = set s.products id [];
                  models = set s.models id [];
                  versions = set s.versions id (pos 1);
                })
                (record {
                  versions = λ j. get-set s.versions id j (pos 1);
                  products = λ j other. set_next s id s.products [] j other;
                  models = λ j other. set_next s id s.models [] j other;
                  older = λ u now. absurd (none-ne-some (sym no_version ∙ now));
                });
          policies = Versioned-new _ db.policies p.tenant_id p no_policy;
          idempotency = Versioned-refl _ _;
        };
      }
