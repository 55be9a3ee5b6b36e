-- ===== src/ControlPlane/RoundTrip.antt =====
-- An entitlement that is granted and then revoked leaves the entitlements of the tenant as they were.
use uwo_shared_platform.Prelude.{◌≡◌, Bool, Option, some, arith}
use uwo_shared_platform.Prelude.Int.{ℤ, pos, ◌+ℤ◌, ==ℤ_iff}
use uwo_shared_platform.Prelude.Keys.{Eq, string_eq}
use uwo_shared_platform.Prelude.Dict.{
  Dict, set, delete, contains-set_self, delete-set, not_contained,
}
use uwo_shared_platform.Errors.{ok}
use uwo_shared_platform.ControlPlane.Repositories.Items.{granted, revoked}
use uwo_shared_platform.ControlPlane.Invariant.Entitlements.{granted-ok}

module _ {K V : Type 0} ⦃e : Eq K⦄ where
  -- A grant that returns is undone by the revocation of its key under the version that it has
  -- brought: the revocation returns the items before the grant, under the version after that.
  pub revoked-granted :
      (version : Option ℤ) (items : Option (Dict K V)) (key : K) (item : ℤ → V) (valid : V → Bool)
      (v : ℤ) {stored : V} {items' : Dict K V} {v' : ℤ}
      → granted version items key item valid v ≡ ok (stored, (items', v'))
      → (d : Dict K V) × (items ≡ some d)
        × (revoked (some v') (some items') key v' ≡ ok (d, v' +ℤ pos 1))
  unfolding revoked
  revoked-granted version items key item valid v h =
      let (u, d, now, there, _, absent, same) = granted-ok version items key item valid v h in
      let gone : delete (set d key (item (u +ℤ pos 1))) key ≡ d =
        delete-set d key (item (u +ℤ pos 1)) (not_contained d key absent) in
      (
        d,
        there,
        ground (
          arith,
          same,
          gone,
          contains-set_self d key (item (u +ℤ pos 1)),
          ==ℤ_iff (u +ℤ pos 1) (u +ℤ pos 1),
        ),
      )
