-- ===== src/ControlPlane/Invariant/Calls.antt =====
-- What every call of `PlatformControlPlane` keeps, and sequences of calls by any callers.
use uwo_shared_platform.Prelude.{◌≡◌, sym, subst, List, [], ◌∷◌}
use uwo_shared_platform.Env.{Env}
use uwo_shared_platform.Errors.{Error, Result, ok, err}
use uwo_shared_platform.Contracts.Domain.{VerifiedSubjectIdentity}
use uwo_shared_platform.ControlPlane.{Directory}
use uwo_shared_platform.ControlPlane.World.{Db, World}
use uwo_shared_platform.ControlPlane.Action.{Act}
use uwo_shared_platform.ControlPlane.Ends.{Ending, Ends-bind}
use uwo_shared_platform.ControlPlane.Service.Call.{Call, drop_result, perform, perform_all}
use uwo_shared_platform.ControlPlane.Invariant.{Follows, Follows-refl, Grows, IsCoherent}
use uwo_shared_platform.ControlPlane.Invariant.Rules.{Ends-done, Settles}
use uwo_shared_platform.ControlPlane.Invariant.Writes.{Follows-trans}
use uwo_shared_platform.ControlPlane.Invariant.Tenants.{
  Settles-create_tenant, Settles-set_tenant_status,
}
use uwo_shared_platform.ControlPlane.Invariant.Members.{
  Settles-assign_role, Settles-put_membership, Settles-revoke_role,
}
use uwo_shared_platform.ControlPlane.Invariant.Entitlements.{
  Settles-grant_model, Settles-grant_product, Settles-revoke_model, Settles-revoke_product,
}

dropped : {A : Type 0} (m : Act A) (w : World) → Settles m w → Settles (drop_result m) w
dropped m w h = Ends-bind (λ _ w'. Follows w.db w'.db) _ _ h (λ a w' q. Ends-done _ q)

module _ ⦃env : Env⦄ (fixed : Directory) where
  pub Settles-perform :
      (w : World) (h : IsCoherent w.db) (i : VerifiedSubjectIdentity) (c : Call)
      → Settles (perform fixed i c) w
  unfolding perform
  Settles-perform w h i (Call.create_tenant t name region key q) =
      dropped _ w (Settles-create_tenant w h fixed i t name region key q)
  Settles-perform w h i (Call.set_tenant_status t status v q) =
      dropped _ w (Settles-set_tenant_status w h fixed i t status v q)
  Settles-perform w h i (Call.put_membership t subject status v q) =
      dropped _ w (Settles-put_membership w h fixed i t subject status v q)
  Settles-perform w h i (Call.assign_role t subject role_id v q) =
      dropped _ w (Settles-assign_role w h fixed i t subject role_id v q)
  Settles-perform w h i (Call.revoke_role t subject role_id v q) =
      dropped _ w (Settles-revoke_role w h fixed i t subject role_id v q)
  Settles-perform w h i (Call.grant_product t product v key q) =
      dropped _ w (Settles-grant_product w h fixed i t product v key q)
  Settles-perform w h i (Call.revoke_product t product v q) =
      dropped _ w (Settles-revoke_product w h fixed i t product v q)
  Settles-perform w h i (Call.grant_model t model v key q) =
      dropped _ w (Settles-grant_model w h fixed i t model v key q)
  Settles-perform w h i (Call.revoke_model t model v q) =
      dropped _ w (Settles-revoke_model w h fixed i t model v q)

  untouched :
      (d : Db) (r : Result (Unit {0}) × World) (e : Error)
      → Ending (λ _ w'. Follows d w'.db) (λ d'. d' ≡ d) r
      → r.0 ≡ err e
      → r.1.db ≡ d
  untouched d (ok a, w) e h failed = absurd cc
  untouched d (err x, w) e h failed = h

  -- If a call of the control plane raises, then the repositories are what they were before it: this
  -- is so for every operation, those that write outside a unit of work included. It needs coherent
  -- repositories, which every call keeps.
  pub perform_atomic :
      (w : World) (i : VerifiedSubjectIdentity) (c : Call) {e : Error}
      → IsCoherent w.db
      → (perform fixed i c w).0 ≡ err e
      → (perform fixed i c w).1.db ≡ w.db
  perform_atomic w i c h failed =
      untouched w.db (perform fixed i c w) _ (Settles-perform w h i c).holds failed

  followed :
      (d : Db) (r : Result (Unit {0}) × World)
      → IsCoherent d
      → Ending (λ _ w'. Follows d w'.db) (λ d'. d' ≡ d) r
      → Follows d r.1.db
  followed d (ok a, w) h q = q
  followed d (err e, w) h q = subst (Follows d) (sym q) (Follows-refl d h)

  Follows-perform_all :
      (cs : List (VerifiedSubjectIdentity × Call)) (w : World)
      → IsCoherent w.db
      → Follows w.db (perform_all fixed cs w).db
  unfolding perform_all
  Follows-perform_all [] w h = Follows-refl w.db h
  Follows-perform_all ((i, c) ∷ cs) w h =
      let first = followed w.db (perform fixed i c w) h (Settles-perform w h i c).holds in
      Follows-trans w.db _ _ first
        (λ coherent. Follows-perform_all cs (perform fixed i c w).1 coherent)

  -- After any calls by any callers, whether they return or raise, coherent repositories are coherent:
  -- a tenant stands under its identifier and a membership under its tenant and subject, and every
  -- tenant has its entitlements, with both tables, and its policy, so that none is ever provisioned
  -- in part.
  pub perform_all-IsCoherent :
      (cs : List (VerifiedSubjectIdentity × Call)) (w : World)
      → IsCoherent w.db
      → IsCoherent (perform_all fixed cs w).db
  perform_all-IsCoherent cs w h = (Follows-perform_all cs w h).coherent

  -- Over any calls by any callers on coherent repositories, no tenant, membership or set of
  -- entitlements is lost, no version of one goes back, and where the version is the same the content
  -- is the same; policies and idempotency records stay as they are.
  pub perform_all-Grows :
      (cs : List (VerifiedSubjectIdentity × Call)) (w : World)
      → IsCoherent w.db
      → Grows w.db (perform_all fixed cs w).db
  perform_all-Grows cs w h = (Follows-perform_all cs w h).grows
