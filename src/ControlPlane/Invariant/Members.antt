-- ===== src/ControlPlane/Invariant/Members.antt =====
-- How the operations on memberships and roles end.
use uwo_shared_platform.Prelude.{String, ◌+◌, ◌≡◌, refl, sym, ◌∙◌, subst, Option, none, some}
use uwo_shared_platform.Prelude.Int.{ℤ, pos, ◌+ℤ◌}
use uwo_shared_platform.Prelude.Keys.{string_eq, pair_eq}
use uwo_shared_platform.Prelude.Dict.{get, not_contained}
use uwo_shared_platform.Env.{Env}
use uwo_shared_platform.Contracts.Domain.{
  MembershipStatus, TenantMembership, VerifiedSubjectIdentity,
}
use uwo_shared_platform.ControlPlane.{Directory}
use uwo_shared_platform.ControlPlane.World.{Db, World}
use uwo_shared_platform.ControlPlane.Action.{Act, ◌>>=◌}
use uwo_shared_platform.ControlPlane.Ends.{
  Ends, Ends-assoc, Ends-bind, Ends-clock, Ends-construct, Ends-contract, Ends-gets, Ends-or_raise,
  Ends-raise_when, Ends-return, Ends-write,
}
use uwo_shared_platform.ControlPlane.Repositories.Memberships
use uwo_shared_platform.ControlPlane.Service.Members.{
  assign_role, put_membership, revoke_role, target_membership, write_membership,
}
use uwo_shared_platform.ControlPlane.Invariant.{Follows, IsCoherent}
use uwo_shared_platform.ControlPlane.Invariant.Rules.{
  Ends-audited, Ends-done, Ends-require, Settles,
}
use uwo_shared_platform.ControlPlane.Invariant.Writes.{Follows-membership, Follows-new_membership}

module _ {B : Type 0} {P : B → World → Type 0} {E : Db → Type 0} {w : World} where
  Ends-update :
      (m : TenantMembership) (v : ℤ) (f : TenantMembership → Act B)
      → E w.db
      → Ends P E (f m) (record w { db = Memberships.store m w.db })
      → Ends P E (Memberships.update m v >>= f) w
  unfolding Memberships.update
  Ends-update m v f e k = Ends-assoc _ _ _ (
      Ends-gets _ _ (
        Ends-assoc _ _ _ (
          Ends-or_raise _ _ _ e (λ current found. Ends-assoc _ _ _ (
            Ends-raise_when _ _ _ e
              (λ fresh. Ends-assoc _ _ _ (Ends-write _ _ (Ends-return _ _ k))))))))

  Ends-create :
      (m : TenantMembership) (f : TenantMembership → Act B)
      → E w.db
      → (get w.db.memberships (m.tenant_id, m.subject) ≡ none
          → Ends P E (f m) (record w { db = Memberships.store m w.db }))
      → Ends P E (Memberships.create m >>= f) w
  unfolding Memberships.create
  Ends-create m f e k = Ends-assoc _ _ _ (
      Ends-gets _ _ (
        Ends-assoc _ _ _ (
          Ends-raise_when _ _ _ e (λ fresh.
            Ends-assoc _ _ _
              (Ends-write _ _ (Ends-return _ _ (k (not_contained w.db.memberships _ fresh))))))))

  Ends-target_membership :
      ⦃env : Env⦄ (fixed : Directory) (t subject : String) (f : TenantMembership → Act B)
      → E w.db
      → ((m : TenantMembership) → get w.db.memberships (t, subject) ≡ some m → Ends P E (f m) w)
      → Ends P E (target_membership fixed t subject >>= f) w
  unfolding target_membership
  Ends-target_membership fixed t subject f e k = Ends-assoc _ _ _ (
      Ends-gets _ _ (
        Ends-assoc _ _ _ (
          Ends-or_raise _ _ _ e (λ m found.
            Ends-assoc _ _ _ (Ends-raise_when _ _ _ e (λ _. Ends-return _ _ (k m found)))))))

abbrev seat_of : TenantMembership → String × String
seat_of m = (m.tenant_id, m.subject)

-- a membership that was read, and written with its next version
rewritten :
    (db : Db) (h : IsCoherent db) (k : String × String) (old new : TenantMembership)
    → get db.memberships k ≡ some old
    → seat_of new ≡ seat_of old
    → new.version ≡ old.version +ℤ pos 1
    → Follows db (Memberships.store new db)
rewritten db h k old new found same next =
    Follows-membership db h old new
      (subst (λ j. get db.memberships j ≡ some old) (sym (same ∙ h.seated k old found)) found) next

module _ ⦃env : Env⦄ where
  Settles-write_membership :
      (w : World) (h : IsCoherent w.db) (t subject : String) (status : MembershipStatus) (v : ℤ)
      (timestamp : String) (current : Option TenantMembership)
      → get w.db.memberships (t, subject) ≡ current
      → Settles (write_membership t subject status v timestamp current) w
  unfolding write_membership
  Settles-write_membership w h t subject status v timestamp none found =
      Ends-raise_when _ _ _ refl (λ _.
        Ends-contract _ _ _ refl (λ _.
          Ends-create _ _ refl (λ fresh. Ends-done _ (Follows-new_membership w.db h _ fresh))))
  Settles-write_membership w h t subject status v timestamp (some current) found =
      Ends-raise_when _ _ _ refl (λ _. Ends-construct _ _ _ refl (λ _.
        Ends-update _ _ _ refl
          (Ends-done _ (rewritten w.db h (t, subject) current _ found refl refl))))

  module _ (w : World) (h : IsCoherent w.db) (fixed : Directory) (i : VerifiedSubjectIdentity) where
    pub Settles-put_membership :
        (t subject : String) (status : MembershipStatus) (v : ℤ) (request_id : String)
        → Settles (put_membership fixed i t subject status v request_id) w
    unfolding put_membership
    Settles-put_membership t subject status v request_id = Ends-require fixed i t _ _ _ refl (
        Ends-gets _ _ (
          Ends-raise_when _ _ _ refl (λ _. Ends-clock _ (
            Ends-bind (λ _ w'. Follows w.db w'.db) _ _
              (Settles-write_membership (record w { ticks = w.ticks + 1 }) h t subject status v _ _
                refl)
              (λ a w' q. Ends-audited (λ _ d. Follows w.db d) _ _ q)))))

    pub Settles-assign_role :
        (t subject role_id : String) (v : ℤ) (request_id : String)
        → Settles (assign_role fixed i t subject role_id v request_id) w
    unfolding assign_role
    Settles-assign_role t subject role_id v request_id = Ends-require fixed i t _ _ _ refl (
        Ends-target_membership fixed t subject _ refl (λ m found. Ends-raise_when _ _ _ refl (λ _.
          Ends-raise_when _ _ _ refl (λ _. Ends-clock _ (
            Ends-construct _ _ _ refl (λ _. Ends-update _ _ _ refl (
              Ends-audited (λ _ d. Follows w.db d) _ _
                (rewritten w.db h (t, subject) m _ found refl refl))))))))

    pub Settles-revoke_role :
        (t subject role_id : String) (v : ℤ) (request_id : String)
        → Settles (revoke_role fixed i t subject role_id v request_id) w
    unfolding revoke_role
    Settles-revoke_role t subject role_id v request_id = Ends-require fixed i t _ _ _ refl (
        Ends-target_membership fixed t subject _ refl (λ m found. Ends-raise_when _ _ _ refl (λ _.
          Ends-raise_when _ _ _ refl (λ _. Ends-clock _ (
            Ends-construct _ _ _ refl (λ _. Ends-update _ _ _ refl (
              Ends-audited (λ _ d. Follows w.db d) _ _
                (rewritten w.db h (t, subject) m _ found refl refl))))))))
