-- ===== src/ControlPlane/Ends.antt =====
-- Rules for how a call of the control plane ends: what holds of its result and of the world when it
-- returns, and of the repositories when it raises.
use uwo_shared_platform.Prelude.{
  String, ◌+◌, ◌≡◌, refl, sym, subst, Bool, true, false, not, ◌||◌, Option, none, some,
  if◌then◌else◌,
}
use uwo_shared_platform.Prelude.Keys.{false-ne-true}
use uwo_shared_platform.Errors.{Error, Result, ok, err, repository_integrity}
use uwo_shared_platform.Env.{Env}
use uwo_shared_platform.ControlPlane.World.{World, Db, FailurePoint}
use uwo_shared_platform.ControlPlane.Action.{
  Act, return, lift, gets, reads, or_raise, construct, contract, continue, raise_when, write_db,
  read_clock, armed, trigger, commit, is_raised, transaction, ◌>>=◌,
}

abbrev pub Ending : {A : Type 0} → (A → World → Type 0) → (Db → Type 0) → Result A × World → Type 0
Ending P E (ok a, w) = P a w
Ending P E (err e, w) = E w.db

pub record Ends {A : Type 0} (P : A → World → Type 0) (E : Db → Type 0) (m : Act A) (w : World)
    : Type 0 where
  pub holds : Ending P E (m w)

module _ {A B : Type 0} {P : B → World → Type 0} {E : Db → Type 0} where
  continued :
      (Q : A → World → Type 0) (f : A → Act B) (r : Result A × World)
      → Ending Q E r
      → ((a : A) (w : World) → Q a w → Ends P E (f a) w)
      → Ending P E (continue r.0 f r.1)
  continued Q f (ok a, w) q k = (k a w q).holds
  continued Q f (err e, w) q k = q

  module _ {w : World} where
    pub Ends-bind :
        (Q : A → World → Type 0) (m : Act A) (f : A → Act B)
        → Ends Q E m w
        → ((a : A) (w' : World) → Q a w' → Ends P E (f a) w')
        → Ends P E (m >>= f) w
    unfolding ◌>>=◌
    Ends-bind Q m f q k = record { holds = continued Q f (m w) q.holds k }

    pub Ends-gets :
        (g : World → A) (f : A → Act B) → Ends P E (f (g w)) w → Ends P E (gets g >>= f) w
    unfolding ◌>>=◌
    Ends-gets g f h = record { holds = h.holds }

    pub Ends-lift :
        (r : Result A) (f : A → Act B)
        → E w.db
        → ((a : A) → r ≡ ok a → Ends P E (f a) w)
        → Ends P E (lift r >>= f) w
    unfolding ◌>>=◌
    Ends-lift (ok a) f e k = record { holds = (k a refl).holds }
    Ends-lift (err x) f e k = record { holds = e }

    pub Ends-reads :
        (g : World → Result A) (f : A → Act B)
        → E w.db
        → ((a : A) → g w ≡ ok a → Ends P E (f a) w)
        → Ends P E (reads g >>= f) w
    unfolding ◌>>=◌
    Ends-reads g f e k = record { holds = (Ends-lift (g w) f e k).holds }

    pub Ends-or_raise :
        (o : Option A) (x : Error) (f : A → Act B)
        → E w.db
        → ((a : A) → o ≡ some a → Ends P E (f a) w)
        → Ends P E (or_raise o x >>= f) w
    unfolding ◌>>=◌
    Ends-or_raise none x f e k = record { holds = e }
    Ends-or_raise (some a) x f e k = record { holds = (k a refl).holds }

    pub Ends-construct :
        (b : Bool) (a : A) (f : A → Act B)
        → E w.db
        → (b ≡ true → Ends P E (f a) w)
        → Ends P E (construct b a >>= f) w
    unfolding ◌>>=◌
    Ends-construct true a f e k = record { holds = (k refl).holds }
    Ends-construct false a f e k = record { holds = e }

    pub Ends-contract :
        (b : Bool) (a : A) (f : A → Act B)
        → E w.db
        → (b ≡ true → Ends P E (f a) w)
        → Ends P E (contract b a >>= f) w
    unfolding ◌>>=◌
    Ends-contract true a f e k = record { holds = (k refl).holds }
    Ends-contract false a f e k = record { holds = e }

    pub Ends-return : (a : A) (f : A → Act B) → Ends P E (f a) w → Ends P E (return a >>= f) w
    unfolding ◌>>=◌
    Ends-return a f h = record { holds = h.holds }

abbrev injected : Bool → World → Result (Unit {0}) × World
injected b w = if b then (err repository_integrity, record w { failing = none }) else (ok tt, w)

module _ {B : Type 0} {P : B → World → Type 0} {E : Db → Type 0} {w : World} where
  pub Ends-raise_when :
      (b : Bool) (x : Error) (f : Unit {0} → Act B)
      → E w.db
      → (b ≡ false → Ends P E (f tt) w)
      → Ends P E (raise_when b x >>= f) w
  unfolding ◌>>=◌
  Ends-raise_when true x f e k = record { holds = e }
  Ends-raise_when false x f e k = record { holds = (k refl).holds }

  pub Ends-write :
      (g : Db → Db) (f : Unit {0} → Act B)
      → Ends P E (f tt) (record w { db = g w.db })
      → Ends P E (write_db g >>= f) w
  unfolding ◌>>=◌
  Ends-write g f h = record { holds = h.holds }

  pub Ends-commit :
      (f : Unit {0} → Act B)
      → Ends P E (f tt) (record w { committed = true })
      → Ends P E (commit >>= f) w
  unfolding ◌>>=◌
  Ends-commit f h = record { holds = h.holds }

  triggered :
      (b : Bool) (f : Unit {0} → Act B)
      → E w.db
      → Ends P E (f tt) w
      → Ending P E (continue (injected b w).0 f (injected b w).1)
  triggered true f e h = e
  triggered false f e h = h.holds

  pub Ends-trigger :
      (p : FailurePoint) (f : Unit {0} → Act B)
      → E w.db
      → Ends P E (f tt) w
      → Ends P E (trigger p >>= f) w
  unfolding ◌>>=◌ trigger
  Ends-trigger p f e h = record { holds = triggered (armed w.failing p) f e h }

  module _ ⦃env : Env⦄ where
    pub Ends-clock :
        (f : String → Act B)
        → Ends P E (f (env.clock w.ticks)) (record w { ticks = w.ticks + 1 })
        → Ends P E (read_clock >>= f) w
    unfolding ◌>>=◌
    Ends-clock f h = record { holds = h.holds }

module _ {A B C : Type 0} where
  reassociated :
      (P : C → World → Type 0) (E : Db → Type 0) (f : A → Act B) (g : B → Act C)
      (r : Result A × World)
      → Ending P E (continue r.0 (λ a. f a >>= g) r.1)
      → Ending P E (continue (continue r.0 f r.1).0 g (continue r.0 f r.1).1)
  unfolding ◌>>=◌
  reassociated P E f g (ok a, w) h = h
  reassociated P E f g (err e, w) h = h

  pub Ends-assoc :
      {P : C → World → Type 0} {E : Db → Type 0} (m : Act A) (f : A → Act B) (g : B → Act C)
      {w : World}
      → Ends P E (m >>= λ a. f a >>= g) w
      → Ends P E ((m >>= f) >>= g) w
  unfolding ◌>>=◌
  Ends-assoc {P = P} {E = E} m f g {w = w} h = record { holds = reassociated P E f g (m w) h.holds }

module _ {A : Type 0} (P : A → Db → Type 0) where
  kept_if_committed :
      (a : A) (w w' : World) (b : Bool)
      → b ≡ true
      → P a w'.db
      → P a (if not b then record w' { db = w.db } else w').db
  kept_if_committed a w w' true e h = h
  kept_if_committed a w w' false e h = absurd (false-ne-true e)

  settled :
      (r : Result A × World) (w : World)
      → Ending (λ a v. (v.committed ≡ true) × P a v.db) (λ _. Unit) r
      → Ending
          (λ a v. P a v.db)
          (λ d. d ≡ w.db)
          (r.0, if is_raised r.0 || not r.1.committed then record r.1 { db = w.db } else r.1)
  settled (ok a, w') w h = kept_if_committed a w w' w'.committed h.0 h.1
  settled (err e, w') w h = refl

  -- A unit of work whose body commits before it returns leaves what the body has written, or, when
  -- it raises, what there was before.
  pub Ends-transaction :
      (body : Act A) {w : World}
      → Ends
          (λ a v. (v.committed ≡ true) × P a v.db)
          (λ _. Unit)
          body
          (record w { committed = false })
      → Ends (λ a v. P a v.db) (λ d. d ≡ w.db) (transaction body) w
  unfolding transaction
  Ends-transaction body {w = w} h = record {
    holds = settled (body (record w { committed = false })) w h.holds;
  }

module _ {A : Type 0} where
  forgotten :
      (P : A → World → Type 0) (E : Db → Type 0) (r : Result A × World)
      → Ending P E r
      → Ending P (λ _. Unit) r
  forgotten P E (ok a, w) h = h
  forgotten P E (err e, w) h = tt

  -- what is left after an exception is of no matter
  pub Ends-forget :
      {P : A → World → Type 0} (E : Db → Type 0) (m : Act A) {w : World}
      → Ends P E m w
      → Ends P (λ _. Unit) m w
  Ends-forget {P = P} E m {w = w} h = record { holds = forgotten P E (m w) h.holds }

-- The rules for a call that passes the tests it makes.
module _ {A B : Type 0} {P : B → World → Type 0} {E : Db → Type 0} {w : World} where
  pub Ends-construct_passed :
      (b : Bool) (a : A) (f : A → Act B)
      → b ≡ true
      → Ends P E (f a) w
      → Ends P E (construct b a >>= f) w
  unfolding ◌>>=◌
  Ends-construct_passed true a f passed h = record { holds = h.holds }
  Ends-construct_passed false a f passed h = absurd (false-ne-true passed)

  pub Ends-contract_passed :
      (b : Bool) (a : A) (f : A → Act B)
      → b ≡ true
      → Ends P E (f a) w
      → Ends P E (contract b a >>= f) w
  unfolding ◌>>=◌
  Ends-contract_passed true a f passed h = record { holds = h.holds }
  Ends-contract_passed false a f passed h = absurd (false-ne-true passed)

  pub Ends-reads_passed :
      (g : World → Result A) (a : A) (f : A → Act B)
      → g w ≡ ok a
      → Ends P E (f a) w
      → Ends P E (reads g >>= f) w
  unfolding ◌>>=◌
  Ends-reads_passed g a f passed h = record {
    holds = subst (λ x. Ending P E (continue x f w)) (sym passed) h.holds;
  }

module _ {B : Type 0} {P : B → World → Type 0} {E : Db → Type 0} {w : World} where
  pub Ends-raise_when_passed :
      (b : Bool) (x : Error) (f : Unit {0} → Act B)
      → b ≡ false
      → Ends P E (f tt) w
      → Ends P E (raise_when b x >>= f) w
  unfolding ◌>>=◌
  Ends-raise_when_passed true x f passed h = absurd (false-ne-true (sym passed))
  Ends-raise_when_passed false x f passed h = record { holds = h.holds }

module _ {A : Type 0} (P : A → Db → Type 0) where
  settled_passed :
      (r : Result A × World) (w : World)
      → Ending (λ a v. (v.committed ≡ true) × P a v.db) (λ _. ⊥) r
      → Ending
          (λ a v. P a v.db)
          (λ _. ⊥)
          (r.0, if is_raised r.0 || not r.1.committed then record r.1 { db = w.db } else r.1)
  settled_passed (ok a, w') w h = kept_if_committed P a w w' w'.committed h.0 h.1
  settled_passed (err e, w') w h = h

  pub Ends-transaction_passed :
      (body : Act A) {w : World}
      → Ends (λ a v. (v.committed ≡ true) × P a v.db) (λ _. ⊥) body (record w { committed = false })
      → Ends (λ a v. P a v.db) (λ _. ⊥) (transaction body) w
  unfolding transaction
  Ends-transaction_passed body {w = w} h = record {
    holds = settled_passed (body (record w { committed = false })) w h.holds;
  }
