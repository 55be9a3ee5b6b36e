-- ===== src/Gateway/Execution/Invariant/Rules.antt =====
-- Rules for the actions of the execution service: from what holds of the outbox before an action
-- to what holds after it, in a state that stays good whether the action returns or raises.
use uwo_shared_platform.Prelude.{◌≡◌, refl, Bool, true, false, Option, none, some, if◌then◌else◌}
use uwo_shared_platform.Gateway.Execution.Data.{Failure, Returned, returned, raised, Call}
use uwo_shared_platform.Gateway.Execution.Action.{
  State, Act, return, raise, gets, or_raise, construct, raise_when, call, modify, emit, transaction,
  proceed, ◌>>=◌, ◌>>◌,
}
use uwo_shared_platform.Gateway.Execution.Action
use uwo_shared_platform.Gateway.Execution.Invariant.{Events, Good}
use uwo_shared_platform.Env.{Env}

module _ ⦃env : Env⦄ {S : Type 0} (w₀ : State S) where
  abbrev pub After : {A : Type 0} → (A → Events → Type 0) → Returned A → State S → Type 0
  After Q (returned a) w = Good w₀ w × Q a w.outbox
  After Q (raised e) w = Good w₀ w

  pub record Does {A : Type 0} (P : Events → Type 0) (m : Act S A) (Q : A → Events → Type 0)
      : Type 0 where
    pub at : (w : State S) → Good w₀ w → P w.outbox → After Q (m w).0 (m w).1

abbrev pub Any : Events → Type 0
Any _ = Unit {0}

-- The state stays good, whatever the outcome.
abbrev pub Keeps : ⦃env : Env⦄ {S : Type 0} (w₀ : State S) {A : Type 0} → Act S A → Type 0
Keeps w₀ m = Does w₀ Any m (λ _. Any)

module _ ⦃env : Env⦄ {S : Type 0} {w₀ : State S} where
  -- what the state has beside the store does not matter
  pub Good-store :
      (w v : State S) → v.outcomes ≡ w.outcomes → v.outbox ≡ w.outbox → Good w₀ w → Good w₀ v
  Good-store w v h k g = record {
    sound = rw (h, k) g.sound;
    later = rw h g.later;
    kept = rw k g.kept;
  }

  module _ {A : Type 0} {P : Events → Type 0} {Q R : A → Events → Type 0} where
    pub Does-post :
        (m : Act S A) → ((a : A) (o : Events) → Q a o → R a o) → Does w₀ P m Q → Does w₀ P m R
    Does-post m h d = record { at = λ w g p. weaken (m w).0 (m w).1 (d.at w g p) }
      where
        weaken : (r : Returned A) (w : State S) → After w₀ Q r w → After w₀ R r w
        weaken (returned a) w (g, q) = (g, h a w.outbox q)
        weaken (raised e) w g = g

  module _ {A : Type 0} where
    settled :
        (Q : A → Events → Type 0) (r : Returned A) (w v : State S)
        → Good w₀ w
        → After w₀ Q r v
        → After w₀ Q (Action.settle r w v).0 (Action.settle r w v).1
    settled Q (returned a) w v g h = h
    settled Q (raised e) w v g h = Good-store w _ refl refl g

  module _ {A : Type 0} {P : Events → Type 0} {Q : A → Events → Type 0} where
    pub Does-return : (a : A) → ((o : Events) → P o → Q a o) → Does w₀ P (return a) Q
    Does-return a h = record { at = λ w g p. (g, h w.outbox p) }

    pub Does-constructed :
        (b : Bool) (a : A) → (b ≡ true → (o : Events) → P o → Q a o) → Does w₀ P (construct b a) Q
    Does-constructed true a h = record { at = λ w g p. (g, h refl w.outbox p) }
    Does-constructed false a h = record { at = λ w g p. g }

    pub Does-raise : (e : Failure) → Does w₀ P (raise e) Q
    Does-raise e = record { at = λ w g p. g }

    pub Does-pre :
        (P' : Events → Type 0) (m : Act S A)
        → ((o : Events) → P' o → P o)
        → Does w₀ P m Q
        → Does w₀ P' m Q
    Does-pre P' m h d = record { at = λ w g p. d.at w g (h w.outbox p) }

    pub Does-if :
        (b : Bool) (m n : Act S A)
        → (b ≡ true → Does w₀ P m Q)
        → (b ≡ false → Does w₀ P n Q)
        → Does w₀ P (if b then m else n) Q
    Does-if true m n dm dn = dm refl
    Does-if false m n dm dn = dn refl

    pub Does-transaction : (m : Act S A) → Does w₀ P m Q → Does w₀ P (transaction m) Q
    unfolding transaction
    Does-transaction m d = record { at = λ w g p. settled Q (m w).0 w (m w).1 g (d.at w g p) }

  module _ {A B : Type 0} {R : B → Events → Type 0} where
    proceeded :
        (Q : A → Events → Type 0) (f : A → Act S B)
        → ((a : A) → Does w₀ (Q a) (f a) R)
        → (r : Returned A) (w : State S) → After w₀ Q r w
        → After w₀ R (proceed r f w).0 (proceed r f w).1
    proceeded Q f df (returned a) w (g, q) = (df a).at w g q
    proceeded Q f df (raised e) w g = g

  module _ {A B : Type 0} {P : Events → Type 0} {R : B → Events → Type 0} where
    pub Does-bind :
        (Q : A → Events → Type 0) (m : Act S A) (f : A → Act S B)
        → Does w₀ P m Q
        → ((a : A) → Does w₀ (Q a) (f a) R)
        → Does w₀ P (m >>= f) R
    unfolding ◌>>=◌
    Does-bind Q m f dm df = record { at = λ w g p. proceeded Q f df (m w).0 (m w).1 (dm.at w g p) }

    -- the rest of a block may use what its first step has found out
    pub Does-construct :
        (b : Bool) (a : A) (f : A → Act S B)
        → (b ≡ true → Does w₀ P (f a) R)
        → Does w₀ P (construct b a >>= f) R
    unfolding ◌>>=◌
    Does-construct true a f d = record { at = (d refl).at }
    Does-construct false a f d = record { at = λ w g p. g }

    pub Does-or_raise :
        (o : Option A) (e : Failure) (f : A → Act S B)
        → ((a : A) → o ≡ some a → Does w₀ P (f a) R)
        → Does w₀ P (or_raise o e >>= f) R
    unfolding ◌>>=◌
    Does-or_raise none e f d = record { at = λ w g p. g }
    Does-or_raise (some a) e f d = record { at = (d a refl).at }

    pub Does-gets :
        (h : State S → A) (f : A → Act S B)
        → ((a : A) → Does w₀ P (f a) R)
        → Does w₀ P (gets h >>= f) R
    unfolding ◌>>=◌
    Does-gets h f d = record { at = λ w g p. (d (h w)).at w g p }

  module _ {A : Type 0} {P : Events → Type 0} where
    pub Does-gets_outbox :
        (h : Events → A) → Does w₀ P (gets (λ w. h w.outbox)) (λ a o. P o × (h o ≡ a))
    Does-gets_outbox h = record { at = λ w g p. (g, (p, refl)) }

  module _ {B : Type 0} {P : Events → Type 0} {R : B → Events → Type 0} where
    pub Does-raise_when :
        (b : Bool) (e : Failure) (k : Act S B)
        → (b ≡ false → Does w₀ P k R)
        → Does w₀ P (raise_when b e >> k) R
    unfolding ◌>>=◌
    Does-raise_when true e k d = record { at = λ w g p. g }
    Does-raise_when false e k d = record { at = (d refl).at }

  module _ {A : Type 0} where
    kept_by_call :
        (P : Events → Type 0) (r : Returned A) (w v : State S)
        → v.outcomes ≡ w.outcomes
        → v.outbox ≡ w.outbox
        → Good w₀ w
        → P w.outbox
        → After w₀ (λ _. P) r v
    kept_by_call P (returned a) w v h k g p = (Good-store w v h k g, rw k p)
    kept_by_call P (raised e) w v h k g p = Good-store w v h k g

  module _ {A : Type 0} {P : Events → Type 0} where
    -- an action that leaves the store
    pub Does-aside :
        (m : Act S A)
        → ((w : State S) → ((m w).1.outcomes ≡ w.outcomes) × ((m w).1.outbox ≡ w.outbox))
        → Does w₀ P m (λ _. P)
    Does-aside m h = record { at = λ w g p. kept_by_call P (m w).0 w (m w).1 (h w).0 (h w).1 g p }

    pub Does-call : (c : Call S A) → Does w₀ P (call c) (λ _. P)
    Does-call c = Does-aside (call c) (λ w. (refl, refl))
