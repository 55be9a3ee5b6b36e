-- ===== src/Gateway/Execution/Gives.antt =====
-- Rules for what an action of the execution service has stored once it returns.
use uwo_shared_platform.Prelude.{
  String, ◌≡◌, refl, Bool, true, false, Option, none, some, if◌then◌else◌, ◌∙◌,
}
use uwo_shared_platform.Prelude.Keys.{string_eq, pair_eq}
use uwo_shared_platform.Prelude.Dict.{get}
use uwo_shared_platform.DataServices.Events.{event_eq}
use uwo_shared_platform.Gateway.Execution.Data.{
  ExecutionOutcome, Failure, Returned, returned, raised, result_eq, outcome_eq,
}
use uwo_shared_platform.Gateway.Execution.Action
use uwo_shared_platform.Gateway.Execution.Action.{
  Operation, State, Act, return, raise, gets, or_raise, construct, raise_when, call, emit,
  transaction, proceed, ◌>>=◌, ◌>>◌,
}

-- A returned value and its state have `Q`; an exception promises nothing.
abbrev pub Post : {S A : Type 0} → (A → State S → Type 0) → Returned A → State S → Type 0
Post Q (returned a) w = Q a w
Post Q (raised e) w = Unit

-- An action that returns, from a state with `P`, returns a value and a state with `Q`.
pub record Gives {S A : Type 0} (P : State S → Type 0) (m : Act S A) (Q : A → State S → Type 0)
    : Type 0 where
  pub at : (w : State S) → P w → Post Q (m w).0 (m w).1

abbrev pub Top : {S : Type 0} → State S → Type 0
Top _ = Unit {0}

module _ {S A B : Type 0} {R : B → State S → Type 0} where
  given :
      (Q : A → State S → Type 0) (f : A → Act S B)
      → ((a : A) → Gives (Q a) (f a) R)
      → (r : Returned A) (w : State S) → Post Q r w
      → Post R (proceed r f w).0 (proceed r f w).1
  given Q f df (returned a) w q = (df a).at w q
  given Q f df (raised e) w q = tt

module _ {S A B : Type 0} {P : State S → Type 0} {R : B → State S → Type 0} where
  pub Gives-bind :
      (Q : A → State S → Type 0) (m : Act S A) (f : A → Act S B)
      → Gives P m Q
      → ((a : A) → Gives (Q a) (f a) R)
      → Gives P (m >>= f) R
  unfolding ◌>>=◌
  Gives-bind Q m f dm df = record { at = λ w p. given Q f df (m w).0 (m w).1 (dm.at w p) }

  -- what the first step does is of no matter
  pub Gives-skip :
      (m : Act S A) (f : A → Act S B) → ((a : A) → Gives Top (f a) R) → Gives P (m >>= f) R
  Gives-skip m f df = Gives-bind (λ _. Top) m f (record { at = λ w p. any (m w).0 (m w).1 }) df
    where
      any : (r : Returned A) (w : State S) → Post (λ _. Top) r w
      any (returned a) w = tt
      any (raised e) w = tt

  pub Gives-construct :
      (b : Bool) (a : A) (f : A → Act S B) → Gives P (f a) R → Gives P (construct b a >>= f) R
  unfolding ◌>>=◌
  Gives-construct true a f d = record { at = d.at }
  Gives-construct false a f d = record { at = λ w p. tt }

  pub Gives-or_raise :
      (o : Option A) (e : Failure) (f : A → Act S B)
      → ((a : A) → o ≡ some a → Gives P (f a) R)
      → Gives P (or_raise o e >>= f) R
  unfolding ◌>>=◌
  Gives-or_raise none e f d = record { at = λ w p. tt }
  Gives-or_raise (some a) e f d = record { at = (d a refl).at }

  pub Gives-gets :
      (h : State S → A) (f : A → Act S B)
      → ((a : A) → Gives (λ w. P w × (h w ≡ a)) (f a) R)
      → Gives P (gets h >>= f) R
  unfolding ◌>>=◌
  Gives-gets h f d = record { at = λ w p. (d (h w)).at w (p, refl) }

module _ {S B : Type 0} {P : State S → Type 0} {R : B → State S → Type 0} where
  pub Gives-raise_when :
      (b : Bool) (e : Failure) (k : Act S B)
      → (b ≡ false → Gives P k R)
      → Gives P (raise_when b e >> k) R
  unfolding ◌>>=◌
  Gives-raise_when true e k d = record { at = λ w p. tt }
  Gives-raise_when false e k d = record { at = (d refl).at }

  pub Gives-constructed :
      (b : Bool) (a : B) → ((w : State S) → P w → R a w) → Gives P (construct b a) R
  Gives-constructed true a h = record { at = h }
  Gives-constructed false a h = record { at = λ w p. tt }

  pub Gives-if :
      (b : Bool) (m n : Act S B) → Gives P m R → Gives P n R → Gives P (if b then m else n) R
  Gives-if true m n dm dn = dm
  Gives-if false m n dm dn = dn

  pub Gives-test :
      (b : Bool) (m n : Act S B)
      → (b ≡ true → Gives P m R)
      → Gives P n R
      → Gives P (if b then m else n) R
  Gives-test true m n dm dn = dm refl
  Gives-test false m n dm dn = dn

  -- a fact about values is a hypothesis
  pub Gives-fact : {F : Type 0} (m : Act S B) → (F → Gives P m R) → Gives (λ w. P w × F) m R
  Gives-fact m d = record { at = λ w (p, f). (d f).at w p }

  pub Gives-weaken :
      {Q : B → State S → Type 0} (m : Act S B)
      → ((b : B) (w : State S) → Q b w → R b w)
      → Gives P m Q
      → Gives P m R
  Gives-weaken {Q} m h d = record { at = λ w p. weak (m w).0 (m w).1 (d.at w p) }
    where
      weak : (r : Returned B) (w : State S) → Post Q r w → Post R r w
      weak (returned b) w q = h b w q
      weak (raised e) w q = tt

  pub Gives-transaction : (m : Act S B) → Gives P m R → Gives P (transaction m) R
  unfolding transaction
  Gives-transaction m d = record { at = λ w p. settled (m w).0 w (m w).1 (d.at w p) }
    where
      settled :
          (r : Returned B) (w v : State S)
          → Post R r v
          → Post R (Action.settle r w v).0 (Action.settle r w v).1
      settled (returned a) w v q = q
      settled (raised e) w v q = tt

  pub Gives-pre :
      (P' : State S → Type 0) (m : Act S B)
      → ((w : State S) → P' w → P w)
      → Gives P m R
      → Gives P' m R
  Gives-pre P' m h d = record { at = λ w p. d.at w (h w p) }

-- An action that leaves the outcomes, whether it returns or raises.
pub record Aside {S A : Type 0} (m : Act S A) : Type 0 where
  pub leaves : (w : State S) → (m w).1.outcomes ≡ w.outcomes

module _ {S A B : Type 0} where
  left :
      (f : A → Act S B)
      → ((a : A) → Aside (f a))
      → (r : Returned A) (w : State S) → (proceed r f w).1.outcomes ≡ w.outcomes
  left f df (returned a) w = (df a).leaves w
  left f df (raised e) w = refl

  pub Aside-bind :
      (m : Act S A) (f : A → Act S B) → Aside m → ((a : A) → Aside (f a)) → Aside (m >>= f)
  unfolding ◌>>=◌
  Aside-bind m f dm df = record { leaves = λ w. left f df (m w).0 (m w).1 ∙ dm.leaves w }

module _ {S A : Type 0} where
  kept :
      (t q : String) (o : Option ExecutionOutcome) (r : Returned A) (w v : State S)
      → v.outcomes ≡ w.outcomes
      → get w.outcomes (t, q) ≡ o
      → Post (λ _ u. get u.outcomes (t, q) ≡ o) r v
  kept t q o (returned a) w v e h = rw e h
  kept t q o (raised x) w v e h = tt

  pub Gives-Aside :
      (t q : String) (o : Option ExecutionOutcome) (m : Act S A)
      → Aside m
      → Gives (λ w. get w.outcomes (t, q) ≡ o) m (λ _ w. get w.outcomes (t, q) ≡ o)
  Gives-Aside t q o m a = record { at = λ w h. kept t q o (m w).0 w (m w).1 (a.leaves w) h }
