-- ===== src/Gateway/Execution/Invariant.antt =====
-- What holds of the outcome store between two calls of the execution service.
pub mod Rules
pub mod Writes
pub mod Marks
pub mod Transactions
pub mod Calls
use uwo_shared_platform.Prelude.{
  String, ◌≡◌, ◌⊎◌, refl, Bool, true, false, Option, none, some, List, arith, inl, inr, subst, sym,
  ◌∙◌,
}
use uwo_shared_platform.Prelude.Keys.{string_eq, pair_eq, false-ne-true}
use uwo_shared_platform.Prelude.Dict.{Dict, get, set, get-set_cases, get-set_kept}
use uwo_shared_platform.Env.{Env, Json}
use uwo_shared_platform.DataServices.Outbox.{OutboxRecord}
use uwo_shared_platform.DataServices.Events.{record_id_of, PlatformEvent, event_id_of}
use uwo_shared_platform.Gateway.Execution.Data.{ExecutionOutcome, outcome_valid}
use uwo_shared_platform.Gateway.Execution.Action.{State}

abbrev pub Events : Type 0
Events = Dict String (OutboxRecord PlatformEvent)

-- The later outcome is of the same execution, and no mark of the earlier one is taken back.
pub record Grows (o p : ExecutionOutcome) : Type 0 where
  pub same_fingerprint : p.fingerprint ≡ o.fingerprint
  pub same_result : p.result ≡ o.result
  pub same_failure : p.failure_code ≡ o.failure_code
  pub same_kind : p.failure_kind ≡ o.failure_kind
  pub same_provider : p.provider_id ≡ o.provider_id
  pub captured : o.captured ≡ true → p.captured ≡ true
  pub success : o.success_event_enqueued ≡ true → p.success_event_enqueued ≡ true
  pub failure : o.failure_event_enqueued ≡ true → p.failure_event_enqueued ≡ true
  pub compensation : o.compensation_failed ≡ true → p.compensation_failed ≡ true
  pub compensation_event :
      o.compensation_failure_event_enqueued ≡ true → p.compensation_failure_event_enqueued ≡ true

pub Grows-refl : (o : ExecutionOutcome) → Grows o o
Grows-refl o = record {
  same_fingerprint = refl;
  same_result = refl;
  same_failure = refl;
  same_kind = refl;
  same_provider = refl;
  captured = λ h. h;
  success = λ h. h;
  failure = λ h. h;
  compensation = λ h. h;
  compensation_event = λ h. h;
}

pub Grows-trans : {o p q : ExecutionOutcome} → Grows o p → Grows p q → Grows o q
Grows-trans g h = ground arith

-- the same where there may be no outcome yet
abbrev pub GrowsFrom : Option ExecutionOutcome → ExecutionOutcome → Type 0
GrowsFrom none p = Unit
GrowsFrom (some o) p = Grows o p

pub GrowsFrom-trans :
    (old : Option ExecutionOutcome) (o p : ExecutionOutcome)
    → GrowsFrom old o
    → Grows o p
    → GrowsFrom old p
GrowsFrom-trans none o p g h = tt
GrowsFrom-trans (some x) o p g h = Grows-trans g h

abbrev pub flag_of : (ExecutionOutcome → Bool) → Option ExecutionOutcome → Bool
flag_of flag none = false
flag_of flag (some o) = flag o

abbrev pub was_valid : Option ExecutionOutcome → Bool
was_valid none = true
was_valid (some o) = outcome_valid o

module _ ⦃env : Env⦄ (tenant_id request_id : String) where
  -- The outbox has the event of the type: its record stands under the event's name.
  abbrev pub Recorded : Events → String → Type 0
  Recorded outbox event_type =
      (attributes : List (String × Json)) × (r : OutboxRecord PlatformEvent) × (get outbox
          (record_id_of (event_id_of event_type tenant_id request_id attributes))
        ≡ some r)
      × (r.event.event_id ≡ event_id_of event_type tenant_id request_id attributes)
      × (r.event.event_type ≡ event_type)

  -- A stored outcome is valid, and each event that it is marked with is in the outbox.
  pub record IsSound (outbox : Events) (o : ExecutionOutcome) : Type 0 where
    pub valid : outcome_valid o ≡ true
    pub success : o.success_event_enqueued ≡ true → Recorded outbox "provider.execution.succeeded"
    pub failure : o.failure_event_enqueued ≡ true → Recorded outbox "provider.execution.failed"
    pub compensation :
        o.compensation_failure_event_enqueued ≡ true
        → Recorded outbox "billing.reservation-compensation-failed"

  -- What an outcome must meet to be put in place of another: a new mark has its event.
  pub record Fits (outbox : Events) (old : Option ExecutionOutcome) (o : ExecutionOutcome)
      : Type 0 where
    pub valid : was_valid old ≡ true → outcome_valid o ≡ true
    pub grows : GrowsFrom old o
    pub success :
        o.success_event_enqueued ≡ true
        → (flag_of (λ p. p.success_event_enqueued) old ≡ true)
          ⊎ Recorded outbox "provider.execution.succeeded"
    pub failure :
        o.failure_event_enqueued ≡ true
        → (flag_of (λ p. p.failure_event_enqueued) old ≡ true)
          ⊎ Recorded outbox "provider.execution.failed"
    pub compensation :
        o.compensation_failure_event_enqueued ≡ true
        → (flag_of (λ p. p.compensation_failure_event_enqueued) old ≡ true)
          ⊎ Recorded outbox "billing.reservation-compensation-failed"

-- Every record of the one outbox stands unchanged in the other.
abbrev pub IsKept : Events → Events → Type 0
IsKept before after =
    (id : String) (r : OutboxRecord PlatformEvent) → get before id ≡ some r → get after id ≡ some r

module _ ⦃env : Env⦄ {S : Type 0} where
  -- the state is sound, and later than another
  pub record Good (w₀ w : State S) : Type 0 where
    pub sound :
        (t q : String) (o : ExecutionOutcome)
        → get w.outcomes (t, q) ≡ some o
        → IsSound t q w.outbox o
    pub later :
        (t q : String) (o : ExecutionOutcome)
        → get w₀.outcomes (t, q) ≡ some o
        → (p : ExecutionOutcome) × (get w.outcomes (t, q) ≡ some p) × Grows o p
    pub kept : IsKept w₀.outbox w.outbox

module _ ⦃env : Env⦄ (t q : String) where
  pub Recorded-mono :
      (b c : Events) (event_type : String)
      → IsKept b c
      → Recorded t q b event_type
      → Recorded t q c event_type
  Recorded-mono b c event_type k (attributes, r, found, id, type) =
      (attributes, r, k _ r found, id, type)

  pub IsSound-mono :
      (b c : Events) (o : ExecutionOutcome) → IsKept b c → IsSound t q b o → IsSound t q c o
  IsSound-mono b c o k s = record {
    valid = s.valid;
    success = λ h. Recorded-mono b c _ k (s.success h);
    failure = λ h. Recorded-mono b c _ k (s.failure h);
    compensation = λ h. Recorded-mono b c _ k (s.compensation h);
  }

  or_recorded :
      {A : Type 0} (b c : Events) (event_type : String)
      → IsKept b c
      → A ⊎ Recorded t q b event_type
      → A ⊎ Recorded t q c event_type
  or_recorded b c event_type k (inl a) = inl a
  or_recorded b c event_type k (inr r) = inr (Recorded-mono b c event_type k r)

  pub Fits-mono :
      (b c : Events) (old : Option ExecutionOutcome) (o : ExecutionOutcome)
      → IsKept b c
      → Fits t q b old o
      → Fits t q c old o
  Fits-mono b c old o k f = record {
    valid = f.valid;
    grows = f.grows;
    success = λ h. or_recorded b c _ k (f.success h);
    failure = λ h. or_recorded b c _ k (f.failure h);
    compensation = λ h. or_recorded b c _ k (f.compensation h);
  }

  abbrev recorded_now :
      {A : Type 0} (b : Events) (event_type : String)
      → (A → Recorded t q b event_type)
      → A ⊎ Recorded t q b event_type
      → Recorded t q b event_type
  recorded_now b event_type s (inl a) = s a
  recorded_now b event_type s (inr r) = r

  -- An outcome that fits in the place of a sound one, or of none, is sound.
  pub Fits-IsSound :
      (b : Events) (old : Option ExecutionOutcome) (o : ExecutionOutcome)
      → ((p : ExecutionOutcome) → old ≡ some p → IsSound t q b p)
      → Fits t q b old o
      → IsSound t q b o
  Fits-IsSound b none o s f = record {
    valid = f.valid refl;
    success = λ h. recorded_now b _ (λ e. absurd (false-ne-true e)) (f.success h);
    failure = λ h. recorded_now b _ (λ e. absurd (false-ne-true e)) (f.failure h);
    compensation = λ h. recorded_now b _ (λ e. absurd (false-ne-true e)) (f.compensation h);
  }
  Fits-IsSound b (some p) o s f = record {
    valid = f.valid (s p refl).valid;
    success = λ h. recorded_now b _ (s p refl).success (f.success h);
    failure = λ h. recorded_now b _ (s p refl).failure (f.failure h);
    compensation = λ h. recorded_now b _ (s p refl).compensation (f.compensation h);
  }

some_inj : {o p : ExecutionOutcome} → some o ≡ some p → o ≡ p
some_inj h = cc

grows_from :
    {o : ExecutionOutcome} {old : Option ExecutionOutcome} (p : ExecutionOutcome)
    → old ≡ some p
    → GrowsFrom old o
    → Grows p o
grows_from {o} p e h = subst (λ x. GrowsFrom x o) e h

module _ ⦃env : Env⦄ {S : Type 0} (w₀ w : State S) (g : Good w₀ w) where
  -- A new record keeps the state good.
  pub Good-enqueue :
      (id : String) (r : OutboxRecord PlatformEvent)
      → get w.outbox id ≡ none
      → Good w₀ (record w { outbox = set w.outbox id r })
  Good-enqueue id r new =
      let k : IsKept w.outbox (set w.outbox id r) =
        λ j s found. get-set_kept w.outbox id j r new found in
      record {
        sound = λ t q o found. IsSound-mono t q w.outbox _ o k (g.sound t q o found);
        later = g.later;
        kept = λ j s found. k j s (g.kept j s found);
      }

  -- So does an outcome that fits in its place.
  pub Good-write :
      (t q : String) (value : ExecutionOutcome) (old : Option ExecutionOutcome)
      → get w.outcomes (t, q) ≡ old
      → Fits t q w.outbox old value
      → Good w₀ (record w { outcomes = set w.outcomes (t, q) value })
  Good-write t q value old at fits =
      let value_sound = Fits-IsSound t q w.outbox old value (λ p e. g.sound t q p (at ∙ e)) fits in
      record {
        sound = λ t' q' o found. elim (get-set_cases w.outcomes (t, q) (t', q') value) [
          | inl (key, now) ↦
              subst (λ (k : String × String). IsSound k.0 k.1 w.outbox o) key
                (subst (λ v. IsSound t q w.outbox v) (some_inj (sym now ∙ found)) value_sound)
          | inr old_one ↦ g.sound t' q' o (sym old_one ∙ found)
        ];
        later = λ t' q' o found.
            let (p, now, grows) = g.later t' q' o found in
            elim (get-set_cases w.outcomes (t, q) (t', q') value) [
              | inl (key, written) ↦ (
                value,
                written,
                Grows-trans grows (grows_from p (sym at ∙ rw key now) fits.grows),
              )
              | inr old_one ↦ (p, old_one ∙ now, grows)
            ];
        kept = g.kept;
      }
