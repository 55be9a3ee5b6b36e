-- ===== src/Gateway/Resilience/Circuits.antt =====
-- A circuit is open exactly while its failures have reached the threshold.
use uwo_shared_platform.Prelude.{
  ℕ, zero, suc, ◌+◌, ◌≤◌, String, ◌≡◌, Bool, true, false, not, ◌||◌, Option, none, some, is_some,
  List, [], ◌∷◌, arith, inl, inr, leb, eqb, Bool-cases, Option-cases, if◌then◌else◌, ◌⊎◌, subst,
  sym,
}
use uwo_shared_platform.Prelude.Keys.{string_eq, ◌==◌}
use uwo_shared_platform.Prelude.Dict.{Dict, get, set, get-set}
use uwo_shared_platform.Gateway.Resilience.{
  ResiliencePolicy, CircuitState, Executor, Outside, Reply, response, provider_error, other_error,
  Outcome, available, success, failure, repeatable, returned, raised, next, key_error,
  provider_unavailable, follow, or_next, on_reply, attempts, turn, execute,
}

module _ {Time Response : Type 0} (policy : ResiliencePolicy)
    (outside : Outside Time Response) where
  abbrev pub Trips : CircuitState Time → Type 0
  Trips s = is_some s.opened_at ≡ leb policy.circuit_failure_threshold s.failures

  pub record AllTrip (states : Dict String (CircuitState Time)) : Type 0 where
    pub at : (id : String) (s : CircuitState Time) → get states id ≡ some s → Trips s

  -- the circuits as they were, or one written that is open exactly if it has to be
  record Moves (states states' : Dict String (CircuitState Time)) : Type 0 where
    cases :
        (states' ≡ states)
        ⊎ ((id : String) × (s : CircuitState Time) × Trips s × (states' ≡ set states id s))

  AllTrip-set :
      (states : Dict String (CircuitState Time)) (id : String) (s : CircuitState Time)
      → Trips s
      → AllTrip states
      → AllTrip (set states id s)
  AllTrip-set states id s trips k = record {
    at = λ j u found. elim (Bool-cases (id == j)) [
      | inl here ↦ let same : u ≡ s = ground (arith, get-set states id j s) in rw same trips
      | inr other ↦ k.at j u (ground (arith, get-set states id j s))
    ];
  }

  AllTrip-Moves :
      (states states' : Dict String (CircuitState Time))
      → Moves states states'
      → AllTrip states
      → AllTrip states'
  AllTrip-Moves states states' m k = elim m.cases [
    | inl same ↦ subst AllTrip (sym same) k
    | inr (id, s, trips, written) ↦ subst AllTrip (sym written) (AllTrip-set states id s trips k)
  ]

  module _ (positive : 1 ≤ policy.circuit_failure_threshold) where
    available-Moves :
        (id : String) (x : Executor Time) → Moves x.states (available policy outside id x).1.states
    unfolding available
    available-Moves id x = elim (Option-cases (get x.states id)) [
      | inl missing ↦ record { cases = inl (ground arith) }
      | inr (s, found) ↦ elim (Option-cases s.opened_at) [
        | inl closed ↦ record { cases = inl (ground arith) }
        | inr (t, opened) ↦ elim (Bool-cases (outside.is_due (outside.clock x.readings) t)) [
          | inl due ↦ record {
            cases = inr (id, record { failures = 0; opened_at = none }, ground arith, ground arith);
          }
          | inr early ↦ record { cases = inl (ground arith) }
        ]
      ]
    ]

    failure-Moves :
        (id : String) (x : Executor Time)
        → AllTrip x.states
        → Moves x.states (failure policy outside id x).states
    unfolding failure
    failure-Moves id x k = elim (Option-cases (get x.states id)) [
      | inl missing ↦ record { cases = inl (ground arith) }
      | inr (s, found) ↦ elim (Bool-cases (leb policy.circuit_failure_threshold (s.failures + 1))) [
        | inl reached ↦ record {
          cases = inr (
            id,
            record { failures = s.failures + 1; opened_at = some (outside.clock x.readings) },
            ground arith,
            ground arith,
          );
        }
        | inr below ↦ record {
          cases = inr (
            id,
            record { failures = s.failures + 1; opened_at = s.opened_at },
            ground (arith, k.at id s found),
            ground arith,
          );
        }
      ]
    ]

    AllTrip-available :
        (id : String) (x : Executor Time)
        → AllTrip x.states
        → AllTrip (available policy outside id x).1.states
    AllTrip-available id x k = AllTrip-Moves _ _ (available-Moves id x) k

    AllTrip-success :
        (id : String) (x : Executor Time)
        → AllTrip x.states
        → AllTrip (success policy outside id x).states
    unfolding success
    AllTrip-success id x k = AllTrip-set x.states id _ (ground arith) k

    AllTrip-counted :
        (retryable : Bool) (id : String) (x : Executor Time)
        → AllTrip x.states
        → AllTrip (if retryable then failure policy outside id x else x).states
    AllTrip-counted true id x k = AllTrip-Moves _ _ (failure-Moves id x k) k
    AllTrip-counted false id x k = k

    AllTrip-repeatable :
        (retryable : Bool) (remaining : ℕ) (id : String) (x : Executor Time)
        → AllTrip x.states
        → AllTrip (repeatable policy outside retryable remaining id x).1.states
    AllTrip-repeatable retryable remaining id x k =
        elim (Bool-cases (not retryable || eqb remaining 0)) [
          | inl last ↦ rw last k
          | inr more ↦ rw more (AllTrip-available id x k)
        ]

    AllTrip-follow :
        (again : Option Bool) (fs : List String) (x : Executor Time)
        (rest : Outcome Response × Executor Time)
        → AllTrip x.states
        → AllTrip rest.1.states
        → AllTrip (follow policy outside again fs x rest).1.states
    AllTrip-follow none fs x rest k l = k
    AllTrip-follow (some false) fs x rest k l = k
    AllTrip-follow (some true) fs x rest k l = l

    AllTrip-on_reply :
        (r : Reply Response) (n : ℕ) (id : String) (failures : List String) (x : Executor Time)
        (rest : List String → Executor Time → Outcome Response × Executor Time)
        → AllTrip x.states
        → ((fs : List String) (y : Executor Time) → AllTrip y.states → AllTrip (rest fs y).1.states)
        → AllTrip (on_reply policy outside r n id failures x rest).1.states
    AllTrip-on_reply (response r) n id failures x rest k l = AllTrip-success id x k
    AllTrip-on_reply other_error n id failures x rest k l = k
    AllTrip-on_reply (provider_error retryable false) n id failures x rest k l = k
    AllTrip-on_reply (provider_error retryable true) n id failures x rest k l =
        let later = AllTrip-repeatable retryable n id _ (AllTrip-counted retryable id x k) in
        AllTrip-follow _ _ _ _ later (l _ _ later)

    AllTrip-attempts :
        (n : ℕ) (id : String) (failures : List String) (x : Executor Time)
        → AllTrip x.states
        → AllTrip (attempts policy outside n id failures x).1.states
    unfolding attempts
    AllTrip-attempts zero id failures x k = k
    AllTrip-attempts (suc n) id failures x k =
        AllTrip-on_reply (outside.reply id x.calls) n id failures (record x { calls = x.calls + 1 })
          _ k (λ fs y l. AllTrip-attempts n id fs y l)

    AllTrip-turn :
        (id : String) (failures : List String) (x : Executor Time)
        → AllTrip x.states
        → AllTrip (turn policy outside id failures x).1.states
    unfolding turn
    AllTrip-turn id failures x k = elim (Bool-cases (outside.has_adapter id)) [
      | inr missing ↦ rw missing k
      | inl found ↦
          let later = AllTrip-available id x k in
          rw found (
            AllTrip-follow _ _ _ _ later (AllTrip-attempts policy.max_attempts id failures _ later))
    ]

    AllTrip-or_next :
        (ended : Outcome Response × Executor Time)
        (rest : List String → Outcome Response × Executor Time)
        → AllTrip ended.1.states
        → ((fs : List String) → AllTrip (rest fs).1.states)
        → AllTrip (or_next policy outside ended rest).1.states
    AllTrip-or_next (next fs, x) rest k l = l fs
    AllTrip-or_next (returned p r, x) rest k l = k
    AllTrip-or_next (raised, x) rest k l = k
    AllTrip-or_next (key_error, x) rest k l = k
    AllTrip-or_next (provider_unavailable fs, x) rest k l = k

    -- Under a positive threshold: if every circuit is open exactly when its failures have reached the
    -- threshold, then so it is after `execute`, whatever the adapters and the clock do.
    pub execute-AllTrip :
        (ids failures : List String) (x : Executor Time)
        → AllTrip x.states
        → AllTrip (execute policy outside ids failures x).1.states
    unfolding execute
    execute-AllTrip [] failures x k = k
    execute-AllTrip (id ∷ ids) failures x k =
        let later = AllTrip-turn id failures x k in
        AllTrip-or_next (turn policy outside id failures x) _ later
          (λ fs. execute-AllTrip ids fs _ later)
