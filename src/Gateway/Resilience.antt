-- ===== src/Gateway/Resilience.antt =====
-- services/ai_gateway/resilience.py: `ResilientProviderExecutor`, retries under a circuit breaker for
-- each provider. The adapters and the clock are outside: an adapter's n-th call has the n-th reply.
pub mod Circuits
pub mod Attempts
use Prim.Native.String.{◌++◌}
use uwo_shared_platform.Prelude.{
  ℕ, zero, suc, ◌+◌, String, Bool, true, false, not, ◌||◌, Option, none, some, List, [], ◌∷◌,
  ◌++◌ as append, leb, eqb, if◌then◌else◌,
}
use uwo_shared_platform.Prelude.Keys.{string_eq}
use uwo_shared_platform.Prelude.Dict.{Dict, get, set, contains}

-- a call of an adapter: it returns, raises a ProviderError, or raises anything else
pub data Reply (Response : Type 0) : Type 0 where
  response : Response → Reply Response
  provider_error : Bool → Bool → Reply Response
  other_error : Reply Response

-- what the executor takes from outside, over the clock's readings
pub record Outside (Time Response : Type 0) : Type 0 where
  -- `time.monotonic()`, by the number of readings before
  pub clock : ℕ → Time
  -- `now - opened_at >= circuit_reset_seconds`
  pub is_due : Time → Time → Bool
  -- the adapters, and what the n-th call of all comes to
  pub has_adapter : String → Bool
  pub reply : String → ℕ → Reply Response

-- the fields of `ResiliencePolicy` that are counts; `__post_init__` requires both to be 1 at least
pub record ResiliencePolicy : Type 0 where
  pub max_attempts : ℕ
  pub circuit_failure_threshold : ℕ

pub record CircuitState (Time : Type 0) : Type 0 where
  pub failures : ℕ
  pub opened_at : Option Time

-- the states of the circuits, and how often the clock, an adapter and `sleep` were called
pub record Executor (Time : Type 0) : Type 0 where
  pub states : Dict String (CircuitState Time)
  pub readings : ℕ
  pub calls : ℕ
  pub sleeps : ℕ

-- how an attempt, or the whole of `execute`, ends
pub data Outcome (Response : Type 0) : Type 0 where
  returned : String → Response → Outcome Response
  -- a ProviderError that forbids the fallback, or another exception of the adapter
  raised : Outcome Response
  -- the provider's turn is over: the failures so far
  next : List String → Outcome Response
  -- a provider without a circuit, which the constructor rules out
  key_error : Outcome Response
  provider_unavailable : List String → Outcome Response

module _ {Time Response : Type 0} (policy : ResiliencePolicy)
    (outside : Outside Time Response) where
  -- `_available`: an open circuit that is due is closed again
  unfoldable pub available : String → Executor Time → Option Bool × Executor Time
  available id x = elim (get x.states id) [
    | none ↦ (none, x)
    | some s ↦ elim s.opened_at [
      | none ↦ (some true, x)
      | some t ↦
          let x' = record x { readings = x.readings + 1 } in
          if outside.is_due (outside.clock x.readings) t
          then (
            some true,
            record x' { states = set x.states id (record { failures = 0; opened_at = none }) },
          )
          else (some false, x')
    ]
  ]

  -- `_success`
  unfoldable pub success : String → Executor Time → Executor Time
  success id x = record x { states = set x.states id (record { failures = 0; opened_at = none }) }

  -- `_failure`; the caller has found the circuit
  unfoldable pub failure : String → Executor Time → Executor Time
  failure id x = elim (get x.states id) [
    | none ↦ x
    | some s ↦
        let n = s.failures + 1 in
        if leb policy.circuit_failure_threshold n
        then record x {
          states =
              set x.states id
                (record { failures = n; opened_at = some (outside.clock x.readings) });
          readings = x.readings + 1;
        }
        else record x { states = set x.states id (record s { failures = n }) }
  ]

  -- the rest of a failed attempt: the last one, or one that may not be repeated, ends the turn
  abbrev pub repeatable : Bool → ℕ → String → Executor Time → Option Bool × Executor Time
  repeatable retryable remaining id x =
      if not retryable || eqb remaining 0 then (some false, x) else available id x

  -- `break`, or the next round
  abbrev pub follow :
      Option Bool
      → List String
      → Executor Time
      → Outcome Response × Executor Time
      → Outcome Response × Executor Time
  follow none failures x rest = (key_error, x)
  follow (some false) failures x rest = (next failures, x)
  follow (some true) failures x rest = rest

  -- the body of the loop over the attempts: `remaining` are left behind this one
  abbrev pub on_reply :
      Reply Response
      → ℕ
      → String
      → List String
      → Executor Time
      → (List String → Executor Time → Outcome Response × Executor Time)
      → Outcome Response × Executor Time
  on_reply (response r) remaining id failures x rest = (returned id r, success id x)
  on_reply other_error remaining id failures x rest = (raised, x)
  on_reply (provider_error retryable false) remaining id failures x rest = (raised, x)
  on_reply (provider_error retryable true) remaining id failures x rest =
      let failures' = append failures ((id ++ ":provider_error") ∷ []) in
      let x' = if retryable then failure id x else x in
      let again = repeatable retryable remaining id x' in
      follow again.0 failures' again.1
        (rest failures' (record again.1 { sleeps = again.1.sleeps + 1 }))

  -- the loop over the attempts
  unfoldable pub attempts :
      ℕ → String → List String → Executor Time → Outcome Response × Executor Time
  attempts zero id failures x = (next failures, x)
  attempts (suc remaining) id failures x =
      on_reply (outside.reply id x.calls) remaining id failures (record x { calls = x.calls + 1 })
        (λ failures' x'. attempts remaining id failures' x')

  -- one provider's turn in `execute`
  unfoldable pub turn : String → List String → Executor Time → Outcome Response × Executor Time
  unfolding attempts
  turn id failures x =
      if not (outside.has_adapter id)
      then (next (append failures ((id ++ ":adapter_unavailable") ∷ [])), x)
      else let found = available id x in
        follow found.0 (append failures ((id ++ ":circuit_open") ∷ [])) found.1
          (attempts policy.max_attempts id failures found.1)

  -- the providers behind this one have their turns if it has not ended the call
  abbrev pub or_next :
      Outcome Response × Executor Time
      → (List String → Outcome Response × Executor Time)
      → Outcome Response × Executor Time
  or_next (next failures, x) rest = rest failures
  or_next (returned p r, x) rest = (returned p r, x)
  or_next (raised, x) rest = (raised, x)
  or_next (key_error, x) rest = (key_error, x)
  or_next (provider_unavailable fs, x) rest = (provider_unavailable fs, x)

  -- `execute`
  unfoldable pub execute :
      List String → List String → Executor Time → Outcome Response × Executor Time
  execute [] failures x = (provider_unavailable failures, x)
  execute (id ∷ ids) failures x =
      let ended = turn id failures x in or_next ended (λ failures'. execute ids failures' ended.1)
