-- ===== src/Gateway/Resilience/Attempts.antt =====
-- How often `execute` calls the adapters.
use uwo_shared_platform.Prelude.{
  ℕ, zero, suc, ◌+◌, ◌*◌, ◌≤◌, String, ◌≡◌, refl, Bool, true, false, not, ◌||◌, Option, none, some,
  List, [], ◌∷◌, length, arith, inl, inr, eqb, Bool-cases, Option-cases, if◌then◌else◌,
}
use uwo_shared_platform.Prelude.Keys.{string_eq}
use uwo_shared_platform.Prelude.Dict.{get}
use uwo_shared_platform.Gateway.Resilience.{
  ResiliencePolicy, Executor, Outside, Reply, response, provider_error, other_error, Outcome,
  available, success, failure, repeatable, returned, raised, next, key_error, provider_unavailable,
  follow, on_reply, or_next, attempts, turn, execute,
}

module _ {Time Response : Type 0} (policy : ResiliencePolicy)
    (outside : Outside Time Response) where
  calls-available :
      (id : String) (x : Executor Time) → (available policy outside id x).1.calls ≡ x.calls
  unfolding available
  calls-available id x = elim (Option-cases (get x.states id)) [
    | inl missing ↦ ground arith
    | inr (s, found) ↦ elim (Option-cases s.opened_at) [
      | inl closed ↦ ground arith
      | inr (t, opened) ↦ ground arith
    ]
  ]

  calls-counted :
      (retryable : Bool) (id : String) (x : Executor Time)
      → (if retryable then failure policy outside id x else x).calls ≡ x.calls
  unfolding failure
  calls-counted true id x = elim (Option-cases (get x.states id)) [
    | inl missing ↦ ground arith
    | inr (s, found) ↦ ground arith
  ]
  calls-counted false id x = refl

  calls-repeatable :
      (retryable : Bool) (remaining : ℕ) (id : String) (x : Executor Time)
      → (repeatable policy outside retryable remaining id x).1.calls ≡ x.calls
  calls-repeatable retryable remaining id x = elim (Bool-cases (not retryable || eqb remaining 0)) [
    | inl last ↦ rw last refl
    | inr more ↦ rw more (calls-available id x)
  ]

  calls-follow :
      (n : ℕ) (again : Option Bool) (fs : List String) (x : Executor Time)
      (rest : Outcome Response × Executor Time)
      → x.calls ≤ n
      → rest.1.calls ≤ n
      → (follow policy outside again fs x rest).1.calls ≤ n
  calls-follow n none fs x rest k l = k
  calls-follow n (some false) fs x rest k l = k
  calls-follow n (some true) fs x rest k l = l

  calls-on_reply :
      (r : Reply Response) (n : ℕ) (id : String) (failures : List String) (x : Executor Time)
      (rest : List String → Executor Time → Outcome Response × Executor Time)
      → ((fs : List String) (y : Executor Time)
          → y.calls ≡ x.calls
          → (rest fs y).1.calls ≤ x.calls + n)
      → (on_reply policy outside r n id failures x rest).1.calls ≤ x.calls + n
  unfolding success
  calls-on_reply (response r) n id failures x rest l = omega arith
  calls-on_reply other_error n id failures x rest l = omega arith
  calls-on_reply (provider_error retryable false) n id failures x rest l = omega arith
  calls-on_reply (provider_error retryable true) n id failures x rest l =
      let x' = if retryable then failure policy outside id x else x in
      let same = calls-repeatable retryable n id x' in
      let same' = calls-counted retryable id x in
      let again = repeatable policy outside retryable n id x' in
      let kept : again.1.calls ≡ x.calls = omega arith in
      let first : again.1.calls ≤ x.calls + n = omega arith in
      calls-follow (x.calls + n) _ _ _ _ first (l _ _ kept)

  calls-attempts :
      (n : ℕ) (id : String) (failures : List String) (x : Executor Time)
      → (attempts policy outside n id failures x).1.calls ≤ x.calls + n
  unfolding attempts
  calls-attempts zero id failures x = omega arith
  calls-attempts (suc n) id failures x =
      let bound =
        calls-on_reply (outside.reply id x.calls) n id failures (record x { calls = x.calls + 1 })
          (λ fs y. attempts policy outside n id fs y)
          (λ fs y same. let k = calls-attempts n id fs y in omega arith) in
      omega arith

  calls-turn :
      (id : String) (failures : List String) (x : Executor Time)
      → (turn policy outside id failures x).1.calls ≤ x.calls + policy.max_attempts
  unfolding turn
  calls-turn id failures x = elim (Bool-cases (outside.has_adapter id)) [
    | inr missing ↦ rw missing (omega arith)
    | inl found ↦
        let same = calls-available id x in
        let k = calls-attempts policy.max_attempts id failures (available policy outside id x).1 in
        let first : (available policy outside id x).1.calls ≤ x.calls + policy.max_attempts =
          omega arith in
        let second : (attempts policy outside policy.max_attempts id failures
              (available policy outside id x).1).1.calls
            ≤ x.calls + policy.max_attempts =
          omega arith in
        rw found (calls-follow (x.calls + policy.max_attempts) _ _ _ _ first second)
  ]

  calls-or_next :
      (n : ℕ) (ended : Outcome Response × Executor Time)
      (rest : List String → Outcome Response × Executor Time)
      → ended.1.calls ≤ n
      → ((fs : List String) → (rest fs).1.calls ≤ n)
      → (or_next policy outside ended rest).1.calls ≤ n
  calls-or_next n (next fs, x) rest k l = l fs
  calls-or_next n (returned p r, x) rest k l = k
  calls-or_next n (raised, x) rest k l = k
  calls-or_next n (key_error, x) rest k l = k
  calls-or_next n (provider_unavailable fs, x) rest k l = k

  -- Whatever the adapters and the clock do, `execute` ends, and it calls an adapter at most
  -- `max_attempts` times for each provider that it is given.
  pub calls-execute :
      (ids failures : List String) (x : Executor Time)
      → (execute policy outside ids failures x).1.calls ≤ x.calls + length ids * policy.max_attempts
  unfolding execute
  calls-execute [] failures x = omega arith
  calls-execute (id ∷ ids) failures x =
      let k = calls-turn id failures x in
      calls-or_next (x.calls + length (id ∷ ids) * policy.max_attempts)
        (turn policy outside id failures x) _ (grind arith)
        (λ fs. let l = calls-execute ids fs (turn policy outside id failures x).1 in grind arith)
