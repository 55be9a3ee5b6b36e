-- ===== src/Billing/RateCards.antt =====
-- `InMemoryRateCardRepository`: immutable versions, and the one in force at a time.
pub mod InForce
use Prim.Native.String.{compare}
use Prim.Native.Nat.{Ordering}
use uwo_shared_platform.Prelude.{
  String, Bool, true, false, not, ◌&&◌, Option, none, some, List, [], ◌∷◌, any, if◌then◌else◌,
}
use uwo_shared_platform.Prelude.Int.{ℤ, ltb_ℤ, ◌==ℤ◌}
use uwo_shared_platform.Prelude.Keys.{string_eq, int_eq, pair_eq, ◌==◌}
use uwo_shared_platform.Prelude.Dict
use uwo_shared_platform.Prelude.Dict.{values}
use uwo_shared_platform.Errors.{
  Code, Result, ok, err, repository_integrity, conflict, resource_not_found, ◌>>=◌,
}
use uwo_shared_platform.Env.{Env, Moment, parse_iso, moment_le}
use uwo_shared_platform.Contracts.Billing.{RateCard}

abbrev pub Cards : Type 0
Cards = Dict.Dict (String × ℤ) RateCard

-- `add`, as the new dictionary
unfoldable pub add : Cards → RateCard → Result Cards
add cards c =
    if Dict.contains cards (c.rate_card_id, c.version)
    then err (conflict Code.rate_card_exists)
    else if any (λ i. (i.rate_card_id == c.rate_card_id) && (i.effective_at == c.effective_at))
        (values cards)
    then err (conflict Code.ambiguous_rate_card)
    else ok (Dict.set cards (c.rate_card_id, c.version) c)

abbrev pub get : Cards → String → ℤ → Option RateCard
get cards rate_card_id version = Dict.get cards (rate_card_id, version)

abbrev text_lt : String → String → Bool
text_lt s t = elim (compare s t) [ Ordering.lt ↦ true | _ ↦ false ]

-- The order of the tuples `(datetime, rate_card_id, version)`.
unfoldable pub key_lt : Moment × RateCard → Moment × RateCard → Bool
key_lt (m, c) (n, d) =
    if not (m.instant ==ℤ n.instant)
    then ltb_ℤ m.instant n.instant
    else if not (c.rate_card_id == d.rate_card_id)
    then text_lt c.rate_card_id d.rate_card_id
    else ltb_ℤ c.version d.version

-- `max(eligible, key=…)`: the first of the greatest
unfoldable pub latest : Moment × RateCard → List (Moment × RateCard) → Moment × RateCard
latest best [] = best
latest best (c ∷ cs) = latest (if key_lt best c then c else best) cs

-- Every exception of the lookup is a `RepositoryIntegrityError`.
abbrev or_integrity : {A : Type 0} → Result A → Result A
or_integrity (ok a) = ok a
or_integrity (err _) = err repository_integrity

abbrev first_latest : List (Moment × RateCard) → Result RateCard
first_latest [] = err (resource_not_found Code.unknown_rate_card)
first_latest (c ∷ cs) = ok (latest c cs).1

-- `as_of.utcoffset() != timezone.utc.utcoffset(as_of)`, negated
abbrev has_utc_offset : Moment → Bool
has_utc_offset m = elim m.utc_offset [ none ↦ false | some o ↦ o ==ℤ ℤ.pos 0 ]

module _ ⦃env : Env⦄ where
  unfoldable pub eligible : Moment → List RateCard → Result (List (Moment × RateCard))
  eligible as_of [] = ok []
  eligible as_of (c ∷ cs) = do
    m ← parse_iso c.effective_at
    le ← moment_le m as_of
    rest ← eligible as_of cs
    ok (if le then (m, c) ∷ rest else rest)

  abbrev require_utc : Moment → Result Moment
  require_utc m = if has_utc_offset m then ok m else err repository_integrity

  unfoldable pub active_at : Cards → String → Result RateCard
  unfolding eligible latest
  active_at cards as_of_utc = do
    found ←
        or_integrity (do
          as_of ← parse_iso as_of_utc
          as_of' ← require_utc as_of
          eligible as_of' (values cards))
    first_latest found
