-- ===== src/Env.antt =====
-- What the services take from outside: the clocks, `datetime`, `hashlib` and `json`.
use uwo_shared_platform.Prelude.{ℕ, String, Option, none, some, Bool, false, List}
use uwo_shared_platform.Prelude.Int.{ℤ, pos, leb_ℤ, ◌==ℤ◌}
use uwo_shared_platform.Errors.{Result, ok, err, value_error, type_error, ◌>>=◌}

-- A `datetime`: microseconds from the epoch, and the offset from UTC, `none` if it is naive.
pub record Moment : Type 0 where
  pub instant : ℤ
  pub utc_offset : Option ℤ

-- The values that the services hand to `json.dumps`.
pub data Json : Type 0 where
  text : String → Json
  number : ℤ → Json
  flag : Bool → Json
  null : Json

-- An element of a list that is dumped: a scalar, or an object of scalars.
pub data Part : Type 0 where
  scalar : Json → Part
  object : List (String × Json) → Part

pub record Env : Type 0 where
  -- `datetime.fromisoformat(s.replace("Z", "+00:00"))`; `none` is its ValueError
  pub from_iso_format : String → Option Moment
  -- `(m + timedelta(seconds=n)).isoformat()`; `none` is its OverflowError
  pub plus_seconds : Moment → ℤ → Option String
  -- the n-th reading of the service's clock, and of `utc_now`
  pub clock : ℕ → String
  pub utc_now : ℕ → String
  -- `hashlib.sha256(s.encode()).hexdigest()`
  pub sha256_hex : String → String
  -- `json.dumps(…, sort_keys=True, separators=(",", ":"), allow_nan=False)` of an object
  pub json_dumps : List (String × Json) → String
  -- the same of a list
  pub json_dumps_list : List Part → String
  -- `chr(c).isalnum()`
  pub is_alnum : ℕ → Bool

abbrev pub le_at : Option ℤ → Option ℤ → Bool → Result Bool
le_at none none b = ok b
le_at (some _) (some _) b = ok b
le_at _ _ _ = err type_error

-- `a <= b` on datetimes; a naive and an aware one cannot be compared.
abbrev pub moment_le : Moment → Moment → Result Bool
moment_le a b = le_at a.utc_offset b.utc_offset (leb_ℤ a.instant b.instant)

module _ ⦃env : Env⦄ where
  unfoldable pub parse_iso : String → Result Moment
  parse_iso s = elim (env.from_iso_format s) [ none ↦ err value_error | some m ↦ ok m ]

  -- `_timestamp` of the contracts: the text parses, and its offset is zero
  unfoldable pub is_utc : String → Bool
  is_utc s = elim (env.from_iso_format s) [
    | none ↦ false
    | some m ↦ elim m.utc_offset [ none ↦ false | some o ↦ o ==ℤ pos 0 ]
  ]

  -- `parse(a) <= parse(b)`
  unfoldable pub iso_le : String → String → Result Bool
  unfolding parse_iso
  iso_le a b = do x ← parse_iso a; y ← parse_iso b; moment_le x y
