-- ===== src/Billing/RateCards/InForce.antt =====
-- The rate card that `active_at` returns is in force, and none in force is later.
use uwo_shared_platform.Prelude.{
  subst, sym, String, ◌≡◌, refl, ◌⊎◌, inl, inr, true, false, List, [], ◌∷◌, All, arith, Bool-cases,
  ap, if◌then◌else◌,
}
use uwo_shared_platform.Prelude.Int.{◌≤ℤ◌}
use uwo_shared_platform.Prelude.Dict.{values}
use uwo_shared_platform.Errors.{ok, Result-cases}
use uwo_shared_platform.Env.{Env, Moment, parse_iso, moment_le}
use uwo_shared_platform.Contracts.Billing.{RateCard}
use uwo_shared_platform.Billing.RateCards.{Cards, key_lt, latest, eligible, active_at}

-- by its tuple or not, the later of two cards has the later time
latest_step :
    (x y : Moment × RateCard)
    → (key_lt x y ≡ true → x.0.instant ≤ℤ y.0.instant)
      × (key_lt x y ≡ false → y.0.instant ≤ℤ x.0.instant)
unfolding key_lt
latest_step (m, c) (n, d) = (λ h. ground arith, λ h. ground arith)

latest-nil : (best : Moment × RateCard) → latest best [] ≡ best
unfolding latest
latest-nil best = refl

latest-later :
    (best c : Moment × RateCard) (cs : List (Moment × RateCard))
    → key_lt best c ≡ true
    → latest best (c ∷ cs) ≡ latest c cs
unfolding latest
latest-later best c cs later = ap (λ b. latest (if b then c else best) cs) later

latest-earlier :
    (best c : Moment × RateCard) (cs : List (Moment × RateCard))
    → key_lt best c ≡ false
    → latest best (c ∷ cs) ≡ latest best cs
unfolding latest
latest-earlier best c cs earlier = ap (λ b. latest (if b then c else best) cs) earlier

abbrev NoneLater : Moment × RateCard → List (Moment × RateCard) → Moment × RateCard → Type 0
NoneLater best cs r = (best.0.instant ≤ℤ r.0.instant) × All (λ c. c.0.instant ≤ℤ r.0.instant) cs

NoneLater-resp :
    (best : Moment × RateCard) (cs : List (Moment × RateCard)) {r r' : Moment × RateCard}
    → r ≡ r'
    → NoneLater best cs r
    → NoneLater best cs r'
NoneLater-resp best cs same h = subst (NoneLater best cs) same h

latest-ge :
    (best : Moment × RateCard) (cs : List (Moment × RateCard)) → NoneLater best cs (latest best cs)
latest-ge best [] = rw (latest-nil best) (omega arith, tt)
latest-ge best (c ∷ cs) = elim (Bool-cases (key_lt best c)) [
  | inl later ↦
      let (p, q) = latest-ge c cs in
      let step = (latest_step best c).0 later in
      NoneLater-resp best (c ∷ cs) (sym (latest-later best c cs later)) (omega arith, (p, q))
  | inr earlier ↦
      let (p, q) = latest-ge best cs in
      let step = (latest_step best c).1 earlier in
      NoneLater-resp best (c ∷ cs) (sym (latest-earlier best c cs earlier)) (p, (omega arith, q))
]

All-latest :
    (P : Moment × RateCard → Type 0) (best : Moment × RateCard) (cs : List (Moment × RateCard))
    → All P (best ∷ cs)
    → P (latest best cs)
All-latest P best [] (p, _) = rw (latest-nil best) p
All-latest P best (c ∷ cs) (p, (q, r)) = elim (Bool-cases (key_lt best c)) [
  | inl later ↦ rw (latest-later best c cs later) (All-latest P c cs (q, r))
  | inr earlier ↦ rw (latest-earlier best c cs earlier) (All-latest P best cs (p, r))
]

module _ ⦃env : Env⦄ where
  -- where a card stands against a time: not yet in force, or in force from a moment no later than `m`
  abbrev pub NotAfter : Moment → Moment → RateCard → Type 0
  NotAfter as_of m c =
      (n : Moment) × (parse_iso c.effective_at ≡ ok n)
      × ((moment_le n as_of ≡ ok false) ⊎ (n.instant ≤ℤ m.instant))

  -- a card with the moment it is in force from
  abbrev pub Begun : Moment → Moment × RateCard → Type 0
  Begun as_of (m, c) = (parse_iso c.effective_at ≡ ok m) × (moment_le m as_of ≡ ok true)

  eligible_lem :
      (as_of m : Moment) (cs : List RateCard) {l : List (Moment × RateCard)}
      → eligible as_of cs ≡ ok l
      → All (λ c. c.0.instant ≤ℤ m.instant) l
      → All (NotAfter as_of m) cs
  unfolding eligible
  eligible_lem as_of m [] h k = tt
  eligible_lem as_of m (c ∷ cs) {l} h k = elim (Result-cases (parse_iso c.effective_at)) [
    | inr (x, refused) ↦ absurd (ground arith)
    | inl (n, parsed) ↦ elim (Result-cases (eligible as_of cs)) [
      | inr (x, refused) ↦ absurd (ground arith)
      | inl (rest, found) ↦ elim (Result-cases (moment_le n as_of)) [
        | inr (x, refused) ↦ absurd (ground arith)
        | inl (true, before) ↦
            let same : l ≡ (n, c) ∷ rest = ground arith in
            let k' = rw same at k in
            ((n, parsed, inr k'.0), eligible_lem as_of m cs {l = rest} found k'.1)
        | inl (false, after) ↦
            let same : l ≡ rest = ground arith in
            ((n, parsed, inl after), eligible_lem as_of m cs {l = rest} found (rw same at k))
      ]
    ]
  ]

  -- The moments that `active_at` reads: its own argument's, in UTC, and the returned card's.
  pub record InForce (cards : Cards) (as_of_utc : String) (c : RateCard) : Type 0 where
    pub as_of : Moment
    pub from : Moment
    pub as_of_lem : parse_iso as_of_utc ≡ ok as_of
    pub from_lem : parse_iso c.effective_at ≡ ok from
    pub begun : moment_le from as_of ≡ ok true
    pub no_later : All (NotAfter as_of from) (values cards)

  eligible-Begun :
      (as_of : Moment) (cs : List RateCard) {l : List (Moment × RateCard)}
      → eligible as_of cs ≡ ok l
      → All (Begun as_of) l
  unfolding eligible
  eligible-Begun as_of [] {l} h = let same : l ≡ [] = ground arith in rw same tt
  eligible-Begun as_of (c ∷ cs) {l} h = elim (Result-cases (parse_iso c.effective_at)) [
    | inr (x, refused) ↦ absurd (ground arith)
    | inl (n, parsed) ↦ elim (Result-cases (eligible as_of cs)) [
      | inr (x, refused) ↦ absurd (ground arith)
      | inl (rest, found) ↦ elim (Result-cases (moment_le n as_of)) [
        | inr (x, refused) ↦ absurd (ground arith)
        | inl (true, before) ↦
            let same : l ≡ (n, c) ∷ rest = ground arith in
            rw same ((parsed, before), eligible-Begun as_of cs {l = rest} found)
        | inl (false, after) ↦
            let same : l ≡ rest = ground arith in rw same (eligible-Begun as_of cs {l = rest} found)
      ]
    ]
  ]

  -- A card that `active_at` returns for a time has an effective time that is not after it, and
  -- every card of the repository has one that is after it or not after the returned card's.
  pub active_at-InForce :
      (cards : Cards) (as_of_utc : String) {c : RateCard}
      → active_at cards as_of_utc ≡ ok c
      → InForce cards as_of_utc c
  unfolding active_at
  active_at-InForce cards as_of_utc {c} h = elim (Result-cases (parse_iso as_of_utc)) [
    | inr (x, refused) ↦ absurd (ground arith)
    | inl (as_of, parsed) ↦ elim (Result-cases (eligible as_of (values cards))) [
      | inr (x, refused) ↦ absurd (ground arith)
      | inl ([], found) ↦ absurd (ground arith)
      | inl (best ∷ others, found) ↦
          let same : c ≡ (latest best others).1 = ground arith in
          let begun =
            All-latest (Begun as_of) best others (eligible-Begun as_of (values cards) found) in
          rw same (record {
            as_of = as_of;
            from = (latest best others).0;
            as_of_lem = parsed;
            from_lem = begun.0;
            begun = begun.1;
            no_later =
                eligible_lem as_of (latest best others).0 (values cards) found
                  (latest-ge best others);
          })
    ]
  ]
