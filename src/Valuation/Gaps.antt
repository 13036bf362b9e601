-- ===== src/Valuation/Gaps.antt =====
-- A gap is filled exactly, and a watermark only moves forward.
use portfolio_analytics_syst.Prelude.{
  ℕ, zero, suc, ◌+◌, ◌≤◌, ◌<◌, Bool, true, false, ◌||◌, Option, none, some, List, [], ◌∷◌, map, ◌≡◌,
  ◌↔◌, ◌⊎◌, refl, arith, inl, inr, Bool-cases, ltb, leb, ◌==◌,
}
use portfolio_analytics_syst.Positions.State.{PositionState, StateUpdate, state_key}
use portfolio_analytics_syst.Valuation.Scheduler.{JobRequest, dates_to, backfill_dates, advance_one}

abbrev pub date_in : ℕ → List ℕ → Bool
date_in d [] = false
date_in d (e ∷ dates) = (d == e) || date_in d dates

date_in-dates_to :
    (fuel latest current d : ℕ)
    → suc latest ≤ fuel + current
    → (date_in d (dates_to fuel latest current) ≡ true) ↔ (current ≤ d) × (d ≤ latest)
unfolding dates_to
date_in-dates_to zero latest current d h = ground (arith, h)
date_in-dates_to (suc fuel) latest current d h =
    let (rest, back) = date_in-dates_to fuel latest (suc current) d (omega (arith, h)) in
    elim (Bool-cases (leb current latest)) [
      | inl e ↦ rw e (ground (arith, rest, back, e))
      | inr e ↦ rw e (ground (arith, e))
    ]

-- The dates of a backfill are exactly those after the start, up to the latest date.
pub date_in-backfill_dates :
    (start latest d : ℕ)
    → (date_in d (backfill_dates start latest) ≡ true) ↔ (start < d) × (d ≤ latest)
unfolding backfill_dates
date_in-backfill_dates start latest d =
    date_in-dates_to (suc latest) latest (suc start) d (omega arith)

abbrev pub dates_of : List JobRequest → List ℕ
dates_of = map (λ (j : JobRequest). j.valuation_date)

-- The update of a lagging key, if there is one.
abbrev pub Advances : ℕ → PositionState → Option StateUpdate → Type 0
Advances latest s none = Unit
Advances latest s (some u) =
    (u.key ≡ state_key s)
    × (s.watermark_date < u.watermark_date)
    × ((u.watermark_date ≡ latest) × (u.status ≡ "CURRENT") ⊎ (u.status ≡ s.status))

-- An update of a lagging key moves its watermark forward, and makes it current only when the
-- watermark is the latest business date.
pub advance_one-Advances :
    (latest : ℕ) (s : PositionState) (contiguous : Option ℕ)
    → Advances latest s (advance_one latest s contiguous)
unfolding advance_one
advance_one-Advances latest s none = tt
advance_one-Advances latest s (some date) = elim (Bool-cases (ltb s.watermark_date date)) [
  | inr e ↦ rw e tt
  | inl e ↦ elim (Bool-cases (date == latest)) [
    | inl f ↦ rw (e, f) (refl, ground (arith, e), inl (ground (arith, f), refl))
    | inr f ↦ rw (e, f) (refl, ground (arith, e), inr refl)
  ]
]
