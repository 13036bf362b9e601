-- ===== src/Valuation/Contiguous.antt =====
-- find_contiguous_snapshot_dates of app/repositories/valuation_repository.py, for one state, and what
-- it means for the watermark that the scheduler advances.
use portfolio_analytics_syst.Prelude.{
  ℕ, zero, suc, ◌+◌, ◌-◌, ◌≤◌, ◌<◌, Bool, true, false, ◌&&◌, ◌||◌, not, Option, none, some, List,
  [], ◌∷◌, map, filter, All, ltb, ◌==◌, ◌≡◌, refl, ap, arith, inl, inr, Bool-cases, Option-cases,
  if◌then◌else◌,
}
use portfolio_analytics_syst.Prelude.Keys.{key_eq}
use portfolio_analytics_syst.Prelude.Tables.{find_row}
use portfolio_analytics_syst.Positions.State.{PositionState, StateUpdate, state_key}
use portfolio_analytics_syst.Positions.Store.{latest}
use portfolio_analytics_syst.Valuation.Scheduler.{dates_to, backfill_dates, caught_up, advance_one}
use portfolio_analytics_syst.Valuation.Tables.{DailyPositionSnapshot}

abbrev pub snapshot_of : PositionState → DailyPositionSnapshot → Bool
snapshot_of s r = key_eq (r.portfolio_id, r.security_id) (state_key s) && (r.epoch == s.epoch)

-- Whether there is a snapshot of the state's key and epoch on the date.
unfoldable pub has_snapshot : PositionState → ℕ → List DailyPositionSnapshot → Bool
unfolding key_eq
has_snapshot s date [] = false
has_snapshot s date (r ∷ rows) = snapshot_of s r && (r.date == date) || has_snapshot s date rows

-- The first date after the watermark, up to the latest business date, that has no snapshot.
unfoldable pub first_gap : ℕ → PositionState → List DailyPositionSnapshot → Option ℕ
unfolding backfill_dates find_row has_snapshot
first_gap latest_business_date s rows =
    find_row (λ d. not (has_snapshot s d rows))
      (backfill_dates s.watermark_date latest_business_date)

unfoldable pub latest_snapshot : PositionState → List DailyPositionSnapshot → Option ℕ
unfolding latest filter key_eq
latest_snapshot s rows =
    latest (map (λ (r : DailyPositionSnapshot). r.date) (filter (snapshot_of s) rows))

-- `coalesce(first_gap - 1, latest_snapshot)`, for a key that has a snapshot.
abbrev pub coalesce_gap : Option ℕ → Option ℕ → Option ℕ
coalesce_gap gap none = none
coalesce_gap (some g) (some d) = some (g - 1)
coalesce_gap none (some d) = some d

unfoldable pub find_contiguous_snapshot_date :
    ℕ → PositionState → List DailyPositionSnapshot → Option ℕ
unfolding first_gap latest_snapshot
find_contiguous_snapshot_date latest_business_date s rows =
    coalesce_gap (first_gap latest_business_date s rows) (latest_snapshot s rows)

find_row_before :
    (p : ℕ → Bool) (fuel last current g x : ℕ)
    → find_row p (dates_to fuel last current) ≡ some g
    → current ≤ x
    → x < g
    → p x ≡ false
unfolding find_row dates_to
find_row_before p zero last current g x e h k = cc
find_row_before p (suc fuel) last current g x e h k =
    grind (arith, find_row_before p fuel last (suc current) g x)

find_row_never :
    (p : ℕ → Bool) (fuel last current x : ℕ)
    → suc last ≤ fuel + current
    → find_row p (dates_to fuel last current) ≡ none
    → current ≤ x
    → x ≤ last
    → p x ≡ false
unfolding find_row dates_to
find_row_never p zero last current x f e h k = absurd (omega (arith, f, h, k))
find_row_never p (suc fuel) last current x f e h k =
    grind (arith, find_row_never p fuel last (suc current) x)

latest_le :
    (bound d : ℕ) (dates : List ℕ) → All (λ x. x ≤ bound) dates → latest dates ≡ some d → d ≤ bound
unfolding latest
latest_le bound d [] h e = cc
latest_le bound d (x ∷ dates) (h, hs) e = elim (Option-cases (latest dates)) [
  | inl n ↦ grind (arith, e, n, h)
  | inr (y, n) ↦ let rest = latest_le bound y dates hs n in grind (arith, e, n, h, rest)
]

dates-filter :
    (bound : ℕ) (s : PositionState) (rows : List DailyPositionSnapshot)
    → All (λ r. (snapshot_of s r ≡ true) → r.date ≤ bound) rows
    → All
        (λ x. x ≤ bound)
        (map (λ (r : DailyPositionSnapshot). r.date) (filter (snapshot_of s) rows))
unfolding filter
dates-filter bound s [] h = tt
dates-filter bound s (r ∷ rows) (h, hs) = elim (Bool-cases (snapshot_of s r)) [
  | inl e ↦ rw (e) (h e, dates-filter bound s rows hs)
  | inr e ↦ rw (e) (dates-filter bound s rows hs)
]

abbrev date_or : Option StateUpdate → Option ℕ
date_or none = none
date_or (some u) = some u.watermark_date

guarded-date :
    (b : Bool) (v u : StateUpdate)
    → (if b then some v else none) ≡ some u
    → some v.watermark_date ≡ some u.watermark_date
guarded-date true v u e = ap date_or e
guarded-date false v u e = cc

module _ (last : ℕ) (s : PositionState) (rows : List DailyPositionSnapshot)
    (within : All (λ r. (snapshot_of s r ≡ true) → r.date ≤ last) rows) where
  coalesce_gap-HasSnapshots :
      (gap newest : Option ℕ) (d x : ℕ)
      → first_gap last s rows ≡ gap
      → latest_snapshot s rows ≡ newest
      → coalesce_gap gap newest ≡ some d
      → s.watermark_date < x
      → x ≤ d
      → not (has_snapshot s x rows) ≡ false
  unfolding first_gap backfill_dates latest_snapshot
  coalesce_gap-HasSnapshots gap none d x g n e h k = cc
  coalesce_gap-HasSnapshots (some y) (some z) d x g n e h k =
      find_row_before (λ d. not (has_snapshot s d rows)) (suc last) last (suc s.watermark_date) y x
        g (omega (arith, h)) (grind (arith, e, h, k))
  coalesce_gap-HasSnapshots none (some z) d x g n e h k =
      let bound =
        latest_le last z (map (λ (r : DailyPositionSnapshot). r.date) (filter (snapshot_of s) rows))
          (dates-filter last s rows within) n in
      find_row_never (λ d. not (has_snapshot s d rows)) (suc last) last (suc s.watermark_date) x
        (omega arith) g (omega (arith, h)) (grind (arith, e, k, bound))

  advance_one-date :
      (o : Option ℕ) (u : StateUpdate) → advance_one last s o ≡ some u → o ≡ some u.watermark_date
  unfolding advance_one
  advance_one-date none u e = cc
  advance_one-date (some d) u e = guarded-date (ltb s.watermark_date d) (caught_up last s d) u e

  -- When no snapshot of the key is later than the latest business date, a watermark that is advanced
  -- passes no date without a snapshot: each date after the old watermark up to the new one has a
  -- snapshot of the key in its epoch.
  pub advance_one-HasSnapshots :
      (u : StateUpdate) (x : ℕ)
      → advance_one last s (find_contiguous_snapshot_date last s rows) ≡ some u
      → s.watermark_date < x
      → x ≤ u.watermark_date
      → has_snapshot s x rows ≡ true
  unfolding find_contiguous_snapshot_date
  advance_one-HasSnapshots u x e h k =
      let there =
        coalesce_gap-HasSnapshots (first_gap last s rows) (latest_snapshot s rows) u.watermark_date
          x refl refl (advance_one-date (find_contiguous_snapshot_date last s rows) u e) h k in
      ground (arith, there)
