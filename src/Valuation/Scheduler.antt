-- ===== src/Valuation/Scheduler.antt =====
-- app/core/valuation_scheduler.py: the jobs that fill the gap of a lagging key, and the watermarks
-- that have been caught up with. The tables behind the repository are read before, and come as
-- arguments; `isoformat` is that of the standard library.
use portfolio_analytics_syst.Prelude.{
  ℕ, zero, suc, max, String, Option, none, some, List, [], ◌∷◌, ◌++◌, map, concat, ltb, leb, ◌==◌,
  if◌then◌else◌,
}
use portfolio_analytics_syst.Prelude.Keys.{Key}
use portfolio_analytics_syst.Prelude.Results.{Result, ok, ◌>>=◌}
use portfolio_analytics_syst.Positions.State.{PositionState, state_key, StateUpdate}
use portfolio_analytics_syst.Positions.Calculator.{previous_day}

-- The arguments of `upsert_job`.
pub record JobRequest : Type 0 where
  pub portfolio_id : String
  pub security_id : String
  pub valuation_date : ℕ
  pub epoch : ℕ
  pub correlation_id : String

-- The loop from `current` to the latest date, with fuel for its rounds.
unfoldable pub dates_to : ℕ → ℕ → ℕ → List ℕ
dates_to zero latest current = []
dates_to (suc fuel) latest current =
    let rest = dates_to fuel latest (suc current) in
    if leb current latest then current ∷ rest else []

-- The loop takes at most as many rounds as there are dates up to the latest.
unfoldable pub backfill_dates : ℕ → ℕ → List ℕ
unfolding dates_to
backfill_dates start latest = dates_to (suc latest) latest (suc start)

abbrev pub request_of : (ℕ → String) → PositionState → ℕ → JobRequest
request_of isoformat s date = record {
  portfolio_id = s.portfolio_id;
  security_id = s.security_id;
  valuation_date = date;
  epoch = s.epoch;
  correlation_id = concat ("SCHEDULER_BACKFILL_" ∷ isoformat date ∷ []);
}

-- The jobs of a key; one with no position is skipped.
unfoldable pub jobs_of : (ℕ → String) → ℕ → PositionState → Option ℕ → Result (List JobRequest)
unfolding backfill_dates
jobs_of isoformat latest s none = ok []
jobs_of isoformat latest s (some first_open) = previous_day first_open >>= λ before.
    ok (map (request_of isoformat s) (backfill_dates (max s.watermark_date before) latest))

-- The jobs of the keys that need backfilling, in order.
unfoldable pub create_backfill_jobs :
    (ℕ → String) → (PositionState → Option ℕ) → ℕ → List PositionState → Result (List JobRequest)
unfolding jobs_of
create_backfill_jobs isoformat first_open latest [] = ok []
create_backfill_jobs isoformat first_open latest (s ∷ states) =
    jobs_of isoformat latest s (first_open s) >>= λ jobs.
    create_backfill_jobs isoformat first_open latest states >>= λ more. ok (jobs ++ more)

abbrev pub caught_up : ℕ → PositionState → ℕ → StateUpdate
caught_up latest s date = record {
  key = state_key s;
  watermark_date = date;
  status = if date == latest then "CURRENT" else s.status;
}

-- The update of a lagging key, from the last date up to which its snapshots are contiguous.
unfoldable pub advance_one : ℕ → PositionState → Option ℕ → Option StateUpdate
advance_one latest s none = none
advance_one latest s (some date) =
    if ltb s.watermark_date date then some (caught_up latest s date) else none

abbrev cons_update : Option StateUpdate → List StateUpdate → List StateUpdate
cons_update none updates = updates
cons_update (some u) updates = u ∷ updates

-- `updates_to_commit`
unfoldable pub advance_watermarks : ℕ → (Key → Option ℕ) → List PositionState → List StateUpdate
unfolding advance_one
advance_watermarks latest advancable [] = []
advance_watermarks latest advancable (s ∷ states) =
    cons_update (advance_one latest s (advancable (state_key s)))
      (advance_watermarks latest advancable states)
