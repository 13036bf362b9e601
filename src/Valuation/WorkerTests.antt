-- ===== src/Valuation/WorkerTests.antt =====
-- A worker with one position, its price, and the jobs of two epochs.
use portfolio_analytics_syst.Prelude.{
  ℕ, ◌&&◌, true, Option, none, some, List, [], ◌∷◌, ◌≡◌, refl, not, filter, arith, str_eq, is_some,
}
use portfolio_analytics_syst.Prelude.Int.{pos, ◌*ℤ◌}
use portfolio_analytics_syst.Prelude.Keys.{key_eq}
use portfolio_analytics_syst.Prelude.Results.{ok}
use portfolio_analytics_syst.Prelude.Collation.{Collation}
use portfolio_analytics_syst.Prelude.Tables.{find_row, or_new, IsFirst}
use portfolio_analytics_syst.Decimal.{Arith}
use portfolio_analytics_syst.Idempotency.{Delivery, is_event_processed}
use portfolio_analytics_syst.Positions.State.{PositionState}
use portfolio_analytics_syst.Positions.Store.{HistoryRow, newest_first}
use portfolio_analytics_syst.Valuation.Amounts.{ValuationInput, Valuation, calculate_valuation}
use portfolio_analytics_syst.Valuation.Jobs.{
  ValuationJob, JobKey, is_job, new_job, requeued, upsert_job,
}
use portfolio_analytics_syst.Valuation.Lifecycle.{
  Reach, empty, later, upserts, IsWellFormed, reach-IsWellFormed, find_row-upsert_job,
}
use portfolio_analytics_syst.Valuation.Scheduler.{advance_one, backfill_dates, dates_to}
use portfolio_analytics_syst.Valuation.Contiguous.{
  has_snapshot, find_contiguous_snapshot_date, advance_one-HasSnapshots,
}
use portfolio_analytics_syst.Valuation.Tables.{
  unvalued, valuation_failed, DailyPositionSnapshot, Tables, held_by,
  get_last_position_history_before_date, later_price, priced_by, get_latest_price_for_position,
  later_rate, converts_by, get_fx_rate,
}
use portfolio_analytics_syst.Valuation.Worker.{
  PortfolioValuationRequiredEvent, Environment, worker_name, returned, value_at, value_position,
  process_message,
}
use portfolio_analytics_syst.Valuation.Settled.{
  IsSettled, process_message-IsSettled, process_message_redelivered,
}
use portfolio_analytics_syst.Valuation.Pricing.{
  is_missing, IsGain, calculate_valuation-IsValued, value_at_foreign_price, lookups-IsFirst,
}

-- Whole units, as they are.
instance abbrev whole : Arith
whole = record { one = pos 1; mul = λ x y. x *ℤ y; div = λ x y. x; show = λ x. "x" }

abbrev by_date : Collation
by_date = record { leb = λ s t. true }

abbrev key : ℕ → JobKey
key epoch = record { portfolio_id = "P"; security_id = "S"; valuation_date = 9; epoch = epoch }

abbrev jobs : List ValuationJob
jobs = new_job 1 5 (key 0) none ∷ new_job 2 5 (key 1) none ∷ []

abbrev upserted : List ValuationJob
upserted = upsert_job 2 7 (key 0) (some "again") (upsert_job 1 5 (key 0) none [])

abbrev twice_upserted : Reach by_date upserted
twice_upserted = later (later empty (upserts 1 5 (key 0) none)) (upserts 2 7 (key 0) (some "again"))

reach-IsWellFormed_example : IsWellFormed upserted
reach-IsWellFormed_example = reach-IsWellFormed by_date upserted twice_upserted

requeues_job :
    find_row (is_job (key 1)) (upsert_job 3 7 (key 1) (some "again") jobs)
    ≡ some (
        or_new
          (requeued 7 (some "again"))
          (new_job 3 7 (key 1) (some "again"))
          (find_row (is_job (key 1)) jobs))
requeues_job = find_row-upsert_job 3 7 (key 1) (some "again") jobs

abbrev event : PortfolioValuationRequiredEvent
event = record {
  portfolio_id = "P";
  security_id = "S";
  valuation_date = 9;
  epoch = 1;
  correlation_id = none;
}

abbrev environment : Environment
environment = record {
  decode = λ value. ok event;
  isoformat = λ d. "day";
  show_epoch = λ e. "epoch";
  now = 20;
  clock = λ id. 20;
}

abbrev history_row : HistoryRow
history_row = record {
  id = 1;
  position = record {
    portfolio_id = "P";
    security_id = "S";
    transaction_id = "T";
    position_date = 8;
    epoch = 1;
    quantity = pos 5;
    cost_basis = pos 3;
    cost_basis_local = some (pos 3);
  };
}

abbrev tables : Tables
tables = record {
  history = history_row ∷ [];
  instruments = record { security_id = "S"; currency = "USD" } ∷ [];
  portfolios = record { portfolio_id = "P"; base_currency = "USD" } ∷ [];
  prices = record { security_id = "S"; price_date = 9; price = pos 2; currency = "USD" } ∷ [];
  fx_rates = [];
  snapshots = [];
  next_id = 1;
  jobs = jobs;
  processed = [];
  outbox = record { next_id = 1; events = [] };
}

abbrev message : Delivery
message = record { event_id = "v-0-1"; value = "{}"; correlation_id = none }

process_message-IsSettled_example :
    IsSettled event jobs (process_message environment message tables).1.jobs
    × (((process_message environment message tables).0 ≡ returned)
        → is_event_processed "v-0-1" worker_name
            (process_message environment message tables).1.processed
          ≡ true)
unfolding is_event_processed
process_message-IsSettled_example =
    process_message-IsSettled environment message event tables refl refl

after_message : (process_message environment message tables).0 ≡ returned
unfolding process_message is_event_processed value_position get_last_position_history_before_date
after_message = refl

process_message_redelivered_example :
    process_message environment message (process_message environment message tables).1
    ≡ (returned, (process_message environment message tables).1)
process_message_redelivered_example =
    process_message_redelivered environment message event tables refl after_message

abbrev held : ValuationInput
held = record {
  quantity = pos 5;
  market_price = pos 2;
  cost_basis_base = pos 3;
  cost_basis_local = some (pos 3);
  price_currency = "USD";
  instrument_currency = "USD";
  portfolio_currency = "CHF";
  price_to_instrument_fx_rate = none;
  instrument_to_portfolio_fx_rate = none;
}

calculate_valuation-IsValued_example :
    (v : Option Valuation) × (calculate_valuation held ≡ ok v)
    × (is_some v ≡ (not (is_missing "USD" "USD" none) && not (is_missing "USD" "CHF" none)))
    × IsGain (pos 3) (pos 3) v
calculate_valuation-IsValued_example = calculate_valuation-IsValued held (pos 3) refl refl

abbrev snapshot : DailyPositionSnapshot
snapshot = record {
  id = 0;
  portfolio_id = "P";
  security_id = "S";
  date = 9;
  epoch = 1;
  quantity = pos 5;
  cost_basis = pos 3;
  cost_basis_local = some (pos 3);
  market_price = none;
  market_value = none;
  market_value_local = none;
  unrealized_gain_loss = none;
  unrealized_gain_loss_local = none;
  valuation_status = unvalued;
}

foreign_price :
    value_at snapshot
      (record { security_id = "S"; currency = "USD" })
      (record { portfolio_id = "P"; base_currency = "USD" })
      (record { security_id = "S"; price_date = 9; price = pos 2; currency = "EUR" })
      none
    ≡ ok (record snapshot { valuation_status = valuation_failed })
unfolding str_eq
foreign_price =
    value_at_foreign_price snapshot (record { security_id = "S"; currency = "USD" })
      (record { portfolio_id = "P"; base_currency = "USD" })
      (record { security_id = "S"; price_date = 9; price = pos 2; currency = "EUR" }) none refl refl

latest_rows_are_read :
    IsFirst newest_first
      (held_by ("P", "S") 9 1)
      tables.history
      (get_last_position_history_before_date ("P", "S") 9 1 tables.history)
    × IsFirst later_price
        (priced_by "S" 9)
        tables.prices
        (get_latest_price_for_position "S" 9 tables.prices)
    × IsFirst later_rate (converts_by "USD" "CHF" 9) [] (get_fx_rate "USD" "CHF" 9 [])
latest_rows_are_read =
    lookups-IsFirst ("P", "S") 9 1 "S" "USD" "CHF" tables.history tables.prices []

abbrev other_snapshot : DailyPositionSnapshot
other_snapshot = record snapshot { epoch = 0 }

abbrev lagging : PositionState
lagging = record {
  portfolio_id = "P";
  security_id = "S";
  epoch = 1;
  watermark_date = 8;
  status = "CURRENT";
}

advance_one-HasSnapshots_example : has_snapshot lagging 9 (snapshot ∷ []) ≡ true
unfolding advance_one find_contiguous_snapshot_date backfill_dates dates_to has_snapshot find_row
    key_eq filter str_eq
advance_one-HasSnapshots_example =
    advance_one-HasSnapshots 9 lagging (snapshot ∷ []) (λ _. omega arith, tt)
      (record { key = ("P", "S"); watermark_date = 9; status = "CURRENT" }) 9 refl (omega arith)
      (omega arith)
