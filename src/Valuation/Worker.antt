-- ===== src/Valuation/Worker.antt =====
-- app/consumers/valuation_consumer.py: a valuation job that has been dispatched. Reading a message,
-- the texts of dates and numbers, and the clocks are parameters; an error of the database, which has
-- the message retried, is not an outcome here.
use portfolio_analytics_syst.Prelude.{
  ℕ, String, ◌&&◌, not, Option, none, some, [], ◌∷◌, ◌==◌, str_eq, concat, is_some, if◌then◌else◌,
}
use portfolio_analytics_syst.Prelude.Results.{Result, ok, raised}
use portfolio_analytics_syst.Decimal.{Decimal, Arith}
use portfolio_analytics_syst.Idempotency.{Delivery, is_event_processed, mark_event_processed}
use portfolio_analytics_syst.Outbox.Repository.{Outbox, NewEvent, create_outbox_event}
use portfolio_analytics_syst.Positions.Logic.{Position}
use portfolio_analytics_syst.Positions.Store.{HistoryRow}
use portfolio_analytics_syst.Valuation.Amounts.{ValuationInput, Valuation, calculate_valuation}
use portfolio_analytics_syst.Valuation.Jobs.{
  JobStatus, complete, failed, skipped_no_position, update_job_status,
}
use portfolio_analytics_syst.Valuation.Tables.{
  Instrument, Portfolio, MarketPrice, FxRate, unvalued, valued_current, valued_stale,
  valuation_failed, DailyPositionSnapshot, DailyPositionSnapshotPersistedEvent, Tables,
  get_last_position_history_before_date, get_instrument, get_portfolio,
  get_latest_price_for_position, get_fx_rate, upsert_daily_snapshot,
}

pub record PortfolioValuationRequiredEvent : Type 0 where
  pub portfolio_id : String
  pub security_id : String
  pub valuation_date : ℕ
  pub epoch : ℕ
  pub correlation_id : Option String

-- What the code prints and reads from outside.
pub record Environment : Type 0 where
  pub decode : String → Result PortfolioValuationRequiredEvent
  pub isoformat : ℕ → String
  pub show_epoch : ℕ → String
  -- the time at which the database updates jobs, and that of the outbox rows
  pub now : ℕ
  pub clock : ℕ → ℕ

abbrev pub worker_name : String
worker_name = "position-valuation-calculator"

-- The end of the message's transaction.
pub data Outcome : Type 0 where
  committed : Tables → Outcome
  not_found : String → Outcome
  unexpected : String → Outcome

pub data Ending : Type 0 where
  returned : Ending
  dead_lettered : String → Ending

abbrev pub initial_snapshot : PortfolioValuationRequiredEvent → Position → DailyPositionSnapshot
initial_snapshot e p = record {
  id = 0;
  portfolio_id = e.portfolio_id;
  security_id = e.security_id;
  date = e.valuation_date;
  epoch = e.epoch;
  quantity = p.quantity;
  cost_basis = p.cost_basis;
  cost_basis_local = p.cost_basis_local;
  market_price = none;
  market_value = none;
  market_value_local = none;
  unrealized_gain_loss = none;
  unrealized_gain_loss_local = none;
  valuation_status = unvalued;
}

abbrev pub with_valuation :
    DailyPositionSnapshot → MarketPrice → Result (Option Valuation) → Result DailyPositionSnapshot
with_valuation s price (raised text) = raised text
with_valuation s price (ok none) = ok (record s { valuation_status = valuation_failed })
with_valuation s price (ok (some v)) = ok (record s {
  market_price = some price.price;
  market_value = some v.market_value_base;
  market_value_local = some v.market_value_local;
  unrealized_gain_loss = some v.pnl_base;
  unrealized_gain_loss_local = some v.pnl_local;
  valuation_status = if price.price_date == s.date then valued_current else valued_stale;
})

abbrev rate_of : Option FxRate → Option Decimal
rate_of none = none
rate_of (some r) = some r.rate

-- The rate from the currency of the price to that of the instrument is never looked up.
abbrev pub valuation_input :
    DailyPositionSnapshot → Instrument → Portfolio → MarketPrice → Option FxRate → ValuationInput
valuation_input s instrument portfolio price fx_rate = record {
  quantity = s.quantity;
  market_price = price.price;
  cost_basis_base = s.cost_basis;
  cost_basis_local = s.cost_basis_local;
  price_currency = price.currency;
  instrument_currency = instrument.currency;
  portfolio_currency = portfolio.base_currency;
  price_to_instrument_fx_rate = none;
  instrument_to_portfolio_fx_rate = rate_of fx_rate;
}

module _ ⦃a : Arith⦄ where
  unfoldable pub value_at :
      DailyPositionSnapshot
      → Instrument
      → Portfolio
      → MarketPrice
      → Option FxRate
      → Result DailyPositionSnapshot
  unfolding str_eq calculate_valuation
  value_at s instrument portfolio price fx_rate =
      if not (str_eq instrument.currency portfolio.base_currency) && not (is_some fx_rate)
      then ok (record s { valuation_status = valuation_failed })
      else with_valuation s price
          (calculate_valuation (valuation_input s instrument portfolio price fx_rate))

  abbrev pub value_snapshot :
      Tables
      → DailyPositionSnapshot
      → Instrument
      → Portfolio
      → Option MarketPrice
      → Result DailyPositionSnapshot
  value_snapshot t s instrument portfolio none = ok s
  value_snapshot t s instrument portfolio (some price) =
      value_at s instrument portfolio price
        (get_fx_rate instrument.currency portfolio.base_currency s.date t.fx_rates)

  module _ (env : Environment) (m : Delivery) (e : PortfolioValuationRequiredEvent) where
    abbrev pub set_status : JobStatus → Option String → Tables → Tables
    set_status status reason t = record t {
      jobs =
          update_job_status e.portfolio_id e.security_id e.valuation_date status reason env.now
            t.jobs;
    }

    abbrev pub mark : Tables → Tables
    mark t = record t {
      processed =
          mark_event_processed m.event_id e.portfolio_id worker_name m.correlation_id t.processed;
    }

    abbrev pub completion_of : DailyPositionSnapshot → NewEvent DailyPositionSnapshotPersistedEvent
    completion_of s = record {
      aggregate_type = "DailyPositionSnapshot";
      aggregate_id = s.portfolio_id;
      event_type = "DailyPositionSnapshotPersisted";
      payload = record {
        id = s.id;
        portfolio_id = s.portfolio_id;
        security_id = s.security_id;
        date = s.date;
        epoch = s.epoch;
      };
      topic = "daily_position_snapshot_persisted";
      correlation_id = m.correlation_id;
    }

    abbrev pub finish_job : Tables → Result (Outbox DailyPositionSnapshotPersistedEvent) → Outcome
    finish_job t (raised text) = unexpected text
    finish_job t (ok outbox) =
        committed (mark (set_status complete none (record t { outbox = outbox })))

    abbrev pub persist : Tables → Result DailyPositionSnapshot → Outcome
    persist t (raised text) = unexpected text
    persist t (ok s) =
        let (persisted, after) = upsert_daily_snapshot s t in
        finish_job after (create_outbox_event env.clock (completion_of persisted) after.outbox)

    abbrev missing_text : Option Instrument → Option Portfolio → String
    missing_text instrument portfolio = concat (
        "Missing critical data. "
        ∷ (if is_some instrument
            then ""
            else concat ("Instrument '" ∷ e.security_id ∷ "' not found. " ∷ []))
        ∷ (if is_some portfolio
            then ""
            else concat ("Portfolio '" ∷ e.portfolio_id ∷ "' not found." ∷ []))
        ∷ [])

    abbrev pub with_references : Tables → Position → Option Instrument → Option Portfolio → Outcome
    with_references t p (some instrument) (some portfolio) = persist t (
        value_snapshot t (initial_snapshot e p) instrument portfolio
          (get_latest_price_for_position e.security_id e.valuation_date t.prices))
    with_references t p none portfolio =
        committed (mark (set_status failed (some (missing_text none portfolio)) t))
    with_references t p (some instrument) none =
        committed (mark (set_status failed (some (missing_text (some instrument) none)) t))

    abbrev pub with_position : Tables → Option HistoryRow → Outcome
    with_position t none = not_found (
        concat (
          "Position history not found for epoch "
          ∷ env.show_epoch e.epoch
          ∷ " of "
          ∷ e.security_id
          ∷ " on or before "
          ∷ env.isoformat e.valuation_date
          ∷ []))
    with_position t (some row) =
        with_references t row.position (get_instrument e.security_id t.instruments)
          (get_portfolio e.portfolio_id t.portfolios)

    -- The transaction of a message that is new.
    unfoldable pub value_position : Tables → Outcome
    unfolding value_at get_fx_rate get_latest_price_for_position get_instrument get_portfolio
        get_last_position_history_before_date upsert_daily_snapshot create_outbox_event
        update_job_status mark_event_processed concat
    value_position t = with_position t (
        get_last_position_history_before_date (e.portfolio_id, e.security_id) e.valuation_date
          e.epoch t.history)

    -- The handlers: a position that is not there has the job skipped, in a transaction of its own.
    abbrev pub settle : Tables → Outcome → Ending × Tables
    settle t (committed after) = (returned, after)
    settle t (not_found text) = (returned, mark (set_status skipped_no_position (some text) t))
    settle t (unexpected text) = (dead_lettered text, set_status failed (some text) t)

  module _ (env : Environment) where
    abbrev pub process_decoded :
        Delivery → Tables → Result PortfolioValuationRequiredEvent → Ending × Tables
    process_decoded m t (raised text) = (dead_lettered text, t)
    process_decoded m t (ok e) =
        if is_event_processed m.event_id worker_name t.processed
        then (returned, t)
        else settle env m e t (value_position env m e t)

    unfoldable pub process_message : Delivery → Tables → Ending × Tables
    unfolding is_event_processed value_position
    process_message m t = process_decoded m t (env.decode m.value)
