-- ===== src/Valuation/Tables.antt =====
-- The tables of the valuation worker, and the queries of app/repositories/valuation_repository.py that
-- it reads them with. The rows of position_history are those of the position calculator.
use portfolio_analytics_syst.Prelude.{ℕ, suc, String, Bool, ◌&&◌, Option, List, leb, ◌==◌, str_eq}
use portfolio_analytics_syst.Prelude.Keys.{Key, key_eq}
use portfolio_analytics_syst.Prelude.Tables.{first_by, find_row, upsert_row, or_new}
use portfolio_analytics_syst.Decimal.{Decimal}
use portfolio_analytics_syst.Idempotency.{ProcessedEvent}
use portfolio_analytics_syst.Outbox.Repository.{Outbox}
use portfolio_analytics_syst.Positions.Store.{HistoryRow, position_key, newest_first}
use portfolio_analytics_syst.Valuation.Jobs.{ValuationJob}

pub record Instrument : Type 0 where
  pub security_id : String
  pub currency : String

pub record Portfolio : Type 0 where
  pub portfolio_id : String
  pub base_currency : String

pub record MarketPrice : Type 0 where
  pub security_id : String
  pub price_date : ℕ
  pub price : Decimal
  pub currency : String

pub record FxRate : Type 0 where
  pub from_currency : String
  pub to_currency : String
  pub rate_date : ℕ
  pub rate : Decimal

pub data ValuationStatus : Type 0 where
  unvalued valued_current valued_stale valuation_failed : ValuationStatus

pub record DailyPositionSnapshot : Type 0 where
  pub id : ℕ
  pub portfolio_id : String
  pub security_id : String
  pub date : ℕ
  pub epoch : ℕ
  pub quantity : Decimal
  pub cost_basis : Decimal
  pub cost_basis_local : Option Decimal
  pub market_price : Option Decimal
  pub market_value : Option Decimal
  pub market_value_local : Option Decimal
  pub unrealized_gain_loss : Option Decimal
  pub unrealized_gain_loss_local : Option Decimal
  pub valuation_status : ValuationStatus

pub record DailyPositionSnapshotPersistedEvent : Type 0 where
  pub id : ℕ
  pub portfolio_id : String
  pub security_id : String
  pub date : ℕ
  pub epoch : ℕ

pub record Tables : Type 0 where
  pub history : List HistoryRow
  pub instruments : List Instrument
  pub portfolios : List Portfolio
  pub prices : List MarketPrice
  pub fx_rates : List FxRate
  pub snapshots : List DailyPositionSnapshot
  pub next_id : ℕ
  pub jobs : List ValuationJob
  pub processed : List ProcessedEvent
  pub outbox : Outbox DailyPositionSnapshotPersistedEvent

abbrev pub held_by : Key → ℕ → ℕ → HistoryRow → Bool
held_by key date epoch r =
    key_eq key (position_key r.position)
    && leb r.position.position_date date
    && (r.position.epoch == epoch)

-- On or before the date, though the name says before it.
unfoldable pub get_last_position_history_before_date :
    Key → ℕ → ℕ → List HistoryRow → Option HistoryRow
unfolding first_by key_eq
get_last_position_history_before_date key date epoch rows =
    first_by newest_first (held_by key date epoch) rows

unfoldable pub get_instrument : String → List Instrument → Option Instrument
unfolding find_row str_eq
get_instrument security_id rows =
    find_row (λ (r : Instrument). str_eq r.security_id security_id) rows

unfoldable pub get_portfolio : String → List Portfolio → Option Portfolio
unfolding find_row str_eq
get_portfolio portfolio_id rows =
    find_row (λ (r : Portfolio). str_eq r.portfolio_id portfolio_id) rows

abbrev pub later_price : MarketPrice → MarketPrice → Bool
later_price p q = leb q.price_date p.price_date

abbrev pub priced_by : String → ℕ → MarketPrice → Bool
priced_by security_id date p = str_eq p.security_id security_id && leb p.price_date date

unfoldable pub get_latest_price_for_position : String → ℕ → List MarketPrice → Option MarketPrice
unfolding first_by str_eq
get_latest_price_for_position security_id date rows =
    first_by later_price (priced_by security_id date) rows

abbrev pub later_rate : FxRate → FxRate → Bool
later_rate p q = leb q.rate_date p.rate_date

abbrev pub converts_by : String → String → ℕ → FxRate → Bool
converts_by from to date r =
    str_eq r.from_currency from && str_eq r.to_currency to && leb r.rate_date date

unfoldable pub get_fx_rate : String → String → ℕ → List FxRate → Option FxRate
unfolding first_by str_eq
get_fx_rate from to date rows = first_by later_rate (converts_by from to date) rows

-- The unique key of a snapshot.
unfoldable pub is_snapshot : DailyPositionSnapshot → DailyPositionSnapshot → Bool
is_snapshot new s =
    str_eq new.portfolio_id s.portfolio_id
    && str_eq new.security_id s.security_id
    && (new.date == s.date)
    && (new.epoch == s.epoch)

-- The stored row keeps its id.
abbrev pub replaced : DailyPositionSnapshot → DailyPositionSnapshot → DailyPositionSnapshot
replaced new s = record new { id = s.id }

abbrev pub fresh_row : Tables → DailyPositionSnapshot → DailyPositionSnapshot
fresh_row t new = record new { id = t.next_id }

-- The persisted snapshot, and the tables.
unfoldable pub upsert_daily_snapshot :
    DailyPositionSnapshot → Tables → DailyPositionSnapshot × Tables
unfolding is_snapshot upsert_row find_row
upsert_daily_snapshot new t = (
  or_new (replaced new) (fresh_row t new) (find_row (is_snapshot new) t.snapshots),
  record t {
    snapshots = upsert_row (is_snapshot new) (replaced new) (fresh_row t new) t.snapshots;
    next_id = suc t.next_id;
  },
)
