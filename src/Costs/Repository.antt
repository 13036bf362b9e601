-- ===== src/Costs/Repository.antt =====
-- app/repository.py: the costs of a stored transaction, and the state of bought lots. Its get_fx_rate
-- is the same query as that of Valuation/Tables.antt.
use portfolio_analytics_syst.Prelude.{
  ℕ, String, Bool, true, ◌&&◌, not, Option, List, [], ◌∷◌, filter, str_eq, concat, get_or, nonempty,
  if◌then◌else◌,
}
use portfolio_analytics_syst.Prelude.Int.{pos}
use portfolio_analytics_syst.Prelude.Tables.{find_row, upsert_row}
use portfolio_analytics_syst.Decimal.{Decimal}
use portfolio_analytics_syst.Events.{TransactionEvent, date_of}
use portfolio_analytics_syst.Idempotency.{ProcessedEvent}
use portfolio_analytics_syst.Outbox.Repository.{Outbox}
use portfolio_analytics_syst.Positions.Store.{TransactionRow}
use portfolio_analytics_syst.Valuation.Tables.{FxRate}
use portfolio_analytics_syst.Engine.Model.{Transaction}

pub record CostPortfolio : Type 0 where
  pub portfolio_id : String
  pub base_currency : String
  pub cost_basis_method : Option String

pub record PositionLotState : Type 0 where
  pub lot_id : String
  pub source_transaction_id : String
  pub portfolio_id : String
  pub instrument_id : String
  pub security_id : String
  pub acquisition_date : ℕ
  pub original_quantity : Decimal
  pub open_quantity : Decimal
  pub lot_cost_local : Decimal
  pub lot_cost_base : Decimal
  pub accrued_interest_paid_local : Decimal
  pub economic_event_id : Option String
  pub linked_transaction_group_id : Option String
  pub calculation_policy_id : Option String
  pub calculation_policy_version : Option String
  pub source_system : Option String

pub record AccruedIncomeOffsetState : Type 0 where
  pub offset_id : String
  pub source_transaction_id : String
  pub portfolio_id : String
  pub instrument_id : String
  pub security_id : String
  pub accrued_interest_paid_local : Decimal
  pub remaining_offset_local : Decimal
  pub economic_event_id : Option String
  pub linked_transaction_group_id : Option String
  pub calculation_policy_id : Option String
  pub calculation_policy_version : Option String
  pub source_system : Option String

pub record CostTables : Type 0 where
  pub portfolios : List CostPortfolio
  pub fx_rates : List FxRate
  pub transactions : List TransactionRow
  pub lots : List PositionLotState
  pub offsets : List AccruedIncomeOffsetState
  pub processed : List ProcessedEvent
  pub outbox : Outbox TransactionEvent

unfoldable pub get_portfolio : String → List CostPortfolio → Option CostPortfolio
unfolding find_row str_eq
get_portfolio portfolio_id rows =
    find_row (λ (r : CostPortfolio). str_eq r.portfolio_id portfolio_id) rows

abbrev in_history : String → String → String → TransactionRow → Bool
in_history portfolio_id security_id exclude_id r =
    str_eq r.event.portfolio_id portfolio_id
    && str_eq r.event.security_id security_id
    && (if nonempty exclude_id then not (str_eq r.event.transaction_id exclude_id) else true)

unfoldable pub get_transaction_history :
    String → String → String → List TransactionRow → List TransactionRow
unfolding filter str_eq nonempty
get_transaction_history portfolio_id security_id exclude_id rows =
    filter (in_history portfolio_id security_id exclude_id) rows

abbrev pub is_transaction : String → TransactionRow → Bool
is_transaction transaction_id r = str_eq r.event.transaction_id transaction_id

abbrev pub with_costs : Transaction → TransactionEvent → TransactionEvent
with_costs t e = record e {
  net_cost = t.net_cost;
  gross_cost = t.gross_cost;
  realized_gain_loss = t.realized_gain_loss;
  transaction_fx_rate = t.transaction_fx_rate;
  net_cost_local = t.net_cost_local;
  realized_gain_loss_local = t.realized_gain_loss_local;
}

-- `getattr(transaction, name, None)` for a field that pydantic keeps beside the declared ones.
abbrev pub Extras : Type 0
Extras = Transaction → String → Option String

abbrev pub same_lot : String → PositionLotState → Bool
same_lot source r = str_eq r.source_transaction_id source

module _ (extra : Extras) where
  abbrev pub lot_of : Transaction → PositionLotState
  lot_of t = record {
    lot_id = concat ("LOT-" ∷ t.transaction_id ∷ []);
    source_transaction_id = t.transaction_id;
    portfolio_id = t.portfolio_id;
    instrument_id = t.instrument_id;
    security_id = t.security_id;
    acquisition_date = date_of t.transaction_date;
    original_quantity = t.quantity;
    open_quantity = t.quantity;
    lot_cost_local = get_or t.net_cost_local (pos 0);
    lot_cost_base = get_or t.net_cost (pos 0);
    accrued_interest_paid_local = get_or t.accrued_interest (pos 0);
    economic_event_id = extra t "economic_event_id";
    linked_transaction_group_id = extra t "linked_transaction_group_id";
    calculation_policy_id = t.calculation_policy_id;
    calculation_policy_version = extra t "calculation_policy_version";
    source_system = extra t "source_system";
  }

  -- The conflicting row keeps its lot id.
  abbrev pub renewed_lot : Transaction → PositionLotState → PositionLotState
  renewed_lot t r = record (lot_of t) {
    lot_id = r.lot_id;
    source_transaction_id = r.source_transaction_id;
  }

  unfoldable pub upsert_buy_lot_state : Transaction → List PositionLotState → List PositionLotState
  unfolding upsert_row str_eq concat
  upsert_buy_lot_state t lots =
      upsert_row (same_lot t.transaction_id) (renewed_lot t) (lot_of t) lots

  abbrev pub offset_of : Transaction → AccruedIncomeOffsetState
  offset_of t = record {
    offset_id = concat ("AIO-" ∷ t.transaction_id ∷ []);
    source_transaction_id = t.transaction_id;
    portfolio_id = t.portfolio_id;
    instrument_id = t.instrument_id;
    security_id = t.security_id;
    accrued_interest_paid_local = get_or t.accrued_interest (pos 0);
    remaining_offset_local = get_or t.accrued_interest (pos 0);
    economic_event_id = extra t "economic_event_id";
    linked_transaction_group_id = extra t "linked_transaction_group_id";
    calculation_policy_id = t.calculation_policy_id;
    calculation_policy_version = extra t "calculation_policy_version";
    source_system = extra t "source_system";
  }

  abbrev pub renewed_offset : Transaction → AccruedIncomeOffsetState → AccruedIncomeOffsetState
  renewed_offset t r = record (offset_of t) {
    offset_id = r.offset_id;
    source_transaction_id = r.source_transaction_id;
  }

  unfoldable pub upsert_accrued_income_offset_state :
      Transaction → List AccruedIncomeOffsetState → List AccruedIncomeOffsetState
  unfolding upsert_row str_eq concat
  upsert_accrued_income_offset_state t offsets =
      upsert_row (λ (r : AccruedIncomeOffsetState). str_eq r.source_transaction_id t.transaction_id)
        (renewed_offset t) (offset_of t) offsets
