-- ===== src/Costs/Tests.antt =====
-- A purchase of a portfolio without history, from its event to the stored costs.
use portfolio_analytics_syst.Prelude.{
  ℕ, String, true, none, some, [], ◌∷◌, ◌≡◌, refl, str_in, present,
}
use portfolio_analytics_syst.Prelude.Int.{pos, ◌+ℤ◌}
use portfolio_analytics_syst.Prelude.Results.{ok}
use portfolio_analytics_syst.Decimal.Hundredths.{hundredths}
use portfolio_analytics_syst.Events.{TransactionEvent}
use portfolio_analytics_syst.Idempotency.{Delivery, is_event_processed}
use portfolio_analytics_syst.Engine.Model.{Transaction}
use portfolio_analytics_syst.Engine.Model.{parse_type}
use portfolio_analytics_syst.Engine.Reporter.{has_errors_for}
use portfolio_analytics_syst.Engine.Fifo
use portfolio_analytics_syst.Engine.Disposition
use portfolio_analytics_syst.Engine.Strategies.{buy_strategy, add_lot_reporting}
use portfolio_analytics_syst.Engine.Calculator.{calculate_transaction_costs}
use portfolio_analytics_syst.Engine.Sorter.{sort_transactions}
use portfolio_analytics_syst.Engine.Processor.{replay}
use portfolio_analytics_syst.Engine.Parser.{Pydantic, valid, parse_transactions}
use portfolio_analytics_syst.Costs.Repository.{CostTables}
use portfolio_analytics_syst.Costs.Consumer.{
  service, Edges, Attempt, committed, process_event, returned, process_message,
}
use portfolio_analytics_syst.Costs.Effects.{Concerns}
use portfolio_analytics_syst.Costs.Once.{process_event-Concerns, process_message_once}

abbrev purchase : TransactionEvent
purchase = record {
  transaction_id = "T";
  portfolio_id = "P";
  instrument_id = "I";
  security_id = "S";
  transaction_date = 0;
  transaction_type = "BUY";
  quantity = pos 500;
  price = pos 2000;
  gross_transaction_amount = pos 10000;
  trade_currency = "USD";
  currency = "USD";
  trade_fee = none;
  settlement_date = none;
  net_cost = none;
  gross_cost = none;
  realized_gain_loss = none;
  transaction_fx_rate = none;
  net_cost_local = none;
  realized_gain_loss_local = none;
  economic_event_id = none;
  linked_transaction_group_id = none;
  calculation_policy_id = none;
  calculation_policy_version = none;
  source_system = none;
  epoch = some 1;
}

abbrev parsed : Transaction
parsed = record {
  transaction_id = "T";
  portfolio_id = "P";
  instrument_id = "I";
  security_id = "S";
  transaction_type = "BUY";
  transaction_date = 0;
  settlement_date = none;
  quantity = pos 500;
  gross_transaction_amount = pos 10000;
  net_transaction_amount = none;
  fees = none;
  accrued_interest = none;
  average_price = none;
  trade_currency = "USD";
  portfolio_base_currency = "USD";
  transaction_fx_rate = none;
  net_cost = none;
  gross_cost = none;
  realized_gain_loss = none;
  net_cost_local = none;
  realized_gain_loss_local = none;
  error_reason = none;
  calculation_policy_id = none;
}

abbrev one_purchase : Pydantic
one_purchase = record {
  Value = String;
  text = λ s. s;
  decimal = λ d. "d";
  as_text = λ s. s;
  validate = λ raw. valid parsed;
}

abbrev edges : Edges
edges = record {
  pydantic = one_purchase;
  decode = λ value. ok purchase;
  dump = λ e. [];
  brokerage = λ d. "d";
  extra = λ t name. none;
  show_instant = λ i. "instant";
  clock = λ id. 1;
}

abbrev tables : CostTables
tables = record {
  portfolios = record { portfolio_id = "P"; base_currency = "USD"; cost_basis_method = none } ∷ [];
  fx_rates = [];
  transactions = record { id = 1; event = record purchase { epoch = none } } ∷ [];
  lots = [];
  offsets = [];
  processed = [];
  outbox = record { next_id = 1; events = [] };
}

abbrev message : Delivery
message = record { event_id = "c-0-1"; value = "{}"; correlation_id = none }

-- The tables of a commit.
abbrev committed_or : CostTables → Attempt → CostTables
committed_or db (committed after) = after
committed_or db _ = db

abbrev stored : CostTables
stored = committed_or tables (process_event ⦃a = hundredths⦄ edges message purchase tables)

commits : process_event ⦃a = hundredths⦄ edges message purchase tables ≡ committed stored
unfolding process_event parse_transactions replay sort_transactions present
    calculate_transaction_costs parse_type buy_strategy ◌+ℤ◌ add_lot_reporting
    Disposition.add_buy_lot Fifo.add_buy_lot has_errors_for str_in
commits = refl

process_event-Concerns_example :
    Concerns "T" (some 1) tables stored
    × (is_event_processed "c-0-1" service stored.processed ≡ true)
process_event-Concerns_example =
    process_event-Concerns ⦃a = hundredths⦄ edges message purchase tables stored commits

abbrev meanwhile : ℕ → CostTables → CostTables
meanwhile left db = db

returns : (process_message ⦃a = hundredths⦄ edges meanwhile message tables).0 ≡ returned
unfolding process_message process_event parse_transactions replay sort_transactions present
    calculate_transaction_costs parse_type buy_strategy ◌+ℤ◌ add_lot_reporting
    Disposition.add_buy_lot Fifo.add_buy_lot has_errors_for str_in
returns = refl

process_message_once_example :
    process_message ⦃a = hundredths⦄ edges meanwhile message
      (process_message ⦃a = hundredths⦄ edges meanwhile message tables).1
    ≡ (returned, (process_message ⦃a = hundredths⦄ edges meanwhile message tables).1)
process_message_once_example =
    process_message_once ⦃a = hundredths⦄ edges meanwhile message purchase tables refl returns
