-- ===== src/Events.antt =====
-- The events that the services exchange (portfolio_common/events.py): the transaction event. An
-- instant is a number of microseconds, and a date the ordinal that `date.toordinal` gives it.
use portfolio_analytics_syst.Prelude.{ℕ, ◌+◌, ◌/◌, String, Option}
use portfolio_analytics_syst.Decimal.{Decimal}

pub record TransactionEvent : Type 0 where
  pub transaction_id : String
  pub portfolio_id : String
  pub instrument_id : String
  pub security_id : String
  pub transaction_date : ℕ
  pub transaction_type : String
  pub quantity : Decimal
  pub price : Decimal
  pub gross_transaction_amount : Decimal
  pub trade_currency : String
  pub currency : String
  pub trade_fee : Option Decimal
  pub settlement_date : Option ℕ
  pub net_cost : Option Decimal
  pub gross_cost : Option Decimal
  pub realized_gain_loss : Option Decimal
  pub transaction_fx_rate : Option Decimal
  pub net_cost_local : Option Decimal
  pub realized_gain_loss_local : Option Decimal
  pub economic_event_id : Option String
  pub linked_transaction_group_id : Option String
  pub calculation_policy_id : Option String
  pub calculation_policy_version : Option String
  pub source_system : Option String
  pub epoch : Option ℕ

-- `instant.date()`
abbrev pub date_of : ℕ → ℕ
date_of instant = instant / 86400000000 + 1

-- `date(1970, 1, 1)`
abbrev pub epoch_start : ℕ
epoch_start = 719163
