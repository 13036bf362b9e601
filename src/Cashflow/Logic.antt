-- ===== src/Cashflow/Logic.antt =====
-- app/core/enums.py and app/core/cashflow_logic.py, with the columns of the tables cashflows and
-- cashflow_rules. The columns of the rule are text.
use portfolio_analytics_syst.Prelude.{
  ℕ, String, Bool, Option, List, [], ◌∷◌, get_or, str_eq, str_in, if◌then◌else◌,
}
use portfolio_analytics_syst.Prelude.Int.{pos, ◌+ℤ◌, ◌-ℤ◌, neg, abs}
use portfolio_analytics_syst.Decimal.{Decimal}
use portfolio_analytics_syst.Events.{TransactionEvent, date_of}

pub data CashflowClassification : Type 0 where
  investment_outflow investment_inflow income expense : CashflowClassification
  cashflow_in cashflow_out internal transfer : CashflowClassification

abbrev pub classification_value : CashflowClassification → String
classification_value investment_outflow = "INVESTMENT_OUTFLOW"
classification_value investment_inflow = "INVESTMENT_INFLOW"
classification_value income = "INCOME"
classification_value expense = "EXPENSE"
classification_value cashflow_in = "CASHFLOW_IN"
classification_value cashflow_out = "CASHFLOW_OUT"
classification_value internal = "INTERNAL"
classification_value transfer = "TRANSFER"

pub record CashflowRule : Type 0 where
  pub transaction_type : String
  pub classification : String
  pub timing : String
  pub is_position_flow : Bool
  pub is_portfolio_flow : Bool

pub record Cashflow : Type 0 where
  pub transaction_id : String
  pub portfolio_id : String
  pub security_id : String
  pub cashflow_date : ℕ
  pub epoch : ℕ
  pub amount : Decimal
  pub currency : String
  pub classification : String
  pub timing : String
  pub calculation_type : String
  pub is_position_flow : Bool
  pub is_portfolio_flow : Bool
  pub economic_event_id : Option String
  pub linked_transaction_group_id : Option String

-- The gross amount adjusted by the fee.
unfoldable pub net_amount : TransactionEvent → Decimal
unfolding str_in
net_amount t =
    if str_in t.transaction_type ("BUY" ∷ "FEE" ∷ [])
    then t.gross_transaction_amount +ℤ get_or t.trade_fee (pos 0)
    else t.gross_transaction_amount -ℤ get_or t.trade_fee (pos 0)

abbrev pub positive_classifications : List String
positive_classifications =
    classification_value investment_inflow
    ∷ classification_value income
    ∷ classification_value cashflow_in
    ∷ []

-- The sign of the amount, from the classification of the rule.
unfoldable pub signed_amount : CashflowRule → TransactionEvent → Decimal
unfolding str_in str_eq
signed_amount rule t =
    if str_in rule.classification positive_classifications
    then abs (net_amount t)
    else if str_eq rule.classification (classification_value transfer)
    then (if str_eq t.transaction_type "TRANSFER_IN"
        then abs (net_amount t)
        else neg (abs (net_amount t)))
    else neg (abs (net_amount t))

unfoldable pub calculate : TransactionEvent → CashflowRule → Option ℕ → Cashflow
unfolding signed_amount net_amount
calculate t rule epoch = record {
  transaction_id = t.transaction_id;
  portfolio_id = t.portfolio_id;
  security_id = t.security_id;
  cashflow_date = date_of t.transaction_date;
  epoch = get_or epoch 0;
  amount = signed_amount rule t;
  currency = t.currency;
  classification = rule.classification;
  timing = rule.timing;
  calculation_type = "NET";
  is_position_flow = rule.is_position_flow;
  is_portfolio_flow = rule.is_portfolio_flow;
  economic_event_id = t.economic_event_id;
  linked_transaction_group_id = t.linked_transaction_group_id;
}
