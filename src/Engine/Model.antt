-- ===== src/Engine/Model.antt =====
-- The engine's data: core/models/transaction.py, core/enums, logic/cost_objects.py. An instant
-- is a number of microseconds, and an optional field is an `Option`.
use portfolio_analytics_syst.Prelude.{ℕ, String, Option, none, some, str_eq, if◌then◌else◌}
use portfolio_analytics_syst.Prelude.Int.{pos, ◌+ℤ◌, ◌≤ℤ◌, ◌<ℤ◌}
pub use portfolio_analytics_syst.Prelude.Keys.{Key, key_eq_iff, key_eq_self, update-other}
unfoldable pub use portfolio_analytics_syst.Prelude.Keys.{key_eq, update}
pub use portfolio_analytics_syst.Prelude.Results.{Result, ok, raised}
use portfolio_analytics_syst.Decimal.{Decimal, Arith}

pub record Fees : Type 0 where
  pub stamp_duty : Decimal
  pub exchange_fee : Decimal
  pub gst : Decimal
  pub brokerage : Decimal
  pub other_fees : Decimal

unfoldable pub total_fees : Fees → Decimal
total_fees f = f.stamp_duty +ℤ f.exchange_fee +ℤ f.gst +ℤ f.brokerage +ℤ f.other_fees

-- `calculation_policy_id` is one of the extra fields, which the model config allows.
pub record Transaction : Type 0 where
  pub transaction_id : String
  pub portfolio_id : String
  pub instrument_id : String
  pub security_id : String
  pub transaction_type : String
  pub transaction_date : ℕ
  pub settlement_date : Option ℕ
  pub quantity : Decimal
  pub gross_transaction_amount : Decimal
  pub net_transaction_amount : Option Decimal
  pub fees : Option Fees
  pub accrued_interest : Option Decimal
  pub average_price : Option Decimal
  pub trade_currency : String
  pub portfolio_base_currency : String
  pub transaction_fx_rate : Option Decimal
  pub net_cost : Option Decimal
  pub gross_cost : Option Decimal
  pub realized_gain_loss : Option Decimal
  pub net_cost_local : Option Decimal
  pub realized_gain_loss_local : Option Decimal
  pub error_reason : Option String
  pub calculation_policy_id : Option String

-- The bounds that the fields declare (`ge=0`, `gt=0`); they hold of every parsed transaction.
abbrev pub FeesInRange : Option Fees → Type 0
FeesInRange none = Unit
FeesInRange (some f) =
    (pos 0 ≤ℤ f.stamp_duty)
    × (pos 0 ≤ℤ f.exchange_fee)
    × (pos 0 ≤ℤ f.gst)
    × (pos 0 ≤ℤ f.brokerage)
    × (pos 0 ≤ℤ f.other_fees)

abbrev pub NotBelowZero : Option Decimal → Type 0
NotBelowZero none = Unit
NotBelowZero (some d) = pos 0 ≤ℤ d

abbrev pub AboveZero : Option Decimal → Type 0
AboveZero none = Unit
AboveZero (some d) = pos 0 <ℤ d

pub record InRange (t : Transaction) : Type 0 where
  pub quantity_ge : pos 0 ≤ℤ t.quantity
  pub gross_ge : pos 0 ≤ℤ t.gross_transaction_amount
  pub fees_ge : FeesInRange t.fees
  pub accrued_ge : NotBelowZero t.accrued_interest
  pub rate_gt : AboveZero t.transaction_fx_rate

-- core/enums/transaction_type.py
pub data TransactionType : Type 0 where
  buy sell interest dividend deposit withdrawal fee transfer_in transfer_out other : TransactionType

abbrev pub type_value : TransactionType → String
type_value buy = "BUY"
type_value sell = "SELL"
type_value interest = "INTEREST"
type_value dividend = "DIVIDEND"
type_value deposit = "DEPOSIT"
type_value withdrawal = "WITHDRAWAL"
type_value fee = "FEE"
type_value transfer_in = "TRANSFER_IN"
type_value transfer_out = "TRANSFER_OUT"
type_value other = "OTHER"

-- `TransactionType(s)`: the member with this value; `none` stands for the `ValueError`.
unfoldable pub parse_type : String → Option TransactionType
unfolding str_eq
parse_type s =
    if str_eq s "BUY"
    then some buy
    else if str_eq s "SELL"
    then some sell
    else if str_eq s "INTEREST"
    then some interest
    else if str_eq s "DIVIDEND"
    then some dividend
    else if str_eq s "DEPOSIT"
    then some deposit
    else if str_eq s "WITHDRAWAL"
    then some withdrawal
    else if str_eq s "FEE"
    then some fee
    else if str_eq s "TRANSFER_IN"
    then some transfer_in
    else if str_eq s "TRANSFER_OUT"
    then some transfer_out
    else if str_eq s "OTHER"
    then some other
    else none

abbrev pub key_of : Transaction → Key
key_of t = (t.portfolio_id, t.instrument_id)

-- logic/cost_objects.py
pub record CostLot : Type 0 where
  pub transaction_id : String
  pub original_quantity : Decimal
  pub remaining_quantity : Decimal
  pub cost_per_share_local : Decimal
  pub cost_per_share_base : Decimal

unfoldable pub total_cost_local : ⦃a : Arith⦄ → CostLot → Decimal
total_cost_local ⦃a⦄ l = a.mul l.original_quantity l.cost_per_share_local

unfoldable pub total_cost_base : ⦃a : Arith⦄ → CostLot → Decimal
total_cost_base ⦃a⦄ l = a.mul l.original_quantity l.cost_per_share_base
