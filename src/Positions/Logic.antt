-- ===== src/Positions/Logic.antt =====
-- app/core/position_models.py and the pure part of app/core/position_logic.py: the position that a
-- transaction leads to, and the records of a run of transactions.
use portfolio_analytics_syst.Prelude.{
  ℕ, String, Option, none, some, List, [], ◌∷◌, str_eq, str_in, upper, get_or, if◌then◌else◌,
}
use portfolio_analytics_syst.Prelude.Int.{pos, ◌+ℤ◌, ◌-ℤ◌, is_zero}
use portfolio_analytics_syst.Decimal.{Decimal}
use portfolio_analytics_syst.Events.{TransactionEvent, date_of}

pub record Amounts : Type 0 where
  pub quantity : Decimal
  pub cost_basis : Decimal
  pub cost_basis_local : Decimal

-- A row of position_history but for its id and its time stamps.
pub record Position : Type 0 where
  pub portfolio_id : String
  pub security_id : String
  pub transaction_id : String
  pub position_date : ℕ
  pub epoch : ℕ
  pub quantity : Decimal
  pub cost_basis : Decimal
  pub cost_basis_local : Option Decimal

-- The amounts after the transaction's own branch.
unfoldable pub moved : Amounts → TransactionEvent → Amounts
unfolding str_eq str_in upper
moved s t =
    let kind = upper t.transaction_type in
    let gross = t.gross_transaction_amount in
    if str_eq kind "BUY"
    then record {
      quantity = s.quantity +ℤ t.quantity;
      cost_basis = s.cost_basis +ℤ get_or t.net_cost (pos 0);
      cost_basis_local = s.cost_basis_local +ℤ get_or t.net_cost_local (pos 0);
    }
    else if str_in kind ("SELL" ∷ "TRANSFER_OUT" ∷ [])
    then record {
      quantity = s.quantity -ℤ t.quantity;
      cost_basis = s.cost_basis +ℤ get_or t.net_cost (pos 0);
      cost_basis_local = s.cost_basis_local +ℤ get_or t.net_cost_local (pos 0);
    }
    else if str_eq kind "DEPOSIT"
    then record {
      quantity = s.quantity +ℤ gross;
      cost_basis = s.cost_basis +ℤ gross;
      cost_basis_local = s.cost_basis_local +ℤ gross;
    }
    else if str_eq kind "TRANSFER_IN"
    then record {
      quantity = s.quantity +ℤ t.quantity;
      cost_basis = s.cost_basis +ℤ gross;
      cost_basis_local = s.cost_basis_local +ℤ gross;
    }
    else if str_in kind ("FEE" ∷ "TAX" ∷ "WITHDRAWAL" ∷ [])
    then record {
      quantity = s.quantity -ℤ gross;
      cost_basis = s.cost_basis -ℤ gross;
      cost_basis_local = s.cost_basis_local -ℤ gross;
    }
    else s

-- A position of no quantity has no cost.
abbrev pub without_cost : Amounts → Amounts
without_cost s = record s { cost_basis = pos 0; cost_basis_local = pos 0 }

unfoldable pub calculate_next_position : Amounts → TransactionEvent → Amounts
unfolding moved
calculate_next_position s t =
    let after = moved s t in if is_zero after.quantity then without_cost after else after

abbrev pub record_position : ℕ → TransactionEvent → Amounts → Position
record_position epoch t s = record {
  portfolio_id = t.portfolio_id;
  security_id = t.security_id;
  transaction_id = t.transaction_id;
  position_date = date_of t.transaction_date;
  epoch = epoch;
  quantity = s.quantity;
  cost_basis = s.cost_basis;
  cost_basis_local = some s.cost_basis_local;
}

-- The loop over the transactions.
unfoldable pub run_positions : Amounts → List TransactionEvent → ℕ → List Position
unfolding calculate_next_position
run_positions s [] epoch = []
run_positions s (t ∷ ts) epoch =
    let after = calculate_next_position s t in
    record_position epoch t after ∷ run_positions after ts epoch

abbrev pub start_from : Option Position → Amounts
start_from none = record { quantity = pos 0; cost_basis = pos 0; cost_basis_local = pos 0 }
start_from (some p) = record {
  quantity = p.quantity;
  cost_basis = p.cost_basis;
  cost_basis_local = get_or p.cost_basis_local (pos 0);
}

unfoldable pub calculate_new_positions : Option Position → List TransactionEvent → ℕ → List Position
unfolding run_positions
calculate_new_positions anchor ts epoch = run_positions (start_from anchor) ts epoch
