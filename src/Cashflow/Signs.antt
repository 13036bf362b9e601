-- ===== src/Cashflow/Signs.antt =====
-- The sign convention: inflows are positive and outflows negative, whatever the sign of the amounts
-- of the transaction, and the fee never changes the direction.
use portfolio_analytics_syst.Prelude.{
  ℕ, Bool, true, false, Option, ◌≡◌, refl, inl, inr, Bool-cases, str_eq, str_in,
}
use portfolio_analytics_syst.Prelude.Int.{ℤ, pos, ◌≤ℤ◌, neg, abs, abs_nonneg, int_laws}
use portfolio_analytics_syst.Events.{TransactionEvent}
use portfolio_analytics_syst.Cashflow.Logic.{
  CashflowClassification, investment_outflow, investment_inflow, income, expense, cashflow_in,
  cashflow_out, internal, transfer, classification_value, CashflowRule, net_amount, signed_amount,
  calculate,
}

pub data Direction : Type 0 where
  inflow outflow : Direction

-- The direction of a classification; that of a transfer is the transaction's.
abbrev pub direction : CashflowClassification → Bool → Direction
direction investment_inflow arrives = inflow
direction income arrives = inflow
direction cashflow_in arrives = inflow
direction transfer true = inflow
direction transfer false = outflow
direction investment_outflow arrives = outflow
direction expense arrives = outflow
direction cashflow_out arrives = outflow
direction internal arrives = outflow

-- The size of the flow is that of the net amount, and its sign that of the direction.
abbrev pub HasSign : Direction → ℤ → ℤ → Type 0
HasSign inflow net amount = (pos 0 ≤ℤ amount) × (amount ≡ abs net)
HasSign outflow net amount = (amount ≤ℤ pos 0) × (amount ≡ neg (abs net))

flows_in : (net : ℤ) → HasSign inflow net (abs net)
flows_in net = (abs_nonneg net, refl)

flows_out : (net : ℤ) → HasSign outflow net (neg (abs net))
flows_out net = (omega (int_laws, abs_nonneg net), refl)

-- For a rule of any classification the amount is the net amount with the sign of its direction.
pub calculate-HasSign :
    (t : TransactionEvent) (rule : CashflowRule) (epoch : Option ℕ) (c : CashflowClassification)
    → rule.classification ≡ classification_value c
    → HasSign
        (direction c (str_eq t.transaction_type "TRANSFER_IN"))
        (net_amount t)
        (calculate t rule epoch).amount
unfolding calculate signed_amount str_in str_eq
calculate-HasSign t rule epoch investment_inflow h = rw h (flows_in (net_amount t))
calculate-HasSign t rule epoch income h = rw h (flows_in (net_amount t))
calculate-HasSign t rule epoch cashflow_in h = rw h (flows_in (net_amount t))
calculate-HasSign t rule epoch transfer h =
    elim (Bool-cases (str_eq t.transaction_type "TRANSFER_IN")) [
      | inl e ↦ rw (h, e) (flows_in (net_amount t))
      | inr e ↦ rw (h, e) (flows_out (net_amount t))
    ]
calculate-HasSign t rule epoch investment_outflow h = rw h (flows_out (net_amount t))
calculate-HasSign t rule epoch expense h = rw h (flows_out (net_amount t))
calculate-HasSign t rule epoch cashflow_out h = rw h (flows_out (net_amount t))
calculate-HasSign t rule epoch internal h = rw h (flows_out (net_amount t))
