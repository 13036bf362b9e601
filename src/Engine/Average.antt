-- ===== src/Engine/Average.antt =====
-- `AverageCostBasisStrategy` of logic/cost_basis_strategies.py: totals by portfolio and instrument.
use portfolio_analytics_syst.Prelude.{
  String, Option, none, some, List, [], ◌∷◌, concat, str_eq, if◌then◌else◌,
}
use portfolio_analytics_syst.Prelude.Int.{pos, ◌+ℤ◌, ◌-ℤ◌, ltb_ℤ, is_zero}
use portfolio_analytics_syst.Decimal.{Decimal, Arith}
use portfolio_analytics_syst.Engine.Model.{Transaction, Key, key_of, update, Result, ok, raised}
use portfolio_analytics_syst.Engine.Fifo.{Matched, nothing_matched}

pub record Holding : Type 0 where
  pub total_qty : Decimal
  pub total_cost_local : Decimal
  pub total_cost_base : Decimal

abbrev pub Holdings : Type 0
Holdings = Key → Holding

-- The `defaultdict` of zero totals.
abbrev pub no_holdings : Holdings
no_holdings key = record { total_qty = pos 0; total_cost_local = pos 0; total_cost_base = pos 0 }

-- `add_buy_lot`, on the two costs, which may be missing
unfoldable pub add_costed_lot :
    Holdings → Transaction → Option Decimal → Option Decimal → Result Holdings
add_costed_lot holdings t (some net_cost) (some net_cost_local) =
    let h = holdings (key_of t) in
    ok (
      update holdings (key_of t) (record {
        total_qty = h.total_qty +ℤ t.quantity;
        total_cost_local = h.total_cost_local +ℤ net_cost_local;
        total_cost_base = h.total_cost_base +ℤ net_cost;
      }))
add_costed_lot holdings t _ _ = raised (
    concat (
      "Buy transaction " ∷ t.transaction_id ∷ " must have net_cost and net_cost_local calculated."
      ∷ []))

unfoldable pub add_buy_lot : Holdings → Transaction → Result Holdings
unfolding add_costed_lot
add_buy_lot holdings t = add_costed_lot holdings t t.net_cost t.net_cost_local

unfoldable pub get_available_quantity : Holdings → Key → Decimal
get_available_quantity holdings key = (holdings key).total_qty

module _ ⦃a : Arith⦄ where
  -- The costs and the quantity, and the error text; on an error nothing is consumed.
  unfoldable pub consume_sell_quantity :
      Holdings → Key → Decimal → (Matched × Option String) × Holdings
  consume_sell_quantity holdings key required =
      let h = holdings key in
      let avg_cost_per_share_local = a.div h.total_cost_local h.total_qty in
      let avg_cost_per_share_base = a.div h.total_cost_base h.total_qty in
      let cogs_local = a.mul required avg_cost_per_share_local in
      let cogs_base = a.mul required avg_cost_per_share_base in
      if ltb_ℤ h.total_qty required
      then (
        (
          nothing_matched,
          some (
              concat (
                "Sell quantity ("
                ∷ a.show required
                ∷ ") exceeds available average cost holdings ("
                ∷ a.show h.total_qty
                ∷ ")."
                ∷ [])),
        ),
        holdings,
      )
      else if is_zero h.total_qty
      then ((nothing_matched, some "No holdings to sell against (Average Cost method)."), holdings)
      else (
        (record { cost_base = cogs_base; cost_local = cogs_local; consumed = required }, none),
        update holdings key (record {
          total_qty = h.total_qty -ℤ required;
          total_cost_local = h.total_cost_local -ℤ cogs_local;
          total_cost_base = h.total_cost_base -ℤ cogs_base;
        }),
      )

-- `set_initial_lots`, which stops at the first error
unfoldable pub set_initial_lots : Holdings → List Transaction → Result Holdings
unfolding add_buy_lot str_eq
set_initial_lots holdings [] = ok holdings
set_initial_lots holdings (t ∷ ts) =
    elim (if str_eq t.transaction_type "BUY" then add_buy_lot holdings t else ok holdings) [
      | ok next ↦ set_initial_lots next ts
      | raised text ↦ raised text
    ]
