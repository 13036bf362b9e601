-- ===== src/Engine/Fifo.antt =====
-- `FIFOBasisStrategy` of logic/cost_basis_strategies.py: open lots by portfolio and instrument, in
-- the order in which they were bought.
pub mod Consume
pub mod Lots
use portfolio_analytics_syst.Prelude.{
  String, Bool, Option, none, some, List, [], ◌∷◌, ◌++◌, concat, str_eq, sum_by, if◌then◌else◌,
}
use portfolio_analytics_syst.Prelude.Int.{ℤ, pos, ◌+ℤ◌, ◌-ℤ◌, leb_ℤ, ltb_ℤ, is_zero}
use portfolio_analytics_syst.Decimal.{Decimal, Arith}
use portfolio_analytics_syst.Engine.Model.{
  Transaction, Key, key_of, update, CostLot, Result, ok, raised,
}

abbrev pub OpenLots : Type 0
OpenLots = Key → List CostLot

-- `defaultdict(deque)`
abbrev pub no_lots : OpenLots
no_lots key = []

-- What a sale took: its cost in both currencies, and the quantity.
pub record Matched : Type 0 where
  pub cost_base : Decimal
  pub cost_local : Decimal
  pub consumed : Decimal

abbrev pub nothing_matched : Matched
nothing_matched = record { cost_base = pos 0; cost_local = pos 0; consumed = pos 0 }

unfoldable pub available : List CostLot → Decimal
available = sum_by (λ lot. lot.remaining_quantity)

unfoldable pub get_available_quantity : OpenLots → Key → Decimal
unfolding available
get_available_quantity lots key = available (lots key)

module _ ⦃a : Arith⦄ where
  abbrev pub new_lot : Transaction → Decimal → Decimal → CostLot
  new_lot t net_cost net_cost_local = record {
    transaction_id = t.transaction_id;
    original_quantity = t.quantity;
    remaining_quantity = t.quantity;
    cost_per_share_local = a.div net_cost_local t.quantity;
    cost_per_share_base = a.div net_cost t.quantity;
  }

  -- `add_buy_lot`, on the two costs, which may be missing
  unfoldable pub add_costed_lot :
      OpenLots → Transaction → Option Decimal → Option Decimal → Result OpenLots
  add_costed_lot lots t (some net_cost) (some net_cost_local) =
      if is_zero t.quantity
      then ok lots
      else ok (update lots (key_of t) (lots (key_of t) ++ new_lot t net_cost net_cost_local ∷ []))
  add_costed_lot lots t _ _ = raised (
      concat (
        "Buy transaction " ∷ t.transaction_id
        ∷ " must have net_cost and net_cost_local calculated before adding as a lot." ∷ []))

  unfoldable pub add_buy_lot : OpenLots → Transaction → Result OpenLots
  unfolding add_costed_lot
  add_buy_lot lots t = add_costed_lot lots t t.net_cost t.net_cost_local

  abbrev take_from : Decimal → CostLot → Matched → Matched
  take_from q lot m = record {
    cost_base = m.cost_base +ℤ a.mul q lot.cost_per_share_base;
    cost_local = m.cost_local +ℤ a.mul q lot.cost_per_share_local;
    consumed = m.consumed +ℤ q;
  }

  -- The `while`. When a lot covers what is still required the loop ends, since nothing more is
  -- required; a lot that is used up leaves the queue.
  unfoldable pub match_lots : Decimal → Matched → List CostLot → Matched × List CostLot
  match_lots required m [] = (m, [])
  match_lots required m (lot ∷ rest) =
      let exhausted =
        match_lots (required -ℤ lot.remaining_quantity) (take_from lot.remaining_quantity lot m)
          rest in
      let left : CostLot = record lot { remaining_quantity = lot.remaining_quantity -ℤ required } in
      if ltb_ℤ (pos 0) required
      then (if leb_ℤ required lot.remaining_quantity
          then (
            take_from required lot m,
            (if is_zero left.remaining_quantity then rest else left ∷ rest),
          )
          else exhausted)
      else (m, lot ∷ rest)

  -- The costs and the quantity, and the error text; on an error nothing is consumed.
  unfoldable pub consume_sell_quantity :
      OpenLots → Key → Decimal → (Matched × Option String) × OpenLots
  unfolding get_available_quantity match_lots
  consume_sell_quantity lots key sell_quantity =
      let held = get_available_quantity lots key in
      let (m, left) = match_lots sell_quantity nothing_matched (lots key) in
      if ltb_ℤ held sell_quantity
      then (
        (
          nothing_matched,
          some (
              concat (
                "Sell quantity ("
                ∷ a.show sell_quantity
                ∷ ") exceeds available holdings ("
                ∷ a.show held
                ∷ ")."
                ∷ [])),
        ),
        lots,
      )
      else ((m, none), update lots key left)

  -- `set_initial_lots`, which stops at the first error
  unfoldable pub set_initial_lots : OpenLots → List Transaction → Result OpenLots
  unfolding add_buy_lot str_eq
  set_initial_lots lots [] = ok lots
  set_initial_lots lots (t ∷ ts) =
      elim (if str_eq t.transaction_type "BUY" then add_buy_lot lots t else ok lots) [
        | ok next ↦ set_initial_lots next ts
        | raised text ↦ raised text
      ]
