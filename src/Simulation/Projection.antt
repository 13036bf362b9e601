-- ===== src/Simulation/Projection.antt =====
-- get_projected_positions and get_projected_summary of app/services/simulation_service.py. `float` and
-- its rounding arithmetic, the order of texts, and the baseline and the instruments that other
-- repositories read are parameters.
use portfolio_analytics_syst.Prelude.{
  ℕ, String, Bool, Option, none, some, List, [], ◌∷◌, ◌++◌, map, filter, not, length, count, str_eq,
  str_in, upper, get_or, if◌then◌else◌,
}
use portfolio_analytics_syst.Prelude.Int.{pos, is_zero}
use portfolio_analytics_syst.Prelude.Sorting.{sort_by}
use portfolio_analytics_syst.Prelude.Collation.{Collation}
use portfolio_analytics_syst.Prelude.Tables.{find_row, update_rows, upsert_row}
use portfolio_analytics_syst.Decimal.{Decimal}
use portfolio_analytics_syst.Simulation.Sessions.{SimulationChange}

pub record Floats : Type 1 where
  pub Float : Type 0
  pub of_decimal : Decimal → Float
  pub zero_float : Float
  pub add : Float → Float → Float
  pub sub : Float → Float → Float
  pub negate : Float → Float
  -- `x <= 0` and `x > 0`
  pub at_most_zero : Float → Bool
  pub is_positive : Float → Bool

pub record InstrumentInfo : Type 0 where
  pub name : String
  pub asset_class : Option String

pub record BaselineRow : Type 0 where
  pub security_id : String
  pub quantity : Decimal
  pub cost_basis : Option Decimal
  pub cost_basis_local : Option Decimal
  pub instrument : Option InstrumentInfo

-- An entry of `baseline_map`.
pub record Projected (F : Type 0) : Type 0 where
  pub security_id : String
  pub baseline_quantity : F
  pub proposed_quantity : F
  pub cost_basis : Option F
  pub cost_basis_local : Option F
  pub instrument_name : String
  pub asset_class : Option String

pub record Summary (F : Type 0) : Type 0 where
  pub total_baseline_positions : ℕ
  pub total_proposed_positions : ℕ
  pub net_delta_quantity : F

-- `a or b` of optional decimals, where zero is falsy.
abbrev pub or_amount : Option Decimal → Option Decimal → Option Decimal
or_amount none b = b
or_amount (some a) b = if is_zero a then b else some a

abbrev pub is_of : {F : Type 0} → String → Projected F → Bool
is_of security_id r = str_eq r.security_id security_id

module _ (floats : Floats) where
  open floats use {Float}

  -- `_change_quantity_effect`
  unfoldable pub change_quantity_effect : SimulationChange → Float
  unfolding upper str_in
  change_quantity_effect c =
      let kind = upper c.transaction_type in
      let magnitude =
        floats.of_decimal (get_or (or_amount (or_amount c.quantity c.amount) none) (pos 0)) in
      if str_in kind ("BUY" ∷ "DEPOSIT" ∷ "TRANSFER_IN" ∷ [])
      then magnitude
      else if str_in kind ("SELL" ∷ "WITHDRAWAL" ∷ "TRANSFER_OUT" ∷ "FEE" ∷ "TAX" ∷ [])
      then floats.negate magnitude
      else floats.zero_float

  abbrev float_or : Option Decimal → Option Float
  float_or none = none
  float_or (some d) = some (floats.of_decimal d)

  abbrev name_or : String → Option InstrumentInfo → String
  name_or security_id none = security_id
  name_or security_id (some i) = i.name

  abbrev class_or : Option String → Option InstrumentInfo → Option String
  class_or old none = old
  class_or old (some i) = i.asset_class

  abbrev pub of_baseline : BaselineRow → Projected Float
  of_baseline b = record {
    security_id = b.security_id;
    baseline_quantity = floats.of_decimal b.quantity;
    proposed_quantity = floats.of_decimal b.quantity;
    cost_basis = float_or b.cost_basis;
    cost_basis_local = float_or b.cost_basis_local;
    instrument_name = name_or b.security_id b.instrument;
    asset_class = class_or none b.instrument;
  }

  abbrev pub not_held : String → Projected Float
  not_held security_id = record {
    security_id = security_id;
    baseline_quantity = floats.zero_float;
    proposed_quantity = floats.zero_float;
    cost_basis = some floats.zero_float;
    cost_basis_local = some floats.zero_float;
    instrument_name = security_id;
    asset_class = none;
  }

  -- `baseline_map`, in which a later row of a security replaces an earlier one.
  unfoldable pub baseline_map : List BaselineRow → List (Projected Float) → List (Projected Float)
  unfolding upsert_row str_eq
  baseline_map [] rows = rows
  baseline_map (b ∷ bs) rows =
      baseline_map bs (upsert_row (is_of b.security_id) (λ _. of_baseline b) (of_baseline b) rows)

  abbrev pub add_missing :
      String → List (Projected Float) → Option (Projected Float) → List (Projected Float)
  add_missing security_id rows none = rows ++ not_held security_id ∷ []
  add_missing security_id rows (some r) = rows

  -- The securities of the changes that are not in the map; the set's order is not used.
  unfoldable pub with_missing : List String → List (Projected Float) → List (Projected Float)
  unfolding find_row str_eq
  with_missing [] rows = rows
  with_missing (s ∷ ids) rows = with_missing ids (add_missing s rows (find_row (is_of s) rows))

  abbrev pub renamed : Option InstrumentInfo → Projected Float → Projected Float
  renamed none r = r
  renamed (some i) r = record r { instrument_name = i.name; asset_class = i.asset_class }

  abbrev pub named : (String → Option InstrumentInfo) → Projected Float → Projected Float
  named instrument_of r = renamed (instrument_of r.security_id) r

  abbrev pub changed_by : SimulationChange → Projected Float → Projected Float
  changed_by c r = record r {
    proposed_quantity = floats.add r.proposed_quantity (change_quantity_effect c);
  }

  unfoldable pub apply_changes :
      List SimulationChange → List (Projected Float) → List (Projected Float)
  unfolding update_rows change_quantity_effect str_eq
  apply_changes [] rows = rows
  apply_changes (c ∷ cs) rows =
      apply_changes cs (update_rows (is_of c.security_id) (changed_by c) rows)

  -- The map once the changes have been applied.
  unfoldable pub projected_map :
      (String → Option InstrumentInfo)
      → List BaselineRow
      → List SimulationChange
      → List (Projected Float)
  unfolding baseline_map with_missing apply_changes
  projected_map instrument_of baseline changes = apply_changes changes (
      map (named instrument_of) (
        with_missing (map (λ (c : SimulationChange). c.security_id) changes)
          (baseline_map baseline [])))

  -- The positions of the response; the delta is the proposed less the baseline quantity.
  unfoldable pub projected_positions :
      Collation
      → (String → Option InstrumentInfo)
      → List BaselineRow
      → List SimulationChange
      → List (Projected Float)
  unfolding projected_map sort_by filter
  projected_positions c instrument_of baseline changes =
      sort_by (λ (x : Projected Float) (y : Projected Float). c.leb x.security_id y.security_id)
        (filter (λ (r : Projected Float). not (floats.at_most_zero r.proposed_quantity))
          (projected_map instrument_of baseline changes))

  abbrev pub delta_quantity : Projected Float → Float
  delta_quantity r = floats.sub r.proposed_quantity r.baseline_quantity

  unfoldable pub sum_deltas : Float → List (Projected Float) → Float
  sum_deltas total [] = total
  sum_deltas total (r ∷ rows) = sum_deltas (floats.add total (delta_quantity r)) rows

  unfoldable pub projected_summary : List (Projected Float) → Summary Float
  unfolding sum_deltas count
  projected_summary positions = record {
    total_baseline_positions =
        count (λ (r : Projected Float). floats.is_positive r.baseline_quantity) positions;
    total_proposed_positions = length positions;
    net_delta_quantity = sum_deltas floats.zero_float positions;
  }
