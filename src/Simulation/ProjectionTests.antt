-- ===== src/Simulation/ProjectionTests.antt =====
-- A portfolio of one security, of which more is bought, and all of it sold, with exact numbers.
use portfolio_analytics_syst.Prelude.{
  String, true, none, some, [], ◌∷◌, ◌≡◌, refl, Option, str_in, str_eq, upper, filter, count,
}
use portfolio_analytics_syst.Prelude.Int.{ℤ, pos, ◌+ℤ◌, ◌-ℤ◌, neg, ltb_ℤ, leb_ℤ}
use portfolio_analytics_syst.Prelude.Collation.{Collation}
use portfolio_analytics_syst.Prelude.Sorting.{sort_by}
use portfolio_analytics_syst.Prelude.Tables.{find_row, update_rows, upsert_row}
use portfolio_analytics_syst.Decimal.{Decimal}
use portfolio_analytics_syst.Simulation.Sessions.{SimulationChange}
use portfolio_analytics_syst.Simulation.Projection.{
  Floats, InstrumentInfo, BaselineRow, Projected, is_of, change_quantity_effect, baseline_map,
  with_missing, apply_changes, projected_map, projected_positions, sum_deltas, projected_summary,
}
use portfolio_analytics_syst.Simulation.Proposed.{
  start, last_held, moved_quantity, projected_map-moved_quantity,
}

abbrev exact : Floats
exact = record {
  Float = ℤ;
  of_decimal = λ d. d;
  zero_float = pos 0;
  add = λ x y. x +ℤ y;
  sub = λ x y. x -ℤ y;
  negate = neg;
  at_most_zero = λ x. leb_ℤ x (pos 0);
  is_positive = λ x. ltb_ℤ (pos 0) x;
}

abbrev held : BaselineRow
held = record {
  security_id = "S";
  quantity = pos 5;
  cost_basis = some (pos 9);
  cost_basis_local = none;
  instrument = none;
}

abbrev change : String → Decimal → SimulationChange
change kind quantity = record {
  id = 1;
  change_id = "c";
  session_id = "A";
  portfolio_id = "P";
  security_id = "S";
  transaction_type = kind;
  quantity = some quantity;
  price = none;
  amount = none;
  currency = none;
  effective_date = none;
  created_at = 1;
}

abbrev unknown : String → Option InstrumentInfo
unknown id = none

abbrev by_id : Collation
by_id = record { leb = λ s t. true }

projected_map-moved_quantity_example :
    (r : Projected ℤ) × (find_row
        (is_of "S")
        (projected_map exact unknown (held ∷ []) (change "BUY" (pos 2) ∷ []))
      ≡ some r)
    × (r.baseline_quantity ≡ start exact (last_held "S" (held ∷ []) none))
    × (r.proposed_quantity
        ≡ moved_quantity exact "S"
            (start exact (last_held "S" (held ∷ []) none))
            (change "BUY" (pos 2) ∷ []))
projected_map-moved_quantity_example =
    projected_map-moved_quantity exact unknown (held ∷ []) (change "BUY" (pos 2) ∷ []) "S"
      (unfold str_in str_eq in refl)

five_and_two :
    moved_quantity exact "S"
      (start exact (last_held "S" (held ∷ []) none))
      (change "buy" (pos 2) ∷ change "FEE" (pos 1) ∷ [])
    ≡ pos 6
unfolding moved_quantity last_held find_row str_eq upper neg ◌-ℤ◌ ◌+ℤ◌
five_and_two = refl

-- A position that is sold entirely is in no projected position, and its change is not in the sum.
sold_position_is_dropped :
    (projected_summary exact (
      projected_positions exact by_id unknown
        (held ∷ [])
        (change "SELL" (pos 5) ∷ []))).net_delta_quantity
    ≡ pos 0
unfolding projected_summary projected_positions projected_map baseline_map with_missing
    apply_changes change_quantity_effect find_row update_rows upsert_row str_eq str_in upper sort_by
    filter sum_deltas count ◌+ℤ◌ ◌-ℤ◌ neg
sold_position_is_dropped = refl
