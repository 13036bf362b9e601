-- ===== src/Positions/Tests.antt =====
-- The position calculator on a small store, and its theorems there.
use portfolio_analytics_syst.Prelude.{
  count, leb, str_eq, ◌&&◌, ◌+◌, Bool, if◌then◌else◌, ℕ, ◌*◌, ◌<◌, String, Option, none, some, [],
  ◌∷◌, ◌++◌, map, ◌≡◌, refl, arith, All, sum_by, str_eq, upper, str_in, nonempty,
}
use portfolio_analytics_syst.Prelude.Int.{pos, ◌+ℤ◌}
use portfolio_analytics_syst.Prelude.Keys.{key_eq}
use portfolio_analytics_syst.Prelude.Results.{ok}
use portfolio_analytics_syst.Prelude.Sorting.{IsSorted}
use portfolio_analytics_syst.Events.{TransactionEvent, date_of}
use portfolio_analytics_syst.Outbox.Repository.{Outbox}
use portfolio_analytics_syst.Positions.State.{PositionState, find_state}
use portfolio_analytics_syst.Positions.Logic.{
  Position, start_from, run_positions, calculate_new_positions,
}
use portfolio_analytics_syst.Positions.Store.{
  TransactionRow, Store, latest, get_latest_completed_snapshot_date,
}
use portfolio_analytics_syst.Positions.Calculator.{
  recalculate, calculate, events_to_replay, effective_completed_date,
}
use portfolio_analytics_syst.Positions.Running.{
  last_position, calculate_new_positions-append, quantity_effect, calculate_new_positions-quantity,
  HasNoIdleCost, run_positions-HasNoIdleCost,
}
use portfolio_analytics_syst.Positions.Recalculation.{positions_of, recalculate_twice}
use portfolio_analytics_syst.Positions.Epochs.{
  KeepsEpochs, calculate-KeepsEpochs, calculate_stale, calculate_replayed,
}
use portfolio_analytics_syst.Positions.Replay.{
  Replayed, calculate_backdated, events_to_replay-IsSorted,
}

-- 2021-03-01 is 737850.
abbrev trade : String → String → ℕ → ℕ → Option ℕ → TransactionEvent
trade id kind day units epoch = record {
  transaction_id = id;
  portfolio_id = "P";
  instrument_id = "I";
  security_id = "S";
  transaction_date = day * 86400000000;
  transaction_type = kind;
  quantity = pos units;
  price = pos 100;
  gross_transaction_amount = pos (units * 100);
  trade_currency = "USD";
  currency = "USD";
  trade_fee = some (pos 0);
  settlement_date = none;
  net_cost = some (pos (units * 100));
  gross_cost = none;
  realized_gain_loss = none;
  transaction_fx_rate = none;
  net_cost_local = some (pos (units * 100));
  realized_gain_loss_local = none;
  economic_event_id = none;
  linked_transaction_group_id = none;
  calculation_policy_id = none;
  calculation_policy_version = none;
  source_system = none;
  epoch = epoch;
}

abbrev first : TransactionEvent
first = trade "A" "BUY" 737849 10 none

abbrev second : TransactionEvent
second = trade "B" "BUY" 737852 5 none

abbrev state : PositionState
state = record {
  portfolio_id = "P";
  security_id = "S";
  epoch = 1;
  watermark_date = 737860;
  status = "CURRENT";
}

abbrev no_events : Outbox TransactionEvent
no_events = record { next_id = 1; events = [] }

abbrev store : Store
store = record {
  states = state ∷ [];
  history = [];
  next_id = 1;
  snapshots = [];
  transactions = record { id = 1; event = first } ∷ record { id = 2; event = second } ∷ [];
  outbox = no_events;
}

abbrev clock : ℕ → ℕ
clock id = id

two_buys :
    map (λ (p : Position). p.quantity) (calculate_new_positions none (first ∷ second ∷ []) 1)
    ≡ pos 10 ∷ pos 15 ∷ []
unfolding calculate_new_positions run_positions str_eq upper str_in ◌+ℤ◌
two_buys = refl

state_found : find_state ("P", "S") store.states ≡ some state
unfolding find_state key_eq str_eq
state_found = refl

calculate_new_positions-append_example :
    let rows = calculate_new_positions none (first ∷ []) 1 in
    calculate_new_positions none (first ∷ second ∷ []) 1
    ≡ rows ++ calculate_new_positions (last_position none rows) (second ∷ []) 1
calculate_new_positions-append_example =
    calculate_new_positions-append none (first ∷ []) (second ∷ []) 1

calculate_new_positions-quantity_example :
    (start_from
      (last_position none (calculate_new_positions none (first ∷ second ∷ []) 1))).quantity
    ≡ pos 0 +ℤ sum_by quantity_effect (first ∷ second ∷ [])
calculate_new_positions-quantity_example =
    calculate_new_positions-quantity none (first ∷ second ∷ []) 1

no_idle_cost : All HasNoIdleCost (run_positions (start_from none) (first ∷ second ∷ []) 1)
no_idle_cost = run_positions-HasNoIdleCost (start_from none) (first ∷ second ∷ []) 1

recalculate_twice_example :
    let once = recalculate ("P", "S") 737850 1 store in
    positions_of (recalculate ("P", "S") 737850 1 once).history ≡ positions_of once.history
recalculate_twice_example = recalculate_twice ("P", "S") 737850 1 store

calculate-KeepsEpochs_example : KeepsEpochs store (calculate clock first store)
calculate-KeepsEpochs_example = calculate-KeepsEpochs clock first store

calculate_stale_example : calculate clock (trade "A" "BUY" 737849 10 (some 0)) store ≡ ok store
calculate_stale_example =
    calculate_stale clock (trade "A" "BUY" 737849 10 (some 0)) store state 0 state_found refl
      (omega arith)

replayed_event_is_recalculated :
    calculate clock (trade "A" "BUY" 737849 10 (some 1)) store
    ≡ ok (recalculate ("P", "S") (date_of (737849 * 86400000000)) 1 store)
replayed_event_is_recalculated =
    calculate_replayed clock (trade "A" "BUY" 737849 10 (some 1)) store state 1 state_found refl
      (omega arith)

calculate_backdated_example :
    (after : Store) × (calculate clock first store ≡ ok after) × Replayed first state store after
calculate_backdated_example =
    calculate_backdated clock first store state state_found refl before (omega arith)
      (unfold nonempty in refl)
  where
    before : date_of first.transaction_date < effective_completed_date ("P", "S") state store
    before = unfold get_latest_completed_snapshot_date latest in omega arith

abbrev is_purchase : TransactionEvent → Bool
is_purchase t = str_eq t.transaction_type "BUY"

events_to_replay-IsSorted_example :
    IsSorted
      (λ (a b : TransactionEvent). leb a.transaction_date b.transaction_date)
      (events_to_replay first store)
    × (count is_purchase (events_to_replay first store)
        ≡ count
            (λ (r : TransactionRow).
              str_eq "P" r.event.portfolio_id
              && str_eq "S" r.event.security_id
              && is_purchase r.event)
            store.transactions
          + (if is_purchase first then 1 else 0))
events_to_replay-IsSorted_example = events_to_replay-IsSorted first store is_purchase
