-- ===== src/Positions/Calculator.antt =====
-- `PositionCalculator.calculate`: fence, then replay of a back-dated history or recalculation.
use portfolio_analytics_syst.Prelude.{
  ℕ, ◌-◌, max, Bool, ◌&&◌, not, Option, none, some, List, [], ◌∷◌, ◌++◌, ltb, leb, get_or, is_some,
  if◌then◌else◌,
}
use portfolio_analytics_syst.Prelude.Keys.{Key}
use portfolio_analytics_syst.Prelude.Results.{Result, ok, raised, ◌>>=◌}
use portfolio_analytics_syst.Prelude.Sorting.{sort_by}
use portfolio_analytics_syst.Events.{TransactionEvent, date_of, epoch_start}
use portfolio_analytics_syst.Outbox.Repository.{Outbox, NewEvent, create_outbox_event}
use portfolio_analytics_syst.Positions.State.{
  PositionState, get_or_create_state, increment_epoch_and_reset_watermark, fence_check,
}
use portfolio_analytics_syst.Positions.Logic.{calculate_new_positions}
use portfolio_analytics_syst.Positions.Store.{
  Store, event_key, get_latest_completed_snapshot_date, get_all_transactions_for_security,
  get_last_position_before, get_transactions_on_or_after, delete_positions_from, save_positions,
}

-- `transaction_date - timedelta(days=1)`; ordinal 1 is the first date.
abbrev pub previous_day : ℕ → Result ℕ
previous_day d = if leb d 1 then raised "date value out of range" else ok (d - 1)

abbrev pub tagged : ℕ → TransactionEvent → TransactionEvent
tagged epoch t = record t { epoch = some epoch }

abbrev pub replay_event : TransactionEvent → NewEvent TransactionEvent
replay_event t = record {
  aggregate_type = "ReprocessTransaction";
  aggregate_id = t.portfolio_id;
  event_type = "ReprocessTransactionReplay";
  payload = t;
  topic = "processed_transactions_completed";
  correlation_id = none;
}

-- The loop that tags and queues the events.
unfoldable pub queue_events :
    (ℕ → ℕ) → ℕ → List TransactionEvent → Outbox TransactionEvent → Result (Outbox TransactionEvent)
unfolding create_outbox_event
queue_events clock epoch [] o = ok o
queue_events clock epoch (t ∷ ts) o =
    create_outbox_event clock (replay_event (tagged epoch t)) o >>= queue_events clock epoch ts

-- `sort(key=lambda x: x.transaction_date)`
abbrev pub by_date : TransactionEvent → TransactionEvent → Bool
by_date a b = leb a.transaction_date b.transaction_date

unfoldable pub events_to_replay : TransactionEvent → Store → List TransactionEvent
unfolding get_all_transactions_for_security
events_to_replay event s =
    sort_by by_date
      (get_all_transactions_for_security (event_key event) s.transactions ++ event ∷ [])

abbrev pub queue_replay :
    (ℕ → ℕ) → TransactionEvent → Store → Option PositionState × List PositionState → Result Store
queue_replay clock event s (none, states) = raised "No row was found when one was required"
queue_replay clock event s (some new_state, states) =
    queue_events clock new_state.epoch (events_to_replay event s) s.outbox >>= λ outbox.
    ok (record s { states = states; outbox = outbox })

-- The back-dated branch.
unfoldable pub trigger_replay : (ℕ → ℕ) → TransactionEvent → Store → Result Store
unfolding increment_epoch_and_reset_watermark events_to_replay
trigger_replay clock event s = previous_day (date_of event.transaction_date) >>= λ watermark.
    queue_replay clock event s
      (increment_epoch_and_reset_watermark (event_key event) watermark s.states)

-- The other branch: the rows of the key and the epoch are replaced from the date on.
unfoldable pub recalculate : Key → ℕ → ℕ → Store → Store
unfolding delete_positions_from get_last_position_before get_transactions_on_or_after save_positions
recalculate key date epoch s =
    let kept = delete_positions_from key date epoch s.history in
    let anchor = get_last_position_before key date epoch kept in
    let events = get_transactions_on_or_after key date s.transactions in
    save_positions (calculate_new_positions anchor events epoch) (record s { history = kept })

abbrev pub effective_completed_date : Key → PositionState → Store → ℕ
effective_completed_date key current s =
    max current.watermark_date
      (get_or (get_latest_completed_snapshot_date key current.epoch s.snapshots) epoch_start)

abbrev pub decide : (ℕ → ℕ) → TransactionEvent → PositionState → Store → Result Store
decide clock event current s =
    let key = event_key event in
    let date = date_of event.transaction_date in
    if ltb date (effective_completed_date key current s) && not (is_some event.epoch)
    then trigger_replay clock event s
    else ok (recalculate key date (get_or event.epoch current.epoch) s)

-- The store after the call, or the exception, which rolls the transaction of the caller back.
unfoldable pub calculate : (ℕ → ℕ) → TransactionEvent → Store → Result Store
unfolding fence_check get_or_create_state trigger_replay recalculate
calculate clock event s =
    let (fresh, checked) = fence_check (event_key event) event.epoch s.states in
    let (current, states) = get_or_create_state (event_key event) checked in
    if fresh
    then decide clock event current (record s { states = states })
    else ok (record s { states = checked })
