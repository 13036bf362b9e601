-- ===== src/Outbox/Tests.antt =====
-- The dispatcher on an outbox of two events, and its theorems there.
use portfolio_analytics_syst.Prelude.{
  ◌≤◌, String, true, false, none, some, [], ◌∷◌, ◌≡◌, length, All, ◌==◌,
}
use portfolio_analytics_syst.Prelude.Sorting.{IsSorted}
use portfolio_analytics_syst.Outbox.Repository.{Outbox, NewEvent, row_of}
use portfolio_analytics_syst.Outbox.Dispatcher.{
  Broker, is_available, created_before, events_to_process, poll,
}
use portfolio_analytics_syst.Outbox.Delivery.{
  payloads_of, poll-payloads, events_to_process-IsSorted,
}

abbrev new_event : String → NewEvent String
new_event payload = record {
  aggregate_type = "Transaction";
  aggregate_id = "P";
  event_type = "Saved";
  payload = payload;
  topic = "t";
  correlation_id = none;
}

abbrev outbox : Outbox String
outbox = record {
  next_id = 3;
  events = row_of 1 20 (new_event "a") ∷ row_of 2 10 (new_event "b") ∷ [];
}

-- The first event is confirmed, the second fails.
abbrev broker : Broker String
broker = record {
  is_locked = λ id. false;
  publish_error = λ e. none;
  report = λ id. some (id == 1);
  flush_raises = false;
}

poll_keeps_payloads :
    payloads_of broker (poll broker 50 100 outbox).events ≡ payloads_of broker outbox.events
poll_keeps_payloads = poll-payloads broker 50 100 outbox

oldest_first :
    let batch = events_to_process broker 50 outbox.events in
    (length batch ≤ 50)
    × All (λ e. is_available broker e ≡ true) batch
    × IsSorted created_before batch
oldest_first = events_to_process-IsSorted broker 50 outbox.events
