-- ===== src/Cashflow/Tests.antt =====
-- The cashflow of a purchase with a fee, and the consumer on the message of that purchase.
use portfolio_analytics_syst.Prelude.{
  ℕ, String, true, false, Option, none, some, [], ◌∷◌, ◌++◌, ◌≡◌, refl, str_eq, str_in, upper,
  nonempty,
}
use portfolio_analytics_syst.Prelude.Keys.{key_eq}
use portfolio_analytics_syst.Idempotency.{Delivery, is_event_processed, mark_event_processed}
use portfolio_analytics_syst.Outbox.Repository.{create_outbox_event, OutboxEvent, pending}
use portfolio_analytics_syst.Positions.State.{fence_check, get_or_create_state, find_state}
use portfolio_analytics_syst.Cashflow.Consumer.{
  OutboxPayload, of_other_service, Database, rule_for, has_cashflow, violates_constraint,
  create_cashflow, process_event, returned, retries_exhausted, Service, attempt_message,
  process_with_retry, process_message,
}
use portfolio_analytics_syst.Cashflow.Once.{is_current, process_message_twice}
use portfolio_analytics_syst.Cashflow.Interleaving.{
  Reach, attempts, others_write, here, later, IsConsistent, reach-IsConsistent,
}
use portfolio_analytics_syst.Cashflow.Duplicates.{process_message_duplicate}
use portfolio_analytics_syst.Prelude.Int.{pos, negsuc, neg, abs, ◌+ℤ◌, ◌-ℤ◌}
use portfolio_analytics_syst.Events.{TransactionEvent}
use portfolio_analytics_syst.Cashflow.Logic.{
  investment_outflow, CashflowRule, net_amount, signed_amount, calculate,
}
use portfolio_analytics_syst.Cashflow.Signs.{direction, HasSign, calculate-HasSign}

abbrev purchase : TransactionEvent
purchase = record {
  transaction_id = "T";
  portfolio_id = "P";
  instrument_id = "I";
  security_id = "S";
  transaction_date = 0;
  transaction_type = "BUY";
  quantity = pos 5;
  price = pos 20;
  gross_transaction_amount = pos 100;
  trade_currency = "USD";
  currency = "USD";
  trade_fee = some (pos 3);
  settlement_date = none;
  net_cost = none;
  gross_cost = none;
  realized_gain_loss = none;
  transaction_fx_rate = none;
  net_cost_local = none;
  realized_gain_loss_local = none;
  economic_event_id = none;
  linked_transaction_group_id = none;
  calculation_policy_id = none;
  calculation_policy_version = none;
  source_system = none;
  epoch = none;
}

abbrev purchase_rule : CashflowRule
purchase_rule = record {
  transaction_type = "BUY";
  classification = "INVESTMENT_OUTFLOW";
  timing = "BOD";
  is_position_flow = true;
  is_portfolio_flow = false;
}

pays_the_fee : (calculate purchase purchase_rule none).amount ≡ negsuc 102
unfolding calculate signed_amount net_amount str_in str_eq neg abs ◌+ℤ◌ ◌-ℤ◌
pays_the_fee = refl

calculate-HasSign_example :
    HasSign
      (direction investment_outflow (str_eq "BUY" "TRANSFER_IN"))
      (net_amount purchase)
      (calculate purchase purchase_rule none).amount
calculate-HasSign_example = calculate-HasSign purchase purchase_rule none investment_outflow refl

abbrev clock : ℕ → ℕ
clock id = 7

abbrev decode : String → Option TransactionEvent
decode value = some purchase

abbrev message : String → Delivery
message event_id = record { event_id = event_id; value = "{}"; correlation_id = none }

abbrev new_service : Service
new_service = record {
  database = record {
    transaction_ids = "T" ∷ [];
    portfolio_ids = "P" ∷ [];
    states = [];
    processed = [];
    rules = purchase_rule ∷ [];
    cashflows = [];
    next_id = 1;
    outbox = record { next_id = 1; events = [] };
  };
  cache = none;
}

abbrev others : ℕ → Database → Database
others left db = db

after_first : (process_message clock decode others (message "t-0-1") new_service).0 ≡ returned
unfolding process_message process_with_retry attempt_message process_event fence_check
    get_or_create_state find_state rule_for has_cashflow violates_constraint create_cashflow
    create_outbox_event is_event_processed mark_event_processed calculate signed_amount net_amount
    str_in str_eq neg abs ◌+ℤ◌ ◌-ℤ◌ upper nonempty key_eq
after_first = refl

process_message_twice_example :
    process_message clock decode others
      (message "t-0-1")
      (process_message clock decode others (message "t-0-1") new_service).1
    ≡ process_message clock decode others (message "t-0-1") new_service
process_message_twice_example =
    process_message_twice clock decode others (message "t-0-1") new_service
      (rw (after_first) (λ (e : returned ≡ retries_exhausted). cc))

abbrev saved_service : Service
saved_service = (attempt_message clock decode (message "t-0-1") new_service).1

abbrev foreign_row : OutboxEvent OutboxPayload
foreign_row = record {
  id = 7;
  aggregate_type = "ReprocessTransaction";
  aggregate_id = "P";
  event_type = "ReprocessTransactionReplay";
  payload = of_other_service "replayed";
  topic = "raw_transactions_completed";
  status = pending;
  correlation_id = none;
  retry_count = 0;
  last_attempted_at = none;
  created_at = 3;
  processed_at = none;
}

abbrev shared_service : Service
shared_service = record saved_service {
  database = record saved_service.database {
    outbox = record {
      next_id = 8;
      events = saved_service.database.outbox.events ++ foreign_row ∷ [];
    };
  };
}

-- An attempt at a message, a row of another service in the outbox, and an attempt at a second message
-- of the same transaction.
abbrev two_attempts :
    Reach clock decode new_service (attempt_message clock decode (message "t-0-2") shared_service).1
two_attempts =
    later
      (later (later here (attempts (message "t-0-1"))) (
        others_write saved_service.database.states saved_service.database.processed
          saved_service.database.rules saved_service.database.transaction_ids
          saved_service.database.portfolio_ids 8 (foreign_row ∷ []) (tt, tt)))
      (attempts (message "t-0-2"))

reach-IsConsistent_example :
    IsConsistent (attempt_message clock decode (message "t-0-2") shared_service).1.database
reach-IsConsistent_example = reach-IsConsistent clock decode two_attempts (tt, refl)

abbrev filled_service : Service
filled_service = record new_service {
  database = record new_service.database {
    cashflows = record { id = 1; cashflow = calculate purchase purchase_rule none } ∷ [];
  };
}

process_message_duplicate_example :
    process_message clock decode (λ left db. db) (message "t-0-2") filled_service
    ≡ (retries_exhausted, record filled_service { cache = some (purchase_rule ∷ []) })
unfolding is_current fence_check get_or_create_state find_state rule_for has_cashflow
    is_event_processed calculate str_eq upper key_eq
process_message_duplicate_example =
    process_message_duplicate clock decode (message "t-0-2") filled_service purchase purchase_rule
      refl refl refl refl refl
