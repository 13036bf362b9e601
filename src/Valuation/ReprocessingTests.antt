-- ===== src/Valuation/ReprocessingTests.antt =====
-- A back-dated price of one security, from its event to the watermark.
use portfolio_analytics_syst.Prelude.{
  ℕ, String, none, [], ◌∷◌, ◌≡◌, refl, arith, str_eq, filter, take,
}
use portfolio_analytics_syst.Prelude.Results.{Result, ok}
use portfolio_analytics_syst.Prelude.Sorting.{sort_by}
use portfolio_analytics_syst.Idempotency.{Delivery, is_event_processed, mark_event_processed}
use portfolio_analytics_syst.Positions.State.{PositionState}
use portfolio_analytics_syst.Positions.Store.{latest}
use portfolio_analytics_syst.Valuation.Jobs.{pending}
use portfolio_analytics_syst.Valuation.Reprocessing.{
  ReprocessingJob, ReprocessingTables, process_price, process_instrument_level_triggers,
  create_jobs, create_job, get_instrument_reprocessing_triggers,
  delete_instrument_reprocessing_triggers, get_latest_business_date, upsert_state,
}
use portfolio_analytics_syst.Valuation.ReprocessingWorker.{
  find_and_claim_jobs, field, process_batch,
}
use portfolio_analytics_syst.Valuation.Rewound.{IsRewound, process_batch-IsRewound}

abbrev state : PositionState
state = record {
  portfolio_id = "P";
  security_id = "S";
  epoch = 0;
  watermark_date = 20;
  status = "CURRENT";
}

abbrev tables : ReprocessingTables
tables = record {
  business_dates = record { calendar_code = "GLOBAL"; date = 20 } ∷ [];
  triggers = [];
  jobs = [];
  next_id = 1;
  states = state ∷ [];
  processed = [];
}

abbrev message : Delivery
message = record { event_id = "p-0-1"; value = "{}"; correlation_id = none }

abbrev fromisoformat : String → Result ℕ
fromisoformat text = ok 9

abbrev flagged : ReprocessingTables
flagged =
    process_instrument_level_triggers (λ d. "0001-01-09") 10 31
      (process_price "GLOBAL" message "S" 9 30 tables)

abbrev queued_job : ReprocessingJob
queued_job = record {
  id = 1;
  job_type = "RESET_WATERMARKS";
  payload = ("security_id", "S") ∷ ("earliest_impacted_date", "0001-01-09") ∷ [];
  status = pending;
  last_attempted_at = none;
  failure_reason = none;
  created_at = 31;
  updated_at = 31;
}

queues_a_job : flagged.jobs ≡ queued_job ∷ []
unfolding process_price process_instrument_level_triggers create_jobs create_job
    get_instrument_reprocessing_triggers delete_instrument_reprocessing_triggers
    get_latest_business_date upsert_state latest is_event_processed mark_event_processed sort_by
    take filter str_eq
queues_a_job = refl

process_batch-IsRewound_example : IsRewound "S" 8 (process_batch fromisoformat 10 40 flagged).states
unfolding field find_and_claim_jobs take sort_by filter str_eq process_price
    process_instrument_level_triggers create_jobs create_job get_instrument_reprocessing_triggers
    delete_instrument_reprocessing_triggers get_latest_business_date upsert_state latest
    is_event_processed mark_event_processed
process_batch-IsRewound_example =
    process_batch-IsRewound fromisoformat 10 40 [] queued_job [] flagged "S" 9 refl
      (refl, ("0001-01-09", refl, refl), omega arith)
