-- ===== src/Valuation/Reprocessing.antt =====
-- From a back-dated price to rewound watermarks: app/consumers/price_event_consumer.py,
-- app/repositories/instrument_reprocessing_state_repository.py, the triggers of
-- app/core/valuation_scheduler.py, portfolio_common/reprocessing_job_repository.py and
-- app/core/reprocessing_worker.py. `isoformat` and `fromisoformat` are those of the standard library.
use portfolio_analytics_syst.Prelude.{
  ℕ, suc, String, Bool, false, not, Option, none, some, List, [], ◌∷◌, ◌++◌, map, filter, take, ltb,
  leb, str_eq, str_in, if◌then◌else◌,
}
use portfolio_analytics_syst.Prelude.Sorting.{sort_by}
use portfolio_analytics_syst.Prelude.Tables.{upsert_row}
use portfolio_analytics_syst.Idempotency.{
  Delivery, ProcessedEvent, is_event_processed, mark_event_processed,
}
use portfolio_analytics_syst.Positions.State.{PositionState}
use portfolio_analytics_syst.Positions.Store.{latest}
use portfolio_analytics_syst.Valuation.Jobs.{JobStatus, pending}

pub record BusinessDate : Type 0 where
  pub calendar_code : String
  pub date : ℕ

pub record InstrumentReprocessingState : Type 0 where
  pub security_id : String
  pub earliest_impacted_date : ℕ
  pub updated_at : ℕ

-- A JSON object with texts as values.
abbrev pub Payload : Type 0
Payload = List (String × String)

pub record ReprocessingJob : Type 0 where
  pub id : ℕ
  pub job_type : String
  pub payload : Payload
  pub status : JobStatus
  pub last_attempted_at : Option ℕ
  pub failure_reason : Option String
  pub created_at : ℕ
  pub updated_at : ℕ

pub record ReprocessingTables : Type 0 where
  pub business_dates : List BusinessDate
  pub triggers : List InstrumentReprocessingState
  pub jobs : List ReprocessingJob
  pub next_id : ℕ
  pub states : List PositionState
  pub processed : List ProcessedEvent

-- `calendar` is the configured default calendar.
unfoldable pub get_latest_business_date : String → List BusinessDate → Option ℕ
unfolding latest filter str_eq
get_latest_business_date calendar rows = latest (
    map (λ (r : BusinessDate). r.date)
      (filter (λ (r : BusinessDate). str_eq r.calendar_code calendar) rows))

abbrev pub is_trigger : String → InstrumentReprocessingState → Bool
is_trigger security_id t = str_eq t.security_id security_id

-- `LEAST(a, b)`
abbrev pub least : ℕ → ℕ → ℕ
least a b = if leb a b then a else b

abbrev pub moved_back : ℕ → ℕ → InstrumentReprocessingState → InstrumentReprocessingState
moved_back price_date now t = record t {
  earliest_impacted_date = least t.earliest_impacted_date price_date;
  updated_at = now;
}

unfoldable pub upsert_state :
    String → ℕ → ℕ → List InstrumentReprocessingState → List InstrumentReprocessingState
unfolding upsert_row str_eq
upsert_state security_id price_date now triggers =
    upsert_row (is_trigger security_id) (moved_back price_date now)
      (record { security_id = security_id; earliest_impacted_date = price_date; updated_at = now })
      triggers

abbrev pub is_before : ℕ → Option ℕ → Bool
is_before price_date none = false
is_before price_date (some day) = ltb price_date day

abbrev pub trigger_name : String
trigger_name = "price-event-reprocessing-trigger"

-- A valid message of a market price.
unfoldable pub process_price :
    String → Delivery → String → ℕ → ℕ → ReprocessingTables → ReprocessingTables
unfolding get_latest_business_date upsert_state is_event_processed mark_event_processed
process_price calendar m security_id price_date now t =
    if is_event_processed m.event_id trigger_name t.processed then t else record t {
      triggers =
          if is_before price_date (get_latest_business_date calendar t.business_dates)
          then upsert_state security_id price_date now t.triggers
          else t.triggers;
      processed = mark_event_processed m.event_id "N/A" trigger_name m.correlation_id t.processed;
    }

abbrev older_trigger : InstrumentReprocessingState → InstrumentReprocessingState → Bool
older_trigger t u = leb t.updated_at u.updated_at

unfoldable pub get_instrument_reprocessing_triggers :
    ℕ → List InstrumentReprocessingState → List InstrumentReprocessingState
unfolding take sort_by
get_instrument_reprocessing_triggers batch_size triggers =
    take batch_size (sort_by older_trigger triggers)

unfoldable pub delete_instrument_reprocessing_triggers :
    List String → List InstrumentReprocessingState → List InstrumentReprocessingState
unfolding filter str_in
delete_instrument_reprocessing_triggers ids triggers =
    filter (λ (t : InstrumentReprocessingState). not (str_in t.security_id ids)) triggers

unfoldable pub create_job : String → Payload → ℕ → ReprocessingTables → ReprocessingTables
create_job job_type payload now t = record t {
  jobs =
      t.jobs
      ++ record {
        id = t.next_id;
        job_type = job_type;
        payload = payload;
        status = pending;
        last_attempted_at = none;
        failure_reason = none;
        created_at = now;
        updated_at = now;
      }
        ∷ [];
  next_id = suc t.next_id;
}

abbrev pub payload_of : (ℕ → String) → InstrumentReprocessingState → Payload
payload_of isoformat t =
    ("security_id", t.security_id)
    ∷ ("earliest_impacted_date", isoformat t.earliest_impacted_date)
    ∷ []

unfoldable pub create_jobs :
    (ℕ → String) → ℕ → List InstrumentReprocessingState → ReprocessingTables → ReprocessingTables
unfolding create_job
create_jobs isoformat now [] t = t
create_jobs isoformat now (trigger ∷ triggers) t =
    create_jobs isoformat now triggers
      (create_job "RESET_WATERMARKS" (payload_of isoformat trigger) now t)

unfoldable pub process_instrument_level_triggers :
    (ℕ → String) → ℕ → ℕ → ReprocessingTables → ReprocessingTables
unfolding get_instrument_reprocessing_triggers delete_instrument_reprocessing_triggers create_jobs
process_instrument_level_triggers isoformat batch_size now t =
    let triggers = get_instrument_reprocessing_triggers batch_size t.triggers in
    let after = create_jobs isoformat now triggers t in
    record after {
      triggers =
          delete_instrument_reprocessing_triggers
            (map (λ (u : InstrumentReprocessingState). u.security_id) triggers) after.triggers;
    }
