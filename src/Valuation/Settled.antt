-- ===== src/Valuation/Settled.antt =====
-- What a valuation message leaves: its jobs at an end, itself marked, and the snapshot stored.
use portfolio_analytics_syst.Prelude.{
  ℕ, String, Bool, true, false, not, Option, none, some, List, filter, All, ◌≡◌, inl, inr, refl,
  arith, Bool-cases,
}
use portfolio_analytics_syst.Prelude.Results.{Result, ok, raised}
use portfolio_analytics_syst.Prelude.Tables.{All-update_rows_cases, filter-update_rows}
use portfolio_analytics_syst.Decimal.{Arith}
use portfolio_analytics_syst.Idempotency.{Delivery, is_event_processed, is_event_processed-marked}
use portfolio_analytics_syst.Outbox.Repository.{Outbox, create_outbox_event}
use portfolio_analytics_syst.Positions.Logic.{Position}
use portfolio_analytics_syst.Positions.Store.{HistoryRow}
use portfolio_analytics_syst.Valuation.Jobs.{
  JobStatus, pending, processing, complete, failed, skipped_no_position, ValuationJob, is_dated,
  with_status, update_job_status,
}
use portfolio_analytics_syst.Valuation.Tables.{
  Instrument, Portfolio, DailyPositionSnapshot, DailyPositionSnapshotPersistedEvent, Tables,
  get_last_position_history_before_date, get_instrument, get_portfolio,
  get_latest_price_for_position, upsert_daily_snapshot,
}
use portfolio_analytics_syst.Valuation.Worker.{
  PortfolioValuationRequiredEvent, Environment, worker_name, Outcome, committed, not_found,
  unexpected, returned, dead_lettered, mark, completion_of, finish_job, initial_snapshot,
  value_snapshot, persist, with_references, with_position, value_position, settle, process_message,
}

abbrev pub is_final : JobStatus → Bool
is_final pending = false
is_final processing = false
is_final complete = true
is_final failed = true
is_final skipped_no_position = true

-- The jobs that a message is about, of whatever epoch.
abbrev pub concerns : PortfolioValuationRequiredEvent → ValuationJob → Bool
concerns e j = is_dated e.portfolio_id e.security_id e.valuation_date j

-- The jobs of the message are at an end, and the others are as they were.
abbrev pub IsSettled :
    PortfolioValuationRequiredEvent → List ValuationJob → List ValuationJob → Type 0
IsSettled e before after =
    All (λ j. (concerns e j ≡ true) → is_final j.status ≡ true) after
    × (filter (λ (j : ValuationJob). not (concerns e j)) after
        ≡ filter (λ (j : ValuationJob). not (concerns e j)) before)

update_job_status-IsSettled :
    (e : PortfolioValuationRequiredEvent) (status : JobStatus) (reason : Option String) (now : ℕ)
    (jobs : List ValuationJob)
    → is_final status ≡ true
    → IsSettled e jobs
        (update_job_status e.portfolio_id e.security_id e.valuation_date status reason now jobs)
unfolding update_job_status
update_job_status-IsSettled e status reason now jobs final = (
  All-update_rows_cases (λ (j : ValuationJob). (concerns e j ≡ true) → is_final j.status ≡ true)
      (concerns e) (with_status status reason now) jobs (λ j h _. final)
      (λ j h k. absurd (ground (arith, h, k))),
  filter-update_rows (λ (j : ValuationJob). not (concerns e j)) (concerns e)
      (with_status status reason now) jobs (λ j h. rw (h) refl) (λ j h. rw (h) refl),
)

module _ ⦃a : Arith⦄ (env : Environment) (m : Delivery) (e : PortfolioValuationRequiredEvent) where
  abbrev pub is_marked : Tables → Bool
  is_marked t = is_event_processed m.event_id worker_name t.processed

  -- The outcome of the transaction, where it commits.
  abbrev Closes : Tables → Outcome → Type 0
  Closes t (committed after) = IsSettled e t.jobs after.jobs × (is_marked after ≡ true)
  Closes t (not_found text) = Unit
  Closes t (unexpected text) = Unit

  marked : (t : Tables) → is_marked (mark env m e t) ≡ true
  marked t =
      is_event_processed-marked m.event_id e.portfolio_id worker_name m.correlation_id t.processed

  finish_job-Closes :
      (t : Tables) (r : Result (Outbox DailyPositionSnapshotPersistedEvent))
      → Closes t (finish_job env m e t r)
  finish_job-Closes t (raised text) = tt
  finish_job-Closes t (ok outbox) =
      (update_job_status-IsSettled e complete none env.now t.jobs refl, marked t)

  persist-Closes : (t : Tables) (r : Result DailyPositionSnapshot) → Closes t (persist env m e t r)
  unfolding upsert_daily_snapshot
  persist-Closes t (raised text) = tt
  persist-Closes t (ok s) =
      let (persisted, after) = upsert_daily_snapshot s t in
      finish_job-Closes after
        (create_outbox_event env.clock (completion_of env m e persisted) after.outbox)

  with_references-Closes :
      (t : Tables) (p : Position) (i : Option Instrument) (f : Option Portfolio)
      → Closes t (with_references env m e t p i f)
  with_references-Closes t p none f =
      (update_job_status-IsSettled e failed _ env.now t.jobs refl, marked t)
  with_references-Closes t p (some i) none =
      (update_job_status-IsSettled e failed _ env.now t.jobs refl, marked t)
  with_references-Closes t p (some i) (some f) = persist-Closes t (
      value_snapshot t (initial_snapshot e p) i f
        (get_latest_price_for_position e.security_id e.valuation_date t.prices))

  with_position-Closes : (t : Tables) (o : Option HistoryRow) → Closes t (with_position env m e t o)
  with_position-Closes t none = tt
  with_position-Closes t (some row) =
      with_references-Closes t row.position (get_instrument e.security_id t.instruments)
        (get_portfolio e.portfolio_id t.portfolios)

  settle-IsSettled :
      (t : Tables) (o : Outcome)
      → Closes t o
      → IsSettled e t.jobs (settle env m e t o).1.jobs
        × (((settle env m e t o).0 ≡ returned) → is_marked (settle env m e t o).1 ≡ true)
  settle-IsSettled t (committed after) h = (h.0, λ _. h.1)
  settle-IsSettled t (not_found text) h = (
    update_job_status-IsSettled e skipped_no_position (some text) env.now t.jobs refl,
    λ _. marked t,
  )
  settle-IsSettled t (unexpected text) h = (
    update_job_status-IsSettled e failed (some text) env.now t.jobs refl,
    λ (k : dead_lettered text ≡ returned). cc,
  )

module _ ⦃a : Arith⦄ (env : Environment) where
  -- A message that is marked is left at that.
  process_message_marked :
      (m : Delivery) (e : PortfolioValuationRequiredEvent) (t : Tables)
      → env.decode m.value ≡ ok e
      → is_event_processed m.event_id worker_name t.processed ≡ true
      → process_message env m t ≡ (returned, t)
  unfolding process_message
  process_message_marked m e t read h = rw (read, h) refl

  process_message_new :
      (m : Delivery) (e : PortfolioValuationRequiredEvent) (t : Tables)
      → env.decode m.value ≡ ok e
      → is_event_processed m.event_id worker_name t.processed ≡ false
      → process_message env m t ≡ settle env m e t (value_position env m e t)
  unfolding process_message
  process_message_new m e t read h = rw (read, h) refl

  -- A valid message that is new to the worker leaves no job of its portfolio, security and date open:
  -- each is complete, failed or skipped, in every branch. The other jobs are as they were. When the
  -- message is not sent to the dead-letter queue, it is marked as processed.
  pub process_message-IsSettled :
      (m : Delivery) (e : PortfolioValuationRequiredEvent) (t : Tables)
      → env.decode m.value ≡ ok e
      → is_event_processed m.event_id worker_name t.processed ≡ false
      → IsSettled e t.jobs (process_message env m t).1.jobs
        × (((process_message env m t).0 ≡ returned)
            → is_event_processed m.event_id worker_name (process_message env m t).1.processed
              ≡ true)
  unfolding value_position
  process_message-IsSettled m e t read fresh = rw (process_message_new m e t read fresh) (
      settle-IsSettled env m e t (value_position env m e t) (
        with_position-Closes env m e t (
          get_last_position_history_before_date (e.portfolio_id, e.security_id) e.valuation_date
            e.epoch t.history)))

  -- A valid message that was processed without the dead-letter queue changes nothing when it is
  -- delivered again.
  pub process_message_redelivered :
      (m : Delivery) (e : PortfolioValuationRequiredEvent) (t : Tables)
      → env.decode m.value ≡ ok e
      → (process_message env m t).0 ≡ returned
      → process_message env m (process_message env m t).1 ≡ (returned, (process_message env m t).1)
  process_message_redelivered m e t read done =
      elim (Bool-cases (is_event_processed m.event_id worker_name t.processed)) [
        | inl h ↦ rw (process_message_marked m e t read h) (process_message_marked m e t read h)
        | inr h ↦
            process_message_marked m e (process_message env m t).1 read
              ((process_message-IsSettled m e t read h).1 done)
      ]
