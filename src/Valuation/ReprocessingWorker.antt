-- ===== src/Valuation/ReprocessingWorker.antt =====
-- app/core/reprocessing_worker.py, with find_and_claim_jobs and update_job_status of
-- portfolio_common/reprocessing_job_repository.py.
use portfolio_analytics_syst.Prelude.{
  ℕ, String, Bool, true, false, ◌&&◌, Option, none, some, List, [], ◌∷◌, map, filter, take, leb,
  str_eq, str_in, concat, if◌then◌else◌,
}
use portfolio_analytics_syst.Prelude.Keys.{Key}
use portfolio_analytics_syst.Prelude.Results.{Result, ok, raised, ◌>>=◌}
use portfolio_analytics_syst.Prelude.Sorting.{sort_by}
use portfolio_analytics_syst.Prelude.Tables.{id_in, update_rows}
use portfolio_analytics_syst.Positions.State.{PositionState, update_watermarks_if_older}
use portfolio_analytics_syst.Positions.Calculator.{previous_day}
use portfolio_analytics_syst.Valuation.Jobs.{
  JobStatus, pending, processing, complete, failed, reason_or,
}
use portfolio_analytics_syst.Valuation.Reprocessing.{Payload, ReprocessingJob, ReprocessingTables}

abbrev claimable : String → ReprocessingJob → Bool
claimable job_type j = (elim j.status [ pending ↦ true | _ ↦ false ]) && str_eq j.job_type job_type

abbrev older_job : ReprocessingJob → ReprocessingJob → Bool
older_job a b = leb a.created_at b.created_at

abbrev claimed_at : ℕ → ReprocessingJob → ReprocessingJob
claimed_at now j = record j { status = processing; updated_at = now; last_attempted_at = some now }

-- The claimed jobs, and the table.
unfoldable pub find_and_claim_jobs :
    String → ℕ → ℕ → List ReprocessingJob → List ReprocessingJob × List ReprocessingJob
unfolding take sort_by filter str_eq update_rows id_in
find_and_claim_jobs job_type batch_size now jobs =
    let claimed = take batch_size (sort_by older_job (filter (claimable job_type) jobs)) in
    let ids = map (λ (j : ReprocessingJob). j.id) claimed in
    (claimed, update_rows (λ (j : ReprocessingJob). id_in j.id ids) (claimed_at now) jobs)

abbrev ended : JobStatus → Option String → ℕ → ReprocessingJob → ReprocessingJob
ended status reason now j = record j {
  status = status;
  updated_at = now;
  failure_reason = reason_or j.failure_reason reason;
}

unfoldable pub update_job_status :
    ℕ → JobStatus → Option String → ℕ → List ReprocessingJob → List ReprocessingJob
unfolding update_rows id_in
update_job_status job_id status reason now jobs =
    update_rows (λ (j : ReprocessingJob). id_in j.id (job_id ∷ [])) (ended status reason now) jobs

-- `SELECT DISTINCT`; the order of the result is not used.
unfoldable pub distinct : List String → List String
unfolding str_in
distinct [] = []
distinct (s ∷ l) = let rest = distinct l in if str_in s rest then rest else s ∷ rest

unfoldable pub find_portfolios_for_security : String → List PositionState → List String
unfolding distinct filter str_eq
find_portfolios_for_security security_id states = distinct (
    map (λ (s : PositionState). s.portfolio_id)
      (filter (λ (s : PositionState). str_eq s.security_id security_id) states))

-- `payload[name]`
unfoldable pub field : String → Payload → Result String
unfolding str_eq concat
field name [] = raised (concat ("'" ∷ name ∷ "'" ∷ []))
field name ((key, value) ∷ payload) = if str_eq key name then ok value else field name payload

module _ (fromisoformat : String → Result ℕ) where
  -- The `try` block up to the completion of the job: the states after it.
  unfoldable pub rewind_watermarks : Payload → List PositionState → Result (List PositionState)
  unfolding field find_portfolios_for_security update_watermarks_if_older
  rewind_watermarks payload states = field "security_id" payload >>= λ security_id.
      field "earliest_impacted_date" payload >>= λ text. fromisoformat text >>= λ earliest_date.
      previous_day earliest_date >>= λ watermark.
      let keys : List Key =
        map (λ p. (p, security_id)) (find_portfolios_for_security security_id states) in
      let (count, after) = update_watermarks_if_older keys watermark states in ok after

  abbrev pub settle_job :
      ℕ → ℕ → ReprocessingTables → Result (List PositionState) → ReprocessingTables
  settle_job job_id now t (raised text) = record t {
    jobs = update_job_status job_id failed (some text) now t.jobs;
  }
  settle_job job_id now t (ok states) = record t {
    states = states;
    jobs = update_job_status job_id complete none now t.jobs;
  }

  unfoldable pub process_jobs : ℕ → List ReprocessingJob → ReprocessingTables → ReprocessingTables
  unfolding rewind_watermarks update_job_status
  process_jobs now [] t = t
  process_jobs now (j ∷ jobs) t =
      process_jobs now jobs (settle_job j.id now t (rewind_watermarks j.payload t.states))

  unfoldable pub process_batch : ℕ → ℕ → ReprocessingTables → ReprocessingTables
  unfolding find_and_claim_jobs process_jobs
  process_batch batch_size now t =
      let (claimed, jobs) = find_and_claim_jobs "RESET_WATERMARKS" batch_size now t.jobs in
      process_jobs now claimed (record t { jobs = jobs })
