-- ===== src/Valuation/Jobs.antt =====
-- The table portfolio_valuation_jobs: portfolio_common/valuation_job_repository.py, and the operations
-- on jobs of app/repositories/valuation_repository.py. The statuses are the texts that the code writes.
use portfolio_analytics_syst.Prelude.{
  ℕ, suc, ◌+◌, ◌*◌, String, Bool, true, false, ◌&&◌, not, Option, none, some, List, map, filter,
  length, take, ltb, leb, ◌==◌, str_eq, present, if◌then◌else◌,
}
use portfolio_analytics_syst.Prelude.Collation.{Collation, then_by}
use portfolio_analytics_syst.Prelude.Sorting.{sort_by}
use portfolio_analytics_syst.Prelude.Tables.{id_in, update_rows, upsert_row}

pub data JobStatus : Type 0 where
  pending processing complete failed skipped_no_position : JobStatus

pub record ValuationJob : Type 0 where
  pub id : ℕ
  pub portfolio_id : String
  pub security_id : String
  pub valuation_date : ℕ
  pub epoch : ℕ
  pub status : JobStatus
  pub correlation_id : Option String
  pub failure_reason : Option String
  pub attempt_count : ℕ
  pub updated_at : ℕ

-- The unique key of a job.
pub record JobKey : Type 0 where
  pub portfolio_id : String
  pub security_id : String
  pub valuation_date : ℕ
  pub epoch : ℕ

unfoldable pub is_job : JobKey → ValuationJob → Bool
is_job k j =
    str_eq k.portfolio_id j.portfolio_id
    && str_eq k.security_id j.security_id
    && (k.valuation_date == j.valuation_date)
    && (k.epoch == j.epoch)

abbrev pub new_job : ℕ → ℕ → JobKey → Option String → ValuationJob
new_job id now k correlation_id = record {
  id = id;
  portfolio_id = k.portfolio_id;
  security_id = k.security_id;
  valuation_date = k.valuation_date;
  epoch = k.epoch;
  status = pending;
  correlation_id = correlation_id;
  failure_reason = none;
  attempt_count = 0;
  updated_at = now;
}

abbrev pub requeued : ℕ → Option String → ValuationJob → ValuationJob
requeued now correlation_id j = record j {
  status = pending;
  correlation_id = correlation_id;
  updated_at = now;
}

-- `id` is the next value of the sequence, which an insert draws.
unfoldable pub upsert_job : ℕ → ℕ → JobKey → Option String → List ValuationJob → List ValuationJob
unfolding is_job upsert_row
upsert_job id now k correlation_id jobs =
    upsert_row (is_job k) (requeued now correlation_id) (new_job id now k correlation_id) jobs

abbrev pub is_pending : ValuationJob → Bool
is_pending j = elim j.status [ pending ↦ true | _ ↦ false ]

abbrev pub is_processing : ValuationJob → Bool
is_processing j = elim j.status [ processing ↦ true | _ ↦ false ]

-- `ORDER BY portfolio_id, security_id, valuation_date`
unfoldable pub by_key_and_date : Collation → ValuationJob → ValuationJob → Bool
by_key_and_date c a b =
    then_by (c.leb a.portfolio_id b.portfolio_id) (c.leb b.portfolio_id a.portfolio_id) (
      then_by (c.leb a.security_id b.security_id) (c.leb b.security_id a.security_id)
        (leb a.valuation_date b.valuation_date))

abbrev pub claim : ℕ → ValuationJob → ValuationJob
claim now j = record j {
  status = processing;
  updated_at = now;
  attempt_count = suc j.attempt_count;
}

-- `FOR UPDATE SKIP LOCKED` passes over the rows that another transaction has locked.
unfoldable pub eligible_jobs : Collation → (ℕ → Bool) → ℕ → List ValuationJob → List ValuationJob
unfolding filter take sort_by by_key_and_date
eligible_jobs c is_locked batch_size jobs = take batch_size (
    sort_by (by_key_and_date c)
      (filter (λ (j : ValuationJob). is_pending j && not (is_locked j.id)) jobs))

abbrev pub ids_of : List ValuationJob → List ℕ
ids_of = map (λ (j : ValuationJob). j.id)

-- The claimed jobs, in the order in which the update returns them, and the table.
unfoldable pub find_and_claim_eligible_jobs :
    Collation → (ℕ → Bool) → ℕ → ℕ → List ValuationJob → List ValuationJob × List ValuationJob
unfolding eligible_jobs update_rows id_in filter
find_and_claim_eligible_jobs c is_locked batch_size now jobs =
    let ids = ids_of (eligible_jobs c is_locked batch_size jobs) in
    let after = update_rows (λ (j : ValuationJob). id_in j.id ids) (claim now) jobs in
    (filter (λ (j : ValuationJob). id_in j.id ids) after, after)

-- The update is not confined to an epoch.
abbrev pub is_dated : String → String → ℕ → ValuationJob → Bool
is_dated portfolio_id security_id date j =
    str_eq j.portfolio_id portfolio_id
    && str_eq j.security_id security_id
    && (j.valuation_date == date)

abbrev pub reason_or : Option String → Option String → Option String
reason_or old none = old
reason_or old (some text) = if present (some text) then some text else old

abbrev pub with_status : JobStatus → Option String → ℕ → ValuationJob → ValuationJob
with_status status reason now j = record j {
  status = status;
  updated_at = now;
  attempt_count = suc j.attempt_count;
  failure_reason = reason_or j.failure_reason reason;
}

unfoldable pub update_job_status :
    String → String → ℕ → JobStatus → Option String → ℕ → List ValuationJob → List ValuationJob
unfolding str_eq update_rows present
update_job_status portfolio_id security_id date status reason now jobs =
    update_rows (is_dated portfolio_id security_id date) (with_status status reason now) jobs

abbrev pub is_stale : ℕ → ℕ → ValuationJob → Bool
is_stale timeout_minutes now j =
    is_processing j && ltb (j.updated_at + timeout_minutes * 60000000) now

abbrev pub reset : ℕ → ValuationJob → ValuationJob
reset now j = record j { status = pending; updated_at = now }

-- The number of jobs that are reset, and the table.
unfoldable pub find_and_reset_stale_jobs : ℕ → ℕ → List ValuationJob → ℕ × List ValuationJob
unfolding update_rows filter
find_and_reset_stale_jobs timeout_minutes now jobs = (
  length (filter (is_stale timeout_minutes now) jobs),
  update_rows (is_stale timeout_minutes now) (reset now) jobs,
)
