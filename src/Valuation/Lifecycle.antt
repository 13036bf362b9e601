-- ===== src/Valuation/Lifecycle.antt =====
-- The life of a valuation job: the table under every operation, and what an upsert does to a job.
use portfolio_analytics_syst.Prelude.{
  ℕ, ◌≤◌, String, Bool, true, false, ◌&&◌, Option, some, List, [], ◌∷◌, All, ◌==◌, ◌≡◌, refl, ap,
  ◌∙◌, arith, inl, inr, Bool-cases, str_eq, str_eq_self, str_eq_comm,
}
use portfolio_analytics_syst.Prelude.Collation.{Collation}
use portfolio_analytics_syst.Prelude.Tables.{
  id_in, update_rows, upsert_row, find_row, or_new, find_row-upsert_row, All-update_rows,
  All-upsert_row,
}
use portfolio_analytics_syst.Valuation.Jobs.{
  JobStatus, ValuationJob, JobKey, is_job, new_job, requeued, upsert_job, is_pending, claim,
  eligible_jobs, ids_of, find_and_claim_eligible_jobs, is_dated, with_status, update_job_status,
  is_stale, reset, find_and_reset_stale_jobs,
}

abbrev pub key_of : ValuationJob → JobKey
key_of j = record {
  portfolio_id = j.portfolio_id;
  security_id = j.security_id;
  valuation_date = j.valuation_date;
  epoch = j.epoch;
}

-- No two jobs of one key.
abbrev pub HasUniqueKeys : List ValuationJob → Type 0
HasUniqueKeys [] = Unit
HasUniqueKeys (j ∷ jobs) = All (λ x. is_job (key_of j) x ≡ false) jobs × HasUniqueKeys jobs

-- A job that is not pending has been attempted.
abbrev pub IsAttempted : ValuationJob → Type 0
IsAttempted j = (is_pending j ≡ false) → 1 ≤ j.attempt_count

abbrev pub IsWellFormed : List ValuationJob → Type 0
IsWellFormed jobs = HasUniqueKeys jobs × All IsAttempted jobs

-- The operations on the table, from whichever service calls them.
pub data Operation (c : Collation) (jobs : List ValuationJob) : List ValuationJob → Type 0 where
  upserts :
      (id now : ℕ) (k : JobKey) (correlation_id : Option String)
      → Operation c jobs (upsert_job id now k correlation_id jobs)
  claims :
      (is_locked : ℕ → Bool) (batch_size now : ℕ)
      → Operation c jobs (find_and_claim_eligible_jobs c is_locked batch_size now jobs).1
  updates :
      (portfolio_id security_id : String) (date : ℕ) (status : JobStatus) (reason : Option String)
      (now : ℕ)
      → Operation c jobs (update_job_status portfolio_id security_id date status reason now jobs)
  resets :
      (timeout_minutes now : ℕ)
      → Operation c jobs (find_and_reset_stale_jobs timeout_minutes now jobs).1

pub data Reach (c : Collation) : List ValuationJob → Type 0 where
  empty : Reach c []
  later :
      {before after : List ValuationJob} → Reach c before → Operation c before after → Reach c after

-- A change that leaves the key.
abbrev KeepsKey : (ValuationJob → ValuationJob) → Type 0
KeepsKey change = (j : ValuationJob) → key_of (change j) ≡ key_of j

abbrev same_key : JobKey → JobKey → Bool
same_key k q =
    str_eq k.portfolio_id q.portfolio_id
    && str_eq k.security_id q.security_id
    && (k.valuation_date == q.valuation_date)
    && (k.epoch == q.epoch)

same_key_comm : (k q : JobKey) → same_key k q ≡ same_key q k
same_key_comm k q =
    rw (str_eq_comm k.portfolio_id q.portfolio_id, str_eq_comm k.security_id q.security_id)
      (ground arith)

is_job_same : (k : JobKey) (i j : ValuationJob) → key_of i ≡ key_of j → is_job k i ≡ is_job k j
unfolding is_job
is_job_same k i j h = ap (same_key k) h

is_job_new :
    (id now : ℕ) (k : JobKey) (correlation_id : Option String) (j : ValuationJob)
    → is_job k j ≡ false
    → is_job (key_of j) (new_job id now k correlation_id) ≡ false
unfolding is_job
is_job_new id now k correlation_id j h = same_key_comm (key_of j) k ∙ h

is_job_self :
    (id now : ℕ) (k : JobKey) (correlation_id : Option String)
    → is_job k (new_job id now k correlation_id) ≡ true
unfolding is_job
is_job_self id now k correlation_id =
    rw (str_eq_self k.portfolio_id, str_eq_self k.security_id) (ground arith)

module _ (change : ValuationJob → ValuationJob) (keeps : KeepsKey change) where
  others_changed :
      (k : JobKey) (test : ValuationJob → Bool) (jobs : List ValuationJob)
      → All (λ x. is_job k x ≡ false) jobs
      → All (λ x. is_job k x ≡ false) (update_rows test change jobs)
  others_changed k test jobs h =
      All-update_rows (λ x. is_job k x ≡ false) test change jobs
        (λ x e. is_job_same k (change x) x (keeps x) ∙ e) h

  HasUniqueKeys-update_rows :
      (test : ValuationJob → Bool) (jobs : List ValuationJob)
      → HasUniqueKeys jobs
      → HasUniqueKeys (update_rows test change jobs)
  unfolding update_rows
  HasUniqueKeys-update_rows test [] h = tt
  HasUniqueKeys-update_rows test (j ∷ jobs) (h, hs) =
      let rest = others_changed (key_of j) test jobs h in
      let more = HasUniqueKeys-update_rows test jobs hs in
      elim (Bool-cases (test j)) [
        | inl e ↦ rw (e, keeps j) (rest, more)
        | inr e ↦ rw (e) (rest, more)
      ]

HasUniqueKeys-upsert_job :
    (id now : ℕ) (k : JobKey) (correlation_id : Option String) (jobs : List ValuationJob)
    → HasUniqueKeys jobs
    → HasUniqueKeys (upsert_job id now k correlation_id jobs)
unfolding upsert_job upsert_row
HasUniqueKeys-upsert_job id now k correlation_id [] h = (tt, tt)
HasUniqueKeys-upsert_job id now k correlation_id (j ∷ jobs) (h, hs) =
    elim (Bool-cases (is_job k j)) [
      | inl e ↦ rw (e) (h, hs)
      | inr e ↦ rw (e) (
        All-upsert_row (λ x. is_job (key_of j) x ≡ false) (is_job k) (requeued now correlation_id)
            (new_job id now k correlation_id) jobs (is_job_new id now k correlation_id j e)
            (λ x f. is_job_same (key_of j) (requeued now correlation_id x) x refl ∙ f) h,
        HasUniqueKeys-upsert_job id now k correlation_id jobs hs,
      )
    ]

preserved_at_once :
    (c : Collation) (before after : List ValuationJob)
    → Operation c before after
    → IsWellFormed before
    → IsWellFormed after
unfolding upsert_job find_and_claim_eligible_jobs update_job_status find_and_reset_stale_jobs
preserved_at_once c before _ (upserts id now k correlation_id) (u, a) = (
  HasUniqueKeys-upsert_job id now k correlation_id before u,
  All-upsert_row IsAttempted (is_job k) (requeued now correlation_id)
      (new_job id now k correlation_id) before (λ e. ground (arith, e)) (λ x f e. ground (arith, e))
      a,
)
preserved_at_once c before _ (claims is_locked batch_size now) (u, a) =
    let test : ValuationJob → Bool =
      λ (j : ValuationJob). id_in j.id (ids_of (eligible_jobs c is_locked batch_size before)) in
    (
      HasUniqueKeys-update_rows (claim now) (λ j. refl) test before u,
      All-update_rows IsAttempted test (claim now) before (λ x f e. omega arith) a,
    )
preserved_at_once c before _ (updates p s d status reason now) (u, a) = (
  HasUniqueKeys-update_rows (with_status status reason now) (λ j. refl) (is_dated p s d) before u,
  All-update_rows IsAttempted (is_dated p s d) (with_status status reason now) before
      (λ x f e. omega arith) a,
)
preserved_at_once c before _ (resets timeout_minutes now) (u, a) = (
  HasUniqueKeys-update_rows (reset now) (λ j. refl) (is_stale timeout_minutes now) before u,
  All-update_rows IsAttempted (is_stale timeout_minutes now) (reset now) before
      (λ x f e. ground (arith, e)) a,
)

-- Whatever the services do to the table, in whatever order, from the empty table on: there is one
-- job of a key at most, and a job that is not pending has been attempted.
pub reach-IsWellFormed :
    (c : Collation) (jobs : List ValuationJob) → Reach c jobs → IsWellFormed jobs
reach-IsWellFormed c _ empty = (tt, tt)
reach-IsWellFormed c _ (later {before} {after} reached operation) =
    preserved_at_once c before after operation (reach-IsWellFormed c before reached)

-- A job that is upserted is found pending, with the correlation id of the request, whatever became of
-- it before; a job that was there keeps its attempts and the reason of its last failure.
pub find_row-upsert_job :
    (id now : ℕ) (k : JobKey) (correlation_id : Option String) (jobs : List ValuationJob)
    → find_row (is_job k) (upsert_job id now k correlation_id jobs)
      ≡ some (
          or_new
            (requeued now correlation_id)
            (new_job id now k correlation_id)
            (find_row (is_job k) jobs))
unfolding upsert_job
find_row-upsert_job id now k correlation_id jobs =
    find_row-upsert_row (is_job k) (requeued now correlation_id) (new_job id now k correlation_id)
      jobs (is_job_self id now k correlation_id)
      (λ j e. is_job_same k (requeued now correlation_id j) j refl ∙ e)
